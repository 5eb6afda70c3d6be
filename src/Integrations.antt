-- ===== src/Integrations.antt =====
-- Connections of clients to providers: app/services/integration_service.py and
-- app/repositories/integration_repository.py. The GHL agency connection and the best-effort breakdowns
-- that follow a sync in other tables are left out.
use in_work_marketing_os_bac.Base.{
  ℕ, ◌+◌, Bool, true, false, Option, none, some, List, [], ◌∷◌, ◌++◌, ◌==◌, ◌&&◌, ◌||◌, codes, any,
  is_some, or_else, if◌then◌else◌, find_by, update_if, map, ◌≡◌, refl,
}
use in_work_marketing_os_bac.Errors.{Exn, Message, text, with_name, bad_request, not_found}
use in_work_marketing_os_bac.Model.Tables.{Text}
use in_work_marketing_os_bac.Audit.{text_eq}
pub mod OauthState
pub mod Binding
pub mod Tokens
pub mod Sync
pub mod Outcome
pub mod Completion

pub data IntegrationKey : Type 0 where
  ga4 search_console google_ads google_lsa meta linkedin ghl : IntegrationKey

abbrev pub key_value : IntegrationKey → Text
key_value ga4 = codes "ga4"
key_value search_console = codes "search_console"
key_value google_ads = codes "google_ads"
key_value google_lsa = codes "google_lsa"
key_value meta = codes "meta"
key_value linkedin = codes "linkedin"
key_value ghl = codes "ghl"

-- the members are strings
abbrev pub key_eq : IntegrationKey → IntegrationKey → Bool
key_eq a b = text_eq (key_value a) (key_value b)

pub data Family : Type 0 where
  meta_family google_family linkedin_family no_family : Family

-- `_META_KEYS`, `_GOOGLE_KEYS`, `_LINKEDIN_KEYS`; `_REAL_KEYS` are all of these
abbrev pub family : IntegrationKey → Family
family meta = meta_family
family linkedin = linkedin_family
family ghl = no_family
family _ = google_family

abbrev pub is_google_ads : IntegrationKey → Bool
is_google_ads google_ads = true
is_google_ads _ = false

pub data IntegrationStatus : Type 0 where
  connected disconnected error pending needs_reauth : IntegrationStatus

abbrev pub is_connected : IntegrationStatus → Bool
is_connected connected = true
is_connected _ = false

-- What a call raises: an `AppError` of the application or of a provider client (with
-- `ProviderAuthError` apart), or any other exception.
pub data Failure : Type 0 where
  app : Exn → Failure
  provider_auth upstream other : Text → Failure

abbrev pub is_app_error : Failure → Bool
is_app_error (other t) = false
is_app_error _ = true

-- The text of `last_error`: of an exception, or of one in the sync right after a connection was made.
pub data ErrorText : Type 0 where
  of_exception first_sync_failed : Failure → ErrorText

-- A call that raises or returns.
pub data Reply {ℓ} (A : Type ℓ) : Type ℓ where
  raised : Failure → Reply A
  gave : A → Reply A

infixl 5 ◌>>=◌ ◌>>◌
abbrev pub ◌>>=◌ {ℓ κ} : {A : Type ℓ} {B : Type κ} → Reply A → (A → Reply B) → Reply B
raised e >>= f = raised e
gave a >>= f = f a

abbrev pub ◌>>◌ {κ} : {B : Type κ} → Reply (Unit {0}) → Reply B → Reply B
m >> k = m >>= λ _. k

-- Inversion of a call that returned.
pub >>=-eq-gave {ℓ κ} :
    {A : Type ℓ} {B : Type κ} (m : Reply A) (f : A → Reply B) {b : B}
    → (m >>= f) ≡ gave b
    → (a : A) × (m ≡ gave a) × (f a ≡ gave b)
>>=-eq-gave (raised e) f h = cc
>>=-eq-gave (gave a) f h = (a, refl, h)

abbrev pub raise_if : Bool → Exn → Reply (Unit {0})
raise_if true e = raised (app e)
raise_if false e = gave tt

pub record Integration : Type 0 where
  pub id : ℕ
  pub client_id : ℕ
  pub key : IntegrationKey
  pub status : IntegrationStatus
  pub account_label : Option Text
  pub external_account_id : Option Text
  pub login_customer_id : Option Text
  pub scopes : Option Text
  pub access_token_encrypted : Option Text
  pub refresh_token_encrypted : Option Text
  pub token_expires_at : Option ℕ
  pub last_sync_at : Option ℕ
  pub last_error : Option ErrorText

abbrev pub is_pair : ℕ → IntegrationKey → Integration → Bool
is_pair client_id key i = i.client_id == client_id && key_eq i.key key

unfoldable pub get_for_client : List Integration → ℕ → IntegrationKey → Option Integration
get_for_client rows client_id key = find_by (is_pair client_id key) rows

-- `get`
unfoldable pub get : List Integration → ℕ → IntegrationKey → Reply Integration
get rows client_id key = elim (get_for_client rows client_id key) [
  | none ↦ raised (app (not_found (text "Integration not configured.")))
  | some i ↦ gave i
]

-- `Integration(client_id=client_id, key=key)`, also the synthesized `_disconnected_view`
abbrev pub new_integration : ℕ → ℕ → IntegrationKey → Integration
new_integration new_id client_id key = record {
  id = new_id;
  client_id = client_id;
  key = key;
  status = disconnected;
  account_label = none;
  external_account_id = none;
  login_customer_id = none;
  scopes = none;
  access_token_encrypted = none;
  refresh_token_encrypted = none;
  token_expires_at = none;
  last_sync_at = none;
  last_error = none;
}

-- The row of `_upsert`, in the table with it.
unfoldable pub upsert : ℕ → List Integration → ℕ → IntegrationKey → List Integration × Integration
upsert new_id rows client_id key = elim (get_for_client rows client_id key) [
  | some i ↦ (rows, i)
  | none ↦ (rows ++ new_integration new_id client_id key ∷ [], new_integration new_id client_id key)
]

-- What a commit leaves of the row `i`.
unfoldable pub save : List Integration → Integration → List Integration
save rows i = update_if (λ (r : Integration). r.id == i.id) (λ r. i) rows

-- `[key for key in IntegrationKey]`
abbrev pub catalog : List IntegrationKey
catalog = ga4 ∷ search_console ∷ google_ads ∷ google_lsa ∷ meta ∷ linkedin ∷ ghl ∷ []

-- `list`
unfoldable pub list_all : List Integration → ℕ → List Integration
list_all rows client_id =
    map (λ key. or_else (get_for_client rows client_id key) (new_integration 0 client_id key))
      catalog

pub record IntegrationConnectRequest : Type 0 where
  pub account_label : Option Text
  pub external_account_id : Option Text
  pub scopes : Option Text

abbrev pub simulated : ℕ → IntegrationConnectRequest → Integration → Integration
simulated now d i = record i {
  status = connected;
  account_label = d.account_label;
  external_account_id = d.external_account_id;
  scopes = d.scopes;
  last_sync_at = some now;
  last_error = none;
}

-- `connect`
unfoldable pub connect :
    ℕ
    → ℕ
    → List Integration
    → ℕ
    → IntegrationKey
    → IntegrationConnectRequest
    → List Integration × Integration
connect new_id now rows client_id key d =
    let (rows', i) = upsert new_id rows client_id key in
    (save rows' (simulated now d i), simulated now d i)

abbrev pub reset : Integration → Integration
reset i = record i {
  status = disconnected;
  access_token_encrypted = none;
  refresh_token_encrypted = none;
  token_expires_at = none;
}

-- `disconnect`
unfoldable pub disconnect :
    List Integration → ℕ → IntegrationKey → List Integration × Reply Integration
disconnect rows client_id key = elim (get rows client_id key) [
  | raised e ↦ (rows, raised e)
  | gave i ↦ (save rows (reset i), gave (reset i))
]
