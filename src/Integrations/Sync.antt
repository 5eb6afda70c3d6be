-- ===== src/Integrations/Sync.antt =====
-- The calls that reach a provider: the start and the end of an OAuth round trip, the choice of an account, and
-- the sync of insights, with the renewal of tokens.
use in_work_marketing_os_bac.Base.{
  ℕ, String, Bool, true, false, Option, none, some, List, [], ◌∷◌, ◌&&◌, not, is_some, or_else,
  if◌then◌else◌,
}
use in_work_marketing_os_bac.Errors.{text, with_name, bad_request}
use in_work_marketing_os_bac.Model.Tables.{Text}
use in_work_marketing_os_bac.Analytics.{AnalyticsDaily, connector, bulk_upsert}
use in_work_marketing_os_bac.Integrations.{
  IntegrationKey, Family, meta_family, google_family, linkedin_family, no_family, family, connected,
  error, pending, needs_reauth, is_connected, Failure, app, provider_auth, of_exception,
  first_sync_failed, Reply, raised, gave, ◌>>=◌, ◌>>◌, raise_if, Integration, get_for_client, get,
  upsert, save,
}
use in_work_marketing_os_bac.Integrations.OauthState.{Signing, sign_state, verify_state}
use in_work_marketing_os_bac.Integrations.Binding.{
  Account, Providers, truthy, picked, Choice, select_ad_account, select_google_account, bind_meta,
  bind_google, complete_meta, complete_google, complete_linkedin,
}
use in_work_marketing_os_bac.Integrations.Tokens.{refresh_token, fetch_insights}

-- The connections and the daily facts.
pub record Connectors : Type 0 where
  pub rows : List Integration
  pub cells : List AnalyticsDaily

abbrev pub is_auth : Failure → Bool
is_auth (provider_auth t) = true
is_auth _ = false

-- `_require_real`; its message also names the provider
abbrev pub require_real : IntegrationKey → Reply (Unit {0})
require_real key = elim (family key) [
  | no_family ↦
      raised (app (bad_request (text "Real OAuth is not yet available for this provider.")))
  | _ ↦ gave tt
]

abbrev pub is_linkedin_family : Family → Bool
is_linkedin_family linkedin_family = true
is_linkedin_family _ = false

abbrev pub not_connected : Failure
not_connected = app (bad_request (text "Integration is not connected — run OAuth first."))

abbrev pub require_connected : Integration → Reply (Unit {0})
require_connected i = elim (is_connected i.status && is_some (truthy i.access_token_encrypted)) [
  | true ↦ gave tt
  | false ↦ raised not_connected
]

-- The checks of `sync` before it calls the provider.
unfoldable pub syncable : List Integration → ℕ → IntegrationKey → Reply Integration
syncable rows client_id key = do
  require_real key
  i ← get rows client_id key
  require_connected i
  raise_if (not (is_linkedin_family (family key)) && not (is_some (truthy i.external_account_id)))
      (bad_request (text "No account is bound yet — finish account selection before syncing."))
  gave i

abbrev pub failed_sync : Failure → Integration → Integration
failed_sync e i = record i {
  status = if is_auth e then needs_reauth else error;
  last_error = some (of_exception e);
}

abbrev pub reconnected : Failure → Integration → Integration
reconnected e i = record i { status = connected; last_error = some (first_sync_failed e) }

abbrev pub completed : Integration → Integration
completed i = record i { status = connected; last_error = none }

-- whether `select_account` serves the provider
abbrev pub has_accounts : Family → Bool
has_accounts meta_family = true
has_accounts google_family = true
has_accounts _ = false

abbrev pub selectable : List Integration → ℕ → IntegrationKey → Reply Integration
selectable rows client_id key = do
  raise_if (not (has_accounts (family key)))
      (bad_request (text "Ad account selection is not available for this provider."))
  i ← get rows client_id key
  require_connected i
  gave i

abbrev pub inaccessible : String → Failure
inaccessible name = app (
    bad_request
      (with_name "The requested {} account isn't accessible to the authorized user." name))

abbrev pub bind_chosen : IntegrationKey → Option Text → Integration → Choice → Reply Integration
bind_chosen key login_customer_id i choice = elim (family key) [
  | meta_family ↦ elim choice [
    | picked a ↦ gave (bind_meta a i)
    | _ ↦ raised (inaccessible "Meta ad")
  ]
  | _ ↦ elim choice [
    | picked a ↦ gave (bind_google key login_customer_id a i)
    | _ ↦ raised (inaccessible "Google")
  ]
]

abbrev pub synced : ℕ → Integration → Integration
synced now i = record i { status = connected; last_sync_at = some now; last_error = none }

-- What `_try_sync_after_connect` makes of the sync.
abbrev pub settled :
    ℕ → IntegrationKey → Integration → Connectors × Reply Integration → Connectors × Integration
settled client_id key i (s, gave i') = (s, i')
settled client_id key i (s, raised e) =
    let current = or_else (get_for_client s.rows client_id key) i in
    (record s { rows = save s.rows (reconnected e current) }, reconnected e current)

module _ (p : Providers) (now : ℕ) where
  -- `sync` after its checks
  unfoldable pub pull :
      Connectors → ℕ → IntegrationKey → Integration → Connectors × Reply Integration
  pull s client_id key i =
      let (i', answer) = fetch_insights p now i key in
      elim answer [
        | raised e ↦ (record s { rows = save s.rows (failed_sync e i') }, raised e)
        | gave facts ↦ (
          record {
            rows = save s.rows (synced now i');
            cells = (bulk_upsert client_id connector facts s.cells).0;
          },
          gave (synced now i'),
        )
      ]

  -- `sync`
  unfoldable pub sync : Connectors → ℕ → IntegrationKey → Connectors × Reply Integration
  sync s client_id key = elim (syncable s.rows client_id key) [
    | raised e ↦ (s, raised e)
    | gave i ↦ pull s client_id key i
  ]

  -- `_try_sync_after_connect`, of the connection `i`
  unfoldable pub try_sync_after_connect :
      Connectors → ℕ → IntegrationKey → Integration → Connectors × Integration
  try_sync_after_connect s client_id key i = settled client_id key i (sync s client_id key)

  -- the completion by the provider's own steps
  unfoldable pub complete_by :
      Integration
      → IntegrationKey
      → Text
      → Option Text
      → Option Text
      → Reply (Integration × List Account)
  complete_by i key code ad_account_id login_customer_id = elim (family key) [
    | meta_family ↦ complete_meta p now i code ad_account_id
    | linkedin_family ↦ complete_linkedin p now i code >>= λ i'. gave (i', [])
    | _ ↦ complete_google p now i key code ad_account_id login_customer_id
  ]

  abbrev pub first_sync :
      Connectors
      → ℕ
      → IntegrationKey
      → Integration
      → List Account
      → Connectors × Reply (Integration × List Account)
  first_sync s client_id key i [] =
      let (s', i') = try_sync_after_connect s client_id key i in (s', gave (i', []))
  first_sync s client_id key i (a ∷ accounts) = (s, gave (i, a ∷ accounts))

module _ (lib : Signing) (p : Providers) (now : ℕ) (new_id : ℕ) where
  -- `oauth_start`
  unfoldable pub oauth_start :
      List Integration → ℕ → IntegrationKey → List Integration × Reply (Text × Text)
  oauth_start rows client_id key =
      let state = sign_state lib now client_id key in
      let (rows', i) = upsert new_id rows client_id key in
      elim (require_real key >> p.authorization_url key state) [
        | raised e ↦ (rows, raised e)
        | gave url ↦ (save rows' (record i { status = pending }), gave (url, state))
      ]

  -- `oauth_complete`; an exception rolls the session back
  unfoldable pub oauth_complete :
      Connectors
      → ℕ
      → IntegrationKey
      → Text
      → Text
      → Option Text
      → Option Text
      → Connectors × Reply (Integration × List Account)
  oauth_complete s client_id key code state ad_account_id login_customer_id =
      let (rows, i) = upsert new_id s.rows client_id key in
      elim (require_real key
        >> raise_if (not (verify_state lib now state client_id key))
            (bad_request (text "Invalid or expired OAuth state."))
        >> complete_by p now i key code ad_account_id login_customer_id) [
          | raised e ↦ (s, raised e)
          | gave (i', accounts) ↦
              first_sync p now (record s { rows = save rows (completed i') }) client_id key
                (completed i') accounts
        ]

module _ (p : Providers) (now : ℕ) where
  -- The steps of `select_account` up to its commit: the connection with renewed tokens, and with its account.
  unfoldable pub choose_account :
      Integration → IntegrationKey → Text → Option Text → Integration × Reply Integration
  choose_account i key ad_account_id login_customer_id = elim (family key) [
    | meta_family ↦ (
      i,
      p.decrypt (or_else i.access_token_encrypted []) >>= λ token.
          p.list_accounts key token >>= λ accounts.
          select_ad_account accounts (some ad_account_id) >>= bind_chosen key login_customer_id i,
    )
    | _ ↦
        let (i', token) = refresh_token p now key i in
        (
          i',
          token >>= λ access. p.list_accounts key access >>= λ accounts.
              select_google_account accounts (some ad_account_id)
              >>= bind_chosen key login_customer_id i',
        )
  ]

  -- `select_account`
  unfoldable pub select_account :
      Connectors → ℕ → IntegrationKey → Text → Option Text → Connectors × Reply Integration
  select_account s client_id key ad_account_id login_customer_id =
      elim (selectable s.rows client_id key) [
        | raised e ↦ (s, raised e)
        | gave i ↦
            let (i', chosen) = choose_account i key ad_account_id login_customer_id in
            elim chosen [
              | raised e ↦ (record s { rows = save s.rows i' }, raised e)
              | gave bound ↦
                  let (s', last) =
                    try_sync_after_connect p now (record s { rows = save s.rows bound }) client_id
                      key bound in
                  (s', gave last)
            ]
      ]
