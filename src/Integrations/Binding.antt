-- ===== src/Integrations/Binding.antt =====
-- The completion of an OAuth round trip for each provider: tokens, and the account that is bound.
use in_work_marketing_os_bac.Base.{
  ℕ, String, ◌+◌, suc, Bool, Option, none, some, List, [], ◌∷◌, ◌==◌, ◌||◌, not, codes, drop,
  or_else, if◌then◌else◌, find_by, keep_if,
}
use in_work_marketing_os_bac.Errors.{with_name, bad_request}
use in_work_marketing_os_bac.Model.Tables.{Text}
use in_work_marketing_os_bac.Audit.{text_eq}
use in_work_marketing_os_bac.Chunking.{starts_with}
use in_work_marketing_os_bac.Analytics.{AnalyticsDailyIn}
use in_work_marketing_os_bac.Integrations.{
  IntegrationKey, meta, linkedin, is_google_ads, app, Reply, raised, gave, ◌>>=◌, Integration,
}

-- A provider's answer at its token endpoint.
pub record Tokens : Type 0 where
  pub access_token : Option Text
  pub refresh_token : Option Text
  pub expires_in : Option ℕ

-- An ad account, property or site, as a dict of a provider client.
pub record Account : Type 0 where
  pub account_id : Option Text
  pub id : Option Text
  pub name : Option Text

-- The provider clients of app/integrations, the token cipher, and `_list_google_accounts`.
pub record Providers : Type 0 where
  pub authorization_url : IntegrationKey → Text → Reply Text
  pub exchange_code : IntegrationKey → Text → Reply Tokens
  pub exchange_long_lived : Text → Reply Tokens
  pub refresh_access_token : IntegrationKey → Text → Reply Tokens
  pub list_accounts : IntegrationKey → Text → Reply (List Account)
  pub fetch_daily_insights :
      IntegrationKey → Text → Text → Option Text → Reply (List AnalyticsDailyIn)
  pub scopes : IntegrationKey → Text
  pub encrypt : Text → Text
  pub decrypt : Text → Reply Text

-- A text that is there and not empty.
abbrev pub truthy : Option Text → Option Text
truthy none = none
truthy (some []) = none
truthy (some (c ∷ t)) = some (c ∷ t)

-- `a or b`
abbrev pub either : Option Text → Option Text → Option Text
either a b = elim (truthy a) [ none ↦ b | some t ↦ some t ]

abbrev pub either_time : Option ℕ → Option ℕ → Option ℕ
either_time (some (suc n)) b = some (suc n)
either_time _ b = b

-- `_expiry`
abbrev pub expiry : ℕ → Option ℕ → Option ℕ
expiry now (some (suc n)) = some (now + suc n)
expiry now _ = none

-- `t.removeprefix("act_")`
abbrev pub remove_act : Text → Text
remove_act t = if starts_with (codes "act_") t then drop 4 t else t

-- `t.replace("-", "")`
unfoldable pub remove_dashes : Text → Text
remove_dashes t = keep_if (λ c. not (c == b'-')) t

pub data Choice : Type 0 where
  picked : Account → Choice
  -- `{}`
  unbound : Choice
  -- `None`
  ask : Choice

abbrev pub is_ad_account : Text → Account → Bool
is_ad_account want a =
    text_eq (remove_act (or_else a.account_id [])) want
    || text_eq (remove_act (or_else a.id [])) want

-- `_select_ad_account`
unfoldable pub select_ad_account : List Account → Option Text → Reply Choice
select_ad_account accounts requested = elim (truthy requested) [
  | some want ↦ elim (find_by (is_ad_account (remove_act want)) accounts) [
    | some a ↦ gave (picked a)
    | none ↦ raised (
        app (
          bad_request (
            with_name "The requested {} account isn't accessible to the authorized user."
              "Meta ad")))
  ]
  | none ↦ elim accounts [ [] ↦ gave unbound | a ∷ rest ↦ gave ask ]
]

abbrev pub is_google_account : Text → Account → Bool
is_google_account want a = text_eq (remove_dashes (or_else a.id [])) want

-- `_select_google_account`
unfoldable pub select_google_account : List Account → Option Text → Reply Choice
select_google_account accounts requested = elim (truthy requested) [
  | some want ↦ elim (find_by (is_google_account (remove_dashes want)) accounts) [
    | some a ↦ gave (picked a)
    | none ↦ raised (
        app (
          bad_request (
            with_name "The requested {} account isn't accessible to the authorized user."
              "Google")))
  ]
  | none ↦ gave ask
]

abbrev pub bind_meta : Account → Integration → Integration
bind_meta a i = record i { external_account_id = either a.account_id a.id; account_label = a.name }

abbrev pub bind_google : IntegrationKey → Option Text → Account → Integration → Integration
bind_google key login_customer_id a i = record i {
  external_account_id = a.id;
  account_label = either a.name a.id;
  login_customer_id = if is_google_ads key then login_customer_id else i.login_customer_id;
}

abbrev pub bind_none : Integration → Integration
bind_none i = record i { external_account_id = none; account_label = none }

abbrev pub need_token : String → Option Text → Reply Text
need_token name none =
    raised (app (bad_request (with_name "{} did not return an access token." name)))
need_token name (some t) = gave t

module _ (p : Providers) (now : ℕ) where
  -- `_complete_meta`
  unfoldable pub complete_meta :
      Integration → Text → Option Text → Reply (Integration × List Account)
  complete_meta i code ad_account_id = do
    short ← p.exchange_code meta code
    long_lived ← p.exchange_long_lived (or_else short.access_token [])
    token ← need_token "Meta" (truthy (either long_lived.access_token short.access_token))
    accounts ← p.list_accounts meta token
    choice ← select_ad_account accounts ad_account_id
    let held = record i {
      access_token_encrypted = some (p.encrypt token);
      refresh_token_encrypted = none;
      token_expires_at = expiry now (either_time long_lived.expires_in short.expires_in);
      scopes = some (p.scopes meta);
    }
    gave (elim choice [
      | ask ↦ (bind_none held, accounts)
      | unbound ↦ (bind_none held, [])
      | picked a ↦ (bind_meta a held, [])
    ])

  abbrev pub kept_refresh : Option Text → Option Text → Option Text
  kept_refresh old none = old
  kept_refresh old (some t) = some (p.encrypt t)

  -- `_complete_google`
  unfoldable pub complete_google :
      Integration
      → IntegrationKey
      → Text
      → Option Text
      → Option Text
      → Reply (Integration × List Account)
  complete_google i key code ad_account_id login_customer_id = do
    tokens ← p.exchange_code key code
    access ← need_token "Google" (truthy tokens.access_token)
    accounts ← p.list_accounts key access
    choice ← select_google_account accounts ad_account_id
    let held = record i {
      access_token_encrypted = some (p.encrypt access);
      refresh_token_encrypted =
          kept_refresh i.refresh_token_encrypted (truthy tokens.refresh_token);
      token_expires_at = expiry now tokens.expires_in;
      scopes = some (p.scopes key);
    }
    gave (elim choice [
      | picked a ↦ (bind_google key login_customer_id a held, [])
      | _ ↦ (bind_none held, accounts)
    ])

  abbrev pub bind_first : List Account → Integration → Integration
  bind_first [] i = bind_none i
  bind_first (a ∷ rest) i = record i {
    external_account_id = a.id;
    account_label = either a.name a.id;
  }

  -- `_complete_linkedin`
  unfoldable pub complete_linkedin : Integration → Text → Reply Integration
  complete_linkedin i code = do
    tokens ← p.exchange_code linkedin code
    access ← need_token "LinkedIn" (truthy tokens.access_token)
    accounts ← p.list_accounts linkedin access
    gave (
        bind_first accounts (record i {
          access_token_encrypted = some (p.encrypt access);
          refresh_token_encrypted = kept_refresh none (truthy tokens.refresh_token);
          token_expires_at = expiry now tokens.expires_in;
          scopes = some (p.scopes linkedin);
        }))
