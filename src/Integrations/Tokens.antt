-- ===== src/Integrations/Tokens.antt =====
-- Access tokens and their renewal, and the fetch of insights with them.
use in_work_marketing_os_bac.Base.{
  ℕ, ◌+◌, ◌*◌, Bool, true, false, Option, none, some, List, [], or_else, ltb, if◌then◌else◌, map,
}
use in_work_marketing_os_bac.Model.Tables.{Text}
use in_work_marketing_os_bac.Analytics.{
  SocialPlatform, facebook, google, google_lsa, ga4, seo, AnalyticsDailyIn,
}
use in_work_marketing_os_bac.Integrations.{
  IntegrationKey, meta_family, family, is_app_error, Reply, raised, gave, ◌>>=◌, Integration,
}
use in_work_marketing_os_bac.Integrations.Binding.{Tokens, Providers, truthy, expiry}

-- the platform that the rows of a provider are booked under, `_GOOGLE_PLATFORM` for the Google family
abbrev pub platform_of : IntegrationKey → SocialPlatform
platform_of IntegrationKey.meta = facebook
platform_of IntegrationKey.linkedin = SocialPlatform.linkedin
platform_of IntegrationKey.google_ads = google
platform_of IntegrationKey.google_lsa = google_lsa
platform_of IntegrationKey.ga4 = ga4
platform_of IntegrationKey.search_console = seo
platform_of IntegrationKey.ghl = SocialPlatform.ghl

abbrev pub booked : SocialPlatform → AnalyticsDailyIn → AnalyticsDailyIn
booked platform row = record row { platform = platform }

module _ (p : Providers) (now : ℕ) where
  -- `expires is None or expires > now + margin`
  abbrev pub is_fresh : ℕ → Option ℕ → Bool
  is_fresh margin none = true
  is_fresh margin (some t) = ltb (now + margin) t

  abbrev pub renewed : Integration → Tokens → Text → Integration
  renewed i tokens access = record i {
    access_token_encrypted = some (p.encrypt access);
    token_expires_at = expiry now tokens.expires_in;
  }

  -- the stored token after an attempt to renew it; a failure of the application falls back to it
  abbrev pub extended : Integration → Text → Reply Tokens → Integration × Reply Text
  extended i current (raised e) = if is_app_error e then (i, gave current) else (i, raised e)
  extended i current (gave tokens) = elim (truthy tokens.access_token) [
    | none ↦ (i, gave current)
    | some token ↦ (renewed i tokens token, gave token)
  ]

  -- `_meta_access_token`
  unfoldable pub meta_access_token : Integration → Integration × Reply Text
  meta_access_token i = elim (p.decrypt (or_else i.access_token_encrypted [])) [
    | raised e ↦ (i, raised e)
    | gave current ↦ elim (is_fresh (7 * 86400) i.token_expires_at) [
      | true ↦ (i, gave current)
      | false ↦ extended i current (p.exchange_long_lived current)
    ]
  ]

  abbrev pub refreshed : Integration → Reply Tokens → Integration × Reply Text
  refreshed i (raised e) = (i, raised e)
  refreshed i (gave tokens) = elim (truthy tokens.access_token) [
    | none ↦ (i, p.decrypt (or_else i.access_token_encrypted []))
    | some access ↦ (renewed i tokens access, gave access)
  ]

  -- `_google_access_token`, `_linkedin_access_token`
  unfoldable pub refresh_token : IntegrationKey → Integration → Integration × Reply Text
  refresh_token key i = elim (truthy i.refresh_token_encrypted) [
    | none ↦ (i, p.decrypt (or_else i.access_token_encrypted []))
    | some stored ↦ elim (is_fresh 60 i.token_expires_at) [
      | true ↦ (i, p.decrypt (or_else i.access_token_encrypted []))
      | false ↦ refreshed i (p.decrypt stored >>= λ token. p.refresh_access_token key token)
    ]
  ]

  abbrev pub access_token : IntegrationKey → Integration → Integration × Reply Text
  access_token key i = elim (family key) [
    | meta_family ↦ meta_access_token i
    | _ ↦ refresh_token key i
  ]

  -- `_fetch_insights`: the connection with its renewed tokens, and the rows
  unfoldable pub fetch_insights :
      Integration → IntegrationKey → Integration × Reply (List AnalyticsDailyIn)
  fetch_insights i key =
      let (i', token) = access_token key i in
      (
        i',
        token >>= λ t.
            p.fetch_daily_insights key t (or_else i.external_account_id []) i.login_customer_id
            >>= λ facts. gave (map (booked (platform_of key)) facts),
      )
