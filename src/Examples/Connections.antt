-- ===== src/Examples/Connections.antt =====
-- A Meta connection whose first sync fails, and the daily facts of a batch.
use in_work_marketing_os_bac.Base.{
  ℕ, ◌+◌, ◌-◌, true, false, Option, none, some, [], ◌∷◌, ◌++◌, ◌==◌, ◌≡◌, ◌&&◌, refl, arith, length,
  leb, count, find_by, codes, ◌≤◌, update_if,
}
use in_work_marketing_os_bac.Base.Rows.{has_key}
use in_work_marketing_os_bac.Model.Tables.{Text}
use in_work_marketing_os_bac.Analytics.{
  facebook, connector, synthetic, AnalyticsDailyIn, AnalyticsDaily, bulk_upsert,
}
use in_work_marketing_os_bac.Analytics.Cells.{cell, written, last_row, cell-bulk_upsert}
use in_work_marketing_os_bac.Integrations.{
  IntegrationKey, connected, first_sync_failed, Failure, raised, gave, Integration, key_value,
  key_eq, new_integration, get_for_client, upsert, get, save,
}
use in_work_marketing_os_bac.Integrations.OauthState.{
  Signing, unpack, rsplit, has_colon, joined, hmac, sign_state, verify_state,
  verify_state-sign_state, verify_state_sound,
}
use in_work_marketing_os_bac.Integrations.Binding.{Providers, complete_meta, select_ad_account}
use in_work_marketing_os_bac.Integrations.Tokens.{fetch_insights, meta_access_token}
use in_work_marketing_os_bac.Integrations.Sync.{
  Connectors, syncable, sync, pull, complete_by, try_sync_after_connect, failed_sync, not_connected,
  oauth_complete,
}
use in_work_marketing_os_bac.Integrations.Outcome.{HasUniqueIds, id_of, sync_failed}
use in_work_marketing_os_bac.Integrations.Completion.{IsUp, oauth_complete-IsUp}

-- A number as one character behind the colon.
abbrev spelled : ℕ → Text
spelled n = (n + 59) ∷ []

abbrev read : Text → Option ℕ
read (c ∷ []) = some (c - 59)
read _ = none

spelled-has_colon : (n : ℕ) → has_colon (spelled n) ≡ false
spelled-has_colon n = ground arith

spelled_injective : (a b : ℕ) → spelled a ≡ spelled b → a ≡ b
spelled_injective a b h = ground arith

read-spelled : (n : ℕ) → read (spelled n) ≡ some n
read-spelled n = ground arith

abbrev signing : Signing
signing = record {
  spell_uuid = spelled;
  spell_int = spelled;
  int_of = read;
  b64encode = λ t. t;
  b64decode = λ t. some t;
  hexdigest = λ t. spelled (length t);
  spell_uuid_injective = spelled_injective;
  spell_int-has_colon = spelled-has_colon;
  int_of-spell_int = read-spelled;
  b64decode-encode = λ t. refl;
  hexdigest-has_colon = λ t. spelled-has_colon (length t);
}

verify_state-sign_state_example :
    verify_state signing 700 (sign_state signing 500 1 IntegrationKey.meta) 2 IntegrationKey.meta
    ≡ (1 == 2 && key_eq IntegrationKey.meta IntegrationKey.meta && leb (700 - 500) 600)
verify_state-sign_state_example =
    verify_state-sign_state signing 500 700 1 2 IntegrationKey.meta IntegrationKey.meta

abbrev state : Text
state = sign_state signing 500 1 IntegrationKey.meta

state_verifies : verify_state signing 700 state 1 IntegrationKey.meta ≡ true
state_verifies = verify_state-sign_state signing 500 700 1 1 IntegrationKey.meta IntegrationKey.meta

verify_state_sound_example :
    (ts : Text) × (n : ℕ) × (read ts ≡ some n)
    × (700 - n ≤ 600)
    × (let raw = joined (spelled 1) (key_value IntegrationKey.meta) ts in
        some state ≡ some (raw ++ b':' ∷ hmac signing raw))
verify_state_sound_example =
    verify_state_sound signing 700 state 1 IntegrationKey.meta state_verifies

-- A provider with one account, which answers no request for insights.
abbrev down : Providers
down = record {
  authorization_url = λ k t. gave t;
  exchange_code =
      λ k t. gave (record { access_token = some t; refresh_token = none; expires_in = none });
  exchange_long_lived =
      λ t. gave (record { access_token = some t; refresh_token = none; expires_in = none });
  refresh_access_token = λ k t. raised (Failure.other []);
  list_accounts =
      λ k t. gave (record { account_id = some (codes "7"); id = none; name = none } ∷ []);
  fetch_daily_insights = λ k t a l. raised (Failure.upstream (codes "down"));
  scopes = λ k. [];
  encrypt = λ t. t;
  decrypt = λ t. gave t;
}

abbrev link : Integration
link = record (new_integration 5 1 IntegrationKey.meta) {
  status = connected;
  external_account_id = some (codes "7");
  access_token_encrypted = some (codes "t");
}

abbrev links : Connectors
links = record { rows = link ∷ []; cells = [] }

one_link : HasUniqueIds links.rows
unfolding count
one_link m = ground arith

link_syncable : syncable links.rows 1 IntegrationKey.meta ≡ gave link
unfolding syncable get get_for_client find_by
link_syncable = refl

link_fails :
    (fetch_insights down 9 link IntegrationKey.meta).1 ≡ raised (Failure.upstream (codes "down"))
unfolding fetch_insights meta_access_token
link_fails = refl

sync_failed_example :
    let s' = (sync down 9 links 1 IntegrationKey.meta).0 in
    ((sync down 9 links 1 IntegrationKey.meta).1 ≡ raised (Failure.upstream (codes "down")))
    × (s'.cells ≡ [])
    × (get_for_client s'.rows 1 IntegrationKey.meta
        ≡ some (
            failed_sync
              (Failure.upstream (codes "down"))
              (fetch_insights down 9 link IntegrationKey.meta).0))
    × (sync down 99 s' 1 IntegrationKey.meta ≡ (s', raised not_connected))
sync_failed_example =
    sync_failed down down 9 99 links 1 IntegrationKey.meta link (Failure.upstream (codes "down"))
      one_link link_syncable link_fails

-- The round trip from an empty table, with the account chosen; the sync that follows it fails.
abbrev nothing_yet : Connectors
nothing_yet = record { rows = []; cells = [] }

no_links : HasUniqueIds []
unfolding count
no_links m = omega arith

no_id : find_by (has_key id_of 5) nothing_yet.rows ≡ none
unfolding find_by
no_id = refl

abbrev linked : Integration
linked = record (new_integration 5 1 IntegrationKey.meta) {
  status = connected;
  external_account_id = some (codes "7");
  scopes = some [];
  access_token_encrypted = some (codes "c");
  last_error = some (first_sync_failed (Failure.upstream (codes "down")));
}

completes :
    oauth_complete signing down 700 5 nothing_yet 1 IntegrationKey.meta
      (codes "c")
      state
      (some (codes "act_7"))
      none
    ≡ (record { rows = linked ∷ []; cells = [] }, gave (linked, []))
unfolding oauth_complete upsert get_for_client find_by verify_state unpack rsplit sign_state
    complete_by complete_meta select_ad_account save update_if try_sync_after_connect sync syncable
    get pull fetch_insights meta_access_token
completes = refl

oauth_complete-IsUp_example :
    (verify_state signing 700 state 1 IntegrationKey.meta ≡ true)
    × IsUp (record { rows = linked ∷ []; cells = [] }) 1 IntegrationKey.meta linked
oauth_complete-IsUp_example =
    oauth_complete-IsUp signing down 700 5 nothing_yet 1 IntegrationKey.meta (codes "c") state
      (some (codes "act_7")) none (record { rows = linked ∷ []; cells = [] }) linked [] no_links
      no_id completes

-- Two rows for one day.
abbrev clicks : ℕ → AnalyticsDailyIn
clicks n = record {
  date = 3;
  platform = facebook;
  metrics = record {
    impressions = 0;
    clicks = n;
    conversions = 0;
    leads = 0;
    spend = 0;
    revenue = 0;
  };
}

abbrev seeded : AnalyticsDaily
seeded = record {
  client_id = 2;
  date = 3;
  platform = facebook;
  metrics = (clicks 8).metrics;
  source = synthetic;
}

cell-bulk_upsert_example :
    (cell 1 3 facebook (bulk_upsert 1 connector (clicks 4 ∷ clicks 5 ∷ []) (seeded ∷ [])).0
      ≡ written connector
          (last_row 3 facebook (clicks 4 ∷ clicks 5 ∷ []) none)
          (cell 1 3 facebook (seeded ∷ [])))
    × (cell 2 3 facebook (bulk_upsert 1 connector (clicks 4 ∷ clicks 5 ∷ []) (seeded ∷ [])).0
        ≡ cell 2 3 facebook (seeded ∷ []))
cell-bulk_upsert_example =
    cell-bulk_upsert 1 connector 3 facebook 2 (clicks 4 ∷ clicks 5 ∷ []) (seeded ∷ [])
      (λ e. absurd (omega arith))
