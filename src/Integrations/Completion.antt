-- ===== src/Integrations/Completion.antt =====
-- What a completed OAuth round trip leaves of the connection.
use in_work_marketing_os_bac.Base.{
  ℕ, Bool, true, false, Option, none, some, List, [], ◌∷◌, ◌==◌, ◌≡◌, refl, arith, is_some, find_by,
  count, Option-cases, inl, inr, ap, bit, ==_refl, ==_iff, not,
}
use in_work_marketing_os_bac.Base.Rows.{has_key, find_by-append, count-append, count_zero}
use in_work_marketing_os_bac.Errors.{Exn, bad_request, text}
use in_work_marketing_os_bac.Model.Tables.{Text}
use in_work_marketing_os_bac.Audit.Laws.{text_eq_refl}
use in_work_marketing_os_bac.Analytics.{connector, bulk_upsert}
use in_work_marketing_os_bac.Integrations.{
  IntegrationKey, Reply, raised, gave, Integration, connected, >>=-eq-gave, raise_if, ◌>>◌, is_pair,
  get_for_client, save, upsert, new_integration, key_value,
}
use in_work_marketing_os_bac.Integrations.OauthState.{Signing, verify_state}
use in_work_marketing_os_bac.Integrations.Binding.{
  Providers, Account, complete_meta, complete_google, complete_linkedin,
}
use in_work_marketing_os_bac.Integrations.Tokens.{fetch_insights, meta_access_token, refresh_token}
use in_work_marketing_os_bac.Integrations.Sync.{
  Connectors, require_real, syncable, pull, sync, failed_sync, synced, reconnected,
  try_sync_after_connect, completed, oauth_complete, first_sync, complete_by,
}
use in_work_marketing_os_bac.Integrations.Outcome.{
  id_of, HasUniqueIds, IsVersion, Reply-cases, get_for_client-save, save-HasUniqueIds,
  fetch_insights-IsVersion, syncable_sound,
}

abbrev pub HasToken : Integration → Type 0
HasToken i = is_some i.access_token_encrypted ≡ true

-- A version of the row that holds a token.
abbrev IsHolder : Integration → Integration → Type 0
IsHolder i j = IsVersion i j × HasToken j

fetch_insights-HasToken :
    (p : Providers) (now : ℕ) (i : Integration) (key : IntegrationKey)
    → HasToken i
    → HasToken (fetch_insights p now i key).0
unfolding fetch_insights meta_access_token refresh_token
fetch_insights-HasToken p now i key h = ground arith

-- What a completed call leaves: a connected row with a token, in the table.
abbrev pub IsUp : Connectors → ℕ → IntegrationKey → Integration → Type 0
IsUp s client_id key i =
    (get_for_client s.rows client_id key ≡ some i) × (i.status ≡ connected) × HasToken i

try_sync-IsUp :
    (p : Providers) (now : ℕ) (s : Connectors) (client_id : ℕ) (key : IntegrationKey)
    (i : Integration)
    → HasUniqueIds s.rows
    → get_for_client s.rows client_id key ≡ some i
    → HasToken i
    → IsUp
        (try_sync_after_connect p now s client_id key i).0
        client_id
        key
        (try_sync_after_connect p now s client_id key i).1
unfolding try_sync_after_connect
try_sync-IsUp p now s client_id key i u found held =
    elim (Reply-cases (syncable s.rows client_id key)) [
      | inl (e, r) ↦
          let ran : sync p now s client_id key ≡ (s, raised e) = unfold sync in rw (r, sync) refl in
          rw (ran, try_sync_after_connect)
            (rw found (
              get_for_client-save client_id key i (reconnected e i) s.rows u found
                  (refl, refl, refl),
              refl,
              held,
            ))
      | inr (i0, r) ↦
          let same : i0 ≡ i = cc (found, (syncable_sound s.rows client_id key i0 r).0) in
          let version = fetch_insights-IsVersion p now i key in
          let token = fetch_insights-HasToken p now i key held in
          let j = (fetch_insights p now i key).0 in
          elim (Reply-cases (fetch_insights p now i key).1) [
            | inl (e, f) ↦
                let t : Connectors = record s { rows = save s.rows (failed_sync e j) } in
                let ran : sync p now s client_id key ≡ (t, raised e) =
                  unfold sync pull in rw (r, sync) (rw (same) (rw (f, pull) refl)) in
                let stored =
                  get_for_client-save client_id key i (failed_sync e j) s.rows u found version in
                rw (ran, try_sync_after_connect)
                  (rw stored (
                    get_for_client-save client_id key (failed_sync e j)
                        (reconnected e (failed_sync e j)) t.rows
                        (save-HasUniqueIds s.rows (failed_sync e j) u) stored (refl, refl, refl),
                    refl,
                    token,
                  ))
            | inr (facts, f) ↦
                let t : Connectors = record {
                  rows = save s.rows (synced now j);
                  cells = (bulk_upsert client_id connector facts s.cells).0;
                } in
                let ran : sync p now s client_id key ≡ (t, gave (synced now j)) =
                  unfold sync pull in rw (r, sync) (rw (same) (rw (f, pull) refl)) in
                rw (ran, try_sync_after_connect)
                  (
                    get_for_client-save client_id key i (synced now j) s.rows u found version,
                    refl,
                    token,
                  )
          ]
    ]

complete_by-IsHolder :
    (p : Providers) (now : ℕ) (i : Integration) (key : IntegrationKey) (code : Text)
    (a l : Option Text) (j : Integration) (accounts : List Account)
    → complete_by p now i key code a l ≡ gave (j, accounts)
    → IsHolder i j
unfolding complete_by complete_meta complete_google complete_linkedin
complete_by-IsHolder p now i key code a l j accounts h = ground arith

first_sync-IsUp :
    (p : Providers) (now : ℕ) (s : Connectors) (client_id : ℕ) (key : IntegrationKey)
    (i : Integration) (pending : List Account) (s' : Connectors) (j : Integration)
    (accounts : List Account)
    → HasUniqueIds s.rows
    → IsUp s client_id key i
    → first_sync p now s client_id key i pending ≡ (s', gave (j, accounts))
    → IsUp s' client_id key j
first_sync-IsUp p now s client_id key i [] s' j accounts u up h =
    let moved : (try_sync_after_connect p now s client_id key i).0 ≡ s' = ap (λ r. r.0) h in
    let answer : ◌≡◌ {A = Reply (Integration × List Account)}
        (gave ((try_sync_after_connect p now s client_id key i).1, [])) (gave (j, accounts)) =
      ap (λ r. r.1) h in
    let same : (try_sync_after_connect p now s client_id key i).1 ≡ j = cc in
    rw (← moved, ← same) (try_sync-IsUp p now s client_id key i u up.0 up.2)
first_sync-IsUp p now s client_id key i (a ∷ pending) s' j accounts u up h =
    let moved : s ≡ s' = ap (λ r. r.0) h in
    let answer : ◌≡◌ {A = Reply (Integration × List Account)} (gave (i, a ∷ pending))
        (gave (j, accounts)) =
      ap (λ r. r.1) h in
    let same : i ≡ j = cc in rw (← moved, ← same) up

count_new :
    (m new_id client_id : ℕ) (key : IntegrationKey)
    → count (has_key id_of m) (new_integration new_id client_id key ∷ []) ≡ bit (new_id == m)
unfolding count
count_new m new_id client_id key = refl

upsert_found :
    (new_id : ℕ) (rows : List Integration) (client_id : ℕ) (key : IntegrationKey)
    → HasUniqueIds rows
    → find_by (has_key id_of new_id) rows ≡ none
    → let (rows', i) = upsert new_id rows client_id key in
      HasUniqueIds rows' × (get_for_client rows' client_id key ≡ some i)
unfolding upsert get_for_client
upsert_found new_id rows client_id key u fresh =
    elim (Option-cases (find_by (is_pair client_id key) rows)) [
      | inr (i, e) ↦ rw (e, upsert) (u, e)
      | inl e ↦
          rw (e, upsert)
            (
              λ m.
                  rw
                    (count-append (has_key id_of m) rows
                      (new_integration new_id client_id key ∷ []))
                    (ground (
                      arith,
                      u m,
                      count_zero (has_key id_of new_id) rows fresh,
                      count_new m new_id client_id key,
                      (==_iff new_id m).0,
                    )),
              rw
                  (
                    find_by-append (is_pair client_id key) rows
                        (new_integration new_id client_id key ∷ []),
                    e,
                  )
                  (unfold find_by in rw (==_refl client_id, text_eq_refl (key_value key)) refl),
            )
    ]

guard_passed : (b : Bool) (e : Exn) → raise_if (not b) e ≡ gave tt → b ≡ true
guard_passed true e h = refl
guard_passed false e h = cc

-- Where ids are unique and the new id is unused, a completed OAuth round trip that returns was called with a state that
-- verifies for the client and the provider, and leaves in the table, as the client's row for the provider, the
-- connection that it returns: connected and with a token, also if the sync that follows it failed.
pub oauth_complete-IsUp :
    (lib : Signing) (p : Providers) (now new_id : ℕ) (s : Connectors) (client_id : ℕ)
    (key : IntegrationKey) (code state : Text) (a l : Option Text) (s' : Connectors)
    (j : Integration) (accounts : List Account)
    → HasUniqueIds s.rows
    → find_by (has_key id_of new_id) s.rows ≡ none
    → oauth_complete lib p now new_id s client_id key code state a l ≡ (s', gave (j, accounts))
    → (verify_state lib now state client_id key ≡ true) × IsUp s' client_id key j
unfolding oauth_complete
oauth_complete-IsUp lib p now new_id s client_id key code state a l s' j accounts u fresh h =
    let rows = (upsert new_id s.rows client_id key).0 in
    let i = (upsert new_id s.rows client_id key).1 in
    let (unique, found) = upsert_found new_id s.rows client_id key u fresh in
    let wrong = not (verify_state lib now state client_id key) in
    let e = bad_request (text "Invalid or expired OAuth state.") in
    let call = require_real key >> raise_if wrong e >> complete_by p now i key code a l in
    elim (Reply-cases call) [
      | inl (e', r) ↦ absurd (cc (rw (r, oauth_complete) at h))
      | inr ((i', pending), r) ↦
          let (done, checked, completes) = >>=-eq-gave (require_real key >> raise_if wrong e) _ r in
          let (done', real, passed) = >>=-eq-gave (require_real key) _ checked in
          let (version, held) = complete_by-IsHolder p now i key code a l i' pending completes in
          let saved =
            get_for_client-save client_id key i (completed i') rows unique found version in
          (
            guard_passed (verify_state lib now state client_id key) e passed,
            first_sync-IsUp p now (record s { rows = save rows (completed i') }) client_id key
                (completed i') pending s' j accounts (save-HasUniqueIds rows (completed i') unique)
                (saved, refl, held) (rw (r, oauth_complete) at h),
          )
    ]
