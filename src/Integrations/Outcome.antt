-- ===== src/Integrations/Outcome.antt =====
-- What a sync leaves of the connection.
use in_work_marketing_os_bac.Base.{
  ℕ, ◌≤◌, Bool, true, false, some, List, ◌≡◌, refl, arith, count, Option-cases, inl, inr, ◌⊎◌, ◌∙◌,
}
use in_work_marketing_os_bac.Base.Rows.{has_key, find_by_sound}
use in_work_marketing_os_bac.Base.Replace.{find_by-replace, replace_unique}
use in_work_marketing_os_bac.Errors.{Exn}
use in_work_marketing_os_bac.Integrations.{
  IntegrationKey, Failure, Reply, raised, gave, Integration, is_connected, >>=-eq-gave, raise_if,
  ◌>>◌, is_pair, get_for_client, get, save,
}
use in_work_marketing_os_bac.Integrations.Binding.{Providers}
use in_work_marketing_os_bac.Integrations.Tokens.{fetch_insights, meta_access_token, refresh_token}
use in_work_marketing_os_bac.Integrations.Sync.{
  Connectors, require_real, require_connected, not_connected, syncable, pull, sync, failed_sync,
}

abbrev pub id_of : Integration → ℕ
id_of i = i.id

-- The id is a primary key.
abbrev pub HasUniqueIds : List Integration → Type 0
HasUniqueIds rows = (m : ℕ) → count (has_key id_of m) rows ≤ 1

pub Reply-cases {ℓ} :
    {A : Type ℓ} (r : Reply A) → ((e : Failure) × (r ≡ raised e)) ⊎ ((a : A) × (r ≡ gave a))
Reply-cases (raised e) = inl (e, refl)
Reply-cases (gave a) = inr (a, refl)

-- The two are versions of one row.
abbrev pub IsVersion : Integration → Integration → Type 0
IsVersion i j = (j.id ≡ i.id) × (j.client_id ≡ i.client_id) × (j.key ≡ i.key)

pair_kept :
    (client_id : ℕ) (key : IntegrationKey) (i j : Integration)
    → IsVersion i j
    → is_pair client_id key i ≡ true
    → is_pair client_id key j ≡ true
pair_kept client_id key i j v h = rw (v.1, v.2) h

pub get_for_client-save :
    (client_id : ℕ) (key : IntegrationKey) (i j : Integration) (rows : List Integration)
    → HasUniqueIds rows
    → get_for_client rows client_id key ≡ some i
    → IsVersion i j
    → get_for_client (save rows j) client_id key ≡ some j
unfolding get_for_client save
get_for_client-save client_id key i j rows u h v =
    find_by-replace id_of (is_pair client_id key) i j rows (u i.id) h v.0
      (pair_kept client_id key i j v (find_by_sound (is_pair client_id key) rows i h))

pub save-HasUniqueIds :
    (rows : List Integration) (j : Integration) → HasUniqueIds rows → HasUniqueIds (save rows j)
unfolding save
save-HasUniqueIds rows j u m = replace_unique id_of m j rows (u m)

pub fetch_insights-IsVersion :
    (p : Providers) (now : ℕ) (i : Integration) (key : IntegrationKey)
    → IsVersion i (fetch_insights p now i key).0
unfolding fetch_insights meta_access_token refresh_token
fetch_insights-IsVersion p now i key = ground arith

get_sound :
    (rows : List Integration) (client_id : ℕ) (key : IntegrationKey) (i : Integration)
    → get rows client_id key ≡ gave i
    → get_for_client rows client_id key ≡ some i
unfolding get
get_sound rows client_id key i h = elim (Option-cases (get_for_client rows client_id key)) [
  | inl e ↦ absurd (cc (rw (e, get) at h))
  | inr (j, e) ↦ (let same : j ≡ i = cc (rw (e, get) at h) in rw (e, same) refl)
]

raise_if_passed {ℓ} :
    {A : Type ℓ} (t : Bool) (e : Exn) (m : Reply A) {a : A}
    → (raise_if t e >> m) ≡ gave a
    → m ≡ gave a
raise_if_passed true e m h = cc
raise_if_passed false e m h = h

pub syncable_sound :
    (rows : List Integration) (client_id : ℕ) (key : IntegrationKey) (i : Integration)
    → syncable rows client_id key ≡ gave i
    → (get_for_client rows client_id key ≡ some i) × (require_real key ≡ gave tt)
unfolding syncable
syncable_sound rows client_id key i h =
    let (done, real, h1) = >>=-eq-gave (require_real key) _ h in
    let (j, found, h2) = >>=-eq-gave (get rows client_id key) _ h1 in
    let (up, _, h3) = >>=-eq-gave (require_connected j) _ h2 in
    (get_sound rows client_id key i (found ∙ raise_if_passed _ _ (gave j) h3), real)

-- A connection that is not connected is not synced, whatever the providers would answer.
sync-unconnected :
    (p : Providers) (now : ℕ) (s : Connectors) (client_id : ℕ) (key : IntegrationKey)
    (j : Integration)
    → require_real key ≡ gave tt
    → get_for_client s.rows client_id key ≡ some j
    → is_connected j.status ≡ false
    → sync p now s client_id key ≡ (s, raised not_connected)
unfolding sync syncable get
sync-unconnected p now s client_id key j real found down =
    rw (real, sync, syncable) (rw (found, get) (rw down refl))

failed_down : (e : Failure) (i : Integration) → is_connected (failed_sync e i).status ≡ false
failed_down e i = ground arith

-- Where ids are unique and a sync passes its checks, but a call of the provider raises: the sync raises that exception
-- and writes no fact, the connection records it, and every later sync of the connection, at any time and whatever the
-- provider would answer then, is refused as not connected and changes nothing.
pub sync_failed :
    (p later : Providers) (now then_now : ℕ) (s : Connectors) (client_id : ℕ) (key : IntegrationKey)
    (i : Integration) (e : Failure)
    → HasUniqueIds s.rows
    → syncable s.rows client_id key ≡ gave i
    → (fetch_insights p now i key).1 ≡ raised e
    → let s' = (sync p now s client_id key).0 in
      ((sync p now s client_id key).1 ≡ raised e)
      × (s'.cells ≡ s.cells)
      × (get_for_client s'.rows client_id key ≡ some (failed_sync e (fetch_insights p now i key).0))
      × (sync later then_now s' client_id key ≡ (s', raised not_connected))
unfolding pull
sync_failed p later now then_now s client_id key i e u passed h =
    let (found, real) = syncable_sound s.rows client_id key i passed in
    let j = failed_sync e (fetch_insights p now i key).0 in
    let kept =
      get_for_client-save client_id key i j s.rows u found (fetch_insights-IsVersion p now i key) in
    let s' : Connectors = record s { rows = save s.rows j } in
    let ran : sync p now s client_id key ≡ (s', raised e) =
      unfold sync in rw (passed, sync) (rw (h, pull) refl) in
    rw ran (
      refl,
      refl,
      kept,
      sync-unconnected later then_now s' client_id key j real kept
          (failed_down e (fetch_insights p now i key).0),
    )
