-- ===== src/JobQueue/Coalesce.antt =====
-- `enqueue`: the invariant, the changed keys that a build covers, and one build for a burst of edits.
use mathlib.Core.Path.{subst}
use in_work_marketing_os_bac.Base.{
  ℕ, ◌≤◌, String, Bool, true, false, Option, none, some, List, [], ◌∷◌, ◌||◌, ◌&&◌, ◌≡◌, refl,
  arith, eq_iff, ==_refl, str_eq, leb, if◌then◌else◌, find_by, keep_if, count, contains, or_else,
  ◌⊎◌, Bool-cases, Option-cases, inl, inr, ◌∙◌,
}
use in_work_marketing_os_bac.Base.Lists.{All, All-append, All-both, length}
use in_work_marketing_os_bac.Base.Rows.{
  count-append, count-update_eq, count_zero, count-keep_if, keep_if-All, keep_if_sound,
  find_by-update_if, find_by-append,
}
use in_work_marketing_os_bac.Model.Enums.{incremental, IntelJobType, full_build}
use in_work_marketing_os_bac.Model.Tables.{IntelJob}
use in_work_marketing_os_bac.JobQueue.{
  dominant, payload_or, has_id, queued_for, running_for, oldest, pending_for_client, insert_key,
  merge_keys, coalesce, debounced, new_job, enqueue,
}
use in_work_marketing_os_bac.JobQueue.Invariant.{IsBounded, IsSound, update-IsSound, self_lookup}

contains-insert_key :
    (k key : String) (xs : List String)
    → contains str_eq key (insert_key k xs) ≡ (str_eq k key || contains str_eq key xs)
unfolding insert_key
contains-insert_key k key [] = refl
contains-insert_key k key (x ∷ xs) =
    ground (arith, eq_iff x k, eq_iff k key, eq_iff x key, contains-insert_key k key xs)

contains-merge_keys :
    (key : String) (ks base : List String)
    → contains str_eq key (merge_keys ks base)
      ≡ (contains str_eq key ks || contains str_eq key base)
unfolding merge_keys
contains-merge_keys key [] base = refl
contains-merge_keys key (k ∷ ks) base =
    ground (arith, contains-insert_key k key (merge_keys ks base), contains-merge_keys key ks base)

-- The merged job covers exactly the keys of the old job and those of the request.
coalesce_keys :
    (t : IntelJobType) (ks : Option (List String)) (run_after : Option ℕ) (j : IntelJob)
    (key : String)
    → contains str_eq key (or_else (coalesce t ks run_after j).payload [])
      ≡ (contains str_eq key (or_else ks []) || contains str_eq key (or_else j.payload []))
unfolding coalesce
coalesce_keys t ks run_after j key = ground (
  arith,
  contains-merge_keys key (or_else ks []) (merge_keys (or_else j.payload []) []),
  contains-merge_keys key (or_else j.payload []) [],
)

new_job_keys :
    (new_id now client : ℕ) (t : IntelJobType) (ks : Option (List String)) (run_after : Option ℕ)
    (key : String)
    → contains str_eq key (or_else (new_job new_id now client t ks run_after).payload [])
      ≡ contains str_eq key (or_else ks [])
unfolding new_job
new_job_keys new_id now client t ks run_after key =
    ground (arith, contains-merge_keys key (or_else ks []) [])

oldest_cases :
    (x : IntelJob) (xs : List IntelJob) (j : IntelJob)
    → oldest (x ∷ xs) ≡ some j
    → (x ≡ j) ⊎ (oldest xs ≡ some j)
unfolding oldest
oldest_cases x xs j e = elim (Option-cases (oldest xs)) [
  | inl nothing ↦ inl (ground arith)
  | inr (k, found) ↦ elim (Bool-cases (leb x.created_at k.created_at)) [
    | inl before ↦ inl (ground arith)
    | inr after ↦ inr (ground arith)
  ]
]

oldest-All {κ} :
    (P : IntelJob → Type κ) (xs : List IntelJob) (j : IntelJob)
    → All P xs
    → oldest xs ≡ some j
    → P j
unfolding oldest
oldest-All P [] j hs e = cc
oldest-All P (x ∷ xs) j hs e = elim (oldest_cases x xs j e) [
  | inl same ↦ subst P same hs.0
  | inr later ↦ oldest-All P xs j hs.1 later
]

no_oldest : (xs : List IntelJob) → oldest xs ≡ none → length xs ≡ 0
unfolding oldest
no_oldest [] e = refl
no_oldest (x ∷ xs) e = ground arith

-- The pending job is the row of the table with its id, queued for the client.
pending_sound :
    (client : ℕ) (jobs : List IntelJob) (j : IntelJob)
    → IsSound jobs
    → pending_for_client client jobs ≡ some j
    → (find_by (has_id j.id) jobs ≡ some j) × (queued_for client j ≡ true)
unfolding pending_for_client
pending_sound client jobs j s e =
    oldest-All (λ x. (find_by (has_id x.id) jobs ≡ some x) × (queued_for client x ≡ true))
      (keep_if (queued_for client) jobs) j
      (All-both (λ x. find_by (has_id x.id) jobs ≡ some x) (λ x. queued_for client x ≡ true)
        (keep_if (queued_for client) jobs)
        (keep_if-All (λ x. find_by (has_id x.id) jobs ≡ some x) (queued_for client) jobs
          (self_lookup jobs s.one_row))
        (keep_if_sound (queued_for client) jobs))
      e

pending_none :
    (client : ℕ) (jobs : List IntelJob)
    → pending_for_client client jobs ≡ none
    → count (queued_for client) jobs ≡ 0
unfolding pending_for_client
pending_none client jobs e =
    count-keep_if (queued_for client) jobs ∙ no_oldest (keep_if (queued_for client) jobs) e

an_oldest : (xs : List IntelJob) (j : IntelJob) → oldest xs ≡ some j → 1 ≤ length xs
unfolding oldest
an_oldest [] j e = cc
an_oldest (x ∷ xs) j e = omega arith

pending_some :
    (client : ℕ) (jobs : List IntelJob) (j : IntelJob)
    → pending_for_client client jobs ≡ some j
    → 1 ≤ count (queued_for client) jobs
unfolding pending_for_client
pending_some client jobs j e = omega (
  arith,
  count-keep_if (queued_for client) jobs,
  an_oldest (keep_if (queued_for client) jobs) j e,
)

abbrev pub pending_keys : Option IntelJob → List String
pending_keys none = []
pending_keys (some j) = or_else j.payload []

-- A payload without keys is one for everything, as the worker and the model's comment read it.
abbrev pub is_everything : Option (List String) → Bool
is_everything none = true
is_everything (some []) = true
is_everything (some (k ∷ ks)) = false

abbrev pub is_full : IntelJobType → Bool
is_full full_build = true
is_full incremental = false

-- Whether a job of the type and with the payload asks for a rebuild of a source key.
abbrev pub covers : IntelJobType → Option (List String) → String → Bool
covers t payload key =
    is_full t || is_everything payload || contains str_eq key (or_else payload [])

-- What the request and a pending job cover together; but where neither is a full build, and one of them names keys
-- and the other is for everything, only the keys that are named.
abbrev pub owed : IntelJobType → Option (List String) → Option IntelJob → String → Bool
owed t request none key = covers t request key
owed t request (some j) key =
    is_full t
    || is_full j.job_type
    || is_everything request && is_everything j.payload
    || contains str_eq key (or_else request [])
    || contains str_eq key (or_else j.payload [])

abbrev pub pending_everything : Option IntelJob → Bool
pending_everything none = true
pending_everything (some j) = is_everything j.payload

abbrev pub pending_full : Option IntelJob → Bool
pending_full none = false
pending_full (some j) = is_full j.job_type

filled-insert_key : (k : String) (xs : List String) → is_everything (some (insert_key k xs)) ≡ false
unfolding insert_key
filled-insert_key k [] = refl
filled-insert_key k (x ∷ xs) = ground arith

everything-merge_keys :
    (ks base : List String)
    → is_everything (some (merge_keys ks base))
      ≡ (is_everything (some ks) && is_everything (some base))
unfolding merge_keys
everything-merge_keys [] base = refl
everything-merge_keys (k ∷ ks) base = filled-insert_key k (merge_keys ks base)

everything-or_else :
    (o : Option (List String)) → is_everything (some (or_else o [])) ≡ is_everything o
everything-or_else none = refl
everything-or_else (some ks) = refl

everything-payload_or :
    (ks : List String) (o : Option (List String))
    → is_everything (payload_or ks o) ≡ (is_everything (some ks) && is_everything o)
everything-payload_or [] o = refl
everything-payload_or (k ∷ ks) o = refl

coalesce_everything :
    (t : IntelJobType) (ks : Option (List String)) (run_after : Option ℕ) (j : IntelJob)
    → is_everything (coalesce t ks run_after j).payload
      ≡ (is_everything ks && is_everything j.payload)
unfolding coalesce
coalesce_everything t ks run_after j =
    let old = merge_keys (or_else j.payload []) [] in
    rw
      (
        everything-payload_or (merge_keys (or_else ks []) old) j.payload,
        everything-merge_keys (or_else ks []) old,
        everything-merge_keys (or_else j.payload []) [],
        everything-or_else ks,
        everything-or_else j.payload,
      )
      (ground arith)

new_job_everything :
    (new_id now client : ℕ) (t : IntelJobType) (ks : Option (List String)) (run_after : Option ℕ)
    → is_everything (new_job new_id now client t ks run_after).payload ≡ is_everything ks
unfolding new_job
new_job_everything new_id now client t ks run_after =
    rw
      (
        everything-payload_or (merge_keys (or_else ks []) []) none,
        everything-merge_keys (or_else ks []) [],
        everything-or_else ks,
      )
      (ground arith)

full-dominant : (t old : IntelJobType) → is_full (dominant t old) ≡ (is_full t || is_full old)
full-dominant full_build old = refl
full-dominant incremental old = refl

full_or_incremental : (t : IntelJobType) → (t ≡ full_build) ⊎ (t ≡ incremental)
full_or_incremental full_build = inl refl
full_or_incremental incremental = inr refl

dominant_full : (t old : IntelJobType) → (dominant t old ≡ full_build) ⊎ (t ≡ incremental)
dominant_full full_build old = inl refl
dominant_full incremental old = inr refl

module _ (new_id now client debounce : ℕ) (t : IntelJobType) (ks : Option (List String))
    (jobs : List IntelJob) where
  -- An enqueue under a new id keeps the invariant, whether it coalesces or adds a job.
  pub enqueue-IsSound :
      (enabled : Bool)
      → find_by (has_id new_id) jobs ≡ none
      → IsSound jobs
      → IsSound (enqueue enabled new_id now client t ks debounce jobs).0
  unfolding enqueue
  enqueue-IsSound false fresh s = s
  enqueue-IsSound true fresh s = elim (Option-cases (pending_for_client client jobs)) [
    | inl e ↦
        rw (e, enqueue)
          (record {
            one_row = λ i.
                unfold new_job count in
                ground (
                  arith,
                  count-append (has_id i) jobs
                      (new_job new_id now client t ks (debounced now debounce) ∷ []),
                  s.one_row i,
                  count_zero (has_id new_id) jobs fresh,
                );
            one_running = λ c.
                unfold new_job count in
                ground (
                  arith,
                  count-append (running_for c) jobs
                      (new_job new_id now client t ks (debounced now debounce) ∷ []),
                  s.one_running c,
                );
            bounded =
                unfold new_job in
                All-append IsBounded jobs
                  (new_job new_id now client t ks (debounced now debounce) ∷ []) s.bounded
                  ((omega arith, λ _. omega arith), tt);
          })
    | inr (j, e) ↦
        rw (e, enqueue)
          (update-IsSound (has_id j.id) (coalesce t ks (debounced now debounce)) jobs
            (unfold coalesce in λ i x. omega arith) (unfold coalesce in λ c x. omega arith)
            (unfold coalesce in λ x same b. b) s)
  ]

  -- With the pipeline enabled, an enqueue leaves the client with as many queued jobs as it had, and with
  -- one if it had none.
  count-enqueue :
      count (queued_for client) (enqueue true new_id now client t ks debounce jobs).0
      ≡ (if leb 1 (count (queued_for client) jobs) then count (queued_for client) jobs else 1)
  unfolding enqueue
  count-enqueue = elim (Option-cases (pending_for_client client jobs)) [
    | inl e ↦
        rw (e, enqueue)
          (unfold new_job count in
            ground (
              arith,
              count-append (queued_for client) jobs
                  (new_job new_id now client t ks (debounced now debounce) ∷ []),
              pending_none client jobs e,
              ==_refl client,
            ))
    | inr (j, e) ↦
        rw (e, enqueue)
          (ground (
            arith,
            count-update_eq (queued_for client) (has_id j.id)
                (coalesce t ks (debounced now debounce)) jobs (unfold coalesce in λ x. refl),
            pending_some client jobs j e,
          ))
  ]

  -- The job of an enqueue, a queued row of the client, names the keys of the request and of the pending job.
  pub enqueue_merges :
      (key : String)
      → IsSound jobs
      → find_by (has_id new_id) jobs ≡ none
      → (k : IntelJob) × ((enqueue true new_id now client t ks debounce jobs).1 ≡ some k)
        × (find_by (has_id k.id) (enqueue true new_id now client t ks debounce jobs).0 ≡ some k)
        × (queued_for client k ≡ true)
        × (contains str_eq key (or_else k.payload []) ≡ (
            contains str_eq key (or_else ks [])
            || contains str_eq key (pending_keys (pending_for_client client jobs))))
        × ((k.job_type ≡ full_build) ⊎ (t ≡ incremental))
        × (is_everything k.payload
            ≡ (is_everything ks && pending_everything (pending_for_client client jobs)))
        × (is_full k.job_type ≡ (is_full t || pending_full (pending_for_client client jobs)))
  unfolding enqueue
  enqueue_merges key s fresh = elim (Option-cases (pending_for_client client jobs)) [
    | inl e ↦ (
      new_job new_id now client t ks (debounced now debounce),
      rw (e, enqueue),
      rw (e, enqueue)
          (unfold new_job find_by in
            ground (
              arith,
              find_by-append (has_id new_id) jobs
                  (new_job new_id now client t ks (debounced now debounce) ∷ []),
              ==_refl new_id,
            )),
      unfold new_job in ground (arith, ==_refl client),
      rw e (ground (arith, new_job_keys new_id now client t ks (debounced now debounce) key)),
      unfold new_job in full_or_incremental t,
      rw (e, new_job_everything new_id now client t ks (debounced now debounce)) (ground arith),
      rw e (unfold new_job in ground arith),
    )
    | inr (j, e) ↦ (
      coalesce t ks (debounced now debounce) j,
      rw (e, enqueue),
      rw (e, enqueue)
          (unfold coalesce in
            find_by-update_if (has_id j.id) (coalesce t ks (debounced now debounce)) jobs j
              (λ x. refl) (pending_sound client jobs j s e).0),
      unfold coalesce in (pending_sound client jobs j s e).1,
      rw e (coalesce_keys t ks (debounced now debounce) j key),
      unfold coalesce in dominant_full t j.job_type,
      rw (e, coalesce_everything t ks (debounced now debounce) j) refl,
      rw e (unfold coalesce in full-dominant t j.job_type),
    )
  ]

  -- With the pipeline enabled, in a sound table and under a new id, the job that an enqueue returns is a
  -- queued row of the client, a full build if one is asked for. A full build and a build without keys
  -- ask for everything: if no job was pending, the job asks for exactly what the request does; if one was,
  -- it asks for everything if either of the two is a full build or both are without keys, and else for
  -- exactly the keys that the two name, also if one of them alone is without keys.
  pub enqueue-covers :
      (key : String)
      → IsSound jobs
      → find_by (has_id new_id) jobs ≡ none
      → (k : IntelJob) × ((enqueue true new_id now client t ks debounce jobs).1 ≡ some k)
        × (find_by (has_id k.id) (enqueue true new_id now client t ks debounce jobs).0 ≡ some k)
        × (queued_for client k ≡ true)
        × ((k.job_type ≡ full_build) ⊎ (t ≡ incremental))
        × (covers k.job_type k.payload key ≡ owed t ks (pending_for_client client jobs) key)
  enqueue-covers key s fresh =
      let (k, returned, found, waits, keys, full, every, kind) = enqueue_merges key s fresh in
      (
        k,
        returned,
        found,
        waits,
        full,
        rw (keys, every, kind)
            (elim (Option-cases (pending_for_client client jobs)) [
              | inl e ↦ rw e (ground arith)
              | inr (j, e) ↦ rw e (ground arith)
            ]),
      )
