-- ===== src/JobQueue/Claim.antt =====
-- `claim_next`: one running job per client under any interference, and the choice of the job.
use mathlib.Core.Path.{subst}
use in_work_marketing_os_bac.Base.{
  ℕ, zero, suc, ◌+◌, String, Bool, true, false, none, some, List, [], ◌∷◌, ◌≡◌, ◌⊎◌, refl, ◌∙◌,
  arith, find_by, keep_if, update_if, Bool-cases, Option-cases, inl, inr, ◌&&◌, not, ltb,
}
use in_work_marketing_os_bac.Base.Lists.{All, All-both}
use in_work_marketing_os_bac.Base.Rows.{
  count-update_le, count-update_one, count_zero, keep_if-All, keep_if_sound, All-update_to,
  find_by-update_if,
}
use in_work_marketing_os_bac.Model.Enums.{is_queued, is_running}
use in_work_marketing_os_bac.Model.Tables.{IntelJob}
use in_work_marketing_os_bac.JobQueue.{
  Queue, has_id, running_for, precedes, best, eligible, candidate, claim_row, claim_loop,
  claim_next, reclaim_stale, reclaim_row, is_stale, reclaim_interval_seconds, max_claim_attempts,
}
use in_work_marketing_os_bac.JobQueue.Invariant.{
  IsBounded, IsSound, update-IsSound, self_lookup, only_row,
}

pub best_cases :
    (x : IntelJob) (xs : List IntelJob) (j : IntelJob)
    → best (x ∷ xs) ≡ some j
    → (x ≡ j) ⊎ (best xs ≡ some j)
unfolding best
best_cases x xs j e = elim (Option-cases (best xs)) [
  | inl none_left ↦ inl (ground arith)
  | inr (k, found) ↦ elim (Bool-cases (precedes x k)) [
    | inl before ↦ inl (ground arith)
    | inr after ↦ inr (ground arith)
  ]
]

best-All {κ} :
    (P : IntelJob → Type κ) (xs : List IntelJob) (j : IntelJob) → All P xs → best xs ≡ some j → P j
unfolding best
best-All P [] j hs e = cc
best-All P (x ∷ xs) j hs e = elim (best_cases x xs j e) [
  | inl same ↦ subst P same hs.0
  | inr later ↦ best-All P xs j hs.1 later
]

-- What other workers may do in the wait: keep the invariant, and leave the locked row alone.
pub record IsHonest (others : ℕ → ℕ → List IntelJob → List IntelJob) : Type 0 where
  pub keeps_sound : (n i : ℕ) (jobs : List IntelJob) → IsSound jobs → IsSound (others n i jobs)
  pub keeps_locked :
      (n i : ℕ) (jobs : List IntelJob)
      → find_by (has_id i) (others n i jobs) ≡ find_by (has_id i) jobs

-- The candidate is a row of the table that may be claimed.
pub candidate_sound :
    (now : ℕ) (excluded : List ℕ) (jobs : List IntelJob) (j : IntelJob)
    → IsSound jobs
    → candidate now excluded jobs ≡ some j
    → (find_by (has_id j.id) jobs ≡ some j) × (eligible now excluded jobs j ≡ true)
unfolding candidate
candidate_sound now excluded jobs j s e =
    best-All (λ x. (find_by (has_id x.id) jobs ≡ some x) × (eligible now excluded jobs x ≡ true))
      (keep_if (eligible now excluded jobs) jobs) j
      (All-both (λ x. find_by (has_id x.id) jobs ≡ some x)
        (λ x. eligible now excluded jobs x ≡ true) (keep_if (eligible now excluded jobs) jobs)
        (keep_if-All (λ x. find_by (has_id x.id) jobs ≡ some x) (eligible now excluded jobs) jobs
          (self_lookup jobs s.one_row))
        (keep_if_sound (eligible now excluded jobs) jobs))
      e

eligible_queued :
    (now : ℕ) (excluded : List ℕ) (jobs : List IntelJob) (j : IntelJob)
    → eligible now excluded jobs j ≡ true
    → is_queued j.status ≡ true
unfolding eligible
eligible_queued now excluded jobs j h = ground arith

-- Claiming a queued row of a client with nothing running keeps the invariant.
claim_row-IsSound :
    (worker_id : String) (now : ℕ) (jobs : List IntelJob) (j : IntelJob)
    → IsSound jobs
    → find_by (has_id j.id) jobs ≡ some j
    → is_queued j.status ≡ true
    → find_by (running_for j.client_id) jobs ≡ none
    → IsSound (update_if (has_id j.id) (claim_row worker_id now) jobs)
unfolding claim_row
claim_row-IsSound worker_id now jobs j s found queued idle = record {
  one_row = λ i. omega (
    arith,
    count-update_le (has_id i) (has_id j.id) (claim_row worker_id now) jobs (λ x. omega arith),
    s.one_row i,
  );
  one_running = λ c. ground (
    arith,
    count-update_one (running_for c) (has_id j.id) (claim_row worker_id now) jobs j (s.one_row j.id)
        found,
    s.one_running c,
    count_zero (running_for j.client_id) jobs idle,
  );
  bounded =
      All-update_to (λ x. IsBounded x × (has_id j.id x ≡ true → x ≡ j)) IsBounded (has_id j.id)
        (claim_row worker_id now) jobs (λ x same b. let is_j : x ≡ j = b.1 same in ground arith)
        (λ x b. inl b.0)
        (All-both IsBounded (λ x. has_id j.id x ≡ true → x ≡ j) jobs s.bounded
          (only_row jobs j.id j s.one_row found));
}

-- Whatever other workers commit meanwhile, a claim leaves at most one running job per client.
claim_loop-IsSound :
    (others : ℕ → ℕ → List IntelJob → List IntelJob) (worker_id : String) (now n : ℕ)
    (excluded : List ℕ) (jobs : List IntelJob)
    → IsHonest others
    → IsSound jobs
    → IsSound (claim_loop others worker_id now n excluded jobs).0
unfolding claim_loop
claim_loop-IsSound others worker_id now zero excluded jobs honest s = s
claim_loop-IsSound others worker_id now (suc n) excluded jobs honest s =
    elim (Option-cases (candidate now excluded jobs)) [
      | inl e ↦ rw (e, claim_loop) s
      | inr (j, e) ↦
          let sound = candidate_sound now excluded jobs j s e in
          let s' = honest.keeps_sound n j.id jobs s in
          elim (Option-cases (find_by (running_for j.client_id) (others n j.id jobs))) [
            | inl idle ↦
                rw (e, idle, claim_loop)
                  (claim_row-IsSound worker_id now (others n j.id jobs) j s'
                    (honest.keeps_locked n j.id jobs ∙ sound.0)
                    (eligible_queued now excluded jobs j sound.1) idle)
            | inr (other, busy) ↦
                rw (e, busy, claim_loop)
                  (claim_loop-IsSound others worker_id now n (j.client_id ∷ excluded)
                    (others n j.id jobs) honest s')
          ]
    ]

-- Reclaiming stale rows keeps the invariant: their attempt was counted when they were claimed.
pub reclaim_stale-IsSound :
    (force : Bool) (now_monotonic now : ℕ) (q : Queue)
    → IsSound q.jobs
    → IsSound (reclaim_stale force now_monotonic now q).0.jobs
unfolding reclaim_stale
reclaim_stale-IsSound force now_monotonic now q s =
    elim (Bool-cases (not force && ltb now_monotonic (q.last_reclaim + reclaim_interval_seconds))) [
      | inl early ↦ rw early s
      | inr on_time ↦ rw on_time (
          update-IsSound (is_stale now) (reclaim_row now) q.jobs
            (unfold reclaim_row in λ i j. omega arith) (unfold reclaim_row in λ c j. ground arith)
            (unfold reclaim_row in λ j stale b. ground arith) s)
    ]

-- From a sound table `claim_next` goes to a sound table, whatever honest workers do in its waits.
pub claim_next-IsSound :
    (others : ℕ → ℕ → List IntelJob → List IntelJob) (worker_id : String) (now_monotonic now : ℕ)
    (q : Queue)
    → IsHonest others
    → IsSound q.jobs
    → IsSound (claim_next others worker_id now_monotonic now q).0.jobs
unfolding claim_next
claim_next-IsSound others worker_id now_monotonic now q honest s =
    claim_loop-IsSound others worker_id now max_claim_attempts []
      (reclaim_stale false now_monotonic now q).0.jobs honest
      (reclaim_stale-IsSound false now_monotonic now q s)

-- A job is in the table, running, and locked by a worker since a time.
abbrev pub HandedOut : String → ℕ → List IntelJob → IntelJob → Type 0
HandedOut worker_id now jobs k =
    (find_by (has_id k.id) jobs ≡ some k)
    × (k.locked_by ≡ some worker_id)
    × (k.locked_at ≡ some now)
    × (is_running k.status ≡ true)

claim_row-HandedOut :
    (worker_id : String) (now : ℕ) (jobs : List IntelJob) (j : IntelJob)
    → find_by (has_id j.id) jobs ≡ some j
    → HandedOut worker_id now
        (update_if (has_id j.id) (claim_row worker_id now) jobs)
        (claim_row worker_id now j)
unfolding claim_row
claim_row-HandedOut worker_id now jobs j found = (
  find_by-update_if (has_id j.id) (claim_row worker_id now) jobs j (λ x. refl) found,
  refl,
  refl,
  refl,
)

-- A job that `claim_loop` hands out is in the table, running under this worker.
claim_loop-hands_out :
    (others : ℕ → ℕ → List IntelJob → List IntelJob) (worker_id : String) (now n : ℕ)
    (excluded : List ℕ) (jobs : List IntelJob) (k : IntelJob)
    → IsHonest others
    → IsSound jobs
    → (claim_loop others worker_id now n excluded jobs).1 ≡ some k
    → HandedOut worker_id now (claim_loop others worker_id now n excluded jobs).0 k
unfolding claim_loop
claim_loop-hands_out others worker_id now zero excluded jobs k honest s h = cc
claim_loop-hands_out others worker_id now (suc n) excluded jobs k honest s h =
    elim (Option-cases (candidate now excluded jobs)) [
      | inl e ↦ absurd (ground arith)
      | inr (j, e) ↦
          let sound = candidate_sound now excluded jobs j s e in
          let s' = honest.keeps_sound n j.id jobs s in
          elim (Option-cases (find_by (running_for j.client_id) (others n j.id jobs))) [
            | inl idle ↦
                let same : claim_row worker_id now j ≡ k = ground arith in
                rw (e, idle, claim_loop)
                  (subst
                    (HandedOut worker_id now
                      (update_if (has_id j.id) (claim_row worker_id now) (others n j.id jobs)))
                    same
                    (claim_row-HandedOut worker_id now (others n j.id jobs) j
                      (honest.keeps_locked n j.id jobs ∙ sound.0)))
            | inr (other, busy) ↦
                rw (e, busy, claim_loop)
                  (claim_loop-hands_out others worker_id now n (j.client_id ∷ excluded)
                    (others n j.id jobs) k honest s' (ground arith))
          ]
    ]

-- From a sound table, and with other workers that keep it sound and leave the locked row alone, a job that
-- `claim_next` hands out is in the table, running and locked by this worker as of now.
pub claim_next-HandedOut :
    (others : ℕ → ℕ → List IntelJob → List IntelJob) (worker_id : String) (now_monotonic now : ℕ)
    (q : Queue) (k : IntelJob)
    → IsHonest others
    → IsSound q.jobs
    → (claim_next others worker_id now_monotonic now q).1 ≡ some k
    → HandedOut worker_id now (claim_next others worker_id now_monotonic now q).0.jobs k
unfolding claim_next
claim_next-HandedOut others worker_id now_monotonic now q k honest s h =
    claim_loop-hands_out others worker_id now max_claim_attempts []
      (reclaim_stale false now_monotonic now q).0.jobs k honest
      (reclaim_stale-IsSound false now_monotonic now q s) h
