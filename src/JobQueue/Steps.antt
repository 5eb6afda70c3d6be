-- ===== src/JobQueue/Steps.antt =====
-- The queue as its users drive it: any sequence of enqueues, claims, outcomes and sweeps.
use in_work_marketing_os_bac.Base.{
  ℕ, ◌⊎◌, inl, inr, Bool-cases, leb, zero, suc, ◌+◌, ◌^◌, ◌≤◌, ◌<◌, String, Bool, none, some, List,
  ◌≡◌, refl, arith, Option, find_by,
}
use in_work_marketing_os_bac.Base.Rows.{find_by-update_if}
use in_work_marketing_os_bac.Errors.{Message}
use in_work_marketing_os_bac.Model.Enums.{IntelJobType, queued, dead}
use in_work_marketing_os_bac.Model.Tables.{IntelJob}
use native.Mathlib.Nat.{pow-suc}
use in_work_marketing_os_bac.JobQueue.{
  Queue, has_id, enqueue, claim_next, reclaim_stale, succeed, succeed_row, fail, fail_row,
  backoff_seconds,
}
use in_work_marketing_os_bac.JobQueue.Invariant.{IsSound, update-IsSound}
use in_work_marketing_os_bac.JobQueue.Coalesce.{enqueue-IsSound}
use in_work_marketing_os_bac.JobQueue.Claim.{IsHonest, claim_next-IsSound, reclaim_stale-IsSound}

succeed-IsSound : (i : ℕ) (jobs : List IntelJob) → IsSound jobs → IsSound (succeed i jobs)
unfolding succeed
succeed-IsSound i jobs s =
    update-IsSound (has_id i) succeed_row jobs (λ k j. omega arith) (λ c j. ground arith)
      (λ j same b. ground arith) s

fail-IsSound :
    (i now : ℕ) (error : Message) (jobs : List IntelJob)
    → IsSound jobs
    → IsSound (fail i now error jobs)
unfolding fail fail_row
fail-IsSound i now error jobs s =
    update-IsSound (has_id i) (fail_row now error) jobs (λ k j. omega arith) (λ c j. ground arith)
      (λ j same b. ground arith) s

pow_pos : (n : ℕ) → 1 ≤ 2 ^ n
pow_pos zero = omega arith
pow_pos (suc n) = rw pow-suc (omega (arith, pow_pos n))

-- The wait before a retry is at least 10 seconds and at most 300.
backoff_bounds : (n : ℕ) → (10 ≤ backoff_seconds n) × (backoff_seconds n ≤ 300)
unfolding backoff_seconds
backoff_bounds n = omega (arith, pow_pos n)

-- A failed attempt of a job in the table unlocks it; it is dead when its attempts are spent, and
-- otherwise queued to run again after a wait of 10 to 300 seconds.
fail_outcome :
    (i now : ℕ) (error : Message) (jobs : List IntelJob) (j : IntelJob)
    → find_by (has_id i) jobs ≡ some j
    → (r : IntelJob) × (find_by (has_id i) (fail i now error jobs) ≡ some r)
      × (r.locked_by ≡ none)
      × (r.attempts ≡ j.attempts)
      × (((j.max_attempts ≤ j.attempts) × (r.status ≡ dead))
          ⊎ ((j.attempts < j.max_attempts)
              × (r.status ≡ queued)
              × ((wait : ℕ) × (r.run_after ≡ some (now + wait)) × (10 ≤ wait) × (wait ≤ 300))))
unfolding fail fail_row
fail_outcome i now error jobs j found = (
  fail_row now error j,
  find_by-update_if (has_id i) (fail_row now error) jobs j (λ x. refl) found,
  refl,
  refl,
  elim (Bool-cases (leb j.max_attempts j.attempts)) [
    | inl e ↦ inl (ground arith, ground arith)
    | inr e ↦ inr (
      ground arith,
      ground arith,
      (
        backoff_seconds j.attempts,
        ground arith,
        (backoff_bounds j.attempts).0,
        (backoff_bounds j.attempts).1,
      ),
    )
  ],
)

-- One call of the queue by a service or a worker.
pub data Step (q : Queue) : Queue → Type 0 where
  enqueues :
      (enabled : Bool) (new_id now client debounce : ℕ) (t : IntelJobType)
      (ks : Option (List String))
      → find_by (has_id new_id) q.jobs ≡ none
      → Step q (record q { jobs = (enqueue enabled new_id now client t ks debounce q.jobs).0 })
  claims :
      (others : ℕ → ℕ → List IntelJob → List IntelJob) (worker_id : String) (now_monotonic now : ℕ)
      → IsHonest others
      → Step q (claim_next others worker_id now_monotonic now q).0
  reclaims :
      (force : Bool) (now_monotonic now : ℕ) → Step q (reclaim_stale force now_monotonic now q).0
  succeeds : (i : ℕ) → Step q (record q { jobs = succeed i q.jobs })
  fails : (i now : ℕ) (error : Message) → Step q (record q { jobs = fail i now error q.jobs })

pub data Reach (q : Queue) : Queue → Type 0 where
  here : Reach q q
  next : {r s : Queue} → Reach q r → Step r s → Reach q s

Step-IsSound : {q r : Queue} → Step q r → IsSound q.jobs → IsSound r.jobs
Step-IsSound {q} (enqueues enabled new_id now client debounce t ks fresh) s =
    enqueue-IsSound new_id now client debounce t ks q.jobs enabled fresh s
Step-IsSound {q} (claims others worker_id now_monotonic now honest) s =
    claim_next-IsSound others worker_id now_monotonic now q honest s
Step-IsSound {q} (reclaims force now_monotonic now) s =
    reclaim_stale-IsSound force now_monotonic now q s
Step-IsSound {q} (succeeds i) s = succeed-IsSound i q.jobs s
Step-IsSound {q} (fails i now error) s = fail-IsSound i now error q.jobs s

-- In every state that calls of the queue reach from a sound one, ids are unique, each client has at
-- most one running job, and no job has more attempts than `max_attempts`.
pub Reach-IsSound : {q r : Queue} → Reach q r → IsSound q.jobs → IsSound r.jobs
Reach-IsSound here s = s
Reach-IsSound (next before st) s = Step-IsSound st (Reach-IsSound before s)
