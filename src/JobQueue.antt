-- ===== src/JobQueue.antt =====
-- app/services/intelligence/job_queue.py and app/repositories/intel_job_repository.py: the durable
-- job queue. Times are in seconds. `get_settings().intelligence.enabled`, the clocks and new ids
-- are arguments; what other workers commit while a claim waits for the advisory lock is a function.
pub mod Invariant
pub mod Coalesce
pub mod Claim
pub mod Choice
pub mod Steps
use in_work_marketing_os_bac.Base.{
  ℕ, zero, suc, ◌+◌, ◌*◌, ◌^◌, min, String, Bool, true, false, Option, none, some, List, [], ◌∷◌,
  ◌++◌, ◌&&◌, ◌||◌, not, str_eq, ◌==◌, ltb, leb, if◌then◌else◌, is_some, or_else, contains, find_by,
  keep_if, update_if, length,
}
use in_work_marketing_os_bac.Errors.{Message, text}
use in_work_marketing_os_bac.Model.Enums.{
  IntelJobType, full_build, IntelJobStatus, queued, running, succeeded, dead, is_queued, is_running,
}
use in_work_marketing_os_bac.Model.Tables.{IntelJob}
use Prim.Native.Nat.{Ordering}
use Prim.Native.String.{compare}

abbrev pub stale_running_timeout_seconds : ℕ
stale_running_timeout_seconds = 1800

abbrev pub reclaim_interval_seconds : ℕ
reclaim_interval_seconds = 60

abbrev pub max_claim_attempts : ℕ
max_claim_attempts = 5

abbrev pub has_id : ℕ → IntelJob → Bool
has_id i j = j.id == i

abbrev pub queued_for : ℕ → IntelJob → Bool
queued_for client j = j.client_id == client && is_queued j.status

abbrev pub running_for : ℕ → IntelJob → Bool
running_for client j = j.client_id == client && is_running j.status

-- ORDER BY created_at LIMIT 1; of equal rows the first
oldest : List IntelJob → Option IntelJob
oldest [] = none
oldest (j ∷ rest) =
    let best = oldest rest in
    elim best [ none ↦ some j | some b ↦ if leb j.created_at b.created_at then some j else some b ]

unfoldable pub pending_for_client : ℕ → List IntelJob → Option IntelJob
unfolding oldest
pending_for_client client jobs = oldest (keep_if (queued_for client) jobs)

-- `sorted` of a set with one more member
unfoldable pub insert_key : String → List String → List String
insert_key k [] = k ∷ []
insert_key k (x ∷ xs) =
    if str_eq x k
    then x ∷ xs
    else elim (compare k x) [ Ordering.lt ↦ k ∷ x ∷ xs | _ ↦ x ∷ insert_key k xs ]

-- `sorted(set(keys) | set(base))`
unfoldable pub merge_keys : List String → List String → List String
unfolding insert_key
merge_keys [] base = base
merge_keys (k ∷ ks) base = insert_key k (merge_keys ks base)

-- `{"changed_keys": merged} if merged else otherwise`
abbrev pub payload_or : List String → Option (List String) → Option (List String)
payload_or [] otherwise = otherwise
payload_or (k ∷ ks) otherwise = some (k ∷ ks)

-- `full_build` dominates
abbrev pub dominant : IntelJobType → IntelJobType → IntelJobType
dominant full_build old = full_build
dominant _ old = old

-- The job that `enqueue` finds waiting. As in the source, a payload of null is read as a list of no keys.
unfoldable pub coalesce : IntelJobType → Option (List String) → Option ℕ → IntelJob → IntelJob
coalesce job_type changed_keys run_after existing =
    let merged =
      merge_keys (or_else changed_keys []) (merge_keys (or_else existing.payload []) []) in
    record existing {
      job_type = dominant job_type existing.job_type;
      payload = payload_or merged existing.payload;
      run_after = if is_some run_after then run_after else existing.run_after;
    }

-- `debounce_seconds` of 0 sets no `run_after`
abbrev pub debounced : ℕ → ℕ → Option ℕ
debounced now zero = none
debounced now (suc n) = some (now + suc n)

unfoldable pub new_job : ℕ → ℕ → ℕ → IntelJobType → Option (List String) → Option ℕ → IntelJob
new_job new_id now client job_type changed_keys run_after = record {
  id = new_id;
  client_id = client;
  job_type = job_type;
  status = queued;
  payload = payload_or (merge_keys (or_else changed_keys []) []) none;
  priority = 0;
  run_after = run_after;
  attempts = 0;
  max_attempts = 3;
  locked_by = none;
  locked_at = none;
  last_error = none;
  created_at = now;
}

-- `enqueue`: the table after it, and the job it returns
unfoldable pub enqueue :
    Bool
    → ℕ
    → ℕ
    → ℕ
    → IntelJobType
    → Option (List String)
    → ℕ
    → List IntelJob
    → List IntelJob × Option IntelJob
enqueue false new_id now client job_type changed_keys debounce_seconds jobs = (jobs, none)
enqueue true new_id now client job_type changed_keys debounce_seconds jobs =
    let run_after = debounced now debounce_seconds in
    elim (pending_for_client client jobs) [
      | some existing ↦ (
        update_if (has_id existing.id) (coalesce job_type changed_keys run_after) jobs,
        some (coalesce job_type changed_keys run_after existing),
      )
      | none ↦ (
        jobs ++ new_job new_id now client job_type changed_keys run_after ∷ [],
        some (new_job new_id now client job_type changed_keys run_after),
      )
    ]

-- ---- worker side ----

abbrev locked_before : ℕ → Option ℕ → Bool
locked_before now none = false
locked_before now (some t) = ltb (t + stale_running_timeout_seconds) now

abbrev pub is_stale : ℕ → IntelJob → Bool
is_stale now j = is_running j.status && locked_before now j.locked_at

unfoldable pub reclaim_row : ℕ → IntelJob → IntelJob
reclaim_row now job =
    let spent = leb job.max_attempts job.attempts in
    record job {
      status = if spent then dead else queued;
      run_after = if spent then job.run_after else some now;
      last_error = some (text "Reclaimed: worker did not finish within the stale-job timeout.");
      locked_by = none;
      locked_at = none;
    }

pub record Queue : Type 0 where
  pub jobs : List IntelJob
  -- `_last_reclaim_at_monotonic`
  pub last_reclaim : ℕ

-- `reclaim_stale`, at a monotonic and a wall clock reading; returns how many were reclaimed
unfoldable pub reclaim_stale : Bool → ℕ → ℕ → Queue → Queue × ℕ
reclaim_stale force now_monotonic now q =
    if not force && ltb now_monotonic (q.last_reclaim + reclaim_interval_seconds) then (q, 0) else (
      record {
        jobs = update_if (is_stale now) (reclaim_row now) q.jobs;
        last_reclaim = now_monotonic;
      },
      length (keep_if (is_stale now) q.jobs),
    )

abbrev due : ℕ → Option ℕ → Bool
due now none = true
due now (some t) = leb t now

-- the WHERE of the candidate query
unfoldable pub eligible : ℕ → List ℕ → List IntelJob → IntelJob → Bool
eligible now excluded jobs j =
    is_queued j.status
    && due now j.run_after
    && not (is_some (find_by (running_for j.client_id) jobs))
    && not (contains ◌==◌ j.client_id excluded)

-- ORDER BY priority DESC, created_at
abbrev pub precedes : IntelJob → IntelJob → Bool
precedes a b =
    ltb b.priority a.priority || (a.priority == b.priority && leb a.created_at b.created_at)

unfoldable pub best : List IntelJob → Option IntelJob
best [] = none
best (j ∷ rest) =
    let b = best rest in elim b [ none ↦ some j | some k ↦ if precedes j k then some j else some k ]

unfoldable pub candidate : ℕ → List ℕ → List IntelJob → Option IntelJob
candidate now excluded jobs = best (keep_if (eligible now excluded jobs) jobs)

unfoldable pub claim_row : String → ℕ → IntelJob → IntelJob
claim_row worker_id now job = record job {
  status = running;
  locked_by = some worker_id;
  locked_at = some now;
  attempts = job.attempts + 1;
}

-- the loop of `claim_next`: `others n i` is what other workers commit in round `n` between the
-- SELECT, which locks row `i`, and the recheck under the advisory lock
unfoldable pub claim_loop :
    (ℕ → ℕ → List IntelJob → List IntelJob)
    → String
    → ℕ
    → ℕ
    → List ℕ
    → List IntelJob
    → List IntelJob × Option IntelJob
claim_loop others worker_id now zero excluded jobs = (jobs, none)
claim_loop others worker_id now (suc n) excluded jobs = elim (candidate now excluded jobs) [
  | none ↦ (jobs, none)
  | some job ↦
      let jobs' = others n job.id jobs in
      elim (find_by (running_for job.client_id) jobs') [
        | some other ↦ claim_loop others worker_id now n (job.client_id ∷ excluded) jobs'
        | none ↦ (
          update_if (has_id job.id) (claim_row worker_id now) jobs',
          some (claim_row worker_id now job),
        )
      ]
]

unfoldable pub claim_next :
    (ℕ → ℕ → List IntelJob → List IntelJob) → String → ℕ → ℕ → Queue → Queue × Option IntelJob
claim_next others worker_id now_monotonic now q =
    let (q', _) = reclaim_stale false now_monotonic now q in
    let (jobs, claimed) = claim_loop others worker_id now max_claim_attempts [] q'.jobs in
    (record q' { jobs = jobs }, claimed)

abbrev succeed_row : IntelJob → IntelJob
succeed_row job = record job { status = succeeded; last_error = none }

unfoldable pub succeed : ℕ → List IntelJob → List IntelJob
succeed i = update_if (has_id i) succeed_row

-- `min(300, 10 * (2**job.attempts))`
unfoldable pub backoff_seconds : ℕ → ℕ
backoff_seconds attempts = min 300 (10 * 2 ^ attempts)

-- The source keeps the first 1,000 characters of the error; here a message is not cut.
unfoldable pub fail_row : ℕ → Message → IntelJob → IntelJob
unfolding backoff_seconds
fail_row now error job =
    let spent = leb job.max_attempts job.attempts in
    record job {
      last_error = some error;
      status = if spent then dead else queued;
      run_after = if spent then job.run_after else some (now + backoff_seconds job.attempts);
      locked_by = none;
      locked_at = none;
    }

unfoldable pub fail : ℕ → ℕ → Message → List IntelJob → List IntelJob
fail i now error = update_if (has_id i) (fail_row now error)
