-- ===== src/JobQueue/Invariant.antt =====
-- The invariant of the job table: ids are unique, a client has at most one running job, and no job
-- is tried more often than its `max_attempts`.
use in_work_marketing_os_bac.Base.{
  ℕ, ◌≤◌, ◌<◌, Bool, true, some, List, ◌≡◌, arith, find_by, update_if, count, bit,
}
use in_work_marketing_os_bac.Base.Lists.{All}
use in_work_marketing_os_bac.Base.Rows
use in_work_marketing_os_bac.Base.Rows.{count-update_le, count_pos, All-update_if}
use in_work_marketing_os_bac.Model.Enums.{is_queued}
use in_work_marketing_os_bac.Model.Tables.{IntelJob}
use in_work_marketing_os_bac.JobQueue.{has_id, running_for}

abbrev pub IsBounded : IntelJob → Type 0
IsBounded j =
    (j.attempts ≤ j.max_attempts) × (is_queued j.status ≡ true → j.attempts < j.max_attempts)

pub record IsSound (jobs : List IntelJob) : Type 0 where
  pub one_row : (i : ℕ) → count (has_id i) jobs ≤ 1
  pub one_running : (client : ℕ) → count (running_for client) jobs ≤ 1
  pub bounded : All IsBounded jobs

-- A change of rows that keeps ids and attempts in order and starts no job keeps the invariant.
pub update-IsSound :
    (q : IntelJob → Bool) (f : IntelJob → IntelJob) (jobs : List IntelJob)
    → ((i : ℕ) (j : IntelJob) → bit (has_id i (f j)) ≤ bit (has_id i j))
    → ((c : ℕ) (j : IntelJob) → bit (running_for c (f j)) ≤ bit (running_for c j))
    → ((j : IntelJob) → q j ≡ true → IsBounded j → IsBounded (f j))
    → IsSound jobs
    → IsSound (update_if q f jobs)
update-IsSound q f jobs same_id none_started keeps s = record {
  one_row = λ i. omega (arith, count-update_le (has_id i) q f jobs (same_id i), s.one_row i);
  one_running = λ c.
      omega (arith, count-update_le (running_for c) q f jobs (none_started c), s.one_running c);
  bounded = All-update_if IsBounded q f jobs keeps s.bounded;
}

abbrev IsFound : List IntelJob → IntelJob → Type 0
IsFound jobs x = find_by (has_id x.id) jobs ≡ some x

-- With unique ids, a SELECT by the id of a row finds that row.
pub self_lookup :
    (jobs : List IntelJob) → ((i : ℕ) → count (has_id i) jobs ≤ 1) → All (IsFound jobs) jobs
self_lookup = Rows.self_lookup (λ (j : IntelJob). j.id)

-- All rows with the id of a row that was found are that row.
pub only_row :
    (jobs : List IntelJob) (i : ℕ) (r : IntelJob)
    → ((k : ℕ) → count (has_id k) jobs ≤ 1)
    → find_by (has_id i) jobs ≡ some r
    → All (λ x. has_id i x ≡ true → x ≡ r) jobs
only_row = Rows.only_row (λ (j : IntelJob). j.id)
