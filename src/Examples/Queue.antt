-- ===== src/Examples/Queue.antt =====
-- A claim, an enqueue, a failure and a run of the queue.
use in_work_marketing_os_bac.Base.{
  true, none, some, [], ◌∷◌, ◌≡◌, ◌⊎◌, refl, arith, any, find_by, keep_if, count,
}
use in_work_marketing_os_bac.Base.Lists.{All}
use in_work_marketing_os_bac.Errors.{text}
use in_work_marketing_os_bac.Model.Enums.{incremental, full_build}
use in_work_marketing_os_bac.Model.Tables.{IntelJob}
use in_work_marketing_os_bac.JobQueue.{
  Queue, has_id, queued_for, enqueue, claim_next, claim_loop, claim_row, eligible, precedes,
  candidate, best, reclaim_stale, pending_for_client, fail,
}
use in_work_marketing_os_bac.JobQueue.Invariant.{IsSound}
use in_work_marketing_os_bac.JobQueue.Claim.{IsHonest, HandedOut, claim_next-HandedOut}
use in_work_marketing_os_bac.JobQueue.Choice.{quiet, claim_loop-most_urgent}
use in_work_marketing_os_bac.JobQueue.Coalesce.{covers, owed, enqueue-covers}
use in_work_marketing_os_bac.JobQueue.Steps.{claims, fails, here, next, Reach-IsSound}
use in_work_marketing_os_bac.Examples.Data.{jobs, queue, waiting, urgent_job}

pub jobs-IsSound : IsSound jobs
unfolding count
jobs-IsSound = record {
  one_row = λ i. ground arith;
  one_running = λ c. ground arith;
  bounded = ((ground arith, λ h. ground arith), ((ground arith, λ h. ground arith), tt));
}

pub one_job-IsSound : IsSound (waiting ∷ [])
unfolding count
one_job-IsSound = record {
  one_row = λ i. ground arith;
  one_running = λ c. ground arith;
  bounded = ((ground arith, λ h. ground arith), tt);
}

quiet-IsHonest : IsHonest quiet
quiet-IsHonest = record { keeps_sound = λ n i xs s. s; keeps_locked = λ n i xs. refl }

taken : (claim_next quiet "worker" 0 1000 queue).1 ≡ some (claim_row "worker" 1000 urgent_job)
unfolding claim_next reclaim_stale claim_loop candidate best keep_if eligible find_by
taken = refl

claim_next-HandedOut_example :
    HandedOut "worker" 1000
      (claim_next quiet "worker" 0 1000 queue).0.jobs
      (claim_row "worker" 1000 urgent_job)
claim_next-HandedOut_example =
    claim_next-HandedOut quiet "worker" 0 1000 queue (claim_row "worker" 1000 urgent_job)
      quiet-IsHonest jobs-IsSound taken

some_eligible : any (eligible 1000 [] jobs) jobs ≡ true
unfolding eligible find_by
some_eligible = refl

claim_loop-most_urgent_example :
    (j : IntelJob) × ((claim_loop quiet "worker" 1000 5 [] jobs).1
      ≡ some (claim_row "worker" 1000 j))
    × (eligible 1000 [] jobs j ≡ true)
    × All (λ x. precedes j x ≡ true) (keep_if (eligible 1000 [] jobs) jobs)
claim_loop-most_urgent_example =
    claim_loop-most_urgent "worker" 1000 4 jobs jobs-IsSound some_eligible

unused_id : find_by (has_id 90) jobs ≡ none
unfolding find_by
unused_id = refl

enqueue-covers_example :
    (k : IntelJob) × ((enqueue true 90 1000 1 full_build (some ("brand" ∷ [])) 5 jobs).1 ≡ some k)
    × (find_by (has_id k.id) (enqueue true 90 1000 1 full_build (some ("brand" ∷ [])) 5 jobs).0
        ≡ some k)
    × (queued_for 1 k ≡ true)
    × ((k.job_type ≡ full_build) ⊎ (full_build ≡ incremental))
    × (covers k.job_type k.payload "name"
        ≡ owed full_build (some ("brand" ∷ [])) (pending_for_client 1 jobs) "name")
enqueue-covers_example =
    enqueue-covers 90 1000 1 5 full_build (some ("brand" ∷ [])) jobs "name" jobs-IsSound unused_id

abbrev claimed : Queue
claimed = (claim_next quiet "worker" 0 1000 queue).0

Reach-IsSound_example : IsSound (fail 41 1010 (text "timeout") claimed.jobs)
Reach-IsSound_example =
    Reach-IsSound
      (next (next here (claims quiet "worker" 0 1000 quiet-IsHonest))
        (fails 41 1010 (text "timeout")))
      jobs-IsSound
