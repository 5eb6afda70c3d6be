-- ===== src/JobQueue/Choice.antt =====
-- Which job a claim takes: the most urgent and oldest of those that may run, and one whenever
-- there is one.
use mathlib.Core.Path.{subst}
use in_work_marketing_os_bac.Base.{
  ℕ, suc, String, true, false, none, some, List, [], ◌∷◌, ◌≡◌, ◌≢◌, refl, arith, find_by, keep_if,
  Bool-cases, Option-cases, inl, inr, any, is_some,
}
use in_work_marketing_os_bac.Base.Lists.{All, All-map_same}
use in_work_marketing_os_bac.Base.Rows.{keep_if_some}
use in_work_marketing_os_bac.Model.Tables.{IntelJob}
use in_work_marketing_os_bac.JobQueue.{
  running_for, precedes, best, eligible, candidate, claim_row, claim_loop,
}
use in_work_marketing_os_bac.JobQueue.Invariant.{IsSound}
use in_work_marketing_os_bac.JobQueue.Claim.{candidate_sound}

precedes_total : (a b : IntelJob) → precedes a b ≡ false → precedes b a ≡ true
precedes_total a b h = ground arith

precedes_trans :
    (a b c : IntelJob) → precedes a b ≡ true → precedes b c ≡ true → precedes a c ≡ true
precedes_trans a b c h k = ground arith

precedes_refl : (a : IntelJob) → precedes a a ≡ true
precedes_refl a = ground arith

pub best_some : (xs : List IntelJob) → xs ≢ [] → is_some (best xs) ≡ true
unfolding best
best_some [] h = absurd (h refl)
best_some (x ∷ xs) h = ground arith

no_best : (xs : List IntelJob) → best xs ≡ none → xs ≡ []
no_best [] e = refl
no_best (x ∷ xs) e = let some_best = best_some (x ∷ xs) (λ d. cc d) in absurd (ground arith)

-- The chosen row precedes every other.
best_first :
    (xs : List IntelJob) (j : IntelJob) → best xs ≡ some j → All (λ x. precedes j x ≡ true) xs
unfolding best
best_first [] j e = tt
best_first (x ∷ xs) j e = elim (Option-cases (best xs)) [
  | inl nothing ↦
      let same : j ≡ x = ground arith in (rw same (precedes_refl x), rw (no_best xs nothing) tt)
  | inr (k, found) ↦ elim (Bool-cases (precedes x k)) [
    | inl before ↦
        let same : x ≡ j = ground arith in
        (
          subst (λ y. precedes y x ≡ true) same (precedes_refl x),
          All-map_same (λ y. precedes k y ≡ true) (λ y. precedes j y ≡ true)
              (λ y h. subst (λ z. precedes z y ≡ true) same (precedes_trans x k y before h)) xs
              (best_first xs k found),
        )
    | inr after ↦
        let same : k ≡ j = ground arith in
        (
          subst (λ y. precedes y x ≡ true) same (precedes_total x k after),
          subst (λ y. All (λ z. precedes y z ≡ true) xs) same (best_first xs k found),
        )
  ]
]

-- The candidate precedes every row that may be claimed.
pub candidate-precedes :
    (now : ℕ) (excluded : List ℕ) (jobs : List IntelJob) (j : IntelJob)
    → candidate now excluded jobs ≡ some j
    → All (λ x. precedes j x ≡ true) (keep_if (eligible now excluded jobs) jobs)
unfolding candidate
candidate-precedes now excluded jobs j e =
    best_first (keep_if (eligible now excluded jobs) jobs) j e

-- No other worker commits anything in the waits.
abbrev pub quiet : ℕ → ℕ → List IntelJob → List IntelJob
quiet n i jobs = jobs

eligible_idle :
    (now : ℕ) (excluded : List ℕ) (jobs : List IntelJob) (j : IntelJob)
    → eligible now excluded jobs j ≡ true
    → find_by (running_for j.client_id) jobs ≡ none
unfolding eligible
eligible_idle now excluded jobs j h = ground arith

no_candidate :
    (now : ℕ) (jobs : List IntelJob)
    → any (eligible now [] jobs) jobs ≡ true
    → candidate now [] jobs ≡ none
    → ⊥
unfolding candidate
no_candidate now jobs h e =
    keep_if_some (eligible now [] jobs) jobs h (no_best (keep_if (eligible now [] jobs) jobs) e)

-- In a sound table where some job may be claimed, an undisturbed claim takes one that precedes all
-- others that may be, in its first round.
pub claim_loop-most_urgent :
    (worker_id : String) (now n : ℕ) (jobs : List IntelJob)
    → IsSound jobs
    → any (eligible now [] jobs) jobs ≡ true
    → (j : IntelJob) × ((claim_loop quiet worker_id now (suc n) [] jobs).1
        ≡ some (claim_row worker_id now j))
      × (eligible now [] jobs j ≡ true)
      × All (λ x. precedes j x ≡ true) (keep_if (eligible now [] jobs) jobs)
unfolding claim_loop
claim_loop-most_urgent worker_id now n jobs s h = elim (Option-cases (candidate now [] jobs)) [
  | inl e ↦ absurd (no_candidate now jobs h e)
  | inr (j, e) ↦
      let sound = candidate_sound now [] jobs j s e in
      (
        j,
        rw (e, eligible_idle now [] jobs j sound.1, claim_loop),
        sound.1,
        candidate-precedes now [] jobs j e,
      )
]
