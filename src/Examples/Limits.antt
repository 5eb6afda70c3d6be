-- ===== src/Examples/Limits.antt =====
-- A key of the rate limiter that is called three times, the limit being two.
use in_work_marketing_os_bac.Base.{◌≤◌, [], ◌∷◌, ◌≡◌, refl, arith, count, find_by, keep_if}
use in_work_marketing_os_bac.Model.Tables.{Text}
use in_work_marketing_os_bac.RateLimit.{
  Store, empty_store, allow, admit, redis_admit, prune, put, hits_of, enforce_scope_cap, drop_aged,
}
use in_work_marketing_os_bac.RateLimit.Shared.{admit-eq-redis_admit}
use in_work_marketing_os_bac.RateLimit.Window.{Run, starts, hit, Run-count}
use in_work_marketing_os_bac.RateLimit.Window.History.{in_window}

abbrev email : Text
email = 97 ∷ 98 ∷ []

first_store : Store
first_store = (allow empty_store 5 "login" email 2 10).0

first-Run : Run "login" email 2 10 first_store 5 (5 ∷ [])
unfolding first_store allow prune put hits_of enforce_scope_cap find_by admit drop_aged keep_if
first-Run = hit 5 starts (omega arith) refl

Run-count_example : count (in_window 12 10) (5 ∷ []) ≤ 2
Run-count_example = Run-count "login" email 2 10 first_store 5 (5 ∷ []) 12 (omega arith) first-Run

admit-eq-redis_admit_example : admit 20 2 10 (5 ∷ 12 ∷ []) ≡ redis_admit 20 2 10 (5 ∷ 12 ∷ [])
admit-eq-redis_admit_example =
    admit-eq-redis_admit 20 2 10 (5 ∷ 12 ∷ []) ((omega arith, tt), (tt, tt))
