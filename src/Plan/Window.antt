-- ===== src/Plan/Window.antt =====
-- The calendar's window: a task shows exactly when one of its days lies in the window.
use Prim.Native.Nat.{max}
use in_work_marketing_os_bac.Base.{ℕ, ◌≤◌, true, false, Option, none, some, ◌≡◌, ◌↔◌, refl, arith}
use in_work_marketing_os_bac.Model.Tables.{PlanTask}
use in_work_marketing_os_bac.Plan.{inverted}
use in_work_marketing_os_bac.Plan.Board.{coalesce, in_window}

-- A day of the task: from its start to its end, where an open end is the other one.
abbrev pub SpansDay : PlanTask → ℕ → Type 0
SpansDay t day =
    ((s : ℕ) × (coalesce t.start_date t.due_date ≡ some s) × (s ≤ day))
    × ((e : ℕ) × (coalesce t.due_date t.start_date ≡ some e) × (day ≤ e))

-- A task whose dates are not inverted is in a closed, nonempty window exactly when some day of the
-- window is a day of the task.
in_window_iff :
    (start finish : ℕ) (t : PlanTask)
    → start ≤ finish
    → inverted t.start_date t.due_date ≡ false
    → (in_window (some start) (some finish) t ≡ true)
      ↔ ((day : ℕ) × (start ≤ day) × (day ≤ finish) × SpansDay t day)
unfolding in_window
in_window_iff start finish t nonempty ordered = go t.start_date t.due_date ordered refl refl
  where
    go :
        (a b : Option ℕ)
        → inverted a b ≡ false
        → t.start_date ≡ a
        → t.due_date ≡ b
        → (in_window (some start) (some finish) t ≡ true)
          ↔ ((day : ℕ) × (start ≤ day) × (day ≤ finish) × SpansDay t day)
    go none none o p q = (λ h. absurd (ground arith), λ h. absurd (ground arith))
    go none (some b) o p q = (
      λ h. (
        max start b,
        omega arith,
        ground arith,
        ((b, ground arith, omega arith), (b, ground arith, ground arith)),
      ),
      λ h. ground arith,
    )
    go (some a) none o p q = (
      λ h. (
        max start a,
        omega arith,
        ground arith,
        ((a, ground arith, omega arith), (a, ground arith, ground arith)),
      ),
      λ h. ground arith,
    )
    go (some a) (some b) o p q = (
      λ h. (
        max start a,
        omega arith,
        ground arith,
        ((a, ground arith, omega arith), (b, ground arith, ground arith)),
      ),
      λ h. ground arith,
    )
