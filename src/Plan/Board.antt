-- ===== src/Plan/Board.antt =====
-- `PlanTaskRepository.list_for_client`: which tasks the board and the calendar show.
use in_work_marketing_os_bac.Base.{
  ℕ, Bool, true, false, Option, none, some, ◌&&◌, ◌||◌, not, ◌==◌, leb, if◌then◌else◌, is_some,
  opt_eq,
}
use in_work_marketing_os_bac.Model.Enums.{
  TaskStatus, TaskPriority, TaskCategory, task_status_index, task_priority_index,
  task_category_index,
}
use in_work_marketing_os_bac.Model.Tables.{PlanTask}

pub record TaskFilter : Type 0 where
  pub status : Option TaskStatus
  pub category : Option TaskCategory
  pub priority : Option TaskPriority
  pub assignee_id : Option ℕ
  pub start : Option ℕ
  pub finish : Option ℕ
  pub include_undated : Bool
  pub include_archived : Bool

-- `func.coalesce`
abbrev pub coalesce : Option ℕ → Option ℕ → Option ℕ
coalesce none b = b
coalesce (some a) b = some a

-- a comparison with NULL does not hold
abbrev pub at_most : Option ℕ → ℕ → Bool
at_most none bound = false
at_most (some x) bound = leb x bound

abbrev pub at_least : Option ℕ → ℕ → Bool
at_least none bound = false
at_least (some x) bound = leb bound x

abbrev unless_given : Option ℕ → (ℕ → Bool) → Bool
unless_given none test = true
unless_given (some bound) test = test bound

-- `and_(*overlaps)`
unfoldable pub in_window : Option ℕ → Option ℕ → PlanTask → Bool
in_window start finish t =
    (is_some t.start_date || is_some t.due_date)
    && unless_given finish (at_most (coalesce t.start_date t.due_date))
    && unless_given start (at_least (coalesce t.due_date t.start_date))

window_condition : TaskFilter → PlanTask → Bool
unfolding in_window
window_condition f t =
    if is_some f.start || is_some f.finish
    then in_window f.start f.finish t
      || (f.include_undated && not (is_some t.start_date) && not (is_some t.due_date))
    else true

abbrev index_of {ℓ} : {A : Type ℓ} → (A → ℕ) → Option A → Option ℕ
index_of f none = none
index_of f (some a) = some (f a)

-- `if wanted is not None: column == wanted`
abbrev wants : Option ℕ → Option ℕ → Bool
wants none column = true
wants (some w) column = opt_eq column (some w)

-- `archived.is_(False)`
abbrev pub is_false : Option Bool → Bool
is_false (some false) = true
is_false _ = false

-- the WHERE of `list_for_client`
unfoldable pub matches : ℕ → TaskFilter → PlanTask → Bool
unfolding window_condition
matches client_id f t =
    t.client_id == client_id
    && (f.include_archived || is_false t.archived)
    && wants (index_of task_status_index f.status) (index_of task_status_index t.status)
    && wants (index_of task_category_index f.category) (index_of task_category_index t.category)
    && wants (index_of task_priority_index f.priority) (index_of task_priority_index t.priority)
    && wants f.assignee_id t.assignee_id
    && window_condition f t
