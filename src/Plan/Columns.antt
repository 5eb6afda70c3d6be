-- ===== src/Plan/Columns.antt =====
-- The columns of a task: their audit values, and the request bodies of app/schemas/plan.py.
use in_work_marketing_os_bac.Base.{ℕ, Bool, Option, none, some}
use in_work_marketing_os_bac.Model.Enums.{
  TaskStatus, todo, in_progress, blocked, done, TaskPriority, TaskCategory,
}
use in_work_marketing_os_bac.Model.Tables.{Text, Value, null, typed, member, number, flag}

-- ---- audit values of columns ----

abbrev pub text_value : Option Text → Value
text_value none = null
text_value (some t) = typed t

abbrev pub number_value : Option ℕ → Value
number_value none = null
number_value (some n) = number n

abbrev pub flag_value : Option Bool → Value
flag_value none = null
flag_value (some b) = flag b

abbrev pub status_value : Option TaskStatus → Value
status_value none = null
status_value (some todo) = member "todo"
status_value (some in_progress) = member "in_progress"
status_value (some blocked) = member "blocked"
status_value (some done) = member "done"

abbrev pub priority_value : Option TaskPriority → Value
priority_value none = null
priority_value (some TaskPriority.low) = member "low"
priority_value (some TaskPriority.medium) = member "medium"
priority_value (some TaskPriority.high) = member "high"
priority_value (some TaskPriority.urgent) = member "urgent"

abbrev pub category_value : Option TaskCategory → Value
category_value none = null
category_value (some TaskCategory.strategy) = member "strategy"
category_value (some TaskCategory.creative) = member "creative"
category_value (some TaskCategory.ads) = member "ads"
category_value (some TaskCategory.content) = member "content"
category_value (some TaskCategory.analytics) = member "analytics"
category_value (some TaskCategory.compliance) = member "compliance"
category_value (some TaskCategory.admin) = member "admin"

-- ---- requests ----

pub record PlanTaskCreate : Type 0 where
  pub title : Text
  pub description : Option Text
  pub requirements : Option Text
  pub category : TaskCategory
  pub status : TaskStatus
  pub priority : TaskPriority
  pub assignee_id : Option ℕ
  pub start_date : Option ℕ
  pub due_date : Option ℕ
  pub start_time : Option ℕ
  pub end_time : Option ℕ

pub record PlanTaskUpdate : Type 0 where
  pub title : Option (Option Text)
  pub description : Option (Option Text)
  pub requirements : Option (Option Text)
  pub category : Option (Option TaskCategory)
  pub status : Option (Option TaskStatus)
  pub priority : Option (Option TaskPriority)
  pub assignee_id : Option (Option ℕ)
  pub start_date : Option (Option ℕ)
  pub due_date : Option (Option ℕ)
  pub start_time : Option (Option ℕ)
  pub end_time : Option (Option ℕ)
  pub archived : Option (Option Bool)
