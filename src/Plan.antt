-- ===== src/Plan.antt =====
-- app/services/plan_service.py and app/repositories/plan_repository.py: the task board. Dates and
-- times are numbers in their order. In a patch, `none` is a field that the body leaves out, and
-- `some v` one that it sends, where `v` may be null.
pub mod Columns
pub mod Board
pub mod Ranges
pub mod Window
pub mod Writes
use in_work_marketing_os_bac.Base.{
  ℕ, String, Bool, true, false, Option, none, some, List, [], ◌∷◌, ◌++◌, ◌&&◌, ◌||◌, not, ◌==◌, ltb,
  leb, if◌then◌else◌, is_some, or_else, opt_eq, find_by, update_if, remove_if, count, take, codes,
}
use in_work_marketing_os_bac.Errors.{
  text, with_number, Exn, bad_request, not_found, Result, ok, err, ◌>>=◌, ◌>>◌, raise_if, or_raise,
}
use in_work_marketing_os_bac.Model.Enums.{
  TaskStatus, todo, in_progress, blocked, done, TaskPriority, TaskCategory, task_status_index,
  task_priority_index, task_category_index,
}
use in_work_marketing_os_bac.Model.Tables.{
  Text, Value, null, typed, member, number, flag, Change, PlanTask, PlanTaskAsset, PlanTaskNote, Db,
  Env,
}
use in_work_marketing_os_bac.Audit.{Dict, field_changes, created_changes, deleted_changes}
use in_work_marketing_os_bac.Access.{flush}
use in_work_marketing_os_bac.Plan.Columns.{
  PlanTaskCreate, PlanTaskUpdate, text_value, number_value, flag_value, status_value,
  priority_value, category_value,
}

abbrev pub max_assets_per_task : ℕ
max_assets_per_task = 20

-- ---- reads ----

abbrev pub is_task : ℕ → ℕ → PlanTask → Bool
is_task client_id task_id t = t.id == task_id && t.client_id == client_id

abbrev pub task_id_is : ℕ → PlanTask → Bool
task_id_is task_id t = t.id == task_id

-- `PlanTaskRepository.get_for_client`
unfoldable pub get_for_client : Db → ℕ → ℕ → Option PlanTask
get_for_client db client_id task_id = find_by (is_task client_id task_id) db.tasks

abbrev pub task_not_found : Exn
task_not_found = not_found (text "Task not found.")

unfoldable pub get_task : Db → ℕ → ℕ → Result PlanTask
unfolding get_for_client
get_task db client_id task_id = or_raise (get_for_client db client_id task_id) task_not_found

-- ---- writes ----

-- `(s := a) and (e := b) and s > e`
abbrev pub inverted : Option ℕ → Option ℕ → Bool
inverted (some s) (some e) = ltb e s
inverted _ _ = false

-- `_check_ranges` of app/schemas/plan.py, which every PlanTaskCreate has passed
abbrev pub ranges_pass : PlanTaskCreate → Bool
ranges_pass d = not (inverted d.start_date d.due_date) && not (inverted d.start_time d.end_time)

unfoldable pub created_task : Env → ℕ → PlanTaskCreate → ℕ → PlanTask
created_task env client_id d created_by = record {
  id = env.new_id;
  client_id = client_id;
  title = some d.title;
  description = d.description;
  requirements = d.requirements;
  category = some d.category;
  status = some d.status;
  priority = some d.priority;
  assignee_id = d.assignee_id;
  start_date = d.start_date;
  due_date = d.due_date;
  start_time = d.start_time;
  end_time = d.end_time;
  created_by = created_by;
  archived = some false;
  updated_at = env.now;
}

unfoldable pub apply_create_task :
    Env → Db → ℕ → PlanTaskCreate → ℕ → Result (Db × PlanTask × Option (List Change))
unfolding created_task flush
apply_create_task env db client_id d created_by = do
  let task = created_task env client_id d created_by
  db' ← flush env (record db { tasks = db.tasks ++ task ∷ [] })
  ok (
    db',
    task,
    created_changes (
        ("title", text_value task.title)
        ∷ ("category", category_value task.category)
        ∷ ("status", status_value task.status)
        ∷ ("start_date", number_value task.start_date)
        ∷ ("due_date", number_value task.due_date)
        ∷ []),
  )

-- `getattr(data, attr) if attr in fields else getattr(task, attr)`
abbrev pub merged {ℓ} : {A : Type ℓ} → Option A → A → A
merged none old = old
merged (some v) old = v

abbrev pub patched_task : PlanTaskUpdate → PlanTask → PlanTask
patched_task d t = record t {
  title = merged d.title t.title;
  description = merged d.description t.description;
  requirements = merged d.requirements t.requirements;
  category = merged d.category t.category;
  status = merged d.status t.status;
  priority = merged d.priority t.priority;
  assignee_id = merged d.assignee_id t.assignee_id;
  start_date = merged d.start_date t.start_date;
  due_date = merged d.due_date t.due_date;
  start_time = merged d.start_time t.start_time;
  end_time = merged d.end_time t.end_time;
  archived = merged d.archived t.archived;
}

-- an entry for `attr`, if the patch sends it
abbrev touch {ℓ} : {A : Type ℓ} → Option A → String → Value → Dict → Dict
touch none attr v rest = rest
touch (some _) attr v rest = (attr, v) ∷ rest

-- `{a: _audit_value(getattr(task, a)) for a in touched}`
unfoldable pub touched_fields : PlanTaskUpdate → PlanTask → Dict
touched_fields d t = touch d.title "title" (text_value t.title) (
    touch d.description "description" (text_value t.description) (
      touch d.requirements "requirements" (text_value t.requirements) (
        touch d.category "category" (category_value t.category) (
          touch d.status "status" (status_value t.status) (
            touch d.priority "priority" (priority_value t.priority) (
              touch d.assignee_id "assignee_id" (number_value t.assignee_id) (
                touch d.start_date "start_date" (number_value t.start_date) (
                  touch d.due_date "due_date" (number_value t.due_date) (
                    touch d.start_time "start_time" (number_value t.start_time) (
                      touch d.end_time "end_time" (number_value t.end_time)
                        (touch d.archived "archived" (flag_value t.archived) [])))))))))))

-- the timestamp moves when a column does
abbrev pub stamped : Env → Option (List Change) → PlanTask → PlanTask
stamped env none t = t
stamped env (some _) t = record t { updated_at = env.now }

abbrev pub dates_inverted : Exn
dates_inverted = bad_request (text "start_date must be on or before due_date")

abbrev pub times_inverted : Exn
times_inverted = bad_request (text "start_time must be on or before end_time")

abbrev pub updated_task : Env → PlanTaskUpdate → PlanTask → PlanTask
updated_task env d t =
    stamped env (field_changes (touched_fields d t) (touched_fields d (patched_task d t)))
      (patched_task d t)

unfoldable pub apply_update_task :
    Env → Db → ℕ → ℕ → PlanTaskUpdate → Result (Db × PlanTask × Option (List Change))
unfolding get_task
apply_update_task env db client_id task_id d = do
  task ← get_task db client_id task_id
  raise_if (inverted (merged d.start_date task.start_date) (merged d.due_date task.due_date))
      dates_inverted
  raise_if (inverted (merged d.start_time task.start_time) (merged d.end_time task.end_time))
      times_inverted
  ok (
    record db { tasks = update_if (task_id_is task.id) (λ _. updated_task env d task) db.tasks },
    updated_task env d task,
    field_changes (touched_fields d task) (touched_fields d (patched_task d task)),
  )

-- the delete cascades to the task's links and notes
unfoldable pub apply_delete_task : Env → Db → ℕ → ℕ → Result (Db × PlanTask × Option (List Change))
unfolding get_task flush
apply_delete_task env db client_id task_id = do
  task ← get_task db client_id task_id
  db' ← flush env (record db {
    tasks = remove_if (task_id_is task.id) db.tasks;
    assets = remove_if (λ a. a.task_id == task.id) db.assets;
    notes = remove_if (λ n. n.task_id == task.id) db.notes;
  })
  ok (
    db',
    task,
    deleted_changes (
        ("title", text_value task.title)
        ∷ ("category", category_value task.category)
        ∷ ("status", status_value task.status)
        ∷ []),
  )

unfoldable pub duplicated_task : Env → ℕ → PlanTask → ℕ → PlanTask
duplicated_task env client_id source created_by = record {
  id = env.new_id;
  client_id = client_id;
  title = some (take 200 (or_else source.title (codes "None") ++ codes " (copy)"));
  description = source.description;
  requirements = source.requirements;
  category = source.category;
  status = some todo;
  priority = source.priority;
  assignee_id = none;
  start_date = source.start_date;
  due_date = source.due_date;
  start_time = source.start_time;
  end_time = source.end_time;
  created_by = created_by;
  archived = some false;
  updated_at = env.now;
}

unfoldable pub apply_duplicate_task :
    Env → Db → ℕ → ℕ → ℕ → Result (Db × PlanTask × Option (List Change))
unfolding get_task duplicated_task flush
apply_duplicate_task env db client_id task_id created_by = do
  source ← get_task db client_id task_id
  let copy = duplicated_task env client_id source created_by
  db' ← flush env (record db { tasks = db.tasks ++ copy ∷ [] })
  ok (
    db',
    copy,
    created_changes
        (("title", text_value copy.title) ∷ ("category", category_value copy.category) ∷ []),
  )

unfoldable pub apply_add_note : Env → Db → ℕ → ℕ → Text → ℕ → Result (Db × PlanTaskNote × PlanTask)
unfolding get_task flush
apply_add_note env db client_id task_id body user_id = do
  task ← get_task db client_id task_id
  let note : PlanTaskNote = record {
    id = env.new_id;
    task_id = task.id;
    user_id = user_id;
    body = body;
  }
  db' ← flush env (record db { notes = db.notes ++ note ∷ [] })
  ok (db', note, task)

-- ---- supporting links ----

abbrev pub link_of : ℕ → PlanTaskAsset → Bool
link_of task_id a = a.task_id == task_id

unfoldable pub add_asset : Env → Db → ℕ → ℕ → Text → Option Text → Result (Db × PlanTaskAsset)
unfolding get_task flush
add_asset env db client_id task_id url label = do
  task ← get_task db client_id task_id
  raise_if (leb max_assets_per_task (count (link_of task.id) db.assets))
      (bad_request (with_number "A task can have at most {} supporting links." max_assets_per_task))
  let asset : PlanTaskAsset = record {
    id = env.new_id;
    task_id = task.id;
    url = url;
    label = label;
    position = count (link_of task.id) db.assets;
  }
  db' ← flush env (record db { assets = db.assets ++ asset ∷ [] })
  ok (db', asset)

unfoldable pub remove_asset : Env → Db → ℕ → ℕ → ℕ → Result Db
unfolding get_task flush
remove_asset env db client_id task_id asset_id = do
  task ← get_task db client_id task_id
  asset ←
      or_raise (find_by (λ (a : PlanTaskAsset). a.id == asset_id && a.task_id == task_id) db.assets)
        (not_found (text "Supporting link not found."))
  flush env (record db { assets = remove_if (λ a. a.id == asset.id) db.assets })
