-- ===== src/Plan/Ranges.antt =====
-- The spans of tasks: a write never stores an inverted range, and an update is refused exactly for
-- an inverted one.
use in_work_marketing_os_bac.Base.{
  ℕ, true, false, Option, none, some, List, [], ◌∷◌, ◌++◌, ◌≡◌, ◌↔◌, not, arith, update_if,
  remove_if, Option-cases, inl, inr,
}
use in_work_marketing_os_bac.Base.Lists.{All, All-append}
use in_work_marketing_os_bac.Base.Rows.{All-update_if, keep_if-All, find_by-All}
use in_work_marketing_os_bac.Errors.{Result-cases, is_ok, ok}
use in_work_marketing_os_bac.Model.Tables.{PlanTask, Change, Db, Env}
use in_work_marketing_os_bac.Audit.{field_changes}
use in_work_marketing_os_bac.Plan.Columns.{PlanTaskCreate, PlanTaskUpdate}
use in_work_marketing_os_bac.Plan.{
  is_task, task_id_is, get_for_client, get_task, inverted, ranges_pass, created_task,
  apply_create_task, merged, patched_task, touched_fields, stamped, updated_task, apply_update_task,
  apply_delete_task, duplicated_task, apply_duplicate_task,
}

-- Neither the dates nor the times of a task are inverted.
abbrev pub IsOrdered : PlanTask → Type 0
IsOrdered t =
    (inverted t.start_date t.due_date ≡ false) × (inverted t.start_time t.end_time ≡ false)

abbrev pub AllOrdered : Db → Type 0
AllOrdered db = All IsOrdered db.tasks

stamped-IsOrdered :
    (env : Env) (changes : Option (List Change)) (t : PlanTask)
    → IsOrdered t
    → IsOrdered (stamped env changes t)
stamped-IsOrdered env none t h = h
stamped-IsOrdered env (some cs) t h = h

-- A task created from a request that passed the schema's check keeps the table ordered.
pub create-AllOrdered :
    (env : Env) (db : Db) (client_id created_by : ℕ) (d : PlanTaskCreate) {db' : Db} {t : PlanTask}
    {changes : Option (List Change)}
    → ranges_pass d ≡ true
    → AllOrdered db
    → apply_create_task env db client_id d created_by ≡ ok (db', t, changes)
    → AllOrdered db'
unfolding apply_create_task
create-AllOrdered env db client_id created_by d {db'} valid h e =
    let rows : db'.tasks ≡ db.tasks ++ created_task env client_id d created_by ∷ [] =
      ground arith in
    rw rows (
      All-append IsOrdered db.tasks (created_task env client_id d created_by ∷ []) h (ground arith))

-- Whatever was stored before, a successful update stores no inverted range.
pub update-AllOrdered :
    (env : Env) (db : Db) (client_id task_id : ℕ) (d : PlanTaskUpdate) {db' : Db} {t : PlanTask}
    {changes : Option (List Change)}
    → AllOrdered db
    → apply_update_task env db client_id task_id d ≡ ok (db', t, changes)
    → AllOrdered db'
unfolding apply_update_task
update-AllOrdered env db client_id task_id d {db'} h e =
    elim (Result-cases (get_task db client_id task_id)) [
      | inl (task, found) ↦
          let checked : IsOrdered (patched_task d task) = ground arith in
          let rows : db'.tasks
              ≡ update_if (task_id_is task.id) (λ _. updated_task env d task) db.tasks =
            ground arith in
          rw rows (
            All-update_if IsOrdered (task_id_is task.id) (λ _. updated_task env d task) db.tasks
              (λ _ _ _.
                stamped-IsOrdered env
                  (field_changes (touched_fields d task) (touched_fields d (patched_task d task)))
                  (patched_task d task) checked)
              h)
      | inr (x, missing) ↦ absurd (ground arith)
    ]

pub delete-AllOrdered :
    (env : Env) (db : Db) (client_id task_id : ℕ) {db' : Db} {t : PlanTask}
    {changes : Option (List Change)}
    → AllOrdered db
    → apply_delete_task env db client_id task_id ≡ ok (db', t, changes)
    → AllOrdered db'
unfolding apply_delete_task
delete-AllOrdered env db client_id task_id {db'} {t} h e =
    let rows : db'.tasks ≡ remove_if (task_id_is t.id) db.tasks = ground arith in
    rw rows (keep_if-All IsOrdered (λ x. not (task_id_is t.id x)) db.tasks h)

pub duplicate-AllOrdered :
    (env : Env) (db : Db) (client_id task_id created_by : ℕ) {db' : Db} {t : PlanTask}
    {changes : Option (List Change)}
    → AllOrdered db
    → apply_duplicate_task env db client_id task_id created_by ≡ ok (db', t, changes)
    → AllOrdered db'
unfolding apply_duplicate_task get_task
duplicate-AllOrdered env db client_id task_id created_by {db'} h e =
    elim (Option-cases (get_for_client db client_id task_id)) [
      | inl missing ↦ absurd (ground arith)
      | inr (source, found) ↦
          let rows : db'.tasks ≡ db.tasks ++ duplicated_task env client_id source created_by ∷ [] =
            ground arith in
          rw rows (
            All-append IsOrdered db.tasks (duplicated_task env client_id source created_by ∷ []) h (
              unfold duplicated_task in
                  find_by-All IsOrdered (is_task client_id task_id) db.tasks source h
                    (unfold get_for_client in found),
              tt,
            ))
    ]

-- An update goes through exactly when the task is the client's and neither merged range, of sent and
-- stored ends, is inverted.
update_accepts_iff :
    (env : Env) (db : Db) (client_id task_id : ℕ) (d : PlanTaskUpdate)
    → (is_ok (apply_update_task env db client_id task_id d) ≡ true) ↔ (
        (t : PlanTask) × (get_for_client db client_id task_id ≡ some t)
        × (inverted (merged d.start_date t.start_date) (merged d.due_date t.due_date) ≡ false)
        × (inverted (merged d.start_time t.start_time) (merged d.end_time t.end_time) ≡ false))
unfolding apply_update_task get_task
update_accepts_iff env db client_id task_id d = (
  λ h. elim (Option-cases (get_for_client db client_id task_id)) [
    | inl missing ↦ absurd (ground arith)
    | inr (t, found) ↦ (t, found, ground arith, ground arith)
  ],
  λ h. ground arith,
)
