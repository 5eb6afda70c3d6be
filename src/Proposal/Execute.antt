-- ===== src/Proposal/Execute.antt =====
-- app/services/proposal_service.py, `_execute_operation` and its two dispatchers: one proposed
-- operation replayed against the session's tables. The `stage_*` calls store, for each kind of operation,
-- the payload shape that is read here; `key_error` stands for the exception, no `AppError`, that
-- reading another shape raises.
pub mod Trail
use in_work_marketing_os_bac.Base.{◌∷◌, ℕ, String, Option, none, some, List, str_eq, if◌then◌else◌}
use in_work_marketing_os_bac.Errors.{
  text, with_name, not_found, bad_request, key_error, Result, ok, err, ◌>>=◌, or_raise,
}
use in_work_marketing_os_bac.Model.Enums.{
  ClientCapability, ProposedOperationType, create, update, delete, assign, unassign,
}
use in_work_marketing_os_bac.Model.Tables.{Text, Value, typed, Change, ClientField, Db, Env}
use in_work_marketing_os_bac.Model.Proposals.{
  Payload, new_task, task_copy, task_data, client_data, brand_data, user_data, task_note,
  assignment, capability_list, assignee, ProposedOperation,
}
use in_work_marketing_os_bac.Access.{
  get_client_row, client_not_found, apply_assign, apply_set_capabilities, apply_unassign,
  apply_update_client,
}
use in_work_marketing_os_bac.Plan.{
  apply_create_task, apply_update_task, apply_delete_task, apply_duplicate_task, apply_add_note,
}
use in_work_marketing_os_bac.Accounts.{apply_update_user, apply_update_brand}

-- The tables after an operation, `op.field_changes` after it, and the id and label it returns.
pub record Executed : Type 0 where
  pub db : Db
  pub field_changes : Option (List Change)
  pub entity_id : Option ℕ
  pub entity_label : Option Text

abbrev op_value : ProposedOperationType → String
op_value create = "create"
op_value update = "update"
op_value delete = "delete"
op_value assign = "assign"
op_value unassign = "unassign"

abbrev pub text_of : Value → Option Text
text_of (typed t) = some t
text_of _ = none

execute_create : Env → Db → ℕ → Payload → Result Executed
execute_create env db client_id (task_copy source_task_id created_by) = do
  (db', task, changes) ← apply_duplicate_task env db client_id source_task_id created_by
  ok (record {
    db = db';
    field_changes = changes;
    entity_id = some task.id;
    entity_label = task.title;
  })
execute_create env db client_id (new_task d created_by) = do
  (db', task, changes) ← apply_create_task env db client_id d created_by
  ok (record {
    db = db';
    field_changes = changes;
    entity_id = some task.id;
    entity_label = task.title;
  })
execute_create env db client_id _ = err key_error

execute_update : Env → Db → ℕ → ℕ → Payload → Result Executed
execute_update env db client_id task_id (task_data d) = do
  (db', task, changes) ← apply_update_task env db client_id task_id d
  ok (record {
    db = db';
    field_changes = changes;
    entity_id = some task.id;
    entity_label = task.title;
  })
execute_update env db client_id task_id _ = err key_error

execute_delete : Env → Db → ℕ → ℕ → Result Executed
execute_delete env db client_id task_id = do
  (db', task, changes) ← apply_delete_task env db client_id task_id
  ok (record {
    db = db';
    field_changes = changes;
    entity_id = some task_id;
    entity_label = task.title;
  })

abbrev pub unknown_task : Result Executed
unknown_task = err (not_found (text "Task not found."))

-- a lookup by the id None finds nothing
execute_plan_task : Env → Db → ℕ → ProposedOperation → Result Executed
unfolding execute_create execute_update execute_delete
execute_plan_task env db client_id op = elim op.operation_type [
  | create ↦ execute_create env db client_id op.payload
  | update ↦ elim op.entity_id [
    | some i ↦ execute_update env db client_id i op.payload
    | none ↦ unknown_task
  ]
  | delete ↦ elim op.entity_id [ some i ↦ execute_delete env db client_id i | none ↦ unknown_task ]
  | other ↦ err (bad_request (with_name "Unsupported plan_task operation: {}" (op_value other)))
]

-- `uuid.UUID(payload["user_id"])`, which comes before every branch
target_user_id : Payload → Result ℕ
target_user_id (assignment user_id caps assigned_by) = ok user_id
target_user_id (capability_list user_id caps) = ok user_id
target_user_id (assignee user_id) = ok user_id
target_user_id (task_note task_id body user_id) = ok user_id
target_user_id _ = err key_error

-- `[…] if payload.get("capabilities") else None`
abbrev pub truthy_caps : Option (List ClientCapability) → Option (List ClientCapability)
truthy_caps (some (c ∷ caps)) = some (c ∷ caps)
truthy_caps _ = none

execute_assign : Env → Db → ℕ → ProposedOperation → Payload → Result Executed
execute_assign env db client_id op (assignment user_id caps assigned_by) = do
  (db', a) ← apply_assign env db client_id user_id assigned_by (truthy_caps caps)
  ok (record {
    db = db';
    field_changes = op.field_changes;
    entity_id = some a.id;
    entity_label = none;
  })
execute_assign env db client_id op _ = err key_error

execute_set_capabilities : Env → Db → ℕ → ProposedOperation → Payload → Result Executed
execute_set_capabilities env db client_id op (capability_list user_id caps) = do
  (db', a) ← apply_set_capabilities env db client_id user_id caps
  ok (record {
    db = db';
    field_changes = op.field_changes;
    entity_id = some a.id;
    entity_label = none;
  })
execute_set_capabilities env db client_id op (assignment user_id (some caps) assigned_by) = do
  (db', a) ← apply_set_capabilities env db client_id user_id caps
  ok (record {
    db = db';
    field_changes = op.field_changes;
    entity_id = some a.id;
    entity_label = none;
  })
execute_set_capabilities env db client_id op _ = err key_error

execute_unassign : Env → Db → ℕ → ProposedOperation → Payload → Result Executed
unfolding target_user_id
execute_unassign env db client_id op payload = do
  user_id ← target_user_id payload
  db' ← apply_unassign env db client_id user_id
  ok (record {
    db = db';
    field_changes = op.field_changes;
    entity_id = op.entity_id;
    entity_label = none;
  })

execute_assignment : Env → Db → ℕ → ProposedOperation → Result Executed
unfolding execute_assign execute_set_capabilities execute_unassign target_user_id
execute_assignment env db client_id op = elim op.operation_type [
  | assign ↦ execute_assign env db client_id op op.payload
  | update ↦ execute_set_capabilities env db client_id op op.payload
  | unassign ↦ execute_unassign env db client_id op op.payload
  | other ↦ target_user_id op.payload >>= λ _.
      err (bad_request (with_name "Unsupported client_assignment operation: {}" (op_value other)))
]

execute_note : Env → Db → ℕ → ProposedOperation → Payload → Result Executed
execute_note env db client_id op (task_note task_id body user_id) = do
  (db', note, task) ← apply_add_note env db client_id task_id body user_id
  ok (record {
    db = db';
    field_changes = op.field_changes;
    entity_id = some note.id;
    entity_label = task.title;
  })
execute_note env db client_id op _ = err key_error

execute_client : Env → Db → ℕ → Payload → Result Executed
execute_client env db client_id (client_data d) = do
  (db', client, changes) ← apply_update_client env db client_id d
  ok (record {
    db = db';
    field_changes = changes;
    entity_id = some client.id;
    entity_label = text_of (client.profile ClientField.name);
  })
execute_client env db client_id _ = err key_error

execute_brand : Env → Db → ℕ → Payload → Result Executed
execute_brand env db client_id (brand_data d) = do
  client ← or_raise (get_client_row db client_id) client_not_found
  let (db', changes) = apply_update_brand env db client d
  ok (record {
    db = db';
    field_changes = changes;
    entity_id = some client.id;
    entity_label = text_of (client.profile ClientField.name);
  })
execute_brand env db client_id _ =
    or_raise (get_client_row db client_id) client_not_found >>= λ _. err key_error

execute_user : Env → Db → Option ℕ → Payload → Result Executed
execute_user env db (some user_id) (user_data d) = do
  (db', u, changes) ← apply_update_user env db user_id d
  ok (record {
    db = db';
    field_changes = changes;
    entity_id = some u.id;
    entity_label = some u.email;
  })
execute_user env db none (user_data d) = err (not_found (text "User not found."))
execute_user env db _ _ = err key_error

unfoldable pub execute_operation : Env → Db → ℕ → ProposedOperation → Result Executed
unfolding execute_plan_task execute_assignment execute_note execute_client execute_brand
    execute_user
execute_operation env db client_id op =
    if str_eq op.entity_type "plan_task"
    then execute_plan_task env db client_id op
    else if str_eq op.entity_type "plan_task_note"
    then execute_note env db client_id op op.payload
    else if str_eq op.entity_type "client_assignment"
    then execute_assignment env db client_id op
    else if str_eq op.entity_type "client"
    then execute_client env db client_id op.payload
    else if str_eq op.entity_type "client_brand"
    then execute_brand env db client_id op.payload
    else if str_eq op.entity_type "user"
    then execute_user env db op.entity_id op.payload
    else err (bad_request (with_name "Unknown proposal entity type: {}" op.entity_type))
