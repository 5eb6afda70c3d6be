-- ===== src/Proposal/Stage.antt =====
-- app/services/proposal_service.py, the `stage_*` calls: each checks the request with a dry run of the
-- call that would execute it, in a savepoint that is rolled back, and returns the operation to
-- propose. The number, status and error of a staged operation are those that `create_proposal` sets.
use in_work_marketing_os_bac.Base.{
  ℕ, String, Bool, true, false, Option, none, some, List, [], ◌∷◌, map, not, codes, keep_if,
}
use in_work_marketing_os_bac.Errors.{
  text, Exn, forbidden, not_found, Result, ok, ◌>>=◌, ◌>>◌, raise_if, or_raise,
}
use in_work_marketing_os_bac.Model.Enums.{
  is_admin, ClientCapability, capability_members, capability_value, ProposedOperationStatus,
  ProposedOperationType, create, update, delete, assign, unassign,
}
use in_work_marketing_os_bac.Model.Tables.{
  Text, Value, null, typed, listed, Change, ClientField, User, Db, Env,
}
use in_work_marketing_os_bac.Model.Proposals.{
  Payload, empty, new_task, task_copy, task_data, client_data, brand_data, user_data, task_note,
  assignment, capability_list, assignee, ProposedOperation,
}
use in_work_marketing_os_bac.Audit.{created_changes, deleted_changes, field_changes}
use in_work_marketing_os_bac.Access.{
  get_client, get_user_row, get_assignment, capabilities_from_stored, assignment_not_found,
  apply_assign, apply_set_capabilities, apply_unassign, ClientUpdate, apply_update_client,
}
use in_work_marketing_os_bac.Plan.Columns.{PlanTaskCreate, PlanTaskUpdate}
use in_work_marketing_os_bac.Plan.{
  get_task, apply_create_task, apply_update_task, apply_delete_task, apply_duplicate_task,
  apply_add_note,
}
use in_work_marketing_os_bac.Accounts.{
  UserUpdate, apply_update_user, BrandUpdate, apply_update_brand,
}
use in_work_marketing_os_bac.Proposal.Execute.{text_of}

-- `StagedOperation(…)`
abbrev pub staged :
    ProposedOperationType
    → String
    → Option ℕ
    → Option Text
    → Option (List Change)
    → Payload
    → Option ℕ
    → Bool
    → ProposedOperation
staged operation_type entity_type entity_id entity_label changes payload base_snapshot
      requires_admin =
    record {
      seq = 0;
      operation_type = operation_type;
      entity_type = entity_type;
      entity_id = entity_id;
      entity_label = entity_label;
      field_changes = changes;
      payload = payload;
      base_snapshot = base_snapshot;
      required_capability = none;
      requires_admin = requires_admin;
      status = ProposedOperationStatus.pending;
      error = none;
    }

-- ---- plan tasks ----

unfoldable pub stage_plan_task_create :
    Env → Db → ℕ → User → PlanTaskCreate → Result ProposedOperation
stage_plan_task_create env db client_id user d = do
  client ← get_client db user client_id
  (_, task, changes) ← apply_create_task env db client_id d user.id
  ok (staged create "plan_task" none task.title changes (new_task d user.id) none false)

unfoldable pub stage_plan_task_update :
    Env → Db → ℕ → User → ℕ → PlanTaskUpdate → Result ProposedOperation
stage_plan_task_update env db client_id user task_id d = do
  client ← get_client db user client_id
  existing ← get_task db client_id task_id
  (_, _, changes) ← apply_update_task env db client_id task_id d
  ok (
      staged update "plan_task" (some task_id) existing.title changes (task_data d)
        (some existing.updated_at) false)

unfoldable pub stage_plan_task_delete : Env → Db → ℕ → User → ℕ → Result ProposedOperation
stage_plan_task_delete env db client_id user task_id = do
  client ← get_client db user client_id
  existing ← get_task db client_id task_id
  (_, _, changes) ← apply_delete_task env db client_id task_id
  ok (
      staged delete "plan_task" (some task_id) existing.title changes empty
        (some existing.updated_at) false)

unfoldable pub stage_plan_task_duplicate : Env → Db → ℕ → User → ℕ → Result ProposedOperation
stage_plan_task_duplicate env db client_id user task_id = do
  client ← get_client db user client_id
  (_, copy, changes) ← apply_duplicate_task env db client_id task_id user.id
  ok (staged create "plan_task" none copy.title changes (task_copy task_id user.id) none false)

unfoldable pub stage_plan_task_add_note : Env → Db → ℕ → User → ℕ → Text → Result ProposedOperation
stage_plan_task_add_note env db client_id user task_id body = do
  client ← get_client db user client_id
  (_, note, task) ← apply_add_note env db client_id task_id body user.id
  ok (
      staged create "plan_task_note" none task.title
        (created_changes (("body", typed note.body) ∷ [])) (task_note task_id body user.id) none
        false)

-- ---- assignments ----

abbrev pub not_admin : Exn
not_admin = forbidden (text "Administrator privileges are required to manage assignments.")

abbrev caps_value : List ClientCapability → Value
caps_value caps = listed (map (λ c. codes (capability_value c)) caps)

-- `[…] if capabilities else "full access"`
abbrev shown_caps : Option (List ClientCapability) → Value
shown_caps (some (c ∷ caps)) = caps_value (c ∷ caps)
shown_caps _ = typed (codes "full access")

abbrev stored_caps : Option (List ClientCapability) → Option (List ClientCapability)
stored_caps (some (c ∷ caps)) = some (c ∷ caps)
stored_caps _ = none

unfoldable pub stage_assignment_assign :
    Env → Db → ℕ → User → ℕ → Option (List ClientCapability) → Result ProposedOperation
stage_assignment_assign env db client_id user target_user_id capabilities = do
  client ← get_client db user client_id
  raise_if (not (is_admin user.role)) not_admin
  target ← or_raise (get_user_row db target_user_id) (not_found (text "User not found."))
  (_, _) ← apply_assign env db client_id target_user_id user.id capabilities
  ok (
      staged assign "client_assignment" none (some target.email)
        (created_changes
          (("user_email", typed target.email) ∷ ("capabilities", shown_caps capabilities) ∷ []))
        (assignment target_user_id (stored_caps capabilities) user.id) none true)

abbrev email_of : Option User → Option Text
email_of none = none
email_of (some u) = some u.email

abbrev email_value : Option User → Value
email_value none = null
email_value (some u) = typed u.email

unfoldable pub stage_assignment_set_capabilities :
    Env → Db → ℕ → User → ℕ → List ClientCapability → Result ProposedOperation
stage_assignment_set_capabilities env db client_id user target_user_id capabilities = do
  client ← get_client db user client_id
  raise_if (not (is_admin user.role)) not_admin
  existing ← or_raise (get_assignment db client_id target_user_id) assignment_not_found
  (_, _) ← apply_set_capabilities env db client_id target_user_id capabilities
  ok (
      staged update "client_assignment" (some existing.id)
        (email_of (get_user_row db target_user_id))
        (field_changes
          ((
            "capabilities",
            caps_value
                (keep_if (capabilities_from_stored existing.capabilities) capability_members),
          )
            ∷ [])
          (("capabilities", caps_value capabilities) ∷ []))
        (capability_list target_user_id capabilities) none true)

unfoldable pub stage_assignment_unassign : Env → Db → ℕ → User → ℕ → Result ProposedOperation
stage_assignment_unassign env db client_id user target_user_id = do
  client ← get_client db user client_id
  raise_if (not (is_admin user.role)) not_admin
  existing ← or_raise (get_assignment db client_id target_user_id) assignment_not_found
  _ ← apply_unassign env db client_id target_user_id
  ok (
      staged unassign "client_assignment" (some existing.id)
        (email_of (get_user_row db target_user_id))
        (deleted_changes (("user_email", email_value (get_user_row db target_user_id)) ∷ []))
        (assignee target_user_id) none true)

-- ---- clients, brands, users ----

unfoldable pub stage_update_client : Env → Db → ℕ → User → ClientUpdate → Result ProposedOperation
stage_update_client env db client_id user d = do
  existing ← get_client db user client_id
  raise_if (not (is_admin user.role))
      (forbidden (text "Administrator privileges are required to edit a client."))
  (_, _, changes) ← apply_update_client env db client_id d
  ok (
      staged update "client" (some client_id) (text_of (existing.profile ClientField.name)) changes
        (client_data d) (some existing.updated_at) true)

unfoldable pub stage_update_brand : Env → Db → ℕ → User → BrandUpdate → Result ProposedOperation
stage_update_brand env db client_id user d = do
  existing ← get_client db user client_id
  raise_if (not (is_admin user.role))
      (forbidden (text "Administrator privileges are required to edit brand settings."))
  let (_, changes) = apply_update_brand env db existing d
  ok (
      staged update "client_brand" (some client_id) (text_of (existing.profile ClientField.name))
        changes (brand_data d) (some existing.updated_at) true)

unfoldable pub stage_update_user : Env → Db → ℕ → User → ℕ → UserUpdate → Result ProposedOperation
stage_update_user env db client_id user target_user_id d = do
  client ← get_client db user client_id
  raise_if (not (is_admin user.role))
      (forbidden (text "Administrator privileges are required to manage users."))
  target ← or_raise (get_user_row db target_user_id) (not_found (text "User not found."))
  (_, _, changes) ← apply_update_user env db target_user_id d
  ok (
      staged update "user" (some target_user_id) (some target.email) changes (user_data d)
        (some target.updated_at) true)
