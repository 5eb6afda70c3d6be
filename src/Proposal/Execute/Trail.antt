-- ===== src/Proposal/Execute/Trail.antt =====
-- No call that a proposal executes writes audit rows: those are left to the execution itself.
use in_work_marketing_os_bac.Base.{
  ℕ, Bool, true, false, Option, none, some, List, ◌≡◌, refl, arith, if◌then◌else◌,
}
use mathlib.Core.Path.{subst}
use in_work_marketing_os_bac.Errors.{Exn, Result, ok, err, ◌>>=◌, or_raise}
use in_work_marketing_os_bac.Model.Enums.{
  ProposedOperationType, ClientCapability, create, update, delete, assign, unassign,
}
use in_work_marketing_os_bac.Model.Tables.{
  Text, Change, Client, ClientAssignment, PlanTask, PlanTaskNote, User, Db, Env,
}
use in_work_marketing_os_bac.Model.Proposals.{
  Payload, new_task, task_copy, task_data, client_data, brand_data, user_data, task_note,
  assignment, capability_list, ProposedOperation,
}
use in_work_marketing_os_bac.Access.{
  client_not_found, apply_assign, apply_set_capabilities, apply_unassign, apply_update_client,
  ClientUpdate, get_client_row, flush,
}
use in_work_marketing_os_bac.Plan.{
  apply_create_task, apply_update_task, apply_delete_task, apply_duplicate_task, apply_add_note,
}
use in_work_marketing_os_bac.Plan.Columns.{PlanTaskCreate, PlanTaskUpdate}
use in_work_marketing_os_bac.Accounts.{UserUpdate, apply_update_user, apply_update_brand}
use in_work_marketing_os_bac.Proposal.Execute.{
  Executed, execute_create, execute_update, execute_delete, execute_plan_task, execute_assign,
  execute_set_capabilities, execute_unassign, execute_assignment, execute_note, execute_client,
  execute_brand, execute_user, execute_operation, target_user_id, truthy_caps,
}

-- The call, if it returned, kept the audit rows.
unfoldable pub Keeps : Db → Result Executed → Type 0
Keeps db (ok r) = r.db.audit_logs ≡ db.audit_logs
Keeps db (err e) = Unit {0}

>>=-Keeps {ℓ} :
    {A : Type ℓ} (db : Db) (call : Result A) (rest : A → Result Executed)
    → ((a : A) → call ≡ ok a → Keeps db (rest a))
    → Keeps db (call >>= rest)
unfolding Keeps
>>=-Keeps db (err e) rest h = tt
>>=-Keeps db (ok a) rest h = h a refl

if-Keeps :
    (db : Db) (b : Bool) (x y : Result Executed)
    → Keeps db x
    → Keeps db y
    → Keeps db (if b then x else y)
if-Keeps db true x y h k = h
if-Keeps db false x y h k = k

err-Keeps : (db : Db) (e : Exn) → Keeps db (err e)
unfolding Keeps
err-Keeps db e = tt

flush_lem : (env : Env) (db db' : Db) → flush env db ≡ ok db' → db' ≡ db
unfolding flush
flush_lem env db db' h = ground arith

kept_create :
    (env : Env) (db db' : Db) (client_id : ℕ) (d : PlanTaskCreate) (by : ℕ) (t : PlanTask)
    (changes : Option (List Change))
    → apply_create_task env db client_id d by ≡ ok (db', t, changes)
    → db'.audit_logs ≡ db.audit_logs
unfolding apply_create_task
kept_create env db db' client_id d by t changes h = ground arith

kept_duplicate :
    (env : Env) (db db' : Db) (client_id i by : ℕ) (t : PlanTask) (changes : Option (List Change))
    → apply_duplicate_task env db client_id i by ≡ ok (db', t, changes)
    → db'.audit_logs ≡ db.audit_logs
unfolding apply_duplicate_task
kept_duplicate env db db' client_id i by t changes h = ground arith

kept_update :
    (env : Env) (db db' : Db) (client_id i : ℕ) (d : PlanTaskUpdate) (t : PlanTask)
    (changes : Option (List Change))
    → apply_update_task env db client_id i d ≡ ok (db', t, changes)
    → db'.audit_logs ≡ db.audit_logs
unfolding apply_update_task
kept_update env db db' client_id i d t changes h = ground arith

kept_delete :
    (env : Env) (db db' : Db) (client_id i : ℕ) (t : PlanTask) (changes : Option (List Change))
    → apply_delete_task env db client_id i ≡ ok (db', t, changes)
    → db'.audit_logs ≡ db.audit_logs
unfolding apply_delete_task
kept_delete env db db' client_id i t changes h = ground arith

kept_note :
    (env : Env) (db db' : Db) (client_id i by : ℕ) (body : Text) (n : PlanTaskNote) (t : PlanTask)
    → apply_add_note env db client_id i body by ≡ ok (db', n, t)
    → db'.audit_logs ≡ db.audit_logs
unfolding apply_add_note
kept_note env db db' client_id i by body n t h = ground arith

kept_assign :
    (env : Env) (db db' : Db) (client_id u by : ℕ) (caps : Option (List ClientCapability))
    (a : ClientAssignment)
    → apply_assign env db client_id u by caps ≡ ok (db', a)
    → db'.audit_logs ≡ db.audit_logs
unfolding apply_assign
kept_assign env db db' client_id u by caps a h = ground arith

kept_set :
    (env : Env) (db db' : Db) (client_id u : ℕ) (caps : List ClientCapability)
    (a : ClientAssignment)
    → apply_set_capabilities env db client_id u caps ≡ ok (db', a)
    → db'.audit_logs ≡ db.audit_logs
unfolding apply_set_capabilities
kept_set env db db' client_id u caps a h = ground arith

kept_unassign :
    (env : Env) (db db' : Db) (client_id u : ℕ)
    → apply_unassign env db client_id u ≡ ok db'
    → db'.audit_logs ≡ db.audit_logs
unfolding apply_unassign
kept_unassign env db db' client_id u h = ground arith

kept_client :
    (env : Env) (db db' : Db) (client_id : ℕ) (d : ClientUpdate) (c : Client)
    (changes : Option (List Change))
    → apply_update_client env db client_id d ≡ ok (db', c, changes)
    → db'.audit_logs ≡ db.audit_logs
unfolding apply_update_client
kept_client env db db' client_id d c changes h = ground arith

kept_user :
    (env : Env) (db db' : Db) (i : ℕ) (d : UserUpdate) (u : User) (changes : Option (List Change))
    → apply_update_user env db i d ≡ ok (db', u, changes)
    → db'.audit_logs ≡ db.audit_logs
unfolding apply_update_user
kept_user env db db' i d u changes h = ground arith

module _ (env : Env) (db : Db) (client_id : ℕ) where
  create-Keeps : (p : Payload) → Keeps db (execute_create env db client_id p)
  unfolding Keeps execute_create
  create-Keeps (task_copy i by) =
      >>=-Keeps db (apply_duplicate_task env db client_id i by) _
        (λ a h. kept_duplicate env db a.0 client_id i by a.1 a.2 h)
  create-Keeps (new_task d by) =
      >>=-Keeps db (apply_create_task env db client_id d by) _
        (λ a h. kept_create env db a.0 client_id d by a.1 a.2 h)
  create-Keeps _ = tt

  update-Keeps : (i : ℕ) (p : Payload) → Keeps db (execute_update env db client_id i p)
  unfolding Keeps execute_update
  update-Keeps i (task_data d) =
      >>=-Keeps db (apply_update_task env db client_id i d) _
        (λ a h. kept_update env db a.0 client_id i d a.1 a.2 h)
  update-Keeps i _ = tt

  delete-Keeps : (i : ℕ) → Keeps db (execute_delete env db client_id i)
  unfolding Keeps execute_delete
  delete-Keeps i =
      >>=-Keeps db (apply_delete_task env db client_id i) _
        (λ a h. kept_delete env db a.0 client_id i a.1 a.2 h)

  note-Keeps :
      (op : ProposedOperation) (p : Payload) → Keeps db (execute_note env db client_id op p)
  unfolding Keeps execute_note
  note-Keeps op (task_note i body by) =
      >>=-Keeps db (apply_add_note env db client_id i body by) _
        (λ a h. kept_note env db a.0 client_id i by body a.1 a.2 h)
  note-Keeps op _ = tt

  assign-Keeps :
      (op : ProposedOperation) (p : Payload) → Keeps db (execute_assign env db client_id op p)
  unfolding Keeps execute_assign
  assign-Keeps op (assignment u caps by) =
      >>=-Keeps db (apply_assign env db client_id u by (truthy_caps caps)) _
        (λ a h. kept_assign env db a.0 client_id u by (truthy_caps caps) a.1 h)
  assign-Keeps op _ = tt

  set-Keeps :
      (op : ProposedOperation) (p : Payload)
      → Keeps db (execute_set_capabilities env db client_id op p)
  unfolding Keeps execute_set_capabilities
  set-Keeps op (capability_list u caps) =
      >>=-Keeps db (apply_set_capabilities env db client_id u caps) _
        (λ a h. kept_set env db a.0 client_id u caps a.1 h)
  set-Keeps op (assignment u (some caps) by) =
      >>=-Keeps db (apply_set_capabilities env db client_id u caps) _
        (λ a h. kept_set env db a.0 client_id u caps a.1 h)
  set-Keeps op (assignment u none by) = tt
  set-Keeps op _ = tt

  unassign-Keeps :
      (op : ProposedOperation) (p : Payload) → Keeps db (execute_unassign env db client_id op p)
  unfolding Keeps execute_unassign
  unassign-Keeps op p = >>=-Keeps db (target_user_id p) _ (λ u k.
      >>=-Keeps db (apply_unassign env db client_id u) _
        (λ a h. kept_unassign env db a client_id u h))

  client-Keeps : (p : Payload) → Keeps db (execute_client env db client_id p)
  unfolding Keeps execute_client
  client-Keeps (client_data d) =
      >>=-Keeps db (apply_update_client env db client_id d) _
        (λ a h. kept_client env db a.0 client_id d a.1 a.2 h)
  client-Keeps _ = tt

  brand-Keeps : (p : Payload) → Keeps db (execute_brand env db client_id p)
  unfolding Keeps execute_brand apply_update_brand
  brand-Keeps (brand_data d) =
      >>=-Keeps db (or_raise (get_client_row db client_id) client_not_found) _ (λ a h. refl)
  brand-Keeps _ =
      >>=-Keeps db (or_raise (get_client_row db client_id) client_not_found) _ (λ a h. tt)

  user-Keeps : (i : Option ℕ) (p : Payload) → Keeps db (execute_user env db i p)
  unfolding Keeps execute_user
  user-Keeps (some i) (user_data d) =
      >>=-Keeps db (apply_update_user env db i d) _ (λ a h. kept_user env db a.0 i d a.1 a.2 h)
  user-Keeps none (user_data d) = tt
  user-Keeps i _ = tt

  plan_task_of :
      (t : ProposedOperationType) (i : Option ℕ) (op : ProposedOperation)
      → Keeps db
          (execute_plan_task env db client_id (record op { operation_type = t; entity_id = i }))
  unfolding execute_plan_task
  plan_task_of create i op = create-Keeps op.payload
  plan_task_of update (some i) op = update-Keeps i op.payload
  plan_task_of update none op = err-Keeps db _
  plan_task_of delete (some i) op = delete-Keeps i
  plan_task_of delete none op = err-Keeps db _
  plan_task_of assign i op = err-Keeps db _
  plan_task_of unassign i op = err-Keeps db _

  plan_task-Keeps : (op : ProposedOperation) → Keeps db (execute_plan_task env db client_id op)
  plan_task-Keeps op = plan_task_of op.operation_type op.entity_id op

  assignment_of :
      (t : ProposedOperationType) (op : ProposedOperation)
      → Keeps db (execute_assignment env db client_id (record op { operation_type = t }))
  unfolding execute_assignment
  assignment_of assign op = assign-Keeps (record op { operation_type = assign }) op.payload
  assignment_of update op = set-Keeps (record op { operation_type = update }) op.payload
  assignment_of unassign op = unassign-Keeps (record op { operation_type = unassign }) op.payload
  assignment_of create op = >>=-Keeps db (target_user_id op.payload) _ (λ u k. err-Keeps db _)
  assignment_of delete op = >>=-Keeps db (target_user_id op.payload) _ (λ u k. err-Keeps db _)

  assignment-Keeps : (op : ProposedOperation) → Keeps db (execute_assignment env db client_id op)
  assignment-Keeps op = assignment_of op.operation_type op

  -- No operation of a proposal writes audit rows itself.
  pub execute_operation-Keeps :
      (op : ProposedOperation) → Keeps db (execute_operation env db client_id op)
  unfolding execute_operation
  execute_operation-Keeps op = if-Keeps db _ _ _ (plan_task-Keeps op) (
      if-Keeps db _ _ _ (note-Keeps op op.payload) (
        if-Keeps db _ _ _ (assignment-Keeps op) (
          if-Keeps db _ _ _ (client-Keeps op.payload) (
            if-Keeps db _ _ _ (brand-Keeps op.payload)
              (if-Keeps db _ _ _ (user-Keeps op.entity_id op.payload) (err-Keeps db _))))))

-- An operation that ran left the audit rows as they were.
pub audit_logs_kept :
    (env : Env) (db : Db) (client_id : ℕ) (op : ProposedOperation) (r : Executed)
    → execute_operation env db client_id op ≡ ok r
    → r.db.audit_logs ≡ db.audit_logs
unfolding Keeps
audit_logs_kept env db client_id op r h =
    let kept = execute_operation-Keeps env db client_id op in
    let kept' : Keeps db (ok r) = subst (Keeps db) h kept in kept'
