-- ===== src/Proposal.antt =====
-- app/services/proposal_service.py, execution: `approve` claims a proposal, checks it and replays its
-- operations in one transaction; app/repositories/proposal_repository.py. `ids` gives the UUIDs of
-- the rows that each operation creates. A call returns what is committed beside its result.
pub mod Execute
pub mod Failure
pub mod Stage
pub mod Trail
pub mod Checks
pub mod Approve
pub mod Once
pub mod Guards
use in_work_marketing_os_bac.Base.{
  ℕ, suc, ◌+◌, ◌*◌, String, Bool, true, false, Option, none, some, List, [], ◌∷◌, ◌++◌, ◌&&◌, ◌||◌,
  not, ◌==◌, ltb, str_eq, if◌then◌else◌, is_some, all, any, map, take, find_by, update_if, count,
}
use in_work_marketing_os_bac.Errors.{
  Message, text, with_name, typed, operation_failed, Exn, forbidden, not_found, conflict,
  bad_request, key_error, message, is_app_error, Result, ok, err, ◌>>=◌, ◌>>◌, raise_if, or_raise,
}
use in_work_marketing_os_bac.Model.Enums.{
  is_admin, is_read_only, ClientCapability, capability_value, ProposalStatus, pending_approval,
  executing, completed, cancelled, is_pending_approval, ProposedOperationStatus,
  ProposedOperationType,
}
use in_work_marketing_os_bac.Model.Tables.{Text, Client, User, AuditLog, Db, Env}
use in_work_marketing_os_bac.Model.Proposals.{ProposedOperation, ChangeProposal, System}
use in_work_marketing_os_bac.Access.{
  CapabilitySet, get_client_row, get_user_row, get_client, effective_capabilities, flush,
}
use in_work_marketing_os_bac.Plan.{get_for_client}
use in_work_marketing_os_bac.Proposal.Execute.{execute_operation, Executed}

abbrev pub max_text : ℕ
max_text = 100_000

abbrev pub default_ttl_minutes : ℕ
default_ttl_minutes = 45

-- ---- rows ----

abbrev pub proposal_id_is : ℕ → ChangeProposal → Bool
proposal_id_is i p = p.id == i

abbrev pub is_proposal : ℕ → ℕ → ChangeProposal → Bool
is_proposal client_id proposal_id p = p.id == proposal_id && p.client_id == client_id

abbrev pub claimable : ℕ → ChangeProposal → Bool
claimable proposal_id p = p.id == proposal_id && is_pending_approval p.status

unfoldable pub get_proposal : System → ℕ → ℕ → Result ChangeProposal
get_proposal sys client_id proposal_id =
    or_raise (find_by (is_proposal client_id proposal_id) sys.proposals)
      (not_found (text "Proposal not found."))

-- `db.refresh(proposal)`; the row is there, since nothing deletes it
unfoldable pub refreshed : System → ChangeProposal → ChangeProposal
refreshed sys p = elim (find_by (proposal_id_is p.id) sys.proposals) [ some q ↦ q | none ↦ p ]

-- `claim_for_execution`: the compare-and-swap, with the number of rows that it changed
unfoldable pub claim_for_execution : System → ℕ → System × ℕ
claim_for_execution sys proposal_id = (
  record sys {
    proposals =
        update_if (claimable proposal_id) (λ (p : ChangeProposal). record p { status = executing })
          sys.proposals;
  },
  count (claimable proposal_id) sys.proposals,
)

-- the commit of a changed proposal row
abbrev pub store : System → ChangeProposal → System
store sys p = record sys { proposals = update_if (proposal_id_is p.id) (λ _. p) sys.proposals }

-- ---- creation and rejection ----

-- `for seq, op in enumerate(operations)`
unfoldable pub numbered : ℕ → List ProposedOperation → List ProposedOperation
numbered n [] = []
numbered n (op ∷ ops) =
    record op { seq = n; status = ProposedOperationStatus.pending; error = none }
    ∷ numbered (suc n) ops

abbrev pub no_operations : Exn
no_operations = bad_request (text "A proposal must contain at least one operation.")

-- `summary[:MAX_TEXT] if summary else None`
abbrev bounded_summary : Text → Option Text
bounded_summary [] = none
bounded_summary (c ∷ s) = some (take max_text (c ∷ s))

-- staged operations carry no number yet: their `seq` is not read
unfoldable pub create_proposal :
    ℕ
    → ℕ
    → System
    → ℕ
    → ℕ
    → Text
    → Text
    → List ProposedOperation
    → ℕ
    → System × Result ChangeProposal
create_proposal new_id now sys client_id created_by raw_request summary [] ttl_minutes =
    (sys, err no_operations)
create_proposal new_id now sys client_id created_by raw_request summary (op ∷ ops) ttl_minutes =
    let proposal : ChangeProposal = record {
      id = new_id;
      client_id = client_id;
      created_by_user_id = created_by;
      status = pending_approval;
      raw_request = take max_text raw_request;
      summary = bounded_summary summary;
      error = none;
      created_at = now;
      expires_at = some (now + ttl_minutes * 60);
      approved_by_user_id = none;
      approved_at = none;
      executed_at = none;
      operations = numbered 0 (op ∷ ops);
    } in
    (record sys { proposals = sys.proposals ++ proposal ∷ [] }, ok proposal)

-- `if reason: proposal.error = reason[:MAX_TEXT]`
abbrev reason_or : Text → Option Message → Option Message
reason_or [] old = old
reason_or (c ∷ s) old = some (typed (take max_text (c ∷ s)))

unfoldable pub rejected : Text → ChangeProposal → ChangeProposal
rejected reason p = record p { status = cancelled; error = reason_or reason p.error }

abbrev pub reject_forbidden : Exn
reject_forbidden = forbidden (text "Your account has read-only access and cannot reject changes.")

abbrev pub no_longer_pending : Exn
no_longer_pending = conflict (text "This proposal is no longer pending approval.")

unfoldable pub reject_checks : System → ℕ → ℕ → User → Result ChangeProposal
reject_checks sys client_id proposal_id user = do
  client ← get_client sys.db user client_id
  raise_if (is_read_only user.role) reject_forbidden
  p ← get_proposal sys client_id proposal_id
  raise_if (not (is_pending_approval p.status)) no_longer_pending
  ok p

unfoldable pub reject : System → ℕ → ℕ → User → Text → System × Result ChangeProposal
unfolding rejected
reject sys client_id proposal_id user reason = elim (reject_checks sys client_id proposal_id user) [
  | ok p ↦ (store sys (rejected reason p), ok (rejected reason p))
  | err e ↦ (sys, err e)
]

-- ---- validation ----

abbrev past : ℕ → Option ℕ → Bool
past now none = false
past now (some expires_at) = ltb expires_at now

abbrev lacks : CapabilitySet → Option ClientCapability → Bool
lacks caps none = false
lacks caps (some c) = not (caps c)

abbrev lost_capability : Option ClientCapability → Message
lost_capability none = text ""
lost_capability (some c) =
    with_name "You no longer have the '{}' capability required for this change."
      (capability_value c)

-- the first loop: the reason why the user may not execute the operations, if there is one
unfoldable pub unauthorized : CapabilitySet → User → List ProposedOperation → Option Message
unauthorized caps user [] = none
unauthorized caps user (op ∷ ops) =
    let rest = unauthorized caps user ops in
    if lacks caps op.required_capability
    then some (lost_capability op.required_capability)
    else if op.requires_admin && not (is_admin user.role)
    then some (text "Administrator privileges are required.")
    else rest

abbrev same_stamp : Option ℕ → ℕ → Bool
same_stamp none snapshot = false
same_stamp (some live) snapshot = live == snapshot

-- `live.updated_at` of the entity, for the entity types that have one
unfoldable pub live_stamp : Db → ℕ → String → ℕ → Option ℕ
live_stamp db client_id entity_type i =
    if str_eq entity_type "plan_task"
    then elim (get_for_client db client_id i) [ some t ↦ some t.updated_at | none ↦ none ]
    else if str_eq entity_type "user"
    then elim (get_user_row db i) [ some u ↦ some u.updated_at | none ↦ none ]
    else elim (get_client_row db i) [ some c ↦ some c.updated_at | none ↦ none ]

has_stamp : String → Bool
has_stamp entity_type =
    str_eq entity_type "plan_task"
    || str_eq entity_type "client"
    || str_eq entity_type "client_brand"
    || str_eq entity_type "user"

abbrev snapshot_holds : Db → ℕ → String → Option ℕ → Option ℕ → Bool
snapshot_holds db client_id entity_type (some snapshot) (some i) =
    not (has_stamp entity_type) || same_stamp (live_stamp db client_id entity_type i) snapshot
snapshot_holds db client_id entity_type _ _ = true

unfoldable pub matches_live_snapshot : Db → ℕ → ProposedOperation → Bool
unfolding has_stamp
matches_live_snapshot db client_id op =
    snapshot_holds db client_id op.entity_type op.base_snapshot op.entity_id

abbrev pub stale : Message
stale = text "This has changed since the proposal was created. Please review the updated values."

-- The checks before execution, in order; `none` when all pass.
unfoldable pub preflight : ℕ → Db → User → ChangeProposal → Option Message
preflight now db user p =
    if past now p.expires_at
    then some (text "This proposal has expired.")
    else let refusal =
        unauthorized (effective_capabilities db user p.client_id) user p.operations in
      if is_some refusal
      then refusal
      else if not (all (matches_live_snapshot db p.client_id) p.operations)
      then some stale
      else none

-- ---- execution ----

abbrev keep_label : Option Text → Option Text → Option Text
keep_label none old = old
keep_label (some l) old = some l

abbrev keep_id : Option ℕ → Option ℕ → Option ℕ
keep_id none old = old
keep_id (some i) old = some i

abbrev executed_operation : Executed → ProposedOperation → ProposedOperation
executed_operation r op = record op {
  status = ProposedOperationStatus.executed;
  field_changes = r.field_changes;
  entity_id = keep_id r.entity_id op.entity_id;
  entity_label = keep_label r.entity_label op.entity_label;
}

abbrev pub audit_log : User → ℕ → ℕ → ProposedOperation → AuditLog
audit_log user client_id proposal_id op = record {
  actor_user_id = user.id;
  client_id = client_id;
  proposal_id = proposal_id;
  entity = op.entity_type;
  entity_id = op.entity_id;
  action = (op.entity_type, op.operation_type);
  target_label = op.entity_label;
  changes = op.field_changes;
}

-- How the loop ends: every operation done, an `AppError` in one, or another exception.
pub data Outcome : Type 0 where
  finished : Db → List ProposedOperation → Outcome
  stopped : ℕ → Message → Outcome
  crashed : Exn → Outcome

abbrev after_failure : ProposedOperation → Exn → Outcome
after_failure op e = if is_app_error e then stopped op.seq (message e) else crashed e

abbrev prepend : ProposedOperation → Outcome → Outcome
prepend op (finished db ops) = finished db (op ∷ ops)
prepend op other = other

unfoldable pub execute_all : Env → (ℕ → ℕ) → User → ℕ → ℕ → List ProposedOperation → Db → Outcome
execute_all env ids user client_id proposal_id [] db = finished db []
execute_all env ids user client_id proposal_id (op ∷ ops) db =
    elim (execute_operation (record env { new_id = ids op.seq }) db client_id op) [
      | err e ↦ after_failure op e
      | ok r ↦
          let op' = executed_operation r op in
          let logged = record (r.db) {
            audit_logs = r.db.audit_logs ++ audit_log user client_id proposal_id op' ∷ [];
          } in
          elim (flush env logged) [
            | err e ↦ crashed e
            | ok db' ↦ prepend op' (execute_all env ids user client_id proposal_id ops db')
          ]
    ]

-- the operations after the rollback of a failed execution
unfoldable pub mark_failed : ℕ → Message → ProposedOperation → ProposedOperation
mark_failed failed_seq reason op =
    if op.seq == failed_seq
    then record op { status = ProposedOperationStatus.failed; error = some reason }
    else elim op.status [
      | ProposedOperationStatus.pending ↦ record op { status = ProposedOperationStatus.skipped }
      | _ ↦ op
    ]

abbrev pub preflight_failed : Message → ChangeProposal → ChangeProposal
preflight_failed reason p = record p { status = ProposalStatus.failed; error = some reason }

abbrev pub execution_failed : ℕ → Message → ChangeProposal → ChangeProposal
execution_failed failed_seq reason p = record p {
  status = ProposalStatus.failed;
  error = some (operation_failed failed_seq reason);
  operations = map (mark_failed failed_seq reason) p.operations;
}

abbrev pub completed_proposal : ℕ → User → List ProposedOperation → ChangeProposal → ChangeProposal
completed_proposal now user ops p = record p {
  status = completed;
  operations = ops;
  approved_by_user_id = some user.id;
  approved_at = some now;
  executed_at = some now;
}

-- the last commit of phase 2, or phase 3; an exception that is no `AppError` rolls back what the
-- claim has not committed
abbrev pub conclude : ℕ → System → User → ChangeProposal → Outcome → System × Result ChangeProposal
conclude now sys user p (finished db ops) = (
  store (record sys { db = db }) (completed_proposal now user ops p),
  ok (completed_proposal now user ops p),
)
conclude now sys user p (stopped failed_seq reason) =
    (store sys (execution_failed failed_seq reason p), ok (execution_failed failed_seq reason p))
conclude now sys user p (crashed e) = (sys, err e)

unfoldable pub validate_and_execute :
    Env → (ℕ → ℕ) → System → User → ChangeProposal → System × Result ChangeProposal
validate_and_execute env ids sys user p = elim (preflight env.now sys.db user p) [
  | some reason ↦ (store sys (preflight_failed reason p), ok (preflight_failed reason p))
  | none ↦
      conclude env.now sys user p (execute_all env ids user p.client_id p.id p.operations sys.db)
]

abbrev pub approve_forbidden : Exn
approve_forbidden = forbidden (text "Your account has read-only access and cannot approve changes.")

unfoldable pub approve_checks : System → ℕ → ℕ → User → Result ChangeProposal
approve_checks sys client_id proposal_id user = do
  client ← get_client sys.db user client_id
  raise_if (is_read_only user.role) approve_forbidden
  get_proposal sys client_id proposal_id

-- phase 1 and on: only the call whose claim changed a row goes on to execute
unfoldable pub claim_and_execute :
    Env → (ℕ → ℕ) → System → User → ChangeProposal → System × Result ChangeProposal
claim_and_execute env ids sys user p =
    let (sys', claimed) = claim_for_execution sys p.id in
    if claimed == 0
    then (sys', ok (refreshed sys' p))
    else validate_and_execute env ids sys' user (refreshed sys' p)

unfoldable pub approve : Env → (ℕ → ℕ) → System → ℕ → ℕ → User → System × Result ChangeProposal
approve env ids sys client_id proposal_id user =
    elim (approve_checks sys client_id proposal_id user) [
      | err e ↦ (sys, err e)
      | ok p ↦ claim_and_execute env ids sys user p
    ]
