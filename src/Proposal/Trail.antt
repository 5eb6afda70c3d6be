-- ===== src/Proposal/Trail.antt =====
-- The audit trail of an execution.
use mathlib.Core.List.{append_assoc, append-nil}
use in_work_marketing_os_bac.Base.{
  ℕ, Option, none, some, List, [], ◌∷◌, ◌++◌, ◌≡◌, refl, sym, ap, ◌∙◌, arith, map, ◌⊎◌, inl, inr,
}
use in_work_marketing_os_bac.Errors.{Exn, ok, Result-cases}
use in_work_marketing_os_bac.Model.Enums.{ProposedOperationStatus}
use in_work_marketing_os_bac.Model.Tables.{Text, User, Db, Env}
use in_work_marketing_os_bac.Model.Proposals.{ProposedOperation}
use in_work_marketing_os_bac.Access.{flush}
use in_work_marketing_os_bac.Proposal.Execute.{Executed, execute_operation}
use in_work_marketing_os_bac.Proposal.Execute.Trail.{audit_logs_kept}
use in_work_marketing_os_bac.Proposal.{
  Outcome, finished, stopped, crashed, after_failure, prepend, keep_id, keep_label,
  executed_operation, audit_log, execute_all,
}

-- The session with the audit row of an executed operation.
abbrev logged : User → ℕ → ℕ → ProposedOperation → Executed → Db
logged user client_id proposal_id op r = record (r.db) {
  audit_logs =
      r.db.audit_logs ++ audit_log user client_id proposal_id (executed_operation r op) ∷ [];
}

flushed : (env : Env) (db db' : Db) → flush env db ≡ ok db' → db' ≡ db
unfolding flush
flushed env db db' h = ground arith

-- How a longer execution finishes.
prepend_finished :
    (op : ProposedOperation) (o : Outcome) (db : Db) (done : List ProposedOperation)
    → prepend op o ≡ finished db done
    → (rest : List ProposedOperation) × (o ≡ finished db rest) × (done ≡ op ∷ rest)
prepend_finished op (finished db' rest) db done h = (rest, ground arith, ground arith)
prepend_finished op (stopped i n) db done h = cc
prepend_finished op (crashed e) db done h = cc

unstopped :
    (op : ProposedOperation) (e : Exn) (db : Db) (done : List ProposedOperation)
    → after_failure op e ≡ finished db done
    → ⊥
unstopped op e db done h = ground arith

-- The operation after it was executed: what it was, marked, with the changes, the id and the label of its call.
pub record IsDone (r : Executed) (op op' : ProposedOperation) : Type 0 where
  pub executed : op'.status ≡ ProposedOperationStatus.executed
  pub numbered : op'.seq ≡ op.seq
  pub entity_type : op'.entity_type ≡ op.entity_type
  pub operation_type : op'.operation_type ≡ op.operation_type
  pub payload : op'.payload ≡ op.payload
  pub changes : op'.field_changes ≡ r.field_changes
  pub entity :
      (r.entity_id ≡ op'.entity_id) ⊎ ((r.entity_id ≡ none) × (op'.entity_id ≡ op.entity_id))
  pub label :
      (r.entity_label ≡ op'.entity_label)
      ⊎ ((r.entity_label ≡ none) × (op'.entity_label ≡ op.entity_label))

-- From some tables, the operations in order lead to others: each is executed on the tables that the one
-- before it left, under the new ids of its number, and its one audit row follows those that were there.
pub data Replays (env : Env) (ids : ℕ → ℕ) (user : User) (client_id proposal_id : ℕ)
    : Db → List ProposedOperation → Db → List ProposedOperation → Type 0 where
  none_left : (db : Db) → Replays env ids user client_id proposal_id db [] db []
  runs :
      {db db' : Db} {op op' : ProposedOperation} {ops done : List ProposedOperation} (r : Executed)
      → execute_operation (record env { new_id = ids op.seq }) db client_id op ≡ ok r
      → IsDone r op op'
      → Replays env ids user client_id proposal_id
          (record (r.db) {
            audit_logs = db.audit_logs ++ audit_log user client_id proposal_id op' ∷ [];
          })
          ops
          db'
          done
      → Replays env ids user client_id proposal_id db (op ∷ ops) db' (op' ∷ done)

kept_id : (new old : Option ℕ) → (new ≡ keep_id new old) ⊎ ((new ≡ none) × (keep_id new old ≡ old))
kept_id none old = inr (refl, refl)
kept_id (some i) old = inl refl

kept_label :
    (new old : Option Text)
    → (new ≡ keep_label new old) ⊎ ((new ≡ none) × (keep_label new old ≡ old))
kept_label none old = inr (refl, refl)
kept_label (some t) old = inl refl

executed_operation-IsDone :
    (r : Executed) (op : ProposedOperation) → IsDone r op (executed_operation r op)
executed_operation-IsDone r op = record {
  executed = refl;
  numbered = refl;
  entity_type = refl;
  operation_type = refl;
  payload = refl;
  changes = refl;
  entity = kept_id r.entity_id op.entity_id;
  label = kept_label r.entity_label op.entity_label;
}

-- A finished execution has executed every operation, in order, each on the tables that the one before it
-- left, and the audit rows grew by exactly one row for each, in order, which names the user, the client,
-- the proposal and the operation as executed.
pub execute_all-audit_log :
    (env : Env) (ids : ℕ → ℕ) (user : User) (client_id proposal_id : ℕ)
    (ops : List ProposedOperation) (db db' : Db) (done : List ProposedOperation)
    → execute_all env ids user client_id proposal_id ops db ≡ finished db' done
    → Replays env ids user client_id proposal_id db ops db' done
      × (db'.audit_logs ≡ db.audit_logs ++ map (audit_log user client_id proposal_id) done)
unfolding execute_all
execute_all-audit_log env ids user client_id proposal_id [] db db' done h =
    let none_done : done ≡ [] = ground arith in
    let same : db' ≡ db = ground arith in
    rw (none_done, same) (Replays.none_left db, sym (append-nil db.audit_logs))
execute_all-audit_log env ids user client_id proposal_id (op ∷ ops) db db' done h =
    let env' : Env = record env { new_id = ids op.seq } in
    elim (Result-cases (execute_operation env' db client_id op)) [
      | inr (x, e) ↦
          (let h' : after_failure op x ≡ finished db' done = rw (e, execute_all) at h in
            absurd (unstopped op x db' done h'))
      | inl (r, e) ↦ elim (Result-cases (flush env (logged user client_id proposal_id op r))) [
        | inr (x, f) ↦
            absurd (let h' : crashed x ≡ finished db' done = rw (e, execute_all, f) at h in cc h')
        | inl (db1, f) ↦
            let op' = executed_operation r op in
            let tail = execute_all env ids user client_id proposal_id ops db1 in
            let h' : prepend op' tail ≡ finished db' done = rw (e, execute_all, f) at h in
            let (rest, ends, all_done) = prepend_finished op' tail db' done h' in
            let (same, rows) =
              execute_all-audit_log env ids user client_id proposal_id ops db1 db' rest ends in
            let now : db1 ≡ logged user client_id proposal_id op r = flushed env _ db1 f in
            let kept = audit_logs_kept env' db client_id op r e in
            let tables : db1 ≡ record (r.db) {
              audit_logs = db.audit_logs ++ audit_log user client_id proposal_id op' ∷ [];
            } =
              rw (← kept) now in
            let row = audit_log user client_id proposal_id op' in
            let later = map (audit_log user client_id proposal_id) rest in
            rw all_done (
              Replays.runs r e (executed_operation-IsDone r op) (rw (← tables) same),
              rows
                  ∙ ap (λ (d : Db). d.audit_logs ++ later) now
                  ∙ append_assoc r.db.audit_logs (row ∷ []) later
                  ∙ ap (λ logs. logs ++ row ∷ later) kept,
            )
      ]
    ]
