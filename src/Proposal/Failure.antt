-- ===== src/Proposal/Failure.antt =====
-- How a failed execution is recorded on the operations of a proposal as `create_proposal` numbers them.
use in_work_marketing_os_bac.Base.{
  ℕ, suc, ◌+◌, ◌≤◌, ◌<◌, Bool, true, false, List, [], ◌∷◌, ◌++◌, ◌≡◌, inl, inr, refl, arith, map,
  count, ◌==◌, length,
}
use in_work_marketing_os_bac.Base.Lists.{All}
use in_work_marketing_os_bac.Errors.{Message, Exn, Result-cases}
use in_work_marketing_os_bac.Model.Enums.{ProposedOperationStatus}
use in_work_marketing_os_bac.Model.Tables.{User, Db, Env}
use in_work_marketing_os_bac.Model.Proposals.{ProposedOperation}
use in_work_marketing_os_bac.Access.{flush}
use in_work_marketing_os_bac.Proposal.Execute.{Executed, execute_operation}
use in_work_marketing_os_bac.Proposal.{
  Outcome, finished, stopped, crashed, after_failure, prepend, executed_operation, audit_log,
  execute_all, mark_failed, numbered,
}

abbrev pub seq_is : ℕ → ProposedOperation → Bool
seq_is k op = op.seq == k

abbrev pub has_failed : ProposedOperation → Bool
has_failed op = elim op.status [ ProposedOperationStatus.failed ↦ true | _ ↦ false ]

abbrev pub is_skipped : ProposedOperation → Bool
is_skipped op = elim op.status [ ProposedOperationStatus.skipped ↦ true | _ ↦ false ]

abbrev pub IsPending : ProposedOperation → Type 0
IsPending op = op.status ≡ ProposedOperationStatus.pending

numbered-IsPending : (n : ℕ) (ops : List ProposedOperation) → All IsPending (numbered n ops)
unfolding numbered
numbered-IsPending n [] = tt
numbered-IsPending n (op ∷ ops) = (refl, numbered-IsPending (suc n) ops)

length-numbered : (n : ℕ) (ops : List ProposedOperation) → length (numbered n ops) ≡ length ops
unfolding numbered
length-numbered n [] = refl
length-numbered n (op ∷ ops) = ground (arith, length-numbered (suc n) ops)

-- Numbers below the first one are not given out.
numbered_from :
    (n k : ℕ) (ops : List ProposedOperation) → k < n → count (seq_is k) (numbered n ops) ≡ 0
unfolding numbered count
numbered_from n k [] h = refl
numbered_from n k (op ∷ ops) h = ground (arith, numbered_from (suc n) k ops)

numbered_once : (n k : ℕ) (ops : List ProposedOperation) → count (seq_is k) (numbered n ops) ≤ 1
unfolding numbered count
numbered_once n k [] = omega arith
numbered_once n k (op ∷ ops) =
    ground (arith, numbered_once (suc n) k ops, numbered_from (suc n) k ops)

failure_at :
    (op : ProposedOperation) (e : Exn) (k : ℕ) (m : Message)
    → after_failure op e ≡ stopped k m
    → op.seq ≡ k
failure_at op e k m h = ground arith

prepend_stopped :
    (op : ProposedOperation) (o : Outcome) (k : ℕ) (m : Message)
    → prepend op o ≡ stopped k m
    → o ≡ stopped k m
prepend_stopped op (finished db ops) k m h = cc
prepend_stopped op (stopped i n) k m h = h
prepend_stopped op (crashed e) k m h = cc

-- The session with the audit log of an executed operation.
abbrev logged : User → ℕ → ℕ → ProposedOperation → Executed → Db
logged user client_id proposal_id op r = record (r.db) {
  audit_logs =
      r.db.audit_logs ++ audit_log user client_id proposal_id (executed_operation r op) ∷ [];
}

-- An execution that stops names one of its operations.
stopped_at :
    (env : Env) (ids : ℕ → ℕ) (user : User) (client_id proposal_id : ℕ)
    (ops : List ProposedOperation) (db : Db) (k : ℕ) (m : Message)
    → execute_all env ids user client_id proposal_id ops db ≡ stopped k m
    → 1 ≤ count (seq_is k) ops
unfolding execute_all count
stopped_at env ids user client_id proposal_id [] db k m h = cc
stopped_at env ids user client_id proposal_id (op ∷ ops) db k m h =
    elim (Result-cases (execute_operation (record env { new_id = ids op.seq }) db client_id op)) [
      | inr (x, e) ↦
          (let h' : after_failure op x ≡ stopped k m = rw (e, execute_all) at h in
            ground (arith, failure_at op x k m h'))
      | inl (r, e) ↦ elim (Result-cases (flush env (logged user client_id proposal_id op r))) [
        | inr (x, f) ↦
            absurd (let h' : crashed x ≡ stopped k m = rw (e, execute_all, f) at h in cc h')
        | inl (db', f) ↦
            let rest = execute_all env ids user client_id proposal_id ops db' in
            let h' : prepend (executed_operation r op) rest ≡ stopped k m =
              rw (e, execute_all, f) at h in
            let later =
              stopped_at env ids user client_id proposal_id ops db' k m
                (prepend_stopped _ rest k m h') in
            ground arith
      ]
    ]

marks_failed :
    (k : ℕ) (m : Message) (ops : List ProposedOperation)
    → All IsPending ops
    → count has_failed (map (mark_failed k m) ops) ≡ count (seq_is k) ops
unfolding count mark_failed
marks_failed k m [] h = refl
marks_failed k m (op ∷ ops) h = ground (arith, h.0, marks_failed k m ops h.1)

marks_every :
    (k : ℕ) (m : Message) (ops : List ProposedOperation)
    → All IsPending ops
    → count has_failed (map (mark_failed k m) ops) + count is_skipped (map (mark_failed k m) ops)
      ≡ length ops
unfolding count mark_failed
marks_every k m [] h = refl
marks_every k m (op ∷ ops) h = ground (arith, h.0, marks_every k m ops h.1)

-- When the execution of a proposal's operations, as `create_proposal` numbers them, stops at an operation,
-- exactly one of them is recorded as failed, and every other one as skipped.
pub stopped_marks_one :
    (env : Env) (ids : ℕ → ℕ) (user : User) (client_id proposal_id : ℕ)
    (ops : List ProposedOperation) (db : Db) (k : ℕ) (m : Message)
    → execute_all env ids user client_id proposal_id (numbered 0 ops) db ≡ stopped k m
    → (count has_failed (map (mark_failed k m) (numbered 0 ops)) ≡ 1)
      × (1 + count is_skipped (map (mark_failed k m) (numbered 0 ops)) ≡ length ops)
stopped_marks_one env ids user client_id proposal_id ops db k m h =
    let staged = numbered 0 ops in
    let pending = numbered-IsPending 0 ops in
    let one = marks_failed k m staged pending in
    let rest = marks_every k m staged pending in
    omega (
      arith,
      one,
      rest,
      numbered_once 0 k ops,
      stopped_at env ids user client_id proposal_id staged db k m h,
      length-numbered 0 ops,
    )
