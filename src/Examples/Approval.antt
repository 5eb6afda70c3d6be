-- ===== src/Examples/Approval.antt =====
-- Approving, rejecting and failing the example proposal.
use in_work_marketing_os_bac.Model.Tables.{number}
use in_work_marketing_os_bac.Model.Proposals.{ProposedOperation}
use in_work_marketing_os_bac.Access.{flush, get_client, get_client_row}
use in_work_marketing_os_bac.Plan.{get_task, apply_update_task, touched_fields}
use in_work_marketing_os_bac.Audit.{field_changes, value_eq, get}
use in_work_marketing_os_bac.Base.{
  some, arith, find_by, update_if, none, [], ◌∷◌, ◌≡◌, ◌↔◌, ◌⊎◌, ◌+◌, refl, map, count,
}
use in_work_marketing_os_bac.Errors.{message, text, ok}
use in_work_marketing_os_bac.Proposal.{
  approve, approve_checks, preflight, execute_all, stopped, mark_failed, numbered, get_proposal,
}
use in_work_marketing_os_bac.Proposal.Execute.{execute_operation}
use in_work_marketing_os_bac.Proposal.Trail.{Replays, execute_all-audit_log}
use in_work_marketing_os_bac.Model.Enums.{ProposedOperationStatus}
use in_work_marketing_os_bac.Examples.Data.{task}
use in_work_marketing_os_bac.Proposal.{audit_log, finished}
use in_work_marketing_os_bac.Model.Tables.{Db}
use in_work_marketing_os_bac.Proposal.Checks.{Admitted}
use in_work_marketing_os_bac.Proposal.Approve.{
  HasUniqueIds, Executes, Nothing, approve_all_or_nothing,
}
use in_work_marketing_os_bac.Proposal.Guards.{IsReady, preflight_iff}
use in_work_marketing_os_bac.Proposal.Once.{approve_once}
use in_work_marketing_os_bac.Proposal.Failure.{has_failed, is_skipped, stopped_marks_one}
use in_work_marketing_os_bac.Examples.Data.{env, system, db, admin_user, proposal, ids, moving}

found : approve_checks system 1 50 admin_user ≡ ok proposal
unfolding approve_checks get_proposal get_client get_client_row find_by
found = refl

approve_once_example :
    (approve env ids (approve env ids system 1 50 admin_user).0 1 50 admin_user).0
    ≡ (approve env ids system 1 50 admin_user).0
approve_once_example =
    approve_once env env ids ids system 1 1 50 admin_user admin_user proposal found

system-HasUniqueIds : HasUniqueIds system.proposals
unfolding count
system-HasUniqueIds i = ground arith

approve_all_or_nothing_example :
    Nothing db (approve env ids system 1 50 admin_user)
    ⊎ (Executes env ids system admin_user 1 50 (approve env ids system 1 50 admin_user)
        × Admitted system 1 admin_user)
approve_all_or_nothing_example =
    approve_all_or_nothing env ids system 1 50 admin_user system-HasUniqueIds

preflight_iff_example :
    (preflight 1000 db admin_user proposal ≡ none) ↔ IsReady 1000 db admin_user proposal
preflight_iff_example = preflight_iff 1000 db admin_user proposal

-- the second operation moves the start after the due date
failing :
    execute_all env ids admin_user 1 50 (numbered 0 (moving 4 ∷ moving 9 ∷ [])) db
    ≡ stopped 1 (text "start_date must be on or before due_date")
unfolding execute_all numbered execute_operation apply_update_task find_by flush update_if
    field_changes touched_fields value_eq get message
failing = refl

stopped_marks_one_example :
    (count has_failed (
        map
          (mark_failed 1 (text "start_date must be on or before due_date"))
          (numbered 0 (moving 4 ∷ moving 9 ∷ [])))
      ≡ 1)
    × (1
          + count is_skipped (
              map
                (mark_failed 1 (text "start_date must be on or before due_date"))
                (numbered 0 (moving 4 ∷ moving 9 ∷ [])))
        ≡ 2)
stopped_marks_one_example =
    stopped_marks_one env ids admin_user 1 50 (moving 4 ∷ moving 9 ∷ []) db 1
      (text "start_date must be on or before due_date") failing

abbrev moved : ProposedOperation
moved = record (moving 4) {
  status = ProposedOperationStatus.executed;
  field_changes = some (record { field = "start_date"; before = number 3; after = number 4 } ∷ []);
  entity_label = some (97 ∷ []);
}

abbrev after_move : Db
after_move = record db {
  tasks = record task { start_date = some 4; updated_at = 1000 } ∷ [];
  audit_logs = audit_log admin_user 1 50 moved ∷ [];
}

move_finished :
    execute_all env ids admin_user 1 50 (moving 4 ∷ []) db ≡ finished after_move (moved ∷ [])
unfolding execute_all execute_operation get_task apply_update_task find_by flush update_if
    field_changes touched_fields value_eq get
move_finished = refl

execute_all-audit_log_example :
    Replays env ids admin_user 1 50 db (moving 4 ∷ []) after_move (moved ∷ [])
    × (after_move.audit_logs ≡ audit_log admin_user 1 50 moved ∷ [])
execute_all-audit_log_example =
    execute_all-audit_log env ids admin_user 1 50 (moving 4 ∷ []) db after_move (moved ∷ [])
      move_finished
