-- ===== src/Access/Update.antt =====
-- `_apply_update_client`: what is written, what is logged, and that a change is never saved without
-- its intelligence rebuild.
use in_work_marketing_os_bac.Base.{
  ℕ, true, none, some, List, [], ◌≡◌, arith, str_eq, contains, map, or_else, find_by,
}
use in_work_marketing_os_bac.Errors.{ok}
use in_work_marketing_os_bac.Model.Enums.{incremental}
use in_work_marketing_os_bac.Model.Tables.{Change, Client, Db, Env, IntelJob}
use in_work_marketing_os_bac.JobQueue.{has_id, queued_for, enqueue}
use in_work_marketing_os_bac.JobQueue.Invariant.{IsSound}
use in_work_marketing_os_bac.JobQueue.Coalesce.{enqueue_merges}
use in_work_marketing_os_bac.Access.{ClientUpdate, apply_update_client}

-- With the pipeline enabled, a sound job table and a new job id, a successful update that reports changes
-- leaves a queued build of the client that covers every changed field, in the tables of the update.
update_client_enqueues :
    (env : Env) (db : Db) (client_id : ℕ) (patch : ClientUpdate) (db' : Db) (c : Client)
    (changes : List Change) (change : Change)
    → env.enabled ≡ true
    → IsSound db.jobs
    → find_by (has_id env.new_id) db.jobs ≡ none
    → apply_update_client env db client_id patch ≡ ok (db', c, some changes)
    → contains str_eq change.field (map (λ (x : Change). x.field) changes) ≡ true
    → (k : IntelJob) × (find_by (has_id k.id) db'.jobs ≡ some k)
      × (queued_for c.id k ≡ true)
      × (contains str_eq change.field (or_else k.payload []) ≡ true)
unfolding apply_update_client
update_client_enqueues env db client_id patch db' c changes change on sound fresh h within =
    let keys = map (λ (x : Change). x.field) changes in
    let saved : db'.jobs
        ≡ (enqueue true env.new_id env.now c.id incremental (some keys) 5 db.jobs).0 =
      ground arith in
    let (k, _, found, waits, covered, _, _, _) =
      enqueue_merges env.new_id env.now c.id 5 incremental (some keys) db.jobs change.field sound
        fresh in
    (k, rw saved found, waits, ground arith)
