-- ===== src/Plan/Writes.antt =====
-- Every write to the board of one client as a step: the invariant of the tables, and that no other
-- client's tasks change.
use in_work_marketing_os_bac.Base.{
  ℕ, ◌≤◌, ◌<◌, Bool, true, false, Option, none, some, List, [], ◌∷◌, ◌++◌, ◌≡◌, ap, ◌∙◌, not, ◌&&◌,
  ◌==◌, arith, ==_refl, find_by, keep_if, update_if, remove_if, count, Option-cases, inl, inr,
}
use mathlib.Core.List.{append-nil}
use in_work_marketing_os_bac.Base.Lists.{All, All-map_same}
use in_work_marketing_os_bac.Base.Rows.{
  only_row, self_lookup, find_by-All, find_by_sound, count-append, count_zero, count-remove_if_le,
  keep_if-append, keep_if-update_if, keep_if-remove_if, count-update_one,
}
use in_work_marketing_os_bac.Errors.{ok}
use in_work_marketing_os_bac.Model.Tables.{
  Text, PlanTask, PlanTaskAsset, PlanTaskNote, Change, Db, Env,
}
use in_work_marketing_os_bac.Audit.{field_changes}
use in_work_marketing_os_bac.Plan.Columns.{PlanTaskCreate, PlanTaskUpdate}
use in_work_marketing_os_bac.Plan.{
  is_task, task_id_is, get_for_client, get_task, ranges_pass, created_task, apply_create_task,
  updated_task, apply_update_task, apply_delete_task, duplicated_task, apply_duplicate_task,
  apply_add_note, link_of, add_asset, remove_asset, patched_task, touched_fields,
}
use in_work_marketing_os_bac.Plan.Ranges.{
  AllOrdered, create-AllOrdered, update-AllOrdered, delete-AllOrdered, duplicate-AllOrdered,
}

-- A successful call on the board of a client, from one state of the tables to the next. New ids are
-- not in the table yet.
pub data Write (env : Env) (client_id : ℕ) (db : Db) : Db → Type 0 where
  creates :
      {db' : Db} (d : PlanTaskCreate) (user_id : ℕ) (t : PlanTask) (changes : Option (List Change))
      → ranges_pass d ≡ true
      → find_by (task_id_is env.new_id) db.tasks ≡ none
      → apply_create_task env db client_id d user_id ≡ ok (db', t, changes)
      → Write env client_id db db'
  updates :
      {db' : Db} (task_id : ℕ) (d : PlanTaskUpdate) (t : PlanTask) (changes : Option (List Change))
      → apply_update_task env db client_id task_id d ≡ ok (db', t, changes)
      → Write env client_id db db'
  deletes :
      {db' : Db} (task_id : ℕ) (t : PlanTask) (changes : Option (List Change))
      → apply_delete_task env db client_id task_id ≡ ok (db', t, changes)
      → Write env client_id db db'
  duplicates :
      {db' : Db} (task_id user_id : ℕ) (t : PlanTask) (changes : Option (List Change))
      → find_by (task_id_is env.new_id) db.tasks ≡ none
      → apply_duplicate_task env db client_id task_id user_id ≡ ok (db', t, changes)
      → Write env client_id db db'
  notes :
      {db' : Db} (task_id user_id : ℕ) (body : Text) (n : PlanTaskNote) (t : PlanTask)
      → apply_add_note env db client_id task_id body user_id ≡ ok (db', n, t)
      → Write env client_id db db'
  links :
      {db' : Db} (task_id : ℕ) (url : Text) (label : Option Text) (a : PlanTaskAsset)
      → add_asset env db client_id task_id url label ≡ ok (db', a)
      → Write env client_id db db'
  unlinks :
      {db' : Db} (task_id asset_id : ℕ)
      → remove_asset env db client_id task_id asset_id ≡ ok db'
      → Write env client_id db db'

-- Task ids are unique, no span is inverted, and no task has more than twenty links.
pub record IsSound (db : Db) : Type 0 where
  pub one_row : (i : ℕ) → count (task_id_is i) db.tasks ≤ 1
  pub ordered : AllOrdered db
  pub few_links : (i : ℕ) → count (link_of i) db.assets ≤ 20

-- What the calls that look a row up have written.
remove_asset_ok :
    (env : Env) (db db' : Db) (client_id task_id asset_id : ℕ)
    → remove_asset env db client_id task_id asset_id ≡ ok db'
    → (a : PlanTaskAsset) × (db'.assets ≡ remove_if (λ (x : PlanTaskAsset). x.id == a.id) db.assets)
      × (db'.tasks ≡ db.tasks)
unfolding remove_asset get_task
remove_asset_ok env db db' client_id task_id asset_id e =
    elim (Option-cases (get_for_client db client_id task_id)) [
      | inl missing ↦ absurd (ground arith)
      | inr (t, found) ↦
          elim (Option-cases
            (find_by (λ (a : PlanTaskAsset). a.id == asset_id && a.task_id == task_id) db.assets)) [
              | inl no_link ↦ absurd (ground arith)
              | inr (a, link) ↦ (a, ground arith, ground arith)
            ]
    ]

apply_update_task_ok :
    (env : Env) (db db' : Db) (client_id task_id : ℕ) (d : PlanTaskUpdate) (t' : PlanTask)
    (changes : Option (List Change))
    → apply_update_task env db client_id task_id d ≡ ok (db', t', changes)
    → (t : PlanTask) × (find_by (is_task client_id task_id) db.tasks ≡ some t)
      × (db'.tasks ≡ update_if (task_id_is t.id) (λ _. updated_task env d t) db.tasks)
unfolding apply_update_task get_task get_for_client
apply_update_task_ok env db db' client_id task_id d t' changes e =
    elim (Option-cases (find_by (is_task client_id task_id) db.tasks)) [
      | inl missing ↦ absurd (ground arith)
      | inr (t, found) ↦ (t, found, ground arith)
    ]

apply_delete_task_ok :
    (env : Env) (db db' : Db) (client_id task_id : ℕ) (t : PlanTask)
    (changes : Option (List Change))
    → apply_delete_task env db client_id task_id ≡ ok (db', t, changes)
    → (db'.tasks ≡ remove_if (task_id_is t.id) db.tasks)
      × (find_by (is_task client_id task_id) db.tasks ≡ some t)
unfolding apply_delete_task get_task get_for_client
apply_delete_task_ok env db db' client_id task_id t changes e = ground arith

apply_duplicate_task_ok :
    (env : Env) (db db' : Db) (client_id task_id user_id : ℕ) (t' : PlanTask)
    (changes : Option (List Change))
    → apply_duplicate_task env db client_id task_id user_id ≡ ok (db', t', changes)
    → (t : PlanTask) × (db'.tasks ≡ db.tasks ++ duplicated_task env client_id t user_id ∷ [])
unfolding apply_duplicate_task get_task
apply_duplicate_task_ok env db db' client_id task_id user_id t' changes e =
    elim (Option-cases (get_for_client db client_id task_id)) [
      | inl missing ↦ absurd (ground arith)
      | inr (t, found) ↦ (t, ground arith)
    ]

abbrev pub foreign : ℕ → PlanTask → Bool
foreign client_id t = not (t.client_id == client_id)

-- With unique ids, the row that a client-scoped SELECT finds is the one of its id.
find_by-id :
    (db : Db) (client_id task_id : ℕ) (t : PlanTask)
    → ((i : ℕ) → count (task_id_is i) db.tasks ≤ 1)
    → find_by (is_task client_id task_id) db.tasks ≡ some t
    → find_by (task_id_is t.id) db.tasks ≡ some t
find_by-id db client_id task_id t h found =
    find_by-All (λ x. find_by (task_id_is x.id) db.tasks ≡ some x) (is_task client_id task_id)
      db.tasks t (self_lookup (λ (x : PlanTask). x.id) db.tasks h) found

-- The row that a client-scoped SELECT finds is the client's, and so is every row with its id.
owned_rows :
    (db : Db) (client_id task_id : ℕ) (t : PlanTask)
    → ((i : ℕ) → count (task_id_is i) db.tasks ≤ 1)
    → find_by (is_task client_id task_id) db.tasks ≡ some t
    → All (λ x. task_id_is t.id x ≡ true → x.client_id ≡ client_id) db.tasks
owned_rows db client_id task_id t h found =
    let own : is_task client_id task_id t ≡ true =
      find_by_sound (is_task client_id task_id) db.tasks t found in
    let of_client : t.client_id ≡ client_id = ground arith in
    All-map_same (λ x. task_id_is t.id x ≡ true → x ≡ t)
      (λ x. task_id_is t.id x ≡ true → x.client_id ≡ client_id)
      (λ x only same. ap (λ (y : PlanTask). y.client_id) (only same) ∙ of_client) db.tasks
      (only_row (λ (x : PlanTask). x.id) db.tasks t.id t h
        (find_by-id db client_id task_id t h found))

-- The row that an update writes keeps its id and its client.
updated_task_key :
    (env : Env) (d : PlanTaskUpdate) (t : PlanTask)
    → ((updated_task env d t).id ≡ t.id) × ((updated_task env d t).client_id ≡ t.client_id)
updated_task_key env d t =
    elim (Option-cases (field_changes (touched_fields d t) (touched_fields d (patched_task d t)))) [
      | inl e ↦ (rw e, rw e)
      | inr (cs, e) ↦ (rw e, rw e)
    ]

updated_task_owned :
    (db : Db) (client_id task_id : ℕ) (env : Env) (d : PlanTaskUpdate) (t : PlanTask)
    → find_by (is_task client_id task_id) db.tasks ≡ some t
    → foreign client_id (updated_task env d t) ≡ false
updated_task_owned db client_id task_id env d t found = ground (
  arith,
  find_by_sound (is_task client_id task_id) db.tasks t found,
  (updated_task_key env d t).1,
)

module _ {env : Env} {client_id : ℕ} {db : Db} where
  Write-ordered : {db' : Db} → Write env client_id db db' → AllOrdered db → AllOrdered db'
  unfolding apply_add_note add_asset remove_asset
  Write-ordered (creates d user_id t changes valid fresh e) h =
      create-AllOrdered env db client_id user_id d valid h e
  Write-ordered (updates task_id d t changes e) h = update-AllOrdered env db client_id task_id d h e
  Write-ordered (deletes task_id t changes e) h = delete-AllOrdered env db client_id task_id h e
  Write-ordered (duplicates task_id user_id t changes fresh e) h =
      duplicate-AllOrdered env db client_id task_id user_id h e
  Write-ordered {db'} (notes task_id user_id body n t e) h =
      let rows : db'.tasks ≡ db.tasks = ground arith in rw rows h
  Write-ordered {db'} (links task_id url label a e) h =
      let rows : db'.tasks ≡ db.tasks = ground arith in rw rows h
  Write-ordered {db'} (unlinks task_id asset_id e) h =
      let rows : db'.tasks ≡ db.tasks = ground arith in rw rows h

  Write-few_links :
      {db' : Db}
      → Write env client_id db db'
      → ((i : ℕ) → count (link_of i) db.assets ≤ 20)
      → (i : ℕ) → count (link_of i) db'.assets ≤ 20
  unfolding apply_create_task apply_update_task apply_delete_task apply_duplicate_task
      apply_add_note add_asset remove_asset count
  Write-few_links {db'} (creates d user_id t changes valid fresh e) h i =
      let rows : db'.assets ≡ db.assets = ground arith in rw rows (h i)
  Write-few_links {db'} (updates task_id d t changes e) h i =
      let rows : db'.assets ≡ db.assets = ground arith in rw rows (h i)
  Write-few_links {db'} (deletes task_id t changes e) h i =
      let rows : db'.assets ≡ remove_if (λ a. a.task_id == t.id) db.assets = ground arith in
      rw rows
        (omega (arith, h i, count-remove_if_le (link_of i) (λ a. a.task_id == t.id) db.assets))
  Write-few_links {db'} (duplicates task_id user_id t changes fresh e) h i =
      let rows : db'.assets ≡ db.assets = ground arith in rw rows (h i)
  Write-few_links {db'} (notes task_id user_id body n t e) h i =
      let rows : db'.assets ≡ db.assets = ground arith in rw rows (h i)
  Write-few_links {db'} (links task_id url label a e) h i =
      let rows : db'.assets ≡ db.assets ++ a ∷ [] = ground arith in
      let room : count (link_of a.task_id) db.assets < 20 = ground arith in
      rw rows (ground (arith, h i, count-append (link_of i) db.assets (a ∷ [])))
  Write-few_links {db'} (unlinks task_id asset_id e) h i =
      let (a, rows, _) = remove_asset_ok env db db' client_id task_id asset_id e in
      rw rows (omega (arith, h i, count-remove_if_le (link_of i) (λ x. x.id == a.id) db.assets))

  Write-one_row :
      {db' : Db}
      → Write env client_id db db'
      → ((i : ℕ) → count (task_id_is i) db.tasks ≤ 1)
      → (i : ℕ) → count (task_id_is i) db'.tasks ≤ 1
  unfolding apply_create_task created_task duplicated_task apply_delete_task apply_add_note
      add_asset count
  Write-one_row {db'} (creates d user_id t changes valid fresh e) h i =
      let rows : db'.tasks ≡ db.tasks ++ created_task env client_id d user_id ∷ [] = ground arith in
      rw rows (
        ground (
          arith,
          h i,
          count-append (task_id_is i) db.tasks (created_task env client_id d user_id ∷ []),
          count_zero (task_id_is env.new_id) db.tasks fresh,
        ))
  Write-one_row {db'} (updates task_id d t' changes e) h i =
      let (t, found, rows) = apply_update_task_ok env db db' client_id task_id d t' changes e in
      let row = find_by-id db client_id task_id t h found in
      rw rows (
        ground (
          arith,
          h i,
          count-update_one (task_id_is i) (task_id_is t.id) (λ _. updated_task env d t) db.tasks t
              (h t.id) row,
          (updated_task_key env d t).0,
        ))
  Write-one_row {db'} (deletes task_id t changes e) h i =
      let rows : db'.tasks ≡ remove_if (task_id_is t.id) db.tasks = ground arith in
      rw rows (omega (arith, h i, count-remove_if_le (task_id_is i) (task_id_is t.id) db.tasks))
  Write-one_row {db'} (duplicates task_id user_id t' changes fresh e) h i =
      let (t, rows) = apply_duplicate_task_ok env db db' client_id task_id user_id t' changes e in
      rw rows (
        ground (
          arith,
          h i,
          count-append (task_id_is i) db.tasks (duplicated_task env client_id t user_id ∷ []),
          count_zero (task_id_is env.new_id) db.tasks fresh,
        ))
  Write-one_row {db'} (notes task_id user_id body n t e) h i =
      let rows : db'.tasks ≡ db.tasks = ground arith in rw rows (h i)
  Write-one_row {db'} (links task_id url label a e) h i =
      let rows : db'.tasks ≡ db.tasks = ground arith in rw rows (h i)
  Write-one_row {db'} (unlinks task_id asset_id e) h i =
      let (a, _, rows) = remove_asset_ok env db db' client_id task_id asset_id e in rw rows (h i)

  -- Every successful write, under a new id and with a request that the schema admits, keeps task ids
  -- unique, spans in order and at most twenty links on a task.
  pub Write-IsSound : {db' : Db} → Write env client_id db db' → IsSound db → IsSound db'
  Write-IsSound w s = record {
    one_row = Write-one_row w s.one_row;
    ordered = Write-ordered w s.ordered;
    few_links = Write-few_links w s.few_links;
  }

  -- In sound tables, a write to the board of one client leaves the tasks of all other clients as
  -- they are.
  pub Write-other_clients :
      {db' : Db}
      → IsSound db
      → Write env client_id db db'
      → keep_if (foreign client_id) db'.tasks ≡ keep_if (foreign client_id) db.tasks
  unfolding apply_create_task created_task duplicated_task apply_add_note add_asset keep_if
  Write-other_clients {db'} s (creates d user_id t changes valid fresh e) =
      let rows : db'.tasks ≡ db.tasks ++ created_task env client_id d user_id ∷ [] = ground arith in
      rw
        (
          rows,
          keep_if-append (foreign client_id) db.tasks (created_task env client_id d user_id ∷ []),
          ==_refl client_id,
        )
        (append-nil (keep_if (foreign client_id) db.tasks))
  Write-other_clients {db'} s (updates task_id d t' changes e) =
      let (t, found, rows) = apply_update_task_ok env db db' client_id task_id d t' changes e in
      rw rows (
        keep_if-update_if (foreign client_id) (task_id_is t.id) (λ _. updated_task env d t) db.tasks
          (All-map_same (λ x. task_id_is t.id x ≡ true → x.client_id ≡ client_id)
            (λ x.
              task_id_is t.id x ≡ true
              → (foreign client_id x ≡ false) × (foreign client_id (updated_task env d t) ≡ false))
            (λ x own same.
              let of_client : x.client_id ≡ client_id = own same in
              (ground arith, updated_task_owned db client_id task_id env d t found))
            db.tasks (owned_rows db client_id task_id t s.one_row found)))
  Write-other_clients {db'} s (deletes task_id t changes e) =
      let (rows, found) = apply_delete_task_ok env db db' client_id task_id t changes e in
      rw rows (
        keep_if-remove_if (foreign client_id) (task_id_is t.id) db.tasks (
          All-map_same (λ x. task_id_is t.id x ≡ true → x.client_id ≡ client_id)
            (λ x. task_id_is t.id x ≡ true → foreign client_id x ≡ false)
            (λ x own same. let of_client : x.client_id ≡ client_id = own same in ground arith)
            db.tasks (owned_rows db client_id task_id t s.one_row found)))
  Write-other_clients {db'} s (duplicates task_id user_id t' changes fresh e) =
      let (t, rows) = apply_duplicate_task_ok env db db' client_id task_id user_id t' changes e in
      rw
        (
          rows,
          keep_if-append (foreign client_id) db.tasks
              (duplicated_task env client_id t user_id ∷ []),
          ==_refl client_id,
        )
        (append-nil (keep_if (foreign client_id) db.tasks))
  Write-other_clients {db'} s (notes task_id user_id body n t e) =
      let rows : db'.tasks ≡ db.tasks = ground arith in rw rows
  Write-other_clients {db'} s (links task_id url label a e) =
      let rows : db'.tasks ≡ db.tasks = ground arith in rw rows
  Write-other_clients {db'} s (unlinks task_id asset_id e) =
      let (a, _, rows) = remove_asset_ok env db db' client_id task_id asset_id e in rw rows
