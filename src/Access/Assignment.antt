-- ===== src/Access/Assignment.antt =====
-- Granting and revoking access: what an assignment gives its user, that a pair has at most one, and
-- that nothing is left after `unassign`.
use in_work_marketing_os_bac.Base.{
  ℕ, ◌≤◌, Bool, true, false, Option, none, some, List, [], ◌∷◌, ◌++◌, ◌≡◌, refl, ◌||◌, ◌==◌, arith,
  ==_refl, contains, count, find_by, remove_if, if◌then◌else◌, Option-cases, inl, inr,
}
use in_work_marketing_os_bac.Base.Rows.{find_by-append, count-append, count_zero, find_by-remove_if}
use in_work_marketing_os_bac.Errors.{ok}
use in_work_marketing_os_bac.Model.Enums.{
  UserRole, is_admin, is_manager, ClientCapability, capability_eq,
}
use in_work_marketing_os_bac.Model.Tables.{User, ClientAssignment, Db, Env}
use in_work_marketing_os_bac.Access.{
  sorted_caps, of_pair, get_assignment, can_access, effective_capabilities, apply_assign,
  apply_unassign, assigned_capabilities,
}
use in_work_marketing_os_bac.Access.Capability.{capabilities_roundtrip}

abbrev pub granted : Option (List ClientCapability) → ClientCapability → Bool
granted none c = true
granted (some caps) c =
    contains capability_eq c caps || contains capability_eq ClientCapability.admin caps

-- Unique constraint of `client_assignments`: a user has at most one assignment to a client.
abbrev pub IsUnique : Db → Type 0
IsUnique db = (c u : ℕ) → count (of_pair c u) db.assignments ≤ 1

-- What a successful `_apply_assign` has done.
apply_assign_ok :
    (env : Env) (db : Db) (client_id user_id assigned_by : ℕ)
    (caps : Option (List ClientCapability)) (db' : Db) (a : ClientAssignment)
    → apply_assign env db client_id user_id assigned_by caps ≡ ok (db', a)
    → (find_by (of_pair client_id user_id) db.assignments ≡ none)
      × (db'.assignments ≡ db.assignments ++ a ∷ [])
      × (a.client_id ≡ client_id)
      × (a.user_id ≡ user_id)
      × (a.capabilities ≡ sorted_caps caps)
unfolding apply_assign get_assignment
apply_assign_ok env db client_id user_id assigned_by caps db' a h = ground arith

-- If no pair of a client and a user is assigned twice, that stays so after a successful assignment.
apply_assign-IsUnique :
    (env : Env) (db : Db) (client_id user_id assigned_by : ℕ)
    (caps : Option (List ClientCapability)) (db' : Db) (a : ClientAssignment)
    → IsUnique db
    → apply_assign env db client_id user_id assigned_by caps ≡ ok (db', a)
    → IsUnique db'
unfolding count
apply_assign-IsUnique env db client_id user_id assigned_by caps db' a unique h c u =
    let (fresh, rows, of_client, of_user, _) =
      apply_assign_ok env db client_id user_id assigned_by caps db' a h in
    rw rows (
      ground (
        arith,
        count-append (of_pair c u) db.assignments (a ∷ []),
        unique c u,
        count_zero (of_pair client_id user_id) db.assignments fresh,
        of_client,
        of_user,
      ))

get_assignment-append :
    (db : Db) (u : User) (client_id : ℕ) (db' : Db) (a : ClientAssignment)
    → find_by (of_pair client_id u.id) db.assignments ≡ none
    → db'.assignments ≡ db.assignments ++ a ∷ []
    → a.client_id ≡ client_id
    → a.user_id ≡ u.id
    → get_assignment db' client_id u.id ≡ some a
unfolding get_assignment find_by
get_assignment-append db u client_id db' a fresh rows of_client of_user = rw rows (
    ground (
      arith,
      find_by-append (of_pair client_id u.id) db.assignments (a ∷ []),
      fresh,
      of_client,
      of_user,
      ==_refl client_id,
      ==_refl u.id,
    ))

granted_to :
    (role : UserRole) (a : ClientAssignment) (caps : Option (List ClientCapability))
    (c : ClientCapability)
    → is_admin role ≡ false
    → a.capabilities ≡ sorted_caps caps
    → assigned_capabilities role (some a) c ≡ (if is_manager role then true else granted caps c)
granted_to UserRole.admin a caps c plain stored = cc
granted_to UserRole.manager a caps c plain stored = refl
granted_to UserRole.user a none c plain stored = rw stored (capabilities_roundtrip [] c).1
granted_to UserRole.user a (some caps) c plain stored = rw stored (capabilities_roundtrip caps c).0

-- After a successful assignment the user, if no admin, holds on the client what was granted: every
-- capability for a manager or for no list, else those listed, or all if the list has `admin`.
assign_grants :
    (env : Env) (db : Db) (u : User) (client_id assigned_by : ℕ)
    (caps : Option (List ClientCapability)) (db' : Db) (a : ClientAssignment) (c : ClientCapability)
    → apply_assign env db client_id u.id assigned_by caps ≡ ok (db', a)
    → is_admin u.role ≡ false
    → (can_access db' u client_id ≡ true)
      × (effective_capabilities db' u client_id c
          ≡ (if is_manager u.role then true else granted caps c))
unfolding effective_capabilities can_access
assign_grants env db u client_id assigned_by caps db' a c h plain =
    let (fresh, rows, of_client, of_user, stored) =
      apply_assign_ok env db client_id u.id assigned_by caps db' a h in
    let found = get_assignment-append db u client_id db' a fresh rows of_client of_user in
    (ground (arith, found), rw (found, plain) (granted_to u.role a caps c plain stored))

get_assignment-unassign :
    (env : Env) (db : Db) (u : User) (client_id : ℕ) (db' : Db)
    → IsUnique db
    → apply_unassign env db client_id u.id ≡ ok db'
    → get_assignment db' client_id u.id ≡ none
unfolding apply_unassign get_assignment
get_assignment-unassign env db u client_id db' unique h =
    elim (Option-cases (find_by (of_pair client_id u.id) db.assignments)) [
      | inl nothing ↦ absurd (ground arith)
      | inr (a, found) ↦
          let rows : db'.assignments ≡ remove_if (λ x. x.id == a.id) db.assignments =
            ground arith in
          rw rows (
            find_by-remove_if (of_pair client_id u.id) (λ x. x.id == a.id) db.assignments a found
              (==_refl a.id) (unique client_id u.id))
    ]

-- If no pair of a client and a user is assigned twice, a user who is no admin has no access to the
-- client and no capability there after a successful `unassign`.
pub unassign_revokes :
    (env : Env) (db : Db) (u : User) (client_id : ℕ) (db' : Db) (c : ClientCapability)
    → IsUnique db
    → apply_unassign env db client_id u.id ≡ ok db'
    → is_admin u.role ≡ false
    → (can_access db' u client_id ≡ false) × (effective_capabilities db' u client_id c ≡ false)
unfolding effective_capabilities can_access
unassign_revokes env db u client_id db' c unique h plain =
    let gone = get_assignment-unassign env db u client_id db' unique h in
    (ground (arith, gone), rw (gone, plain))
