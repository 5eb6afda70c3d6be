-- ===== src/Examples/Rbac.antt =====
-- Grants, revocations and updates on the example client.
use in_work_marketing_os_bac.Base.{
  true, false, none, some, [], ◌∷◌, ◌≡◌, ◌↔◌, refl, arith, find_by, keep_if, count,
}
use in_work_marketing_os_bac.Errors.{ok}
use in_work_marketing_os_bac.Model.Enums.{
  incremental, capability_value, manage_calendar, manage_campaigns,
}
use in_work_marketing_os_bac.Model.Tables.{
  Client, ClientField, ClientAssignment, Change, Db, typed, null,
}
use in_work_marketing_os_bac.JobQueue.{enqueue}
use in_work_marketing_os_bac.Access.{
  get_client_row, can_access, effective_capabilities, require_capability, sorted_caps, apply_assign,
  apply_unassign, get_assignment, get_user_row, patched_client, ClientUpdate,
}
use in_work_marketing_os_bac.Access.Capability.{require_capability_iff}
use in_work_marketing_os_bac.Access.Assignment.{IsUnique, unassign_revokes}
use in_work_marketing_os_bac.Examples.Data
use in_work_marketing_os_bac.Examples.Data.{env, db, client, plain_user, stranger}

require_capability_iff_example :
    (require_capability db plain_user 1 manage_calendar ≡ ok client) ↔ (
      (get_client_row db 1 ≡ some client)
      × (effective_capabilities db plain_user 1 manage_calendar ≡ true))
require_capability_iff_example = require_capability_iff db plain_user 1 manage_calendar client

outside : can_access db stranger 1 ≡ false
unfolding can_access get_assignment find_by
outside = refl

db-IsUnique : IsUnique db
unfolding count
db-IsUnique c u = ground arith

abbrev added : ClientAssignment
added = record {
  id = 90;
  client_id = 1;
  user_id = 13;
  assigned_by = 10;
  capabilities = some ("manage_campaigns" ∷ []);
}

abbrev after_assign : Db
after_assign = record db { assignments = Data.granted ∷ added ∷ [] }

assigned : apply_assign env db 1 13 10 (some (manage_campaigns ∷ [])) ≡ ok (after_assign, added)
unfolding apply_assign sorted_caps get_assignment get_client_row get_user_row find_by
    capability_value
assigned = refl

abbrev after_unassign : Db
after_unassign = record db { assignments = [] }

unassigned : apply_unassign env db 1 12 ≡ ok after_unassign
unfolding apply_unassign get_assignment find_by keep_if
unassigned = refl

unassign_revokes_example :
    (can_access after_unassign plain_user 1 ≡ false)
    × (effective_capabilities after_unassign plain_user 1 manage_calendar ≡ false)
unassign_revokes_example =
    unassign_revokes env db plain_user 1 after_unassign manage_calendar db-IsUnique unassigned refl

-- the website is sent
abbrev patch : ClientUpdate
patch = elim [ ClientField.website ↦ some (typed (97 ∷ [])) | _ ↦ none ]

abbrev website_change : Change
website_change = record { field = "website"; before = null; after = typed (97 ∷ []) }

abbrev patched : Client
patched = patched_client patch client

abbrev after_patch : Db
after_patch = record db {
  clients = record patched { updated_at = 1000 } ∷ [];
  jobs = (enqueue true 90 1000 1 incremental (some ("website" ∷ [])) 5 (Data.waiting ∷ [])).0;
}
