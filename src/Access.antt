-- ===== src/Access.antt =====
-- app/services/client_service.py and app/services/assignment_service.py: who may see a client, what
-- they may do there, and how assignments grant it. A frozenset of capabilities is its membership
-- test. A call that writes returns the session's tables with its result.
pub mod Capability
pub mod Assignment
pub mod Update
use in_work_marketing_os_bac.Base.{
  ℕ, String, Bool, true, false, Option, none, some, List, [], ◌∷◌, ◌++◌, ◌&&◌, ◌||◌, not, ◌==◌,
  if◌then◌else◌, is_some, map, contains, any, find_by, update_if, remove_if,
}
use in_work_marketing_os_bac.Errors.{
  Message, text, with_name, Exn, forbidden, not_found, conflict, integrity, Result, ok, err, ◌>>=◌,
  ◌>>◌, raise_if, or_raise,
}
use in_work_marketing_os_bac.Model.Enums.{
  UserRole, is_admin, ClientCapability, capability_members, capability_value, capability_of,
  capability_eq, incremental,
}
use in_work_marketing_os_bac.Model.Tables.{
  Value, Change, Client, ClientField, User, ClientAssignment, Db, Env,
}
use in_work_marketing_os_bac.Audit.{Dict, field_changes}
use in_work_marketing_os_bac.JobQueue.{enqueue}

abbrev pub CapabilitySet : Type 0
CapabilitySet = ClientCapability → Bool

-- `ALL_CAPABILITIES`
abbrev pub all_capabilities : CapabilitySet
all_capabilities _ = true

abbrev pub no_capabilities : CapabilitySet
no_capabilities _ = false

-- the `try` in the loop of `capabilities_from_stored`
abbrev add_capability : Option ClientCapability → CapabilitySet → CapabilitySet
add_capability none caps = caps
add_capability (some c) caps = λ d. capability_eq c d || caps d

unfoldable pub parse_capabilities : List String → CapabilitySet
parse_capabilities [] = no_capabilities
parse_capabilities (value ∷ rest) = add_capability (capability_of value) (parse_capabilities rest)

unfoldable pub capabilities_from_stored : Option (List String) → CapabilitySet
capabilities_from_stored none = all_capabilities
capabilities_from_stored (some stored) =
    let caps = parse_capabilities stored in
    if caps ClientCapability.admin then all_capabilities else caps

-- `_sorted_caps`: enum order, without duplicates
sorted_members : List ClientCapability → List ClientCapability → List String
sorted_members [] caps = []
sorted_members (c ∷ members) caps =
    let rest = sorted_members members caps in
    if contains capability_eq c caps then capability_value c ∷ rest else rest

unfoldable pub sorted_caps : Option (List ClientCapability) → Option (List String)
unfolding sorted_members
sorted_caps none = none
sorted_caps (some caps) = some (sorted_members capability_members caps)

abbrev pub of_pair : ℕ → ℕ → ClientAssignment → Bool
of_pair client_id user_id a = a.client_id == client_id && a.user_id == user_id

-- `AssignmentRepository.get` and `exists`
unfoldable pub get_assignment : Db → ℕ → ℕ → Option ClientAssignment
get_assignment db client_id user_id = find_by (of_pair client_id user_id) db.assignments

unfoldable pub get_client_row : Db → ℕ → Option Client
get_client_row db client_id = find_by (λ c. c.id == client_id) db.clients

unfoldable pub get_user_row : Db → ℕ → Option User
get_user_row db user_id = find_by (λ u. u.id == user_id) db.users

unfoldable pub can_access : Db → User → ℕ → Bool
can_access db user client_id = is_admin user.role || is_some (get_assignment db client_id user.id)

abbrev pub client_not_found : Exn
client_not_found = not_found (text "Client not found.")

unfoldable pub get_client : Db → User → ℕ → Result Client
unfolding can_access
get_client db user client_id = elim (get_client_row db client_id) [
  | none ↦ err client_not_found
  | some client ↦ if not (can_access db user client_id) then err client_not_found else ok client
]

abbrev assigned_capabilities : UserRole → Option ClientAssignment → CapabilitySet
assigned_capabilities role none = no_capabilities
assigned_capabilities UserRole.manager (some a) = all_capabilities
assigned_capabilities _ (some a) = capabilities_from_stored a.capabilities

unfoldable pub effective_capabilities : Db → User → ℕ → CapabilitySet
effective_capabilities db user client_id =
    if is_admin user.role
    then all_capabilities
    else assigned_capabilities user.role (get_assignment db client_id user.id)

abbrev pub lacks_capability : ClientCapability → Exn
lacks_capability capability = forbidden (
    with_name "This action requires the '{}' capability on this client."
      (capability_value capability))

unfoldable pub require_capability : Db → User → ℕ → ClientCapability → Result Client
require_capability db user client_id capability = do
  client ← get_client db user client_id
  raise_if (not (effective_capabilities db user client_id capability)) (lacks_capability capability)
  ok client

-- `Session.flush`
unfoldable pub flush : Env → Db → Result Db
flush env db = if env.violates db then err integrity else ok db

-- ---- assignments ----

unfoldable pub apply_assign :
    Env → Db → ℕ → ℕ → ℕ → Option (List ClientCapability) → Result (Db × ClientAssignment)
unfolding flush
apply_assign env db client_id user_id assigned_by capabilities = do
  client ← or_raise (get_client_row db client_id) client_not_found
  user ← or_raise (get_user_row db user_id) (not_found (text "User not found."))
  raise_if (is_some (get_assignment db client_id user_id))
      (conflict (text "This client is already assigned to that user."))
  let assignment : ClientAssignment = record {
    id = env.new_id;
    client_id = client_id;
    user_id = user_id;
    assigned_by = assigned_by;
    capabilities = sorted_caps capabilities;
  }
  db' ← flush env (record db { assignments = db.assignments ++ assignment ∷ [] })
  ok (db', assignment)

abbrev pub with_capabilities : List ClientCapability → ClientAssignment → ClientAssignment
with_capabilities capabilities a = record a { capabilities = sorted_caps (some capabilities) }

abbrev pub assignment_not_found : Exn
assignment_not_found = not_found (text "Assignment not found.")

unfoldable pub apply_set_capabilities :
    Env → Db → ℕ → ℕ → List ClientCapability → Result (Db × ClientAssignment)
unfolding flush
apply_set_capabilities env db client_id user_id capabilities = do
  assignment ← or_raise (get_assignment db client_id user_id) assignment_not_found
  db' ← flush env (record db {
    assignments =
        update_if (λ a. a.id == assignment.id) (with_capabilities capabilities) db.assignments;
  })
  ok (db', with_capabilities capabilities assignment)

unfoldable pub apply_unassign : Env → Db → ℕ → ℕ → Result Db
unfolding flush
apply_unassign env db client_id user_id = do
  assignment ← or_raise (get_assignment db client_id user_id) assignment_not_found
  flush env (record db { assignments = remove_if (λ a. a.id == assignment.id) db.assignments })

-- ---- the client's own fields ----

abbrev pub client_fields : Client → Dict
client_fields c =
    ("name", c.profile ClientField.name)
    ∷ ("business_type", c.profile ClientField.business_type)
    ∷ ("industry", c.profile ClientField.industry)
    ∷ ("website", c.profile ClientField.website)
    ∷ ("location", c.profile ClientField.location)
    ∷ ("language", c.profile ClientField.language)
    ∷ ("timezone", c.profile ClientField.timezone)
    ∷ ("markets", c.profile ClientField.markets)
    ∷ ("status", c.profile ClientField.status)
    ∷ []

-- `getattr(data, attr)`, where `attr in fields`
abbrev pub ClientUpdate : Type 0
ClientUpdate = ClientField → Option Value

abbrev set_field : Option Value → Value → Value
set_field none old = old
set_field (some v) old = v

unfoldable pub patched_client : ClientUpdate → Client → Client
patched_client patch c = record c { profile = λ f. set_field (patch f) (c.profile f) }

-- the timestamp moves when a column does, and a rebuild is enqueued
abbrev saved_client : Env → Db → Client → Option (List Change) → Db
saved_client env db c none = db
saved_client env db c (some changes) = record db {
  clients = update_if (λ x. x.id == c.id) (λ _. record c { updated_at = env.now }) db.clients;
  jobs =
      (enqueue env.enabled env.new_id env.now c.id incremental
        (some (map (λ (x : Change). x.field) changes)) 5 db.jobs).0;
}

unfoldable pub apply_update_client :
    Env → Db → ℕ → ClientUpdate → Result (Db × Client × Option (List Change))
unfolding patched_client
apply_update_client env db client_id patch = do
  client ← or_raise (get_client_row db client_id) client_not_found
  let client' = patched_client patch client
  let changes = field_changes (client_fields client) (client_fields client')
  ok (saved_client env db client' changes, client', changes)
