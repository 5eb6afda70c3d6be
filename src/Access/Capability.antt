-- ===== src/Access/Capability.antt =====
-- The access rule: what a user may do on a client, and what a refused user is told.
use in_work_marketing_os_bac.Base.{
  ℕ, true, false, none, some, List, [], ◌∷◌, ◌≡◌, ◌↔◌, refl, ◌||◌, ◌&&◌, arith, contains, is_some,
  if◌then◌else◌, ◌==◌, ==_iff, sym, ap, ◌∙◌,
}
use in_work_marketing_os_bac.Errors.{ok, err}
use in_work_marketing_os_bac.Model.Enums.{
  ClientCapability, manage_integrations, review_results, review_creatives, manage_calendar,
  manage_compliance, manage_campaigns, capability_members, capability_of-value, capability_eq,
  capability_index,
}
use in_work_marketing_os_bac.Model.Tables.{Client, User, Db}
use in_work_marketing_os_bac.Access.{
  parse_capabilities, capabilities_from_stored, sorted_members, sorted_caps, get_client_row,
  can_access, client_not_found, get_client, effective_capabilities, lacks_capability,
  require_capability,
}

-- A capability held on a client gives access to it.
effective-can_access :
    (db : Db) (u : User) (client_id : ℕ) (c : ClientCapability)
    → effective_capabilities db u client_id c ≡ true
    → can_access db u client_id ≡ true
unfolding effective_capabilities can_access
effective-can_access db u client_id c h = ground arith

-- `require_capability` returns a client exactly when that is the client's row and the user holds the
-- capability on it: holding it already implies access.
pub require_capability_iff :
    (db : Db) (u : User) (client_id : ℕ) (c : ClientCapability) (client : Client)
    → (require_capability db u client_id c ≡ ok client) ↔ (
        (get_client_row db client_id ≡ some client)
        × (effective_capabilities db u client_id c ≡ true))
unfolding require_capability get_client
require_capability_iff db u client_id c client =
    (λ h. ground arith, λ h. ground (arith, effective-can_access db u client_id c))

-- A user without access is told that the client does not exist, whether or not it does, so ids cannot be
-- probed.
require_capability_hidden :
    (db : Db) (u : User) (client_id : ℕ) (c : ClientCapability)
    → can_access db u client_id ≡ false
    → require_capability db u client_id c ≡ err client_not_found
unfolding require_capability get_client
require_capability_hidden db u client_id c h = ground arith

-- The error 403 that names the capability is told exactly to a user who has access to an existing
-- client and lacks the capability there.
require_capability_forbidden :
    (db : Db) (u : User) (client_id : ℕ) (c : ClientCapability)
    → (require_capability db u client_id c ≡ err (lacks_capability c)) ↔ (
        (is_some (get_client_row db client_id) ≡ true)
        × (can_access db u client_id ≡ true)
        × (effective_capabilities db u client_id c ≡ false))
unfolding require_capability get_client
require_capability_forbidden db u client_id c = (λ h. ground arith, λ h. ground arith)

-- the enum member that a place in the class stands for
member_at : ℕ → ClientCapability
member_at n =
    if n == 0
    then manage_integrations
    else if n == 1
    then review_results
    else if n == 2
    then review_creatives
    else if n == 3
    then manage_calendar
    else if n == 4
    then manage_compliance
    else if n == 5
    then manage_campaigns
    else ClientCapability.admin

member_at-index : (c : ClientCapability) → member_at (capability_index c) ≡ c
unfolding member_at
member_at-index ClientCapability.admin = refl
member_at-index _ = refl

capability_eq_sound : (a b : ClientCapability) → capability_eq a b ≡ true → a ≡ b
capability_eq_sound a b h =
    let same : capability_index a ≡ capability_index b = (==_iff _ _).0 h in
    sym (member_at-index a) ∙ ap member_at same ∙ member_at-index b

contains-sorted :
    (members caps : List ClientCapability) (c : ClientCapability)
    → parse_capabilities (sorted_members members caps) c
      ≡ (contains capability_eq c members && contains capability_eq c caps)
unfolding parse_capabilities sorted_members
contains-sorted [] caps c = refl
contains-sorted (m ∷ members) caps c =
    ground (arith, contains-sorted members caps c, capability_eq_sound m c, capability_of-value m)

members_all : (c : ClientCapability) → contains capability_eq c capability_members ≡ true
members_all ClientCapability.admin = refl
members_all _ = refl

-- A stored grant reads back as the requested set, with the per-client `admin` capability standing
-- for every capability; no list reads back as every capability.
pub capabilities_roundtrip :
    (caps : List ClientCapability) (c : ClientCapability)
    → (capabilities_from_stored (sorted_caps (some caps)) c
        ≡ (contains capability_eq c caps || contains capability_eq ClientCapability.admin caps))
      × (capabilities_from_stored (sorted_caps none) c ≡ true)
unfolding capabilities_from_stored sorted_caps
capabilities_roundtrip caps c = ground (
  arith,
  contains-sorted capability_members caps c,
  contains-sorted capability_members caps ClientCapability.admin,
  members_all c,
)
