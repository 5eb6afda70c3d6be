-- ===== src/Proposal/Guards.antt =====
-- What the checks before an execution admit: who may execute which operations, and when.
use in_work_marketing_os_bac.Base.{
  ℕ, String, str_eq, eq_iff, ==_iff, Bool-cases, Bool, true, false, Option, none, some, List, [],
  ◌∷◌, ◌≤◌, ◌≡◌, ◌↔◌, ◌⊎◌, inl, inr, refl, arith, all, not, ◌&&◌, ◌||◌,
}
use in_work_marketing_os_bac.Base.Lists.{All}
use in_work_marketing_os_bac.Model.Enums.{is_admin, ClientCapability}
use in_work_marketing_os_bac.Model.Tables.{Client, PlanTask, User, Db}
use in_work_marketing_os_bac.Model.Proposals.{ProposedOperation, ChangeProposal}
use in_work_marketing_os_bac.Access.{
  CapabilitySet, effective_capabilities, get_client_row, get_user_row,
}
use in_work_marketing_os_bac.Plan.{get_for_client}
use in_work_marketing_os_bac.Proposal.{
  past, lacks, unauthorized, matches_live_snapshot, preflight, same_stamp, live_stamp, has_stamp,
  snapshot_holds,
}

-- The user may execute the operation: the user holds the capability that it requires, if any, and
-- is an administrator if it requires one.
abbrev pub MayExecute : CapabilitySet → User → ProposedOperation → Type 0
MayExecute caps user op =
    ((op.required_capability ≡ none)
      ⊎ ((c : ClientCapability) × (op.required_capability ≡ some c) × (caps c ≡ true)))
    × ((op.requires_admin ≡ false) ⊎ (is_admin user.role ≡ true))

-- The row of the entity, for a type that has a timestamp: it is there with the timestamp of the snapshot.
abbrev pub IsUnchanged : Db → ℕ → String → ℕ → ℕ → Type 0
IsUnchanged db client_id entity_type snapshot i =
    (entity_type ≡ "plan_task"
      → (t : PlanTask) × (get_for_client db client_id i ≡ some t) × (t.updated_at ≡ snapshot))
    × (entity_type ≡ "user" → (u : User) × (get_user_row db i ≡ some u) × (u.updated_at ≡ snapshot))
    × ((entity_type ≡ "client") ⊎ (entity_type ≡ "client_brand")
        → (c : Client) × (get_client_row db i ≡ some c) × (c.updated_at ≡ snapshot))

abbrev IsCurrentAt : Db → ℕ → String → Option ℕ → Option ℕ → Type 0
IsCurrentAt db client_id entity_type base_snapshot entity_id =
    (snapshot i : ℕ)
    → base_snapshot ≡ some snapshot
    → entity_id ≡ some i
    → IsUnchanged db client_id entity_type snapshot i

-- An operation that was built on a snapshot of an entity finds it unchanged.
abbrev pub IsCurrent : Db → ℕ → ProposedOperation → Type 0
IsCurrent db client_id op = IsCurrentAt db client_id op.entity_type op.base_snapshot op.entity_id

-- Not expired, every operation permitted now, and every entity as it was when the change was staged.
abbrev pub IsReady : ℕ → Db → User → ChangeProposal → Type 0
IsReady now db user p =
    ((p.expires_at ≡ none) ⊎ ((t : ℕ) × (p.expires_at ≡ some t) × (now ≤ t)))
    × All (MayExecute (effective_capabilities db user p.client_id) user) p.operations
    × All (IsCurrent db p.client_id) p.operations

not_past :
    (now : ℕ) (e : Option ℕ)
    → (past now e ≡ false) ↔ ((e ≡ none) ⊎ ((t : ℕ) × (e ≡ some t) × (now ≤ t)))
not_past now none = (λ _. inl refl, λ _. refl)
not_past now (some t) =
    (λ h. inr (t, refl, ground arith), elim [ inl h ↦ cc | inr (s, same, le) ↦ ground arith ])

not_lacking :
    (caps : CapabilitySet) (o : Option ClientCapability)
    → (lacks caps o ≡ false)
      ↔ ((o ≡ none) ⊎ ((c : ClientCapability) × (o ≡ some c) × (caps c ≡ true)))
not_lacking caps none = (λ _. inl refl, λ _. refl)
not_lacking caps (some c) =
    (λ h. inr (c, refl, ground arith), elim [ inl h ↦ cc | inr (d, same, has) ↦ ground arith ])

admin_given : (b a : Bool) → ((b && not a) ≡ false) ↔ ((b ≡ false) ⊎ (a ≡ true))
admin_given b a = ground arith

unauthorized_step :
    (caps : CapabilitySet) (user : User) (op : ProposedOperation) (ops : List ProposedOperation)
    → (unauthorized caps user (op ∷ ops) ≡ none) ↔ (
        (lacks caps op.required_capability ≡ false)
        × ((op.requires_admin && not (is_admin user.role)) ≡ false)
        × (unauthorized caps user ops ≡ none))
unfolding unauthorized
unauthorized_step caps user op ops = ground arith

unauthorized_iff :
    (caps : CapabilitySet) (user : User) (ops : List ProposedOperation)
    → (unauthorized caps user ops ≡ none) ↔ All (MayExecute caps user) ops
unfolding unauthorized
unauthorized_iff caps user [] = (λ _. tt, λ _. refl)
unauthorized_iff caps user (op ∷ ops) =
    let step = unauthorized_step caps user op ops in
    let held = not_lacking caps op.required_capability in
    let admin = admin_given op.requires_admin (is_admin user.role) in
    let rest = unauthorized_iff caps user ops in
    (
      λ h. let (c, a, r) = step.0 h in ((held.0 c, admin.0 a), rest.0 r),
      λ h. step.1 (held.1 h.0.0, admin.1 h.0.1, rest.1 h.1),
    )

stamp_holds :
    (live : Option ℕ) (snapshot : ℕ) → (same_stamp live snapshot ≡ true) ↔ (live ≡ some snapshot)
stamp_holds none snapshot = (λ h. cc, λ h. cc)
stamp_holds (some t) snapshot =
    (λ h. rw ((==_iff t snapshot).0 h) refl, λ h. (==_iff t snapshot).1 (cc h))

row_iff {ℓ} :
    {A : Type ℓ} (stamp : A → ℕ) (row : Option A) (snapshot : ℕ)
    → (same_stamp (elim row [ some t ↦ some (stamp t) | none ↦ none ]) snapshot ≡ true)
      ↔ ((t : A) × (row ≡ some t) × (stamp t ≡ snapshot))
row_iff stamp none snapshot = (λ h. cc, λ h. cc)
row_iff stamp (some t) snapshot = (
  λ h. (t, refl, (==_iff (stamp t) snapshot).0 h),
  λ (u, found, same). (==_iff (stamp t) snapshot).1 (cc (found, same)),
)

apart {ℓ} : {A : Type ℓ} (a b : String) → str_eq a b ≡ false → a ≡ b → A
apart a b n h = absurd (cc (n, (eq_iff a b).1 h))

IsUnchanged-iff :
    (db : Db) (client_id : ℕ) (entity_type : String) (s i : ℕ)
    → ((not (has_stamp entity_type) || same_stamp (live_stamp db client_id entity_type i) s) ≡ true)
      ↔ IsUnchanged db client_id entity_type s i
unfolding live_stamp has_stamp
IsUnchanged-iff db client_id entity_type s i = elim (Bool-cases (str_eq entity_type "plan_task")) [
  | inl e ↦
      let (to, from) = row_iff (λ (t : PlanTask). t.updated_at) (get_for_client db client_id i) s in
      rw ((eq_iff entity_type "plan_task").0 e) (
        λ h. (
          λ _. to h,
          apart "plan_task" "user" refl,
          λ a. elim a [
            | inl x ↦ apart "plan_task" "client" refl x
            | inr x ↦ apart "plan_task" "client_brand" refl x
          ],
        ),
        λ h. from (h.0 refl),
      )
  | inr no_task ↦ elim (Bool-cases (str_eq entity_type "user")) [
    | inl e ↦
        let (to, from) = row_iff (λ (u : User). u.updated_at) (get_user_row db i) s in
        rw ((eq_iff entity_type "user").0 e) (
          λ h. (
            apart "user" "plan_task" refl,
            λ _. to h,
            λ a. elim a [
              | inl x ↦ apart "user" "client" refl x
              | inr x ↦ apart "user" "client_brand" refl x
            ],
          ),
          λ h. from (h.1 refl),
        )
    | inr no_user ↦
        let (to, from) = row_iff (λ (c : Client). c.updated_at) (get_client_row db i) s in
        elim (Bool-cases (str_eq entity_type "client" || str_eq entity_type "client_brand")) [
          | inl e ↦
              let named : (entity_type ≡ "client") ⊎ (entity_type ≡ "client_brand") =
                ground
                  (arith, (eq_iff entity_type "client").0, (eq_iff entity_type "client_brand").0) in
              (
                λ h. (
                  apart entity_type "plan_task" no_task,
                  apart entity_type "user" no_user,
                  λ _. to (ground arith),
                ),
                λ h. let found = from (h.2 named) in ground arith,
              )
          | inr n ↦ (
            λ h. (
              apart entity_type "plan_task" no_task,
              apart entity_type "user" no_user,
              λ a. elim a [
                | inl x ↦ apart entity_type "client" (ground arith) x
                | inr x ↦ apart entity_type "client_brand" (ground arith) x
              ],
            ),
            λ h. ground arith,
          )
        ]
  ]
]

snapshot_iff :
    (db : Db) (client_id : ℕ) (entity_type : String) (b e : Option ℕ)
    → (snapshot_holds db client_id entity_type b e ≡ true)
      ↔ IsCurrentAt db client_id entity_type b e
unfolding live_stamp
snapshot_iff db client_id entity_type none e = (λ h s i b k. cc, λ h. refl)
snapshot_iff db client_id entity_type (some s) none = (λ h s i b k. cc, λ h. refl)
snapshot_iff db client_id entity_type (some s) (some i) =
    let (to, from) = IsUnchanged-iff db client_id entity_type s i in
    (
      λ h s' i' k l.
          let same_s : s ≡ s' = cc in let same_i : i ≡ i' = cc in rw (← same_s, ← same_i) (to h),
      λ h. from (h s i refl refl),
    )

IsCurrent-iff :
    (db : Db) (client_id : ℕ) (ops : List ProposedOperation)
    → (all (matches_live_snapshot db client_id) ops ≡ true) ↔ All (IsCurrent db client_id) ops
unfolding matches_live_snapshot
IsCurrent-iff db client_id [] = (λ h. tt, λ h. refl)
IsCurrent-iff db client_id (op ∷ ops) =
    let here = snapshot_iff db client_id op.entity_type op.base_snapshot op.entity_id in
    let rest = IsCurrent-iff db client_id ops in
    (
      λ h. (here.0 (ground arith), rest.0 (ground arith)),
      λ h. ground (arith, here.1 h.0, rest.1 h.1),
    )

preflight_step :
    (now : ℕ) (db : Db) (user : User) (p : ChangeProposal)
    → (preflight now db user p ≡ none) ↔ (
        (past now p.expires_at ≡ false)
        × (unauthorized (effective_capabilities db user p.client_id) user p.operations ≡ none)
        × (all (matches_live_snapshot db p.client_id) p.operations ≡ true))
unfolding preflight
preflight_step now db user p = ground arith

-- An execution passes its checks exactly when the proposal is not expired, the user holds now each
-- capability and the administrator role that its operations require, and every task, user and
-- client that an operation was built on a snapshot of is still there with the timestamp of the snapshot.
pub preflight_iff :
    (now : ℕ) (db : Db) (user : User) (p : ChangeProposal)
    → (preflight now db user p ≡ none) ↔ IsReady now db user p
preflight_iff now db user p =
    let step = preflight_step now db user p in
    let current = IsCurrent-iff db p.client_id p.operations in
    let time = not_past now p.expires_at in
    let rights = unauthorized_iff (effective_capabilities db user p.client_id) user p.operations in
    (
      λ h. let (t, a, s) = step.0 h in (time.0 t, rights.0 a, current.0 s),
      λ h. step.1 (time.1 h.0, rights.1 h.1, current.1 h.2),
    )
