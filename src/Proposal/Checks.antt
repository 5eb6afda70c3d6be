-- ===== src/Proposal/Checks.antt =====
-- What a call of `approve` or `reject` has checked when it goes on.
use in_work_marketing_os_bac.Base.{
  ℕ, true, false, some, ◌≡◌, arith, ◌==◌, find_by, ==_iff, &&_left, &&_right,
}
use in_work_marketing_os_bac.Base.Rows.{find_by_sound}
use in_work_marketing_os_bac.Errors.{ok, >>=-eq-ok, or_raise-eq-ok, raise_if-eq-ok}
use in_work_marketing_os_bac.Model.Enums.{is_read_only, is_pending_approval}
use in_work_marketing_os_bac.Model.Tables.{Client, User}
use in_work_marketing_os_bac.Model.Proposals.{ChangeProposal, System}
use in_work_marketing_os_bac.Access.{get_client}
use in_work_marketing_os_bac.Proposal.{
  is_proposal, get_proposal, approve_checks, reject_checks, approve_forbidden, reject_forbidden,
  no_longer_pending,
}

-- The caller sees the client and may write.
abbrev pub Admitted : System → ℕ → User → Type 0
Admitted sys client_id user =
    ((c : Client) × (get_client sys.db user client_id ≡ ok c)) × (is_read_only user.role ≡ false)

pub approve_checks_lem :
    (sys : System) (client_id proposal_id : ℕ) (user : User) (p : ChangeProposal)
    → approve_checks sys client_id proposal_id user ≡ ok p
    → Admitted sys client_id user × (get_proposal sys client_id proposal_id ≡ ok p)
unfolding approve_checks
approve_checks_lem sys client_id proposal_id user p h =
    let (c, seen, rest) = >>=-eq-ok (get_client sys.db user client_id) _ h in
    let (writes, found) = raise_if-eq-ok (is_read_only user.role) approve_forbidden _ rest in
    (((c, seen), writes), found)

pub reject_checks_lem :
    (sys : System) (client_id proposal_id : ℕ) (user : User) (p : ChangeProposal)
    → reject_checks sys client_id proposal_id user ≡ ok p
    → Admitted sys client_id user
      × (get_proposal sys client_id proposal_id ≡ ok p)
      × (is_pending_approval p.status ≡ true)
unfolding reject_checks
reject_checks_lem sys client_id proposal_id user p h =
    let (c, seen, rest) = >>=-eq-ok (get_client sys.db user client_id) _ h in
    let (writes, rest') = raise_if-eq-ok (is_read_only user.role) reject_forbidden _ rest in
    let (q, found, rest'') = >>=-eq-ok (get_proposal sys client_id proposal_id) _ rest' in
    let (pending, same) = raise_if-eq-ok _ no_longer_pending (ok q) rest'' in
    (((c, seen), writes), ground arith, ground arith)

-- A proposal that is found has the id and the client that were asked for.
pub get_proposal_lem :
    (sys : System) (client_id proposal_id : ℕ) (p : ChangeProposal)
    → get_proposal sys client_id proposal_id ≡ ok p
    → (p.id ≡ proposal_id) × (p.client_id ≡ client_id)
unfolding get_proposal
get_proposal_lem sys client_id proposal_id p h =
    let test = is_proposal client_id proposal_id in
    let found : find_by test sys.proposals ≡ some p =
      or_raise-eq-ok (find_by test sys.proposals) _ h in
    let holds = find_by_sound test sys.proposals p found in
    (
      (==_iff p.id proposal_id).0 (&&_left (p.id == proposal_id) (p.client_id == client_id) holds),
      (==_iff p.client_id client_id).0
          (&&_right (p.id == proposal_id) (p.client_id == client_id) holds),
    )
