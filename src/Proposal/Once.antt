-- ===== src/Proposal/Once.antt =====
-- A proposal is executed at most once: the claim, whatever comes of it, leaves no row to claim.
use in_work_marketing_os_bac.Base.{
  ℕ, false, List, [], ◌∷◌, ◌≡◌, inl, inr, refl, sym, ap, arith, ◌==◌, update_if, count,
}
use in_work_marketing_os_bac.Base.{Option-cases, Bool-cases}
use in_work_marketing_os_bac.Base.Rows.{update_if_idle}
use in_work_marketing_os_bac.Errors.{Result, ok, Result-cases}
use in_work_marketing_os_bac.Model.Enums.{executing, cancelled, is_pending_approval}
use in_work_marketing_os_bac.Model.Tables.{User, Env, Text}
use in_work_marketing_os_bac.Model.Proposals.{ChangeProposal, System}
use mathlib.Core.Path.{subst}
use in_work_marketing_os_bac.Proposal.Checks.{
  approve_checks_lem, reject_checks_lem, get_proposal_lem,
}
use in_work_marketing_os_bac.Proposal.{
  proposal_id_is, claimable, Outcome, finished, stopped, crashed, preflight, preflight_failed,
  conclude, execution_failed, completed_proposal, store, claim_for_execution, refreshed,
  validate_and_execute, claim_and_execute, approve_checks, approve, rejected, reject_checks, reject,
}

-- No row of the proposal awaits approval.
unfoldable pub IsSpent : ℕ → System → Type 0
IsSpent proposal_id sys = count (claimable proposal_id) sys.proposals ≡ 0

claim_spends :
    (i : ℕ) (ps : List ChangeProposal)
    → count
        (claimable i)
        (update_if (claimable i) (λ (p : ChangeProposal). record p { status = executing }) ps)
      ≡ 0
unfolding count update_if
claim_spends i [] = refl
claim_spends i (p ∷ ps) = ground (arith, claim_spends i ps)

-- A store of a row that does not await approval spends no less.
store_spends :
    (i : ℕ) (q : ChangeProposal) (ps : List ChangeProposal)
    → is_pending_approval q.status ≡ false
    → count (claimable i) ps ≡ 0
    → count (claimable i) (update_if (proposal_id_is q.id) (λ _. q) ps) ≡ 0
unfolding count update_if
store_spends i q [] h e = refl
store_spends i q (p ∷ ps) h e = ground (arith, store_spends i q ps)

concluded :
    (i now : ℕ) (sys : System) (user : User) (p : ChangeProposal) (o : Outcome)
    → IsSpent i sys
    → IsSpent i (conclude now sys user p o).0
unfolding IsSpent
concluded i now sys user p (finished db ops) h =
    store_spends i (completed_proposal now user ops p) sys.proposals refl h
concluded i now sys user p (stopped n m) h =
    store_spends i (execution_failed n m p) sys.proposals refl h
concluded i now sys user p (crashed x) h = h

validated :
    (i : ℕ) (env : Env) (ids : ℕ → ℕ) (sys : System) (user : User) (p : ChangeProposal)
    → IsSpent i sys
    → IsSpent i (validate_and_execute env ids sys user p).0
unfolding validate_and_execute IsSpent
validated i env ids sys user p h = elim (Option-cases (preflight env.now sys.db user p)) [
  | inl e ↦ rw (e, validate_and_execute) (concluded i env.now sys user p _ h)
  | inr (m, e) ↦
      rw (e, validate_and_execute) (store_spends i (preflight_failed m p) sys.proposals refl h)
]

claimed :
    (env : Env) (ids : ℕ → ℕ) (sys : System) (user : User) (p : ChangeProposal)
    → IsSpent p.id (claim_and_execute env ids sys user p).0
unfolding claim_and_execute claim_for_execution IsSpent
claimed env ids sys user p =
    let sys' = (claim_for_execution sys p.id).0 in
    elim (Bool-cases ((claim_for_execution sys p.id).1 == 0)) [
      | inl e ↦ rw e (claim_spends p.id sys.proposals)
      | inr e ↦
          rw e
            (validated p.id env ids sys' user (refreshed sys' p) (claim_spends p.id sys.proposals))
    ]

-- After a call of `approve` that got past its checks, no row of that proposal awaits approval,
-- whether the execution completed, failed or was interrupted.
pub approve-IsSpent :
    (env : Env) (ids : ℕ → ℕ) (sys : System) (client_id proposal_id : ℕ) (user : User)
    (p : ChangeProposal)
    → approve_checks sys client_id proposal_id user ≡ ok p
    → IsSpent proposal_id (approve env ids sys client_id proposal_id user).0
unfolding approve
approve-IsSpent env ids sys client_id proposal_id user p h =
    let (_, found) = approve_checks_lem sys client_id proposal_id user p h in
    let (same, _) = get_proposal_lem sys client_id proposal_id p found in
    rw (h, approve)
      (subst (λ i. IsSpent i (claim_and_execute env ids sys user p).0) same
        (claimed env ids sys user p))

-- A claim of a proposal of which no row awaits approval changes nothing.
spent-claim :
    (env : Env) (ids : ℕ → ℕ) (sys : System) (user : User) (p : ChangeProposal)
    → IsSpent p.id sys
    → (claim_and_execute env ids sys user p).0 ≡ sys
unfolding claim_and_execute claim_for_execution IsSpent
spent-claim env ids sys user p h =
    rw h
      (ap (λ ps. record sys { proposals = ps }) (update_if_idle (claimable p.id) _ sys.proposals h))

-- A call of `approve` for a proposal of which no row awaits approval changes nothing: no table and
-- no proposal.
pub spent-approve :
    (env : Env) (ids : ℕ → ℕ) (sys : System) (client_id proposal_id : ℕ) (user : User)
    → IsSpent proposal_id sys
    → (approve env ids sys client_id proposal_id user).0 ≡ sys
unfolding approve
spent-approve env ids sys client_id proposal_id user spent =
    elim (Result-cases (approve_checks sys client_id proposal_id user)) [
      | inr (x, e) ↦ rw (e, approve) refl
      | inl (p, e) ↦
          let (_, found) = approve_checks_lem sys client_id proposal_id user p e in
          let (same, _) = get_proposal_lem sys client_id proposal_id p found in
          rw (e, approve)
            (spent-claim env ids sys user p (subst (λ i. IsSpent i sys) (sym same) spent))
    ]

-- Once a call of `approve` got past its checks, a second call for the same proposal, by any user at
-- any time and for any client, changes no table and no proposal: nothing is executed twice.
pub approve_once :
    (env env' : Env) (ids ids' : ℕ → ℕ) (sys : System) (client_id client_id' proposal_id : ℕ)
    (user user' : User) (p : ChangeProposal)
    → approve_checks sys client_id proposal_id user ≡ ok p
    → (approve env' ids'
        (approve env ids sys client_id proposal_id user).0
        client_id'
        proposal_id
        user').0
      ≡ (approve env ids sys client_id proposal_id user).0
approve_once env env' ids ids' sys client_id client_id' proposal_id user user' p h =
    spent-approve env' ids' (approve env ids sys client_id proposal_id user).0 client_id'
      proposal_id user' (approve-IsSpent env ids sys client_id proposal_id user p h)

reject_spends :
    (i : ℕ) (q : ChangeProposal) (ps : List ChangeProposal)
    → q.id ≡ i
    → is_pending_approval q.status ≡ false
    → count (claimable i) (update_if (proposal_id_is q.id) (λ _. q) ps) ≡ 0
unfolding count update_if
reject_spends i q [] same h = refl
reject_spends i q (p ∷ ps) same h = ground (arith, reject_spends i q ps)

-- A proposal that `reject` accepted is cancelled, the tables are as before, and a later `approve` of it
-- changes nothing.
reject_final :
    (env : Env) (ids : ℕ → ℕ) (sys : System) (client_id client_id' proposal_id : ℕ)
    (user user' : User) (reason : Text) (p : ChangeProposal)
    → (reject sys client_id proposal_id user reason).1 ≡ ok p
    → (p.status ≡ cancelled)
      × ((reject sys client_id proposal_id user reason).0.db ≡ sys.db)
      × ((approve env ids
            (reject sys client_id proposal_id user reason).0
            client_id'
            proposal_id
            user').0
          ≡ (reject sys client_id proposal_id user reason).0)
unfolding reject rejected IsSpent
reject_final env ids sys client_id client_id' proposal_id user user' reason p h =
    elim (Result-cases (reject_checks sys client_id proposal_id user)) [
      | inr (x, e) ↦ absurd (let h' : Result.err x ≡ ok p = rw (e, reject) at h in cc h')
      | inl (q, e) ↦
          let (_, found, _) = reject_checks_lem sys client_id proposal_id user q e in
          let (same, _) = get_proposal_lem sys client_id proposal_id q found in
          let h' : ok (rejected reason q) ≡ ok p = rw (e, reject) at h in
          let spent = reject_spends proposal_id (rejected reason q) sys.proposals same refl in
          rw (e, reject)
            (
              ground arith,
              refl,
              spent-approve env ids (store sys (rejected reason q)) client_id' proposal_id user'
                  spent,
            )
    ]
