-- ===== src/Proposal/Approve.antt =====
-- What one call of `approve` may do to the tables: nothing, or all operations of a proposal that
-- passed every check.
use mathlib.Core.Path.{subst}
use in_work_marketing_os_bac.Base.{
  ℕ, ◌≤◌, Bool, true, false, some, List, [], ◌∷◌, ◌≡◌, ◌⊎◌, ◌==◌, inl, inr, refl, sym, arith,
  find_by, update_if, count, ==_iff, &&_left, &&_right, Option-cases, Bool-cases,
}
use in_work_marketing_os_bac.Base.Rows.{find_by_sound, count_zero, count_pos}
use in_work_marketing_os_bac.Errors.{Result, ok, Result-cases, or_raise-eq-ok}
use in_work_marketing_os_bac.Model.Enums.{executing, completed, is_pending_approval}
use in_work_marketing_os_bac.Model.Tables.{User, Db, Env}
use in_work_marketing_os_bac.Model.Proposals.{ChangeProposal, System}
use in_work_marketing_os_bac.Proposal.Checks.{Admitted, approve_checks_lem}
use in_work_marketing_os_bac.Proposal.Guards.{IsReady, preflight_iff}
use in_work_marketing_os_bac.Proposal.Trail.{Replays, execute_all-audit_log}
use in_work_marketing_os_bac.Proposal.{
  proposal_id_is, is_proposal, claimable, get_proposal, Outcome, finished, stopped, crashed,
  execute_all, preflight, conclude, completed_proposal, claim_for_execution, refreshed,
  validate_and_execute, claim_and_execute, approve_checks, approve,
}

-- The id is the primary key of the proposals.
abbrev pub HasUniqueIds : List ChangeProposal → Type 0
HasUniqueIds ps = (i : ℕ) → count (proposal_id_is i) ps ≤ 1

-- The call found the stored proposal `q` of the client pending and ready, executed its operations, all of them
-- in order, and stored and returned it completed.
pub record Executes (env : Env) (ids : ℕ → ℕ) (sys : System) (user : User)
    (client_id proposal_id : ℕ) (r : System × Result ChangeProposal) : Type 0 where
  pub q : ChangeProposal
  pub c : ChangeProposal
  pub found : find_by (proposal_id_is proposal_id) sys.proposals ≡ some q
  pub of_client : q.client_id ≡ client_id
  pub pending : is_pending_approval q.status ≡ true
  pub ready : IsReady env.now sys.db user q
  pub ran : Replays env ids user client_id proposal_id sys.db q.operations r.0.db c.operations
  pub returned : r.1 ≡ ok c
  pub stored : find_by (proposal_id_is proposal_id) r.0.proposals ≡ some c
  pub is_completed : c.status ≡ completed
  pub approver : c.approved_by_user_id ≡ some user.id
  pub at : c.executed_at ≡ some env.now

-- The tables after the call are those before it.
unfoldable pub Nothing : Db → System × Result ChangeProposal → Type 0
Nothing db r = r.0.db ≡ db

-- Of rows of which one passes a test, a narrower test finds that one.
find_by_wider {ℓ} :
    {A : Type ℓ} (p q : A → Bool) (xs : List A) (a : A)
    → ((x : A) → q x ≡ true → p x ≡ true)
    → count p xs ≤ 1
    → find_by q xs ≡ some a
    → find_by p xs ≡ some a
unfolding find_by count
find_by_wider p q [] a w one h = cc
find_by_wider p q (x ∷ xs) a w one h = elim (Bool-cases (q x)) [
  | inl e ↦ ground (arith, w x e)
  | inr e ↦
      let later : find_by q xs ≡ some a = ground arith in
      let counted : find_by p xs ≡ some a → 1 ≤ count p xs = count_pos p xs a in
      ground (arith, counted, find_by_wider p q xs a w, w a (find_by_sound q xs a later))
]

claimed_row :
    (i : ℕ) (ps : List ChangeProposal) (p : ChangeProposal)
    → find_by (proposal_id_is i) ps ≡ some p
    → claimable i p ≡ true
    → find_by
        (proposal_id_is i)
        (update_if (claimable i) (λ (q : ChangeProposal). record q { status = executing }) ps)
      ≡ some (record p { status = executing })
unfolding find_by update_if
claimed_row i [] p h t = cc
claimed_row i (q ∷ ps) p h t = elim (Bool-cases (q.id == i)) [
  | inl e ↦
      let same : q ≡ p = ground arith in
      let t' : claimable i q ≡ true = rw same t in rw t' (rw e (rw same refl))
  | inr e ↦
      let t' : claimable i q ≡ false = rw e refl in
      rw t' (rw e (claimed_row i ps p (ground arith) t))
]

stored_row :
    (i : ℕ) (ps : List ChangeProposal) (p c : ChangeProposal)
    → find_by (proposal_id_is i) ps ≡ some p
    → c.id ≡ i
    → find_by (proposal_id_is i) (update_if (proposal_id_is i) (λ _. c) ps) ≡ some c
unfolding find_by update_if
stored_row i [] p c h t = cc
stored_row i (q ∷ ps) p c h t = ground (arith, (==_iff c.id i).1 t, stored_row i ps p c)

-- Where the claim changed a row, the proposal is the stored one, pending until then.
claim_lem :
    (sys : System) (client_id proposal_id : ℕ) (p : ChangeProposal)
    → HasUniqueIds sys.proposals
    → get_proposal sys client_id proposal_id ≡ ok p
    → ((claim_for_execution sys p.id).1 == 0) ≡ false
    → (find_by (proposal_id_is proposal_id) sys.proposals ≡ some p)
      × (p.id ≡ proposal_id)
      × (p.client_id ≡ client_id)
      × (is_pending_approval p.status ≡ true)
      × (refreshed (claim_for_execution sys p.id).0 p ≡ record p { status = executing })
      × (find_by (proposal_id_is proposal_id) (claim_for_execution sys p.id).0.proposals
          ≡ some (record p { status = executing }))
unfolding get_proposal claim_for_execution refreshed
claim_lem sys client_id proposal_id p unique h changed =
    let asked : find_by (is_proposal client_id proposal_id) sys.proposals ≡ some p =
      or_raise-eq-ok (find_by (is_proposal client_id proposal_id) sys.proposals) _ h in
    let both = find_by_sound (is_proposal client_id proposal_id) sys.proposals p asked in
    let same : p.id ≡ proposal_id =
      (==_iff p.id proposal_id).0 (&&_left (p.id == proposal_id) (p.client_id == client_id) both) in
    let of_client : p.client_id ≡ client_id =
      (==_iff p.client_id client_id).0
        (&&_right (p.id == proposal_id) (p.client_id == client_id) both) in
    let found : find_by (proposal_id_is proposal_id) sys.proposals ≡ some p =
      find_by_wider (proposal_id_is proposal_id) (is_proposal client_id proposal_id) sys.proposals p
        (λ x. &&_left (x.id == proposal_id) (x.client_id == client_id)) (unique proposal_id)
        asked in
    elim (Option-cases (find_by (claimable p.id) sys.proposals)) [
      | inl e ↦ absurd (cc (rw (count_zero (claimable p.id) sys.proposals e) at changed))
      | inr (x, e) ↦
          let found_x : find_by (proposal_id_is p.id) sys.proposals ≡ some x =
            find_by_wider (proposal_id_is p.id) (claimable p.id) sys.proposals x
              (λ y. &&_left (y.id == p.id) (is_pending_approval y.status)) (unique p.id) e in
          let found_p : find_by (proposal_id_is p.id) sys.proposals ≡ some p =
            subst (λ i. find_by (proposal_id_is i) sys.proposals ≡ some p) (sym same) found in
          let x_is_p : x ≡ p = cc in
          let awaits : claimable p.id p ≡ true =
            rw x_is_p at (find_by_sound (claimable p.id) sys.proposals x e) in
          let row = claimed_row p.id sys.proposals p found_p awaits in
          (
            found,
            same,
            of_client,
            &&_right (p.id == p.id) (is_pending_approval p.status) awaits,
            rw (row, refreshed) refl,
            subst
                (λ i.
                  find_by (proposal_id_is i) (claim_for_execution sys p.id).0.proposals
                  ≡ some (record p { status = executing }))
                same row,
          )
    ]

concluded :
    (env : Env) (ids : ℕ → ℕ) (sys sys' : System) (user : User) (client_id proposal_id : ℕ)
    (q : ChangeProposal) (o : Outcome)
    → sys'.db ≡ sys.db
    → find_by (proposal_id_is proposal_id) sys.proposals ≡ some q
    → q.id ≡ proposal_id
    → q.client_id ≡ client_id
    → is_pending_approval q.status ≡ true
    → find_by (proposal_id_is proposal_id) sys'.proposals ≡ some (record q { status = executing })
    → IsReady env.now sys.db user q
    → execute_all env ids user q.client_id q.id q.operations sys.db ≡ o
    → Nothing sys.db (conclude env.now sys' user (record q { status = executing }) o)
      ⊎ Executes env ids sys user client_id proposal_id
          (conclude env.now sys' user (record q { status = executing }) o)
unfolding Nothing
concluded env ids sys sys' user client_id proposal_id q (stopped n m) d f s k w f' ready e = inl d
concluded env ids sys sys' user client_id proposal_id q (crashed x) d f s k w f' ready e = inl d
concluded env ids sys sys' user client_id proposal_id q (finished db done) d f s k w f' ready e =
    let c = completed_proposal env.now user done (record q { status = executing }) in
    inr (record {
      q = q;
      c = c;
      found = f;
      of_client = k;
      pending = w;
      ready = ready;
      ran =
          rw (← k, ← s)
            (execute_all-audit_log env ids user q.client_id q.id q.operations sys.db db done e).0;
      returned = refl;
      stored =
          subst
            (λ i.
              find_by (proposal_id_is proposal_id)
                (update_if (proposal_id_is i) (λ _. c) sys'.proposals)
              ≡ some c)
            (sym s)
            (stored_row proposal_id sys'.proposals (record q { status = executing }) c f' s);
      is_completed = refl;
      approver = refl;
      at = refl;
    })

claimed :
    (env : Env) (ids : ℕ → ℕ) (sys : System) (user : User) (client_id proposal_id : ℕ)
    (p : ChangeProposal)
    → HasUniqueIds sys.proposals
    → get_proposal sys client_id proposal_id ≡ ok p
    → Nothing sys.db (claim_and_execute env ids sys user p)
      ⊎ Executes env ids sys user client_id proposal_id (claim_and_execute env ids sys user p)
unfolding claim_and_execute Nothing
claimed env ids sys user client_id proposal_id p unique h =
    let sys' = (claim_for_execution sys p.id).0 in
    let q : ChangeProposal = record p { status = executing } in
    let tables : sys'.db ≡ sys.db = unfold claim_for_execution in refl in
    elim (Bool-cases ((claim_for_execution sys p.id).1 == 0)) [
      | inl e ↦ rw e (inl tables)
      | inr e ↦
          let (found, same, of_client, pending, fresh, row) =
            claim_lem sys client_id proposal_id p unique h e in
          elim (Option-cases (preflight env.now sys'.db user q)) [
            | inr (m, r) ↦
                rw (e, fresh)
                  (unfold validate_and_execute in rw (r, validate_and_execute) (inl tables))
            | inl r ↦
                rw (e, fresh)
                  (unfold validate_and_execute in
                    rw (r, validate_and_execute)
                      (concluded env ids sys sys' user client_id proposal_id p
                        (execute_all env ids user p.client_id p.id p.operations sys'.db) tables
                        found same of_client pending row
                        (rw tables at ((preflight_iff env.now sys'.db user q).0 r))
                        (rw tables refl)))
          ]
    ]

-- If the ids of proposals are unique, for every call of `approve`: the tables other than the proposals are as
-- before, or the caller can see the client and is not read-only, and the stored proposal of that client with that
-- id was pending and ready against those tables, all its operations were executed in order, and the tables that
-- they left are committed together with the proposal, stored as completed by the caller with the executed operations.
pub approve_all_or_nothing :
    (env : Env) (ids : ℕ → ℕ) (sys : System) (client_id proposal_id : ℕ) (user : User)
    → HasUniqueIds sys.proposals
    → Nothing sys.db (approve env ids sys client_id proposal_id user)
      ⊎ (Executes env ids sys user client_id proposal_id
            (approve env ids sys client_id proposal_id user)
          × Admitted sys client_id user)
unfolding approve Nothing
approve_all_or_nothing env ids sys client_id proposal_id user unique =
    elim (Result-cases (approve_checks sys client_id proposal_id user)) [
      | inr (x, e) ↦ rw (e, approve) (inl refl)
      | inl (p, e) ↦
          let (admitted, found) = approve_checks_lem sys client_id proposal_id user p e in
          elim (claimed env ids sys user client_id proposal_id p unique found) [
            | inl n ↦ rw (e, approve) (inl n)
            | inr x ↦ rw (e, approve) (inr (x, admitted))
          ]
    ]
