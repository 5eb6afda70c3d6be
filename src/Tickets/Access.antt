-- ===== src/Tickets/Access.antt =====
-- What a caller learns of other users' tickets.
use in_work_marketing_os_bac.Base.{
  ℕ, ◌≤◌, Bool, true, false, List, [], ◌∷◌, String, ◌≡◌, inl, inr, refl, sym, arith, not, find_by,
  count, remove_if, Bool-cases, Option-cases,
}
use in_work_marketing_os_bac.Base.Lists.{All}
use in_work_marketing_os_bac.Base.Rows.{
  find_by-remove_if, find_by-remove_if_missing, keep_if-remove_if,
}
use in_work_marketing_os_bac.Base.Selects.{find_by-remove_if_kept}
use in_work_marketing_os_bac.Errors.{Exn, Result, ok, err, ◌>>=◌, ◌>>◌, raise_if, Result-cases}
use in_work_marketing_os_bac.Model.Tables.{User}
use in_work_marketing_os_bac.Tickets.{
  SupportTicket, SupportTicketUpdate, TicketFilter, TicketState, ticket_has_id, load_accessible,
  committed, get_ticket, update_ticket, delete_ticket, list_tickets, in_list, owner_filter,
  new_attachments,
}

-- Another user's ticket, for a caller who is no administrator.
abbrev pub is_foreign : User → SupportTicket → Bool
is_foreign user t = not (owner_filter user t)

-- The database without them.
abbrev pub own : User → TicketState → TicketState
own user st = record st { tickets = remove_if (is_foreign user) st.tickets }

-- The ticket that an update returns, and whether a delete returns.
abbrev pub answer : Result (TicketState × SupportTicket) → Result SupportTicket
answer (err e) = err e
answer (ok (st, t)) = ok t

abbrev pub done : Result TicketState → Result (Unit {0})
done (err e) = err e
done (ok st) = ok tt

load_accessible-own :
    (tickets : List SupportTicket) (user : User) (i : ℕ)
    → count (ticket_has_id i) tickets ≤ 1
    → load_accessible tickets user i ≡ load_accessible (remove_if (is_foreign user) tickets) user i
unfolding load_accessible
load_accessible-own tickets user i one = elim (Option-cases (find_by (ticket_has_id i) tickets)) [
  | inl e ↦
      rw
        (
          e,
          load_accessible,
          find_by-remove_if_missing (ticket_has_id i) (is_foreign user) tickets e,
        )
        refl
  | inr (t, e) ↦ elim (Bool-cases (owner_filter user t)) [
    | inl mine ↦
        rw
          (
            e,
            load_accessible,
            find_by-remove_if_kept (ticket_has_id i) (is_foreign user) tickets t e (ground arith),
          )
          refl
    | inr theirs ↦
        rw
          (
            e,
            load_accessible,
            find_by-remove_if (ticket_has_id i) (is_foreign user) tickets t e (ground arith) one,
            theirs,
          )
          refl
  ]
]

hidden_row :
    (user : User) (f : TicketFilter) (t : SupportTicket)
    → owner_filter user t ≡ false
    → in_list user f t ≡ false
hidden_row user f t h = rw h refl

every_hidden :
    (user : User) (f : TicketFilter) (tickets : List SupportTicket)
    → All (λ t. is_foreign user t ≡ true → in_list user f t ≡ false) tickets
every_hidden user f [] = tt
every_hidden user f (t ∷ ts) = (λ h. hidden_row user f t (ground arith), every_hidden user f ts)

-- The rest of a call, after its ticket is loaded, answers alike whatever state it would commit.
update_tail :
    (b fails : Bool) (e : Exn) (m : String) (a : Result (List ℕ)) (s s' : List ℕ → TicketState)
    (x : List ℕ → SupportTicket)
    → answer (raise_if b e >> (a >>= λ ids. committed fails m (s ids, x ids)))
      ≡ answer (raise_if b e >> (a >>= λ ids. committed fails m (s' ids, x ids)))
update_tail true fails e m a s s' x = refl
update_tail false fails e m (err r) s s' x = refl
update_tail false true e m (ok ids) s s' x = refl
update_tail false false e m (ok ids) s s' x = refl

delete_tail :
    (b fails : Bool) (e : Exn) (m : String) (s s' : TicketState)
    → done (raise_if b e >> committed fails m s) ≡ done (raise_if b e >> committed fails m s')
delete_tail true fails e m s s' = refl
delete_tail false true e m s s' = refl
delete_tail false false e m s s' = refl

module _ (commit_fails : Bool) (st : TicketState) (user : User) (i : ℕ)
    (one : count (ticket_has_id i) st.tickets ≤ 1) where
  update_ticket-own :
      (d : SupportTicketUpdate)
      → answer (update_ticket commit_fails st user i d)
        ≡ answer (update_ticket commit_fails (own user st) user i d)
  unfolding update_ticket
  update_ticket-own d =
      elim (Result-cases (load_accessible (remove_if (is_foreign user) st.tickets) user i)) [
        | inr (e, h) ↦ rw (load_accessible-own st.tickets user i one, update_ticket, h) refl
        | inl (t, h) ↦
            rw (load_accessible-own st.tickets user i one, update_ticket, h)
              (update_tail _ commit_fails _ _
                (new_attachments st.uploads user d.attachment_upload_ids t.attachments) _ _ _)
      ]

  delete_ticket-own :
      done (delete_ticket commit_fails st user i)
      ≡ done (delete_ticket commit_fails (own user st) user i)
  unfolding delete_ticket
  delete_ticket-own =
      elim (Result-cases (load_accessible (remove_if (is_foreign user) st.tickets) user i)) [
        | inr (e, h) ↦ rw (load_accessible-own st.tickets user i one, delete_ticket, h) refl
        | inl (t, h) ↦
            rw (load_accessible-own st.tickets user i one, delete_ticket, h)
              (delete_tail _ commit_fails _ _ _ _)
      ]

-- With unique ids, for every caller: what `get_ticket`, `update_ticket`, `delete_ticket` and `list_tickets` answer,
-- errors included, is what they answer on the database without the tickets of other users, where the caller is
-- no administrator, and on the whole database otherwise.
pub answers-own :
    (commit_fails : Bool) (st : TicketState) (user : User) (i : ℕ) (d : SupportTicketUpdate)
    (f : TicketFilter)
    → count (ticket_has_id i) st.tickets ≤ 1
    → (get_ticket st user i ≡ get_ticket (own user st) user i)
      × (answer (update_ticket commit_fails st user i d)
          ≡ answer (update_ticket commit_fails (own user st) user i d))
      × (done (delete_ticket commit_fails st user i)
          ≡ done (delete_ticket commit_fails (own user st) user i))
      × (list_tickets st user f ≡ list_tickets (own user st) user f)
unfolding get_ticket list_tickets
answers-own fails st user i d f one = (
  load_accessible-own st.tickets user i one,
  update_ticket-own fails st user i one d,
  delete_ticket-own fails st user i one,
  sym (
      keep_if-remove_if (in_list user f) (is_foreign user) st.tickets
        (every_hidden user f st.tickets)),
)
