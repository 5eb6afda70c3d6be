-- ===== src/Tickets/Status.antt =====
-- What users who are no administrators can do to the status of a ticket.
use mathlib.Core.Path.{subst}
use in_work_marketing_os_bac.Base.{
  ℕ, Bool, true, false, Option, none, some, List, [], ◌∷◌, ◌++◌, ◌≡◌, inl, inr, refl, sym, ap, ◌∙◌,
  arith, not, ◌&&◌, ==_iff, String, find_by, update_if, remove_if, Bool-cases, is_some,
  if◌then◌else◌,
}
use in_work_marketing_os_bac.Base.Rows.{find_by-append, find_by_sound}
use in_work_marketing_os_bac.Base.Selects.{find_by-remove_if_kept, find_by-update_any}
use in_work_marketing_os_bac.Errors.{
  text, not_found, ok, or_raise, >>=-eq-ok, raise_if-eq-ok, or_raise-eq-ok,
}
use in_work_marketing_os_bac.Model.Enums.{is_admin, TicketStatus}
use in_work_marketing_os_bac.Model.Tables.{Text, User}
use in_work_marketing_os_bac.Tickets.{
  SupportTicket, SupportTicketCreate, SupportTicketUpdate, TicketState, is_open, ticket_has_id,
  load_accessible, committed, create_ticket, new_ticket, update_ticket, patched_ticket,
  delete_ticket, resolve_attachments, unique_ticket_number, new_attachments,
}

-- A call that returns, made by a user who is no administrator. A new ticket has a fresh UUID.
pub data Step (s : TicketState) : TicketState → Type 0 where
  creates :
      (fails : Bool) (user : User) (d : SupportTicketCreate) (numbers : List Text) (new_id : ℕ)
      {t : TicketState} {row : SupportTicket}
      → is_admin user.role ≡ false
      → find_by (ticket_has_id new_id) s.tickets ≡ none
      → create_ticket fails s user d numbers new_id ≡ ok (t, row)
      → Step s t
  updates :
      (fails : Bool) (user : User) (i : ℕ) (d : SupportTicketUpdate) {t : TicketState}
      {row : SupportTicket}
      → is_admin user.role ≡ false
      → update_ticket fails s user i d ≡ ok (t, row)
      → Step s t
  deletes :
      (fails : Bool) (user : User) (i : ℕ) {t : TicketState}
      → is_admin user.role ≡ false
      → delete_ticket fails s user i ≡ ok t
      → Step s t

pub data Reach (s : TicketState) : TicketState → Type 0 where
  here : Reach s s
  next : {t u : TicketState} → Reach s t → Step t u → Reach s u

-- A ticket is stored with a status that is not `open`.
abbrev pub IsWorkedOn : ℕ → TicketStatus → TicketState → Type 0
IsWorkedOn i status s =
    (t : SupportTicket) × (find_by (ticket_has_id i) s.tickets ≡ some t) × (t.status ≡ status)

committed-eq-ok {ℓ} :
    {A : Type ℓ} (fails : Bool) (m : String) (a b : A) → committed fails m a ≡ ok b → a ≡ b
committed-eq-ok true m a b h = cc
committed-eq-ok false m a b h = cc

load_accessible-eq-ok :
    (tickets : List SupportTicket) (user : User) (i : ℕ) (t : SupportTicket)
    → load_accessible tickets user i ≡ ok t
    → find_by (ticket_has_id i) tickets ≡ some t
unfolding load_accessible
load_accessible-eq-ok tickets user i t h =
    let (v, found, rest) =
      >>=-eq-ok
        (or_raise (find_by (ticket_has_id i) tickets)
          (not_found (text "Support ticket not found.")))
        _ h in
    let (visible, last) = raise_if-eq-ok _ _ (ok v) rest in
    or_raise-eq-ok (find_by (ticket_has_id i) tickets)
      (not_found (text "Support ticket not found.")) (cc (found, last))

update_ticket-eq-ok :
    (fails : Bool) (s t : TicketState) (user : User) (i : ℕ) (d : SupportTicketUpdate)
    (row : SupportTicket)
    → is_admin user.role ≡ false
    → update_ticket fails s user i d ≡ ok (t, row)
    → (v : SupportTicket) × (attachments : List ℕ) × (d.status ≡ none)
      × (record s {
        tickets = update_if (ticket_has_id v.id) (patched_ticket user d attachments) s.tickets;
      }
          ≡ t)
unfolding update_ticket
update_ticket-eq-ok fails s t user i d row plain h =
    let (v, loaded, rest) = >>=-eq-ok (load_accessible s.tickets user i) _ h in
    let (allowed, rest2) = raise_if-eq-ok (is_some d.status && not (is_admin user.role)) _ _ rest in
    let (a, resolved, rest3) =
      >>=-eq-ok (new_attachments s.uploads user d.attachment_upload_ids v.attachments) _ rest2 in
    let same : ◌≡◌ {A = TicketState × SupportTicket}
        (
          record s { tickets = update_if (ticket_has_id v.id) (patched_ticket user d a) s.tickets },
          patched_ticket user d a v,
        )
        (t, row) =
      committed-eq-ok fails "Could not update the ticket." _ (t, row) rest3 in
    (
      v,
      a,
      no_status d.status (rw plain at allowed),
      ap (λ (p : TicketState × SupportTicket). p.0) same,
    )
  where
    no_status : (o : Option TicketStatus) → (is_some o && true) ≡ false → o ≡ none
    no_status none e = refl
    no_status (some x) e = cc

delete_ticket-eq-ok :
    (fails : Bool) (s t : TicketState) (user : User) (i : ℕ)
    → is_admin user.role ≡ false
    → delete_ticket fails s user i ≡ ok t
    → (v : SupportTicket) × (find_by (ticket_has_id i) s.tickets ≡ some v)
      × (is_open v.status ≡ true)
      × (record s { tickets = remove_if (ticket_has_id v.id) s.tickets } ≡ t)
unfolding delete_ticket
delete_ticket-eq-ok fails s t user i plain h =
    let (v, loaded, rest) = >>=-eq-ok (load_accessible s.tickets user i) _ h in
    let (allowed, rest2) =
      raise_if-eq-ok (not (is_admin user.role) && not (is_open v.status)) _ _ rest in
    (
      v,
      load_accessible-eq-ok s.tickets user i v loaded,
      ground arith,
      committed-eq-ok fails "Could not delete the ticket." _ t rest2,
    )

create_ticket-eq-ok :
    (fails : Bool) (s t : TicketState) (user : User) (d : SupportTicketCreate) (numbers : List Text)
    (new_id : ℕ) (row : SupportTicket)
    → create_ticket fails s user d numbers new_id ≡ ok (t, row)
    → (r : SupportTicket) × (record s { tickets = s.tickets ++ r ∷ [] } ≡ t)
unfolding create_ticket
create_ticket-eq-ok fails s t user d numbers new_id row h =
    let (a, resolved, rest) =
      >>=-eq-ok (resolve_attachments s.uploads user d.attachment_upload_ids) _ h in
    let (n, fresh, rest2) = >>=-eq-ok (unique_ticket_number s.tickets numbers) _ rest in
    let same : ◌≡◌ {A = TicketState × SupportTicket}
        (
          record s { tickets = s.tickets ++ new_ticket user d a n new_id ∷ [] },
          new_ticket user d a n new_id,
        )
        (t, row) =
      committed-eq-ok fails "Could not create the ticket — please retry." _ (t, row) rest2 in
    (new_ticket user d a n new_id, ap (λ (p : TicketState × SupportTicket). p.0) same)

module _ (i : ℕ) (status : TicketStatus) where
  patched-IsWorkedOn :
      (s : TicketState) (k : ℕ) (user : User) (d : SupportTicketUpdate) (a : List ℕ)
      → d.status ≡ none
      → IsWorkedOn i status s
      → IsWorkedOn i status
          (record s { tickets = update_if (ticket_has_id k) (patched_ticket user d a) s.tickets })
  patched-IsWorkedOn s k user d a unset (t, found, same) = (
    if ticket_has_id k t then patched_ticket user d a t else t,
    find_by-update_any (ticket_has_id i) (ticket_has_id k) (patched_ticket user d a) s.tickets t
        (λ x. refl) found,
    elim (Bool-cases (ticket_has_id k t)) [ inl e ↦ rw (e, unset) same | inr e ↦ rw e same ],
  )

  removed-IsWorkedOn :
      (s : TicketState) (j : ℕ) (v : SupportTicket)
      → is_open status ≡ false
      → find_by (ticket_has_id j) s.tickets ≡ some v
      → is_open v.status ≡ true
      → IsWorkedOn i status s
      → IsWorkedOn i status (record s { tickets = remove_if (ticket_has_id v.id) s.tickets })
  removed-IsWorkedOn s j v past_open it_is open_one (t, found, same) = (
    t,
    find_by-remove_if_kept (ticket_has_id i) (ticket_has_id v.id) s.tickets t found
        (elim (Bool-cases (ticket_has_id v.id t)) [
          | inr e ↦ e
          | inl e ↦
              let own_id : t.id ≡ i =
                (==_iff t.id i).0 (find_by_sound (ticket_has_id i) s.tickets t found) in
              let v_id : v.id ≡ j =
                (==_iff v.id j).0 (find_by_sound (ticket_has_id j) s.tickets v it_is) in
              let met : t.id ≡ v.id = (==_iff t.id v.id).0 e in
              let one_id : j ≡ i = sym v_id ∙ sym met ∙ own_id in
              let v_found : find_by (ticket_has_id i) s.tickets ≡ some v = rw one_id at it_is in
              let one_row : v ≡ t = cc (v_found, found) in
              let still_open : is_open status ≡ true = rw (← same, ← one_row) open_one in
              absurd (cc (past_open, still_open))
        ]),
    same,
  )

  added-IsWorkedOn :
      (s : TicketState) (r : SupportTicket)
      → IsWorkedOn i status s
      → IsWorkedOn i status (record s { tickets = s.tickets ++ r ∷ [] })
  added-IsWorkedOn s r (t, found, same) =
      (t, rw (find_by-append (ticket_has_id i) s.tickets (r ∷ []), found) refl, same)

  Step-IsWorkedOn :
      {s t : TicketState}
      → is_open status ≡ false
      → Step s t
      → IsWorkedOn i status s
      → IsWorkedOn i status t
  Step-IsWorkedOn {s} worked (creates fails user d numbers new_id {t} {row} plain fresh h) w =
      let (r, same) = create_ticket-eq-ok fails s t user d numbers new_id row h in
      subst (IsWorkedOn i status) same (added-IsWorkedOn s r w)
  Step-IsWorkedOn {s} worked (updates fails user j d {t} {row} plain h) w =
      let (v, a, unset, same) = update_ticket-eq-ok fails s t user j d row plain h in
      subst (IsWorkedOn i status) same (patched-IsWorkedOn s v.id user d a unset w)
  Step-IsWorkedOn {s} worked (deletes fails user j {t} plain h) w =
      let (v, found, open_one, same) = delete_ticket-eq-ok fails s t user j plain h in
      subst (IsWorkedOn i status) same (removed-IsWorkedOn s j v worked found open_one w)

-- Once a ticket is past `open`, no sequence of calls by users who are no administrators deletes it or
-- changes its status.
pub Reach-IsWorkedOn :
    (i : ℕ) (status : TicketStatus) {s t : TicketState}
    → is_open status ≡ false
    → Reach s t
    → IsWorkedOn i status s
    → IsWorkedOn i status t
Reach-IsWorkedOn i status worked here w = w
Reach-IsWorkedOn i status worked (next before step) w =
    Step-IsWorkedOn i status worked step (Reach-IsWorkedOn i status worked before w)
