-- ===== src/Examples/Support.antt =====
-- A ticket of one user that another user asks for, and one that is being worked on.
use in_work_marketing_os_bac.Base.{
  ◌≤◌, false, none, some, [], ◌∷◌, ◌≡◌, refl, arith, count, find_by, update_if,
}
use in_work_marketing_os_bac.Errors.{ok}
use in_work_marketing_os_bac.Model.Enums.{TicketCategory, TicketPriority, TicketStatus}
use in_work_marketing_os_bac.Tickets.{
  SupportTicket, SupportTicketUpdate, TicketFilter, TicketState, ticket_has_id, get_ticket,
  update_ticket, delete_ticket, list_tickets, load_accessible, patched_ticket,
}
use in_work_marketing_os_bac.Tickets.Access.{own, answer, done, answers-own}
use in_work_marketing_os_bac.Tickets.Status.{here, next, updates, IsWorkedOn, Reach-IsWorkedOn}
use in_work_marketing_os_bac.Examples.Data.{plain_user, stranger}

abbrev ticket : SupportTicket
ticket = record {
  id = 40;
  ticket_number = 1 ∷ [];
  subject = 83 ∷ [];
  category = TicketCategory.bug;
  description = 68 ∷ [];
  priority = TicketPriority.high;
  status = TicketStatus.in_progress;
  created_by = some 12;
  attachments = [];
  replies = [];
}

abbrev desk : TicketState
desk = record { tickets = ticket ∷ []; uploads = [] }

abbrev edit : SupportTicketUpdate
edit = record {
  subject = some (90 ∷ []);
  category = none;
  description = none;
  priority = none;
  status = none;
  reply = none;
  attachment_upload_ids = none;
}

abbrev no_filter : TicketFilter
no_filter = record { search = none; status = none; category = none; priority = none }

one_ticket : count (ticket_has_id 40) desk.tickets ≤ 1
unfolding count
one_ticket = omega arith

answers-own_example :
    (get_ticket desk stranger 40 ≡ get_ticket (own stranger desk) stranger 40)
    × (answer (update_ticket false desk stranger 40 edit)
        ≡ answer (update_ticket false (own stranger desk) stranger 40 edit))
    × (done (delete_ticket false desk stranger 40)
        ≡ done (delete_ticket false (own stranger desk) stranger 40))
    × (list_tickets desk stranger no_filter ≡ list_tickets (own stranger desk) stranger no_filter)
answers-own_example = answers-own false desk stranger 40 edit no_filter one_ticket

abbrev edited : TicketState
edited = record desk { tickets = patched_ticket plain_user edit [] ticket ∷ [] }

edits :
    update_ticket false desk plain_user 40 edit
    ≡ ok (edited, patched_ticket plain_user edit [] ticket)
unfolding update_ticket load_accessible find_by update_if
edits = refl

in_work : IsWorkedOn 40 TicketStatus.in_progress desk
unfolding find_by
in_work = (ticket, refl, refl)

Reach-IsWorkedOn_example : IsWorkedOn 40 TicketStatus.in_progress edited
Reach-IsWorkedOn_example =
    Reach-IsWorkedOn 40 TicketStatus.in_progress refl
      (next here (updates false plain_user 40 edit refl edits)) in_work
