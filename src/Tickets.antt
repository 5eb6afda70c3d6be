-- ===== src/Tickets.antt =====
-- Support tickets: app/services/support_ticket_service.py, app/repositories/support_ticket_repository.py,
-- app/models/support_ticket.py. A call that raises leaves the committed tables as they were.
use mathlib.Core.Option
use in_work_marketing_os_bac.Base.{
  ℕ, Bool, true, false, Option, none, some, List, [], ◌∷◌, ◌++◌, ◌==◌, ◌&&◌, ◌||◌, not, String,
  is_some, or_else, opt_eq, map, if◌then◌else◌, find_by, update_if, remove_if, keep_if, any,
}
use in_work_marketing_os_bac.Errors.{
  text, forbidden, not_found, conflict, Result, ok, err, ◌>>=◌, ◌>>◌, raise_if, or_raise,
}
use in_work_marketing_os_bac.Model.Enums.{is_admin, TicketCategory, TicketPriority, TicketStatus}
use in_work_marketing_os_bac.Model.Tables.{Text, User}
use in_work_marketing_os_bac.Audit.{text_eq}
use in_work_marketing_os_bac.Uploads.{Upload, load_owned, is_empty}
pub mod Access
pub mod Status

abbrev pub is_open : TicketStatus → Bool
is_open TicketStatus.open_status = true
is_open _ = false

-- equality of members of an enum
abbrev status_code : TicketStatus → ℕ
status_code TicketStatus.open_status = 0
status_code TicketStatus.in_progress = 1
status_code TicketStatus.resolved = 2
status_code TicketStatus.closed = 3

abbrev category_code : TicketCategory → ℕ
category_code TicketCategory.bug = 0
category_code TicketCategory.feature_request = 1
category_code TicketCategory.billing = 2
category_code TicketCategory.account = 3
category_code TicketCategory.technical_support = 4
category_code TicketCategory.feedback = 5
category_code TicketCategory.other = 6

abbrev priority_code : TicketPriority → ℕ
priority_code TicketPriority.low = 0
priority_code TicketPriority.medium = 1
priority_code TicketPriority.high = 2
priority_code TicketPriority.urgent = 3

pub record TicketReply : Type 0 where
  pub author_id : ℕ
  pub author_role : String
  pub message : Text

pub record SupportTicket : Type 0 where
  pub id : ℕ
  pub ticket_number : Text
  pub subject : Text
  pub category : TicketCategory
  pub description : Text
  pub priority : TicketPriority
  pub status : TicketStatus
  pub created_by : Option ℕ
  -- the `upload_id` of each attachment
  pub attachments : List ℕ
  pub replies : List TicketReply

pub record SupportTicketCreate : Type 0 where
  pub subject : Text
  pub category : TicketCategory
  pub description : Text
  pub priority : TicketPriority
  pub attachment_upload_ids : List ℕ

-- A field that the body sets, not to null, holds `some`.
pub record SupportTicketUpdate : Type 0 where
  pub subject : Option Text
  pub category : Option TicketCategory
  pub description : Option Text
  pub priority : Option TicketPriority
  pub status : Option TicketStatus
  pub reply : Option Text
  pub attachment_upload_ids : Option (List ℕ)

pub record TicketState : Type 0 where
  pub tickets : List SupportTicket
  pub uploads : List Upload

abbrev pub ticket_has_id : ℕ → SupportTicket → Bool
ticket_has_id i t = t.id == i

abbrev pub has_number : Text → SupportTicket → Bool
has_number n t = text_eq t.ticket_number n

-- `_resolve_attachments`; `UploadService.get` raises as `_load_owned` does
unfoldable pub resolve_attachments : List Upload → User → List ℕ → Result (List ℕ)
resolve_attachments uploads user [] = ok []
resolve_attachments uploads user (upload_id ∷ upload_ids) = do
  load_owned uploads user upload_id >>= λ _. ok tt
  rest ← resolve_attachments uploads user upload_ids
  ok (upload_id ∷ rest)

-- `_unique_ticket_number`, over the `_TICKET_NUMBER_ATTEMPTS` numbers that it may generate
unfoldable pub unique_ticket_number : List SupportTicket → List Text → Result Text
unique_ticket_number tickets [] =
    err (conflict (text "Could not generate a unique ticket number — please retry."))
unique_ticket_number tickets (candidate ∷ more) =
    if is_some (find_by (has_number candidate) tickets)
    then unique_ticket_number tickets more
    else ok candidate

-- `_load_accessible`
unfoldable pub load_accessible : List SupportTicket → User → ℕ → Result SupportTicket
load_accessible tickets user ticket_id = do
  ticket ←
      or_raise (find_by (ticket_has_id ticket_id) tickets)
        (not_found (text "Support ticket not found."))
  raise_if (not (is_admin user.role || opt_eq ticket.created_by (some user.id)))
      (not_found (text "Support ticket not found."))
  ok ticket

-- The commit, which may break a constraint, and what it raises then.
abbrev pub committed {ℓ} : {A : Type ℓ} → Bool → String → A → Result A
committed true message a = err (conflict (text message))
committed false message a = ok a

abbrev pub new_ticket : User → SupportTicketCreate → List ℕ → Text → ℕ → SupportTicket
new_ticket user d attachments ticket_number new_id = record {
  id = new_id;
  ticket_number = ticket_number;
  subject = d.subject;
  category = d.category;
  description = d.description;
  priority = d.priority;
  status = TicketStatus.open_status;
  created_by = some user.id;
  attachments = attachments;
  replies = [];
}

-- `create_ticket` to its commit; `numbers` are the random ticket numbers, `new_id` the UUID
unfoldable pub create_ticket :
    Bool
    → TicketState
    → User
    → SupportTicketCreate
    → List Text
    → ℕ
    → Result (TicketState × SupportTicket)
create_ticket commit_fails st user d numbers new_id = do
  attachments ← resolve_attachments st.uploads user d.attachment_upload_ids
  ticket_number ← unique_ticket_number st.tickets numbers
  let ticket = new_ticket user d attachments ticket_number new_id
  committed commit_fails "Could not create the ticket — please retry."
      (record st { tickets = st.tickets ++ ticket ∷ [] }, ticket)

-- `get_ticket`, less the download links
unfoldable pub get_ticket : TicketState → User → ℕ → Result SupportTicket
get_ticket st user ticket_id = load_accessible st.tickets user ticket_id

abbrev pub author_role : User → String
author_role user = if is_admin user.role then "admin" else "user"

abbrev replied : User → Option Text → List TicketReply → List TicketReply
replied user none replies = replies
replied user (some message) replies =
    if is_empty message
    then replies
    else replies
      ++ record { author_id = user.id; author_role = author_role user; message = message } ∷ []

abbrev pub patched_ticket : User → SupportTicketUpdate → List ℕ → SupportTicket → SupportTicket
patched_ticket user d attachments t = record t {
  subject = or_else d.subject t.subject;
  category = or_else d.category t.category;
  description = or_else d.description t.description;
  priority = or_else d.priority t.priority;
  status = or_else d.status t.status;
  attachments = attachments;
  replies = replied user d.reply t.replies;
}

abbrev pub new_attachments : List Upload → User → Option (List ℕ) → List ℕ → Result (List ℕ)
new_attachments uploads user none old = ok old
new_attachments uploads user (some upload_ids) old = resolve_attachments uploads user upload_ids

-- `update_ticket`
unfoldable pub update_ticket :
    Bool → TicketState → User → ℕ → SupportTicketUpdate → Result (TicketState × SupportTicket)
update_ticket commit_fails st user ticket_id d = do
  ticket ← load_accessible st.tickets user ticket_id
  raise_if (is_some d.status && not (is_admin user.role))
      (forbidden (text "Only an admin can change a ticket's status."))
  attachments ← new_attachments st.uploads user d.attachment_upload_ids ticket.attachments
  committed commit_fails "Could not update the ticket." (
    record st {
      tickets = update_if (ticket_has_id ticket.id) (patched_ticket user d attachments) st.tickets;
    },
    patched_ticket user d attachments ticket,
  )

-- `delete_ticket`
unfoldable pub delete_ticket : Bool → TicketState → User → ℕ → Result TicketState
delete_ticket commit_fails st user ticket_id = do
  ticket ← load_accessible st.tickets user ticket_id
  raise_if (not (is_admin user.role) && not (is_open ticket.status))
      (forbidden (text "This ticket is already being worked on — only an admin can delete it now."))
  committed commit_fails "Could not delete the ticket."
      (record st { tickets = remove_if (ticket_has_id ticket.id) st.tickets })

-- The filters of `list_tickets`. The search stands by the test that its LIKE makes.
pub record TicketFilter : Type 0 where
  pub search : Option (SupportTicket → Bool)
  pub status : Option TicketStatus
  pub category : Option TicketCategory
  pub priority : Option TicketPriority

abbrev pub passes : Option ℕ → ℕ → Bool
passes none code = true
passes (some wanted) code = wanted == code

abbrev pub searched : Option (SupportTicket → Bool) → SupportTicket → Bool
searched none t = true
searched (some like) t = like t

abbrev pub owner_filter : User → SupportTicket → Bool
owner_filter user t = is_admin user.role || opt_eq t.created_by (some user.id)

abbrev pub in_list : User → TicketFilter → SupportTicket → Bool
in_list user f t =
    owner_filter user t
    && passes (Option.map status_code f.status) (status_code t.status)
    && passes (Option.map category_code f.category) (category_code t.category)
    && passes (Option.map priority_code f.priority) (priority_code t.priority)
    && searched f.search t

-- The rows that `list_tickets` pages over.
unfoldable pub list_tickets : TicketState → User → TicketFilter → List SupportTicket
list_tickets st user f = keep_if (in_list user f) st.tickets
