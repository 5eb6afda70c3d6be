-- ===== src/Model/Enums.antt =====
-- app/models/enums.py: the enums that the modelled services branch on. `value` is the stored
-- string of a member, and the equality of two members is that of their places in the class.
use in_work_marketing_os_bac.Base.{
  ℕ, String, Bool, true, false, Option, none, some, List, [], ◌∷◌, ◌≡◌, refl, str_eq, ◌==◌,
  if◌then◌else◌,
}

pub data UserRole : Type 0 where
  admin manager user : UserRole

abbrev pub is_admin : UserRole → Bool
is_admin admin = true
is_admin _ = false

abbrev pub is_manager : UserRole → Bool
is_manager manager = true
is_manager _ = false

abbrev pub is_read_only : UserRole → Bool
is_read_only user = true
is_read_only _ = false

pub data ClientCapability : Type 0 where
  manage_integrations review_results review_creatives manage_calendar manage_compliance
        manage_campaigns admin :
      ClientCapability

-- `[c for c in ClientCapability]`
abbrev pub capability_members : List ClientCapability
capability_members =
    manage_integrations ∷ review_results ∷ review_creatives ∷ manage_calendar ∷ manage_compliance
    ∷ manage_campaigns ∷ ClientCapability.admin ∷ []

unfoldable pub capability_value : ClientCapability → String
capability_value manage_integrations = "manage_integrations"
capability_value review_results = "review_results"
capability_value review_creatives = "review_creatives"
capability_value manage_calendar = "manage_calendar"
capability_value manage_compliance = "manage_compliance"
capability_value manage_campaigns = "manage_campaigns"
capability_value ClientCapability.admin = "admin"

-- `ClientCapability(value)`; `none` is its `ValueError`
unfoldable pub capability_of : String → Option ClientCapability
capability_of s =
    if str_eq s "manage_integrations"
    then some manage_integrations
    else if str_eq s "review_results"
    then some review_results
    else if str_eq s "review_creatives"
    then some review_creatives
    else if str_eq s "manage_calendar"
    then some manage_calendar
    else if str_eq s "manage_compliance"
    then some manage_compliance
    else if str_eq s "manage_campaigns"
    then some manage_campaigns
    else if str_eq s "admin"
    then some ClientCapability.admin
    else none

pub capability_of-value : (c : ClientCapability) → capability_of (capability_value c) ≡ some c
unfolding capability_of capability_value
capability_of-value manage_integrations = refl
capability_of-value _ = refl

abbrev pub capability_index : ClientCapability → ℕ
capability_index manage_integrations = 0
capability_index review_results = 1
capability_index review_creatives = 2
capability_index manage_calendar = 3
capability_index manage_compliance = 4
capability_index manage_campaigns = 5
capability_index ClientCapability.admin = 6

abbrev pub capability_eq : ClientCapability → ClientCapability → Bool
capability_eq a b = capability_index a == capability_index b

pub data TaskStatus : Type 0 where
  todo in_progress blocked done : TaskStatus

abbrev pub task_status_index : TaskStatus → ℕ
task_status_index todo = 0
task_status_index in_progress = 1
task_status_index blocked = 2
task_status_index done = 3

pub data TaskPriority : Type 0 where
  low medium high urgent : TaskPriority

abbrev pub task_priority_index : TaskPriority → ℕ
task_priority_index low = 0
task_priority_index medium = 1
task_priority_index high = 2
task_priority_index urgent = 3

pub data TaskCategory : Type 0 where
  strategy creative ads content analytics compliance admin : TaskCategory

abbrev pub task_category_index : TaskCategory → ℕ
task_category_index strategy = 0
task_category_index creative = 1
task_category_index ads = 2
task_category_index content = 3
task_category_index analytics = 4
task_category_index compliance = 5
task_category_index TaskCategory.admin = 6

pub data IntelJobType : Type 0 where
  full_build incremental : IntelJobType

pub data IntelJobStatus : Type 0 where
  queued running succeeded failed dead : IntelJobStatus

abbrev pub is_queued : IntelJobStatus → Bool
is_queued queued = true
is_queued _ = false

abbrev pub is_running : IntelJobStatus → Bool
is_running running = true
is_running _ = false

pub data ProposalStatus : Type 0 where
  draft pending_approval executing completed failed cancelled expired : ProposalStatus

abbrev pub is_pending_approval : ProposalStatus → Bool
is_pending_approval pending_approval = true
is_pending_approval _ = false

pub data ProposedOperationStatus : Type 0 where
  pending executed failed skipped : ProposedOperationStatus

pub data ProposedOperationType : Type 0 where
  create update delete assign unassign : ProposedOperationType

pub data TicketCategory : Type 0 where
  bug feature_request billing account technical_support feedback other : TicketCategory

pub data TicketPriority : Type 0 where
  low medium high urgent : TicketPriority

pub data TicketStatus : Type 0 where
  open_status in_progress resolved closed : TicketStatus
