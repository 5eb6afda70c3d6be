-- ===== src/Model/Proposals.antt =====
-- app/models/proposal.py: a change proposal and its operations. A payload is the dict that a
-- `stage_*` call stores, one constructor for each shape; a snapshot is its `updated_at`.
use in_work_marketing_os_bac.Base.{ℕ, String, Bool, Option, List}
use in_work_marketing_os_bac.Errors.{Message}
use in_work_marketing_os_bac.Model.Enums.{
  ClientCapability, ProposalStatus, ProposedOperationStatus, ProposedOperationType,
}
use in_work_marketing_os_bac.Model.Tables.{Text, Change, Db}
use in_work_marketing_os_bac.Access.{ClientUpdate}
use in_work_marketing_os_bac.Plan.Columns.{PlanTaskCreate, PlanTaskUpdate}
use in_work_marketing_os_bac.Accounts.{UserUpdate, BrandUpdate}

-- The stored payload of an operation as the request that it was dumped from. The JSON text is not modelled: not
-- its dump (`model_dump(mode="json", exclude_unset=True)`), nor its parsing by the schema when it is executed. A
-- column that the request leaves unset is `none` in an update.
pub data Payload : Type 0 where
  -- `{}`
  empty : Payload
  -- `{"data", "created_by"}`
  new_task : PlanTaskCreate → ℕ → Payload
  -- `{"source_task_id", "created_by"}`
  task_copy : ℕ → ℕ → Payload
  -- `{"data"}` of a task, a client, a brand, a user
  task_data : PlanTaskUpdate → Payload
  client_data : ClientUpdate → Payload
  brand_data : BrandUpdate → Payload
  user_data : UserUpdate → Payload
  -- `{"task_id", "data", "user_id"}`
  task_note : ℕ → Text → ℕ → Payload
  -- `{"user_id", "capabilities", "assigned_by"}`
  assignment : ℕ → Option (List ClientCapability) → ℕ → Payload
  -- `{"user_id", "capabilities"}`
  capability_list : ℕ → List ClientCapability → Payload
  -- `{"user_id"}`
  assignee : ℕ → Payload

pub record ProposedOperation : Type 0 where
  pub seq : ℕ
  pub operation_type : ProposedOperationType
  pub entity_type : String
  pub entity_id : Option ℕ
  pub entity_label : Option Text
  pub field_changes : Option (List Change)
  pub payload : Payload
  pub base_snapshot : Option ℕ
  pub required_capability : Option ClientCapability
  pub requires_admin : Bool
  pub status : ProposedOperationStatus
  pub error : Option Message

pub record ChangeProposal : Type 0 where
  pub id : ℕ
  pub client_id : ℕ
  pub created_by_user_id : ℕ
  pub status : ProposalStatus
  pub raw_request : Text
  pub summary : Option Text
  pub error : Option Message
  pub created_at : ℕ
  pub expires_at : Option ℕ
  pub approved_by_user_id : Option ℕ
  pub approved_at : Option ℕ
  pub executed_at : Option ℕ
  pub operations : List ProposedOperation

-- What is committed: the tables, and the proposals.
pub record System : Type 0 where
  pub db : Db
  pub proposals : List ChangeProposal
