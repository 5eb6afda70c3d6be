-- ===== src/Model/Tables.antt =====
-- The rows of app/models/{client,user,assignment,plan,intel_job,proposal,audit}.py, less the
-- columns that no modelled service reads or writes, and the session's view of the tables.
-- UUIDs, dates, times and timestamps are numbers; text that users type is a list of code points.
use in_work_marketing_os_bac.Base.{ℕ, String, Bool, Option, List}
use in_work_marketing_os_bac.Errors.{Message}
use in_work_marketing_os_bac.Model.Enums.{
  UserRole, TaskStatus, TaskPriority, TaskCategory, IntelJobType, IntelJobStatus,
  ProposedOperationType,
}

abbrev pub Text : Type 0
Text = List ℕ

-- A JSON-safe scalar of an audit diff; an enum stands by its stored string.
pub data Value : Type 0 where
  null : Value
  typed : Text → Value
  member : String → Value
  number : ℕ → Value
  flag : Bool → Value
  listed : List Text → Value

-- `{field: {"before": …, "after": …}}`
pub record Change : Type 0 where
  pub field : String
  pub before : Value
  pub after : Value

-- `ClientService._UPDATE_FIELDS`, which `getattr` and `setattr` take
pub data ClientField : Type 0 where
  name business_type industry website location language timezone markets status : ClientField

-- `_BRAND_SCALARS` of app/services/onboarding_service.py
pub data BrandField : Type 0 where
  about_brand brand_voice brand_extracted color_guidelines logo_url : BrandField

pub record Client : Type 0 where
  pub id : ℕ
  -- `getattr(client, f)`
  pub profile : ClientField → Value
  pub brand : BrandField → Option Text
  -- the `hex` of each `ClientBrandColor` and the `family` of each `ClientBrandFont`
  pub brand_colors : List Text
  pub brand_fonts : List Text
  pub updated_at : ℕ

pub record User : Type 0 where
  pub id : ℕ
  pub email : Text
  pub name : Text
  pub password_hash : Text
  pub role : UserRole
  pub is_active : Bool
  pub last_login_at : Option ℕ
  pub updated_at : ℕ

pub record ClientAssignment : Type 0 where
  pub id : ℕ
  pub client_id : ℕ
  pub user_id : ℕ
  pub assigned_by : ℕ
  pub capabilities : Option (List String)

pub record PlanTask : Type 0 where
  pub id : ℕ
  pub client_id : ℕ
  pub title : Option Text
  pub description : Option Text
  pub requirements : Option Text
  pub category : Option TaskCategory
  pub status : Option TaskStatus
  pub priority : Option TaskPriority
  pub assignee_id : Option ℕ
  pub start_date : Option ℕ
  pub due_date : Option ℕ
  pub start_time : Option ℕ
  pub end_time : Option ℕ
  pub created_by : ℕ
  pub archived : Option Bool
  pub updated_at : ℕ

pub record PlanTaskAsset : Type 0 where
  pub id : ℕ
  pub task_id : ℕ
  pub url : Text
  pub label : Option Text
  pub position : ℕ

pub record PlanTaskNote : Type 0 where
  pub id : ℕ
  pub task_id : ℕ
  pub user_id : ℕ
  pub body : Text

pub record IntelJob : Type 0 where
  pub id : ℕ
  pub client_id : ℕ
  pub job_type : IntelJobType
  pub status : IntelJobStatus
  -- `payload["changed_keys"]`
  pub payload : Option (List String)
  pub priority : ℕ
  pub run_after : Option ℕ
  pub attempts : ℕ
  pub max_attempts : ℕ
  pub locked_by : Option String
  pub locked_at : Option ℕ
  pub last_error : Option Message
  pub created_at : ℕ

pub record AuditLog : Type 0 where
  pub actor_user_id : ℕ
  pub client_id : ℕ
  pub proposal_id : ℕ
  pub entity : String
  pub entity_id : Option ℕ
  pub action : String × ProposedOperationType
  pub target_label : Option Text
  pub changes : Option (List Change)

-- What a SQLAlchemy session sees of these tables.
pub record Db : Type 0 where
  pub clients : List Client
  pub users : List User
  pub assignments : List ClientAssignment
  pub tasks : List PlanTask
  pub assets : List PlanTaskAsset
  pub notes : List PlanTaskNote
  pub jobs : List IntelJob
  pub audit_logs : List AuditLog

-- What a call takes from outside: `get_settings().intelligence.enabled`, the clock, a new UUID, the
-- database's verdict whether rows break a constraint at a flush, and `str.isspace` of a character.
pub record Env : Type 0 where
  pub enabled : Bool
  pub now : ℕ
  pub new_id : ℕ
  pub violates : Db → Bool
  pub is_space : ℕ → Bool
