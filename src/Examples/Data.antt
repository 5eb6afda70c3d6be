-- ===== src/Examples/Data.antt =====
-- A small database: one client, its task, an administrator, a manager and two users, one assigned.
use in_work_marketing_os_bac.Base.{ℕ, true, false, none, some, List, [], ◌∷◌}
use in_work_marketing_os_bac.Model.Enums.{
  UserRole, incremental, IntelJobStatus, queued, pending_approval, ProposedOperationStatus, update,
  manage_calendar, todo, strategy, TaskPriority,
}
use in_work_marketing_os_bac.Model.Tables.{
  null, Client, User, ClientAssignment, PlanTask, IntelJob, Db, Env,
}
use in_work_marketing_os_bac.Model.Proposals.{ProposedOperation, ChangeProposal, System, task_data}
use in_work_marketing_os_bac.JobQueue.{Queue}
use in_work_marketing_os_bac.Plan.Columns.{PlanTaskUpdate}

abbrev pub env : Env
env = record {
  enabled = true;
  now = 1000;
  new_id = 90;
  violates = λ db. false;
  is_space = λ c. false;
}

abbrev pub client : Client
client = record {
  id = 1;
  profile = λ f. null;
  brand = λ f. none;
  brand_colors = [];
  brand_fonts = [];
  updated_at = 5;
}

abbrev user_with : ℕ → UserRole → User
user_with i r = record {
  id = i;
  email = i ∷ [];
  name = [];
  password_hash = 7 ∷ [];
  role = r;
  is_active = true;
  last_login_at = none;
  updated_at = 5;
}

abbrev pub admin_user : User
admin_user = user_with 10 UserRole.admin

abbrev pub manager_user : User
manager_user = user_with 11 UserRole.manager

abbrev pub plain_user : User
plain_user = user_with 12 UserRole.user

abbrev pub stranger : User
stranger = user_with 13 UserRole.user

abbrev pub granted : ClientAssignment
granted = record {
  id = 20;
  client_id = 1;
  user_id = 12;
  assigned_by = 10;
  capabilities = some ("manage_calendar" ∷ []);
}

abbrev pub task : PlanTask
task = record {
  id = 30;
  client_id = 1;
  title = some (97 ∷ []);
  description = none;
  requirements = none;
  category = some strategy;
  status = some todo;
  priority = some TaskPriority.medium;
  assignee_id = none;
  start_date = some 3;
  due_date = some 6;
  start_time = none;
  end_time = none;
  created_by = 10;
  archived = some false;
  updated_at = 5;
}

abbrev job_with : ℕ → ℕ → ℕ → IntelJobStatus → IntelJob
job_with i c p s = record {
  id = i;
  client_id = c;
  job_type = incremental;
  status = s;
  payload = some ("name" ∷ []);
  priority = p;
  run_after = none;
  attempts = 1;
  max_attempts = 3;
  locked_by = none;
  locked_at = none;
  last_error = none;
  created_at = i;
}

abbrev pub waiting : IntelJob
waiting = job_with 40 1 0 queued

abbrev pub urgent_job : IntelJob
urgent_job = job_with 41 2 7 queued

abbrev pub jobs : List IntelJob
jobs = waiting ∷ urgent_job ∷ []

abbrev pub queue : Queue
queue = record { jobs = jobs; last_reclaim = 0 }

abbrev pub db : Db
db = record {
  clients = client ∷ [];
  users = admin_user ∷ manager_user ∷ plain_user ∷ stranger ∷ [];
  assignments = granted ∷ [];
  tasks = task ∷ [];
  assets = [];
  notes = [];
  jobs = waiting ∷ [];
  audit_logs = [];
}

-- a patch of the start date alone
abbrev pub start_moved : ℕ → PlanTaskUpdate
start_moved day = record {
  title = none;
  description = none;
  requirements = none;
  category = none;
  status = none;
  priority = none;
  assignee_id = none;
  start_date = some (some day);
  due_date = none;
  start_time = none;
  end_time = none;
  archived = none;
}

abbrev pub moving : ℕ → ProposedOperation
moving day = record {
  seq = 0;
  operation_type = update;
  entity_type = "plan_task";
  entity_id = some 30;
  entity_label = none;
  field_changes = none;
  payload = task_data (start_moved day);
  base_snapshot = some 5;
  required_capability = some manage_calendar;
  requires_admin = false;
  status = ProposedOperationStatus.pending;
  error = none;
}

abbrev pub proposal : ChangeProposal
proposal = record {
  id = 50;
  client_id = 1;
  created_by_user_id = 11;
  status = pending_approval;
  raw_request = [];
  summary = none;
  error = none;
  created_at = 900;
  expires_at = some 2000;
  approved_by_user_id = none;
  approved_at = none;
  executed_at = none;
  operations = moving 4 ∷ [];
}

abbrev pub system : System
system = record { db = db; proposals = proposal ∷ [] }

abbrev pub ids : ℕ → ℕ
ids n = n
