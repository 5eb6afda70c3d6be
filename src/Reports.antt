-- ===== src/Reports.antt =====
-- The daily report e-mail: app/services/report_email/service.py and timing.py, its repository, and the part of
-- `send_daily_reports_sweep` of app/services/scheduler_service.py that serves one client. What is written into a
-- report, and the audit row of a delivery, are left out. Times are in seconds, local times days and minutes.
use in_work_marketing_os_bac.Base.{
  ℕ, zero, suc, ◌+◌, ◌-◌, ◌*◌, Bool, true, false, Option, none, some, List, [], ◌∷◌, ◌++◌, ◌==◌,
  ◌&&◌, not, any, ltb, leb, map, length, take, if◌then◌else◌, find_by, keep_if, update_if, bit,
  opt_eq,
}
use in_work_marketing_os_bac.Model.Enums.{is_admin}
use in_work_marketing_os_bac.Model.Tables.{Text, ClientAssignment, User, Db}
use in_work_marketing_os_bac.Audit.{text_eq, texts_eq}
pub mod Recipients
pub mod Delivery
pub mod Stays
pub mod Sweep

pub data ReportEmailStatus : Type 0 where
  sent failed skipped_no_recipients skipped_not_configured : ReportEmailStatus

abbrev pub is_sent : ReportEmailStatus → Bool
is_sent sent = true
is_sent _ = false

abbrev pub is_failed : ReportEmailStatus → Bool
is_failed failed = true
is_failed _ = false

pub record ReportEmailLog : Type 0 where
  pub client_id : ℕ
  pub report_date : ℕ
  pub status : ReportEmailStatus
  pub recipient_count : ℕ
  pub recipient_emails : Option (List Text)
  pub error : Option Text
  pub attempt_count : ℕ
  pub brevo_message_id : Option Text
  pub sent_at : Option ℕ
  pub updated_at : ℕ

-- the unique pair of columns
abbrev pub is_log : ℕ → ℕ → ReportEmailLog → Bool
is_log client_id d l = l.client_id == client_id && l.report_date == d

-- `get_for_date`
abbrev pub get_for_date : List ReportEmailLog → ℕ → ℕ → Option ReportEmailLog
get_for_date logs client_id d = find_by (is_log client_id d) logs

-- `_FAILED_RETRY_COOLDOWN`
abbrev pub failed_retry_cooldown : ℕ
failed_retry_cooldown = 3600

-- What an attempt ends with: a message id, a `BrevoSendError` that is retryable or not, or another exception. After
-- the last two the provider may have accepted the mail nonetheless, as when its answer times out: the last entry.
pub data SendResult : Type 0 where
  accepted : Text → SendResult
  send_error : Text → Bool → Bool → SendResult
  raised : Bool → SendResult

-- A mail that the provider accepted.
pub record Mail : Type 0 where
  pub client_id : ℕ
  pub report_date : ℕ
  pub to : List User

-- The logs, and the mails that were accepted so far.
pub record Outbox : Type 0 where
  pub logs : List ReportEmailLog
  pub mails : List Mail

-- What a call meets: the clocks at its start and at its write, a session that fails at once (as after a failed
-- commit), whether Brevo is configured, the error of building the report if there is one, the provider's answer to
-- each attempt, whether the commit fails, and the logs that other processes insert meanwhile.
pub record Surroundings : Type 0 where
  pub now : ℕ
  pub written_at : ℕ
  pub session_fails : Bool
  pub is_configured : Bool
  pub build_error : Option Text
  pub answer : ℕ → SendResult
  pub commit_fails : Bool
  pub others : List ReportEmailLog

abbrev pub is_assigned : Db → ℕ → User → Bool
is_assigned db client_id u =
    any (λ (a : ClientAssignment). a.client_id == client_id && a.user_id == u.id) db.assignments

abbrev pub has_user_id : ℕ → User → Bool
has_user_id i u = u.id == i

abbrev pub is_active_assigned : Db → ℕ → User → Bool
is_active_assigned db client_id u = is_assigned db client_id u && u.is_active

abbrev pub is_active_admin : User → Bool
is_active_admin u = is_admin u.role && u.is_active

-- `_resolve_recipients`: the dict holds the active users who are assigned, then the active admins that it lacks
unfoldable pub resolve_recipients : Db → ℕ → List User
resolve_recipients db client_id =
    let assigned = keep_if (is_active_assigned db client_id) db.users in
    assigned
    ++ keep_if (λ (u : User). is_active_admin u && not (any (has_user_id u.id) assigned)) db.users

-- the checks on an earlier log that end a call
unfoldable pub is_settled : ℕ → ReportEmailLog → Bool
is_settled now l =
    if is_sent l.status
    then true
    else is_failed l.status && ltb (now - l.updated_at) failed_retry_cooldown

-- What the loop of attempts ends with: the number of the last attempt and the message id or the error, or an
-- exception that it does not catch.
pub data Attempted : Type 0 where
  delivered : ℕ → Text → Attempted
  gave_up : ℕ → Text → Attempted
  escaped : Attempted

-- the loop from attempt `k`, with `left` attempts after it, and the number of mails that the provider accepts
unfoldable pub attempts : (ℕ → SendResult) → ℕ → ℕ → ℕ × Attempted
attempts answer k zero = elim (answer k) [
  | accepted m ↦ (1, delivered k m)
  | send_error e retryable got ↦ (bit got, gave_up k (take 500 e))
  | raised got ↦ (bit got, escaped)
]
attempts answer k (suc left) =
    let rest = attempts answer (k + 1) left in
    elim (answer k) [
      | accepted m ↦ (1, delivered k m)
      | send_error e retryable got ↦
          if retryable then (bit got + rest.0, rest.1) else (bit got, gave_up k (take 500 e))
      | raised got ↦ (bit got, escaped)
    ]

-- all `_MAX_ATTEMPTS` attempts
abbrev pub all_attempts : (ℕ → SendResult) → ℕ × Attempted
all_attempts answer = attempts answer 1 2

abbrev pub emails_or_null : List User → Option (List Text)
emails_or_null [] = none
emails_or_null (u ∷ us) = some (map (λ (v : User). v.email) (u ∷ us))

-- the row that `_write_log` writes
abbrev pub log_row :
    ℕ
    → ℕ
    → ℕ
    → ReportEmailStatus
    → List User
    → Option Text
    → ℕ
    → Option Text
    → Option ℕ
    → ReportEmailLog
log_row at client_id d status recipients error attempts message_id sent_at = record {
  client_id = client_id;
  report_date = d;
  status = status;
  recipient_count = length recipients;
  recipient_emails = emails_or_null recipients;
  error = error;
  attempt_count = attempts;
  brevo_message_id = message_id;
  sent_at = sent_at;
  updated_at = at;
}

abbrev pub status_number : ReportEmailStatus → ℕ
status_number sent = 0
status_number failed = 1
status_number skipped_no_recipients = 2
status_number skipped_not_configured = 3

abbrev pub same_text : Option Text → Option Text → Bool
same_text none none = true
same_text (some s) (some t) = text_eq s t
same_text _ _ = false

abbrev pub same_texts : Option (List Text) → Option (List Text) → Bool
same_texts none none = true
same_texts (some s) (some t) = texts_eq s t
same_texts _ _ = false

-- whether the assignments of `_write_log` leave every column as it is
abbrev pub is_unchanged : ReportEmailLog → ReportEmailLog → Bool
is_unchanged l row =
    status_number l.status == status_number row.status
    && l.recipient_count == row.recipient_count
    && same_texts l.recipient_emails row.recipient_emails
    && same_text l.error row.error
    && l.attempt_count == row.attempt_count
    && same_text l.brevo_message_id row.brevo_message_id
    && opt_eq l.sent_at row.sent_at

-- `updated_at` of the row: its `onupdate` runs only when a column changes
abbrev pub stamp : Option ReportEmailLog → ReportEmailLog → ℕ
stamp none row = row.updated_at
stamp (some l) row = if is_unchanged l row then l.updated_at else row.updated_at

abbrev pub stamped : Option ReportEmailLog → ReportEmailLog → ReportEmailLog
stamped existing row = record row { updated_at = stamp existing row }

-- `_write_log` in the table as it is then; the unique constraint refuses a second row of the pair
unfoldable pub write_log :
    Option ReportEmailLog
    → ReportEmailLog
    → List ReportEmailLog
    → List ReportEmailLog × ReportEmailLog
write_log (some existing) row logs =
    let new = stamped (some existing) row in
    (update_if (is_log row.client_id row.report_date) (λ l. new) logs, new)
write_log none row logs = elim (get_for_date logs row.client_id row.report_date) [
  | some refreshed ↦ (logs, refreshed)
  | none ↦ (logs ++ row ∷ [], row)
]

abbrev pub outcome_row : Surroundings → ℕ → ℕ → List User → Attempted → Option ReportEmailLog
outcome_row x client_id d recipients (gave_up k e) =
    some (log_row x.written_at client_id d failed recipients (some e) k none none)
outcome_row x client_id d recipients (delivered k m) =
    some (log_row x.written_at client_id d sent recipients none k (some m) (some x.written_at))
outcome_row x client_id d recipients escaped = none

abbrev pub new_mails : ℕ → ℕ → List User → ℕ → List Mail
new_mails client_id d recipients zero = []
new_mails client_id d recipients (suc n) =
    record { client_id = client_id; report_date = d; to = recipients }
    ∷ new_mails client_id d recipients n

-- What a call that is not settled is to write, nothing if it raises, and the mails that are accepted.
unfoldable pub deliver : Surroundings → Db → ℕ → ℕ → Option ReportEmailLog × List Mail
deliver x db client_id d =
    let recipients = resolve_recipients db client_id in
    let tried = all_attempts x.answer in
    elim recipients [
      | [] ↦ (some (log_row x.written_at client_id d skipped_no_recipients [] none 0 none none), [])
      | u ∷ us ↦ elim x.is_configured [
        | false ↦
            (some (log_row x.written_at client_id d skipped_not_configured [] none 0 none none), [])
        | true ↦ elim x.build_error [
          | some e ↦ (
            some (log_row x.written_at client_id d failed (u ∷ us) (some (take 500 e)) 0 none none),
            [],
          )
          | none ↦ (
            outcome_row x client_id d (u ∷ us) (tried.1),
            new_mails client_id d (u ∷ us) (tried.0),
          )
        ]
      ]
    ]

-- The row that is committed, if one is.
abbrev pub committed : Bool → Option ReportEmailLog → Option ReportEmailLog
committed true row = none
committed false row = row

abbrev pub settled_log : ℕ → Option ReportEmailLog → Option ReportEmailLog
settled_log now none = none
settled_log now (some l) = if is_settled now l then some l else none

-- `_write_log` of what a call is to write, if it comes to that
unfoldable pub store_log :
    Option ReportEmailLog
    → Option ReportEmailLog
    → List ReportEmailLog
    → List ReportEmailLog × Option ReportEmailLog
store_log existing none logs = (logs, none)
store_log existing (some row) logs =
    let (logs', log) = write_log existing row logs in (logs', some log)

-- `send_daily_report`; without a log it raises, and what the provider has accepted stays accepted
unfoldable pub send_daily_report :
    Surroundings → Db → Outbox → ℕ → ℕ → Outbox × Option ReportEmailLog
send_daily_report x db o client_id d =
    let existing = get_for_date o.logs client_id d in
    let (row, mails) = deliver x db client_id d in
    let (logs, log) = store_log existing (committed x.commit_fails row) (o.logs ++ x.others) in
    elim x.session_fails [
      | true ↦ (o, none)
      | false ↦ elim (settled_log x.now existing) [
        | some l ↦ (o, some l)
        | none ↦ (record { logs = logs; mails = o.mails ++ mails }, log)
      ]
    ]

-- `now_local` as its date and the minutes since midnight
pub record LocalTime : Type 0 where
  pub day : ℕ
  pub minute : ℕ

-- whether 23:30 of a date is past
abbrev pub is_due : LocalTime → ℕ → Bool
is_due t d = leb (d * 1440 + 1410) (t.day * 1440 + t.minute)

-- `due_report_dates`
unfoldable pub due_report_dates : LocalTime → List ℕ
due_report_dates t = keep_if (is_due t) ((t.day - 1) ∷ t.day ∷ [])

-- The reports of one client in a sweep; `xs` is what the call for each date meets.
unfoldable pub sweep_dates : (ℕ → Surroundings) → Db → ℕ → List ℕ → Outbox → Outbox
sweep_dates xs db client_id [] o = o
sweep_dates xs db client_id (d ∷ ds) o =
    sweep_dates xs db client_id ds (send_daily_report (xs d) db o client_id d).0

-- `send_daily_reports_sweep`, of one client
unfoldable pub sweep_client : (ℕ → Surroundings) → Db → ℕ → LocalTime → Outbox → Outbox
sweep_client xs db client_id t o = sweep_dates xs db client_id (due_report_dates t) o
