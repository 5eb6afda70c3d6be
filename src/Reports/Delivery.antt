-- ===== src/Reports/Delivery.antt =====
-- How often the daily report of a client and a date is sent.
use mathlib.Core.List.{append-nil}
use in_work_marketing_os_bac.Base.{
  ℕ, Bool, true, false, Option, none, some, List, [], ◌∷◌, ◌++◌, ◌==◌, ◌&&◌, ◌≡◌, refl, arith,
  if◌then◌else◌, find_by, update_if, count, bit, ==_iff, ==_refl, Bool-cases, Option-cases, inl,
  inr, zero, suc, ◌+◌, not,
}
use in_work_marketing_os_bac.Base.Rows.{find_by-append, count-append}
use in_work_marketing_os_bac.Model.Tables.{User, Db}
use in_work_marketing_os_bac.Reports.{
  ReportEmailLog, is_sent, is_log, get_for_date, SendResult, accepted, send_error, raised, Mail,
  Outbox, Surroundings, Attempted, delivered, attempts, all_attempts, new_mails, is_settled,
  stamped, write_log, store_log, committed, deliver, settled_log, send_daily_report,
}

abbrev pub is_mail : ℕ → ℕ → Mail → Bool
is_mail client_id d m = m.client_id == client_id && m.report_date == d

abbrev pub is_sent_log : Option ReportEmailLog → Bool
is_sent_log none = false
is_sent_log (some l) = is_sent l.status

-- For every client and date there is one mail if the log says that it was sent, and none otherwise.
abbrev pub IsOnce : Outbox → Type 0
IsOnce o =
    (client_id d : ℕ)
    → count (is_mail client_id d) o.mails ≡ bit (is_sent_log (get_for_date o.logs client_id d))

abbrev pub is_delivered : Attempted → Bool
is_delivered (delivered k m) = true
is_delivered _ = false

-- The answer tells whether the mail was accepted: no error after which it was.
abbrev pub is_accurate : SendResult → Bool
is_accurate (accepted m) = true
is_accurate (send_error e retryable got) = not got
is_accurate (raised got) = not got

-- With accurate answers the loop has sent one mail if it ends with one delivered, and none otherwise.
attempts_once :
    (answer : ℕ → SendResult) (k left : ℕ)
    → ((i : ℕ) → is_accurate (answer i) ≡ true)
    → (attempts answer k left).0 ≡ bit (is_delivered (attempts answer k left).1)
unfolding attempts
attempts_once answer k zero h = ground (arith, h k)
attempts_once answer k (suc left) h = ground (arith, h k, attempts_once answer (k + 1) left h)

pub count-new_mails :
    (c d c' d' : ℕ) (us : List User) (n : ℕ)
    → count (is_mail c' d') (new_mails c d us n) ≡ (if c == c' && d == d' then n else 0)
unfolding count
count-new_mails c d c' d' us zero = ground arith
count-new_mails c d c' d' us (suc n) = ground (arith, count-new_mails c d c' d' us n)

-- What a call is to write is a log of its own pair.
pub deliver_pair :
    (x : Surroundings) (db : Db) (c d : ℕ) (row : ReportEmailLog)
    → (deliver x db c d).0 ≡ some row
    → (row.client_id ≡ c) × (row.report_date ≡ d)
unfolding deliver
deliver_pair x db c d row h = ground arith

-- What is to be written says that the mail of a pair was sent.
abbrev says_sent : ℕ → ℕ → Option ReportEmailLog → Bool
says_sent c d none = false
says_sent c d (some row) = is_log c d row && is_sent row.status

deliver_once :
    (x : Surroundings) (db : Db) (c d c' d' : ℕ)
    → ((i : ℕ) → is_accurate (x.answer i) ≡ true)
    → count (is_mail c' d') (deliver x db c d).1 ≡ bit (says_sent c' d' (deliver x db c d).0)
unfolding deliver count
deliver_once x db c d c' d' h = ground (
  arith,
  attempts_once x.answer 1 2 h,
  λ (us : List User). count-new_mails c d c' d' us (all_attempts x.answer).0,
)

-- An update of the rows of one pair leaves the first row of another.
pub find_by-update_other :
    (c d c' d' : ℕ) (row : ReportEmailLog) (logs : List ReportEmailLog)
    → is_log c d row ≡ true
    → is_log c' d' row ≡ false
    → find_by (is_log c' d') (update_if (is_log c d) (λ l. row) logs) ≡ find_by (is_log c' d') logs
unfolding find_by update_if
find_by-update_other c d c' d' row [] h n = refl
find_by-update_other c d c' d' row (l ∷ logs) h n = ground (
  arith,
  (==_iff l.client_id c).0,
  (==_iff l.report_date d).0,
  (==_iff row.client_id c).0,
  (==_iff row.report_date d).0,
  find_by-update_other c d c' d' row logs h n,
)

find_by-update_same :
    (c d : ℕ) (row l : ReportEmailLog) (logs : List ReportEmailLog)
    → is_log c d row ≡ true
    → find_by (is_log c d) logs ≡ some l
    → find_by (is_log c d) (update_if (is_log c d) (λ l. row) logs) ≡ some row
unfolding find_by update_if
find_by-update_same c d row l [] h e = cc
find_by-update_same c d row l (x ∷ logs) h e = ground (arith, find_by-update_same c d row l logs h)

pub same_pair :
    (c d : ℕ) (row : ReportEmailLog)
    → is_log c d row ≡ true
    → (row.client_id ≡ c) × (row.report_date ≡ d)
same_pair c d row h = ground (arith, (==_iff row.client_id c).0, (==_iff row.report_date d).0)

find_by-one {ℓ} :
    {A : Type ℓ} (p : A → Bool) (x : A) → find_by p (x ∷ []) ≡ (if p x then some x else none)
unfolding find_by
find_by-one p x = refl

write_new :
    (row : ReportEmailLog) (logs : List ReportEmailLog) (c d : ℕ)
    → get_for_date logs row.client_id row.report_date ≡ none
    → get_for_date (logs ++ row ∷ []) c d
      ≡ (if is_log c d row then some row else get_for_date logs c d)
write_new row logs c d e =
    rw (find_by-append (is_log c d) logs (row ∷ []), find_by-one (is_log c d) row)
      (elim (Bool-cases (is_log c d row)) [
        | inl y ↦
            let (p, q) = same_pair c d row y in
            let fresh : get_for_date logs c d ≡ none = rw (← p, ← q) e in rw (fresh, y) refl
        | inr n ↦ elim (Option-cases (get_for_date logs c d)) [
          | inl e' ↦ rw (e', n) refl
          | inr (l, e') ↦ rw (e', n) refl
        ]
      ])

write_existing :
    (row l : ReportEmailLog) (logs : List ReportEmailLog) (c d : ℕ)
    → get_for_date logs row.client_id row.report_date ≡ some l
    → get_for_date (update_if (is_log row.client_id row.report_date) (λ l. row) logs) c d
      ≡ (if is_log c d row then some row else get_for_date logs c d)
write_existing row l logs c d e =
    let self : is_log row.client_id row.report_date row ≡ true =
      rw (==_refl row.client_id, ==_refl row.report_date) refl in
    elim (Bool-cases (is_log c d row)) [
      | inl y ↦
          let (p, q) = same_pair c d row y in
          rw y (rw (← p, ← q) (find_by-update_same row.client_id row.report_date row l logs self e))
      | inr n ↦ rw n (find_by-update_other row.client_id row.report_date c d row logs self n)
    ]

-- What a write of a row leaves as the log of each pair, if its `existing` row is the one in the table.
pub get_for_date-write_log :
    (row : ReportEmailLog) (logs : List ReportEmailLog) (c0 d0 c d : ℕ)
    → row.client_id ≡ c0
    → row.report_date ≡ d0
    → get_for_date (write_log (get_for_date logs c0 d0) row logs).0 c d ≡ (
        if is_log c d row
        then some (stamped (get_for_date logs c0 d0) row)
        else get_for_date logs c d)
unfolding write_log
get_for_date-write_log row logs c0 d0 c d p q =
    rw (← p, ← q)
      (elim (Option-cases (get_for_date logs row.client_id row.report_date)) [
        | inl e ↦ rw (e, write_log) (rw e (write_new row logs c d e))
        | inr (l, e) ↦ rw (e, write_log) (write_existing (stamped (some l) row) l logs c d e)
      ])

abbrev pub is_log_of : ℕ → ℕ → Option ReportEmailLog → Bool
is_log_of c d none = false
is_log_of c d (some row) = is_log c d row

-- Whether the log of a pair says `sent` after a call wrote what it was to write.
store_log_lem :
    (m : Option ReportEmailLog) (logs : List ReportEmailLog) (c0 d0 c d : ℕ)
    → ((row : ReportEmailLog) → m ≡ some row → (row.client_id ≡ c0) × (row.report_date ≡ d0))
    → is_sent_log (get_for_date (store_log (get_for_date logs c0 d0) m logs).0 c d)
      ≡ (if is_log_of c d m then says_sent c d m else is_sent_log (get_for_date logs c d))
unfolding store_log
store_log_lem none logs c0 d0 c d h = refl
store_log_lem (some row) logs c0 d0 c d h =
    let (p, q) = h row refl in
    elim (Bool-cases (is_log c d row)) [
      | inl y ↦ rw (get_for_date-write_log row logs c0 d0 c d p q, y) refl
      | inr n ↦ rw (get_for_date-write_log row logs c0 d0 c d p q, n) refl
    ]

pub not_sent :
    (now : ℕ) (m : Option ReportEmailLog) → settled_log now m ≡ none → is_sent_log m ≡ false
unfolding is_settled
not_sent now none h = refl
not_sent now (some l) h = ground arith

-- No other process inserts a log meanwhile, the commit succeeds, and the answers are accurate.
pub record IsUndisturbed (x : Surroundings) : Type 0 where
  pub alone : x.others ≡ []
  pub commits : x.commit_fails ≡ false
  pub accurate : (i : ℕ) → is_accurate (x.answer i) ≡ true

pub committed_lem : (b : Bool) (m : Option ReportEmailLog) → b ≡ false → committed b m ≡ m
committed_lem true m h = cc
committed_lem false m h = refl

-- The state after calls of the service, one after another, whose surroundings have a property.
pub data Reach (P : Surroundings → Type 0) (o : Outbox) : Outbox → Type 0 where
  here : Reach P o o
  call :
      {o' : Outbox} (x : Surroundings) (db : Db) (client_id d : ℕ)
      → P x
      → Reach P o o'
      → Reach P o (send_daily_report x db o' client_id d).0

send_daily_report-IsOnce :
    (x : Surroundings) (db : Db) (o : Outbox) (c d : ℕ)
    → IsUndisturbed x
    → IsOnce o
    → IsOnce (send_daily_report x db o c d).0
unfolding send_daily_report
send_daily_report-IsOnce x db o c d calm once c' d' = elim (Bool-cases x.session_fails) [
  | inl e ↦ rw (e, send_daily_report) (once c' d')
  | inr e ↦
      let existing = get_for_date o.logs c d in
      let row = (deliver x db c d).0 in
      elim (Option-cases (settled_log x.now existing)) [
        | inr (l, s) ↦ rw (e, send_daily_report, s) (once c' d')
        | inl s ↦
            let lone : o.logs ++ x.others ≡ o.logs = rw (calm.alone) (append-nil o.logs) in
            rw (e, send_daily_report, s)
              (rw
                (
                  lone,
                  committed_lem x.commit_fails row calm.commits,
                  store_log_lem row o.logs c d c' d' (deliver_pair x db c d),
                  count-append (is_mail c' d') o.mails (deliver x db c d).1,
                  deliver_once x db c d c' d' calm.accurate,
                  once c' d',
                )
                (added x.now row o.logs c d c' d' (deliver_pair x db c d) s))
      ]
]
  where
    added :
        (now : ℕ) (m : Option ReportEmailLog) (logs : List ReportEmailLog) (c d c' d' : ℕ)
        → ((row : ReportEmailLog) → m ≡ some row → (row.client_id ≡ c) × (row.report_date ≡ d))
        → settled_log now (get_for_date logs c d) ≡ none
        → bit (is_sent_log (get_for_date logs c' d')) + bit (says_sent c' d' m)
          ≡ bit (
              if is_log_of c' d' m
              then says_sent c' d' m
              else is_sent_log (get_for_date logs c' d'))
    added now none logs c d c' d' h s = omega arith
    added now (some row) logs c d c' d' h s = elim (Bool-cases (is_log c' d' row)) [
      | inl y ↦
          let (p, q) = same_pair c' d' row y in
          let (p', q') = h row refl in
          let old : is_sent_log (get_for_date logs c' d') ≡ false =
            rw (← p, ← q, p', q') (not_sent now (get_for_date logs c d) s) in
          rw (old, y) (omega arith)
      | inr n ↦ rw n (omega arith)
    ]

-- In every state that calls of `send_daily_report` reach from one in which it holds, at any times: if no other
-- process inserts a log, the commits succeed, and no error follows a mail that the provider accepted, then for
-- every client and date one mail was accepted if the log says `sent`, and none otherwise, however many attempts
-- failed, so no report is sent twice and none is recorded as sent that was not.
pub Reach-IsOnce : (o o' : Outbox) → IsOnce o → Reach IsUndisturbed o o' → IsOnce o'
Reach-IsOnce o o' once here = once
Reach-IsOnce o o' once (call x db client_id d calm r) =
    send_daily_report-IsOnce x db _ client_id d calm (Reach-IsOnce o _ once r)
