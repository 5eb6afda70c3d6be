-- ===== src/Examples/Mailing.antt =====
-- The report of a client: two calls, of which the second finds it sent, calls in a storm, and a sweep before midnight.
use in_work_marketing_os_bac.Base.{
  ℕ, Bool, true, false, none, some, [], ◌∷◌, ◌==◌, ◌&&◌, ◌||◌, ◌≡◌, refl, arith, inr, any, find_by,
  count, keep_if,
}
use in_work_marketing_os_bac.Model.Enums.{is_admin}
use in_work_marketing_os_bac.Model.Tables.{User}
use in_work_marketing_os_bac.Reports.{
  get_for_date, accepted, send_error, SendResult, Outbox, Surroundings, LocalTime, sweep_client,
  is_assigned, has_user_id, resolve_recipients, send_daily_report, ReportEmailLog, log_row, sent,
  deliver, attempts, store_log, write_log, is_settled,
}
use in_work_marketing_os_bac.Reports.Recipients.{any-resolve_recipients}
use in_work_marketing_os_bac.Reports.Delivery.{
  is_mail, is_sent_log, is_accurate, IsUndisturbed, IsOnce, here, call, Reach-IsOnce,
}
use in_work_marketing_os_bac.Reports.Stays.{anything, Stays, Reach-Stays}
use in_work_marketing_os_bac.Reports.Sweep.{IsFine, is_cooling, sweep_client-sent}
use in_work_marketing_os_bac.Examples.Data.{admin_user, plain_user, db}

-- the first attempt fails, and the second is accepted
abbrev second_time : ℕ → SendResult
second_time k = if_second (k == 2)
  where
    if_second : Bool → SendResult
    if_second true = accepted (7 ∷ [])
    if_second false = send_error [] true false

abbrev evening : Surroundings
evening = record {
  now = 100;
  written_at = 110;
  session_fails = false;
  is_configured = true;
  build_error = none;
  answer = second_time;
  commit_fails = false;
  others = [];
}

abbrev empty : Outbox
empty = record { logs = []; mails = [] }

abbrev after_first : Outbox
after_first = (send_daily_report evening db empty 1 20).0

abbrev after_second : Outbox
after_second = (send_daily_report evening db after_first 1 20).0

empty-IsOnce : IsOnce empty
unfolding find_by count
empty-IsOnce c d = refl

second_time_accurate : (i : ℕ) → is_accurate (second_time i) ≡ true
second_time_accurate i = ground arith

evening-IsUndisturbed : IsUndisturbed evening
evening-IsUndisturbed = record {
  alone = refl;
  commits = refl;
  accurate = λ i. second_time_accurate i;
}

Reach-IsOnce_example : IsOnce after_second
Reach-IsOnce_example =
    Reach-IsOnce empty after_second empty-IsOnce
      (call evening db 1 20 evening-IsUndisturbed (call evening db 1 20 evening-IsUndisturbed here))

-- every attempt is accepted and times out, and the commit fails
abbrev storm : Surroundings
storm = record evening { answer = λ i. send_error [] true true; commit_fails = true }

abbrev sent_log : ReportEmailLog
sent_log = log_row 110 1 20 sent (plain_user ∷ admin_user ∷ []) none 2 (some (7 ∷ [])) (some 110)

was_sent : get_for_date after_first.logs 1 20 ≡ some sent_log
unfolding find_by send_daily_report deliver resolve_recipients keep_if attempts store_log write_log
was_sent = refl

abbrev after_storm : Outbox
after_storm = (send_daily_report storm db after_first 1 20).0

-- today's report meets the storm as well, and its mails are sent, while that of the day before stays
Reach-Stays_example :
    Stays 1 20 sent_log after_first (send_daily_report storm db after_storm 1 21).0
Reach-Stays_example =
    Reach-Stays after_first (send_daily_report storm db after_storm 1 21).0 1 20 sent_log refl
      was_sent (call storm db 1 21 anything (call storm db 1 20 anything here))

abbrev mailed_thrice : ℕ
mailed_thrice = count (is_mail 1 21) (send_daily_report storm db after_storm 1 21).0.mails

-- a report whose attempts all time out after they were accepted is sent three times
mailed_thrice_test : mailed_thrice ≡ 3
unfolding find_by send_daily_report deliver resolve_recipients keep_if attempts store_log write_log
    count is_settled
mailed_thrice_test = refl

any-resolve_recipients_example :
    any (has_user_id 12) (resolve_recipients db 1)
    ≡ any
        (λ (u : User). u.id == 12 && u.is_active && (is_assigned db 1 u || is_admin u.role))
        db.users
any-resolve_recipients_example = any-resolve_recipients db 1 12

abbrev late : LocalTime
late = record { day = 20; minute = 1415 }

sent_to : resolve_recipients db 1 ≡ plain_user ∷ admin_user ∷ []
unfolding resolve_recipients keep_if
sent_to = refl

evening-IsFine : IsFine evening
unfolding attempts
evening-IsFine = (refl, refl, refl, refl, refl, refl)

empty_warm : (d : ℕ) → is_cooling 100 (get_for_date empty.logs 1 d) ≡ false
unfolding find_by
empty_warm d = refl

sweep_client-sent_example :
    is_sent_log (get_for_date (sweep_client (λ d. evening) db 1 late empty).logs 1 20) ≡ true
sweep_client-sent_example =
    sweep_client-sent db 1 plain_user (admin_user ∷ []) (λ d. evening) late empty 20 sent_to
      (λ d. evening-IsFine) (λ d. empty_warm d) (omega arith) (inr (refl, omega arith))
