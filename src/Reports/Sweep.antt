-- ===== src/Reports/Sweep.antt =====
-- What a sweep leaves for a client: its due reports are sent.
use mathlib.Core.List.{append-nil}
use in_work_marketing_os_bac.Base.{
  ℕ, ◌+◌, ◌-◌, ◌≤◌, ◌<◌, Bool, true, false, Option, none, some, List, [], ◌∷◌, ◌++◌, ◌==◌, ◌&&◌,
  ◌||◌, ◌≡◌, ◌⊎◌, refl, arith, not, any, keep_if, ◌∙◌, ==_iff, ==_refl, Bool-cases, Option-cases,
  inl, inr,
}
use in_work_marketing_os_bac.Model.Tables.{User, Db}
use in_work_marketing_os_bac.Reports.{
  ReportEmailLog, is_sent, get_for_date, Outbox, Surroundings, Attempted, delivered, gave_up,
  escaped, all_attempts, resolve_recipients, is_settled, committed, deliver, outcome_row,
  settled_log, send_daily_report, store_log, is_log, LocalTime, due_report_dates, sweep_dates,
  sweep_client,
}
use in_work_marketing_os_bac.Reports.Delivery.{
  is_sent_log, is_delivered, deliver_pair, committed_lem, get_for_date-write_log,
}

-- Nothing stands in the way of a mail: no other process, a database that works, and a provider that accepts one
-- of the attempts.
abbrev pub IsFine : Surroundings → Type 0
IsFine x =
    (x.others ≡ [])
    × (x.session_fails ≡ false)
    × (x.commit_fails ≡ false)
    × (x.is_configured ≡ true)
    × (x.build_error ≡ none)
    × (is_delivered (all_attempts x.answer).1 ≡ true)

-- The earlier log is settled, but not as sent.
abbrev pub is_cooling : ℕ → Option ReportEmailLog → Bool
is_cooling now none = false
is_cooling now (some l) = is_settled now l && not (is_sent l.status)

settled_sent :
    (now : ℕ) (m : Option ReportEmailLog) (l : ReportEmailLog)
    → settled_log now m ≡ some l
    → is_cooling now m ≡ false
    → is_sent_log m ≡ true
settled_sent now none l h k = cc
settled_sent now (some m) l h k = ground arith

sent_warm : (now : ℕ) (m : Option ReportEmailLog) → is_sent_log m ≡ true → is_cooling now m ≡ false
sent_warm now none h = refl
sent_warm now (some m) h = ground arith

due_lem :
    (t : LocalTime) (e : ℕ)
    → t.minute < 1440
    → (e + 1 ≡ t.day) ⊎ ((e ≡ t.day) × (1410 ≤ t.minute))
    → any (λ d. d == e) (due_report_dates t) ≡ true
unfolding due_report_dates keep_if
due_lem t e bound (inl before) = ground (arith, (==_iff (t.day - 1) e).1)
due_lem t e bound (inr (now, late)) = ground (arith, (==_iff t.day e).1)

outcome_row_sent :
    (x : Surroundings) (c d : ℕ) (us : List User) (a : Attempted)
    → is_delivered a ≡ true
    → (row : ReportEmailLog) × (outcome_row x c d us a ≡ some row) × (is_sent row.status ≡ true)
outcome_row_sent x c d us (delivered k m) h = (_, refl, refl)
outcome_row_sent x c d us (gave_up k e) h = cc
outcome_row_sent x c d us escaped h = cc

module _ (db : Db) (c : ℕ) (u : User) (us : List User)
    (some_recipient : resolve_recipients db c ≡ u ∷ us) where
  outcome_sent :
      (x : Surroundings) (d : ℕ)
      → IsFine x
      → (row : ReportEmailLog) × ((deliver x db c d).0 ≡ some row) × (is_sent row.status ≡ true)
  unfolding deliver
  outcome_sent x d (lone, runs, commits, configured, built, accepted) =
      let (row, e, h) = outcome_row_sent x c d (u ∷ us) (all_attempts x.answer).1 accepted in
      let made : (deliver x db c d).0 ≡ outcome_row x c d (u ∷ us) (all_attempts x.answer).1 =
        rw (some_recipient, deliver) (ground (arith, configured, built)) in
      (row, made ∙ e, h)

  -- What a call that is not settled leaves as the log of a date.
  stored :
      (x : Surroundings) (logs : List ReportEmailLog) (d e : ℕ)
      → IsFine x
      → let after =
          get_for_date
            (store_log
              (get_for_date logs c d)
              (committed x.commit_fails (deliver x db c d).0)
              logs).0
            c
            e in
        (is_sent_log after ≡ true) ⊎ ((after ≡ get_for_date logs c e) × ((d == e) ≡ false))
  unfolding store_log
  stored x logs d e fine =
      let (row, made, is_it) = outcome_sent x d fine in
      let (of_client, of_date) = deliver_pair x db c d row made in
      let written = get_for_date-write_log row logs c d c e of_client of_date in
      rw (committed_lem x.commit_fails (deliver x db c d).0 (fine.2), made, store_log)
        (elim (Bool-cases (d == e)) [
          | inl y ↦
              let same : is_log c e row ≡ true = rw (of_client, of_date, ==_refl c) y in
              inl (rw (written, same) is_it)
          | inr n ↦
              let other : is_log c e row ≡ false = rw (of_client, of_date, ==_refl c) n in
              inr (rw (written, other) refl, n)
        ])

  -- A call about a date leaves its log as sent, and the logs of other dates as they are.
  call_sends :
      (x : Surroundings) (o : Outbox) (d e : ℕ)
      → IsFine x
      → is_cooling x.now (get_for_date o.logs c d) ≡ false
      → let after = get_for_date (send_daily_report x db o c d).0.logs c e in
        (is_sent_log after ≡ true) ⊎ ((after ≡ get_for_date o.logs c e) × ((d == e) ≡ false))
  unfolding send_daily_report
  call_sends x o d e fine warm =
      let existing = get_for_date o.logs c d in
      elim (Option-cases (settled_log x.now existing)) [
        | inr (l, s) ↦
            rw (fine.1, s, send_daily_report)
              (elim (Bool-cases (d == e)) [
                | inl y ↦
                    let same : d ≡ e = (==_iff d e).0 y in
                    inl (rw (← same) (settled_sent x.now existing l s warm))
                | inr n ↦ inr (refl, n)
              ])
        | inl s ↦
            let lone : o.logs ++ x.others ≡ o.logs = rw (fine.0) (append-nil o.logs) in
            rw (fine.1, s, send_daily_report) (rw lone (stored x o.logs d e fine))
      ]

  module _ (xs : ℕ → Surroundings) (fine : (d : ℕ) → IsFine (xs d)) where
    sweep_dates_lem :
        (ds : List ℕ) (o : Outbox) (e : ℕ)
        → ((d : ℕ) → is_cooling (xs d).now (get_for_date o.logs c d) ≡ false)
        → (any (λ d. d == e) ds || is_sent_log (get_for_date o.logs c e)) ≡ true
        → is_sent_log (get_for_date (sweep_dates xs db c ds o).logs c e) ≡ true
    unfolding sweep_dates
    sweep_dates_lem [] o e warm h = h
    sweep_dates_lem (d ∷ ds) o e warm h =
        let o' = (send_daily_report (xs d) db o c d).0 in
        sweep_dates_lem ds o' e
          (λ d'. elim (call_sends (xs d) o d d' (fine d) (warm d)) [
            | inl sent ↦ sent_warm (xs d').now _ sent
            | inr (same, other) ↦ rw same (warm d')
          ])
          (elim (call_sends (xs d) o d e (fine d) (warm d)) [
            | inl sent ↦ ground arith
            | inr (same, other) ↦ rw same (ground arith)
          ])

-- A sweep in which a client has a recipient, Brevo is configured, the reports can be built, the provider accepts
-- one of the attempts, the database works, no other process sends, and no report of the client failed in the hour before, leaves the
-- client's log of yesterday as sent, and that of today if it is 23:30 or later for the client.
pub sweep_client-sent :
    (db : Db) (c : ℕ) (u : User) (us : List User) (xs : ℕ → Surroundings) (t : LocalTime)
    (o : Outbox) (e : ℕ)
    → resolve_recipients db c ≡ u ∷ us
    → ((d : ℕ) → IsFine (xs d))
    → ((d : ℕ) → is_cooling (xs d).now (get_for_date o.logs c d) ≡ false)
    → t.minute < 1440
    → (e + 1 ≡ t.day) ⊎ ((e ≡ t.day) × (1410 ≤ t.minute))
    → is_sent_log (get_for_date (sweep_client xs db c t o).logs c e) ≡ true
unfolding sweep_client
sweep_client-sent db c u us xs t o e some_recipient fine warm bound due =
    sweep_dates_lem db c u us some_recipient xs fine (due_report_dates t) o e warm
      (rw (due_lem t e bound due) refl)
