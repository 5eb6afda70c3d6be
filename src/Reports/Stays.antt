-- ===== src/Reports/Stays.antt =====
-- What no later call changes: a report that was sent.
use in_work_marketing_os_bac.Base.{
  ℕ, Bool, true, false, Option, none, some, List, [], ◌∷◌, ◌++◌, ◌==◌, ◌&&◌, ◌≡◌, refl, arith,
  count, ==_iff, ==_refl, Bool-cases, Option-cases, inl, inr, ◌∙◌, ◌⊎◌, &&_left, &&_right,
}
use in_work_marketing_os_bac.Base.Rows.{find_by-append, count-append}
use in_work_marketing_os_bac.Model.Tables.{Db}
use in_work_marketing_os_bac.Reports.{
  ReportEmailLog, is_sent, is_log, get_for_date, Outbox, Surroundings, all_attempts, is_settled,
  stamped, write_log, store_log, committed, resolve_recipients, deliver, settled_log,
  send_daily_report,
}
use in_work_marketing_os_bac.Reports.Delivery.{
  is_mail, is_sent_log, is_log_of, count-new_mails, deliver_pair, find_by-update_other, not_sent,
  Reach, here, call,
}

List-cases {ℓ} : {A : Type ℓ} (xs : List A) → (xs ≡ []) ⊎ ((a : A) × (ys : List A) × (xs ≡ a ∷ ys))
List-cases [] = inl refl
List-cases (a ∷ ys) = inr (a, ys, refl)

-- A call sends no mail of another pair.
deliver_other :
    (x : Surroundings) (db : Db) (c d c' d' : ℕ)
    → (c == c' && d == d') ≡ false
    → count (is_mail c' d') (deliver x db c d).1 ≡ 0
unfolding deliver count
deliver_other x db c d c' d' h = elim (List-cases (resolve_recipients db c)) [
  | inl e ↦ rw (e, deliver) refl
  | inr (u, us, e) ↦
      rw (e, deliver) (ground (arith, count-new_mails c d c' d' (u ∷ us) (all_attempts x.answer).0))
]

-- A write about another pair leaves the log of a pair that is in the table.
write_log_other :
    (m : Option ReportEmailLog) (row l : ReportEmailLog) (logs : List ReportEmailLog) (c d : ℕ)
    → is_log c d row ≡ false
    → get_for_date logs c d ≡ some l
    → get_for_date (write_log m row logs).0 c d ≡ some l
unfolding write_log
write_log_other (some old) row l logs c d n e =
    let self : is_log row.client_id row.report_date row ≡ true =
      rw (==_refl row.client_id, ==_refl row.report_date) refl in
    rw (find_by-update_other row.client_id row.report_date c d (stamped (some old) row) logs self n)
      e
write_log_other none row l logs c d n e =
    elim (Option-cases (get_for_date logs row.client_id row.report_date)) [
      | inl f ↦ rw (f, write_log) (rw (find_by-append (is_log c d) logs (row ∷ []), e) refl)
      | inr (x, f) ↦ rw (f, write_log) e
    ]

-- The log of a pair is `l` with as many mails as there were.
abbrev pub Stays : ℕ → ℕ → ReportEmailLog → Outbox → Outbox → Type 0
Stays c d l o o' =
    (get_for_date o'.logs c d ≡ some l)
    × (count (is_mail c d) o'.mails ≡ count (is_mail c d) o.mails)

-- No condition on what a call meets.
pub data Anything (x : Surroundings) : Type 0 where
  anything : Anything x

-- What a call stores about another pair.
store_log_other :
    (m m' : Option ReportEmailLog) (l : ReportEmailLog) (logs : List ReportEmailLog) (c d : ℕ)
    → is_log_of c d m' ≡ false
    → get_for_date logs c d ≡ some l
    → get_for_date (store_log m m' logs).0 c d ≡ some l
unfolding store_log
store_log_other m none l logs c d n e = e
store_log_other m (some row) l logs c d n e = write_log_other m row l logs c d n e

not_of_pair :
    (b : Bool) (m : Option ReportEmailLog) (c d c' d' : ℕ)
    → ((row : ReportEmailLog) → m ≡ some row → (row.client_id ≡ c) × (row.report_date ≡ d))
    → (c == c' && d == d') ≡ false
    → is_log_of c' d' (committed b m) ≡ false
not_of_pair true m c d c' d' h n = refl
not_of_pair false none c d c' d' h n = refl
not_of_pair false (some row) c d c' d' h n = let (p, q) = h row refl in rw (p, q) n

send_daily_report-Stays :
    (x : Surroundings) (db : Db) (o : Outbox) (c d c' d' : ℕ) (l : ReportEmailLog)
    → is_sent l.status ≡ true
    → get_for_date o.logs c' d' ≡ some l
    → Stays c' d' l o (send_daily_report x db o c d).0
unfolding send_daily_report is_settled
send_daily_report-Stays x db o c d c' d' l h e = elim (Bool-cases x.session_fails) [
  | inl f ↦ rw (f, send_daily_report) (e, refl)
  | inr f ↦ elim (Option-cases (settled_log x.now (get_for_date o.logs c d))) [
    | inr (k, s) ↦ rw (f, send_daily_report, s) (e, refl)
    | inl s ↦ elim (Bool-cases (c == c' && d == d')) [
      | inl y ↦
          let p : c ≡ c' = (==_iff c c').0 (&&_left (c == c') (d == d') y) in
          let q : d ≡ d' = (==_iff d d').0 (&&_right (c == c') (d == d') y) in
          let old : is_sent_log (get_for_date o.logs c' d') ≡ false =
            rw (← p, ← q) (not_sent x.now (get_for_date o.logs c d) s) in
          let new : is_sent_log (get_for_date o.logs c' d') ≡ true = rw e h in
          absurd (cc (old, new))
      | inr n ↦
          let row = (deliver x db c d).0 in
          let there : get_for_date (o.logs ++ x.others) c' d' ≡ some l =
            rw (find_by-append (is_log c' d') o.logs x.others, e) refl in
          rw (f, send_daily_report, s)
            (
              store_log_other (get_for_date o.logs c d) (committed x.commit_fails row) l
                  (o.logs ++ x.others) c' d'
                  (not_of_pair x.commit_fails row c d c' d' (deliver_pair x db c d) n) there,
              rw
                  (
                    count-append (is_mail c' d') o.mails (deliver x db c d).1,
                    deliver_other x db c d c' d' n,
                  )
                  (omega arith),
            )
    ]
  ]
]

-- Once the log of a client and a date says `sent`, it stays as it is and no further mail of that report is
-- accepted, after any sequence of calls at any times: whatever the provider answers, also if it accepts mails
-- and answers with an error, whichever commits fail, and whatever logs other processes insert meanwhile.
pub Reach-Stays :
    (o o' : Outbox) (c d : ℕ) (l : ReportEmailLog)
    → is_sent l.status ≡ true
    → get_for_date o.logs c d ≡ some l
    → Reach Anything o o'
    → Stays c d l o o'
Reach-Stays o o' c d l h e here = (e, refl)
Reach-Stays o o' c d l h e (call x db client_id report_date any r) =
    let (kept, mails) = Reach-Stays o _ c d l h e r in
    let (kept', mails') = send_daily_report-Stays x db _ client_id report_date c d l h kept in
    (kept', mails' ∙ mails)
