-- ===== src/Examples/Watch.antt =====
-- A campaign whose leads cost too much, and its live alert.
use in_work_marketing_os_bac.Base.{
  ℕ, ◌-◌, ◌*◌, none, some, [], ◌∷◌, ◌≡◌, ltb, leb, arith, count, any, bit, length,
}
use Prim.Native.Nat.{◌/◌}
use in_work_marketing_os_bac.Alerts.{
  Floats, Campaign, Alert, AlertKind, AlertSeverity, AlertStatus, RecKey, live_with, finds,
  evaluate,
}
use in_work_marketing_os_bac.Alerts.Reconcile.{HasUniqueIds, IsDeduped, breaches, evaluated-live}
use in_work_marketing_os_bac.Alerts.Again.{evaluate-again}

-- Numbers in hundredths, rounded down.
abbrev cents : Floats ℕ
cents = record {
  of_int = λ n. n * 100;
  hundredths = λ n. n;
  thousandths = λ n. n / 10;
  div = λ a b. a * 100 / b;
  mul = λ a b. a * b / 100;
  sub = λ a b. a - b;
  lt = ltb;
  le = leb;
  round2 = λ a. a;
}

abbrev dear : Campaign
dear = record {
  id = 7;
  client_id = 1;
  budget_usd = 0;
  target_cpl = some 2000;
  target_ctr = none;
  impressions = 0;
  clicks = 0;
  leads = 2;
  spend = 10000;
  revenue = 0;
}

abbrev cpl_key : RecKey
cpl_key = record { metric = "cpl"; campaign = 7 }

abbrev raised : Alert ℕ
raised = record {
  id = 90;
  client_id = 1;
  campaign_id = some 7;
  kind = AlertKind.alert;
  severity = AlertSeverity.low;
  status = AlertStatus.acknowledged;
  metric = some "cpl";
  threshold = some 2000;
  actual = some 2100;
  rec_key = some cpl_key;
  acknowledged_by = some 3;
  resolved_by = none;
}

one_campaign : HasUniqueIds (dear ∷ [])
unfolding count
one_campaign i = ground arith

one_alert : IsDeduped 1 (raised ∷ [])
unfolding count
one_alert k = ground arith

evaluated-live_example :
    count (live_with 1 cpl_key) (evaluate cents 91 1 (dear ∷ []) (raised ∷ [])).0
    ≡ bit (any (finds cpl_key) (breaches cents 1 (dear ∷ [])))
evaluated-live_example =
    evaluated-live cents 91 1 (dear ∷ []) (raised ∷ []) cpl_key one_campaign one_alert

evaluate-again_example :
    let again =
      (evaluate cents 92 1 (dear ∷ []) (evaluate cents 91 1 (dear ∷ []) (raised ∷ [])).0).1 in
    (again.opened_count ≡ 0)
    × (again.auto_resolved_count ≡ 0)
    × (again.updated_count ≡ length (breaches cents 1 (dear ∷ [])))
evaluate-again_example =
    evaluate-again cents 91 92 1 (dear ∷ []) (raised ∷ []) one_campaign one_alert
