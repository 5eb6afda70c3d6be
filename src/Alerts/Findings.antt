-- ===== src/Alerts/Findings.antt =====
-- The findings of an evaluation, counted by their keys.
use in_work_marketing_os_bac.Base.{
  ℕ, String, str_eq, ◌+◌, ◌≤◌, List, [], ◌∷◌, ◌==◌, ◌&&◌, arith, count, eq_iff, bit,
}
use in_work_marketing_os_bac.Base.Rows.{count-append}
use in_work_marketing_os_bac.Alerts.{
  RecKey, Campaign, Floats, finds, all_findings, findings_for, cpl_findings, ctr_findings,
  budget_findings, roas_findings,
}

module _ {Float : Type 0} (fl : Floats Float) (k : RecKey) where
  one_metric : (m : String) (c : Campaign) → ℕ
  one_metric m c = bit (str_eq m k.metric && c.id == k.campaign)

  count-cpl_findings : (c : Campaign) → count (finds k) (cpl_findings fl c) ≤ one_metric "cpl" c
  unfolding cpl_findings count one_metric
  count-cpl_findings c = ground arith

  count-ctr_findings : (c : Campaign) → count (finds k) (ctr_findings fl c) ≤ one_metric "ctr" c
  unfolding ctr_findings count one_metric
  count-ctr_findings c = ground arith

  count-budget_findings :
      (c : Campaign) → count (finds k) (budget_findings fl c) ≤ one_metric "budget" c
  unfolding budget_findings count one_metric
  count-budget_findings c = ground arith

  count-roas_findings : (c : Campaign) → count (finds k) (roas_findings fl c) ≤ one_metric "roas" c
  unfolding roas_findings count one_metric
  count-roas_findings c = ground arith

  metrics_differ :
      (c : Campaign)
      → one_metric "cpl" c + one_metric "ctr" c + one_metric "budget" c + one_metric "roas" c
        ≤ bit (c.id == k.campaign)
  unfolding one_metric
  metrics_differ c = ground (
    arith,
    eq_iff "cpl" k.metric,
    eq_iff "ctr" k.metric,
    eq_iff "budget" k.metric,
    eq_iff "roas" k.metric,
    eq_iff "cpl" "ctr",
    eq_iff "cpl" "budget",
    eq_iff "cpl" "roas",
    eq_iff "ctr" "budget",
    eq_iff "ctr" "roas",
    eq_iff "budget" "roas",
  )

  count-findings_for :
      (c : Campaign) → count (finds k) (findings_for fl c) ≤ bit (c.id == k.campaign)
  unfolding findings_for
  count-findings_for c =
      rw (count-append, count-append, count-append)
        (omega (
          arith,
          count-cpl_findings c,
          count-ctr_findings c,
          count-budget_findings c,
          count-roas_findings c,
          metrics_differ c,
        ))

  -- With unique campaign ids no two findings have one key.
  pub count-all_findings :
      (cs : List Campaign)
      → count (finds k) (all_findings fl cs) ≤ count (λ (c : Campaign). c.id == k.campaign) cs
  unfolding all_findings count
  count-all_findings [] = omega arith
  count-all_findings (c ∷ cs) =
      rw (count-append (finds k) (findings_for fl c) (all_findings fl cs))
        (ground (arith, count-findings_for c, count-all_findings cs))
