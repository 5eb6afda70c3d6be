-- ===== src/Alerts/Reconcile.antt =====
-- One evaluation: the live alerts of a client are those of its present breaches, one for each.
use in_work_marketing_os_bac.Base.{
  ℕ, ◌≤◌, Bool, List, [], ◌∷◌, ◌==◌, ◌≡◌, arith, any, keep_if, count, bit,
}
use in_work_marketing_os_bac.Alerts.{
  RecKey, Finding, Alert, Campaign, Floats, live_with, finds, campaigns_of, all_findings, evaluate,
  evaluated,
}
use in_work_marketing_os_bac.Alerts.Table.{count-reconciled}
use in_work_marketing_os_bac.Alerts.Findings.{count-all_findings}

-- The findings of an evaluation.
abbrev pub breaches : {Float : Type 0} → Floats Float → ℕ → List Campaign → List (Finding Float)
breaches fl client_id campaigns = all_findings fl (campaigns_of client_id campaigns)

-- No two live alerts of a client have one key.
abbrev pub IsDeduped : {Float : Type 0} → ℕ → List (Alert Float) → Type 0
IsDeduped client_id alerts = (k : RecKey) → count (live_with client_id k) alerts ≤ 1

-- Campaign ids are a primary key.
abbrev pub HasUniqueIds : List Campaign → Type 0
HasUniqueIds campaigns = (i : ℕ) → count (λ (c : Campaign). c.id == i) campaigns ≤ 1

count-keep_if_le :
    (p q : Campaign → Bool) (cs : List Campaign) → count p (keep_if q cs) ≤ count p cs
unfolding count keep_if
count-keep_if_le p q [] = omega arith
count-keep_if_le p q (c ∷ cs) = ground (arith, count-keep_if_le p q cs)

-- With unique campaign ids, and where no two live alerts of the client have one key: after an evaluation the
-- client has exactly one live alert for each key that a campaign breaches now, and none for any other key.
pub evaluated-live :
    {Float : Type 0} (fl : Floats Float) (new_id client_id : ℕ) (campaigns : List Campaign)
    (alerts : List (Alert Float)) (k : RecKey)
    → HasUniqueIds campaigns
    → IsDeduped client_id alerts
    → count (live_with client_id k) (evaluate fl new_id client_id campaigns alerts).0
      ≡ bit (any (finds k) (breaches fl client_id campaigns))
unfolding evaluate evaluated
evaluated-live fl new_id client_id campaigns alerts k unique d =
    count-reconciled client_id k alerts new_id (breaches fl client_id campaigns) (d k) (
      omega (
        arith,
        count-all_findings fl k (campaigns_of client_id campaigns),
        unique k.campaign,
        count-keep_if_le (λ (c : Campaign). c.id == k.campaign)
            (λ (c : Campaign). c.client_id == client_id) campaigns,
      ))
