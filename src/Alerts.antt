-- ===== src/Alerts.antt =====
-- KPI alerts: app/services/alert_service.py and app/repositories/alert_repository.py.
-- The titles and details that people read are left out. `float` and its operations are a parameter.
use in_work_marketing_os_bac.Base.{
  ℕ, ◌+◌, String, Bool, true, false, Option, none, some, List, [], ◌∷◌, ◌++◌, ◌==◌, ◌&&◌, ◌||◌, not,
  str_eq, is_some, any, length, if◌then◌else◌, find_by, update_if, keep_if, count,
}
use in_work_marketing_os_bac.Errors.{text, not_found, Result, ok, err, or_raise}
pub mod Table
pub mod Findings
pub mod Reconcile
pub mod Again

pub data AlertKind : Type 0 where
  alert opportunity : AlertKind

pub data AlertSeverity : Type 0 where
  low medium high : AlertSeverity

-- `opened` is the member `open`.
pub data AlertStatus : Type 0 where
  opened acknowledged resolved : AlertStatus

-- Floating-point numbers: of whole numbers, of hundredths and thousandths, arithmetic and order.
pub record Floats (Float : Type 0) : Type 0 where
  pub of_int : ℕ → Float
  pub hundredths : ℕ → Float
  pub thousandths : ℕ → Float
  pub div : Float → Float → Float
  pub mul : Float → Float → Float
  pub sub : Float → Float → Float
  pub lt : Float → Float → Bool
  pub le : Float → Float → Bool
  pub round2 : Float → Float

-- Money is in hundredths, a target rate in thousandths of a percent.
pub record Campaign : Type 0 where
  pub id : ℕ
  pub client_id : ℕ
  pub budget_usd : ℕ
  pub target_cpl : Option ℕ
  pub target_ctr : Option ℕ
  pub impressions : ℕ
  pub clicks : ℕ
  pub leads : ℕ
  pub spend : ℕ
  pub revenue : ℕ

-- `f"{metric}:{c.id}"`
pub record RecKey : Type 0 where
  pub metric : String
  pub campaign : ℕ

abbrev pub key_eq : RecKey → RecKey → Bool
key_eq k l = str_eq k.metric l.metric && k.campaign == l.campaign

pub record Finding (Float : Type 0) : Type 0 where
  pub campaign_id : ℕ
  pub kind : AlertKind
  pub severity : AlertSeverity
  pub metric : String
  pub threshold : Float
  pub actual : Float
  pub rec_key : RecKey

pub record Alert (Float : Type 0) : Type 0 where
  pub id : ℕ
  pub client_id : ℕ
  pub campaign_id : Option ℕ
  pub kind : AlertKind
  pub severity : AlertSeverity
  pub status : AlertStatus
  pub metric : Option String
  pub threshold : Option Float
  pub actual : Option Float
  pub rec_key : Option RecKey
  pub acknowledged_by : Option ℕ
  pub resolved_by : Option ℕ

-- `c.target_cpl`: absent or zero counts as false
abbrev pub truthy : Option ℕ → Bool
truthy none = false
truthy (some n) = not (n == 0)

abbrev pub value : Option ℕ → ℕ
value none = 0
value (some n) = n

module _ {Float : Type 0} (fl : Floats Float) where
  -- `_severity_for`
  unfoldable pub severity_for : Float → AlertSeverity
  severity_for overshoot =
      if fl.le (fl.hundredths 50) overshoot
      then high
      else if fl.le (fl.hundredths 20) overshoot
      then medium
      else low

  abbrev pub when : Bool → Finding Float → List (Finding Float)
  when true f = f ∷ []
  when false f = []

  -- CPL over target
  unfoldable pub cpl_findings : Campaign → List (Finding Float)
  cpl_findings c =
      let cpl = fl.div (fl.hundredths c.spend) (fl.of_int c.leads) in
      let target = fl.hundredths (value c.target_cpl) in
      when (truthy c.target_cpl && not (c.leads == 0) && fl.lt target cpl) (record {
        campaign_id = c.id;
        kind = alert;
        severity = severity_for (fl.div (fl.sub cpl target) target);
        metric = "cpl";
        threshold = target;
        actual = fl.round2 cpl;
        rec_key = record { metric = "cpl"; campaign = c.id };
      })

  -- CTR under target
  unfoldable pub ctr_findings : Campaign → List (Finding Float)
  ctr_findings c =
      let ctr = fl.mul (fl.div (fl.of_int c.clicks) (fl.of_int c.impressions)) (fl.of_int 100) in
      let target = fl.thousandths (value c.target_ctr) in
      when (truthy c.target_ctr && not (c.impressions == 0) && fl.lt ctr target) (record {
        campaign_id = c.id;
        kind = alert;
        severity = severity_for (fl.div (fl.sub target ctr) target);
        metric = "ctr";
        threshold = target;
        actual = fl.round2 ctr;
        rec_key = record { metric = "ctr"; campaign = c.id };
      })

  -- budget pace
  unfoldable pub budget_findings : Campaign → List (Finding Float)
  budget_findings c =
      let spend = fl.hundredths c.spend in
      let budget = fl.hundredths c.budget_usd in
      when (not (c.budget_usd == 0) && fl.le (fl.mul budget (fl.hundredths 90)) spend) (record {
        campaign_id = c.id;
        kind = alert;
        severity = if fl.le budget spend then high else medium;
        metric = "budget";
        threshold = budget;
        actual = fl.round2 spend;
        rec_key = record { metric = "budget"; campaign = c.id };
      })

  -- strong ROAS
  unfoldable pub roas_findings : Campaign → List (Finding Float)
  roas_findings c =
      let roas = fl.div (fl.hundredths c.revenue) (fl.hundredths c.spend) in
      when (not (c.spend == 0) && fl.le (fl.of_int 3) roas) (record {
        campaign_id = c.id;
        kind = opportunity;
        severity = medium;
        metric = "roas";
        threshold = fl.of_int 3;
        actual = fl.round2 roas;
        rec_key = record { metric = "roas"; campaign = c.id };
      })

  -- `_findings_for`
  unfoldable pub findings_for : Campaign → List (Finding Float)
  findings_for c = cpl_findings c ++ ctr_findings c ++ budget_findings c ++ roas_findings c

  unfoldable pub all_findings : List Campaign → List (Finding Float)
  all_findings [] = []
  all_findings (c ∷ cs) = findings_for c ++ all_findings cs

abbrev pub is_live : AlertStatus → Bool
is_live resolved = false
is_live _ = true

abbrev pub is_opened : AlertStatus → Bool
is_opened opened = true
is_opened _ = false

abbrev pub has_key : RecKey → Option RecKey → Bool
has_key k none = false
has_key k (some j) = key_eq j k

-- the last row that passes a test
unfoldable pub find_last {ℓ} : {A : Type ℓ} → (A → Bool) → List A → Option A
find_last p [] = none
find_last p (x ∷ xs) =
    let rest = find_last p xs in elim rest [ some y ↦ some y | none ↦ if p x then some x else none ]

module _ {Float : Type 0} where
  -- a row of `live_for_client` that has a key
  abbrev pub live_with : ℕ → RecKey → Alert Float → Bool
  live_with client_id k a = a.client_id == client_id && is_live a.status && has_key k a.rec_key

  -- `live.get(key)`: of rows with one key the dict holds the last
  abbrev pub live_get : List (Alert Float) → ℕ → RecKey → Option (Alert Float)
  live_get alerts client_id k = find_last (live_with client_id k) alerts

  abbrev pub finds : RecKey → Finding Float → Bool
  finds k f = key_eq f.rec_key k

  abbrev pub updated : Finding Float → Alert Float → Alert Float
  updated f a = record a {
    severity = f.severity;
    metric = some f.metric;
    threshold = some f.threshold;
    actual = some f.actual;
    kind = f.kind;
  }

  abbrev pub new_alert : ℕ → ℕ → Finding Float → Alert Float
  new_alert new_id client_id f = record {
    id = new_id;
    client_id = client_id;
    campaign_id = some f.campaign_id;
    kind = f.kind;
    severity = f.severity;
    status = opened;
    metric = some f.metric;
    threshold = some f.threshold;
    actual = some f.actual;
    rec_key = some f.rec_key;
    acknowledged_by = none;
    resolved_by = none;
  }

  -- The first loop of `evaluate`; `before` is the table from which the dict `live` was made.
  unfoldable pub apply_findings :
      List (Alert Float) → ℕ → ℕ → List (Finding Float) → List (Alert Float) → List (Alert Float)
  apply_findings before new_id client_id [] alerts = alerts
  apply_findings before new_id client_id (f ∷ fs) alerts =
      apply_findings before (new_id + 1) client_id fs (elim (live_get before client_id f.rec_key) [
        | some existing ↦ update_if (λ (a : Alert Float). a.id == existing.id) (updated f) alerts
        | none ↦ alerts ++ new_alert new_id client_id f ∷ []
      ])

  abbrev pub holds : ℕ → Option (Alert Float) → Bool
  holds i none = false
  holds i (some a) = a.id == i

  -- `key not in seen_keys`, for the alert that the dict holds at its key
  abbrev pub unseen : List (Alert Float) → ℕ → List (Finding Float) → ℕ → Option RecKey → Bool
  unseen before client_id fs i none = false
  unseen before client_id fs i (some k) =
      not (any (finds k) fs) && holds i (live_get before client_id k)

  abbrev pub is_over : List (Alert Float) → ℕ → List (Finding Float) → Alert Float → Bool
  is_over before client_id fs a =
      a.client_id == client_id && is_live a.status && unseen before client_id fs a.id a.rec_key

  abbrev pub auto_resolved : Alert Float → Alert Float
  auto_resolved a = record a { status = resolved }

  abbrev pub is_known : List (Alert Float) → ℕ → Finding Float → Bool
  is_known alerts client_id f = is_some (live_get alerts client_id f.rec_key)

  abbrev pub is_open_of : ℕ → Alert Float → Bool
  is_open_of client_id a = a.client_id == client_id && is_opened a.status

  abbrev pub alert_of : ℕ → ℕ → Alert Float → Bool
  alert_of client_id alert_id a = a.id == alert_id && a.client_id == client_id

  -- `get_alert`
  unfoldable pub get_alert : List (Alert Float) → ℕ → ℕ → Result (Alert Float)
  get_alert alerts client_id alert_id =
      or_raise (find_by (alert_of client_id alert_id) alerts) (not_found (text "Alert not found."))

  abbrev pub acknowledged_alert : ℕ → Alert Float → Alert Float
  acknowledged_alert actor_id a = record a {
    status = acknowledged;
    acknowledged_by = some actor_id;
  }

  abbrev pub resolved_alert : ℕ → Alert Float → Alert Float
  resolved_alert actor_id a = record a { status = resolved; resolved_by = some actor_id }

  abbrev save :
      List (Alert Float)
      → (Alert Float → Alert Float)
      → Result (Alert Float)
      → List (Alert Float) × Result (Alert Float)
  save alerts f (err e) = (alerts, err e)
  save alerts f (ok a) = (update_if (λ (x : Alert Float). x.id == a.id) f alerts, ok (f a))

  unfoldable pub acknowledge :
      List (Alert Float) → ℕ → ℕ → ℕ → List (Alert Float) × Result (Alert Float)
  acknowledge alerts client_id alert_id actor_id =
      save alerts (acknowledged_alert actor_id) (get_alert alerts client_id alert_id)

  unfoldable pub resolve :
      List (Alert Float) → ℕ → ℕ → ℕ → List (Alert Float) × Result (Alert Float)
  resolve alerts client_id alert_id actor_id =
      save alerts (resolved_alert actor_id) (get_alert alerts client_id alert_id)

pub record AlertEvaluateResult (Float : Type 0) : Type 0 where
  pub evaluated_campaigns : ℕ
  pub opened_count : ℕ
  pub updated_count : ℕ
  pub auto_resolved_count : ℕ
  pub alerts : List (Alert Float)

abbrev pub campaigns_of : ℕ → List Campaign → List Campaign
campaigns_of client_id = keep_if (λ c. c.client_id == client_id)

module _ {Float : Type 0} (fl : Floats Float) where
  -- the table after `evaluate`
  unfoldable pub evaluated : ℕ → ℕ → List Campaign → List (Alert Float) → List (Alert Float)
  evaluated new_id client_id campaigns alerts =
      let fs = all_findings fl (campaigns_of client_id campaigns) in
      update_if (is_over alerts client_id fs) auto_resolved
        (apply_findings alerts new_id client_id fs alerts)

  unfoldable pub evaluate :
      ℕ → ℕ → List Campaign → List (Alert Float) → List (Alert Float) × AlertEvaluateResult Float
  evaluate new_id client_id campaigns alerts =
      let fs = all_findings fl (campaigns_of client_id campaigns) in
      let alerts' = evaluated new_id client_id campaigns alerts in
      (
        alerts',
        record {
          evaluated_campaigns = length (campaigns_of client_id campaigns);
          opened_count = count (λ f. not (is_known alerts client_id f)) fs;
          updated_count = count (is_known alerts client_id) fs;
          auto_resolved_count = count (is_over alerts client_id fs) alerts;
          alerts = keep_if (is_open_of client_id) alerts';
        },
      )
