-- ===== src/Analytics.antt =====
-- Daily facts: `AnalyticsService.ingest` of app/services/analytics_service.py and `bulk_upsert` of
-- app/repositories/analytics_repository.py. The rollups on the client's row are left out.
use in_work_marketing_os_bac.Base.{
  ℕ, Bool, true, false, List, [], ◌∷◌, ◌++◌, ◌==◌, ◌&&◌, Option, none, some, find_by, update_if,
  if◌then◌else◌, length,
}
pub mod Cells

-- the members of `SocialPlatform` that a connector writes
pub data SocialPlatform : Type 0 where
  facebook google google_lsa ga4 seo linkedin ghl : SocialPlatform

unfoldable pub platform_index : SocialPlatform → ℕ
platform_index facebook = 0
platform_index google = 1
platform_index google_lsa = 2
platform_index ga4 = 3
platform_index seo = 4
platform_index linkedin = 5
platform_index ghl = 6

pub data AnalyticsSource : Type 0 where
  connector csv synthetic : AnalyticsSource

-- `_METRICS`; money in hundredths
pub record Metrics : Type 0 where
  pub impressions : ℕ
  pub clicks : ℕ
  pub conversions : ℕ
  pub leads : ℕ
  pub spend : ℕ
  pub revenue : ℕ

pub record AnalyticsDailyIn : Type 0 where
  pub date : ℕ
  pub platform : SocialPlatform
  pub metrics : Metrics

pub record AnalyticsDaily : Type 0 where
  pub client_id : ℕ
  pub date : ℕ
  pub platform : SocialPlatform
  pub metrics : Metrics
  pub source : AnalyticsSource

abbrev pub is_day : ℕ → SocialPlatform → AnalyticsDailyIn → Bool
is_day d p r = r.date == d && platform_index r.platform == platform_index p

abbrev pub is_cell : ℕ → ℕ → SocialPlatform → AnalyticsDaily → Bool
is_cell client_id d p c =
    c.client_id == client_id && c.date == d && platform_index c.platform == platform_index p

-- `dedup[(row.date, platform_value)] = values`: a key keeps its place
unfoldable pub put_row : AnalyticsDailyIn → List AnalyticsDailyIn → List AnalyticsDailyIn
put_row row [] = row ∷ []
put_row row (r ∷ rs) = if is_day row.date row.platform r then row ∷ rs else r ∷ put_row row rs

-- the loop over `rows`
unfoldable pub dedup : List AnalyticsDailyIn → List AnalyticsDailyIn → List AnalyticsDailyIn
dedup seen [] = seen
dedup seen (row ∷ rows) = dedup (put_row row seen) rows

abbrev pub new_cell : ℕ → AnalyticsSource → AnalyticsDailyIn → AnalyticsDaily
new_cell client_id source row = record {
  client_id = client_id;
  date = row.date;
  platform = row.platform;
  metrics = row.metrics;
  source = source;
}

-- `INSERT … ON CONFLICT DO UPDATE` of one row
unfoldable pub upsert_cell :
    ℕ → AnalyticsSource → AnalyticsDailyIn → List AnalyticsDaily → List AnalyticsDaily
upsert_cell client_id source row [] = new_cell client_id source row ∷ []
upsert_cell client_id source row (c ∷ cells) =
    if is_cell client_id row.date row.platform c
    then record c { metrics = row.metrics; source = source } ∷ cells
    else c ∷ upsert_cell client_id source row cells

unfoldable pub upsert_cells :
    ℕ → AnalyticsSource → List AnalyticsDailyIn → List AnalyticsDaily → List AnalyticsDaily
upsert_cells client_id source [] cells = cells
upsert_cells client_id source (row ∷ rows) cells =
    upsert_cells client_id source rows (upsert_cell client_id source row cells)

-- `bulk_upsert`, and with it `ingest`: the table after it, and the number of cells
unfoldable pub bulk_upsert :
    ℕ → AnalyticsSource → List AnalyticsDailyIn → List AnalyticsDaily → List AnalyticsDaily × ℕ
bulk_upsert client_id source rows cells =
    (upsert_cells client_id source (dedup [] rows) cells, length (dedup [] rows))
