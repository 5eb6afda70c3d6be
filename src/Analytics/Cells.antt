-- ===== src/Analytics/Cells.antt =====
-- What a batch of daily facts leaves in each cell.
use in_work_marketing_os_bac.Base.{
  ℕ, false, List, [], ◌∷◌, ◌≡◌, refl, arith, Option, none, some, find_by, if◌then◌else◌, ◌∙◌,
  Bool-cases, inl, inr, count, ◌≤◌, ◌≢◌,
}
use in_work_marketing_os_bac.Base.Rows.{find_by_zero}
use in_work_marketing_os_bac.Analytics.{
  SocialPlatform, AnalyticsSource, Metrics, AnalyticsDailyIn, AnalyticsDaily, is_day, is_cell,
  put_row, dedup, upsert_cell, upsert_cells, bulk_upsert,
}

-- What a table holds in a cell.
abbrev pub held : Option AnalyticsDaily → Option (Metrics × AnalyticsSource)
held none = none
held (some c) = some (c.metrics, c.source)

abbrev pub cell : ℕ → ℕ → SocialPlatform → List AnalyticsDaily → Option (Metrics × AnalyticsSource)
cell client_id d p cells = held (find_by (is_cell client_id d p) cells)

-- The last row of a batch for a day of a platform.
unfoldable pub last_row :
    ℕ → SocialPlatform → List AnalyticsDailyIn → Option AnalyticsDailyIn → Option AnalyticsDailyIn
last_row d p [] found = found
last_row d p (row ∷ rows) found = last_row d p rows (if is_day d p row then some row else found)

-- A cell after a row is written to it, if there is one.
abbrev pub written :
    AnalyticsSource
    → Option AnalyticsDailyIn
    → Option (Metrics × AnalyticsSource)
    → Option (Metrics × AnalyticsSource)
written source none old = old
written source (some row) old = some (row.metrics, source)

module _ (d : ℕ) (p : SocialPlatform) where
  find_by-put_row :
      (row : AnalyticsDailyIn) (seen : List AnalyticsDailyIn)
      → find_by (is_day d p) (put_row row seen)
        ≡ (if is_day d p row then some row else find_by (is_day d p) seen)
  unfolding put_row find_by
  find_by-put_row row [] = refl
  find_by-put_row row (r ∷ rs) = ground (arith, find_by-put_row row rs)

  count-put_row :
      (row : AnalyticsDailyIn) (seen : List AnalyticsDailyIn)
      → count (is_day d p) seen ≤ 1
      → count (is_day d p) (put_row row seen) ≤ 1
  unfolding put_row count
  count-put_row row [] h = ground arith
  count-put_row row (r ∷ rs) h = ground (arith, count-put_row row rs, unchanged row rs)
    where
      unchanged :
          (row : AnalyticsDailyIn) (seen : List AnalyticsDailyIn)
          → is_day d p row ≡ false
          → count (is_day d p) (put_row row seen) ≡ count (is_day d p) seen
      unchanged row [] h = ground arith
      unchanged row (r ∷ rs) h = ground (arith, unchanged row rs)

  find_by-dedup :
      (rows seen : List AnalyticsDailyIn)
      → find_by (is_day d p) (dedup seen rows) ≡ last_row d p rows (find_by (is_day d p) seen)
  unfolding dedup last_row
  find_by-dedup [] seen = refl
  find_by-dedup (row ∷ rows) seen =
      rw (find_by-dedup rows (put_row row seen), find_by-put_row row seen) refl

  count-dedup :
      (rows seen : List AnalyticsDailyIn)
      → count (is_day d p) seen ≤ 1
      → count (is_day d p) (dedup seen rows) ≤ 1
  unfolding dedup
  count-dedup [] seen h = h
  count-dedup (row ∷ rows) seen h = count-dedup rows (put_row row seen) (count-put_row row seen h)

module _ (client_id : ℕ) (source : AnalyticsSource) (d : ℕ) (p : SocialPlatform) where
  cell-upsert_cell :
      (row : AnalyticsDailyIn) (cells : List AnalyticsDaily)
      → cell client_id d p (upsert_cell client_id source row cells)
        ≡ (if is_day d p row then some (row.metrics, source) else cell client_id d p cells)
  unfolding upsert_cell find_by
  cell-upsert_cell row [] = ground arith
  cell-upsert_cell row (c ∷ cells) = ground (arith, cell-upsert_cell row cells)

  cell-upsert_cells :
      (rows : List AnalyticsDailyIn) (cells : List AnalyticsDaily)
      → count (is_day d p) rows ≤ 1
      → cell client_id d p (upsert_cells client_id source rows cells)
        ≡ written source (find_by (is_day d p) rows) (cell client_id d p cells)
  unfolding upsert_cells find_by count
  cell-upsert_cells [] cells h = refl
  cell-upsert_cells (row ∷ rows) cells h = elim (Bool-cases (is_day d p row)) [
    | inl e ↦
        rw
          (
            e,
            cell-upsert_cells rows (upsert_cell client_id source row cells) (ground arith),
            find_by_zero (is_day d p) rows (ground arith),
            cell-upsert_cell row cells,
            e,
          )
          refl
    | inr e ↦
        rw
          (
            e,
            cell-upsert_cells rows (upsert_cell client_id source row cells) (ground arith),
            cell-upsert_cell row cells,
            e,
          )
          refl
  ]

  upsert_cell-other :
      (other : ℕ) (row : AnalyticsDailyIn) (cells : List AnalyticsDaily)
      → other ≢ client_id
      → cell other d p (upsert_cell client_id source row cells) ≡ cell other d p cells
  unfolding upsert_cell find_by
  upsert_cell-other other row [] h = ground arith
  upsert_cell-other other row (c ∷ cells) h = ground (arith, upsert_cell-other other row cells)

  upsert_cells-other :
      (other : ℕ) (rows : List AnalyticsDailyIn) (cells : List AnalyticsDaily)
      → other ≢ client_id
      → cell other d p (upsert_cells client_id source rows cells) ≡ cell other d p cells
  unfolding upsert_cells
  upsert_cells-other other [] cells h = refl
  upsert_cells-other other (row ∷ rows) cells h =
      upsert_cells-other other rows (upsert_cell client_id source row cells) h
      ∙ upsert_cell-other other row cells h

  -- After a batch of daily facts, for every day and platform: the client's cell holds the metrics of the last row of
  -- the batch for it with the batch's source, or what it held before if there is none; the cells of other clients
  -- hold what they did.
  pub cell-bulk_upsert :
      (other : ℕ) (rows : List AnalyticsDailyIn) (cells : List AnalyticsDaily)
      → other ≢ client_id
      → (cell client_id d p (bulk_upsert client_id source rows cells).0
          ≡ written source (last_row d p rows none) (cell client_id d p cells))
        × (cell other d p (bulk_upsert client_id source rows cells).0 ≡ cell other d p cells)
  unfolding bulk_upsert
  cell-bulk_upsert other rows cells h = (
    rw
        (
          cell-upsert_cells (dedup [] rows) cells
              (count-dedup d p rows [] (unfold count in omega arith)),
          find_by-dedup d p rows [],
        )
        (unfold find_by in refl),
    upsert_cells-other other (dedup [] rows) cells h,
  )
