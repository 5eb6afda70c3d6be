-- ===== src/RateLimit.antt =====
-- app/core/rate_limit.py: the sliding-window limiter, in memory and as the Lua script that Redis runs.
-- Times are whole microseconds of the store's own clock; the source compares and subtracts floats.
-- The memory store's nested dicts are one list of buckets, in the order in which they were created.
pub mod Rows
pub mod Window
pub mod Shared
use in_work_marketing_os_bac.Base.{
  ℕ, suc, ◌+◌, ◌-◌, ◌*◌, String, Bool, true, false, Option, none, some, List, [], ◌∷◌, ◌++◌, ◌&&◌,
  not, leb, ltb, str_eq, if◌then◌else◌, is_some, length, take, any, find_by, keep_if, update_if,
  count, remove_if,
}
use in_work_marketing_os_bac.Errors.{with_number, text, too_many_requests, Result, ok, err}
use in_work_marketing_os_bac.Model.Tables.{Text}
use in_work_marketing_os_bac.Audit.{text_eq}

abbrev pub microseconds : ℕ
microseconds = 1_000_000

abbrev pub bucket_ttl : ℕ
bucket_ttl = 3600 * microseconds

abbrev pub sweep_interval : ℕ
sweep_interval = 300 * microseconds

abbrev pub max_keys_per_scope : ℕ
max_keys_per_scope = 50_000

-- One deque of `_hits`, oldest hit first.
pub record Bucket : Type 0 where
  pub scope : String
  pub key : Text
  pub hits : List ℕ

pub record Store : Type 0 where
  pub buckets : List Bucket
  pub last_sweep_at : ℕ

abbrev pub empty_store : Store
empty_store = record { buckets = []; last_sweep_at = 0 }

abbrev pub is_bucket : String → Text → Bucket → Bool
is_bucket scope key b = str_eq b.scope scope && text_eq b.key key

abbrev pub of_scope : String → Bucket → Bool
of_scope scope b = str_eq b.scope scope

-- `h <= now - age`
abbrev pub aged : ℕ → ℕ → ℕ → Bool
aged now age h = leb (h + age) now

-- `not bucket or bucket[-1] <= stale_before`
unfoldable pub all_stale : ℕ → List ℕ → Bool
all_stale now [] = true
all_stale now (h ∷ []) = aged now bucket_ttl h
all_stale now (h ∷ k ∷ hs) = all_stale now (k ∷ hs)

-- `_prune`
unfoldable pub prune : Store → ℕ → Store
prune st now = if ltb now (st.last_sweep_at + sweep_interval) then st else record {
  buckets = remove_if (λ (b : Bucket). all_stale now b.hits) st.buckets;
  last_sweep_at = now;
}

-- `kv[1][-1] if kv[1] else 0.0`
unfoldable pub newest : List ℕ → ℕ
newest [] = 0
newest (h ∷ []) = h
newest (h ∷ k ∷ hs) = newest (k ∷ hs)

insert_bucket : Bucket → List Bucket → List Bucket
insert_bucket b [] = b ∷ []
insert_bucket b (c ∷ cs) =
    if leb (newest b.hits) (newest c.hits) then b ∷ c ∷ cs else c ∷ insert_bucket b cs

-- `sorted(keys.items(), key=…)`
by_newest : List Bucket → List Bucket
unfolding insert_bucket
by_newest [] = []
by_newest (b ∷ bs) = insert_bucket b (by_newest bs)

-- `_enforce_scope_cap`
unfoldable pub enforce_scope_cap : String → List Bucket → List Bucket
unfolding by_newest
enforce_scope_cap scope bs =
    let keys = keep_if (of_scope scope) bs in
    if leb (length keys) max_keys_per_scope
    then bs
    else let evicted = take (length keys - max_keys_per_scope) (by_newest keys) in
      remove_if (λ (b : Bucket). any (λ (e : Bucket). is_bucket e.scope e.key b) evicted) bs

-- `while bucket and bucket[0] <= cutoff: bucket.popleft()`
unfoldable pub drop_aged : ℕ → ℕ → List ℕ → List ℕ
drop_aged now seconds [] = []
drop_aged now seconds (h ∷ hs) =
    let rest = drop_aged now seconds hs in if aged now seconds h then rest else h ∷ hs

abbrev pub hits_or_empty : Option Bucket → List ℕ
hits_or_empty none = []
hits_or_empty (some b) = b.hits

-- `self._hits[scope][key]`, which the defaultdicts create when it is missing
unfoldable pub hits_of : List Bucket → String → Text → List ℕ
hits_of bs scope key = hits_or_empty (find_by (is_bucket scope key) bs)

unfoldable pub put : List Bucket → String → Text → List ℕ → List Bucket
put bs scope key hs =
    if is_some (find_by (is_bucket scope key) bs)
    then update_if (is_bucket scope key) (λ (b : Bucket). record b { hits = hs }) bs
    else bs ++ record { scope = scope; key = key; hits = hs } ∷ []

-- what `allow` decides about one bucket, and the bucket after it
unfoldable pub admit : ℕ → ℕ → ℕ → List ℕ → List ℕ × Bool
admit now times seconds hits =
    let bucket = drop_aged now seconds hits in
    if leb times (length bucket) then (bucket, false) else (bucket ++ now ∷ [], true)

-- `MemoryRateLimitStore.allow`
unfoldable pub allow : Store → ℕ → String → Text → ℕ → ℕ → Store × Bool
allow st now scope key times seconds =
    let swept = prune st now in
    let (bucket, allowed) = admit now times seconds (hits_of swept.buckets scope key) in
    let bs = put swept.buckets scope key bucket in
    (record swept { buckets = if allowed then enforce_scope_cap scope bs else bs }, allowed)

-- `MemoryRateLimitStore.forget`
unfoldable pub forget : Store → String → Text → Store
forget st scope key = record st { buckets = remove_if (is_bucket scope key) st.buckets }

-- `_REDIS_SLIDING_WINDOW_LUA` on the scores of one sorted set; the script's EXPIRE drops a set
-- only after every member of it has left the window
unfoldable pub redis_admit : ℕ → ℕ → ℕ → List ℕ → List ℕ × Bool
redis_admit now times seconds scores =
    let left = remove_if (aged now seconds) scores in
    if leb times (length left) then (left, false) else (left ++ now ∷ [], true)

-- `enforce`, where `enabled` is `settings.app.rate_limit_enabled`
unfoldable pub enforce : Bool → Store → ℕ → String → Text → ℕ → ℕ → Store × Result (Unit {0})
enforce enabled st now scope key times seconds =
    if not enabled
    then (st, ok tt)
    else let (st', allowed) = allow st now scope key times seconds in
      (
        st',
        (if allowed
            then ok tt
            else err (
                too_many_requests
                  (text "Too many requests. Please slow down and try again shortly."))),
      )

-- `clear`
unfoldable pub clear : Bool → Store → String → Text → Store
clear enabled st scope key = if not enabled then st else forget st scope key
