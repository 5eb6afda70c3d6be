-- ===== src/RateLimit/Window.antt =====
-- The bound of the memory store: in no window are more hits of a key admitted than the limit says.
pub mod History
use mathlib.Core.Path.{subst}
use in_work_marketing_os_bac.Base.{
  ℕ, ◌+◌, ◌≤◌, String, Bool, true, false, none, some, List, [], ◌∷◌, ◌++◌, ◌≡◌, ◌⊎◌, inl, inr, refl,
  sym, ap, arith, ltb, not, if◌then◌else◌, find_by, keep_if, count, remove_if, Option-cases,
  Bool-cases, ◌∙◌,
}
use in_work_marketing_os_bac.Base.Rows.{
  find_by-remove_if, find_by-remove_if_missing, count-remove_if_le,
}
use in_work_marketing_os_bac.Base.Selects.{find_by-remove_if_kept, find_by-remove_other}
use in_work_marketing_os_bac.Model.Tables.{Text}
use in_work_marketing_os_bac.RateLimit.{
  bucket_ttl, sweep_interval, Bucket, Store, empty_store, is_bucket, all_stale, prune,
  enforce_scope_cap, hits_or_empty, hits_of, put, admit, allow, forget,
}
use in_work_marketing_os_bac.RateLimit.Rows.{
  Differ, hits_of-put, count-put, hits_of-put_other, count-put_other, other_bucket,
}
use in_work_marketing_os_bac.RateLimit.Window.History.{
  in_window, Tracks, Tracks-later, Tracks-stale, Tracks-admit,
}

-- The buckets after a call of `allow`, before the cap.
abbrev pub written : Store → ℕ → String → Text → ℕ → ℕ → List Bucket
written st now t l times s =
    put (prune st now).buckets t l (admit now times s (hits_of (prune st now).buckets t l)).0

-- The call evicts no bucket: its scope has room.
abbrev pub NoEviction : Store → ℕ → String → Text → ℕ → ℕ → Type 0
NoEviction st now t l times s =
    enforce_scope_cap t (written st now t l times s) ≡ written st now t l times s

-- The calls on a store since it was empty, its clock, and the hits of one key that it admitted. That key
-- is always called with the same limit, and forgotten by no call.
pub data Run (scope : String) (key : Text) (times s : ℕ) : Store → ℕ → List ℕ → Type 0 where
  starts : Run scope key times s empty_store 0 []
  hit :
      {st : Store} {last : ℕ} {admitted : List ℕ} (now : ℕ)
      → Run scope key times s st last admitted
      → last ≤ now
      → NoEviction st now scope key times s
      → Run scope key times s
          (allow st now scope key times s).0
          now
          (if (allow st now scope key times s).1 then admitted ++ now ∷ [] else admitted)
  other :
      {st : Store} {last : ℕ} {admitted : List ℕ} (now : ℕ) (t : String) (l : Text) (times' s' : ℕ)
      → Differ scope key t l
      → Run scope key times s st last admitted
      → last ≤ now
      → NoEviction st now t l times' s'
      → Run scope key times s (allow st now t l times' s').0 now admitted
  forgets :
      {st : Store} {last : ℕ} {admitted : List ℕ} (t : String) (l : Text)
      → Differ scope key t l
      → Run scope key times s st last admitted
      → Run scope key times s (forget st t l) last admitted

module _ (scope : String) (key : Text) (times s : ℕ) where
  abbrev key_bucket : Bucket → Bool
  key_bucket = is_bucket scope key

  -- The bucket tracks what was admitted, and is the only one of its key.
  abbrev Tracked : ℕ → List ℕ → List Bucket → Type 0
  Tracked now admitted bs =
      Tracks times s now admitted (hits_of bs scope key) × (count key_bucket bs ≤ 1)

  prune-Tracked :
      (st : Store) (now : ℕ) (admitted : List ℕ)
      → s ≤ bucket_ttl
      → Tracked now admitted st.buckets
      → Tracked now admitted (prune st now).buckets
  unfolding prune hits_of
  prune-Tracked st now admitted b (r, u) =
      elim (Bool-cases (ltb now (st.last_sweep_at + sweep_interval))) [
        | inl e ↦ rw e (r, u)
        | inr e ↦ rw e (
          kept (Option-cases (find_by key_bucket st.buckets)),
          ground (
            arith,
            count-remove_if_le key_bucket (λ (x : Bucket). all_stale now x.hits) st.buckets,
          ),
        )
      ]
    where
      kept :
          (find_by key_bucket st.buckets ≡ none)
            ⊎ ((x : Bucket) × (find_by key_bucket st.buckets ≡ some x))
          → Tracks times s now admitted
              (hits_of (remove_if (λ (x : Bucket). all_stale now x.hits) st.buckets) scope key)
      kept (inl e) =
          let held : Tracks times s now admitted [] = rw e at r in
          rw
            (find_by-remove_if_missing key_bucket (λ (x : Bucket). all_stale now x.hits) st.buckets
              e)
            held
      kept (inr (x, e)) =
          let held : Tracks times s now admitted x.hits = rw e at r in
          elim (Bool-cases (all_stale now x.hits)) [
            | inl stale ↦
                rw
                  (find_by-remove_if key_bucket (λ (y : Bucket). all_stale now y.hits) st.buckets x
                    e stale u)
                  (Tracks-stale b stale held)
            | inr live ↦
                rw
                  (find_by-remove_if_kept key_bucket (λ (y : Bucket). all_stale now y.hits)
                    st.buckets x e live)
                  held
          ]

  -- A call of `allow` writes the one bucket.
  allow_buckets :
      (st : Store) (now : ℕ) (t : String) (l : Text) (times' s' : ℕ)
      → NoEviction st now t l times' s'
      → (allow st now t l times' s').0.buckets ≡ written st now t l times' s'
  unfolding allow
  allow_buckets st now t l times' s' room =
      elim (Bool-cases (admit now times' s' (hits_of (prune st now).buckets t l)).1) [
        | inl e ↦ rw (e, allow) room
        | inr e ↦ rw (e, allow) refl
      ]

  starts-Tracked : Tracked 0 [] empty_store.buckets
  unfolding hits_of find_by count
  starts-Tracked = (
    record {
      gone = [];
      split = refl;
      aged_out = tt;
      ascending = tt;
      past = tt;
      bounded = λ t. omega arith;
    },
    omega arith,
  )

  other-Tracked :
      (now : ℕ) (admitted : List ℕ) (t : String) (l : Text) (hs : List ℕ) (bs : List Bucket)
      → Differ scope key t l
      → Tracked now admitted bs
      → Tracked now admitted (put bs t l hs)
  unfolding hits_of
  other-Tracked now admitted t l hs bs d (r, u) = (
    rw (hits_of-put_other bs scope t key l hs d) r,
    omega (arith, u, count-put_other bs scope t key l hs d),
  )

  forget-Tracked :
      (now : ℕ) (admitted : List ℕ) (t : String) (l : Text) (st : Store)
      → Differ scope key t l
      → Tracked now admitted st.buckets
      → Tracked now admitted (forget st t l).buckets
  unfolding hits_of forget
  forget-Tracked now admitted t l st d (r, u) = (
    rw
        (find_by-remove_other key_bucket (is_bucket t l) st.buckets
          (λ x h. other_bucket scope t key l x d h))
        r,
    omega (arith, u, count-remove_if_le key_bucket (is_bucket t l) st.buckets),
  )

  -- What a run keeps.
  Run-Tracked :
      {st : Store} {now : ℕ} {admitted : List ℕ}
      → s ≤ bucket_ttl
      → Run scope key times s st now admitted
      → Tracked now admitted st.buckets
  unfolding allow
  Run-Tracked b starts = starts-Tracked
  Run-Tracked b (hit {st} {last} {admitted} now run later room) =
      let (r, u) = Run-Tracked b run in
      let (r', u') = prune-Tracked st now admitted b (Tracks-later now later r, u) in
      rw (allow_buckets st now scope key times s room) (
        rw
            (hits_of-put (prune st now).buckets scope key
              (admit now times s (hits_of (prune st now).buckets scope key)).0)
            (Tracks-admit r'),
        count-put (prune st now).buckets scope key _ u',
      )
  Run-Tracked b (other {st} {last} {admitted} now t l times' s' d run later room) =
      let (r, u) = Run-Tracked b run in
      rw (allow_buckets st now t l times' s' room) (
        other-Tracked now admitted t l _ (prune st now).buckets d
          (prune-Tracked st now admitted b (Tracks-later now later r, u)))
  Run-Tracked b (forgets {st} {last} {admitted} t l d run) =
      forget-Tracked last admitted t l st d (Run-Tracked b run)

-- For a key that is always called with the same limit `times` per `s`, at most the age at which buckets are
-- swept, and while no bucket is evicted: every window of length `s` holds at most `times` admitted
-- hits of the key, whatever other keys are called, swept or forgotten in between.
pub Run-count :
    (scope : String) (key : Text) (times s : ℕ) (st : Store) (now : ℕ) (admitted : List ℕ) (t : ℕ)
    → s ≤ bucket_ttl
    → Run scope key times s st now admitted
    → count (in_window t s) admitted ≤ times
Run-count scope key times s st now admitted t b run =
    (Run-Tracked scope key times s b run).0.bounded t
