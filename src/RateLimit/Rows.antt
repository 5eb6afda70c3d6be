-- ===== src/RateLimit/Rows.antt =====
-- The buckets of the memory store as a table: what a write to one key does to the hits of another.
use in_work_marketing_os_bac.Base.{
  ℕ, ◌≤◌, String, true, false, List, [], ◌∷◌, ◌≡◌, ◌≢◌, ◌⊎◌, inl, inr, refl, arith, eq_iff, eq_refl,
  find_by, count, Option-cases, Bool-cases,
}
use in_work_marketing_os_bac.Base.Rows.{
  find_by-update_if, find_by-append, count-append, count-update_eq, count_zero,
}
use in_work_marketing_os_bac.Base.Selects.{find_by-update_other, count-update_other}
use in_work_marketing_os_bac.Model.Tables.{Text}
use in_work_marketing_os_bac.Audit.Laws.{text_eq_refl, text_eq_sound}
use in_work_marketing_os_bac.RateLimit.{Bucket, is_bucket, hits_of, put}

pub is_bucket_self :
    (s : String) (k : Text) (hs : List ℕ)
    → is_bucket s k (record { scope = s; key = k; hits = hs }) ≡ true
is_bucket_self s k hs = rw (eq_refl s, text_eq_refl k)

-- A bucket is that of one scope and key only.
pub is_bucket_keys :
    (s t : String) (k l : Text) (b : Bucket)
    → is_bucket s k b ≡ true
    → is_bucket t l b ≡ true
    → (t ≡ s) × (l ≡ k)
is_bucket_keys s t k l b h i =
    ground (arith, eq_iff b.scope s, eq_iff b.scope t, text_eq_sound b.key k, text_eq_sound b.key l)

-- The buckets of the key that a put wrote.
pub hits_of-put :
    (bs : List Bucket) (s : String) (k : Text) (hs : List ℕ) → hits_of (put bs s k hs) s k ≡ hs
unfolding hits_of put
hits_of-put bs s k hs = elim (Option-cases (find_by (is_bucket s k) bs)) [
  | inl e ↦
      rw (e, put, find_by-append (is_bucket s k) bs (record { scope = s; key = k; hits = hs } ∷ []))
        (unfold find_by in ground (arith, is_bucket_self s k hs))
  | inr (b, e) ↦
      rw
        (
          e,
          put,
          find_by-update_if (is_bucket s k) (λ (b : Bucket). record b { hits = hs }) bs b
              (λ x. refl) e,
        )
        refl
]

pub count-put :
    (bs : List Bucket) (s : String) (k : Text) (hs : List ℕ)
    → count (is_bucket s k) bs ≤ 1
    → count (is_bucket s k) (put bs s k hs) ≤ 1
unfolding put
count-put bs s k hs h = elim (Option-cases (find_by (is_bucket s k) bs)) [
  | inl e ↦
      rw
        (
          e,
          put,
          count-append (is_bucket s k) bs (record { scope = s; key = k; hits = hs } ∷ []),
          count_zero (is_bucket s k) bs e,
        )
        (unfold count in ground (arith, is_bucket_self s k hs))
  | inr (b, e) ↦
      rw
        (
          e,
          put,
          count-update_eq (is_bucket s k) (is_bucket s k) (λ (b : Bucket). record b { hits = hs })
              bs (λ x. refl),
        )
        h
]

-- Two scopes and keys that differ.
abbrev pub Differ : String → Text → String → Text → Type 0
Differ s k t l = (s ≢ t) ⊎ (k ≢ l)

pub other_bucket :
    (s t : String) (k l : Text) (b : Bucket)
    → Differ s k t l
    → is_bucket t l b ≡ true
    → is_bucket s k b ≡ false
other_bucket s t k l b d h = elim (Bool-cases (is_bucket s k b)) [
  | inr e ↦ e
  | inl e ↦
      let (same_scope, same_key) = is_bucket_keys t s l k b h e in
      elim d [ inl n ↦ absurd (n same_scope) | inr n ↦ absurd (n same_key) ]
]

-- A put under another scope or key leaves the hits of this one.
pub hits_of-put_other :
    (bs : List Bucket) (s t : String) (k l : Text) (hs : List ℕ)
    → Differ s k t l
    → find_by (is_bucket s k) (put bs t l hs) ≡ find_by (is_bucket s k) bs
unfolding put
hits_of-put_other bs s t k l hs d = elim (Option-cases (find_by (is_bucket t l) bs)) [
  | inl e ↦
      rw (e, put, find_by-append (is_bucket s k) bs (record { scope = t; key = l; hits = hs } ∷ []))
        (unfold find_by in
          ground (
            arith,
            other_bucket s t k l (record { scope = t; key = l; hits = hs }) d
                (is_bucket_self t l hs),
          ))
  | inr (b, e) ↦
      rw (e, put)
        (find_by-update_other (is_bucket s k) (is_bucket t l)
          (λ (b : Bucket). record b { hits = hs }) bs
          (λ x h. (other_bucket s t k l x d h, other_bucket s t k l x d h)))
]

pub count-put_other :
    (bs : List Bucket) (s t : String) (k l : Text) (hs : List ℕ)
    → Differ s k t l
    → count (is_bucket s k) (put bs t l hs) ≡ count (is_bucket s k) bs
unfolding put
count-put_other bs s t k l hs d = elim (Option-cases (find_by (is_bucket t l) bs)) [
  | inl e ↦
      rw (e, put, count-append (is_bucket s k) bs (record { scope = t; key = l; hits = hs } ∷ []))
        (unfold count in
          ground (
            arith,
            other_bucket s t k l (record { scope = t; key = l; hits = hs }) d
                (is_bucket_self t l hs),
          ))
  | inr (b, e) ↦
      rw (e, put)
        (count-update_other (is_bucket s k) (is_bucket t l) (λ (b : Bucket). record b { hits = hs })
          bs (λ x h. (other_bucket s t k l x d h, other_bucket s t k l x d h)))
]
