-- ===== src/Base/Selects.antt =====
-- A SELECT after a write to rows that it does not read.
use Prim.Native.Nat.{◌≤◌}
use mathlib.Core.Path.{◌≡◌, refl}
use mathlib.Core.Logic.{inl, inr}
use mathlib.Core.Bool.{Bool, true, false}
use mathlib.Core.Option.{none, some}
use mathlib.Core.List.{List, [], ◌∷◌}
use native.Mathlib.Omega.{arith}
use in_work_marketing_os_bac.Base.Tests.{if◌then◌else◌, Bool-cases}
use in_work_marketing_os_bac.Base.Lists.{All, All-map_same}
use in_work_marketing_os_bac.Base.Rows.{find_by, keep_if, update_if, remove_if, count, count_pos}

module _ {ℓ} {A : Type ℓ} where
  pub find_by-remove_if_kept :
      (p q : A → Bool) (xs : List A) (a : A)
      → find_by p xs ≡ some a
      → q a ≡ false
      → find_by p (remove_if q xs) ≡ some a
  unfolding find_by keep_if
  find_by-remove_if_kept p q [] a h k = cc
  find_by-remove_if_kept p q (x ∷ xs) a h k = ground (arith, find_by-remove_if_kept p q xs a)

  pub find_by-update_other :
      (p q : A → Bool) (f : A → A) (xs : List A)
      → ((x : A) → q x ≡ true → (p x ≡ false) × (p (f x) ≡ false))
      → find_by p (update_if q f xs) ≡ find_by p xs
  unfolding find_by update_if
  find_by-update_other p q f [] h = refl
  find_by-update_other p q f (x ∷ xs) h = ground (arith, h x, find_by-update_other p q f xs h)

  pub count-update_other :
      (p q : A → Bool) (f : A → A) (xs : List A)
      → ((x : A) → q x ≡ true → (p x ≡ false) × (p (f x) ≡ false))
      → count p (update_if q f xs) ≡ count p xs
  unfolding count update_if
  count-update_other p q f [] h = refl
  count-update_other p q f (x ∷ xs) h = ground (arith, h x, count-update_other p q f xs h)

  pub find_by-remove_other :
      (p q : A → Bool) (xs : List A)
      → ((x : A) → q x ≡ true → p x ≡ false)
      → find_by p (remove_if q xs) ≡ find_by p xs
  unfolding find_by keep_if
  find_by-remove_other p q [] h = refl
  find_by-remove_other p q (x ∷ xs) h = ground (arith, h x, find_by-remove_other p q xs h)

  -- A DELETE of all rows that a SELECT finds.
  pub find_by-removed : (p : A → Bool) (xs : List A) → find_by p (remove_if p xs) ≡ none
  unfolding find_by keep_if
  find_by-removed p [] = refl
  find_by-removed p (x ∷ xs) = ground (arith, find_by-removed p xs)

  none_pass : (p : A → Bool) (xs : List A) → count p xs ≡ 0 → All (λ x. p x ≡ false) xs
  unfolding count
  none_pass p [] h = tt
  none_pass p (x ∷ xs) h = (ground arith, none_pass p xs (ground arith))

  All-map_to {κ μ} :
      (P : A → Type κ) (Q : A → Type μ)
      → ((x : A) → P x → Q x)
      → (xs : List A) → All P xs
      → All Q xs
  All-map_to P Q f [] h = tt
  All-map_to P Q f (x ∷ xs) h = (f x h.0, All-map_to P Q f xs h.1)

  -- The one row that passes a test.
  pub only_one :
      (p : A → Bool) (xs : List A) (a : A)
      → find_by p xs ≡ some a
      → count p xs ≤ 1
      → All (λ x. p x ≡ true → x ≡ a) xs
  unfolding find_by count
  only_one p [] a h c = tt
  only_one p (x ∷ xs) a h c = elim (Bool-cases (p x)) [
    | inl e ↦ (
      λ t. ground arith,
      All-map_to (λ y. p y ≡ false) (λ y. p y ≡ true → y ≡ a) (λ y n t. absurd (cc (n, t))) xs
          (none_pass p xs (ground arith)),
    )
    | inr e ↦ (λ t. absurd (cc (e, t)), only_one p xs a (ground arith) (ground arith))
  ]

  -- With unique keys, of any type, a SELECT by the key of a row finds that row.
  pub self_lookup_by {κ} :
      {K : Type κ} (test : K → A → Bool) (key : A → K) (xs : List A)
      → ((x : A) → test (key x) x ≡ true)
      → ((k : K) → count (test k) xs ≤ 1)
      → All (λ x. find_by (test (key x)) xs ≡ some x) xs
  unfolding find_by count
  self_lookup_by test key [] own h = tt
  self_lookup_by test key (x ∷ xs) own h = (
    ground (arith, own x),
    All-map_same (λ y. find_by (test (key y)) xs ≡ some y)
        (λ y. find_by (test (key y)) (x ∷ xs) ≡ some y)
        (λ y e. ground (arith, h (key y), count_pos (test (key y)) xs y e)) xs
        (self_lookup_by test key xs own (λ k. ground (arith, h k))),
  )

  pub All-remove_if {κ μ} :
      (P : A → Type κ) (Q : A → Type μ) (q : A → Bool) (xs : List A)
      → ((x : A) → P x → q x ≡ false → Q x)
      → All P xs
      → All Q (remove_if q xs)
  unfolding keep_if
  All-remove_if P Q q [] f a = tt
  All-remove_if P Q q (x ∷ xs) f a = elim (Bool-cases (q x)) [
    | inl e ↦ rw e (All-remove_if P Q q xs f a.1)
    | inr e ↦ rw e (f x a.0 e, All-remove_if P Q q xs f a.1)
  ]

  -- A SELECT after an UPDATE, of whatever rows, that does not change who passes the SELECT's test.
  pub find_by-update_any :
      (p q : A → Bool) (f : A → A) (xs : List A) (r : A)
      → ((x : A) → p (f x) ≡ p x)
      → find_by p xs ≡ some r
      → find_by p (update_if q f xs) ≡ some (if q r then f r else r)
  unfolding find_by update_if
  find_by-update_any p q f [] r h e = cc
  find_by-update_any p q f (x ∷ xs) r h e = elim (Bool-cases (p x)) [
    | inl t ↦
        let same : x ≡ r = ground arith in
        rw same (elim (Bool-cases (q r)) [
          | inl u ↦ rw u (rw (h r, ← same, t) refl)
          | inr u ↦ rw u (rw (← same, t) refl)
        ])
    | inr t ↦ ground (arith, h x, find_by-update_any p q f xs r h)
  ]

  -- An UPDATE of all rows that pass a test, after which they fail it.
  pub count-update_cleared :
      (p : A → Bool) (f : A → A) (xs : List A)
      → ((x : A) → p (f x) ≡ false)
      → count p (update_if p f xs) ≡ 0
  unfolding count update_if
  count-update_cleared p f [] h = refl
  count-update_cleared p f (x ∷ xs) h = ground (arith, h x, count-update_cleared p f xs h)
