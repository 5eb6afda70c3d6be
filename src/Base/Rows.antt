-- ===== src/Base/Rows.antt =====
-- A database table as the list of its rows, in insertion order: SELECT … LIMIT 1, DELETE and
-- UPDATE by a test, and what each does to a later SELECT.
use Prim.Native.Nat.{ℕ, suc, ◌+◌, ◌≤◌}
use mathlib.Core.Path.{◌≡◌, refl, subst}
use mathlib.Core.Logic.{◌≢◌, ◌⊎◌, inl, inr}
use mathlib.Core.Bool.{Bool, true, false, not}
use mathlib.Core.Option.{Option, none, some}
use mathlib.Core.List.{List, [], ◌∷◌, ◌++◌}
use native.Mathlib.Omega.{arith}
use in_work_marketing_os_bac.Base.Tests.{◌==◌, ==_refl, ==_iff, if◌then◌else◌, is_some, Bool-cases}
use in_work_marketing_os_bac.Base.Lists.{length, All, All-map_same, any}

abbrev pub bit : Bool → ℕ
bit b = if b then 1 else 0

module _ {ℓ} {A : Type ℓ} where
  -- the first row that passes the test
  unfoldable pub find_by : (A → Bool) → List A → Option A
  find_by p [] = none
  find_by p (x ∷ xs) = if p x then some x else find_by p xs

  -- SELECT … WHERE
  unfoldable pub keep_if : (A → Bool) → List A → List A
  keep_if p [] = []
  keep_if p (x ∷ xs) = let rest = keep_if p xs in if p x then x ∷ rest else rest

  -- UPDATE … WHERE
  unfoldable pub update_if : (A → Bool) → (A → A) → List A → List A
  update_if p f [] = []
  update_if p f (x ∷ xs) = (if p x then f x else x) ∷ update_if p f xs

  -- A row that is found passes the test.
  pub find_by_sound : (p : A → Bool) (xs : List A) (a : A) → find_by p xs ≡ some a → p a ≡ true
  unfolding find_by
  find_by_sound p [] a h = ground arith
  find_by_sound p (x ∷ xs) a h = ground (arith, find_by_sound p xs a)

  -- A property of every row is one of the row that is found.
  pub find_by-All {κ} :
      (P : A → Type κ) (p : A → Bool) (xs : List A) (a : A) → All P xs → find_by p xs ≡ some a → P a
  unfolding find_by
  find_by-All P p [] a hs h = cc
  find_by-All P p (x ∷ xs) a hs h = elim (Bool-cases (p x)) [
    | inl e ↦ (let same : x ≡ a = ground arith in subst P same hs.0)
    | inr e ↦ find_by-All P p xs a hs.1 (ground arith)
  ]

  pub find_by-append :
      (p : A → Bool) (xs ys : List A)
      → find_by p (xs ++ ys) ≡ (if is_some (find_by p xs) then find_by p xs else find_by p ys)
  unfolding find_by
  find_by-append p [] ys = refl
  find_by-append p (x ∷ xs) ys = ground (arith, find_by-append p xs ys)

  pub keep_if-All {κ} :
      (P : A → Type κ) (p : A → Bool) (xs : List A) → All P xs → All P (keep_if p xs)
  unfolding keep_if
  keep_if-All P p [] h = tt
  keep_if-All P p (x ∷ xs) h = elim (Bool-cases (p x)) [
    | inl e ↦ rw e (h.0, keep_if-All P p xs h.1)
    | inr e ↦ rw e (keep_if-All P p xs h.1)
  ]

  pub length-keep_if : (p : A → Bool) (xs : List A) → length (keep_if p xs) ≤ length xs
  unfolding keep_if
  length-keep_if p [] = omega arith
  length-keep_if p (x ∷ xs) = ground (arith, length-keep_if p xs)

  -- SELECT count(*) … WHERE
  unfoldable pub count : (A → Bool) → List A → ℕ
  count p [] = 0
  count p (x ∷ xs) = if p x then suc (count p xs) else count p xs

  pub count-append : (p : A → Bool) (xs ys : List A) → count p (xs ++ ys) ≡ count p xs + count p ys
  unfolding count
  count-append p [] ys = omega arith
  count-append p (x ∷ xs) ys = ground (arith, count-append p xs ys)

  pub count_zero : (p : A → Bool) (xs : List A) → find_by p xs ≡ none → count p xs ≡ 0
  unfolding count find_by
  count_zero p [] h = refl
  count_zero p (x ∷ xs) h = ground (arith, count_zero p xs)

  pub update_if_idle :
      (p : A → Bool) (f : A → A) (xs : List A) → count p xs ≡ 0 → update_if p f xs ≡ xs
  unfolding count update_if
  update_if_idle p f [] h = refl
  update_if_idle p f (x ∷ xs) h = ground (arith, update_if_idle p f xs)

  -- An UPDATE of the one row that passes a test changes a count by that row alone.
  pub count-update_one :
      (p q : A → Bool) (f : A → A) (xs : List A) (r : A)
      → count q xs ≤ 1
      → find_by q xs ≡ some r
      → count p (update_if q f xs) + bit (p r) ≡ count p xs + bit (p (f r))
  unfolding count update_if find_by
  count-update_one p q f [] r h e = cc
  count-update_one p q f (x ∷ xs) r h e =
      ground (arith, count-update_one p q f xs r, update_if_idle q f xs)

  -- An UPDATE that makes no row pass a test does not raise its count.
  pub count-update_le :
      (p q : A → Bool) (f : A → A) (xs : List A)
      → ((x : A) → bit (p (f x)) ≤ bit (p x))
      → count p (update_if q f xs) ≤ count p xs
  unfolding count update_if
  count-update_le p q f [] h = omega arith
  count-update_le p q f (x ∷ xs) h = ground (arith, h x, count-update_le p q f xs h)

  pub All-update_if {κ} :
      (P : A → Type κ) (q : A → Bool) (f : A → A) (xs : List A)
      → ((x : A) → q x ≡ true → P x → P (f x))
      → All P xs
      → All P (update_if q f xs)
  unfolding update_if
  All-update_if P q f [] h hs = tt
  All-update_if P q f (x ∷ xs) h hs = elim (Bool-cases (q x)) [
    | inl e ↦ rw e (h x e hs.0, All-update_if P q f xs h hs.1)
    | inr e ↦ rw e (hs.0, All-update_if P q f xs h hs.1)
  ]

  -- What SELECT … WHERE keeps passes the test.
  pub keep_if_sound : (p : A → Bool) (xs : List A) → All (λ x. p x ≡ true) (keep_if p xs)
  unfolding keep_if
  keep_if_sound p [] = tt
  keep_if_sound p (x ∷ xs) = elim (Bool-cases (p x)) [
    | inl e ↦ rw e (e, keep_if_sound p xs)
    | inr e ↦ rw e (keep_if_sound p xs)
  ]

  pub count_pos : (p : A → Bool) (xs : List A) (a : A) → find_by p xs ≡ some a → 1 ≤ count p xs
  unfolding count find_by
  count_pos p [] a h = cc
  count_pos p (x ∷ xs) a h = ground (arith, count_pos p xs a)

  pub All-update_to {κ μ} :
      (P : A → Type κ) (Q : A → Type μ) (q : A → Bool) (f : A → A) (xs : List A)
      → ((x : A) → q x ≡ true → P x → Q (f x))
      → ((x : A) → P x → Q x ⊎ (q x ≡ true))
      → All P xs
      → All Q (update_if q f xs)
  unfolding update_if
  All-update_to P Q q f [] h k hs = tt
  All-update_to P Q q f (x ∷ xs) h k hs = elim (Bool-cases (q x)) [
    | inl e ↦ rw e (h x e hs.0, All-update_to P Q q f xs h k hs.1)
    | inr e ↦ rw e (
      elim (k x hs.0) [ inl d ↦ d | inr t ↦ absurd (cc (e, t)) ],
      All-update_to P Q q f xs h k hs.1,
    )
  ]

  -- A property of the rows that SELECT … WHERE keeps is one of every row that passes the test.
  pub keep_if_every {κ} :
      (P : A → Type κ) (p : A → Bool) (xs : List A)
      → All P (keep_if p xs)
      → All (λ x. p x ≡ true → P x) xs
  unfolding keep_if
  keep_if_every P p [] h = tt
  keep_if_every P p (x ∷ xs) h = elim (Bool-cases (p x)) [
    | inl e ↦
        (let h' : P x × All P (keep_if p xs) = rw e at h in (λ _. h'.0, keep_if_every P p xs h'.1))
    | inr e ↦ (
      λ t. absurd (cc (e, t)),
      keep_if_every P p xs (let h' : All P (keep_if p xs) = rw e at h in h'),
    )
  ]

  pub keep_if_some : (p : A → Bool) (xs : List A) → any p xs ≡ true → keep_if p xs ≢ []
  unfolding keep_if
  keep_if_some p [] h = cc
  keep_if_some p (x ∷ xs) h = ground (arith, keep_if_some p xs)

  -- A SELECT after an UPDATE that does not change who passes the test finds the updated row.
  pub find_by-update_if :
      (q : A → Bool) (f : A → A) (xs : List A) (r : A)
      → ((x : A) → q (f x) ≡ q x)
      → find_by q xs ≡ some r
      → find_by q (update_if q f xs) ≡ some (f r)
  unfolding find_by update_if
  find_by-update_if q f [] r h e = cc
  find_by-update_if q f (x ∷ xs) r h e = ground (arith, h x, find_by-update_if q f xs r h)

  -- An UPDATE that changes no row's test keeps its count.
  pub count-update_eq :
      (p q : A → Bool) (f : A → A) (xs : List A)
      → ((x : A) → p (f x) ≡ p x)
      → count p (update_if q f xs) ≡ count p xs
  unfolding count update_if
  count-update_eq p q f [] h = refl
  count-update_eq p q f (x ∷ xs) h = ground (arith, h x, count-update_eq p q f xs h)

  pub count-keep_if : (p : A → Bool) (xs : List A) → count p xs ≡ length (keep_if p xs)
  unfolding count keep_if
  count-keep_if p [] = refl
  count-keep_if p (x ∷ xs) = ground (arith, count-keep_if p xs)

  -- DELETE … WHERE
  abbrev pub remove_if : (A → Bool) → List A → List A
  remove_if q = keep_if (λ x. not (q x))

  pub find_by-remove_if_missing :
      (p q : A → Bool) (xs : List A) → find_by p xs ≡ none → find_by p (remove_if q xs) ≡ none
  unfolding find_by keep_if
  find_by-remove_if_missing p q [] h = refl
  find_by-remove_if_missing p q (x ∷ xs) h = ground (arith, find_by-remove_if_missing p q xs)

  pub count-remove_if_le : (p q : A → Bool) (xs : List A) → count p (remove_if q xs) ≤ count p xs
  unfolding count keep_if
  count-remove_if_le p q [] = omega arith
  count-remove_if_le p q (x ∷ xs) = ground (arith, count-remove_if_le p q xs)

  pub find_by_zero : (p : A → Bool) (xs : List A) → count p xs ≡ 0 → find_by p xs ≡ none
  unfolding count find_by
  find_by_zero p [] h = refl
  find_by_zero p (x ∷ xs) h = ground (arith, find_by_zero p xs)

  -- A DELETE of the only row that a SELECT finds leaves nothing to find.
  pub find_by-remove_if :
      (p q : A → Bool) (xs : List A) (a : A)
      → find_by p xs ≡ some a
      → q a ≡ true
      → count p xs ≤ 1
      → find_by p (remove_if q xs) ≡ none
  unfolding find_by keep_if count
  find_by-remove_if p q [] a h t c = cc
  find_by-remove_if p q (x ∷ xs) a h t c =
      ground
        (arith, find_by-remove_if p q xs a, find_by-remove_if_missing p q xs, find_by_zero p xs)

-- Tables with a primary key.
module _ {ℓ} {A : Type ℓ} (key : A → ℕ) where
  abbrev pub has_key : ℕ → A → Bool
  has_key i x = key x == i

  -- A SELECT by the key of a row finds that row.
  pub self_lookup :
      (xs : List A)
      → ((i : ℕ) → count (has_key i) xs ≤ 1)
      → All (λ x. find_by (has_key (key x)) xs ≡ some x) xs
  unfolding find_by count
  self_lookup [] h = tt
  self_lookup (x ∷ xs) h = (
    ground (arith, ==_refl (key x)),
    All-map_same (λ y. find_by (has_key (key y)) xs ≡ some y)
        (λ y. find_by (has_key (key y)) (x ∷ xs) ≡ some y)
        (λ y e. ground (arith, h (key y), count_pos (has_key (key y)) xs y e)) xs
        (self_lookup xs (λ i. ground (arith, h i))),
  )

  -- All rows with the key of a row that was found are that row.
  pub only_row :
      (xs : List A) (i : ℕ) (r : A)
      → ((k : ℕ) → count (has_key k) xs ≤ 1)
      → find_by (has_key i) xs ≡ some r
      → All (λ x. has_key i x ≡ true → x ≡ r) xs
  only_row xs i r h e =
      All-map_same (λ x. find_by (has_key (key x)) xs ≡ some x) (λ x. has_key i x ≡ true → x ≡ r)
        (λ x found same.
          let same_key : key x ≡ i = (==_iff (key x) i).0 same in ground (arith, same_key))
        xs (self_lookup xs h)

module _ {ℓ} {A : Type ℓ} where
  pub keep_if-append :
      (p : A → Bool) (xs ys : List A) → keep_if p (xs ++ ys) ≡ keep_if p xs ++ keep_if p ys
  unfolding keep_if
  keep_if-append p [] ys = refl
  keep_if-append p (x ∷ xs) ys = ground (arith, keep_if-append p xs ys)

  -- An UPDATE of rows that fail a test before and after does not show through it.
  pub keep_if-update_if :
      (p q : A → Bool) (f : A → A) (xs : List A)
      → All (λ x. q x ≡ true → (p x ≡ false) × (p (f x) ≡ false)) xs
      → keep_if p (update_if q f xs) ≡ keep_if p xs
  unfolding keep_if update_if
  keep_if-update_if p q f [] h = refl
  keep_if-update_if p q f (x ∷ xs) h = ground (arith, h.0, keep_if-update_if p q f xs h.1)

  pub keep_if-remove_if :
      (p q : A → Bool) (xs : List A)
      → All (λ x. q x ≡ true → p x ≡ false) xs
      → keep_if p (remove_if q xs) ≡ keep_if p xs
  unfolding keep_if
  keep_if-remove_if p q [] h = refl
  keep_if-remove_if p q (x ∷ xs) h = ground (arith, h.0, keep_if-remove_if p q xs h.1)

  pub find_by-weaken :
      (p q : A → Bool) (xs : List A) (a : A)
      → find_by p xs ≡ some a
      → All (λ x. q x ≡ true → x ≡ a) xs
      → q a ≡ true
      → find_by q xs ≡ some a
  unfolding find_by
  find_by-weaken p q [] a h hs t = cc
  find_by-weaken p q (x ∷ xs) a h hs t = ground (arith, hs.0, find_by-weaken p q xs a)
