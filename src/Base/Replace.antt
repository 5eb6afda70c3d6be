-- ===== src/Base/Replace.antt =====
-- An UPDATE that writes a whole row, found by its primary key.
use Prim.Native.Nat.{ℕ, ◌≤◌}
use mathlib.Core.Path.{◌≡◌, refl}
use mathlib.Core.Logic.{inl, inr}
use mathlib.Core.Bool.{Bool, true}
use mathlib.Core.Option.{some}
use mathlib.Core.List.{List, [], ◌∷◌}
use native.Mathlib.Omega.{arith}
use in_work_marketing_os_bac.Base.Tests.{◌==◌, ==_refl, Bool-cases}
use in_work_marketing_os_bac.Base.Rows.{find_by, update_if, count, has_key}

module _ {ℓ} {A : Type ℓ} (key : A → ℕ) where
  -- UPDATE … WHERE id = …, of every column
  abbrev pub replace : A → List A → List A
  replace j = update_if (λ r. key r == key j) (λ r. j)

  count-replace :
      (m : ℕ) (j : A) (xs : List A)
      → count (has_key key m) (replace j xs) ≡ count (has_key key m) xs
  unfolding count update_if
  count-replace m j [] = refl
  count-replace m j (x ∷ xs) = ground (arith, count-replace m j xs)

  -- The key stays unique.
  pub replace_unique :
      (m : ℕ) (j : A) (xs : List A)
      → count (has_key key m) xs ≤ 1
      → count (has_key key m) (replace j xs) ≤ 1
  replace_unique m j xs h = omega (arith, count-replace m j xs)

  found_counted :
      (p : A → Bool) (xs : List A) (i : A)
      → find_by p xs ≡ some i
      → 1 ≤ count (has_key key (key i)) xs
  unfolding count find_by
  found_counted p [] i h = cc
  found_counted p (x ∷ xs) i h = ground (arith, found_counted p xs i, ==_refl (key i))

  -- A SELECT that found a row finds what replaced it, if that passes the test.
  pub find_by-replace :
      (p : A → Bool) (i j : A) (xs : List A)
      → count (has_key key (key i)) xs ≤ 1
      → find_by p xs ≡ some i
      → key j ≡ key i
      → p j ≡ true
      → find_by p (replace j xs) ≡ some j
  unfolding count find_by update_if
  find_by-replace p i j [] one h k t = cc
  find_by-replace p i j (x ∷ xs) one h k t = elim (Bool-cases (p x)) [
    | inl e ↦ (let same : x ≡ i = ground arith in ground (arith, same, ==_refl (key i)))
    | inr e ↦ ground (arith, found_counted p xs i, find_by-replace p i j xs)
  ]
