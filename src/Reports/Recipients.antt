-- ===== src/Reports/Recipients.antt =====
-- Who is sent a daily report.
use in_work_marketing_os_bac.Base.{
  ℕ, Bool, false, List, [], ◌∷◌, ◌++◌, ◌==◌, ◌&&◌, ◌||◌, ◌≡◌, refl, arith, not, any, keep_if,
  Bool-cases, ==_iff, inl, inr,
}
use in_work_marketing_os_bac.Base.Lists.{any-append}
use in_work_marketing_os_bac.Model.Enums.{is_admin}
use in_work_marketing_os_bac.Model.Tables.{User, Db}
use in_work_marketing_os_bac.Reports.{
  is_assigned, has_user_id, is_active_assigned, is_active_admin, resolve_recipients,
}

any-keep_if {ℓ} :
    {A : Type ℓ} (f p : A → Bool) (xs : List A) → any f (keep_if p xs) ≡ any (λ x. f x && p x) xs
unfolding keep_if
any-keep_if f p [] = refl
any-keep_if f p (x ∷ xs) = ground (arith, any-keep_if f p xs)

any-or {ℓ} :
    {A : Type ℓ} (f p q : A → Bool) (xs : List A)
    → any (λ x. f x && (p x || q x)) xs ≡ (any (λ x. f x && p x) xs || any (λ x. f x && q x) xs)
any-or f p q [] = refl
any-or f p q (x ∷ xs) = ground (arith, any-or f p q xs)

-- Leaving out the users that a list has does not matter for one that it lacks.
any-lacking :
    (i : ℕ) (q : User → Bool) (ys xs : List User)
    → any (has_user_id i) ys ≡ false
    → any (λ u. has_user_id i u && (q u && not (any (has_user_id u.id) ys))) xs
      ≡ any (λ u. has_user_id i u && q u) xs
any-lacking i q ys [] h = refl
any-lacking i q ys (x ∷ xs) h = elim (Bool-cases (x.id == i)) [
  | inl e ↦
      let same : x.id ≡ i = (==_iff x.id i).0 e in
      let lacks : any (has_user_id x.id) ys ≡ false = rw same h in
      ground (arith, lacks, any-lacking i q ys xs h)
  | inr e ↦ ground (arith, any-lacking i q ys xs h)
]

-- The union of two queries, the second without the ids of the first.
any-union :
    (i : ℕ) (p q : User → Bool) (xs : List User)
    → let first = keep_if p xs in
      any (has_user_id i) (first ++ keep_if (λ u. q u && not (any (has_user_id u.id) first)) xs)
      ≡ any (λ u. has_user_id i u && (p u || q u)) xs
any-union i p q xs =
    let first = keep_if p xs in
    rw
      (
        any-append (has_user_id i) first
            (keep_if (λ u. q u && not (any (has_user_id u.id) first)) xs),
        any-keep_if (has_user_id i) (λ u. q u && not (any (has_user_id u.id) first)) xs,
        any-or (has_user_id i) p q xs,
        ← any-keep_if (has_user_id i) p xs,
      )
      (elim (Bool-cases (any (has_user_id i) first)) [
        | inl e ↦ rw e refl
        | inr e ↦ rw (e, any-lacking i q first xs e) refl
      ])

any-ext {ℓ} :
    {A : Type ℓ} (f g : A → Bool) (xs : List A) → ((x : A) → f x ≡ g x) → any f xs ≡ any g xs
any-ext f g [] h = refl
any-ext f g (x ∷ xs) h = rw (h x, any-ext f g xs h) refl

-- A user id is among the recipients of a client's report exactly when a user with it is active and is assigned
-- to the client or an admin.
pub any-resolve_recipients :
    (db : Db) (client_id i : ℕ)
    → any (has_user_id i) (resolve_recipients db client_id)
      ≡ any
          (λ (u : User).
            u.id == i && u.is_active && (is_assigned db client_id u || is_admin u.role))
          db.users
unfolding resolve_recipients
any-resolve_recipients db client_id i =
    rw (any-union i (is_active_assigned db client_id) is_active_admin db.users)
      (any-ext _ _ db.users (λ u. ground arith))
