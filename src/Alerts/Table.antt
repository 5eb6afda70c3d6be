-- ===== src/Alerts/Table.antt =====
-- The live alerts with a key, counted before and after an evaluation.
use in_work_marketing_os_bac.Base.{
  ℕ, ◌+◌, ◌≤◌, Bool, true, false, Option, none, some, List, [], ◌∷◌, ◌++◌, ◌==◌, ◌≡◌, refl, arith,
  any, if◌then◌else◌, update_if, count, eq_iff, bit, Bool-cases, ==_refl, is_some, Option-cases,
  inl, inr,
}
use in_work_marketing_os_bac.Base.Lists.{All, All-append, All-map_same}
use in_work_marketing_os_bac.Base.Rows.{count-append, count-update_eq, All-update_if}
use in_work_marketing_os_bac.Base.Selects.{count-update_other}
use in_work_marketing_os_bac.Alerts.{
  RecKey, key_eq, Finding, Alert, live_with, live_get, find_last, finds, updated, new_alert,
  apply_findings, holds, unseen, is_over, auto_resolved, has_key,
}

module _ {ℓ} {A : Type ℓ} (p : A → Bool) where
  pub find_last-none : (xs : List A) → find_last p xs ≡ none → count p xs ≡ 0
  unfolding find_last count
  find_last-none [] h = refl
  find_last-none (x ∷ xs) h = ground (arith, find_last-none xs)

  pub find_last-some :
      (xs : List A) (a : A) → find_last p xs ≡ some a → (p a ≡ true) × (1 ≤ count p xs)
  unfolding find_last count
  find_last-some [] a h = absurd (cc)
  find_last-some (x ∷ xs) a h = ground (arith, find_last-some xs a)

  find_last_zero : (xs : List A) → count p xs ≡ 0 → find_last p xs ≡ none
  unfolding find_last count
  find_last_zero [] h = refl
  find_last_zero (x ∷ xs) h = ground (arith, find_last_zero xs)

  -- The one row that passes the test.
  only_last : (xs : List A) → count p xs ≤ 1 → All (λ x. p x ≡ true → find_last p xs ≡ some x) xs
  unfolding find_last count
  only_last [] h = tt
  only_last (x ∷ xs) h = (
    λ t. ground (arith, find_last_zero xs),
    All-map_same (λ y. p y ≡ true → find_last p xs ≡ some y)
        (λ y. p y ≡ true → find_last p (x ∷ xs) ≡ some y) (λ y e t. rw (e t) refl) xs
        (only_last xs (ground arith)),
  )

  any-count : (xs : List A) → any p xs ≡ false → count p xs ≡ 0
  unfolding count
  any-count [] h = refl
  any-count (x ∷ xs) h = ground (arith, any-count xs)

  count-any : (xs : List A) → any p xs ≡ true → 1 ≤ count p xs
  unfolding count
  count-any [] h = cc
  count-any (x ∷ xs) h = ground (arith, count-any xs)

key_eq_sound : (j k : RecKey) → key_eq j k ≡ true → j ≡ k
key_eq_sound j k h = ground (arith, eq_iff j.metric k.metric)

pub key_eq_refl : (k : RecKey) → key_eq k k ≡ true
key_eq_refl k = ground (arith, eq_iff k.metric k.metric)

module _ {Float : Type 0} (client_id : ℕ) (k : RecKey) where
  -- An evaluation adds an alert for a key only if no live one has it.
  count-apply_findings :
      (before : List (Alert Float)) (new_id : ℕ) (fs : List (Finding Float))
      (alerts : List (Alert Float))
      → count (live_with client_id k) (apply_findings before new_id client_id fs alerts)
        ≡ count (live_with client_id k) alerts
          + (if is_some (live_get before client_id k) then 0 else count (finds k) fs)
  unfolding apply_findings count
  count-apply_findings before new_id [] alerts = ground arith
  count-apply_findings before new_id (f ∷ fs) alerts =
      elim (Option-cases (live_get before client_id f.rec_key)) [
        | inl e ↦ rw e (
            ground (
              arith,
              count-apply_findings before (new_id + 1) fs
                  (alerts ++ new_alert new_id client_id f ∷ []),
              count-append (live_with client_id k) alerts (new_alert new_id client_id f ∷ []),
              ==_refl client_id,
              key_eq_sound f.rec_key k,
            ))
        | inr (x, e) ↦ rw e (
            ground (
              arith,
              count-apply_findings before (new_id + 1) fs
                  (update_if (λ (a : Alert Float). a.id == x.id) (updated f) alerts),
              count-update_eq (live_with client_id k) (λ (a : Alert Float). a.id == x.id)
                  (updated f) alerts (λ y. refl),
              key_eq_sound f.rec_key k,
            ))
      ]

  apply_findings-All :
      (Q : Alert Float → Type 0) (before : List (Alert Float)) (new_id : ℕ)
      (fs : List (Finding Float)) (alerts : List (Alert Float))
      → ((f : Finding Float) (x : Alert Float) → Q x → Q (updated f x))
      → ((i : ℕ) (f : Finding Float) → finds k f ≡ false → Q (new_alert i client_id f))
      → any (finds k) fs ≡ false
      → All Q alerts
      → All Q (apply_findings before new_id client_id fs alerts)
  unfolding apply_findings
  apply_findings-All Q before new_id [] alerts u n gone h = h
  apply_findings-All Q before new_id (f ∷ fs) alerts u n gone h =
      elim (Option-cases (live_get before client_id f.rec_key)) [
        | inl e ↦ rw e (
            apply_findings-All Q before (new_id + 1) fs
              (alerts ++ new_alert new_id client_id f ∷ []) u n (ground arith)
              (All-append Q alerts (new_alert new_id client_id f ∷ []) h
                (n new_id f (ground arith), tt)))
        | inr (x, e) ↦ rw e (
            apply_findings-All Q before (new_id + 1) fs
              (update_if (λ (a : Alert Float). a.id == x.id) (updated f) alerts) u n (ground arith)
              (All-update_if Q (λ (a : Alert Float). a.id == x.id) (updated f) alerts (λ y t. u f y)
                h))
      ]

  -- What the dict holds for a key that one live alert has.
  held :
      (before : List (Alert Float))
      → count (live_with client_id k) before ≤ 1
      → All
          (λ (x : Alert Float).
            live_with client_id k x ≡ true → holds x.id (live_get before client_id k) ≡ true)
          before
  held before one =
      All-map_same
        (λ (x : Alert Float). live_with client_id k x ≡ true → live_get before client_id k ≡ some x)
        (λ (x : Alert Float).
          live_with client_id k x ≡ true → holds x.id (live_get before client_id k) ≡ true)
        (λ x h t. rw (h t) (==_refl x.id)) before (only_last (live_with client_id k) before one)

  unseen_kept :
      (before : List (Alert Float)) (fs : List (Finding Float)) (i : ℕ) (r : Option RecKey)
      → any (finds k) fs ≡ true
      → has_key k r ≡ true
      → unseen before client_id fs i r ≡ false
  unseen_kept before fs i none seen h = refl
  unseen_kept before fs i (some j) seen h = rw (key_eq_sound j k h, seen) refl

  unseen_gone :
      (before : List (Alert Float)) (fs : List (Finding Float)) (i : ℕ) (r : Option RecKey)
      → any (finds k) fs ≡ false
      → holds i (live_get before client_id k) ≡ true
      → has_key k r ≡ true
      → unseen before client_id fs i r ≡ true
  unseen_gone before fs i none gone held h = cc
  unseen_gone before fs i (some j) gone held h = rw (key_eq_sound j k h, gone) held

  count-resolved_gone :
      (before : List (Alert Float)) (fs : List (Finding Float)) (xs : List (Alert Float))
      → any (finds k) fs ≡ false
      → All
          (λ (x : Alert Float).
            live_with client_id k x ≡ true → holds x.id (live_get before client_id k) ≡ true)
          xs
      → count (live_with client_id k) (update_if (is_over before client_id fs) auto_resolved xs) ≡ 0
  unfolding update_if count
  count-resolved_gone before fs [] gone h = refl
  count-resolved_gone before fs (x ∷ xs) gone h = elim (Bool-cases (live_with client_id k x)) [
    | inl t ↦ ground (
      arith,
      h.0 t,
      unseen_gone before fs x.id x.rec_key gone (h.0 t),
      count-resolved_gone before fs xs gone h.1,
    )
    | inr t ↦ ground (arith, count-resolved_gone before fs xs gone h.1)
  ]

  count-resolved_seen :
      (before : List (Alert Float)) (fs : List (Finding Float)) (xs : List (Alert Float))
      → any (finds k) fs ≡ true
      → count (live_with client_id k) (update_if (is_over before client_id fs) auto_resolved xs)
        ≡ count (live_with client_id k) xs
  count-resolved_seen before fs xs seen =
      count-update_other (live_with client_id k) (is_over before client_id fs) auto_resolved xs
        (λ x h. ground (arith, unseen_kept before fs x.id x.rec_key seen))

  -- The live alerts with a key after an evaluation.
  pub count-reconciled :
      (before : List (Alert Float)) (new_id : ℕ) (fs : List (Finding Float))
      → count (live_with client_id k) before ≤ 1
      → count (finds k) fs ≤ 1
      → count (live_with client_id k) (
          update_if
            (is_over before client_id fs)
            auto_resolved
            (apply_findings before new_id client_id fs before))
        ≡ bit (any (finds k) fs)
  count-reconciled before new_id fs one once = elim (Bool-cases (any (finds k) fs)) [
    | inl seen ↦
        rw
          (
            count-resolved_seen before fs (apply_findings before new_id client_id fs before) seen,
            count-apply_findings before new_id fs before,
            seen,
          )
          (elim (Option-cases (live_get before client_id k)) [
            | inl e ↦ rw e (
                omega (
                  arith,
                  find_last-none (live_with client_id k) before e,
                  count-any (finds k) fs seen,
                ))
            | inr (x, e) ↦ rw e (omega (arith, find_last-some (live_with client_id k) before x e))
          ])
    | inr gone ↦ rw (gone) (
        count-resolved_gone before fs (apply_findings before new_id client_id fs before) gone (
          apply_findings-All
            (λ (x : Alert Float).
              live_with client_id k x ≡ true → holds x.id (live_get before client_id k) ≡ true)
            before new_id fs before (λ f x h. h) (λ i f other t. absurd (ground arith)) gone
            (held before one)))
  ]
