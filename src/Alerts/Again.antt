-- ===== src/Alerts/Again.antt =====
-- An evaluation that is run again, and the alerts that no evaluation touches.
use in_work_marketing_os_bac.Base.{
  ℕ, Bool, true, false, Option, none, some, List, [], ◌∷◌, ◌≡◌, not, refl, arith, length, any,
  count, bit, is_some, Option-cases, inl, inr,
}
use in_work_marketing_os_bac.Base.Lists.{All, All-map_same}
use in_work_marketing_os_bac.Alerts.{
  RecKey, Finding, Alert, Campaign, Floats, live_with, live_get, finds, is_over, is_known, unseen,
  evaluate,
}
use in_work_marketing_os_bac.Alerts.Reconcile.{breaches, IsDeduped, HasUniqueIds, evaluated-live}
use in_work_marketing_os_bac.Alerts.Table.{find_last-none, find_last-some, key_eq_refl}

count_none {ℓ} :
    {A : Type ℓ} (p : A → Bool) (xs : List A) → ((x : A) → p x ≡ false) → count p xs ≡ 0
unfolding count
count_none p [] h = refl
count_none p (x ∷ xs) h = rw (h x) (count_none p xs h)

count_every {ℓ} :
    {A : Type ℓ} (p : A → Bool) (xs : List A)
    → All (λ x. p x ≡ true) xs
    → (count p xs ≡ length xs) × (count (λ x. not (p x)) xs ≡ 0)
unfolding count
count_every p [] h = (refl, refl)
count_every p (x ∷ xs) h = ground (arith, h.0, count_every p xs h.1)

-- Every finding is found by its key.
found :
    {Float : Type 0} (fs : List (Finding Float))
    → All (λ (f : Finding Float). any (finds f.rec_key) fs ≡ true) fs
found [] = tt
found (f ∷ fs) = (
  rw (key_eq_refl f.rec_key) refl,
  All-map_same (λ (g : Finding _). any (finds g.rec_key) fs ≡ true)
      (λ (g : Finding _). any (finds g.rec_key) (f ∷ fs) ≡ true) (λ g h. ground (arith, h)) fs
      (found fs),
)

module _ {Float : Type 0} (client_id : ℕ) (alerts : List (Alert Float)) (fs : List (Finding Float))
    (settled : (k : RecKey) → count (live_with client_id k) alerts ≡ bit (any (finds k) fs)) where
  settled_known :
      (k : RecKey) → any (finds k) fs ≡ true → is_some (live_get alerts client_id k) ≡ true
  settled_known k h = elim (Option-cases (live_get alerts client_id k)) [
    | inl e ↦ absurd (ground (arith, find_last-none (live_with client_id k) alerts e, settled k))
    | inr (x, e) ↦ rw e refl
  ]

  settled_unseen : (i : ℕ) (r : Option RecKey) → unseen alerts client_id fs i r ≡ false
  settled_unseen i none = refl
  settled_unseen i (some k) = elim (Option-cases (live_get alerts client_id k)) [
    | inl e ↦ rw e (ground arith)
    | inr (x, e) ↦ ground (arith, find_last-some (live_with client_id k) alerts x e, settled k)
  ]

again :
    {Float : Type 0} (fl : Floats Float) (next_id client_id : ℕ) (campaigns : List Campaign)
    (now : List (Alert Float))
    → ((k : RecKey)
        → count (live_with client_id k) now ≡ bit (any (finds k) (breaches fl client_id campaigns)))
    → let result = (evaluate fl next_id client_id campaigns now).1 in
      (result.opened_count ≡ 0)
      × (result.auto_resolved_count ≡ 0)
      × (result.updated_count ≡ length (breaches fl client_id campaigns))
unfolding evaluate
again fl next_id client_id campaigns now settled =
    let fs = breaches fl client_id campaigns in
    let known = count_every (is_known now client_id) fs (
      All-map_same (λ (f : Finding _). any (finds f.rec_key) fs ≡ true)
        (λ (f : Finding _). is_known now client_id f ≡ true)
        (λ f h. settled_known client_id now fs settled f.rec_key h) fs (found fs)) in
    (
      known.1,
      count_none (is_over now client_id fs) now
          (λ a. ground (arith, settled_unseen client_id now fs settled a.id a.rec_key)),
      known.0,
    )

-- With unique campaign ids, and where no two live alerts of the client have one key: an evaluation right after
-- another opens and resolves nothing, and updates one alert for each finding.
pub evaluate-again :
    {Float : Type 0} (fl : Floats Float) (new_id next_id client_id : ℕ) (campaigns : List Campaign)
    (alerts : List (Alert Float))
    → HasUniqueIds campaigns
    → IsDeduped client_id alerts
    → let again =
        (evaluate fl next_id client_id campaigns
          (evaluate fl new_id client_id campaigns alerts).0).1 in
      (again.opened_count ≡ 0)
      × (again.auto_resolved_count ≡ 0)
      × (again.updated_count ≡ length (breaches fl client_id campaigns))
evaluate-again fl new_id next_id client_id campaigns alerts unique d =
    again fl next_id client_id campaigns (evaluate fl new_id client_id campaigns alerts).0
      (λ k. evaluated-live fl new_id client_id campaigns alerts k unique d)
