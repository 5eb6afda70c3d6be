-- ===== src/RateLimit/Shared.antt =====
-- The script that Redis runs against the memory store.
use in_work_marketing_os_bac.Base.{
  ℕ, ◌≤◌, false, List, [], ◌∷◌, ◌≡◌, refl, arith, keep_if, remove_if, Bool-cases, inl, inr,
}
use in_work_marketing_os_bac.Base.Lists.{All}
use in_work_marketing_os_bac.RateLimit.{aged, drop_aged, admit, redis_admit}
use in_work_marketing_os_bac.RateLimit.Window.History.{IsAscending}

-- Behind a hit that is still in the window no hit has left it.
none_aged :
    (now s h : ℕ) (hs : List ℕ)
    → aged now s h ≡ false
    → All (λ k. h ≤ k) hs
    → remove_if (aged now s) hs ≡ hs
unfolding keep_if
none_aged now s h [] e a = refl
none_aged now s h (k ∷ hs) e a = ground (arith, none_aged now s h hs, a.0)

drop_aged-eq-remove_if :
    (now s : ℕ) (hs : List ℕ) → IsAscending hs → drop_aged now s hs ≡ remove_if (aged now s) hs
unfolding drop_aged keep_if
drop_aged-eq-remove_if now s [] a = refl
drop_aged-eq-remove_if now s (h ∷ hs) a = elim (Bool-cases (aged now s h)) [
  | inl e ↦ rw e (drop_aged-eq-remove_if now s hs a.1)
  | inr e ↦ rw (e, none_aged now s h hs e a.0)
]

-- On hits in the order of time, the two stores decide alike and keep the same hits.
pub admit-eq-redis_admit :
    (now times s : ℕ) (hits : List ℕ)
    → IsAscending hits
    → admit now times s hits ≡ redis_admit now times s hits
unfolding admit redis_admit
admit-eq-redis_admit now times s hits a = rw (drop_aged-eq-remove_if now s hits a)
