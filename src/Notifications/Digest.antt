-- ===== src/Notifications/Digest.antt =====
-- The sweep that e-mails digests.
use in_work_marketing_os_bac.Base.{
  ℕ, zero, suc, ◌≤◌, Bool, true, false, none, some, List, [], ◌∷◌, ◌++◌, ◌≡◌, ◌⊎◌, inl, inr, refl,
  ap, arith, not, ◌==◌, ◌&&◌, any, find_by, keep_if, take, count, Option-cases, Bool-cases, ==_iff,
}
use in_work_marketing_os_bac.Base.Lists.{All}
use in_work_marketing_os_bac.Model.Tables.{User}
use in_work_marketing_os_bac.Notifications.{
  Notification, NotificationPreference, Centre, preference_of, is_muted, is_pending, opted_in,
  eligible_items, list_pending_email, recipients, send_each, send_pending_emails, active_user,
}

-- The user has no preferences, or has not enabled e-mail, or is not active, or has muted the notification's client.
abbrev pub IsUnsendable : List NotificationPreference → List User → Notification → Type 0
IsUnsendable preferences users n =
    (find_by (preference_of n.user_id) preferences ≡ none)
    ⊎ (any (λ (u : User). u.id == n.user_id && u.is_active) users ≡ false)
    ⊎ ((p : NotificationPreference) × (find_by (preference_of n.user_id) preferences ≡ some p)
        × ((p.email_enabled ≡ false) ⊎ (is_muted p n ≡ true)))

take_enough :
    (limit : ℕ) (old rest : List Notification)
    → limit ≤ count is_pending old
    → take limit (keep_if is_pending (old ++ rest)) ≡ take limit (keep_if is_pending old)
unfolding keep_if count
take_enough zero old rest h = refl
take_enough (suc n) [] rest h = absurd (omega (arith, h))
take_enough (suc n) (x ∷ old) rest h = elim (Bool-cases (is_pending x)) [
  | inl e ↦ rw e (ap (λ ys. x ∷ ys) (take_enough n old rest (omega (arith, rw e at h))))
  | inr e ↦ rw e (take_enough (suc n) old rest (rw e at h))
]

All-take {ℓ κ} : {A : Type ℓ} (P : A → Type κ) (n : ℕ) (xs : List A) → All P xs → All P (take n xs)
All-take P zero xs h = tt
All-take P (suc n) [] h = tt
All-take P (suc n) (x ∷ xs) h = (h.0, All-take P n xs h.1)

opted_in_sound :
    (st : Centre) (users : List User) (i : ℕ) (p : NotificationPreference)
    → opted_in st users i ≡ some p
    → (find_by (preference_of i) st.preferences ≡ some p)
      × (p.email_enabled ≡ true)
      × (active_user users i ≡ true)
opted_in_sound st users i p h = elim (Option-cases (find_by (preference_of i) st.preferences)) [
  | inl e ↦ absurd (ground arith)
  | inr (q, e) ↦
      let same : q ≡ p = ground arith in
      (rw e (rw same refl), rw (← same) (ground arith), ground arith)
]

not_eligible :
    (st : Centre) (users : List User) (n : Notification) (i : ℕ) (p : NotificationPreference)
    → opted_in st users i ≡ some p
    → IsUnsendable st.preferences users n
    → (n.user_id == i && not (is_muted p n)) ≡ false
not_eligible st users n i p h u = elim (Bool-cases (n.user_id == i)) [
  | inr e ↦ rw e refl
  | inl e ↦
      let same : n.user_id ≡ i = (==_iff n.user_id i).0 e in
      let (found, enabled, active) = opted_in_sound st users n.user_id p (rw same h) in
      elim u [
        | inl nobody ↦ absurd (cc (found, nobody))
        | inr (inl away) ↦ absurd (cc (active, away))
        | inr (inr (q, has, off)) ↦
            let one : q ≡ p = cc (found, has) in
            elim off [
              | inl disabled ↦ absurd (cc (enabled, rw one at disabled))
              | inr muted ↦ rw (e, rw one at muted) refl
            ]
      ]
]

-- Of such a batch nobody gets a notification.
nobody_gets :
    (st : Centre) (users : List User) (i : ℕ) (p : NotificationPreference)
    (pending : List Notification)
    → opted_in st users i ≡ some p
    → All (IsUnsendable st.preferences users) pending
    → keep_if (λ (n : Notification). n.user_id == i && not (is_muted p n)) pending ≡ []
unfolding keep_if
nobody_gets st users i p [] h a = refl
nobody_gets st users i p (n ∷ ns) h a =
    rw (not_eligible st users n i p h a.0) (nobody_gets st users i p ns h a.1)

nobody_eligible :
    (sends : ℕ → Bool) (now : ℕ) (users : List User) (pending : List Notification) (st : Centre)
    (is : List ℕ)
    → All (IsUnsendable st.preferences users) pending
    → send_each sends now users pending st is ≡ (st, 0)
unfolding send_each eligible_items
nobody_eligible sends now users pending st [] a = refl
nobody_eligible sends now users pending st (i ∷ is) a =
    let none_eligible : eligible_items st users pending i ≡ [] =
      elim (Option-cases (opted_in st users i)) [
        | inl e ↦ rw (e, eligible_items) refl
        | inr (p, e) ↦ rw (e, eligible_items) (nobody_gets st users i p pending e a)
      ] in
    rw (none_eligible, send_each, nobody_eligible sends now users pending st is a) refl

-- If the pending ones among the older notifications are at least as many as a sweep takes, and each is for a user
-- who has not enabled e-mail, is not active or has muted its client, then a sweep sends nothing and writes nothing,
-- whatever younger notifications there are, for whomever: the next sweep finds the same ones.
pub send_pending_emails-starved :
    (is_configured : Bool) (sends : ℕ → Bool) (now : ℕ) (users : List User) (limit : ℕ)
    (preferences : List NotificationPreference) (older younger : List Notification)
    → limit ≤ count is_pending older
    → All (IsUnsendable preferences users) (keep_if is_pending older)
    → let st : Centre = record { notifications = older ++ younger; preferences = preferences } in
      send_pending_emails is_configured sends now users limit st ≡ (st, 0)
unfolding send_pending_emails list_pending_email
send_pending_emails-starved false sends now users limit preferences older younger many stuck = refl
send_pending_emails-starved true sends now users limit preferences older younger many stuck =
    let st : Centre = record { notifications = older ++ younger; preferences = preferences } in
    let batch = take limit (keep_if is_pending older) in
    rw (take_enough limit older younger many) (
      nobody_eligible sends now users batch st (recipients batch)
        (All-take (IsUnsendable preferences users) limit (keep_if is_pending older) stuck))
