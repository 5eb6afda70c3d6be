-- ===== src/Notifications/Unread.antt =====
-- Unread notifications: one for each key, and none after they are marked.
use in_work_marketing_os_bac.Base.{
  ℕ, ◌+◌, ◌≤◌, Bool, true, Option, none, some, List, [], ◌∷◌, ◌≡◌, ◌≢◌, inl, inr, refl, sym, arith,
  ◌==◌, ==_refl, length, if◌then◌else◌, find_by, keep_if, update_if, count, Bool-cases,
  Option-cases,
}
use in_work_marketing_os_bac.Base.Rows.{
  find_by-append, count-append, count_zero, count-update_eq, count-update_le, count-keep_if,
}
use in_work_marketing_os_bac.Base.Selects.{
  find_by-update_any, count-update_other, count-update_cleared,
}
use in_work_marketing_os_bac.Model.Tables.{Text, ClientAssignment}
use in_work_marketing_os_bac.Audit.Laws.{text_eq_refl, text_eq_sound}
use in_work_marketing_os_bac.Notifications.{
  Notification, Signal, is_unread, is_key, unread_with_key, unread_of, find_existing, rewritten,
  new_notification, is_notification, notify, notify_team, notify_client_team, unread_count,
  get_for_user, read_at, mark_read, mark_all_read,
}

-- No user has two unread notifications with one key.
abbrev pub IsDeduped : List Notification → Type 0
IsDeduped ns = (user_id c : ℕ) (cs : Text) → count (unread_with_key user_id (c ∷ cs)) ns ≤ 1

-- The key of a signal is a text that is not empty.
find_existing-none :
    (ns : List Notification) (user_id c : ℕ) (cs : Text) (key : Option Text)
    → find_existing ns user_id key ≡ none
    → is_key (c ∷ cs) key ≡ true
    → find_by (unread_with_key user_id (c ∷ cs)) ns ≡ none
unfolding find_existing
find_existing-none ns user_id c cs none h k = cc
find_existing-none ns user_id c cs (some []) h k = cc
find_existing-none ns user_id c cs (some (b ∷ bs)) h k =
    let same : b ∷ bs ≡ c ∷ cs = text_eq_sound (b ∷ bs) (c ∷ cs) k in rw (← same) h

notify-IsDeduped :
    (new_id : ℕ) (ns : List Notification) (user_id : ℕ) (s : Signal)
    → IsDeduped ns
    → IsDeduped (notify new_id ns user_id s).0
unfolding notify
notify-IsDeduped new_id ns user_id s d u c cs =
    elim (Option-cases (find_existing ns user_id s.rec_key)) [
      | inr (e, found) ↦
          rw
            (
              found,
              notify,
              count-update_eq (unread_with_key u (c ∷ cs)) (is_notification e.id) (rewritten s) ns
                  (λ x. refl),
            )
            (d u c cs)
      | inl missing ↦
          rw
            (
              missing,
              notify,
              count-append (unread_with_key u (c ∷ cs)) ns (new_notification new_id user_id s ∷ []),
            )
            (elim (Bool-cases (unread_with_key u (c ∷ cs) (new_notification new_id user_id s))) [
              | inr other ↦ unfold count in rw other (omega (arith, d u c cs))
              | inl hit ↦
                  let same_user : user_id ≡ u = ground arith in
                  let same_key : is_key (c ∷ cs) s.rec_key ≡ true = ground arith in
                  let unused : find_by (unread_with_key u (c ∷ cs)) ns ≡ none =
                    rw (← same_user)
                      (find_existing-none ns user_id c cs s.rec_key missing same_key) in
                  rw (count_zero (unread_with_key u (c ∷ cs)) ns unused)
                    (unfold count in rw hit (omega arith))
            ])
    ]

notify_team-IsDeduped :
    (new_id : ℕ) (ns : List Notification) (team : List ClientAssignment) (s : Signal)
    → IsDeduped ns
    → IsDeduped (notify_team new_id ns team s)
unfolding notify_team
notify_team-IsDeduped new_id ns [] s d = d
notify_team-IsDeduped new_id ns (a ∷ team) s d =
    notify_team-IsDeduped (new_id + 1) (notify new_id ns a.user_id s).0 team s
      (notify-IsDeduped new_id ns a.user_id s d)

-- A row that is marked read passes no test for unread rows.
marked-IsDeduped :
    (q : Notification → Bool) (now : ℕ) (ns : List Notification)
    → IsDeduped ns
    → IsDeduped (update_if q (read_at now) ns)
marked-IsDeduped q now ns d u c cs = omega (
  arith,
  d u c cs,
  count-update_le (unread_with_key u (c ∷ cs)) q (read_at now) ns (λ x. ground arith),
)

mark_read-IsDeduped :
    (now : ℕ) (ns : List Notification) (user_id i : ℕ)
    → IsDeduped ns
    → IsDeduped (mark_read now ns user_id i).0
unfolding mark_read
mark_read-IsDeduped now ns user_id i d = elim (Option-cases (find_by (get_for_user user_id i) ns)) [
  | inl e ↦ rw (e, mark_read) d
  | inr (n, e) ↦ elim (Bool-cases (is_unread n)) [
    | inl u ↦ rw (e, mark_read, u) (marked-IsDeduped (is_notification n.id) now ns d)
    | inr u ↦ rw (e, mark_read, u) d
  ]
]

-- One call of the service.
pub data Step (ns : List Notification) : List Notification → Type 0 where
  notifies : (new_id user_id : ℕ) (s : Signal) → Step ns (notify new_id ns user_id s).0
  notifies_team :
      (new_id client_id : ℕ) (assignments : List ClientAssignment) (s : Signal)
      → Step ns (notify_client_team new_id ns assignments client_id s).0
  marks_read : (now user_id i : ℕ) → Step ns (mark_read now ns user_id i).0
  marks_all_read : (now user_id : ℕ) → Step ns (mark_all_read now ns user_id).0

pub data Reach (ns : List Notification) : List Notification → Type 0 where
  here : Reach ns ns
  next : {ms ks : List Notification} → Reach ns ms → Step ms ks → Reach ns ks

Step-IsDeduped : {ns ms : List Notification} → Step ns ms → IsDeduped ns → IsDeduped ms
unfolding notify_client_team mark_all_read
Step-IsDeduped {ns} (notifies new_id user_id s) d = notify-IsDeduped new_id ns user_id s d
Step-IsDeduped {ns} (notifies_team new_id client_id assignments s) d =
    notify_team-IsDeduped new_id ns
      (keep_if (λ (a : ClientAssignment). a.client_id == client_id) assignments)
      (record s { client_id = some client_id }) d
Step-IsDeduped {ns} (marks_read now user_id i) d = mark_read-IsDeduped now ns user_id i d
Step-IsDeduped {ns} (marks_all_read now user_id) d = marked-IsDeduped (unread_of user_id) now ns d

-- In every state that signals to users and teams and marks of both kinds reach from one in which it holds,
-- no user has two unread notifications with one key that is not empty.
pub Reach-IsDeduped : {ns ms : List Notification} → Reach ns ms → IsDeduped ns → IsDeduped ms
Reach-IsDeduped here d = d
Reach-IsDeduped (next before step) d = Step-IsDeduped step (Reach-IsDeduped before d)

length-update_if :
    (q : Notification → Bool) (f : Notification → Notification) (ns : List Notification)
    → length (update_if q f ns) ≡ length ns
unfolding update_if
length-update_if q f [] = refl
length-update_if q f (n ∷ ns) = omega (arith, length-update_if q f ns)

-- After a signal with a key there is an unread row for it.
notified :
    (new_id : ℕ) (ns : List Notification) (user_id c : ℕ) (cs : Text) (s : Signal)
    → s.rec_key ≡ some (c ∷ cs)
    → (e : Notification) × (find_by
          (unread_with_key user_id (c ∷ cs))
          (notify new_id ns user_id s).0
        ≡ some e)
unfolding notify find_existing
notified new_id ns user_id c cs s key =
    elim (Option-cases (find_by (unread_with_key user_id (c ∷ cs)) ns)) [
      | inr (e, found) ↦ (
        if is_notification e.id e then rewritten s e else e,
        rw (key, find_existing, found, notify)
            (find_by-update_any (unread_with_key user_id (c ∷ cs)) (is_notification e.id)
              (rewritten s) ns e (λ x. refl) found),
      )
      | inl missing ↦ (
        new_notification new_id user_id s,
        rw
            (
              key,
              find_existing,
              missing,
              notify,
              find_by-append (unread_with_key user_id (c ∷ cs)) ns
                  (new_notification new_id user_id s ∷ []),
            )
            (rw (missing, key)
              (unfold find_by in ground (arith, ==_refl user_id, text_eq_refl (c ∷ cs)))),
      )
    ]

-- A second signal to a user with the key of a first, nothing having been read in between, adds no row: it
-- rewrites the row of the first.
notify_once :
    (new_id next_id : ℕ) (ns : List Notification) (user_id c : ℕ) (cs : Text) (s s' : Signal)
    → s.rec_key ≡ some (c ∷ cs)
    → s'.rec_key ≡ some (c ∷ cs)
    → length (notify next_id (notify new_id ns user_id s).0 user_id s').0
      ≡ length (notify new_id ns user_id s).0
unfolding notify find_existing
notify_once new_id next_id ns user_id c cs s s' key key' =
    let (e, found) = notified new_id ns user_id c cs s key in
    second (notify new_id ns user_id s).0 e found
  where
    second :
        (ms : List Notification) (e : Notification)
        → find_by (unread_with_key user_id (c ∷ cs)) ms ≡ some e
        → length (notify next_id ms user_id s').0 ≡ length ms
    second ms e found =
        rw (notify, key', find_existing, found)
          (length-update_if (is_notification e.id) (rewritten s') ms)

-- `mark_all_read` returns the number of the user's unread notifications and leaves none, and no other user's
-- number changes.
pub mark_all_read-unread_count :
    (now : ℕ) (ns : List Notification) (user_id other : ℕ)
    → other ≢ user_id
    → ((mark_all_read now ns user_id).1 ≡ unread_count ns user_id)
      × (unread_count (mark_all_read now ns user_id).0 user_id ≡ 0)
      × (unread_count (mark_all_read now ns user_id).0 other ≡ unread_count ns other)
unfolding mark_all_read unread_count
mark_all_read-unread_count now ns user_id other n = (
  sym (count-keep_if (unread_of user_id) ns),
  count-update_cleared (unread_of user_id) (read_at now) ns (λ x. ground arith),
  count-update_other (unread_of other) (unread_of user_id) (read_at now) ns (λ x h. ground arith),
)
