-- ===== src/Examples/Inbox.antt =====
-- A signal that is repeated and read, and a digest that waits behind a user who has not opted in.
use in_work_marketing_os_bac.Base.{
  ◌≤◌, ◌++◌, inl, true, none, some, List, [], ◌∷◌, ◌≡◌, refl, arith, count, keep_if, find_by,
}
use in_work_marketing_os_bac.Base.Lists.{All}
use in_work_marketing_os_bac.Notifications.{
  critical, Signal, Notification, NotificationPreference, is_pending, Centre, new_notification,
  notify, mark_all_read, send_pending_emails,
}
use in_work_marketing_os_bac.Notifications.Unread.{
  IsDeduped, here, next, notifies, marks_all_read, Reach-IsDeduped,
}
use in_work_marketing_os_bac.Notifications.Digest.{IsUnsendable, send_pending_emails-starved}
use in_work_marketing_os_bac.Examples.Data.{plain_user, stranger}

abbrev signal : Signal
signal = record {
  title = 84 ∷ [];
  kind = "alert";
  level = critical;
  body = none;
  client_id = some 1;
  link = none;
  rec_key = some (75 ∷ []);
}

empty-IsDeduped : IsDeduped []
unfolding count
empty-IsDeduped u c cs = omega arith

Reach-IsDeduped_example : IsDeduped (mark_all_read 9 (notify 50 [] 12 signal).0 12).0
Reach-IsDeduped_example =
    Reach-IsDeduped (next (next here (notifies 50 12 signal)) (marks_all_read 9 12)) empty-IsDeduped

-- The second user's digest waits behind one notification of the first, who has no preferences.
abbrev preferences : List NotificationPreference
preferences = record { user_id = 13; email_enabled = true; muted_client_ids = [] } ∷ []

abbrev of_first : List Notification
of_first = new_notification 50 12 signal ∷ []

abbrev of_second : List Notification
of_second = new_notification 51 13 signal ∷ []

enough : 1 ≤ count is_pending of_first
unfolding count
enough = omega arith

of_first-IsUnsendable :
    All (IsUnsendable preferences (plain_user ∷ stranger ∷ [])) (keep_if is_pending of_first)
unfolding keep_if find_by
of_first-IsUnsendable = (inl refl, tt)

abbrev centre : Centre
centre = record { notifications = of_first ++ of_second; preferences = preferences }

send_pending_emails-starved_example :
    send_pending_emails true (λ i. true) 9 (plain_user ∷ stranger ∷ []) 1 centre ≡ (centre, 0)
send_pending_emails-starved_example =
    send_pending_emails-starved true (λ i. true) 9 (plain_user ∷ stranger ∷ []) 1 preferences
      of_first of_second enough of_first-IsUnsendable
