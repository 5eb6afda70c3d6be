-- ===== src/Notifications.antt =====
-- In-app notifications and their e-mail digest: app/services/notification_service.py,
-- app/services/notification_email_service.py and their two repositories.
use in_work_marketing_os_bac.Base.{
  ℕ, ◌+◌, suc, String, Bool, true, false, Option, none, some, List, [], ◌∷◌, ◌++◌, ◌==◌, ◌&&◌, ◌||◌,
  not, is_some, or_else, opt_eq, str_eq, length, take, any, contains, if◌then◌else◌, find_by,
  update_if, keep_if, count,
}
use in_work_marketing_os_bac.Errors.{text, not_found, Result, ok, err, or_raise}
use in_work_marketing_os_bac.Model.Tables.{Text, ClientAssignment, User}
use in_work_marketing_os_bac.Audit.{text_eq}
pub mod Unread
pub mod Digest

pub data NotificationLevel : Type 0 where
  info warning critical : NotificationLevel

pub record Notification : Type 0 where
  pub id : ℕ
  pub user_id : ℕ
  pub client_id : Option ℕ
  pub kind : String
  pub level : NotificationLevel
  pub title : Text
  pub body : Option Text
  pub link : Option Text
  pub rec_key : Option Text
  pub read_at : Option ℕ
  pub emailed_at : Option ℕ

pub record NotificationPreference : Type 0 where
  pub user_id : ℕ
  pub email_enabled : Bool
  pub muted_client_ids : List ℕ

-- The two tables, in the order of creation.
pub record Centre : Type 0 where
  pub notifications : List Notification
  pub preferences : List NotificationPreference

-- The keyword arguments of `notify`.
pub record Signal : Type 0 where
  pub title : Text
  pub kind : String
  pub level : NotificationLevel
  pub body : Option Text
  pub client_id : Option ℕ
  pub link : Option Text
  pub rec_key : Option Text

abbrev pub is_unread : Notification → Bool
is_unread n = not (is_some n.read_at)

abbrev pub is_key : Text → Option Text → Bool
is_key k none = false
is_key k (some j) = text_eq j k

abbrev pub unread_with_key : ℕ → Text → Notification → Bool
unread_with_key user_id k n = n.user_id == user_id && is_key k n.rec_key && is_unread n

abbrev pub unread_of : ℕ → Notification → Bool
unread_of user_id n = n.user_id == user_id && is_unread n

-- `find_unread_by_reckey(user_id, rec_key) if rec_key else None`
unfoldable pub find_existing : List Notification → ℕ → Option Text → Option Notification
find_existing ns user_id none = none
find_existing ns user_id (some []) = none
find_existing ns user_id (some (c ∷ cs)) = find_by (unread_with_key user_id (c ∷ cs)) ns

-- What a repeated signal writes to the existing row.
abbrev pub rewritten : Signal → Notification → Notification
rewritten s n = record n {
  title = s.title;
  body = s.body;
  level = s.level;
  kind = s.kind;
  link = s.link;
  client_id = s.client_id;
}

abbrev pub new_notification : ℕ → ℕ → Signal → Notification
new_notification new_id user_id s = record {
  id = new_id;
  user_id = user_id;
  client_id = s.client_id;
  kind = s.kind;
  level = s.level;
  title = s.title;
  body = s.body;
  link = s.link;
  rec_key = s.rec_key;
  read_at = none;
  emailed_at = none;
}

abbrev pub is_notification : ℕ → Notification → Bool
is_notification i n = n.id == i

-- `notify`
unfoldable pub notify : ℕ → List Notification → ℕ → Signal → List Notification × Notification
notify new_id ns user_id s = elim (find_existing ns user_id s.rec_key) [
  | some existing ↦ (update_if (is_notification existing.id) (rewritten s) ns, rewritten s existing)
  | none ↦ (ns ++ new_notification new_id user_id s ∷ [], new_notification new_id user_id s)
]

-- `notify_client_team` over the client's assignments; `new_id` numbers the rows that it may add
unfoldable pub notify_team :
    ℕ → List Notification → List ClientAssignment → Signal → List Notification
notify_team new_id ns [] s = ns
notify_team new_id ns (a ∷ assignments) s =
    notify_team (new_id + 1) (notify new_id ns a.user_id s).0 assignments s

unfoldable pub notify_client_team :
    ℕ → List Notification → List ClientAssignment → ℕ → Signal → List Notification × ℕ
notify_client_team new_id ns assignments client_id s =
    let team = keep_if (λ (a : ClientAssignment). a.client_id == client_id) assignments in
    (notify_team new_id ns team (record s { client_id = some client_id }), length team)

-- `NotificationRepository.unread_count`
unfoldable pub unread_count : List Notification → ℕ → ℕ
unread_count ns user_id = count (unread_of user_id) ns

-- The rows and the total of `list_for_user`, before the page is cut
unfoldable pub list_for_user : List Notification → ℕ → Bool → List Notification × ℕ
list_for_user ns user_id unread_only =
    let wanted = λ (n : Notification). n.user_id == user_id && (not unread_only || is_unread n) in
    (keep_if wanted ns, count wanted ns)

abbrev pub get_for_user : ℕ → ℕ → Notification → Bool
get_for_user user_id i n = n.id == i && n.user_id == user_id

abbrev pub read_at : ℕ → Notification → Notification
read_at now n = record n { read_at = some now }

-- `mark_read`
unfoldable pub mark_read : ℕ → List Notification → ℕ → ℕ → List Notification × Result Notification
mark_read now ns user_id i = elim (find_by (get_for_user user_id i) ns) [
  | none ↦ (ns, err (not_found (text "Notification not found.")))
  | some n ↦
      if is_unread n
      then (update_if (is_notification n.id) (read_at now) ns, ok (read_at now n))
      else (ns, ok n)
]

-- `mark_all_read`: the rows that `list_for_user(unread_only=True, limit=None)` returns
unfoldable pub mark_all_read : ℕ → List Notification → ℕ → List Notification × ℕ
mark_all_read now ns user_id =
    (update_if (unread_of user_id) (read_at now) ns, length (keep_if (unread_of user_id) ns))

abbrev pub preference_of : ℕ → NotificationPreference → Bool
preference_of user_id p = p.user_id == user_id

abbrev pub default_preference : ℕ → NotificationPreference
default_preference user_id = record {
  user_id = user_id;
  email_enabled = false;
  muted_client_ids = [];
}

-- `get_preferences`
unfoldable pub get_preferences :
    List NotificationPreference → ℕ → List NotificationPreference × NotificationPreference
get_preferences ps user_id = elim (find_by (preference_of user_id) ps) [
  | some p ↦ (ps, p)
  | none ↦ (ps ++ default_preference user_id ∷ [], default_preference user_id)
]

pub record NotificationPreferenceUpdate : Type 0 where
  pub email_enabled : Option Bool
  pub muted_client_ids : Option (List ℕ)

abbrev pub patched_preference :
    NotificationPreferenceUpdate → NotificationPreference → NotificationPreference
patched_preference d p = record p {
  email_enabled = or_else d.email_enabled p.email_enabled;
  muted_client_ids = or_else d.muted_client_ids p.muted_client_ids;
}

-- `set_preferences`
unfoldable pub set_preferences :
    List NotificationPreference
    → ℕ
    → NotificationPreferenceUpdate
    → List NotificationPreference × NotificationPreference
set_preferences ps user_id d =
    let (ps', pref) = get_preferences ps user_id in
    (update_if (preference_of user_id) (patched_preference d) ps', patched_preference d pref)

-- `NotificationRepository.list_pending_email`: oldest first, so in the order of the table
abbrev pub is_alert : NotificationLevel → Bool
is_alert info = false
is_alert _ = true

abbrev pub is_pending : Notification → Bool
is_pending n = not (is_some n.emailed_at) && is_alert n.level

unfoldable pub list_pending_email : List Notification → ℕ → List Notification
list_pending_email ns limit = take limit (keep_if is_pending ns)

-- The keys of `by_user`, in the order of their first notification.
unfoldable pub recipients : List Notification → List ℕ
recipients [] = []
recipients (n ∷ ns) = n.user_id ∷ keep_if (λ i. not (i == n.user_id)) (recipients ns)

abbrev pub is_muted : NotificationPreference → Notification → Bool
is_muted p n = elim n.client_id [ none ↦ false | some c ↦ any (λ i. i == c) p.muted_client_ids ]

-- `pref is not None and pref.email_enabled and user is not None`, with the preference
abbrev pub active_user : List User → ℕ → Bool
active_user users i = any (λ (u : User). u.id == i && u.is_active) users

abbrev if_enabled : Bool → NotificationPreference → Option NotificationPreference
if_enabled usable p = if p.email_enabled && usable then some p else none

abbrev pub opted_in : Centre → List User → ℕ → Option NotificationPreference
opted_in st users i = elim (find_by (preference_of i) st.preferences) [
  | none ↦ none
  | some p ↦ if_enabled (active_user users i) p
]

-- `eligible_items` of one recipient
unfoldable pub eligible_items : Centre → List User → List Notification → ℕ → List Notification
eligible_items st users pending i = elim (opted_in st users i) [
  | none ↦ []
  | some p ↦ keep_if (λ (n : Notification). n.user_id == i && not (is_muted p n)) pending
]

abbrev pub emailed : ℕ → Notification → Notification
emailed now n = record n { emailed_at = some now }

abbrev pub listed_in : List Notification → Notification → Bool
listed_in items n = any (λ (m : Notification). m.id == n.id) items

-- One recipient of the sweep; `sends` is whether the mail provider accepts the digest.
abbrev pub send_one : Bool → ℕ → List Notification → Centre → Centre × ℕ
send_one sent now [] st = (st, 0)
send_one false now (n ∷ ns) st = (st, 0)
send_one true now (n ∷ ns) st =
    (record st { notifications = update_if (listed_in (n ∷ ns)) (emailed now) st.notifications }, 1)

unfoldable pub send_each :
    (ℕ → Bool) → ℕ → List User → List Notification → Centre → List ℕ → Centre × ℕ
send_each sends now users pending st [] = (st, 0)
send_each sends now users pending st (i ∷ is) =
    let (st', n) = send_one (sends i) now (eligible_items st users pending i) st in
    let (st'', m) = send_each sends now users pending st' is in (st'', n + m)

-- `send_pending_emails`
unfoldable pub send_pending_emails : Bool → (ℕ → Bool) → ℕ → List User → ℕ → Centre → Centre × ℕ
send_pending_emails is_configured sends now users limit st =
    if not is_configured
    then (st, 0)
    else let pending = list_pending_email st.notifications limit in
      send_each sends now users pending st (recipients pending)
