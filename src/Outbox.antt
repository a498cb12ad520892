-- ===== src/Outbox.antt =====
-- backend/app/services/notification_outbox_service.py and the loads of administrators
-- (admin_actor_service.py).
pub mod Frame
pub mod Once
use kans_shop.Prelude.{
  ℕ, Bool, true, false, ◌||◌, not, Option, none, some, ◌++◌, Text, show, codes, length, find,
  find_by, insert, text_eq, ltb, is_empty, if◌then◌else◌,
}
use kans_shop.Enums.{AdminRole, superadmin, manager, operator, NotificationOutboxStatus}
use kans_shop.Models.{
  Admin, NotificationOutbox, DedupeKey, order_created, status_user, status_admin, gateway_user,
  gateway_admin, manual_user, manual_admin, store_settings, order_message, admin_team, EventType,
}
use kans_shop.Exec.{Exec, admin_session_required, forbidden, value_error, ok, err}
use kans_shop.Repositories.{admin_key}

-- The key as the database stores it.
unfoldable pub dedupe_text : DedupeKey → Text
dedupe_text (order_created o a) = codes "order:" ++ (show o ++ (codes ":created:admin:" ++ show a))
dedupe_text (status_user h u) = codes "order-status:" ++ (show h ++ (codes ":user:" ++ show u))
dedupe_text (status_admin h a) = codes "order-status:" ++ (show h ++ (codes ":admin:" ++ show a))
dedupe_text (gateway_user p u) =
    codes "order-gateway-payment:" ++ (show p ++ (codes ":user:" ++ show u))
dedupe_text (gateway_admin p a) =
    codes "order-gateway-payment:" ++ (show p ++ (codes ":admin:" ++ show a))
dedupe_text (manual_user e u) =
    codes "order-manual-payment:" ++ (show e ++ (codes ":user:" ++ show u))
dedupe_text (manual_admin e a) =
    codes "order-manual-payment:" ++ (show e ++ (codes ":admin:" ++ show a))
dedupe_text (store_settings v a) =
    codes "store-settings:" ++ (show v ++ (codes ":admin:" ++ show a))
dedupe_text (order_message m) = codes "admin-order-message:" ++ show m
dedupe_text (admin_team e a) = codes "admin-team:" ++ (show e ++ (codes ":admin:" ++ show a))

-- `not dedupe_key or len(dedupe_key) > 160`
unfoldable pub is_bad_key : DedupeKey → Bool
is_bad_key key = is_empty (dedupe_text key) || ltb 160 (length (dedupe_text key))

unfoldable pub same_key : DedupeKey → DedupeKey → Bool
same_key j k = text_eq (dedupe_text j) (dedupe_text k)

pub data Recipient : Type 0 where
  to_user to_admin : ℕ → Recipient

abbrev recipient_user : Recipient → Option ℕ
recipient_user (to_user u) = some u
recipient_user (to_admin a) = none

abbrev recipient_admin : Recipient → Option ℕ
recipient_admin (to_user u) = none
recipient_admin (to_admin a) = some a

abbrev pub event_row : ℕ → EventType → ℕ → Option ℕ → Recipient → DedupeKey → ℕ → NotificationOutbox
event_row now type aggregate payload recipient key k = record {
  id = k;
  recipient_user_id = recipient_user recipient;
  recipient_admin_id = recipient_admin recipient;
  event_type = type;
  aggregate_id = aggregate;
  payload_id = payload;
  dedupe_key = key;
  status = NotificationOutboxStatus.pending;
  attempts = 0;
  next_available_at = now;
  lease_token = none;
  lease_expires_at = none;
  sent_at = none;
  last_error = none;
}

abbrev pub has_key : DedupeKey → NotificationOutbox → Bool
has_key key e = same_key e.dedupe_key key

-- `on_conflict_do_nothing`: the event that has the key already, or a new one.
abbrev insert_unless :
    Option NotificationOutbox → (ℕ → NotificationOutbox) → Exec NotificationOutbox
insert_unless (some e) row d = ok (e, d)
insert_unless none row d = ok (row d.outbox.next, record d { outbox = insert row d.outbox })

unfoldable pub enqueue_outbox_event :
    EventType → ℕ → Option ℕ → Recipient → DedupeKey → Exec NotificationOutbox
enqueue_outbox_event type aggregate payload recipient key d =
    if is_bad_key key
    then err value_error
    else insert_unless (find_by (has_key key) d.outbox.rows)
        (event_row d.clock type aggregate payload recipient key) d

-- `allowed_roles` as a test. Every role may work with orders.
abbrev pub order_admin_role : AdminRole → Bool
order_admin_role superadmin = true
order_admin_role manager = true
order_admin_role operator = true

abbrev pub management_role : AdminRole → Bool
management_role superadmin = true
management_role manager = true
management_role operator = false

abbrev check_admin : (AdminRole → Bool) → Option Admin → Exec Admin
check_admin allowed none d = err admin_session_required
check_admin allowed (some a) d =
    if not a.is_active
    then err admin_session_required
    else if allowed a.role
    then ok (a, d)
    else err forbidden

unfoldable pub load_live_admin : (AdminRole → Bool) → ℕ → Exec Admin
load_live_admin allowed k d = check_admin allowed (find admin_key k d.admins.rows) d
