-- ===== src/Worker/Render.antt =====
-- The renderers of backend/app/services/notification_outbox_worker.py: they reload the rows of an
-- event and say what to send, or why to skip it. A message is kept as its locale key with its
-- arguments, and a card as the rows that it is built from (`translate`, `build_admin_order_text`);
-- the language that is used where an administrator is no user is a parameter.
use kans_shop.Prelude.{
  ℕ, Bool, true, false, ◌&&◌, ◌||◌, not, Option, none, some, List, [], ◌∷◌, Text, codes, find,
  find_by, is_some, or_else, ◌==◌, if◌then◌else◌,
}
use kans_shop.Enums.{new, cancelled, confirmed, status_eq}
use kans_shop.Models.{
  Database, User, Admin, Order, OrderStatusHistory, AdminAuditEvent, PaymentTransaction,
  AdminOrderMessage, TrafficSource, EventType, created, status_changed, card_status_updated,
  gateway_confirmed, card_gateway_updated, manual_accepted, card_manual_updated, settings_updated,
  message_queued, team_changed, source_created, source_updated, deploy, unlisted,
}
use kans_shop.Repositories.{user_key, admin_key, order_key, tx_key}
use kans_shop.Worker.{OutboxClaim}
use kans_shop.Worker.Content.{
  Rendered, ◌>>=◌, ◌>>◌, need, skip_if, data_missing, recipient_missing, recipient_blocked,
  actor_inactive, escape, or_dash, is_pdf, Processed, Notice, Delivery, message, ready, skip,
  status_by, payment_accepted_by, cancelled_notification, confirmed_notification,
  status_changed_notification, payment_confirmed_notification, outbox_team_changed,
  outbox_settings_updated, deploy_notification, outbox_source_created, outbox_source_updated,
  translated, order_card, verbatim, send_order, edit_order,
}

abbrev pub history_key : OrderStatusHistory → ℕ
history_key h = h.id

abbrev pub audit_key : AdminAuditEvent → ℕ
audit_key e = e.id

abbrev pub message_key : AdminOrderMessage → ℕ
message_key m = m.id

abbrev pub source_key : TrafficSource → ℕ
source_key s = s.id

-- `_fresh_admin`
abbrev check_admin : Admin → Rendered Admin
check_admin a = do
  skip_if (not a.is_active) (codes "admin_inactive")
  skip_if (not a.notifications_enabled) (codes "admin_notifications_disabled")
  ready a

unfoldable pub fresh_admin : Database → ℕ → Rendered Admin
fresh_admin d k = do
  a ← need (find admin_key k d.admins.rows) (codes "admin_inactive")
  check_admin a

-- `_actor_is_live`
abbrev pub is_active_admin : Option Admin → Bool
is_active_admin none = false
is_active_admin (some a) = a.is_active

unfoldable pub actor_is_live : Database → Option ℕ → Bool
actor_is_live d none = true
actor_is_live d (some k) = is_active_admin (find admin_key k d.admins.rows)

-- An actor who has to be named: `actor_id is None or not await _actor_is_live(…)`
abbrev pub is_live_actor : Database → Option ℕ → Bool
is_live_actor d actor = is_some actor && actor_is_live d actor

abbrev status_notice : Order → OrderStatusHistory → Notice
status_notice o h = elim h.to_status [
  | cancelled ↦ cancelled_notification o.order_number (escape (or_dash h.comment))
  | confirmed ↦ confirmed_notification o.order_number
  | _ ↦ status_changed_notification o.order_number h.to_status
]

unfoldable pub render_order_status : Database → OutboxClaim → Rendered Delivery
render_order_status d c = do
  payload ← need c.payload_id data_missing
  h ← need (find history_key payload d.status_history.rows) data_missing
  o ← need (find order_key c.aggregate_id d.orders.rows) data_missing
  skip_if (not (h.order_id == o.id)) data_missing
  skip_if (not (is_live_actor d h.changed_by_admin_id)) actor_inactive
  user ← need c.recipient_user_id recipient_missing
  skip_if (not (user == o.user_id)) recipient_missing
  customer ← need (find user_key user d.users.rows) recipient_missing
  skip_if customer.is_blocked recipient_blocked
  ready (message customer.telegram_id (translated customer.language (status_notice o h)))

-- `order.admin_message_ids.get(…)`
unfoldable pub card_of : ℕ → List (ℕ × ℕ) → Option ℕ
card_of t [] = none
card_of t ((u, m) ∷ rest) = if u == t then some m else card_of t rest

abbrev reason_of : OrderStatusHistory → Option Text
reason_of h = elim h.to_status [ cancelled ↦ some (escape (or_dash h.comment)) | _ ↦ none ]

abbrev named_actor : Database → Option ℕ → Rendered Admin
named_actor d actor = do
  k ← need actor actor_inactive
  a ← need (find admin_key k d.admins.rows) actor_inactive
  skip_if (not a.is_active) actor_inactive
  ready a

-- `_STATUS_ACTION_KEYS` has every status but the first.
abbrev status_line : Database → ℕ → Order → OrderStatusHistory → Rendered (Option Processed)
status_line d now o h = do
  skip_if (not (is_some h.changed_by_admin_id)) actor_inactive
  skip_if (not (status_eq h.to_status o.status)) (codes "event_superseded")
  elim h.to_status [
    | new ↦ ready none
    | other ↦ do
      a ← named_actor d h.changed_by_admin_id
      ready (some (status_by other (escape a.full_name) now (reason_of h)))
  ]

abbrev payment_line : Database → ℕ → OutboxClaim → Rendered (Option Processed)
payment_line d now c = do
  audit ← need (find audit_key (or_else c.payload_id 0) d.audit_events.rows) data_missing
  actor ← need audit.actor_admin_id data_missing
  a ← named_actor d (some actor)
  ready (some (payment_accepted_by (escape a.full_name) now))

abbrev processed_line :
    Database
    → ℕ
    → OutboxClaim
    → Order
    → Bool
    → Option OrderStatusHistory
    → Rendered (Option Processed)
processed_line d now c o review (some h) = status_line d now o h
processed_line d now c o true none = payment_line d now c
processed_line d now c o false none = ready none

-- `order_id is None` of a gateway transaction and an audit event that is there.
abbrev is_payment_of : ℕ → PaymentTransaction → Bool
is_payment_of order t = t.order_id == order

module _ (default_language : Text) where
  abbrev language_of : Option User → Text
  language_of none = default_language
  language_of (some u) = u.language

  -- `translator_for_admin`
  unfoldable pub admin_language : Database → ℕ → Text
  admin_language d telegram_id =
      language_of (find_by (λ u. u.telegram_id == telegram_id) d.users.rows)

  unfoldable pub render_admin_order_card :
      Database → ℕ → OutboxClaim → Option ℕ → Bool → Option OrderStatusHistory → Rendered Delivery
  render_admin_order_card d now c actor review history = do
    k ← need c.recipient_admin_id recipient_missing
    a ← fresh_admin d k
    skip_if (not (actor_is_live d actor)) actor_inactive
    o ← need (find order_key c.aggregate_id d.orders.rows) data_missing
    card ← need (card_of a.telegram_id o.admin_message_ids) data_missing
    customer ← need (find user_key o.user_id d.users.rows) data_missing
    line ← processed_line d now c o review history
    ready
        (record (message a.telegram_id
          (order_card (admin_language d a.telegram_id) o customer line)) {
            operation = edit_order;
            message_id = some card;
          })

  -- `admin.order_message.queued`
  unfoldable pub render_order_message : Database → OutboxClaim → Rendered Delivery
  render_order_message d c = do
    payload ← need c.payload_id data_missing
    user ← need c.recipient_user_id data_missing
    o ← need (find order_key c.aggregate_id d.orders.rows) recipient_missing
    m ← need (find message_key payload d.order_messages.rows) recipient_missing
    customer ← need (find user_key user d.users.rows) recipient_missing
    skip_if (not (o.user_id == user) || not (m.order_id == o.id)) recipient_missing
    skip_if customer.is_blocked recipient_blocked
    skip_if (not (is_live_actor d m.admin_id)) actor_inactive
    ready (record (message customer.telegram_id (verbatim m.text)) { is_html = false })

  -- `order.created`
  unfoldable pub render_order_created : Database → OutboxClaim → Rendered Delivery
  render_order_created d c = do
    k ← need c.recipient_admin_id recipient_missing
    a ← fresh_admin d k
    o ← need (find order_key c.aggregate_id d.orders.rows) data_missing
    customer ← need (find user_key o.user_id d.users.rows) data_missing
    ready
        (record (message a.telegram_id
          (order_card (admin_language d a.telegram_id) o customer none)) {
            operation = send_order;
            order_id = some o.id;
            receipt_file_id = o.receipt_file_id;
            receipt_is_pdf = is_pdf o.receipt_url;
          })

  unfoldable pub render_card_status : Database → ℕ → OutboxClaim → Rendered Delivery
  render_card_status d now c = do
    payload ← need c.payload_id data_missing
    h ← need (find history_key payload d.status_history.rows) data_missing
    render_admin_order_card d now c h.changed_by_admin_id false (some h)

  -- The source of a payment: an audit event of a live actor, or a transaction of the order.
  abbrev check_manual : Database → Order → ℕ → Rendered (Unit {0})
  check_manual d o payload = do
    audit ← need (find audit_key payload d.audit_events.rows) actor_inactive
    skip_if (not (is_live_actor d audit.actor_admin_id)) actor_inactive

  abbrev pub check_gateway : Database → ℕ → ℕ → Rendered (Unit {0})
  check_gateway d order payload = do
    payment ← need (find tx_key payload d.transactions.rows) data_missing
    skip_if (not (payment.order_id == order)) data_missing

  unfoldable pub render_payment : Database → OutboxClaim → Bool → Rendered Delivery
  render_payment d c manual = do
    payload ← need c.payload_id data_missing
    k ← need c.recipient_user_id data_missing
    o ← need (find order_key c.aggregate_id d.orders.rows) recipient_missing
    user ← need (find user_key k d.users.rows) recipient_missing
    skip_if (not (o.user_id == user.id)) recipient_missing
    skip_if user.is_blocked recipient_blocked
    if manual then check_manual d o payload else check_gateway d o.id payload
    ready (
        message user.telegram_id
          (translated user.language (payment_confirmed_notification o.order_number)))

  unfoldable pub render_card_manual : Database → ℕ → OutboxClaim → Rendered Delivery
  render_card_manual d now c = do
    audit ← need (find audit_key (or_else c.payload_id 0) d.audit_events.rows) data_missing
    render_admin_order_card d now c audit.actor_admin_id true none

  unfoldable pub render_card_gateway : Database → ℕ → OutboxClaim → Rendered Delivery
  render_card_gateway d now c = do
    check_gateway d c.aggregate_id (or_else c.payload_id 0)
    render_admin_order_card d now c none false none

  -- `admin.team.changed` and `store.settings.updated`
  unfoldable pub render_admin_notice : Database → OutboxClaim → Notice → Rendered Delivery
  render_admin_notice d c notice = do
    payload ← need c.payload_id data_missing
    k ← need c.recipient_admin_id data_missing
    a ← fresh_admin d k
    audit ← need (find audit_key payload d.audit_events.rows) actor_inactive
    skip_if (not (is_live_actor d audit.actor_admin_id)) actor_inactive
    ready (message a.telegram_id (translated (admin_language d a.telegram_id) notice))

  -- `traffic_source.created` and `traffic_source.updated`
  unfoldable pub render_source : Database → OutboxClaim → (ℕ → Notice) → Rendered Delivery
  render_source d c notice = do
    payload ← need c.payload_id data_missing
    k ← need c.recipient_admin_id data_missing
    a ← fresh_admin d k
    source ← need (find source_key c.aggregate_id d.traffic_sources.rows) actor_inactive
    audit ← need (find audit_key payload d.audit_events.rows) actor_inactive
    skip_if (not (is_live_actor d audit.actor_admin_id)) actor_inactive
    ready (message a.telegram_id (translated (admin_language d a.telegram_id) (notice source.id)))

  unfoldable pub render_deploy : Database → OutboxClaim → Rendered Delivery
  render_deploy d c = do
    k ← need c.recipient_admin_id recipient_missing
    a ← fresh_admin d k
    ready (message a.telegram_id (translated (admin_language d a.telegram_id) deploy_notification))

  abbrev pub render_type : Database → ℕ → OutboxClaim → EventType → Rendered Delivery
  render_type d now c message_queued = render_order_message d c
  render_type d now c created = render_order_created d c
  render_type d now c status_changed = render_order_status d c
  render_type d now c card_status_updated = render_card_status d now c
  render_type d now c gateway_confirmed = render_payment d c false
  render_type d now c manual_accepted = render_payment d c true
  render_type d now c card_gateway_updated = render_card_gateway d now c
  render_type d now c card_manual_updated = render_card_manual d now c
  render_type d now c team_changed = render_admin_notice d c outbox_team_changed
  render_type d now c settings_updated = render_admin_notice d c outbox_settings_updated
  render_type d now c source_created = render_source d c outbox_source_created
  render_type d now c source_updated = render_source d c outbox_source_updated
  render_type d now c deploy = render_deploy d c
  render_type d now c (unlisted t) = skip (codes "unknown_event_type")

  unfoldable pub render_event : Database → ℕ → OutboxClaim → Rendered Delivery
  render_event d now c = render_type d now c c.event_type
