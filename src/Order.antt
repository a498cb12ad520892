-- ===== src/Order.antt =====
-- backend/app/services/order_service.py: the life of an order after checkout. Each operation takes
-- the time and the id of the order, whose row it locks and reads again.
pub mod Notify
pub mod Status
pub mod Stock
pub mod Growth
pub mod Life
pub mod Failure
use kans_shop.Prelude.{
  ℕ, Bool, true, false, ◌&&◌, ◌||◌, not, Option, none, some, List, [], ◌∷◌, Text, truthy, ◌==◌,
  or_else, select, sort_by, find, if◌then◌else◌,
}
use kans_shop.Prelude.Int.{pos, neg}
use kans_shop.Enums.{
  OrderStatus, PaymentStatus, new, confirmed, preparing, delivering, completed, cancelled,
  status_eq,
}
use kans_shop.Models.{
  Order, OrderItem, OrderStatusHistory, Admin, Product, PaymentTransaction, EventType, DedupeKey,
  status_user, status_admin, gateway_user, gateway_admin, manual_user, manual_admin,
}
use kans_shop.Exec.{
  Exec, ok, order_not_found, order_already_processed, pure, raise_if, or_raise, gets, ◌>>=◌, ◌>>◌,
}
use kans_shop.Repositories.{
  get_order_by_id, save_order, add_status_history, get_product_by_id, save_product, adjusted, sold,
  get_paid_of_order,
}
use kans_shop.Outbox.{enqueue_outbox_event, to_user, to_admin}

abbrev pub allowed_transitions : OrderStatus → List OrderStatus
allowed_transitions new = confirmed ∷ []
allowed_transitions confirmed = preparing ∷ []
allowed_transitions preparing = delivering ∷ completed ∷ []
allowed_transitions delivering = completed ∷ []
allowed_transitions completed = []
allowed_transitions cancelled = []

abbrev pub mem_status : OrderStatus → List OrderStatus → Bool
mem_status s [] = false
mem_status s (t ∷ ts) = status_eq s t || mem_status s ts

-- `order.status in (COMPLETED, CANCELLED)`
abbrev pub is_terminal : OrderStatus → Bool
is_terminal completed = true
is_terminal cancelled = true
is_terminal _ = false

-- `get_by_id_for_update`, and the raise when the row is gone
unfoldable pub lock_order : ℕ → Exec Order
lock_order k = do found ← get_order_by_id k; or_raise found (order_not_found k)

-- `get_order`
unfoldable pub get_order : ℕ → Exec Order
get_order k = do found ← get_order_by_id k; or_raise found (order_not_found k)

-- The administrators whose cards of this order are refreshed.
abbrev mem_telegram : ℕ → List (ℕ × ℕ) → Bool
mem_telegram t [] = false
mem_telegram t ((u, m) ∷ rest) = u == t || mem_telegram t rest

abbrev has_card : Order → Admin → Bool
has_card o a =
    mem_telegram a.telegram_id o.admin_message_ids && (a.is_active && a.notifications_enabled)

recipients : Order → List Admin → List Admin
recipients o all = sort_by (λ a. a.id) (select (has_card o) all)

enqueue_each : EventType → ℕ → ℕ → (ℕ → DedupeKey) → List Admin → Exec (Unit {0})
enqueue_each type order payload key [] = pure tt
enqueue_each type order payload key (a ∷ rest) =
    let later = enqueue_each type order payload key rest in
    do enqueue_outbox_event type order (some payload) (to_admin a.id) (key a.id); later

unfoldable pub enqueue_order_card_updates :
    Order → EventType → ℕ → (ℕ → DedupeKey) → Exec (Unit {0})
unfolding recipients enqueue_each
enqueue_order_card_updates o type payload key d =
    enqueue_each type o.id payload key (recipients o d.admins.rows) d

unfoldable pub enqueue_payment_notifications :
    Order → EventType → EventType → ℕ → (ℕ → DedupeKey) → (ℕ → DedupeKey) → Exec (Unit {0})
enqueue_payment_notifications o type admin_type payload user_key admin_key = do
  enqueue_outbox_event type o.id (some payload) (to_user o.user_id) (user_key o.user_id)
  enqueue_order_card_updates o admin_type payload admin_key

unfoldable pub enqueue_manual_payment_notification : Order → ℕ → Exec (Unit {0})
enqueue_manual_payment_notification o audit =
    enqueue_payment_notifications o EventType.manual_accepted EventType.card_manual_updated audit
      (manual_user audit) (manual_admin audit)

-- The order as `advance_status` writes it.
abbrev pub advanced : ℕ → OrderStatus → Option ℕ → Bool → Order → Order
advanced now to_ admin set_confirmed o = record o {
  status = to_;
  processed_by_admin_id = elim admin [ none ↦ o.processed_by_admin_id | some a ↦ some a ];
  confirmed_at = if set_confirmed || status_eq to_ confirmed then some now else o.confirmed_at;
  completed_at = if status_eq to_ completed then some now else o.completed_at;
}

-- The outbox events of a status change.
unfoldable pub notify_status : Order → OrderStatusHistory → Exec (Unit {0})
notify_status o h = do
  enqueue_outbox_event EventType.status_changed o.id (some h.id) (to_user o.user_id)
      (status_user h.id o.user_id)
  enqueue_order_card_updates o EventType.card_status_updated h.id (status_admin h.id)

unfoldable pub notify_if : Option ℕ → Order → OrderStatusHistory → Exec (Unit {0})
notify_if none o h = pure tt
notify_if (some a) o h = notify_status o h

unfoldable pub advance_status : ℕ → ℕ → OrderStatus → Option ℕ → Option Text → Bool → Exec Order
advance_status now k to_ admin text set_confirmed = do
  order ← lock_order k
  raise_if (not (mem_status to_ (allowed_transitions order.status))) order_already_processed
  let moved = advanced now to_ admin set_confirmed order
  save_order moved
  history ← add_status_history order.id (some order.status) to_ admin text
  notify_if admin moved history
  pure moved

unfoldable pub confirm_order : ℕ → ℕ → ℕ → Exec Order
confirm_order now k admin = advance_status now k confirmed (some admin) none true

-- The stock and the sales of one item go back to its product, if the product is still there.
abbrev pub given_back : Bool → ℕ → Product → Product
given_back deducted quantity p =
    sold (neg quantity) (if deducted then adjusted (pos quantity) p else p)

abbrev save_given_back : Bool → ℕ → Option Product → Exec (Unit {0})
save_given_back deducted quantity none = pure tt
save_given_back deducted quantity (some p) = save_product (given_back deducted quantity p)

unfoldable pub restock : Bool → OrderItem → Exec (Unit {0})
restock deducted item d = elim item.product_id [
  | none ↦ ok (tt, d)
  | some k ↦ (do p ← get_product_by_id k; save_given_back deducted item.quantity p) d
]

unfoldable pub restock_all : Bool → List OrderItem → Exec (Unit {0})
restock_all deducted [] = pure tt
restock_all deducted (item ∷ rest) =
    let later = restock_all deducted rest in do restock deducted item; later

abbrev item_order : OrderItem → ℕ
item_order i = or_else i.product_id 0

abbrev pub cancelled_by : ℕ → Option ℕ → Text → Order → Order
cancelled_by now admin reason o = record o {
  status = cancelled;
  cancel_reason = some reason;
  cancelled_at = some now;
  processed_by_admin_id = elim admin [ none ↦ o.processed_by_admin_id | some a ↦ some a ];
}

unfoldable pub cancel_order : ℕ → ℕ → Option ℕ → Text → Exec Order
cancel_order now k admin reason = do
  order ← lock_order k
  raise_if (is_terminal order.status) order_already_processed
  let gone = cancelled_by now admin reason order
  save_order gone
  restock_all order.stock_deducted (sort_by item_order order.items)
  history ← add_status_history order.id (some order.status) cancelled admin (some reason)
  notify_status gone history
  pure gone

-- The part of `mark_paid` after the status: the events of the payment, if one is found.
abbrev pub notify_payment : Order → Option PaymentTransaction → Exec (Unit {0})
notify_payment o none = pure tt
notify_payment o (some t) =
    enqueue_payment_notifications o EventType.gateway_confirmed EventType.card_gateway_updated t.id
      (gateway_user t.id) (gateway_admin t.id)

abbrev pub is_new : OrderStatus → Bool
is_new new = true
is_new _ = false

abbrev pub confirm_if_new : ℕ → Order → Exec Order
confirm_if_new now o d =
    if is_new o.status then advance_status now o.id confirmed none none false d else ok (o, d)

abbrev pub is_paid : PaymentStatus → Bool
is_paid PaymentStatus.paid = true
is_paid _ = false

unfoldable pub settle : ℕ → Order → Exec Order
settle now o = do
  save_order (record o { payment_status = PaymentStatus.paid })
  order ← confirm_if_new now (record o { payment_status = PaymentStatus.paid })
  payment ← get_paid_of_order order.id
  notify_payment order payment
  pure order

unfoldable pub mark_paid : ℕ → Order → Exec Order
mark_paid now o d = if is_paid o.payment_status then ok (o, d) else settle now o d

-- `set_admin_message_id`: the card of one administrator.
abbrev pub put_message : ℕ → ℕ → List (ℕ × ℕ) → List (ℕ × ℕ)
put_message t m [] = (t, m) ∷ []
put_message t m ((u, n) ∷ rest) = if u == t then (t, m) ∷ rest else (u, n) ∷ put_message t m rest

unfoldable pub set_admin_message_id : Order → ℕ → ℕ → Exec (Unit {0})
set_admin_message_id o t m =
    save_order (record o { admin_message_ids = put_message t m o.admin_message_ids })

-- `lot_links`: the lot pages of the items, and the names of the items that have none.
abbrev LotLink : Type 0
LotLink = Text × Text

abbrev lot_of : Option Product → Option Text
lot_of none = none
lot_of (some p) = if truthy p.lot_url then p.lot_url else none

abbrev item_lot : List Product → OrderItem → Option Text
item_lot all i = elim i.product_id [ none ↦ none | some k ↦ lot_of (find (λ p. p.id) k all) ]

unfoldable pub split_links : List Product → List OrderItem → List LotLink × List Text
split_links all [] = ([], [])
split_links all (i ∷ rest) =
    let (links, missing) = split_links all rest in
    elim (item_lot all i) [
      | some u ↦ ((i.product_name_snapshot, u) ∷ links, missing)
      | none ↦ (links, i.product_name_snapshot ∷ missing)
    ]

unfoldable pub lot_links : Order → Exec (List LotLink × List Text)
unfolding split_links
lot_links o = gets (λ d. split_links d.products.rows o.items)
