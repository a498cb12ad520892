-- ===== src/Order/Notify.antt =====
-- The notifications of order_service.py write the outbox table and nothing else.
use kans_shop.Prelude.{ℕ, ◌≡◌, Option, none, some, List, [], ◌∷◌, arith}
use kans_shop.Models.{
  Database, Order, OrderStatusHistory, Admin, EventType, DedupeKey, PaymentTransaction,
}
use kans_shop.Exec.{Exec, ok, ◌>>=◌, >>=-eq-ok}
use kans_shop.Outbox.Frame.{OnlyOutbox, only_trans, enqueue_only}
use kans_shop.Order.{
  enqueue_each, enqueue_order_card_updates, enqueue_payment_notifications, notify_status, notify_if,
  enqueue_manual_payment_notification, notify_payment, recipients,
}

-- A call that writes the outbox table and nothing else.
abbrev pub IsQuiet : {A : Type 0} → Exec A → Type 0
IsQuiet {A} m = (d d' : Database) (a : A) → m d ≡ ok (a, d') → OnlyOutbox d d'

pub bind-IsQuiet :
    {A B : Type 0} (m : Exec A) (f : A → Exec B)
    → IsQuiet m
    → ((a : A) → IsQuiet (f a))
    → IsQuiet (m >>= f)
bind-IsQuiet m f hm hf d d' b h =
    let (a, e, p, q) = >>=-eq-ok m f d h in only_trans d e d' (hm d e a p) (hf a e d' b q)

pub pure-IsQuiet : {A : Type 0} (a : A) → IsQuiet (λ d. ok (a, d))
pure-IsQuiet a d d' b h = ground arith

enqueue_each-IsQuiet :
    (type : EventType) (order payload : ℕ) (key : ℕ → DedupeKey) (all : List Admin)
    → IsQuiet (enqueue_each type order payload key all)
unfolding enqueue_each
enqueue_each-IsQuiet type order payload key [] = pure-IsQuiet tt
enqueue_each-IsQuiet type order payload key (a ∷ rest) =
    bind-IsQuiet _ _ (enqueue_only type order (some payload) _ (key a.id))
      (λ _. enqueue_each-IsQuiet type order payload key rest)

pub card_updates-IsQuiet :
    (o : Order) (type : EventType) (payload : ℕ) (key : ℕ → DedupeKey)
    → IsQuiet (enqueue_order_card_updates o type payload key)
unfolding enqueue_order_card_updates
card_updates-IsQuiet o type payload key d =
    enqueue_each-IsQuiet type o.id payload key (recipients o d.admins.rows) d

pub payment_notifications-IsQuiet :
    (o : Order) (type admin_type : EventType) (payload : ℕ) (user_key admin_key : ℕ → DedupeKey)
    → IsQuiet (enqueue_payment_notifications o type admin_type payload user_key admin_key)
unfolding enqueue_payment_notifications
payment_notifications-IsQuiet o type admin_type payload user_key admin_key =
    bind-IsQuiet _ _ (enqueue_only type o.id (some payload) _ _)
      (λ _. card_updates-IsQuiet o admin_type payload admin_key)

pub manual_notification-IsQuiet :
    (o : Order) (audit : ℕ) → IsQuiet (enqueue_manual_payment_notification o audit)
unfolding enqueue_manual_payment_notification
manual_notification-IsQuiet o audit = payment_notifications-IsQuiet o _ _ audit _ _

pub notify_status-IsQuiet : (o : Order) (h : OrderStatusHistory) → IsQuiet (notify_status o h)
unfolding notify_status
notify_status-IsQuiet o h =
    bind-IsQuiet _ _ (enqueue_only _ o.id (some h.id) _ _) (λ _. card_updates-IsQuiet o _ h.id _)

pub notify_if-IsQuiet :
    (admin : Option ℕ) (o : Order) (h : OrderStatusHistory) → IsQuiet (notify_if admin o h)
unfolding notify_if
notify_if-IsQuiet none o h = pure-IsQuiet tt
notify_if-IsQuiet (some a) o h = notify_status-IsQuiet o h

pub notify_payment-IsQuiet :
    (o : Order) (t : Option PaymentTransaction) → IsQuiet (notify_payment o t)
notify_payment-IsQuiet o none = pure-IsQuiet tt
notify_payment-IsQuiet o (some t) = payment_notifications-IsQuiet o _ _ t.id _ _
