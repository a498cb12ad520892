-- ===== src/Order/Failure.antt =====
-- How `mark_paid` of backend/app/services/order_service.py can fail on the order that it is given.
use kans_shop.Prelude.{
  ◌≡◌, ℕ, Option, none, some, List, [], ◌∷◌, arith, inl, inr, Option-cases, Bool-cases,
}
use kans_shop.Models.{Database, Order, Admin, EventType, DedupeKey, PaymentTransaction}
use kans_shop.Exec.{Exec, Error, err, value_error, Result-cases, ◌>>=◌}
use kans_shop.Outbox.{enqueue_outbox_event, Recipient, has_key}
use kans_shop.Order.{
  enqueue_each, enqueue_order_card_updates, enqueue_payment_notifications, notify_payment,
  recipients, mark_paid, settle, confirm_if_new, advance_status, lock_order, notify_if, is_new,
  is_paid,
}
use kans_shop.Prelude.{find_by}
use kans_shop.Order.Status.{order_of}
use kans_shop.Order.Life.{saved_paid, as_paid, saved_paid-stored, paid_of}

-- It raises for a key that is too long, and for nothing else.
abbrev RaisesKey : {A : Type 0} → Exec A → Type 0
RaisesKey m = (d : Database) (x : Error) → m d ≡ err x → x ≡ value_error

bind-RaisesKey :
    {A B : Type 0} (m : Exec A) (f : A → Exec B)
    → RaisesKey m
    → ((a : A) → RaisesKey (f a))
    → RaisesKey (m >>= f)
bind-RaisesKey m f hm hf d x h = elim (Result-cases (m d)) [
  | inl (a, e, q) ↦ hf a e x (rw (q, ◌>>=◌) at h)
  | inr (y, q) ↦ ground (arith, hm d y q, q, h)
]

enqueue-RaisesKey :
    (type : EventType) (aggregate : ℕ) (payload : Option ℕ) (to_ : Recipient) (key : DedupeKey)
    → RaisesKey (enqueue_outbox_event type aggregate payload to_ key)
unfolding enqueue_outbox_event
enqueue-RaisesKey type aggregate payload to_ key d x h =
    elim (Option-cases (find_by (has_key key) d.outbox.rows)) [
      | inl free ↦ ground arith
      | inr (old, taken) ↦ ground arith
    ]

each-RaisesKey :
    (type : EventType) (order payload : ℕ) (key : ℕ → DedupeKey) (all : List Admin)
    → RaisesKey (enqueue_each type order payload key all)
unfolding enqueue_each
each-RaisesKey type order payload key [] = λ d x h. cc
each-RaisesKey type order payload key (a ∷ rest) =
    bind-RaisesKey _ _ (enqueue-RaisesKey type order (some payload) _ (key a.id))
      (λ _. each-RaisesKey type order payload key rest)

notify_payment-RaisesKey :
    (o : Order) (t : Option PaymentTransaction) → RaisesKey (notify_payment o t)
unfolding enqueue_payment_notifications enqueue_order_card_updates
notify_payment-RaisesKey o none = λ d x h. cc
notify_payment-RaisesKey o (some t) =
    bind-RaisesKey _ _ (enqueue-RaisesKey _ o.id (some t.id) _ _)
      (λ _ d. each-RaisesKey _ o.id t.id _ (recipients o d.admins.rows) d)

-- The order that is stored is found, and a new one may be confirmed.
confirm-RaisesKey :
    (now : ℕ) (o : Order) (d : Database) (x : Error)
    → order_of d o.id ≡ some o
    → confirm_if_new now o d ≡ err x
    → x ≡ value_error
unfolding advance_status lock_order notify_if
confirm-RaisesKey now o d x found h = elim (Bool-cases (is_new o.status)) [
  | inl new_ ↦ absurd (ground (arith, new_, found, h))
  | inr other ↦ absurd (ground (arith, other, h))
]

settle-RaisesKey :
    (now : ℕ) (o : Order) (d : Database) (x : Error)
    → order_of d o.id ≡ some o
    → settle now o d ≡ err x
    → x ≡ value_error
unfolding settle
settle-RaisesKey now o d x found h =
    elim (Result-cases (confirm_if_new now (as_paid o) (saved_paid o d))) [
      | inr (y, q) ↦
          let key =
            confirm-RaisesKey now (as_paid o) (saved_paid o d) y (saved_paid-stored o d found) q in
          ground (arith, q, h, key)
      | inl (s, e, q) ↦ elim (Result-cases (notify_payment s (paid_of s e) e)) [
        | inl (u, f, w) ↦ absurd (ground (arith, q, w, h))
        | inr (y, w) ↦ ground (arith, q, w, h, notify_payment-RaisesKey s (paid_of s e) e y w)
      ]
    ]

-- For the order that is stored under its id, it neither misses an order nor refuses one.
pub mark_paid-RaisesKey :
    (now : ℕ) (o : Order) (d : Database) (x : Error)
    → order_of d o.id ≡ some o
    → mark_paid now o d ≡ err x
    → x ≡ value_error
unfolding mark_paid
mark_paid-RaisesKey now o d x found h = elim (Bool-cases (is_paid o.payment_status)) [
  | inl paid ↦ absurd (ground (arith, paid, h))
  | inr unpaid ↦ settle-RaisesKey now o d x found (ground (arith, unpaid, h))
]
