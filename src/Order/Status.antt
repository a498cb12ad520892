-- ===== src/Order/Status.antt =====
-- What `advance_status` and `cancel_order` of backend/app/services/order_service.py do to the
-- database when they succeed, and when they refuse.
use kans_shop.Prelude.{
  ℕ, ◌≡◌, refl, Bool, true, false, Option, some, Text, arith, find, update, insert, Option-cases,
  inl, inr, Bool-cases, sort_by,
}
use kans_shop.Enums.{OrderStatus, cancelled}
use kans_shop.Models.{Database, Order, OrderStatusHistory}
use kans_shop.Exec.{ok, Result-cases}
use kans_shop.Repositories.{order_key, history_row}
use kans_shop.Outbox.Frame.{OnlyOutbox}
use kans_shop.Order.{
  advance_status, lock_order, cancel_order, is_terminal, allowed_transitions, mem_status, notify_if,
  notify_status, advanced, cancelled_by, item_order,
}
use kans_shop.Order.Stock.{AllGotBack, AllGotBack-sort, OnlyProducts, pieces, restock_all_lem}
use kans_shop.Order.Notify.{notify_if-IsQuiet, notify_status-IsQuiet}

abbrev pub order_of : Database → ℕ → Option Order
order_of d k = find order_key k d.orders.rows

-- The row of the status history that a change leaves.
abbrev pub logged : Database → Order → OrderStatus → Option ℕ → Option Text → OrderStatusHistory
logged d o to_ admin text = history_row o.id (some o.status) to_ admin text d.status_history.next

abbrev pub with_change : Database → Order → Order → Option ℕ → Option Text → Database
with_change d o r admin text = record d {
  orders = update order_key r d.orders;
  status_history = insert (history_row o.id (some o.status) r.status admin text) d.status_history;
}

-- What a successful `advance_status` has found and done.
pub record Advanced (now k : ℕ) (to_ : OrderStatus) (admin : Option ℕ) (text : Option Text)
    (flag : Bool) (d d' : Database) (r : Order) : Type 0 where
  pub before : Order
  pub found : order_of d k ≡ some before
  pub allowed : mem_status to_ (allowed_transitions before.status) ≡ true
  pub result : r ≡ advanced now to_ admin flag before
  pub state : d' ≡ record (with_change d before r admin text) { outbox = d'.outbox }

-- A status change that succeeds has found the order in a status from which the new one is allowed;
-- it writes the order with the new status, one row of the history that names both, and the outbox,
-- and no other table.
pub advance_inv :
    (now k : ℕ) (to_ : OrderStatus) (admin : Option ℕ) (text : Option Text) (flag : Bool)
    (d d' : Database) (r : Order)
    → advance_status now k to_ admin text flag d ≡ ok (r, d')
    → Advanced now k to_ admin text flag d d' r
unfolding advance_status lock_order
advance_inv now k to_ admin text flag d d' r h = elim (Option-cases (order_of d k)) [
  | inl gone ↦ absurd (ground arith)
  | inr (o, e) ↦ elim (Bool-cases (mem_status to_ (allowed_transitions o.status))) [
    | inr refused ↦ absurd (ground arith)
    | inl allowed ↦
        let moved = advanced now to_ admin flag o in
        let row = logged d o to_ admin text in
        let saved = with_change d o moved admin text in
        elim (Result-cases (notify_if admin moved row saved)) [
          | inr (x, q) ↦ absurd (ground arith)
          | inl (u, f, q) ↦
              let quiet : OnlyOutbox saved f = notify_if-IsQuiet admin moved row saved f u q in
              record {
                before = o;
                found = e;
                allowed = allowed;
                result = ground arith;
                state = ground arith;
              }
        ]
  ]
]

-- What a successful `cancel_order` has found and done.
pub record CancelledBy (now k : ℕ) (admin : Option ℕ) (reason : Text) (d d' : Database) (r : Order)
    : Type 0 where
  pub before : Order
  pub found : order_of d k ≡ some before
  pub live : is_terminal before.status ≡ false
  pub result : r ≡ cancelled_by now admin reason before
  pub state : d' ≡ record (with_change d before r admin (some reason)) {
    products = d'.products;
    outbox = d'.outbox;
  }
  pub got : AllGotBack before.stock_deducted (λ j. pieces j before.items) d d'

-- A cancellation that succeeds has found the order in a status that is not final; it writes the
-- order as cancelled, one row of the history, the stock and the outbox, and no other table; every
-- product that is there has got back the pieces that the order holds of it, to its stock if the
-- order had taken them and from its sales.
pub cancel_inv :
    (now k : ℕ) (admin : Option ℕ) (reason : Text) (d d' : Database) (r : Order)
    → cancel_order now k admin reason d ≡ ok (r, d')
    → CancelledBy now k admin reason d d' r
unfolding cancel_order lock_order
cancel_inv now k admin reason d d' r h = elim (Option-cases (order_of d k)) [
  | inl gone ↦ absurd (ground arith)
  | inr (o, e) ↦ elim (Bool-cases (is_terminal o.status)) [
    | inl over ↦ absurd (ground arith)
    | inr live ↦
        let row = cancelled_by now admin reason o in
        let saved = record d { orders = update order_key row d.orders } in
        let sorted = sort_by item_order o.items in
        let (f, q, back) = restock_all_lem o.stock_deducted sorted saved in
        let event = logged d o cancelled admin (some reason) in
        let written = record f {
          status_history =
              insert (history_row o.id (some o.status) cancelled admin (some reason))
                f.status_history;
        } in
        let frame : OnlyProducts saved f = back.frame in
        elim (Result-cases (notify_status row event written)) [
          | inr (x, w) ↦ absurd (ground (arith, h, e, live, q, w, frame))
          | inl (u, g, w) ↦
              let quiet : OnlyOutbox written g = notify_status-IsQuiet row event written g u w in
              let same : d' ≡ g = ground (arith, h, e, live, q, w, frame) in
              record {
                before = o;
                found = e;
                live = live;
                result = ground (arith, h, e, live, q, w, frame);
                state = ground (arith, same, quiet, frame);
                got =
                    AllGotBack-sort o.stock_deducted o.items saved d d' f refl
                      (ground (arith, same, quiet)) back.got;
              }
        ]
  ]
]
