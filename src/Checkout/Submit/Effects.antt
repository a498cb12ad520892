-- ===== src/Checkout/Submit/Effects.antt =====
-- What a placed order holds and takes, and that its cancellation gives all of it back
-- (backend/app/services/purchase_service.py and order_service.py).
use kans_shop.Prelude.{
  ℕ, ◌+◌, ◌≡◌, refl, ap, sym, ◌∙◌, Bool, true, false, Option, none, some, Text, arith, find,
  or_else, if◌then◌else◌, [], ◌∷◌, ◌++◌, Table, find-append_self,
}
use kans_shop.Prelude.Decimal.{Decimal}
use kans_shop.Prelude.Int.{pos, neg, ◌+ℤ◌, +ℤ-neg_cancel, +ℤ-pos_cancel}
use mathlib.Core.Path.{subst}
use kans_shop.Enums.{PaymentStatus, new, OrderType, PaymentMethod}
use kans_shop.Models.{Database, Order, Product}
use kans_shop.Exec.{ok}
use kans_shop.Repositories.{order_key}
use kans_shop.Payment as Gateway
use kans_shop.Cart.{InventoryPolicy, policy_of}
use kans_shop.Order.{cancel_order}
use kans_shop.Order.Status.{order_of, cancel_inv}
use kans_shop.Order.Stock.{product_of, pieces, GotBack}
use kans_shop.Checkout.Command.{CheckoutCommand}
use kans_shop.Checkout.Content.{QuoteContent}
use kans_shop.Checkout.Fees.{total_of}
use kans_shop.Checkout.Quote.{quote_items, quote_checkout}
use kans_shop.Checkout.Request.{CheckoutResult, RequestContent}
use kans_shop.Checkout.Submit.{is_uzbek}
use kans_shop.Checkout.Submit.Stock.{Gave, all_pieces, order_items-pieces}
use kans_shop.Checkout.Submit.Locked.{IsSound}
use kans_shop.Checkout.Submit.Once.{submits, normal_inv, Outcome, repeated, placed}

-- What the order holds, and what its customer and its products have lost.
pub record Agreed (user : ℕ) (d e : Database) (o : Order) : Type 0 where
  pub stored : order_of e o.id ≡ some o
  pub own : o.user_id ≡ user
  pub is_new : o.status ≡ new
  pub unpaid : o.payment_status ≡ PaymentStatus.pending
  pub sum : o.total ≡ o.subtotal + o.delivery_fee
  pub stock :
      (k : ℕ) (p : Product)
      → product_of d k ≡ some p
      → (q : Product) × (product_of e k ≡ some q) × Gave o.stock_deducted (pieces k o.items) p q

total_of_lem :
    (gone : Bool) (subtotal : ℕ) (fee : Option ℕ) (n : ℕ)
    → total_of gone subtotal fee ≡ some n
    → n ≡ subtotal + or_else fee 0
total_of_lem true subtotal fee n h = absurd (ground (arith, h))
total_of_lem false subtotal none n h = absurd (ground (arith, h))
total_of_lem false subtotal (some f) n h = ground (arith, h)

module _ (env : Gateway.Settings) (quote_digest : QuoteContent → Text) where
  -- A total is the subtotal and the fee of the delivery.
  quoted-total :
      (d : Database) (user : ℕ) (policy : InventoryPolicy) (type : OrderType)
      (method : PaymentMethod) (n : ℕ)
      → (quote_checkout env quote_digest d user policy type method).total ≡ some n
      → n
        ≡ (quote_checkout env quote_digest d user policy type method).subtotal
          + or_else (quote_checkout env quote_digest d user policy type method).delivery_fee 0
  unfolding quote_checkout quote_items
  quoted-total d user policy type method n h = total_of_lem _ _ _ n h

  module _ (request_digest : RequestContent → Text) (user : ℕ) (command : CheckoutCommand)
      (key : Option ℕ) (quote : Option Text) (total : Option Decimal) (source lang : Text)
      (d e : Database) (r : CheckoutResult) where
    -- A checkout that places an order, on sound rows, stores it under its id for its customer as
    -- new and unpaid, with a total that is its subtotal and its delivery fee; and every product has
    -- given the pieces that the order holds of it if stock is tracked, is sold that many times
    -- more, keeps its price, and is not oversold.
    pub submit-Agreed :
        IsSound d
        → submits env quote_digest request_digest user command key quote total source lang d
          ≡ ok (r, e)
        → r.created ≡ true
        → Agreed user d e r.order
    submit-Agreed sound h made =
        let (c, q, o) =
          normal_inv env quote_digest request_digest user command key quote total source lang d e r
            sound h in
        by_outcome sound c o
      where
        by_outcome :
            IsSound d
            → (c : CheckoutCommand)
            → Outcome env quote_digest request_digest user c key quote total source lang d e r
            → Agreed user d e r.order
        by_outcome sound c (repeated k o cart keyed taken own result l again) =
            absurd (ground (arith, result, made))
        by_outcome sound c (placed cart f l free s again) = record {
          stored =
              (subst (λ (t : Table Order). find order_key r.order.id t.rows ≡ some r.order)
                (sym s.placed.orders)
                (subst (λ o. find order_key r.order.id (f.orders.rows ++ o ∷ []) ≡ some r.order)
                  s.placed.order
                  (find-append_self order_key r.order.id r.order f.orders.rows
                    (ground (arith, s.placed.order, l.frame, sound.next_order)) refl)));
          own = ground (arith, s.placed.order);
          is_new = ground (arith, s.placed.order);
          unpaid = ground (arith, s.placed.order);
          sum = ground (
            arith,
            s.placed.order,
            quoted-total f user (policy_of f) c.order_type c.payment_method s.sum s.priced,
          );
          stock = λ k p found.
              let (v, hv, gv) = s.placed.gave k p (ground (arith, found, l.frame)) in
              let count : all_pieces k s.lines ≡ pieces k r.order.items =
                sym (order_items-pieces (is_uzbek lang) k s.lines)
                ∙ ap (λ (o : Order). pieces k o.items) (sym s.placed.order) in
              let flag : (policy_of f).tracking ≡ r.order.stock_deducted =
                ground (arith, s.placed.order) in
              (
                v,
                hv,
                subst (λ b. Gave b (pieces k r.order.items) p v) flag
                    (subst (λ n. Gave (policy_of f).tracking n p v) count gv),
              );
        }

    -- After a checkout that places an order, on sound rows, and a cancellation of that order, every
    -- product has the stock and the sales count that it had before.
    pub checkout_then_cancel :
        (now : ℕ) (admin : Option ℕ) (reason : Text) (f : Database) (gone : Order)
        → IsSound d
        → submits env quote_digest request_digest user command key quote total source lang d
          ≡ ok (r, e)
        → r.created ≡ true
        → cancel_order now r.order.id admin reason e ≡ ok (gone, f)
        → (k : ℕ) (p : Product) → product_of d k ≡ some p
        → (q : Product) × (product_of f k ≡ some q)
          × (q.stock_qty ≡ p.stock_qty)
          × (q.sold_count ≡ p.sold_count)
    checkout_then_cancel now admin reason f gone sound h made cancels k p found =
        let a = submit-Agreed sound h made in
        let c = cancel_inv now r.order.id admin reason e f gone cancels in
        let (v, hv, g) = a.stock k p found in
        let same : c.before ≡ r.order = ground (arith, c.found, a.stored) in
        let (w, hw, b) = c.got k v hv in
        let back : GotBack r.order.stock_deducted (pieces k r.order.items) v w =
          subst (λ (o : Order). GotBack o.stock_deducted (pieces k o.items) v w) same b in
        let n = pieces k r.order.items in
        let m = if r.order.stock_deducted then n else 0 in
        (
          w,
          hw,
          back.stock ∙ ap (λ x. x +ℤ pos m) g.stock ∙ +ℤ-neg_cancel p.stock_qty m,
          back.sales ∙ ap (λ x. x +ℤ neg n) g.sales ∙ +ℤ-pos_cancel p.sold_count n,
        )
