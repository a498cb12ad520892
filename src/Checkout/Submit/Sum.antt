-- ===== src/Checkout/Submit/Sum.antt =====
-- The money of a placed order: its subtotal, which the quote has found in the cart, is the sum of its
-- items (backend/app/services/purchase_service.py and checkout_quote.py).
use kans_shop.Prelude.{
  ℕ, ◌+◌, ◌*◌, ◌≡◌, refl, ap, sym, ◌∙◌, Bool, true, Option, none, some, List, [], ◌∷◌, Text, arith,
  find, leb, Option-cases, Bool-cases, inl, inr, sort_by, insert_by, is_empty, find_by,
}
use kans_shop.Prelude.Decimal.{Decimal}
use kans_shop.Enums.{OrderType, PaymentMethod}
use kans_shop.Models.{Database, CartItem, Cart, OrderItem, Product, Order}
use kans_shop.Exec.{ok}
use kans_shop.Repositories.{product_key, item_key, public_product, is_active_of}
use kans_shop.Payment as Gateway
use kans_shop.Cart.{InventoryPolicy, policy_of}
use kans_shop.Checkout.Command.{CheckoutCommand}
use kans_shop.Checkout.Content.{QuoteContent}
use kans_shop.Checkout.Tally.{Tally, tally, tally_item, tally_either, start, reason_if, empty_cart}
use kans_shop.Checkout.Quote.{quote_items, quote_checkout, items_of}
use kans_shop.Checkout.Request.{CheckoutResult, RequestContent}
use kans_shop.Checkout.Lines.{Line}
use kans_shop.Checkout.Submit.{order_items, is_uzbek}
use kans_shop.Checkout.Submit.Fit.{AllFit}
use kans_shop.Checkout.Submit.Locked.{IsSound}
use kans_shop.Checkout.Submit.Once.{submits, normal_inv, Outcome, repeated, placed}

-- What an item of a cart costs, if its product can be bought.
abbrev cost_of : CartItem → Option Product → Option Product → ℕ
cost_of i (some p) (some q) = p.price * i.quantity
cost_of i _ _ = 0

abbrev cost : Database → CartItem → ℕ
cost d i = cost_of i (find product_key i.product_id d.products.rows) (public_product d i.product_id)

unfoldable costs : Database → List CartItem → ℕ
costs d [] = 0
costs d (i ∷ is) = cost d i + costs d is

unfoldable pub sum_of : List OrderItem → ℕ
sum_of [] = 0
sum_of (i ∷ is) = i.total + sum_of is

either-subtotal :
    (policy : InventoryPolicy) (i : CartItem) (a b : Option Product) (t : Tally)
    → (tally_either policy i a b t).subtotal ≡ t.subtotal + cost_of i a b
either-subtotal policy i none b t = omega arith
either-subtotal policy i (some p) none t = omega arith
either-subtotal policy i (some p) (some q) t = refl

tally-subtotal :
    (d : Database) (policy : InventoryPolicy) (is : List CartItem) (t : Tally)
    → (tally d policy is t).subtotal ≡ t.subtotal + costs d is
unfolding tally tally_item costs
tally-subtotal d policy [] t = omega arith
tally-subtotal d policy (i ∷ is) t =
    let a = find product_key i.product_id d.products.rows in
    let b = public_product d i.product_id in
    let rest = tally-subtotal d policy is (tally_either policy i a b t) in
    omega (arith, rest, either-subtotal policy i a b t)

insert-costs :
    (d : Database) (i : CartItem) (is : List CartItem)
    → costs d (insert_by item_key i is) ≡ cost d i + costs d is
unfolding costs insert_by
insert-costs d i [] = refl
insert-costs d i (j ∷ js) = elim (Bool-cases (leb (item_key i) (item_key j))) [
  | inl le ↦ ground (arith, le)
  | inr gt ↦ ground (arith, gt, insert-costs d i js)
]

sort-costs : (d : Database) (is : List CartItem) → costs d (sort_by item_key is) ≡ costs d is
unfolding costs sort_by
sort-costs d [] = refl
sort-costs d (i ∷ is) = omega (arith, insert-costs d i (sort_by item_key is), sort-costs d is)

fits-sum :
    (policy : InventoryPolicy) (d : Database) (uz : Bool) (is : List CartItem) (ls : List Line)
    → AllFit policy d is ls
    → sum_of (order_items uz ls) ≡ costs d is
unfolding costs sum_of order_items
fits-sum policy d uz [] [] h = refl
fits-sum policy d uz [] (l ∷ ls) h = absurd h
fits-sum policy d uz (i ∷ is) [] h = absurd h
fits-sum policy d uz (i ∷ is) (l ∷ ls) (h, rest) =
    let later = fits-sum policy d uz is ls rest in
    elim (Option-cases (public_product d i.product_id)) [
      | inl hidden ↦ absurd (ground (arith, hidden, h.public, h.same_product))
      | inr (v, seen) ↦
          let one : l.product.price * l.quantity ≡ cost d i =
            ground (arith, seen, h.stored, h.same_product, h.same_quantity) in
          omega (arith, one, later)
    ]

module _ (env : Gateway.Settings) (quote_digest : QuoteContent → Text) where
  quoted-subtotal :
      (d : Database) (user : ℕ) (policy : InventoryPolicy) (type : OrderType)
      (method : PaymentMethod) (cart : Cart)
      → find_by (is_active_of user) d.carts.rows ≡ some cart
      → (quote_checkout env quote_digest d user policy type method).subtotal ≡ costs d cart.items
  unfolding quote_checkout quote_items
  quoted-subtotal d user policy type method cart active =
      let items = items_of env quote_digest (find_by (is_active_of user) d.carts.rows) in
      let same : costs d items ≡ costs d cart.items =
        ap (λ c. costs d (items_of env quote_digest c)) active in
      let t = start (reason_if (is_empty items) empty_cart) in
      omega (arith, tally-subtotal d policy items t, same)

  module _ (request_digest : RequestContent → Text) (user : ℕ) (command : CheckoutCommand)
      (key : Option ℕ) (quote : Option Text) (total : Option Decimal) (source lang : Text)
      (d e : Database) (r : CheckoutResult) where
    -- The subtotal of an order that a checkout places on sound rows, which the quote has found over
    -- the cart, is the sum of the totals of the order's items.
    pub submit-sum_of :
        IsSound d
        → submits env quote_digest request_digest user command key quote total source lang d
          ≡ ok (r, e)
        → r.created ≡ true
        → r.order.subtotal ≡ sum_of r.order.items
    submit-sum_of sound h made =
        let (c, q, o) =
          normal_inv env quote_digest request_digest user command key quote total source lang d e r
            sound h in
        by_outcome c o
      where
        by_outcome :
            (c : CheckoutCommand)
            → Outcome env quote_digest request_digest user c key quote total source lang d e r
            → r.order.subtotal ≡ sum_of r.order.items
        by_outcome c (repeated k o cart keyed taken own result l again) =
            absurd (ground (arith, result, made))
        by_outcome c (placed cart f l free s again) =
            ap (λ (o : Order). o.subtotal) s.placed.order
            ∙ quoted-subtotal f user (policy_of f) c.order_type c.payment_method cart l.active
            ∙ sym (sort-costs f cart.items)
            ∙ sym (
                fits-sum (policy_of f) f (is_uzbek lang) (sort_by item_key cart.items) s.lines
                  s.fit)
            ∙ ap (λ (o : Order). sum_of o.items) (sym s.placed.order)
