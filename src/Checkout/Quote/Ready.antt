-- ===== src/Checkout/Quote/Ready.antt =====
-- What a quote that is ready has found (backend/app/services/checkout_quote.py, `quote_checkout`).
use kans_shop.Prelude.{
  ℕ, ◌≡◌, refl, sym, Bool, true, false, ◌&&◌, not, some, List, [], ◌∷◌, ◌++◌, Text, arith, is_empty,
  is_some, Bool-cases, Option-cases, inl, inr,
}
use mathlib.Core.Path.{subst}
use kans_shop.Enums.{OrderType, PaymentMethod, method_eq, method_eq_iff}
use kans_shop.Models.{Database, CartItem}
use kans_shop.Payment as Gateway
use kans_shop.Cart.{InventoryPolicy}
use kans_shop.Checkout.Settings.{CheckoutSettings, is_valid}
use kans_shop.Checkout.Content.{QuoteContent}
use kans_shop.Checkout.Fees.{
  is_preorder, required_fields, all_valid, min_order_of, meets, open_reasons, field_reasons,
}
use kans_shop.Checkout.Methods.{is_capable, methods_of, mem_method, is_cash, any_lot, if_capable}
use kans_shop.Checkout.Tally.{Reason, tally, start, reason_if, empty_cart, below_min_order, Tally}
use kans_shop.Checkout.Quote.{quote_items, is_base_ready, base_blockers}

-- What stands where an order can be placed.
pub record Ready (env : Gateway.Settings) (d : Database) (s : CheckoutSettings)
    (items : List CartItem) (type : OrderType) (method : PaymentMethod) (subtotal : ℕ)
    : Type 0 where
  pub filled : is_empty items ≡ false
  pub shop_open : s.shop_open.value ≡ some true
  pub fields : all_valid (required_fields s type) ≡ true
  pub enough : meets subtotal (min_order_of s type) ≡ true
  pub only_cash : is_preorder type ≡ true → is_cash method ≡ true
  pub capable : is_capable env s (any_lot d items) method ≡ true

empty-append :
    (xs ys : List Reason) → is_empty (xs ++ ys) ≡ true → (is_empty xs ≡ true) × (is_empty ys ≡ true)
empty-append [] ys h = (refl, h)
empty-append (x ∷ xs) ys h = absurd (ground (arith, h))

open_lem : (s : CheckoutSettings) → is_empty (open_reasons s) ≡ true → s.shop_open.value ≡ some true
open_lem s h = elim (Option-cases s.shop_open.value) [
  | inl unset ↦ absurd (ground (arith, unset, h))
  | inr (b, set) ↦ ground (arith, set, h)
]

eq_capable :
    (capable : PaymentMethod → Bool) (m n : PaymentMethod)
    → capable n ≡ true
    → method_eq m n ≡ true
    → capable m ≡ true
eq_capable capable m n h e = subst (λ x. capable x ≡ true) (sym ((method_eq_iff m n).0 e)) h

mem_capable :
    (capable : PaymentMethod → Bool) (ms : List PaymentMethod) (m : PaymentMethod)
    → mem_method m (if_capable capable ms) ≡ true
    → capable m ≡ true
mem_capable capable [] m h = absurd (ground (arith, h))
mem_capable capable (n ∷ ns) m h = elim (Bool-cases (capable n)) [
  | inr no_ ↦ mem_capable capable ns m (ground (arith, no_, h))
  | inl fine ↦ elim (Bool-cases (method_eq m n)) [
    | inl same ↦ eq_capable capable m n fine same
    | inr other ↦ mem_capable capable ns m (ground (arith, fine, other, h))
  ]
]

offered-capable :
    (capable : PaymentMethod → Bool) (ready : Bool) (type : OrderType) (method : PaymentMethod)
    → capable PaymentMethod.cash ≡ true
    → mem_method method (methods_of capable ready type) ≡ true
    → capable method ≡ true
unfolding methods_of
offered-capable capable ready type method cash_ h = elim (Bool-cases ready) [
  | inr blocked ↦ absurd (ground (arith, blocked, h))
  | inl fine ↦ elim (Bool-cases (is_preorder type)) [
    | inl pre ↦ eq_capable capable method PaymentMethod.cash cash_ (ground (arith, fine, pre, h))
    | inr other ↦ elim (Bool-cases (method_eq method PaymentMethod.cash)) [
      | inl by_cash ↦ eq_capable capable method PaymentMethod.cash cash_ by_cash
      | inr else_ ↦
          mem_capable capable
            (PaymentMethod.card_transfer ∷ PaymentMethod.click ∷ PaymentMethod.payme
              ∷ PaymentMethod.tender ∷ [])
            method (ground (arith, fine, other, else_, h))
    ]
  ]
]

offered-cash :
    (capable : PaymentMethod → Bool) (ready : Bool) (type : OrderType) (method : PaymentMethod)
    → mem_method method (methods_of capable ready type) ≡ true
    → is_preorder type ≡ true
    → is_cash method ≡ true
unfolding methods_of
offered-cash capable ready type method h pre = ground arith

base_lem :
    (s : CheckoutSettings) (type : OrderType) (t : Tally)
    → is_base_ready s type t ≡ true
    → (is_empty t.blockers ≡ true)
      × (s.shop_open.value ≡ some true)
      × (all_valid (required_fields s type) ≡ true)
      × (meets t.subtotal (min_order_of s type) ≡ true)
unfolding is_base_ready base_blockers
base_lem s type t h =
    let least = min_order_of s type in
    let low =
      reason_if (is_some least && (is_valid s.min_order.state && not (meets t.subtotal least)))
        below_min_order in
    let closed = open_reasons s ++ low in
    let rest = field_reasons (required_fields s type) ++ closed in
    let (a, b) = empty-append t.blockers rest (ground (arith, h)) in
    let (c, e) = empty-append (field_reasons (required_fields s type)) closed b in
    let (f, g) = empty-append (open_reasons s) low e in
    (a, open_lem s f, ground (arith, h), ground (arith, h))

filled_lem :
    (d : Database) (policy : InventoryPolicy) (items : List CartItem)
    → is_empty (tally d policy items (start (reason_if (is_empty items) empty_cart))).blockers
      ≡ true
    → is_empty items ≡ false
unfolding tally
filled_lem d policy [] h = absurd (ground (arith, h))
filled_lem d policy (i ∷ is) h = refl

module _ (env : Gateway.Settings) (digest : QuoteContent → Text) where
  -- A quote that is ready is of a cart that is not empty, in a shop that is open, with every
  -- setting that the order type needs valid and the minimum met; a preorder is paid in cash, and
  -- the method is one that the shop can take.
  pub quote_items-Ready :
      (d : Database) (policy : InventoryPolicy) (s : CheckoutSettings) (items : List CartItem)
      (type : OrderType) (method : PaymentMethod)
      → (quote_items env digest d policy s items type method).ready ≡ true
      → Ready env d s items type method
          (quote_items env digest d policy s items type method).subtotal
  unfolding quote_items is_capable
  quote_items-Ready d policy s items type method h =
      let t = tally d policy items (start (reason_if (is_empty items) empty_cart)) in
      let capable = is_capable env s (any_lot d items) in
      let base : is_base_ready s type t ≡ true = ground (arith, h) in
      let offered : mem_method method (methods_of capable (is_base_ready s type t) type) ≡ true =
        ground (arith, h) in
      let (clear, open_, fields, enough) = base_lem s type t base in
      record {
        filled = filled_lem d policy items clear;
        shop_open = open_;
        fields = fields;
        enough = enough;
        only_cash = offered-cash capable (is_base_ready s type t) type method offered;
        capable = offered-capable capable (is_base_ready s type t) type method refl offered;
      }
