-- ===== src/Checkout/Quote.antt =====
-- backend/app/services/checkout_quote.py. A quote reads the database and writes nothing. The
-- fingerprint (SHA-256 of a JSON text) is a parameter on the data that the text is printed from.
pub mod Ready
use kans_shop.Prelude.{
  ℕ, Bool, ◌&&◌, not, Option, none, some, List, [], ◌++◌, Text, find_by, is_empty, is_some,
  if◌then◌else◌,
}
use kans_shop.Enums.{OrderType, PaymentMethod}
use kans_shop.Models.{Database, CartItem, Cart, CardInstructions}
use kans_shop.Repositories.{is_active_of}
use kans_shop.Payment.{is_provider_configured}
use kans_shop.Payment as Gateway
use kans_shop.Cart.{InventoryPolicy}
use kans_shop.Checkout.Settings.{CheckoutSettings, is_valid, load_checkout_settings}
use kans_shop.Checkout.Tally.{Reason, Tally, tally, start, reason_if, empty_cart, below_min_order}
use kans_shop.Checkout.Fees.{
  required_fields, field_reasons, open_reasons, all_valid, min_order_of, meets, delivery_fee_of,
  total_of,
}
use kans_shop.Checkout.Methods.{
  any_lot, lot_reasons, is_capable, methods_of, mem_method, method_reasons, is_tender,
  instructions_of,
}
use kans_shop.Checkout.Content.{QuoteContent, quote_content}

pub record CheckoutQuote : Type 0 where
  pub subtotal : ℕ
  pub delivery_fee : Option ℕ
  pub total : Option ℕ
  pub payment_methods : List PaymentMethod
  pub ready : Bool
  pub reasons : List Reason
  pub quote_fingerprint : Option Text
  pub payment_instructions : Option CardInstructions

-- The blockers that do not depend on the method.
unfoldable pub base_blockers : CheckoutSettings → OrderType → Tally → List Reason
base_blockers s type t =
    t.blockers
    ++ (field_reasons (required_fields s type)
        ++ (open_reasons s
            ++ reason_if
                (is_some (min_order_of s type)
                  && (is_valid s.min_order.state && not (meets t.subtotal (min_order_of s type))))
                below_min_order))

unfoldable pub is_base_ready : CheckoutSettings → OrderType → Tally → Bool
is_base_ready s type t =
    is_empty (base_blockers s type t)
    && (all_valid (required_fields s type)
        && (meets t.subtotal (min_order_of s type) && t.stock_ok))

module _ (env : Gateway.Settings) (digest : QuoteContent → Text) where
  -- The quote of given items, under given settings.
  unfoldable pub quote_items :
      Database
      → InventoryPolicy
      → CheckoutSettings
      → List CartItem
      → OrderType
      → PaymentMethod
      → CheckoutQuote
  quote_items d policy s items type method =
      let t = tally d policy items (start (reason_if (is_empty items) empty_cart)) in
      let fee = delivery_fee_of s type t.subtotal in
      let total = total_of t.missing_product t.subtotal fee in
      let base_ready = is_base_ready s type t in
      let capable = is_capable env s (any_lot d items) in
      let methods = methods_of capable base_ready type in
      let blockers = base_blockers s type t in
      let offered = mem_method method methods in
      record {
        subtotal = t.subtotal;
        delivery_fee = fee;
        total = total;
        payment_methods = methods;
        ready = base_ready && offered;
        reasons =
            (blockers
              ++ (if offered
                  then []
                  else method_reasons (capable method) type method (not (is_empty blockers))))
            ++ (if is_tender method then lot_reasons d items else []);
        quote_fingerprint =
            if is_some total && (not (is_empty items) && not t.missing_product)
            then some (digest (quote_content d policy s items type method t.subtotal fee total))
            else none;
        payment_instructions = instructions_of method s.number.value s.holder.value;
      }

  abbrev pub items_of : Option Cart → List CartItem
  items_of none = []
  items_of (some c) = c.items

  unfoldable pub quote_checkout :
      Database → ℕ → InventoryPolicy → OrderType → PaymentMethod → CheckoutQuote
  quote_checkout d user policy type method =
      quote_items d policy (load_checkout_settings d)
        (items_of (find_by (is_active_of user) d.carts.rows)) type method
