-- ===== src/Checkout/Methods.antt =====
-- backend/app/services/checkout_quote.py: the payment methods of a quote.
use kans_shop.Prelude.{
  Bool, true, false, ◌&&◌, ◌||◌, not, Option, none, some, List, [], ◌∷◌, ◌++◌, Text, truthy, find,
  is_some, if◌then◌else◌,
}
use kans_shop.Enums.{
  OrderType, PaymentMethod, PaymentProvider, cash, card_transfer, tender, method_eq,
}
use kans_shop.Models.{Database, Product, CartItem, CardInstructions}
use kans_shop.Repositories.{product_key}
use kans_shop.Payment.{is_provider_configured}
use kans_shop.Payment as Gateway
use kans_shop.Checkout.Settings.{CheckoutSettings}
use kans_shop.Checkout.Tally.{
  Reason, lot_missing, preorder_is_cash, method_unavailable, cash_unavailable, reason_if,
}
use kans_shop.Checkout.Fees.{is_preorder}

-- The lot pages of the products in the cart.
abbrev pub has_lot : Option Product → Bool
has_lot none = false
has_lot (some p) = truthy p.lot_url

unfoldable pub any_lot : Database → List CartItem → Bool
any_lot d [] = false
any_lot d (i ∷ is) = has_lot (find product_key i.product_id d.products.rows) || any_lot d is

abbrev pub lot_reason : CartItem → Option Product → List Reason
lot_reason i none = []
lot_reason i (some p) = reason_if (not (truthy p.lot_url)) (lot_missing p.id)

unfoldable pub lot_reasons : Database → List CartItem → List Reason
lot_reasons d [] = []
lot_reasons d (i ∷ is) =
    lot_reason i (find product_key i.product_id d.products.rows) ++ lot_reasons d is

abbrev pub mem_method : PaymentMethod → List PaymentMethod → Bool
mem_method m [] = false
mem_method m (n ∷ ns) = method_eq m n || mem_method m ns

-- `method_capabilities`
unfoldable pub is_capable : Gateway.Settings → CheckoutSettings → Bool → PaymentMethod → Bool
is_capable env s lots cash = true
is_capable env s lots card_transfer = is_some s.number.value && is_some s.holder.value
is_capable env s lots PaymentMethod.click = is_provider_configured env PaymentProvider.click
is_capable env s lots PaymentMethod.payme = is_provider_configured env PaymentProvider.payme
is_capable env s lots PaymentMethod.paynet = false
is_capable env s lots tender = lots

abbrev pub if_capable : (PaymentMethod → Bool) → List PaymentMethod → List PaymentMethod
if_capable capable [] = []
if_capable capable (m ∷ ms) = if capable m then m ∷ if_capable capable ms else if_capable capable ms

unfoldable pub methods_of : (PaymentMethod → Bool) → Bool → OrderType → List PaymentMethod
methods_of capable base_ready type =
    if not base_ready
    then []
    else if is_preorder type
    then cash ∷ []
    else cash
      ∷ if_capable capable (card_transfer ∷ PaymentMethod.click ∷ PaymentMethod.payme ∷ tender ∷ [])

abbrev pub is_cash : PaymentMethod → Bool
is_cash cash = true
is_cash _ = false

abbrev pub is_tender : PaymentMethod → Bool
is_tender tender = true
is_tender _ = false

-- The blocker of a method that is not offered. Cash has no text of its own in `method_reasons`.
abbrev pub method_reasons : Bool → OrderType → PaymentMethod → Bool → List Reason
method_reasons capable type method blocked =
    if is_preorder type && not (is_cash method)
    then preorder_is_cash ∷ []
    else if not (is_cash method) && not capable
    then method_unavailable ∷ []
    else reason_if (is_cash method && not blocked) cash_unavailable

abbrev pub instructions_of : PaymentMethod → Option Text → Option Text → Option CardInstructions
instructions_of card_transfer (some n) (some h) = some (record { card_number = n; card_holder = h })
instructions_of _ _ _ = none
