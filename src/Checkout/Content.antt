-- ===== src/Checkout/Content.antt =====
-- backend/app/services/checkout_quote.py, `_quote_fingerprint`: what the fingerprint of a quote is
-- made from.
use kans_shop.Prelude.{
  ℕ, Bool, true, false, ◌&&◌, ◌||◌, Option, none, some, List, [], ◌∷◌, Text, find, ltb, ◌==◌,
  sort_by, if◌then◌else◌,
}
use kans_shop.Prelude.Int.{ℤ, pos, neg}
use kans_shop.Prelude.Decimal.{Decimal, nan, infinite, finite, round_cents}
use kans_shop.Enums.{OrderType, PaymentMethod, delivery, pickup, preorder, card_transfer}
use kans_shop.Models.{Database, Product, CartItem}
use kans_shop.Repositories.{product_key, item_key}
use kans_shop.Cart.{InventoryPolicy, minimum_quantity}
use kans_shop.Checkout.Settings.{CheckoutSettings, Field, FieldState}
use kans_shop.Checkout.Methods.{is_tender}

-- What the fingerprint is made from.
pub record CartRow : Type 0 where
  pub product_id : ℕ
  pub quantity : ℕ
  pub live_price : Option ℕ
  pub active : Bool
  pub min_order_qty : Option ℕ

pub record QuoteContent : Type 0 where
  pub cart : List CartRow
  pub order_type : OrderType
  pub payment_method : PaymentMethod
  pub subtotal : ℕ
  pub delivery_fee : Option ℕ
  pub total : Option ℕ
  pub shop_open : Field Bool
  pub numbers : List (FieldState × Option ℤ)
  pub tracking : Bool
  pub card : Option (Field Text × Field Text)
  pub lots : List Text

abbrev cart_row : InventoryPolicy → CartItem → Option Product → CartRow
cart_row policy i none = record {
  product_id = i.product_id;
  quantity = i.quantity;
  live_price = none;
  active = false;
  min_order_qty = none;
}
cart_row policy i (some p) = record {
  product_id = i.product_id;
  quantity = i.quantity;
  live_price = some p.price;
  active = p.is_active;
  min_order_qty = some (minimum_quantity policy p);
}

cart_rows : Database → InventoryPolicy → List CartItem → List CartRow
cart_rows d policy [] = []
cart_rows d policy (i ∷ is) =
    cart_row policy i (find product_key i.product_id d.products.rows) ∷ cart_rows d policy is

money_of : Option Decimal → Option ℤ
money_of none = none
money_of (some nan) = none
money_of (some (infinite s)) = none
money_of (some (finite true c p)) = some (neg (round_cents c p))
money_of (some (finite false c p)) = some (pos (round_cents c p))

number_of : Field Decimal → FieldState × Option ℤ
number_of f = (f.state, money_of f.value)

relevant : CheckoutSettings → OrderType → List (FieldState × Option ℤ)
relevant s delivery = number_of s.fee ∷ number_of s.free_from ∷ number_of s.min_order ∷ []
relevant s pickup = number_of s.min_order ∷ []
relevant s preorder = []

-- Lexicographic order of texts, for `sorted(lot_urls)`.
text_le : Text → Text → Bool
text_le [] t = true
text_le (c ∷ s) [] = false
text_le (c ∷ s) (e ∷ t) = ltb c e || (c == e && text_le s t)

insert_text : Text → List Text → List Text
insert_text s [] = s ∷ []
insert_text s (t ∷ ts) = if text_le s t then s ∷ t ∷ ts else t ∷ insert_text s ts

abbrev lot_text : Option Product → Text
lot_text none = []
lot_text (some p) = elim p.lot_url [ none ↦ [] | some u ↦ u ]

lot_texts : Database → List CartItem → List Text
lot_texts d [] = []
lot_texts d (i ∷ is) =
    insert_text (lot_text (find product_key i.product_id d.products.rows)) (lot_texts d is)

card_part : PaymentMethod → CheckoutSettings → Option (Field Text × Field Text)
card_part card_transfer s = some (s.number, s.holder)
card_part _ s = none

unfoldable pub quote_content :
    Database
    → InventoryPolicy
    → CheckoutSettings
    → List CartItem
    → OrderType
    → PaymentMethod
    → ℕ
    → Option ℕ
    → Option ℕ
    → QuoteContent
unfolding cart_rows relevant card_part lot_texts number_of money_of insert_text text_le
quote_content d policy s items type method subtotal fee total = record {
  cart = cart_rows d policy (sort_by item_key items);
  order_type = type;
  payment_method = method;
  subtotal = subtotal;
  delivery_fee = fee;
  total = total;
  shop_open = s.shop_open;
  numbers = relevant s type;
  tracking = policy.tracking;
  card = card_part method s;
  lots = if is_tender method then lot_texts d items else [];
}
