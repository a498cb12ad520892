-- ===== src/Tests/Quotes.antt =====
-- The theorem on quotes, at a preorder of two pieces.
use kans_shop.Prelude.{refl, true, Option, none, some, List, [], ◌∷◌, Text}
use kans_shop.Enums.{OrderType, PaymentMethod}
use kans_shop.Models.{Database, CartItem, SettingKey, Value}
use kans_shop.Tests.{gateway, runs, shop_with}
use kans_shop.Checkout.Settings.{load_checkout_settings}
use kans_shop.Checkout.Content.{QuoteContent}
use kans_shop.Checkout.Quote.{quote_items}
use kans_shop.Checkout.Quote.Ready.{Ready, quote_items-Ready}
use kans_shop.Cart.{InventoryPolicy}

abbrev cart_items : List CartItem
cart_items = record { product_id = 3; quantity = 2; price_snapshot = 500 } ∷ []

abbrev is_open : SettingKey → Option Value
is_open SettingKey.is_shop_open = some (Value.boolean true)
is_open k = none

abbrev open_shop : Database
open_shop = record (shop_with PaymentMethod.cash []) { settings = is_open }

abbrev tracked : InventoryPolicy
tracked = record { tracking = true }

abbrev no_digest : QuoteContent → Text
no_digest c = []

quote_items-Ready_example :
    Ready gateway open_shop
      (load_checkout_settings open_shop)
      cart_items
      OrderType.preorder
      PaymentMethod.cash
      (quote_items gateway no_digest open_shop tracked
        (load_checkout_settings open_shop)
        cart_items
        OrderType.preorder
        PaymentMethod.cash).subtotal
unfolding runs
quote_items-Ready_example =
    quote_items-Ready gateway no_digest open_shop tracked (load_checkout_settings open_shop)
      cart_items OrderType.preorder PaymentMethod.cash refl
