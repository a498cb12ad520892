-- ===== src/Tests/Checkouts.antt =====
-- The theorems on checkout, at a preorder of two pieces that is paid in cash.
use kans_shop.Prelude.{◌≡◌, refl, true, false, Option, none, some, [], ◌∷◌, Text, find}
use kans_shop.Prelude.Int.{pos}
use kans_shop.Enums.{OrderType, PaymentMethod}
use kans_shop.Models.{Database, Order, Contact, Product, Cart, SettingKey, Value}
use kans_shop.Exec.{committed, Result, ok}
use kans_shop.Order.{cancel_order}
use kans_shop.Prelude.{codes}
use kans_shop.Tests.{gateway, runs, order_with, shop_with, answer_of, nobody, soap}
use kans_shop.Checkout.Command.{CheckoutCommand}
use kans_shop.Checkout.Content.{QuoteContent}
use kans_shop.Checkout.Request.{CheckoutResult, RequestContent}
use kans_shop.Checkout.Submit.{submit_checkout}
use kans_shop.Checkout.Submit.Locked.{IsSound}
use kans_shop.Checkout.Submit.Once.{submit_twice}
use kans_shop.Checkout.Submit.Sum.{submit-sum_of, sum_of}
use kans_shop.Checkout.Submit.Effects.{Agreed, submit-Agreed, checkout_then_cancel}
use kans_shop.Order.Stock.{product_of}

abbrev visitor : Contact
visitor = record nobody { customer_phone = codes "90 123-45-67" }

abbrev command : CheckoutCommand
command = record {
  order_type = OrderType.preorder;
  payment_method = PaymentMethod.cash;
  contact = visitor;
}

abbrev is_open : SettingKey → Option Value
is_open SettingKey.is_shop_open = some (Value.boolean true)
is_open k = none

abbrev full_cart : Cart
full_cart = record {
  id = 5;
  user_id = 7;
  is_active = true;
  items = record { product_id = 3; quantity = 2; price_snapshot = 500 } ∷ [];
}

abbrev open_shop : Database
open_shop = record (shop_with PaymentMethod.cash []) {
  settings = is_open;
  carts = record { rows = full_cart ∷ []; next = 6 };
}

abbrev quote_digest : QuoteContent → Text
quote_digest c = 81 ∷ []

abbrev request_digest : RequestContent → Text
request_digest c = 82 ∷ []

abbrev submits_once : Database → Result (CheckoutResult × Database)
submits_once =
    submit_checkout gateway quote_digest request_digest 7 command (some 99) none none (codes "bot")
      (codes "uz")

abbrev placed_shop : Database
placed_shop = committed submits_once open_shop

abbrev result : CheckoutResult
result =
    answer_of (record { order = order_with PaymentMethod.cash; created = false })
      (submits_once open_shop)

placed_ok : submits_once open_shop ≡ ok (result, placed_shop)
unfolding runs
placed_ok = refl

result-created : result.created ≡ true
unfolding runs
result-created = refl

open_shop-IsSound : IsSound open_shop
unfolding find
open_shop-IsSound = record {
  carts = (refl, tt);
  next_cart = refl;
  items = ((refl, tt), tt);
  next_order = refl;
}

submit_twice_example :
    submits_once placed_shop ≡ ok (record { order = result.order; created = false }, placed_shop)
submit_twice_example =
    submit_twice gateway quote_digest request_digest 7 command (some 99) none none (codes "bot")
      (codes "uz") 99 open_shop placed_shop result open_shop-IsSound refl placed_ok

submit-Agreed_example : Agreed 7 open_shop placed_shop result.order
submit-Agreed_example =
    submit-Agreed gateway quote_digest request_digest 7 command (some 99) none none (codes "bot")
      (codes "uz") open_shop placed_shop result open_shop-IsSound placed_ok result-created

submit-sum_of_example : result.order.subtotal ≡ sum_of result.order.items
submit-sum_of_example =
    submit-sum_of gateway quote_digest request_digest 7 command (some 99) none none (codes "bot")
      (codes "uz") open_shop placed_shop result open_shop-IsSound placed_ok result-created

abbrev given_back_shop : Database
given_back_shop = committed (cancel_order 50 result.order.id none []) placed_shop

abbrev given_back_order : Order
given_back_order = answer_of result.order (cancel_order 50 result.order.id none [] placed_shop)

given_back_ok :
    cancel_order 50 result.order.id none [] placed_shop ≡ ok (given_back_order, given_back_shop)
unfolding runs
given_back_ok = refl

soap-found : product_of open_shop 3 ≡ some soap
unfolding find
soap-found = refl

checkout_then_cancel_example :
    (q : Product) × (product_of given_back_shop 3 ≡ some q)
    × (q.stock_qty ≡ pos 8)
    × (q.sold_count ≡ pos 2)
checkout_then_cancel_example =
    checkout_then_cancel gateway quote_digest request_digest 7 command (some 99) none none
      (codes "bot") (codes "uz") open_shop placed_shop result 50 none [] given_back_shop
      given_back_order open_shop-IsSound placed_ok result-created given_back_ok 3 soap soap-found
