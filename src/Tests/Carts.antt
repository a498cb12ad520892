-- ===== src/Tests/Carts.antt =====
-- The theorems on the cart, at a cart that a keyed add makes.
use kans_shop.Prelude.{◌≡◌, refl, false, some, []}
use kans_shop.Enums.{PaymentMethod}
use kans_shop.Models.{Database, Cart, CartItem}
use kans_shop.Exec.{committed, ok}
use kans_shop.Cart.{add_item_once, add_item_to_locked_cart, update_item_quantity}
use kans_shop.Cart.Bounds.{Added, Changed, add_inv, update_inv}
use kans_shop.Cart.Replay.{add_item_once_twice}
use kans_shop.Tests.{runs, digest, shop_with, answer_of}

abbrev cart_shop : Database
cart_shop = shop_with PaymentMethod.cash []

abbrev filled_shop : Database
filled_shop = committed (add_item_once digest 7 3 2 (some 99)) cart_shop

abbrev no_cart : Cart
no_cart = record { id = 0; user_id = 0; is_active = false; items = [] }

abbrev filled_cart : Cart
filled_cart = answer_of no_cart (add_item_once digest 7 3 2 (some 99) cart_shop)

add_item_once_twice_example :
    add_item_once digest 7 3 2 (some 99) filled_shop ≡ ok (filled_cart, filled_shop)
unfolding runs
add_item_once_twice_example =
    add_item_once_twice digest 7 3 2 99 cart_shop filled_shop filled_cart refl

abbrev no_item : CartItem
no_item = record { product_id = 0; quantity = 0; price_snapshot = 0 }

abbrev more_soap : CartItem
more_soap = answer_of no_item (add_item_to_locked_cart filled_cart 3 1 filled_shop)

abbrev fuller_shop : Database
fuller_shop = committed (add_item_to_locked_cart filled_cart 3 1) filled_shop

add_inv_example : Added filled_cart 3 1 filled_shop more_soap
unfolding runs
add_inv_example = add_inv filled_cart 3 1 filled_shop fuller_shop more_soap refl

abbrev four_soaps : CartItem
four_soaps = record { product_id = 3; quantity = 4; price_snapshot = 500 }

abbrev changed_shop : Database
changed_shop = committed (update_item_quantity 7 3 4) filled_shop

update_inv_example : Changed 3 4 filled_shop four_soaps
unfolding runs update_item_quantity kans_shop.Cart.change_item
update_inv_example = update_inv 7 3 4 filled_shop changed_shop four_soaps refl
