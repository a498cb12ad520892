-- ===== src/Cart.antt =====
-- backend/app/services: inventory_policy.py, purchase_locks.py, cart_service.py and
-- cart_replay_service.py. A quantity is at least zero: the API's schemas refuse a negative one.
pub mod Bounds
pub mod Replay
use kans_shop.Prelude.{
  ℕ, ◌+◌, ◌*◌, max, Bool, true, ◌&&◌, not, Option, none, some, List, [], ◌∷◌, ◌++◌, Text, codes,
  show, text_eq, find, replace, insert, ltb, ◌==◌, if◌then◌else◌,
}
use kans_shop.Prelude.Int.{pos, ltb_ℤ}
use kans_shop.Models.{
  Database, Cart, CartItem, CartMutation, Product, Value, stock_tracking_enabled,
}
use kans_shop.Exec.{
  Exec, ok, product_not_found, out_of_stock, minimum_order_quantity, idempotency_conflict,
  value_error, runtime_error, pure, raise_if, or_raise, gets, ◌>>=◌, ◌>>◌,
}
use kans_shop.Repositories.{
  get_user_by_id, get_active_cart, save_cart, get_product_by_id, get_public_by_id, item_key, remove,
  product_key, get_by_user_and_key, create_mutation,
}

pub record InventoryPolicy : Type 0 where
  pub tracking : Bool

unfoldable pub minimum_quantity : InventoryPolicy → Product → ℕ
minimum_quantity policy p = if not policy.tracking then 1 else max 1 p.min_order_qty

-- A missing or malformed setting keeps tracking on.
abbrev bool_or_true : Option Value → Bool
bool_or_true (some (Value.boolean b)) = b
bool_or_true _ = true

unfoldable pub policy_of : Database → InventoryPolicy
policy_of d = record { tracking = bool_or_true (d.settings stock_tracking_enabled) }

abbrev pub get_inventory_policy : Exec InventoryPolicy
get_inventory_policy = gets policy_of

-- `lock_customer_cart`
abbrev pub new_cart : ℕ → ℕ → Cart
new_cart user k = record { id = k; user_id = user; is_active = true; items = [] }

abbrev create_cart : ℕ → Exec Cart
create_cart user d =
    ok (new_cart user d.carts.next, record d { carts = insert (new_cart user) d.carts })

abbrev cart_or_new : ℕ → Option Cart → Exec Cart
cart_or_new user none = create_cart user
cart_or_new user (some c) = pure c

unfoldable pub lock_customer_cart : ℕ → Exec Cart
lock_customer_cart user = do
  found ← get_user_by_id user
  or_raise found value_error
  cart ← get_active_cart user
  cart_or_new user cart

abbrev cart_or_locked : ℕ → Option Cart → Exec Cart
cart_or_locked user none = lock_customer_cart user
cart_or_locked user (some c) = pure c

unfoldable pub get_cart : ℕ → Exec Cart
get_cart user = do found ← get_active_cart user; cart_or_locked user found

-- The price of an item's product; the database keeps no item without its product.
abbrev price_of : List Product → CartItem → ℕ
price_of all i = elim (find product_key i.product_id all) [ none ↦ 0 | some p ↦ p.price ]

unfoldable pub calculate_subtotal : List Product → List CartItem → ℕ
calculate_subtotal all [] = 0
calculate_subtotal all (i ∷ is) = price_of all i * i.quantity + calculate_subtotal all is

unfoldable pub calculate_items_count : List CartItem → ℕ
calculate_items_count [] = 0
calculate_items_count (i ∷ is) = i.quantity + calculate_items_count is

-- `_get_active_product`
unfoldable pub get_active_product : ℕ → Exec Product
get_active_product k = do
  found ← get_product_by_id k
  p ← or_raise found (product_not_found k)
  raise_if (not p.is_active) (product_not_found k)
  public ← get_public_by_id k
  or_raise public (product_not_found k)
  pure p

abbrev pub exceeds : InventoryPolicy → ℕ → Product → Bool
exceeds policy quantity p = policy.tracking && ltb_ℤ p.stock_qty (pos quantity)

-- The quantity after an add.
abbrev pub added_quantity : InventoryPolicy → Product → ℕ → Option CartItem → ℕ
added_quantity policy p quantity none = max quantity (minimum_quantity policy p)
added_quantity policy p quantity (some i) = i.quantity + quantity

abbrev pub item_with : Product → ℕ → CartItem
item_with p quantity = record { product_id = p.id; quantity = quantity; price_snapshot = p.price }

-- The row that is updated, or a new one.
abbrev pub put_item : Option CartItem → CartItem → List CartItem → List CartItem
put_item none i is = is ++ i ∷ []
put_item (some old) i is = replace item_key (record i { product_id = old.product_id }) is

unfoldable pub add_item_to_locked_cart : Cart → ℕ → ℕ → Exec CartItem
add_item_to_locked_cart cart k quantity = do
  p ← get_active_product k
  policy ← get_inventory_policy
  let existing = find item_key k cart.items
  let total = added_quantity policy p quantity existing
  raise_if (exceeds policy total p) (out_of_stock p.id p.stock_qty)
  save_cart (record cart { items = put_item existing (item_with p total) cart.items })
  pure (item_with p total)

unfoldable pub add_item : ℕ → ℕ → ℕ → Exec CartItem
add_item user k quantity = do
  cart ← lock_customer_cart user
  add_item_to_locked_cart cart k quantity

-- The part of `update_item_quantity` for an item that is there.
abbrev drop_item : Cart → CartItem → Exec (Option CartItem)
drop_item cart i = do save_cart (record cart { items = remove i.product_id cart.items }); pure none

unfoldable pub change_item : Cart → CartItem → ℕ → ℕ → Exec (Option CartItem)
change_item cart i k quantity = do
  p ← get_active_product k
  policy ← get_inventory_policy
  raise_if (ltb quantity (minimum_quantity policy p))
      (minimum_order_quantity p.id (minimum_quantity policy p))
  raise_if (exceeds policy quantity p) (out_of_stock p.id p.stock_qty)
  save_cart (record cart { items = replace item_key (record i { quantity = quantity }) cart.items })
  pure (some (record i { quantity = quantity }))

abbrev update_found : Cart → ℕ → ℕ → Option CartItem → Exec (Option CartItem)
update_found cart k quantity none d = ok (none, d)
update_found cart k quantity (some i) d =
    if quantity == 0 then drop_item cart i d else change_item cart i k quantity d

unfoldable pub update_item_quantity : ℕ → ℕ → ℕ → Exec (Option CartItem)
update_item_quantity user k quantity = do
  cart ← lock_customer_cart user
  update_found cart k quantity (find item_key k cart.items)

abbrev remove_found : Cart → Option CartItem → Exec (Unit {0})
remove_found cart none = pure tt
remove_found cart (some i) = save_cart (record cart { items = remove i.product_id cart.items })

unfoldable pub remove_item : ℕ → ℕ → Exec (Unit {0})
remove_item user k = do
  cart ← lock_customer_cart user
  remove_found cart (find item_key k cart.items)

abbrev pub clear : Cart → Exec (Unit {0})
clear cart = save_cart (record cart { items = [] })

unfoldable pub clear_cart : ℕ → Exec (Unit {0})
clear_cart user = do cart ← lock_customer_cart user; clear cart

-- cart_replay_service.py; SHA-256 is a parameter.
module _ (sha256 : Text → Text) where
  unfoldable pub request_fingerprint : ℕ → ℕ → Text
  request_fingerprint k quantity =
      sha256 (codes "product_id=" ++ (show k ++ (codes "&quantity=" ++ show quantity)))

  abbrev current_cart : ℕ → Exec Cart
  current_cart user = do found ← get_active_cart user; or_raise found runtime_error

  abbrev add_unkeyed : ℕ → ℕ → ℕ → Exec Cart
  add_unkeyed user k quantity = do add_item user k quantity; current_cart user

  abbrev add_replayed : ℕ → ℕ → ℕ → ℕ → Cart → Option CartMutation → Exec Cart
  add_replayed user k quantity key cart (some m) = do
    raise_if (not (text_eq m.request_fingerprint (request_fingerprint k quantity)))
        idempotency_conflict
    pure cart
  add_replayed user k quantity key cart none = do
    add_item_to_locked_cart cart k quantity
    create_mutation user key (request_fingerprint k quantity)
    current_cart user

  abbrev add_keyed : ℕ → ℕ → ℕ → ℕ → Exec Cart
  add_keyed user k quantity key = do
    cart ← lock_customer_cart user
    existing ← get_by_user_and_key user key
    add_replayed user k quantity key cart existing

  unfoldable pub add_item_once : ℕ → ℕ → ℕ → Option ℕ → Exec Cart
  add_item_once user k quantity none = add_unkeyed user k quantity
  add_item_once user k quantity (some key) = add_keyed user k quantity key
