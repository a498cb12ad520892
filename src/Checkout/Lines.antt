-- ===== src/Checkout/Lines.antt =====
-- `_lock_and_validate_products` of backend/app/services/purchase_service.py.
use kans_shop.Prelude.{
  ℕ, Bool, ◌||◌, not, Option, none, some, List, [], ◌∷◌, ltb, sort_by, if◌then◌else◌,
}
use kans_shop.Prelude.Int.{pos}
use kans_shop.Models.{Product, CartItem, Cart}
use kans_shop.Exec.{
  Exec, ok, err, out_of_stock, checkout_unavailable, minimum_order_quantity, pure, raise_if,
  or_raise, ◌>>=◌, ◌>>◌,
}
use kans_shop.Repositories.{item_key, get_product_by_id, get_public_by_id}
use kans_shop.Cart.{InventoryPolicy, minimum_quantity}
use kans_shop.Checkout.Tally.{lacks}

-- `_lock_and_validate_products`, one item at a time
pub record Line : Type 0 where
  pub product : Product
  pub quantity : ℕ

abbrev pub is_short : InventoryPolicy → ℕ → Product → Bool
is_short policy quantity p = not p.is_active || lacks policy quantity p

abbrev pub stock_or_raise : InventoryPolicy → CartItem → Option Product → Exec Product
stock_or_raise policy i none d = err (out_of_stock i.product_id (pos 0))
stock_or_raise policy i (some p) d =
    if is_short policy i.quantity p then err (out_of_stock i.product_id p.stock_qty) else ok (p, d)

unfoldable pub validate_item : InventoryPolicy → CartItem → Exec Line
validate_item policy i = do
  found ← get_product_by_id i.product_id
  p ← stock_or_raise policy i found
  public ← get_public_by_id i.product_id
  or_raise public checkout_unavailable
  raise_if (ltb i.quantity (minimum_quantity policy p))
      (minimum_order_quantity p.id (minimum_quantity policy p))
  pure (record { product = p; quantity = i.quantity })

unfoldable pub validate_items : InventoryPolicy → List CartItem → Exec (List Line)
validate_items policy [] = pure []
validate_items policy (i ∷ is) =
    let later = validate_items policy is in
    do line ← validate_item policy i; lines ← later; pure (line ∷ lines)

unfoldable pub lock_and_validate_products : Cart → InventoryPolicy → Exec (List Line)
lock_and_validate_products cart policy = validate_items policy (sort_by item_key cart.items)
