-- ===== src/Checkout/Tally.antt =====
-- backend/app/services/checkout_quote.py: the loop over the cart.
use kans_shop.Prelude.{
  ℕ, ◌+◌, ◌*◌, Bool, true, false, ◌&&◌, not, Option, some, List, [], ◌∷◌, ◌++◌, find, ltb,
  if◌then◌else◌,
}
use kans_shop.Prelude.Int.{ℤ, pos, ltb_ℤ}
use kans_shop.Models.{Database, Product, CartItem, SettingKey}
use kans_shop.Repositories.{product_key, public_product}
use kans_shop.Cart.{InventoryPolicy, minimum_quantity}
use kans_shop.Checkout.Settings.{FieldState}

-- The texts of `blockers` and `reasons`, by what they say.
pub data Reason : Type 0 where
  empty_cart shop_closed below_min_order : Reason
  unavailable : ℕ → Reason
  below_minimum : ℕ → ℕ → ℕ → Reason
  inactive : ℕ → Reason
  insufficient_stock : ℕ → ℤ → ℕ → Reason
  setting : SettingKey → FieldState → Reason
  preorder_is_cash method_unavailable cash_unavailable : Reason
  lot_missing : ℕ → Reason

-- What the loop over the cart finds.
pub record Tally : Type 0 where
  pub subtotal : ℕ
  pub missing_product : Bool
  pub stock_ok : Bool
  pub blockers : List Reason

abbrev pub start : List Reason → Tally
start blockers = record {
  subtotal = 0;
  missing_product = false;
  stock_ok = true;
  blockers = blockers;
}

abbrev pub missing : CartItem → Tally → Tally
missing i t = record t {
  missing_product = true;
  stock_ok = false;
  blockers = t.blockers ++ unavailable i.product_id ∷ [];
}

abbrev pub reason_if : Bool → Reason → List Reason
reason_if c r = if c then r ∷ [] else []

abbrev pub lacks : InventoryPolicy → ℕ → Product → Bool
lacks policy quantity p = policy.tracking && ltb_ℤ p.stock_qty (pos quantity)

abbrev pub count_item : InventoryPolicy → CartItem → Product → Tally → Tally
count_item policy i p t =
    let minimum = minimum_quantity policy p in
    record t {
      subtotal = t.subtotal + p.price * i.quantity;
      stock_ok = t.stock_ok && (p.is_active && not (lacks policy i.quantity p));
      blockers =
          t.blockers
          ++ (reason_if (ltb i.quantity minimum) (below_minimum p.id minimum i.quantity)
              ++ (reason_if (not p.is_active) (inactive p.id)
                  ++ reason_if (lacks policy i.quantity p)
                      (insufficient_stock p.id p.stock_qty i.quantity)));
    }

-- Both the item's product and its public view must be there.
abbrev pub tally_either :
    InventoryPolicy → CartItem → Option Product → Option Product → Tally → Tally
tally_either policy i (some p) (some q) t = count_item policy i p t
tally_either policy i _ _ t = missing i t

unfoldable pub tally_item : Database → InventoryPolicy → CartItem → Tally → Tally
tally_item d policy i t =
    tally_either policy i (find product_key i.product_id d.products.rows)
      (public_product d i.product_id) t

unfoldable pub tally : Database → InventoryPolicy → List CartItem → Tally → Tally
tally d policy [] t = t
tally d policy (i ∷ is) t = tally d policy is (tally_item d policy i t)
