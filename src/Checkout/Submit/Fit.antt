-- ===== src/Checkout/Submit/Fit.antt =====
-- What the validation of a cart has found (backend/app/services/purchase_service.py,
-- `_lock_and_validate_products`).
use kans_shop.Prelude.{
  ℕ, ◌≤◌, ◌≡◌, true, false, is_some, some, List, [], ◌∷◌, arith, ltb, find_key, Option-cases,
  Bool-cases, inl, inr,
}
use mathlib.Core.Path.{subst}
use kans_shop.Models.{Database, CartItem}
use kans_shop.Exec.{ok, Result-cases}
use kans_shop.Repositories.{product_key, public_product}
use kans_shop.Cart.{InventoryPolicy, minimum_quantity}
use kans_shop.Order.Stock.{product_of}
use kans_shop.Checkout.Tally.{lacks}
use kans_shop.Checkout.Lines.{Line, validate_item, validate_items, is_short}

abbrev pub line_key : Line → ℕ
line_key l = l.product.id

-- A line of the order, for the item of the cart that it comes from.
pub record Fits (policy : InventoryPolicy) (d : Database) (i : CartItem) (l : Line) : Type 0 where
  pub same_product : l.product.id ≡ i.product_id
  pub same_quantity : l.quantity ≡ i.quantity
  pub stored : product_of d l.product.id ≡ some l.product
  pub active : l.product.is_active ≡ true
  pub public : is_some (public_product d l.product.id) ≡ true
  pub enough : lacks policy l.quantity l.product ≡ false
  pub minimum : minimum_quantity policy l.product ≤ l.quantity

abbrev pub AllFit : InventoryPolicy → Database → List CartItem → List Line → Type 0
AllFit policy d [] [] = Unit
AllFit policy d (i ∷ is) (l ∷ ls) = Fits policy d i l × AllFit policy d is ls
AllFit policy d [] (l ∷ ls) = ⊥
AllFit policy d (i ∷ is) [] = ⊥

pub item_inv :
    (policy : InventoryPolicy) (i : CartItem) (d e : Database) (l : Line)
    → validate_item policy i d ≡ ok (l, e)
    → (e ≡ d) × Fits policy d i l
unfolding validate_item
item_inv policy i d e l h = elim (Option-cases (product_of d i.product_id)) [
  | inl gone ↦ absurd (ground (arith, gone, h))
  | inr (p, found) ↦ elim (Bool-cases (is_short policy i.quantity p)) [
    | inl short ↦ absurd (ground (arith, found, short, h))
    | inr stocked ↦ elim (Option-cases (public_product d i.product_id)) [
      | inl hidden ↦ absurd (ground (arith, found, stocked, hidden, h))
      | inr (v, seen) ↦ elim (Bool-cases (ltb i.quantity (minimum_quantity policy p))) [
        | inl few ↦ absurd (ground (arith, found, stocked, seen, few, h))
        | inr many ↦
            let id_ = find_key product_key i.product_id d.products.rows p found in
            let result : l ≡ record { product = p; quantity = i.quantity } =
              ground (arith, found, stocked, seen, many, h) in
            (
              ground (arith, found, stocked, seen, many, h),
              record {
                same_product = ground (arith, id_, result);
                same_quantity = ground (arith, result);
                stored = ground (arith, id_, found, result);
                active = ground (arith, stocked, result);
                public = ground (arith, seen, id_, result);
                enough = ground (arith, stocked, result);
                minimum = ground (arith, many, result);
              },
            )
      ]
    ]
  ]
]

-- A validation that succeeds changes nothing, and every line fits its item.
pub items_inv :
    (policy : InventoryPolicy) (is : List CartItem) (d e : Database) (ls : List Line)
    → validate_items policy is d ≡ ok (ls, e)
    → (e ≡ d) × AllFit policy d is ls
unfolding validate_items
items_inv policy [] d e [] h = (ground arith, tt)
items_inv policy [] d e (l ∷ ls) h = absurd (ground arith)
items_inv policy (i ∷ is) d e ls h = elim (Result-cases (validate_item policy i d)) [
  | inr (x, q) ↦ absurd (ground (arith, q, h))
  | inl (l, f, q) ↦
      let (same, fits) = item_inv policy i d f l q in
      elim (Result-cases (validate_items policy is d)) [
        | inr (x, w) ↦ absurd (ground (arith, q, same, w, h))
        | inl (rest, g, w) ↦
            let result : l ∷ rest ≡ ls = ground (arith, q, same, w, h) in
            let (same_rest, all) = items_inv policy is d g rest w in
            (
              ground (arith, q, same, w, same_rest, h),
              subst (λ (v : List Line). AllFit policy d (i ∷ is) v) result (fits, all),
            )
      ]
]
