-- ===== src/Cart/Bounds.antt =====
-- `_add_item_to_locked_cart` and `update_item_quantity` of backend/app/services/cart_service.py: what
-- an add or a change has checked.
use kans_shop.Prelude.{
  ℕ, ◌+◌, ◌≤◌, ◌≡◌, true, false, none, some, arith, ltb, ◌==◌, find, Option-cases, Bool-cases, inl,
  inr, max,
}
use mathlib.Core.Path.{subst}
use kans_shop.Prelude.Int.{pos, ltb_ℤ}
use kans_shop.Models.{Database, Cart, CartItem, Product}
use kans_shop.Exec.{ok, Result-cases}
use kans_shop.Repositories.{product_key, item_key, public_product}
use kans_shop.Cart.Replay.{lock_inv}
use kans_shop.Cart.{
  minimum_quantity, policy_of, get_active_product, exceeds, added_quantity, add_item_to_locked_cart,
  change_item, update_item_quantity, lock_customer_cart,
}

-- What a successful add has found, and the row `i` that it returns.
pub record Added (cart : Cart) (k quantity : ℕ) (d : Database) (i : CartItem) : Type 0 where
  pub product : Product
  pub known : find product_key k d.products.rows ≡ some product
  pub is_on_sale : product.is_active ≡ true
  pub priced : i.price_snapshot ≡ product.price
  pub in_stock : (policy_of d).tracking ≡ true → ltb_ℤ product.stock_qty (pos i.quantity) ≡ false
  pub enough : quantity ≤ i.quantity
  pub first :
      find item_key k cart.items ≡ none → minimum_quantity (policy_of d) product ≤ i.quantity
  pub more :
      (old : CartItem)
      → find item_key k cart.items ≡ some old
      → i.quantity ≡ old.quantity + quantity

max_left : (a b : ℕ) → a ≤ max a b
max_left a b = ground arith

max_right : (a b : ℕ) → b ≤ max a b
max_right a b = ground arith

-- An add to a locked cart that succeeds has found an active product; it returns the product's price
-- and at least the quantity that was asked for, which does not exceed the stock when stock is
-- tracked. A first add gives at least the minimum quantity, a later one adds to the quantity that
-- was there.
pub add_inv :
    (cart : Cart) (k quantity : ℕ) (d e : Database) (i : CartItem)
    → add_item_to_locked_cart cart k quantity d ≡ ok (i, e)
    → Added cart k quantity d i
unfolding add_item_to_locked_cart get_active_product
add_inv cart k quantity d e i h = elim (Option-cases (find product_key k d.products.rows)) [
  | inl gone ↦ absurd (ground (arith, gone, h))
  | inr (p, found) ↦ elim (Bool-cases p.is_active) [
    | inr inactive ↦ absurd (ground (arith, found, inactive, h))
    | inl active ↦ elim (Option-cases (public_product d k)) [
      | inl hidden ↦ absurd (ground (arith, found, active, hidden, h))
      | inr (v, seen) ↦
          let old = find item_key k cart.items in
          let total = added_quantity (policy_of d) p quantity old in
          elim (Bool-cases (exceeds (policy_of d) total p)) [
            | inl much ↦ absurd (ground (arith, found, active, seen, much, h))
            | inr fine ↦
                let sum : i.quantity ≡ total = ground (arith, found, active, seen, fine, h) in
                record {
                  product = p;
                  known = found;
                  is_on_sale = active;
                  priced = ground (arith, found, active, seen, fine, h);
                  in_stock = λ t. ground (arith, sum, fine, t);
                  enough = elim (Option-cases old) [
                    | inl new ↦
                        ground
                          (arith, sum, new, max_left quantity (minimum_quantity (policy_of d) p))
                    | inr (o, at_) ↦ ground (arith, sum, at_)
                  ];
                  first = λ new.
                      ground
                        (arith, sum, new, max_right quantity (minimum_quantity (policy_of d) p));
                  more = λ o at_. ground (arith, sum, at_);
                }
          ]
    ]
  ]
]

-- What a successful change has found, for an item that stays in the cart.
pub record Changed (k quantity : ℕ) (d : Database) (i : CartItem) : Type 0 where
  pub product : Product
  pub known : find product_key k d.products.rows ≡ some product
  pub is_on_sale : product.is_active ≡ true
  pub counted : i.quantity ≡ quantity
  pub in_stock : (policy_of d).tracking ≡ true → ltb_ℤ product.stock_qty (pos quantity) ≡ false
  pub enough : minimum_quantity (policy_of d) product ≤ quantity

change_inv :
    (cart : Cart) (old : CartItem) (k quantity : ℕ) (d e : Database) (i : CartItem)
    → change_item cart old k quantity d ≡ ok (some i, e)
    → Changed k quantity d i
unfolding change_item get_active_product
change_inv cart old k quantity d e i h = elim (Option-cases (find product_key k d.products.rows)) [
  | inl gone ↦ absurd (ground (arith, gone, h))
  | inr (p, found) ↦ elim (Bool-cases p.is_active) [
    | inr inactive ↦ absurd (ground (arith, found, inactive, h))
    | inl active ↦ elim (Option-cases (public_product d k)) [
      | inl hidden ↦ absurd (ground (arith, found, active, hidden, h))
      | inr (v, seen) ↦ elim (Bool-cases (ltb quantity (minimum_quantity (policy_of d) p))) [
        | inl few ↦ absurd (ground (arith, found, active, seen, few, h))
        | inr many ↦ elim (Bool-cases (exceeds (policy_of d) quantity p)) [
          | inl much ↦ absurd (ground (arith, found, active, seen, many, much, h))
          | inr fine ↦ record {
            product = p;
            known = found;
            is_on_sale = active;
            counted = ground (arith, found, active, seen, many, fine, h);
            in_stock = λ t. ground (arith, fine, t);
            enough = ground (arith, many);
          }
        ]
      ]
    ]
  ]
]

-- The carts are no part of what `Changed` says.
change_frame :
    (k quantity : ℕ) (d f : Database) (i : CartItem)
    → f ≡ record d { carts = f.carts }
    → Changed k quantity f i
    → Changed k quantity d i
unfolding policy_of
change_frame k quantity d f i frame changed =
    let c = subst (λ x. Changed k quantity x i) frame changed in
    record {
      product = c.product;
      known = c.known;
      is_on_sale = c.is_on_sale;
      counted = c.counted;
      in_stock = c.in_stock;
      enough = c.enough;
    }

-- A change of a quantity that succeeds and keeps the item has found an active product and returns
-- the quantity that was asked for, which is at least the product's minimum and does not exceed the
-- stock when stock is tracked.
pub update_inv :
    (user k quantity : ℕ) (d e : Database) (i : CartItem)
    → update_item_quantity user k quantity d ≡ ok (some i, e)
    → Changed k quantity d i
unfolding update_item_quantity
update_inv user k quantity d e i h = elim (Result-cases (lock_customer_cart user d)) [
  | inr (x, q) ↦ absurd (ground (arith, q, h))
  | inl (cart, f, q) ↦ elim (Option-cases (find item_key k cart.items)) [
    | inl absent ↦ absurd (ground (arith, q, absent, h))
    | inr (old, found) ↦ elim (Bool-cases (quantity == 0)) [
      | inl zero_ ↦ absurd (ground (arith, q, found, zero_, h))
      | inr some_ ↦
          let c = change_inv cart old k quantity f e i (ground (arith, q, found, some_, h)) in
          let l = lock_inv user d f cart q in change_frame k quantity d f i l.frame c
    ]
  ]
]
