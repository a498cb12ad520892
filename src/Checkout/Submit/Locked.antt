-- ===== src/Checkout/Submit/Locked.antt =====
-- The rows that a checkout relies on, and the cart that it locks
-- (backend/app/services/purchase_locks.py).
use kans_shop.Prelude.{
  ℕ, ◌≡◌, refl, Bool, Option, none, some, List, [], ◌∷◌, Text, arith, find, find_by, insert,
  Option-cases, Bool-cases, inl, inr, IsUnique, find_by-append_none, find-of-find_by,
  find-append_self, All,
}
use kans_shop.Prelude.Decimal.{Decimal}
use mathlib.Core.Path.{subst}
use kans_shop.Models.{Database, Cart, User}
use kans_shop.Exec.{ok}
use kans_shop.Repositories.{cart_key, item_key, user_key, is_active_of}
use kans_shop.Cart.{lock_customer_cart, new_cart}
use kans_shop.Order.Status.{order_of}
use kans_shop.Checkout.Command.{CheckoutCommand}
use kans_shop.Checkout.Submit.{precheck}

-- The rows that a checkout relies on: ids differ, and a cart has one item of a product.
pub record IsSound (d : Database) : Type 0 where
  pub carts : IsUnique cart_key d.carts.rows
  pub next_cart : find cart_key d.carts.next d.carts.rows ≡ none
  pub items : All (λ c. IsUnique item_key c.items) d.carts.rows
  pub next_order : order_of d d.orders.next ≡ none

pub found-All :
    (P : Cart → Type 0) (q : Cart → Bool) (t : List Cart) (c : Cart)
    → All P t
    → find_by q t ≡ some c
    → P c
unfolding find_by
found-All P q [] c all h = cc
found-All P q (v ∷ t) c (here, rest) h = elim (Bool-cases (q v)) [
  | inl first ↦ subst P (ground (arith, first, h)) here
  | inr no_ ↦ found-All P q t c rest (ground (arith, no_, h))
]

-- A cart that is locked is the active one of a user who is there.
pub record LockedCart (user : ℕ) (d e : Database) (cart : Cart) : Type 0 where
  pub owner : User
  pub known : find user_key user d.users.rows ≡ some owner
  pub active : find_by (is_active_of user) e.carts.rows ≡ some cart
  pub frame : e ≡ record d { carts = e.carts }
  pub at : find cart_key cart.id e.carts.rows ≡ some cart
  pub unique : IsUnique item_key cart.items

pub lock_cart_inv :
    (user : ℕ) (d e : Database) (cart : Cart)
    → IsSound d
    → lock_customer_cart user d ≡ ok (cart, e)
    → LockedCart user d e cart
unfolding lock_customer_cart
lock_cart_inv user d e cart sound h = elim (Option-cases (find user_key user d.users.rows)) [
  | inl gone ↦ absurd (ground (arith, gone, h))
  | inr (u, known) ↦ elim (Option-cases (find_by (is_active_of user) d.carts.rows)) [
    | inr (c, found) ↦
        let same : e ≡ d = ground (arith, known, found, h) in
        let result : c ≡ cart = ground (arith, known, found, h) in
        record {
          owner = u;
          known = known;
          active = ground (arith, found, same, result);
          frame = ground (arith, same);
          at = ground (
            arith,
            same,
            result,
            find-of-find_by cart_key (is_active_of user) d.carts.rows c sound.carts found,
          );
          unique =
              subst (λ (v : Cart). IsUnique item_key v.items) result
                (found-All (λ c. IsUnique item_key c.items) (is_active_of user) d.carts.rows c
                  sound.items found);
        }
    | inl absent ↦
        let c = new_cart user d.carts.next in
        let result : c ≡ cart = ground (arith, known, absent, h) in
        let same : e ≡ record d { carts = insert (new_cart user) d.carts } =
          ground (arith, known, absent, h) in
        record {
          owner = u;
          known = known;
          active =
              ground (
                arith,
                same,
                result,
                find_by-append_none (is_active_of user) d.carts.rows c absent,
              );
          frame = ground (arith, same);
          at = ground (
            arith,
            same,
            result,
            find-append_self cart_key d.carts.next c d.carts.rows sound.next_cart refl,
          );
          unique = subst (λ (v : Cart). IsUnique item_key v.items) result tt;
        }
  ]
]

pub precheck_again :
    (c : CheckoutCommand) (key : Option ℕ) (quote : Option Text) (total : Option Decimal)
    (source : Text) (d e f : Database) (u : Unit {0})
    → precheck c key quote total source d ≡ ok (u, f)
    → (f ≡ d) × (precheck c key quote total source e ≡ ok (tt, e))
unfolding precheck
precheck_again c key quote total source d e f u h = (ground arith, ground arith)

pub lock_again :
    (user : ℕ) (e : Database) (u : User) (cart : Cart)
    → find user_key user e.users.rows ≡ some u
    → find_by (is_active_of user) e.carts.rows ≡ some cart
    → lock_customer_cart user e ≡ ok (cart, e)
unfolding lock_customer_cart
lock_again user e u cart known active = ground arith
