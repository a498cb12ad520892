-- ===== src/Cart/Replay.antt =====
-- `add_item_once` of backend/app/services/cart_replay_service.py: a keyed add that is sent again.
use kans_shop.Prelude.{
  ℕ, ◌≡◌, true, Option, none, some, Text, arith, find, find_by, insert, Option-cases, Bool-cases,
  inl, inr, find_by-append_none, text_eq, text_eq_refl, ==_iff,
}
use kans_shop.Models.{Database, Cart, CartItem, CartMutation, User}
use kans_shop.Exec.{ok, Result-cases}
use kans_shop.Repositories.{
  user_key, product_key, item_key, is_active_of, is_mutation, mutation_row, public_product,
}
use kans_shop.Cart.{
  lock_customer_cart, add_item_to_locked_cart, get_active_product, policy_of, exceeds,
  added_quantity, add_item_once, request_fingerprint, new_cart,
}

abbrev pub active_of : ℕ → Database → Option Cart
active_of user d = find_by (is_active_of user) d.carts.rows

-- A locked cart is the active one of a user who is there, and only carts are written.
pub record Locked (user : ℕ) (d e : Database) (cart : Cart) : Type 0 where
  pub owner : User
  pub known : find user_key user d.users.rows ≡ some owner
  pub active : active_of user e ≡ some cart
  pub frame : e ≡ record d { carts = e.carts }

pub lock_inv :
    (user : ℕ) (d e : Database) (cart : Cart)
    → lock_customer_cart user d ≡ ok (cart, e)
    → Locked user d e cart
unfolding lock_customer_cart
lock_inv user d e cart h = elim (Option-cases (find user_key user d.users.rows)) [
  | inl gone ↦ absurd (ground (arith, gone, h))
  | inr (u, known) ↦ elim (Option-cases (active_of user d)) [
    | inr (c, found) ↦ record {
      owner = u;
      known = known;
      active = ground (arith, known, found, h);
      frame = ground (arith, known, found, h);
    }
    | inl absent ↦
        let row = new_cart user d.carts.next in
        let same : e ≡ record d { carts = insert (new_cart user) d.carts } =
          ground (arith, known, absent, h) in
        record {
          owner = u;
          known = known;
          active = ground (
            arith,
            known,
            absent,
            h,
            same,
            find_by-append_none (is_active_of user) d.carts.rows row absent,
          );
          frame = ground (arith, same);
        }
  ]
]

add_frame :
    (cart : Cart) (k quantity : ℕ) (d e : Database) (i : CartItem)
    → add_item_to_locked_cart cart k quantity d ≡ ok (i, e)
    → e ≡ record d { carts = e.carts }
unfolding add_item_to_locked_cart get_active_product
add_frame cart k quantity d e i h = elim (Option-cases (find product_key k d.products.rows)) [
  | inl gone ↦ absurd (ground (arith, gone, h))
  | inr (p, found) ↦ elim (Bool-cases p.is_active) [
    | inr inactive ↦ absurd (ground (arith, found, inactive, h))
    | inl active ↦ elim (Option-cases (public_product d k)) [
      | inl hidden ↦ absurd (ground (arith, found, active, hidden, h))
      | inr (v, seen) ↦
          elim (Bool-cases (
            exceeds (policy_of d)
              (added_quantity (policy_of d) p quantity (find item_key k cart.items)) p)) [
                | inl much ↦ absurd (ground (arith, found, active, seen, much, h))
                | inr fine ↦ ground (arith, found, active, seen, fine, h)
              ]
    ]
  ]
]

module _ (sha256 : Text → Text) (user k quantity key : ℕ) where
  abbrev print_of : Text
  print_of = request_fingerprint sha256 k quantity

  again_lem :
      (e : Database) (u : User) (c : Cart) (m : CartMutation)
      → find user_key user e.users.rows ≡ some u
      → active_of user e ≡ some c
      → find_by (is_mutation user key) e.cart_mutations.rows ≡ some m
      → text_eq m.request_fingerprint print_of ≡ true
      → add_item_once sha256 user k quantity (some key) e ≡ ok (c, e)
  unfolding add_item_once lock_customer_cart
  again_lem e u c m known active made own = ground (arith, known, active, made, own)

  find_made :
      (d : Database)
      → find_by (is_mutation user key) d.cart_mutations.rows ≡ none
      → find_by
          (is_mutation user key)
          (insert (mutation_row user key print_of) d.cart_mutations).rows
        ≡ some (mutation_row user key print_of d.cart_mutations.next)
  find_made d free = ground (
    arith,
    ==_iff user user,
    ==_iff key key,
    find_by-append_none (is_mutation user key) d.cart_mutations.rows
        (mutation_row user key print_of d.cart_mutations.next) free,
  )

  -- After a keyed add to the cart has succeeded, the same request gets the same cart and changes
  -- nothing.
  pub add_item_once_twice :
      (d e : Database) (c : Cart)
      → add_item_once sha256 user k quantity (some key) d ≡ ok (c, e)
      → add_item_once sha256 user k quantity (some key) e ≡ ok (c, e)
  unfolding add_item_once
  add_item_once_twice d e c h = elim (Result-cases (lock_customer_cart user d)) [
    | inr (x, q) ↦ absurd (ground (arith, q, h))
    | inl (cart, f, q) ↦
        let l = lock_inv user d f cart q in
        elim (Option-cases (find_by (is_mutation user key) f.cart_mutations.rows)) [
          | inr (m, made) ↦ elim (Bool-cases (text_eq m.request_fingerprint print_of)) [
            | inr other ↦ absurd (ground (arith, q, made, other, h))
            | inl own ↦
                let same : e ≡ f = ground (arith, q, made, own, h) in
                let result : c ≡ cart = ground (arith, q, made, own, h) in
                again_lem e l.owner c m (ground (arith, l.known, l.frame, same))
                  (ground (arith, l.active, same, result)) (ground (arith, made, same)) own
          ]
          | inl free ↦ elim (Result-cases (add_item_to_locked_cart cart k quantity f)) [
            | inr (x, w) ↦ absurd (ground (arith, q, free, w, h))
            | inl (i, g, w) ↦
                let only = add_frame cart k quantity f g i w in
                let row = mutation_row user key print_of g.cart_mutations.next in
                let written = record g {
                  cart_mutations = insert (mutation_row user key print_of) g.cart_mutations;
                } in
                let made = find_made g (ground (arith, free, only)) in
                elim (Option-cases (active_of user g)) [
                  | inl none_ ↦ absurd (ground (arith, q, free, w, none_, h))
                  | inr (a, active) ↦
                      let same : e ≡ written = ground (arith, q, free, w, active, h) in
                      let result : c ≡ a = ground (arith, q, free, w, active, h) in
                      again_lem e l.owner c row (ground (arith, l.known, l.frame, only, same))
                        (ground (arith, active, same, result)) (ground (arith, made, same))
                        (text_eq_refl print_of)
                ]
          ]
        ]
  ]
