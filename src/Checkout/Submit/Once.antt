-- ===== src/Checkout/Submit/Once.antt =====
-- `submit_checkout` of backend/app/services/purchase_service.py as a whole: how it ends, and what a
-- request with the same checkout key gets the second time.
use kans_shop.Prelude.{
  ℕ, ◌≡◌, refl, ap, sym, ◌∙◌, true, false, Option, none, some, List, [], ◌∷◌, ◌++◌, Text, arith,
  find, find_by, update, Option-cases, Bool-cases, inl, inr, find_by-append_none, find_by_holds,
  find_by-replace, same_text, text_eq_refl, Table,
}
use kans_shop.Prelude.Decimal.{Decimal}
use mathlib.Core.Path.{subst}
use kans_shop.Models.{Database, Cart, Order, User}
use kans_shop.Exec.{ok, err, Result-cases, Result}
use kans_shop.Repositories.{cart_key, user_key, has_checkout_key, is_active_of}
use kans_shop.Payment as Gateway
use kans_shop.Cart.{lock_customer_cart}
use kans_shop.Order.Growth.{Evolves, Evolves-refl, Evolves-trans}
use kans_shop.Order.Life.{Evolves-orders}
use kans_shop.Checkout.Command.{CheckoutCommand, normalize_checkout_command}
use kans_shop.Checkout.Content.{QuoteContent}
use kans_shop.Checkout.Request.{CheckoutResult, RequestContent}
use kans_shop.Checkout.Submit.{
  checkout_new, checkout_locked, submit_normalized, precheck, checkout_request_fingerprint,
  submit_checkout,
}
use kans_shop.Checkout.Submit.Placed.{Submitted, new_inv, Submitted-Evolves}
use kans_shop.Checkout.Submit.Locked.{
  IsSound, LockedCart, lock_cart_inv, precheck_again, lock_again,
}

module _ (env : Gateway.Settings) (quote_digest : QuoteContent → Text)
    (request_digest : RequestContent → Text) (user : ℕ) (c : CheckoutCommand) (key : Option ℕ)
    (quote : Option Text) (total : Option Decimal) (source lang : Text) where
  abbrev pub print_of : Text
  print_of = checkout_request_fingerprint env quote_digest request_digest c quote total

  -- How a submission of a normalised command ends, when it ends well.
  pub data Outcome (d e : Database) (r : CheckoutResult) : Type 0 where
    repeated :
        (k : ℕ) (o : Order) (cart : Cart)
        → key ≡ some k
        → find_by (has_checkout_key user k) d.orders.rows ≡ some o
        → same_text o.checkout_fingerprint (some print_of) ≡ true
        → r ≡ record { order = o; created = false }
        → LockedCart user d e cart
        → precheck c key quote total source e ≡ ok (tt, e)
        → Outcome d e r
    placed :
        (cart : Cart) (f : Database)
        → LockedCart user d f cart
        → ((k : ℕ) → key ≡ some k → find_by (has_checkout_key user k) d.orders.rows ≡ none)
        → Submitted env quote_digest request_digest user c key quote total print_of source lang cart
            f e r
        → precheck c key quote total source e ≡ ok (tt, e)
        → Outcome d e r

  locked-Outcome :
      (cart : Cart) (d f e : Database) (r : CheckoutResult)
      → IsSound d
      → LockedCart user d f cart
      → precheck c key quote total source e ≡ ok (tt, e)
      → ((k : ℕ) → key ≡ some k → find_by (has_checkout_key user k) d.orders.rows ≡ none)
      → checkout_new env quote_digest request_digest user c key quote total print_of source lang
          cart f
        ≡ ok (r, e)
      → Outcome d e r
  locked-Outcome cart d f e r sound l again free h =
      placed cart f l free
        (new_inv env quote_digest request_digest user c key quote total print_of source lang cart f
          e r l.unique (ground (arith, sound.next_order, l.frame)) h)
        again

  pub submit-Outcome :
      (d e : Database) (r : CheckoutResult)
      → IsSound d
      → submit_normalized env quote_digest request_digest user c key quote total source lang d
        ≡ ok (r, e)
      → Outcome d e r
  unfolding submit_normalized checkout_locked
  submit-Outcome d e r sound h = elim (Result-cases (precheck c key quote total source d)) [
    | inr (x, q) ↦ absurd (ground (arith, q, h))
    | inl (u, g, q) ↦
        let (same, again) = precheck_again c key quote total source d e g u q in
        elim (Result-cases (lock_customer_cart user d)) [
          | inr (x, w) ↦ absurd (ground (arith, q, same, w, h))
          | inl (cart, f, w) ↦
              let l = lock_cart_inv user d f cart sound w in
              elim (Option-cases key) [
                | inl keyless ↦
                    locked-Outcome cart d f e r sound l again
                      (λ k e. absurd (ground (arith, keyless, e)))
                      (ground (arith, q, same, w, keyless, h))
                | inr (k, keyed) ↦
                    elim (Option-cases (find_by (has_checkout_key user k) d.orders.rows)) [
                      | inl free ↦
                          locked-Outcome cart d f e r sound l again
                            (λ j e. ground (arith, keyed, e, free))
                            (ground (arith, q, same, w, keyed, free, l.frame, h))
                      | inr (o, taken) ↦
                          elim (Bool-cases (same_text o.checkout_fingerprint (some print_of))) [
                            | inr other ↦
                                absurd (ground (arith, q, same, w, keyed, taken, l.frame, other, h))
                            | inl own ↦
                                let result : e ≡ f =
                                  ground (arith, q, same, w, keyed, taken, l.frame, own, h) in
                                repeated k o cart keyed taken own
                                  (ground (arith, q, same, w, keyed, taken, l.frame, own, h))
                                  (subst (λ x. LockedCart user d x cart) (sym result) l) again
                          ]
                    ]
              ]
        ]
  ]

  Outcome-Evolves : (d e : Database) (r : CheckoutResult) → Outcome d e r → Evolves d e
  Outcome-Evolves d e r (repeated k o cart keyed taken own result l again) =
      Evolves-orders d d e (ap (λ x. x.orders) l.frame) (Evolves-refl d)
  Outcome-Evolves d e r (placed cart f l free s again) =
      Evolves-trans d f e (Evolves-orders d d f (ap (λ x. x.orders) l.frame) (Evolves-refl d)) (
        Submitted-Evolves env quote_digest request_digest user c key quote total print_of source
          lang cart f e r s)

  Outcome-transactions :
      (d e : Database) (r : CheckoutResult) → Outcome d e r → e.transactions ≡ d.transactions
  Outcome-transactions d e r (repeated k o cart keyed taken own result l again) =
      ap (λ x. x.transactions) l.frame
  Outcome-transactions d e r (placed cart f l free s again) =
      s.placed.same_transactions ∙ ap (λ x. x.transactions) l.frame

  replay_lem :
      (k : ℕ) (e : Database) (o : Order) (u : User) (cart : Cart)
      → key ≡ some k
      → precheck c key quote total source e ≡ ok (tt, e)
      → find user_key user e.users.rows ≡ some u
      → find_by (is_active_of user) e.carts.rows ≡ some cart
      → find_by (has_checkout_key user k) e.orders.rows ≡ some o
      → same_text o.checkout_fingerprint (some print_of) ≡ true
      → submit_normalized env quote_digest request_digest user c key quote total source lang e
        ≡ ok (record { order = o; created = false }, e)
  unfolding submit_normalized checkout_locked
  replay_lem k e o u cart keyed checked known active taken own =
      ground (arith, keyed, checked, lock_again user e u cart known active, taken, own)

  -- The cart of the customer after the order: the same one, emptied.
  emptied :
      (d f e : Database) (cart : Cart)
      → LockedCart user d f cart
      → e.carts ≡ update cart_key (record cart { items = [] }) f.carts
      → find_by (is_active_of user) e.carts.rows ≡ some (record cart { items = [] })
  emptied d f e cart l saved =
      let mine = find_by_holds (is_active_of user) f.carts.rows cart l.active in
      subst
        (λ (t : Table Cart). find_by (is_active_of user) t.rows ≡ some (record cart { items = [] }))
        (sym saved)
        (find_by-replace cart_key (is_active_of user) (record cart { items = [] }) f.carts.rows cart
          mine refl l.active l.at)

  find_new :
      (j : ℕ) (t : List Order) (o : Order)
      → find_by (has_checkout_key user j) t ≡ none
      → o.user_id ≡ user
      → o.checkout_key ≡ some j
      → find_by (has_checkout_key user j) (t ++ o ∷ []) ≡ some o
  find_new j t o free mine keyed =
      ground (arith, mine, keyed, find_by-append_none (has_checkout_key user j) t o free)

  normalized_twice :
      (k : ℕ) (d e : Database) (r : CheckoutResult)
      → key ≡ some k
      → Outcome d e r
      → submit_normalized env quote_digest request_digest user c key quote total source lang e
        ≡ ok (record { order = r.order; created = false }, e)
  normalized_twice j d e r key_is (repeated k o cart keyed taken own result l again) =
      let same : r.order ≡ o = ground (arith, result) in
      replay_lem j e r.order l.owner cart key_is again (ground (arith, l.known, l.frame)) l.active
        (ground (arith, taken, keyed, key_is, l.frame, same)) (ground (arith, own, same))
  normalized_twice j d e r key_is (placed cart f l free s again) =
      let none_ : find_by (has_checkout_key user j) f.orders.rows ≡ none =
        ground (arith, free j key_is, l.frame) in
      let print_is : r.order.checkout_fingerprint ≡ some print_of =
        ground (arith, s.placed.order, key_is) in
      replay_lem j e r.order l.owner (record cart { items = [] }) key_is again
        (ground (arith, l.known, l.frame, s.placed.same_users))
        (emptied d f e cart l s.placed.carts)
        (subst (λ (t : Table Order). find_by (has_checkout_key user j) t.rows ≡ some r.order)
          (sym s.placed.orders)
          (subst (λ o. find_by (has_checkout_key user j) (f.orders.rows ++ o ∷ []) ≡ some r.order)
            s.placed.order
            (find_new j f.orders.rows r.order none_ (ground (arith, s.placed.order))
              (ground (arith, s.placed.order, key_is)))))
        (ground (arith, print_is, text_eq_refl print_of))

module _ (env : Gateway.Settings) (quote_digest : QuoteContent → Text)
    (request_digest : RequestContent → Text) (user : ℕ) (command : CheckoutCommand) (key : Option ℕ)
    (quote : Option Text) (total : Option Decimal) (source lang : Text) where
  abbrev pub submits : Database → Result (CheckoutResult × Database)
  submits = submit_checkout env quote_digest request_digest user command key quote total source lang

  pub normal_inv :
      (d e : Database) (r : CheckoutResult)
      → IsSound d
      → submits d ≡ ok (r, e)
      → (c : CheckoutCommand) × (normalize_checkout_command command ≡ ok c)
        × Outcome env quote_digest request_digest user c key quote total source lang d e r
  unfolding submit_checkout
  normal_inv d e r sound h = by_command (normalize_checkout_command command) refl
    where
      by_command :
          (n : Result CheckoutCommand)
          → normalize_checkout_command command ≡ n
          → (c : CheckoutCommand) × (normalize_checkout_command command ≡ ok c)
            × Outcome env quote_digest request_digest user c key quote total source lang d e r
      by_command (err x) q = absurd (ground arith)
      by_command (ok c) q = (
        c,
        q,
        submit-Outcome env quote_digest request_digest user c key quote total source lang d e r
            sound (ground (arith, q, h)),
      )

  pub submit-Evolves :
      (d e : Database) (r : CheckoutResult) → IsSound d → submits d ≡ ok (r, e) → Evolves d e
  submit-Evolves d e r sound h =
      let (c, q, o) = normal_inv d e r sound h in
      Outcome-Evolves env quote_digest request_digest user c key quote total source lang d e r o

  -- After a checkout with a checkout key has succeeded on sound rows, the same request gets the
  -- same order, marked as not created, and changes nothing.
  pub submit_twice :
      (k : ℕ) (d e : Database) (r : CheckoutResult)
      → IsSound d
      → key ≡ some k
      → submits d ≡ ok (r, e)
      → submits e ≡ ok (record { order = r.order; created = false }, e)
  unfolding submit_checkout
  submit_twice k d e r sound keyed h =
      let (c, q, o) = normal_inv d e r sound h in
      let again =
        normalized_twice env quote_digest request_digest user c key quote total source lang k d e r
          keyed o in
      ground (arith, q, again)
