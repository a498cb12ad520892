-- ===== src/Checkout/Submit/Placed.antt =====
-- What a submitted checkout leaves (backend/app/services/purchase_service.py): the order, the stock
-- that it took, and the empty cart; and what a repeated request gets.
use kans_shop.Prelude.{
  ℕ, suc, ◌≡◌, refl, sym, true, false, ◌&&◌, ◌||◌, not, Option, none, some, List, [], ◌∷◌, Text,
  arith, find, insert, update, Option-cases, Bool-cases, inl, inr, sort_by, IsUnique, is_empty,
  is_some, find-append_some, find-append_self, Table,
}
use kans_shop.Prelude.Decimal.{Decimal}
use mathlib.Core.Path.{subst}
use kans_shop.Enums.{OrderStatus}
use kans_shop.Models.{Database, Cart, Order, Product, Admin}
use kans_shop.Exec.{ok, Result-cases}
use kans_shop.Repositories.{order_key, cart_key, item_key, history_row, order_number_of}
use kans_shop.Outbox.Frame.{OnlyOutbox, enqueue_only}
use kans_shop.Payment as Gateway
use kans_shop.Cart.{InventoryPolicy, policy_of}
use kans_shop.Order.Notify.{IsQuiet, bind-IsQuiet, pure-IsQuiet}
use kans_shop.Order.Status.{order_of}
use kans_shop.Order.Stock.{product_of}
use kans_shop.Order.Growth.{Evolves, Grown-refl}
use kans_shop.Checkout.Command.{CheckoutCommand}
use kans_shop.Checkout.Content.{QuoteContent}
use kans_shop.Checkout.Quote.{CheckoutQuote, quote_checkout}
use kans_shop.Checkout.Request.{
  CheckoutResult, RequestContent, enqueue_created, enqueue_order_created_notifications,
}
use kans_shop.Checkout.Lines.{Line, lock_and_validate_products, validate_items}
use kans_shop.Checkout.Submit.{
  place_order, new_order, order_items, is_uzbek, checkout_new, total_or_raise, is_below_minimum,
  quote_is,
}
use kans_shop.Checkout.Submit.Fit.{line_key, items_inv, AllFit}
use kans_shop.Checkout.Submit.Stock.{
  AllStored, take_stock_lem, Gave, all_pieces, fits-IsUnique, fits-AllStored, sort-IsUnique,
}

enqueue_created-IsQuiet : (order : ℕ) (all : List Admin) → IsQuiet (enqueue_created order all)
unfolding enqueue_created
enqueue_created-IsQuiet order [] = pure-IsQuiet tt
enqueue_created-IsQuiet order (a ∷ rest) =
    bind-IsQuiet _ _ (enqueue_only _ order none _ _) (λ _. enqueue_created-IsQuiet order rest)

created-IsQuiet : (order : ℕ) → IsQuiet (enqueue_order_created_notifications order)
unfolding enqueue_order_created_notifications
created-IsQuiet order d = enqueue_created-IsQuiet order _ d

same-AllStored :
    (policy : InventoryPolicy) (d e : Database) (ls : List Line)
    → e.products ≡ d.products
    → AllStored policy d ls
    → AllStored policy e ls
same-AllStored policy d e [] same h = tt
same-AllStored policy d e (l ∷ ls) same (stored, enough, rest) =
    (ground (arith, stored, same), enough, same-AllStored policy d e ls same rest)

-- What placing an order has done.
pub record Placed (row : ℕ → Order) (cart : Cart) (policy : InventoryPolicy) (lines : List Line)
    (d e : Database) (r : CheckoutResult) : Type 0 where
  pub created : r.created ≡ true
  pub order : r.order ≡ row d.orders.next
  pub orders : e.orders ≡ insert row d.orders
  pub carts : e.carts ≡ update cart_key (record cart { items = [] }) d.carts
  pub same_transactions : e.transactions ≡ d.transactions
  pub same_users : e.users ≡ d.users
  pub gave :
      (k : ℕ) (p : Product)
      → product_of d k ≡ some p
      → (q : Product) × (product_of e k ≡ some q) × Gave policy.tracking (all_pieces k lines) p q

module _ (env : Gateway.Settings) (quote_digest : QuoteContent → Text)
    (request_digest : RequestContent → Text) where
  pub place_inv :
      (user : ℕ) (c : CheckoutCommand) (key : Option ℕ) (fingerprint source lang : Text)
      (cart : Cart) (policy : InventoryPolicy) (lines : List Line) (q : CheckoutQuote) (total : ℕ)
      (d e : Database) (r : CheckoutResult)
      → IsUnique line_key lines
      → AllStored policy d lines
      → order_of d d.orders.next ≡ none
      → place_order env quote_digest request_digest user c key fingerprint source lang cart policy
          lines q total d
        ≡ ok (r, e)
      → Placed
          (new_order
            (order_number_of d.order_seq)
            user
            c
            q
            total
            key
            fingerprint
            source
            policy
            (order_items (is_uzbek lang) lines))
          cart
          policy
          lines
          d
          e
          r
  unfolding place_order
  place_inv user c key fingerprint source lang cart policy lines q total d e r unique stored fresh
        h =
      let row =
        new_order (order_number_of d.order_seq) user c q total key fingerprint source policy
          (order_items (is_uzbek lang) lines) in
      let inserted = record d { order_seq = suc d.order_seq; orders = insert row d.orders } in
      let (f, t, took) =
        take_stock_lem policy lines inserted unique
          (same-AllStored policy d inserted lines refl stored) in
      let written = record f {
        status_history =
            insert (history_row d.orders.next none OrderStatus.new none none) f.status_history;
        carts = update cart_key (record cart { items = [] }) f.carts;
      } in
      elim (Result-cases (enqueue_order_created_notifications d.orders.next written)) [
        | inr (x, w) ↦ absurd (ground (arith, t, w, h))
        | inl (u, g, w) ↦
            let quiet : OnlyOutbox written g = created-IsQuiet d.orders.next written g u w in
            let at : order_of g d.orders.next ≡ some (row d.orders.next) = ground (
              arith,
              quiet,
              took.frame,
              find-append_self order_key d.orders.next (row d.orders.next) d.orders.rows fresh refl,
            ) in
            let same : e ≡ g = ground (arith, t, w, at, h) in
            record {
              created = ground (arith, t, w, at, h);
              order = ground (arith, t, w, at, h);
              orders = ground (arith, same, quiet, took.frame);
              carts = ground (arith, same, quiet, took.frame);
              same_transactions = ground (arith, same, quiet, took.frame);
              same_users = ground (arith, same, quiet, took.frame);
              gave = λ k p found.
                  let (v, hv, gv) = took.gave k p found in (v, ground (arith, hv, same, quiet), gv);
            }
      ]

  abbrev pub quoted : Database → ℕ → CheckoutCommand → CheckoutQuote
  quoted d user c =
      quote_checkout env quote_digest d user (policy_of d) c.order_type c.payment_method

  -- What a submission that is no repetition has found and done.
  pub record Submitted (user : ℕ) (c : CheckoutCommand) (key : Option ℕ) (quote : Option Text)
      (total : Option Decimal) (fingerprint source lang : Text) (cart : Cart) (d e : Database)
      (r : CheckoutResult) : Type 0 where
    pub lines : List Line
    pub sum : ℕ
    pub filled : is_empty cart.items ≡ false
    pub fit : AllFit (policy_of d) d (sort_by item_key cart.items) lines
    pub ready : (quoted d user c).ready ≡ true
    pub priced : (quoted d user c).total ≡ some sum
    pub agreed :
        (is_some quote || is_some total) ≡ true → quote_is (quoted d user c) quote total ≡ true
    pub placed :
        Placed
          (new_order
            (order_number_of d.order_seq)
            user
            c
            (quoted d user c)
            sum
            key
            fingerprint
            source
            (policy_of d)
            (order_items (is_uzbek lang) lines))
          cart
          (policy_of d)
          lines
          d
          e
          r

  price_inv :
      (c : CheckoutCommand) (q : CheckoutQuote) (n : ℕ) (d e : Database)
      → total_or_raise c q d ≡ ok (n, e)
      → (e ≡ d) × (q.ready ≡ true) × (q.total ≡ some n)
  unfolding total_or_raise
  price_inv c q n d e h = elim (Bool-cases (is_below_minimum d c q)) [
    | inl low ↦ elim (Bool-cases q.ready) [
      | inr a ↦ absurd (ground (arith, low, a, h))
      | inl a ↦ elim (Option-cases q.total) [
        | inl b ↦ absurd (ground (arith, low, a, b, h))
        | inr (m, b) ↦ (ground (arith, a, b, h), a, ground (arith, a, b, h))
      ]
    ]
    | inr high ↦ elim (Bool-cases q.ready) [
      | inr a ↦ absurd (ground (arith, high, a, h))
      | inl a ↦ elim (Option-cases q.total) [
        | inl b ↦ absurd (ground (arith, high, a, b, h))
        | inr (m, b) ↦ (ground (arith, a, b, h), a, ground (arith, a, b, h))
      ]
    ]
  ]

  pub new_inv :
      (user : ℕ) (c : CheckoutCommand) (key : Option ℕ) (quote : Option Text)
      (total : Option Decimal) (fingerprint source lang : Text) (cart : Cart) (d e : Database)
      (r : CheckoutResult)
      → IsUnique item_key cart.items
      → order_of d d.orders.next ≡ none
      → checkout_new env quote_digest request_digest user c key quote total fingerprint source lang
          cart d
        ≡ ok (r, e)
      → Submitted user c key quote total fingerprint source lang cart d e r
  unfolding checkout_new lock_and_validate_products
  new_inv user c key quote total fingerprint source lang cart d e r unique fresh h =
      let policy = policy_of d in
      let sorted = sort_by item_key cart.items in
      let asked = is_some quote || is_some total in
      elim (Bool-cases (is_empty cart.items)) [
        | inl empty_ ↦ absurd (ground (arith, empty_, h))
        | inr filled ↦ elim (Result-cases (validate_items policy sorted d)) [
          | inr (x, w) ↦ absurd (ground (arith, filled, w, h))
          | inl (lines, f, w) ↦
              let (same, fit) = items_inv policy sorted d f lines w in
              elim (Bool-cases (asked && not (quote_is (quoted d user c) quote total))) [
                | inl changed ↦ absurd (ground (arith, filled, w, same, changed, h))
                | inr kept ↦ elim (Result-cases (total_or_raise c (quoted d user c) d)) [
                  | inr (x, v) ↦ absurd (ground (arith, filled, w, same, kept, v, h))
                  | inl (n, g, v) ↦
                      let (still, ready, priced) = price_inv c (quoted d user c) n d g v in
                      record {
                        lines = lines;
                        sum = n;
                        filled = filled;
                        fit = fit;
                        ready = ready;
                        priced = priced;
                        agreed = λ a. ground (arith, a, kept);
                        placed =
                            place_inv user c key fingerprint source lang cart policy lines
                              (quoted d user c) n d e r
                              (fits-IsUnique policy d sorted lines fit
                                (sort-IsUnique cart.items unique))
                              (fits-AllStored policy d sorted lines fit) fresh
                              (ground (arith, filled, w, same, kept, v, still, h));
                      }
                ]
              ]
        ]
      ]

  -- Whatever a checkout does, no order is lost or changed.
  pub Submitted-Evolves :
      (user : ℕ) (c : CheckoutCommand) (key : Option ℕ) (quote : Option Text)
      (total : Option Decimal) (fingerprint source lang : Text) (cart : Cart) (d e : Database)
      (r : CheckoutResult)
      → Submitted user c key quote total fingerprint source lang cart d e r
      → Evolves d e
  Submitted-Evolves user c key quote total fingerprint source lang cart d e r s k o found = (
    o,
    subst (λ (t : Table Order). find order_key k t.rows ≡ some o) (sym s.placed.orders)
        (find-append_some order_key k _ d.orders.rows o found),
    Grown-refl o,
  )
