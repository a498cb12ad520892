-- ===== src/Checkout/Submit.antt =====
-- backend/app/services/purchase_service.py: the submission of a checkout. The fingerprint of a
-- request (SHA-256 of a JSON text) is a parameter on the data that the text is printed from.
pub mod Fit
pub mod Stock
pub mod Placed
pub mod Locked
pub mod Once
pub mod Effects
pub mod Sum
use kans_shop.Prelude.{
  ℕ, zero, suc, ◌+◌, ◌-◌, ◌*◌, ◌/◌, ◌%◌, ◌^◌, Bool, true, false, ◌&&◌, ◌||◌, not, Option, none,
  some, List, [], ◌∷◌, ◌++◌, Text, codes, truthy, find, insert, ltb, ◌==◌, sort_by, select,
  is_empty, is_some, or_else, same_text, text_eq, if◌then◌else◌,
}
use kans_shop.Prelude.Int.{ℤ, pos, neg}
use kans_shop.Prelude.Decimal.{Decimal, nan, infinite, finite, eq_cents, cents_ge}
use kans_shop.Enums.{OrderType, OrderStatus, PaymentMethod, PaymentStatus, card_transfer, delivery}
use kans_shop.Models.{
  Database, Product, CartItem, Cart, Contact, CardInstructions, Order, OrderItem, Admin, EventType,
  order_created,
}
use kans_shop.Exec.{
  Exec, Result, ok, err, out_of_stock, checkout_unavailable, minimum_order_quantity,
  checkout_validation, client_update_required, quote_changed, idempotency_conflict, cart_empty,
  min_order_amount, runtime_error, pure, raise, raise_if, or_raise, gets, modify, ◌>>=◌, ◌>>◌,
}
use kans_shop.Repositories.{
  item_key, get_product_by_id, get_public_by_id, save_product, adjusted, sold, get_by_checkout_key,
  next_order_number, add_status_history, get_order_by_id,
}
use kans_shop.Outbox.{enqueue_outbox_event, to_admin}
use kans_shop.Payment as Gateway
use kans_shop.Cart.{
  InventoryPolicy, minimum_quantity, get_inventory_policy, lock_customer_cart, clear,
}
use kans_shop.Checkout.Settings.{is_valid, load_checkout_settings}
use kans_shop.Checkout.Command.{CheckoutCommand, normalize_checkout_command, is_delivery}
use kans_shop.Checkout.Tally.{lacks}
use kans_shop.Checkout.Fees.{is_preorder}
use kans_shop.Checkout.Content.{QuoteContent}
use kans_shop.Checkout.Quote.{CheckoutQuote, quote_checkout}
use kans_shop.Checkout.Request.{
  CheckoutResult, is_notified, enqueue_created, enqueue_order_created_notifications, strip_zeros,
  decimal_string, optional_string, half_even, money_string, RequestContent, printed,
  request_content,
}
use kans_shop.Checkout.Lines.{
  Line, is_short, stock_or_raise, validate_item, validate_items, lock_and_validate_products,
}

pub is_webapp : Text → Bool
is_webapp source = text_eq source (codes "webapp")

pub is_uzbek : Text → Bool
is_uzbek lang = text_eq lang (codes "uz")

abbrev is_card : PaymentMethod → Bool
is_card card_transfer = true
is_card _ = false

-- The checks before any lock, on the normalised command.
unfoldable pub precheck :
    CheckoutCommand → Option ℕ → Option Text → Option Decimal → Text → Exec (Unit {0})
unfolding is_webapp
precheck c key quote total source = do
  raise_if (is_webapp source && (is_delivery c.order_type && not (is_some (c.contact.address))))
      checkout_validation
  raise_if ((is_some quote || is_some total) && (not (truthy quote) || not (is_some total)))
      checkout_validation
  raise_if
      (is_webapp source && (is_card c.payment_method && (not (is_some quote) || not (is_some key))))
      client_update_required
  raise_if ((is_some quote || is_some total) && not (is_some key)) checkout_validation

abbrev total_is : Option ℕ → Option Decimal → Bool
total_is (some n) (some d) = eq_cents d n
total_is none none = true
total_is _ _ = false

-- The quote is the one that the customer has accepted.
abbrev quote_is : CheckoutQuote → Option Text → Option Decimal → Bool
quote_is q quote total = same_text q.quote_fingerprint quote && total_is q.total total

abbrev below : ℕ → Option Decimal → Bool
below n none = false
below n (some m) = not (cents_ge n m)

abbrev is_below_minimum : Database → CheckoutCommand → CheckoutQuote → Bool
is_below_minimum d c q =
    let s = load_checkout_settings d in
    not (is_preorder c.order_type)
    && (is_valid s.min_order.state && below q.subtotal s.min_order.value)

-- A quote that is not ready is refused, and one that is has a total.
unfoldable pub total_or_raise : CheckoutCommand → CheckoutQuote → Exec ℕ
total_or_raise c q d =
    if not q.ready || not (is_some q.total)
    then (if is_below_minimum d c q
        then err (min_order_amount q.subtotal)
        else err checkout_unavailable)
    else ok (or_else q.total 0, d)

abbrev pub order_item : Bool → Line → OrderItem
order_item uz l = record {
  product_id = some l.product.id;
  product_name_snapshot = if uz then l.product.name_uz else l.product.name_ru;
  product_sku_snapshot = l.product.sku;
  price = l.product.price;
  quantity = l.quantity;
  total = l.product.price * l.quantity;
}

unfoldable pub order_items : Bool → List Line → List OrderItem
order_items uz [] = []
order_items uz (l ∷ ls) = order_item uz l ∷ order_items uz ls

-- One product gives its pieces; the row is read again under the lock that is held.
abbrev pub taken : InventoryPolicy → ℕ → Product → Product
taken policy quantity p =
    sold (pos quantity) (if policy.tracking then adjusted (neg quantity) p else p)

unfoldable pub take_stock : InventoryPolicy → List Line → Exec (Unit {0})
take_stock policy [] = pure tt
take_stock policy (l ∷ ls) =
    let later = take_stock policy ls in do save_product (taken policy l.quantity l.product); later

abbrev pub new_order :
    Text
    → ℕ
    → CheckoutCommand
    → CheckoutQuote
    → ℕ
    → Option ℕ
    → Text
    → Text
    → InventoryPolicy
    → List OrderItem
    → ℕ
    → Order
new_order number user c q total key fingerprint source policy items k = record {
  id = k;
  order_number = number;
  user_id = user;
  order_type = c.order_type;
  status = OrderStatus.new;
  contact = c.contact;
  subtotal = q.subtotal;
  delivery_fee = or_else q.delivery_fee 0;
  discount = 0;
  total = total;
  payment_method = c.payment_method;
  payment_status = PaymentStatus.pending;
  receipt_file_id = none;
  receipt_url = none;
  checkout_key = key;
  checkout_fingerprint = if is_some key then some fingerprint else none;
  payment_instructions = if is_card c.payment_method then q.payment_instructions else none;
  stock_deducted = policy.tracking;
  receipt_storage_key = none;
  receipt_content_type = none;
  receipt_version = 0;
  payment_reviewed_by_admin_id = none;
  payment_reviewed_at = none;
  processed_by_admin_id = none;
  confirmed_at = none;
  completed_at = none;
  cancelled_at = none;
  cancel_reason = none;
  admin_message_ids = [];
  source = source;
  items = items;
}

abbrev insert_order : (ℕ → Order) → Exec Order
insert_order row d = ok (row d.orders.next, record d { orders = insert row d.orders })

module _ (env : Gateway.Settings) (quote_digest : QuoteContent → Text)
    (request_digest : RequestContent → Text) where
  unfoldable pub checkout_request_fingerprint :
      CheckoutCommand → Option Text → Option Decimal → Text
  checkout_request_fingerprint c quote total = request_digest (request_content c quote total)

  -- The order is written, the stock is taken, and the cart is emptied.
  unfoldable pub place_order :
      ℕ
      → CheckoutCommand
      → Option ℕ
      → Text
      → Text
      → Text
      → Cart
      → InventoryPolicy
      → List Line
      → CheckoutQuote
      → ℕ
      → Exec CheckoutResult
  unfolding is_uzbek
  place_order user c key fingerprint source lang cart policy lines q total = do
    number ← next_order_number
    order ← insert_order (
        new_order number user c q total key fingerprint source policy
          (order_items (is_uzbek lang) lines))
    take_stock policy lines
    add_status_history order.id none OrderStatus.new none none
    clear cart
    enqueue_order_created_notifications order.id
    refreshed ← get_order_by_id order.id
    final ← or_raise refreshed runtime_error
    pure (record { order = final; created = true })

  -- The part of `submit_checkout` for a request that is no repetition.
  unfoldable pub checkout_new :
      ℕ
      → CheckoutCommand
      → Option ℕ
      → Option Text
      → Option Decimal
      → Text
      → Text
      → Text
      → Cart
      → Exec CheckoutResult
  checkout_new user c key quote total fingerprint source lang cart = do
    raise_if (is_empty cart.items) cart_empty
    policy ← get_inventory_policy
    lines ← lock_and_validate_products cart policy
    q ← gets (λ d. quote_checkout env quote_digest d user policy c.order_type c.payment_method)
    raise_if ((is_some quote || is_some total) && not (quote_is q quote total)) quote_changed
    n ← total_or_raise c q
    place_order user c key fingerprint source lang cart policy lines q n

  abbrev replayed : Text → Order → Exec CheckoutResult
  replayed fingerprint o d =
      if same_text o.checkout_fingerprint (some fingerprint)
      then ok (record { order = o; created = false }, d)
      else err idempotency_conflict

  abbrev find_replay : ℕ → Option ℕ → Exec (Option Order)
  find_replay user none = pure none
  find_replay user (some key) = get_by_checkout_key user key

  unfoldable pub checkout_locked :
      ℕ
      → CheckoutCommand
      → Option ℕ
      → Option Text
      → Option Decimal
      → Text
      → Text
      → Text
      → Cart
      → Option Order
      → Exec CheckoutResult
  checkout_locked user c key quote total fingerprint source lang cart (some o) =
      replayed fingerprint o
  checkout_locked user c key quote total fingerprint source lang cart none =
      checkout_new user c key quote total fingerprint source lang cart

  unfoldable pub submit_normalized :
      ℕ
      → CheckoutCommand
      → Option ℕ
      → Option Text
      → Option Decimal
      → Text
      → Text
      → Exec CheckoutResult
  submit_normalized user c key quote total source lang = do
    precheck c key quote total source
    let fingerprint = checkout_request_fingerprint c quote total
    cart ← lock_customer_cart user
    replay ← find_replay user key
    checkout_locked user c key quote total fingerprint source lang cart replay

  abbrev with_command :
      Result CheckoutCommand → (CheckoutCommand → Exec CheckoutResult) → Exec CheckoutResult
  with_command (ok c) f d = f c d
  with_command (err e) f d = err e

  unfoldable pub submit_checkout :
      ℕ
      → CheckoutCommand
      → Option ℕ
      → Option Text
      → Option Decimal
      → Text
      → Text
      → Exec CheckoutResult
  submit_checkout user command key quote total source lang =
      with_command (normalize_checkout_command command)
        (λ c. submit_normalized user c key quote total source lang)
