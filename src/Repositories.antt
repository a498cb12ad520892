-- ===== src/Repositories.antt =====
-- backend/app/db/repositories: the queries and the row updates that the services make. A row lock
-- (`with_for_update`) reads the row: a transaction is one step of the model.
pub mod Visible
use kans_shop.Prelude.{
  ℕ, zero, suc, ◌+◌, ◌-◌, ◌*◌, Bool, true, false, ◌&&◌, Option, none, some, List, [], ◌∷◌, ◌++◌,
  Text, show, codes, length, find, find_by, replace, insert, update, ◌==◌, is_number, text_eq,
  select, ltb, if◌then◌else◌,
}
use kans_shop.Prelude.Int.{ℤ, pos, ◌+ℤ◌}
use kans_shop.Enums.{OrderStatus, PaymentProvider, PaymentTxState, provider_eq, tx_state_eq}
use kans_shop.Models.{
  Database, User, Admin, Product, Cart, CartItem, CartMutation, Order, OrderStatusHistory,
  PaymentTransaction, RawPayload, SettingKey, Value,
}
use kans_shop.Exec.{Exec, ok, gets, modify}
use Visible.{public_category_ids, mem_id}

-- order_repository
abbrev pub order_key : Order → ℕ
order_key o = o.id

abbrev pub get_order_by_id : ℕ → Exec (Option Order)
get_order_by_id k = gets (λ d. find order_key k d.orders.rows)

abbrev pub save_order : Order → Exec (Unit {0})
save_order o = modify (λ d. record d { orders = update order_key o d.orders })

abbrev pub has_checkout_key : ℕ → ℕ → Order → Bool
has_checkout_key user key o = o.user_id == user && is_number key o.checkout_key

abbrev pub get_by_checkout_key : ℕ → ℕ → Exec (Option Order)
get_by_checkout_key user key = gets (λ d. find_by (has_checkout_key user key) d.orders.rows)

abbrev pub get_by_number : Text → Exec (Option Order)
get_by_number number = gets (λ d. find_by (λ o. text_eq o.order_number number) d.orders.rows)

-- `f"{n:06d}"`
zeros : ℕ → Text
zeros zero = []
zeros (suc n) = b'0' ∷ zeros n

abbrev pad : ℕ → Text → Text
pad width s = zeros (width - length s) ++ s

unfoldable pub order_number_of : ℕ → Text
unfolding zeros
order_number_of n = codes "KANS-" ++ pad 6 (show n)

abbrev pub next_order_number : Exec Text
next_order_number d = ok (order_number_of d.order_seq, record d { order_seq = suc d.order_seq })

abbrev pub history_row :
    ℕ → Option OrderStatus → OrderStatus → Option ℕ → Option Text → ℕ → OrderStatusHistory
history_row order from_ to_ admin text k = record {
  id = k;
  order_id = order;
  from_status = from_;
  to_status = to_;
  changed_by_admin_id = admin;
  comment = text;
}

abbrev pub add_status_history :
    ℕ → Option OrderStatus → OrderStatus → Option ℕ → Option Text → Exec OrderStatusHistory
add_status_history order from_ to_ admin text d = ok (
  history_row order from_ to_ admin text d.status_history.next,
  record d { status_history = insert (history_row order from_ to_ admin text) d.status_history },
)

-- product_repository
abbrev pub product_key : Product → ℕ
product_key p = p.id

abbrev pub get_product_by_id : ℕ → Exec (Option Product)
get_product_by_id k = gets (λ d. find product_key k d.products.rows)

abbrev pub save_product : Product → Exec (Unit {0})
save_product p = modify (λ d. record d { products = update product_key p d.products })

abbrev pub is_public : Database → Product → Bool
is_public d p = p.is_active && mem_id p.category_id (public_category_ids d.categories.rows)

abbrev only_public : Database → Option Product → Option Product
only_public d none = none
only_public d (some p) = if is_public d p then some p else none

unfoldable pub public_product : Database → ℕ → Option Product
public_product d k = only_public d (find product_key k d.products.rows)

abbrev pub get_public_by_id : ℕ → Exec (Option Product)
get_public_by_id k = gets (λ d. public_product d k)

abbrev pub is_zero : ℤ → Bool
is_zero (pos zero) = true
is_zero _ = false

abbrev pub adjusted : ℤ → Product → Product
adjusted delta p =
    if is_zero delta
    then p
    else record p { stock_qty = p.stock_qty +ℤ delta; edit_version = p.edit_version + 1 }

abbrev pub sold : ℤ → Product → Product
sold quantity p = record p { sold_count = p.sold_count +ℤ quantity }

-- cart_repository
abbrev pub cart_key : Cart → ℕ
cart_key c = c.id

abbrev pub item_key : CartItem → ℕ
item_key i = i.product_id

abbrev pub is_active_of : ℕ → Cart → Bool
is_active_of user c = c.user_id == user && c.is_active

abbrev pub get_active_cart : ℕ → Exec (Option Cart)
get_active_cart user = gets (λ d. find_by (is_active_of user) d.carts.rows)

abbrev pub save_cart : Cart → Exec (Unit {0})
save_cart c = modify (λ d. record d { carts = update cart_key c d.carts })

-- The delete of the row of one product.
unfoldable pub remove : ℕ → List CartItem → List CartItem
remove k [] = []
remove k (i ∷ is) = let rest = remove k is in if i.product_id == k then is else i ∷ rest

-- cart_mutation_repository
abbrev pub is_mutation : ℕ → ℕ → CartMutation → Bool
is_mutation user key m = m.user_id == user && m.mutation_key == key

abbrev pub get_by_user_and_key : ℕ → ℕ → Exec (Option CartMutation)
get_by_user_and_key user key = gets (λ d. find_by (is_mutation user key) d.cart_mutations.rows)

abbrev pub mutation_row : ℕ → ℕ → Text → ℕ → CartMutation
mutation_row user key fingerprint k = record {
  id = k;
  user_id = user;
  mutation_key = key;
  request_fingerprint = fingerprint;
}

abbrev pub create_mutation : ℕ → ℕ → Text → Exec (Unit {0})
create_mutation user key fingerprint =
    modify (λ d. record d {
      cart_mutations = insert (mutation_row user key fingerprint) d.cart_mutations;
    })

-- payment_repository
abbrev pub tx_key : PaymentTransaction → ℕ
tx_key t = t.id

abbrev pub is_provider_tx : PaymentProvider → Text → PaymentTransaction → Bool
is_provider_tx provider id t =
    provider_eq t.provider provider && text_eq t.provider_transaction_id id

abbrev pub get_by_provider_tx_id : PaymentProvider → Text → Exec (Option PaymentTransaction)
get_by_provider_tx_id provider id =
    gets (λ d. find_by (is_provider_tx provider id) d.transactions.rows)

-- `order_by(id.desc())` and the first row
newer : PaymentTransaction → Option PaymentTransaction → Option PaymentTransaction
newer t none = some t
newer t (some u) = if ltb u.id t.id then some t else some u

unfoldable pub latest : List PaymentTransaction → Option PaymentTransaction
unfolding newer
latest [] = none
latest (t ∷ ts) = newer t (latest ts)

abbrev pub is_order_provider : ℕ → PaymentProvider → PaymentTransaction → Bool
is_order_provider order provider t = t.order_id == order && provider_eq t.provider provider

abbrev pub get_by_order_and_provider : ℕ → PaymentProvider → Exec (Option PaymentTransaction)
get_by_order_and_provider order provider =
    gets (λ d. latest (select (is_order_provider order provider) d.transactions.rows))

-- The latest paid transaction of an order.
abbrev pub is_paid_of : ℕ → PaymentTransaction → Bool
is_paid_of order t = t.order_id == order && tx_state_eq t.state PaymentTxState.paid

abbrev pub get_paid_of_order : ℕ → Exec (Option PaymentTransaction)
get_paid_of_order order = gets (λ d. latest (select (is_paid_of order) d.transactions.rows))

abbrev pub tx_row :
    ℕ → PaymentProvider → ℕ → Text → PaymentTxState → RawPayload → ℕ → ℕ → PaymentTransaction
tx_row order provider amount id state payload now k = record {
  id = k;
  order_id = order;
  provider = provider;
  provider_transaction_id = id;
  state = state;
  amount = amount;
  raw_payload = payload;
  created_at = now;
}

abbrev pub create_tx :
    ℕ → PaymentProvider → ℕ → Text → PaymentTxState → RawPayload → ℕ → Exec PaymentTransaction
create_tx order provider amount id state payload now d =
    let row = tx_row order provider amount id state payload now in
    ok (row d.transactions.next, record d { transactions = insert row d.transactions })

abbrev pub update_state : PaymentTransaction → PaymentTxState → RawPayload → Exec (Unit {0})
update_state t state payload = modify (λ d. record d {
  transactions = update tx_key (record t { state = state; raw_payload = payload }) d.transactions;
})

-- user_repository, and the administrators
abbrev pub user_key : User → ℕ
user_key u = u.id

abbrev pub admin_key : Admin → ℕ
admin_key a = a.id

abbrev pub get_user_by_id : ℕ → Exec (Option User)
get_user_by_id k = gets (λ d. find user_key k d.users.rows)

-- setting_repository
abbrev pub get_setting : SettingKey → Exec (Option Value)
get_setting key = gets (λ d. d.settings key)
