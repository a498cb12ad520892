-- ===== src/Payment/Payme/Create.antt =====
-- `_payme_create_transaction` of backend/app/services/payment_service.py: a create that is sent again.
use kans_shop.Prelude.{
  ℕ, ◌≡◌, sym, true, Option, none, some, Text, arith, find_by-append_none, text_eq_refl, insert,
  Option-cases, inl, inr, ==_iff, find_key,
}
use mathlib.Core.Path.{subst}
use kans_shop.Prelude.Int.{ℤ, pos, negsuc}
use kans_shop.Values.{int_of}
use kans_shop.Enums.{PaymentProvider, PaymentTxState}
use kans_shop.Models.{PaymeParams, Database, Order, PaymentTransaction, Value}
use kans_shop.Repositories.{tx_row, is_provider_tx, order_key}
use kans_shop.Order.Status.{order_of}
use kans_shop.Payment.Kept.{done, Kept-cases}
use kans_shop.Payment.{Settings}
use kans_shop.Payment.PaymeRequest.{
  PaymeResult, create_result, payme_get_order, payme_assert_order_payable, payme_assert_association,
  payme_id, same_request, payme_amount_matches, names_order, is_payme, present,
}
use kans_shop.Payment.Payme.{
  create_transaction, create_new, create_again, created_payload, verify_payme_auth,
}
use kans_shop.Payment.Payme.Outcome.{named_tx}

get_order_inv :
    (p : PaymeParams) (d f : Database) (u : Order)
    → payme_get_order p d ≡ done (u, f)
    → (names_order u.id (present p.order_id) ≡ true) × (order_of d u.id ≡ some u) × (f ≡ d)
unfolding payme_get_order
get_order_inv p d f u h = elim (Option-cases (present p.order_id)) [
  | inl absent ↦ absurd (ground (arith, absent, h))
  | inr (v, given) ↦ elim (Option-cases (int_of v)) [
    | inl bad ↦ absurd (ground (arith, given, bad, h))
    | inr (z, q) ↦ by_number z v given q
  ]
]
  where
    by_number :
        (z : ℤ) (v : Value)
        → present p.order_id ≡ some v
        → int_of v ≡ some z
        → (names_order u.id (present p.order_id) ≡ true) × (order_of d u.id ≡ some u) × (f ≡ d)
    by_number (negsuc n) v given q = absurd (ground (arith, given, q, h))
    by_number (pos n) v given q = elim (Option-cases (order_of d n)) [
      | inl gone ↦ absurd (ground (arith, given, q, gone, h))
      | inr (o, found) ↦
          let same : o.id ≡ n = find_key order_key n d.orders.rows o found in
          let own : u ≡ o = ground (arith, given, q, found, h) in
          (
            ground (arith, given, q, own, same, ==_iff n o.id),
            ground (arith, own, same, found),
            ground (arith, given, q, found, h),
          )
    ]

module _ (settings : Settings) (b64decode : Text → Option Text) (header : Option Text)
    (p : PaymeParams) where
  abbrev row_of : ℕ → Order → ℕ → PaymentTransaction
  row_of now o =
      tx_row o.id PaymentProvider.payme o.total (payme_id p) PaymentTxState.pending
        (created_payload settings b64decode p o) now

  abbrev with_row : ℕ → Order → Database → Database
  with_row now o d = record d { transactions = insert (row_of now o) d.transactions }

  -- What a new transaction has been checked for.
  record Opened (now : ℕ) (d e : Database) (r : PaymeResult) : Type 0 where
    order : Order
    found : order_of d order.id ≡ some order
    names : names_order order.id (present p.order_id) ≡ true
    signed : verify_payme_auth settings b64decode header ≡ true
    amount : payme_amount_matches p.amount order ≡ true
    method : is_payme order.payment_method ≡ true
    written : e ≡ with_row now order d
    reply : r ≡ create_result (row_of now order d.transactions.next)

  new_inv :
      (now : ℕ) (d e : Database) (r : PaymeResult)
      → create_new settings b64decode header now p d ≡ done (r, e)
      → Opened now d e r
  unfolding create_new payme_assert_order_payable
  new_inv now d e r h = elim (Kept-cases (payme_get_order p d)) [
    | inr (x, g, q) ↦ absurd (ground (arith, q, h))
    | inl (u, f, q) ↦
        let (names, found, same) = get_order_inv p d f u q in
        record {
          order = u;
          found = found;
          names = names;
          signed = ground (arith, q, found, same, h);
          amount = ground (arith, q, found, same, h);
          method = ground (arith, q, found, same, h);
          written = ground (arith, q, found, same, h);
          reply = ground (arith, q, found, same, h);
        }
  ]

  find_new :
      (now : ℕ) (d : Database) (o : Order)
      → named_tx p d ≡ none
      → named_tx p (with_row now o d) ≡ some (row_of now o d.transactions.next)
  find_new now d o free = ground (
    arith,
    text_eq_refl (payme_id p),
    find_by-append_none (is_provider_tx PaymentProvider.payme (payme_id p)) d.transactions.rows
        (row_of now o d.transactions.next) free,
  )

  row_again :
      (now : ℕ) (d e : Database) (r : PaymeResult)
      → named_tx p d ≡ none
      → same_request p p ≡ true
      → (c : Opened now d e r)
      → create_again settings b64decode header p
          (row_of now c.order d.transactions.next)
          (with_row now c.order d)
        ≡ done (create_result (row_of now c.order d.transactions.next), with_row now c.order d)
  unfolding create_again payme_assert_association
  row_again now d e r free same c = ground (
    arith,
    find_new now d c.order free,
    c.signed,
    c.found,
    c.names,
    c.amount,
    c.method,
    same,
    ==_iff c.order.id c.order.id,
    ==_iff c.order.total c.order.total,
    ==_iff d.transactions.next d.transactions.next,
  )

  again_same :
      (t : PaymentTransaction) (d e : Database) (r : PaymeResult)
      → create_again settings b64decode header p t d ≡ done (r, e)
      → e ≡ d
  unfolding create_again payme_assert_association
  again_same t d e r h = elim (Option-cases (order_of d t.order_id)) [
    | inl gone ↦ absurd (ground (arith, gone, h))
    | inr (o, found) ↦ elim (Option-cases (named_tx p d)) [
      | inl unknown ↦ absurd (ground (arith, found, unknown, h))
      | inr (u, named) ↦ ground (arith, found, named, h)
    ]
  ]

  -- If the request equals itself, a create call of Payme that has succeeded gets the same answer
  -- when it is sent again at any time to the database that it left, and changes nothing.
  pub create_twice :
      (now later : ℕ) (d e : Database) (r : PaymeResult)
      → same_request p p ≡ true
      → create_transaction settings b64decode header now p d ≡ done (r, e)
      → create_transaction settings b64decode header later p e ≡ done (r, e)
  unfolding create_transaction
  create_twice now later d e r same_p h = elim (Option-cases (named_tx p d)) [
    | inr (t, named) ↦
        let again : create_again settings b64decode header p t d ≡ done (r, e) =
          ground (arith, named, h) in
        let same = again_same t d e r again in
        subst (λ x. create_transaction settings b64decode header later p x ≡ done (r, x)) (sym same)
          (ground (arith, named, again, same))
    | inl free ↦
        let c = new_inv now d e r (ground (arith, free, h)) in
        let found = find_new now d c.order free in
        let again = row_again now d e r free same_p c in
        subst (λ x. create_transaction settings b64decode header later p x ≡ done (r, x))
          (sym c.written) (ground (arith, found, again, c.reply))
  ]
