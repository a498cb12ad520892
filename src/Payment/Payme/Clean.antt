-- ===== src/Payment/Payme/Clean.antt =====
-- What the database is where a Payme handler of backend/app/services/payment_service.py has raised
-- an exception that `payme_handle_rpc` catches.
use kans_shop.Prelude.{
  ℕ, ◌≡◌, Bool, true, false, Option, some, Text, arith, any, update, Option-cases, Bool-cases, inl,
  inr,
}
use kans_shop.Prelude.Int.{pos, negsuc}
use kans_shop.Enums.{PaymentProvider, PaymentTxState}
use kans_shop.Models.{PaymeParams, Database, Order, PaymentTransaction}
use kans_shop.Exec.{Error, payme_rpc, order_not_found, Result-cases}
use kans_shop.Repositories.{tx_key}
use kans_shop.Order.{mark_paid}
use kans_shop.Order.Status.{order_of}
use kans_shop.Order.Failure.{mark_paid-RaisesKey}
use kans_shop.Payment.{Settings, is_other_paid}
use kans_shop.Payment.Kept.{done, failed, Kept-cases}
use kans_shop.Payment.PaymeRequest.{
  present, requested, payme_get_order, payme_assert_order_payable, payme_assert_association,
  is_completed, PaymeMethod,
}
use kans_shop.Payment.Payme.{
  check_perform_transaction, create_transaction, create_new, create_again, perform_transaction,
  perform_open, performed_payload, cancel_transaction, cancel_locked, check_transaction, dispatch,
  lock_associated, amount_is_wrong, is_cancelled_before,
}
use kans_shop.Payment.Payme.Outcome.{named_tx, lock_inv}

-- `except PaymeRpcError` and `except OrderNotFoundError`
abbrev pub is_caught : Error → Bool
is_caught (payme_rpc x) = true
is_caught (order_not_found k) = true
is_caught _ = false

pub get_order_same :
    (p : PaymeParams) (d e : Database) (o : Order) → payme_get_order p d ≡ done (o, e) → e ≡ d
unfolding payme_get_order
get_order_same p d e o h = elim (Option-cases (requested (present p.order_id))) [
  | inl q ↦ ground (arith, q, h)
  | inr (pos k, q) ↦ ground (arith, q, h)
  | inr (negsuc k, q) ↦ ground (arith, q, h)
]

get_order_clean :
    (p : PaymeParams) (d e : Database) (x : Error) → payme_get_order p d ≡ failed x e → e ≡ d
unfolding payme_get_order
get_order_clean p d e x h = elim (Option-cases (requested (present p.order_id))) [
  | inl q ↦ ground (arith, q, h)
  | inr (pos k, q) ↦ ground (arith, q, h)
  | inr (negsuc k, q) ↦ ground (arith, q, h)
]

module _ (settings : Settings) (b64decode : Text → Option Text) (header : Option Text)
    (p : PaymeParams) where
  lock_clean :
      (d e : Database) (x : Error)
      → lock_associated settings b64decode header p d ≡ failed x e
      → e ≡ d
  unfolding lock_associated payme_assert_association
  lock_clean d e x h = elim (Option-cases (named_tx p d)) [
    | inl unknown ↦ ground arith
    | inr (t, ft) ↦ elim (Option-cases (order_of d t.order_id)) [
      | inl gone ↦ ground arith
      | inr (o, fo) ↦ ground arith
    ]
  ]

  allow_clean :
      (d e : Database) (x : Error)
      → check_perform_transaction settings b64decode header p d ≡ failed x e
      → e ≡ d
  unfolding check_perform_transaction payme_assert_order_payable
  allow_clean d e x h = elim (Kept-cases (payme_get_order p d)) [
    | inr (y, g, q) ↦ ground (arith, q, h, get_order_clean p d g y q)
    | inl (o, f, q) ↦ ground (arith, q, h, get_order_same p d f o q)
  ]

  new_clean :
      (now : ℕ) (d e : Database) (x : Error)
      → create_new settings b64decode header now p d ≡ failed x e
      → e ≡ d
  unfolding create_new payme_assert_order_payable
  new_clean now d e x h = elim (Kept-cases (payme_get_order p d)) [
    | inr (y, g, q) ↦ ground (arith, q, h, get_order_clean p d g y q)
    | inl (u, f, q) ↦
        let same = get_order_same p d f u q in
        elim (Option-cases (order_of f u.id)) [
          | inl gone ↦ ground (arith, q, gone, h, same)
          | inr (o, found) ↦ ground (arith, q, found, h, same)
        ]
  ]

  again_clean :
      (t : PaymentTransaction) (d e : Database) (x : Error)
      → create_again settings b64decode header p t d ≡ failed x e
      → e ≡ d
  unfolding create_again payme_assert_association
  again_clean t d e x h = elim (Option-cases (order_of d t.order_id)) [
    | inl gone ↦ ground (arith, gone, h)
    | inr (o, found) ↦ elim (Option-cases (named_tx p d)) [
      | inl unknown ↦ ground (arith, found, unknown, h)
      | inr (u, named) ↦ ground (arith, found, named, h)
    ]
  ]

  -- Between the write of the transaction and the answer, the settlement finds the order again.
  open_clean :
      (now : ℕ) (t : PaymentTransaction) (o : Order) (d e : Database) (x : Error)
      → order_of d o.id ≡ some o
      → perform_open settings b64decode now p t o d ≡ failed x e
      → is_caught x ≡ true
      → e ≡ d
  unfolding perform_open payme_assert_order_payable
  open_clean now t o d e x order h caught =
      let u = record t {
        state = PaymentTxState.paid;
        raw_payload = performed_payload settings b64decode now p t;
      } in
      let saved = record d { transactions = update tx_key u d.transactions } in
      elim (Bool-cases (any (is_other_paid o.id PaymentProvider.payme t.id) d.transactions.rows)) [
        | inl other ↦ ground (arith, other, h)
        | inr only ↦ elim (Result-cases (mark_paid now o saved)) [
          | inl (s, f, m) ↦ ground (arith, only, m, h)
          | inr (y, m) ↦
              ground (arith, only, m, h, caught, mark_paid-RaisesKey now o saved y order m)
        ]
      ]

  perform_clean :
      (now : ℕ) (d e : Database) (x : Error)
      → perform_transaction settings b64decode header now p d ≡ failed x e
      → is_caught x ≡ true
      → e ≡ d
  unfolding perform_transaction
  perform_clean now d e x h caught =
      elim (Kept-cases (lock_associated settings b64decode header p d)) [
        | inr (y, g, q) ↦ ground (arith, q, h, lock_clean d g y q)
        | inl (l, f, q) ↦
            let a = lock_inv settings b64decode header p d f l q in
            elim (Bool-cases (amount_is_wrong settings b64decode p l.1)) [
              | inl bad ↦ ground (arith, q, bad, h, a.same)
              | inr good ↦ elim (Bool-cases (is_completed (l.0).raw_payload.payme_state)) [
                | inl again ↦ ground (arith, q, good, again, h, a.same)
                | inr first ↦
                    open_clean now l.0 l.1 d e x (ground (arith, a.order, a.same_order))
                      (ground (arith, q, good, first, h, a.same)) caught
              ]
            ]
      ]

  cancel_clean :
      (now : ℕ) (d e : Database) (x : Error)
      → cancel_transaction settings b64decode header now p d ≡ failed x e
      → e ≡ d
  unfolding cancel_transaction cancel_locked
  cancel_clean now d e x h = elim (Kept-cases (lock_associated settings b64decode header p d)) [
    | inr (y, g, q) ↦ ground (arith, q, h, lock_clean d g y q)
    | inl (l, f, q) ↦ elim (Bool-cases (is_cancelled_before settings b64decode l.0)) [
      | inl again ↦ absurd (ground (arith, q, again, h))
      | inr first ↦ absurd (ground (arith, q, first, h))
    ]
  ]

  check_clean :
      (d e : Database) (x : Error)
      → check_transaction settings b64decode header p d ≡ failed x e
      → e ≡ d
  unfolding check_transaction
  check_clean d e x h = ground arith

  create_clean :
      (now : ℕ) (d e : Database) (x : Error)
      → create_transaction settings b64decode header now p d ≡ failed x e
      → e ≡ d
  unfolding create_transaction
  create_clean now d e x h = elim (Option-cases (named_tx p d)) [
    | inl free ↦ new_clean now d e x (ground (arith, free, h))
    | inr (t, named) ↦ again_clean t d e x (ground (arith, named, h))
  ]

  -- An exception that is caught stands before every write of the handler.
  pub dispatch_clean :
      (now : ℕ) (m : PaymeMethod) (d e : Database) (x : Error)
      → dispatch settings b64decode m header now p d ≡ failed x e
      → is_caught x ≡ true
      → e ≡ d
  unfolding dispatch
  dispatch_clean now PaymeMethod.check_perform d e x h caught = allow_clean d e x h
  dispatch_clean now PaymeMethod.create d e x h caught = create_clean now d e x h
  dispatch_clean now PaymeMethod.perform d e x h caught = perform_clean now d e x h caught
  dispatch_clean now PaymeMethod.cancel d e x h caught = cancel_clean now d e x h
  dispatch_clean now PaymeMethod.check d e x h caught = check_clean d e x h
