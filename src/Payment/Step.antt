-- ===== src/Payment/Step.antt =====
-- Payme's calls do to the database what a step allows (backend/app/services/payment_service.py).
use kans_shop.Prelude.{
  ℕ, ◌≡◌, refl, ◌&&◌, is_some, not, Option, none, some, Text, arith, find_by_holds, any, update,
  Option-cases, Bool-cases, inl, inr,
}
use kans_shop.Enums.{PaymentProvider, PaymentTxState}
use kans_shop.Models.{PaymeParams, Database, Order, PaymentTransaction}
use kans_shop.Exec.{ok, Result-cases, payme_rpc, order_not_found}
use kans_shop.Repositories.{tx_row, tx_key, is_provider_tx}
use kans_shop.Order.{mark_paid}
use kans_shop.Order.Status.{order_of}
use kans_shop.Payment.Kept.{done, Kept-cases}
use kans_shop.Payment.{Settings, is_other_paid}
use kans_shop.Payment.PaymeRequest.{
  PaymeResult, RpcResponse, payme_id, payme_get_order, payme_assert_order_payable,
  payme_assert_association, is_completed, PaymeMethod, method_named,
}
use kans_shop.Payment.Payme.{
  check_perform_transaction, create_transaction, create_new, create_again, perform_transaction,
  perform_open, cancel_transaction, cancel_locked, check_transaction, dispatch, payme_handle_rpc,
  verify_payme_auth, lock_associated, amount_is_wrong, is_cancelled_before, created_payload,
  performed_payload, cancelled_payload, handle_method, answer,
}
use kans_shop.Payment.Payme.Clean.{get_order_same, dispatch_clean}
use kans_shop.Payment.Payme.Outcome as Payme
use kans_shop.Payment.Payme.Outcome.{Associated, lock_inv}
use kans_shop.Payment.ClickStep.{TxStep, nothing, opened, closed, paid}

module _ (settings : Settings) (b64decode : Text → Option Text) where
  perform_open-TxStep :
      (now : ℕ) (p : PaymeParams) (t : PaymentTransaction) (o : Order) (d e : Database)
      (r : PaymeResult)
      → Payme.named_tx p d ≡ some t
      → order_of d t.order_id ≡ some o
      → t.order_id ≡ o.id
      → perform_open settings b64decode now p t o d ≡ done (r, e)
      → TxStep now d e
  unfolding perform_open payme_assert_order_payable
  perform_open-TxStep now p t o d e r found order same h =
      let q = is_provider_tx PaymentProvider.payme (payme_id p) in
      let kind : t.provider ≡ PaymentProvider.payme =
        ground (arith, find_by_holds q d.transactions.rows t found) in
      let u = record t {
        state = PaymentTxState.paid;
        raw_payload = performed_payload settings b64decode now p t;
      } in
      elim (Bool-cases (any (is_other_paid o.id PaymentProvider.payme t.id) d.transactions.rows)) [
        | inl other ↦ absurd (ground (arith, other, h))
        | inr only ↦
            elim (Result-cases
              (mark_paid now o (record d { transactions = update tx_key u d.transactions }))) [
                | inr (x, m) ↦ absurd (ground (arith, only, m, h))
                | inl (s, f, m) ↦
                    let same_end : e ≡ f = ground (arith, only, m, h) in
                    paid q o s t u found (refl, refl, refl) (ground (arith, order, same)) same
                      (ground (arith, kind, only)) (ground (arith, m, same_end))
              ]
      ]

  perform-TxStep :
      (header : Option Text) (now : ℕ) (p : PaymeParams) (d e : Database) (r : PaymeResult)
      → perform_transaction settings b64decode header now p d ≡ done (r, e)
      → TxStep now d e
  unfolding perform_transaction
  perform-TxStep header now p d e r h =
      elim (Kept-cases (lock_associated settings b64decode header p d)) [
        | inr (x, g, q) ↦ absurd (ground (arith, q, h))
        | inl (l, f, q) ↦
            let a = lock_inv settings b64decode header p d f l q in
            elim (Bool-cases (amount_is_wrong settings b64decode p l.1)) [
              | inl bad ↦ absurd (ground (arith, q, bad, h))
              | inr good ↦ elim (Bool-cases (is_completed (l.0).raw_payload.payme_state)) [
                | inl again ↦ nothing (ground (arith, q, good, again, h, a.same))
                | inr first ↦
                    perform_open-TxStep now p l.0 l.1 d e r a.found a.order a.same_order
                      (ground (arith, q, good, first, h, a.same))
              ]
            ]
      ]

  cancel-TxStep :
      (header : Option Text) (now : ℕ) (p : PaymeParams) (d e : Database) (r : PaymeResult)
      → cancel_transaction settings b64decode header now p d ≡ done (r, e)
      → TxStep now d e
  unfolding cancel_transaction cancel_locked
  cancel-TxStep header now p d e r h =
      elim (Kept-cases (lock_associated settings b64decode header p d)) [
        | inr (x, g, q) ↦ absurd (ground (arith, q, h))
        | inl (l, f, q) ↦
            let a = lock_inv settings b64decode header p d f l q in
            elim (Bool-cases (is_cancelled_before settings b64decode l.0)) [
              | inl again ↦ nothing (ground (arith, q, again, h, a.same))
              | inr first ↦
                  closed _ l.0
                    (record l.0 {
                      state = PaymentTxState.cancelled;
                      raw_payload = cancelled_payload settings b64decode now p l.0;
                    })
                    a.found refl refl (ground (arith, q, first, h, a.same))
            ]
      ]

  allow_same :
      (header : Option Text) (p : PaymeParams) (d e : Database) (r : PaymeResult)
      → check_perform_transaction settings b64decode header p d ≡ done (r, e)
      → e ≡ d
  unfolding check_perform_transaction payme_assert_order_payable
  allow_same header p d e r h = elim (Kept-cases (payme_get_order p d)) [
    | inr (x, g, q) ↦ absurd (ground (arith, q, h))
    | inl (o, f, q) ↦ ground (arith, q, h, get_order_same p d f o q)
  ]

  check_same :
      (header : Option Text) (p : PaymeParams) (d e : Database) (r : PaymeResult)
      → check_transaction settings b64decode header p d ≡ done (r, e)
      → e ≡ d
  unfolding check_transaction
  check_same header p d e r h = ground arith

  new_payme-TxStep :
      (header : Option Text) (now : ℕ) (p : PaymeParams) (d e : Database) (r : PaymeResult)
      → create_new settings b64decode header now p d ≡ done (r, e)
      → TxStep now d e
  unfolding create_new payme_assert_order_payable
  new_payme-TxStep header now p d e r h = elim (Kept-cases (payme_get_order p d)) [
    | inr (x, g, q) ↦ absurd (ground (arith, q, h))
    | inl (u, f, q) ↦
        let same = get_order_same p d f u q in
        elim (Option-cases (order_of f u.id)) [
          | inl gone ↦ absurd (ground (arith, q, gone, h))
          | inr (o, c) ↦
              opened
                (tx_row o.id PaymentProvider.payme o.total (payme_id p) PaymentTxState.pending
                  (created_payload settings b64decode p o) now)
                (λ k. (refl, refl)) (ground (arith, q, c, h, same))
        ]
  ]

  again-TxStep :
      (header : Option Text) (now : ℕ) (p : PaymeParams) (t : PaymentTransaction) (d e : Database)
      (r : PaymeResult)
      → create_again settings b64decode header p t d ≡ done (r, e)
      → TxStep now d e
  unfolding create_again payme_assert_association
  again-TxStep header now p t d e r h = nothing (ground arith)

  create-TxStep :
      (header : Option Text) (now : ℕ) (p : PaymeParams) (d e : Database) (r : PaymeResult)
      → create_transaction settings b64decode header now p d ≡ done (r, e)
      → TxStep now d e
  unfolding create_transaction
  create-TxStep header now p d e r h = elim (Option-cases (Payme.named_tx p d)) [
    | inl q ↦ new_payme-TxStep header now p d e r (ground (arith, q, h))
    | inr (t, q) ↦ again-TxStep header now p t d e r (ground (arith, q, h))
  ]

  dispatch-TxStep :
      (m : PaymeMethod) (header : Option Text) (now : ℕ) (p : PaymeParams) (d e : Database)
      (r : PaymeResult)
      → dispatch settings b64decode m header now p d ≡ done (r, e)
      → TxStep now d e
  unfolding dispatch
  dispatch-TxStep PaymeMethod.check_perform header now p d e r h =
      nothing (allow_same header p d e r h)
  dispatch-TxStep PaymeMethod.create header now p d e r h = create-TxStep header now p d e r h
  dispatch-TxStep PaymeMethod.perform header now p d e r h = perform-TxStep header now p d e r h
  dispatch-TxStep PaymeMethod.cancel header now p d e r h = cancel-TxStep header now p d e r h
  dispatch-TxStep PaymeMethod.check header now p d e r h = nothing (check_same header p d e r h)

  answer-TxStep :
      (now : ℕ) (m : PaymeMethod) (header : Option Text) (p : PaymeParams) (d e : Database)
      (r : RpcResponse)
      → answer settings b64decode (dispatch settings b64decode m header now p d) ≡ ok (r, e)
      → TxStep now d e
  answer-TxStep now m header p d e r h =
      elim (Kept-cases (dispatch settings b64decode m header now p d)) [
        | inl (x, f, q) ↦ dispatch-TxStep m header now p d e x (ground (arith, q, h))
        | inr (payme_rpc x, g, q) ↦ nothing (
            ground (
              arith,
              q,
              h,
              dispatch_clean settings b64decode header p now m d g (payme_rpc x) q refl,
            ))
        | inr (order_not_found k, g, q) ↦ nothing (
            ground (
              arith,
              q,
              h,
              dispatch_clean settings b64decode header p now m d g (order_not_found k) q refl,
            ))
        | inr (x, g, q) ↦ absurd (ground (arith, q, h))
      ]

  handle-TxStep :
      (header : Option Text) (now : ℕ) (m : Option PaymeMethod) (p : PaymeParams) (d e : Database)
      (r : RpcResponse)
      → handle_method settings b64decode m header now p d ≡ ok (r, e)
      → TxStep now d e
  handle-TxStep header now none p d e r h = nothing (ground (arith, h))
  handle-TxStep header now (some m) p d e r h =
      elim (Bool-cases (is_some header && not (verify_payme_auth settings b64decode header))) [
        | inl forged ↦ nothing (ground (arith, forged, h))
        | inr well ↦ answer-TxStep now m header p d e r (ground (arith, well, h))
      ]

  pub rpc-TxStep :
      (header : Option Text) (now : ℕ) (method : Option Text) (p : PaymeParams) (d e : Database)
      (r : RpcResponse)
      → payme_handle_rpc settings b64decode header now method p d ≡ ok (r, e)
      → TxStep now d e
  unfolding payme_handle_rpc
  rpc-TxStep header now none p d e r h = handle-TxStep header now none p d e r h
  rpc-TxStep header now (some m) p d e r h = handle-TxStep header now (method_named m) p d e r h
