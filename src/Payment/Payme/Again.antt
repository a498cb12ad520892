-- ===== src/Payment/Payme/Again.antt =====
-- A call of Payme that is sent again (backend/app/services/payment_service.py,
-- `_payme_perform_transaction`).
use kans_shop.Prelude.{
  ℕ, ◌≡◌, refl, ap, sym, ◌∙◌, true, false, Option, some, Text, arith, any, update, Option-cases,
  Bool-cases, inl, inr, IsUnique, find-of-find_by, find_by-replace, find_by_holds,
}
use kans_shop.Enums.{PaymentProvider, PaymentTxState}
use kans_shop.Models.{PaymeParams, Database, Order, PaymentTransaction}
use kans_shop.Exec.{ok, Result-cases}
use kans_shop.Repositories.{tx_key, is_provider_tx}
use kans_shop.Order.{mark_paid}
use kans_shop.Order.Status.{order_of}
use kans_shop.Order.Growth.{Grown}
use kans_shop.Order.Life.{mark_paid_inv}
use kans_shop.Payment.Kept.{done, Kept-cases}
use kans_shop.Payment.{Settings, is_other_paid}
use kans_shop.Payment.PaymeRequest.{
  PaymeResult, millis, performed, payme_assert_association, payme_assert_order_payable, payme_id,
  is_completed, same_request, payme_amount_matches,
}
use kans_shop.Payment.Payme.{
  lock_associated, perform_transaction, perform_open, performed_payload, amount_is_wrong,
}
use kans_shop.Payment.Payme.Outcome.{named_tx, Associated, lock_inv}

module _ (settings : Settings) (b64decode : Text → Option Text) (header : Option Text)
    (p : PaymeParams) where
  -- The checks of a transaction and its order pass again over rows that have gone on.
  pub lock_again :
      (d e f : Database) (t u : PaymentTransaction) (o s : Order)
      → lock_associated settings b64decode header p d ≡ done ((t, o), f)
      → named_tx p e ≡ some u
      → order_of e u.order_id ≡ some s
      → (u.id ≡ t.id)
        × (u.order_id ≡ t.order_id)
        × (u.provider ≡ t.provider)
        × (u.amount ≡ t.amount)
      → u.raw_payload.payme_order_id ≡ t.raw_payload.payme_order_id
      → Grown o s
      → lock_associated settings b64decode header p e ≡ done ((u, s), e)
  unfolding lock_associated payme_assert_association
  lock_again d e f t u o s h found order (same_id, same_order, same_provider, same_amount)
        same_stored g =
      elim (Option-cases (named_tx p d)) [
        | inl unknown ↦ absurd (ground (arith, unknown, h))
        | inr (t0, ft) ↦ elim (Option-cases (order_of d t0.order_id)) [
          | inl gone ↦ absurd (ground (arith, ft, gone, h))
          | inr (o0, fo) ↦ ground (
            arith, h, ft, fo, found, order, same_id, same_order, same_provider, same_amount,
            same_stored, g.same_id, g.same_total, g.same_method,
          )
        ]
      ]

  same_amount_lem :
      (o s : Order)
      → s.total ≡ o.total
      → amount_is_wrong settings b64decode p o ≡ false
      → amount_is_wrong settings b64decode p s ≡ false
  unfolding payme_amount_matches
  same_amount_lem o s same h = ground (arith, same, h)

  abbrev paid_as : ℕ → PaymentTransaction → PaymentTransaction
  paid_as now t = record t {
    state = PaymentTxState.paid;
    raw_payload = performed_payload settings b64decode now p t;
  }

  abbrev paid_with : ℕ → PaymentTransaction → Database → Database
  paid_with now t d = record d { transactions = update tx_key (paid_as now t) d.transactions }

  again_lem :
      (now later : ℕ) (e : Database) (t : PaymentTransaction) (s : Order)
      → lock_associated settings b64decode header p e ≡ done ((paid_as now t, s), e)
      → amount_is_wrong settings b64decode p s ≡ false
      → same_request p p ≡ true
      → perform_transaction settings b64decode header later p e
        ≡ done (performed t.id (millis now), e)
  unfolding perform_transaction
  again_lem now later e t s lock amount same = ground (arith, lock, amount, same)

  open_inv :
      (now : ℕ) (t : PaymentTransaction) (o : Order) (d e : Database) (r : PaymeResult)
      → perform_open settings b64decode now p t o d ≡ done (r, e)
      → (r ≡ performed t.id (millis now))
        × ((s : Order) × (mark_paid now o (paid_with now t d) ≡ ok (s, e)))
  unfolding perform_open payme_assert_order_payable
  open_inv now t o d e r h =
      elim (Bool-cases (any (is_other_paid o.id PaymentProvider.payme t.id) d.transactions.rows)) [
        | inl other ↦ absurd (ground (arith, other, h))
        | inr only ↦ elim (Result-cases (mark_paid now o (paid_with now t d))) [
          | inr (x, m) ↦ absurd (ground (arith, only, m, h))
          | inl (s, f, m) ↦ (ground (arith, only, m, h), (s, ground (arith, only, m, h)))
        ]
      ]

  -- If the ids of the transactions differ, the request equals itself, and the transaction that it
  -- names is not completed, then a perform call that has succeeded gets the same answer when it is
  -- sent again at any time to the database that it left, and changes nothing.
  pub perform_twice :
      (now later : ℕ) (d e : Database) (t : PaymentTransaction) (r : PaymeResult)
      → IsUnique tx_key d.transactions.rows
      → same_request p p ≡ true
      → named_tx p d ≡ some t
      → is_completed t.raw_payload.payme_state ≡ false
      → perform_transaction settings b64decode header now p d ≡ done (r, e)
      → perform_transaction settings b64decode header later p e ≡ done (r, e)
  unfolding perform_transaction
  perform_twice now later d e t r unique same_p named first h =
      elim (Kept-cases (lock_associated settings b64decode header p d)) [
        | inr (x, g, q) ↦ absurd (ground (arith, q, h))
        | inl (l, f, q) ↦
            let a = lock_inv settings b64decode header p d f l q in
            let same : l.0 ≡ t = ground (arith, a.found, named) in
            elim (Bool-cases (amount_is_wrong settings b64decode p l.1)) [
              | inl bad ↦ absurd (ground (arith, q, bad, h))
              | inr good ↦
                  repeat l.0 l.1 f q a good (ground (arith, q, good, same, first, a.same, h))
            ]
      ]
    where
      repeat :
          (u : PaymentTransaction) (o : Order) (f : Database)
          → lock_associated settings b64decode header p d ≡ done ((u, o), f)
          → Associated settings b64decode header p d f u o
          → amount_is_wrong settings b64decode p o ≡ false
          → perform_open settings b64decode now p u o d ≡ done (r, e)
          → perform_transaction settings b64decode header later p e ≡ done (r, e)
      repeat u o f q a good opened =
          let (result, (s, m)) = open_inv now u o d e r opened in
          let w = is_provider_tx PaymentProvider.payme (payme_id p) in
          let row = paid_as now u in
          let marked =
            mark_paid_inv now o s (paid_with now u d) e (ground (arith, a.order, a.same_order)) m in
          let at = find-of-find_by tx_key w d.transactions.rows u unique a.found in
          let found : named_tx p e ≡ some row = ground (
            arith,
            marked.same_transactions,
            find_by-replace tx_key w row d.transactions.rows u
                (find_by_holds w d.transactions.rows u a.found) refl a.found at,
          ) in
          let lock =
            lock_again d e f u row o s q found (ground (arith, marked.stored, a.same_order))
              (refl, refl, refl, refl) refl marked.grown in
          again_lem now later e u s lock (same_amount_lem o s marked.grown.same_total good) same_p
          ∙ ap (λ v. done (v, e)) (sym result)
