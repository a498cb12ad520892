-- ===== src/Payment/ClickStep.antt =====
-- What one call of a gateway can do to the database, and that Click's calls do nothing else
-- (backend/app/services/payment_service.py).
use kans_shop.Prelude.{
  ℕ, ◌≡◌, refl, Bool, false, text_eq, insert, Option, none, some, Text, arith, find_by,
  find_by_holds, any, update, Option-cases, Bool-cases, inl, inr,
}
use kans_shop.Enums.{PaymentProvider, PaymentTxState}
use kans_shop.Models.{ClickParams, Database, Order, PaymentTransaction, empty_payload}
use kans_shop.Exec.{ok}
use kans_shop.Repositories.{tx_row, tx_key, is_provider_tx}
use kans_shop.Order.{mark_paid}
use kans_shop.Order.Status.{order_of}
use kans_shop.Payment.{Settings, is_other_paid, order_is_payable}
use kans_shop.Payment.ClickRequest.{
  ClickResponse, prepare_new, prepare_either, trans_id, is_click, click_amount_matches, str_or_none,
}
use kans_shop.Payment.Click.{click_prepare, click_complete, prepare_locked, is_authentic, is_signed}
use kans_shop.Payment.Click.Outcome as Click
use kans_shop.Payment.Click.Outcome.{Completed, closed_tx, refused, repeated, failed, settled}

-- One call: nothing, a new pending transaction, a cancelled one, or a paid one with its order.
pub data TxStep (now : ℕ) (d e : Database) : Type 0 where
  nothing : e ≡ d → TxStep now d e
  opened :
      (row : ℕ → PaymentTransaction)
      → ((k : ℕ) → ((row k).id ≡ k) × ((row k).state ≡ PaymentTxState.pending))
      → e ≡ record d { transactions = insert row d.transactions }
      → TxStep now d e
  closed :
      (q : PaymentTransaction → Bool) (t u : PaymentTransaction)
      → find_by q d.transactions.rows ≡ some t
      → u.id ≡ t.id
      → u.state ≡ PaymentTxState.cancelled
      → e ≡ record d { transactions = update tx_key u d.transactions }
      → TxStep now d e
  paid :
      (q : PaymentTransaction → Bool) (o s : Order) (t u : PaymentTransaction)
      → find_by q d.transactions.rows ≡ some t
      → (u.id ≡ t.id) × (u.order_id ≡ t.order_id) × (u.provider ≡ t.provider)
      → order_of d o.id ≡ some o
      → t.order_id ≡ o.id
      → any (is_other_paid o.id t.provider t.id) d.transactions.rows ≡ false
      → mark_paid now o (record d { transactions = update tx_key u d.transactions }) ≡ ok (s, e)
      → TxStep now d e

module _ (settings : Settings) (md5 : Text → Text) where
  pub complete-TxStep :
      (now : ℕ) (p : ClickParams) (d e : Database) (r : ClickResponse)
      → click_complete settings md5 now p d ≡ ok (r, e)
      → TxStep now d e
  complete-TxStep now p d e r h = by_outcome (Click.complete_outcome settings md5 now p d e r h)
    where
      by_outcome : Completed settings md5 now p d r e → TxStep now d e
      by_outcome (refused x same) = nothing same
      by_outcome (repeated o t c w x y same) = nothing same
      by_outcome (failed o t c w x s) =
          closed _ t (closed_tx PaymentTxState.cancelled p t) c.found refl refl s
      by_outcome (settled o s t c w x y z m) =
          let kind : t.provider ≡ PaymentProvider.click = ground (
            arith,
            find_by_holds (is_provider_tx PaymentProvider.click (trans_id p)) d.transactions.rows t
                c.found,
          ) in
          paid _ o s t (closed_tx PaymentTxState.paid p t) c.found (refl, refl, refl)
            (ground (arith, c.order, c.same_order)) c.same_order (ground (arith, kind, z)) m

  pub new-TxStep :
      (now : ℕ) (p : ClickParams) (o : Order) (d e : Database) (r : ClickResponse)
      → prepare_new now p o d ≡ ok (r, e)
      → TxStep now d e
  new-TxStep now p o d e r h = elim (Bool-cases (order_is_payable o PaymentProvider.click)) [
    | inr no_ ↦ nothing (ground (arith, no_, h))
    | inl payable ↦
        opened
          (tx_row o.id PaymentProvider.click o.total (trans_id p) PaymentTxState.pending
            (record empty_payload { click_prepare_payload = some p }) now)
          (λ k. (refl, refl)) (ground (arith, payable, h))
  ]

  pub either-TxStep :
      (now : ℕ) (p : ClickParams) (o : Order) (t : Option PaymentTransaction) (d e : Database)
      (r : ClickResponse)
      → prepare_either now p o t d ≡ ok (r, e)
      → TxStep now d e
  either-TxStep now p o none d e r h = new-TxStep now p o d e r h
  either-TxStep now p o (some t) d e r h = nothing (ground (arith, h))

  pub locked-TxStep :
      (now : ℕ) (p : ClickParams) (o : Order) (d e : Database) (r : ClickResponse)
      → prepare_locked settings md5 now p o d ≡ ok (r, e)
      → TxStep now d e
  unfolding prepare_locked
  locked-TxStep now p o d e r h = elim (Bool-cases (is_signed settings md5 p 0)) [
    | inr a ↦ nothing (ground (arith, a, h))
    | inl a ↦ elim (Bool-cases (is_click o.payment_method)) [
      | inr b ↦ nothing (ground (arith, a, b, h))
      | inl b ↦ elim (Bool-cases (click_amount_matches p.amount o.total)) [
        | inr c ↦ nothing (ground (arith, a, b, c, h))
        | inl c ↦ either-TxStep now p o (Click.named_tx p d) d e r (ground (arith, a, b, c, h))
      ]
    ]
  ]

  pub prepare-TxStep :
      (now : ℕ) (p : ClickParams) (d e : Database) (r : ClickResponse)
      → click_prepare settings md5 now p d ≡ ok (r, e)
      → TxStep now d e
  unfolding click_prepare
  prepare-TxStep now p d e r h = elim (Bool-cases (is_authentic settings md5 p 0)) [
    | inr a ↦ nothing (ground (arith, a, h))
    | inl a ↦
        elim (Option-cases
          (find_by (λ o. text_eq o.order_number (str_or_none p.merchant_trans_id)) d.orders.rows)) [
            | inl b ↦ nothing (ground (arith, a, b, h))
            | inr (u, b) ↦ elim (Option-cases (order_of d u.id)) [
              | inl c ↦ nothing (ground (arith, a, b, c, h))
              | inr (o, c) ↦ locked-TxStep now p o d e r (ground (arith, a, b, c, h))
            ]
          ]
  ]
