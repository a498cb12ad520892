-- ===== src/Payment/Click/Outcome.antt =====
-- How a completion of Click ends (backend/app/services/payment_service.py, `click_complete`): the
-- database is left as it was, the transaction is closed as failed, or the order is paid.
use kans_shop.Prelude.{
  ℕ, ◌≡◌, refl, Bool, true, false, Option, some, Text, arith, find_by, any, update, Option-cases,
  Bool-cases, inl, inr, text_eq, show,
}
use kans_shop.Enums.{PaymentProvider, PaymentTxState}
use kans_shop.Models.{ClickParams, Database, Order, PaymentTransaction}
use kans_shop.Exec.{ok, Result-cases}
use kans_shop.Repositories.{tx_key, is_provider_tx}
use kans_shop.Order.{mark_paid}
use kans_shop.Order.Status.{order_of}
use kans_shop.Payment.{Settings, order_is_payable, is_other_paid}
use kans_shop.Payment.ClickRequest.{
  ClickResponse, ClickError, success, already_paid, transaction_cancelled, complete_closed,
  holds_params, complete_state, complete_reported, complete_payable, complete_failed, is_click,
  is_foreign, is_wrong_amount, click_amount_matches, trans_id, reported_error, confirmed, is_minus,
  is_other_tx, str_or_none,
}
use kans_shop.Payment.Click.{
  click_complete, complete_tx, complete_order, complete_locked, is_signed, is_authentic,
}

-- The transaction that a call names.
abbrev pub named_tx : ClickParams → Database → Option PaymentTransaction
named_tx p d = find_by (is_provider_tx PaymentProvider.click (trans_id p)) d.transactions.rows

abbrev pub is_success : ClickError → Bool
is_success success = true
is_success _ = false

abbrev pub is_open : PaymentTxState → Bool
is_open PaymentTxState.paid = false
is_open PaymentTxState.cancelled = false
is_open _ = true

abbrev pub closed_tx : PaymentTxState → ClickParams → PaymentTransaction → PaymentTransaction
closed_tx s p t = record t {
  state = s;
  raw_payload = record t.raw_payload { click_complete_payload = some p };
}

abbrev pub closed_as : PaymentTxState → ClickParams → PaymentTransaction → Database → Database
closed_as s p t d = record d { transactions = update tx_key (closed_tx s p t) d.transactions }

module _ (settings : Settings) (md5 : Text → Text) where
  -- What has been checked before the state of the transaction is looked at.
  pub record Checked (p : ClickParams) (d : Database) (o : Order) (t : PaymentTransaction)
      : Type 0 where
    pub authentic : is_authentic settings md5 p 1 ≡ true
    pub found : named_tx p d ≡ some t
    pub order : order_of d t.order_id ≡ some o
    pub same_order : t.order_id ≡ o.id
    pub prepared : text_eq (show t.id) (str_or_none p.merchant_prepare_id) ≡ true
    pub method : is_click o.payment_method ≡ true
    pub number : text_eq (str_or_none p.merchant_trans_id) o.order_number ≡ true
    pub amount : click_amount_matches p.amount o.total ≡ true
    pub tx_amount : click_amount_matches p.amount t.amount ≡ true

  pub data Completed (now : ℕ) (p : ClickParams) (d : Database) (r : ClickResponse) (e : Database)
      : Type 0 where
    refused : is_success r.error ≡ false → e ≡ d → Completed now p d r e
    repeated :
        (o : Order) (t : PaymentTransaction)
        → Checked p d o t
        → is_open t.state ≡ false
        → holds_params t.raw_payload.click_complete_payload p ≡ true
        → r ≡ confirmed p t.id
        → e ≡ d
        → Completed now p d r e
    failed :
        (o : Order) (t : PaymentTransaction)
        → Checked p d o t
        → is_open t.state ≡ true
        → r ≡ confirmed p t.id
        → e ≡ closed_as PaymentTxState.cancelled p t d
        → Completed now p d r e
    settled :
        (o s : Order) (t : PaymentTransaction)
        → Checked p d o t
        → is_open t.state ≡ true
        → r ≡ confirmed p t.id
        → order_is_payable o PaymentProvider.click ≡ true
        → any (is_other_paid o.id PaymentProvider.click t.id) d.transactions.rows ≡ false
        → mark_paid now o (closed_as PaymentTxState.paid p t d) ≡ ok (s, e)
        → Completed now p d r e

  module _ (now : ℕ) (p : ClickParams) (d e : Database) (r : ClickResponse) where
    payable_outcome :
        (o : Order) (t : PaymentTransaction)
        → Checked p d o t
        → is_open t.state ≡ true
        → complete_payable now p o t d ≡ ok (r, e)
        → Completed now p d r e
    unfolding complete_payable
    payable_outcome o t c w h = elim (Bool-cases (order_is_payable o PaymentProvider.click)) [
      | inr no_ ↦ refused (ground (arith, no_, h)) (ground (arith, no_, h))
      | inl payable ↦
          elim (Bool-cases
            (any (is_other_paid o.id PaymentProvider.click t.id) d.transactions.rows)) [
              | inl other ↦
                  refused (ground (arith, payable, other, h)) (ground (arith, payable, other, h))
              | inr only ↦
                  elim (Result-cases (mark_paid now o (closed_as PaymentTxState.paid p t d))) [
                    | inr (x, q) ↦ absurd (ground (arith, payable, only, q, h))
                    | inl (s, f, q) ↦
                        let same : e ≡ f = ground (arith, payable, only, q, h) in
                        settled o s t c w (ground (arith, payable, only, q, h)) payable only
                          (ground (arith, same, q))
                  ]
            ]
    ]

    failed_outcome :
        (o : Order) (t : PaymentTransaction)
        → Checked p d o t
        → is_open t.state ≡ true
        → complete_failed p t d ≡ ok (r, e)
        → Completed now p d r e
    failed_outcome o t c w h = failed o t c w (ground (arith, h)) (ground (arith, h))

    reported_outcome :
        (o : Order) (t : PaymentTransaction)
        → Checked p d o t
        → is_open t.state ≡ true
        → complete_reported now p o t (reported_error p) d ≡ ok (r, e)
        → Completed now p d r e
    reported_outcome o t c w h = elim (Option-cases (reported_error p)) [
      | inl bad ↦ refused (ground (arith, bad, h)) (ground (arith, bad, h))
      | inr (z, q) ↦ elim (Bool-cases (is_minus z)) [
        | inl minus ↦ failed_outcome o t c w (ground (arith, q, minus, h))
        | inr plus ↦ payable_outcome o t c w (ground (arith, q, plus, h))
      ]
    ]

    closed_outcome :
        (o : Order) (t : PaymentTransaction) (x : ClickError)
        → Checked p d o t
        → is_open t.state ≡ false
        → is_success x ≡ false
        → complete_closed p t x ≡ r
        → e ≡ d
        → Completed now p d r e
    closed_outcome o t x c w bad h same =
        elim (Bool-cases (holds_params t.raw_payload.click_complete_payload p)) [
          | inl again ↦ repeated o t c w again (ground (arith, again, h)) same
          | inr other ↦ refused (ground (arith, other, h, bad)) same
        ]

    state_outcome :
        (o : Order) (t : PaymentTransaction) (s : PaymentTxState)
        → t.state ≡ s
        → Checked p d o t
        → complete_state now p o t s d ≡ ok (r, e)
        → Completed now p d r e
    unfolding complete_state
    state_outcome o t PaymentTxState.paid w c h =
        closed_outcome o t already_paid c (ground (arith, w)) refl (ground (arith, h))
          (ground (arith, h))
    state_outcome o t PaymentTxState.cancelled w c h =
        closed_outcome o t transaction_cancelled c (ground (arith, w)) refl (ground (arith, h))
          (ground (arith, h))
    state_outcome o t _ w c h = reported_outcome o t c (ground (arith, w)) h

    module _ (o : Order) (t : PaymentTransaction) (authentic : is_authentic settings md5 p 1 ≡ true)
        (found : named_tx p d ≡ some t) (order : order_of d t.order_id ≡ some o) where
      locked_outcome :
          is_other_tx p o t t ≡ false
          → complete_locked settings md5 now p o t d ≡ ok (r, e)
          → Completed now p d r e
      unfolding complete_locked
      locked_outcome right h = elim (Bool-cases (is_signed settings md5 p 1)) [
        | inr bad ↦ refused (ground (arith, bad, h)) (ground (arith, bad, h))
        | inl signed ↦ elim (Bool-cases (is_foreign p o)) [
          | inl bad ↦ refused (ground (arith, signed, bad, h)) (ground (arith, signed, bad, h))
          | inr own ↦ elim (Bool-cases (is_wrong_amount p o t)) [
            | inl bad ↦
                refused (ground (arith, signed, own, bad, h)) (ground (arith, signed, own, bad, h))
            | inr amount ↦
                state_outcome o t t.state refl
                  (record {
                    authentic = authentic;
                    found = found;
                    order = order;
                    same_order = ground (arith, right);
                    prepared = ground (arith, right);
                    method = ground (arith, own);
                    number = ground (arith, own);
                    amount = ground (arith, amount);
                    tx_amount = ground (arith, amount);
                  })
                  (ground (arith, signed, own, amount, h))
          ]
        ]
      ]

      order_outcome :
          complete_order settings md5 now p t (some o) d ≡ ok (r, e) → Completed now p d r e
      order_outcome h = elim (Bool-cases (is_other_tx p o t t)) [
        | inl wrong ↦ refused (ground (arith, found, wrong, h)) (ground (arith, found, wrong, h))
        | inr right ↦ locked_outcome right (ground (arith, found, right, h))
      ]

    tx_outcome :
        (t : PaymentTransaction)
        → is_authentic settings md5 p 1 ≡ true
        → named_tx p d ≡ some t
        → complete_tx settings md5 now p (some t) d ≡ ok (r, e)
        → Completed now p d r e
    tx_outcome t authentic found h = elim (Option-cases (order_of d t.order_id)) [
      | inl gone ↦ refused (ground (arith, gone, h)) (ground (arith, gone, h))
      | inr (o, order) ↦ order_outcome o t authentic found order (ground (arith, order, h))
    ]

    -- Every way in which `click_complete` returns.
    pub complete_outcome : click_complete settings md5 now p d ≡ ok (r, e) → Completed now p d r e
    unfolding click_complete
    complete_outcome h = elim (Bool-cases (is_authentic settings md5 p 1)) [
      | inr forged ↦ refused (ground (arith, forged, h)) (ground (arith, forged, h))
      | inl authentic ↦ elim (Option-cases (named_tx p d)) [
        | inl unknown ↦
            refused (ground (arith, authentic, unknown, h)) (ground (arith, authentic, unknown, h))
        | inr (t, found) ↦ tx_outcome t authentic found (ground (arith, authentic, found, h))
      ]
    ]
