-- ===== src/Payment/ClickRequest.antt =====
-- The parameters of a Click call, the answers, and the steps that need no signature
-- (backend/app/services/payment_service.py).
use kans_shop.Prelude.{
  ℕ, Bool, true, false, ◌&&◌, ◌||◌, not, Option, none, some, [], Text, codes, show, text_eq,
  same_text, or_else, ◌==◌, if◌then◌else◌,
}
use kans_shop.Prelude.Int.{ℤ, pos, negsuc}
use kans_shop.Prelude.Decimal.{eq_cents}
use kans_shop.Prelude.Parse.{decimal_of_text, int_of_text}
use kans_shop.Enums.{PaymentMethod, PaymentProvider, PaymentTxState}
use kans_shop.Models.{ClickParams, Order, PaymentTransaction, empty_payload}
use kans_shop.Exec.{Exec, ok, pure, ◌>>=◌, ◌>>◌}
use kans_shop.Repositories.{create_tx, update_state}
use kans_shop.Order.{mark_paid}
use kans_shop.Payment.{order_is_payable, has_other_paid_transaction}

-- The CLICK_ERROR_* codes that the handlers answer with.
pub data ClickError : Type 0 where
  success sign_failed invalid_amount action_not_found already_paid : ClickError
  order_not_found transaction_not_found transaction_cancelled : ClickError

abbrev pub code_of : ClickError → ℤ
code_of success = pos 0
code_of sign_failed = negsuc 0
code_of invalid_amount = negsuc 1
code_of action_not_found = negsuc 2
code_of already_paid = negsuc 3
code_of order_not_found = negsuc 4
code_of transaction_not_found = negsuc 5
code_of transaction_cancelled = negsuc 8

-- `_click_response`, without the note for people
pub record ClickResponse : Type 0 where
  pub click_trans_id : Option Text
  pub merchant_trans_id : Option Text
  pub error : ClickError
  pub merchant_prepare_id : Option ℕ
  pub merchant_confirm_id : Option ℕ

abbrev pub refusal : ClickParams → ClickError → ClickResponse
refusal p e = record {
  click_trans_id = p.click_trans_id;
  merchant_trans_id = p.merchant_trans_id;
  error = e;
  merchant_prepare_id = none;
  merchant_confirm_id = none;
}

abbrev pub prepared : ClickParams → ℕ → ClickResponse
prepared p k = record (refusal p success) { merchant_prepare_id = some k }

abbrev pub confirmed : ClickParams → ℕ → ClickResponse
confirmed p k = record (refusal p success) { merchant_confirm_id = some k }

-- `str(params.get(key))`, where `str(None)` is "None"
unfoldable pub str_or_none : Option Text → Text
str_or_none none = codes "None"
str_or_none (some s) = s

abbrev pub trans_id : ClickParams → Text
trans_id p = or_else p.click_trans_id []

-- Equality of two posted forms.
unfoldable pub same_params : ClickParams → ClickParams → Bool
same_params p q =
    same_text p.click_trans_id q.click_trans_id
    && (same_text p.merchant_trans_id q.merchant_trans_id
        && (same_text p.merchant_prepare_id q.merchant_prepare_id
            && (same_text p.amount q.amount
                && (same_text p.sign_time q.sign_time
                    && (same_text p.sign_string q.sign_string
                        && (same_text p.error q.error && text_eq p.rest q.rest))))))

-- `raw_payload.get(key) == params`
abbrev pub holds_params : Option ClickParams → ClickParams → Bool
holds_params none p = false
holds_params (some q) p = same_params q p

unfoldable pub click_amount_matches : Option Text → ℕ → Bool
click_amount_matches amount expected = elim (decimal_of_text (or_else amount (codes "0"))) [
  | none ↦ false
  | some d ↦ eq_cents d expected
]

-- `int(params.get("error", 0))`
unfoldable pub reported_error : ClickParams → Option ℤ
reported_error p = elim p.error [ none ↦ some (pos 0) | some s ↦ int_of_text s ]

abbrev pub is_click : PaymentMethod → Bool
is_click PaymentMethod.click = true
is_click _ = false

-- A prepare call for a transaction that is known: only a repetition is accepted.
abbrev pub prepare_again : ClickParams → Order → PaymentTransaction → ClickResponse
prepare_again p o t =
    if (not (t.order_id == o.id)
      || (not (t.amount == o.total) || not (holds_params t.raw_payload.click_prepare_payload p)))
    then refusal p transaction_not_found
    else prepared p t.id

abbrev pub prepare_new : ℕ → ClickParams → Order → Exec ClickResponse
prepare_new now p o d =
    if not (order_is_payable o PaymentProvider.click)
    then ok (refusal p already_paid, d)
    else (do
      t ←
          create_tx o.id PaymentProvider.click o.total (trans_id p) PaymentTxState.pending
            (record empty_payload { click_prepare_payload = some p }) now
      pure (prepared p t.id))
        d

abbrev pub prepare_either : ℕ → ClickParams → Order → Option PaymentTransaction → Exec ClickResponse
prepare_either now p o (some t) d = ok (prepare_again p o t, d)
prepare_either now p o none d = prepare_new now p o d

-- The gateway reports a failure of its own: the transaction is closed.
abbrev pub complete_failed : ClickParams → PaymentTransaction → Exec ClickResponse
complete_failed p t = do
  update_state t PaymentTxState.cancelled (record t.raw_payload { click_complete_payload = some p })
  pure (confirmed p t.id)

abbrev pub complete_paid : ℕ → ClickParams → Order → PaymentTransaction → Exec ClickResponse
complete_paid now p o t = do
  update_state t PaymentTxState.paid (record t.raw_payload { click_complete_payload = some p })
  mark_paid now o
  pure (confirmed p t.id)

abbrev pub complete_unless :
    ℕ → ClickParams → Order → PaymentTransaction → Bool → Exec ClickResponse
complete_unless now p o t true d = ok (refusal p already_paid, d)
complete_unless now p o t false d = complete_paid now p o t d

unfoldable pub complete_payable : ℕ → ClickParams → Order → PaymentTransaction → Exec ClickResponse
complete_payable now p o t d =
    if not (order_is_payable o PaymentProvider.click)
    then ok (refusal p already_paid, d)
    else (do
      other ← has_other_paid_transaction o.id PaymentProvider.click t.id
      complete_unless now p o t other)
        d

abbrev pub is_minus : ℤ → Bool
is_minus (pos n) = false
is_minus (negsuc n) = true

abbrev pub complete_reported :
    ℕ → ClickParams → Order → PaymentTransaction → Option ℤ → Exec ClickResponse
complete_reported now p o t none d = ok (refusal p action_not_found, d)
complete_reported now p o t (some e) d =
    if is_minus e then complete_failed p t d else complete_payable now p o t d

-- A transaction that is closed accepts the repetition of the call that closed it.
abbrev pub complete_closed : ClickParams → PaymentTransaction → ClickError → ClickResponse
complete_closed p t e =
    if holds_params t.raw_payload.click_complete_payload p then confirmed p t.id else refusal p e

unfoldable pub complete_state :
    ℕ → ClickParams → Order → PaymentTransaction → PaymentTxState → Exec ClickResponse
complete_state now p o t PaymentTxState.paid d = ok (complete_closed p t already_paid, d)
complete_state now p o t PaymentTxState.cancelled d =
    ok (complete_closed p t transaction_cancelled, d)
complete_state now p o t _ d = complete_reported now p o t (reported_error p) d

-- The lock order is the order, then the transaction, which is read again.
abbrev pub is_other_tx : ClickParams → Order → PaymentTransaction → PaymentTransaction → Bool
is_other_tx p o associated t =
    not (t.id == associated.id)
    || (not (t.order_id == o.id) || not (text_eq (show t.id) (str_or_none p.merchant_prepare_id)))

abbrev pub is_foreign : ClickParams → Order → Bool
is_foreign p o =
    not (is_click o.payment_method)
    || not (text_eq (str_or_none p.merchant_trans_id) o.order_number)

abbrev pub is_wrong_amount : ClickParams → Order → PaymentTransaction → Bool
is_wrong_amount p o t =
    not (click_amount_matches p.amount o.total) || not (click_amount_matches p.amount t.amount)
