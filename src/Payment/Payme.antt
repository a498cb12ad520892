-- ===== src/Payment/Payme.antt =====
-- The Payme methods of backend/app/services/payment_service.py. The base64 decoder is a parameter.
-- A handler is an attempt, whose exceptions keep the database, since `payme_handle_rpc` catches them
-- inside the transaction.
pub mod Clean
pub mod Outcome
pub mod Safety
pub mod Again
pub mod Create
use kans_shop.Prelude.{
  ℕ, suc, ◌/◌, ◌^◌, Bool, true, false, ◌&&◌, ◌||◌, not, Option, none, some, [], ◌∷◌, ◌++◌, Text,
  codes, text_eq, same_text, or_else, is_some, ◌==◌, if◌then◌else◌,
}
use kans_shop.Prelude.Int.{ℤ, pos, negsuc, neg}
use kans_shop.Prelude.Decimal.{Decimal, nan, infinite, finite, eq_units}
use kans_shop.Prelude.Parse.{decimal_of_text, int_of_text}
use kans_shop.Enums.{PaymentMethod, PaymentProvider, PaymentTxState, provider_eq}
use kans_shop.Models.{
  Value, PaymeParams, PaymeState, Database, Order, PaymentTransaction, RawPayload, empty_payload,
}
use kans_shop.Exec.{
  Exec, Result, PaymeError, invalid_amount, transaction_not_found, unable_to_perform, unknown_order,
  order_already_paid, insufficient_privileges, order_not_found, payme_rpc, ok, err,
}
use kans_shop.Payment.Kept.{Attempt, Kept, done, failed, pure, or_raise, lift, ◌>>=◌, ◌>>◌}
use kans_shop.Values.{int_of, decimal_of}
use kans_shop.Repositories.{
  get_order_by_id, get_by_provider_tx_id, get_by_order_and_provider, create_tx, update_state,
}
use kans_shop.Order.{mark_paid, is_paid, is_terminal}
use kans_shop.Payment.{Settings, is_provider_configured, to_tiyin, has_other_paid_transaction}
use kans_shop.Payment.PaymeRequest.{
  present, same_decimal, same_value, same_option, same_request, holds_request, payme_id,
  payme_amount_matches, fail, fail_if, order_with, requested, payme_get_order, is_payme,
  payme_assert_order_payable, is_id, names_order, stored_order, payme_assert_association,
  state_or_created, is_completed, is_cancelled, is_cancelled_tx, is_pending_tx, PaymeResult, millis,
  create_result, PaymeMethod, method_named, RpcResponse, allow, created_tx, performed, cancelled_tx,
  checked, check_perform, create, perform, cancel, check, answered, rpc_error, method_not_found,
}

module _ (settings : Settings) (b64decode : Text → Option Text) where
  basic : Text
  basic = codes "Basic "

  -- `removeprefix`, where the prefix is there
  after_prefix : Text → Text → Option Text
  after_prefix [] s = some s
  after_prefix (c ∷ p) [] = none
  after_prefix (c ∷ p) (d ∷ s) = let rest = after_prefix p s in if c == d then rest else none

  credentials : Option Text → Option Text
  unfolding after_prefix basic
  credentials none = none
  credentials (some header) = elim (after_prefix basic header) [
    | none ↦ none
    | some s ↦ b64decode s
  ]

  unfoldable pub verify_payme_auth : Option Text → Bool
  unfolding credentials
  verify_payme_auth header =
      is_provider_configured settings PaymentProvider.payme && elim (credentials header) [
        | none ↦ false
        | some s ↦ text_eq s (codes "Paycom:" ++ settings.payme_secret_key)
      ]

  abbrev pub require_auth : Option Text → Attempt (Unit {0})
  require_auth header = fail_if (not (verify_payme_auth header)) insufficient_privileges

  unfoldable pub check_perform_transaction : Option Text → PaymeParams → Attempt PaymeResult
  check_perform_transaction header p = do
    o ← payme_get_order p
    require_auth header
    fail_if (not (payme_amount_matches p.amount o)) invalid_amount
    payme_assert_order_payable o
    pure allow

  -- A create call for a transaction that is known.
  abbrev pub is_other_tx : PaymentTransaction → Order → Option PaymentTransaction → Bool
  is_other_tx existing o none = true
  is_other_tx existing o (some t) = not (t.id == existing.id) || not (t.order_id == o.id)

  abbrev pub tx_or_fail :
      PaymentTransaction → Order → Option PaymentTransaction → Attempt PaymentTransaction
  tx_or_fail existing o none = fail transaction_not_found
  tx_or_fail existing o (some t) = do
    fail_if (is_other_tx existing o (some t)) transaction_not_found
    pure t

  unfoldable pub create_again : Option Text → PaymeParams → PaymentTransaction → Attempt PaymeResult
  create_again header p existing = do
    locked ← lift (get_order_by_id existing.order_id)
    o ← or_raise locked (payme_rpc unknown_order)
    found ← lift (get_by_provider_tx_id PaymentProvider.payme (payme_id p))
    t ← tx_or_fail existing o found
    require_auth header
    payme_assert_association t o p
    fail_if (not (payme_amount_matches p.amount o)) invalid_amount
    fail_if (not (holds_request t.raw_payload.payme_create_request p)) unable_to_perform
    fail_if (is_cancelled_tx t.state) unable_to_perform
    pure (create_result t)

  abbrev pub is_busy : Option PaymentTransaction → Bool
  is_busy none = false
  is_busy (some t) = is_pending_tx t.state

  abbrev pub created_payload : PaymeParams → Order → RawPayload
  created_payload p o = record empty_payload {
    payme_create_request = some p;
    payme_order_id = some o.id;
    payme_state = some PaymeState.created;
    payme_perform_time = p.own_perform_time;
    payme_cancel_time = p.own_cancel_time;
    payme_cancel_reason = p.own_cancel_reason;
  }

  unfoldable pub create_new : Option Text → ℕ → PaymeParams → Attempt PaymeResult
  create_new header now p = do
    unlocked ← payme_get_order p
    locked ← lift (get_order_by_id unlocked.id)
    o ← or_raise locked (payme_rpc unknown_order)
    require_auth header
    fail_if (not (payme_amount_matches p.amount o)) invalid_amount
    payme_assert_order_payable o
    other ← lift (get_by_order_and_provider o.id PaymentProvider.payme)
    fail_if (is_busy other) unable_to_perform
    t ← lift (
        create_tx o.id PaymentProvider.payme o.total (payme_id p) PaymentTxState.pending
          (created_payload p o) now)
    pure (create_result t)

  abbrev pub create_either :
      Option Text → ℕ → PaymeParams → Option PaymentTransaction → Attempt PaymeResult
  create_either header now p none d = create_new header now p d
  create_either header now p (some t) d = create_again header p t d

  unfoldable pub create_transaction : Option Text → ℕ → PaymeParams → Attempt PaymeResult
  create_transaction header now p = do
    existing ← lift (get_by_provider_tx_id PaymentProvider.payme (payme_id p))
    create_either header now p existing

  -- `_payme_lock_associated_transaction`
  unfoldable pub lock_associated : Option Text → PaymeParams → Attempt (PaymentTransaction × Order)
  lock_associated header p = do
    known ← lift (get_by_provider_tx_id PaymentProvider.payme (payme_id p))
    associated ← or_raise known (payme_rpc transaction_not_found)
    locked ← lift (get_order_by_id associated.order_id)
    o ← or_raise locked (payme_rpc unknown_order)
    found ← lift (get_by_provider_tx_id PaymentProvider.payme (payme_id p))
    t ← tx_or_fail associated o found
    require_auth header
    payme_assert_association t o p
    pure (t, o)

  abbrev pub amount_is_wrong : PaymeParams → Order → Bool
  amount_is_wrong p o = elim (present p.amount) [
    | none ↦ false
    | some v ↦ not (payme_amount_matches (some v) o)
  ]

  abbrev pub perform_again : ℕ → PaymeParams → PaymentTransaction → Attempt PaymeResult
  perform_again now p t = do
    fail_if (not (holds_request t.raw_payload.payme_perform_request p)) unable_to_perform
    pure (performed t.id (or_else t.raw_payload.payme_perform_time (millis now)))

  abbrev pub performed_payload : ℕ → PaymeParams → PaymentTransaction → RawPayload
  performed_payload now p t = record t.raw_payload {
    payme_perform_request = some p;
    payme_state = some PaymeState.completed;
    payme_perform_time = some (millis now);
  }

  unfoldable pub perform_open : ℕ → PaymeParams → PaymentTransaction → Order → Attempt PaymeResult
  perform_open now p t o = do
    fail_if (is_cancelled_tx t.state) unable_to_perform
    payme_assert_order_payable o
    other ← lift (has_other_paid_transaction o.id PaymentProvider.payme t.id)
    fail_if other order_already_paid
    lift (update_state t PaymentTxState.paid (performed_payload now p t))
    lift (mark_paid now o)
    pure (performed t.id (millis now))

  abbrev pub perform_locked : ℕ → PaymeParams → PaymentTransaction → Order → Attempt PaymeResult
  perform_locked now p t o d =
      if is_completed t.raw_payload.payme_state
      then perform_again now p t d
      else perform_open now p t o d

  unfoldable pub perform_transaction : Option Text → ℕ → PaymeParams → Attempt PaymeResult
  perform_transaction header now p = do
    locked ← lock_associated header p
    fail_if (amount_is_wrong p locked.1) invalid_amount
    perform_locked now p locked.0 locked.1

  abbrev pub cancel_state : Option PaymeState → PaymeState
  cancel_state s =
      if is_completed s then PaymeState.cancelled_after_complete else PaymeState.cancelled

  abbrev pub cancelled_payload : ℕ → PaymeParams → PaymentTransaction → RawPayload
  cancelled_payload now p t = record t.raw_payload {
    payme_state = some (cancel_state t.raw_payload.payme_state);
    payme_cancel_time = some (or_else t.raw_payload.payme_cancel_time (millis now));
    payme_cancel_reason = p.reason;
  }

  abbrev pub is_cancelled_before : PaymentTransaction → Bool
  is_cancelled_before t = is_cancelled_tx t.state && is_cancelled t.raw_payload.payme_state

  unfoldable pub cancel_locked : ℕ → PaymeParams → PaymentTransaction → Attempt PaymeResult
  cancel_locked now p t d =
      let time = or_else t.raw_payload.payme_cancel_time (millis now) in
      if is_cancelled_before t
      then done (cancelled_tx t.id time (state_or_created t.raw_payload.payme_state), d)
      else (do
        lift (update_state t PaymentTxState.cancelled (cancelled_payload now p t))
        pure (cancelled_tx t.id time (cancel_state t.raw_payload.payme_state)))
          d

  unfoldable pub cancel_transaction : Option Text → ℕ → PaymeParams → Attempt PaymeResult
  cancel_transaction header now p = do
    locked ← lock_associated header p
    cancel_locked now p locked.0

  abbrev check_result : PaymentTransaction → PaymeResult
  check_result t =
      checked t.created_at (or_else t.raw_payload.payme_perform_time (millis 0))
        (or_else t.raw_payload.payme_cancel_time (millis 0)) t.id
        (state_or_created t.raw_payload.payme_state) t.raw_payload.payme_cancel_reason

  unfoldable pub check_transaction : Option Text → PaymeParams → Attempt PaymeResult
  check_transaction header p = do
    require_auth header
    known ← lift (get_by_provider_tx_id PaymentProvider.payme (payme_id p))
    t ← or_raise known (payme_rpc transaction_not_found)
    pure (check_result t)

  unfoldable pub dispatch : PaymeMethod → Option Text → ℕ → PaymeParams → Attempt PaymeResult
  dispatch check_perform header now p = check_perform_transaction header p
  dispatch create header now p = create_transaction header now p
  dispatch perform header now p = perform_transaction header now p
  dispatch cancel header now p = cancel_transaction header now p
  dispatch check header now p = check_transaction header p

  -- `except PaymeRpcError` and `except OrderNotFoundError`: caught where the call stands. What is not
  -- caught ends the request, which rolls back.
  abbrev pub answer : Kept PaymeResult → Result (RpcResponse × Database)
  answer (done (r, e)) = ok (answered r, e)
  answer (failed (payme_rpc x) e) = ok (rpc_error x, e)
  answer (failed (order_not_found k) e) = ok (rpc_error unknown_order, e)
  answer (failed x e) = err x

  abbrev pub handle_method : Option PaymeMethod → Option Text → ℕ → PaymeParams → Exec RpcResponse
  handle_method none header now p d = ok (method_not_found, d)
  handle_method (some m) header now p d =
      if is_some header && not (verify_payme_auth header)
      then ok (rpc_error insufficient_privileges, d)
      else answer (dispatch m header now p d)

  unfoldable pub payme_handle_rpc : Option Text → ℕ → Option Text → PaymeParams → Exec RpcResponse
  payme_handle_rpc header now method p d =
      handle_method (elim method [ none ↦ none | some m ↦ method_named m ]) header now p d
