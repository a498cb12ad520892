-- ===== src/Payment/PaymeRequest.antt =====
-- The parameters of a Payme call and the checks on them (backend/app/services/payment_service.py).
use kans_shop.Prelude.{
  ℕ, Bool, true, false, ◌&&◌, ◌||◌, not, suc, ◌*◌, ◌^◌, Option, none, some, [], Text, codes,
  text_eq, same_text, or_else, ◌==◌, if◌then◌else◌,
}
use kans_shop.Prelude.Int.{ℤ, pos, negsuc}
use kans_shop.Prelude.Decimal.{Decimal, infinite, finite, eq_units}
use kans_shop.Enums.{PaymentMethod, PaymentProvider, PaymentTxState, provider_eq}
use kans_shop.Models.{Value, PaymeParams, PaymeState, Order, PaymentTransaction}
use kans_shop.Exec.{
  PaymeError, invalid_amount, transaction_not_found, unable_to_perform, unknown_order,
  order_already_paid, payme_rpc,
}
use kans_shop.Payment.Kept.{Attempt, pure, raise, raise_if, or_raise, lift, ◌>>=◌, ◌>>◌}
use kans_shop.Values.{int_of, decimal_of}
use kans_shop.Repositories.{get_order_by_id}
use kans_shop.Order.{is_paid, is_terminal}
use kans_shop.Payment.{to_tiyin}

-- `value is not None` of a key that may be absent
abbrev pub present : Option Value → Option Value
present none = none
present (some Value.null) = none
present (some v) = some v

-- `a == b` of two numbers, by their values: `1 == 1.0`, and NaN equals nothing.
pub same_decimal : Decimal → Decimal → Bool
same_decimal (infinite s) (infinite t) = if s then t else not t
same_decimal (finite s a p) (finite t b q) =
    a * 10 ^ q == b * 10 ^ p && (a == 0 || (if s then t else not t))
same_decimal _ _ = false

-- The number that a value is; `True` is 1 and `False` is 0.
abbrev pub number_of : Value → Option Decimal
number_of (Value.boolean true) = some (finite false 1 0)
number_of (Value.boolean false) = some (finite false 0 0)
number_of (Value.integer (pos n)) = some (finite false n 0)
number_of (Value.integer (negsuc n)) = some (finite true (suc n) 0)
number_of (Value.fraction d) = some d
number_of _ = none

abbrev pub same_number : Option Decimal → Option Decimal → Bool
same_number (some a) (some b) = same_decimal a b
same_number _ _ = false

-- `==` of two JSON values
pub same_value : Value → Value → Bool
unfolding same_decimal
same_value Value.null Value.null = true
same_value (Value.other s) (Value.other t) = text_eq s t
same_value (Value.text s) (Value.text t) = text_eq s t
same_value v w = same_number (number_of v) (number_of w)

pub same_option : Option Value → Option Value → Bool
unfolding same_value
same_option none none = true
same_option (some a) (some b) = same_value a b
same_option _ _ = false

unfoldable pub same_request : PaymeParams → PaymeParams → Bool
unfolding same_option
same_request p q =
    same_text p.id q.id
    && (same_option p.order_id q.order_id
        && (same_option p.amount q.amount
            && (same_option p.reason q.reason
                && (same_option p.own_perform_time q.own_perform_time
                    && (same_option p.own_cancel_time q.own_cancel_time
                        && (same_option p.own_cancel_reason q.own_cancel_reason
                            && text_eq p.rest q.rest))))))

abbrev pub holds_request : Option PaymeParams → PaymeParams → Bool
holds_request none p = false
holds_request (some q) p = same_request q p

abbrev pub payme_id : PaymeParams → Text
payme_id p = or_else p.id []

-- `_payme_amount_matches`
unfoldable pub payme_amount_matches : Option Value → Order → Bool
payme_amount_matches amount o = elim (decimal_of (or_else amount (Value.integer (pos 0)))) [
  | none ↦ false
  | some d ↦ eq_units d (to_tiyin o.total)
]

abbrev pub fail : {A : Type 0} → PaymeError → Attempt A
fail e = raise (payme_rpc e)

abbrev pub fail_if : Bool → PaymeError → Attempt (Unit {0})
fail_if c e = raise_if c (payme_rpc e)

-- `_payme_get_order`
abbrev pub order_with : Option ℤ → Attempt (Option Order)
order_with none = pure none
order_with (some (pos k)) = lift (get_order_by_id k)
order_with (some (negsuc k)) = pure none

abbrev pub requested : Option Value → Option ℤ
requested none = none
requested (some v) = int_of v

unfoldable pub payme_get_order : PaymeParams → Attempt Order
payme_get_order p = do
  found ← order_with (requested (present p.order_id))
  or_raise found (payme_rpc unknown_order)

abbrev pub is_payme : PaymentMethod → Bool
is_payme PaymentMethod.payme = true
is_payme _ = false

-- `_payme_assert_order_payable`
unfoldable pub payme_assert_order_payable : Order → Attempt (Unit {0})
payme_assert_order_payable o = do
  fail_if (is_paid o.payment_status) order_already_paid
  fail_if (not (is_payme o.payment_method) || is_terminal o.status) unable_to_perform

abbrev pub is_id : ℕ → Option ℤ → Bool
is_id k none = false
is_id k (some (pos j)) = j == k
is_id k (some (negsuc j)) = false

abbrev pub names_order : ℕ → Option Value → Bool
names_order k none = true
names_order k (some v) = is_id k (int_of v)

abbrev pub stored_order : ℕ → Option ℕ → Bool
stored_order k none = true
stored_order k (some j) = j == k

-- `_payme_assert_transaction_association`
unfoldable pub payme_assert_association :
    PaymentTransaction → Order → PaymeParams → Attempt (Unit {0})
payme_assert_association t o p = do
  fail_if
      (not (provider_eq t.provider PaymentProvider.payme)
        || (not (t.order_id == o.id) || not (is_payme o.payment_method)))
      transaction_not_found
  fail_if (not (t.amount == o.total)) invalid_amount
  fail_if (not (names_order o.id (present p.order_id))) unable_to_perform
  fail_if (not (stored_order o.id t.raw_payload.payme_order_id)) transaction_not_found

abbrev pub state_or_created : Option PaymeState → PaymeState
state_or_created none = PaymeState.created
state_or_created (some s) = s

abbrev pub is_completed : Option PaymeState → Bool
is_completed (some PaymeState.completed) = true
is_completed _ = false

abbrev pub is_cancelled : Option PaymeState → Bool
is_cancelled (some PaymeState.cancelled) = true
is_cancelled (some PaymeState.cancelled_after_complete) = true
is_cancelled _ = false

abbrev pub is_cancelled_tx : PaymentTxState → Bool
is_cancelled_tx PaymentTxState.cancelled = true
is_cancelled_tx _ = false

abbrev pub is_pending_tx : PaymentTxState → Bool
is_pending_tx PaymentTxState.pending = true
is_pending_tx _ = false

-- A time as it is stored.
abbrev pub millis : ℕ → Value
millis n = Value.integer (pos n)

-- The answers of the five methods.
pub data PaymeResult : Type 0 where
  allow : PaymeResult
  created_tx : ℕ → ℕ → PaymeState → PaymeResult
  performed : ℕ → Value → PaymeResult
  cancelled_tx : ℕ → Value → PaymeState → PaymeResult
  checked : ℕ → Value → Value → ℕ → PaymeState → Option Value → PaymeResult

abbrev pub create_result : PaymentTransaction → PaymeResult
create_result t = created_tx t.created_at t.id (state_or_created t.raw_payload.payme_state)

pub data PaymeMethod : Type 0 where
  check_perform create perform cancel check : PaymeMethod

-- `PAYME_METHODS`
unfoldable pub method_named : Text → Option PaymeMethod
method_named m =
    if text_eq m (codes "CheckPerformTransaction")
    then some check_perform
    else if text_eq m (codes "CreateTransaction")
    then some create
    else if text_eq m (codes "PerformTransaction")
    then some perform
    else if text_eq m (codes "CancelTransaction")
    then some cancel
    else if text_eq m (codes "CheckTransaction")
    then some check
    else none

pub data RpcResponse : Type 0 where
  answered : PaymeResult → RpcResponse
  rpc_error : PaymeError → RpcResponse
  method_not_found : RpcResponse
