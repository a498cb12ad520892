-- ===== src/Payment.antt =====
-- backend/app/services/payment_service.py: what both gateways share. Texts of the environment
-- (backend/app/core/config.py) are a record.
pub mod ClickRequest
pub mod Click
pub mod Kept
pub mod PaymeRequest
pub mod Payme
pub mod ClickStep
pub mod Step
pub mod Sound
use kans_shop.Prelude.{
  ℕ, Bool, true, false, ◌&&◌, ◌||◌, not, Option, none, some, List, [], ◌∷◌, Text, is_empty, any,
  ◌==◌, if◌then◌else◌,
}
use kans_shop.Prelude.Parse.{strip}
use kans_shop.Enums.{
  OrderStatus, PaymentMethod, PaymentProvider, PaymentStatus, PaymentTxState, method_eq, method_of,
  provider_eq, tx_state_eq,
}
use kans_shop.Models.{Database, Order, PaymentTransaction}
use kans_shop.Exec.{
  Exec, Result, ok, err, payment_not_configured, payment_already_processed, order_already_processed,
  gets,
}
use kans_shop.Order.{is_terminal, is_paid}

pub record Settings : Type 0 where
  pub click_service_id : Text
  pub click_merchant_id : Text
  pub click_merchant_user_id : Text
  pub click_secret_key : Text
  pub payme_merchant_id : Text
  pub payme_secret_key : Text
  pub webapp_url : Text

-- `bool(value.strip())`
pub is_set : Text → Bool
is_set s = not (is_empty (strip s))

unfoldable pub is_provider_configured : Settings → PaymentProvider → Bool
unfolding is_set
is_provider_configured s PaymentProvider.click =
    is_set s.click_service_id
    && (is_set s.click_merchant_id
        && (is_set s.click_merchant_user_id && is_set s.click_secret_key))
is_provider_configured s PaymentProvider.payme =
    is_set s.payme_merchant_id && is_set s.payme_secret_key
is_provider_configured s PaymentProvider.paynet = false

-- A total in so'm is kept in cents, and a hundredth of a so'm is a tiyin.
abbrev pub to_tiyin : ℕ → ℕ
to_tiyin cents = cents

-- `_order_is_payable`
abbrev pub order_is_payable : Order → PaymentProvider → Bool
order_is_payable o provider =
    method_eq o.payment_method (method_of provider)
    && (not (is_paid o.payment_status) && not (is_terminal o.status))

abbrev pub is_other_paid : ℕ → PaymentProvider → ℕ → PaymentTransaction → Bool
is_other_paid order provider exclude t =
    t.order_id == order
    && (provider_eq t.provider provider
        && (tx_state_eq t.state PaymentTxState.paid && not (t.id == exclude)))

-- `_has_other_paid_transaction`
abbrev pub has_other_paid_transaction : ℕ → PaymentProvider → ℕ → Exec Bool
has_other_paid_transaction order provider exclude =
    gets (λ d. any (is_other_paid order provider exclude) d.transactions.rows)

-- What the page of a gateway is opened with; `urlencode` and base64 print it.
pub data PayLink : Type 0 where
  click_link : Text → Text → ℕ → Text → Text → PayLink
  payme_link : Text → ℕ → ℕ → PayLink

abbrev link_for : Settings → Order → PaymentProvider → Result PayLink
link_for s o PaymentProvider.click =
    ok (click_link s.click_service_id s.click_merchant_id o.total o.order_number s.webapp_url)
link_for s o PaymentProvider.payme = ok (payme_link s.payme_merchant_id o.id (to_tiyin o.total))
link_for s o PaymentProvider.paynet = err payment_not_configured

unfoldable pub build_pay_url : Settings → Order → PaymentProvider → Result PayLink
build_pay_url s o provider =
    if not (is_provider_configured s provider)
    then err payment_not_configured
    else if not (method_eq o.payment_method (method_of provider))
    then err payment_not_configured
    else if is_paid o.payment_status
    then err payment_already_processed
    else if is_terminal o.status
    then err order_already_processed
    else link_for s o provider
