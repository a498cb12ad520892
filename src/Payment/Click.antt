-- ===== src/Payment/Click.antt =====
-- The Click handlers of backend/app/services/payment_service.py. MD5 is a parameter: the digest of
-- a text, in hexadecimal.
pub mod Outcome
pub mod Prepare
pub mod Safety
use kans_shop.Prelude.{
  ℕ, zero, suc, Bool, true, false, ◌&&◌, ◌||◌, not, Option, none, some, List, [], ◌∷◌, ◌++◌, Text,
  codes, show, text_eq, same_text, or_else, ◌==◌, find, is_number, if◌then◌else◌,
}
use kans_shop.Prelude.Int.{ℤ, pos, negsuc}
use kans_shop.Prelude.Decimal.{Decimal, eq_cents}
use kans_shop.Prelude.Parse.{decimal_of_text, int_of_text}
use kans_shop.Enums.{PaymentMethod, PaymentProvider, PaymentTxState, method_eq}
use kans_shop.Models.{ClickParams, Database, Order, PaymentTransaction, RawPayload, empty_payload}
use kans_shop.Exec.{Exec, ok, err, pure, gets, ◌>>=◌, ◌>>◌}
use kans_shop.Repositories.{
  get_by_number, get_order_by_id, get_by_provider_tx_id, create_tx, update_state,
}
use kans_shop.Order.{mark_paid}
use kans_shop.Payment.{
  Settings, is_provider_configured, order_is_payable, has_other_paid_transaction,
}
use kans_shop.Payment.ClickRequest.{
  ClickError, code_of, ClickResponse, refusal, prepared, confirmed, str_or_none, trans_id,
  same_params, holds_params, click_amount_matches, reported_error, is_click, prepare_again,
  prepare_new, prepare_either, complete_failed, complete_paid, complete_unless, complete_payable,
  is_minus, complete_reported, complete_closed, complete_state, is_other_tx, is_foreign,
  is_wrong_amount, success, sign_failed, invalid_amount, action_not_found, already_paid,
  order_not_found, transaction_not_found, transaction_cancelled,
}

module _ (settings : Settings) (md5 : Text → Text) where
  -- The text that is signed. Only a completion has a prepare id.
  signed_text : ClickParams → ℕ → Text
  signed_text p action =
      or_else p.click_trans_id []
      ++ (settings.click_service_id
          ++ (settings.click_secret_key
              ++ (or_else p.merchant_trans_id []
                  ++ ((if action == 1 then or_else p.merchant_prepare_id [] else [])
                      ++ (or_else p.amount [] ++ (show action ++ or_else p.sign_time []))))))

  unfoldable pub click_signature : ClickParams → ℕ → Text
  unfolding signed_text
  click_signature p action = md5 (signed_text p action)

  unfoldable pub is_signed : ClickParams → ℕ → Bool
  is_signed p action = same_text (some (click_signature p action)) p.sign_string

  abbrev pub is_authentic : ClickParams → ℕ → Bool
  is_authentic p action =
      is_provider_configured settings PaymentProvider.click && is_signed p action

  unfoldable pub prepare_locked : ℕ → ClickParams → Order → Exec ClickResponse
  prepare_locked now p o d =
      if not (is_signed p 0)
      then ok (refusal p sign_failed, d)
      else if not (is_click o.payment_method)
      then ok (refusal p order_not_found, d)
      else if not (click_amount_matches p.amount o.total)
      then ok (refusal p invalid_amount, d)
      else (do
        existing ← get_by_provider_tx_id PaymentProvider.click (trans_id p)
        prepare_either now p o existing)
          d

  abbrev pub prepare_found : ℕ → ClickParams → Option Order → Exec ClickResponse
  prepare_found now p none d = ok (refusal p order_not_found, d)
  prepare_found now p (some o) d = prepare_locked now p o d

  abbrev pub prepare_lock : ℕ → ClickParams → Option Order → Exec ClickResponse
  prepare_lock now p none d = ok (refusal p order_not_found, d)
  prepare_lock now p (some o) d = (do locked ← get_order_by_id o.id; prepare_found now p locked) d

  unfoldable pub click_prepare : ℕ → ClickParams → Exec ClickResponse
  click_prepare now p d =
      if not (is_authentic p 0)
      then ok (refusal p sign_failed, d)
      else (do found ← get_by_number (str_or_none p.merchant_trans_id); prepare_lock now p found) d

  unfoldable pub complete_locked : ℕ → ClickParams → Order → PaymentTransaction → Exec ClickResponse
  complete_locked now p o t d =
      if not (is_signed p 1)
      then ok (refusal p sign_failed, d)
      else if is_foreign p o
      then ok (refusal p transaction_not_found, d)
      else if is_wrong_amount p o t
      then ok (refusal p invalid_amount, d)
      else complete_state now p o t t.state d

  abbrev pub complete_again :
      ℕ → ClickParams → Order → PaymentTransaction → Option PaymentTransaction → Exec ClickResponse
  complete_again now p o associated none d = ok (refusal p transaction_not_found, d)
  complete_again now p o associated (some t) d =
      if is_other_tx p o associated t
      then ok (refusal p transaction_not_found, d)
      else complete_locked now p o t d

  abbrev pub complete_order :
      ℕ → ClickParams → PaymentTransaction → Option Order → Exec ClickResponse
  complete_order now p associated none d = ok (refusal p order_not_found, d)
  complete_order now p associated (some o) d =
      (do
        found ← get_by_provider_tx_id PaymentProvider.click (trans_id p)
        complete_again now p o associated found)
        d

  abbrev pub complete_tx : ℕ → ClickParams → Option PaymentTransaction → Exec ClickResponse
  complete_tx now p none d = ok (refusal p transaction_not_found, d)
  complete_tx now p (some associated) d =
      (do found ← get_order_by_id associated.order_id; complete_order now p associated found) d

  unfoldable pub click_complete : ℕ → ClickParams → Exec ClickResponse
  click_complete now p d =
      if not (is_authentic p 1)
      then ok (refusal p sign_failed, d)
      else (do
        associated ← get_by_provider_tx_id PaymentProvider.click (trans_id p)
        complete_tx now p associated)
          d
