-- ===== src/Shop.antt =====
-- The services together: any sequence of the calls that change orders or payments after checkout
-- (an order enters through Checkout/Submit, which is not one of these calls). A call that raises is
-- rolled back (`get_db` of backend/app/api/deps.py), and the next one finds the database as it was.
use kans_shop.Prelude.{ℕ, ◌≡◌, ap, sym, Bool, true, Option, some, List, [], ◌∷◌, Text}
use mathlib.Core.Path.{subst}
use kans_shop.Enums.{OrderStatus}
use kans_shop.Models.{Database, ClickParams, PaymeParams, Order}
use kans_shop.Exec.{committed, committed_lem}
use kans_shop.Order.{advance_status, cancel_order, is_terminal}
use kans_shop.Order.Status.{order_of, advance_inv, cancel_inv}
use kans_shop.Order.Growth.{
  Evolves, Evolves-refl, Evolves-trans, advance-Evolves, cancel-Evolves, Reach-terminal,
}
use kans_shop.Payment.{Settings}
use kans_shop.Payment.Click.{click_prepare, click_complete}
use kans_shop.Payment.Payme.{payme_handle_rpc}
use kans_shop.Payment.ClickStep.{prepare-TxStep, complete-TxStep}
use kans_shop.Payment.Step.{rpc-TxStep}
use kans_shop.Payment.Sound.{PaidOnce, IsPaidOnce, step-PaidOnce, step-Evolves}
use kans_shop.Receipt.{attach_card_transfer_receipt, ImageFormat}
use kans_shop.Receipt.Accept.{accept_card_transfer_payment}
use kans_shop.Receipt.Upload.{attach_inv, attach-Evolves}
use kans_shop.Receipt.Safety.{accept-Evolves, accept-transactions}

-- One call of a service, with its arguments.
pub data Call : Type 0 where
  advance : ℕ → OrderStatus → Option ℕ → Option Text → Bool → Call
  cancel : ℕ → Option ℕ → Text → Call
  prepare complete : ClickParams → Call
  rpc : Option Text → Option Text → PaymeParams → Call
  attach : Text → ℕ → ℕ → Text → Text → Option Text → Call
  accept : ℕ → ℕ → ℕ → Call

module _ (settings : Settings) (md5 : Text → Text) (b64decode : Text → Option Text)
    (image_format : Text → Option ImageFormat) where
  unfoldable pub serve : ℕ → Call → Database → Database
  serve now (advance k to_ admin text flag) d =
      committed (advance_status now k to_ admin text flag) d
  serve now (cancel k admin reason) d = committed (cancel_order now k admin reason) d
  serve now (prepare p) d = committed (click_prepare settings md5 now p) d
  serve now (complete p) d = committed (click_complete settings md5 now p) d
  serve now (rpc header method p) d =
      committed (payme_handle_rpc settings b64decode header now method p) d
  serve now (attach uuid k owner content declared file) d =
      committed (attach_card_transfer_receipt image_format uuid k owner content declared file) d
  serve now (accept k admin expected) d =
      committed (accept_card_transfer_payment now k admin expected) d

  -- The calls in order, each with the time at which it is served.
  unfoldable pub serve_all : List (ℕ × Call) → Database → Database
  serve_all [] d = d
  serve_all ((now, c) ∷ rest) d = serve_all rest (serve now c d)

  serve-Evolves : (now : ℕ) (c : Call) (d : Database) → Evolves d (serve now c d)
  unfolding serve
  serve-Evolves now (advance k to_ admin text flag) d =
      committed_lem (Evolves d) (advance_status now k to_ admin text flag) d (Evolves-refl d)
        (λ r e h. advance-Evolves now k to_ admin text flag d e r h)
  serve-Evolves now (cancel k admin reason) d =
      committed_lem (Evolves d) (cancel_order now k admin reason) d (Evolves-refl d)
        (λ r e h. cancel-Evolves now k admin reason d e r h)
  serve-Evolves now (prepare p) d =
      committed_lem (Evolves d) (click_prepare settings md5 now p) d (Evolves-refl d)
        (λ r e h. step-Evolves d e (prepare-TxStep settings md5 now p d e r h))
  serve-Evolves now (complete p) d =
      committed_lem (Evolves d) (click_complete settings md5 now p) d (Evolves-refl d)
        (λ r e h. step-Evolves d e (complete-TxStep settings md5 now p d e r h))
  serve-Evolves now (rpc header method p) d =
      committed_lem (Evolves d) (payme_handle_rpc settings b64decode header now method p) d
        (Evolves-refl d)
        (λ r e h. step-Evolves d e (rpc-TxStep settings b64decode header now method p d e r h))
  serve-Evolves now (attach uuid k owner content declared file) d =
      committed_lem (Evolves d)
        (attach_card_transfer_receipt image_format uuid k owner content declared file) d
        (Evolves-refl d)
        (λ r e h. attach-Evolves image_format uuid k owner content declared file d e r h)
  serve-Evolves now (accept k admin expected) d =
      committed_lem (Evolves d) (accept_card_transfer_payment now k admin expected) d
        (Evolves-refl d) (λ r e h. accept-Evolves now k admin expected d e r h)

  -- Through any sequence of calls (status changes, cancellations, the calls of Click and Payme,
  -- receipts and their acceptance), with the ones that raise rolled back, every order is still
  -- there under its id; its status has only moved along the allowed transitions or to cancelled
  -- from a status that is not final; its customer, number, items, total and payment method are the
  -- same; and if it was paid, it is paid.
  pub serve_all-Evolves : (calls : List (ℕ × Call)) (d : Database) → Evolves d (serve_all calls d)
  unfolding serve_all
  serve_all-Evolves [] d = Evolves-refl d
  serve_all-Evolves ((now, c) ∷ rest) d =
      Evolves-trans d (serve now c d) (serve_all rest (serve now c d)) (serve-Evolves now c d)
        (serve_all-Evolves rest (serve now c d))

  same-PaidOnce : (d e : Database) → e.transactions ≡ d.transactions → IsPaidOnce d → IsPaidOnce e
  same-PaidOnce d e same h = subst (λ t. PaidOnce t.rows t.next) (sym same) h

  serve-PaidOnce : (now : ℕ) (c : Call) (d : Database) → IsPaidOnce d → IsPaidOnce (serve now c d)
  unfolding serve
  serve-PaidOnce now (advance k to_ admin text flag) d h =
      committed_lem IsPaidOnce (advance_status now k to_ admin text flag) d h (λ r e q.
        same-PaidOnce d e
          (ap (λ x. x.transactions) (advance_inv now k to_ admin text flag d e r q).state) h)
  serve-PaidOnce now (cancel k admin reason) d h =
      committed_lem IsPaidOnce (cancel_order now k admin reason) d h (λ r e q.
        same-PaidOnce d e (ap (λ x. x.transactions) (cancel_inv now k admin reason d e r q).state)
          h)
  serve-PaidOnce now (prepare p) d h =
      committed_lem IsPaidOnce (click_prepare settings md5 now p) d h
        (λ r e q. step-PaidOnce d e h (prepare-TxStep settings md5 now p d e r q))
  serve-PaidOnce now (complete p) d h =
      committed_lem IsPaidOnce (click_complete settings md5 now p) d h
        (λ r e q. step-PaidOnce d e h (complete-TxStep settings md5 now p d e r q))
  serve-PaidOnce now (rpc header method p) d h =
      committed_lem IsPaidOnce (payme_handle_rpc settings b64decode header now method p) d h
        (λ r e q. step-PaidOnce d e h (rpc-TxStep settings b64decode header now method p d e r q))
  serve-PaidOnce now (attach uuid k owner content declared file) d h =
      committed_lem IsPaidOnce
        (attach_card_transfer_receipt image_format uuid k owner content declared file) d h
        (λ r e q.
          same-PaidOnce d e
            (ap (λ x. x.transactions)
              (attach_inv image_format uuid k owner content declared file d e r q).state)
            h)
  serve-PaidOnce now (accept k admin expected) d h =
      committed_lem IsPaidOnce (accept_card_transfer_payment now k admin expected) d h
        (λ r e q. same-PaidOnce d e (accept-transactions now k admin expected d e r q) h)

  -- If the ids of the payment transactions differ, are below the next one, and no order has two
  -- paid transactions of one gateway, then all this is so after any sequence of the calls.
  pub serve_all-PaidOnce :
      (calls : List (ℕ × Call)) (d : Database) → IsPaidOnce d → IsPaidOnce (serve_all calls d)
  unfolding serve_all
  serve_all-PaidOnce [] d h = h
  serve_all-PaidOnce ((now, c) ∷ rest) d h =
      serve_all-PaidOnce rest (serve now c d) (serve-PaidOnce now c d h)

  -- An order that is completed or cancelled has the same status after any sequence of the calls.
  pub serve_all-terminal :
      (calls : List (ℕ × Call)) (d : Database) (k : ℕ) (o : Order)
      → order_of d k ≡ some o
      → is_terminal o.status ≡ true
      → (r : Order) × (order_of (serve_all calls d) k ≡ some r) × (r.status ≡ o.status)
  serve_all-terminal calls d k o found over =
      let (r, at, g) = serve_all-Evolves calls d k o found in (r, at, Reach-terminal g.life over)
