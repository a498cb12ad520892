-- ===== src/Tests/Gateway.antt =====
-- The theorems on Click and on the shop: a completion that pays an order, one that is forged and a
-- prepare that opens a transaction.
use kans_shop.Prelude.{
  ℕ, ◌≡◌, refl, true, false, Option, none, some, List, [], ◌∷◌, Text, find, any, count, arith,
}
use kans_shop.Enums.{OrderStatus, PaymentMethod, PaymentStatus, PaymentProvider, confirmed}
use kans_shop.Models.{Database, Order, PaymentTransaction, ClickParams}
use kans_shop.Exec.{committed, ok}
use kans_shop.Order.Status.{order_of}
use kans_shop.Order.Growth.{Evolves}
use kans_shop.Payment.{is_other_paid, order_is_payable}
use kans_shop.Payment.ClickRequest.{ClickResponse, refusal, sign_failed, prepared}
use kans_shop.Payment.Click.{click_prepare, click_complete}
use kans_shop.Payment.Click.Prepare.{prepare_twice}
use kans_shop.Payment.Click.Outcome.{Checked, is_success}
use kans_shop.Payment.Click.Safety.{complete_twice, becomes_paid-Checked, complete_refused}
use kans_shop.Payment.Sound.{IsPaidOnce}
use kans_shop.Receipt.{ImageFormat}
use kans_shop.Shop.{
  Call, serve_all, complete, advance, cancel, serve_all-Evolves, serve_all-PaidOnce,
  serve_all-terminal,
}
use kans_shop.Tests.{
  click_shop, gateway, digest, completion, completed_shop, answered, runs, order_with, shop_with,
  completion_ok,
}

abbrev clicked : Order
clicked = order_with PaymentMethod.click

answered-success : is_success answered.error ≡ true
unfolding runs
answered-success = refl

complete_twice_example :
    click_complete gateway digest 20 completion completed_shop ≡ ok (answered, completed_shop)
unfolding runs
complete_twice_example =
    complete_twice gateway digest completion 9 20 click_shop completed_shop answered (refl, tt)
      completion_ok answered-success

abbrev settled_order : Order
settled_order = record clicked {
  status = confirmed;
  payment_status = PaymentStatus.paid;
  confirmed_at = some 9;
}

becomes_paid-Checked_example :
    (t : PaymentTransaction) × Checked gateway digest completion click_shop clicked t
    × (order_is_payable clicked PaymentProvider.click ≡ true)
    × (any (is_other_paid clicked.id PaymentProvider.click t.id) click_shop.transactions.rows
        ≡ false)
unfolding runs
becomes_paid-Checked_example =
    becomes_paid-Checked gateway digest 9 completion click_shop 1 clicked settled_order answered
      completed_shop completion_ok refl refl refl refl

abbrev forged : ClickParams
forged = record completion { sign_string = some [] }

complete_refused_example :
    committed (click_complete gateway digest 9 forged) click_shop ≡ click_shop
unfolding runs
complete_refused_example =
    complete_refused gateway digest 9 forged click_shop (refusal forged sign_failed)
      (committed (click_complete gateway digest 9 forged) click_shop) refl refl

-- Two calls of Click and the steps of an administrator, one of them refused.
abbrev calls : List (ℕ × Call)
calls =
    (9, complete completion)
    ∷ (10, complete completion)
    ∷ (11, advance 1 OrderStatus.preparing (some 2) none false)
    ∷ (12, advance 1 OrderStatus.preparing (some 2) none false)
    ∷ (13, cancel 1 (some 2) [])
    ∷ []

abbrev no_text : Text → Option Text
no_text t = none

abbrev no_image : Text → Option ImageFormat
no_image t = none

serve_all-Evolves_example :
    Evolves click_shop (serve_all gateway digest no_text no_image calls click_shop)
serve_all-Evolves_example = serve_all-Evolves gateway digest no_text no_image calls click_shop

click_shop-IsPaidOnce : IsPaidOnce click_shop
unfolding find count
click_shop-IsPaidOnce = record {
  unique = (refl, tt);
  fresh = λ k le. ground arith;
  once = λ k v. ground arith;
}

serve_all-PaidOnce_example : IsPaidOnce (serve_all gateway digest no_text no_image calls click_shop)
serve_all-PaidOnce_example =
    serve_all-PaidOnce gateway digest no_text no_image calls click_shop click_shop-IsPaidOnce

abbrev over_order : Order
over_order = record clicked { status = OrderStatus.cancelled }

abbrev over_shop : Database
over_shop = record click_shop { orders = record { rows = over_order ∷ []; next = 2 } }

serve_all-terminal_example :
    (r : Order) × (order_of (serve_all gateway digest no_text no_image calls over_shop) 1 ≡ some r)
    × (r.status ≡ OrderStatus.cancelled)
unfolding runs
serve_all-terminal_example =
    serve_all-terminal gateway digest no_text no_image calls over_shop 1 over_order refl refl

abbrev preparation : ClickParams
preparation = record completion { merchant_prepare_id = none }

abbrev unprepared_shop : Database
unprepared_shop = shop_with PaymentMethod.click []

abbrev prepared_shop : Database
prepared_shop = committed (click_prepare gateway digest 9 preparation) unprepared_shop

abbrev prepare_reply : ClickResponse
prepare_reply = prepared preparation 5

prepare_twice_example :
    click_prepare gateway digest 20 preparation prepared_shop ≡ ok (prepare_reply, prepared_shop)
unfolding runs click_prepare kans_shop.Payment.Click.prepare_locked
prepare_twice_example =
    prepare_twice gateway digest preparation 9 20 unprepared_shop prepared_shop prepare_reply refl
      refl
