-- ===== src/Tests/Orders.antt =====
-- The theorems on the life of an order, at one that waits for its confirmation.
use kans_shop.Exec.{committed}
use kans_shop.Prelude.{refl, true, none, some, [], ◌∷◌}
use kans_shop.Enums.{PaymentMethod, confirmed}
use kans_shop.Models.{Database, Order}
use kans_shop.Order.{mark_paid, advance_status, cancel_order}
use kans_shop.Order.Status.{Advanced, advance_inv, CancelledBy, cancel_inv}
use kans_shop.Order.Life.{MarkedPaid, mark_paid_inv}
use kans_shop.Tests.{click_shop, runs, order_with, answer_of}

abbrev clicked : Order
clicked = order_with PaymentMethod.click

abbrev advanced_shop : Database
advanced_shop = committed (advance_status 9 1 confirmed (some 2) none true) click_shop

abbrev advanced_order : Order
advanced_order = answer_of clicked (advance_status 9 1 confirmed (some 2) none true click_shop)

advance_inv_example :
    Advanced 9 1 confirmed (some 2) none true click_shop advanced_shop advanced_order
unfolding runs
advance_inv_example =
    advance_inv 9 1 confirmed (some 2) none true click_shop advanced_shop advanced_order refl

abbrev cancelled_shop : Database
cancelled_shop = committed (cancel_order 9 1 (some 2) (65 ∷ [])) click_shop

abbrev cancelled_order : Order
cancelled_order = answer_of clicked (cancel_order 9 1 (some 2) (65 ∷ []) click_shop)

cancel_inv_example : CancelledBy 9 1 (some 2) (65 ∷ []) click_shop cancelled_shop cancelled_order
unfolding runs
cancel_inv_example =
    cancel_inv 9 1 (some 2) (65 ∷ []) click_shop cancelled_shop cancelled_order refl

abbrev paid_shop : Database
paid_shop = committed (mark_paid 9 clicked) click_shop

abbrev paid_order : Order
paid_order = answer_of clicked (mark_paid 9 clicked click_shop)

mark_paid_inv_example : MarkedPaid clicked paid_order click_shop paid_shop
unfolding runs
mark_paid_inv_example = mark_paid_inv 9 clicked paid_order click_shop paid_shop refl refl
