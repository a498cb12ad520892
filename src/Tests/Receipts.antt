-- ===== src/Tests/Receipts.antt =====
-- The theorems on receipts, at a card transfer whose receipt is uploaded and accepted.
use kans_shop.Prelude.{◌≡◌, refl, Option, none, some, [], ◌∷◌, Text}
use kans_shop.Enums.{PaymentMethod}
use kans_shop.Models.{Database, Order}
use kans_shop.Exec.{committed, ok, err, receipt_version_conflict}
use kans_shop.Outbox.{load_live_admin, order_admin_role}
use kans_shop.Receipt.{ImageFormat, attach_card_transfer_receipt}
use kans_shop.Receipt.Accept.{accept_card_transfer_payment}
use kans_shop.Receipt.Upload.{attach_inv, Attached}
use kans_shop.Receipt.Safety.{upload_then_stale, accept_twice}
use kans_shop.Prelude.{codes}
use kans_shop.Tests.{runs, order_with, shop_with, answer_of, boss}

abbrev by_card : Order
by_card = order_with PaymentMethod.card_transfer

abbrev card_shop : Database
card_shop = shop_with PaymentMethod.card_transfer []

abbrev photo : Text → Option ImageFormat
photo t = some ImageFormat.jpeg

abbrev uploaded_shop : Database
uploaded_shop =
    committed
      (attach_card_transfer_receipt photo (65 ∷ []) 1 7 (255 ∷ []) (codes "image/jpeg") none)
      card_shop

abbrev uploaded_order : Order
uploaded_order = answer_of by_card (
    attach_card_transfer_receipt photo (65 ∷ []) 1 7 (255 ∷ []) (codes "image/jpeg") none card_shop)

uploaded_ok :
    attach_card_transfer_receipt photo (65 ∷ []) 1 7 (255 ∷ []) (codes "image/jpeg") none card_shop
    ≡ ok (uploaded_order, uploaded_shop)
unfolding runs
uploaded_ok = refl

boss_live : load_live_admin order_admin_role 2 uploaded_shop ≡ ok (boss, uploaded_shop)
unfolding runs
boss_live = refl

upload_then_stale_example :
    accept_card_transfer_payment 9 1 2 0 uploaded_shop ≡ err (receipt_version_conflict 0 1)
unfolding runs
upload_then_stale_example =
    upload_then_stale photo (65 ∷ []) 9 1 7 2 (255 ∷ []) (codes "image/jpeg") none card_shop
      uploaded_shop by_card uploaded_order boss refl uploaded_ok boss_live

abbrev accepted_shop : Database
accepted_shop = committed (accept_card_transfer_payment 9 1 2 1) uploaded_shop

abbrev accepted_order : Order
accepted_order = answer_of by_card (accept_card_transfer_payment 9 1 2 1 uploaded_shop)

accepted_ok :
    accept_card_transfer_payment 9 1 2 1 uploaded_shop ≡ ok (accepted_order, accepted_shop)
unfolding runs
accepted_ok = refl

boss_still_live : load_live_admin order_admin_role 2 accepted_shop ≡ ok (boss, accepted_shop)
unfolding runs
boss_still_live = refl

accept_twice_example :
    accept_card_transfer_payment 30 1 2 1 accepted_shop ≡ ok (accepted_order, accepted_shop)
accept_twice_example =
    accept_twice 9 1 2 1 uploaded_shop accepted_shop accepted_order 30 2 boss accepted_ok
      boss_still_live

attach_inv_example : Attached 1 7 card_shop uploaded_shop uploaded_order
attach_inv_example =
    attach_inv photo (65 ∷ []) 1 7 (255 ∷ []) (codes "image/jpeg") none card_shop uploaded_shop
      uploaded_order uploaded_ok
