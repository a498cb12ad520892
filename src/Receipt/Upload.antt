-- ===== src/Receipt/Upload.antt =====
-- What an upload of a receipt does (backend/app/services/receipt_service.py).
use kans_shop.Prelude.{
  ℕ, ◌+◌, ◌≡◌, refl, ap, sym, true, false, Option, some, Text, arith, update, Option-cases, inl,
  inr,
}
use mathlib.Core.Path.{subst}
use kans_shop.Enums.{PaymentStatus}
use kans_shop.Models.{Database, Order}
use kans_shop.Exec.{ok, err, Result}
use kans_shop.Repositories.{order_key}
use kans_shop.Order.{lock_order, is_terminal}
use kans_shop.Order.Status.{order_of}
use kans_shop.Order.Growth.{Evolves, save-Evolves, Grown, stay}
use kans_shop.Receipt.{
  attach_card_transfer_receipt, with_receipt, validate_upload, validate_receipt_content,
  takes_receipt, is_card, ImageFormat, MimeType, stored_key,
}

pub with_receipt-Grown :
    (key type : Text) (file : Option Text) (o : Order)
    → takes_receipt o.payment_status ≡ true
    → Grown o (with_receipt key type file o)
with_receipt-Grown key type file o takes = record {
  life = stay;
  same_id = refl;
  same_user = refl;
  same_number = refl;
  same_total = refl;
  same_items = refl;
  same_method = refl;
  paid_stays = λ h. absurd (ground (arith, takes, h));
}

-- What a successful upload has found and done.
pub record Attached (k owner : ℕ) (d e : Database) (r : Order) : Type 0 where
  pub before : Order
  pub found : order_of d k ≡ some before
  pub own : before.user_id ≡ owner
  pub by_card : is_card before.payment_method ≡ true
  pub live : is_terminal before.status ≡ false
  pub takes : takes_receipt before.payment_status ≡ true
  pub next_version : r.receipt_version ≡ before.receipt_version + 1
  pub uploaded : r.payment_status ≡ PaymentStatus.receipt_uploaded
  pub grown : Grown before r
  pub state : e ≡ record d { orders = update order_key r d.orders }

module _ (image_format : Text → Option ImageFormat) where
  -- An upload that succeeds has found the order, which belongs to the uploader, is paid by card
  -- transfer, is in no final status and waits for a receipt; it raises the receipt version by one,
  -- marks the receipt as uploaded, keeps what was agreed at checkout, and writes that row only.
  pub attach_inv :
      (uuid : Text) (k owner : ℕ) (content declared : Text) (file : Option Text) (d e : Database)
      (r : Order)
      → attach_card_transfer_receipt image_format uuid k owner content declared file d ≡ ok (r, e)
      → Attached k owner d e r
  unfolding attach_card_transfer_receipt lock_order validate_upload
  attach_inv uuid k owner content declared file d e r h = elim (Option-cases (order_of d k)) [
    | inl gone ↦ absurd (ground (arith, gone, h))
    | inr (o, found) ↦
        attached o found (validate_receipt_content image_format content declared) refl
  ]
    where
      attached :
          (o : Order)
          → order_of d k ≡ some o
          → (v : Result MimeType) → validate_receipt_content image_format content declared ≡ v
          → Attached k owner d e r
      attached o found (err x) q = absurd (ground arith)
      attached o found (ok type) q =
          let row = with_receipt (stored_key image_format uuid type) declared file o in
          let result : r ≡ row = ground arith in
          let takes : takes_receipt o.payment_status ≡ true = ground arith in
          record {
            before = o;
            found = found;
            own = ground arith;
            by_card = ground arith;
            live = ground arith;
            takes = takes;
            next_version = ground (arith, result);
            uploaded = ground (arith, result);
            grown =
                subst (λ x. Grown o x) (sym result)
                  (with_receipt-Grown (stored_key image_format uuid type) declared file o takes);
            state = ground arith;
          }

  pub attach-Evolves :
      (uuid : Text) (k owner : ℕ) (content declared : Text) (file : Option Text) (d e : Database)
      (r : Order)
      → attach_card_transfer_receipt image_format uuid k owner content declared file d ≡ ok (r, e)
      → Evolves d e
  attach-Evolves uuid k owner content declared file d e r h =
      let a = attach_inv uuid k owner content declared file d e r h in
      save-Evolves k a.before r d e a.found a.grown (ap (λ x. x.orders) a.state)
