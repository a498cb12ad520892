-- ===== src/Receipt.antt =====
-- Receipts of card transfers: backend/app/services/receipt_service.py, the checks of
-- backend/app/core/uploads.py and the names of backend/app/services/receipt_storage.py. The image
-- library is a parameter, as are the random part of a storage key and the file system.
pub mod Accept
pub mod Upload
pub mod Safety
use kans_shop.Prelude.{
  ℕ, zero, suc, ◌+◌, ◌-◌, Bool, true, false, ◌&&◌, ◌||◌, not, Option, none, some, List, [], ◌∷◌,
  ◌++◌, Text, codes, show, truthy, text_eq, length, ltb, ◌==◌, find, insert, if◌then◌else◌,
}
use kans_shop.Prelude.Parse.{is_space}
use kans_shop.Enums.{AdminRole, OrderStatus, PaymentMethod, PaymentStatus, card_transfer}
use kans_shop.Models.{Database, Order, AdminAuditEvent, AuditAction}
use kans_shop.Exec.{
  Exec, Result, ok, err, order_not_found, forbidden, order_already_processed, invalid_file,
  value_error, pure, raise, raise_if, or_raise, gets, modify, ◌>>=◌, ◌>>◌,
}
use kans_shop.Repositories.{get_order_by_id, save_order}
use kans_shop.Outbox.{load_live_admin, order_admin_role}
use kans_shop.Order.{lock_order, get_order, is_terminal}

pub data MimeType : Type 0 where
  jpeg png webp pdf : MimeType

pub data ImageFormat : Type 0 where
  jpeg png webp : ImageFormat

abbrev pub max_receipt_size : ℕ
max_receipt_size = 5242880

-- `ALLOWED_RECEIPT_MIME_TYPES`
mime_type : Text → Option MimeType
mime_type t =
    if text_eq t (codes "image/jpeg")
    then some MimeType.jpeg
    else if text_eq t (codes "image/png")
    then some MimeType.png
    else if text_eq t (codes "image/webp")
    then some MimeType.webp
    else if text_eq t (codes "application/pdf")
    then some pdf
    else none

starts_with : Text → Text → Bool
starts_with [] s = true
starts_with (c ∷ p) [] = false
starts_with (c ∷ p) (x ∷ s) = c == x && starts_with p s

drop : ℕ → Text → Text
drop zero s = s
drop (suc n) [] = []
drop (suc n) (c ∷ s) = drop n s

-- `content[-2048:]`
last_bytes : Text → Text
unfolding drop
last_bytes s = drop (length s - 2048) s

-- `rstrip` and `endswith`, on the reversed bytes; bytes have fewer spaces than texts.
is_byte_space : ℕ → Bool
is_byte_space c = c == 32 || (ltb 8 c && ltb c 14)

skip_spaces : Text → Text
skip_spaces [] = []
skip_spaces (c ∷ s) = let rest = skip_spaces s in if is_byte_space c then rest else c ∷ s

reversed : Text → Text → Text
reversed acc [] = acc
reversed acc (c ∷ s) = reversed (c ∷ acc) s

is_pdf : Text → Bool
unfolding starts_with skip_spaces reversed last_bytes is_byte_space
is_pdf content =
    starts_with (codes "%PDF-") content
    && starts_with (codes "FOE%%") (skip_spaces (reversed [] (last_bytes content)))

abbrev same_format : ImageFormat → MimeType → Bool
same_format ImageFormat.jpeg MimeType.jpeg = true
same_format ImageFormat.png MimeType.png = true
same_format ImageFormat.webp MimeType.webp = true
same_format _ _ = false

abbrev pub extension : MimeType → Text
extension MimeType.jpeg = codes "jpg"
extension MimeType.png = codes "png"
extension MimeType.webp = codes "webp"
extension pdf = codes "pdf"

-- `has_private_receipt_evidence`
abbrev pub has_private_receipt_evidence : Order → Bool
has_private_receipt_evidence o = truthy o.receipt_storage_key || truthy o.receipt_file_id

abbrev pub is_card : PaymentMethod → Bool
is_card card_transfer = true
is_card _ = false

abbrev pub takes_receipt : PaymentStatus → Bool
takes_receipt PaymentStatus.pending = true
takes_receipt PaymentStatus.receipt_uploaded = true
takes_receipt _ = false

-- `_validate_receipt_upload_order`
unfoldable pub validate_upload : Order → ℕ → Exec (Unit {0})
validate_upload o owner = do
  raise_if (not (o.user_id == owner)) forbidden
  raise_if (not (is_card o.payment_method)) forbidden
  raise_if (is_terminal o.status || not (takes_receipt o.payment_status)) order_already_processed

unfoldable pub get_receipt_upload_order : ℕ → ℕ → Exec Order
get_receipt_upload_order k owner = do o ← get_order k; validate_upload o owner; pure o

-- The order as a new receipt leaves it.
abbrev pub with_receipt : Text → Text → Option Text → Order → Order
with_receipt key type file o = record o {
  receipt_storage_key = some key;
  receipt_content_type = some type;
  receipt_file_id = file;
  receipt_url = none;
  receipt_version = o.receipt_version + 1;
  payment_status = PaymentStatus.receipt_uploaded;
}

module _ (image_format : Text → Option ImageFormat) where
  abbrev is_image : Text → MimeType → Bool
  is_image content type = elim (image_format content) [ none ↦ false | some f ↦ same_format f type ]

  content_ok : Text → MimeType → Bool
  unfolding is_pdf
  content_ok content pdf = is_pdf content
  content_ok content type = is_image content type

  unfoldable pub validate_receipt_content : Text → Text → Result MimeType
  unfolding mime_type content_ok
  validate_receipt_content content declared =
      if ltb max_receipt_size (length content)
      then err invalid_file
      else elim (mime_type declared) [
        | none ↦ err invalid_file
        | some type ↦ if content_ok content type then ok type else err invalid_file
      ]

  abbrev pub lift : {A : Type 0} → Result A → Exec A
  lift (ok a) d = ok (a, d)
  lift (err e) d = err e

  -- `storage.store`: a fresh key with the extension of the type.
  abbrev pub stored_key : Text → MimeType → Text
  stored_key uuid type = uuid ++ (codes "." ++ extension type)

  unfoldable pub attach_card_transfer_receipt :
      Text → ℕ → ℕ → Text → Text → Option Text → Exec Order
  attach_card_transfer_receipt uuid k owner content declared file = do
    o ← lock_order k
    validate_upload o owner
    type ← lift (validate_receipt_content content declared)
    save_order (with_receipt (stored_key uuid type) declared file o)
    pure (with_receipt (stored_key uuid type) declared file o)

pub record ReceiptRead : Type 0 where
  pub path : Text
  pub content_type : Text

abbrev check_reader : Order → ℕ → Option ℕ → Exec (Unit {0})
check_reader o user (some admin) = do load_live_admin order_admin_role admin; pure tt
check_reader o user none = do raise_if (not (o.user_id == user)) forbidden; pure tt

module _ (resolve : Text → Option Text) where
  abbrev read_object : ℕ → Option Text → Option Text → Exec ReceiptRead
  read_object k (some key) (some type) = do
    raise_if (not (truthy (some key)) || not (truthy (some type))) (order_not_found k)
    path ← or_raise (resolve key) invalid_file
    pure (record { path = path; content_type = type })
  read_object k _ _ = raise (order_not_found k)

  unfoldable pub open_order_receipt : ℕ → ℕ → Option ℕ → Exec ReceiptRead
  open_order_receipt k user admin = do
    o ← get_order k
    check_reader o user admin
    read_object k o.receipt_storage_key o.receipt_content_type
