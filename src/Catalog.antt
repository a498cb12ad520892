-- ===== src/Catalog.antt =====
-- backend/app/services/admin_catalog_service.py: what its calls share. The advisory lock of the category
-- tree makes a call one step; a request id (`uuid4().hex`) is a parameter.
pub mod Parent
pub mod Tree
pub mod Climb
pub mod GoodsValues
pub mod Goods
pub mod Step
pub mod Forest
pub mod TreeFrame
pub mod TreeWrites
pub mod ImageWrites
pub mod CreateWrites
pub mod GoodsWrites
pub mod Calls
use kans_shop.Prelude.{
  ℕ, Bool, true, false, not, Option, none, some, Text, find, update, text_eq, same_text, leb, ◌==◌,
  is_number, bool_eq, codes, show, is_empty, length, ltb, ◌||◌, ◌++◌, List, [], ◌∷◌, if◌then◌else◌,
}
use kans_shop.Prelude.Int.{ℤ, pos, negsuc}
use kans_shop.Models.{Database, Admin, Category, Product, AuditAction}
use kans_shop.Exec.{
  Exec, pure, invalid_file, category_not_found, catalog_edit_conflict, gets, modify, or_raise,
  raise_if, ◌>>=◌, ◌>>◌,
}
use kans_shop.Outbox.{load_live_admin, management_role}
use mathlib.Core.List.{reverse}
use kans_shop.Receipt.{ImageFormat}
use kans_shop.Audit.{write_audit_event}

unfoldable pub load_actor : ℕ → Exec Admin
load_actor k = load_live_admin management_role k

unfoldable pub catalog_audit : Text → ℕ → AuditAction → ℕ → Exec (Unit {0})
catalog_audit request admin action resource = do
  write_audit_event admin action resource request
  pure tt

abbrev pub category_key : Category → ℕ
category_key c = c.id

unfoldable pub load_category : ℕ → Exec Category
load_category k = do
  found ← gets (λ d. find category_key k d.categories.rows)
  or_raise found (category_not_found k)

unfoldable pub check_edit_version : ℕ → ℕ → Exec (Unit {0})
check_edit_version current expected = raise_if (not (current == expected)) catalog_edit_conflict

abbrev pub save_category : Category → Exec (Unit {0})
save_category c = modify (λ d. record d { categories = update category_key c d.categories })

-- `getattr(entity, field) != value`, for a field that the update gives.
abbrev pub differs : {A : Type 0} → (A → A → Bool) → Option A → A → Bool
differs eq none old = false
differs eq (some new) old = not (eq new old)

abbrev pub int_eq : ℤ → ℤ → Bool
int_eq (pos m) (pos n) = m == n
int_eq (negsuc m) (negsuc n) = m == n
int_eq _ _ = false

abbrev pub same_number : Option ℕ → Option ℕ → Bool
same_number none none = true
same_number (some j) (some k) = j == k
same_number _ _ = false

-- What an upload of a picture uses from outside: the format that the image library reads, if it reads
-- the file, and `media_base_url` of the settings.
pub record MediaStore : Type 0 where
  pub image_format : Text → Option ImageFormat
  pub media_base_url : Text

-- `_IMAGE_TYPES`
abbrev image_type : Text → Option ImageFormat
image_type t =
    if text_eq t (codes "image/jpeg")
    then some ImageFormat.jpeg
    else if text_eq t (codes "image/png")
    then some ImageFormat.png
    else if text_eq t (codes "image/webp")
    then some ImageFormat.webp
    else none

abbrev extension_of : ImageFormat → Text
extension_of ImageFormat.jpeg = codes "jpg"
extension_of ImageFormat.png = codes "png"
extension_of ImageFormat.webp = codes "webp"

abbrev is_format : ImageFormat → Option ImageFormat → Bool
is_format ImageFormat.jpeg (some ImageFormat.jpeg) = true
is_format ImageFormat.png (some ImageFormat.png) = true
is_format ImageFormat.webp (some ImageFormat.webp) = true
is_format _ _ = false

abbrev max_image_bytes : ℕ
max_image_bytes = 5242880

module _ (media : MediaStore) where
  unfoldable pub validated_image : Text → Text → Exec Text
  validated_image content content_type = do
    expected ← or_raise (image_type content_type) invalid_file
    raise_if (is_empty content || ltb max_image_bytes (length content)) invalid_file
    raise_if (not (is_format expected (media.image_format content))) invalid_file
    pure (extension_of expected)

  abbrev strip_slashes : Text → Text
  strip_slashes base = reverse (drop_slashes (reverse base))
    where
      drop_slashes : Text → Text
      drop_slashes [] = []
      drop_slashes (c ∷ s) = let rest = drop_slashes s in if c == b'/' then rest else c ∷ s

  -- The address that `_store_public_image` returns.
  unfoldable pub public_url : Text → ℕ → Text → Text → Text
  public_url owner_type owner uuid extension =
      strip_slashes media.media_base_url
      ++ (b'/' ∷ owner_type ++ (b'/' ∷ show owner ++ (b'/' ∷ uuid ++ (b'.' ∷ extension))))
