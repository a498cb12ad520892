-- ===== src/Catalog/GoodsValues.antt =====
-- The fields of a product and its creation in backend/app/services/admin_catalog_service.py. `urlsplit`
-- is a parameter: the parts that the code reads, or nothing where it raises `ValueError`.
use kans_shop.Prelude.{
  ℕ, ◌+◌, ◌-◌, Bool, true, false, ◌&&◌, not, Option, none, some, Text, codes, find, find_by, insert,
  is_empty, is_some, ltb, text_eq, truthy,
}
use kans_shop.Prelude.Int.{ℤ, pos, ltb_ℤ}
use kans_shop.Prelude.Parse.{strip}
use kans_shop.Enums.{ProductUnit}
use kans_shop.Models.{Category, Product, product_create}
use kans_shop.Exec.{
  Exec, ok, product_not_found, sku_already_exists, value_error, pure, gets, raise_if, or_raise,
  ◌>>=◌, ◌>>◌,
}
use kans_shop.Repositories.{product_key}
use kans_shop.Catalog.{load_actor, catalog_audit, load_category, save_category}

pub record SplitUrl : Type 0 where
  pub scheme : Text
  pub hostname : Option Text
  pub username : Option Text
  pub password : Option Text

-- `ProductCreateIn`
pub record ProductCreate : Type 0 where
  pub category_id : ℕ
  pub name_uz : Text
  pub name_ru : Text
  pub description_uz : Option Text
  pub description_ru : Option Text
  pub sku : Text
  pub barcode : Option Text
  pub price : ℕ
  pub old_price : Option ℕ
  pub stock_qty : ℤ
  pub unit : ProductUnit
  pub min_order_qty : ℕ
  pub is_featured : Bool
  pub sort_order : ℤ
  pub lot_url : Option Text

-- `ProductUpdateIn`: a field that is not set is `none`, one that is cleared is `some none`.
pub record ProductChanges : Type 0 where
  pub category_id : Option ℕ
  pub name_uz : Option Text
  pub name_ru : Option Text
  pub description_uz : Option (Option Text)
  pub description_ru : Option (Option Text)
  pub sku : Option Text
  pub barcode : Option (Option Text)
  pub price : Option ℕ
  pub old_price : Option (Option ℕ)
  pub stock_qty : Option ℤ
  pub min_order_qty : Option ℕ
  pub unit : Option ProductUnit
  pub is_active : Option Bool
  pub is_featured : Option Bool
  pub sort_order : Option ℤ
  pub lot_url : Option (Option Text)

abbrev pub if_given : {A : Type 0} → (A → Bool) → Option A → Bool
if_given p none = true
if_given p (some a) = p a

abbrev pub is_plain_https : SplitUrl → Bool
is_plain_https u =
    text_eq u.scheme (codes "https")
    && (truthy u.hostname && (not (truthy u.username) && not (truthy u.password)))

abbrev pub is_https_url : (Text → Option SplitUrl) → Text → Bool
is_https_url urlsplit url = elim (urlsplit url) [ none ↦ false | some u ↦ is_plain_https u ]

-- `_check_product_values`, of the fields that are given.
unfoldable pub has_valid_values : (Text → Option SplitUrl) → ProductChanges → Bool
has_valid_values urlsplit u =
    (if_given (λ p. ltb 0 p) u.price && if_given (λ q. not (ltb_ℤ q (pos 0))) u.stock_qty)
    && ((if_given (λ q. ltb 0 q) u.min_order_qty && if_given (λ s. not (is_empty (strip s))) u.sku)
        && if_given (λ o. if_given (is_https_url urlsplit) o) u.lot_url)

-- The fields of a new product, as an update that gives them.
abbrev pub values_of : ProductCreate → ProductChanges
values_of v = record {
  category_id = some v.category_id;
  name_uz = some v.name_uz;
  name_ru = some v.name_ru;
  description_uz = some v.description_uz;
  description_ru = some v.description_ru;
  sku = some v.sku;
  barcode = some v.barcode;
  price = some v.price;
  old_price = some v.old_price;
  stock_qty = some v.stock_qty;
  min_order_qty = some v.min_order_qty;
  unit = some v.unit;
  is_active = none;
  is_featured = some v.is_featured;
  sort_order = some v.sort_order;
  lot_url = some v.lot_url;
}

abbrev pub new_product : ProductCreate → ℕ → Product
new_product v k = record {
  id = k;
  category_id = v.category_id;
  name_uz = v.name_uz;
  name_ru = v.name_ru;
  description_uz = v.description_uz;
  description_ru = v.description_ru;
  sku = v.sku;
  barcode = v.barcode;
  price = v.price;
  old_price = v.old_price;
  unit = v.unit;
  is_featured = v.is_featured;
  sort_order = v.sort_order;
  stock_qty = v.stock_qty;
  min_order_qty = v.min_order_qty;
  is_active = true;
  lot_url = v.lot_url;
  edit_version = 0;
  sold_count = pos 0;
}

abbrev pub insert_product : (ℕ → Product) → Exec Product
insert_product row d = ok (row d.products.next, record d { products = insert row d.products })

abbrev pub counted : Category → Category
counted c = record c { products_count = c.products_count + 1 }

abbrev pub uncounted : Category → Category
uncounted c = record c { products_count = c.products_count - 1 }

abbrev pub has_sku : Text → Product → Bool
has_sku sku p = text_eq p.sku sku

unfoldable pub load_product : ℕ → Exec Product
load_product k = do
  found ← gets (λ d. find product_key k d.products.rows)
  or_raise found (product_not_found k)

unfoldable pub create_product : (Text → Option SplitUrl) → Text → ℕ → ProductCreate → Exec Product
create_product urlsplit request admin v = do
  load_actor admin
  c ← load_category v.category_id
  raise_if (not (has_valid_values urlsplit (values_of v))) value_error
  taken ← gets (λ d. find_by (has_sku v.sku) d.products.rows)
  raise_if (is_some taken) sku_already_exists
  p ← insert_product (new_product v)
  save_category (counted c)
  catalog_audit request admin product_create p.id
  pure p
