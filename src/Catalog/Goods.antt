-- ===== src/Catalog/Goods.antt =====
-- The products in backend/app/services/admin_catalog_service.py. `urlsplit` is a parameter: the parts that
-- the code reads, or nothing where it raises `ValueError`. Money is in cents.
use kans_shop.Prelude.{
  ℕ, ◌+◌, Bool, false, ◌&&◌, ◌||◌, not, Option, none, some, Text, find, find_by, select, without,
  map, is_number, ◌==◌, text_eq, same_text, given, bool_eq, if◌then◌else◌,
}
use kans_shop.Prelude.Int.{ℤ, pos, negsuc, neg, ltb_ℤ}
use kans_shop.Enums.{unit_eq}
use kans_shop.Models.{
  Database, Product, Cart, CartItem, Order, OrderItem, product_update, product_delete,
  product_stock_adjust,
}
use kans_shop.Exec.{
  Exec, ok, sku_already_exists, value_error, runtime_error, pure, gets, modify, raise_if, or_raise,
  ◌>>=◌, ◌>>◌,
}
use kans_shop.Repositories.{product_key, save_product, adjusted, is_zero}
use kans_shop.Catalog.{
  load_actor, catalog_audit, category_key, load_category, check_edit_version, save_category,
  differs, int_eq, same_number,
}
use kans_shop.Catalog.GoodsValues.{
  SplitUrl, ProductChanges, has_valid_values, counted, uncounted, has_sku, load_product,
}

abbrev pub changed_product : ProductChanges → Product → Product
changed_product u p = record p {
  category_id = given u.category_id p.category_id;
  name_uz = given u.name_uz p.name_uz;
  name_ru = given u.name_ru p.name_ru;
  description_uz = given u.description_uz p.description_uz;
  description_ru = given u.description_ru p.description_ru;
  sku = given u.sku p.sku;
  barcode = given u.barcode p.barcode;
  price = given u.price p.price;
  old_price = given u.old_price p.old_price;
  stock_qty = given u.stock_qty p.stock_qty;
  min_order_qty = given u.min_order_qty p.min_order_qty;
  unit = given u.unit p.unit;
  is_active = given u.is_active p.is_active;
  is_featured = given u.is_featured p.is_featured;
  sort_order = given u.sort_order p.sort_order;
  lot_url = given u.lot_url p.lot_url;
}

abbrev changes_text : ProductChanges → Product → Bool
changes_text u p =
    (differs text_eq u.name_uz p.name_uz || differs text_eq u.name_ru p.name_ru)
    || ((differs same_text u.description_uz p.description_uz
          || differs same_text u.description_ru p.description_ru)
        || (differs text_eq u.sku p.sku
            || (differs same_text u.barcode p.barcode || differs same_text u.lot_url p.lot_url)))

abbrev changes_number : ProductChanges → Product → Bool
changes_number u p =
    (differs ◌==◌ u.category_id p.category_id
      || (differs ◌==◌ u.price p.price || differs same_number u.old_price p.old_price))
    || (differs int_eq u.stock_qty p.stock_qty
        || (differs ◌==◌ u.min_order_qty p.min_order_qty
            || differs int_eq u.sort_order p.sort_order))

abbrev changes_flag : ProductChanges → Product → Bool
changes_flag u p =
    differs unit_eq u.unit p.unit
    || (differs bool_eq u.is_active p.is_active || differs bool_eq u.is_featured p.is_featured)

abbrev pub changes_product : ProductChanges → Product → Bool
changes_product u p = changes_text u p || (changes_number u p || changes_flag u p)

-- Another product has the new SKU.
abbrev pub takes_sku : ProductChanges → Product → Option Product → Bool
takes_sku u p none = false
takes_sku u p (some q) = differs text_eq u.sku p.sku && not (q.id == p.id)

-- The counts of the two categories. The old one is there by its foreign key.
abbrev pub recount : ℕ → ℕ → Exec (Unit {0})
recount old new d =
    if old == new
    then ok (tt, d)
    else (do
      target ← load_category new
      source ← gets (λ d. find category_key old d.categories.rows)
      c ← or_raise source runtime_error
      save_category (uncounted c)
      save_category (counted target))
        d

abbrev pub updated_product : ProductChanges → Product → Product
updated_product u p = record (changed_product u p) { edit_version = p.edit_version + 1 }

abbrev pub write_product : Text → ℕ → ProductChanges → Product → Exec Product
write_product request admin u p d =
    if changes_product u p
    then (do
      taken ← gets (λ d. find_by (has_sku (given u.sku p.sku)) d.products.rows)
      raise_if (takes_sku u p taken) sku_already_exists
      recount p.category_id (given u.category_id p.category_id)
      save_product (updated_product u p)
      catalog_audit request admin product_update p.id
      pure (updated_product u p))
        d
    else ok (p, d)

unfoldable pub update_product :
    (Text → Option SplitUrl) → Text → ℕ → ℕ → ℕ → ProductChanges → Exec Product
update_product urlsplit request admin k expected u = do
  load_actor admin
  p ← load_product k
  check_edit_version p.edit_version expected
  raise_if (not (has_valid_values urlsplit u)) value_error
  write_product request admin u p

-- `session.delete(product)`: a cart loses its items of it, an item of an order its reference.
abbrev drop_from_cart : ℕ → Cart → Cart
drop_from_cart k c = record c { items = select (λ (i : CartItem). not (i.product_id == k)) c.items }

abbrev forget_item : ℕ → OrderItem → OrderItem
forget_item k i = if is_number k i.product_id then record i { product_id = none } else i

abbrev forget_product : ℕ → Order → Order
forget_product k o = record o { items = map (forget_item k) o.items }

unfoldable pub delete_row : ℕ → Database → Database
delete_row k d = record d {
  products = record d.products { rows = without product_key k d.products.rows };
  carts = record d.carts { rows = map (drop_from_cart k) d.carts.rows };
  orders = record d.orders { rows = map (forget_product k) d.orders.rows };
}

unfoldable pub delete_product : Text → ℕ → ℕ → Exec (Unit {0})
delete_product request admin k = do
  load_actor admin
  p ← load_product k
  c ← load_category p.category_id
  save_category (uncounted c)
  modify (delete_row k)
  catalog_audit request admin product_delete k

-- `max(delta, -stock_qty)`
abbrev opposite : ℤ → ℤ
opposite (pos n) = neg n
opposite (negsuc n) = pos (n + 1)

abbrev pub adjustment_of : ℤ → Product → ℤ
adjustment_of delta p = if ltb_ℤ delta (opposite p.stock_qty) then opposite p.stock_qty else delta

abbrev pub adjust_found : Text → ℕ → ℤ → Product → Exec Product
adjust_found request admin delta p d =
    if is_zero (adjustment_of delta p)
    then ok (p, d)
    else (do
      save_product (adjusted (adjustment_of delta p) p)
      catalog_audit request admin product_stock_adjust p.id
      pure (adjusted (adjustment_of delta p) p))
        d

unfoldable pub adjust_product_stock : Text → ℕ → ℕ → ℤ → Exec Product
adjust_product_stock request admin k delta = do
  load_actor admin
  p ← load_product k
  adjust_found request admin delta p
