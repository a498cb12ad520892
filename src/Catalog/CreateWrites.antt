-- ===== src/Catalog/CreateWrites.antt =====
-- The creation and the deletion of a product in backend/app/services/admin_catalog_service.py keep the
-- forest of the categories.
use kans_shop.Prelude.{
  ℕ, ◌≡◌, refl, ap, not, Option, some, Text, find, find_by, find_key, insert, update, is_some,
  arith,
}
use kans_shop.Models.{Database, Category, Product, product_create, product_delete}
use kans_shop.Exec.{ok, err, pure, value_error, sku_already_exists, >>=-eq-ok, raise_if-eq-ok}
use kans_shop.Catalog.{load_actor, catalog_audit, category_key, load_category}
use kans_shop.Catalog.GoodsValues.{
  SplitUrl, ProductCreate, has_valid_values, values_of, has_sku, new_product, counted, uncounted,
  load_product, create_product,
}
use kans_shop.Catalog.Goods.{delete_row, delete_product}
use kans_shop.Catalog.Step.{same, kept, categories_of}
use kans_shop.Catalog.Forest.{IsForest, step-IsForest}
use kans_shop.Catalog.TreeFrame.{load_actor_same, load_category_inv, catalog_audit_same}

pub load_product_same :
    (k : ℕ) (d d' : Database) (p : Product) → load_product k d ≡ ok (p, d') → d' ≡ d
unfolding load_product
load_product_same k d d' p h = ground arith

-- A category that is written under its parent.
pub rewritten-IsForest :
    (k : ℕ) (c b : Category) (d e : Database)
    → find category_key k (categories_of d) ≡ some c
    → b.id ≡ c.id
    → b.parent_id ≡ c.parent_id
    → e.categories ≡ update category_key b d.categories
    → IsForest d
    → IsForest e
rewritten-IsForest k c b d e f i p q = step-IsForest d e (
    kept c b
      (record { id = i; stored = ground (arith, f, find_key category_key k (categories_of d) c) }) p
      q)

pub same-IsForest : (d e : Database) → e.categories ≡ d.categories → IsForest d → IsForest e
same-IsForest d e p = step-IsForest d e (same p)

pub create_product-IsForest :
    (urlsplit : Text → Option SplitUrl) (request : Text) (admin : ℕ) (v : ProductCreate)
    (n : Product) (d d' : Database)
    → create_product urlsplit request admin v d ≡ ok (n, d')
    → IsForest d
    → IsForest d'
unfolding create_product
create_product-IsForest urlsplit request admin v n d d' h =
    let (a, d1, q1, h1) = >>=-eq-ok (load_actor admin) _ d h in
    let (c, d2, q2, h2) = >>=-eq-ok (load_category v.category_id) _ d1 h1 in
    let (g, h3) =
      raise_if-eq-ok (not (has_valid_values urlsplit (values_of v))) value_error _ d2 h2 in
    let (g4, h4) =
      raise_if-eq-ok (is_some (find_by (has_sku v.sku) d2.products.rows)) sku_already_exists _ d2
        h3 in
    let (u, d3, q3, h5) =
      >>=-eq-ok (catalog_audit request admin product_create d2.products.next)
        (λ _. pure (new_product v d2.products.next))
        (record d2 {
          products = insert (new_product v) d2.products;
          categories = update category_key (counted c) d2.categories;
        })
        h4 in
    with_product d1 d2 d3 c (load_actor_same admin d d1 a q1)
      (load_category_inv v.category_id d1 d2 c q2)
      (catalog_audit_same request admin product_create d2.products.next
        (record d2 {
          products = insert (new_product v) d2.products;
          categories = update category_key (counted c) d2.categories;
        })
        d3 u q3)
      (ap (λ r. elim r [ ok r ↦ r.1 | err _ ↦ d3 ]) h5)
  where
    with_product :
        (d1 d2 d3 : Database) (c : Category)
        → d1 ≡ d
        → (find category_key v.category_id (categories_of d1) ≡ some c) × (d2 ≡ d1)
        → d3.categories ≡ update category_key (counted c) d2.categories
        → d3 ≡ d'
        → IsForest d
        → IsForest d'
    with_product d1 d2 d3 c e1 (f, e2) p e3 =
        rewritten-IsForest v.category_id c (counted c) d d' (ground (arith, f, e1)) refl refl
          (ground (arith, e1, e2, p, e3))

pub delete_product-IsForest :
    (request : Text) (admin k : ℕ) (u : Unit {0}) (d d' : Database)
    → delete_product request admin k d ≡ ok (u, d')
    → IsForest d
    → IsForest d'
unfolding delete_product delete_row
delete_product-IsForest request admin k u d d' h =
    let (a, d1, q1, h1) = >>=-eq-ok (load_actor admin) _ d h in
    let (p, d2, q2, h2) = >>=-eq-ok (load_product k) _ d1 h1 in
    let (c, d3, q3, h3) = >>=-eq-ok (load_category p.category_id) _ d2 h2 in
    without_product d1 d2 d3 p c (load_actor_same admin d d1 a q1) (load_product_same k d1 d2 p q2)
      (load_category_inv p.category_id d2 d3 c q3)
      (catalog_audit_same request admin product_delete k
        (delete_row k (record d3 { categories = update category_key (uncounted c) d3.categories }))
        d' u h3)
  where
    without_product :
        (d1 d2 d3 : Database) (p : Product) (c : Category)
        → d1 ≡ d
        → d2 ≡ d1
        → (find category_key p.category_id (categories_of d2) ≡ some c) × (d3 ≡ d2)
        → d'.categories ≡ update category_key (uncounted c) d3.categories
        → IsForest d
        → IsForest d'
    without_product d1 d2 d3 p c e1 e2 (f, e3) q =
        rewritten-IsForest p.category_id c (uncounted c) d d' (ground (arith, f, e1, e2)) refl refl
          (ground (arith, e1, e2, e3, q))
