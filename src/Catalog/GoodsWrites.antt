-- ===== src/Catalog/GoodsWrites.antt =====
-- The calls on products in backend/app/services/admin_catalog_service.py keep the forest of the categories.
use kans_shop.Prelude.{
  ℕ, ◌≡◌, refl, sym, ◌∙◌, false, not, Option, find-replace_ne, some, Text, find, find_by, find_key,
  update, given, ◌==◌, arith, inl, inr, Bool-cases, Option-cases,
}
use mathlib.Core.Path.{subst}
use kans_shop.Prelude.Int.{ℤ}
use kans_shop.Models.{Database, Category, Product, product_update, product_stock_adjust}
use kans_shop.Exec.{
  ok, pure, gets, or_raise, value_error, sku_already_exists, runtime_error, ◌>>=◌, ◌>>◌, >>=-eq-ok,
  raise_if-eq-ok,
}
use kans_shop.Repositories.{save_product, adjusted, is_zero}
use kans_shop.Catalog.{
  load_actor, catalog_audit, category_key, load_category, check_edit_version, save_category,
}
use kans_shop.Catalog.GoodsValues.{
  SplitUrl, ProductChanges, has_valid_values, has_sku, counted, uncounted, load_product,
}
use kans_shop.Catalog.Goods.{
  changes_product, takes_sku, recount, updated_product, write_product, update_product,
  adjustment_of, adjust_found, adjust_product_stock,
}
use kans_shop.Catalog.Step.{categories_of}
use kans_shop.Catalog.Forest.{IsForest}
use kans_shop.Catalog.TreeFrame.{
  load_actor_same, load_category_inv, catalog_audit_same, check_version_same,
}
use kans_shop.Catalog.CreateWrites.{load_product_same, rewritten-IsForest, same-IsForest}

recount-IsForest :
    (old new : ℕ) (u : Unit {0}) (d d' : Database)
    → recount old new d ≡ ok (u, d')
    → IsForest d
    → IsForest d'
recount-IsForest old new u d d' h = elim (Bool-cases (old == new)) [
  | inl stays ↦ same-IsForest d d' (ground (arith, stays, h))
  | inr moves ↦
      let (t, d1, q1, h1) =
        >>=-eq-ok (load_category new)
          (λ target. gets (λ d. find category_key old d.categories.rows) >>= λ source.
            or_raise source runtime_error >>= λ c.
            save_category (uncounted c) >> save_category (counted target))
          d (rw moves at h) in
      recounted d1 t (load_category_inv new d d1 t q1) moves h1
]
  where
    recounted :
        (d1 : Database) (t : Category)
        → (find category_key new (categories_of d) ≡ some t) × (d1 ≡ d)
        → (old == new) ≡ false
        → (gets (λ d. find category_key old d.categories.rows) >>= λ source.
              or_raise source runtime_error >>= λ c.
              save_category (uncounted c) >> save_category (counted t))
            d1
          ≡ ok (u, d')
        → IsForest d
        → IsForest d'
    recounted d1 t (f, e1) ne h forest =
        elim (Option-cases (find category_key old (categories_of d))) [
          | inl gone ↦ ground (arith, gone, h, e1)
          | inr (c, g) ↦
              let m : Database = record d {
                categories = update category_key (uncounted c) d.categories;
              } in
              let there : find category_key new (categories_of m) ≡ some t =
                find-replace_ne category_key new (uncounted c) (categories_of d)
                  (ground (arith, ne, find_key category_key old (categories_of d) c g))
                ∙ f in
              rewritten-IsForest new t (counted t) m d' there refl refl (ground (arith, g, h, e1))
                (rewritten-IsForest old c (uncounted c) d m g refl refl refl forest)
        ]

write_product-IsForest :
    (request : Text) (admin : ℕ) (u : ProductChanges) (p n : Product) (d d' : Database)
    → write_product request admin u p d ≡ ok (n, d')
    → IsForest d
    → IsForest d'
write_product-IsForest request admin u p n d d' h = elim (Bool-cases (changes_product u p)) [
  | inr nothing ↦ same-IsForest d d' (ground (arith, nothing, h))
  | inl something ↦
      let (g, h1) =
        raise_if-eq-ok (takes_sku u p (find_by (has_sku (given u.sku p.sku)) d.products.rows))
          sku_already_exists
          (recount p.category_id (given u.category_id p.category_id)
            >> (save_product (updated_product u p)
                >> (catalog_audit request admin product_update p.id >> pure (updated_product u p))))
          d (rw something at h) in
      let (v, d1, q1, h2) =
        >>=-eq-ok (recount p.category_id (given u.category_id p.category_id))
          (λ _.
            save_product (updated_product u p)
            >> (catalog_audit request admin product_update p.id >> pure (updated_product u p)))
          d h1 in
      let (w, d2, q2, h3) =
        >>=-eq-ok (save_product (updated_product u p))
          (λ _. catalog_audit request admin product_update p.id >> pure (updated_product u p)) d1
          h2 in
      let (x, d3, q3, h4) =
        >>=-eq-ok (catalog_audit request admin product_update p.id)
          (λ _. pure (updated_product u p)) d2 h3 in
      let s3 = catalog_audit_same request admin product_update p.id d2 d3 x q3 in
      λ forest.
        same-IsForest d1 d' (ground (arith, q2, s3, h4))
          (recount-IsForest p.category_id (given u.category_id p.category_id) v d d1 q1 forest)
]

pub update_product-IsForest :
    (urlsplit : Text → Option SplitUrl) (request : Text) (admin k expected : ℕ) (u : ProductChanges)
    (n : Product) (d d' : Database)
    → update_product urlsplit request admin k expected u d ≡ ok (n, d')
    → IsForest d
    → IsForest d'
unfolding update_product
update_product-IsForest urlsplit request admin k expected u n d d' h =
    let (a, d1, q1, h1) = >>=-eq-ok (load_actor admin) _ d h in
    let (p, d2, q2, h2) = >>=-eq-ok (load_product k) _ d1 h1 in
    let (v, d3, q3, h3) = >>=-eq-ok (check_edit_version p.edit_version expected) _ d2 h2 in
    let (g, h4) =
      raise_if-eq-ok (not (has_valid_values urlsplit u)) value_error
        (write_product request admin u p) d3 h3 in
    let all : d3 ≡ d =
      check_version_same p.edit_version expected d2 d3 v q3
      ∙ (load_product_same k d1 d2 p q2 ∙ load_actor_same admin d d1 a q1) in
    λ forest. write_product-IsForest request admin u p n d3 d' h4 (subst IsForest (sym all) forest)

pub adjust-IsForest :
    (request : Text) (admin k : ℕ) (delta : ℤ) (n : Product) (d d' : Database)
    → adjust_product_stock request admin k delta d ≡ ok (n, d')
    → IsForest d
    → IsForest d'
unfolding adjust_product_stock
adjust-IsForest request admin k delta n d d' h =
    let (a, d1, q1, h1) = >>=-eq-ok (load_actor admin) _ d h in
    let (p, d2, q2, h2) = >>=-eq-ok (load_product k) (adjust_found request admin delta) d1 h1 in
    same-IsForest d d'
      (adjusted_same d1 d2 p (load_actor_same admin d d1 a q1) (load_product_same k d1 d2 p q2) h2)
  where
    stored_same :
        (p new : Product) (d2 : Database)
        → (save_product new >> (catalog_audit request admin product_stock_adjust p.id >> pure new))
            d2
          ≡ ok (n, d')
        → d'.categories ≡ d2.categories
    stored_same p new d2 h =
        let (w, d3, q3, h3) =
          >>=-eq-ok (save_product new)
            (λ _. catalog_audit request admin product_stock_adjust p.id >> pure new) d2 h in
        let (x, d4, q4, h4) =
          >>=-eq-ok (catalog_audit request admin product_stock_adjust p.id) (λ _. pure new) d3 h3 in
        let s4 = catalog_audit_same request admin product_stock_adjust p.id d3 d4 x q4 in
        ground (arith, q3, s4, h4)

    adjusted_same :
        (d1 d2 : Database) (p : Product)
        → d1 ≡ d
        → d2 ≡ d1
        → adjust_found request admin delta p d2 ≡ ok (n, d')
        → d'.categories ≡ d.categories
    adjusted_same d1 d2 p e1 e2 h = elim (Bool-cases (is_zero (adjustment_of delta p))) [
      | inl nothing ↦ ground (arith, nothing, h, e1, e2)
      | inr something ↦
          let s =
            stored_same p (adjusted (adjustment_of delta p) p) d2 (ground (arith, something, h)) in
          ground (arith, s, e1, e2)
    ]
