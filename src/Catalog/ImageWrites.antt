-- ===== src/Catalog/ImageWrites.antt =====
-- The pictures of categories in backend/app/services/admin_catalog_service.py keep the forest.
use kans_shop.Prelude.{
  ℕ, ◌≡◌, refl, ap, some, Text, codes, find, find_key, update, arith, inl, inr, Bool-cases,
}
use kans_shop.Models.{Database, Category, category_image_update, category_image_delete}
use kans_shop.Exec.{ok, err, pure, ◌>>◌, >>=-eq-ok}
use kans_shop.Catalog.{
  MediaStore, validated_image, public_url, load_actor, catalog_audit, category_key, load_category,
  save_category,
}
use kans_shop.Catalog.Tree.{
  delete_category_image, has_image, without_image, clear_image, with_image, set_category_image,
}
use kans_shop.Catalog.Step.{TreeStep, same, kept, categories_of}
use kans_shop.Catalog.TreeFrame.{load_actor_same, load_category_inv, catalog_audit_same}

pub delete_image-TreeStep :
    (request : Text) (admin k : ℕ) (n : Category) (d d' : Database)
    → delete_category_image request admin k d ≡ ok (n, d')
    → TreeStep d d'
unfolding delete_category_image
delete_image-TreeStep request admin k n d d' h =
    let (a, d1, q1, h1) = >>=-eq-ok (load_actor admin) _ d h in
    let (c, d2, q2, h2) = >>=-eq-ok (load_category k) (clear_image request admin) d1 h1 in
    cleared d1 d2 c (load_actor_same admin d d1 a q1) (load_category_inv k d1 d2 c q2) h2
  where
    cleared :
        (d1 d2 : Database) (c : Category)
        → d1 ≡ d
        → (find category_key k (categories_of d1) ≡ some c) × (d2 ≡ d1)
        → clear_image request admin c d2 ≡ ok (n, d')
        → TreeStep d d'
    cleared d1 d2 c e1 (f, e2) h = elim (Bool-cases (has_image c)) [
      | inr none_there ↦ same (ground (arith, none_there, h, e1, e2))
      | inl there ↦
          let (v, d3, q, h1) =
            >>=-eq-ok (save_category (without_image c))
              (λ _.
                catalog_audit request admin category_image_delete c.id >> pure (without_image c))
              d2 (rw there at h) in
          let (w, d4, q4, h2) =
            >>=-eq-ok (catalog_audit request admin category_image_delete c.id)
              (λ _. pure (without_image c)) d3 h1 in
          let s4 = catalog_audit_same request admin category_image_delete c.id d3 d4 w q4 in
          kept c (without_image c)
            (record {
              id = refl;
              stored = ground (arith, f, e1, find_key category_key k (categories_of d) c);
            })
            refl (ground (arith, q, s4, h2, e1, e2))
    ]

module _ (media : MediaStore) where
  pub set_image-TreeStep :
      (uuid request : Text) (admin k : ℕ) (content content_type : Text) (n : Category)
      (d d' : Database)
      → set_category_image media uuid request admin k content content_type d ≡ ok (n, d')
      → TreeStep d d'
  unfolding set_category_image validated_image
  set_image-TreeStep uuid request admin k content content_type n d d' h =
      let (ext, d0, q0, h0) = >>=-eq-ok (validated_image media content content_type) _ d h in
      let (a, d1, q1, h1) = >>=-eq-ok (load_actor admin) _ d0 h0 in
      let (c, d2, q2, h2) = >>=-eq-ok (load_category k) _ d1 h1 in
      let new : Category = with_image (public_url media (codes "categories") k uuid ext) c in
      let (e, d3, q3, h3) =
        >>=-eq-ok (catalog_audit request admin category_image_update k) (λ _. pure new)
          (record d2 { categories = update category_key new d2.categories }) h2 in
      imaged d0 d1 d2 d3 c new (validated_same ext d0 q0) (load_actor_same admin d0 d1 a q1)
        (load_category_inv k d1 d2 c q2) refl refl
        (catalog_audit_same request admin category_image_update k
          (record d2 { categories = update category_key new d2.categories }) d3 e q3)
        (ap (λ r. elim r [ ok r ↦ r.1 | err _ ↦ d3 ]) h3)
    where
      validated_same :
          (ext : Text) (d0 : Database)
          → validated_image media content content_type d ≡ ok (ext, d0)
          → d0 ≡ d
      validated_same ext d0 q = ground (arith, q)

      imaged :
          (d0 d1 d2 d3 : Database) (c new : Category)
          → d0 ≡ d
          → d1 ≡ d0
          → (find category_key k (categories_of d1) ≡ some c) × (d2 ≡ d1)
          → new.id ≡ c.id
          → new.parent_id ≡ c.parent_id
          → d3.categories ≡ update category_key new d2.categories
          → d3 ≡ d'
          → TreeStep d d'
      imaged d0 d1 d2 d3 c new e0 e1 (f, e2) i p q e3 =
          kept c new
            (record {
              id = i;
              stored = ground (arith, f, e0, e1, find_key category_key k (categories_of d) c);
            })
            p (ground (arith, e0, e1, e2, q, e3))
