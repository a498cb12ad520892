-- ===== src/Catalog/Calls.antt =====
-- Any sequence of the calls of backend/app/services/admin_catalog_service.py, each committed or rolled
-- back (`get_db` of backend/app/api/deps.py). The calls on the pictures of products are not among them.
use kans_shop.Prelude.{ℕ, ◌≡◌, Option, List, [], ◌∷◌, Text}
use kans_shop.Prelude.Int.{ℤ}
use kans_shop.Models.{Database}
use kans_shop.Exec.{Exec, ok, committed, committed_lem}
use kans_shop.Catalog.{MediaStore}
use kans_shop.Catalog.Tree.{
  CategoryCreate, CategoryChanges, create_category, update_category, move_category, moved,
  delete_category, set_category_image, delete_category_image,
}
use kans_shop.Catalog.GoodsValues.{SplitUrl, ProductCreate, ProductChanges, create_product}
use kans_shop.Catalog.Goods.{update_product, delete_product, adjust_product_stock}
use kans_shop.Catalog.Forest.{IsForest, step-IsForest}
use kans_shop.Catalog.Step.{TreeStep}
use kans_shop.Catalog.TreeWrites.{
  create_category-TreeStep, update_category-TreeStep, delete_category-TreeStep,
}
use kans_shop.Catalog.ImageWrites.{set_image-TreeStep, delete_image-TreeStep}
use kans_shop.Catalog.CreateWrites.{create_product-IsForest, delete_product-IsForest}
use kans_shop.Catalog.GoodsWrites.{update_product-IsForest, adjust-IsForest}

-- One call, with the id of its request and the administrator who makes it.
pub data CatalogCall : Type 0 where
  create_category_as : Text → ℕ → CategoryCreate → CatalogCall
  update_category_as : Text → ℕ → ℕ → ℕ → CategoryChanges → CatalogCall
  move_category_as : Text → ℕ → ℕ → Option ℕ → ℕ → CatalogCall
  delete_category_as delete_image_as delete_product_as : Text → ℕ → ℕ → CatalogCall
  set_image_as : Text → Text → ℕ → ℕ → Text → Text → CatalogCall
  create_product_as : Text → ℕ → ProductCreate → CatalogCall
  update_product_as : Text → ℕ → ℕ → ℕ → ProductChanges → CatalogCall
  adjust_stock_as : Text → ℕ → ℕ → ℤ → CatalogCall

module _ (nfkd : Text → Text) (urlsplit : Text → Option SplitUrl) (media : MediaStore) where
  unfoldable pub catalog_call : CatalogCall → Database → Database
  catalog_call (create_category_as request admin v) d =
      committed (create_category nfkd request admin v) d
  catalog_call (update_category_as request admin k expected u) d =
      committed (update_category request admin k expected u) d
  catalog_call (move_category_as request admin k parent expected) d =
      committed (move_category request admin k parent expected) d
  catalog_call (delete_category_as request admin k) d =
      committed (delete_category request admin k) d
  catalog_call (delete_image_as request admin k) d =
      committed (delete_category_image request admin k) d
  catalog_call (delete_product_as request admin k) d = committed (delete_product request admin k) d
  catalog_call (set_image_as uuid request admin k content content_type) d =
      committed (set_category_image media uuid request admin k content content_type) d
  catalog_call (create_product_as request admin v) d =
      committed (create_product urlsplit request admin v) d
  catalog_call (update_product_as request admin k expected u) d =
      committed (update_product urlsplit request admin k expected u) d
  catalog_call (adjust_stock_as request admin k delta) d =
      committed (adjust_product_stock request admin k delta) d

  unfoldable pub catalog_calls : List CatalogCall → Database → Database
  catalog_calls [] d = d
  catalog_calls (c ∷ rest) d = catalog_calls rest (catalog_call c d)

  by_step :
      {A : Type 0} (m : Exec A) (d : Database)
      → IsForest d
      → ((a : A) (e : Database) → m d ≡ ok (a, e) → TreeStep d e)
      → IsForest (committed m d)
  by_step m d forest step =
      committed_lem IsForest m d forest (λ a e h. step-IsForest d e (step a e h) forest)

  call-IsForest : (c : CatalogCall) (d : Database) → IsForest d → IsForest (catalog_call c d)
  unfolding catalog_call move_category
  call-IsForest (create_category_as request admin v) d f =
      by_step (create_category nfkd request admin v) d f
        (λ n e h. create_category-TreeStep nfkd request admin v n d e h)
  call-IsForest (update_category_as request admin k expected u) d f =
      by_step (update_category request admin k expected u) d f
        (λ n e h. update_category-TreeStep request admin k expected u n d e h)
  call-IsForest (move_category_as request admin k parent expected) d f =
      by_step (move_category request admin k parent expected) d f
        (λ n e h. update_category-TreeStep request admin k expected (moved parent) n d e h)
  call-IsForest (delete_category_as request admin k) d f =
      by_step (delete_category request admin k) d f
        (λ u e h. delete_category-TreeStep request admin k u d e h)
  call-IsForest (delete_image_as request admin k) d f =
      by_step (delete_category_image request admin k) d f
        (λ n e h. delete_image-TreeStep request admin k n d e h)
  call-IsForest (delete_product_as request admin k) d f =
      committed_lem IsForest (delete_product request admin k) d f
        (λ u e h. delete_product-IsForest request admin k u d e h f)
  call-IsForest (set_image_as uuid request admin k content content_type) d f =
      by_step (set_category_image media uuid request admin k content content_type) d f
        (λ n e h. set_image-TreeStep media uuid request admin k content content_type n d e h)
  call-IsForest (create_product_as request admin v) d f =
      committed_lem IsForest (create_product urlsplit request admin v) d f
        (λ n e h. create_product-IsForest urlsplit request admin v n d e h f)
  call-IsForest (update_product_as request admin k expected u) d f =
      committed_lem IsForest (update_product urlsplit request admin k expected u) d f
        (λ n e h. update_product-IsForest urlsplit request admin k expected u n d e h f)
  call-IsForest (adjust_stock_as request admin k delta) d f =
      committed_lem IsForest (adjust_product_stock request admin k delta) d f
        (λ n e h. adjust-IsForest request admin k delta n d e h f)

  -- If the ids of the categories differ and are below the next one, and from every category the
  -- parents lead to a root, then this is so after any sequence of the calls on categories, their
  -- pictures and products, with the ones that raise rolled back: no category comes below itself,
  -- and no parent goes missing.
  pub catalog_calls-IsForest :
      (cs : List CatalogCall) (d : Database) → IsForest d → IsForest (catalog_calls cs d)
  unfolding catalog_calls
  catalog_calls-IsForest [] d f = f
  catalog_calls-IsForest (c ∷ cs) d f =
      catalog_calls-IsForest cs (catalog_call c d) (call-IsForest c d f)
