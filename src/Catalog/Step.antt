-- ===== src/Catalog/Step.antt =====
-- What one call of backend/app/services/admin_catalog_service.py writes to the categories.
use kans_shop.Prelude.{
  ℕ, ◌≡◌, false, Option, some, List, [], find, any, insert, update, without, is_number,
}
use kans_shop.Models.{Database, Category}
use kans_shop.Catalog.{category_key}
use kans_shop.Catalog.Parent.{climb, clear}

abbrev pub categories_of : Database → List Category
categories_of d = d.categories.rows

-- The parent is there, if there is one.
abbrev pub ParentIsThere : List Category → Option ℕ → Type 0
ParentIsThere rows parent =
    (j : ℕ) → parent ≡ some j → (c : Category) × (find category_key j rows ≡ some c)

pub record IsRewritten (d : Database) (a b : Category) : Type 0 where
  pub id : b.id ≡ a.id
  pub stored : find category_key a.id (categories_of d) ≡ some a

pub data TreeStep (d e : Database) : Type 0 where
  same : e.categories ≡ d.categories → TreeStep d e
  created :
      (row : ℕ → Category)
      → (row d.categories.next).id ≡ d.categories.next
      → ParentIsThere (categories_of d) (row d.categories.next).parent_id
      → e.categories ≡ insert row d.categories
      → TreeStep d e
  kept :
      (a b : Category)
      → IsRewritten d a b
      → b.parent_id ≡ a.parent_id
      → e.categories ≡ update category_key b d.categories
      → TreeStep d e
  moved_below :
      (fuel : ℕ) (a b : Category)
      → IsRewritten d a b
      → ParentIsThere (categories_of d) b.parent_id
      → climb fuel b.id (categories_of d) [] b.parent_id ≡ clear
      → e.categories ≡ update category_key b d.categories
      → TreeStep d e
  deleted :
      (k : ℕ)
      → any (λ b. is_number k b.parent_id) (categories_of d) ≡ false
      → e.categories ≡ record d.categories { rows = without category_key k (categories_of d) }
      → TreeStep d e
