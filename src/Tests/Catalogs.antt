-- ===== src/Tests/Catalogs.antt =====
-- The theorem on the categories, in a shop with a category, its child and a grandchild.
use kans_shop.Prelude.{
  ℕ, refl, none, some, List, [], ◌∷◌, ◌++◌, Text, codes, arith, find, show, Bool-cases, inl, inr,
  ◌==◌, IsUnique,
}
use mathlib.Core.Path.{subst}
use kans_shop.Enums.{PaymentMethod}
use kans_shop.Models.{Database, Category}
use kans_shop.Catalog.{MediaStore, category_key}
use kans_shop.Catalog.Climb.{Rooted, top, under}
use kans_shop.Catalog.Forest.{AllRooted, IsForest}
use kans_shop.Catalog.Calls.{
  CatalogCall, move_category_as, delete_category_as, catalog_calls, catalog_calls-IsForest,
}
use kans_shop.Tests.{shop_with, household}

abbrev child : ℕ → ℕ → Category
child k parent = record household {
  id = k;
  parent_id = some parent;
  slug = codes "bolim" ++ show k;
}

abbrev rows : List Category
rows = household ∷ child 2 1 ∷ child 3 2 ∷ []

abbrev grown_shop : Database
grown_shop = record (shop_with PaymentMethod.cash []) {
  categories = record { rows = rows; next = 4 };
}

abbrev media : MediaStore
media = record { image_format = λ content. none; media_base_url = codes "https://media" }

abbrev request : Text
request = codes "request"

-- A move below the own grandchild is refused, one to the root is not; the last deletion is free.
abbrev moves : List CatalogCall
moves =
    move_category_as request 2 1 (some 3) 0
    ∷ move_category_as request 2 3 none 0
    ∷ delete_category_as request 2 3
    ∷ []

child-Rooted : Rooted rows (some 1)
unfolding find
child-Rooted = under 1 household refl top

grown-AllRooted : AllRooted rows
unfolding find AllRooted
grown-AllRooted k c f = elim (Bool-cases (1 == k)) [
  | inl first ↦ subst (Rooted rows) {x = none} (ground (arith, first, f)) top
  | inr later ↦ elim (Bool-cases (2 == k)) [
    | inl second ↦ subst (Rooted rows) {x = some 1} (ground (arith, second, f)) child-Rooted
    | inr last ↦
        subst (Rooted rows) {x = some 2} (ground (arith, later, last, f))
          (under 2 (child 2 1) refl child-Rooted)
  ]
]

grown-IsForest : IsForest grown_shop
unfolding find
grown-IsForest =
    let last : IsUnique category_key (child 3 2 ∷ []) = (refl, tt) in
    let lower : IsUnique category_key (child 2 1 ∷ child 3 2 ∷ []) = (refl, last) in
    record {
      keyed = record { unique = (refl, lower); fresh = λ k le. ground (arith, le) };
      rooted = grown-AllRooted;
    }

catalog_calls-IsForest_example :
    IsForest (catalog_calls (λ name. name) (λ url. none) media moves grown_shop)
catalog_calls-IsForest_example =
    catalog_calls-IsForest (λ name. name) (λ url. none) media moves grown_shop grown-IsForest
