-- ===== src/Catalog/Forest.antt =====
-- The categories stay a forest (backend/app/services/admin_catalog_service.py).
use kans_shop.Prelude.{
  IsKeyed, IsUnique, insert-IsKeyed, update-IsKeyed, without-IsKeyed, find-without_self, update, ℕ,
  ◌≡◌, refl, sym, ◌∙◌, false, Option, none, some, List, [], ◌∷◌, ◌++◌, find, find-replace_self,
  find-replace_ne, find-append_some, find-append_self, find-append_fresh, find-without, any-find,
  replace, any, insert, without, Table, is_number, ◌==◌, arith, inl, inr, Bool-cases, Option-cases,
}
use mathlib.Core.Path.{subst}
use kans_shop.Models.{Database, Category}
use kans_shop.Catalog.{category_key}
use kans_shop.Catalog.Climb.{Rooted, top, under, clear-Rooted}
use kans_shop.Catalog.Step.{
  TreeStep, same, created, kept, moved_below, deleted, categories_of, ParentIsThere,
}

-- From every category the parents lead to a root: there is no cycle, and no parent is missing.
unfoldable pub AllRooted : List Category → Type 0
AllRooted rows =
    (k : ℕ) (c : Category) → find category_key k rows ≡ some c → Rooted rows c.parent_id

pub record IsForest (d : Database) : Type 0 where
  pub keyed : IsKeyed category_key d.categories
  pub rooted : AllRooted (categories_of d)

parent-Rooted :
    (rows : List Category) (parent : Option ℕ)
    → AllRooted rows
    → ParentIsThere rows parent
    → Rooted rows parent
unfolding AllRooted
parent-Rooted rows none all e = top
parent-Rooted rows (some j) all e = let (c, f) = e j refl in under j c f (all j c f)

append-Rooted :
    (rows : List Category) (v : Category) (at : Option ℕ)
    → Rooted rows at
    → Rooted (rows ++ v ∷ []) at
append-Rooted rows v none top = top
append-Rooted rows v (some j) (under _ c f r) =
    under j c (find-append_some category_key j v rows c f) (append-Rooted rows v c.parent_id r)

-- Writing a row whose new parents lead to a root.
replace-Rooted :
    (rows : List Category) (b : Category) (w : Category) (at : Option ℕ)
    → find category_key b.id rows ≡ some w
    → Rooted (replace category_key b rows) b.parent_id
    → Rooted rows at
    → Rooted (replace category_key b rows) at
replace-Rooted rows b w none st new top = top
replace-Rooted rows b w (some j) st new (under _ c f r) = elim (Bool-cases (b.id == j)) [
  | inl here ↦ under j b (find-replace_self category_key j b rows c f (ground (arith, here))) new
  | inr other ↦
      under j c (find-replace_ne category_key j b rows (ground (arith, other)) ∙ f)
        (replace-Rooted rows b w c.parent_id st new r)
]

-- Writing a row that keeps its parent.
keep-Rooted :
    (rows : List Category) (a b : Category) (at : Option ℕ)
    → b.id ≡ a.id
    → find category_key a.id rows ≡ some a
    → b.parent_id ≡ a.parent_id
    → Rooted rows at
    → Rooted (replace category_key b rows) at
keep-Rooted rows a b none i st p top = top
keep-Rooted rows a b (some j) i st p (under _ c f r) = elim (Bool-cases (b.id == j)) [
  | inl here ↦ under j b (find-replace_self category_key j b rows c f (ground (arith, here))) (
      subst (Rooted (replace category_key b rows)) {x = c.parent_id}
        (ground (arith, here, i, st, f, p)) (keep-Rooted rows a b c.parent_id i st p r))
  | inr other ↦
      under j c (find-replace_ne category_key j b rows (ground (arith, other)) ∙ f)
        (keep-Rooted rows a b c.parent_id i st p r)
]

without-Rooted :
    (rows : List Category) (k : ℕ) (at : Option ℕ)
    → any (λ b. is_number k b.parent_id) rows ≡ false
    → is_number k at ≡ false
    → Rooted rows at
    → Rooted (without category_key k rows) at
without-Rooted rows k none childless other top = top
without-Rooted rows k (some j) childless other (under _ c f r) =
    under j c (find-without category_key j k rows (ground (arith, other)) ∙ f) (
      without-Rooted rows k c.parent_id childless
        (any-find category_key (λ b. is_number k b.parent_id) j rows c childless f) r)

-- Looking up in the rows that a step leaves.
replace-AllRooted :
    (rows : List Category) (b w : Category)
    → find category_key b.id rows ≡ some w
    → ((at : Option ℕ) → Rooted rows at → Rooted (replace category_key b rows) at)
    → Rooted (replace category_key b rows) b.parent_id
    → AllRooted rows
    → AllRooted (replace category_key b rows)
unfolding AllRooted
replace-AllRooted rows b w st carry new all k c f = elim (Bool-cases (b.id == k)) [
  | inl here ↦
      let g =
        find-replace_self category_key k b rows w (ground (arith, here, st))
          (ground (arith, here)) in
      subst (Rooted (replace category_key b rows)) {x = b.parent_id} (ground (arith, f, g)) new
  | inr other ↦
      carry c.parent_id
        (all k c (sym (find-replace_ne category_key k b rows (ground (arith, other))) ∙ f))
]

append-AllRooted :
    (rows : List Category) (v : Category)
    → find category_key v.id rows ≡ none
    → Rooted rows v.parent_id
    → AllRooted rows
    → AllRooted (rows ++ v ∷ [])
unfolding AllRooted
append-AllRooted rows v free new all k c f = elim (Option-cases (find category_key k rows)) [
  | inr (b, old) ↦
      let g = find-append_some category_key k v rows b old in
      append-Rooted rows v c.parent_id (all k c (ground (arith, f, g, old)))
  | inl none_there ↦ elim (Bool-cases (v.id == k)) [
    | inl here ↦
        let g = find-append_self category_key k v rows none_there (ground (arith, here)) in
        append-Rooted rows v c.parent_id
          (subst (Rooted rows) {x = v.parent_id} (ground (arith, f, g)) new)
    | inr other ↦
        let g = find-append_fresh category_key k v rows (ground (arith, other)) in
        ground (arith, f, g, none_there)
  ]
]

without-AllRooted :
    (rows : List Category) (k : ℕ)
    → IsUnique category_key rows
    → any (λ b. is_number k b.parent_id) rows ≡ false
    → AllRooted rows
    → AllRooted (without category_key k rows)
unfolding AllRooted
without-AllRooted rows k u childless all j c f = elim (Bool-cases (j == k)) [
  | inl gone ↦ ground (arith, f, gone, find-without_self category_key k rows u)
  | inr other ↦
      let old : find category_key j rows ≡ some c =
        sym (find-without category_key j k rows other) ∙ f in
      without-Rooted rows k c.parent_id childless
        (any-find category_key (λ b. is_number k b.parent_id) j rows c childless old) (all j c old)
]

leaves :
    (e : Database) (t : Table Category)
    → e.categories ≡ t
    → IsKeyed category_key t
    → AllRooted t.rows
    → IsForest e
leaves e t p k r = record {
  keyed = subst (IsKeyed category_key) (sym p) k;
  rooted = subst (λ (t : Table Category). AllRooted t.rows) (sym p) r;
}

pub step-IsForest : (d e : Database) → TreeStep d e → IsForest d → IsForest e
unfolding AllRooted
step-IsForest d e (same p) h = leaves e d.categories p h.keyed h.rooted
step-IsForest d e (created row i ex p) h =
    leaves e (insert row d.categories) p (insert-IsKeyed category_key row d.categories i h.keyed) (
      append-AllRooted (categories_of d) (row d.categories.next)
        (h.keyed.fresh (row d.categories.next).id (ground (arith, i)))
        (parent-Rooted (categories_of d) (row d.categories.next).parent_id h.rooted ex) h.rooted)
step-IsForest d e (kept a b r same_parent p) h =
    let here : find category_key b.id (categories_of d) ≡ some a = ground (arith, r.id, r.stored) in
    let carry : (at : Option ℕ)
        → Rooted (categories_of d) at
        → Rooted (replace category_key b (categories_of d)) at =
      λ at. keep-Rooted (categories_of d) a b at r.id r.stored same_parent in
    leaves e (update category_key b d.categories) p
      (update-IsKeyed category_key b d.categories h.keyed)
      (replace-AllRooted (categories_of d) b a here carry
        (subst (Rooted (replace category_key b (categories_of d))) (sym same_parent)
          (carry a.parent_id (h.rooted a.id a r.stored)))
        h.rooted)
step-IsForest d e (moved_below fuel a b r ex walk p) h =
    let here : find category_key b.id (categories_of d) ≡ some a = ground (arith, r.id, r.stored) in
    let new : Rooted (replace category_key b (categories_of d)) b.parent_id =
      clear-Rooted fuel (categories_of d) [] b b.parent_id walk
        (parent-Rooted (categories_of d) b.parent_id h.rooted ex) in
    leaves e (update category_key b d.categories) p
      (update-IsKeyed category_key b d.categories h.keyed)
      (replace-AllRooted (categories_of d) b a here
        (λ at. replace-Rooted (categories_of d) b a at here new) new h.rooted)
step-IsForest d e (deleted k childless p) h =
    leaves e (record d.categories { rows = without category_key k (categories_of d) }) p
      (without-IsKeyed category_key k d.categories h.keyed)
      (without-AllRooted (categories_of d) k h.keyed.unique childless h.rooted)
