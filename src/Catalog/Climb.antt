-- ===== src/Catalog/Climb.antt =====
-- The walk of `_check_parent_change` in backend/app/services/admin_catalog_service.py: its fuel is enough,
-- and where it ends clear it has met no category that is moved.
use kans_shop.Prelude.{
  ℕ, zero, suc, ◌+◌, ◌≤◌, ◌≡◌, ◌≢◌, refl, ◌∙◌, Bool, false, not, Option, none, some, List, [], ◌∷◌,
  find, replace, find-replace_ne, count, length, ◌==◌, arith, inl, inr, Bool-cases, Option-cases,
}
use kans_shop.Models.{Category}
use kans_shop.Repositories.Visible.{mem_id}
use kans_shop.Catalog.{category_key}
use kans_shop.Catalog.Parent.{clear, unfinished, climb, climb_fuel}

-- The categories that the walk has not seen.
abbrev is_unseen : List ℕ → Category → Bool
is_unseen seen c = not (mem_id c.id seen)

count-unseen :
    (rows : List Category) (seen : List ℕ) (j : ℕ) (c : Category)
    → find category_key j rows ≡ some c
    → mem_id j seen ≡ false
    → count (is_unseen (j ∷ seen)) rows + 1 ≤ count (is_unseen seen) rows
unfolding find count mem_id
count-unseen [] seen j c f m = cc
count-unseen (b ∷ rows) seen j c f m = elim (Bool-cases (b.id == j)) [
  | inl here ↦ ground (arith, here, m, count-seen rows seen j)
  | inr later ↦ ground (arith, later, count-unseen rows seen j c (ground (arith, later, f)) m)
]
  where
    count-seen :
        (rows : List Category) (seen : List ℕ) (j : ℕ)
        → count (is_unseen (j ∷ seen)) rows ≤ count (is_unseen seen) rows
    count-seen [] seen j = omega arith
    count-seen (b ∷ rows) seen j = ground (arith, count-seen rows seen j)

climb-none :
    (fuel k : ℕ) (rows : List Category) (seen : List ℕ) → climb fuel k rows seen none ≡ clear
unfolding climb
climb-none zero k rows seen = refl
climb-none (suc fuel) k rows seen = refl

climb-ends :
    (fuel k : ℕ) (rows : List Category) (seen : List ℕ) (at : Option ℕ)
    → count (is_unseen seen) rows + 2 ≤ fuel
    → climb fuel k rows seen at ≢ unfinished
unfolding climb
climb-ends zero k rows seen at le h = omega (arith, le)
climb-ends (suc fuel) k rows seen none le h = cc
climb-ends (suc fuel) k rows seen (some j) le h = elim (Bool-cases (j == k)) [
  | inl back ↦ ground (arith, back, h)
  | inr on ↦ elim (Bool-cases (mem_id j seen)) [
    | inl again ↦ ground (arith, on, again, h)
    | inr first ↦ elim (Option-cases (find category_key j rows)) [
      | inl gone ↦ ground (arith, on, first, gone, h, climb-none fuel k rows (j ∷ seen))
      | inr (c, f) ↦
          let fewer = count-unseen rows seen j c f first in
          climb-ends fuel k rows (j ∷ seen) c.parent_id (ground (arith, fewer, le))
            (ground (arith, on, first, f, h))
    ]
  ]
]

count-length : (seen : List ℕ) (rows : List Category) → count (is_unseen seen) rows ≤ length rows
unfolding count
count-length seen [] = omega arith
count-length seen (c ∷ rows) = ground (arith, count-length seen rows)

-- The walk never runs out of fuel.
pub climb-climb_fuel :
    (k : ℕ) (rows : List Category) (parent : Option ℕ)
    → climb (climb_fuel rows) k rows [] parent ≢ unfinished
climb-climb_fuel k rows parent =
    climb-ends (climb_fuel rows) k rows [] parent (ground (arith, count-length [] rows))

-- A category from which the parents lead to a root.
pub data Rooted (rows : List Category) : Option ℕ → Type 0 where
  top : Rooted rows none
  under :
      (j : ℕ) (c : Category)
      → find category_key j rows ≡ some c
      → Rooted rows c.parent_id
      → Rooted rows (some j)

-- A clear walk has not met the category that is written.
pub clear-Rooted :
    (fuel : ℕ) (rows : List Category) (seen : List ℕ) (v : Category) (at : Option ℕ)
    → climb fuel v.id rows seen at ≡ clear
    → Rooted rows at
    → Rooted (replace category_key v rows) at
unfolding climb
clear-Rooted fuel rows seen v none h top = top
clear-Rooted zero rows seen v (some j) h (under _ c f r) = cc
clear-Rooted (suc fuel) rows seen v (some j) h (under _ c f r) = elim (Bool-cases (j == v.id)) [
  | inl back ↦ ground (arith, back, h)
  | inr on ↦ elim (Bool-cases (mem_id j seen)) [
    | inl again ↦ ground (arith, on, again, h)
    | inr first ↦
        under j c (find-replace_ne category_key j v rows (ground (arith, on)) ∙ f)
          (clear-Rooted fuel rows (j ∷ seen) v c.parent_id (ground (arith, on, first, f, h)) r)
  ]
]
