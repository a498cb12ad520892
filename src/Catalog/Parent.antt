-- ===== src/Catalog/Parent.antt =====
-- `_check_parent_change` of backend/app/services/admin_catalog_service.py: `climb` is its loop, which
-- walks from the new parent to the root.
use kans_shop.Prelude.{
  ℕ, zero, suc, ◌+◌, not, Option, none, some, List, [], ◌∷◌, find, is_some, is_number, length, ◌==◌,
  if◌then◌else◌,
}
use kans_shop.Models.{Category}
use kans_shop.Exec.{
  Exec, category_not_found, catalog_edit_conflict, runtime_error, pure, raise, raise_if, ◌>>◌,
}
use kans_shop.Repositories.Visible.{mem_id}
use kans_shop.Catalog.{category_key}

-- How a walk to the root ends. `unfinished` is a walk that has run out of fuel.
pub data Climbed : Type 0 where
  clear below cyclic unfinished : Climbed

abbrev pub parent_in : List Category → ℕ → Option ℕ
parent_in rows j = elim (find category_key j rows) [ none ↦ none | some c ↦ c.parent_id ]

unfoldable pub climb : ℕ → ℕ → List Category → List ℕ → Option ℕ → Climbed
climb zero k rows seen none = clear
climb zero k rows seen (some j) = unfinished
climb (suc fuel) k rows seen none = clear
climb (suc fuel) k rows seen (some j) =
    let next = climb fuel k rows (j ∷ seen) (parent_in rows j) in
    if j == k then below else if mem_id j seen then cyclic else next

abbrev pub raise_climbed : Climbed → Exec (Unit {0})
raise_climbed clear = pure tt
raise_climbed unfinished = raise runtime_error
raise_climbed _ = raise catalog_edit_conflict

-- Each round but the last sees another category.
abbrev pub climb_fuel : List Category → ℕ
climb_fuel rows = length rows + 2

abbrev pub check_exists : List Category → Option ℕ → Exec (Unit {0})
check_exists rows none = pure tt
check_exists rows (some j) =
    raise_if (not (is_some (find category_key j rows))) (category_not_found j)

unfoldable pub check_parent_change : List Category → ℕ → Option ℕ → Exec (Unit {0})
check_parent_change rows k parent = do
  raise_if (is_number k parent) catalog_edit_conflict
  check_exists rows parent
  raise_climbed (climb (climb_fuel rows) k rows [] parent)
