-- ===== src/Repositories/Visible.antt =====
-- `public_category_ids` of backend/app/db/repositories/category_repository.py.
use kans_shop.Prelude.{
  ℕ, zero, suc, Bool, true, false, ◌||◌, ◌&&◌, none, some, List, [], ◌∷◌, ◌++◌, map, select, length,
  ◌==◌,
}
use kans_shop.Models.{Category}

unfoldable pub mem_id : ℕ → List ℕ → Bool
mem_id k [] = false
mem_id k (j ∷ js) = j == k || mem_id k js

abbrev pub is_root : Category → Bool
is_root c = c.is_active && elim c.parent_id [ none ↦ true | some p ↦ false ]

-- The recursive term of the query: an active category whose parent is visible.
abbrev pub joins : List ℕ → Category → Bool
joins visible c = c.is_active && elim c.parent_id [ none ↦ false | some p ↦ mem_id p visible ]

ids : List Category → List ℕ
ids = map (λ (c : Category). c.id)

-- The rounds of the recursive query; each adds what joins the rows so far.
unfoldable pub rounds : ℕ → List Category → List ℕ
unfolding ids
rounds zero all = ids (select is_root all)
rounds (suc n) all = let before = rounds n all in before ++ ids (select (joins before) all)

-- After as many rounds as there are categories nothing more can join.
unfoldable pub public_category_ids : List Category → List ℕ
public_category_ids all = rounds (length all) all
