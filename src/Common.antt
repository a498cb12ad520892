-- ===== src/Common.antt =====
-- backend/app/services/common.py (pages of a list) and backend/app/services/after_commit.py
-- (effects that wait for the commit).
pub mod Laws
use kans_shop.Prelude.{
  ℕ, zero, suc, ◌+◌, ◌-◌, ◌*◌, ◌/◌, ◌≤◌, ◌<◌, max, ◌≡◌, ◌↔◌, Bool, true, false, Option, none, some,
  List, [], ◌∷◌, ◌++◌, arith, ltb, ◌==◌, if◌then◌else◌,
}

pub record Page {ℓ} (A : Type ℓ) : Type ℓ where
  pub items : List A
  pub total : ℕ
  pub page : ℕ
  pub limit : ℕ

-- `max(1, math.ceil(total / limit)) if limit else 1`. The division is exact here; that of the source is
-- a float's, which is the same up to 2 ^ 53 rows.
unfoldable pub pages_of : ℕ → ℕ → ℕ
pages_of total limit = if limit == 0 then 1 else max 1 ((total + limit - 1) / limit)

module _ {ℓ} {A : Type ℓ} where
  unfoldable pub total_pages : Page A → ℕ
  total_pages p = pages_of p.total p.limit

  unfoldable pub has_next : Page A → Bool
  has_next p = ltb p.page (total_pages p)

  unfoldable pub has_prev : Page A → Bool
  has_prev p = ltb 1 p.page

-- The session's queue of effects, and those that have run or failed.
pub record Session {ℓ} (A : Type ℓ) : Type ℓ where
  pub actions : List A
  pub ran : List A
  pub failed : List A
  pub committed : ℕ

module _ {ℓ} {A : Type ℓ} where
  unfoldable pub register_after_commit : A → Session A → Session A
  register_after_commit a s = record s { actions = s.actions ++ a ∷ [] }

  -- An action that raises is logged, and the next one runs.
  unfoldable pub run_actions : (A → Bool) → List A → Session A → Session A
  run_actions works [] s = s
  run_actions works (a ∷ rest) s = run_actions works rest (
      if works a
      then record s { ran = s.ran ++ a ∷ [] }
      else record s { failed = s.failed ++ a ∷ [] })

  -- The actions leave the queue before the commit; `none` is a commit that raises.
  unfoldable pub commit_with_after_commit : Bool → (A → Bool) → Session A → Session A × Bool
  commit_with_after_commit commits works s =
      let popped = record s { actions = [] } in
      if commits
      then (run_actions works s.actions (record popped { committed = s.committed + 1 }), true)
      else (popped, false)
