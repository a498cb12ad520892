-- ===== src/Prelude/Tables.antt =====
-- A database table: its rows in insertion order, and the next value of its `id` sequence.
use Prim.Native.Nat.{ℕ, suc}
use mathlib.Core.Path.{◌≡◌, refl}
use mathlib.Core.Logic.{◌≢◌}
use mathlib.Core.Bool.{Bool, true, false}
use mathlib.Core.Option.{Option, none, some}
use mathlib.Core.List.{List, [], ◌∷◌, ◌++◌}
use native.Mathlib.Omega.{arith}
use kans_shop.Prelude.Tests.{◌==◌, if◌then◌else◌}

pub record Table {ℓ} (V : Type ℓ) : Type ℓ where
  pub rows : List V
  pub next : ℕ

module _ {ℓ} {V : Type ℓ} where
  -- The first row that a query's `where` keeps.
  unfoldable pub find_by : (V → Bool) → List V → Option V
  find_by p [] = none
  find_by p (v ∷ t) = let rest = find_by p t in if p v then some v else rest

  -- A new row takes the next id.
  abbrev pub insert : (ℕ → V) → Table V → Table V
  insert row t = record { rows = t.rows ++ row t.next ∷ []; next = suc t.next }

  pub find_by-append_none :
      (p : V → Bool) (t : List V) (v : V)
      → find_by p t ≡ none
      → find_by p (t ++ v ∷ []) ≡ (if p v then some v else none)
  unfolding find_by
  find_by-append_none p [] v h = refl
  find_by-append_none p (w ∷ t) v h = ground (arith, find_by-append_none p t v)

  pub find_by-append_some :
      (p : V → Bool) (t : List V) (v w : V)
      → find_by p t ≡ some w
      → find_by p (t ++ v ∷ []) ≡ some w
  unfolding find_by
  find_by-append_some p [] v w h = cc
  find_by-append_some p (u ∷ t) v w h = ground (arith, find_by-append_some p t v w)

  -- What a query returns meets its `where`.
  pub find_by_holds : (p : V → Bool) (t : List V) (w : V) → find_by p t ≡ some w → p w ≡ true
  unfolding find_by
  find_by_holds p [] w h = cc
  find_by_holds p (u ∷ t) w h = ground (arith, find_by_holds p t w)

module _ {ℓ} {V : Type ℓ} (key : V → ℕ) where
  -- Lookup by primary key.
  unfoldable pub find : ℕ → List V → Option V
  find k [] = none
  find k (v ∷ t) = let rest = find k t in if key v == k then some v else rest

  -- A flushed row takes the place of the row with its key.
  unfoldable pub replace : V → List V → List V
  replace v [] = []
  replace v (w ∷ t) = let rest = replace v t in if key w == key v then v ∷ t else w ∷ rest

  -- A deleted row.
  unfoldable pub without : ℕ → List V → List V
  without k [] = []
  without k (v ∷ t) = let rest = without k t in if key v == k then t else v ∷ rest

  abbrev pub update : V → Table V → Table V
  update v t = record t { rows = replace v t.rows }

  pub find_key : (k : ℕ) (t : List V) (v : V) → find k t ≡ some v → key v ≡ k
  unfolding find
  find_key k [] v h = cc
  find_key k (w ∷ t) v h = ground (arith, find_key k t v)

  pub find-replace_self :
      (k : ℕ) (v : V) (t : List V) (w : V)
      → find k t ≡ some w
      → key v ≡ k
      → find k (replace v t) ≡ some v
  unfolding find replace
  find-replace_self k v [] w h e = cc
  find-replace_self k v (u ∷ t) w h e = ground (arith, find-replace_self k v t w)

  pub find-replace_ne : (k : ℕ) (v : V) (t : List V) → key v ≢ k → find k (replace v t) ≡ find k t
  unfolding find replace
  find-replace_ne k v [] e = refl
  find-replace_ne k v (u ∷ t) e = ground (arith, find-replace_ne k v t e)

  -- Putting back the row that is there changes nothing.
  pub replace_same : (k : ℕ) (t : List V) (v : V) → find k t ≡ some v → replace v t ≡ t
  unfolding find replace
  replace_same k [] v h = cc
  replace_same k (u ∷ t) v h = ground (arith, replace_same k t v, find_key k t v)

  pub find-append_fresh : (k : ℕ) (v : V) (t : List V) → key v ≢ k → find k (t ++ v ∷ []) ≡ find k t
  unfolding find
  find-append_fresh k v [] e = ground arith
  find-append_fresh k v (u ∷ t) e = ground (arith, find-append_fresh k v t e)

  pub find-append_some :
      (k : ℕ) (v : V) (t : List V) (w : V) → find k t ≡ some w → find k (t ++ v ∷ []) ≡ some w
  unfolding find
  find-append_some k v [] w h = cc
  find-append_some k v (u ∷ t) w h = ground (arith, find-append_some k v t w)

  pub find-append_self :
      (k : ℕ) (v : V) (t : List V) → find k t ≡ none → key v ≡ k → find k (t ++ v ∷ []) ≡ some v
  unfolding find
  find-append_self k v [] h e = ground arith
  find-append_self k v (u ∷ t) h e = ground (arith, find-append_self k v t)

  pub find-without : (k j : ℕ) (t : List V) → (k == j) ≡ false → find k (without j t) ≡ find k t
  unfolding find without
  find-without k j [] ne = refl
  find-without k j (v ∷ t) ne = ground (arith, find-without k j t ne)
