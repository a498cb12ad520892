-- ===== src/Prelude/Unique.antt =====
-- Tables whose rows have different ids, and how many rows meet a condition.
use Prim.Native.Nat.{ℕ, ◌+◌}
use mathlib.Core.Path.{◌≡◌, refl}
use mathlib.Core.Bool.{Bool, true, false, ◌&&◌, not}
use mathlib.Core.Option.{none, some}
use mathlib.Core.List.{List, [], ◌∷◌, ◌++◌}
use mathlib.Core.Logic.{inl, inr}
use native.Mathlib.Omega.{arith}
use kans_shop.Prelude.Tests.{◌==◌, Bool-cases}
use kans_shop.Prelude.Lists.{any}
use kans_shop.Prelude.Tables.{find, find_by, replace, without, find-replace_ne, find-append_fresh}

abbrev pub bit : Bool → ℕ
bit true = 1
bit false = 0

module _ {ℓ} {V : Type ℓ} where
  unfoldable pub count : (V → Bool) → List V → ℕ
  count p [] = 0
  count p (v ∷ t) = bit (p v) + count p t

  pub count-append :
      (p : V → Bool) (t : List V) (v : V) → count p (t ++ v ∷ []) ≡ count p t + bit (p v)
  unfolding count
  count-append p [] v = omega arith
  count-append p (u ∷ t) v = omega (arith, count-append p t v)

module _ {V : Type 0} (key : V → ℕ) where
  abbrev pub IsUnique : List V → Type 0
  IsUnique [] = Unit
  IsUnique (v ∷ t) = (find key (key v) t ≡ none) × IsUnique t

  -- A row that a query finds is the row with its id.
  pub find-of-find_by :
      (p : V → Bool) (t : List V) (w : V)
      → IsUnique t
      → find_by p t ≡ some w
      → find key (key w) t ≡ some w
  unfolding find find_by
  find-of-find_by p [] w u h = cc
  find-of-find_by p (v ∷ t) w (fresh, u) h = elim (Bool-cases (p v)) [
    | inl here ↦ ground arith
    | inr later ↦
        let at : find key (key w) t ≡ some w = find-of-find_by p t w u (ground arith) in
        ground (arith, at, fresh)
  ]

  -- A query that finds nothing keeps no row.
  pub find_by-none :
      (p : V → Bool) (k : ℕ) (t : List V) (w : V)
      → find_by p t ≡ none
      → find key k t ≡ some w
      → p w ≡ false
  unfolding find find_by
  find_by-none p k [] w g h = cc
  find_by-none p k (v ∷ t) w g h = ground (arith, find_by-none p k t w)

  pub find_by-replace :
      (p : V → Bool) (v : V) (t : List V) (w : V)
      → p v ≡ true
      → key v ≡ key w
      → find_by p t ≡ some w
      → find key (key w) t ≡ some w
      → find_by p (replace key v t) ≡ some v
  unfolding find find_by replace
  find_by-replace p v [] w hv e h f = cc
  find_by-replace p v (u ∷ t) w hv e h f = ground (arith, find_by-replace p v t w hv e)

  -- Writing one row changes a count by that row.
  pub count-replace :
      (p : V → Bool) (v : V) (t : List V) (w : V)
      → find key (key v) t ≡ some w
      → count p (replace key v t) + bit (p w) ≡ count p t + bit (p v)
  unfolding find replace count
  count-replace p v [] w h = cc
  count-replace p v (u ∷ t) w h = elim (Bool-cases (key u == key v)) [
    | inl same ↦ ground arith
    | inr other ↦
        let rest : count p (replace key v t) + bit (p w) ≡ count p t + bit (p v) =
          count-replace p v t w (ground arith) in
        ground (arith, rest)
  ]

  pub count-without :
      (p : V → Bool) (k : ℕ) (t : List V) (w : V)
      → find key k t ≡ some w
      → count p (without key k t) + bit (p w) ≡ count p t
  unfolding find without count
  count-without p k [] w h = cc
  count-without p k (v ∷ t) w h = elim (Bool-cases (key v == k)) [
    | inl here ↦ ground arith
    | inr later ↦
        let rest : count p (without key k t) + bit (p w) ≡ count p t =
          count-without p k t w (ground arith) in
        ground (arith, rest)
  ]

  module _ (q p : V → Bool) (k : ℕ) (split : (u : V) → p u ≡ (q u && not (key u == k))) where
    none_without : (t : List V) → find key k t ≡ none → any p t ≡ false → count q t ≡ 0
    unfolding find any count
    none_without [] h a = refl
    none_without (u ∷ t) h a = ground (arith, none_without t, split u)

    -- Where no row but `w` meets the condition, and `w` does not, none does.
    pub count-eq-zero :
        (t : List V) (w : V)
        → IsUnique t
        → find key k t ≡ some w
        → q w ≡ false
        → any p t ≡ false
        → count q t ≡ 0
    unfolding find any count
    count-eq-zero [] w u h e a = cc
    count-eq-zero (v ∷ t) w (fresh, u) h e a = elim (Bool-cases (key v == k)) [
      | inl same ↦ ground (arith, none_without t, split v, fresh)
      | inr other ↦ ground (arith, count-eq-zero t w u, split v)
    ]

  pub replace-IsUnique : (v : V) (t : List V) → IsUnique t → IsUnique (replace key v t)
  unfolding find replace
  replace-IsUnique v [] u = tt
  replace-IsUnique v (w ∷ t) (fresh, u) = elim (Bool-cases (key w == key v)) [
    | inl same ↦ ground (arith, fresh)
    | inr other ↦ ground (arith, fresh, replace-IsUnique v t u, find-replace_ne key (key w) v t)
  ]

  pub append-IsUnique :
      (v : V) (t : List V) → IsUnique t → find key (key v) t ≡ none → IsUnique (t ++ v ∷ [])
  unfolding find
  append-IsUnique v [] u h = (refl, tt)
  append-IsUnique v (w ∷ t) (fresh, u) h =
      ground (arith, fresh, append-IsUnique v t u, find-append_fresh key (key w) v t)
