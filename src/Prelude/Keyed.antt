-- ===== src/Prelude/Keyed.antt =====
-- Tables with a primary key: ids differ and lie below the next one. What a query keeps, sorts and
-- cuts is described by lookup.
use Prim.Native.Nat.{ℕ, zero, suc, ◌≤◌}
use mathlib.Core.Path.{◌≡◌, refl, subst}
use mathlib.Core.Logic.{inl, inr}
use mathlib.Core.Bool.{Bool, true, false}
use mathlib.Core.Option.{none, some}
use mathlib.Core.List.{List, [], ◌∷◌, map}
use native.Mathlib.Omega.{arith}
use kans_shop.Prelude.Tests.{◌==◌, if◌then◌else◌, Bool-cases}
use kans_shop.Prelude.Lists.{All, any, select, sort_by, insert_by}
use kans_shop.Prelude.Tables.{
  Table, find, find_by, without, replace, insert, update, find-append_fresh, find_key,
}
use kans_shop.Prelude.Unique.{IsUnique, replace-IsUnique, append-IsUnique}

module _ {V : Type 0} where
  unfoldable pub take : ℕ → List V → List V
  take zero xs = []
  take (suc n) [] = []
  take (suc n) (x ∷ xs) = x ∷ take n xs

module _ {V : Type 0} (key : V → ℕ) where
  pub record IsKeyed (t : Table V) : Type 0 where
    pub unique : IsUnique key t.rows
    pub fresh : (k : ℕ) → t.next ≤ k → find key k t.rows ≡ none

  pub find-replace-none :
      (k : ℕ) (v : V) (t : List V) → find key k t ≡ none → find key k (replace key v t) ≡ none
  unfolding find replace
  find-replace-none k v [] h = refl
  find-replace-none k v (u ∷ t) h = ground (arith, find-replace-none k v t)

  pub insert-IsKeyed :
      (row : ℕ → V) (t : Table V) → key (row t.next) ≡ t.next → IsKeyed t → IsKeyed (insert row t)
  insert-IsKeyed row t same h = record {
    unique =
        append-IsUnique key (row t.next) t.rows h.unique (ground (arith, h.fresh t.next, same));
    fresh =
        λ k le. ground (arith, h.fresh k, find-append_fresh key k (row t.next) t.rows, same, le);
  }

  pub update-IsKeyed : (v : V) (t : Table V) → IsKeyed t → IsKeyed (update key v t)
  update-IsKeyed v t h = record {
    unique = replace-IsUnique key v t.rows h.unique;
    fresh = λ k le. find-replace-none k v t.rows (h.fresh k le);
  }

  -- What a query keeps.
  find-select-none :
      (p : V → Bool) (k : ℕ) (t : List V) → find key k t ≡ none → find key k (select p t) ≡ none
  unfolding find select
  find-select-none p k [] h = refl
  find-select-none p k (v ∷ t) h = ground (arith, find-select-none p k t)

  pub find-select :
      (p : V → Bool) (k : ℕ) (t : List V) (v : V)
      → IsUnique key t
      → find key k (select p t) ≡ some v
      → (find key k t ≡ some v) × (p v ≡ true)
  unfolding find select
  find-select p k [] v u h = cc
  find-select p k (w ∷ t) v (fresh, u) h = elim (Bool-cases (p w)) [
    | inr out ↦
        let r = find-select p k t v u (ground arith) in
        (ground (arith, r, fresh, find_key key k t v), ground (arith, r))
    | inl in_ ↦ elim (Bool-cases (key w == k)) [
      | inl here ↦ (ground arith, ground arith)
      | inr later ↦
          let r = find-select p k t v u (ground arith) in (ground (arith, r), ground (arith, r))
    ]
  ]

  pub find-select-some :
      (p : V → Bool) (k : ℕ) (t : List V) (v : V)
      → find key k t ≡ some v
      → p v ≡ true
      → find key k (select p t) ≡ some v
  unfolding find select
  find-select-some p k [] v h q = cc
  find-select-some p k (w ∷ t) v h q = ground (arith, find-select-some p k t v)

  pub select-IsUnique : (p : V → Bool) (t : List V) → IsUnique key t → IsUnique key (select p t)
  unfolding select
  select-IsUnique p [] u = tt
  select-IsUnique p (v ∷ t) (fresh, u) =
      ground (arith, find-select-none p (key v) t fresh, select-IsUnique p t u)

  -- Sorting changes no lookup.
  find-insert_by :
      (by : V → ℕ) (k : ℕ) (x : V) (t : List V)
      → find key (key x) t ≡ none
      → find key k (insert_by by x t) ≡ (if key x == k then some x else find key k t)
  unfolding find insert_by
  find-insert_by by k x [] h = refl
  find-insert_by by k x (v ∷ t) h = ground (arith, find-insert_by by k x t)

  insert_by-IsUnique :
      (by : V → ℕ) (x : V) (t : List V)
      → find key (key x) t ≡ none
      → IsUnique key t
      → IsUnique key (insert_by by x t)
  unfolding find insert_by
  insert_by-IsUnique by x [] h u = (refl, tt)
  insert_by-IsUnique by x (v ∷ t) h (fresh, u) =
      ground (arith, find-insert_by by (key v) x t, insert_by-IsUnique by x t, fresh)

  pub find-sort_by :
      (by : V → ℕ) (k : ℕ) (t : List V) → IsUnique key t → find key k (sort_by by t) ≡ find key k t
  unfolding find sort_by
  find-sort_by by k [] u = refl
  find-sort_by by k (v ∷ t) (fresh, u) = ground (
    arith,
    find-sort_by by (key v) t u,
    find-sort_by by k t u,
    find-insert_by by k v (sort_by by t),
  )

  pub sort_by-IsUnique : (by : V → ℕ) (t : List V) → IsUnique key t → IsUnique key (sort_by by t)
  unfolding sort_by
  sort_by-IsUnique by [] u = tt
  sort_by-IsUnique by (v ∷ t) (fresh, u) =
      insert_by-IsUnique by v (sort_by by t) (ground (arith, find-sort_by by (key v) t u))
        (sort_by-IsUnique by t u)

  find-take-none : (n k : ℕ) (t : List V) → find key k t ≡ none → find key k (take n t) ≡ none
  unfolding find take
  find-take-none zero k t h = refl
  find-take-none (suc n) k [] h = refl
  find-take-none (suc n) k (v ∷ t) h = ground (arith, find-take-none n k t)

  pub find-take :
      (n k : ℕ) (t : List V) (v : V) → find key k (take n t) ≡ some v → find key k t ≡ some v
  unfolding find take
  find-take zero k t v h = cc
  find-take (suc n) k [] v h = cc
  find-take (suc n) k (w ∷ t) v h = ground (arith, find-take n k t v)

  pub take-IsUnique : (n : ℕ) (t : List V) → IsUnique key t → IsUnique key (take n t)
  unfolding find take
  take-IsUnique zero t u = tt
  take-IsUnique (suc n) [] u = tt
  take-IsUnique (suc n) (v ∷ t) (fresh, u) =
      ground (arith, find-take-none n (key v) t fresh, take-IsUnique n t u)

-- What holds of all rows.
module _ {V : Type 0} (P : V → Type 0) where
  pub All-replace : (key : V → ℕ) (v : V) (t : List V) → P v → All P t → All P (replace key v t)
  unfolding replace
  All-replace key v [] p h = tt
  All-replace key v (w ∷ t) p (hw, h) =
      if-All (key w == key v) (v ∷ t) (w ∷ replace key v t) (p, h) (hw, All-replace key v t p h)
    where
      if-All : (b : Bool) (xs ys : List V) → All P xs → All P ys → All P (if b then xs else ys)
      if-All true xs ys hx hy = hx
      if-All false xs ys hx hy = hy

  pub All-find : (key : V → ℕ) (k : ℕ) (t : List V) (v : V) → find key k t ≡ some v → All P t → P v
  unfolding find
  All-find key k [] v f h = cc
  All-find key k (w ∷ t) v f (hw, h) = elim (Bool-cases (key w == k)) [
    | inl here ↦ subst P {x = w} (ground (arith, here, f)) hw
    | inr later ↦ All-find key k t v (ground (arith, later, f)) h
  ]

  pub All-find_by : (p : V → Bool) (t : List V) (v : V) → find_by p t ≡ some v → All P t → P v
  unfolding find_by
  All-find_by p [] v f h = cc
  All-find_by p (w ∷ t) v f (hw, h) = elim (Bool-cases (p w)) [
    | inl here ↦ subst P {x = w} (ground (arith, here, f)) hw
    | inr later ↦ All-find_by p t v (ground (arith, later, f)) h
  ]

  pub All-map :
      (Q : V → Type 0) (f : V → V) (t : List V)
      → ((v : V) → P v → Q (f v))
      → All P t
      → All Q (map f t)
  All-map Q f [] g h = tt
  All-map Q f (v ∷ t) g (hv, h) = (g v hv, All-map Q f t g h)

  pub All-weaken : (Q : V → Type 0) (t : List V) → ((v : V) → P v → Q v) → All P t → All Q t
  All-weaken Q [] f h = tt
  All-weaken Q (v ∷ t) f (hv, h) = (f v hv, All-weaken Q t f h)

  -- The rows that a query keeps meet its `where` as well.
  pub All-select :
      (Q : V → Type 0) (p : V → Bool) (t : List V)
      → ((v : V) → p v ≡ true → P v → Q v)
      → All P t
      → All Q (select p t)
  unfolding select
  All-select Q p [] f h = tt
  All-select Q p (v ∷ t) f (hv, h) = elim (Bool-cases (p v)) [
    | inl in_ ↦
        subst (All Q) {x = v ∷ select p t} (ground (arith, in_)) (f v in_ hv, All-select Q p t f h)
    | inr out ↦ subst (All Q) {x = select p t} (ground (arith, out)) (All-select Q p t f h)
  ]

-- Rows that a query or a deletion leaves out.
module _ {V : Type 0} (key : V → ℕ) where
  pub find-without-none :
      (j k : ℕ) (t : List V) → find key k t ≡ none → find key k (without key j t) ≡ none
  unfolding find without
  find-without-none j k [] h = refl
  find-without-none j k (v ∷ t) h = ground (arith, find-without-none j k t)

  pub any-find :
      (p : V → Bool) (k : ℕ) (t : List V) (v : V)
      → any p t ≡ false
      → find key k t ≡ some v
      → p v ≡ false
  unfolding any find
  any-find p k [] v h f = cc
  any-find p k (w ∷ t) v h f = ground (arith, any-find p k t v)

  pub find-without_self :
      (k : ℕ) (t : List V) → IsUnique key t → find key k (without key k t) ≡ none
  unfolding find without
  find-without_self k [] u = refl
  find-without_self k (v ∷ t) (fresh, u) = ground (arith, fresh, find-without_self k t u)

  without-IsUnique : (k : ℕ) (t : List V) → IsUnique key t → IsUnique key (without key k t)
  unfolding find without
  without-IsUnique k [] u = tt
  without-IsUnique k (v ∷ t) (fresh, u) =
      ground (arith, fresh, u, without-IsUnique k t u, find-without-none k (key v) t fresh)

  pub without-IsKeyed :
      (k : ℕ) (t : Table V) → IsKeyed key t → IsKeyed key (record t { rows = without key k t.rows })
  without-IsKeyed k t h = record {
    unique = without-IsUnique k t.rows h.unique;
    fresh = λ j le. find-without-none k j t.rows (h.fresh j le);
  }
