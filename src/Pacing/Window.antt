-- ===== src/Pacing/Window.antt =====
-- The rate limit of backend/app/services/telegram_pacing_service.py, and that a wait ends.
use kans_shop.Prelude.{
  ℕ, ◌+◌, ◌-◌, ◌≤◌, ◌<◌, max, min, ◌≡◌, refl, ap, sym, ◌∙◌, Bool, true, false, ◌&&◌, some, List, [],
  ◌∷◌, ◌++◌, arith, length, length-append, lt→ltb, select, count, count-append, ltb, leb,
  Bool-cases, inl, inr,
}
use mathlib.Core.List.{append_assoc, append-nil}
use kans_shop.Pacing.{
  is_recent, slots, first, lowest, reserve_slot, acquire_telegram_slot, granted, grants,
}

abbrev pub Ascending : ℕ → List ℕ → Type 0
Ascending last [] = Unit
Ascending last (t ∷ ts) = (last ≤ t) × Ascending t ts

-- The second that begins at a time.
abbrev pub is_within : ℕ → ℕ → Bool
is_within start t = leb start t && ltb t (start + 1000)

select-append : (p : ℕ → Bool) (xs ys : List ℕ) → select p (xs ++ ys) ≡ select p xs ++ select p ys
unfolding select
select-append p [] ys = refl
select-append p (x ∷ xs) ys = ground (arith, select-append p xs ys)

-- A score that is recent later is recent before.
select_recent :
    (last now : ℕ) (h : List ℕ)
    → last ≤ now
    → select (is_recent now) (select (is_recent last) h) ≡ select (is_recent now) h
unfolding select
select_recent last now [] le = refl
select_recent last now (s ∷ h) le = ground (arith, select_recent last now h)

count_recent :
    (start now : ℕ) (h : List ℕ)
    → now < start + 1000
    → count (is_within start) h ≤ length (select (is_recent now) h)
unfolding select count
count_recent start now [] lt = omega arith
count_recent start now (s ∷ h) lt = ground (arith, count_recent start now h)

-- The slots so far, and the scores of the recent ones.
record Paced (last : ℕ) (h scores : List ℕ) : Type 0 where
  recent : scores ≡ select (is_recent last) h
  few : (start : ℕ) → count (is_within start) h ≤ slots

grant_few :
    (now : ℕ) (h : List ℕ)
    → length (select (is_recent now) h) < slots
    → ((start : ℕ) → count (is_within start) h ≤ slots)
    → (start : ℕ) → count (is_within start) (h ++ now ∷ []) ≤ slots
grant_few now h free few start =
    ground (arith, few start, count_recent start now h, count-append (is_within start) h now)

keep_now :
    (now : ℕ) (h kept : List ℕ)
    → kept ≡ select (is_recent now) h
    → kept ++ now ∷ [] ≡ select (is_recent now) (h ++ now ∷ [])
unfolding select
keep_now now h kept same = ground (arith, same, select-append (is_recent now) h (now ∷ []))

reserve_free :
    (now : ℕ) (scores : List ℕ)
    → ltb (length (select (is_recent now) scores)) slots ≡ true
    → reserve_slot now scores ≡ (0, select (is_recent now) scores ++ now ∷ [])
unfolding reserve_slot
reserve_free now scores free = ground (arith, free)

reserve_full :
    (now : ℕ) (scores : List ℕ)
    → ltb (length (select (is_recent now) scores)) slots ≡ false
    → (reserve_slot now scores).1 ≡ select (is_recent now) scores
unfolding reserve_slot
reserve_full now scores full = ground (arith, full)

refused_lem :
    (now : ℕ) (scores : List ℕ)
    → ltb (length (select (is_recent now) scores)) slots ≡ false
    → granted now (reserve_slot now scores) ≡ []
unfolding reserve_slot
refused_lem now scores full = ground (arith, full)

grants_few :
    (times : List ℕ) (last : ℕ) (h scores : List ℕ)
    → Ascending last times
    → Paced last h scores
    → (start : ℕ) → count (is_within start) (h ++ grants times scores) ≤ slots
unfolding grants
grants_few [] last h scores up p start = rw (append-nil h) (p.few start)
grants_few (now ∷ times) last h scores (le, up) p start =
    let kept = select (is_recent now) scores in
    let same : kept ≡ select (is_recent now) h =
      ap (select (is_recent now)) p.recent ∙ select_recent last now h le in
    elim (Bool-cases (ltb (length kept) slots)) [
      | inl free ↦
          let paced : Paced now (h ++ now ∷ []) (kept ++ now ∷ []) = record {
            recent = keep_now now h kept same;
            few = grant_few now h (ground (arith, free, ap length same)) p.few;
          } in
          rw (reserve_free now scores free) (
            rw (← append_assoc h (now ∷ []) (grants times (kept ++ now ∷ [])))
              (grants_few times now (h ++ now ∷ []) (kept ++ now ∷ []) up paced start))
      | inr full ↦ rw (refused_lem now scores full) (
          rw (reserve_full now scores full)
            (grants_few times now h kept up (record { recent = same; few = p.few }) start))
    ]

-- When the clients ask at times of the server that do not go back, at most 20 slots are granted in
-- any second.
pub grants_bound :
    (times : List ℕ) (last start : ℕ)
    → Ascending last times
    → count (is_within start) (grants times []) ≤ slots
unfolding select count
grants_bound times last start up =
    grants_few times last [] [] up (record { recent = refl; few = λ s. omega arith }) start

length-select : (p : ℕ → Bool) (xs : List ℕ) → length (select p xs) ≤ length xs
unfolding select
length-select p [] = omega arith
length-select p (x ∷ xs) = ground (arith, length-select p xs)

-- Once the lowest score is over, there is one score less.
drop_lowest :
    (p : ℕ → Bool) (s : ℕ) (ts : List ℕ)
    → p (first s ts) ≡ false
    → length (select p (s ∷ ts)) ≤ length ts
unfolding first select
drop_lowest p s [] h = ground arith
drop_lowest p s (t ∷ ts) h = elim (Bool-cases (leb s (first t ts))) [
  | inl low ↦
      let at : min s (first t ts) ≡ s = ground (arith, low) in
      ground (arith, at, length-select p (t ∷ ts), h)
  | inr high ↦
      let at : min s (first t ts) ≡ first t ts = ground (arith, high) in
      let rest = drop_lowest p t ts (ap p (sym at) ∙ h) in ground (arith, rest)
]

-- After the wait a slot is free.
waited_lem :
    (now : ℕ) (kept : List ℕ)
    → length kept ≤ slots
    → length (select (is_recent (now + max 1 (lowest kept + 1000 - now) + 2)) kept) < slots
unfolding select
waited_lem now [] few = omega arith
waited_lem now (s ∷ ts) few =
    let later = now + max 1 (first s ts + 1000 - now) + 2 in
    let over : is_recent later (first s ts) ≡ false = ground arith in
    let less = drop_lowest (is_recent later) s ts over in omega (arith, less)

reserve_wait :
    (now : ℕ) (scores : List ℕ)
    → ltb (length (select (is_recent now) scores)) slots ≡ false
    → reserve_slot now scores
      ≡ (max 1 (lowest (select (is_recent now) scores) + 1000 - now), select (is_recent now) scores)
unfolding reserve_slot
reserve_wait now scores full = ground (arith, full)

-- With at most 20 scores in the set and no other client in between, a client gets its slot at the
-- second try at the latest, not before it asked, and leaves at most 20 scores.
pub acquire_lem :
    (now : ℕ) (scores : List ℕ)
    → length scores ≤ slots
    → (r : ℕ × List ℕ) × (acquire_telegram_slot 2 now scores ≡ some r)
      × (now ≤ r.0)
      × (length r.1 ≤ slots)
unfolding acquire_telegram_slot
acquire_lem now scores few =
    let kept = select (is_recent now) scores in
    elim (Bool-cases (ltb (length kept) slots)) [
      | inl free ↦ (
        (now, kept ++ now ∷ []),
        ground (arith, reserve_free now scores free),
        omega arith,
        ground (arith, free, length-append kept (now ∷ [])),
      )
      | inr full ↦
          let later = now + max 1 (lowest kept + 1000 - now) + 2 in
          let kept' = select (is_recent later) kept in
          let free =
            waited_lem now kept (omega (arith, few, length-select (is_recent now) scores)) in
          let second = reserve_free later kept (lt→ltb _ _ free) in
          (
            (later, kept' ++ later ∷ []),
            ground (arith, reserve_wait now scores full, second),
            omega arith,
            ground (arith, free, length-append kept' (later ∷ [])),
          )
    ]
