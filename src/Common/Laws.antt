-- ===== src/Common/Laws.antt =====
-- What pages and deferred effects promise (backend/app/services/common.py and after_commit.py).
use kans_shop.Prelude.{
  ℕ, suc, ◌+◌, ◌-◌, ◌*◌, ◌/◌, ◌%◌, ◌≤◌, ◌<◌, ◌≡◌, refl, ap, sym, ◌∙◌, ◌↔◌, Bool, true, false, not,
  List, [], ◌∷◌, ◌++◌, arith, ltb, select, Bool-cases, inl, inr,
}
use native.Mathlib.Nat as N
use kans_shop.Common.{
  Page, pages_of, total_pages, has_next, Session, run_actions, commit_with_after_commit,
}

-- A full page ends before the last row just where another page follows it.
page-ends :
    (page limit total q r : ℕ)
    → q * limit + r ≡ total + limit - 1
    → r < limit
    → (page < q) ↔ (page * limit < total)
page-ends page limit total q r split less = (
  (λ h. let up : suc page * limit ≤ q * limit = N.mul-le-mul_right limit h in grind arith),
  (λ h. elim (Bool-cases (ltb page q)) [
    | inl fine ↦ ground (arith, fine)
    | inr over ↦
        let le : q ≤ page = ground (arith, over) in
        let up : q * limit ≤ page * limit = N.mul-le-mul_right limit le in absurd (grind arith)
  ]),
)

-- For a positive limit and page number, a page has a next one just if rows are left after the end
-- of this one.
pub has_next_iff :
    {A : Type 0} (p : Page A)
    → 1 ≤ p.limit
    → 1 ≤ p.page
    → (has_next p ≡ true) ↔ (p.page * p.limit < p.total)
unfolding has_next total_pages pages_of
has_next_iff p lim pg =
    let q = (p.total + p.limit - 1) / p.limit in
    let ends =
      page-ends p.page p.limit p.total q ((p.total + p.limit - 1) % p.limit)
        (N.div-add-mod' (p.total + p.limit - 1) p.limit) (N.mod-lt (p.total + p.limit - 1) lim) in
    (λ h. ends.0 (ground (arith, h, pg, lim)), λ h. ground (arith, ends.1 h, lim))

append_nil : {A : Type 0} (xs : List A) → xs ++ [] ≡ xs
append_nil [] = refl
append_nil (x ∷ xs) = ap (λ ys. x ∷ ys) (append_nil xs)

append_assoc : {A : Type 0} (xs ys zs : List A) → (xs ++ ys) ++ zs ≡ xs ++ (ys ++ zs)
append_assoc [] ys zs = refl
append_assoc (a ∷ xs) ys zs = ap (λ xs. a ∷ xs) (append_assoc xs ys zs)

-- A run of deferred actions tries each one once and in order: the ones that work are added to those
-- that ran, the others to those that failed, and nothing else changes.
pub run_actions_lem :
    {A : Type 0} (works : A → Bool) (xs : List A) (s : Session A)
    → run_actions works xs s ≡ record s {
      ran = s.ran ++ select works xs;
      failed = s.failed ++ select (λ a. not (works a)) xs;
    }
unfolding run_actions select
run_actions_lem works [] s = ground (arith, append_nil s.ran, append_nil s.failed)
run_actions_lem works (a ∷ xs) s = elim (Bool-cases (works a)) [
  | inl fine ↦
      let next_ = record s { ran = s.ran ++ a ∷ [] } in
      ground
        (arith, fine, run_actions_lem works xs next_, append_assoc s.ran (a ∷ []) (select works xs))
  | inr bad ↦
      let next_ = record s { failed = s.failed ++ a ∷ [] } in
      ground (
        arith,
        bad,
        run_actions_lem works xs next_,
        append_assoc s.failed (a ∷ []) (select (λ b. not (works b)) xs),
      )
]

run_none :
    {A : Type 0} (works : A → Bool) (xs : List A) (s : Session A)
    → xs ≡ []
    → run_actions works xs s ≡ s
unfolding run_actions
run_none works [] s h = refl
run_none works (x ∷ xs) s h = absurd (ground (arith, h))

-- After a commit, successful or failed, the next successful commit runs no action: it only counts
-- itself.
pub commit_once :
    {A : Type 0} (commits : Bool) (works works' : A → Bool) (s : Session A)
    → (commit_with_after_commit true works' (commit_with_after_commit commits works s).0).0
      ≡ record ((commit_with_after_commit commits works s).0) {
        committed = (commit_with_after_commit commits works s).0.committed + 1;
      }
unfolding commit_with_after_commit
commit_once true works works' s =
    let popped = record s { actions = []; committed = s.committed + 1 } in
    let t = run_actions works s.actions popped in
    let empty_ : t.actions ≡ [] = ap (λ v. v.actions) (run_actions_lem works s.actions popped) in
    run_none works' t.actions (record t { actions = []; committed = t.committed + 1 }) empty_
    ∙ ap (λ xs. record t { actions = xs; committed = t.committed + 1 }) (sym empty_)
commit_once false works works' s = run_none works' [] _ refl
