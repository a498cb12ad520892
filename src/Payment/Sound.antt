-- ===== src/Payment/Sound.antt =====
-- The transactions of the gateways over any number of calls: their ids differ, and an order is paid
-- at most once by each of them (backend/app/services/payment_service.py).
use kans_shop.Prelude.{
  ℕ, suc, ◌≤◌, ◌≡◌, refl, ap, sym, Bool, true, false, ◌&&◌, not, none, some, List, [], ◌∷◌, ◌++◌,
  arith, find, any, replace, update, ◌==◌, Bool-cases, count, count-append, count-replace,
  count-eq-zero, IsUnique, find-of-find_by, replace-IsUnique, append-IsUnique, find-replace_ne,
  find-append_fresh, Table,
}
use mathlib.Core.Path.{subst}
use kans_shop.Enums.{PaymentProvider, PaymentTxState, provider_eq, tx_state_eq}
use kans_shop.Models.{Database, PaymentTransaction}
use kans_shop.Repositories.{tx_key}
use kans_shop.Order.Growth.{Evolves, Evolves-refl, Evolves-trans}
use kans_shop.Order.Life.{Evolves-orders, mark_paid_inv}
use kans_shop.Payment.{is_other_paid}
use kans_shop.Payment.ClickStep.{TxStep, nothing, opened, closed, paid}

-- A paid transaction of this order and this gateway.
abbrev pub pays : ℕ → PaymentProvider → PaymentTransaction → Bool
pays k v t =
    t.order_id == k && (provider_eq t.provider v && tx_state_eq t.state PaymentTxState.paid)

pub record PaidOnce (rows : List PaymentTransaction) (next : ℕ) : Type 0 where
  pub unique : IsUnique tx_key rows
  pub fresh : (k : ℕ) → next ≤ k → find tx_key k rows ≡ none
  pub once : (k : ℕ) (v : PaymentProvider) → count (pays k v) rows ≤ 1

abbrev pub IsPaidOnce : Database → Type 0
IsPaidOnce d = PaidOnce d.transactions.rows d.transactions.next

append-PaidOnce :
    (rows : List PaymentTransaction) (next : ℕ) (t : PaymentTransaction)
    → t.id ≡ next
    → t.state ≡ PaymentTxState.pending
    → PaidOnce rows next
    → PaidOnce (rows ++ t ∷ []) (suc next)
append-PaidOnce rows next t same pending h = record {
  unique = append-IsUnique tx_key t rows h.unique (ground (arith, h.fresh next, same));
  fresh = λ k le. ground (arith, h.fresh k, find-append_fresh tx_key k t rows, same, le);
  once = λ k v. ground (arith, h.once k v, count-append (pays k v) rows t, pending);
}

replace-fresh :
    (rows : List PaymentTransaction) (next : ℕ) (t u : PaymentTransaction)
    → find tx_key t.id rows ≡ some t
    → u.id ≡ t.id
    → PaidOnce rows next
    → (k : ℕ) → next ≤ k
    → find tx_key k (replace tx_key u rows) ≡ none
replace-fresh rows next t u found same h k le =
    ground (arith, h.fresh k le, find-replace_ne tx_key k u rows, found, same)

-- A write that leaves at most one payment of each order and gateway.
replace-PaidOnce :
    (rows : List PaymentTransaction) (next : ℕ) (t u : PaymentTransaction)
    → find tx_key t.id rows ≡ some t
    → u.id ≡ t.id
    → ((k : ℕ) (v : PaymentProvider)
        → pays k v u ≡ true
        → pays k v t ≡ false
        → count (pays k v) rows ≡ 0)
    → PaidOnce rows next
    → PaidOnce (replace tx_key u rows) next
replace-PaidOnce rows next t u found same free h = record {
  unique = replace-IsUnique tx_key u rows h.unique;
  fresh = replace-fresh rows next t u found same h;
  once = λ k v. ground (
    arith,
    h.once k v,
    count-replace tx_key (pays k v) u rows t,
    found,
    same,
    free k v,
    Bool-cases (pays k v u),
    Bool-cases (pays k v t),
  );
}

closed-free :
    (rows : List PaymentTransaction) (t u : PaymentTransaction)
    → u.state ≡ PaymentTxState.cancelled
    → (k : ℕ) (v : PaymentProvider) → pays k v u ≡ true
    → pays k v t ≡ false
    → count (pays k v) rows ≡ 0
closed-free rows t u gone k v now_ before = absurd (ground (arith, gone))

split_other :
    (k : ℕ) (v : PaymentProvider) (x : ℕ) (u : PaymentTransaction)
    → is_other_paid k v x u ≡ (pays k v u && not (tx_key u == x))
split_other k v x u = ground arith

-- Where no other transaction has paid the order, the one that pays it now is the first.
paid-free :
    (rows : List PaymentTransaction) (t u : PaymentTransaction)
    → IsUnique tx_key rows
    → find tx_key t.id rows ≡ some t
    → u.order_id ≡ t.order_id
    → u.provider ≡ t.provider
    → any (is_other_paid t.order_id t.provider t.id) rows ≡ false
    → (k : ℕ) (v : PaymentProvider) → pays k v u ≡ true
    → pays k v t ≡ false
    → count (pays k v) rows ≡ 0
paid-free rows t u unique found same_order same_provider only k v now_ before =
    let at : k ≡ t.order_id = ground (arith, now_, same_order) in
    let by : v ≡ t.provider = ground (arith, now_, same_provider) in
    count-eq-zero tx_key (pays k v) (is_other_paid k v t.id) t.id (split_other k v t.id) rows t
      unique found before (rw (at, by) only)

-- Every call of a gateway keeps the ids apart and no order paid twice.
pub step-PaidOnce : {now : ℕ} (d e : Database) → IsPaidOnce d → TxStep now d e → IsPaidOnce e
step-PaidOnce d e h (nothing same) = subst IsPaidOnce (sym same) h
step-PaidOnce d e h (opened row shape saved) =
    let n = d.transactions.next in
    subst IsPaidOnce (sym saved)
      (append-PaidOnce d.transactions.rows n (row n) (shape n).0 (shape n).1 h)
step-PaidOnce d e h (closed q t u found same gone saved) =
    let at = find-of-find_by tx_key q d.transactions.rows t h.unique found in
    subst IsPaidOnce (sym saved) (
      replace-PaidOnce d.transactions.rows d.transactions.next t u at same
        (closed-free d.transactions.rows t u gone) h)
step-PaidOnce {now} d e h
      (paid q o s t u found (same, same_order, same_provider) order own only m) =
    let at = find-of-find_by tx_key q d.transactions.rows t h.unique found in
    let saved = record d { transactions = update tx_key u d.transactions } in
    let done = mark_paid_inv now o s saved e order m in
    subst (λ (t : Table PaymentTransaction). PaidOnce t.rows t.next) (sym done.same_transactions)
      (replace-PaidOnce d.transactions.rows d.transactions.next t u at same
        (paid-free d.transactions.rows t u h.unique at same_order same_provider (rw own only)) h)

-- No call of a gateway loses an order, moves it against its life, or takes its payment back.
pub step-Evolves : {now : ℕ} (d e : Database) → TxStep now d e → Evolves d e
step-Evolves d e (nothing same) = subst (λ x. Evolves d x) (sym same) (Evolves-refl d)
step-Evolves d e (opened row shape saved) =
    Evolves-orders d d e (ap (λ x. x.orders) saved) (Evolves-refl d)
step-Evolves d e (closed q t u found same gone saved) =
    Evolves-orders d d e (ap (λ x. x.orders) saved) (Evolves-refl d)
step-Evolves {now} d e (paid q o s t u found same order own only m) =
    let saved = record d { transactions = update tx_key u d.transactions } in
    let first : Evolves d saved = Evolves-orders d d saved refl (Evolves-refl d) in
    Evolves-trans d saved e first (mark_paid_inv now o s saved e order m).evolves
