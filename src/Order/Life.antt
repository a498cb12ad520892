-- ===== src/Order/Life.antt =====
-- The life of an order under order_service.py: what `mark_paid` does to the orders and how far any of
-- them can move. The other operations are compared in Order/Growth.
use kans_shop.Prelude.{
  ℕ, ◌≡◌, refl, sym, ap, ◌≢◌, true, false, Option, none, some, Table, arith, find, update,
  find-replace_self, find-replace_ne, Bool-cases, inl, inr, select,
}
use mathlib.Core.Path.{subst}
use kans_shop.Enums.{PaymentStatus, confirmed}
use kans_shop.Models.{Database, Order, PaymentTransaction}
use kans_shop.Exec.{ok, Result-cases}
use kans_shop.Repositories.{order_key, latest, is_paid_of}
use kans_shop.Order.{
  advance_status, mark_paid, settle, notify_payment, confirm_if_new, is_paid, is_new,
}
use kans_shop.Order.Notify.{notify_payment-IsQuiet}
use kans_shop.Outbox.Frame.{OnlyOutbox}
use kans_shop.Order.Status.{order_of, advance_inv}
use kans_shop.Order.Growth.{
  Grown, Grown-refl, Grown-trans, Evolves, Evolves-refl, Evolves-trans, save-Evolves,
  advanced-Grown, advance-Evolves, stay,
}

abbrev pub as_paid : Order → Order
as_paid o = record o { payment_status = PaymentStatus.paid }

abbrev pub saved_paid : Order → Database → Database
saved_paid o d = record d { orders = update order_key (as_paid o) d.orders }

as_paid-Grown : (o : Order) → Grown o (as_paid o)
as_paid-Grown o = record {
  life = stay;
  same_id = refl;
  same_user = refl;
  same_number = refl;
  same_total = refl;
  same_items = refl;
  same_method = refl;
  paid_stays = λ h. refl;
}

-- What a successful `mark_paid` of the order's row leaves.
pub record MarkedPaid (o r : Order) (d d' : Database) : Type 0 where
  pub evolves : Evolves d d'
  pub stored : order_of d' o.id ≡ some r
  pub is_settled : is_paid r.payment_status ≡ true
  pub same_transactions : d'.transactions ≡ d.transactions
  pub same_products : d'.products ≡ d.products
  pub grown : Grown o r
  pub confirms : is_paid o.payment_status ≡ false → is_new o.status ≡ true → r.status ≡ confirmed
  pub keeps_later : is_new o.status ≡ false → r.status ≡ o.status
  pub keeps_paid : is_paid o.payment_status ≡ true → r ≡ o
  pub others : (k : ℕ) → k ≢ o.id → order_of d' k ≡ order_of d k

-- What `confirm_if_new` leaves of an order that has just been paid.
record Confirmed (o r : Order) (d d' : Database) : Type 0 where
  evolves : Evolves d d'
  stored : order_of d' o.id ≡ some r
  is_settled : is_paid r.payment_status ≡ true
  same_transactions : d'.transactions ≡ d.transactions
  same_products : d'.products ≡ d.products
  grown : Grown o r
  confirms : is_new o.status ≡ true → r.status ≡ confirmed
  keeps_later : is_new o.status ≡ false → r.status ≡ o.status
  others : (k : ℕ) → k ≢ o.id → order_of d' k ≡ order_of d k

confirm_inv :
    (now : ℕ) (o : Order) (d e : Database) (r : Order)
    → order_of d o.id ≡ some o
    → is_paid o.payment_status ≡ true
    → confirm_if_new now o d ≡ ok (r, e)
    → Confirmed o r d e
confirm_inv now o d e r found paid h = elim (Bool-cases (is_new o.status)) [
  | inr other ↦
      let same : e ≡ d = ground (arith, other, h) in
      record {
        evolves = subst (λ x. Evolves d x) (sym same) (Evolves-refl d);
        stored = ground (arith, other, h, found);
        is_settled = ground (arith, other, h, paid);
        same_transactions = ap (λ x. x.transactions) same;
        same_products = ap (λ x. x.products) same;
        grown = subst (λ x. Grown o x) (ground (arith, other, h)) (Grown-refl o);
        confirms = λ n. absurd (ground (arith, other, n));
        keeps_later = λ n. ground (arith, other, h);
        others = λ k ne. ap (λ x. order_of x k) same;
      }
  | inl new_ ↦
      let q : advance_status now o.id confirmed none none false d ≡ ok (r, e) =
        ground (arith, new_, h) in
      let a = advance_inv now o.id confirmed none none false d e r q in
      let same : a.before ≡ o = ground (arith, a.found, found) in
      record {
        evolves = advance-Evolves now o.id confirmed none none false d e r q;
        stored = ground (
          arith,
          a.state,
          a.result,
          same,
          find-replace_self order_key o.id r d.orders.rows o found,
        );
        is_settled = ground (arith, a.result, same, paid);
        same_transactions = ground (arith, a.state);
        same_products = ground (arith, a.state);
        grown =
            subst (λ x. Grown x r) same
              (subst (λ x. Grown a.before x) (sym a.result)
                (advanced-Grown now confirmed none false a.before a.allowed));
        confirms = λ n. ground (arith, a.result);
        keeps_later = λ n. absurd (ground (arith, new_, n));
        others = λ k ne.
            ground
              (arith, a.state, a.result, same, ne, find-replace_ne order_key k r d.orders.rows);
      }
]

saved_paid-Evolves :
    (o : Order) (d : Database) → order_of d o.id ≡ some o → Evolves d (saved_paid o d)
saved_paid-Evolves o d found =
    save-Evolves o.id o (as_paid o) d (saved_paid o d) found (as_paid-Grown o) refl

pub saved_paid-stored :
    (o : Order) (d : Database)
    → order_of d o.id ≡ some o
    → order_of (saved_paid o d) o.id ≡ some (as_paid o)
saved_paid-stored o d found =
    find-replace_self order_key o.id (as_paid o) d.orders.rows o found refl

-- The transaction that the events of a payment name.
abbrev pub paid_of : Order → Database → Option PaymentTransaction
paid_of s e = latest (select (is_paid_of s.id) e.transactions.rows)

pub Evolves-orders : (c d e : Database) → e.orders ≡ d.orders → Evolves c d → Evolves c e
Evolves-orders c d e same f k o h =
    let (r, hr, g) = f k o h in
    (r, subst (λ (t : Table Order). find order_key k t.rows ≡ some r) (sym same) hr, g)

settle_inv :
    (now : ℕ) (o r : Order) (d d' : Database)
    → order_of d o.id ≡ some o
    → is_paid o.payment_status ≡ false
    → settle now o d ≡ ok (r, d')
    → MarkedPaid o r d d'
unfolding settle
settle_inv now o r d d' found unpaid h =
    elim (Result-cases (confirm_if_new now (as_paid o) (saved_paid o d))) [
      | inr (x, q) ↦ absurd (ground (arith, q, h))
      | inl (s, e, q) ↦
          let p =
            confirm_inv now (as_paid o) (saved_paid o d) e s (saved_paid-stored o d found) refl q in
          elim (Result-cases (notify_payment s (paid_of s e) e)) [
            | inr (x, w) ↦ absurd (ground (arith, q, h, w))
            | inl (u, f, w) ↦
                let quiet : OnlyOutbox e f = notify_payment-IsQuiet s (paid_of s e) e f u w in
                let same : d' ≡ f = ground (arith, q, h, w) in
                let result : r ≡ s = ground (arith, q, h, w) in
                record {
                  evolves = Evolves-trans d (saved_paid o d) d' (saved_paid-Evolves o d found) (
                      Evolves-orders (saved_paid o d) e d' (ground (arith, quiet, same)) p.evolves);
                  stored = ground (arith, p.stored, quiet, same, result);
                  is_settled = rw result p.is_settled;
                  same_transactions = ground (arith, p.same_transactions, quiet, same);
                  same_products = ground (arith, p.same_products, quiet, same);
                  grown =
                      subst (λ x. Grown o x) (sym result)
                        (Grown-trans o (as_paid o) s (as_paid-Grown o) p.grown);
                  confirms = λ _ n. rw result (p.confirms n);
                  keeps_later = λ n. rw result (p.keeps_later n);
                  keeps_paid = λ n. absurd (ground (arith, unpaid, n));
                  others = λ k ne. ground (
                    arith,
                    quiet,
                    same,
                    p.others k ne,
                    ne,
                    find-replace_ne order_key k (as_paid o) d.orders.rows,
                  );
                }
          ]
    ]

-- A settlement of the stored order that succeeds stores it as paid, with what was agreed at
-- checkout kept: an order that was paid is as it was, one that was unpaid and new is confirmed, and
-- one that was not new keeps its status; no other order, no transaction and no product changes.
pub mark_paid_inv :
    (now : ℕ) (o r : Order) (d d' : Database)
    → order_of d o.id ≡ some o
    → mark_paid now o d ≡ ok (r, d')
    → MarkedPaid o r d d'
unfolding mark_paid
mark_paid_inv now o r d d' found h = elim (Bool-cases (is_paid o.payment_status)) [
  | inr unpaid ↦ settle_inv now o r d d' found unpaid (ground (arith, unpaid, h))
  | inl paid ↦
      let same : d' ≡ d = ground (arith, paid, h) in
      record {
        evolves = subst (λ x. Evolves d x) (sym same) (Evolves-refl d);
        stored = ground (arith, paid, h, found);
        is_settled = ground (arith, paid, h);
        same_transactions = ap (λ x. x.transactions) same;
        same_products = ap (λ x. x.products) same;
        grown = subst (λ x. Grown o x) (ground (arith, paid, h)) (Grown-refl o);
        confirms = λ n. absurd (ground (arith, paid, n));
        keeps_later = λ _. ground (arith, paid, h);
        keeps_paid = λ _. ground (arith, paid, h);
        others = λ k ne. ap (λ x. order_of x k) same;
      }
]
