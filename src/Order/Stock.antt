-- ===== src/Order/Stock.antt =====
-- The stock and the sales that `cancel_order` of backend/app/services/order_service.py gives back.
use kans_shop.Prelude.{
  ℕ, ◌+◌, ◌≡◌, refl, ap, sym, ◌∙◌, Bool, true, false, Option, some, List, [], ◌∷◌, arith, find, leb,
  ◌==◌, is_number, if◌then◌else◌, find-replace_self, find-replace_ne, find_key, Option-cases,
  Bool-cases, inl, inr, sort_by, insert_by, replace, Table,
}
use kans_shop.Prelude.Int.{pos, neg, ◌+ℤ◌, int_laws}
use mathlib.Core.Path.{subst}
use kans_shop.Models.{Database, OrderItem, Product}
use kans_shop.Exec.{ok}
use kans_shop.Repositories.{product_key}
use kans_shop.Order.{restock, restock_all, given_back, item_order}

abbrev pub product_of : Database → ℕ → Option Product
product_of d k = find product_key k d.products.rows

-- How many pieces of one product the items hold.
abbrev pub item_pieces : ℕ → OrderItem → ℕ
item_pieces k i = if is_number k i.product_id then i.quantity else 0

unfoldable pub pieces : ℕ → List OrderItem → ℕ
pieces k [] = 0
pieces k (i ∷ is) = item_pieces k i + pieces k is

insert-pieces :
    (k : ℕ) (i : OrderItem) (is : List OrderItem)
    → pieces k (insert_by item_order i is) ≡ pieces k (i ∷ is)
unfolding pieces insert_by
insert-pieces k i [] = refl
insert-pieces k i (j ∷ js) = elim (Bool-cases (leb (item_order i) (item_order j))) [
  | inl le ↦ ground arith
  | inr gt ↦ ground (arith, insert-pieces k i js)
]

-- The order in which the products are locked does not matter.
pub sort-pieces : (k : ℕ) (is : List OrderItem) → pieces k (sort_by item_order is) ≡ pieces k is
unfolding sort_by pieces
sort-pieces k [] = refl
sort-pieces k (i ∷ is) =
    insert-pieces k i (sort_by item_order is)
    ∙ ap (λ (n : ℕ). item_pieces k i + n) (sort-pieces k is)

-- `p` has got n pieces back and is sold n times less.
pub record GotBack (deducted : Bool) (n : ℕ) (p q : Product) : Type 0 where
  pub same_id : q.id ≡ p.id
  pub stock : q.stock_qty ≡ p.stock_qty +ℤ pos (if deducted then n else 0)
  pub sales : q.sold_count ≡ p.sold_count +ℤ neg n
  pub same_price : q.price ≡ p.price
  pub same_active : q.is_active ≡ p.is_active

given_back-GotBack : (b : Bool) (n : ℕ) (p : Product) → GotBack b n p (given_back b n p)
given_back-GotBack b n p = grind int_laws

GotBack-zero : (b : Bool) (p : Product) → GotBack b 0 p p
GotBack-zero b p = grind int_laws

GotBack-trans :
    (b : Bool) (m n : ℕ) (p q r : Product)
    → GotBack b m p q
    → GotBack b n q r
    → GotBack b (m + n) p r
GotBack-trans true m n p q r h j = record {
  same_id = ground arith;
  stock = grind (int_laws, h.stock, j.stock);
  sales = grind (int_laws, h.sales, j.sales);
  same_price = ground arith;
  same_active = ground arith;
}
GotBack-trans false m n p q r h j = record {
  same_id = ground arith;
  stock = grind (int_laws, h.stock, j.stock);
  sales = grind (int_laws, h.sales, j.sales);
  same_price = ground arith;
  same_active = ground arith;
}

abbrev pub OnlyProducts : Database → Database → Type 0
OnlyProducts d e = e ≡ record d { products = e.products }

-- Every product that is there has got `n k` pieces back.
abbrev pub AllGotBack : Bool → (ℕ → ℕ) → Database → Database → Type 0
AllGotBack b n d e =
    (k : ℕ) (p : Product)
    → product_of d k ≡ some p
    → (q : Product) × (product_of e k ≡ some q) × GotBack b (n k) p q

pub record Restocked (b : Bool) (n : ℕ → ℕ) (d e : Database) : Type 0 where
  pub frame : OnlyProducts d e
  pub got : AllGotBack b n d e

given_back_as :
    (b : Bool) (k : ℕ) (i : OrderItem) (p pj : Product)
    → pj ≡ p
    → i.quantity ≡ item_pieces k i
    → GotBack b (item_pieces k i) p (given_back b i.quantity pj)
given_back_as b k i p pj same count =
    subst (λ n. GotBack b n p (given_back b i.quantity pj)) count
      (subst (λ x. GotBack b i.quantity p (given_back b i.quantity x)) (sym same)
        (given_back-GotBack b i.quantity p))

-- The item's product is written; any other stays.
restock_found :
    (b : Bool) (i : OrderItem) (d : Database) (j : ℕ) (pj : Product)
    → i.product_id ≡ some j
    → product_of d j ≡ some pj
    → AllGotBack b
        (λ k. item_pieces k i)
        d
        (record d {
          products = record d.products {
            rows = replace product_key (given_back b i.quantity pj) d.products.rows;
          };
        })
restock_found b i d j pj ej ep k p h = elim (Bool-cases (k == j)) [
  | inl same ↦ (
    given_back b i.quantity pj,
    ground (
      arith,
      find-replace_self product_key k (given_back b i.quantity pj) d.products.rows p,
      find_key product_key j d.products.rows pj,
      given_back-GotBack b i.quantity pj,
    ),
    given_back_as b k i p pj (ground arith) (ground arith),
  )
  | inr other ↦ (
    p,
    ground (
      arith,
      find-replace_ne product_key k (given_back b i.quantity pj) d.products.rows,
      find_key product_key j d.products.rows pj,
    ),
    rw (ej, other) (GotBack-zero b p),
  )
]

Restocked-refl : (b : Bool) (d : Database) → Restocked b (λ k. 0) d d
Restocked-refl b d = record { frame = refl; got = λ k p h. (p, h, GotBack-zero b p) }

Restocked-trans :
    (b : Bool) (m n : ℕ → ℕ) (c d e : Database)
    → Restocked b m c d
    → Restocked b n d e
    → Restocked b (λ k. m k + n k) c e
Restocked-trans b m n c d e f g = record {
  frame = ground (arith, f.frame, g.frame);
  got = λ k p h.
      let (q, hq, gq) = f.got k p h in
      let (r, hr, gr) = g.got k q hq in (r, hr, GotBack-trans b (m k) (n k) p q r gq gr);
}

abbrev restocked : Bool → OrderItem → ℕ → Product → Database → Database
restocked b i j p d = record d {
  products = record d.products {
    rows = replace product_key (given_back b i.quantity p) d.products.rows;
  };
}

-- Without a product, or with one that is gone, nothing is written.
restock_none :
    (b : Bool) (i : OrderItem) (d : Database)
    → ((k : ℕ) (p : Product) → product_of d k ≡ some p → item_pieces k i ≡ 0)
    → Restocked b (λ k. item_pieces k i) d d
restock_none b i d zero_ = record {
  frame = refl;
  got = λ k p h. (p, h, subst (λ n. GotBack b n p p) (sym (zero_ k p h)) (GotBack-zero b p));
}

restock_lem :
    (b : Bool) (i : OrderItem) (d : Database)
    → (e : Database) × (restock b i d ≡ ok (tt, e)) × Restocked b (λ k. item_pieces k i) d e
unfolding restock
restock_lem b i d = elim (Option-cases i.product_id) [
  | inl none_ ↦ (d, ground arith, restock_none b i d (λ k p h. ground arith))
  | inr (j, ej) ↦ elim (Option-cases (product_of d j)) [
    | inl gone ↦ (d, ground arith, restock_none b i d (λ k p h. ground arith))
    | inr (pj, ep) ↦ (
      restocked b i j pj d,
      ground arith,
      record { frame = ground arith; got = restock_found b i d j pj ej ep },
    )
  ]
]

-- Giving back the items of a cancelled order never fails: each product that is still there gets its
-- pieces back, and no other table is written.
pub restock_all_lem :
    (b : Bool) (is : List OrderItem) (d : Database)
    → (e : Database) × (restock_all b is d ≡ ok (tt, e)) × Restocked b (λ k. pieces k is) d e
unfolding restock_all pieces
restock_all_lem b [] d = (d, refl, Restocked-refl b d)
restock_all_lem b (i ∷ is) d =
    let (e, q, h) = restock_lem b i d in
    let (f, r, g) = restock_all_lem b is e in
    (f, ground (arith, q, r), Restocked-trans b _ _ d e f h g)

-- The same, between databases with the same products, for the items in their own order.
pub AllGotBack-sort :
    (b : Bool) (is : List OrderItem) (c d e f : Database)
    → d.products ≡ c.products
    → e.products ≡ f.products
    → AllGotBack b (λ k. pieces k (sort_by item_order is)) c f
    → AllGotBack b (λ k. pieces k is) d e
AllGotBack-sort b is c d e f from_ to_ got k p h =
    let (q, hq, g) =
      got k p (subst (λ (t : Table Product). find product_key k t.rows ≡ some p) from_ h) in
    (
      q,
      subst (λ (t : Table Product). find product_key k t.rows ≡ some q) (sym to_) hq,
      subst (λ n. GotBack b n p q) (sort-pieces k is) g,
    )
