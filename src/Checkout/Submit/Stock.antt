-- ===== src/Checkout/Submit/Stock.antt =====
-- The stock that a submitted checkout takes (backend/app/services/purchase_service.py): what the
-- loop over the lines of the order writes.
use kans_shop.Prelude.{
  ℕ, zero, suc, ◌+◌, ◌≤◌, ◌≡◌, refl, sym, ◌∙◌, Bool, true, false, none, some, List, [], ◌∷◌, arith,
  find, leb, ◌==◌, if◌then◌else◌, find-replace_self, find-replace_ne, Bool-cases, inl, inr, sort_by,
  insert_by, update, IsUnique,
}
use kans_shop.Prelude.Int.{ℤ, pos, neg, ◌+ℤ◌, ◌≤ℤ◌, ltb_ℤ, pos_part, neg_part, int_laws}
use mathlib.Core.Path.{subst}
use kans_shop.Models.{Database, CartItem, Product}
use kans_shop.Exec.{ok}
use kans_shop.Repositories.{product_key, item_key}
use kans_shop.Cart.{InventoryPolicy}
use kans_shop.Order.Stock.{product_of, pieces, OnlyProducts}
use kans_shop.Checkout.Tally.{lacks}
use kans_shop.Checkout.Lines.{Line}
use kans_shop.Checkout.Submit.{take_stock, taken, order_items}
use kans_shop.Checkout.Submit.Fit.{line_key, AllFit}

-- `p` has given n pieces, all of which it had, and is sold n times more.
pub record Gave (tracking : Bool) (n : ℕ) (p q : Product) : Type 0 where
  pub same_id : q.id ≡ p.id
  pub stock : q.stock_qty ≡ p.stock_qty +ℤ neg (if tracking then n else 0)
  pub sales : q.sold_count ≡ p.sold_count +ℤ pos n
  pub same_price : q.price ≡ p.price
  pub not_oversold : tracking ≡ true → 1 ≤ n → pos 0 ≤ℤ q.stock_qty

Gave-zero : (b : Bool) (p : Product) → Gave b 0 p p
Gave-zero true p = record {
  same_id = refl;
  stock = grind int_laws;
  sales = grind int_laws;
  same_price = refl;
  not_oversold = λ h n. absurd (omega (arith, n));
}
Gave-zero false p = record {
  same_id = refl;
  stock = grind int_laws;
  sales = grind int_laws;
  same_price = refl;
  not_oversold = λ h n. absurd (omega (arith, n));
}

not_below_ℤ : (a : ℤ) (n : ℕ) → ltb_ℤ a (pos n) ≡ false → pos 0 ≤ℤ a +ℤ neg n
not_below_ℤ a n h =
    let enough : n + neg_part a ≤ pos_part a + 0 = ground (arith, h) in omega (int_laws, enough)

not_below :
    (policy : InventoryPolicy) (n : ℕ) (p : Product)
    → policy.tracking ≡ true
    → lacks policy n p ≡ false
    → pos 0 ≤ℤ (taken policy n p).stock_qty
not_below policy zero p on enough = ground (arith, on, enough)
not_below policy (suc n) p on enough =
    let left : p.stock_qty +ℤ neg (suc n) ≡ (taken policy (suc n) p).stock_qty =
      ground (arith, on) in
    subst (λ x. pos 0 ≤ℤ x) left (not_below_ℤ p.stock_qty (suc n) (ground (arith, on, enough)))

taken-Gave :
    (policy : InventoryPolicy) (n : ℕ) (p : Product)
    → lacks policy n p ≡ false
    → Gave policy.tracking n p (taken policy n p)
taken-Gave policy n p enough = record {
  same_id = ground arith;
  stock = grind int_laws;
  sales = grind int_laws;
  same_price = ground arith;
  not_oversold = λ h few. not_below policy n p h enough;
}

abbrev pub line_pieces : ℕ → Line → ℕ
line_pieces k l = if l.product.id == k then l.quantity else 0

unfoldable pub all_pieces : ℕ → List Line → ℕ
all_pieces k [] = 0
all_pieces k (l ∷ ls) = line_pieces k l + all_pieces k ls

abbrev pub AllStored : InventoryPolicy → Database → List Line → Type 0
AllStored policy d [] = Unit
AllStored policy d (l ∷ ls) =
    (product_of d l.product.id ≡ some l.product)
    × (lacks policy l.quantity l.product ≡ false)
    × AllStored policy d ls

abbrev given : InventoryPolicy → Line → Database → Database
given policy l d = record d {
  products = update product_key (taken policy l.quantity l.product) d.products;
}

-- A write leaves the lines of the other products as they were.
given-AllStored :
    (policy : InventoryPolicy) (l : Line) (d : Database) (ls : List Line)
    → find line_key l.product.id ls ≡ none
    → AllStored policy d ls
    → AllStored policy (given policy l d) ls
unfolding find
given-AllStored policy l d [] fresh h = tt
given-AllStored policy l d (m ∷ ls) fresh (stored, enough, rest) = (
  ground (
    arith,
    stored,
    fresh,
    find-replace_ne product_key m.product.id (taken policy l.quantity l.product) d.products.rows,
  ),
  enough,
  given-AllStored policy l d ls (ground arith) rest,
)

plus_none : (b : Bool) (a : ℤ) → a +ℤ neg (if b then 0 else 0) ≡ a
plus_none true a = grind int_laws
plus_none false a = grind int_laws

-- Nothing more is given after the line of this product.
Gave-then_zero : (b : Bool) (m : ℕ) (p v w : Product) → Gave b m p v → Gave b 0 v w → Gave b m p w
Gave-then_zero b m p v w h g =
    let same : w.stock_qty ≡ v.stock_qty = g.stock ∙ plus_none b v.stock_qty in
    record {
      same_id = g.same_id ∙ h.same_id;
      stock = same ∙ h.stock;
      sales = grind (int_laws, g.sales, h.sales);
      same_price = g.same_price ∙ h.same_price;
      not_oversold = λ t few. subst (λ x. pos 0 ≤ℤ x) (sym same) (h.not_oversold t few);
    }

none-pieces : (k : ℕ) (ls : List Line) → find line_key k ls ≡ none → all_pieces k ls ≡ 0
unfolding find all_pieces
none-pieces k [] h = refl
none-pieces k (l ∷ ls) h = ground (arith, none-pieces k ls)

pub record Took (policy : InventoryPolicy) (ls : List Line) (d e : Database) : Type 0 where
  pub frame : OnlyProducts d e
  pub gave :
      (k : ℕ) (p : Product)
      → product_of d k ≡ some p
      → (q : Product) × (product_of e k ≡ some q) × Gave policy.tracking (all_pieces k ls) p q

-- Taking the stock of different products never fails, and takes from each what its line says.
pub take_stock_lem :
    (policy : InventoryPolicy) (ls : List Line) (d : Database)
    → IsUnique line_key ls
    → AllStored policy d ls
    → (e : Database) × (take_stock policy ls d ≡ ok (tt, e)) × Took policy ls d e
unfolding take_stock all_pieces
take_stock_lem policy [] d unique h =
    (d, refl, record { frame = refl; gave = λ k p at. (p, at, Gave-zero policy.tracking p) })
take_stock_lem policy (l ∷ ls) d (fresh, unique) (stored, enough, rest) =
    let v = taken policy l.quantity l.product in
    let (e, q, t) =
      take_stock_lem policy ls (given policy l d) unique
        (given-AllStored policy l d ls fresh rest) in
    (
      e,
      ground (arith, q),
      record {
        frame = ground (arith, t.frame);
        gave = λ k p at. elim (Bool-cases (l.product.id == k)) [
          | inl same ↦
              let mid : product_of (given policy l d) k ≡ some v =
                ground (arith, same, find-replace_self product_key k v d.products.rows p at) in
              let (w, hw, gw) = t.gave k v mid in
              let none_ : all_pieces k ls ≡ 0 = none-pieces k ls (ground (arith, fresh, same)) in
              (
                w,
                hw,
                subst (λ n. Gave policy.tracking n p w) (ground (arith, same, none_))
                    (subst (λ x. Gave policy.tracking l.quantity x w)
                      (ground (arith, at, stored, same))
                      (Gave-then_zero policy.tracking l.quantity l.product v w
                        (taken-Gave policy l.quantity l.product enough)
                        (subst (λ n. Gave policy.tracking n v w) none_ gw))),
              )
          | inr other ↦
              let mid : product_of (given policy l d) k ≡ some p =
                ground (arith, other, at, find-replace_ne product_key k v d.products.rows) in
              let (w, hw, gw) = t.gave k p mid in
              (w, hw, subst (λ n. Gave policy.tracking n p w) (ground (arith, other)) gw)
        ];
      },
    )

fits-fresh :
    (policy : InventoryPolicy) (d : Database) (k : ℕ) (is : List CartItem) (ls : List Line)
    → AllFit policy d is ls
    → find item_key k is ≡ none
    → find line_key k ls ≡ none
unfolding find
fits-fresh policy d k [] [] h f = refl
fits-fresh policy d k [] (l ∷ ls) h f = absurd h
fits-fresh policy d k (i ∷ is) [] h f = absurd h
fits-fresh policy d k (i ∷ is) (l ∷ ls) (h, rest) f =
    ground (arith, h.same_product, fits-fresh policy d k is ls rest)

pub fits-IsUnique :
    (policy : InventoryPolicy) (d : Database) (is : List CartItem) (ls : List Line)
    → AllFit policy d is ls
    → IsUnique item_key is
    → IsUnique line_key ls
fits-IsUnique policy d [] [] h u = tt
fits-IsUnique policy d [] (l ∷ ls) h u = absurd h
fits-IsUnique policy d (i ∷ is) [] h u = absurd h
fits-IsUnique policy d (i ∷ is) (l ∷ ls) (h, rest) (fresh, u) =
    let later : find line_key i.product_id ls ≡ none =
      fits-fresh policy d i.product_id is ls rest fresh in
    (
      subst (λ k. find line_key k ls ≡ none) (sym h.same_product) later,
      fits-IsUnique policy d is ls rest u,
    )

pub fits-AllStored :
    (policy : InventoryPolicy) (d : Database) (is : List CartItem) (ls : List Line)
    → AllFit policy d is ls
    → AllStored policy d ls
fits-AllStored policy d [] [] h = tt
fits-AllStored policy d [] (l ∷ ls) h = absurd h
fits-AllStored policy d (i ∷ is) [] h = absurd h
fits-AllStored policy d (i ∷ is) (l ∷ ls) (h, rest) =
    (h.stored, h.enough, fits-AllStored policy d is ls rest)

-- The items of the order hold what the lines do.
pub order_items-pieces :
    (uz : Bool) (k : ℕ) (ls : List Line) → pieces k (order_items uz ls) ≡ all_pieces k ls
unfolding pieces order_items all_pieces
order_items-pieces uz k [] = refl
order_items-pieces uz k (l ∷ ls) = ground (arith, order_items-pieces uz k ls)

insert-fresh :
    (k : ℕ) (i : CartItem) (is : List CartItem)
    → find item_key k is ≡ none
    → (i.product_id == k) ≡ false
    → find item_key k (insert_by item_key i is) ≡ none
unfolding find insert_by
insert-fresh k i [] f ne = ground arith
insert-fresh k i (j ∷ js) f ne = ground (arith, insert-fresh k i js)

insert-IsUnique :
    (i : CartItem) (is : List CartItem)
    → IsUnique item_key is
    → find item_key i.product_id is ≡ none
    → IsUnique item_key (insert_by item_key i is)
unfolding find insert_by
insert-IsUnique i [] u f = (refl, tt)
insert-IsUnique i (j ∷ js) (fresh, u) f = elim (Bool-cases (leb (item_key i) (item_key j))) [
  | inl le ↦ ground (arith, le, fresh, u, f)
  | inr gt ↦
      ground (arith, gt, fresh, insert-IsUnique i js u, insert-fresh j.product_id i js fresh, f)
]

sort-fresh :
    (k : ℕ) (is : List CartItem)
    → find item_key k is ≡ none
    → find item_key k (sort_by item_key is) ≡ none
unfolding find sort_by
sort-fresh k [] f = refl
sort-fresh k (i ∷ is) f =
    insert-fresh k i (sort_by item_key is) (sort-fresh k is (ground (arith, f))) (ground (arith, f))

pub sort-IsUnique :
    (is : List CartItem) → IsUnique item_key is → IsUnique item_key (sort_by item_key is)
unfolding sort_by
sort-IsUnique [] u = tt
sort-IsUnique (i ∷ is) (fresh, u) =
    insert-IsUnique i (sort_by item_key is) (sort-IsUnique is u) (sort-fresh i.product_id is fresh)
