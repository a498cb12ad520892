-- ===== src/Order/Growth.antt =====
-- What an order keeps through the operations of backend/app/services/order_service.py, and the
-- databases that lose no order.
use kans_shop.Prelude.{
  ℕ, ◌≡◌, refl, ◌∙◌, sym, Bool, true, false, Option, some, Text, arith, update, ◌==◌,
  find-replace_self, find-replace_ne, find_key, Bool-cases, inl, inr,
}
use mathlib.Core.Path.{subst}
use kans_shop.Enums.{OrderStatus, cancelled}
use kans_shop.Models.{Database, Order}
use kans_shop.Exec.{ok}
use kans_shop.Repositories.{order_key}
use kans_shop.Order.{
  advance_status, cancel_order, is_paid, is_terminal, allowed_transitions, mem_status, advanced,
  cancelled_by,
}
use kans_shop.Order.Status.{order_of, advance_inv, cancel_inv}

-- The statuses that an order can come to.
pub data Reach (s : OrderStatus) : OrderStatus → Type 0 where
  stay : Reach s s
  move : {t u : OrderStatus} → Reach s t → mem_status u (allowed_transitions t) ≡ true → Reach s u
  cancel : {t u : OrderStatus} → Reach s t → is_terminal t ≡ false → u ≡ cancelled → Reach s u

pub Reach-trans : {s t u : OrderStatus} → Reach s t → Reach t u → Reach s u
Reach-trans p stay = p
Reach-trans p (move q e) = move (Reach-trans p q) e
Reach-trans p (cancel q e c) = cancel (Reach-trans p q) e c

pub no_move :
    (t u : OrderStatus) → is_terminal t ≡ true → mem_status u (allowed_transitions t) ≡ false
no_move t u h = ground arith

-- A completed or cancelled order stays what it is.
pub Reach-terminal : {s t : OrderStatus} → Reach s t → is_terminal s ≡ true → t ≡ s
Reach-terminal stay h = refl
Reach-terminal {s} (move {t} {u} q e) h = ground (arith, Reach-terminal q h, no_move t u)
Reach-terminal {s} (cancel {t} {u} q e c) h = ground (arith, Reach-terminal q h)

-- What an order keeps, and how its status and its payment go on.
pub record Grown (o r : Order) : Type 0 where
  pub life : Reach o.status r.status
  pub same_id : r.id ≡ o.id
  pub same_user : r.user_id ≡ o.user_id
  pub same_number : r.order_number ≡ o.order_number
  pub same_total : r.total ≡ o.total
  pub same_items : r.items ≡ o.items
  pub same_method : r.payment_method ≡ o.payment_method
  pub paid_stays : is_paid o.payment_status ≡ true → is_paid r.payment_status ≡ true

pub Grown-refl : (o : Order) → Grown o o
Grown-refl o = record {
  life = stay;
  same_id = refl;
  same_user = refl;
  same_number = refl;
  same_total = refl;
  same_items = refl;
  same_method = refl;
  paid_stays = λ h. h;
}

pub Grown-trans : (o p q : Order) → Grown o p → Grown p q → Grown o q
Grown-trans o p q f g = record {
  life = Reach-trans f.life g.life;
  same_id = g.same_id ∙ f.same_id;
  same_user = g.same_user ∙ f.same_user;
  same_number = g.same_number ∙ f.same_number;
  same_total = g.same_total ∙ f.same_total;
  same_items = g.same_items ∙ f.same_items;
  same_method = g.same_method ∙ f.same_method;
  paid_stays = λ h. g.paid_stays (f.paid_stays h);
}

-- No order is lost, and each has grown.
abbrev pub Evolves : Database → Database → Type 0
Evolves d e =
    (k : ℕ) (o : Order) → order_of d k ≡ some o → (r : Order) × (order_of e k ≡ some r) × Grown o r

pub Evolves-refl : (d : Database) → Evolves d d
Evolves-refl d k o h = (o, h, Grown-refl o)

pub Evolves-trans : (c d e : Database) → Evolves c d → Evolves d e → Evolves c e
Evolves-trans c d e f g k o h =
    let (p, hp, gp) = f k o h in let (q, hq, gq) = g k p hp in (q, hq, Grown-trans o p q gp gq)

-- The write of one order that has grown.
pub save-Evolves :
    (j : ℕ) (o r : Order) (d e : Database)
    → order_of d j ≡ some o
    → Grown o r
    → e.orders ≡ update order_key r d.orders
    → Evolves d e
save-Evolves j o r d e found grown saved k p h = elim (Bool-cases (k == j)) [
  | inl same ↦
      let at : order_of e k ≡ some r = ground (
        arith,
        find_key order_key j d.orders.rows o,
        find-replace_self order_key k r d.orders.rows p,
        grown.same_id,
        saved,
      ) in
      (r, at, subst (λ x. Grown x r) (ground arith) grown)
  | inr other ↦ (
    p,
    ground (
      arith,
      find_key order_key j d.orders.rows o,
      find-replace_ne order_key k r d.orders.rows,
      grown.same_id,
      saved,
    ),
    Grown-refl p,
  )
]

pub advanced-Grown :
    (now : ℕ) (to_ : OrderStatus) (admin : Option ℕ) (flag : Bool) (o : Order)
    → mem_status to_ (allowed_transitions o.status) ≡ true
    → Grown o (advanced now to_ admin flag o)
advanced-Grown now to_ admin flag o h = record {
  life = move stay h;
  same_id = refl;
  same_user = refl;
  same_number = refl;
  same_total = refl;
  same_items = refl;
  same_method = refl;
  paid_stays = λ h. h;
}

pub advance-Evolves :
    (now k : ℕ) (to_ : OrderStatus) (admin : Option ℕ) (text : Option Text) (flag : Bool)
    (d d' : Database) (r : Order)
    → advance_status now k to_ admin text flag d ≡ ok (r, d')
    → Evolves d d'
advance-Evolves now k to_ admin text flag d d' r h =
    let a = advance_inv now k to_ admin text flag d d' r h in
    save-Evolves k a.before r d d' a.found
      (subst (λ x. Grown a.before x) (sym a.result)
        (advanced-Grown now to_ admin flag a.before a.allowed))
      (ground (arith, a.state))

pub cancelled-Grown :
    (now : ℕ) (admin : Option ℕ) (reason : Text) (o : Order)
    → is_terminal o.status ≡ false
    → Grown o (cancelled_by now admin reason o)
cancelled-Grown now admin reason o h = record {
  life = cancel stay h refl;
  same_id = refl;
  same_user = refl;
  same_number = refl;
  same_total = refl;
  same_items = refl;
  same_method = refl;
  paid_stays = λ h. h;
}

pub cancel-Evolves :
    (now k : ℕ) (admin : Option ℕ) (reason : Text) (d d' : Database) (r : Order)
    → cancel_order now k admin reason d ≡ ok (r, d')
    → Evolves d d'
cancel-Evolves now k admin reason d d' r h =
    let c = cancel_inv now k admin reason d d' r h in
    save-Evolves k c.before r d d' c.found
      (subst (λ x. Grown c.before x) (sym c.result)
        (cancelled-Grown now admin reason c.before c.live))
      (ground (arith, c.state))
