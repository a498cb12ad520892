-- ===== src/Payment/Click/Safety.antt =====
-- What the Click handlers of backend/app/services/payment_service.py promise.
use kans_shop.Prelude.{
  ℕ, ◌≡◌, refl, ap, sym, ◌≢◌, ◌∙◌, true, false, some, Text, arith, any, Bool-cases, inl, inr,
  text_eq_refl, same_text_iff, IsUnique, find-of-find_by, find_by-replace, ◌==◌, ==_iff,
  find_by_holds,
}
use mathlib.Core.Path.{subst}
use kans_shop.Enums.{PaymentProvider, PaymentTxState}
use kans_shop.Models.{ClickParams, Database, Order, PaymentTransaction}
use kans_shop.Exec.{ok}
use kans_shop.Repositories.{tx_key, is_provider_tx}
use kans_shop.Order.{is_paid}
use kans_shop.Order.Status.{order_of}
use kans_shop.Order.Growth.{Grown, Grown-refl}
use kans_shop.Order.Life.{mark_paid_inv}
use kans_shop.Payment.{Settings, order_is_payable, is_other_paid}
use kans_shop.Payment.ClickRequest.{
  ClickResponse, trans_id, confirmed, same_params, holds_params, complete_state,
}
use kans_shop.Payment.Click.{click_complete, complete_locked}
use kans_shop.Payment.Click.Outcome.{
  named_tx, is_success, is_open, closed_as, closed_tx, Checked, Completed, refused, repeated,
  failed, settled, complete_outcome,
}

pub same_params_refl : (p : ClickParams) → same_params p p ≡ true
unfolding same_params
same_params_refl p = ground (
  arith,
  same_text_iff p.click_trans_id p.click_trans_id,
  same_text_iff p.merchant_trans_id p.merchant_trans_id,
  same_text_iff p.merchant_prepare_id p.merchant_prepare_id,
  same_text_iff p.amount p.amount,
  same_text_iff p.sign_time p.sign_time,
  same_text_iff p.sign_string p.sign_string,
  same_text_iff p.error p.error,
  text_eq_refl p.rest,
)

module _ (settings : Settings) (md5 : Text → Text) (now : ℕ) (p : ClickParams) (d : Database) where
  -- A completion of Click that returns and is not answered by success leaves the database as it
  -- was.
  pub complete_refused :
      (r : ClickResponse) (e : Database)
      → click_complete settings md5 now p d ≡ ok (r, e)
      → is_success r.error ≡ false
      → e ≡ d
  complete_refused r e h bad = by_outcome (complete_outcome settings md5 now p d e r h)
    where
      by_outcome : Completed settings md5 now p d r e → e ≡ d
      by_outcome (refused x same) = same
      by_outcome (repeated o t c w x y same) = same
      by_outcome (failed o t c w x s) = absurd (ground arith)
      by_outcome (settled o s t c w x y z m) = absurd (ground arith)

  -- An order that was not paid before a completion of Click and is paid after it passed the checks:
  -- the call is signed and names a transaction of this order by its gateway id and its prepare id,
  -- the order is paid by Click and has the number that the call names, the amount is the total of
  -- the order and of the transaction; the order could be paid, and no other Click transaction had
  -- paid it.
  pub becomes_paid-Checked :
      (k : ℕ) (o o' : Order) (r : ClickResponse) (e : Database)
      → click_complete settings md5 now p d ≡ ok (r, e)
      → order_of d k ≡ some o
      → is_paid o.payment_status ≡ false
      → order_of e k ≡ some o'
      → is_paid o'.payment_status ≡ true
      → (t : PaymentTransaction) × Checked settings md5 p d o t
        × (order_is_payable o PaymentProvider.click ≡ true)
        × (any (is_other_paid o.id PaymentProvider.click t.id) d.transactions.rows ≡ false)
  becomes_paid-Checked k o o' r e h found unpaid later paid =
      by_outcome (complete_outcome settings md5 now p d e r h)
    where
      by_outcome :
          Completed settings md5 now p d r e
          → (t : PaymentTransaction) × Checked settings md5 p d o t
            × (order_is_payable o PaymentProvider.click ≡ true)
            × (any (is_other_paid o.id PaymentProvider.click t.id) d.transactions.rows ≡ false)
      by_outcome (refused x same) = absurd (ground (arith, found, later, same, unpaid, paid))
      by_outcome (repeated a t c w x y same) =
          absurd (ground (arith, found, later, same, unpaid, paid))
      by_outcome (failed a t c w x s) = absurd (ground (arith, found, later, s, unpaid, paid))
      by_outcome (settled a s t c w x y z m) =
          let at : order_of d a.id ≡ some a = ground (arith, c.order, c.same_order) in
          let paid_at = mark_paid_inv now a s (closed_as PaymentTxState.paid p t d) e at m in
          elim (Bool-cases (k == a.id)) [
            | inl same ↦
                let one : a ≡ o = ground (arith, found, at, same) in
                (
                  t,
                  subst (λ v. Checked settings md5 p d v t) one c,
                  subst (λ v. order_is_payable v PaymentProvider.click ≡ true) one y,
                  subst
                      (λ v.
                        any (is_other_paid v.id PaymentProvider.click t.id) d.transactions.rows
                        ≡ false)
                      one z,
                )
            | inr other ↦
                let ne : k ≢ a.id = λ q. cc (other, (==_iff k a.id).1 q) in
                absurd (ground (arith, paid_at.others k ne, found, later, unpaid, paid))
          ]

module _ (settings : Settings) (md5 : Text → Text) (p : ClickParams) where
  -- A call for a transaction that it has closed is answered as before.
  repeat_lem :
      (now : ℕ) (d : Database) (o : Order) (t : PaymentTransaction)
      → Checked settings md5 p d o t
      → is_open t.state ≡ false
      → holds_params t.raw_payload.click_complete_payload p ≡ true
      → click_complete settings md5 now p d ≡ ok (confirmed p t.id, d)
  unfolding click_complete complete_locked complete_state
  repeat_lem now d o t c closed holds = ground (
    arith, c.authentic, c.found, c.order, c.same_order, c.prepared, c.method, c.number, c.amount,
    c.tx_amount,
  )

  -- The transaction as it is closed, where a repetition finds it.
  closed_found :
      (s : PaymentTxState) (d e : Database) (t : PaymentTransaction)
      → IsUnique tx_key d.transactions.rows
      → named_tx p d ≡ some t
      → e.transactions ≡ (closed_as s p t d).transactions
      → named_tx p e ≡ some (closed_tx s p t)
  closed_found s d e t unique found saved =
      let q = is_provider_tx PaymentProvider.click (trans_id p) in
      let at = find-of-find_by tx_key q d.transactions.rows t unique found in
      let holds = find_by_holds q d.transactions.rows t found in
      ground (
        arith,
        saved,
        find_by-replace tx_key q (closed_tx s p t) d.transactions.rows t holds refl found at,
      )

  -- The checks that a call passed are passed again over the row that it has closed.
  closed-Checked :
      (s : PaymentTxState) (d e : Database) (o r : Order) (t : PaymentTransaction)
      → Checked settings md5 p d o t
      → named_tx p e ≡ some (closed_tx s p t)
      → order_of e t.order_id ≡ some r
      → Grown o r
      → Checked settings md5 p e r (closed_tx s p t)
  closed-Checked s d e o r t c found order g = record {
    authentic = c.authentic;
    found = found;
    order = order;
    same_order = ground (arith, c.same_order, g.same_id);
    prepared = c.prepared;
    method = ground (arith, c.method, g.same_method);
    number = ground (arith, c.number, g.same_number);
    amount = ground (arith, c.amount, g.same_total);
    tx_amount = c.tx_amount;
  }

  -- If the ids of the transactions differ, a completion of Click that was answered by success gets
  -- the same answer when it is sent again at any time to the database that it left, and changes
  -- nothing.
  pub complete_twice :
      (now later : ℕ) (d e : Database) (r : ClickResponse)
      → IsUnique tx_key d.transactions.rows
      → click_complete settings md5 now p d ≡ ok (r, e)
      → is_success r.error ≡ true
      → click_complete settings md5 later p e ≡ ok (r, e)
  complete_twice now later d e r unique h success =
      by_outcome (complete_outcome settings md5 now p d e r h)
    where
      by_outcome :
          Completed settings md5 now p d r e → click_complete settings md5 later p e ≡ ok (r, e)
      by_outcome (refused x same) = cc
      by_outcome (repeated o t c w x y same) =
          subst (λ v. click_complete settings md5 later p v ≡ ok (r, v)) (sym same)
            (repeat_lem later d o t c w x ∙ ap (λ v. ok (v, d)) (sym y))
      by_outcome (failed o t c w x s) =
          let found =
            closed_found PaymentTxState.cancelled d e t unique c.found
              (ap (λ v. v.transactions) s) in
          let again =
            closed-Checked PaymentTxState.cancelled d e o o t c found (ground (arith, c.order, s))
              (Grown-refl o) in
          repeat_lem later e o _ again refl (same_params_refl p) ∙ ap (λ v. ok (v, e)) (sym x)
      by_outcome (settled o s t c w x y z m) =
          let at : order_of d o.id ≡ some o = ground (arith, c.order, c.same_order) in
          let paid_at = mark_paid_inv now o s (closed_as PaymentTxState.paid p t d) e at m in
          let found =
            closed_found PaymentTxState.paid d e t unique c.found paid_at.same_transactions in
          let again =
            closed-Checked PaymentTxState.paid d e o s t c found
              (ground (arith, paid_at.stored, c.same_order)) paid_at.grown in
          repeat_lem later e s _ again refl (same_params_refl p) ∙ ap (λ v. ok (v, e)) (sym x)
