-- ===== src/Payment/Click/Prepare.antt =====
-- `handle_click_prepare` of backend/app/services/payment_service.py: a prepare that is sent again.
use kans_shop.Prelude.{
  ℕ, ◌≡◌, sym, ◌∙◌, true, none, some, Text, arith, text_eq, text_eq_refl, find_by,
  find_by-append_none, insert, Option-cases, Bool-cases, inl, inr, ==_iff,
}
use mathlib.Core.Path.{subst}
use kans_shop.Enums.{PaymentProvider, PaymentTxState}
use kans_shop.Models.{ClickParams, Database, Order, PaymentTransaction, empty_payload}
use kans_shop.Exec.{ok}
use kans_shop.Repositories.{tx_row, is_provider_tx}
use kans_shop.Order.Status.{order_of}
use kans_shop.Payment.{Settings, order_is_payable}
use kans_shop.Payment.ClickRequest.{
  ClickResponse, prepare_either, prepared, trans_id, is_click, click_amount_matches, str_or_none,
}
use kans_shop.Payment.Click.{click_prepare, prepare_locked, is_authentic}
use kans_shop.Payment.Click.Outcome.{named_tx, is_success}
use kans_shop.Payment.Click.Safety.{same_params_refl}

module _ (settings : Settings) (md5 : Text → Text) (p : ClickParams) where
  -- The call has passed its checks on the order.
  record Prepared (d : Database) (o : Order) : Type 0 where
    named : Order
    authentic : is_authentic settings md5 p 0 ≡ true
    found :
        find_by (λ v. text_eq v.order_number (str_or_none p.merchant_trans_id)) d.orders.rows
        ≡ some named
    order : order_of d named.id ≡ some o
    method : is_click o.payment_method ≡ true
    amount : click_amount_matches p.amount o.total ≡ true

  run_lem :
      (now : ℕ) (d : Database) (o : Order)
      → Prepared d o
      → click_prepare settings md5 now p d ≡ prepare_either now p o (named_tx p d) d
  unfolding click_prepare prepare_locked
  run_lem now d o c = ground (arith, c.authentic, c.found, c.order, c.method, c.amount)

  prepare_inv :
      (now : ℕ) (d e : Database) (r : ClickResponse)
      → click_prepare settings md5 now p d ≡ ok (r, e)
      → is_success r.error ≡ true
      → (o : Order) × Prepared d o
  unfolding click_prepare prepare_locked
  prepare_inv now d e r h good = elim (Bool-cases (is_authentic settings md5 p 0)) [
    | inr a ↦ absurd (ground (arith, a, h, good))
    | inl a ↦
        elim (Option-cases
          (find_by (λ o. text_eq o.order_number (str_or_none p.merchant_trans_id)) d.orders.rows)) [
            | inl b ↦ absurd (ground (arith, a, b, h, good))
            | inr (u, b) ↦ elim (Option-cases (order_of d u.id)) [
              | inl c ↦ absurd (ground (arith, a, b, c, h, good))
              | inr (o, c) ↦ elim (Bool-cases (is_click o.payment_method)) [
                | inr m ↦ absurd (ground (arith, a, b, c, m, h, good))
                | inl m ↦ elim (Bool-cases (click_amount_matches p.amount o.total)) [
                  | inr n ↦ absurd (ground (arith, a, b, c, m, n, h, good))
                  | inl n ↦ (
                    o,
                    record {
                      named = u;
                      authentic = a;
                      found = b;
                      order = c;
                      method = m;
                      amount = n;
                    },
                  )
                ]
              ]
            ]
          ]
  ]

  abbrev row_of : ℕ → Order → ℕ → PaymentTransaction
  row_of now o =
      tx_row o.id PaymentProvider.click o.total (trans_id p) PaymentTxState.pending
        (record empty_payload { click_prepare_payload = some p }) now

  named_new :
      (now : ℕ) (d : Database) (o : Order)
      → named_tx p d ≡ none
      → named_tx p (record d { transactions = insert (row_of now o) d.transactions })
        ≡ some (row_of now o d.transactions.next)
  named_new now d o free = ground (
    arith,
    text_eq_refl (trans_id p),
    find_by-append_none (is_provider_tx PaymentProvider.click (trans_id p)) d.transactions.rows
        (row_of now o d.transactions.next) free,
  )

  -- The checks do not read the transactions.
  checks_kept :
      (d : Database) (o : Order) (now : ℕ)
      → Prepared d o
      → Prepared (record d { transactions = insert (row_of now o) d.transactions }) o
  checks_kept d o now c = record {
    named = c.named;
    authentic = c.authentic;
    found = c.found;
    order = c.order;
    method = c.method;
    amount = c.amount;
  }

  -- After a prepare of Click that was answered by success, the same call at any time gets the same
  -- answer and changes nothing.
  pub prepare_twice :
      (now now' : ℕ) (d e : Database) (r : ClickResponse)
      → click_prepare settings md5 now p d ≡ ok (r, e)
      → is_success r.error ≡ true
      → click_prepare settings md5 now' p e ≡ ok (r, e)
  prepare_twice now now' d e r h good = by_checks (prepare_inv now d e r h good)
    where
      by_checks : (o : Order) × Prepared d o → click_prepare settings md5 now' p e ≡ ok (r, e)
      by_checks (o, c) =
          let run : prepare_either now p o (named_tx p d) d ≡ ok (r, e) =
            sym (run_lem now d o c) ∙ h in
          elim (Option-cases (named_tx p d)) [
            | inr (t, known) ↦
                let same : e ≡ d = ground (arith, known, run) in
                subst (λ x. click_prepare settings md5 now' p x ≡ ok (r, x)) (sym same)
                  (run_lem now' d o c ∙ ground (arith, known, run))
            | inl free ↦ elim (Bool-cases (order_is_payable o PaymentProvider.click)) [
              | inr no_ ↦ absurd (ground (arith, free, no_, run, good))
              | inl payable ↦
                  let row = row_of now o d.transactions.next in
                  let written = record d { transactions = insert (row_of now o) d.transactions } in
                  let same : e ≡ written = ground (arith, free, payable, run) in
                  let reply : r ≡ prepared p row.id = ground (arith, free, payable, run) in
                  subst (λ x. click_prepare settings md5 now' p x ≡ ok (r, x)) (sym same)
                    (run_lem now' written o (checks_kept d o now c)
                      ∙ ground (
                        arith,
                        named_new now d o free,
                        reply,
                        same_params_refl p,
                        ==_iff o.id o.id,
                        ==_iff o.total o.total,
                      ))
            ]
          ]
