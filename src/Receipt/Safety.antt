-- ===== src/Receipt/Safety.antt =====
-- What the two receipt services promise (backend/app/services/receipt_service.py and
-- manual_payment_service.py).
use kans_shop.Prelude.{
  ℕ, ◌+◌, ◌≡◌, refl, ap, sym, ◌∙◌, ◌≢◌, true, Option, some, Text, arith, find, update, insert,
  Option-cases, Bool-cases, inl, inr, ◌==◌, find-replace_self, find_key,
}
use mathlib.Core.Path.{subst}
use kans_shop.Models.{Database, Order, Admin, AdminAuditEvent, AuditAction}
use kans_shop.Exec.{ok, err, Result-cases, receipt_version_conflict}
use kans_shop.Repositories.{order_key, admin_key}
use kans_shop.Outbox.{load_live_admin, order_admin_role}
use kans_shop.Outbox.Frame.{OnlyOutbox}
use kans_shop.Order.{lock_order, enqueue_manual_payment_notification}
use kans_shop.Order.Notify.{manual_notification-IsQuiet}
use kans_shop.Order.Status.{order_of}
use kans_shop.Order.Growth.{Evolves, Evolves-refl, save-Evolves, Grown, stay}
use kans_shop.Receipt.{attach_card_transfer_receipt, ImageFormat}
use kans_shop.Audit.{write_audit_event, audit_row}
use kans_shop.Receipt.Accept.{
  accept_card_transfer_payment, accept_new, accepted, is_accepted, is_eligible, accept_request,
}
use kans_shop.Receipt.Upload.{attach_inv}

accepted-Grown : (now admin : ℕ) (o : Order) → Grown o (accepted now admin o)
accepted-Grown now admin o = record {
  life = stay;
  same_id = refl;
  same_user = refl;
  same_number = refl;
  same_total = refl;
  same_items = refl;
  same_method = refl;
  paid_stays = λ h. refl;
}

-- How an acceptance ends: the order was accepted before, or it is accepted now.
pub data Acceptance (now k admin expected : ℕ) (d e : Database) (r : Order) : Type 0 where
  repeated :
      order_of d k ≡ some r
      → expected ≡ r.receipt_version
      → is_accepted r ≡ true
      → e ≡ d
      → Acceptance now k admin expected d e r
  fresh :
      (o : Order)
      → order_of d k ≡ some o
      → expected ≡ o.receipt_version
      → is_eligible o ≡ true
      → r ≡ accepted now admin o
      → e ≡ record d {
        orders = update order_key r d.orders;
        audit_events =
            insert
              (audit_row admin AuditAction.manual_card_transfer_payment_accepted o.id)
              d.audit_events;
        outbox = e.outbox;
      }
      → Acceptance now k admin expected d e r

audit_inv :
    (admin resource : ℕ) (action : AuditAction) (request : Text) (d e : Database)
    (v : AdminAuditEvent)
    → write_audit_event admin action resource request d ≡ ok (v, e)
    → e ≡ record d { audit_events = insert (audit_row admin action resource) d.audit_events }
unfolding write_audit_event load_live_admin
audit_inv admin resource action request d e v h =
    elim (Option-cases (find admin_key admin d.admins.rows)) [
      | inl gone ↦ absurd (ground (arith, gone, h))
      | inr (a, found) ↦ ground arith
    ]

live_inv :
    (admin : ℕ) (d e : Database) (a : Admin)
    → load_live_admin order_admin_role admin d ≡ ok (a, e)
    → (a.id ≡ admin) × (e ≡ d)
unfolding load_live_admin
live_inv admin d e a h = elim (Option-cases (find admin_key admin d.admins.rows)) [
  | inl gone ↦ absurd (ground (arith, gone, h))
  | inr (b, found) ↦ (ground (arith, find_key admin_key admin d.admins.rows b found), ground arith)
]

module _ (now k admin expected : ℕ) (d e : Database) (r : Order) where
  new_inv :
      (a : Admin) (o : Order)
      → a.id ≡ admin
      → order_of d k ≡ some o
      → expected ≡ o.receipt_version
      → accept_new now a o d ≡ ok (r, e)
      → Acceptance now k admin expected d e r
  unfolding accept_new
  new_inv a o who found version h =
      let row = accepted now a.id o in
      let saved = record d { orders = update order_key row d.orders } in
      let request = accept_request o.id o.receipt_version in
      let action = AuditAction.manual_card_transfer_payment_accepted in
      elim (Bool-cases (is_eligible o)) [
        | inr bad ↦ absurd (ground (arith, bad, h))
        | inl good ↦ elim (Result-cases (write_audit_event a.id action o.id request saved)) [
          | inr (x, q) ↦ absurd (ground (arith, good, q, h))
          | inl (v, f, q) ↦ elim (Result-cases (enqueue_manual_payment_notification row v.id f)) [
            | inr (x, w) ↦ absurd (ground (arith, good, q, w, h))
            | inl (u, g, w) ↦
                let quiet : OnlyOutbox f g = manual_notification-IsQuiet row v.id f g u w in
                let logged = audit_inv a.id o.id action request saved f v q in
                let same : e ≡ g = ground (arith, good, q, w, h) in
                let result : r ≡ row = ground (arith, good, q, w, h) in
                fresh o found version good (ground (arith, result, who))
                  (ground (arith, quiet, logged, same, result, who))
          ]
        ]
      ]

  pub accept_inv :
      accept_card_transfer_payment now k admin expected d ≡ ok (r, e)
      → Acceptance now k admin expected d e r
  unfolding accept_card_transfer_payment lock_order
  accept_inv h = elim (Result-cases (load_live_admin order_admin_role admin d)) [
    | inr (x, q) ↦ absurd (ground (arith, q, h))
    | inl (a, f, q) ↦
        let (who, same) = live_inv admin d f a q in
        elim (Option-cases (order_of d k)) [
          | inl gone ↦ absurd (ground (arith, q, same, gone, h))
          | inr (o, found) ↦ elim (Bool-cases (expected == o.receipt_version)) [
            | inr stale ↦ absurd (ground (arith, q, same, found, stale, h))
            | inl right ↦ elim (Bool-cases (is_accepted o)) [
              | inl again ↦
                  let result : r ≡ o = ground (arith, q, same, found, right, again, h) in
                  repeated (ground (arith, found, result)) (ground (arith, right, result))
                    (ground (arith, again, result))
                    (ground (arith, q, same, found, right, again, h))
              | inr first ↦
                  new_inv a o who found (ground (arith, right))
                    (ground (arith, q, same, found, right, first, h))
            ]
          ]
        ]
  ]

  pub accept-Evolves : accept_card_transfer_payment now k admin expected d ≡ ok (r, e) → Evolves d e
  accept-Evolves h = by_case (accept_inv h)
    where
      by_case : Acceptance now k admin expected d e r → Evolves d e
      by_case (repeated found version again same) =
          subst (λ x. Evolves d x) (sym same) (Evolves-refl d)
      by_case (fresh o found version good result state) =
          save-Evolves k o r d e found
            (subst (λ x. Grown o x) (sym result) (accepted-Grown now admin o))
            (ap (λ x. x.orders) state)

  -- No transaction and no product is written.
  pub accept-transactions :
      accept_card_transfer_payment now k admin expected d ≡ ok (r, e)
      → e.transactions ≡ d.transactions
  accept-transactions h = by_case (accept_inv h)
    where
      by_case : Acceptance now k admin expected d e r → e.transactions ≡ d.transactions
      by_case (repeated found version again same) = ap (λ x. x.transactions) same
      by_case (fresh o found version good result state) = ap (λ x. x.transactions) state

  again_lem :
      (later other : ℕ) (b : Admin)
      → order_of e k ≡ some r
      → is_accepted r ≡ true
      → expected ≡ r.receipt_version
      → load_live_admin order_admin_role other e ≡ ok (b, e)
      → accept_card_transfer_payment later k other expected e ≡ ok (r, e)
  unfolding accept_card_transfer_payment lock_order
  again_lem later other b found again version live = ground (arith, live, found, again, version)

  -- After an acceptance of a receipt, any live administrator who accepts the same version again
  -- gets the same order and changes nothing.
  pub accept_twice :
      (later other : ℕ) (b : Admin)
      → accept_card_transfer_payment now k admin expected d ≡ ok (r, e)
      → load_live_admin order_admin_role other e ≡ ok (b, e)
      → accept_card_transfer_payment later k other expected e ≡ ok (r, e)
  accept_twice later other b h live = by_case (accept_inv h)
    where
      by_case :
          Acceptance now k admin expected d e r
          → accept_card_transfer_payment later k other expected e ≡ ok (r, e)
      by_case (repeated found version again same) =
          again_lem later other b (ground (arith, found, same)) again version live
      by_case (fresh o found version good result state) =
          let id_ : o.id ≡ k = find_key order_key k d.orders.rows o found in
          let at : order_of e k ≡ some r =
            ground
              (arith, find-replace_self order_key k r d.orders.rows o found, id_, result, state) in
          again_lem later other b at (ground (arith, good, result))
            (ground (arith, version, result)) live

  -- A receipt that was replaced after the administrator saw it is not accepted.
  pub accept_stale :
      (o : Order) (a : Admin)
      → load_live_admin order_admin_role admin d ≡ ok (a, d)
      → order_of d k ≡ some o
      → expected ≢ o.receipt_version
      → accept_card_transfer_payment now k admin expected d
        ≡ err (receipt_version_conflict expected o.receipt_version)
  unfolding accept_card_transfer_payment lock_order
  accept_stale o a live found stale = ground (arith, live, found, stale)

-- A payment is accepted for the very receipt that was looked at: after an upload, an acceptance
-- that names the version before is refused.
module _ (image_format : Text → Option ImageFormat) where
  -- After an upload of a receipt, a live administrator who accepts the payment under the version
  -- that the order had before is refused with a version conflict.
  pub upload_then_stale :
      (uuid : Text) (now k owner admin : ℕ) (content declared : Text) (file : Option Text)
      (d e : Database) (o r : Order) (a : Admin)
      → order_of d k ≡ some o
      → attach_card_transfer_receipt image_format uuid k owner content declared file d ≡ ok (r, e)
      → load_live_admin order_admin_role admin e ≡ ok (a, e)
      → accept_card_transfer_payment now k admin o.receipt_version e
        ≡ err (receipt_version_conflict o.receipt_version (o.receipt_version + 1))
  upload_then_stale uuid now k owner admin content declared file d e o r a found h live =
      let u = attach_inv image_format uuid k owner content declared file d e r h in
      let before : u.before ≡ o = ground (arith, u.found, found) in
      let next_ : r.receipt_version ≡ o.receipt_version + 1 =
        ground (arith, u.next_version, before) in
      let id_ : o.id ≡ k = find_key order_key k d.orders.rows o found in
      let row_id : r.id ≡ k = ground (arith, u.grown.same_id, before, id_) in
      let at : order_of e k ≡ some r =
        ground (arith, find-replace_self order_key k r d.orders.rows o found row_id, u.state) in
      accept_stale now k admin o.receipt_version e e r r a live at (ground (arith, next_))
      ∙ ap (λ n. err (receipt_version_conflict o.receipt_version n)) next_
