-- ===== src/Receipt/Accept.antt =====
-- backend/app/services/manual_payment_service.py.
use kans_shop.Prelude.{
  ℕ, Bool, true, false, ◌&&◌, not, some, ◌++◌, Text, codes, show, ◌==◌, is_some, if◌then◌else◌,
}
use kans_shop.Enums.{PaymentStatus}
use kans_shop.Models.{Order, Admin, AuditAction}
use kans_shop.Exec.{
  Exec, ok, receipt_version_conflict, payment_acceptance_unavailable, pure, raise_if, ◌>>=◌, ◌>>◌,
}
use kans_shop.Repositories.{save_order}
use kans_shop.Audit.{write_audit_event}
use kans_shop.Outbox.{load_live_admin, order_admin_role}
use kans_shop.Order.{lock_order, is_terminal, is_paid, enqueue_manual_payment_notification}
use kans_shop.Receipt.{has_private_receipt_evidence, is_card}

-- `f"payment-accept:{order.id}:{current_version}"`
unfoldable pub accept_request : ℕ → ℕ → Text
accept_request order version =
    codes "payment-accept:" ++ (show order ++ (codes ":" ++ show version))

-- A card transfer that an administrator has accepted already.
abbrev pub is_accepted : Order → Bool
is_accepted o =
    is_card o.payment_method
    && (is_paid o.payment_status
        && (is_some o.payment_reviewed_by_admin_id
            && (is_some o.payment_reviewed_at && has_private_receipt_evidence o)))

abbrev is_uploaded : PaymentStatus → Bool
is_uploaded PaymentStatus.receipt_uploaded = true
is_uploaded _ = false

abbrev pub is_eligible : Order → Bool
is_eligible o =
    is_card o.payment_method
    && (is_uploaded o.payment_status
        && (has_private_receipt_evidence o && not (is_terminal o.status)))

abbrev pub accepted : ℕ → ℕ → Order → Order
accepted now admin o = record o {
  payment_status = PaymentStatus.paid;
  payment_reviewed_by_admin_id = some admin;
  payment_reviewed_at = some now;
}

unfoldable pub accept_new : ℕ → Admin → Order → Exec Order
accept_new now admin o = do
  raise_if (not (is_eligible o)) payment_acceptance_unavailable
  save_order (accepted now admin.id o)
  event ←
      write_audit_event admin.id AuditAction.manual_card_transfer_payment_accepted o.id
        (accept_request o.id o.receipt_version)
  enqueue_manual_payment_notification (accepted now admin.id o) event.id
  pure (accepted now admin.id o)

abbrev pub accept_unless : ℕ → Admin → Order → Exec Order
accept_unless now admin o d = if is_accepted o then ok (o, d) else accept_new now admin o d

unfoldable pub accept_card_transfer_payment : ℕ → ℕ → ℕ → ℕ → Exec Order
accept_card_transfer_payment now k admin expected = do
  actor ← load_live_admin order_admin_role admin
  o ← lock_order k
  raise_if (not (expected == o.receipt_version))
      (receipt_version_conflict expected o.receipt_version)
  accept_unless now actor o
