-- ===== src/Audit.antt =====
-- The write of an audit event (backend/app/services/admin_audit_service.py). The snapshots that an event
-- stores are not part of the row.
use kans_shop.Prelude.{ℕ, Bool, true, ◌||◌, some, Text, length, is_empty, ltb, insert}
use kans_shop.Enums.{AdminRole}
use kans_shop.Models.{AdminAuditEvent, AuditAction}
use kans_shop.Exec.{Exec, ok, value_error, raise_if, ◌>>◌}
use kans_shop.Outbox.{load_live_admin}

abbrev pub any_role : AdminRole → Bool
any_role r = true

abbrev pub audit_row : ℕ → AuditAction → ℕ → ℕ → AdminAuditEvent
audit_row admin action resource k = record {
  id = k;
  actor_admin_id = some admin;
  action = action;
  resource_id = resource;
}

abbrev insert_audit : (ℕ → AdminAuditEvent) → Exec AdminAuditEvent
insert_audit row d =
    ok (row d.audit_events.next, record d { audit_events = insert row d.audit_events })

unfoldable pub write_audit_event : ℕ → AuditAction → ℕ → Text → Exec AdminAuditEvent
write_audit_event admin action resource request = do
  raise_if (is_empty request || ltb 64 (length request)) value_error
  load_live_admin any_role admin
  insert_audit (audit_row admin action resource)
