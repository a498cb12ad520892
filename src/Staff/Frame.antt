-- ===== src/Staff/Frame.antt =====
-- What the writes of an audit event and of the notifications leave alone
-- (backend/app/services/admin_team_service.py).
use kans_shop.Prelude.{ℕ, ◌≡◌, List, [], ◌∷◌, some, Text, arith, select, sort_by}
use kans_shop.Models.{Database, Admin, AdminAuditEvent, team_changed, admin_team, AuditAction}
use kans_shop.Exec.{ok, pure, ◌>>◌, >>=-eq-ok}
use kans_shop.Repositories.{admin_key}
use kans_shop.Outbox.{load_live_admin, enqueue_outbox_event, to_admin}
use kans_shop.Outbox.Frame.{enqueue_only}
use kans_shop.Audit.{write_audit_event}
use kans_shop.Team.{is_told, tell_each, notify_current_admins, audit_and_notify}

-- The accounts and the sessions are the same.
abbrev pub SameStaff : Database → Database → Type 0
SameStaff d e = (e.admins ≡ d.admins) × (e.admin_sessions ≡ d.admin_sessions)

pub tell_each-SameStaff :
    (e : AdminAuditEvent) (rs : List Admin) (d d' : Database) (u : Unit {0})
    → tell_each e rs d ≡ ok (u, d')
    → SameStaff d d'
unfolding tell_each
tell_each-SameStaff e [] d d' u h = ground arith
tell_each-SameStaff e (a ∷ rest) d d' u h =
    let (x, d1, q, h1) =
      >>=-eq-ok
        (enqueue_outbox_event team_changed e.resource_id (some e.id) (to_admin a.id)
          (admin_team e.id a.id))
        (λ _. tell_each e rest) d h in
    let o =
      enqueue_only team_changed e.resource_id (some e.id) (to_admin a.id) (admin_team e.id a.id) d
        d1 x q in
    let r = tell_each-SameStaff e rest d1 d' u h1 in ground (arith, o, r)

pub notify-SameStaff :
    (actor : ℕ) (e : AdminAuditEvent) (d d' : Database) (u : Unit {0})
    → notify_current_admins actor e d ≡ ok (u, d')
    → SameStaff d d'
unfolding notify_current_admins
notify-SameStaff actor e d d' u h =
    tell_each-SameStaff e (sort_by admin_key (select (is_told actor) d.admins.rows)) d d' u h

pub audit-SameStaff :
    (admin : ℕ) (action : AuditAction) (resource : ℕ) (request : Text) (d d' : Database)
    (e : AdminAuditEvent)
    → write_audit_event admin action resource request d ≡ ok (e, d')
    → SameStaff d d'
unfolding write_audit_event load_live_admin
audit-SameStaff admin action resource request d d' e h = ground arith

pub audit_and_notify-SameStaff :
    (request : Text) (actor : ℕ) (action : AuditAction) (target : ℕ) (d d' : Database)
    (e : AdminAuditEvent)
    → audit_and_notify request actor action target d ≡ ok (e, d')
    → SameStaff d d'
unfolding audit_and_notify
audit_and_notify-SameStaff request actor action target d d' e h =
    let (x, d1, q, h1) =
      >>=-eq-ok (write_audit_event actor action target request)
        (λ x. notify_current_admins actor x >> pure x) d h in
    let (u, d2, q1, h2) = >>=-eq-ok (notify_current_admins actor x) (λ _. pure x) d1 h1 in
    let a = audit-SameStaff actor action target request d d1 x q in
    let n = notify-SameStaff actor x d1 d2 u q1 in ground (arith, a, n, h2)
