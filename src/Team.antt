-- ===== src/Team.antt =====
-- backend/app/services/admin_team_service.py: the accounts of the staff. The advisory lock makes a
-- call one step; a request id (`uuid4().hex`) is a parameter. The row of a removed administrator takes
-- its sessions and its notifications with it, and is cleared where other rows name it, as the
-- foreign keys of backend/app/db/models say.
use kans_shop.Prelude.{
  without, given, bool_eq, ℕ, Bool, true, false, ◌&&◌, ◌||◌, not, Option, none, some, List, [], ◌∷◌,
  Text, find, find_by, select, sort_by, count, map, insert, is_empty, is_some, is_number, length,
  leb, ltb, ◌==◌, text_eq, Table, if◌then◌else◌,
}
use kans_shop.Prelude.Parse.{strip}
use kans_shop.Enums.{AdminRole, superadmin, manager, operator}
use kans_shop.Models.{
  Database, Admin, AdminAuditEvent, AdminOrderMessage, Order, OrderStatusHistory, team_changed,
  admin_team, AuditAction, team_add, team_update, team_remove, sessions_revoke,
}
use kans_shop.Exec.{
  Exec, Result, ok, err, forbidden, admin_role_required, admin_already_exists,
  last_superadmin_required, not_found, value_error, pure, gets, modify, raise_if, or_raise, ◌>>=◌,
  ◌>>◌,
}
use kans_shop.Repositories.{admin_key}
use kans_shop.Session.{save_admin, is_open_of, revoke_all, next_epoch}
use kans_shop.Outbox.{load_live_admin, enqueue_outbox_event, to_admin}
use kans_shop.Audit.{write_audit_event}

abbrev pub role_eq : AdminRole → AdminRole → Bool
role_eq superadmin superadmin = true
role_eq manager manager = true
role_eq operator operator = true
role_eq _ _ = false

-- `SUPERADMIN_ONLY`
abbrev pub superadmin_only : AdminRole → Bool
superadmin_only r = role_eq r superadmin

-- `except ForbiddenError`
abbrev role_required : {A : Type 0} → Result A → Result A
role_required (err forbidden) = err admin_role_required
role_required r = r

unfoldable pub load_actor : ℕ → Exec Admin
load_actor k d = role_required (load_live_admin superadmin_only k d)

unfoldable pub load_target : ℕ → Exec Admin
load_target k = do found ← gets (λ d. find admin_key k d.admins.rows); or_raise found (not_found k)

abbrev pub is_active_superadmin : Admin → Bool
is_active_superadmin a = role_eq a.role superadmin && a.is_active

unfoldable pub active_superadmin_count : Database → ℕ
active_superadmin_count d = count is_active_superadmin d.admins.rows

-- `_revoke_sessions_and_advance_epoch`
unfoldable pub revoke_sessions_and_advance_epoch : ℕ → Admin → Exec ℕ
revoke_sessions_and_advance_epoch now a = do
  save_admin (next_epoch a)
  closed ← gets (λ d. count (is_open_of a.id) d.admin_sessions.rows)
  modify (λ d. record d { admin_sessions = revoke_all now a.id d.admin_sessions })
  pure closed

-- `_notify_current_admins`
abbrev pub is_told : ℕ → Admin → Bool
is_told actor a = not (a.id == actor) && (a.is_active && a.notifications_enabled)

unfoldable pub tell_each : AdminAuditEvent → List Admin → Exec (Unit {0})
tell_each e [] = pure tt
tell_each e (a ∷ rest) = do
  enqueue_outbox_event team_changed e.resource_id (some e.id) (to_admin a.id) (admin_team e.id a.id)
  tell_each e rest

unfoldable pub notify_current_admins : ℕ → AdminAuditEvent → Exec (Unit {0})
notify_current_admins actor e = do
  recipients ← gets (λ d. sort_by admin_key (select (is_told actor) d.admins.rows))
  tell_each e recipients

unfoldable pub audit_and_notify : Text → ℕ → AuditAction → ℕ → Exec AdminAuditEvent
audit_and_notify request actor action target = do
  e ← write_audit_event actor action target request
  notify_current_admins actor e
  pure e

-- `admin_repository.create`
abbrev pub new_admin : ℕ → Text → AdminRole → ℕ → Admin
new_admin telegram_id name role k = record {
  id = k;
  telegram_id = telegram_id;
  full_name = name;
  role = role;
  is_active = true;
  notifications_enabled = true;
  auth_epoch = 0;
}

abbrev pub create_admin : ℕ → Text → AdminRole → Exec Admin
create_admin telegram_id name role d = ok (
  new_admin telegram_id name role d.admins.next,
  record d { admins = insert (new_admin telegram_id name role) d.admins },
)

unfoldable pub add_admin : Text → ℕ → ℕ → Text → AdminRole → Exec Admin
add_admin request actor telegram_id full_name role = do
  a ← load_actor actor
  raise_if (telegram_id == 0) value_error
  raise_if (is_empty (strip full_name) || ltb 128 (length (strip full_name))) value_error
  taken ← gets (λ d. find_by (λ b. b.telegram_id == telegram_id) d.admins.rows)
  raise_if (is_some taken) admin_already_exists
  new ← create_admin telegram_id (strip full_name) role
  audit_and_notify request a.id team_add new.id
  pure new

-- The fields of `AdminChanges`; a name has been stripped and is not empty.
pub record AdminChanges : Type 0 where
  pub full_name : Option Text
  pub role : Option AdminRole
  pub is_active : Option Bool
  pub notifications_enabled : Option Bool

abbrev pub changed : AdminChanges → Admin → Admin
changed c a = record a {
  full_name = given c.full_name a.full_name;
  role = given c.role a.role;
  is_active = given c.is_active a.is_active;
  notifications_enabled = given c.notifications_enabled a.notifications_enabled;
}

-- `{"role", "is_active"} & changed_fields`
abbrev pub is_reauthorized : Admin → Admin → Bool
is_reauthorized a b = not (role_eq a.role b.role) || not (bool_eq a.is_active b.is_active)

-- `not changed_fields`, the other way round
abbrev pub has_changed : Admin → Admin → Bool
has_changed a b =
    not (text_eq a.full_name b.full_name)
    || (is_reauthorized a b || not (bool_eq a.notifications_enabled b.notifications_enabled))

abbrev pub loses_superadmin : Admin → Admin → Bool
loses_superadmin a b = is_active_superadmin a && not (is_active_superadmin b)

abbrev pub write_changes : ℕ → Admin → Admin → Exec (Unit {0})
write_changes now a b d =
    if is_reauthorized a b
    then (do revoke_sessions_and_advance_epoch now b; pure tt) d
    else save_admin b d

-- An actor who deactivates their own account is audited first, while they are still live.
abbrev pub deactivates_self : ℕ → Admin → Admin → Bool
deactivates_self actor a b = a.id == actor && (a.is_active && not b.is_active)

unfoldable pub write_update : Text → ℕ → ℕ → Admin → Admin → Exec Admin
write_update request now actor a b d =
    if deactivates_self actor a b
    then (do
      e ← write_audit_event actor team_update a.id request
      write_changes now a b
      notify_current_admins actor e
      pure b)
        d
    else (do write_changes now a b; audit_and_notify request actor team_update a.id; pure b) d

abbrev pub update_found : Text → ℕ → ℕ → Admin → Admin → Exec Admin
update_found request now actor a b d =
    if has_changed a b then write_update request now actor a b d else ok (a, d)

unfoldable pub update_admin : Text → ℕ → ℕ → ℕ → AdminChanges → Exec Admin
update_admin request now actor k changes = do
  a ← load_actor actor
  target ← load_target k
  superadmins ← gets active_superadmin_count
  raise_if (loses_superadmin target (changed changes target) && leb superadmins 1)
      last_superadmin_required
  update_found request now a.id target (changed changes target)

-- `session.delete(target)`, and what the foreign keys do.
abbrev unless : ℕ → Option ℕ → Option ℕ
unless k none = none
unless k (some j) = if j == k then none else some j

abbrev forget_order : ℕ → Order → Order
forget_order k o = record o {
  payment_reviewed_by_admin_id = unless k o.payment_reviewed_by_admin_id;
  processed_by_admin_id = unless k o.processed_by_admin_id;
}

abbrev forget_history : ℕ → OrderStatusHistory → OrderStatusHistory
forget_history k h = record h { changed_by_admin_id = unless k h.changed_by_admin_id }

abbrev forget_audit : ℕ → AdminAuditEvent → AdminAuditEvent
forget_audit k e = record e { actor_admin_id = unless k e.actor_admin_id }

abbrev forget_message : ℕ → AdminOrderMessage → AdminOrderMessage
forget_message k m = record m { admin_id = unless k m.admin_id }

abbrev map_rows : {V : Type 0} → (V → V) → Table V → Table V
map_rows f t = record t { rows = map f t.rows }

abbrev keep_rows : {V : Type 0} → (V → Bool) → Table V → Table V
keep_rows p t = record t { rows = select p t.rows }

unfoldable pub delete_admin : ℕ → Database → Database
delete_admin k d = record d {
  admins = record d.admins { rows = without admin_key k d.admins.rows };
  admin_sessions = keep_rows (λ s. not (s.admin_id == k)) d.admin_sessions;
  outbox = keep_rows (λ e. not (is_number k e.recipient_admin_id)) d.outbox;
  orders = map_rows (forget_order k) d.orders;
  status_history = map_rows (forget_history k) d.status_history;
  audit_events = map_rows (forget_audit k) d.audit_events;
  order_messages = map_rows (forget_message k) d.order_messages;
}

unfoldable pub remove_admin : Text → ℕ → ℕ → ℕ → Exec (Unit {0})
remove_admin request now actor k = do
  a ← load_actor actor
  raise_if (k == a.id) forbidden
  target ← load_target k
  superadmins ← gets active_superadmin_count
  raise_if (is_active_superadmin target && leb superadmins 1) last_superadmin_required
  revoke_sessions_and_advance_epoch now target
  modify (delete_admin target.id)
  audit_and_notify request a.id team_remove k
  pure tt

unfoldable pub revoke_admin_sessions : Text → ℕ → ℕ → ℕ → Exec ℕ
revoke_admin_sessions request now actor k = do
  a ← load_actor actor
  target ← load_target k
  closed ← revoke_sessions_and_advance_epoch now target
  audit_and_notify request a.id sessions_revoke target.id
  pure closed
