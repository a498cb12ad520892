-- ===== src/Session.antt =====
-- backend/app/services/admin_session_service.py, and the dependency of backend/app/api/deps.py that asks it
-- who calls. SHA-256 and the two random tokens are parameters. `AdminSessionInvalidError` is an answer
-- here, since its callers commit the revocation that comes with it.
use kans_shop.Prelude.{
  ℕ, ◌+◌, Bool, true, false, ◌&&◌, ◌||◌, not, Option, none, some, Text, codes, find, find_by, any,
  map, insert, update, Table, is_some, length, leb, ◌==◌, text_eq, max, min, if◌then◌else◌,
}
use kans_shop.Enums.{AdminRole}
use kans_shop.Models.{Database, Admin, AdminSession}
use kans_shop.Exec.{
  Exec, Result, ok, err, admin_session_required, admin_role_required, csrf_failed, unique_violation,
  pure, gets, modify, raise_if, or_raise, ◌>>=◌, ◌>>◌,
}
use kans_shop.Repositories.{admin_key}
use kans_shop.Audit.{any_role}
use kans_shop.Outbox.{load_live_admin}

-- Milliseconds.
abbrev pub idle_ttl : ℕ
idle_ttl = 43200000

abbrev pub absolute_ttl : ℕ
absolute_ttl = 604800000

pub record Principal : Type 0 where
  pub admin_id : ℕ
  pub session_id : ℕ
  pub role : AdminRole
  pub csrf_token : Text

abbrev pub session_key : AdminSession → ℕ
session_key s = s.id

abbrev is_token_char : ℕ → Bool
is_token_char c =
    (leb b'0' c && leb c b'9')
    || ((leb b'A' c && leb c b'Z') || ((leb b'a' c && leb c b'z') || (c == b'_' || c == b'-')))

-- `_RAW_TOKEN_PATTERN.fullmatch`
unfoldable pub is_raw_token : Text → Bool
is_raw_token raw = length raw == 43 && not (any (λ c. not (is_token_char c)) raw)

abbrev pub save_session : AdminSession → Exec (Unit {0})
save_session s = modify (λ d. record d { admin_sessions = update session_key s d.admin_sessions })

abbrev pub closed_at : ℕ → AdminSession → AdminSession
closed_at now s = record s { revoked_at = some now }

-- `now >= expires_at`, of either end
abbrev pub is_expired : ℕ → AdminSession → Bool
is_expired now s = leb s.idle_expires_at now || leb s.absolute_expires_at now

abbrev pub is_current : AdminSession → Admin → Bool
is_current s a = a.is_active && s.auth_epoch == a.auth_epoch

-- `least(absolute, greatest(idle, now + IDLE_TTL))`
abbrev pub idle_end : ℕ → AdminSession → ℕ
idle_end now s = min s.absolute_expires_at (max s.idle_expires_at (now + idle_ttl))

abbrev pub extended : ℕ → AdminSession → AdminSession
extended now s = record s { idle_expires_at = idle_end now s }

abbrev extend_found : ℕ → Option AdminSession → Exec (Unit {0})
extend_found now none = pure tt
extend_found now (some s) = if is_some s.revoked_at then pure tt else save_session (extended now s)

unfoldable pub extend_idle_expiry : ℕ → AdminSession → Exec (Unit {0})
extend_idle_expiry now s = do
  found ← gets (λ d. find session_key s.id d.admin_sessions.rows)
  extend_found now found

-- What is left of a session that is not revoked: its administrator, or nothing and it is revoked.
abbrev close_session : ℕ → AdminSession → Exec (Option Admin)
close_session now s = do save_session (closed_at now s); pure none

abbrev check_live : ℕ → AdminSession → Option Admin → Exec (Option Admin)
check_live now s none = close_session now s
check_live now s (some a) =
    if is_current s a && not (is_expired now s) then pure (some a) else close_session now s

unfoldable pub require_live_session : ℕ → AdminSession → Exec (Option Admin)
require_live_session now s = do
  found ← gets (λ d. find admin_key s.admin_id d.admins.rows)
  raise_if (is_some s.revoked_at) admin_session_required
  check_live now s found

abbrev pub principal_of : AdminSession → Admin → Principal
principal_of s a = record {
  admin_id = a.id;
  session_id = s.id;
  role = a.role;
  csrf_token = s.csrf_token;
}

-- What follows a check: a live session is extended; `dead` stands for `AdminSessionInvalidError`.
abbrev pub when_live : {A : Type 0} → ℕ → AdminSession → A → (Admin → A) → Option Admin → Exec A
when_live now s dead on_live none = pure dead
when_live now s dead on_live (some a) = do extend_idle_expiry now s; pure (on_live a)

-- The session that a principal names, if it is the principal's.
abbrev pub is_own : Principal → AdminSession → Bool
is_own p s = s.admin_id == p.admin_id && text_eq s.csrf_token p.csrf_token

unfoldable pub refresh_admin_session : ℕ → Principal → Exec Bool
refresh_admin_session now p = do
  found ← gets (λ d. find session_key p.session_id d.admin_sessions.rows)
  s ← or_raise found admin_session_required
  raise_if (not (is_own p s)) admin_session_required
  live ← require_live_session now s
  when_live now s false (λ _. true) live

abbrev revoke_found : ℕ → Principal → Option AdminSession → Exec (Unit {0})
revoke_found now p none = pure tt
revoke_found now p (some s) =
    if s.admin_id == p.admin_id && not (is_some s.revoked_at)
    then save_session (closed_at now s)
    else pure tt

unfoldable pub revoke_admin_session : ℕ → Principal → Exec (Unit {0})
revoke_admin_session now p = do
  found ← gets (λ d. find session_key p.session_id d.admin_sessions.rows)
  revoke_found now p found

abbrev pub save_admin : Admin → Exec (Unit {0})
save_admin a = modify (λ d. record d { admins = update admin_key a d.admins })

-- The checks of `get_admin_session_principal` in deps.py.
abbrev is_safe_method : Text → Bool
is_safe_method m =
    text_eq m (codes "GET") || (text_eq m (codes "HEAD") || text_eq m (codes "OPTIONS"))

abbrev is_ascii : Text → Bool
is_ascii s = not (any (λ c. leb 128 c) s)

abbrev same_text : Option Text → Text → Bool
same_text none s = false
same_text (some t) s = text_eq t s

abbrev matches_csrf : Option Text → Principal → Bool
matches_csrf none p = false
matches_csrf (some t) p = is_ascii t && text_eq t p.csrf_token

abbrev pub passes_csrf : Text → Text → Option Text → Option Text → Principal → Bool
passes_csrf webapp_origin method origin csrf p =
    is_safe_method method || (same_text origin webapp_origin && matches_csrf csrf p)

abbrev pub Reply : Type 0
Reply = Result Principal × Database

abbrev resolved_reply : Bool → Database → Principal → Database → Reply
resolved_reply true d p e = (ok p, e)
resolved_reply false d p e = (err csrf_failed, d)

abbrev pub principal_reply :
    (Principal → Bool) → Database → Result (Option Principal × Database) → Reply
principal_reply passes d (err x) = (err x, d)
principal_reply passes d (ok (none, e)) = (err admin_session_required, e)
principal_reply passes d (ok (some p, e)) = resolved_reply (passes p) d p e

-- `update(AdminSession).where(admin_id, revoked_at is null)`
abbrev pub is_open_of : ℕ → AdminSession → Bool
is_open_of admin s = s.admin_id == admin && not (is_some s.revoked_at)

abbrev pub revoked : ℕ → ℕ → AdminSession → AdminSession
revoked now admin s = if is_open_of admin s then record s { revoked_at = some now } else s

abbrev pub revoke_all : ℕ → ℕ → Table AdminSession → Table AdminSession
revoke_all now admin t = record t { rows = map (revoked now admin) t.rows }

abbrev pub next_epoch : Admin → Admin
next_epoch a = record a { auth_epoch = a.auth_epoch + 1 }

unfoldable pub revoke_all_admin_sessions : ℕ → Admin → Exec (Unit {0})
revoke_all_admin_sessions now a = do
  save_admin (next_epoch a)
  modify (λ d. record d { admin_sessions = revoke_all now a.id d.admin_sessions })

module _ (sha256 : Text → Text) where
  abbrev pub new_session : ℕ → Text → Text → Admin → ℕ → AdminSession
  new_session now raw csrf a k = record {
    id = k;
    admin_id = a.id;
    token_hash = sha256 raw;
    csrf_token = csrf;
    auth_epoch = a.auth_epoch;
    idle_expires_at = now + idle_ttl;
    absolute_expires_at = now + absolute_ttl;
    revoked_at = none;
  }

  abbrev pub has_token : Text → AdminSession → Bool
  has_token raw s = text_eq s.token_hash (sha256 raw)

  -- The unique constraints of the table.
  abbrev clashes : Text → Text → AdminSession → Bool
  clashes raw csrf s = has_token raw s || text_eq s.csrf_token csrf

  abbrev insert_session : (ℕ → AdminSession) → Exec AdminSession
  insert_session row d =
      ok (row d.admin_sessions.next, record d { admin_sessions = insert row d.admin_sessions })

  unfoldable pub create_admin_session : Text → Text → ℕ → ℕ → Exec (Principal × Text)
  create_admin_session raw csrf now k = do
    found ← gets (λ d. find admin_key k d.admins.rows)
    a ← or_raise found admin_session_required
    raise_if (not a.is_active) admin_session_required
    taken ← gets (λ d. any (clashes raw csrf) d.admin_sessions.rows)
    raise_if taken unique_violation
    s ← insert_session (new_session now raw csrf a)
    pure (principal_of s a, raw)

  unfoldable pub resolve_admin_session : ℕ → Text → Exec (Option Principal)
  resolve_admin_session now raw = do
    raise_if (not (is_raw_token raw)) admin_session_required
    found ← gets (λ d. find_by (has_token raw) d.admin_sessions.rows)
    s ← or_raise found admin_session_required
    live ← require_live_session now s
    when_live now s none (λ a. some (principal_of s a)) live

  -- The answer, and the database that the request leaves when nothing follows.
  unfoldable pub get_admin_session_principal :
      Text → ℕ → Text → Option Text → Option Text → Option Text → Database → Reply
  get_admin_session_principal webapp_origin now method none origin csrf d =
      (err admin_session_required, d)
  get_admin_session_principal webapp_origin now method (some raw) origin csrf d =
      principal_reply (passes_csrf webapp_origin method origin csrf) d
        (resolve_admin_session now raw d)

-- `get_current_admin` and `require_admin_roles`
unfoldable pub get_current_admin : Principal → Exec Admin
get_current_admin p = load_live_admin any_role p.admin_id

unfoldable pub require_admin_roles : (AdminRole → Bool) → Principal → Exec Admin
require_admin_roles allowed p = do
  a ← get_current_admin p
  raise_if (not (allowed a.role)) admin_role_required
  pure a
