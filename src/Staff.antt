-- ===== src/Staff.antt =====
-- The accounts and the sessions of the staff together: any sequence of the calls of
-- backend/app/services/admin_team_service.py and admin_session_service.py, each committed or rolled
-- back (backend/app/api/deps.py, and the endpoints of backend/app/api/admin_security.py).
pub mod Frame
pub mod Step
pub mod Superadmin
pub mod Steps
pub mod AccountWrites
pub mod TeamWrites
pub mod SessionWrites
pub mod Closed
pub mod Current
pub mod Revoked
use kans_shop.Prelude.{ℕ, Option, List, [], ◌∷◌, Text}
use kans_shop.Enums.{AdminRole}
use kans_shop.Models.{Database}
use kans_shop.Exec.{Exec, ◌>>=◌, committed}
use kans_shop.Team.{add_admin, AdminChanges, update_admin, remove_admin, revoke_admin_sessions}
use kans_shop.Session.{
  Principal, create_admin_session, get_admin_session_principal, refresh_admin_session,
  revoke_admin_session, revoke_all_admin_sessions, get_current_admin,
}

-- One call, with its arguments; a number `now` is the time of the call.
pub data StaffCall : Type 0 where
  add : Text → ℕ → ℕ → Text → AdminRole → StaffCall
  change : Text → ℕ → ℕ → ℕ → AdminChanges → StaffCall
  remove revoke : Text → ℕ → ℕ → ℕ → StaffCall
  login : Text → Text → ℕ → ℕ → StaffCall
  visit : ℕ → Text → Option Text → Option Text → Option Text → StaffCall
  refresh logout logout_all : ℕ → Principal → StaffCall

unfoldable pub logout_all_admin_sessions : ℕ → Principal → Exec (Unit {0})
logout_all_admin_sessions now p = do a ← get_current_admin p; revoke_all_admin_sessions now a

module _ (sha256 : Text → Text) (webapp_origin : Text) where
  unfoldable pub staff_call : StaffCall → Database → Database
  staff_call (add request actor telegram_id name role) d =
      committed (add_admin request actor telegram_id name role) d
  staff_call (change request now actor k changes) d =
      committed (update_admin request now actor k changes) d
  staff_call (remove request now actor k) d = committed (remove_admin request now actor k) d
  staff_call (revoke request now actor k) d =
      committed (revoke_admin_sessions request now actor k) d
  staff_call (login raw csrf now k) d = committed (create_admin_session sha256 raw csrf now k) d
  staff_call (visit now method cookie origin csrf) d =
      (get_admin_session_principal sha256 webapp_origin now method cookie origin csrf d).1
  staff_call (refresh now p) d = committed (refresh_admin_session now p) d
  staff_call (logout now p) d = committed (revoke_admin_session now p) d
  staff_call (logout_all now p) d = committed (logout_all_admin_sessions now p) d

  unfoldable pub staff_calls : List StaffCall → Database → Database
  staff_calls [] d = d
  staff_calls (c ∷ rest) d = staff_calls rest (staff_call c d)
