-- ===== src/Staff/Steps.antt =====
-- Every call of the staff's services is one step, whether it is committed or rolled back.
use kans_shop.Prelude.{ℕ, ◌≡◌, refl, Option, none, some, Text, arith, inl, inr, Bool-cases}
use mathlib.Core.Path.{subst}
use kans_shop.Models.{Database}
use kans_shop.Exec.{Exec, ok, Result-cases, committed, committed_lem}
use kans_shop.Session.{
  create_admin_session, resolve_admin_session, get_admin_session_principal, passes_csrf,
  refresh_admin_session, revoke_admin_session,
}
use kans_shop.Team.{add_admin, update_admin, remove_admin, revoke_admin_sessions}
use kans_shop.Staff.{
  StaffCall, add, change, remove, revoke, login, visit, refresh, logout, logout_all, staff_call,
  logout_all_admin_sessions,
}
use kans_shop.Staff.Step.{StaffStep, same}
use kans_shop.Staff.AccountWrites.{add-StaffStep, remove-StaffStep, revoke-StaffStep}
use kans_shop.Staff.TeamWrites.{update-StaffStep}
use kans_shop.Staff.SessionWrites.{
  login-StaffStep, resolve-StaffStep, refresh-StaffStep, logout-StaffStep, logout_all-StaffStep,
}

-- The administrator who logs in by a call.
abbrev pub login_of : StaffCall → Option ℕ
login_of (login raw csrf now k) = some k
login_of _ = none

committed-StaffStep :
    {A : Type 0} {who : Option ℕ} (m : Exec A) (d : Database)
    → ((a : A) (e : Database) → m d ≡ ok (a, e) → StaffStep who d e)
    → StaffStep who d (committed m d)
committed-StaffStep {who = who} m d step = committed_lem (StaffStep who d) m d (same refl refl) step

module _ (sha256 : Text → Text) (webapp_origin : Text) where
  pub staff_call-StaffStep :
      (c : StaffCall) (d : Database)
      → StaffStep (login_of c) d (staff_call sha256 webapp_origin c d)
  unfolding staff_call get_admin_session_principal
  staff_call-StaffStep (add request actor telegram_id name role) d =
      committed-StaffStep (add_admin request actor telegram_id name role) d
        (λ n e h. add-StaffStep request actor telegram_id name role n d e h)
  staff_call-StaffStep (change request now actor k c) d =
      committed-StaffStep (update_admin request now actor k c) d
        (λ n e h. update-StaffStep request now actor k c n d e h)
  staff_call-StaffStep (remove request now actor k) d =
      committed-StaffStep (remove_admin request now actor k) d
        (λ u e h. remove-StaffStep request now actor k u d e h)
  staff_call-StaffStep (revoke request now actor k) d =
      committed-StaffStep (revoke_admin_sessions request now actor k) d
        (λ n e h. revoke-StaffStep request now actor k n d e h)
  staff_call-StaffStep (login raw csrf now k) d =
      committed-StaffStep (create_admin_session sha256 raw csrf now k) d
        (λ r e h. login-StaffStep sha256 raw csrf now k r d e h)
  staff_call-StaffStep (visit now method none origin csrf) d = same refl refl
  staff_call-StaffStep (visit now method (some raw) origin csrf) d =
      elim (Result-cases (resolve_admin_session sha256 now raw d)) [
        | inr (x, q) ↦ same (ground (arith, q)) (ground (arith, q))
        | inl (none, e, q) ↦
            subst (StaffStep none d) (ground (arith, q))
              (resolve-StaffStep sha256 now raw none d e q)
        | inl (some p, e, q) ↦ elim (Bool-cases (passes_csrf webapp_origin method origin csrf p)) [
          | inl pass ↦
              subst (StaffStep none d) (ground (arith, q, pass))
                (resolve-StaffStep sha256 now raw (some p) d e q)
          | inr stop ↦ same (ground (arith, q, stop)) (ground (arith, q, stop))
        ]
      ]
  staff_call-StaffStep (refresh now p) d =
      committed-StaffStep (refresh_admin_session now p) d (λ l e h. refresh-StaffStep now p l d e h)
  staff_call-StaffStep (logout now p) d =
      committed-StaffStep (revoke_admin_session now p) d (λ u e h. logout-StaffStep now p u d e h)
  staff_call-StaffStep (logout_all now p) d =
      committed-StaffStep (logout_all_admin_sessions now p) d
        (λ u e h. logout_all-StaffStep now p u d e h)
