-- ===== src/Tests/Teams.antt =====
-- The theorems on the accounts and the sessions of the staff, with two superadmins and an operator.
use kans_shop.Prelude.{
  take, without, All, ℕ, ◌+◌, ◌≤◌, ◌≡◌, ◌≢◌, refl, true, none, some, List, [], ◌∷◌, Text, codes,
  arith, find, find_by, select, sort_by, insert_by, count, replace, any, text_eq, show,
}
use kans_shop.Prelude.Parse.{strip}
use kans_shop.Enums.{AdminRole, superadmin, operator, PaymentMethod}
use kans_shop.Models.{Database, Admin, AdminSession}
use kans_shop.Exec.{committed}
use kans_shop.Outbox.{enqueue_outbox_event, is_bad_key, same_key, dedupe_text, load_live_admin}
use kans_shop.Audit.{write_audit_event}
use kans_shop.Session.{
  Principal, is_raw_token, extend_idle_expiry, require_live_session, resolve_admin_session,
  get_admin_session_principal, create_admin_session, get_current_admin, refresh_admin_session,
  revoke_admin_session,
}
use kans_shop.Team.{
  AdminChanges, load_actor, load_target, active_superadmin_count, revoke_sessions_and_advance_epoch,
  tell_each, notify_current_admins, audit_and_notify, add_admin, write_update, update_admin,
  delete_admin, remove_admin, revoke_admin_sessions,
}
use kans_shop.Staff.{StaffCall, change, remove, login, visit, staff_call, staff_calls}
use kans_shop.Staff.Superadmin.{staff_calls-has_superadmin}
use kans_shop.Staff.Current.{IsCurrentIn, AllCurrent, staff_calls-AllCurrent}
use kans_shop.Staff.Closed.{AllClose}
use kans_shop.Staff.Revoked.{revoked_until_login}
use kans_shop.LoginCode.{
  CodeCall, issue, code_calls, code_call, issue_admin_login_code, first_free, take_code,
}
use kans_shop.LoginCode.Newest.{newest_code_only}
use kans_shop.Tests.{shop_with}

unfoldable staff_runs : Unit {0}
unfolding find find_by select sort_by insert_by count replace any text_eq show strip
    enqueue_outbox_event is_bad_key same_key dedupe_text load_live_admin write_audit_event
    is_raw_token extend_idle_expiry require_live_session resolve_admin_session
    get_admin_session_principal create_admin_session get_current_admin refresh_admin_session
    revoke_admin_session load_actor load_target active_superadmin_count
    revoke_sessions_and_advance_epoch tell_each notify_current_admins audit_and_notify add_admin
    write_update update_admin without delete_admin remove_admin revoke_admin_sessions staff_call
    staff_calls
staff_runs = tt

abbrev member : ℕ → AdminRole → Admin
member k role = record {
  id = k;
  telegram_id = k + 500;
  full_name = codes "Ali";
  role = role;
  is_active = true;
  notifications_enabled = true;
  auth_epoch = 0;
}

abbrev token : ℕ → Text
token c = c ∷ codes "abcdefghijklmnopqrstuvwxyz0123456789-_ABCD"

abbrev session_of : ℕ → Text → AdminSession
session_of k raw = record {
  id = k;
  admin_id = k;
  token_hash = raw;
  csrf_token = k ∷ [];
  auth_epoch = 0;
  idle_expires_at = 43200000;
  absolute_expires_at = 604800000;
  revoked_at = none;
}

abbrev staffed_shop : Database
staffed_shop = record (shop_with PaymentMethod.cash []) {
  admins = record {
    rows = member 1 superadmin ∷ member 2 superadmin ∷ member 3 operator ∷ [];
    next = 4;
  };
  admin_sessions = record {
    rows = session_of 1 (token b'x') ∷ session_of 2 (token b'y') ∷ [];
    next = 3;
  };
}

abbrev digest : Text → Text
digest raw = raw

abbrev webapp : Text
webapp = codes "https://shop"

abbrev request : Text
request = codes "request"

abbrev demotion : AdminChanges
demotion = record {
  full_name = none;
  role = some operator;
  is_active = none;
  notifications_enabled = none;
}

abbrev day : List StaffCall
day =
    change request 10 1 2 demotion
    ∷ change request 20 1 1 demotion
    ∷ remove request 30 1 3
    ∷ login (token b'z') (codes "nonce") 40 2
    ∷ visit 50 (codes "GET") (some (token b'z')) none none
    ∷ []

-- The second superadmin is demoted, the last one is not.
demoted : active_superadmin_count (staff_calls digest webapp day staffed_shop) ≡ 1
unfolding staff_runs
demoted = refl

staff_calls-has_superadmin_example :
    1 ≤ active_superadmin_count (staff_calls digest webapp day staffed_shop)
unfolding staff_runs
staff_calls-has_superadmin_example =
    staff_calls-has_superadmin digest webapp day staffed_shop (omega arith)

second-IsCurrentIn : IsCurrentIn staffed_shop.admins.rows (session_of 2 (token b'y'))
unfolding staff_runs IsCurrentIn
second-IsCurrentIn _ = (member 2 superadmin, refl, refl, refl)

staff_calls-AllCurrent_example :
    AllCurrent (staff_calls digest webapp day staffed_shop)
    × AllClose digest webapp day staffed_shop
unfolding staff_runs AllCurrent IsCurrentIn
staff_calls-AllCurrent_example =
    let last : All (IsCurrentIn staffed_shop.admins.rows) (session_of 2 (token b'y') ∷ []) =
      (second-IsCurrentIn, tt) in
    staff_calls-AllCurrent digest webapp day staffed_shop
      ((λ _. (member 1 superadmin, refl, refl, refl)), last)

abbrev revoked_shop : Database
revoked_shop = committed (revoke_admin_sessions request 10 1 2) staffed_shop

abbrev boss : Principal
boss = record { admin_id = 1; session_id = 1; role = superadmin; csrf_token = 1 ∷ [] }

revoked_until_login_example : boss.admin_id ≢ 2
unfolding staff_runs
revoked_until_login_example =
    revoked_until_login digest webapp 2 request 10 1 1 staffed_shop revoked_shop
      (remove request 30 1 3 ∷ []) 50 (codes "GET") (some (token b'x')) none none boss refl
      (refl, tt) refl

-- Two codes for the account 500, half a minute apart: the second works.
abbrev two_codes : List (ℕ × CodeCall)
two_codes = (0, issue 500 (123456 ∷ [])) ∷ (30, issue 500 (123456 ∷ 654321 ∷ [])) ∷ []

abbrev second_code : ℕ
second_code = 654321

newest_code_only_example : second_code ≡ second_code
unfolding code_calls code_call issue_admin_login_code first_free take_code take
newest_code_only_example = newest_code_only two_codes 0 500 second_code second_code refl refl
