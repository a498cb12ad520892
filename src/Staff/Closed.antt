-- ===== src/Staff/Closed.antt =====
-- The sessions that the calls of backend/app/services/admin_team_service.py and
-- admin_session_service.py close.
use kans_shop.Prelude.{
  find-without, ℕ, ◌≡◌, refl, ◌∙◌, ap, not, Option, some, List, [], ◌∷◌, map, find, select, replace,
  find-replace_self, find-replace_ne, find-append_some, find_key, All, All-select, arith, ◌⊎◌, inl,
  inr, Bool-cases, Option-cases, ◌==◌, Text,
}
use mathlib.Core.Path.{subst}
use kans_shop.Models.{Database, Admin, AdminSession}
use kans_shop.Exec.{Exec, Error, err, ok, Result-cases, committed}
use kans_shop.Repositories.{admin_key}
use kans_shop.Outbox.{load_live_admin}
use kans_shop.Session.{Principal, revoked, next_epoch, get_current_admin, revoke_all_admin_sessions}
use kans_shop.Team.{remove_admin, revoke_admin_sessions}
use kans_shop.Staff.{
  StaffCall, add, change, remove, revoke, login, visit, refresh, logout, logout_all, staff_call,
  logout_all_admin_sessions,
}
use kans_shop.Staff.AccountWrites.{remove_inv}
use kans_shop.Staff.Step.{
  StaffStep, same, added, renamed, reset, removed, opened, closed, prolonged, staff_of, sessions_of,
}
use kans_shop.Staff.Steps.{login_of, staff_call-StaffStep}
use kans_shop.Staff.Revoked.{IsShut, AllShut, map-revoked-All, revoke-AllShut}

-- The administrator is there with the role, the activity and the epoch of before.
abbrev pub IsRetained : ℕ → Admin → List Admin → Type 0
IsRetained k a admins =
    (b : Admin) × (find admin_key k admins ≡ some b)
    × (b.role ≡ a.role)
    × (b.is_active ≡ a.is_active)
    × (b.auth_epoch ≡ a.auth_epoch)

-- Who has gone, or has another role, activity or epoch, has no session that is not revoked.
unfoldable pub ShutIfMoved : Database → Database → Type 0
ShutIfMoved d e =
    (k : ℕ) (a : Admin)
    → find admin_key k (staff_of d) ≡ some a
    → AllShut k e ⊎ IsRetained k a (staff_of e)

stays :
    (k : ℕ) (a : Admin) (admins rows : List Admin)
    → find admin_key k admins ≡ some a
    → rows ≡ admins
    → IsRetained k a rows
stays k a admins rows f p = (a, ap (find admin_key k) p ∙ f, refl, refl, refl)

removed-IsShut :
    (now k j : ℕ) (before after : List AdminSession)
    → j ≡ k
    → after ≡ select (λ s. not (s.admin_id == j)) (map (revoked now j) before)
    → All (IsShut k) after
removed-IsShut now k j before after own q =
    subst (All (IsShut k)) {x = select (λ s. not (s.admin_id == k)) (map (revoked now k) before)}
      (ground (arith, q, own))
      (All-select (IsShut k) (IsShut k) (λ s. not (s.admin_id == k)) (map (revoked now k) before)
        (λ s _ hs. hs) (map-revoked-All now k before))

step-ShutIfMoved : (who : Option ℕ) (d e : Database) → StaffStep who d e → ShutIfMoved d e
unfolding ShutIfMoved AllShut
step-ShutIfMoved who d e (same p q) k a f = inr (stays k a (staff_of d) (staff_of e) f p)
step-ShutIfMoved who d e (added b p q) k a f =
    inr (
      a,
      ap (find admin_key k) p ∙ find-append_some admin_key k b (staff_of d) a f,
      refl,
      refl,
      refl,
    )
step-ShutIfMoved who d e (renamed b c r p q) k a f = elim (Bool-cases (k == b.id)) [
  | inl own ↦
      let g = find-replace_self admin_key k c (staff_of d) a f (ground (arith, own, r.id)) in
      inr (
        c,
        ap (find admin_key k) p ∙ g,
        ground (arith, own, f, r.stored, r.role),
        ground (arith, own, f, r.stored, r.active),
        ground (arith, own, f, r.stored, r.epoch),
      )
  | inr other ↦
      let g = find-replace_ne admin_key k c (staff_of d) (ground (arith, r.id, other)) in
      inr (a, ap (find admin_key k) p ∙ (g ∙ f), refl, refl, refl)
]
step-ShutIfMoved who d e (reset now b c r p q) k a f = elim (Bool-cases (k == b.id)) [
  | inl own ↦ inl (
      subst (All (IsShut k)) {x = map (revoked now k) (sessions_of d)} (ground (arith, q, own))
        (map-revoked-All now k (sessions_of d)))
  | inr other ↦
      let g = find-replace_ne admin_key k c (staff_of d) (ground (arith, r.id, other)) in
      inr (a, ap (find admin_key k) p ∙ (g ∙ f), refl, refl, refl)
]
step-ShutIfMoved who d e (removed now b h g p q) k a f = elim (Bool-cases (k == b.id)) [
  | inl own ↦
      inl (removed-IsShut now k b.id (sessions_of d) (sessions_of e) (ground (arith, own)) q)
  | inr other ↦
      let admins : List Admin = replace admin_key (next_epoch b) (staff_of d) in
      let u = find-without admin_key k b.id admins (ground (arith, other)) in
      let v = find-replace_ne admin_key k (next_epoch b) (staff_of d) (ground (arith, other)) in
      inr (a, ap (find admin_key k) p ∙ (u ∙ (v ∙ f)), refl, refl, refl)
]
step-ShutIfMoved who d e (opened s b g c w p q) k a f =
    inr (stays k a (staff_of d) (staff_of e) f p)
step-ShutIfMoved who d e (closed now t c p q) k a f = inr (stays k a (staff_of d) (staff_of e) f p)
step-ShutIfMoved who d e (prolonged s t g r p q) k a f =
    inr (stays k a (staff_of d) (staff_of e) f p)

-- The call raises, or leaves this administrator no session that is not revoked.
abbrev pub FailsOrShuts : {A : Type 0} → ℕ → Exec A → Database → Type 0
FailsOrShuts k m d = ((x : Error) × (m d ≡ err x)) ⊎ AllShut k (committed m d)

unfoldable pub Closes : StaffCall → Database → Type 0
Closes (remove request now actor k) d = FailsOrShuts k (remove_admin request now actor k) d
Closes (revoke request now actor k) d = FailsOrShuts k (revoke_admin_sessions request now actor k) d
Closes (logout_all now p) d = FailsOrShuts p.admin_id (logout_all_admin_sessions now p) d
Closes _ d = Unit {0}

fails_or_shuts :
    {A : Type 0} (k : ℕ) (m : Exec A) (d : Database)
    → ((a : A) (e : Database) → m d ≡ ok (a, e) → AllShut k e)
    → FailsOrShuts k m d
fails_or_shuts k m d shut = elim (Result-cases (m d)) [
  | inl (a, e, q) ↦ inr (subst (AllShut k) (ground (arith, q)) (shut a e q))
  | inr (x, q) ↦ inl (x, q)
]

remove-AllShut :
    (request : Text) (now actor k : ℕ) (u : Unit {0}) (d e : Database)
    → remove_admin request now actor k d ≡ ok (u, e)
    → AllShut k e
unfolding AllShut
remove-AllShut request now actor k u d e h =
    let r = remove_inv request now actor k u d e h in
    removed-IsShut now k r.target.id (sessions_of d) (sessions_of e)
      (find_key admin_key k d.admins.rows r.target r.found) r.sessions

logout_all-AllShut :
    (now : ℕ) (p : Principal) (u : Unit {0}) (d e : Database)
    → logout_all_admin_sessions now p d ≡ ok (u, e)
    → AllShut p.admin_id e
unfolding AllShut logout_all_admin_sessions get_current_admin load_live_admin
    revoke_all_admin_sessions
logout_all-AllShut now p u d e h = elim (Option-cases (find admin_key p.admin_id d.admins.rows)) [
  | inl gone ↦ absurd (ground (arith, gone, h))
  | inr (a, found) ↦
      subst (All (IsShut p.admin_id)) {x = map (revoked now p.admin_id) (sessions_of d)}
        (ground (arith, found, h, find_key admin_key p.admin_id d.admins.rows a))
        (map-revoked-All now p.admin_id (sessions_of d))
]

call-Closes : (c : StaffCall) (d : Database) → Closes c d
unfolding Closes
call-Closes (remove request now actor k) d =
    fails_or_shuts k (remove_admin request now actor k) d
      (λ u e h. remove-AllShut request now actor k u d e h)
call-Closes (revoke request now actor k) d =
    fails_or_shuts k (revoke_admin_sessions request now actor k) d
      (λ n e h. revoke-AllShut request now actor k n d e h)
call-Closes (logout_all now p) d =
    fails_or_shuts p.admin_id (logout_all_admin_sessions now p) d
      (λ u e h. logout_all-AllShut now p u d e h)
call-Closes (add _ _ _ _ _) d = tt
call-Closes (change _ _ _ _ _) d = tt
call-Closes (login _ _ _ _) d = tt
call-Closes (visit _ _ _ _ _) d = tt
call-Closes (refresh _ _) d = tt
call-Closes (logout _ _) d = tt

module _ (sha256 : Text → Text) (webapp_origin : Text) where
  -- Each call of a sequence closes the sessions that it has to.
  unfoldable pub AllClose : List StaffCall → Database → Type 0
  AllClose [] d = Unit {0}
  AllClose (c ∷ cs) d =
      ShutIfMoved d (staff_call sha256 webapp_origin c d)
      × Closes c d
      × AllClose cs (staff_call sha256 webapp_origin c d)

  pub calls-AllClose : (cs : List StaffCall) (d : Database) → AllClose cs d
  unfolding AllClose
  calls-AllClose [] d = tt
  calls-AllClose (c ∷ cs) d = (
    step-ShutIfMoved (login_of c) d (staff_call sha256 webapp_origin c d)
        (staff_call-StaffStep sha256 webapp_origin c d),
    call-Closes c d,
    calls-AllClose cs (staff_call sha256 webapp_origin c d),
  )
