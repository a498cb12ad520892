-- ===== src/Staff/SessionWrites.antt =====
-- The calls of backend/app/services/admin_session_service.py as steps.
use kans_shop.Prelude.{
  ℕ, ◌≡◌, refl, Bool, true, false, ◌&&◌, not, Option, none, some, Text, find, find_by, is_some,
  ◌==◌, arith, find_key, inl, inr, Bool-cases, Option-cases,
}
use mathlib.Core.Path.{subst}
use kans_shop.Models.{Database, Admin, AdminSession}
use kans_shop.Exec.{ok, pure, admin_session_required, >>=-eq-ok, raise_if-eq-ok}
use kans_shop.Repositories.{admin_key}
use kans_shop.Outbox.{load_live_admin}
use kans_shop.Session.{
  Principal, session_key, is_current, is_expired, closed_at, extended, extend_idle_expiry,
  require_live_session, refresh_admin_session, revoke_admin_session, create_admin_session,
  resolve_admin_session, get_current_admin, revoke_all_admin_sessions, next_epoch, new_session,
  has_token, principal_of, is_raw_token, is_own, when_live,
}
use kans_shop.Staff.{logout_all_admin_sessions}
use kans_shop.Staff.Step.{StaffStep, same, reset, opened, closed, prolonged}

pub extend-StaffStep :
    (now : ℕ) (s : AdminSession) (u : Unit {0}) (d e : Database)
    → extend_idle_expiry now s d ≡ ok (u, e)
    → StaffStep none d e
unfolding extend_idle_expiry
extend-StaffStep now s u d e h = elim (Option-cases (find session_key s.id d.admin_sessions.rows)) [
  | inl gone ↦ same (ground (arith, gone, h)) (ground (arith, gone, h))
  | inr (t, found) ↦ elim (Bool-cases (is_some t.revoked_at)) [
    | inl over ↦ same (ground (arith, found, over, h)) (ground (arith, found, over, h))
    | inr live ↦
        prolonged t (extended now t)
          (ground (arith, found, find_key session_key s.id d.admin_sessions.rows t))
          (record { id = refl; admin = refl; epoch = refl; live = refl })
          (ground (arith, found, live, h)) (ground (arith, found, live, h))
  ]
]

-- What a check of a session that is not revoked finds.
pub record LiveSession (now : ℕ) (s : AdminSession) (a : Admin) (d : Database) : Type 0 where
  pub stored : find admin_key s.admin_id d.admins.rows ≡ some a
  pub live : s.revoked_at ≡ none
  pub current : is_current s a ≡ true
  pub in_time : is_expired now s ≡ false

pub require_live-some :
    (now : ℕ) (s : AdminSession) (a : Admin) (d e : Database)
    → require_live_session now s d ≡ ok (some a, e)
    → LiveSession now s a d × (e ≡ d)
unfolding require_live_session
require_live-some now s a d e h = elim (Option-cases (find admin_key s.admin_id d.admins.rows)) [
  | inl gone ↦ ground (arith, gone, h)
  | inr (b, found) ↦ (
    record {
      stored = ground (arith, found, h);
      live = ground (arith, found, h);
      current = ground (arith, found, h);
      in_time = ground (arith, found, h);
    },
    ground (arith, found, h),
  )
]

pub require_live-none :
    (now : ℕ) (s : AdminSession) (d e : Database)
    → require_live_session now s d ≡ ok (none, e)
    → StaffStep none d e
unfolding require_live_session
require_live-none now s d e h = elim (Option-cases (find admin_key s.admin_id d.admins.rows)) [
  | inl gone ↦ closed now (closed_at now s) refl (ground (arith, gone, h)) (ground (arith, gone, h))
  | inr (b, found) ↦
      closed now (closed_at now s) refl (ground (arith, found, h)) (ground (arith, found, h))
]

-- A check of a session, and what follows when it is live, make one step.
live-StaffStep :
    {B : Type 0} (now : ℕ) (s : AdminSession) (dead : B) (on_live : Admin → B) (r : B)
    (d d1 e : Database) (o : Option Admin)
    → require_live_session now s d ≡ ok (o, d1)
    → when_live now s dead on_live o d1 ≡ ok (r, e)
    → StaffStep none d e
live-StaffStep now s dead on_live r d d1 e none q h =
    subst (StaffStep none d) (ground (arith, h)) (require_live-none now s d d1 q)
live-StaffStep now s dead on_live r d d1 e (some a) q h =
    let (u, d2, q2, h2) = >>=-eq-ok (extend_idle_expiry now s) (λ _. pure (on_live a)) d1 h in
    let (live, still) = require_live-some now s a d d1 q in
    subst (StaffStep none d) (ground (arith, h2)) (
      extend-StaffStep now s u d d2 (subst (λ x. extend_idle_expiry now s x ≡ ok (u, d2)) still q2))

pub refresh-StaffStep :
    (now : ℕ) (p : Principal) (live : Bool) (d e : Database)
    → refresh_admin_session now p d ≡ ok (live, e)
    → StaffStep none d e
unfolding refresh_admin_session
refresh-StaffStep now p live d e h =
    elim (Option-cases (find session_key p.session_id d.admin_sessions.rows)) [
      | inl gone ↦ ground (arith, gone, h)
      | inr (s, found) ↦
          let (g, h1) =
            raise_if-eq-ok (not (is_own p s)) admin_session_required _ d (rw found at h) in
          let (o, d1, q, h2) =
            >>=-eq-ok (require_live_session now s) (when_live now s false (λ _. true)) d h1 in
          live-StaffStep now s false (λ _. true) live d d1 e o q h2
    ]

pub logout-StaffStep :
    (now : ℕ) (p : Principal) (u : Unit {0}) (d e : Database)
    → revoke_admin_session now p d ≡ ok (u, e)
    → StaffStep none d e
unfolding revoke_admin_session
logout-StaffStep now p u d e h =
    elim (Option-cases (find session_key p.session_id d.admin_sessions.rows)) [
      | inl gone ↦ same (ground (arith, gone, h)) (ground (arith, gone, h))
      | inr (s, found) ↦
          elim (Bool-cases (s.admin_id == p.admin_id && not (is_some s.revoked_at))) [
            | inl own ↦
                closed now (closed_at now s) refl (ground (arith, found, own, h))
                  (ground (arith, found, own, h))
            | inr other ↦ same (ground (arith, found, other, h)) (ground (arith, found, other, h))
          ]
    ]

pub logout_all-StaffStep :
    (now : ℕ) (p : Principal) (u : Unit {0}) (d e : Database)
    → logout_all_admin_sessions now p d ≡ ok (u, e)
    → StaffStep none d e
unfolding logout_all_admin_sessions get_current_admin load_live_admin revoke_all_admin_sessions
logout_all-StaffStep now p u d e h = elim (Option-cases (find admin_key p.admin_id d.admins.rows)) [
  | inl gone ↦ ground (arith, gone, h)
  | inr (a, found) ↦
      reset now a (next_epoch a)
        (record {
          id = refl;
          stored = ground (arith, found, find_key admin_key p.admin_id d.admins.rows a);
          guarded = λ x y. cc;
        })
        (ground (arith, found, h)) (ground (arith, found, h))
]

module _ (sha256 : Text → Text) where
  pub login-StaffStep :
      (raw csrf : Text) (now k : ℕ) (r : Principal × Text) (d e : Database)
      → create_admin_session sha256 raw csrf now k d ≡ ok (r, e)
      → StaffStep (some k) d e
  unfolding create_admin_session
  login-StaffStep raw csrf now k r d e h = elim (Option-cases (find admin_key k d.admins.rows)) [
    | inl gone ↦ ground (arith, gone, h)
    | inr (a, found) ↦
        opened (new_session sha256 now raw csrf a d.admin_sessions.next) a
          (ground (arith, found, find_key admin_key k d.admins.rows a)) (ground (arith, found, h))
          (ground (arith, found, find_key admin_key k d.admins.rows a)) (ground (arith, found, h))
          (ground (arith, found, h))
  ]

  -- What a token is resolved to: the live session that has it.
  abbrev pub IsResolved : ℕ → Text → Principal → Database → Type 0
  IsResolved now raw p d =
      (s : AdminSession) × (a : Admin) × (find_by (has_token sha256 raw) d.admin_sessions.rows
        ≡ some s)
      × LiveSession now s a d
      × (p ≡ principal_of s a)

  pub resolve-some :
      (now : ℕ) (raw : Text) (p : Principal) (d e : Database)
      → resolve_admin_session sha256 now raw d ≡ ok (some p, e)
      → IsResolved now raw p d
  unfolding resolve_admin_session
  resolve-some now raw p d e h =
      let (g, h1) = raise_if-eq-ok (not (is_raw_token raw)) admin_session_required _ d h in
      elim (Option-cases (find_by (has_token sha256 raw) d.admin_sessions.rows)) [
        | inl gone ↦ ground (arith, gone, h1)
        | inr (s, found) ↦
            let (o, d1, q, h2) =
              >>=-eq-ok (require_live_session now s)
                (when_live now s none (λ a. some (principal_of s a))) d (rw found at h1) in
            live_found s found o d1 q h2
      ]
    where
      live_found :
          (s : AdminSession)
          → find_by (has_token sha256 raw) d.admin_sessions.rows ≡ some s
          → (o : Option Admin) (d1 : Database) → require_live_session now s d ≡ ok (o, d1)
          → when_live now s none (λ a. some (principal_of s a)) o d1 ≡ ok (some p, e)
          → IsResolved now raw p d
      live_found s found none d1 q h = ground (arith, h)
      live_found s found (some a) d1 q h =
          let (u, d2, q2, h2) =
            >>=-eq-ok (extend_idle_expiry now s) (λ _. pure (some (principal_of s a))) d1 h in
          (s, a, found, (require_live-some now s a d d1 q).0, ground (arith, h2))

  pub resolve-StaffStep :
      (now : ℕ) (raw : Text) (o : Option Principal) (d e : Database)
      → resolve_admin_session sha256 now raw d ≡ ok (o, e)
      → StaffStep none d e
  unfolding resolve_admin_session
  resolve-StaffStep now raw o d e h =
      let (g, h1) = raise_if-eq-ok (not (is_raw_token raw)) admin_session_required _ d h in
      elim (Option-cases (find_by (has_token sha256 raw) d.admin_sessions.rows)) [
        | inl gone ↦ ground (arith, gone, h1)
        | inr (s, found) ↦
            let (l, d1, q, h2) =
              >>=-eq-ok (require_live_session now s)
                (when_live now s none (λ a. some (principal_of s a))) d (rw found at h1) in
            live-StaffStep now s none (λ a. some (principal_of s a)) o d d1 e l q h2
      ]
