-- ===== src/Staff/AccountWrites.antt =====
-- The calls of backend/app/services/admin_team_service.py that add, remove and revoke, as steps.
use kans_shop.Prelude.{
  ℕ, ◌≡◌, ◌<◌, refl, ap, insert, true, false, not, without, select, map, ◌&&◌, none, some, Text,
  find, leb, ltb, ◌==◌, is_some, find_by, is_empty, length, update, ◌||◌, arith, find_key,
}
use kans_shop.Enums.{AdminRole}
use kans_shop.Models.{Database, Admin, sessions_revoke, team_add, team_remove}
use kans_shop.Exec.{
  ok, err, pure, raise_if-eq-ok, value_error, forbidden, admin_already_exists,
  last_superadmin_required, >>=-eq-ok,
}
use kans_shop.Prelude.Parse.{strip}
use kans_shop.Session.{next_epoch, revoke_all, revoked}
use kans_shop.Repositories.{admin_key}
use kans_shop.Outbox.{load_live_admin}
use kans_shop.Team.{
  new_admin, delete_admin, remove_admin, is_active_superadmin, load_actor, load_target,
  active_superadmin_count, add_admin, audit_and_notify, revoke_admin_sessions,
  revoke_sessions_and_advance_epoch,
}
use kans_shop.Staff.Frame.{SameStaff, audit_and_notify-SameStaff}
use kans_shop.Staff.Step.{StaffStep, added, reset, removed, staff_of, sessions_of}

pub load_actor_same : (k : ℕ) (d d' : Database) (a : Admin) → load_actor k d ≡ ok (a, d') → d' ≡ d
unfolding load_actor load_live_admin
load_actor_same k d d' a h = ground arith

pub load_target_inv :
    (k : ℕ) (d d' : Database) (a : Admin)
    → load_target k d ≡ ok (a, d')
    → (find admin_key k d.admins.rows ≡ some a) × (d' ≡ d)
unfolding load_target
load_target_inv k d d' a h = ground arith

pub advance_epoch_inv :
    (now n : ℕ) (a : Admin) (d d' : Database)
    → revoke_sessions_and_advance_epoch now a d ≡ ok (n, d')
    → (d'.admins ≡ update admin_key (next_epoch a) d.admins)
      × (d'.admin_sessions ≡ revoke_all now a.id d.admin_sessions)
unfolding revoke_sessions_and_advance_epoch
advance_epoch_inv now n a d d' h = ground arith

pub revoke_inv :
    (request : Text) (now actor k n : ℕ) (d d' : Database)
    → revoke_admin_sessions request now actor k d ≡ ok (n, d')
    → (t : Admin) × (find admin_key k d.admins.rows ≡ some t)
      × (d'.admins ≡ update admin_key (next_epoch t) d.admins)
      × (d'.admin_sessions ≡ revoke_all now t.id d.admin_sessions)
unfolding revoke_admin_sessions
revoke_inv request now actor k n d d' h =
    let (a, d1, q1, h1) = >>=-eq-ok (load_actor actor) _ d h in
    let (t, d2, q2, h2) = >>=-eq-ok (load_target k) _ d1 h1 in
    let (c, d3, q3, h3) = >>=-eq-ok (revoke_sessions_and_advance_epoch now t) _ d2 h2 in
    let (e, d4, q4, h4) = >>=-eq-ok (audit_and_notify request a.id sessions_revoke t.id) _ d3 h3 in
    let s1 = load_actor_same actor d d1 a q1 in
    let s2 = load_target_inv k d1 d2 t q2 in
    let s3 = advance_epoch_inv now c t d2 d3 q3 in
    let s4 = audit_and_notify-SameStaff request a.id sessions_revoke t.id d3 d4 e q4 in
    (
      t,
      ground (arith, s1, s2),
      ground (arith, s1, s2, s3, s4, h4),
      ground (arith, s1, s2, s3, s4, h4),
    )

pub revoke-StaffStep :
    (request : Text) (now actor k n : ℕ) (d d' : Database)
    → revoke_admin_sessions request now actor k d ≡ ok (n, d')
    → StaffStep none d d'
revoke-StaffStep request now actor k n d d' h =
    let (t, f, p, q) = revoke_inv request now actor k n d d' h in
    reset now t (next_epoch t)
      (record {
        id = refl;
        stored = ground (arith, f, find_key admin_key k d.admins.rows t);
        guarded = λ x y. cc;
      })
      (ground (arith, p)) (ground (arith, q))

pub add-StaffStep :
    (request : Text) (actor telegram_id : ℕ) (name : Text) (role : AdminRole) (n : Admin)
    (d d' : Database)
    → add_admin request actor telegram_id name role d ≡ ok (n, d')
    → StaffStep none d d'
unfolding add_admin
add-StaffStep request actor telegram_id name role n d d' h =
    let new : ℕ → Admin = new_admin telegram_id (strip name) role in
    let (a, d1, q1, h1) = >>=-eq-ok (load_actor actor) _ d h in
    let (g2, h2) = raise_if-eq-ok (telegram_id == 0) value_error _ d1 h1 in
    let (g3, h3) =
      raise_if-eq-ok (is_empty (strip name) || ltb 128 (length (strip name))) value_error _ d1 h2 in
    let (g4, h4) =
      raise_if-eq-ok (is_some (find_by (λ b. b.telegram_id == telegram_id) d1.admins.rows))
        admin_already_exists _ d1 h3 in
    let (e, d2, q2, h5) =
      >>=-eq-ok (audit_and_notify request a.id team_add d1.admins.next)
        (λ _. pure (new d1.admins.next)) (record d1 { admins = insert new d1.admins }) h4 in
    added_step d d1 d2 d' new (load_actor_same actor d d1 a q1)
      (audit_and_notify-SameStaff request a.id team_add d1.admins.next
        (record d1 { admins = insert new d1.admins }) d2 e q2)
      (ap (λ r. elim r [ ok r ↦ r.1 | err _ ↦ d2 ]) h5)
  where
    added_step :
        (d d1 d2 d' : Database) (new : ℕ → Admin)
        → d1 ≡ d
        → SameStaff (record d1 { admins = insert new d1.admins }) d2
        → d2 ≡ d'
        → StaffStep none d d'
    added_step d d1 d2 d' new p s q =
        added (new d.admins.next) (ground (arith, p, s, q)) (ground (arith, p, s, q))

-- What a removal that succeeds has found and done.
pub record Removed (now k : ℕ) (d e : Database) : Type 0 where
  pub target : Admin
  pub found : find admin_key k (staff_of d) ≡ some target
  pub guarded : is_active_superadmin target ≡ true → 1 < active_superadmin_count d
  pub staff :
      staff_of e ≡ without admin_key target.id (update admin_key (next_epoch target) d.admins).rows
  pub sessions :
      sessions_of e
      ≡ select (λ s. not (s.admin_id == target.id)) (map (revoked now target.id) (sessions_of d))

pub remove_inv :
    (request : Text) (now actor k : ℕ) (u : Unit {0}) (d d' : Database)
    → remove_admin request now actor k d ≡ ok (u, d')
    → Removed now k d d'
unfolding remove_admin delete_admin
remove_inv request now actor k u d d' h =
    let (a, d1, q1, h1) = >>=-eq-ok (load_actor actor) _ d h in
    let (g2, h2) = raise_if-eq-ok (k == a.id) forbidden _ d1 h1 in
    let (t, d2, q2, h3) = >>=-eq-ok (load_target k) _ d1 h2 in
    let (g4, h4) =
      raise_if-eq-ok (is_active_superadmin t && leb (active_superadmin_count d2) 1)
        last_superadmin_required _ d2 h3 in
    let (c, d3, q3, h5) = >>=-eq-ok (revoke_sessions_and_advance_epoch now t) _ d2 h4 in
    let (e, d4, q4, h6) =
      >>=-eq-ok (audit_and_notify request a.id team_remove k) (λ _. pure tt) (delete_admin t.id d3)
        h5 in
    removed_step d d1 d2 d3 d4 d' t (load_actor_same actor d d1 a q1) (load_target_inv k d1 d2 t q2)
      g4 (advance_epoch_inv now c t d2 d3 q3)
      (audit_and_notify-SameStaff request a.id team_remove k (delete_admin t.id d3) d4 e q4)
      (ap (λ r. elim r [ ok r ↦ r.1 | err _ ↦ d4 ]) h6)
  where
    removed_step :
        (d d1 d2 d3 d4 d' : Database) (t : Admin)
        → d1 ≡ d
        → (find admin_key k d1.admins.rows ≡ some t) × (d2 ≡ d1)
        → (is_active_superadmin t && leb (active_superadmin_count d2) 1) ≡ false
        → (d3.admins ≡ update admin_key (next_epoch t) d2.admins)
          × (d3.admin_sessions ≡ revoke_all now t.id d2.admin_sessions)
        → SameStaff (delete_admin t.id d3) d4
        → d4 ≡ d'
        → Removed now k d d'
    removed_step d d1 d2 d3 d4 d' t p f g r s q = record {
      target = t;
      found = ground (arith, p, f);
      guarded = λ is. ground (arith, p, f, g, is);
      staff = ground (arith, p, f, r, s, q);
      sessions = ground (arith, p, f, r, s, q);
    }

pub remove-StaffStep :
    (request : Text) (now actor k : ℕ) (u : Unit {0}) (d d' : Database)
    → remove_admin request now actor k d ≡ ok (u, d')
    → StaffStep none d d'
remove-StaffStep request now actor k u d d' h =
    let r = remove_inv request now actor k u d d' h in
    removed now r.target (ground (arith, r.found, find_key admin_key k d.admins.rows r.target))
      r.guarded r.staff r.sessions
