-- ===== src/Staff/TeamWrites.antt =====
-- The calls of backend/app/services/admin_team_service.py as steps.
use kans_shop.Prelude.{
  ℕ, ◌≡◌, refl, true, false, ◌&&◌, none, some, Text, find, leb, update, arith, find_key, Bool-cases,
  ◌⊎◌, inl, inr,
}
use kans_shop.Enums.{AdminRole}
use kans_shop.Models.{Database, Admin, team_update}
use kans_shop.Exec.{ok, pure, raise_if-eq-ok, last_superadmin_required, ◌>>◌, >>=-eq-ok}
use kans_shop.Session.{next_epoch, revoke_all}
use kans_shop.Repositories.{admin_key}
use kans_shop.Team.{
  update_admin, role_eq, update_found, write_update, write_changes, is_reauthorized, has_changed,
  deactivates_self, notify_current_admins, changed, loses_superadmin, load_actor, load_target,
  active_superadmin_count, audit_and_notify, revoke_sessions_and_advance_epoch, AdminChanges,
}
use kans_shop.Audit.{write_audit_event}
use kans_shop.Staff.Frame.{SameStaff, audit-SameStaff, notify-SameStaff, audit_and_notify-SameStaff}
use kans_shop.Staff.Step.{StaffStep, same, renamed, reset}
use kans_shop.Staff.AccountWrites.{load_actor_same, load_target_inv}

-- What an update writes: the new row, with the sessions closed if it is authorized anew.
UpdateOf : ℕ → Admin → Admin → Database → Database → Type 0
UpdateOf now a b d e =
    ((is_reauthorized a b ≡ true)
      × (e.admins ≡ update admin_key (next_epoch b) d.admins)
      × (e.admin_sessions ≡ revoke_all now b.id d.admin_sessions))
    ⊎ ((is_reauthorized a b ≡ false)
        × (e.admins ≡ update admin_key b d.admins)
        × (e.admin_sessions ≡ d.admin_sessions))

write_changes_inv :
    (now : ℕ) (a b : Admin) (d e : Database) (u : Unit {0})
    → write_changes now a b d ≡ ok (u, e)
    → UpdateOf now a b d e
unfolding revoke_sessions_and_advance_epoch UpdateOf
write_changes_inv now a b d e u h = elim (Bool-cases (is_reauthorized a b)) [
  | inl anew ↦ inl (anew, ground (arith, anew, h), ground (arith, anew, h))
  | inr as_before ↦ inr (as_before, ground (arith, as_before, h), ground (arith, as_before, h))
]

written_between :
    (now : ℕ) (a b : Admin) (d1 d2 d3 d4 : Database)
    → SameStaff d1 d2
    → UpdateOf now a b d2 d3
    → SameStaff d3 d4
    → UpdateOf now a b d1 d4
unfolding UpdateOf
written_between now a b d1 d2 d3 d4 p w q = ground (arith, p, w, q)

write_update_inv :
    (request : Text) (now actor : ℕ) (a b n : Admin) (d d' : Database)
    → write_update request now actor a b d ≡ ok (n, d')
    → UpdateOf now a b d d'
unfolding write_update
write_update_inv request now actor a b n d d' h = elim (Bool-cases (deactivates_self actor a b)) [
  | inl self ↦
      let (e, d1, q1, h1) =
        >>=-eq-ok (write_audit_event actor team_update a.id request)
          (λ e. write_changes now a b >> (notify_current_admins actor e >> pure b)) d
          (rw self at h) in
      let (u, d2, q2, h2) =
        >>=-eq-ok (write_changes now a b) (λ _. notify_current_admins actor e >> pure b) d1 h1 in
      let (v, d3, q3, h3) = >>=-eq-ok (notify_current_admins actor e) (λ _. pure b) d2 h2 in
      let s3 = notify-SameStaff actor e d2 d3 v q3 in
      written_between now a b d d1 d2 d' (audit-SameStaff actor team_update a.id request d d1 e q1)
        (write_changes_inv now a b d1 d2 u q2) (ground (arith, s3, h3))
  | inr other ↦
      let (u, d1, q1, h1) =
        >>=-eq-ok (write_changes now a b)
          (λ _. audit_and_notify request actor team_update a.id >> pure b) d (rw other at h) in
      let (e, d2, q2, h2) =
        >>=-eq-ok (audit_and_notify request actor team_update a.id) (λ _. pure b) d1 h1 in
      let s2 = audit_and_notify-SameStaff request actor team_update a.id d1 d2 e q2 in
      written_between now a b d d d1 d' (refl, refl) (write_changes_inv now a b d d1 u q1)
        (ground (arith, s2, h2))
]

role_eq-eq : (r s : AdminRole) → role_eq r s ≡ true → r ≡ s
role_eq-eq r s h = ground (arith, h)

written-StaffStep :
    (now k : ℕ) (a b : Admin) (d d' : Database)
    → find admin_key k d.admins.rows ≡ some a
    → b.id ≡ a.id
    → b.auth_epoch ≡ a.auth_epoch
    → (loses_superadmin a b && leb (active_superadmin_count d) 1) ≡ false
    → UpdateOf now a b d d'
    → StaffStep none d d'
unfolding UpdateOf
written-StaffStep now k a b d d' f i ep g (inl (anew, p, q)) =
    reset now a (next_epoch b)
      (record {
        id = i;
        stored = ground (arith, f, find_key admin_key k d.admins.rows a);
        guarded = λ x y. ground (arith, x, y, g);
      })
      (ground (arith, p)) (ground (arith, q, i))
written-StaffStep now k a b d d' f i ep g (inr (as_before, p, q)) =
    renamed a b
      (record {
        id = i;
        stored = ground (arith, f, find_key admin_key k d.admins.rows a);
        role = ground (arith, as_before, role_eq-eq a.role b.role);
        active = ground (arith, as_before);
        epoch = ep;
      })
      (ground (arith, p)) (ground (arith, q))

pub update-StaffStep :
    (request : Text) (now actor k : ℕ) (c : AdminChanges) (n : Admin) (d d' : Database)
    → update_admin request now actor k c d ≡ ok (n, d')
    → StaffStep none d d'
unfolding update_admin
update-StaffStep request now actor k c n d d' h =
    let (a, d1, q1, h1) = >>=-eq-ok (load_actor actor) _ d h in
    let (t, d2, q2, h2) = >>=-eq-ok (load_target k) _ d1 h1 in
    let (g3, h3) =
      raise_if-eq-ok (loses_superadmin t (changed c t) && leb (active_superadmin_count d2) 1)
        last_superadmin_required (update_found request now a.id t (changed c t)) d2 h2 in
    written_found a.id d1 d2 t (load_actor_same actor d d1 a q1) (load_target_inv k d1 d2 t q2) g3
      h3
  where
    written_found :
        (actor : ℕ) (d1 d2 : Database) (t : Admin)
        → d1 ≡ d
        → (find admin_key k d1.admins.rows ≡ some t) × (d2 ≡ d1)
        → (loses_superadmin t (changed c t) && leb (active_superadmin_count d2) 1) ≡ false
        → update_found request now actor t (changed c t) d2 ≡ ok (n, d')
        → StaffStep none d d'
    written_found actor d1 d2 t p f g h = elim (Bool-cases (has_changed t (changed c t))) [
      | inl some_field ↦
          written-StaffStep now k t (changed c t) d d' (ground (arith, p, f)) refl refl
            (rw (f.1, p) at g)
            (write_update_inv request now actor t (changed c t) n d d'
              (rw (some_field, f.1, p) at h))
      | inr no_field ↦ same (ground (arith, p, f, no_field, h)) (ground (arith, p, f, no_field, h))
    ]
