-- ===== src/Staff/Superadmin.antt =====
-- The last superadmin (backend/app/services/admin_team_service.py).
use kans_shop.Prelude.{
  ℕ, ◌+◌, ◌≡◌, refl, Option, some, List, [], ◌∷◌, ◌≤◌, find, replace, count, bit, count-append,
  count-replace, count-without, find-replace_self, arith, Text,
}
use kans_shop.Models.{Database, Admin}
use kans_shop.Repositories.{admin_key}
use kans_shop.Session.{next_epoch}
use kans_shop.Team.{is_active_superadmin, active_superadmin_count}
use kans_shop.Staff.{StaffCall, staff_call, staff_calls}
use kans_shop.Staff.Step.{
  StaffStep, same, added, renamed, reset, removed, opened, closed, prolonged, staff_of,
}
use kans_shop.Staff.Steps.{login_of, staff_call-StaffStep}

superadmins : List Admin → ℕ
superadmins t = count is_active_superadmin t

count-update :
    (d : Database) (a b : Admin)
    → b.id ≡ a.id
    → find admin_key a.id (staff_of d) ≡ some a
    → superadmins (replace admin_key b (staff_of d)) + bit (is_active_superadmin a)
      ≡ superadmins (staff_of d) + bit (is_active_superadmin b)
unfolding superadmins
count-update d a b i f =
    count-replace admin_key is_active_superadmin b (staff_of d) a (ground (arith, i, f))

-- The staff keeps a superadmin in a step.
step-has_superadmin :
    (who : Option ℕ) (d e : Database)
    → StaffStep who d e
    → 1 ≤ superadmins (staff_of d)
    → 1 ≤ superadmins (staff_of e)
unfolding superadmins active_superadmin_count
step-has_superadmin who d e (same p q) h = ground (arith, p, h)
step-has_superadmin who d e (added a p q) h =
    ground (arith, p, h, count-append is_active_superadmin (staff_of d) a)
step-has_superadmin who d e (renamed a b r p q) h =
    ground (arith, p, h, count-update d a b r.id r.stored, r.role, r.active)
step-has_superadmin who d e (reset now a b r p q) h =
    ground (arith, p, h, count-update d a b r.id r.stored, r.guarded)
step-has_superadmin who d e (removed now a f g p q) h =
    let c = count-update d a (next_epoch a) refl f in
    let w =
      count-without admin_key is_active_superadmin a.id
        (replace admin_key (next_epoch a) (staff_of d)) (next_epoch a)
        (find-replace_self admin_key a.id (next_epoch a) (staff_of d) a f refl) in
    ground (arith, p, h, c, w, g)
step-has_superadmin who d e (opened s a f c w p q) h = ground (arith, p, h)
step-has_superadmin who d e (closed now t c p q) h = ground (arith, p, h)
step-has_superadmin who d e (prolonged s t f c p q) h = ground (arith, p, h)

-- If the staff has an active superadmin, it has one after any sequence of the calls on accounts and
-- sessions, whoever makes them and with the ones that raise rolled back.
pub staff_calls-has_superadmin :
    (sha256 : Text → Text) (webapp_origin : Text) (cs : List StaffCall) (d : Database)
    → 1 ≤ active_superadmin_count d
    → 1 ≤ active_superadmin_count (staff_calls sha256 webapp_origin cs d)
unfolding staff_calls active_superadmin_count superadmins
staff_calls-has_superadmin sha256 webapp_origin [] d h = h
staff_calls-has_superadmin sha256 webapp_origin (c ∷ cs) d h =
    staff_calls-has_superadmin sha256 webapp_origin cs (staff_call sha256 webapp_origin c d) (
      step-has_superadmin (login_of c) d (staff_call sha256 webapp_origin c d)
        (staff_call-StaffStep sha256 webapp_origin c d) h)
