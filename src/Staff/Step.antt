-- ===== src/Staff/Step.antt =====
-- What one call of the staff's services writes to the accounts and the sessions.
use kans_shop.Prelude.{
  without, ℕ, ◌≡◌, true, false, not, Option, some, List, [], ◌∷◌, ◌++◌, find, select, map, update,
  ◌==◌, ◌<◌,
}
use kans_shop.Models.{Database, Admin, AdminSession}
use kans_shop.Repositories.{admin_key}
use kans_shop.Session.{session_key, is_current, revoked, next_epoch}
use kans_shop.Team.{is_active_superadmin, active_superadmin_count}

-- The rows of the accounts and of the sessions.
abbrev pub staff_of : Database → List Admin
staff_of d = d.admins.rows

abbrev pub sessions_of : Database → List AdminSession
sessions_of d = d.admin_sessions.rows

-- A session with another end.
pub record IsProlonged (s t : AdminSession) : Type 0 where
  pub id : t.id ≡ s.id
  pub admin : t.admin_id ≡ s.admin_id
  pub epoch : t.auth_epoch ≡ s.auth_epoch
  pub live : t.revoked_at ≡ s.revoked_at

pub record IsDemotion (d : Database) (a b : Admin) : Type 0 where
  pub id : b.id ≡ a.id
  pub stored : find admin_key a.id (staff_of d) ≡ some a
  pub guarded :
      is_active_superadmin a ≡ true → is_active_superadmin b ≡ false → 1 < active_superadmin_count d

pub record IsRenaming (d : Database) (a b : Admin) : Type 0 where
  pub id : b.id ≡ a.id
  pub stored : find admin_key a.id (staff_of d) ≡ some a
  pub role : b.role ≡ a.role
  pub active : b.is_active ≡ a.is_active
  pub epoch : b.auth_epoch ≡ a.auth_epoch

-- `who` is the administrator who logs in by the step.
pub data StaffStep (who : Option ℕ) (d e : Database) : Type 0 where
  same : staff_of e ≡ staff_of d → sessions_of e ≡ sessions_of d → StaffStep who d e
  added :
      (a : Admin)
      → staff_of e ≡ staff_of d ++ a ∷ []
      → sessions_of e ≡ sessions_of d
      → StaffStep who d e
  renamed :
      (a b : Admin)
      → IsRenaming d a b
      → staff_of e ≡ (update admin_key b d.admins).rows
      → sessions_of e ≡ sessions_of d
      → StaffStep who d e
  reset :
      (now : ℕ) (a b : Admin)
      → IsDemotion d a b
      → staff_of e ≡ (update admin_key b d.admins).rows
      → sessions_of e ≡ map (revoked now a.id) (sessions_of d)
      → StaffStep who d e
  removed :
      (now : ℕ) (a : Admin)
      → find admin_key a.id (staff_of d) ≡ some a
      → (is_active_superadmin a ≡ true → 1 < active_superadmin_count d)
      → staff_of e ≡ without admin_key a.id (update admin_key (next_epoch a) d.admins).rows
      → sessions_of e
        ≡ select (λ s. not (s.admin_id == a.id)) (map (revoked now a.id) (sessions_of d))
      → StaffStep who d e
  opened :
      (s : AdminSession) (a : Admin)
      → find admin_key s.admin_id (staff_of d) ≡ some a
      → is_current s a ≡ true
      → who ≡ some s.admin_id
      → staff_of e ≡ staff_of d
      → sessions_of e ≡ sessions_of d ++ s ∷ []
      → StaffStep who d e
  closed :
      (now : ℕ) (t : AdminSession)
      → t.revoked_at ≡ some now
      → staff_of e ≡ staff_of d
      → sessions_of e ≡ (update session_key t d.admin_sessions).rows
      → StaffStep who d e
  prolonged :
      (s t : AdminSession)
      → find session_key s.id (sessions_of d) ≡ some s
      → IsProlonged s t
      → staff_of e ≡ staff_of d
      → sessions_of e ≡ (update session_key t d.admin_sessions).rows
      → StaffStep who d e
