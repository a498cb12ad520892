-- ===== src/Staff/Current.antt =====
-- The sessions that are not revoked, against the accounts (backend/app/services/admin_session_service.py
-- and admin_team_service.py).
use kans_shop.Prelude.{
  without, find-without, ℕ, ◌≡◌, refl, sym, ◌∙◌, true, not, Option, none, some, List, [], ◌∷◌, ◌++◌,
  map, find, select, replace, find-replace_self, find-replace_ne, find-append_some, All, All-append,
  All-replace, All-find, All-map, All-weaken, All-select, arith, inl, inr, Bool-cases, ◌==◌, Text,
}
use mathlib.Core.Path.{subst}
use kans_shop.Models.{Database, Admin, AdminSession}
use kans_shop.Repositories.{admin_key}
use kans_shop.Session.{session_key, revoked, next_epoch}
use kans_shop.Staff.{StaffCall, staff_call, staff_calls}
use kans_shop.Staff.Closed.{AllClose, calls-AllClose}
use kans_shop.Staff.Step.{
  StaffStep, same, added, renamed, reset, removed, opened, closed, prolonged, IsProlonged, staff_of,
  sessions_of,
}
use kans_shop.Staff.Steps.{login_of, staff_call-StaffStep}

-- A session that is not revoked is of an active administrator, in the epoch that they have.
unfoldable pub IsCurrentIn : List Admin → AdminSession → Type 0
IsCurrentIn admins s =
    s.revoked_at ≡ none
    → (a : Admin) × (find admin_key s.admin_id admins ≡ some a)
      × (a.is_active ≡ true)
      × (a.auth_epoch ≡ s.auth_epoch)

unfoldable pub AllCurrent : Database → Type 0
AllCurrent d = All (IsCurrentIn (staff_of d)) (sessions_of d)

-- What the writes of the accounts leave of a session that is current.
module _ (admins : List Admin) where
  unless_closed :
      (now : ℕ) (a b : Admin) (s : AdminSession)
      → b.id ≡ a.id
      → IsCurrentIn admins s
      → IsCurrentIn (replace admin_key b admins) (revoked now a.id s)
  unfolding IsCurrentIn
  unless_closed now a b s i h live = elim (Bool-cases (s.admin_id == a.id)) [
    | inl own ↦ ground (arith, own, live)
    | inr other ↦
        let (c, f, active, epoch) = h (ground (arith, other, live)) in
        let g = find-replace_ne admin_key s.admin_id b admins (ground (arith, i, other)) in
        (c, ground (arith, f, g, other), active, ground (arith, other, epoch))
  ]

  unless_removed :
      (k : ℕ) (s : AdminSession)
      → not (s.admin_id == k) ≡ true
      → IsCurrentIn admins s
      → IsCurrentIn (without admin_key k admins) s
  unfolding IsCurrentIn
  unless_removed k s other h live =
      let (c, f, active, epoch) = h live in
      (c, find-without admin_key s.admin_id k admins (ground (arith, other)) ∙ f, active, epoch)

  once_renamed :
      (a b : Admin) (s : AdminSession)
      → b.id ≡ a.id
      → find admin_key a.id admins ≡ some a
      → b.is_active ≡ a.is_active
      → b.auth_epoch ≡ a.auth_epoch
      → IsCurrentIn admins s
      → IsCurrentIn (replace admin_key b admins) s
  unfolding IsCurrentIn
  once_renamed a b s i stored act ep h live =
      let (c, f, active, epoch) = h live in
      elim (Bool-cases (s.admin_id == a.id)) [
        | inl own ↦
            let g = find-replace_self admin_key s.admin_id b admins c f (ground (arith, own, i)) in
            (
              b,
              g,
              ground (arith, own, f, stored, act, active),
              ground (arith, own, f, stored, ep, epoch),
            )
        | inr other ↦
            let g = find-replace_ne admin_key s.admin_id b admins (ground (arith, i, other)) in
            (c, g ∙ f, active, epoch)
      ]

  once_added :
      (a : Admin) (s : AdminSession) → IsCurrentIn admins s → IsCurrentIn (admins ++ a ∷ []) s
  unfolding IsCurrentIn
  once_added a s h live =
      let (c, f, active, epoch) = h live in
      (c, find-append_some admin_key s.admin_id a admins c f, active, epoch)

-- By the rows that a step leaves.
AllCurrentIn : List Admin → List AdminSession → Type 0
AllCurrentIn admins rows = All (IsCurrentIn admins) rows

leaves :
    (d e : Database) (admins : List Admin) (rows : List AdminSession)
    → staff_of e ≡ admins
    → sessions_of e ≡ rows
    → AllCurrentIn admins rows
    → AllCurrent e
unfolding AllCurrent AllCurrentIn
leaves d e admins rows p q h =
    subst (λ a. AllCurrentIn a (sessions_of e)) (sym p) (subst (AllCurrentIn admins) (sym q) h)

step-AllCurrent :
    (who : Option ℕ) (d e : Database) → StaffStep who d e → AllCurrent d → AllCurrent e
unfolding AllCurrent AllCurrentIn IsCurrentIn
step-AllCurrent who d e (same p q) h = leaves d e (staff_of d) (sessions_of d) p q h
step-AllCurrent who d e (added a p q) h = leaves d e (staff_of d ++ a ∷ []) (sessions_of d) p q (
    All-weaken (IsCurrentIn (staff_of d)) (IsCurrentIn (staff_of d ++ a ∷ [])) (sessions_of d)
      (once_added (staff_of d) a) h)
step-AllCurrent who d e (renamed a b r p q) h =
    leaves d e (replace admin_key b (staff_of d)) (sessions_of d) p q (
      All-weaken (IsCurrentIn (staff_of d)) (IsCurrentIn (replace admin_key b (staff_of d)))
        (sessions_of d) (λ s. once_renamed (staff_of d) a b s r.id r.stored r.active r.epoch) h)
step-AllCurrent who d e (reset now a b r p q) h =
    leaves d e (replace admin_key b (staff_of d)) (map (revoked now a.id) (sessions_of d)) p q (
      All-map (IsCurrentIn (staff_of d)) (IsCurrentIn (replace admin_key b (staff_of d)))
        (revoked now a.id) (sessions_of d) (λ s. unless_closed (staff_of d) now a b s r.id) h)
step-AllCurrent who d e (removed now a f g p q) h =
    let admins : List Admin = replace admin_key (next_epoch a) (staff_of d) in
    let rows : List AdminSession = map (revoked now a.id) (sessions_of d) in
    leaves d e (without admin_key a.id admins) (select (λ s. not (s.admin_id == a.id)) rows) p q (
      All-select (IsCurrentIn admins) (IsCurrentIn (without admin_key a.id admins))
        (λ s. not (s.admin_id == a.id)) rows (unless_removed admins a.id)
        (All-map (IsCurrentIn (staff_of d)) (IsCurrentIn admins) (revoked now a.id) (sessions_of d)
          (λ s. unless_closed (staff_of d) now a (next_epoch a) s refl) h))
step-AllCurrent who d e (opened s a f c w p q) h =
    leaves d e (staff_of d) (sessions_of d ++ s ∷ []) p q (
      All-append (IsCurrentIn (staff_of d)) (sessions_of d) (s ∷ []) h
        ((λ live. (a, f, ground (arith, c), ground (arith, c))), tt))
step-AllCurrent who d e (closed now t c p q) h =
    leaves d e (staff_of d) (replace session_key t (sessions_of d)) p q (
      All-replace (IsCurrentIn (staff_of d)) session_key t (sessions_of d)
        (λ live. ground (arith, c, live)) h)
step-AllCurrent who d e (prolonged s t f k p q) h =
    let of_s : IsCurrentIn (staff_of d) s =
      All-find (IsCurrentIn (staff_of d)) session_key s.id (sessions_of d) s f h in
    leaves d e (staff_of d) (replace session_key t (sessions_of d)) p q (
      All-replace (IsCurrentIn (staff_of d)) session_key t (sessions_of d)
        (λ live. still t k (of_s (ground (arith, k.live, live)))) h)
  where
    still :
        (t : AdminSession)
        → IsProlonged s t
        → (a : Admin) × (find admin_key s.admin_id (staff_of d) ≡ some a)
          × (a.is_active ≡ true)
          × (a.auth_epoch ≡ s.auth_epoch)
        → (a : Admin) × (find admin_key t.admin_id (staff_of d) ≡ some a)
          × (a.is_active ≡ true)
          × (a.auth_epoch ≡ t.auth_epoch)
    still t k (a, f, active, epoch) =
        (a, ground (arith, f, k.admin), active, ground (arith, epoch, k.epoch))

module _ (sha256 : Text → Text) (webapp_origin : Text) where
  calls-AllCurrent :
      (cs : List StaffCall) (d : Database)
      → AllCurrent d
      → AllCurrent (staff_calls sha256 webapp_origin cs d)
  unfolding staff_calls
  calls-AllCurrent [] d h = h
  calls-AllCurrent (c ∷ cs) d h = calls-AllCurrent cs (staff_call sha256 webapp_origin c d) (
      step-AllCurrent (login_of c) d (staff_call sha256 webapp_origin c d)
        (staff_call-StaffStep sha256 webapp_origin c d) h)

  -- If every session that is not revoked is of an active administrator with the session's epoch,
  -- then it is so after any sequence of the calls on accounts and sessions. Each call of the
  -- sequence that leaves an administrator removed, or with another role, activity or epoch, leaves
  -- no session of that administrator unrevoked; so does each removal, revocation or logout
  -- everywhere, unless it raises.
  pub staff_calls-AllCurrent :
      (cs : List StaffCall) (d : Database)
      → AllCurrent d
      → AllCurrent (staff_calls sha256 webapp_origin cs d) × AllClose sha256 webapp_origin cs d
  staff_calls-AllCurrent cs d h =
      (calls-AllCurrent cs d h, calls-AllClose sha256 webapp_origin cs d)
