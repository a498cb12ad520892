-- ===== src/Staff/Revoked.antt =====
-- The sessions of an administrator after they have been revoked
-- (backend/app/services/admin_team_service.py, and `get_admin_session_principal` of
-- backend/app/api/deps.py).
use kans_shop.Prelude.{
  ℕ, ◌≡◌, ◌≢◌, sym, false, not, Option, none, some, List, [], ◌∷◌, map, find_key, All, All-append,
  All-replace, All-find, All-find_by, All-map, All-select, arith, inl, inr, Bool-cases, ◌==◌, Text,
  is_number,
}
use mathlib.Core.Path.{subst}
use kans_shop.Models.{Database, AdminSession}
use kans_shop.Exec.{ok, Result-cases}
use kans_shop.Repositories.{admin_key}
use kans_shop.Session.{
  session_key, revoked, is_open_of, Principal, get_admin_session_principal, resolve_admin_session,
  passes_csrf, has_token,
}
use kans_shop.Team.{revoke_admin_sessions}
use kans_shop.Staff.{StaffCall, staff_call, staff_calls}
use kans_shop.Staff.Step.{
  StaffStep, same, added, renamed, reset, removed, opened, closed, prolonged, sessions_of,
}
use kans_shop.Staff.Steps.{login_of, staff_call-StaffStep}
use kans_shop.Staff.AccountWrites.{revoke_inv}
use kans_shop.Staff.SessionWrites.{resolve-some}

module _ (k : ℕ) where
  -- The administrator has no session that is not revoked.
  abbrev pub IsShut : AdminSession → Type 0
  IsShut s = is_open_of k s ≡ false

  unfoldable pub AllShut : Database → Type 0
  AllShut d = All IsShut (sessions_of d)

  revoked-IsShut : (now j : ℕ) (s : AdminSession) → IsShut s → IsShut (revoked now j s)
  revoked-IsShut now j s h = ground (arith, h)

  step-AllShut :
      (who : Option ℕ) (d e : Database)
      → StaffStep who d e
      → is_number k who ≡ false
      → AllShut d
      → AllShut e
  unfolding AllShut
  step-AllShut who d e (same p q) n h = subst (All IsShut) (sym q) h
  step-AllShut who d e (added a p q) n h = subst (All IsShut) (sym q) h
  step-AllShut who d e (renamed a b r p q) n h = subst (All IsShut) (sym q) h
  step-AllShut who d e (reset now a b r p q) n h =
      subst (All IsShut) (sym q)
        (All-map IsShut IsShut (revoked now a.id) (sessions_of d) (revoked-IsShut now a.id) h)
  step-AllShut who d e (removed now a f g p q) n h = subst (All IsShut) (sym q) (
      All-select IsShut IsShut (λ s. not (s.admin_id == a.id))
        (map (revoked now a.id) (sessions_of d)) (λ s _ hs. hs)
        (All-map IsShut IsShut (revoked now a.id) (sessions_of d) (revoked-IsShut now a.id) h))
  step-AllShut who d e (opened s a f c w p q) n h =
      subst (All IsShut) (sym q)
        (All-append IsShut (sessions_of d) (s ∷ []) h (ground (arith, w, n), tt))
  step-AllShut who d e (closed now t c p q) n h =
      subst (All IsShut) (sym q)
        (All-replace IsShut session_key t (sessions_of d) (ground (arith, c)) h)
  step-AllShut who d e (prolonged s t f r p q) n h =
      let of_s : IsShut s = All-find IsShut session_key s.id (sessions_of d) s f h in
      subst (All IsShut) (sym q)
        (All-replace IsShut session_key t (sessions_of d) (ground (arith, of_s, r.live, r.admin)) h)

pub map-revoked-All :
    (now k : ℕ) (rows : List AdminSession) → All (IsShut k) (map (revoked now k) rows)
map-revoked-All now k [] = tt
map-revoked-All now k (s ∷ rows) = (ground arith, map-revoked-All now k rows)

-- A revocation that succeeds leaves the administrator no session that is not revoked.
pub revoke-AllShut :
    (request : Text) (now actor k n : ℕ) (d d' : Database)
    → revoke_admin_sessions request now actor k d ≡ ok (n, d')
    → AllShut k d'
unfolding AllShut
revoke-AllShut request now actor k n d d' h =
    let (t, f, admins, sessions) = revoke_inv request now actor k n d d' h in
    let same_id : t.id ≡ k = find_key admin_key k d.admins.rows t f in
    subst (All (IsShut k)) {x = map (revoked now k) (sessions_of d)}
      (ground (arith, sessions, same_id)) (map-revoked-All now k (sessions_of d))

module _ (sha256 : Text → Text) (webapp_origin : Text) (k : ℕ) where
  calls-AllShut :
      (cs : List StaffCall) (d : Database)
      → All (λ c. is_number k (login_of c) ≡ false) cs
      → AllShut k d
      → AllShut k (staff_calls sha256 webapp_origin cs d)
  unfolding staff_calls
  calls-AllShut [] d n h = h
  calls-AllShut (c ∷ cs) d n h = calls-AllShut cs (staff_call sha256 webapp_origin c d) n.1 (
      step-AllShut k (login_of c) d (staff_call sha256 webapp_origin c d)
        (staff_call-StaffStep sha256 webapp_origin c d) n.0 h)

  -- Who has passed has a session that is not revoked.
  shut-principal :
      (now : ℕ) (method : Text) (cookie origin csrf : Option Text) (p : Principal) (d : Database)
      → AllShut k d
      → (get_admin_session_principal sha256 webapp_origin now method cookie origin csrf d).0 ≡ ok p
      → p.admin_id ≢ k
  unfolding get_admin_session_principal AllShut
  shut-principal now method none origin csrf p d shut h is = cc
  shut-principal now method (some raw) origin csrf p d shut h is =
      elim (Result-cases (resolve_admin_session sha256 now raw d)) [
        | inr (x, q) ↦ ground (arith, q, h)
        | inl (none, e, q) ↦ ground (arith, q, h)
        | inl (some o, e, q) ↦ elim (Bool-cases (passes_csrf webapp_origin method origin csrf o)) [
          | inr stop ↦ ground (arith, q, stop, h)
          | inl pass ↦
              let (s, a, found, live, who) = resolve-some sha256 now raw o d e q in
              let of_s : is_open_of k s ≡ false =
                All-find_by (IsShut k) (has_token sha256 raw) (sessions_of d) s found shut in
              ground (
                arith,
                q,
                pass,
                h,
                is,
                who,
                live.stored,
                live.live,
                of_s,
                find_key admin_key s.admin_id d.admins.rows a,
              )
        ]
      ]

  -- After the sessions of an administrator have been revoked, and after any further calls among
  -- which that administrator does not log in, no request with any cookie is taken for that
  -- administrator.
  pub revoked_until_login :
      (request : Text) (now actor n : ℕ) (d d' : Database) (cs : List StaffCall) (later : ℕ)
      (method : Text) (cookie origin csrf : Option Text) (p : Principal)
      → revoke_admin_sessions request now actor k d ≡ ok (n, d')
      → All (λ c. is_number k (login_of c) ≡ false) cs
      → (get_admin_session_principal sha256 webapp_origin later method cookie origin csrf
          (staff_calls sha256 webapp_origin cs d')).0
        ≡ ok p
      → p.admin_id ≢ k
  revoked_until_login request now actor n d d' cs later method cookie origin csrf p h none_of in_ =
      shut-principal later method cookie origin csrf p (staff_calls sha256 webapp_origin cs d')
        (calls-AllShut cs d' none_of (revoke-AllShut request now actor k n d d' h)) in_
