-- ===== src/Catalog/TreeFrame.antt =====
-- What the loads, the checks and the audit in backend/app/services/admin_catalog_service.py leave alone.
use kans_shop.Prelude.{
  ℕ, ◌≡◌, refl, Option, none, some, List, [], Text, find, is_number, arith, inl, inr, Option-cases,
}
use kans_shop.Models.{Database, Admin, Category, AuditAction}
use kans_shop.Exec.{ok, catalog_edit_conflict, >>=-eq-ok, raise_if-eq-ok}
use kans_shop.Outbox.{load_live_admin}
use kans_shop.Audit.{write_audit_event}
use kans_shop.Catalog.{load_actor, catalog_audit, category_key, load_category, check_edit_version}
use kans_shop.Catalog.Parent.{
  check_parent_change, check_exists, raise_climbed, climb, climb_fuel, Climbed, clear, below,
  cyclic, unfinished,
}
use kans_shop.Catalog.Step.{categories_of, ParentIsThere}

pub load_actor_same : (k : ℕ) (d d' : Database) (a : Admin) → load_actor k d ≡ ok (a, d') → d' ≡ d
unfolding load_actor load_live_admin
load_actor_same k d d' a h = ground arith

pub load_category_inv :
    (k : ℕ) (d d' : Database) (c : Category)
    → load_category k d ≡ ok (c, d')
    → (find category_key k (categories_of d) ≡ some c) × (d' ≡ d)
unfolding load_category
load_category_inv k d d' c h = ground arith

pub catalog_audit_same :
    (request : Text) (admin : ℕ) (action : AuditAction) (resource : ℕ) (d d' : Database)
    (u : Unit {0})
    → catalog_audit request admin action resource d ≡ ok (u, d')
    → d'.categories ≡ d.categories
unfolding catalog_audit write_audit_event load_live_admin
catalog_audit_same request admin action resource d d' u h = ground arith

pub check_version_same :
    (j k : ℕ) (d d' : Database) (u : Unit {0}) → check_edit_version j k d ≡ ok (u, d') → d' ≡ d
unfolding check_edit_version
check_version_same j k d d' u h = ground arith

-- A parent that passes the check is there, and the walk from it was clear.
pub parent_change_inv :
    (rows : List Category) (k : ℕ) (parent : Option ℕ) (d d' : Database) (u : Unit {0})
    → check_parent_change rows k parent d ≡ ok (u, d')
    → ParentIsThere rows parent × (climb (climb_fuel rows) k rows [] parent ≡ clear) × (d' ≡ d)
unfolding check_parent_change
parent_change_inv rows k parent d d' u h =
    let (g, h1) = raise_if-eq-ok (is_number k parent) catalog_edit_conflict _ d h in
    let (v, d1, q, h2) = >>=-eq-ok (check_exists rows parent) _ d h1 in
    let (ex, s1) = exists_inv parent v d1 q in
    let (cl, s2) = clear_inv (climb (climb_fuel rows) k rows [] parent) d1 h2 in
    (ex, cl, ground (arith, s1, s2))
  where
    exists_inv :
        (parent : Option ℕ) (v : Unit {0}) (d1 : Database)
        → check_exists rows parent d ≡ ok (v, d1)
        → ParentIsThere rows parent × (d1 ≡ d)
    exists_inv none v d1 q = ((λ j e. cc), ground (arith, q))
    exists_inv (some j) v d1 q = elim (Option-cases (find category_key j rows)) [
      | inl gone ↦ ground (arith, gone, q)
      | inr (c, f) ↦ ((λ i e. (c, ground (arith, e, f))), ground (arith, f, q))
    ]

    clear_inv :
        (w : Climbed) (d1 : Database) → raise_climbed w d1 ≡ ok (u, d') → (w ≡ clear) × (d' ≡ d1)
    clear_inv clear d1 q = (refl, ground (arith, q))
    clear_inv below d1 q = cc
    clear_inv cyclic d1 q = cc
    clear_inv unfinished d1 q = cc
