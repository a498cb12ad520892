-- ===== src/Catalog/TreeWrites.antt =====
-- The calls on categories in backend/app/services/admin_catalog_service.py keep the forest.
use kans_shop.Prelude.{
  ℕ, ◌≡◌, refl, ap, sym, false, ◌||◌, Option, none, some, Text, find, find_key, any, insert, update,
  without, is_number, ◌==◌, arith, inl, inr, Bool-cases, ◌⊎◌, ◌∙◌,
}
use mathlib.Core.Path.{subst}
use kans_shop.Models.{Database, Category, category_create, category_update, category_delete}
use kans_shop.Exec.{ok, err, pure, category_in_use, ◌>>◌, >>=-eq-ok, raise_if-eq-ok}
use kans_shop.Catalog.{
  load_actor, catalog_audit, category_key, load_category, check_edit_version, save_category,
}
use kans_shop.Catalog.Parent.{climb_fuel}
use kans_shop.Catalog.Tree.{
  CategoryChanges, changed_category, has_update, next_version, check_new_parent, write_category,
  update_category, delete_category, CategoryCreate, create_category, unique_slug, slugify,
  new_category, load_parent,
}
use kans_shop.Catalog.Step.{
  TreeStep, same, created, kept, moved_below, deleted, categories_of, ParentIsThere, IsRewritten,
}
use kans_shop.Catalog.TreeFrame.{
  load_actor_same, load_category_inv, catalog_audit_same, check_version_same, parent_change_inv,
}

write_category_inv :
    (request : Text) (admin : ℕ) (u : CategoryChanges) (c n : Category) (d d' : Database)
    → write_category request admin u c d ≡ ok (n, d')
    → (d'.categories ≡ d.categories)
      ⊎ (d'.categories ≡ update category_key (next_version (changed_category u c)) d.categories)
write_category_inv request admin u c n d d' h = elim (Bool-cases (has_update u c)) [
  | inr nothing ↦ inl (ground (arith, nothing, h))
  | inl something ↦
      let new : Category = next_version (changed_category u c) in
      let (v, d1, q, h1) =
        >>=-eq-ok (save_category new)
          (λ _. catalog_audit request admin category_update c.id >> pure new) d
          (rw something at h) in
      let (w, d2, q2, h2) =
        >>=-eq-ok (catalog_audit request admin category_update c.id) (λ _. pure new) d1 h1 in
      let s2 = catalog_audit_same request admin category_update c.id d1 d2 w q2 in
      inr (ground (arith, q, s2, h2))
]

written-TreeStep :
    (k : ℕ) (u : CategoryChanges) (c : Category) (d d' : Database)
    → find category_key k (categories_of d) ≡ some c
    → (v : Unit {0}) → check_new_parent k u.parent_id d ≡ ok (v, d)
    → (d'.categories ≡ d.categories)
      ⊎ (d'.categories ≡ update category_key (next_version (changed_category u c)) d.categories)
    → TreeStep d d'
written-TreeStep k u c d d' f v check (inl p) = same p
written-TreeStep k u c d d' f v check (inr p) = by_parent u.parent_id refl
  where
    stored : IsRewritten d c (next_version (changed_category u c))
    stored = record {
      id = refl;
      stored = ground (arith, f, find_key category_key k (categories_of d) c);
    }

    by_parent : (given_parent : Option (Option ℕ)) → u.parent_id ≡ given_parent → TreeStep d d'
    by_parent none e = kept c (next_version (changed_category u c)) stored (ground (arith, e)) p
    by_parent (some parent) e =
        let (ex, walk, s) =
          parent_change_inv (categories_of d) k parent d d v (ground (arith, check, e)) in
        moved_below (climb_fuel (categories_of d)) c (next_version (changed_category u c)) stored
          (subst (ParentIsThere (categories_of d)) {x = parent} (ground (arith, e)) ex)
          (ground (arith, walk, e, f, find_key category_key k (categories_of d) c)) p

pub update_category-TreeStep :
    (request : Text) (admin k expected : ℕ) (u : CategoryChanges) (n : Category) (d d' : Database)
    → update_category request admin k expected u d ≡ ok (n, d')
    → TreeStep d d'
unfolding update_category
update_category-TreeStep request admin k expected u n d d' h =
    let (a, d1, q1, h1) = >>=-eq-ok (load_actor admin) _ d h in
    let (c, d2, q2, h2) = >>=-eq-ok (load_category k) _ d1 h1 in
    let (v, d3, q3, h3) = >>=-eq-ok (check_edit_version c.edit_version expected) _ d2 h2 in
    let (w, d4, q4, h4) = >>=-eq-ok (check_new_parent k u.parent_id) _ d3 h3 in
    joined d1 d2 d3 d4 c w (load_actor_same admin d d1 a q1) (load_category_inv k d1 d2 c q2)
      (check_version_same c.edit_version expected d2 d3 v q3) q4
      (new_parent_same u.parent_id w d3 d4 q4) (write_category_inv request admin u c n d4 d' h4)
  where
    new_parent_same :
        (given_parent : Option (Option ℕ)) (w : Unit {0}) (d3 d4 : Database)
        → check_new_parent k given_parent d3 ≡ ok (w, d4)
        → d4 ≡ d3
    new_parent_same none w d3 d4 q = ground (arith, q)
    new_parent_same (some parent) w d3 d4 q =
        let (ex, walk, s) = parent_change_inv (categories_of d3) k parent d3 d4 w q in s

    joined :
        (d1 d2 d3 d4 : Database) (c : Category) (w : Unit {0})
        → d1 ≡ d
        → (find category_key k (categories_of d1) ≡ some c) × (d2 ≡ d1)
        → d3 ≡ d2
        → check_new_parent k u.parent_id d3 ≡ ok (w, d4)
        → d4 ≡ d3
        → (d'.categories ≡ d4.categories)
          ⊎ (d'.categories
              ≡ update category_key (next_version (changed_category u c)) d4.categories)
        → TreeStep d d'
    joined d1 d2 d3 d4 c w e1 (f, e2) e3 check e4 wr =
        let all : d4 ≡ d = e4 ∙ (e3 ∙ (e2 ∙ e1)) in
        let all3 : d3 ≡ d = e3 ∙ (e2 ∙ e1) in
        written-TreeStep k u c d d'
          (subst (λ x. find category_key k (categories_of x) ≡ some c) e1 f) w
          (subst (λ x. check_new_parent k u.parent_id x ≡ ok (w, x)) all3
            (subst (λ x. check_new_parent k u.parent_id d3 ≡ ok (w, x)) e4 check))
          (subst
            (λ x.
              (d'.categories ≡ x.categories)
              ⊎ (d'.categories
                  ≡ update category_key (next_version (changed_category u c)) x.categories))
            all wr)

pub delete_category-TreeStep :
    (request : Text) (admin k : ℕ) (u : Unit {0}) (d d' : Database)
    → delete_category request admin k d ≡ ok (u, d')
    → TreeStep d d'
unfolding delete_category
delete_category-TreeStep request admin k u d d' h =
    let (a, d1, q1, h1) = >>=-eq-ok (load_actor admin) _ d h in
    let (c, d2, q2, h2) = >>=-eq-ok (load_category k) _ d1 h1 in
    let (g, h3) =
      raise_if-eq-ok
        (any (λ p. p.category_id == k) d2.products.rows
          || any (λ b. is_number k b.parent_id) (categories_of d2))
        category_in_use _ d2 h2 in
    removed d1 d2 (load_actor_same admin d d1 a q1) (load_category_inv k d1 d2 c q2).1 g (
      catalog_audit_same request admin category_delete k
        (record d2 {
          categories = record d2.categories { rows = without category_key k d2.categories.rows };
        })
        d' u h3)
  where
    removed :
        (d1 d2 : Database)
        → d1 ≡ d
        → d2 ≡ d1
        → (any (λ p. p.category_id == k) d2.products.rows
            || any (λ b. is_number k b.parent_id) (categories_of d2))
          ≡ false
        → d'.categories ≡ record d2.categories { rows = without category_key k d2.categories.rows }
        → TreeStep d d'
    removed d1 d2 e1 e2 g p =
        let all : d2 ≡ d = e2 ∙ e1 in deleted k (ground (arith, g, all)) (ground (arith, p, all))

pub create_category-TreeStep :
    (nfkd : Text → Text) (request : Text) (admin : ℕ) (v : CategoryCreate) (n : Category)
    (d d' : Database)
    → create_category nfkd request admin v d ≡ ok (n, d')
    → TreeStep d d'
unfolding create_category unique_slug
create_category-TreeStep nfkd request admin v n d d' h =
    let (a, d1, q1, h1) = >>=-eq-ok (load_actor admin) _ d h in
    let (u, d2, q2, h2) = >>=-eq-ok (load_parent v.parent_id) _ d1 h1 in
    let (slug, d3, q3, h3) = >>=-eq-ok (unique_slug (slugify nfkd v.name_uz)) _ d2 h2 in
    let (e, d4, q4, h4) =
      >>=-eq-ok (catalog_audit request admin category_create d3.categories.next)
        (λ _. pure (new_category v slug d3.categories.next))
        (record d3 { categories = insert (new_category v slug) d3.categories }) h3 in
    inserted d1 d2 d3 d4 (new_category v slug) (load_actor_same admin d d1 a q1)
      (parent_inv v.parent_id d1 d2 u q2) (slug_same (slugify nfkd v.name_uz) slug d2 d3 q3) refl
      refl
      (catalog_audit_same request admin category_create d3.categories.next
        (record d3 { categories = insert (new_category v slug) d3.categories }) d4 e q4)
      (ap (λ r. elim r [ ok r ↦ r.1 | err _ ↦ d4 ]) h4)
  where
    slug_same :
        (base slug : Text) (d2 d3 : Database) → unique_slug base d2 ≡ ok (slug, d3) → d3 ≡ d2
    slug_same base slug d2 d3 q = ground (arith, q)

    parent_inv :
        (parent : Option ℕ) (d1 d2 : Database) (u : Unit {0})
        → load_parent parent d1 ≡ ok (u, d2)
        → ParentIsThere (categories_of d1) parent × (d2 ≡ d1)
    parent_inv none d1 d2 u q = ((λ j e. cc), ground (arith, q))
    parent_inv (some j) d1 d2 u q =
        let (c, d3, q3, h3) = >>=-eq-ok (load_category j) (λ _. pure tt) d1 q in
        let (f, s) = load_category_inv j d1 d3 c q3 in
        ((λ i e. (c, ground (arith, e, f))), ground (arith, s, h3))

    inserted :
        (d1 d2 d3 d4 : Database) (row : ℕ → Category)
        → d1 ≡ d
        → ParentIsThere (categories_of d1) v.parent_id × (d2 ≡ d1)
        → d3 ≡ d2
        → (row d.categories.next).id ≡ d.categories.next
        → (row d.categories.next).parent_id ≡ v.parent_id
        → d4.categories ≡ insert row d3.categories
        → d4 ≡ d'
        → TreeStep d d'
    inserted d1 d2 d3 d4 row e1 (ex, e2) e3 i p q e4 =
        created row i
          (subst (ParentIsThere (categories_of d)) (sym p)
            (subst (λ x. ParentIsThere (categories_of x) v.parent_id) e1 ex))
          (ground (arith, e1, e2, e3, q, e4))
