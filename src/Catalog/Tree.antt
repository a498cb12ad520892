-- ===== src/Catalog/Tree.antt =====
-- The categories in backend/app/services/admin_catalog_service.py. `climb` is the loop of
-- `_check_parent_change`, which walks from the new parent to the root. NFKD and the random part of a
-- file name are parameters, with the image library.
use kans_shop.Prelude.{
  ℕ, zero, suc, ◌+◌, Bool, true, false, ◌&&◌, ◌||◌, Option, none, some, List, [], ◌∷◌, ◌++◌, Text,
  codes, show, select, any, insert, without, map, is_empty, is_some, is_number, length, leb, ltb,
  ◌==◌, text_eq, same_text, given, bool_eq, if◌then◌else◌,
}
use kans_shop.Prelude.Int.{ℤ}
use mathlib.Core.List.{reverse}
use kans_shop.Models.{
  Category, category_create, category_update, category_delete, category_image_update,
  category_image_delete,
}
use kans_shop.Exec.{
  Exec, ok, category_in_use, runtime_error, pure, gets, modify, raise_if, or_raise, ◌>>=◌, ◌>>◌,
}
use kans_shop.Catalog.{
  load_actor, catalog_audit, category_key, load_category, check_edit_version, save_category,
  differs, int_eq, same_number, MediaStore, validated_image, public_url,
}
use kans_shop.Catalog.Parent.{check_parent_change}

-- `CategoryCreateIn`
pub record CategoryCreate : Type 0 where
  pub name_uz : Text
  pub name_ru : Text
  pub parent_id : Option ℕ
  pub description_uz : Option Text
  pub description_ru : Option Text
  pub sort_order : ℤ

-- `CategoryUpdateIn`: a field that is not set is `none`, one that is cleared is `some none`.
pub record CategoryChanges : Type 0 where
  pub parent_id : Option (Option ℕ)
  pub name_uz : Option Text
  pub name_ru : Option Text
  pub description_uz : Option (Option Text)
  pub description_ru : Option (Option Text)
  pub is_active : Option Bool
  pub sort_order : Option ℤ

abbrev pub changed_category : CategoryChanges → Category → Category
changed_category u c = record c {
  parent_id = given u.parent_id c.parent_id;
  name_uz = given u.name_uz c.name_uz;
  name_ru = given u.name_ru c.name_ru;
  description_uz = given u.description_uz c.description_uz;
  description_ru = given u.description_ru c.description_ru;
  is_active = given u.is_active c.is_active;
  sort_order = given u.sort_order c.sort_order;
}

abbrev pub has_update : CategoryChanges → Category → Bool
has_update u c =
    differs same_number u.parent_id c.parent_id
    || (differs text_eq u.name_uz c.name_uz || differs text_eq u.name_ru c.name_ru)
    || (differs same_text u.description_uz c.description_uz
        || differs same_text u.description_ru c.description_ru)
    || (differs bool_eq u.is_active c.is_active || differs int_eq u.sort_order c.sort_order)

abbrev pub next_version : Category → Category
next_version c = record c { edit_version = c.edit_version + 1 }

abbrev pub check_new_parent : ℕ → Option (Option ℕ) → Exec (Unit {0})
check_new_parent k none d = ok (tt, d)
check_new_parent k (some parent) d = check_parent_change d.categories.rows k parent d

abbrev pub write_category : Text → ℕ → CategoryChanges → Category → Exec Category
write_category request admin u c d =
    if has_update u c
    then (do
      save_category (next_version (changed_category u c))
      catalog_audit request admin category_update c.id
      pure (next_version (changed_category u c)))
        d
    else ok (c, d)

-- `_update_category`
unfoldable pub update_category : Text → ℕ → ℕ → ℕ → CategoryChanges → Exec Category
update_category request admin k expected u = do
  load_actor admin
  c ← load_category k
  check_edit_version c.edit_version expected
  check_new_parent k u.parent_id
  write_category request admin u c

abbrev pub moved : Option ℕ → CategoryChanges
moved parent = record {
  parent_id = some parent;
  name_uz = none;
  name_ru = none;
  description_uz = none;
  description_ru = none;
  is_active = none;
  sort_order = none;
}

unfoldable pub move_category : Text → ℕ → ℕ → Option ℕ → ℕ → Exec Category
move_category request admin k parent expected =
    update_category request admin k expected (moved parent)

unfoldable pub delete_category : Text → ℕ → ℕ → Exec (Unit {0})
delete_category request admin k = do
  load_actor admin
  c ← load_category k
  products ← gets (λ d. any (λ p. p.category_id == k) d.products.rows)
  children ← gets (λ d. any (λ b. is_number k b.parent_id) d.categories.rows)
  raise_if (products || children) category_in_use
  modify (λ d. record d {
    categories = record d.categories { rows = without category_key k d.categories.rows };
  })
  catalog_audit request admin category_delete k

abbrev pub has_image : Category → Bool
has_image c = is_some c.image_url || is_some c.image_file_id

abbrev pub without_image : Category → Category
without_image c = next_version (record c { image_url = none; image_file_id = none })

abbrev pub clear_image : Text → ℕ → Category → Exec Category
clear_image request admin c d =
    if has_image c
    then (do
      save_category (without_image c)
      catalog_audit request admin category_image_delete c.id
      pure (without_image c))
        d
    else ok (c, d)

unfoldable pub delete_category_image : Text → ℕ → ℕ → Exec Category
delete_category_image request admin k = do
  load_actor admin
  c ← load_category k
  clear_image request admin c

-- `_slugify`, where NFKD is a parameter.
abbrev is_alnum : ℕ → Bool
is_alnum c =
    (leb b'0' c && leb c b'9') || ((leb b'A' c && leb c b'Z') || (leb b'a' c && leb c b'z'))

abbrev lower_char : ℕ → ℕ
lower_char c = if leb b'A' c && leb c b'Z' then c + 32 else c

-- `re.sub(r"[^a-zA-Z0-9]+", "-", text)`; the test says whether the run has its dash.
unfoldable pub dashed : Bool → Text → Text
dashed in_run [] = []
dashed in_run (c ∷ s) =
    let kept = dashed false s in
    let cut = dashed true s in if is_alnum c then c ∷ kept else if in_run then cut else b'-' ∷ cut

-- `strip("-")`, of one end
unfoldable pub drop_dashes : Text → Text
drop_dashes [] = []
drop_dashes (c ∷ s) = let rest = drop_dashes s in if c == b'-' then rest else c ∷ s

abbrev slug_or_category : Text → Text
slug_or_category s = if is_empty s then codes "category" else s

unfoldable pub slugify : (Text → Text) → Text → Text
slugify nfkd name =
    let ascii = select (λ c. ltb c 128) (nfkd name) in
    let trimmed = reverse (drop_dashes (reverse (drop_dashes (dashed false ascii)))) in
    slug_or_category (map lower_char trimmed)

abbrev has_slug : Text → Category → Bool
has_slug s c = text_eq c.slug s

-- The loop of `_unique_slug`: `slug`, or the base with the first suffix from `n` on that is free.
unfoldable pub free_slug : ℕ → List Category → Text → ℕ → Text → Option Text
free_slug zero rows base n slug = none
free_slug (suc fuel) rows base n slug =
    let next = free_slug fuel rows base (n + 1) (base ++ (b'-' ∷ show n)) in
    if any (has_slug slug) rows then next else some slug

unfoldable pub unique_slug : Text → Exec Text
unique_slug base = do
  found ← gets (λ d. free_slug (length d.categories.rows + 1) d.categories.rows base 2 base)
  or_raise found runtime_error

abbrev pub new_category : CategoryCreate → Text → ℕ → Category
new_category v slug k = record {
  id = k;
  parent_id = v.parent_id;
  name_uz = v.name_uz;
  name_ru = v.name_ru;
  slug = slug;
  description_uz = v.description_uz;
  description_ru = v.description_ru;
  image_url = none;
  image_file_id = none;
  sort_order = v.sort_order;
  edit_version = 0;
  is_active = true;
  products_count = 0;
}

abbrev pub load_parent : Option ℕ → Exec (Unit {0})
load_parent none = pure tt
load_parent (some j) = do load_category j; pure tt

abbrev pub insert_category : (ℕ → Category) → Exec Category
insert_category row d =
    ok (row d.categories.next, record d { categories = insert row d.categories })

unfoldable pub create_category : (Text → Text) → Text → ℕ → CategoryCreate → Exec Category
create_category nfkd request admin v = do
  load_actor admin
  load_parent v.parent_id
  slug ← unique_slug (slugify nfkd v.name_uz)
  c ← insert_category (new_category v slug)
  catalog_audit request admin category_create c.id
  pure c

abbrev pub with_image : Text → Category → Category
with_image url c = next_version (record c { image_url = some url; image_file_id = none })

module _ (media : MediaStore) where
  unfoldable pub set_category_image : Text → Text → ℕ → ℕ → Text → Text → Exec Category
  set_category_image uuid request admin k content content_type = do
    extension ← validated_image media content content_type
    load_actor admin
    c ← load_category k
    save_category (with_image (public_url media (codes "categories") k uuid extension) c)
    catalog_audit request admin category_image_update k
    pure (with_image (public_url media (codes "categories") k uuid extension) c)
