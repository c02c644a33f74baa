-- ===== src/Tagging/Copies.antt =====
-- api.py: the rows of an object that are shown, and the copies of them on another object.
pub mod Others
use openedx_core.Common.{
  ℕ, Bool, true, false, ◌&&◌, ◌||◌, not, List, [], ◌∷◌, ◌++◌, Option, none, some, ◌==◌,
  if◌then◌else◌, opt_eq, is_none, select, update_where,
}
use openedx_core.Tagging.Str.{Str, str_eq, tab}
use openedx_core.Tagging.Models.{Database, Tag, Taxonomy, ObjectTag, Store}
use openedx_core.Tagging.Monad.{
  M, ok, err, pure, gets, modify, atomic, ◌>>=◌, ◌>>◌, multiple_objects,
}
use openedx_core.Tagging.Taxonomies.{find_taxonomy}
use openedx_core.Tagging.Objects.{find_tag_of, new_object_tag, stored_object, save_object}
use openedx_core.Tagging.Api.{is_of_object}

-- A row of a disabled taxonomy, and one of a closed taxonomy without a tag.
abbrev pub is_disabled : Option Taxonomy → Bool
is_disabled none = false
is_disabled (some y) = not y.enabled

abbrev pub lost_its_tag : Option Taxonomy → ObjectTag → Bool
lost_its_tag none o = false
lost_its_tag (some y) o = is_none o.tag && not y.allow_free_text

abbrev pub in_taxonomy : Option ℕ → ObjectTag → Bool
in_taxonomy none o = true
in_taxonomy (some i) o = opt_eq o.taxonomy (some i)

-- The filters of `get_object_tags`.
unfoldable pub is_shown : Str → Option ℕ → Bool → Store → ObjectTag → Bool
is_shown object_id taxonomy include_deleted s o =
    is_of_object object_id o
    && (in_taxonomy taxonomy o
        && (not (is_disabled (find_taxonomy o.taxonomy s))
            && (include_deleted
                || not (is_none o.taxonomy || lost_its_tag (find_taxonomy o.taxonomy s) o))))

-- `sort_key` and `taxonomy_name`
abbrev pub sort_key : Option Tag → ObjectTag → Str
sort_key none o = o.cached_value ++ tab ∷ []
sort_key (some t) o = t.lineage

abbrev pub taxonomy_name : Option Taxonomy → ObjectTag → Str
taxonomy_name none o = o.cached_export_id
taxonomy_name (some y) o = y.name

-- `copied_tags.delete()`
unfoldable pub delete_copied : Str → Store → Store
delete_copied dest s = record s {
  object_tags = select (λ (o : ObjectTag). not (is_of_object dest o && o.is_copied)) s.object_tags;
}

module _ (db : Database) where
  -- `order_by("taxonomy_name", "sort_key")`: whether a row may stand before another.
  unfoldable pub in_order : Store → ObjectTag → ObjectTag → Bool
  in_order s o p =
      let a = taxonomy_name (find_taxonomy o.taxonomy s) o in
      let b = taxonomy_name (find_taxonomy p.taxonomy s) p in
      db.sorts_before a b
      || (not (db.sorts_before b a)
          && not (
              db.sorts_before (db.lower (sort_key (find_tag_of p.tag s) p))
                (db.lower (sort_key (find_tag_of o.tag s) o))))

  unfoldable pub insert_row_in_order : Store → ObjectTag → List ObjectTag → List ObjectTag
  unfolding in_order
  insert_row_in_order s o [] = o ∷ []
  insert_row_in_order s o (p ∷ ps) =
      let rest = insert_row_in_order s o ps in if in_order s o p then o ∷ p ∷ ps else p ∷ rest

  unfoldable pub rows_in_order : Store → List ObjectTag → List ObjectTag
  unfolding insert_row_in_order
  rows_in_order s [] = []
  rows_in_order s (o ∷ os) = insert_row_in_order s o (rows_in_order s os)

  -- `get_object_tags`
  unfoldable pub get_object_tags : Str → Option ℕ → Bool → Store → List ObjectTag
  unfolding is_shown rows_in_order
  get_object_tags object_id taxonomy include_deleted s =
      rows_in_order s (select (is_shown object_id taxonomy include_deleted s) s.object_tags)

  -- `update_or_create`: the rows that the lookup finds, where `None` is NULL.
  unfoldable pub matches_copy : Str → ObjectTag → ObjectTag → Bool
  matches_copy dest o p =
      is_of_object dest p && (opt_eq p.taxonomy o.taxonomy && opt_eq p.tag o.tag)

  abbrev pub new_copy : Str → ObjectTag → Store → ObjectTag
  new_copy dest o s =
      record (new_object_tag dest (find_taxonomy o.taxonomy s) (find_tag_of o.tag s) [] []) {
        is_copied = true;
      }

  abbrev pub marked : ObjectTag → Store → Store
  marked p s = record s {
    object_tags = stored_object db (record p { is_copied = true }) s.object_tags;
  }

  unfoldable pub update_or_create : Str → ObjectTag → List ObjectTag → M (Unit {0})
  update_or_create dest o [] s = save_object db (new_copy dest o s) s
  update_or_create dest o (p ∷ []) s = (ok tt, marked p s)
  update_or_create dest o (p ∷ q ∷ ps) s = (err multiple_objects, s)

  unfoldable pub copy_one : Str → ObjectTag → M (Unit {0})
  unfolding matches_copy update_or_create
  copy_one dest o s = update_or_create dest o (select (matches_copy dest o) s.object_tags) s

  unfoldable pub copy_all : Str → List ObjectTag → M (Unit {0})
  unfolding copy_one
  copy_all dest [] = pure tt
  copy_all dest (o ∷ os) = do copy_one dest o; copy_all dest os

  -- `copy_tags`. The rows of the source are read when the old copies are deleted.
  unfoldable pub copy_tags : Str → Str → M (Unit {0})
  unfolding get_object_tags copy_all delete_copied
  copy_tags source dest = atomic (do
    modify (delete_copied dest)
    rows ← gets (get_object_tags source none false)
    copy_all dest rows)

-- `unmark_copied_tags`
unfoldable pub unmark_copied_tags : Str → Store → Store
unmark_copied_tags object_id s = record s {
  object_tags =
      update_where (is_of_object object_id) (λ (o : ObjectTag). record o { is_copied = false })
        s.object_tags;
}

-- `delete_object_tags`
unfoldable pub delete_object_tags : Str → Store → Store
delete_object_tags object_id s = record s {
  object_tags = select (λ (o : ObjectTag). not (is_of_object object_id o)) s.object_tags;
}
