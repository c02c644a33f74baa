-- ===== src/Tagging/Api.antt =====
-- api.py of openedx_tagging: taxonomies, and the tags of objects.
pub mod Plans
pub mod Rows
pub mod Saves
pub mod Steps
pub mod Limit
use openedx_core.Common.{
  ℕ, zero, suc, ◌+◌, ◌-◌, Bool, true, false, ◌&&◌, ◌||◌, not, List, [], ◌∷◌, ◌++◌, Option, none,
  some, ◌==◌, ltb, leb, opt_eq, sql_eq, is_none, if◌then◌else◌, length, elem, any, find, select,
  map, update_where, head?,
}
use openedx_core.Tagging.Str.{Str, str_eq, strip, is_empty, starts_with, split, take, tab}
use openedx_core.Tagging.Models.{
  Database, Tag, Taxonomy, ObjectTag, Store, find_tag, tag_set, same_text,
}
use openedx_core.Tagging.Monad.{
  M, Result, Error, ok, err, pure, raise, gets, modify, raise_if, get_one, atomic, ◌>>=◌, ◌>>◌,
  value_error, validation_error, integrity_error, does_not_exist, multiple_objects,
}
use openedx_core.Tagging.ExternalIds.{str_elem}
use openedx_core.Tagging.Taxonomies.{find_taxonomy, tag_for_value, add_tag, update_tag, delete_tags}
use openedx_core.Tagging.Objects.{
  find_tag_of, new_object_tag, value_of, full_clean_object, save_object, Synced, resync,
  taxonomy_id, tag_id,
}

abbrev pub object_max_tags : ℕ
object_max_tags = 100

-- `get_taxonomy`
unfoldable pub get_taxonomy : ℕ → Store → Option Taxonomy
get_taxonomy x s = find_taxonomy (some x) s

-- `get_taxonomy_by_export_id`
unfoldable pub get_taxonomy_by_export_id : Str → Store → Option Taxonomy
get_taxonomy_by_export_id export_id s =
    find (λ (y : Taxonomy). str_eq y.export_id export_id) s.taxonomies

-- `list(dict.fromkeys(tags))`, with what was seen.
unfoldable pub without_repeats : List Str → List Str → List Str
without_repeats seen [] = []
without_repeats seen (tag ∷ tags) =
    let rest = without_repeats seen tags in
    let rest' = without_repeats (tag ∷ seen) tags in if str_elem tag seen then rest else tag ∷ rest'

-- The rows of an object, and those of one taxonomy or of one export id.
abbrev pub is_of_object : Str → ObjectTag → Bool
is_of_object object_id o = str_eq o.object_id object_id

-- `taxonomy.objecttag_set`
abbrev pub objecttag_set : Taxonomy → Store → List ObjectTag
objecttag_set y s = select (λ (o : ObjectTag). sql_eq o.taxonomy (some y.id)) s.object_tags

-- A taxonomy that allows one tag.
abbrev pub is_single : Option Taxonomy → Bool
is_single none = false
is_single (some y) = not y.allow_multiple

module _ (db : Database) where
  -- `_export_id` is a case-insensitive column.
  unfoldable pub is_of : Option Taxonomy → Str → ObjectTag → Bool
  is_of none export_id o = same_text db o.cached_export_id export_id
  is_of (some y) export_id o = opt_eq o.taxonomy (some y.id)

  -- `_check_new_tag_count`
  unfoldable pub other_rows : Option Taxonomy → Str → Str → Store → List ObjectTag
  other_rows taxonomy object_id export_id s =
      select (λ o. is_of_object object_id o && not (is_of taxonomy export_id o)) s.object_tags

  unfoldable pub check_new_tag_count : ℕ → Option Taxonomy → Str → Str → M (Unit {0})
  check_new_tag_count new_tag_count taxonomy object_id export_id s =
      raise_if
        (ltb object_max_tags (length (other_rows taxonomy object_id export_id s) + new_tag_count))
        value_error s

  -- `_get_current_tags`
  unfoldable pub current_rows : Option Taxonomy → Str → Str → Store → List ObjectTag
  current_rows taxonomy object_id export_id s =
      select (λ o. is_of_object object_id o && is_of taxonomy export_id o) s.object_tags

  unfoldable pub get_current_tags : Option Taxonomy → List Str → Str → Str → M (List ObjectTag)
  get_current_tags taxonomy tags object_id export_id = do
    raise_if (is_single taxonomy && ltb 1 (length tags)) value_error
    gets (current_rows taxonomy object_id export_id)

-- The rows that still count as omitted, and those to save.
pub record Plan : Type 0 where
  pub current : List ObjectTag
  pub updated : List ObjectTag

-- `current_tags.pop(index)` of the first row that passes.
unfoldable pub without_first : (ObjectTag → Bool) → List ObjectTag → List ObjectTag
without_first p [] = []
without_first p (o ∷ os) = let rest = without_first p os in if p o then os else o ∷ rest

-- A value of a free text taxonomy: applied already, or new.
unfoldable pub plan_free : Store → Taxonomy → Str → Plan → Str → Plan
plan_free s y object_id p tag_value =
    if any (λ o. str_eq (value_of s o) tag_value) p.current
    then record p { current = without_first (λ o. str_eq (value_of s o) tag_value) p.current }
    else record p {
      updated = p.updated ++ new_object_tag object_id (some y) none tag_value [] ∷ [];
    }

unfoldable pub plan_all_free : Store → Taxonomy → Str → List Str → Plan → Plan
plan_all_free s y object_id [] p = p
plan_all_free s y object_id (tag ∷ tags) p =
    plan_all_free s y object_id tags (plan_free s y object_id p tag)

-- The row of an object for a tag, brought up to date.
abbrev pub renewed : Tag → ObjectTag → List ObjectTag
renewed t o =
    if str_eq o.cached_value t.value then [] else (record o { cached_value = t.value }) ∷ []

abbrev pub renewed_first : Tag → Option ObjectTag → List ObjectTag
renewed_first t none = []
renewed_first t (some o) = renewed t o

-- A tag of a closed taxonomy: applied already, or new.
unfoldable pub plan_tag : Option Taxonomy → Str → Tag → Plan → Plan
plan_tag taxonomy object_id t p =
    if any (λ o. opt_eq o.tag (some t.id)) p.current
    then record {
      current = without_first (λ o. opt_eq o.tag (some t.id)) p.current;
      updated =
          p.updated
          ++ renewed_first t (find (λ (o : ObjectTag). opt_eq o.tag (some t.id)) p.current);
    }
    else record p { updated = p.updated ++ new_object_tag object_id taxonomy (some t) [] [] ∷ [] }

abbrev pub plan_found : Option Taxonomy → Str → Str → Str → Plan → Option Tag → Plan
plan_found taxonomy object_id export_id value p (some t) = plan_tag taxonomy object_id t p
plan_found (some y) object_id export_id value p none = record p {
  updated = p.updated ++ new_object_tag object_id (some y) none value [] ∷ [];
}
plan_found none object_id export_id value p none = record p {
  updated = p.updated ++ new_object_tag object_id none none value export_id ∷ [];
}

abbrev pub and_plan : Result (Option Tag) → (Option Tag → Result Plan) → Result Plan
and_plan (ok t) f = f t
and_plan (err e) f = err e

abbrev pub start : List ObjectTag → Plan
start current = record { current = current; updated = [] }

-- `old_tag.delete()` for each.
unfoldable pub delete_objects : List ObjectTag → Store → Store
delete_objects gone s = record s {
  object_tags =
      select (λ (o : ObjectTag). not (elem o.id (map (λ (p : ObjectTag). p.id) gone)))
        s.object_tags;
}

-- The tag of a value: `Tag.DoesNotExist` is passed over if invalid tags may be created.
abbrev pub or_invalid : Bool → Result Tag → Result (Option Tag)
or_invalid create_invalid (ok t) = ok (some t)
or_invalid true (err does_not_exist) = ok none
or_invalid create_invalid (err e) = err e

module _ (db : Database) where
  unfoldable pub tag_or_invalid : Option Taxonomy → Str → Bool → Store → Result (Option Tag)
  tag_or_invalid none value create_invalid s = ok none
  tag_or_invalid (some y) value create_invalid s =
      or_invalid create_invalid (tag_for_value db y value s).0

  unfoldable pub plan_all_closed :
      Store → Option Taxonomy → Str → Str → Bool → List Str → Plan → Result Plan
  unfolding tag_or_invalid plan_tag
  plan_all_closed s taxonomy object_id export_id create_invalid [] p = ok p
  plan_all_closed s taxonomy object_id export_id create_invalid (tag ∷ tags) p =
      and_plan (tag_or_invalid taxonomy (strip tag) create_invalid s) λ t.
        plan_all_closed s taxonomy object_id export_id create_invalid tags
          (plan_found taxonomy object_id export_id (strip tag) p t)

  unfoldable pub plan :
      Store → Option Taxonomy → Str → Str → Bool → List Str → List ObjectTag → Result Plan
  unfolding plan_all_free plan_all_closed
  plan s none object_id export_id create_invalid tags current =
      plan_all_closed s none object_id export_id create_invalid tags (start current)
  plan s (some y) object_id export_id create_invalid tags current =
      if y.allow_free_text
      then ok (plan_all_free s y object_id tags (start current))
      else plan_all_closed s (some y) object_id export_id create_invalid tags (start current)

  unfoldable pub make_plan : Option Taxonomy → Str → Str → Bool → List Str → List ObjectTag → M Plan
  unfolding plan
  make_plan taxonomy object_id export_id create_invalid tags current s =
      (plan s taxonomy object_id export_id create_invalid tags current, s)

  unfoldable pub save_all : List ObjectTag → M (Unit {0})
  save_all [] = pure tt
  save_all (o ∷ os) = do full_clean_object db o; save_object db o; save_all os

  unfoldable pub write_plan : Plan → M (Unit {0})
  unfolding delete_objects save_all
  write_plan p = atomic (do modify (delete_objects p.current); save_all p.updated)

  -- `tag_object`
  unfoldable pub tag_object : Str → Option Taxonomy → List Str → Bool → Str → M (Unit {0})
  unfolding check_new_tag_count get_current_tags make_plan write_plan without_repeats
  tag_object object_id taxonomy tags create_invalid export_id = do
    let values = without_repeats [] tags
    raise_if (is_none taxonomy && is_empty export_id) value_error
    check_new_tag_count db (length values) taxonomy object_id export_id
    current ← get_current_tags db taxonomy values object_id export_id
    p ← make_plan taxonomy object_id export_id create_invalid values current
    write_plan p

  -- `resync_object_tags`, over rows as they were read. No row at all stands for all rows.
  unfoldable pub save_if_changed : Synced → M ℕ
  save_if_changed (o, changed) s = if changed then (save_object db o >> pure 1) s else (ok 0, s)

  unfoldable pub resync_each : List ObjectTag → ℕ → M ℕ
  unfolding save_if_changed
  resync_each [] num_changed = pure num_changed
  resync_each (o ∷ os) num_changed = do
    synced ← gets (λ s. resync db s o)
    one ← save_if_changed synced
    resync_each os (num_changed + one)

  unfoldable pub resync_object_tags : List ObjectTag → M ℕ
  unfolding resync_each
  resync_object_tags rows s =
      if is_empty rows then resync_each s.object_tags 0 s else resync_each rows 0 s

  -- `add_tag_to_taxonomy`
  unfoldable pub add_tag_to_taxonomy : Taxonomy → Str → Str → Str → M Tag
  add_tag_to_taxonomy y tag parent_tag_value external_id = do
    new_tag ← add_tag db y tag parent_tag_value external_id
    rows ← gets (objecttag_set y)
    resync_object_tags rows
    pure new_tag

  -- `update_tag_in_taxonomy`
  unfoldable pub update_tag_in_taxonomy : Taxonomy → Str → Str → M Tag
  update_tag_in_taxonomy y tag new_value = do
    updated_tag ← update_tag db y tag new_value
    rows ← gets (objecttag_set y)
    resync_object_tags rows
    pure updated_tag

  -- `delete_tags_from_taxonomy`
  unfoldable pub delete_tags_from_taxonomy : Taxonomy → List Str → Bool → M (Unit {0})
  delete_tags_from_taxonomy y tags with_subtags = delete_tags db y tags with_subtags
