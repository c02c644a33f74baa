-- ===== src/Tagging/Objects.antt =====
-- models/base.py, `ObjectTag`: the tag of an object, with the values that it keeps.
pub mod Resync
use openedx_core.Common.{
  ℕ, zero, suc, ◌+◌, Bool, true, false, ◌&&◌, ◌||◌, not, List, [], ◌∷◌, ◌++◌, Option, none, some,
  ◌==◌, ltb, opt_eq, sql_eq, is_none, if◌then◌else◌, length, elem, any, find, update_where,
}
use openedx_core.Tagging.Str.{Str, str_eq, is_empty}
use openedx_core.Tagging.Models.{
  Database, Tag, Taxonomy, ObjectTag, Store, find_tag, tag_set, same_text,
}
use openedx_core.Tagging.Monad.{
  M, Result, ok, err, pure, raise, gets, raise_if, ◌>>=◌, ◌>>◌, validation_error, integrity_error,
}
use openedx_core.Tagging.Save.{has_reserved}
use openedx_core.Tagging.Taxonomies.{find_taxonomy, get_lineage}

abbrev pub find_tag_of : Option ℕ → Store → Option Tag
find_tag_of none s = none
find_tag_of (some i) s = find_tag s.tags i

-- `ObjectTag.__init__`: the values that were not given are those of the taxonomy and the tag.
abbrev pub export_id_or : Option Taxonomy → Str → Str
export_id_or none given = given
export_id_or (some y) given = if is_empty given then y.export_id else given

abbrev pub value_or : Option Tag → Str → Str
value_or none given = given
value_or (some t) given = if is_empty given then t.value else given

abbrev pub taxonomy_id : Option Taxonomy → Option ℕ
taxonomy_id none = none
taxonomy_id (some y) = some y.id

abbrev pub tag_id : Option Tag → Option ℕ
tag_id none = none
tag_id (some t) = some t.id

unfoldable pub new_object_tag : Str → Option Taxonomy → Option Tag → Str → Str → ObjectTag
new_object_tag object_id taxonomy tag value export_id = record {
  id = 0;
  object_id = object_id;
  taxonomy = taxonomy_id taxonomy;
  tag = tag_id tag;
  is_copied = false;
  cached_export_id = export_id_or taxonomy export_id;
  cached_value = value_or tag value;
}

-- `ObjectTag.export_id`
abbrev pub export_id_at : Option Taxonomy → ObjectTag → Str
export_id_at none o = o.cached_export_id
export_id_at (some y) o = y.export_id

unfoldable pub export_id_of : Store → ObjectTag → Str
export_id_of s o = export_id_at (find_taxonomy o.taxonomy s) o

-- `ObjectTag.value`
abbrev pub value_at : Option Tag → ObjectTag → Str
value_at none o = o.cached_value
value_at (some t) o = t.value

unfoldable pub value_of : Store → ObjectTag → Str
value_of s o = value_at (find_tag_of o.tag s) o

-- `ObjectTag.is_deleted`
abbrev pub is_closed_at : Option Taxonomy → Bool
is_closed_at none = true
is_closed_at (some y) = not y.allow_free_text

unfoldable pub is_deleted : Store → ObjectTag → Bool
is_deleted s o =
    is_none (find_taxonomy o.taxonomy s)
    || (is_none (find_tag_of o.tag s) && is_closed_at (find_taxonomy o.taxonomy s))

-- `ObjectTag.get_lineage`
abbrev pub lineage_at : Option Tag → ObjectTag → List Str
lineage_at none o = o.cached_value ∷ []
lineage_at (some t) o = get_lineage t

unfoldable pub object_lineage : Store → ObjectTag → List Str
object_lineage s o = lineage_at (find_tag_of o.tag s) o

-- The parts of `ObjectTag.clean`: whether one finds a fault.
unfoldable pub tag_fault : Option Tag → ObjectTag → Bool
tag_fault none o = is_empty o.cached_value || has_reserved o.cached_value
tag_fault (some t) o = not (opt_eq t.taxonomy o.taxonomy) || not (str_eq t.value o.cached_value)

unfoldable pub taxonomy_fault : Option Taxonomy → ObjectTag → Bool
taxonomy_fault none o = false
taxonomy_fault (some y) o = not (str_eq y.export_id o.cached_export_id)

unfoldable pub clean_fault : Store → ObjectTag → Bool
unfolding tag_fault taxonomy_fault
clean_fault s o =
    tag_fault (find_tag_of o.tag s) o
    || (taxonomy_fault (find_taxonomy o.taxonomy s) o
        || (elem 44 o.object_id || elem 42 o.object_id))

-- A field that is blank or too long. `object_id` is not editable, so that Django does not check
-- whether it is blank.
unfoldable pub field_fault : ObjectTag → Bool
field_fault o =
    ltb 255 (length o.object_id)
    || ((is_empty o.cached_export_id || ltb 255 (length o.cached_export_id))
        || (is_empty o.cached_value || ltb 500 (length o.cached_value)))

module _ (db : Database) where
  -- The unique keys: the tag or the value of another row of the object in the taxonomy.
  unfoldable pub object_clashes : ObjectTag → ObjectTag → Bool
  object_clashes o p =
      not (p.id == o.id)
      && (str_eq p.object_id o.object_id
          && (sql_eq p.taxonomy o.taxonomy
              && (sql_eq p.tag o.tag || same_text db p.cached_value o.cached_value)))

  unfoldable pub full_clean_object : ObjectTag → M (Unit {0})
  unfolding clean_fault field_fault object_clashes
  full_clean_object o s =
      if field_fault o || (clean_fault s o || any (λ p. object_clashes o p) s.object_tags)
      then (err validation_error, s)
      else (ok tt, s)

  abbrev pub stored_object : ObjectTag → List ObjectTag → List ObjectTag
  stored_object o os = update_where (λ (p : ObjectTag). p.id == o.id) (λ _. o) os

  unfoldable pub insert_object : ObjectTag → M (Unit {0})
  insert_object o s =
      let o' = record o { id = s.next_object_tag } in
      (
        ok tt,
        record s {
          object_tags = s.object_tags ++ o' ∷ [];
          next_object_tag = s.next_object_tag + 1;
        },
      )

  -- `object_tag.save()`
  unfoldable pub save_object : ObjectTag → M (Unit {0})
  unfolding object_clashes insert_object
  save_object o s =
      if any (λ p. object_clashes o p) s.object_tags
      then (err integrity_error, s)
      else if o.id == 0
      then insert_object o s
      else (ok tt, record s { object_tags = stored_object o s.object_tags })

-- A row, and whether it was changed.
abbrev pub Synced : Type 0
Synced = ObjectTag × Bool

-- `ObjectTag.resync`, in its parts. The export id follows the taxonomy.
unfoldable pub sync_export_id : Option Taxonomy → ObjectTag → Synced
sync_export_id none o = (o, false)
sync_export_id (some y) o =
    if str_eq o.cached_export_id y.export_id
    then (o, false)
    else (record o { cached_export_id = y.export_id }, true)

-- A row without a taxonomy finds one by its export id.
unfoldable pub link_taxonomy : Option Taxonomy → Option Taxonomy → Synced → Synced
link_taxonomy (some y) matching (o, changed) = (o, changed)
link_taxonomy none none (o, changed) = (o, changed)
link_taxonomy none (some y) (o, changed) = (record o { taxonomy = some y.id }, true)

unfoldable pub sync_taxonomy : Store → ObjectTag → Synced
unfolding sync_export_id link_taxonomy
sync_taxonomy s o =
    let first = sync_export_id (find_taxonomy o.taxonomy s) o in
    link_taxonomy (find_taxonomy o.taxonomy s)
      (find (λ (y : Taxonomy). str_eq y.export_id (export_id_of s first.0)) s.taxonomies) first

unfoldable pub link_tag : Option Tag → Synced → Synced
link_tag none (o, changed) = (o, changed)
link_tag (some t) (o, changed) = (record o { tag = some t.id }, true)

unfoldable pub sync_value : Option Tag → Synced → Synced
sync_value none (o, changed) = (o, changed)
sync_value (some t) (o, changed) =
    if str_eq o.cached_value t.value
    then (o, changed)
    else (record o { cached_value = t.value }, true)

abbrev pub is_closed : Option Taxonomy → Bool
is_closed none = false
is_closed (some y) = not y.allow_free_text

abbrev pub first? {ℓ} : {A : Type ℓ} → (A → Bool) → Option (List A) → Option A
first? p none = none
first? p (some xs) = find p xs

abbrev pub tags_of : Option Taxonomy → Store → Option (List Tag)
tags_of none s = none
tags_of (some y) s = some (tag_set y.id s.tags)

module _ (db : Database) where
  -- A row of a closed taxonomy without a tag finds one by its value; else the value follows the tag.
  unfoldable pub sync_tag : Store → Synced → Synced
  unfolding link_tag sync_value
  sync_tag s (o, changed) =
      if is_closed (find_taxonomy o.taxonomy s) && is_none o.tag
      then link_tag
          (first? (λ (t : Tag). same_text db t.value (value_of s o))
            (tags_of (find_taxonomy o.taxonomy s) s))
          (o, changed)
      else (sync_value (find_tag_of o.tag s) (o, changed))

  -- `ObjectTag.resync`
  unfoldable pub resync : Store → ObjectTag → Synced
  unfolding sync_tag
  resync s o = sync_tag s (sync_taxonomy s o)
