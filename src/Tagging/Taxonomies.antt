-- ===== src/Tagging/Taxonomies.antt =====
-- models/base.py: the operations of a taxonomy on its tags, and the queries of a tag.
pub mod Changes
pub mod Additions
pub mod Lineages
pub mod Descendants
pub mod Closure
pub mod Remaining
pub mod Deletions
use openedx_core.Common.{
  ℕ, zero, suc, ◌+◌, Bool, true, false, ◌&&◌, ◌||◌, not, List, [], ◌∷◌, ◌++◌, Option, none, some,
  ◌==◌, ltb, if◌then◌else◌, length, elem, any, select, map, update_where, opt_eq, find,
}
use openedx_core.Tagging.Str.{Str, is_empty, rstrip, split, tab}
use openedx_core.Tagging.Models.{
  Database, Tag, Taxonomy, ObjectTag, Store, find_tag, tag_set, same_text, begins,
}
use openedx_core.Tagging.Monad.{
  M, Result, ok, err, pure, raise, gets, modify, raise_if, get_one, ◌>>=◌, ◌>>◌, value_error,
  validation_error,
}
use openedx_core.Tagging.ExternalIds.{tag_external_id_max_length}
use openedx_core.Tagging.Save.{clean, may_write, save}

-- `Tag.get_lineage`
unfoldable pub get_lineage : Tag → List Str
unfolding rstrip split
get_lineage t = split tab (rstrip (λ c. c == tab) t.lineage)

abbrev pub find_taxonomy : Option ℕ → Store → Option Taxonomy
find_taxonomy none s = none
find_taxonomy (some x) s = find (λ y. y.id == x) s.taxonomies

abbrev pub count_in : Option Taxonomy → (Tag → Bool) → Store → ℕ
count_in none p s = 0
count_in (some y) p s = if y.allow_free_text then 0 else length (select p (tag_set y.id s.tags))

-- `Tag.child_count`
unfoldable pub child_count : Tag → Store → ℕ
child_count t s = count_in (find_taxonomy t.taxonomy s) (λ u. opt_eq u.parent (some t.id)) s

-- The guards of the operations that write.
unfoldable pub may_change : Taxonomy → M (Unit {0})
may_change y = do raise_if y.allow_free_text value_error; raise_if y.read_only value_error

abbrev pub id_of : Option Tag → Option ℕ
id_of none = none
id_of (some t) = some t.id

abbrev pub new_tag : Taxonomy → Str → Option Tag → Str → Tag
new_tag y value parent external_id = record {
  id = 0;
  taxonomy = some y.id;
  parent = id_of parent;
  value = value;
  external_id = external_id;
  depth = 0;
  lineage = [];
}

module _ (db : Database) where
  -- `Tag.descendant_count`
  unfoldable pub descendant_count : Tag → Store → ℕ
  descendant_count t s =
      count_in (find_taxonomy t.taxonomy s)
        (λ u. ltb t.depth u.depth && begins db t.lineage u.lineage) s

  abbrev pub with_value : Taxonomy → Str → Store → List Tag
  with_value y value s = select (λ t. same_text db t.value value) (tag_set y.id s.tags)

  abbrev pub with_external : Taxonomy → Str → Store → List Tag
  with_external y external_id s =
      select (λ t. same_text db t.external_id external_id) (tag_set y.id s.tags)

  -- `Taxonomy.validate_value`
  unfoldable pub validate_value : Taxonomy → Str → Store → Bool
  validate_value y value s =
      if y.allow_free_text then not (is_empty value) else not (is_empty (with_value y value s))

  -- `Taxonomy.tag_for_value`
  unfoldable pub tag_for_value : Taxonomy → Str → M Tag
  tag_for_value y value = do
    raise_if y.allow_free_text value_error
    found ← gets (with_value y value)
    get_one found

  -- `Taxonomy.validate_external_id`
  unfoldable pub validate_external_id : Taxonomy → Str → Store → Bool
  validate_external_id y external_id s =
      if y.allow_free_text then false else not (is_empty (with_external y external_id s))

  -- `Taxonomy.tag_for_external_id`
  unfoldable pub tag_for_external_id : Taxonomy → Str → M Tag
  tag_for_external_id y external_id = do
    raise_if y.allow_free_text value_error
    found ← gets (with_external y external_id)
    get_one found

  -- The checks of `full_clean`: the fields, `clean`, the unique keys and the constraints.
  unfoldable pub full_clean : Tag → M Tag
  unfolding clean may_write
  full_clean t = do
    raise_if (is_empty t.value || ltb 500 (length t.value)) validation_error
    raise_if (ltb tag_external_id_max_length (length t.external_id)) validation_error
    raise_if (is_empty t.lineage || ltb 3006 (length t.lineage)) validation_error
    t' ← clean t
    may ← gets (λ s. may_write db t' s.tags)
    raise_if (not may) validation_error
    pure t'

  -- `self.tag_set.get(value__iexact=value)`
  unfoldable pub the_tag : Taxonomy → Str → M Tag
  the_tag y value s = get_one (with_value y value s) s

  -- The instance of the parent; `""` stands for no value given.
  unfoldable pub parent_for_value : Taxonomy → Str → M (Option Tag)
  unfolding the_tag
  parent_for_value y [] = pure none
  parent_for_value y (c ∷ cs) = do parent ← the_tag y (c ∷ cs); pure (some parent)

  -- The checks of `add_tag` in front of its queries of the parent.
  unfoldable pub check_new : Taxonomy → Str → Str → M (Unit {0})
  unfolding may_change validate_external_id
  check_new y tag_value external_id = do
    may_change y
    existing ← gets (with_value y tag_value)
    raise_if (not (is_empty existing)) value_error
    known ← gets (validate_external_id y external_id)
    raise_if (not (is_empty external_id) && known) value_error

  -- `Tag.objects.create`, and the validation after it.
  unfoldable pub create_tag : Taxonomy → Str → Option Tag → Str → M Tag
  unfolding save full_clean
  create_tag y value parent external_id = do
    tag ← save db (new_tag y value parent external_id) parent
    full_clean tag

  -- `Taxonomy.add_tag`
  unfoldable pub add_tag : Taxonomy → Str → Str → Str → M Tag
  unfolding check_new parent_for_value create_tag
  add_tag y tag_value parent_tag_value external_id = do
    check_new y tag_value external_id
    parent ← parent_for_value y parent_tag_value
    create_tag y tag_value parent external_id

  -- `Taxonomy.update_tag`
  unfoldable pub update_tag : Taxonomy → Str → Str → M Tag
  unfolding may_change the_tag save
  update_tag y tag new_value = do
    may_change y
    tag_to_update ← the_tag y tag
    save db (record tag_to_update { value = new_value }) none

-- `x in xs` for a foreign key.
abbrev pub elem_opt : Option ℕ → List ℕ → Bool
elem_opt none xs = false
elem_opt (some a) xs = elem a xs

-- The rows that a deletion collects: those given, and the tags below them, level by level.
unfoldable pub is_child : List ℕ → List ℕ → Tag → Bool
is_child found level t = elem_opt t.parent level && not (elem t.id found)

unfoldable pub collect : ℕ → List Tag → List ℕ → List ℕ → List ℕ
unfolding is_child
collect zero ts found level = found
collect (suc fuel) ts found level =
    let new = map (λ (t : Tag). t.id) (select (is_child found level) ts) in
    let rest = collect fuel ts (found ++ new) new in if is_empty new then found else rest

-- Tags are deleted; the object tags that name one keep their values.
unfoldable pub delete_rows : List ℕ → Store → Store
delete_rows ids s = record s {
  tags = select (λ t. not (elem t.id ids)) s.tags;
  object_tags =
      update_where (λ (o : ObjectTag). elem_opt o.tag ids)
        (λ (o : ObjectTag). record o { tag = none }) s.object_tags;
}

-- `queryset.delete()`
unfoldable pub delete_all : List ℕ → Store → Store
unfolding collect delete_rows
delete_all ids s = delete_rows (collect (suc (length s.tags)) s.tags ids ids) s

module _ (db : Database) where
  -- `self.tag_set.filter(value__in=tags)`
  abbrev pub named : Taxonomy → List Str → Store → List Tag
  named y tags s =
      select (λ t. any (λ value. same_text db t.value value) tags) (tag_set y.id s.tags)

  abbrev pub named_ids : Taxonomy → List Str → Store → List ℕ
  named_ids y tags s = map (λ (t : Tag). t.id) (named y tags s)

  unfoldable pub may_delete : Taxonomy → List Str → Bool → M (Unit {0})
  may_delete y tags with_subtags s =
      (raise_if (not (length (named y tags s) == length tags)) value_error
          >> raise_if (any (λ t. elem_opt t.parent (named_ids y tags s)) s.tags && not with_subtags)
              value_error)
        s

  -- `Taxonomy.delete_tags`
  unfoldable pub delete_tags : Taxonomy → List Str → Bool → M (Unit {0})
  unfolding may_change may_delete delete_all
  delete_tags y tags with_subtags = do
    may_change y
    may_delete y tags with_subtags
    ids ← gets (named_ids y tags)
    modify (delete_all ids)
