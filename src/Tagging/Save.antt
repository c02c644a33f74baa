-- ===== src/Tagging/Save.antt =====
-- models/base.py, `Tag.clean` and `Tag.save`, with the constraints of the table that a write meets.
pub mod Moved
pub mod Steps
pub mod Tables
pub mod Checks
pub mod Written
pub mod Existing
pub mod Keys
pub mod New
pub mod Failures
pub mod Cascades
pub mod Forest
use openedx_core.Common.{
  ℕ, zero, suc, ◌+◌, ◌-◌, Bool, true, false, ◌&&◌, ◌||◌, not, List, [], ◌∷◌, ◌++◌, Option, none,
  some, ◌==◌, ltb, leb, if◌then◌else◌, length, any, update_where, is_none, sql_eq,
}
use openedx_core.Tagging.Str.{Str, str_eq, strip, contains, drop, count, starts_with, is_empty, tab}
use openedx_core.Tagging.Models.{Database, Tag, Store, find_tag, same_text, begins}
use openedx_core.Tagging.Monad.{
  M, Result, ok, err, pure, raise, gets, modify, raise_if, ◌>>=◌, ◌>>◌, validation_error,
  integrity_error, does_not_exist, assertion_error, attribute_error,
}
use openedx_core.Tagging.ExternalIds.{reserved_tag_chars, free_external_id}

abbrev pub taxonomy_max_depth : ℕ
taxonomy_max_depth = 5

-- The tag with its texts stripped.
unfoldable pub stripped : Tag → Tag
unfolding strip
stripped t = record t {
  value = strip t.value;
  external_id = if is_empty t.external_id then t.external_id else strip t.external_id;
}

unfoldable pub has_reserved : Str → Bool
unfolding contains reserved_tag_chars
has_reserved text = any (λ part. contains part text) reserved_tag_chars

-- `Tag.clean`
unfoldable pub clean : Tag → M Tag
unfolding stripped has_reserved contains
clean t = do
  let t' = stripped t
  raise_if (has_reserved t'.value) validation_error
  raise_if (not (is_empty t'.external_id) && contains (tab ∷ []) t'.external_id) validation_error
  pure t'

-- The CHECK constraints of the table: a tag with a parent has a positive depth, the lineage ends
-- with the value and a TAB, and has one TAB more than the depth.
unfoldable pub is_allowed : Tag → Bool
unfolding count drop str_eq
is_allowed t =
    (is_none t.parent || ltb 0 t.depth)
    && (str_eq (drop (length t.lineage - (length t.value + 1)) t.lineage) (t.value ++ tab ∷ [])
        && (count tab t.lineage == t.depth + 1))

-- The table with the row in place of the old one, or added.
abbrev pub stored : Tag → List Tag → List Tag
stored t ts =
    if is_none (find_tag ts t.id)
    then ts ++ t ∷ []
    else update_where (λ u. u.id == t.id) (λ _. t) ts

module _ (db : Database) where
  unfoldable pub with_external_id : Tag → M Tag
  unfolding free_external_id
  with_external_id t s =
      if is_empty t.external_id
      then elim t.taxonomy [
        | none ↦ (err assertion_error, s)
        | some x ↦ elim (free_external_id db x t.id t.value s.tags) [
          | none ↦ (err assertion_error, s)
          | some candidate ↦ (ok (record t { external_id = candidate }), s)
        ]
      ]
      else (ok t, s)

  -- The unique keys: another tag of the taxonomy with the value or the external id.
  unfoldable pub clashes : Tag → Tag → Bool
  unfolding same_text
  clashes t u =
      not (u.id == t.id)
      && (sql_eq u.taxonomy t.taxonomy
          && (same_text db u.value t.value || same_text db u.external_id t.external_id))

  unfoldable pub may_write : Tag → List Tag → Bool
  unfolding is_allowed clashes
  may_write t ts = is_allowed t && not (any (λ u. clashes t u) ts)

  unfoldable pub insert_row : Tag → M Tag
  unfolding may_write
  insert_row t s =
      let t' = record t { id = s.next_tag } in
      if may_write t' s.tags
      then (ok t', record s { tags = s.tags ++ t' ∷ []; next_tag = s.next_tag + 1 })
      else (err integrity_error, s)

  unfoldable pub update_row : Tag → M Tag
  unfolding may_write
  update_row t s =
      if may_write t s.tags
      then (ok t, record s { tags = stored t s.tags })
      else (err integrity_error, s)

  -- `super().save()`: an INSERT without a primary key, else an UPDATE that inserts the row if there
  -- is none.
  unfoldable pub write_tag : Tag → M Tag
  unfolding insert_row update_row
  write_tag t s = if t.id == 0 then insert_row t s else update_row t s

-- The depth and the lineage below a parent, or of a root.
unfoldable pub below_parent : Tag → Option Tag → Tag
below_parent t none = record t { depth = 0; lineage = t.value ++ tab ∷ [] }
below_parent t (some p) = record t {
  depth = p.depth + 1;
  lineage = p.lineage ++ (t.value ++ tab ∷ []);
}

-- The parent's row: the instance that is cached, or a query.
unfoldable pub place_below : Tag → Option Tag → M Tag
unfolding below_parent
place_below t none s = (err does_not_exist, s)
place_below t (some u) s = (ok (below_parent t (some u)), s)

unfoldable pub place_under : Tag → Option Tag → Option ℕ → M Tag
unfolding below_parent place_below
place_under t cached none s = (ok (below_parent t none), s)
place_under t (some u) (some p) s = place_below t (some u) s
place_under t none (some p) s = place_below t (find_tag s.tags p) s

unfoldable pub place : Tag → Option Tag → M Tag
unfolding place_under
place t cached s = place_under t cached t.parent s

-- The row before the save.
abbrev pub old_values : Tag → Store → Option Tag
old_values t s = if t.id == 0 then none else find_tag s.tags t.id

module _ (db : Database) where
  -- The rows that the cascade is about.
  unfoldable pub is_below : ℕ → Tag → Tag → Tag → Bool
  unfolding begins
  is_below x old t u =
      sql_eq u.taxonomy (some x) && (begins db old.lineage u.lineage && not (u.id == t.id))

  -- A row with the new lineage in front of what followed the old one.
  unfoldable pub relocated : Tag → Tag → Tag → Tag
  unfolding drop
  relocated old t u = record u {
    depth = u.depth + t.depth - old.depth;
    lineage = t.lineage ++ drop (length old.lineage) u.lineage;
  }

  -- The CHECK constraints after the UPDATE; a depth below zero meets none of them.
  unfoldable pub may_relocate : Tag → Tag → Tag → Bool
  unfolding is_allowed relocated
  may_relocate old t u = leb old.depth (u.depth + t.depth) && is_allowed (relocated old t u)

  unfoldable pub relocate_all : ℕ → Tag → Tag → M (Unit {0})
  unfolding is_below relocated may_relocate
  relocate_all x old t s =
      if any (λ u. is_below x old t u && not (may_relocate old t u)) s.tags
      then (err integrity_error, s)
      else (
        ok tt,
        record s { tags = update_where (λ u. is_below x old t u) (relocated old t) s.tags },
      )

  unfoldable pub cascade : Option Tag → Tag → M (Unit {0})
  unfolding relocate_all str_eq
  cascade none t s = (ok tt, s)
  cascade (some old) t s =
      if not (is_empty old.lineage) && not (str_eq old.lineage t.lineage)
      then elim t.taxonomy [ none ↦ (err attribute_error, s) | some x ↦ relocate_all x old t s ]
      else (ok tt, s)

  -- The texts of the instance, before the row of the parent is read.
  unfoldable pub prepare : Tag → M Tag
  unfolding clean with_external_id
  prepare t = do t1 ← clean t; with_external_id db t1

  unfoldable pub write_and_cascade : Option Tag → Tag → M Tag
  unfolding write_tag cascade
  write_and_cascade old t = do
    raise_if (ltb taxonomy_max_depth t.depth) validation_error
    t' ← write_tag db t
    cascade old t'
    pure t'

  -- `Tag.save`; `cached` is the parent's instance, if the tag has it at hand.
  unfoldable pub save : Tag → Option Tag → M Tag
  unfolding prepare place write_and_cascade
  save t cached = do
    t1 ← prepare t
    old ← gets (old_values t1)
    t2 ← place t1 cached
    write_and_cascade old t2
