-- ===== src/Tagging/Tests/Objects.antt =====
-- The tags of objects: runs, and the theorems at the sample.
use openedx_core.Common.{arith, map, length, ◌≡◌, refl, true, false, [], ◌∷◌, none, some}
use openedx_core.Tagging.Str.{strip, str_eq, split, starts_with, rstrip}
use openedx_core.Tagging.Models.{Taxonomy, ObjectTag, Store, same_text, begins}
use openedx_core.Tagging.Monad.{ok}
use openedx_core.Tagging.Taxonomies.{tag_for_value}
use openedx_core.Tagging.Objects.{
  resync, sync_taxonomy, export_id_of, new_object_tag, value_of, save_object, full_clean_object,
}
use openedx_core.Tagging.Objects.Resync.{IsKeyedStore, resync_settles}
use openedx_core.Tagging.Api.{tag_object, without_repeats, other_rows, is_of, current_rows}
use openedx_core.Tagging.ExternalIds.{str_elem}
use openedx_core.Tagging.Api.Limit.{IsKeyedObjects, IsTagged, tag_object_lem}
use openedx_core.Tagging.Copies.{copy_tags}
use openedx_core.Tagging.Copies.Others.{IsCopied, copy_tags_lem}
use openedx_core.Tagging.Counts.{
  add_usage_counts, lineage_tags, usage_rows, update_counts, increment, counted, is_seen,
}
use openedx_core.Tagging.Counts.Objects.{objects_of, add_usage_counts_lem}
use openedx_core.Tagging.Tallies.{get_object_tag_counts}
use openedx_core.Tagging.Tallies.Explicit.{IsCount, get_object_tag_counts_lem}
use openedx_core.Tagging.Tests.Sample.{ascii, earth, india, places, sample}

-- Object `x` has the tag `Earth`, under an old name, and a value without a tag.
abbrev old_earth : ObjectTag
old_earth = record {
  id = 1;
  object_id = 120 ∷ [];
  taxonomy = some 1;
  tag = some 1;
  is_copied = false;
  cached_export_id = 112 ∷ [];
  cached_value = 71 ∷ [];
}

abbrev lost_asia : ObjectTag
lost_asia = record {
  id = 2;
  object_id = 120 ∷ [];
  taxonomy = none;
  tag = none;
  is_copied = false;
  cached_export_id = 112 ∷ [];
  cached_value = 97 ∷ [];
}

-- Object `y` has `India`.
abbrev other_row : ObjectTag
other_row = record {
  id = 3;
  object_id = 121 ∷ [];
  taxonomy = some 1;
  tag = some 3;
  is_copied = false;
  cached_export_id = 112 ∷ [];
  cached_value = 73 ∷ [];
}

abbrev tagged : Store
tagged = record sample { object_tags = old_earth ∷ lost_asia ∷ other_row ∷ []; next_object_tag = 4 }

-- The first pass links the row to the taxonomy and to the tag, the second brings its value up to date.
finds_asia :
    resync ascii tagged (resync ascii tagged lost_asia).0
    ≡ (record lost_asia { taxonomy = some 1; tag = some 2; cached_value = 65 ∷ [] }, true)
unfolding resync str_eq same_text value_of sync_taxonomy export_id_of
finds_asia = refl

tagged-IsKeyedStore : IsKeyedStore tagged
tagged-IsKeyedStore = ((refl, (refl, (refl, tt))), (refl, tt))

resync_settles_example :
    resync ascii tagged (resync ascii tagged (resync ascii tagged lost_asia).0).0
    ≡ ((resync ascii tagged (resync ascii tagged lost_asia).0).0, false)
resync_settles_example = resync_settles ascii tagged lost_asia tagged-IsKeyedStore

tagged-IsKeyedObjects : IsKeyedObjects tagged.object_tags
tagged-IsKeyedObjects = ((refl, refl), ((refl, refl), ((refl, refl), tt)))

-- `x` is tagged with `India`: the row of `Earth` goes.
abbrev new_india : ObjectTag
new_india = record {
  id = 4;
  object_id = 120 ∷ [];
  taxonomy = some 1;
  tag = some 3;
  is_copied = false;
  cached_export_id = 112 ∷ [];
  cached_value = 73 ∷ [];
}

abbrev retagged : Store
retagged = record tagged {
  object_tags = lost_asia ∷ other_row ∷ new_india ∷ [];
  next_object_tag = 5;
}

tags_x :
    tag_object ascii (120 ∷ []) (some places) ((105 ∷ []) ∷ (105 ∷ []) ∷ []) false [] tagged
    ≡ (ok tt, retagged)
unfolding tag_object str_eq same_text value_of strip tag_for_value new_object_tag save_object
    full_clean_object other_rows is_of str_elem current_rows
tags_x = refl

tag_object_lem_example : IsTagged (120 ∷ []) tagged (ok tt) retagged
tag_object_lem_example =
    tag_object_lem ascii (120 ∷ []) (some places) ((105 ∷ []) ∷ (105 ∷ []) ∷ []) false [] tagged
      (ok tt) retagged tagged-IsKeyedObjects tags_x

-- `Earth` is used on both objects, `India` on one, `Japan` on none.
counts_places :
    add_usage_counts places ((69 ∷ []) ∷ (73 ∷ []) ∷ (74 ∷ []) ∷ []) tagged
    ≡ (69 ∷ [], 2) ∷ (73 ∷ [], 1) ∷ (74 ∷ [], 0) ∷ []
unfolding add_usage_counts str_eq str_elem split
counts_places = refl

add_usage_counts_lem_example :
    add_usage_counts places ((69 ∷ []) ∷ (73 ∷ []) ∷ (74 ∷ []) ∷ []) tagged
    ≡ map
        (λ v. (v, length (without_repeats [] (objects_of v (usage_rows places tagged)))))
        ((69 ∷ []) ∷ (73 ∷ []) ∷ (74 ∷ []) ∷ [])
unfolding usage_rows lineage_tags str_elem str_eq split
add_usage_counts_lem_example =
    add_usage_counts_lem places ((69 ∷ []) ∷ (73 ∷ []) ∷ (74 ∷ []) ∷ []) tagged (refl, (refl, tt))

-- Object `x` is copied to `y`, where the tag of `x` is new and the one of `y` stays.
abbrev copied_earth : ObjectTag
copied_earth = record {
  id = 4;
  object_id = 121 ∷ [];
  taxonomy = some 1;
  tag = some 1;
  is_copied = true;
  cached_export_id = 112 ∷ [];
  cached_value = 69 ∷ [];
}

abbrev copied : Store
copied = record tagged {
  object_tags = old_earth ∷ lost_asia ∷ other_row ∷ copied_earth ∷ [];
  next_object_tag = 5;
}

copies_x : copy_tags ascii (120 ∷ []) (121 ∷ []) tagged ≡ (ok tt, copied)
unfolding copy_tags str_eq new_object_tag save_object same_text
copies_x = refl

copy_tags_lem_example : IsCopied (121 ∷ []) tagged (ok tt) copied
copy_tags_lem_example =
    copy_tags_lem ascii (120 ∷ []) (121 ∷ []) tagged (ok tt) copied tagged-IsKeyedObjects
      (omega arith, (omega arith, (omega arith, tt))) copies_x

-- A free text of `x` is copied without its text.
abbrev topics : Taxonomy
topics = record places { id = 2; allow_free_text = true; export_id = 116 ∷ [] }

abbrev topic_row : ObjectTag
topic_row = record {
  id = 1;
  object_id = 120 ∷ [];
  taxonomy = some 2;
  tag = none;
  is_copied = false;
  cached_export_id = 116 ∷ [];
  cached_value = 97 ∷ [];
}

abbrev free : Store
free = record sample { taxonomies = topics ∷ []; object_tags = topic_row ∷ []; next_object_tag = 2 }

loses_text :
    (copy_tags ascii (120 ∷ []) (121 ∷ []) free).1.object_tags
    ≡ topic_row
      ∷ record topic_row { id = 2; object_id = 121 ∷ []; is_copied = true; cached_value = [] }
      ∷ []
unfolding copy_tags str_eq new_object_tag save_object same_text
loses_text = refl

-- All objects: one row of each counts, the row that lost its taxonomy does not.
counts_all_objects :
    get_object_tag_counts ascii (42 ∷ []) false tagged ≡ ok ((120 ∷ [], 1) ∷ (121 ∷ [], 1) ∷ [])
unfolding get_object_tag_counts update_counts begins starts_with str_eq
counts_all_objects = refl

-- `India` comes with `Earth` and `Asia`.
counts_implicit :
    get_object_tag_counts ascii (42 ∷ []) true tagged ≡ ok ((120 ∷ [], 1) ∷ (121 ∷ [], 3) ∷ [])
unfolding get_object_tag_counts increment counted is_seen begins starts_with str_eq str_elem split
    rstrip without_repeats
counts_implicit = refl

-- The prefix goes by LIKE: `X*` admits the object `x`.
counts_like : get_object_tag_counts ascii (88 ∷ 42 ∷ []) false tagged ≡ ok ((120 ∷ [], 1) ∷ [])
unfolding get_object_tag_counts update_counts begins starts_with str_eq
counts_like = refl

get_object_tag_counts_lem_example : IsCount ascii (88 ∷ 42 ∷ []) tagged (ok ((120 ∷ [], 1) ∷ []))
get_object_tag_counts_lem_example =
    get_object_tag_counts_lem ascii (88 ∷ 42 ∷ []) tagged (ok ((120 ∷ [], 1) ∷ []))
      ((earth, refl), (tt, ((india, refl), tt))) ((places, refl), (tt, ((places, refl), tt)))
      counts_like
