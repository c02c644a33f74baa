-- ===== src/Tagging/Counts.antt =====
-- api.py, `add_usage_counts`: on how many objects the tags of a taxonomy are used.
pub mod Objects
use openedx_core.Common.{
  ℕ, ◌+◌, Bool, true, false, ◌&&◌, ◌||◌, not, List, [], ◌∷◌, ◌++◌, Option, none, some,
  if◌then◌else◌, any, select, map,
}
use openedx_core.Tagging.Str.{Str, str_eq, is_empty, split, tab}
use openedx_core.Tagging.Models.{Tag, Taxonomy, ObjectTag, Store}
use openedx_core.Tagging.ExternalIds.{str_elem}
use openedx_core.Tagging.Objects.{find_tag_of}
use openedx_core.Tagging.Api.{objecttag_set}

-- A `Counter`, by its keys.
abbrev pub Counter : Type 0
Counter = List (Str × ℕ)

-- `tag_counts.get(value, 0)`
unfoldable pub counted : Str → Counter → ℕ
counted v [] = 0
counted v ((w, n) ∷ counts) = let rest = counted v counts in if str_eq v w then n else rest

unfoldable pub increment : Str → Counter → Counter
increment v [] = (v, 1) ∷ []
increment v ((w, n) ∷ counts) =
    let rest = increment v counts in if str_eq v w then (w, n + 1) ∷ counts else (w, n) ∷ rest

-- `tag_counts.update(values)`
unfoldable pub update_counts : List Str → Counter → Counter
unfolding increment
update_counts [] counts = counts
update_counts (v ∷ values) counts = update_counts values (increment v counts)

-- The values that were seen on an object, as pairs of the two.
abbrev pub Seen : Type 0
Seen = List (Str × Str)

unfoldable pub is_seen : Str → Str → Seen → Bool
is_seen object_id v seen = any (λ p. str_eq object_id p.0 && str_eq v p.1) seen

-- `tag_lineage.split('\t') if tag_lineage else []`
unfoldable pub lineage_tags : Option Str → List Str
lineage_tags none = []
lineage_tags (some lineage) = if is_empty lineage then [] else split tab lineage

unfoldable pub unseen_tags : Str → Seen → List Str → List Str
unfolding is_seen
unseen_tags object_id seen values = select (λ v. not (is_seen object_id v seen)) values

abbrev pub with_object : Str → List Str → Seen
with_object object_id values = map (λ v. (object_id, v)) values

-- The loop over the rows, with the object and the lineage of each.
unfoldable pub count_rows : List (Str × Option Str) → Seen → Counter → Counter
unfolding update_counts unseen_tags lineage_tags
count_rows [] seen counts = counts
count_rows ((object_id, lineage) ∷ rows) seen counts =
    let unseen = unseen_tags object_id seen (lineage_tags lineage) in
    count_rows rows (with_object object_id unseen ++ seen) (update_counts unseen counts)

abbrev pub lineage_of : Option Tag → Option Str
lineage_of none = none
lineage_of (some t) = some t.lineage

-- `taxonomy.objecttag_set.values_list("object_id", "tag__lineage")`
unfoldable pub usage_rows : Taxonomy → Store → List (Str × Option Str)
usage_rows y s =
    map (λ (o : ObjectTag). (o.object_id, lineage_of (find_tag_of o.tag s))) (objecttag_set y s)

-- `add_usage_counts`, on the values of the rows of `tag_data`.
unfoldable pub add_usage_counts : Taxonomy → List Str → Store → List (Str × ℕ)
unfolding counted count_rows usage_rows
add_usage_counts y values s = map (λ v. (v, counted v (count_rows (usage_rows y s) [] []))) values
