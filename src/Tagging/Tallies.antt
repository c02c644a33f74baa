-- ===== src/Tagging/Tallies.antt =====
-- api.py, `get_object_tag_counts`: how many tags each object has.
pub mod Patterns
pub mod Explicit
use openedx_core.Common.{
  ℕ, ◌+◌, Bool, true, false, ◌&&◌, ◌||◌, not, List, [], ◌∷◌, ◌++◌, Option, none, some, ◌==◌,
  if◌then◌else◌, is_none, elem, length, map, select,
}
use openedx_core.Tagging.Str.{Str, str_eq, split, rstrip, tab}
use openedx_core.Tagging.Models.{Database, Tag, ObjectTag, Store, begins}
use openedx_core.Tagging.Monad.{Result, ok, err, value_error}
use openedx_core.Tagging.ExternalIds.{str_elem}
use openedx_core.Tagging.Taxonomies.{find_taxonomy}
use openedx_core.Tagging.Objects.{find_tag_of}
use openedx_core.Tagging.Api.{without_repeats}
use openedx_core.Tagging.Copies.{is_disabled, lost_its_tag}
use openedx_core.Tagging.Counts.{
  Counter, counted, increment, update_counts, Seen, is_seen, lineage_of,
}

abbrev pub onto : ℕ → Option Str → Option Str
onto c none = none
onto c (some text) = some (c ∷ text)

-- A pattern that ends with `*`, without it.
unfoldable pub without_star : Str → Option Str
without_star [] = none
without_star (c ∷ []) = if c == 42 then some [] else none
without_star (c ∷ d ∷ cs) = onto c (without_star (d ∷ cs))

-- The objects that a pattern admits; `object_id__startswith` is a LIKE.
abbrev pub filter_of : Database → Option Str → Str → Result (Str → Bool)
filter_of db (some start) pattern = ok (begins db start)
filter_of db none pattern =
    if elem 42 pattern
    then err value_error
    else ok (λ object_id. str_elem object_id (split 44 pattern))

unfoldable pub object_filter : Database → Str → Result (Str → Bool)
unfolding without_star
object_filter db pattern = filter_of db (without_star pattern) pattern

-- The rows that are counted.
unfoldable pub is_counted : (Str → Bool) → Store → ObjectTag → Bool
is_counted holds s o =
    holds o.object_id
    && (not (is_none o.taxonomy)
        && (not (is_disabled (find_taxonomy o.taxonomy s))
            && not (lost_its_tag (find_taxonomy o.taxonomy s) o)))

unfoldable pub counted_rows : (Str → Bool) → Store → List ObjectTag
unfolding is_counted
counted_rows holds s = select (is_counted holds s) s.object_tags

-- The implicit count: the free texts, and the paths that were seen on an object.
pub record Tally : Type 0 where
  pub free_text : Counter
  pub paths : Seen

abbrev pub add_path : Str → Str → Seen → Seen
add_path object_id path seen =
    if is_seen object_id path seen then seen else (object_id, path) ∷ seen

unfoldable pub add_paths : Str → List Str → Seen → Seen
add_paths object_id [] seen = seen
add_paths object_id (path ∷ paths) seen = add_paths object_id paths (add_path object_id path seen)

-- `"\t".join(parts)`
unfoldable pub join_tab : List Str → Str
join_tab [] = []
join_tab (part ∷ []) = part
join_tab (part ∷ next ∷ parts) = part ++ tab ∷ join_tab (next ∷ parts)

-- `parts[:1]`, `parts[:2]` and so on.
unfoldable pub prefixes : List Str → List (List Str)
prefixes [] = []
prefixes (part ∷ parts) = (part ∷ []) ∷ map (λ rest. part ∷ rest) (prefixes parts)

unfoldable pub paths_of : Str → List Str
unfolding join_tab prefixes
paths_of lineage = map join_tab (prefixes (split tab (rstrip (λ c. c == tab) lineage)))

abbrev pub tally_row : Str → Option Str → Tally → Tally
tally_row object_id none t = record t { free_text = increment object_id t.free_text }
tally_row object_id (some lineage) t = record t {
  paths = add_paths object_id (paths_of lineage) t.paths;
}

unfoldable pub tally_rows : Store → List ObjectTag → Tally → Tally
unfolding add_paths paths_of
tally_rows s [] t = t
tally_rows s (o ∷ os) t =
    tally_rows s os (tally_row o.object_id (lineage_of (find_tag_of o.tag s)) t)

abbrev pub total : Tally → Str → ℕ
total t object_id =
    counted object_id t.free_text
    + length (select (λ (p : Str × Str). str_eq object_id p.0) t.paths)

abbrev pub tagged_ids : List ObjectTag → List Str
tagged_ids os = map (λ (o : ObjectTag). o.object_id) os

unfoldable pub counts_of : Bool → Store → List ObjectTag → Counter
unfolding tally_rows
counts_of true s os =
    let t = tally_rows s os (record { free_text = []; paths = [] }) in
    map (λ object_id. (object_id, total t object_id)) (without_repeats [] (tagged_ids os))
counts_of false s os = update_counts (tagged_ids os) []

abbrev pub counts_if : Result (Str → Bool) → Bool → Store → Result Counter
counts_if (ok holds) count_implicit s = ok (counts_of count_implicit s (counted_rows holds s))
counts_if (err e) count_implicit s = err e

-- `get_object_tag_counts`
unfoldable pub get_object_tag_counts : Database → Str → Bool → Store → Result Counter
unfolding object_filter counts_of counted_rows
get_object_tag_counts db pattern count_implicit s =
    counts_if (object_filter db pattern) count_implicit s
