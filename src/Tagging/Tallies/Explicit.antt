-- ===== src/Tagging/Tallies/Explicit.antt =====
-- The explicit count of `get_object_tag_counts`.
use openedx_core.Common.{
  ℕ, ◌≡◌, refl, sym, ap, ◌∙◌, inl, inr, Bool, false, ◌&&◌, not, List, [], ◌∷◌, length, select, ◌⊎◌,
  All, All-both, arith, Bool-cases, Option, some, none, if◌then◌else◌,
}
use openedx_core.Tagging.Str.{Str, str_eq}
use openedx_core.Tagging.Str.Prefixes.{str_eq→eq}
use openedx_core.Tagging.Models.{Database, Taxonomy, ObjectTag, Store}
use openedx_core.Tagging.Monad.{Result, ok, err, value_error}
use openedx_core.Tagging.Taxonomies.{find_taxonomy}
use openedx_core.Tagging.Taxonomies.Deletions.{IsLinked, IsLinkedTo}
use openedx_core.Tagging.Objects.{is_deleted}
use openedx_core.Tagging.Counts.{Counter, counted}
use openedx_core.Tagging.Counts.Objects.{times, counted-update_counts}
use openedx_core.Tagging.Tallies.{
  object_filter, is_counted, counted_rows, tagged_ids, counts_of, counts_if, get_object_tag_counts,
}
use openedx_core.Tagging.Tallies.Patterns.{IsPattern, IsAdmitted, IsFilter, object_filter-cases}

-- The taxonomy of a row is in the table.
abbrev pub IsHomedIn : Store → Option ℕ → Type 0
IsHomedIn s none = Unit {0}
IsHomedIn s (some i) = (y : Taxonomy) × (find_taxonomy (some i) s ≡ some y)

abbrev pub IsHomed : Store → Type 0
IsHomed s = All (λ (o : ObjectTag). IsHomedIn s o.taxonomy) s.object_tags

-- A row that is shown: of an enabled taxonomy, and not deleted by `ObjectTag.is_deleted`.
abbrev pub is_enabled : Option Taxonomy → Bool
is_enabled none = false
is_enabled (some y) = y.enabled

abbrev pub is_visible : Store → ObjectTag → Bool
is_visible s o = is_enabled (find_taxonomy o.taxonomy s) && not (is_deleted s o)

abbrev pub visible_rows_of : Str → Store → List ObjectTag
visible_rows_of v s =
    select (λ (o : ObjectTag). str_eq v o.object_id && is_visible s o) s.object_tags

-- What a call gives: the number of the rows of an object that are shown, if the pattern admits the
-- object, and no count otherwise; or the error.
abbrev pub IsCount : Database → Str → Store → Result Counter → Type 0
IsCount db pattern s (ok counts) =
    IsPattern pattern
    × ((v : Str)
        → (IsAdmitted db pattern v → counted v counts ≡ length (visible_rows_of v s))
          × (¬ IsAdmitted db pattern v → counted v counts ≡ 0))
IsCount db pattern s (err e) = (e ≡ value_error) × ¬ IsPattern pattern

times-tagged_ids :
    (v : Str) (os : List ObjectTag)
    → times v (tagged_ids os) ≡ length (select (λ (o : ObjectTag). str_eq v o.object_id) os)
unfolding times
times-tagged_ids v [] = refl
times-tagged_ids v (o ∷ os) = ground (arith, times-tagged_ids v os)

explicit_count :
    (s : Store) (os : List ObjectTag) (v : Str)
    → counted v (counts_of false s os)
      ≡ length (select (λ (o : ObjectTag). str_eq v o.object_id) os)
unfolding counts_of counted
explicit_count s os v =
    ground (arith, counted-update_counts v (tagged_ids os) [], times-tagged_ids v os)

-- On linked rows, the filters of the query are the property of the row.
counted_as_visible :
    (holds : Str → Bool) (s : Store) (o : ObjectTag)
    → IsLinkedTo s.tags o.tag
    → IsHomedIn s o.taxonomy
    → is_counted holds s o ≡ (holds o.object_id && is_visible s o)
unfolding is_counted is_deleted
counted_as_visible holds s o linked homed = go o.taxonomy o.tag refl refl linked homed
  where
    go :
        (y : Option ℕ) (t : Option ℕ)
        → o.taxonomy ≡ y
        → o.tag ≡ t
        → IsLinkedTo s.tags t
        → IsHomedIn s y
        → is_counted holds s o ≡ (holds o.object_id && is_visible s o)
    go none t at tagged linked homed = rw at refl
    go (some i) none at tagged linked (y, there) = rw (at, tagged, there) (ground arith)
    go (some i) (some k) at tagged (t, found) (y, there) =
        rw (at, tagged, there, found) (ground arith)

module _ (holds : Str → Bool) (s : Store) (v : Str) where
  split_count :
      (os : List ObjectTag)
      → All (λ (o : ObjectTag). IsLinkedTo s.tags o.tag × IsHomedIn s o.taxonomy) os
      → length (select (λ (o : ObjectTag). str_eq v o.object_id) (select (is_counted holds s) os))
        ≡ (if holds v
            then length (select (λ (o : ObjectTag). str_eq v o.object_id && is_visible s o) os)
            else 0)
  split_count [] h = ground arith
  split_count (o ∷ os) h =
      let rest = split_count os h.1 in
      let here = counted_as_visible holds s o h.0.0 h.0.1 in
      elim (Bool-cases (str_eq v o.object_id)) [
        | inl mine ↦
            let same : holds o.object_id ≡ holds v =
              ap holds (sym (str_eq→eq v o.object_id mine)) in
            ground (arith, rest, here, mine, same)
        | inr past ↦ ground (arith, rest, here, past)
      ]

ok_value : {a b : Counter} → ok a ≡ ok b → a ≡ b
ok_value h = ground (arith, h)

filtered-IsCount :
    (db : Database) (pattern : Str) (s : Store) (holds : Str → Bool) (counts : Counter)
    → IsLinked s
    → IsHomed s
    → IsFilter db pattern holds
    → counts_of false s (counted_rows holds s) ≡ counts
    → IsCount db pattern s (ok counts)
unfolding counted_rows
filtered-IsCount db pattern s holds counts linked homed filter h = (
  filter.0,
  λ v. (
    λ is. all v ∙ rw ((filter.1 v).0 is) refl,
    λ is_not. all v ∙ elim (Bool-cases (holds v)) [
      | inl passes ↦ absurd (is_not ((filter.1 v).1 passes))
      | inr fails ↦ rw fails refl
    ],
  ),
)
  where
    all : (v : Str) → counted v counts ≡ (if holds v then length (visible_rows_of v s) else 0)
    all v =
        ap (λ c. counted v c) (sym h)
        ∙ explicit_count s (select (is_counted holds s) s.object_tags) v
        ∙ split_count holds s v s.object_tags (All-both _ _ s.object_tags linked homed)

counts_if-IsCount :
    (db : Database) (pattern : Str) (s : Store) (f : Result (Str → Bool)) (res : Result Counter)
    → IsLinked s
    → IsHomed s
    → ((holds : Str → Bool) × (f ≡ ok holds) × IsFilter db pattern holds)
      ⊎ ((f ≡ err value_error) × ¬ IsPattern pattern)
    → counts_if f false s ≡ res
    → IsCount db pattern s res
counts_if-IsCount db pattern s f (ok counts) linked homed (inl (holds, made, filter)) h =
    filtered-IsCount db pattern s holds counts linked homed filter
      (ok_value (ap (λ g. counts_if g false s) (sym made) ∙ h))
counts_if-IsCount db pattern s f (err e) linked homed (inl (holds, made, filter)) h =
    let h' = ap (λ g. counts_if g false s) (sym made) ∙ h in absurd (ground (arith, h'))
counts_if-IsCount db pattern s f (ok counts) linked homed (inr (raised, refused)) h =
    let h' = ap (λ g. counts_if g false s) (sym raised) ∙ h in absurd (ground (arith, h'))
counts_if-IsCount db pattern s f (err e) linked homed (inr (raised, refused)) h =
    let h' = ap (λ g. counts_if g false s) (sym raised) ∙ h in (ground (arith, h'), refused)

-- What `get_object_tag_counts` gives without the implicit tags, on tables whose foreign keys hold:
-- a ValueError exactly if the pattern has a star and does not end with one. Else the count of an
-- object that the pattern admits is the number of its rows of enabled taxonomies that
-- `ObjectTag.is_deleted` does not call deleted, and an object that it does not admit has no count.
pub get_object_tag_counts_lem :
    (db : Database) (pattern : Str) (s : Store) (res : Result Counter)
    → IsLinked s
    → IsHomed s
    → get_object_tag_counts db pattern false s ≡ res
    → IsCount db pattern s res
unfolding get_object_tag_counts
get_object_tag_counts_lem db pattern s res linked homed h =
    counts_if-IsCount db pattern s (object_filter db pattern) res linked homed
      (object_filter-cases db pattern) h
