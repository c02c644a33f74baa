-- ===== src/Tagging/Taxonomies/Lineages.antt =====
-- `Tag.get_lineage` against the chain of parents.
use openedx_core.Common.{
  ℕ, zero, suc, ◌<◌, ◌≡◌, refl, sym, ap, ◌∙◌, false, List, [], ◌∷◌, ◌++◌, Option, none, some, ◌==◌,
  elem, arith,
}
use mathlib.Core.List.{append_assoc}
use openedx_core.Tagging.Str.{Str, is_empty, rstrip, split, tab}
use openedx_core.Tagging.Models.{Database, Tag, find_tag}
use openedx_core.Tagging.Save.Forest.{IsBelow, IsForest}
use openedx_core.Tagging.Taxonomies.{get_lineage}

abbrev with_last : Option (List Str) → Str → Option (List Str)
with_last none v = none
with_last (some l) v = some (l ++ v ∷ [])

abbrev at_row : (Tag → Option (List Str)) → Option Tag → Option (List Str)
at_row path none = none
at_row path (some u) = path u

abbrev above_by : (Tag → Option (List Str)) → List Tag → Option ℕ → Option (List Str)
above_by path ts none = some []
above_by path ts (some p) = at_row path (find_tag ts p)

-- The values of a tag's ancestors and its own, by the foreign keys; `none` if a row is missing or
-- the fuel runs out.
unfoldable pub ancestors : ℕ → List Tag → Tag → Option (List Str)
ancestors zero ts t = none
ancestors (suc fuel) ts t = with_last (above_by (ancestors fuel ts) ts t.parent) t.value

-- The text of a path.
flat : List Str → Str
flat [] = []
flat (v ∷ vs) = v ++ (tab ∷ flat vs)

flat-append : (vs : List Str) (v : Str) → flat (vs ++ v ∷ []) ≡ flat vs ++ (v ++ tab ∷ [])
unfolding flat
flat-append [] v = refl
flat-append (u ∷ vs) v =
    ap (λ r. u ++ (tab ∷ r)) (flat-append vs v)
    ∙ sym (append_assoc u (tab ∷ flat vs) (v ++ tab ∷ []))

split_value : (v : Str) → elem tab v ≡ false → split tab v ≡ v ∷ []
unfolding split
split_value [] h = refl
split_value (c ∷ cs) h = ground (arith, split_value cs)

split_level : (v r : Str) → elem tab v ≡ false → split tab (v ++ (tab ∷ r)) ≡ v ∷ split tab r
unfolding split
split_level [] r h = refl
split_level (c ∷ cs) r h = ground (arith, split_level cs r)

rstrip_value : (v : Str) → elem tab v ≡ false → rstrip (λ c. c == tab) (v ++ tab ∷ []) ≡ v
unfolding rstrip
rstrip_value [] h = refl
rstrip_value (c ∷ cs) h = ground (arith, rstrip_value cs)

is_empty-append : (l r : Str) → is_empty r ≡ false → is_empty (l ++ r) ≡ false
is_empty-append [] r h = h
is_empty-append (c ∷ cs) r h = refl

rstrip_levels :
    (l v : Str)
    → elem tab v ≡ false
    → is_empty v ≡ false
    → rstrip (λ c. c == tab) (l ++ (v ++ tab ∷ [])) ≡ l ++ v
unfolding rstrip
rstrip_levels [] v h full = rstrip_value v h
rstrip_levels (c ∷ cs) v h full =
    ground (arith, rstrip_levels cs v h full, is_empty-append cs v full)

-- The values of a path that its text keeps apart.
abbrev NoTabs : List Str → Type 0
NoTabs [] = Unit {0}
NoTabs (v ∷ vs) = (elem tab v ≡ false) × NoTabs vs

NoTabs-append : (vs : List Str) (v : Str) → NoTabs vs → elem tab v ≡ false → NoTabs (vs ++ v ∷ [])
NoTabs-append [] v h nv = (nv, tt)
NoTabs-append (u ∷ vs) v h nv = (h.0, NoTabs-append vs v h.1 nv)

split-flat :
    (vs : List Str) (v : Str)
    → NoTabs vs
    → elem tab v ≡ false
    → split tab (flat vs ++ v) ≡ vs ++ v ∷ []
unfolding flat
split-flat [] v h nv = split_value v nv
split-flat (u ∷ vs) v h nv =
    ap (split tab) (append_assoc u (tab ∷ flat vs) v)
    ∙ split_level u (flat vs ++ v) h.0
    ∙ ap (λ r. u ∷ r) (split-flat vs v h.1 nv)

-- The path that a lineage is the text of.
IsPathOf : List Tag → ℕ → Tag → Type 0
IsPathOf ts fuel t =
    (vs : List Str) × (ancestors fuel ts t ≡ some (vs ++ t.value ∷ []))
    × (t.lineage ≡ flat vs ++ (t.value ++ tab ∷ []))
    × NoTabs vs

module _ (db : Database) (ts : List Tag) (f : IsForest db ts) where
  path_below :
      (fuel : ℕ)
      → ((j : ℕ) (w : Tag) → find_tag ts j ≡ some w → w.depth < fuel → IsPathOf ts fuel w)
      → (t : Tag) (q : Option ℕ) → t.depth < suc fuel
      → IsBelow ts t q
      → (vs : List Str) × (above_by (ancestors fuel ts) ts q ≡ some vs)
        × (t.lineage ≡ flat vs ++ (t.value ++ tab ∷ []))
        × NoTabs vs
  unfolding flat IsPathOf
  path_below fuel path t none d b = ([], refl, b.1, tt)
  path_below fuel path t (some p) d (w, found, same, dw, l) =
      let (vs, chain, lin, plain) = path p w found (omega arith) in
      (
        vs ++ w.value ∷ [],
        ap (at_row (ancestors fuel ts)) found ∙ chain,
        l ∙ ap (λ r. r ++ (t.value ++ tab ∷ [])) (lin ∙ sym (flat-append vs w.value)),
        NoTabs-append vs w.value plain (f.no_tab p w found),
      )

  path_of : (fuel i : ℕ) (t : Tag) → find_tag ts i ≡ some t → t.depth < fuel → IsPathOf ts fuel t
  unfolding ancestors IsPathOf
  path_of zero i t found d = elim d [ ]
  path_of (suc fuel) i t found d =
      let (vs, chain, lin, plain) =
        path_below fuel (path_of fuel) t t.parent d (f.placed i t found) in
      (vs, ap (λ o. with_last o t.value) chain, lin, plain)

-- In a forest of values that are not empty, the lineage of a tag splits into the values of its
-- ancestors, the root first, and its own: those that the foreign keys give, which fuel above its
-- depth is enough to follow.
pub get_lineage_lem :
    (db : Database) (ts : List Tag) (fuel i : ℕ) (t : Tag)
    → IsForest db ts
    → find_tag ts i ≡ some t
    → is_empty t.value ≡ false
    → t.depth < fuel
    → ancestors fuel ts t ≡ some (get_lineage t)
unfolding get_lineage IsPathOf
get_lineage_lem db ts fuel i t f found full d =
    let (vs, chain, lin, plain) = path_of db ts f fuel i t found d in
    let nv = f.no_tab i t found in
    let parts : get_lineage t ≡ vs ++ t.value ∷ [] =
      ap (λ l. split tab (rstrip (λ c. c == tab) l)) lin
      ∙ ap (split tab) (rstrip_levels (flat vs) t.value nv full)
      ∙ split-flat vs t.value plain nv in
    chain ∙ ap some (sym parts)
