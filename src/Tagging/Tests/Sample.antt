-- ===== src/Tagging/Tests/Sample.antt =====
-- A taxonomy with three levels of tags, in a database that folds the ASCII letters.
use mathlib.Core.Path.{subst}
use openedx_core.Common.{
  ℕ, ◌+◌, ◌<◌, ◌≡◌, refl, sym, ap, ◌∙◌, true, false, ◌&&◌, List, [], ◌∷◌, none, some, ◌==◌, leb,
  map, elem, All, arith, Bool-cases, inl, inr, if◌then◌else◌,
}
use mathlib.Core.List.{map-append}
use openedx_core.Tagging.Str.{tab}
use openedx_core.Tagging.Models.{Database, IsDatabase, Tag, Taxonomy, Store, find_tag}
use openedx_core.Tagging.ExternalIds.Suffixes.{IsCasefold}
use openedx_core.Tagging.Save.{is_allowed}
use openedx_core.Tagging.Save.Forest.{IsPlaced, IsForest, find_tag-id}
use openedx_core.Tagging.Save.Keys.{IsKeyed}
use openedx_core.Tagging.Taxonomies.Changes.{IsSound}

abbrev pub lower : ℕ → ℕ
lower c = if leb 65 c && leb c 90 then c + 32 else c

abbrev pub ascii : Database
ascii = record {
  key = map lower;
  like = lower;
  casefold = map lower;
  sorts_before = λ a b. false;
  lower = map lower;
}

lower_tab : (c : ℕ) → lower c ≡ 9 → c ≡ 9
lower_tab c h = ground (arith, h)

pub ascii-IsDatabase : IsDatabase ascii
ascii-IsDatabase = record { like_tab = refl; only_tab = lower_tab; like_is_finer = λ a b h. h }

lower_sign : (c : ℕ) → c < 65 → lower c ≡ c
lower_sign c h = ground arith

pub ascii-IsCasefold : IsCasefold ascii
ascii-IsCasefold = record {
  of_nothing = refl;
  of_append = λ a b. map-append lower a b;
  of_sign = λ c h. ap (λ d. d ∷ []) (lower_sign c h);
}

-- `Earth`, `Asia` below it and `India` below that, by their initials.
abbrev pub earth : Tag
earth = record {
  id = 1;
  taxonomy = some 1;
  parent = none;
  value = 69 ∷ [];
  external_id = 49 ∷ [];
  depth = 0;
  lineage = 69 ∷ 9 ∷ [];
}

abbrev pub asia : Tag
asia = record {
  id = 2;
  taxonomy = some 1;
  parent = some 1;
  value = 65 ∷ [];
  external_id = 50 ∷ [];
  depth = 1;
  lineage = 69 ∷ 9 ∷ 65 ∷ 9 ∷ [];
}

abbrev pub india : Tag
india = record {
  id = 3;
  taxonomy = some 1;
  parent = some 2;
  value = 73 ∷ [];
  external_id = 51 ∷ [];
  depth = 2;
  lineage = 69 ∷ 9 ∷ 65 ∷ 9 ∷ 73 ∷ 9 ∷ [];
}

abbrev pub places : Taxonomy
places = record {
  id = 1;
  name = 80 ∷ [];
  description = [];
  enabled = true;
  allow_multiple = true;
  allow_free_text = false;
  visible_to_authors = true;
  export_id = 112 ∷ [];
  read_only = false;
}

abbrev pub sample : Store
sample = record {
  tags = earth ∷ asia ∷ india ∷ [];
  taxonomies = places ∷ [];
  object_tags = [];
  next_tag = 4;
  next_taxonomy = 2;
  next_object_tag = 1;
}

-- What all rows have, a row that is found has.
All-found {ℓ} :
    (P : Tag → Type ℓ) (ts : List Tag) (i : ℕ) (t : Tag) → All P ts → find_tag ts i ≡ some t → P t
All-found P [] i t h found = cc
All-found P (u ∷ ts) i t h found = elim (Bool-cases (u.id == i)) [
  | inl this ↦ let e = rw this at found in subst P (ground (arith, e)) h.0
  | inr other ↦ let e = rw other at found in All-found P ts i t h.1 e
]

rows-IsForest :
    (db : Database) (ts : List Tag)
    → All (IsPlaced ts) ts
    → All (λ (t : Tag). (x : ℕ) × (t.taxonomy ≡ some x)) ts
    → All
        (λ (t : Tag).
          All
            (λ (u : Tag). t.taxonomy ≡ u.taxonomy → db.key t.value ≡ db.key u.value → t.id ≡ u.id)
            ts)
        ts
    → All (λ (t : Tag). elem tab t.value ≡ false) ts
    → All (λ t. is_allowed t ≡ true) ts
    → IsForest db ts
rows-IsForest db ts placed homed unique plain allowed = record {
  placed = λ i t found. All-found (IsPlaced ts) ts i t placed found;
  homed = λ i t found. All-found _ ts i t homed found;
  unique = λ i j t u ft fu ht hk.
      sym (find_tag-id ts i t ft)
      ∙ All-found _ ts j u (All-found _ ts i t unique ft) fu ht hk
      ∙ find_tag-id ts j u fu;
  no_tab = λ i t found. All-found _ ts i t plain found;
  allowed = λ i t found. All-found _ ts i t allowed found;
}

sample-IsForest : IsForest ascii sample.tags
unfolding is_allowed
sample-IsForest =
    rows-IsForest ascii sample.tags
      ((refl, refl), ((earth, refl, refl, refl, refl), ((asia, refl, refl, refl, refl), tt)))
      ((1, refl), ((1, refl), ((1, refl), tt)))
      (
        ((λ a b. refl), ((λ a b. ground (arith, b)), ((λ a b. ground (arith, b)), tt))),
        (
          ((λ a b. ground (arith, b)), ((λ a b. refl), ((λ a b. ground (arith, b)), tt))),
          (((λ a b. ground (arith, b)), ((λ a b. ground (arith, b)), ((λ a b. refl), tt))), tt),
        ),
      )
      (refl, (refl, (refl, tt))) (refl, (refl, (refl, tt)))

sample-IsKeyed : IsKeyed sample.tags
sample-IsKeyed = (refl, (refl, (refl, tt)))

pub sample-IsSound : IsSound ascii sample
sample-IsSound = record {
  forest = sample-IsForest;
  numbered = record {
    positive = λ h. ground (arith, h);
    no_zero = refl;
    keyed = sample-IsKeyed;
    below_next = λ i u found.
        let small = All-found (λ (t : Tag). t.id < 4) sample.tags i u (omega arith) found in
        let same = find_tag-id sample.tags i u found in omega arith;
  };
}
