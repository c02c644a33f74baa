-- ===== src/Tagging/Objects/Resync.antt =====
-- A row that is resynced twice stays as it is.
use mathlib.Core.Path.{subst}
use openedx_core.Common.{
  ℕ, ◌≡◌, refl, sym, ap, ◌∙◌, inl, inr, Bool, true, false, ◌&&◌, List, [], ◌∷◌, Option, none, some,
  is_none, find, find-true, All, arith, Bool-cases, Option-cases,
}
use openedx_core.Tagging.Str.{str_eq}
use openedx_core.Tagging.Str.Prefixes.{str_eq→eq, str_eq_refl}
use openedx_core.Tagging.Models.{Database, Tag, Taxonomy, ObjectTag, Store, same_text}
use openedx_core.Tagging.Save.Keys.{IsKeyed}
use openedx_core.Tagging.Taxonomies.{find_taxonomy}
use openedx_core.Tagging.Objects.{
  Synced, find_tag_of, export_id_at, export_id_of, value_of, sync_taxonomy, link_tag, sync_value,
  is_closed, first?, tags_of, sync_tag, resync,
}

-- Each taxonomy is found by its primary key.
abbrev pub IsKeyedStore : Store → Type 0
IsKeyedStore s =
    IsKeyed s.tags × All (λ (y : Taxonomy). find_taxonomy (some y.id) s ≡ some y) s.taxonomies

pub found-All {ℓ κ} :
    {A : Type ℓ} (P : A → Type κ) (p : A → Bool) (xs : List A) {x : A}
    → All P xs
    → find p xs ≡ some x
    → P x
found-All P p [] h e = cc
found-All P p (y ∷ ys) {x} h e = elim (Bool-cases (p y)) [
  | inl this ↦ let e' = rw this at e in subst P (ground (arith, e')) h.0
  | inr other ↦ let e' = rw other at e in found-All P p ys {x = x} h.1 e'
]

module _ (s : Store) (o : ObjectTag) where
  export_id_agrees :
      (y : Taxonomy)
      → find_taxonomy o.taxonomy s ≡ some y
      → str_eq o.cached_export_id y.export_id ≡ true
      → sync_taxonomy s o ≡ (o, false)
  unfolding sync_taxonomy
  export_id_agrees y known same = rw (known, same) refl

  export_id_follows :
      (y : Taxonomy)
      → find_taxonomy o.taxonomy s ≡ some y
      → str_eq o.cached_export_id y.export_id ≡ false
      → sync_taxonomy s o ≡ (record o { cached_export_id = y.export_id }, true)
  unfolding sync_taxonomy
  export_id_follows y known other = rw (known, other) refl

  abbrev matching : Option Taxonomy
  matching = find (λ (y : Taxonomy). str_eq y.export_id (export_id_of s o)) s.taxonomies

  no_taxonomy : find_taxonomy o.taxonomy s ≡ none → matching ≡ none → sync_taxonomy s o ≡ (o, false)
  unfolding sync_taxonomy
  no_taxonomy unknown none_there = rw (unknown, none_there) refl

  taxonomy_links :
      (y : Taxonomy)
      → find_taxonomy o.taxonomy s ≡ none
      → matching ≡ some y
      → sync_taxonomy s o ≡ (record o { taxonomy = some y.id }, true)
  unfolding sync_taxonomy
  taxonomy_links y unknown there = rw (unknown, there) refl

-- Taxonomy and export id agree.
taxonomy_settles :
    (s : Store) (o : ObjectTag)
    → IsKeyedStore s
    → sync_taxonomy s (sync_taxonomy s o).0 ≡ ((sync_taxonomy s o).0, false)
unfolding export_id_of
taxonomy_settles s o keyed = elim (Option-cases (find_taxonomy o.taxonomy s)) [
  | inr (y, known) ↦ elim (Bool-cases (str_eq o.cached_export_id y.export_id)) [
    | inl same ↦
        let e = export_id_agrees s o y known same in
        subst (λ (r : Synced). sync_taxonomy s r.0 ≡ (r.0, false)) (sym e) e
    | inr other ↦
        subst (λ (r : Synced). sync_taxonomy s r.0 ≡ (r.0, false))
          (sym (export_id_follows s o y known other))
          (export_id_agrees s (record o { cached_export_id = y.export_id }) y known
            (str_eq_refl y.export_id))
  ]
  | inl unknown ↦ elim (Option-cases (matching s o)) [
    | inl none_there ↦
        let e = no_taxonomy s o unknown none_there in
        subst (λ (r : Synced). sync_taxonomy s r.0 ≡ (r.0, false)) (sym e) e
    | inr (y, there) ↦
        let same =
          find-true (λ (z : Taxonomy). str_eq z.export_id (export_id_of s o)) s.taxonomies there in
        let equal : y.export_id ≡ o.cached_export_id =
          str_eq→eq y.export_id (export_id_of s o) same ∙ ap (λ q. export_id_at q o) unknown in
        subst (λ (r : Synced). sync_taxonomy s r.0 ≡ (r.0, false))
          (sym (taxonomy_links s o y unknown there))
          (export_id_agrees s (record o { taxonomy = some y.id }) y
            (found-All (λ (z : Taxonomy). find_taxonomy (some z.id) s ≡ some z) _ s.taxonomies
              keyed.1 there)
            (ap (λ z. str_eq z y.export_id) (sym equal) ∙ str_eq_refl y.export_id))
  ]
]

-- What a row shows to `sync_taxonomy`.
same_taxonomy :
    (s : Store) (o p : ObjectTag)
    → p.taxonomy ≡ o.taxonomy
    → p.cached_export_id ≡ o.cached_export_id
    → sync_taxonomy s o ≡ (o, false)
    → sync_taxonomy s p ≡ (p, false)
unfolding export_id_of
same_taxonomy s o p ht he h = elim (Option-cases (find_taxonomy o.taxonomy s)) [
  | inr (y, known) ↦
      let known' : find_taxonomy p.taxonomy s ≡ some y = ap (λ q. find_taxonomy q s) ht ∙ known in
      elim (Bool-cases (str_eq o.cached_export_id y.export_id)) [
        | inl same ↦ export_id_agrees s p y known' (ap (λ z. str_eq z y.export_id) he ∙ same)
        | inr other ↦
            let bad = sym h ∙ export_id_follows s o y known other in absurd (ground (arith, bad))
      ]
  | inl unknown ↦
      let unknown' : find_taxonomy p.taxonomy s ≡ none = ap (λ q. find_taxonomy q s) ht ∙ unknown in
      elim (Option-cases (matching s o)) [
        | inl none_there ↦
            let e : export_id_of s p ≡ export_id_of s o =
              ap (λ q. export_id_at q p) unknown' ∙ he ∙ sym (ap (λ q. export_id_at q o) unknown) in
            no_taxonomy s p unknown'
              (ap (λ z. find (λ (y : Taxonomy). str_eq y.export_id z) s.taxonomies) e ∙ none_there)
        | inr (y, there) ↦
            let bad = sym h ∙ taxonomy_links s o y unknown there in absurd (ground (arith, bad))
      ]
]

module _ (db : Database) (s : Store) where
  -- The tag that a row without one finds.
  abbrev fitting : ObjectTag → Option Tag
  fitting o =
      first? (λ (t : Tag). same_text db t.value (value_of s o))
        (tags_of (find_taxonomy o.taxonomy s) s)

  needs_tag : ObjectTag → Bool
  needs_tag o = is_closed (find_taxonomy o.taxonomy s) && is_none o.tag

  finds_none :
      (o : ObjectTag) (c : Bool)
      → needs_tag o ≡ true
      → fitting o ≡ none
      → sync_tag db s (o, c) ≡ (o, c)
  unfolding sync_tag needs_tag
  finds_none o c needs absent = rw (needs, absent) refl

  finds_tag :
      (o : ObjectTag) (c : Bool) (t : Tag)
      → needs_tag o ≡ true
      → fitting o ≡ some t
      → sync_tag db s (o, c) ≡ (record o { tag = some t.id }, true)
  unfolding sync_tag needs_tag
  finds_tag o c t needs there = rw (needs, there) refl

  follows_tag :
      (o : ObjectTag) (c : Bool)
      → needs_tag o ≡ false
      → sync_tag db s (o, c) ≡ sync_value (find_tag_of o.tag s) (o, c)
  unfolding sync_tag needs_tag
  follows_tag o c has = rw has refl

  abbrev Keeps : ObjectTag → Synced → Type 0
  Keeps o r = (r.0.taxonomy ≡ o.taxonomy) × (r.0.cached_export_id ≡ o.cached_export_id)

  link_tag-Keeps : (t : Option Tag) (o : ObjectTag) (c : Bool) → Keeps o (link_tag t (o, c))
  unfolding link_tag
  link_tag-Keeps none o c = (refl, refl)
  link_tag-Keeps (some t) o c = (refl, refl)

  sync_value-Keeps : (t : Option Tag) (o : ObjectTag) (c : Bool) → Keeps o (sync_value t (o, c))
  unfolding sync_value
  sync_value-Keeps none o c = (refl, refl)
  sync_value-Keeps (some t) o c = elim (Bool-cases (str_eq o.cached_value t.value)) [
    | inl same ↦ rw same (refl, refl)
    | inr other ↦ rw other (refl, refl)
  ]

  sync_tag-Keeps : (o : ObjectTag) (c : Bool) → Keeps o (sync_tag db s (o, c))
  unfolding sync_tag
  sync_tag-Keeps o c = elim (Bool-cases (is_closed (find_taxonomy o.taxonomy s) && is_none o.tag)) [
    | inl needs ↦ rw needs (link_tag-Keeps (fitting o) o c)
    | inr has ↦ rw has (sync_value-Keeps (find_tag_of o.tag s) o c)
  ]

  -- A row with a tag, or of a free taxonomy, is settled by one pass.
  same_value :
      (o : ObjectTag) (t : Tag)
      → needs_tag o ≡ false
      → find_tag_of o.tag s ≡ some t
      → str_eq o.cached_value t.value ≡ true
      → (c : Bool) → sync_tag db s (o, c) ≡ (o, c)
  unfolding sync_value
  same_value o t has known same c =
      follows_tag o c has ∙ ap (λ q. sync_value q (o, c)) known ∙ rw same refl

  other_value :
      (o : ObjectTag) (t : Tag)
      → needs_tag o ≡ false
      → find_tag_of o.tag s ≡ some t
      → str_eq o.cached_value t.value ≡ false
      → (c : Bool) → sync_tag db s (o, c) ≡ (record o { cached_value = t.value }, true)
  unfolding sync_value
  other_value o t has known other c =
      follows_tag o c has ∙ ap (λ q. sync_value q (o, c)) known ∙ rw other refl

  no_value :
      (o : ObjectTag)
      → needs_tag o ≡ false
      → find_tag_of o.tag s ≡ none
      → (c : Bool) → sync_tag db s (o, c) ≡ (o, c)
  unfolding sync_value
  no_value o has unknown c = follows_tag o c has ∙ ap (λ q. sync_value q (o, c)) unknown

  -- The next pass changes nothing.
  IsDone : Synced → Type 0
  IsDone r = sync_tag db s (r.0, false) ≡ (r.0, false)

  value_settles : (o : ObjectTag) (c : Bool) → needs_tag o ≡ false → IsDone (sync_tag db s (o, c))
  unfolding IsDone needs_tag
  value_settles o c has = elim (Option-cases (find_tag_of o.tag s)) [
    | inl unknown ↦ subst IsDone (sym (no_value o has unknown c)) (no_value o has unknown false)
    | inr (t, known) ↦ elim (Bool-cases (str_eq o.cached_value t.value)) [
      | inl same ↦
          subst IsDone (sym (same_value o t has known same c)) (same_value o t has known same false)
      | inr other ↦
          subst IsDone (sym (other_value o t has known other c)) (
            same_value (record o { cached_value = t.value }) t has known (str_eq_refl t.value)
              false)
    ]
  ]

  tag_settles :
      (o : ObjectTag) (c : Bool) → IsDone (sync_tag db s ((sync_tag db s (o, c)).0, false))
  unfolding IsDone needs_tag
  tag_settles o c = elim (Bool-cases (needs_tag o)) [
    | inr has ↦ let e = value_settles o c has in subst IsDone (sym e) e
    | inl needs ↦ elim (Option-cases (fitting o)) [
      | inl absent ↦
          let e = finds_none o false needs absent in
          subst (λ (r : Synced). IsDone (sync_tag db s (r.0, false)))
            (sym (finds_none o c needs absent)) (subst IsDone (sym e) e)
      | inr (t, there) ↦
          subst (λ (r : Synced). IsDone (sync_tag db s (r.0, false)))
            (sym (finds_tag o c t needs there))
            (value_settles (record o { tag = some t.id }) false
              (has_tag (record o { tag = some t.id }) t.id refl))
    ]
  ]
    where
      has_tag : (o : ObjectTag) (i : ℕ) → o.tag ≡ some i → needs_tag o ≡ false
      has_tag o i h = rw h (ground arith)

-- In a store whose rows are found by their keys, a row that is resynced twice is settled: a third
-- pass returns it as it is, and reports no change.
pub resync_settles :
    (db : Database) (s : Store) (o : ObjectTag)
    → IsKeyedStore s
    → resync db s (resync db s (resync db s o).0).0 ≡ ((resync db s (resync db s o).0).0, false)
unfolding resync IsDone
resync_settles db s o keyed =
    let first = sync_taxonomy s o in
    let one = sync_tag db s first in
    let kept = sync_tag-Keeps db s first.0 first.1 in
    let agrees : sync_taxonomy s one.0 ≡ (one.0, false) =
      same_taxonomy s first.0 one.0 kept.0 kept.1 (taxonomy_settles s o keyed) in
    let two = sync_tag db s (one.0, false) in
    let kept' = sync_tag-Keeps db s one.0 false in
    let agrees' : sync_taxonomy s two.0 ≡ (two.0, false) =
      same_taxonomy s one.0 two.0 kept'.0 kept'.1 agrees in
    subst
      (λ (r : Synced).
        sync_tag db s (sync_taxonomy s (sync_tag db s r).0) ≡ ((sync_tag db s r).0, false))
      (sym agrees)
      (subst (λ (r : Synced). sync_tag db s r ≡ (two.0, false)) (sym agrees')
        (tag_settles db s first.0 first.1))
