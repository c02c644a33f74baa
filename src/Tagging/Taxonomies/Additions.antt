-- ===== src/Tagging/Taxonomies/Additions.antt =====
-- `Taxonomy.add_tag` on a forest.
use mathlib.Core.Path.{subst}
use openedx_core.Common.{
  ◌≡◌, ◌≢◌, refl, sym, ◌∙◌, ◌⊎◌, inl, inr, true, false, List, [], ◌∷◌, Option, none, some, arith,
}
use openedx_core.Tagging.Str.{Str, is_empty}
use openedx_core.Tagging.Models.{Database, Tag, Taxonomy, Store}
use openedx_core.Tagging.Monad.{Result, Error, ok, err, and_then-eq-ok, and_then-eq-err}
use openedx_core.Tagging.Save.{clean, cascade, old_values, save}
use openedx_core.Tagging.Save.Keys.{IsNumbered}
use openedx_core.Tagging.Save.Failures.{save_err}
use openedx_core.Tagging.Save.New.{IsAdded, MayBeAbove, save_new}
use openedx_core.Tagging.Taxonomies.{
  with_value, the_tag, may_change, parent_for_value, check_new, full_clean, create_tag, add_tag,
  id_of, new_tag,
}
use openedx_core.Tagging.Taxonomies.Changes.{IsSound, the_tag_ok, the_tag_err}

cascade-none_fails :
    (db : Database) (t : Tag) (s : Store) {e : Error} {s' : Store}
    → cascade db none t s ≡ (err e, s')
    → ⊥
unfolding cascade
cascade-none_fails db t s h = ground (arith, h)

save_new_err :
    (db : Database) (t : Tag) (cached : Option Tag) (s : Store) {e : Error} {s' : Store}
    → t.id ≡ 0
    → save db t cached s ≡ (err e, s')
    → s' ≡ s
save_new_err db t cached s {e} {s'} new h = elim (save_err db t cached s h) [
  | inl kept ↦ kept
  | inr failed ↦
      let (r, s1, w, c) = failed.fails in
      let (i, x, q, value, plain) = failed.is_cleaned in
      let unset : old_values failed.cleaned s ≡ none = ground (arith, i, new) in
      absurd (cascade-none_fails db r s1 (subst (λ o. cascade db o r s1 ≡ (err e, s')) unset c))
]

full_clean_same :
    (db : Database) (t : Tag) (s : Store) {res : Result Tag} {s' : Store}
    → full_clean db t s ≡ (res, s')
    → s' ≡ s
unfolding full_clean clean
full_clean_same db t s h = ground (arith, h)

check_new_ok :
    (db : Database) (y : Taxonomy) (value external_id : Str) (s : Store) {s' : Store}
    → check_new db y value external_id s ≡ (ok tt, s')
    → (s' ≡ s)
      × (y.allow_free_text ≡ false)
      × (y.read_only ≡ false)
      × (is_empty (with_value db y value s) ≡ true)
unfolding check_new may_change
check_new_ok db y value external_id s h = ground (arith, h)

check_new_err :
    (db : Database) (y : Taxonomy) (value external_id : Str) (s : Store) {e : Error} {s' : Store}
    → check_new db y value external_id s ≡ (err e, s')
    → s' ≡ s
unfolding check_new may_change
check_new_err db y value external_id s h = ground (arith, h)

-- The parent that a value names.
abbrev pub IsParentFor : Database → Taxonomy → Str → Store → Option Tag → Type 0
IsParentFor db y value s none = value ≡ []
IsParentFor db y value s (some p) = (value ≢ []) × (with_value db y value s ≡ p ∷ [])

parent_ok :
    (db : Database) (y : Taxonomy) (value : Str) (s : Store) {p : Option Tag} {s' : Store}
    → IsNumbered s
    → parent_for_value db y value s ≡ (ok p, s')
    → (s' ≡ s) × IsParentFor db y value s p × MayBeAbove s.tags (some y.id) p (id_of p)
unfolding parent_for_value
parent_ok db y [] s {p} n h =
    let e : none ≡ p = ground (arith, h) in
    (
      ground (arith, h),
      subst (IsParentFor db y [] s) e refl,
      subst (λ q. MayBeAbove s.tags (some y.id) q (id_of q)) e tt,
    )
parent_ok db y (c ∷ cs) s {p} n h =
    let (t, s1, e1, h1) = and_then-eq-ok (the_tag db y (c ∷ cs) s) _ h in
    let (same, one, here, at) = the_tag_ok db y (c ∷ cs) s n.keyed e1 in
    let e : some t ≡ p = ground (arith, h1) in
    (
      ground (arith, h1, same),
      subst (IsParentFor db y (c ∷ cs) s) e ((λ bad. cc), one),
      subst (λ q. MayBeAbove s.tags (some y.id) q (id_of q)) e (t, here, at, inr refl),
    )

parent_err :
    (db : Database) (y : Taxonomy) (value : Str) (s : Store) {e : Error} {s' : Store}
    → parent_for_value db y value s ≡ (err e, s')
    → s' ≡ s
unfolding parent_for_value
parent_err db y [] s h = absurd (ground (arith, h))
parent_err db y (c ∷ cs) s h = elim (and_then-eq-err (the_tag db y (c ∷ cs) s) _ h) [
  | inl bad ↦ the_tag_err db y (c ∷ cs) s bad
  | inr (t, s1, e1, h1) ↦ absurd (ground (arith, h1))
]

-- What an addition comes to. The validation after the save may fail, and leaves the tag in the
-- tables.
abbrev pub IsAddition : Database → Taxonomy → Str → Str → Str → Store → Result Tag → Store → Type 0
IsAddition db y value parent_value external_id s (ok r) s' =
    (y.allow_free_text ≡ false)
    × (y.read_only ≡ false)
    × (with_value db y value s ≡ [])
    × (p : Option Tag) × (tag : Tag) × IsParentFor db y parent_value s p
    × IsAdded db (new_tag y value p external_id) s tag s'
    × (full_clean db tag s' ≡ (ok r, s'))
IsAddition db y value parent_value external_id s (err e) s' =
    (s' ≡ s)
    ⊎ ((p : Option Tag) × (tag : Tag) × IsParentFor db y parent_value s p
        × IsAdded db (new_tag y value p external_id) s tag s'
        × (full_clean db tag s' ≡ (err e, s')))

nothing : {A : Type 0} (xs : List A) → is_empty xs ≡ true → xs ≡ []
nothing [] h = refl
nothing (x ∷ xs) h = cc

module _ (db : Database) (y : Taxonomy) (value parent_value external_id : Str) (s : Store)
    (sound : IsSound db s) where
  added :
      (p : Option Tag) {tag : Tag} {s' : Store}
      → MayBeAbove s.tags (some y.id) p (id_of p)
      → save db (new_tag y value p external_id) p s ≡ (ok tag, s')
      → IsAdded db (new_tag y value p external_id) s tag s'
  added p may h =
      save_new db (new_tag y value p external_id) y.id p s sound.forest sound.numbered refl refl may
        h

  create_ok :
      (p : Option Tag) {r : Tag} {s' : Store}
      → MayBeAbove s.tags (some y.id) p (id_of p)
      → create_tag db y value p external_id s ≡ (ok r, s')
      → (tag : Tag) × IsAdded db (new_tag y value p external_id) s tag s'
        × (full_clean db tag s' ≡ (ok r, s'))
  unfolding create_tag
  create_ok p {r} {s'} may h =
      let (tag, s1, e1, h1) = and_then-eq-ok (save db (new_tag y value p external_id) p s) _ h in
      let same : s' ≡ s1 = full_clean_same db tag s1 h1 in
      (
        tag,
        subst (IsAdded db (new_tag y value p external_id) s tag) (sym same) (added p may e1),
        subst (λ z. full_clean db tag z ≡ (ok r, s')) (sym same) h1,
      )

  create_err :
      (p : Option Tag) {e : Error} {s' : Store}
      → MayBeAbove s.tags (some y.id) p (id_of p)
      → create_tag db y value p external_id s ≡ (err e, s')
      → (s' ≡ s)
        ⊎ ((tag : Tag) × IsAdded db (new_tag y value p external_id) s tag s'
            × (full_clean db tag s' ≡ (err e, s')))
  unfolding create_tag
  create_err p {e} {s'} may h =
      elim (and_then-eq-err (save db (new_tag y value p external_id) p s) _ h) [
        | inl bad ↦ inl (save_new_err db (new_tag y value p external_id) p s refl bad)
        | inr (tag, s1, e1, h1) ↦
            let same : s' ≡ s1 = full_clean_same db tag s1 h1 in
            inr (
              tag,
              subst (IsAdded db (new_tag y value p external_id) s tag) (sym same) (added p may e1),
              subst (λ z. full_clean db tag z ≡ (err e, s')) (sym same) h1,
            )
      ]

-- An addition of a tag raises, and leaves the tables or the tag in them that failed its
-- validation, or adds one tag with the stripped value under the parent that the given value names.
-- In either case the tables are a forest again, and the tag is at most five levels down.
pub add_tag_lem :
    (db : Database) (y : Taxonomy) (value parent_value external_id : Str) (s : Store)
    (res : Result Tag) (s' : Store)
    → IsSound db s
    → add_tag db y value parent_value external_id s ≡ (res, s')
    → IsAddition db y value parent_value external_id s res s'
unfolding add_tag
add_tag_lem db y value parent_value external_id s (ok r) s' sound h =
    let (o, s1, e1, h1) = and_then-eq-ok (check_new db y value external_id s) _ h in
    let (same, closed, open_to, new) = check_new_ok db y value external_id s e1 in
    let (p, s2, e2, h2) = and_then-eq-ok (parent_for_value db y parent_value s1) _ h1 in
    let (same', named, may) =
      parent_ok db y parent_value s sound.numbered
        (subst (λ z. parent_for_value db y parent_value z ≡ (ok p, s2)) same e2) in
    let (tag, is_added, valid) =
      create_ok db y value parent_value external_id s sound p may
        (subst (λ z. create_tag db y value p external_id z ≡ (ok r, s')) same' h2) in
    (closed, open_to, nothing (with_value db y value s) new, p, tag, named, is_added, valid)
add_tag_lem db y value parent_value external_id s (err e) s' sound h =
    elim (and_then-eq-err (check_new db y value external_id s) _ h) [
      | inl bad ↦ inl (check_new_err db y value external_id s bad)
      | inr (o, s1, e1, h1) ↦
          let (same, closed, open_to, new) = check_new_ok db y value external_id s e1 in
          elim (and_then-eq-err (parent_for_value db y parent_value s1) _ h1) [
            | inl bad ↦ inl (parent_err db y parent_value s1 bad ∙ same)
            | inr (p, s2, e2, h2) ↦
                let (same', named, may) =
                  parent_ok db y parent_value s sound.numbered
                    (subst (λ z. parent_for_value db y parent_value z ≡ (ok p, s2)) same e2) in
                elim (create_err db y value parent_value external_id s sound p may
                  (subst (λ z. create_tag db y value p external_id z ≡ (err e, s')) same' h2)) [
                    | inl kept ↦ inl kept
                    | inr (tag, is_added, invalid) ↦ inr (p, tag, named, is_added, invalid)
                  ]
          ]
    ]
