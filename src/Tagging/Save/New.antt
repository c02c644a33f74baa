-- ===== src/Tagging/Save/New.antt =====
-- `Tag.save` of a tag that is not in the table yet.
use mathlib.Core.Path.{subst}
use openedx_core.Common.{
  ℕ, ◌+◌, ◌≤◌, ◌≡◌, ◌≢◌, refl, sym, ap, ◌∙◌, ◌⊎◌, inl, inr, true, false, List, [], ◌∷◌, ◌++◌,
  Option, none, some, ◌==◌, ltb, elem, arith, Bool-cases,
}
use openedx_core.Tagging.Str.{strip, tab}
use openedx_core.Tagging.Models.{Database, Tag, Store, find_tag}
use openedx_core.Tagging.Monad.{ok}
use openedx_core.Tagging.Save.{
  is_allowed, may_write, insert_row, write_tag, below_parent, cascade, old_values, save,
  taxonomy_max_depth,
}
use openedx_core.Tagging.Save.Forest.{IsPlaced, IsBelow, IsForest, find_tag-id}
use openedx_core.Tagging.Save.Keys.{
  IsNumbered, find_tag-append, find_tag-of_append, fresh_id, append-IsNumbered,
}
use openedx_core.Tagging.Save.Steps.{IsPut, save_steps}
use openedx_core.Tagging.Save.Checks.{at_most_depth, may_write-allowed, may_write-differs, put-same}

-- The row of the parent that a new tag may have.
abbrev pub MayBeAbove : List Tag → Option ℕ → Option Tag → Option ℕ → Type 0
MayBeAbove ts home cached none = Unit {0}
MayBeAbove ts home cached (some p) =
    (w : Tag) × (find_tag ts p ≡ some w)
    × (w.taxonomy ≡ home)
    × ((cached ≡ none) ⊎ (cached ≡ some w))

put-IsBelow :
    (ts : List Tag) (t u : Tag) (cached : Option Tag) (q : Option ℕ)
    → MayBeAbove ts t.taxonomy cached q
    → IsPut ts t cached q u
    → IsBelow ts u q
unfolding below_parent
put-IsBelow ts t u cached none may put = subst (λ z. IsBelow ts z none) (sym put) (refl, refl)
put-IsBelow ts t u (some c) (some p) (w, found, at, fresh) put =
    let e : c ≡ w = elim fresh [ inl bad ↦ absurd (cc) | inr it ↦ cc ] in
    subst (λ z. IsBelow ts z (some p)) (sym (put ∙ ap (λ z. below_parent t (some z)) e))
      (w, found, at, refl, refl)
put-IsBelow ts t u none (some p) (w, found, at, fresh) (v, found', put) =
    let e : v ≡ w = ground (arith, found, found') in
    subst (λ z. IsBelow ts z (some p)) (sym (put ∙ ap (λ z. below_parent t (some z)) e))
      (w, found, at, refl, refl)

IsBelow-append :
    (ts : List Tag) (n u : Tag) (q : Option ℕ) → IsBelow ts u q → IsBelow (ts ++ n ∷ []) u q
IsBelow-append ts n u none b = b
IsBelow-append ts n u (some p) (w, found, at, d, l) = (w, find_tag-append ts n p found, at, d, l)

-- A table with one more tag.
append-IsForest :
    (db : Database) (ts : List Tag) (n : Tag) (x : ℕ)
    → IsForest db ts
    → find_tag ts n.id ≡ none
    → n.taxonomy ≡ some x
    → elem tab n.value ≡ false
    → may_write db n ts ≡ true
    → IsPlaced ts n
    → IsForest db (ts ++ n ∷ [])
append-IsForest db ts n x f new home plain may placed = record {
  placed = λ i u found. elim (find_tag-of_append ts n i found) [
    | inl old ↦ IsBelow-append ts n u u.parent (f.placed i u old)
    | inr (e, at) ↦ IsBelow-append ts n u u.parent (subst (IsPlaced ts) (sym e) placed)
  ];
  homed = λ i u found. elim (find_tag-of_append ts n i found) [
    | inl old ↦ f.homed i u old
    | inr (e, at) ↦ (x, ap (λ (z : Tag). z.taxonomy) e ∙ home)
  ];
  unique = λ i j u v fu fv ht hk. elim (find_tag-of_append ts n i fu) [
    | inl old ↦ elim (find_tag-of_append ts n j fv) [
      | inl old' ↦ f.unique i j u v old old' ht hk
      | inr (e, at) ↦ absurd (
          differs i u old (ht ∙ ap (λ (z : Tag). z.taxonomy) e)
            (hk ∙ ap (λ (z : Tag). db.key z.value) e))
    ]
    | inr (e, at) ↦ elim (find_tag-of_append ts n j fv) [
      | inl old' ↦ absurd (
          differs j v old' (sym ht ∙ ap (λ (z : Tag). z.taxonomy) e)
            (sym hk ∙ ap (λ (z : Tag). db.key z.value) e))
      | inr (e', at') ↦ at ∙ sym at'
    ]
  ];
  no_tab = λ i u found. elim (find_tag-of_append ts n i found) [
    | inl old ↦ f.no_tab i u old
    | inr (e, at) ↦ ap (λ (z : Tag). elem tab z.value) e ∙ plain
  ];
  allowed = λ i u found. elim (find_tag-of_append ts n i found) [
    | inl old ↦ f.allowed i u old
    | inr (e, at) ↦ ap is_allowed e ∙ may_write-allowed db n ts may
  ];
}
  where
    differs :
        (i : ℕ) (u : Tag)
        → find_tag ts i ≡ some u
        → u.taxonomy ≡ n.taxonomy
        → db.key u.value ≢ db.key n.value
    differs i u found = may_write-differs db n ts x may home i u found (λ e.
        let at : i ≡ n.id = sym (find_tag-id ts i u found) ∙ e in
        let bad = sym found ∙ ap (find_tag ts) at ∙ new in cc)

insert_row_ok :
    (db : Database) (t : Tag) (s : Store) {r : Tag} {s' : Store}
    → (t.id == 0) ≡ true
    → write_tag db t s ≡ (ok r, s')
    → (r ≡ record t { id = s.next_tag })
      × (may_write db (record t { id = s.next_tag }) s.tags ≡ true)
      × (s' ≡ record s { tags = s.tags ++ r ∷ []; next_tag = s.next_tag + 1 })
unfolding write_tag insert_row
insert_row_ok db t s {r} {s'} new h =
    elim (Bool-cases (may_write db (record t { id = s.next_tag }) s.tags)) [
      | inl may ↦ let h' = rw (new, may) at h in (ground (arith, h'), may, ground (arith, h'))
      | inr may_not ↦ let h' = rw (new, may_not) at h in absurd (ground (arith, h'))
    ]

cascade-none :
    (db : Database) (t : Tag) (s : Store) {s' : Store} → cascade db none t s ≡ (ok tt, s') → s' ≡ s
unfolding cascade
cascade-none db t s h = ground (arith, h)

-- What a save that adds a tag does.
abbrev pub IsAdded : Database → Tag → Store → Tag → Store → Type 0
IsAdded db t s r s' =
    IsForest db s'.tags
    × IsNumbered s'
    × (s' ≡ record s { tags = s.tags ++ r ∷ []; next_tag = s.next_tag + 1 })
    × (r.id ≡ s.next_tag)
    × (r.taxonomy ≡ t.taxonomy)
    × (r.parent ≡ t.parent)
    × (r.value ≡ strip t.value)
    × (r.depth ≤ taxonomy_max_depth)

pub save_new :
    (db : Database) (t : Tag) (x : ℕ) (cached : Option Tag) (s : Store) {r : Tag} {s' : Store}
    → IsForest db s.tags
    → IsNumbered s
    → t.id ≡ 0
    → t.taxonomy ≡ some x
    → MayBeAbove s.tags t.taxonomy cached t.parent
    → save db t cached s ≡ (ok r, s')
    → IsAdded db t s r s'
save_new db t x cached s {r} {s'} f n new home may h =
    let steps = save_steps db t cached s h in
    let (i, tax, q, v, plain) = steps.is_cleaned in
    let (i', tax', q', v') =
      put-same s.tags steps.cleaned steps.put cached steps.cleaned.parent steps.is_put in
    let (shallow, s1, w, c) = steps.is_written in
    let zero_id : (steps.put.id == 0) ≡ true = ground (arith, i', i, new) in
    let unset : old_values steps.cleaned s ≡ none = ground (arith, i, new) in
    let (it, may', after) = insert_row_ok db steps.put s zero_id w in
    let same = cascade-none db r s1 (subst (λ o. cascade db o r s1 ≡ (ok tt, s')) unset c) in
    let number : r.id ≡ s.next_tag = ap (λ (z : Tag). z.id) it in
    let below =
      put-IsBelow s.tags steps.cleaned steps.put cached steps.cleaned.parent
        (subst (λ z. MayBeAbove s.tags z cached steps.cleaned.parent) (sym tax)
          (subst (MayBeAbove s.tags t.taxonomy cached) (sym q) may))
        steps.is_put in
    let forest : IsForest db (s.tags ++ r ∷ []) =
      append-IsForest db s.tags r x f (ap (find_tag s.tags) number ∙ fresh_id s n)
        (ap (λ (z : Tag). z.taxonomy) it ∙ tax' ∙ tax ∙ home)
        (ap (λ (z : Tag). elem tab z.value) it ∙ ap (elem tab) v' ∙ plain)
        (subst (λ z. may_write db z s.tags ≡ true) (sym it) may')
        (subst (IsPlaced s.tags) (sym it) (subst (IsBelow s.tags steps.put) (sym q') below)) in
    (
      subst (λ (z : Store). IsForest db z.tags) (sym (same ∙ after)) forest,
      subst IsNumbered (sym (same ∙ after)) (append-IsNumbered s r n number),
      same ∙ after,
      number,
      ap (λ (z : Tag). z.taxonomy) it ∙ tax' ∙ tax,
      ap (λ (z : Tag). z.parent) it ∙ q' ∙ q,
      ap (λ (z : Tag). z.value) it ∙ v' ∙ v,
      at_most_depth r.depth (ap (λ (z : Tag). ltb taxonomy_max_depth z.depth) it ∙ shallow),
    )
