-- ===== src/Tagging/Api/Rows.antt =====
-- The rows of an object, when some of them are deleted.
use openedx_core.Common.{
  ℕ, ◌+◌, ◌≤◌, ◌≡◌, refl, ap, ◌∙◌, inl, inr, true, not, List, [], ◌∷◌, ◌==◌, length, elem, select,
  map, All, All-map, All-both, All-every, arith, Bool-cases,
}
use openedx_core.Tagging.Str.{Str, str_eq}
use openedx_core.Tagging.Str.Prefixes.{str_eq_refl}
use openedx_core.Tagging.Models.{ObjectTag}
use openedx_core.Tagging.Api.{is_of_object}
use openedx_core.Tagging.Api.Plans.{IsPart, part_nil, part_keep, part_skip}

-- The number of an object's rows, and the rows of the others.
abbrev pub rows_of : Str → List ObjectTag → ℕ
rows_of object_id os = length (select (is_of_object object_id) os)

abbrev pub rows_of_others : Str → List ObjectTag → List ObjectTag
rows_of_others object_id os = select (λ (o : ObjectTag). not (is_of_object object_id o)) os

abbrev pub object_ids : List ObjectTag → List ℕ
object_ids os = map (λ (o : ObjectTag). o.id) os

-- A row of the object, whose key no row of another object has.
abbrev pub Owned : Str → List ObjectTag → ObjectTag → Type 0
Owned object_id os o =
    (o.object_id ≡ object_id)
    × All (λ (p : ObjectTag). (p.id == o.id) ≡ true → p.object_id ≡ object_id) os

-- Deleting rows of an object.
pub deleted-rows_of :
    (object_id : Str) (gone : List ℕ) {cur os : List ObjectTag}
    → IsPart cur os
    → All (λ (o : ObjectTag). (is_of_object object_id o ≡ true) × (elem o.id gone ≡ true)) cur
    → rows_of object_id (select (λ (o : ObjectTag). not (elem o.id gone)) os) + length cur
      ≤ rows_of object_id os
deleted-rows_of object_id gone part_nil h = omega arith
deleted-rows_of object_id gone (part_keep {x = o} k) h =
    let (mine, deleted) = h.0 in
    rw (deleted, mine) (omega (arith, deleted-rows_of object_id gone k h.1))
deleted-rows_of object_id gone (part_skip {x = o} k) h =
    let rest = deleted-rows_of object_id gone k h in
    elim (Bool-cases (elem o.id gone)) [
      | inl deleted ↦ elim (Bool-cases (is_of_object object_id o)) [
        | inl mine ↦ rw (deleted, mine) (omega (arith, rest))
        | inr other ↦ rw (deleted, other) rest
      ]
      | inr kept ↦ elim (Bool-cases (is_of_object object_id o)) [
        | inl mine ↦ rw (kept, mine) (omega (arith, rest))
        | inr other ↦ rw (kept, other) rest
      ]
    ]

pub own_ids : (os : List ObjectTag) → All (λ (o : ObjectTag). elem o.id (object_ids os) ≡ true) os
own_ids [] = tt
own_ids (o ∷ os) = (ground arith, All-map _ _ os (λ p h. ground (arith, h)) (own_ids os))

-- A key among those of owned rows is that of a row of the object.
pub owned_id :
    (object_id : Str) (os cur : List ObjectTag) (p : ObjectTag)
    → All (λ (o : ObjectTag). (p.id == o.id) ≡ true → p.object_id ≡ object_id) cur
    → elem p.id (object_ids cur) ≡ true
    → is_of_object object_id p ≡ true
owned_id object_id os [] p h e = cc
owned_id object_id os (o ∷ cur) p h e = elim (Bool-cases (p.id == o.id)) [
  | inl this ↦ ap (λ i. str_eq i object_id) (h.0 this) ∙ str_eq_refl object_id
  | inr other ↦ owned_id object_id os cur p h.1 (ground (arith, other, e))
]

-- The rows of a list and the rows of a table, the other way round.
pub swap_All :
    (object_id : Str) (os cur : List ObjectTag)
    → All (Owned object_id os) cur
    → All
        (λ (p : ObjectTag).
          All (λ (o : ObjectTag). (p.id == o.id) ≡ true → p.object_id ≡ object_id) cur)
        os
swap_All object_id os [] h = All-every _ os (λ (p : ObjectTag). tt)
swap_All object_id os (o ∷ cur) h =
    All-map _ _ os (λ p both. (both.0, both.1))
      (All-both _ _ os h.0.1 (swap_All object_id os cur h.1))

pub deleted_others :
    (object_id : Str) (gone : List ℕ) (os : List ObjectTag)
    → All (λ (p : ObjectTag). elem p.id gone ≡ true → is_of_object object_id p ≡ true) os
    → rows_of_others object_id (select (λ (o : ObjectTag). not (elem o.id gone)) os)
      ≡ rows_of_others object_id os
deleted_others object_id gone [] h = refl
deleted_others object_id gone (o ∷ os) h =
    let rest = deleted_others object_id gone os h.1 in
    elim (Bool-cases (elem o.id gone)) [
      | inl deleted ↦ let mine = h.0 deleted in rw (deleted, mine) rest
      | inr kept ↦ elim (Bool-cases (is_of_object object_id o)) [
        | inl mine ↦ rw (kept, mine) rest
        | inr other ↦ rw (kept, other) (ap (λ r. o ∷ r) rest)
      ]
    ]
