-- ===== src/Tagging/Copies/Others.antt =====
-- `copy_tags` changes no other object.
use mathlib.Core.Path.{subst}
use openedx_core.Common.{
  none, ◌+◌, ◌<◌, ◌≡◌, refl, ap, ◌∙◌, inl, inr, Bool, true, false, ◌&&◌, not, List, [], ◌∷◌, ◌++◌,
  ◌==◌, any, select, update_where, All, All-map, All-append, All-both, All-select, arith,
  Bool-cases,
}
use openedx_core.Tagging.Str.{Str}
use openedx_core.Tagging.Models.{Database, ObjectTag, Store}
use openedx_core.Tagging.Monad.{Result, ok, err, and_then-eq-ok}
use openedx_core.Tagging.Objects.{new_object_tag, object_clashes, insert_object, save_object}
use openedx_core.Tagging.Api.{is_of_object}
use openedx_core.Tagging.Api.Rows.{Owned, rows_of_others}
use openedx_core.Tagging.Api.Saves.{added-rows_of, replaced-rows_of, added-Owned, replaced-Owned}
use openedx_core.Tagging.Api.Limit.{IsKeyedObjects, Owned-row}
use openedx_core.Tagging.Api.Steps.{rolled_back_ok, rolled_back_err}
use openedx_core.Tagging.Copies.{
  matches_copy, new_copy, marked, update_or_create, copy_one, copy_all, delete_copied,
  get_object_tags, copy_tags,
}

abbrev pub IsNumberedObjects : Store → Type 0
IsNumberedObjects s = All (λ (o : ObjectTag). o.id < s.next_object_tag) s.object_tags

All-update {ℓ κ} :
    {A : Type ℓ} (P : A → Type κ) (q : A → Bool) (x : A) (xs : List A)
    → P x
    → All P xs
    → All P (update_where q (λ _. x) xs)
All-update P q x [] px h = tt
All-update P q x (y ∷ ys) px h = elim (Bool-cases (q y)) [
  | inl this ↦ rw this (px, All-update P q x ys px h.1)
  | inr past ↦ rw past (h.0, All-update P q x ys px h.1)
]

module _ (db : Database) (dest : Str) where
  -- The rows of the object share no key with a row of another object.
  IsApart : List ObjectTag → List ObjectTag → Type 0
  IsApart os us = All (λ (o : ObjectTag). is_of_object dest o ≡ true → Owned dest os o) us

  Kept : Store → Store → Type 0
  Kept s s' =
      (rows_of_others dest s'.object_tags ≡ rows_of_others dest s.object_tags)
      × IsApart s'.object_tags s'.object_tags
      × IsNumberedObjects s'

  inserted-Kept :
      (o : ObjectTag) (s : Store)
      → o.object_id ≡ dest
      → IsApart s.object_tags s.object_tags
      → IsNumberedObjects s
      → Kept s (record s {
        object_tags = s.object_tags ++ (record o { id = s.next_object_tag }) ∷ [];
        next_object_tag = s.next_object_tag + 1;
      })
  unfolding Kept IsApart
  inserted-Kept o s e apart small =
      let o' = record o { id = s.next_object_tag } in
      let os = s.object_tags in
      (
        (added-rows_of dest o' os e).1,
        All-append _ os (o' ∷ [])
            (All-map _ _ os (λ p own mine. (added-Owned dest o' os (p ∷ []) e (own mine, tt)).0)
              apart)
            (
              (λ _. (
                e,
                All-append _ os (o' ∷ [])
                    (All-map _ _ os (λ p less same. absurd (ground (arith, less, same))) small)
                    ((λ _. e), tt),
              )),
              tt,
            ),
        All-append _ os (o' ∷ []) (All-map _ _ os (λ p less. omega (arith, less)) small)
            (omega arith, tt),
      )

  marked-Kept :
      (p : ObjectTag) (s : Store)
      → Owned dest s.object_tags p
      → p.id < s.next_object_tag
      → IsApart s.object_tags s.object_tags
      → IsNumberedObjects s
      → Kept s (marked db p s)
  unfolding Kept IsApart
  marked-Kept p s own less apart small =
      let p' = record p { is_copied = true } in
      let os = s.object_tags in
      let same = λ (q : ObjectTag). q.id == p'.id in
      (
        (replaced-rows_of dest p' os own.0 own.1).1,
        All-update _ same p' os
            (λ _. (replaced-Owned dest p' os (p' ∷ []) own.0 ((own.0, own.1), tt)).0)
            (All-map _ _ os
              (λ q own' mine. (replaced-Owned dest p' os (q ∷ []) own.0 (own' mine, tt)).0) apart),
        All-update _ same p' os less small,
      )

  update_or_create-Kept :
      (o : ObjectTag) (ps : List ObjectTag) (s : Store) {s' : Store}
      → All (λ (p : ObjectTag). Owned dest s.object_tags p × (p.id < s.next_object_tag)) ps
      → IsApart s.object_tags s.object_tags
      → IsNumberedObjects s
      → update_or_create db dest o ps s ≡ (ok tt, s')
      → Kept s s'
  unfolding update_or_create save_object insert_object new_object_tag
  update_or_create-Kept o [] s {s'} own apart small h =
      elim (Bool-cases (any (λ p. object_clashes db (new_copy db dest o s) p) s.object_tags)) [
        | inl clash ↦ let h' = rw clash at h in absurd (ground (arith, h'))
        | inr free ↦
            let h' = rw free at h in
            subst (Kept s) (ap (λ (z : Result (Unit {0}) × Store). z.1) h')
              (inserted-Kept (new_copy db dest o s) s refl apart small)
      ]
  update_or_create-Kept o (p ∷ []) s own apart small h =
      subst (Kept s) (ap (λ (z : Result (Unit {0}) × Store). z.1) h)
        (marked-Kept p s own.0.0 own.0.1 apart small)
  update_or_create-Kept o (p ∷ q ∷ ps) s own apart small h = absurd (ground (arith, h))

  copy_one-Kept :
      (o : ObjectTag) (s : Store) {s' : Store}
      → IsApart s.object_tags s.object_tags
      → IsNumberedObjects s
      → copy_one db dest o s ≡ (ok tt, s')
      → Kept s s'
  unfolding copy_one matches_copy IsApart
  copy_one-Kept o s apart small h =
      let ps = select (matches_copy db dest o) s.object_tags in
      let both = All-map _ _ s.object_tags (λ p r. r) (All-both _ _ s.object_tags apart small) in
      update_or_create-Kept o ps s
        (All-map _ _ ps (λ p r. (r.0.0 (ground (arith, r.1)), r.0.1))
          (All-select _ (matches_copy db dest o) s.object_tags both))
        apart small h

  copy_all-Kept :
      (os : List ObjectTag) (s : Store) {s' : Store}
      → IsApart s.object_tags s.object_tags
      → IsNumberedObjects s
      → copy_all db dest os s ≡ (ok tt, s')
      → Kept s s'
  unfolding copy_all Kept
  copy_all-Kept [] s apart small h =
      subst (Kept s) (ap (λ (z : Result (Unit {0}) × Store). z.1) h) (refl, apart, small)
  copy_all-Kept (o ∷ os) s apart small h =
      let (o1, s1, e1, h1) = and_then-eq-ok (copy_one db dest o s) _ h in
      let one = copy_one-Kept o s apart small e1 in
      let rest = copy_all-Kept os s1 one.1 one.2 h1 in (rest.0 ∙ one.0, rest.1, rest.2)

  others_left :
      (os : List ObjectTag)
      → rows_of_others dest
          (select (λ (o : ObjectTag). not (is_of_object dest o && o.is_copied)) os)
        ≡ rows_of_others dest os
  others_left [] = refl
  others_left (o ∷ os) = elim (Bool-cases (is_of_object dest o)) [
    | inl mine ↦ elim (Bool-cases o.is_copied) [
      | inl old ↦ rw (mine, old) (others_left os)
      | inr own ↦ rw (mine, own, mine) (others_left os)
    ]
    | inr other ↦ rw (other, other) (ap (λ r. o ∷ r) (others_left os))
  ]

  delete_copied-Kept :
      (s : Store)
      → IsApart s.object_tags s.object_tags
      → IsNumberedObjects s
      → Kept s (delete_copied dest s)
  unfolding delete_copied Kept IsApart
  delete_copied-Kept s apart small =
      let left = λ (o : ObjectTag). not (is_of_object dest o && o.is_copied) in
      let os = s.object_tags in
      (
        others_left os,
        All-map _ _ (select left os)
            (λ o r mine. (
              (r.0 mine).0,
              All-map _ _ (select left os) (λ p k. k.0) (All-select _ left os (r.0 mine).1),
            ))
            (All-select _ left os apart),
        All-map _ _ (select left os) (λ o r. r.0) (All-select _ left os small),
      )

  -- Rows that are found by their keys are apart.
  keyed-IsApart : (os : List ObjectTag) → IsKeyedObjects os → IsApart os os
  unfolding IsApart
  keyed-IsApart os keyed = All-map _ _ os (λ o k mine. Owned-row dest os keyed o k.0 mine) keyed

-- What a call of `copy_tags` leaves.
abbrev pub IsCopied : Str → Store → Result (Unit {0}) → Store → Type 0
IsCopied dest s (ok o) s' = rows_of_others dest s'.object_tags ≡ rows_of_others dest s.object_tags
IsCopied dest s (err e) s' = s' ≡ s

-- A call of `copy_tags`, on a store in which each row of an object is found by its key, below the
-- next one: if it returns, then the rows of all objects but the destination are the ones before,
-- in their order; if it raises, then the store is the one before.
pub copy_tags_lem :
    (db : Database) (source dest : Str) (s : Store) (res : Result (Unit {0})) (s' : Store)
    → IsKeyedObjects s.object_tags
    → IsNumberedObjects s
    → copy_tags db source dest s ≡ (res, s')
    → IsCopied dest s res s'
unfolding copy_tags Kept
copy_tags_lem db source dest s (ok o) s' keyed small h =
    let first = delete_copied-Kept db dest s (keyed-IsApart db dest s.object_tags keyed) small in
    let s1 = delete_copied dest s in
    let rest =
      copy_all-Kept db dest (get_object_tags db source none false s1) s1 first.1 first.2
        (rolled_back_ok s _ h) in
    rest.0 ∙ first.0
copy_tags_lem db source dest s (err e) s' keyed small h = rolled_back_err s _ h
