-- ===== src/Tagging/Api/Limit.antt =====
-- `tag_object` keeps to the limit of tags of an object, and to the object.
use openedx_core.Common.{
  ℕ, ◌+◌, ◌≤◌, ◌≡◌, refl, sym, ap, ◌∙◌, inl, inr, Bool, true, false, ◌&&◌, not, List, [], ◌∷◌,
  Option, some, ◌==◌, ==_iff, ltb, is_none, length, elem, find, select, All, All-map, All-both,
  All-select, arith,
}
use openedx_core.Tagging.Str.{Str, str_eq, is_empty}
use openedx_core.Tagging.Str.Prefixes.{str_eq→eq, str_eq_refl}
use openedx_core.Tagging.Models.{Database, Tag, Taxonomy, ObjectTag, Store}
use openedx_core.Tagging.Monad.{Result, Error, ok, err, value_error}
use openedx_core.Tagging.Objects.{new_object_tag}
use openedx_core.Tagging.Api.{
  object_max_tags, without_repeats, is_of_object, is_of, other_rows, check_new_tag_count,
  current_rows, Plan, plan, make_plan, delete_objects, write_plan, tag_object,
}
use openedx_core.Tagging.Api.Plans.{
  IsPart, All-part, IsPart-trans, select-IsPart, IsPlan, plan-IsPlan,
}
use openedx_core.Tagging.Api.Rows.{
  rows_of, rows_of_others, object_ids, Owned, deleted-rows_of, own_ids, owned_id, swap_All,
  deleted_others,
}
use openedx_core.Tagging.Api.Saves.{save_all-rows_of}
use openedx_core.Tagging.Api.Steps.{
  rolled_back_ok, guard_ok, guard_err, current_rows-ok, current_rows-err, plan_then_ok,
  plan_then_err, write_plan_err,
}

-- Each row of an object is found by its key, which is not 0.
abbrev pub IsKeyedObjects : List ObjectTag → Type 0
IsKeyedObjects os =
    All
      (λ (o : ObjectTag).
        (find (λ (p : ObjectTag). p.id == o.id) os ≡ some o) × ((o.id == 0) ≡ false))
      os

module _ (object_id : Str) (os : List ObjectTag) (keyed : IsKeyedObjects os) where
  of_new :
      (taxonomy : Option Taxonomy) (t : Option Tag) (v e : Str)
      → Owned object_id os (new_object_tag object_id taxonomy t v e)
  unfolding new_object_tag
  of_new taxonomy t v e = (refl, All-map _ _ os (λ p k at. absurd (ground (arith, k, at))) keyed)

  same_row :
      (o p : ObjectTag)
      → find (λ (z : ObjectTag). z.id == o.id) os ≡ some o
      → find (λ (z : ObjectTag). z.id == p.id) os ≡ some p
      → (p.id == o.id) ≡ true
      → p ≡ o
  same_row o p fo fp e =
      let at : p.id ≡ o.id = (==_iff p.id o.id).0 e in
      let fp' : find (λ (z : ObjectTag). z.id == o.id) os ≡ some p =
        ap (λ i. find (λ (z : ObjectTag). z.id == i) os) (sym at) ∙ fp in
      ground (arith, fo, fp')

  pub Owned-row :
      (o : ObjectTag)
      → find (λ (z : ObjectTag). z.id == o.id) os ≡ some o
      → is_of_object object_id o ≡ true
      → Owned object_id os o
  Owned-row o found mine =
      let e = str_eq→eq o.object_id object_id mine in
      (
        e,
        All-map _ _ os
            (λ p k at. ap (λ (z : ObjectTag). z.object_id) (same_row o p found k.0 at) ∙ e) keyed,
      )

module _ (db : Database) (object_id : Str) (taxonomy : Option Taxonomy) (e : Str) (s : Store)
    (keyed : IsKeyedObjects s.object_tags) where
  abbrev os : List ObjectTag
  os = s.object_tags

  abbrev first_rows : List ObjectTag
  first_rows = current_rows db taxonomy object_id e s

  -- The rows of the object are those that are replaced, and the others.
  split_rows :
      (rows : List ObjectTag)
      → rows_of object_id rows
        ≡ length (select (λ o. is_of_object object_id o && not (is_of db taxonomy e o)) rows)
          + length (select (λ o. is_of_object object_id o && is_of db taxonomy e o) rows)
  split_rows [] = omega arith
  split_rows (o ∷ rows) = ground (arith, split_rows rows)

  first_rows-Owned :
      All (λ (o : ObjectTag). Owned object_id os o × ((o.id == 0) ≡ false)) first_rows
  unfolding current_rows
  first_rows-Owned =
      All-map _ _ first_rows
        (λ o row. (Owned-row object_id os keyed o row.0.0 (ground (arith, row.1)), row.0.1))
        (All-select _ (λ o. is_of_object object_id o && is_of db taxonomy e o) os keyed)

  first_rows-IsPart : IsPart first_rows os
  unfolding current_rows
  first_rows-IsPart = select-IsPart (λ o. is_of_object object_id o && is_of db taxonomy e o) os

  IsMyPlan : ℕ → Plan → Type 0
  IsMyPlan n p =
      IsPlan (Owned object_id os) (λ o v own. own) object_id (of_new object_id os keyed) first_rows
        first_rows-Owned n p

  current_rows-All :
      (cur : List ObjectTag)
      → All (Owned object_id os) cur
      → All
          (λ (o : ObjectTag).
            (is_of_object object_id o ≡ true) × (elem o.id (object_ids cur) ≡ true))
          cur
  current_rows-All cur own =
      All-map _ _ cur
        (λ o both. (ap (λ t. str_eq t object_id) both.0.0 ∙ str_eq_refl object_id, both.1))
        (All-both _ _ cur own (own_ids cur))

  still-Owned :
      (gone : List ℕ) (us : List ObjectTag)
      → All (Owned object_id os) us
      → All (Owned object_id (select (λ (o : ObjectTag). not (elem o.id gone)) os)) us
  still-Owned gone us own =
      All-map _ _ us
        (λ u row. (
          row.0,
          All-map _ _ (select (λ (o : ObjectTag). not (elem o.id gone)) os) (λ p both. both.0)
              (All-select _ (λ (o : ObjectTag). not (elem o.id gone)) os row.1),
        ))
        own

  written-rows_of :
      (n : ℕ) (p : Plan) {s' : Store}
      → IsMyPlan n p
      → write_plan db p s ≡ (ok tt, s')
      → (rows_of object_id s'.object_tags ≤ length (other_rows db taxonomy object_id e s) + n)
        × (rows_of_others object_id s'.object_tags ≡ rows_of_others object_id os)
  unfolding write_plan delete_objects IsMyPlan other_rows current_rows
  written-rows_of n p {s'} i h =
      let own =
        All-map _ (Owned object_id os) p.current (λ o both. both.0)
          (All-part _ i.part first_rows-Owned) in
      let ids = object_ids p.current in
      let saved = rolled_back_ok s _ h in
      let fewer =
        deleted-rows_of object_id ids (IsPart-trans i.part first_rows-IsPart)
          (current_rows-All p.current own) in
      let others = deleted_others object_id ids os (
        All-map _ _ os (λ o all elem_of. owned_id object_id os p.current o all elem_of)
          (swap_All object_id os p.current own)) in
      let (count, others') =
        save_all-rows_of object_id db p.updated (delete_objects p.current s)
          (still-Owned ids p.updated i.sound) saved in
      let all = split_rows os in
      let before = i.balanced in (omega (arith, fewer, count, all, before), others' ∙ others)

-- What a call of `tag_object` leaves.
abbrev pub IsTagged : Str → Store → Result (Unit {0}) → Store → Type 0
IsTagged object_id s (ok o) s' =
    (rows_of object_id s'.object_tags ≤ object_max_tags)
    × (rows_of_others object_id s'.object_tags ≡ rows_of_others object_id s.object_tags)
IsTagged object_id s (err e) s' = s' ≡ s

module _ (db : Database) (object_id : Str) (taxonomy : Option Taxonomy) (tags : List Str)
    (create_invalid : Bool) (export_id : Str) (s s' : Store)
    (keyed : IsKeyedObjects s.object_tags) where
  tag_object-ok :
      tag_object db object_id taxonomy tags create_invalid export_id s ≡ (ok tt, s')
      → IsTagged object_id s (ok tt) s'
  unfolding tag_object check_new_tag_count make_plan IsMyPlan
  tag_object-ok h =
      let values = without_repeats [] tags in
      let (given, h1) = guard_ok (is_none taxonomy && is_empty export_id) value_error _ s h in
      let (few, h2) =
        guard_ok
          (ltb object_max_tags
            (length (other_rows db taxonomy object_id export_id s) + length values))
          value_error _ s h1 in
      let h3 = current_rows-ok db taxonomy object_id export_id s values _ h2 in
      let current = current_rows db taxonomy object_id export_id s in
      let (p, planned, h4) =
        plan_then_ok (plan db s taxonomy object_id export_id create_invalid values current) s
          (write_plan db) h3 in
      let mine =
        plan-IsPlan (Owned object_id s.object_tags) (λ o v own. own) object_id
          (of_new object_id s.object_tags keyed) current
          (first_rows-Owned db object_id taxonomy export_id s keyed) db s taxonomy export_id
          create_invalid values planned in
      let (count, others) =
        written-rows_of db object_id taxonomy export_id s keyed (length values) p mine h4 in
      let most : length (other_rows db taxonomy object_id export_id s) + length values
          ≤ object_max_tags =
        ground (arith, few) in
      (omega (arith, count, most), others)

  tag_object-err :
      {e : Error}
      → tag_object db object_id taxonomy tags create_invalid export_id s ≡ (err e, s')
      → s' ≡ s
  unfolding tag_object check_new_tag_count make_plan
  tag_object-err h =
      let values = without_repeats [] tags in
      elim (guard_err (is_none taxonomy && is_empty export_id) value_error _ s h) [
        | inl same ↦ same
        | inr h1 ↦
            elim (guard_err
              (ltb object_max_tags
                (length (other_rows db taxonomy object_id export_id s) + length values))
              value_error _ s h1) [
                | inl same ↦ same
                | inr h2 ↦ elim (current_rows-err db taxonomy object_id export_id s values _ h2) [
                  | inl same ↦ same
                  | inr h3 ↦
                      elim (plan_then_err
                        (plan db s taxonomy object_id export_id create_invalid values
                          (current_rows db taxonomy object_id export_id s))
                        s (write_plan db) h3) [
                          | inl same ↦ same
                          | inr (p, h4) ↦ write_plan_err db p s h4
                        ]
                ]
              ]
      ]

-- A call of `tag_object`, on a store in which each row of an object is found by its key: if it
-- returns, then the object has at most `object_max_tags` rows, and the rows of the other objects
-- are the ones before, in their order; if it raises, then the store is the one before.
pub tag_object_lem :
    (db : Database) (object_id : Str) (taxonomy : Option Taxonomy) (tags : List Str)
    (create_invalid : Bool) (export_id : Str) (s : Store) (res : Result (Unit {0})) (s' : Store)
    → IsKeyedObjects s.object_tags
    → tag_object db object_id taxonomy tags create_invalid export_id s ≡ (res, s')
    → IsTagged object_id s res s'
tag_object_lem db object_id taxonomy tags create_invalid export_id s (ok tt) s' keyed h =
    tag_object-ok db object_id taxonomy tags create_invalid export_id s s' keyed h
tag_object_lem db object_id taxonomy tags create_invalid export_id s (err x) s' keyed h =
    tag_object-err db object_id taxonomy tags create_invalid export_id s s' keyed h
