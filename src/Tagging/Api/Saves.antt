-- ===== src/Tagging/Api/Saves.antt =====
-- The rows of an object, when rows of it are saved.
use mathlib.Core.Path.{subst}
use openedx_core.Common.{
  ℕ, suc, ◌+◌, ◌≤◌, ◌≡◌, refl, ap, ◌∙◌, inl, inr, true, not, List, [], ◌∷◌, ◌++◌, ◌==◌, length, any,
  select, update_where, All, All-map, All-append, select-append, arith, Bool-cases,
}
use mathlib.Core.List.{append-nil}
use openedx_core.Tagging.Str.{Str, str_eq}
use openedx_core.Tagging.Str.Prefixes.{str_eq_refl}
use openedx_core.Tagging.Models.{Database, ObjectTag, Store}
use openedx_core.Tagging.Monad.{Result, ok, and_then-eq-ok}
use openedx_core.Tagging.Objects.{
  full_clean_object, object_clashes, insert_object, stored_object, save_object,
}
use openedx_core.Tagging.Api.{is_of_object, save_all}
use openedx_core.Tagging.Api.Plans.{news}
use openedx_core.Tagging.Api.Rows.{rows_of, rows_of_others, Owned}

length-append {ℓ} : {A : Type ℓ} (xs ys : List A) → length (xs ++ ys) ≡ length xs + length ys
length-append [] ys = omega arith
length-append (x ∷ xs) ys = omega (arith, length-append xs ys)

module _ (object_id : Str) where
  owned_is : (o : ObjectTag) → o.object_id ≡ object_id → is_of_object object_id o ≡ true
  owned_is o e = ap (λ t. str_eq t object_id) e ∙ str_eq_refl object_id

  -- A row of the object is added.
  pub added-rows_of :
      (o : ObjectTag) (os : List ObjectTag)
      → o.object_id ≡ object_id
      → (rows_of object_id (os ++ o ∷ []) ≡ rows_of object_id os + 1)
        × (rows_of_others object_id (os ++ o ∷ []) ≡ rows_of_others object_id os)
  added-rows_of o os e =
      let mine = owned_is o e in
      (
        ap length (select-append (is_of_object object_id) os (o ∷ []))
            ∙ length-append (select (is_of_object object_id) os)
                (select (is_of_object object_id) (o ∷ []))
            ∙ rw mine refl,
        select-append (λ (p : ObjectTag). not (is_of_object object_id p)) os (o ∷ [])
            ∙ rw mine (append-nil _),
      )

  -- Rows of the object are replaced by one of the object.
  pub replaced-rows_of :
      (o : ObjectTag) (os : List ObjectTag)
      → o.object_id ≡ object_id
      → All (λ (p : ObjectTag). (p.id == o.id) ≡ true → p.object_id ≡ object_id) os
      → (rows_of object_id (update_where (λ (p : ObjectTag). p.id == o.id) (λ _. o) os)
          ≡ rows_of object_id os)
        × (rows_of_others object_id (update_where (λ (p : ObjectTag). p.id == o.id) (λ _. o) os)
            ≡ rows_of_others object_id os)
  replaced-rows_of o [] e h = (refl, refl)
  replaced-rows_of o (p ∷ os) e h =
      let (count, others) = replaced-rows_of o os e h.1 in
      elim (Bool-cases (p.id == o.id)) [
        | inl this ↦
            let was = owned_is p (h.0 this) in
            let is = owned_is o e in rw (this, is, was) (ap suc count, others)
        | inr past ↦ elim (Bool-cases (is_of_object object_id p)) [
          | inl mine ↦ rw (past, mine) (ap suc count, others)
          | inr other ↦ rw (past, other) (count, ap (λ r. p ∷ r) others)
        ]
      ]

  -- Rows are owned in the table after one of the object was added or replaced.
  pub added-Owned :
      (o : ObjectTag) (os us : List ObjectTag)
      → o.object_id ≡ object_id
      → All (Owned object_id os) us
      → All (Owned object_id (os ++ o ∷ [])) us
  added-Owned o os us e h =
      All-map _ _ us (λ u own. (own.0, All-append _ os (o ∷ []) own.1 ((λ _. e), tt))) h

  pub replaced-Owned :
      (o : ObjectTag) (os us : List ObjectTag)
      → o.object_id ≡ object_id
      → All (Owned object_id os) us
      → All (Owned object_id (update_where (λ (p : ObjectTag). p.id == o.id) (λ _. o) os)) us
  replaced-Owned o os us e h = All-map _ _ us (λ u own. (own.0, go o os u e own.1)) h
    where
      go :
          (o : ObjectTag) (os : List ObjectTag) (u : ObjectTag)
          → o.object_id ≡ object_id
          → All (λ (p : ObjectTag). (p.id == u.id) ≡ true → p.object_id ≡ object_id) os
          → All
              (λ (p : ObjectTag). (p.id == u.id) ≡ true → p.object_id ≡ object_id)
              (update_where (λ (p : ObjectTag). p.id == o.id) (λ _. o) os)
      go o [] u e h = tt
      go o (p ∷ os) u e h = elim (Bool-cases (p.id == o.id)) [
        | inl this ↦ rw this ((λ _. e), go o os u e h.1)
        | inr past ↦ rw past (h.0, go o os u e h.1)
      ]

  -- What saving some rows leaves.
  abbrev pub IsSavedTo : ℕ → List ObjectTag → List ObjectTag → Type 0
  IsSavedTo n os os' =
      (rows_of object_id os' ≤ rows_of object_id os + n)
      × (rows_of_others object_id os' ≡ rows_of_others object_id os)

  save_object_ok :
      (db : Database) (o : ObjectTag) (us : List ObjectTag) (s : Store) {s' : Store}
      → Owned object_id s.object_tags o
      → All (Owned object_id s.object_tags) us
      → save_object db o s ≡ (ok tt, s')
      → IsSavedTo (news (o ∷ [])) s.object_tags s'.object_tags
        × All (Owned object_id s'.object_tags) us
  unfolding save_object insert_object
  save_object_ok db o us s {s'} own owns h =
      elim (Bool-cases (any (λ p. object_clashes db o p) s.object_tags)) [
        | inl clash ↦ let h' = rw clash at h in absurd (ground (arith, h'))
        | inr free ↦ elim (Bool-cases (o.id == 0)) [
          | inl new ↦
              let o' = record o { id = s.next_object_tag } in
              let h' = rw (free, new) at h in
              let e : s.object_tags ++ o' ∷ [] ≡ s'.object_tags =
                ap (λ (z : Result (Unit {0}) × Store). z.1.object_tags) h' in
              let one : news (o ∷ []) ≡ 1 = rw new refl in
              let (count, others) = added-rows_of o' s.object_tags own.0 in
              subst (λ os. IsSavedTo (news (o ∷ [])) s.object_tags os × All (Owned object_id os) us)
                e ((omega (arith, one, count), others), added-Owned o' s.object_tags us own.0 owns)
          | inr old ↦
              let h' = rw (free, old) at h in
              let e : stored_object db o s.object_tags ≡ s'.object_tags =
                ap (λ (z : Result (Unit {0}) × Store). z.1.object_tags) h' in
              let (count, others) = replaced-rows_of o s.object_tags own.0 own.1 in
              subst (λ os. IsSavedTo (news (o ∷ [])) s.object_tags os × All (Owned object_id os) us)
                e ((omega (arith, count), others), replaced-Owned o s.object_tags us own.0 owns)
        ]
      ]

  full_clean_keeps :
      (db : Database) (o : ObjectTag) (s : Store) {s' : Store}
      → full_clean_object db o s ≡ (ok tt, s')
      → s' ≡ s
  unfolding full_clean_object
  full_clean_keeps db o s h = ground (arith, h)

  news-cons : (o : ObjectTag) (us : List ObjectTag) → news (o ∷ us) ≡ news (o ∷ []) + news us
  news-cons o us = ground arith

  pub save_all-rows_of :
      (db : Database) (us : List ObjectTag) (s : Store) {s' : Store}
      → All (Owned object_id s.object_tags) us
      → save_all db us s ≡ (ok tt, s')
      → IsSavedTo (news us) s.object_tags s'.object_tags
  unfolding save_all
  save_all-rows_of db [] s {s'} own h =
      let e : s.object_tags ≡ s'.object_tags =
        ap (λ (z : Result (Unit {0}) × Store). z.1.object_tags) h in
      subst (IsSavedTo 0 s.object_tags) e (omega arith, refl)
  save_all-rows_of db (o ∷ us) s {s'} own h =
      let (o1, s1, e1, h1) = and_then-eq-ok (full_clean_object db o s) _ h in
      let (o2, s2, e2, h2) = and_then-eq-ok (save_object db o s1) _ h1 in
      let same : s1 ≡ s = full_clean_keeps db o s e1 in
      let ((count, others), own') =
        save_object_ok db o us s own.0 own.1
          (subst (λ z. save_object db o z ≡ (ok tt, s2)) same e2) in
      let (count', others') = save_all-rows_of db us s2 own' h2 in
      (omega (arith, count, count', news-cons o us), others' ∙ others)
