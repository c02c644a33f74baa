-- ===== src/Tagging/Api/Steps.antt =====
-- The steps of `tag_object`: a chain that returns or raises does so at one of them.
use openedx_core.Common.{
  ◌≡◌, refl, ◌⊎◌, inl, inr, Bool, true, false, ◌&&◌, List, Option, ltb, length, arith,
}
use openedx_core.Tagging.Str.{Str}
use openedx_core.Tagging.Models.{Database, Taxonomy, ObjectTag, Store}
use openedx_core.Tagging.Monad.{
  Result, Error, ok, err, raise_if, rolled_back, gets, value_error, and_then,
}
use openedx_core.Tagging.Api.{is_single, current_rows, get_current_tags, Plan, write_plan}

pub rolled_back_ok :
    (s : Store) (r : Result (Unit {0}) × Store) {s' : Store}
    → rolled_back s r ≡ (ok tt, s')
    → r ≡ (ok tt, s')
rolled_back_ok s (ok o, s1) h = h
rolled_back_ok s (err e, s1) h = absurd (ground (arith, h))

pub rolled_back_err :
    (s : Store) (r : Result (Unit {0}) × Store) {e : Error} {s' : Store}
    → rolled_back s r ≡ (err e, s')
    → s' ≡ s
rolled_back_err s (ok o, s1) h = absurd (ground (arith, h))
rolled_back_err s (err e, s1) h = ground (arith, h)

-- A guard passes, and what follows runs on the same store.
pub guard_ok :
    {A : Type 0} (b : Bool) (d : Error) (f : Unit {0} → Store → Result A × Store) (s : Store)
    {a : A} {s' : Store}
    → and_then (raise_if b d s) f ≡ (ok a, s')
    → (b ≡ false) × (f tt s ≡ (ok a, s'))
guard_ok true d f s h = absurd (ground (arith, h))
guard_ok false d f s h = (refl, h)

pub guard_err :
    {A : Type 0} (b : Bool) (d : Error) (f : Unit {0} → Store → Result A × Store) (s : Store)
    {e : Error} {s' : Store}
    → and_then (raise_if b d s) f ≡ (err e, s')
    → (s' ≡ s) ⊎ (f tt s ≡ (err e, s'))
guard_err true d f s h = inl (ground (arith, h))
guard_err false d f s h = inr h

module _ (db : Database) (taxonomy : Option Taxonomy) (object_id e : Str) (s : Store) where
  -- The current rows are read, after a check.
  pub current_rows-ok :
      (values : List Str) {A : Type 0} (f : List ObjectTag → Store → Result A × Store) {a : A}
      {s' : Store}
      → and_then (get_current_tags db taxonomy values object_id e s) f ≡ (ok a, s')
      → f (current_rows db taxonomy object_id e s) s ≡ (ok a, s')
  unfolding get_current_tags
  current_rows-ok values f h = go (is_single taxonomy && ltb 1 (length values)) f h
    where
      go :
          (b : Bool) {A : Type 0} (f : List ObjectTag → Store → Result A × Store) {a : A}
          {s' : Store}
          → and_then
              (and_then
                (raise_if b value_error s)
                (λ _. gets (current_rows db taxonomy object_id e)))
              f
            ≡ (ok a, s')
          → f (current_rows db taxonomy object_id e s) s ≡ (ok a, s')
      go true f h = absurd (ground (arith, h))
      go false f h = h

  pub current_rows-err :
      (values : List Str) {A : Type 0} (f : List ObjectTag → Store → Result A × Store) {x : Error}
      {s' : Store}
      → and_then (get_current_tags db taxonomy values object_id e s) f ≡ (err x, s')
      → (s' ≡ s) ⊎ (f (current_rows db taxonomy object_id e s) s ≡ (err x, s'))
  unfolding get_current_tags
  current_rows-err values f h = go (is_single taxonomy && ltb 1 (length values)) f h
    where
      go :
          (b : Bool) {A : Type 0} (f : List ObjectTag → Store → Result A × Store) {x : Error}
          {s' : Store}
          → and_then
              (and_then
                (raise_if b value_error s)
                (λ _. gets (current_rows db taxonomy object_id e)))
              f
            ≡ (err x, s')
          → (s' ≡ s) ⊎ (f (current_rows db taxonomy object_id e s) s ≡ (err x, s'))
      go true f h = inl (ground (arith, h))
      go false f h = inr h

pub plan_then_ok :
    (r : Result Plan) (s : Store) (f : Plan → Store → Result (Unit {0}) × Store) {s' : Store}
    → and_then (r, s) f ≡ (ok tt, s')
    → (p : Plan) × (r ≡ ok p) × (f p s ≡ (ok tt, s'))
plan_then_ok (ok p) s f h = (p, refl, h)
plan_then_ok (err e) s f h = absurd (ground (arith, h))

pub plan_then_err :
    (r : Result Plan) (s : Store) (f : Plan → Store → Result (Unit {0}) × Store) {e : Error}
    {s' : Store}
    → and_then (r, s) f ≡ (err e, s')
    → (s' ≡ s) ⊎ ((p : Plan) × (f p s ≡ (err e, s')))
plan_then_err (ok p) s f h = inr (p, h)
plan_then_err (err e) s f h = inl (ground (arith, h))

pub write_plan_err :
    (db : Database) (p : Plan) (s : Store) {e : Error} {s' : Store}
    → write_plan db p s ≡ (err e, s')
    → s' ≡ s
unfolding write_plan
write_plan_err db p s h = rolled_back_err s _ h
