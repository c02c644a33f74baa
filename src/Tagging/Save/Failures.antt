-- ===== src/Tagging/Save/Failures.antt =====
-- A `Tag.save` that raises: nothing is written, unless the cascade fails.
use mathlib.Core.Path.{subst}
use openedx_core.Common.{
  ℕ, ◌≡◌, sym, ◌∙◌, ◌⊎◌, inl, inr, Option, none, some, ltb, arith, Bool-cases, Option-cases,
}
use openedx_core.Tagging.Str.{is_empty}
use openedx_core.Tagging.Models.{Database, Tag, Store, find_tag}
use openedx_core.Tagging.Monad.{
  Error, ok, err, pure, ◌>>=◌, ◌>>◌, raise_if, and_then-eq-err, raise_if-eq-ok, raise_if-eq-err,
}
use openedx_core.Tagging.ExternalIds.{free_external_id}
use openedx_core.Tagging.Save.{
  clean, with_external_id, place_below, place_under, place, insert_row, update_row, write_tag,
  cascade, old_values, prepare, write_and_cascade, save, taxonomy_max_depth,
}
use openedx_core.Tagging.Save.Steps.{IsCleaned, IsPut, clean_ok, prepare_ok, place_ok}

clean_err : (t : Tag) (s : Store) {e : Error} {s' : Store} → clean t s ≡ (err e, s') → s' ≡ s
unfolding clean
clean_err t s h = ground (arith, h)

with_external_id_err :
    (db : Database) (t : Tag) (s : Store) {e : Error} {s' : Store}
    → with_external_id db t s ≡ (err e, s')
    → s' ≡ s
unfolding with_external_id
with_external_id_err db t s h = elim (Bool-cases (is_empty t.external_id)) [
  | inl empty ↦ elim (Option-cases t.taxonomy) [
    | inl none_at ↦ let h' = rw (empty, none_at) at h in ground (arith, h')
    | inr (x, at) ↦ elim (Option-cases (free_external_id db x t.id t.value s.tags)) [
      | inl out ↦ let h' = rw (empty, at, out) at h in ground (arith, h')
      | inr (c, new) ↦ let h' = rw (empty, at, new) at h in absurd (ground (arith, h'))
    ]
  ]
  | inr given ↦ let h' = rw given at h in absurd (ground (arith, h'))
]

prepare_err :
    (db : Database) (t : Tag) (s : Store) {e : Error} {s' : Store}
    → prepare db t s ≡ (err e, s')
    → s' ≡ s
unfolding prepare
prepare_err db t s h = elim (and_then-eq-err (clean t s) _ h) [
  | inl bad ↦ clean_err t s bad
  | inr (t1, s1, e1, h1) ↦ with_external_id_err db t1 s1 h1 ∙ (clean_ok t s e1).0
]

place_below_err :
    (t : Tag) (w : Option Tag) (s : Store) {e : Error} {s' : Store}
    → place_below t w s ≡ (err e, s')
    → s' ≡ s
unfolding place_below
place_below_err t none s h = ground (arith, h)
place_below_err t (some u) s h = absurd (ground (arith, h))

place_under_err :
    (t : Tag) (cached : Option Tag) (q : Option ℕ) (s : Store) {e : Error} {s' : Store}
    → place_under t cached q s ≡ (err e, s')
    → s' ≡ s
unfolding place_under
place_under_err t cached none s h = absurd (ground (arith, h))
place_under_err t (some u) (some p) s h = place_below_err t (some u) s h
place_under_err t none (some p) s h = place_below_err t (find_tag s.tags p) s h

place_err :
    (t : Tag) (cached : Option Tag) (s : Store) {e : Error} {s' : Store}
    → place t cached s ≡ (err e, s')
    → s' ≡ s
unfolding place
place_err t cached s h = place_under_err t cached t.parent s h

write_tag_err :
    (db : Database) (t : Tag) (s : Store) {e : Error} {s' : Store}
    → write_tag db t s ≡ (err e, s')
    → s' ≡ s
unfolding write_tag insert_row update_row
write_tag_err db t s h = ground (arith, h)

-- A cascade that fails after the write.
abbrev pub CascadeFails : Database → Option Tag → Tag → Store → Error → Store → Type 0
CascadeFails db old t s e s' =
    (r : Tag) × (s1 : Store) × (write_tag db t s ≡ (ok r, s1)) × (cascade db old r s1 ≡ (err e, s'))

cascade_then_err :
    (db : Database) (old : Option Tag) (t : Tag) (s : Store) {e : Error} {s' : Store}
    → (cascade db old t >> pure t) s ≡ (err e, s')
    → cascade db old t s ≡ (err e, s')
cascade_then_err db old t s h = elim (and_then-eq-err (cascade db old t s) _ h) [
  | inl bad ↦ ground (arith, bad)
  | inr (o, s1, e1, h1) ↦ absurd (ground (arith, h1))
]

write_and_cascade_err :
    (db : Database) (old : Option Tag) (t : Tag) (s : Store) {e : Error} {s' : Store}
    → write_and_cascade db old t s ≡ (err e, s')
    → (s' ≡ s) ⊎ CascadeFails db old t s e s'
unfolding write_and_cascade
write_and_cascade_err db old t s {e} {s'} h =
    elim (and_then-eq-err (raise_if (ltb taxonomy_max_depth t.depth) _ s) _ h) [
      | inl deep ↦ inl (raise_if-eq-err (ltb taxonomy_max_depth t.depth) _ s deep)
      | inr (o, s1, e1, h1) ↦
          let (shallow, same) = raise_if-eq-ok (ltb taxonomy_max_depth t.depth) _ s e1 in
          elim (and_then-eq-err (write_tag db t s1) _ h1) [
            | inl bad ↦ inl (write_tag_err db t s1 bad ∙ sym same)
            | inr (r, s2, e2, h2) ↦ inr (
              r,
              s2,
              subst (λ z. write_tag db t z ≡ (ok r, s2)) (sym same) e2,
              cascade_then_err db old r s2 h2,
            )
          ]
    ]

-- A save that raises leaves the tables, or its cascade failed.
pub record HasFailed (db : Database) (t : Tag) (cached : Option Tag) (s : Store) (e : Error)
    (s' : Store) : Type 0 where
  pub cleaned : Tag
  pub put : Tag
  pub is_cleaned : IsCleaned t cleaned
  pub is_put : IsPut s.tags cleaned cached cleaned.parent put
  pub fails : CascadeFails db (old_values cleaned s) put s e s'

place_then_err :
    (db : Database) (t u : Tag) (cached : Option Tag) (s : Store) {e : Error} {s' : Store}
    → IsCleaned t u
    → (place u cached >>= write_and_cascade db (old_values u s)) s ≡ (err e, s')
    → (s' ≡ s) ⊎ HasFailed db t cached s e s'
place_then_err db t u cached s {e} {s'} cleaned h = elim (and_then-eq-err (place u cached s) _ h) [
  | inl bad ↦ inl (place_err u cached s bad)
  | inr (v, s1, e1, h1) ↦
      let (same, put) = place_ok u cached s e1 in
      let h' = subst (λ z. write_and_cascade db (old_values u s) v z ≡ (err e, s')) same h1 in
      elim (write_and_cascade_err db (old_values u s) v s h') [
        | inl kept ↦ inl kept
        | inr failed ↦
            inr
              (record { cleaned = u; put = v; is_cleaned = cleaned; is_put = put; fails = failed })
      ]
]

pub save_err :
    (db : Database) (t : Tag) (cached : Option Tag) (s : Store) {e : Error} {s' : Store}
    → save db t cached s ≡ (err e, s')
    → (s' ≡ s) ⊎ HasFailed db t cached s e s'
unfolding save
save_err db t cached s {e} {s'} h = elim (and_then-eq-err (prepare db t s) _ h) [
  | inl bad ↦ inl (prepare_err db t s bad)
  | inr (u, s1, e1, h1) ↦
      let (same, cleaned) = prepare_ok db t s e1 in
      place_then_err db t u cached s cleaned (
        subst (λ z. (place u cached >>= write_and_cascade db (old_values u z)) z ≡ (err e, s')) same
          h1)
]
