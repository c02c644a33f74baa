-- ===== src/Tagging/Save/Steps.antt =====
-- The parts of a `Tag.save` that succeeds.
use mathlib.Core.Path.{subst}
use openedx_core.Common.{
  ℕ, ◌≡◌, refl, sym, ap, ◌∙◌, inl, inr, false, List, Option, none, some, ltb, elem, arith,
  Bool-cases, Option-cases,
}
use openedx_core.Tagging.Str.{Str, strip, is_empty, tab}
use openedx_core.Tagging.Str.Prefixes.{contains-tab}
use openedx_core.Tagging.Models.{Database, Tag, Store, find_tag}
use openedx_core.Tagging.Monad.{ok, pure, raise_if, ◌>>◌, and_then-eq-ok, raise_if-eq-ok}
use openedx_core.Tagging.ExternalIds.{reserved_tag_chars, free_external_id}
use openedx_core.Tagging.Save.{
  stripped, has_reserved, clean, with_external_id, below_parent, place_below, place_under, place,
  prepare, write_and_cascade, write_tag, cascade, old_values, save, taxonomy_max_depth,
}

-- What cleaning and the external id leave of a tag.
abbrev pub IsCleaned : Tag → Tag → Type 0
IsCleaned t u =
    (u.id ≡ t.id)
    × (u.taxonomy ≡ t.taxonomy)
    × (u.parent ≡ t.parent)
    × (u.value ≡ strip t.value)
    × (elem tab u.value ≡ false)

has_reserved-tab : (v : Str) → has_reserved v ≡ false → elem tab v ≡ false
unfolding has_reserved reserved_tag_chars
has_reserved-tab v h = contains-tab v (ground (arith, h))

pub clean_ok :
    (t : Tag) (s : Store) {u : Tag} {s' : Store}
    → clean t s ≡ (ok u, s')
    → (s' ≡ s) × (u ≡ stripped t) × (has_reserved u.value ≡ false)
unfolding clean
clean_ok t s h = ground (arith, h)

with_external_id_ok :
    (db : Database) (t : Tag) (s : Store) {u : Tag} {s' : Store}
    → with_external_id db t s ≡ (ok u, s')
    → (s' ≡ s) × (e : Str) × (u ≡ record t { external_id = e })
unfolding with_external_id
with_external_id_ok db t s {u} {s'} h = elim (Bool-cases (is_empty t.external_id)) [
  | inl empty ↦ elim (Option-cases t.taxonomy) [
    | inl none_at ↦ let h' = rw (empty, none_at) at h in absurd (ground (arith, h'))
    | inr (x, at) ↦ elim (Option-cases (free_external_id db x t.id t.value s.tags)) [
      | inl out ↦ let h' = rw (empty, at, out) at h in absurd (ground (arith, h'))
      | inr (e, new) ↦
          let h' = rw (empty, at, new) at h in (ground (arith, h'), e, ground (arith, h'))
    ]
  ]
  | inr given ↦ let h' = rw given at h in (ground (arith, h'), t.external_id, ground (arith, h'))
]

place_below_ok :
    (t : Tag) (w : Option Tag) (s : Store) {u : Tag} {s' : Store}
    → place_below t w s ≡ (ok u, s')
    → (s' ≡ s) × (v : Tag) × (w ≡ some v) × (u ≡ below_parent t (some v))
unfolding place_below
place_below_ok t none s h = absurd (ground (arith, h))
place_below_ok t (some w) s h = (ground (arith, h), w, refl, ground (arith, h))

-- The rows of the parent that a placing may go by.
abbrev pub IsPut : List Tag → Tag → Option Tag → Option ℕ → Tag → Type 0
IsPut ts t cached none u = u ≡ below_parent t none
IsPut ts t (some w) (some p) u = u ≡ below_parent t (some w)
IsPut ts t none (some p) u = (w : Tag) × (find_tag ts p ≡ some w) × (u ≡ below_parent t (some w))

place_under_ok :
    (t : Tag) (cached : Option Tag) (q : Option ℕ) (s : Store) {u : Tag} {s' : Store}
    → place_under t cached q s ≡ (ok u, s')
    → (s' ≡ s) × IsPut s.tags t cached q u
unfolding place_under
place_under_ok t cached none s h = (ground (arith, h), ground (arith, h))
place_under_ok t (some w) (some p) s h =
    let (e, v, same, placed) = place_below_ok t (some w) s h in (e, ground (arith, same, placed))
place_under_ok t none (some p) s h =
    let (e, w, found, placed) = place_below_ok t (find_tag s.tags p) s h in (e, (w, found, placed))

pub place_ok :
    (t : Tag) (cached : Option Tag) (s : Store) {u : Tag} {s' : Store}
    → place t cached s ≡ (ok u, s')
    → (s' ≡ s) × IsPut s.tags t cached t.parent u
unfolding place
place_ok t cached s h = place_under_ok t cached t.parent s h

pub prepare_ok :
    (db : Database) (t : Tag) (s : Store) {u : Tag} {s' : Store}
    → prepare db t s ≡ (ok u, s')
    → (s' ≡ s) × IsCleaned t u
unfolding prepare stripped
prepare_ok db t s h =
    let (t1, s1, e1, h1) = and_then-eq-ok (clean t s) _ h in
    let (same, strips, fine) = clean_ok t s e1 in
    let (same', e, adds) = with_external_id_ok db t1 s1 h1 in
    let cut =
      ap (λ (v : Tag). v.value) (adds ∙ ap (λ (v : Tag). record v { external_id = e }) strips) in
    let plain = has_reserved-tab t1.value fine in
    (
      same' ∙ same,
      (
        ap (λ (v : Tag). v.id) (adds ∙ ap (λ (v : Tag). record v { external_id = e }) strips),
        ap (λ (v : Tag). v.taxonomy) (adds ∙ ap (λ (v : Tag). record v { external_id = e }) strips),
        ap (λ (v : Tag). v.parent) (adds ∙ ap (λ (v : Tag). record v { external_id = e }) strips),
        cut,
        ap (λ (v : Tag). elem tab v.value) adds ∙ plain,
      ),
    )

-- A write and its cascade.
abbrev pub IsWritten : Database → Option Tag → Tag → Store → Tag → Store → Type 0
IsWritten db old t s r s' =
    (ltb taxonomy_max_depth t.depth ≡ false)
    × (written : Store) × (write_tag db t s ≡ (ok r, written))
    × (cascade db old r written ≡ (ok tt, s'))

pub cascade_then :
    (db : Database) (old : Option Tag) (t : Tag) (s : Store) {r : Tag} {s' : Store}
    → (cascade db old t >> pure t) s ≡ (ok r, s')
    → (t ≡ r) × (cascade db old t s ≡ (ok tt, s'))
cascade_then db old t s h =
    let (o, s1, e1, h1) = and_then-eq-ok (cascade db old t s) _ h in
    (ground (arith, h1), ground (arith, e1, h1))

write_and_cascade_ok :
    (db : Database) (old : Option Tag) (t : Tag) (s : Store) {r : Tag} {s' : Store}
    → write_and_cascade db old t s ≡ (ok r, s')
    → IsWritten db old t s r s'
unfolding write_and_cascade
write_and_cascade_ok db old t s {r} {s'} h =
    let (o, s1, e1, h1) = and_then-eq-ok (raise_if (ltb taxonomy_max_depth t.depth) _ s) _ h in
    let (shallow, same) = raise_if-eq-ok (ltb taxonomy_max_depth t.depth) _ s e1 in
    let (t2, s2, e2, h2) = and_then-eq-ok (write_tag db t s1) _ h1 in
    let (it, down) = cascade_then db old t2 s2 h2 in
    (
      shallow,
      s2,
      subst (λ z. write_tag db t z ≡ (ok r, s2)) (sym same)
          (subst (λ z. write_tag db t s1 ≡ (ok z, s2)) it e2),
      subst (λ z. cascade db old z s2 ≡ (ok tt, s')) it down,
    )

-- The steps of a save that returns `r`.
pub record IsSaved (db : Database) (t : Tag) (cached : Option Tag) (s : Store) (r : Tag)
    (s' : Store) : Type 0 where
  pub cleaned : Tag
  pub put : Tag
  pub is_cleaned : IsCleaned t cleaned
  pub is_put : IsPut s.tags cleaned cached cleaned.parent put
  pub is_written : IsWritten db (old_values cleaned s) put s r s'

pub save_steps :
    (db : Database) (t : Tag) (cached : Option Tag) (s : Store) {r : Tag} {s' : Store}
    → save db t cached s ≡ (ok r, s')
    → IsSaved db t cached s r s'
unfolding save
save_steps db t cached s {r} {s'} h =
    let (t1, s1, e1, h1) = and_then-eq-ok (prepare db t s) _ h in
    let (same, cleaned) = prepare_ok db t s e1 in
    let (t2, s2, e2, h2) = and_then-eq-ok (place t1 cached s1) _ h1 in
    let (same', put) = place_ok t1 cached s1 e2 in
    let written = write_and_cascade_ok db (old_values t1 s1) t2 s2 h2 in
    record {
      cleaned = t1;
      put = t2;
      is_cleaned = cleaned;
      is_put = subst (λ (z : Store). IsPut z.tags t1 cached t1.parent t2) same put;
      is_written =
          subst (λ z. IsWritten db (old_values t1 z) t2 z r s') same
            (subst (λ z. IsWritten db (old_values t1 s1) t2 z r s') same' written);
    }
