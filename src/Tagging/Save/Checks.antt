-- ===== src/Tagging/Save/Checks.antt =====
-- The checks and the parts of `Tag.save` for a tag that is in the table.
use mathlib.Core.Path.{subst}
use openedx_core.Common.{
  ℕ, ◌≤◌, ◌≡◌, ◌≢◌, refl, sym, ap, ◌∙◌, ◌⊎◌, inl, inr, true, false, ◌&&◌, not, List, Option, none,
  some, ◌==◌, ltb, any, update_where, arith, Bool-cases,
}
use openedx_core.Tagging.Str.{str_eq, is_empty}
use openedx_core.Tagging.Str.Prefixes.{str_eq→eq, str_eq_refl}
use openedx_core.Tagging.Models.{Database, Tag, Store, find_tag, same_text, begins}
use openedx_core.Tagging.Monad.{ok}
use openedx_core.Tagging.Save.{
  is_allowed, clashes, may_write, stored, update_row, write_tag, below_parent, is_below, relocated,
  may_relocate, relocate_all, cascade, taxonomy_max_depth,
}
use openedx_core.Tagging.Save.Moved.{IsApart}
use openedx_core.Tagging.Save.Steps.{IsPut}
use openedx_core.Tagging.Save.Tables.{any-false_found}

pub update_row_ok :
    (db : Database) (t : Tag) (s : Store) {r : Tag} {s' : Store}
    → (t.id == 0) ≡ false
    → write_tag db t s ≡ (ok r, s')
    → (r ≡ t) × (may_write db t s.tags ≡ true) × (s' ≡ record s { tags = stored t s.tags })
unfolding write_tag update_row
update_row_ok db t s {r} {s'} old h = elim (Bool-cases (may_write db t s.tags)) [
  | inl may ↦ let h' = rw (old, may) at h in (ground (arith, h'), may, ground (arith, h'))
  | inr may_not ↦ let h' = rw (old, may_not) at h in absurd (ground (arith, h'))
]

pub relocate_all_ok :
    (db : Database) (x : ℕ) (old t : Tag) (s : Store) {s' : Store}
    → relocate_all db x old t s ≡ (ok tt, s')
    → (any (λ u. is_below db x old t u && not (may_relocate db old t u)) s.tags ≡ false)
      × (s'.tags ≡ update_where (is_below db x old t) (relocated db old t) s.tags)
unfolding relocate_all
relocate_all_ok db x old t s {s'} h =
    elim (Bool-cases (any (λ u. is_below db x old t u && not (may_relocate db old t u)) s.tags)) [
      | inl bad ↦ let h' = rw bad at h in absurd (ground (arith, h'))
      | inr fine ↦ let h' = rw fine at h in (fine, ground (arith, h'))
    ]

-- A cascade from a tag with a lineage, in taxonomy `x`.
pub cascade_ok :
    (db : Database) (x : ℕ) (old t : Tag) (s : Store) {s' : Store}
    → is_empty old.lineage ≡ false
    → t.taxonomy ≡ some x
    → cascade db (some old) t s ≡ (ok tt, s')
    → ((old.lineage ≡ t.lineage) × (s' ≡ s)) ⊎ (relocate_all db x old t s ≡ (ok tt, s'))
unfolding cascade
cascade_ok db x old t s {s'} full home h = elim (Bool-cases (str_eq old.lineage t.lineage)) [
  | inl same ↦
      let h' = rw (full, same) at h in
      inl (str_eq→eq old.lineage t.lineage same, ground (arith, h'))
  | inr other ↦ let h' = rw (full, other, home) at h in inr h'
]

pub may_write-allowed :
    (db : Database) (t : Tag) (ts : List Tag) → may_write db t ts ≡ true → is_allowed t ≡ true
unfolding may_write
may_write-allowed db t ts h = ground (arith, h)

-- No other tag of the taxonomy has the value.
pub may_write-differs :
    (db : Database) (t : Tag) (ts : List Tag) (x : ℕ)
    → may_write db t ts ≡ true
    → t.taxonomy ≡ some x
    → (i : ℕ) (u : Tag) → find_tag ts i ≡ some u
    → u.id ≢ t.id
    → u.taxonomy ≡ t.taxonomy
    → db.key u.value ≢ db.key t.value
unfolding may_write clashes same_text
may_write-differs db t ts x h home i u found other same e =
    let free : any (λ v. clashes db t v) ts ≡ false = ground (arith, h) in
    let apart = any-false_found (λ v. clashes db t v) ts i {u = u} free found in
    let equal : str_eq (db.key u.value) (db.key t.value) ≡ true =
      ap (λ k. str_eq k (db.key t.value)) e ∙ str_eq_refl (db.key t.value) in
    let at : u.taxonomy ≡ some x = same ∙ home in ground (arith, apart, other, equal, at, home)

-- The parent that a save may give to `old`: of its taxonomy, and neither `old` nor below it. An
-- instance at hand is the row.
abbrev pub MayBeParent : Database → List Tag → Tag → Option Tag → Option ℕ → Type 0
MayBeParent db ts old cached none = Unit {0}
MayBeParent db ts old cached (some p) =
    (w : Tag) × (find_tag ts p ≡ some w)
    × (w.taxonomy ≡ old.taxonomy)
    × (begins db old.lineage w.lineage ≡ false)
    × ((cached ≡ none) ⊎ (cached ≡ some w))

pub put-IsApart :
    (db : Database) (ts : List Tag) (old t u : Tag) (cached : Option Tag) (q : Option ℕ)
    → t.taxonomy ≡ old.taxonomy
    → MayBeParent db ts old cached q
    → IsPut ts t cached q u
    → IsApart db ts old u q
unfolding below_parent
put-IsApart db ts old t u cached none same may put =
    subst (λ z. IsApart db ts old z none) (sym put) (refl, refl)
put-IsApart db ts old t u (some c) (some p) same (w, found, at, apart, fresh) put =
    let e : c ≡ w = elim fresh [ inl bad ↦ absurd (cc) | inr it ↦ cc ] in
    subst (λ z. IsApart db ts old z (some p)) (sym (put ∙ ap (λ z. below_parent t (some z)) e))
      (w, found, at ∙ sym same, refl, refl, apart)
put-IsApart db ts old t u none (some p) same (w, found, at, apart, fresh) (v, found', put) =
    let e : v ≡ w = ground (arith, found, found') in
    subst (λ z. IsApart db ts old z (some p)) (sym (put ∙ ap (λ z. below_parent t (some z)) e))
      (w, found, at ∙ sym same, refl, refl, apart)

pub put-same :
    (ts : List Tag) (t u : Tag) (cached : Option Tag) (q : Option ℕ)
    → IsPut ts t cached q u
    → (u.id ≡ t.id) × (u.taxonomy ≡ t.taxonomy) × (u.parent ≡ t.parent) × (u.value ≡ t.value)
unfolding below_parent
put-same ts t u cached none put = rw put (refl, refl, refl, refl)
put-same ts t u (some c) (some p) put = rw put (refl, refl, refl, refl)
put-same ts t u none (some p) (v, found, put) = rw put (refl, refl, refl, refl)

pub at_most_depth : (d : ℕ) → ltb taxonomy_max_depth d ≡ false → d ≤ taxonomy_max_depth
at_most_depth d h = ground (arith, h)
