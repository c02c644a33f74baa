-- ===== src/Tagging/Taxonomies/Changes.antt =====
-- `Taxonomy.add_tag` and `Taxonomy.update_tag` on a forest.
use mathlib.Core.Path.{subst}
use openedx_core.Common.{
  ℕ, ◌≡◌, refl, sym, ap, ◌∙◌, inl, inr, false, List, [], ◌∷◌, ◌++◌, Option, none, some, sql_eq, All,
  All-select, length, arith, Bool-cases,
}
use openedx_core.Tagging.Str.{Str, tab}
use openedx_core.Tagging.Models.{
  Database, IsDatabase, Tag, Taxonomy, Store, find_tag, tag_set, same_text, begins,
}
use openedx_core.Tagging.Monad.{
  Result, Error, ok, err, and_then-eq-ok, and_then-eq-err, get_one-eq-ok, get_one-eq-err,
}
use openedx_core.Tagging.Save.{save}
use openedx_core.Tagging.Save.Forest.{IsBelow, IsForest}
use openedx_core.Tagging.Save.Moved.{begins-length, sql_eq-some}
use openedx_core.Tagging.Save.Cascades.{length-append}
use openedx_core.Tagging.Save.Keys.{IsKeyed, IsNumbered}
use openedx_core.Tagging.Save.Checks.{MayBeParent}
use openedx_core.Tagging.Save.Existing.{IsOutcome, save_existing_lem}
use openedx_core.Tagging.Taxonomies.{with_value, the_tag, may_change, update_tag}

-- A store whose tags are a forest, each found by its key.
pub record IsSound (db : Database) (s : Store) : Type 0 where
  pub forest : IsForest db s.tags
  pub numbered : IsNumbered s

-- A tag is not above itself: its parent's lineage is shorter.
own_parent :
    (db : Database) (ts : List Tag) (t : Tag) (q : Option ℕ)
    → IsBelow ts t q
    → MayBeParent db ts t none q
own_parent db ts t none h = tt
own_parent db ts t (some p) (w, found, same, d, l) =
    elim (Bool-cases (begins db t.lineage w.lineage)) [
      | inl below ↦
          let short = begins-length db t.lineage w.lineage below in
          let long = ap (length) l ∙ length-append w.lineage (t.value ++ tab ∷ []) in
          let tail = length-append t.value (tab ∷ []) in absurd (omega (arith, short, long, tail))
      | inr apart ↦ (w, found, same, apart, inl refl)
    ]

pub the_tag_ok :
    (db : Database) (y : Taxonomy) (value : Str) (s : Store) {t : Tag} {s' : Store}
    → IsKeyed s.tags
    → the_tag db y value s ≡ (ok t, s')
    → (s' ≡ s)
      × (with_value db y value s ≡ t ∷ [])
      × (find_tag s.tags t.id ≡ some t)
      × (t.taxonomy ≡ some y.id)
unfolding the_tag
the_tag_ok db y value s {t} {s'} keyed h =
    let (same, one) = get_one-eq-ok (with_value db y value s) s h in
    let rows = All-select _ (λ (u : Tag). sql_eq u.taxonomy (some y.id)) s.tags keyed in
    let rows' = All-select _ (λ (u : Tag). same_text db u.value value) (tag_set y.id s.tags) rows in
    let it = subst (All _) one rows' in (same, one, it.0.0.0, sql_eq-some t.taxonomy y.id it.0.0.1)

pub the_tag_err :
    (db : Database) (y : Taxonomy) (value : Str) (s : Store) {e : Error} {s' : Store}
    → the_tag db y value s ≡ (err e, s')
    → s' ≡ s
unfolding the_tag
the_tag_err db y value s h = get_one-eq-err (with_value db y value s) s h

pub may_change_ok :
    (y : Taxonomy) (s : Store) {s' : Store}
    → may_change y s ≡ (ok tt, s')
    → (s' ≡ s) × (y.allow_free_text ≡ false) × (y.read_only ≡ false)
unfolding may_change
may_change_ok y s h = ground (arith, h)

pub may_change_err :
    (y : Taxonomy) (s : Store) {e : Error} {s' : Store} → may_change y s ≡ (err e, s') → s' ≡ s
unfolding may_change
may_change_err y s h = ground (arith, h)

-- What an update of the value of a tag comes to.
abbrev pub IsUpdated : Database → Taxonomy → Str → Str → Store → Result Tag → Store → Type 0
IsUpdated db y tag new_value s (ok r) s' =
    (y.allow_free_text ≡ false)
    × (y.read_only ≡ false)
    × (old : Tag) × (with_value db y tag s ≡ old ∷ [])
    × IsOutcome db (record old { value = new_value }) s (ok r) s'
IsUpdated db y tag new_value s (err e) s' = s' ≡ s

update_found :
    (db : Database) (y : Taxonomy) (tag new_value : Str) (s : Store) (old : Tag) (res : Result Tag)
    (s' : Store)
    → IsDatabase db
    → IsSound db s
    → find_tag s.tags old.id ≡ some old
    → save db (record old { value = new_value }) none s ≡ (res, s')
    → IsOutcome db (record old { value = new_value }) s res s'
update_found db y tag new_value s old res s' is_db sound here h =
    let f = sound.forest in
    let n = sound.numbered in
    save_existing_lem db (record old { value = new_value }) old none s res s' is_db f n.keyed here
      (λ e. let bad = sym here ∙ ap (find_tag s.tags) e ∙ n.no_zero in cc) refl
      (own_parent db s.tags old old.parent (f.placed old.id old here)) h

-- An update of a tag's value raises and leaves the tables, or renames the one tag with the value in
-- a taxonomy that may be changed, and leaves a forest in which its descendants follow.
pub update_tag_lem :
    (db : Database) (y : Taxonomy) (tag new_value : Str) (s : Store) (res : Result Tag) (s' : Store)
    → IsDatabase db
    → IsSound db s
    → update_tag db y tag new_value s ≡ (res, s')
    → IsUpdated db y tag new_value s res s'
unfolding update_tag
update_tag_lem db y tag new_value s (ok r) s' is_db sound h =
    let (o, s1, e1, h1) = and_then-eq-ok (may_change y s) _ h in
    let (same, closed, open_to) = may_change_ok y s e1 in
    let (old, s2, e2, h2) = and_then-eq-ok (the_tag db y tag s1) _ h1 in
    let e2' = subst (λ z. the_tag db y tag z ≡ (ok old, s2)) same e2 in
    let (same', one, here, at) = the_tag_ok db y tag s sound.numbered.keyed e2' in
    (
      closed,
      open_to,
      old,
      one,
      update_found db y tag new_value s old (ok r) s' is_db sound here
          (subst (λ z. save db (record old { value = new_value }) none z ≡ (ok r, s')) same' h2),
    )
update_tag_lem db y tag new_value s (err e) s' is_db sound h =
    elim (and_then-eq-err (may_change y s) _ h) [
      | inl bad ↦ may_change_err y s bad
      | inr (o, s1, e1, h1) ↦
          let (same, closed, open_to) = may_change_ok y s e1 in
          elim (and_then-eq-err (the_tag db y tag s1) _ h1) [
            | inl bad ↦ the_tag_err db y tag s1 bad ∙ same
            | inr (old, s2, e2, h2) ↦
                let e2' = subst (λ z. the_tag db y tag z ≡ (ok old, s2)) same e2 in
                let (same', one, here, at) = the_tag_ok db y tag s sound.numbered.keyed e2' in
                update_found db y tag new_value s old (err e) s' is_db sound here (
                  subst (λ z. save db (record old { value = new_value }) none z ≡ (err e, s')) same'
                    h2)
          ]
    ]
