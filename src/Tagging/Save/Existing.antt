-- ===== src/Tagging/Save/Existing.antt =====
-- `Tag.save` of a tag that is in the table: it is renamed or moved, and its descendants follow.
use mathlib.Core.Path.{subst}
use openedx_core.Common.{
  ℕ, ◌≤◌, ◌≡◌, ◌≢◌, refl, sym, ap, ◌∙◌, inl, inr, true, false, ◌&&◌, not, [], ◌∷◌, Option, some,
  ◌==◌, ltb, any, elem, update_where, arith, Bool-cases,
}
use openedx_core.Tagging.Str.{Str, str_eq, strip, is_empty, tab}
use openedx_core.Tagging.Str.Prefixes.{str_eq→eq, str_eq_refl}
use openedx_core.Tagging.Str.Levels.{ends_tab}
use openedx_core.Tagging.Models.{Database, IsDatabase, Tag, Store, find_tag}
use openedx_core.Tagging.Monad.{Result, ok, err}
use openedx_core.Tagging.Save.{
  may_write, stored, write_tag, is_below, relocated, may_relocate, relocate_all, cascade,
  old_values, save, taxonomy_max_depth,
}
use openedx_core.Tagging.Save.Forest.{IsForest, IsBelow-ends_tab, find_tag-id}
use openedx_core.Tagging.Save.Moved.{IsApart}
use openedx_core.Tagging.Save.Steps.{IsCleaned, IsPut, save_steps}
use openedx_core.Tagging.Save.Written.{
  written, relocated_rows, relocated-IsResaved, written-IsResaved, stored-written, written-IsKeyed,
  relocated-IsKeyed, cascade_fits,
}
use openedx_core.Tagging.Save.Checks.{
  at_most_depth, update_row_ok, put-IsApart, put-same, MayBeParent,
}
use openedx_core.Tagging.Save.Keys.{IsKeyed}
use openedx_core.Tagging.Save.Failures.{save_err}
use openedx_core.Tagging.Save.Tables.{IsResaved}

ends_tab-full : (l : Str) → ends_tab l ≡ true → is_empty l ≡ false
ends_tab-full [] h = sym h
ends_tab-full (c ∷ cs) h = refl

-- The tables after a cascade: only tags have changed.
abbrev pub IsAfter : Database → Store → Tag → Store → Type 0
IsAfter db s t s' =
    IsResaved db s.tags t s'.tags × IsKeyed s'.tags × (s' ≡ record s { tags = s'.tags })

relocate_all_lem :
    (db : Database) (x : ℕ) (old t : Tag) (s : Store)
    → any (λ u. is_below db x old t u && not (may_relocate db old t u)) s.tags ≡ false
    → relocate_all db x old t s
      ≡ (ok tt, record s { tags = update_where (is_below db x old t) (relocated db old t) s.tags })
unfolding relocate_all
relocate_all_lem db x old t s h = rw h refl

cascade_quiet :
    (db : Database) (old t : Tag) (s : Store)
    → old.lineage ≡ t.lineage
    → cascade db (some old) t s ≡ (ok tt, s)
unfolding cascade
cascade_quiet db old t s h =
    let same : str_eq old.lineage t.lineage ≡ true =
      ap (λ l. str_eq l t.lineage) h ∙ str_eq_refl t.lineage in
    elim (Bool-cases (is_empty old.lineage)) [
      | inl none_at ↦ rw (none_at) refl
      | inr full ↦ rw (full, same) refl
    ]

cascade_loud :
    (db : Database) (x : ℕ) (old t : Tag) (s : Store)
    → is_empty old.lineage ≡ false
    → str_eq old.lineage t.lineage ≡ false
    → t.taxonomy ≡ some x
    → cascade db (some old) t s ≡ relocate_all db x old t s
unfolding cascade
cascade_loud db x old t s full other home = rw (full, other, home) refl

module _ (db : Database) (is_db : IsDatabase db) (s : Store) (f : IsForest db s.tags)
    (keyed : IsKeyed s.tags) (old t : Tag) (x : ℕ) (here : find_tag s.tags old.id ≡ some old)
    (home : old.taxonomy ≡ some x) (home' : t.taxonomy ≡ some x) (same_id : t.id ≡ old.id)
    (plain : elem tab t.value ≡ false) (saved : (t.id == 0) ≡ false)
    (apart : IsApart db s.tags old t t.parent) where
  -- After the write the cascade succeeds.
  cascade_runs :
      (may : may_write db t s.tags ≡ true) (s1 : Store)
      → s1 ≡ record s { tags = stored t s.tags }
      → (s2 : Store) × (cascade db (some old) t s1 ≡ (ok tt, s2)) × IsAfter db s t s2
  unfolding relocated_rows
  cascade_runs may s1 after =
      let rows : s1.tags ≡ written db is_db s f old t x here home home' same_id plain may apart =
        ap (λ (z : Store). z.tags) after
        ∙ stored-written db is_db s f old t x here home home' same_id plain may apart in
      elim (Bool-cases (str_eq old.lineage t.lineage)) [
        | inl stays ↦
            let e = str_eq→eq old.lineage t.lineage stays in
            (
              s1,
              cascade_quiet db old t s1 e,
              (
                subst (IsResaved db s.tags t) (sym rows) (
                    written-IsResaved db is_db s f old t x here home home' same_id plain may apart
                      e),
                subst IsKeyed (sym rows) (
                    written-IsKeyed db is_db s f old t x here home home' same_id plain may apart
                      keyed),
                after ∙ ap (λ (z : Store). record s { tags = z.tags }) (sym after),
              ),
            )
        | inr moves ↦
            let full =
              ends_tab-full old.lineage
                (IsBelow-ends_tab s.tags old old.parent (f.placed old.id old here)) in
            let fits =
              cascade_fits db is_db s f old t x here home home' same_id plain may apart keyed in
            let fits' =
              subst
                (λ ts. any (λ u. is_below db x old t u && not (may_relocate db old t u)) ts ≡ false)
                (sym rows) fits in
            let rows' = ap (update_where (is_below db x old t) (relocated db old t)) rows in
            (
              record s1 { tags = update_where (is_below db x old t) (relocated db old t) s1.tags },
              cascade_loud db x old t s1 full moves home' ∙ relocate_all_lem db x old t s1 fits',
              (
                subst (IsResaved db s.tags t) (sym rows') (
                    relocated-IsResaved db is_db s f old t x here home home' same_id plain may apart
                      fits),
                subst IsKeyed (sym rows') (
                    relocated-IsKeyed db is_db s f old t x here home home' same_id plain may apart
                      keyed),
                ap
                    (λ (z : Store). record z {
                      tags = update_where (is_below db x old t) (relocated db old t) s1.tags;
                    })
                    after,
              ),
            )
      ]

  write_existing :
      {r : Tag} {s1 : Store}
      → write_tag db t s ≡ (ok r, s1)
      → (r ≡ t) × (s2 : Store) × (cascade db (some old) r s1 ≡ (ok tt, s2)) × IsAfter db s t s2
  write_existing {r} {s1} w =
      let (it, may, after) = update_row_ok db t s saved w in
      let (s2, runs, is_after) = cascade_runs may s1 after in
      (it, s2, subst (λ z. cascade db (some old) z s1 ≡ (ok tt, s2)) (sym it) runs, is_after)

-- What a save of a tag in the table comes to: an exception leaves the tables; otherwise the tag is
-- in them, they are a forest again, and nothing else has changed but lineages and depths.
abbrev pub IsOutcome : Database → Tag → Store → Result Tag → Store → Type 0
IsOutcome db t s (ok r) s' =
    IsAfter db s r s'
    × (r.id ≡ t.id)
    × (r.taxonomy ≡ t.taxonomy)
    × (r.parent ≡ t.parent)
    × (r.value ≡ strip t.value)
    × (r.depth ≤ taxonomy_max_depth)
IsOutcome db t s (err e) s' = s' ≡ s

module _ (db : Database) (t old : Tag) (cached : Option Tag) (s : Store) (is_db : IsDatabase db)
    (f : IsForest db s.tags) (keyed : IsKeyed s.tags) (here : find_tag s.tags t.id ≡ some old)
    (saved : t.id ≢ 0) (same : t.taxonomy ≡ old.taxonomy)
    (may : MayBeParent db s.tags old cached t.parent) where
  row_saved :
      (u v : Tag)
      → IsCleaned t u
      → IsPut s.tags u cached u.parent v
      → {r : Tag} {s1 : Store} → write_tag db v s ≡ (ok r, s1)
      → (old_values u s ≡ some old)
        × (r ≡ v)
        × (s2 : Store) × (cascade db (some old) r s1 ≡ (ok tt, s2))
        × IsAfter db s v s2
  row_saved u v (i, x, q, value, plain) put {r} {s1} w =
      let (i', x', q', value') = put-same s.tags u v cached u.parent put in
      let at : old.id ≡ t.id = find_tag-id s.tags t.id old here in
      let set : (u.id == 0) ≡ false = ground (arith, i, saved) in
      let (y, home) = f.homed t.id old here in
      let apart =
        put-IsApart db s.tags old u v cached u.parent (x ∙ same)
          (subst (MayBeParent db s.tags old cached) (sym q) may) put in
      let (it, s2, runs, after) =
        write_existing db is_db s f keyed old v y (ap (find_tag s.tags) at ∙ here) home
          (x' ∙ x ∙ same ∙ home) (i' ∙ i ∙ sym at) (ap (elem tab) value' ∙ plain)
          (ground (arith, i', i, saved)) (subst (IsApart db s.tags old v) (sym q') apart) w in
      (rw set (ap (find_tag s.tags) i ∙ here), it, s2, runs, after)

  saved_lem :
      (res : Result Tag) (s' : Store) → save db t cached s ≡ (res, s') → IsOutcome db t s res s'
  saved_lem (ok r) s' h =
      let steps = save_steps db t cached s h in
      let (i, x, q, value, plain) = steps.is_cleaned in
      let (i', x', q', value') =
        put-same s.tags steps.cleaned steps.put cached steps.cleaned.parent steps.is_put in
      let (shallow, s1, w, c) = steps.is_written in
      let (before, it, s2, runs, after) =
        row_saved steps.cleaned steps.put steps.is_cleaned steps.is_put w in
      let c' : cascade db (some old) r s1 ≡ (ok tt, s') =
        subst (λ o. cascade db o r s1 ≡ (ok tt, s')) before c in
      let e : s2 ≡ s' = ground (arith, c', runs) in
      (
        subst (IsAfter db s r) e (subst (λ z. IsAfter db s z s2) (sym it) after),
        ap (λ (z : Tag). z.id) it ∙ i' ∙ i,
        ap (λ (z : Tag). z.taxonomy) it ∙ x' ∙ x,
        ap (λ (z : Tag). z.parent) it ∙ q' ∙ q,
        ap (λ (z : Tag). z.value) it ∙ value' ∙ value,
        at_most_depth r.depth (ap (λ (z : Tag). ltb taxonomy_max_depth z.depth) it ∙ shallow),
      )
  saved_lem (err e) s' h = elim (save_err db t cached s h) [
    | inl kept ↦ kept
    | inr failed ↦
        let (r, s1, w, c) = failed.fails in
        let (before, it, s2, runs, after) =
          row_saved failed.cleaned failed.put failed.is_cleaned failed.is_put w in
        let c' : cascade db (some old) r s1 ≡ (err e, s') =
          subst (λ o. cascade db o r s1 ≡ (err e, s')) before c in
        absurd (ground (arith, c', runs))
  ]

-- A save of a tag that is in the table, under no parent or one of its taxonomy that is neither the
-- tag nor below it, raises and leaves the tables, or leaves a forest in which the tag has its
-- stripped value and its parent, at most five levels down, and every other tag its values and
-- its parent: descendants of the tag are found below its new place.
pub save_existing_lem :
    (db : Database) (t old : Tag) (cached : Option Tag) (s : Store) (res : Result Tag) (s' : Store)
    → IsDatabase db
    → IsForest db s.tags
    → IsKeyed s.tags
    → find_tag s.tags t.id ≡ some old
    → t.id ≢ 0
    → t.taxonomy ≡ old.taxonomy
    → MayBeParent db s.tags old cached t.parent
    → save db t cached s ≡ (res, s')
    → IsOutcome db t s res s'
save_existing_lem db t old cached s res s' is_db f keyed here saved same may h =
    saved_lem db t old cached s is_db f keyed here saved same may res s' h
