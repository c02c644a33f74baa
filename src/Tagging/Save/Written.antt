-- ===== src/Tagging/Save/Written.antt =====
-- The table after a tag is written over its row, with or without a cascade.
use mathlib.Core.Path.{subst}
use openedx_core.Common.{
  ℕ, ◌+◌, ◌≤◌, ◌≡◌, ◌≢◌, refl, sym, ap, ◌∙◌, inl, inr, true, false, ◌&&◌, not, List, [], ◌∷◌, ◌++◌,
  Option, none, some, ◌==◌, ==_iff, any, elem, update_where, arith, Bool-cases, if◌then◌else◌,
}
use openedx_core.Tagging.Str.{count, tab}
use openedx_core.Tagging.Models.{Database, IsDatabase, Tag, Store, find_tag, begins}
use openedx_core.Tagging.Save.{is_allowed, may_write, stored, is_below, relocated, may_relocate}
use openedx_core.Tagging.Save.Forest.{IsPlaced, IsBelow, IsForest, find_tag-id}
use openedx_core.Tagging.Save.Moved.{
  moved, moved_self, sql_eq-some, IsApart, moved-IsPlaced, is_old, apart_not_old,
}
use openedx_core.Tagging.Save.Checks.{may_write-allowed, may_write-differs}
use openedx_core.Tagging.Save.Keys.{IsKeyed, All-rows, update-IsKeyed}
use openedx_core.Tagging.Save.Cascades.{below-may_relocate}
use openedx_core.Tagging.Save.Tables.{
  find_tag-update, find_tag-of_update, any-false_found, step-IsForest, IsResaved, KeepsRow,
  any-false,
}

-- A row written over the old one; nothing is relocated, since the lineage is the same.
module _ (db : Database) (is_db : IsDatabase db) (s : Store) (f : IsForest db s.tags) (old t : Tag)
    (x : ℕ) (here : find_tag s.tags old.id ≡ some old) (home : old.taxonomy ≡ some x)
    (home' : t.taxonomy ≡ some x) (same_id : t.id ≡ old.id) (plain : elem tab t.value ≡ false)
    (may : may_write db t s.tags ≡ true) (apart : IsApart db s.tags old t t.parent) where
  pub written : List Tag
  written = update_where (λ u. u.id == t.id) (λ _. t) s.tags

  keeps : (v : Tag) → (v.id == t.id) ≡ true → t.id ≡ v.id
  keeps v h = sym ((==_iff v.id t.id).0 h)

  pub stored-written : stored t s.tags ≡ written
  unfolding written
  stored-written = let found = rw (← same_id) at here in ground (arith, found)

  unfoldable pub relocated_rows : List Tag
  relocated_rows = update_where (is_below db x old t) (relocated db old t) written

  is_below_self : is_below db x old t t ≡ false
  unfolding is_below
  is_below_self = ground arith

  written_then_moved :
      (u v : Tag)
      → v ≡ (if u.id == t.id then t else u)
      → (if is_below db x old t v then relocated db old t v else v) ≡ moved db x old t u
  unfolding moved
  written_then_moved u v h = elim (Bool-cases (u.id == t.id)) [
    | inl self ↦ let e : v ≡ t = h ∙ (rw self) in rw (self, e, is_below_self)
    | inr other ↦ let e : v ≡ u = h ∙ (rw other) in rw (other, e)
  ]

  relocated_keeps : (v : Tag) → is_below db x old t v ≡ true → (relocated db old t v).id ≡ v.id
  unfolding relocated
  relocated_keeps v h = refl

  moved_after :
      (i : ℕ) (u : Tag)
      → find_tag s.tags i ≡ some u
      → find_tag relocated_rows i ≡ some (moved db x old t u)
  unfolding relocated_rows written
  moved_after i u found =
      find_tag-update (is_below db x old t) (relocated db old t) written i relocated_keeps
        (find_tag-update (λ v. v.id == t.id) (λ _. t) s.tags i keeps found)
      ∙ ap some (written_then_moved u (if u.id == t.id then t else u) refl)

  moved_before :
      (i : ℕ) (v : Tag)
      → find_tag relocated_rows i ≡ some v
      → (u : Tag) × (find_tag s.tags i ≡ some u) × (v ≡ moved db x old t u)
  unfolding relocated_rows written
  moved_before i v found =
      let (w, at, e) =
        find_tag-of_update (is_below db x old t) (relocated db old t) written i relocated_keeps
          found in
      let (u, at', e') = find_tag-of_update (λ v. v.id == t.id) (λ _. t) s.tags i keeps at in
      (u, at', e ∙ written_then_moved u w e')

  differs :
      (i : ℕ) (u : Tag)
      → find_tag s.tags i ≡ some u
      → u.id ≢ t.id
      → u.taxonomy ≡ t.taxonomy
      → db.key u.value ≢ db.key t.value
  differs = may_write-differs db t s.tags x may home'

  moved_homes :
      (i : ℕ) (u : Tag) → find_tag s.tags i ≡ some u → (moved db x old t u).taxonomy ≡ u.taxonomy
  unfolding moved relocated
  moved_homes i u found = elim (Bool-cases (u.id == t.id)) [
    | inl self ↦
        let at : i ≡ old.id =
          sym (find_tag-id s.tags i u found) ∙ (==_iff u.id t.id).0 self ∙ same_id in
        let found' = rw at at found in
        let e : u ≡ old = ground (arith, found', here) in
        rw self (home' ∙ sym home ∙ ap (λ (z : Tag). z.taxonomy) (sym e))
    | inr other ↦ rw other (ground arith)
  ]

  moved_values : (u : Tag) → u.id ≢ t.id → (moved db x old t u).value ≡ u.value
  unfolding moved relocated
  moved_values u other = ground (arith, other)

  module _
      (fine : any (λ u. is_below db x old t u && not (may_relocate db old t u)) written
        ≡ false) where
    fits :
        (i : ℕ) (u : Tag)
        → find_tag s.tags i ≡ some u
        → u.id ≢ t.id
        → is_below db x old t u ≡ true
        → may_relocate db old t u ≡ true
    unfolding written
    fits i u found other below =
        let at = find_tag-update (λ v. v.id == t.id) (λ _. t) s.tags i keeps found in
        let at' : find_tag written i ≡ some u = at ∙ ground (arith, other) in
        let it =
          any-false_found (λ v. is_below db x old t v && not (may_relocate db old t v)) written i
            {u = u} fine at' in
        ground (arith, it, below)

    enough :
        (i : ℕ) (u : Tag)
        → find_tag s.tags i ≡ some u
        → u.id ≢ t.id
        → u.taxonomy ≡ some x
        → begins db old.lineage u.lineage ≡ true
        → old.depth ≤ u.depth + t.depth
    unfolding is_below may_relocate
    enough i u found other at below =
        let it = fits i u found other (rw at (ground (arith, other, below))) in ground (arith, it)

    moved_allowed :
        (i : ℕ) (u : Tag) → find_tag s.tags i ≡ some u → is_allowed (moved db x old t u) ≡ true
    unfolding moved may_relocate
    moved_allowed i u found = elim (Bool-cases (u.id == t.id)) [
      | inl self ↦ rw self (may_write-allowed db t s.tags may)
      | inr other ↦ elim (Bool-cases (is_below db x old t u)) [
        | inl below ↦
            let ne : u.id ≢ t.id = λ e. let bad = (==_iff u.id t.id).1 e in cc in
            let it = fits i u found ne below in rw (other, below) (ground (arith, it))
        | inr above ↦ rw (other, above) (f.allowed i u found)
      ]
    ]

    relocated-IsForest : IsForest db relocated_rows
    relocated-IsForest =
        step-IsForest db s.tags relocated_rows f t (moved db x old t) moved_before
          (moved_self db x old t) moved_values moved_homes differs plain moved_allowed
          (moved-IsPlaced db is_db s.tags f old t x here home home' same_id enough relocated_rows
            moved_after apart)

    moved_keeps : (u : Tag) → u.id ≢ t.id → KeepsRow u (moved db x old t u)
    unfolding moved relocated
    moved_keeps u other = ground (arith, other)

    pub relocated-IsResaved : IsResaved db s.tags t relocated_rows
    relocated-IsResaved = record {
      forest = relocated-IsForest;
      self =
          ap (find_tag relocated_rows) same_id
          ∙ moved_after old.id old here
          ∙ ap some (moved_self db x old t old (sym same_id));
      others = λ i u found other. (
        moved db x old t u,
        moved_after i u found,
        moved_keeps u (λ e. other (sym (find_tag-id s.tags i u found) ∙ e)),
      );
      no_more = λ i v found. let (u, at, e) = moved_before i v found in (u, at);
    }

  -- No row is relocated, where the lineage stays.
  rewritten : Tag → Tag
  rewritten u = if u.id == t.id then t else u

  module _ (stays : old.lineage ≡ t.lineage) where
    same_depth : old.depth ≡ t.depth
    unfolding is_allowed
    same_depth =
        let a = f.allowed old.id old here in
        let b = may_write-allowed db t s.tags may in
        let c = ap (count tab) stays in ground (arith, a, b, c)

    rewritten_after :
        (i : ℕ) (u : Tag) → find_tag s.tags i ≡ some u → find_tag written i ≡ some (rewritten u)
    unfolding written rewritten
    rewritten_after i u found = find_tag-update (λ v. v.id == t.id) (λ _. t) s.tags i keeps found

    rewritten_self : (u : Tag) → u.id ≡ t.id → rewritten u ≡ t
    unfolding rewritten
    rewritten_self u h = rw ((==_iff u.id t.id).1 h)

    rewritten_other : (u : Tag) → u.id ≢ t.id → rewritten u ≡ u
    unfolding rewritten
    rewritten_other u h = ground (arith, h)

    written_self-IsPlaced : (q : Option ℕ) → IsApart db s.tags old t q → IsBelow written t q
    written_self-IsPlaced none h = h
    written_self-IsPlaced (some p) (w, found, same, d, l, far) = (
      w,
      rewritten_after p w found
          ∙ ap some (rewritten_other w (apart_not_old db s.tags old t here same_id p w found far)),
      same,
      d,
      l,
    )

    written_other-IsPlaced : (u : Tag) (q : Option ℕ) → IsBelow s.tags u q → IsBelow written u q
    written_other-IsPlaced u none h = h
    written_other-IsPlaced u (some p) (w, found, same, d, l) = elim (Bool-cases (w.id == t.id)) [
      | inl self ↦
          let at = (==_iff w.id t.id).0 self in
          let e = is_old db s.tags old t here same_id p w found at in
          let tax = sym (ap (λ (z : Tag). z.taxonomy) e) ∙ same in
          let lin = ap (λ (z : Tag). z.lineage) e ∙ stays in
          let dep = ap (λ (z : Tag). z.depth) e in
          let dep' = same_depth in
          (
            t,
            rewritten_after p w found ∙ ap some (rewritten_self w at),
            home' ∙ sym home ∙ tax,
            omega arith,
            l ∙ ap (λ r. r ++ (u.value ++ tab ∷ [])) lin,
          )
      | inr other ↦
          let ne : w.id ≢ t.id = λ e. let bad = (==_iff w.id t.id).1 e in cc in
          (w, rewritten_after p w found ∙ ap some (rewritten_other w ne), same, d, l)
    ]

    rewritten-IsPlaced :
        (i : ℕ) (u : Tag) → find_tag s.tags i ≡ some u → IsPlaced written (rewritten u)
    rewritten-IsPlaced i u found = elim (Bool-cases (u.id == t.id)) [
      | inl self ↦
          subst (IsPlaced written) (sym (rewritten_self u ((==_iff u.id t.id).0 self)))
            (written_self-IsPlaced t.parent apart)
      | inr other ↦
          let ne : u.id ≢ t.id = λ e. let bad = (==_iff u.id t.id).1 e in cc in
          subst (IsPlaced written) (sym (rewritten_other u ne))
            (written_other-IsPlaced u u.parent (f.placed i u found))
    ]

    rewritten_homes :
        (i : ℕ) (u : Tag) → find_tag s.tags i ≡ some u → (rewritten u).taxonomy ≡ u.taxonomy
    rewritten_homes i u found = elim (Bool-cases (u.id == t.id)) [
      | inl self ↦
          let at = (==_iff u.id t.id).0 self in
          let e = is_old db s.tags old t here same_id i u found at in
          ap (λ (z : Tag). z.taxonomy) (rewritten_self u at)
          ∙ home'
          ∙ sym home
          ∙ ap (λ (z : Tag). z.taxonomy) (sym e)
      | inr other ↦
          ap (λ (z : Tag). z.taxonomy)
            (rewritten_other u (λ e. let bad = (==_iff u.id t.id).1 e in cc))
    ]

    rewritten_allowed :
        (i : ℕ) (u : Tag) → find_tag s.tags i ≡ some u → is_allowed (rewritten u) ≡ true
    unfolding rewritten
    rewritten_allowed i u found = elim (Bool-cases (u.id == t.id)) [
      | inl self ↦ rw self (may_write-allowed db t s.tags may)
      | inr other ↦ rw other (f.allowed i u found)
    ]

    written-IsForest : IsForest db written
    unfolding written rewritten
    written-IsForest =
        step-IsForest db s.tags written f t rewritten
          (λ i v found. find_tag-of_update (λ w. w.id == t.id) (λ _. t) s.tags i keeps found)
          rewritten_self (λ u ne. ap (λ (z : Tag). z.value) (rewritten_other u ne)) rewritten_homes
          differs plain rewritten_allowed rewritten-IsPlaced

    rewritten_keeps : (u : Tag) → u.id ≢ t.id → KeepsRow u (rewritten u)
    unfolding rewritten
    rewritten_keeps u other = ground (arith, other)

    pub written-IsResaved : IsResaved db s.tags t written
    unfolding written
    written-IsResaved = record {
      forest = written-IsForest;
      self =
          ap (find_tag written) same_id
          ∙ rewritten_after old.id old here
          ∙ ap some (rewritten_self old (sym same_id));
      others = λ i u found other. (
        rewritten u,
        rewritten_after i u found,
        rewritten_keeps u (λ e. other (sym (find_tag-id s.tags i u found) ∙ e)),
      );
      no_more = λ i v found.
          let (u, at, e) = find_tag-of_update (λ w. w.id == t.id) (λ _. t) s.tags i keeps found in
          (u, at);
    }

  -- The primary keys.
  module _ (keyed : IsKeyed s.tags) where
    pub written-IsKeyed : IsKeyed written
    unfolding written
    written-IsKeyed = update-IsKeyed s.tags (λ u. u.id == t.id) (λ _. t) keeps keyed

    pub relocated-IsKeyed : IsKeyed relocated_rows
    unfolding relocated_rows
    relocated-IsKeyed =
        update-IsKeyed written (is_below db x old t) (relocated db old t) relocated_keeps
          written-IsKeyed

    below_parts :
        (u : Tag)
        → is_below db x old t u ≡ true
        → (u.taxonomy ≡ some x) × (begins db old.lineage u.lineage ≡ true) × (u.id ≢ t.id)
    unfolding is_below
    below_parts u h =
        (sql_eq-some u.taxonomy x (ground (arith, h)), ground (arith, h), λ e. ground (arith, h, e))

    row_fits :
        (u : Tag)
        → find_tag s.tags u.id ≡ some u
        → (is_below db x old t (if u.id == t.id then t else u)
            && not (may_relocate db old t (if u.id == t.id then t else u)))
          ≡ false
    row_fits u found = elim (Bool-cases (u.id == t.id)) [
      | inl self ↦ rw (self, is_below_self) refl
      | inr other ↦ elim (Bool-cases (is_below db x old t u)) [
        | inr above ↦ rw (other, above) refl
        | inl below ↦
            let (at, b, ne) = below_parts u below in
            rw
              (
                other,
                below,
                below-may_relocate db is_db s.tags f old t x here home same_id
                    (may_write-allowed db t s.tags may) u.id u found ne at b u.parent
                    (f.placed u.id u found),
              )
              refl
      ]
    ]

    -- The cascade meets the constraints.
    pub cascade_fits :
        any (λ u. is_below db x old t u && not (may_relocate db old t u)) written ≡ false
    unfolding written
    cascade_fits =
        any-false (λ u. is_below db x old t u && not (may_relocate db old t u)) written
          (All-rows s.tags (λ v. (is_below db x old t v && not (may_relocate db old t v)) ≡ false)
            (λ u. u.id == t.id) (λ _. t) keyed row_fits)
