-- ===== src/Tagging/Save/Moved.antt =====
-- A tag in a new place, with the tags below it: each still stands below its parent.
use mathlib.Core.Path.{subst}
use openedx_core.Common.{
  ℕ, ◌+◌, ◌≤◌, ◌≡◌, ◌≢◌, refl, sym, ap, ◌∙◌, inl, inr, true, false, List, [], ◌∷◌, ◌++◌, Option,
  none, some, ◌==◌, ==_iff, sql_eq, map, length, arith, Bool-cases, if◌then◌else◌,
}
use mathlib.Core.List.{map-append, append_assoc, append-nil}
use openedx_core.Tagging.Str.{Str, starts_with, drop, tab}
use openedx_core.Tagging.Str.Prefixes.{
  starts_with-append, starts_with_self, starts_with-length, length-map, drop_self, drop-append,
}
use openedx_core.Tagging.Str.Levels.{ends_tab}
use openedx_core.Tagging.Models.{Database, IsDatabase, Tag, find_tag, begins}
use openedx_core.Tagging.Save.{is_below, relocated}
use openedx_core.Tagging.Save.Forest.{
  IsBelow, IsPlaced, IsForest, IsBelow-ends_tab, find_tag-id, begins_above,
}

pub sql_eq-some : (q : Option ℕ) (x : ℕ) → sql_eq q (some x) ≡ true → q ≡ some x
sql_eq-some none x h = cc
sql_eq-some (some y) x h = ground (arith, h)

module _ (db : Database) where
  pub begins-append : (o l r : Str) → begins db o l ≡ true → begins db o (l ++ r) ≡ true
  unfolding begins
  begins-append o l r h =
      ap (starts_with (map db.like o)) (map-append db.like l r)
      ∙ starts_with-append (map db.like o) (map db.like l) (map db.like r) h

  pub begins_self : (o r : Str) → begins db o (o ++ r) ≡ true
  unfolding begins
  begins_self o r =
      ap (starts_with (map db.like o)) (map-append db.like o r)
      ∙ starts_with_self (map db.like o) (map db.like r)

  pub begins-length : (o l : Str) → begins db o l ≡ true → length o ≤ length l
  unfolding begins
  begins-length o l h = omega (
    arith,
    starts_with-length (map db.like o) (map db.like l) h,
    length-map db.like o,
    length-map db.like l,
  )

  pub begins_nothing : (o : Str) → ends_tab o ≡ true → begins db o [] ≡ true → ⊥
  unfolding begins starts_with
  begins_nothing [] h e = cc
  begins_nothing (c ∷ cs) h e = cc

  -- The row that a cascade leaves of `u`, when `old` became `t`.
  unfoldable pub moved : ℕ → Tag → Tag → Tag → Tag
  moved x old t u =
      if u.id == t.id then t else if is_below db x old t u then relocated db old t u else u

  -- The parent that `t` has: none, or a tag that is not `old` or below it.
  abbrev pub IsApart : List Tag → Tag → Tag → Option ℕ → Type 0
  IsApart ts old t none = (t.depth ≡ 0) × (t.lineage ≡ t.value ++ tab ∷ [])
  IsApart ts old t (some p) =
      (w : Tag) × (find_tag ts p ≡ some w)
      × (w.taxonomy ≡ t.taxonomy)
      × (t.depth ≡ w.depth + 1)
      × (t.lineage ≡ w.lineage ++ (t.value ++ tab ∷ []))
      × (begins db old.lineage w.lineage ≡ false)

  pub moved_self : (x : ℕ) (old t u : Tag) → u.id ≡ t.id → moved x old t u ≡ t
  unfolding moved
  moved_self x old t u h = rw ((==_iff u.id t.id).1 h)

  moved_below :
      (x : ℕ) (old t u : Tag)
      → u.id ≢ t.id
      → u.taxonomy ≡ some x
      → begins db old.lineage u.lineage ≡ true
      → moved x old t u ≡ relocated db old t u
  unfolding moved is_below
  moved_below x old t u other home h = rw home (ground (arith, h, other))

  moved_apart :
      (x : ℕ) (old t u : Tag)
      → u.id ≢ t.id
      → begins db old.lineage u.lineage ≡ false
      → moved x old t u ≡ u
  unfolding moved is_below
  moved_apart x old t u other h = ground (arith, h, other)

  moved_elsewhere :
      (x : ℕ) (old t u : Tag)
      → u.id ≢ t.id
      → sql_eq u.taxonomy (some x) ≡ false
      → moved x old t u ≡ u
  unfolding moved is_below
  moved_elsewhere x old t u other h = ground (arith, h, other)

module _ (db : Database) (ts : List Tag) (old t : Tag) (here : find_tag ts old.id ≡ some old)
    (same_id : t.id ≡ old.id) where
  pub is_old : (i : ℕ) (u : Tag) → find_tag ts i ≡ some u → u.id ≡ t.id → u ≡ old
  is_old i u found h =
      let e : i ≡ old.id = sym (find_tag-id ts i u found) ∙ h ∙ same_id in
      let found' = rw e at found in ground (arith, found', here)

  pub apart_not_old :
      (i : ℕ) (u : Tag)
      → find_tag ts i ≡ some u
      → begins db old.lineage u.lineage ≡ false
      → u.id ≢ t.id
  apart_not_old i u found h same =
      let bad : begins db old.lineage (old.lineage ++ []) ≡ false =
        ap (begins db old.lineage) (append-nil old.lineage)
        ∙ sym (ap (λ (v : Tag). begins db old.lineage v.lineage) (is_old i u found same))
        ∙ h in
      cc (bad, begins_self db old.lineage [])

module _ (db : Database) (is_db : IsDatabase db) (ts : List Tag) (f : IsForest db ts) (old t : Tag)
    (x : ℕ) (here : find_tag ts old.id ≡ some old) (home : old.taxonomy ≡ some x)
    (home' : t.taxonomy ≡ some x) (same_id : t.id ≡ old.id)
    (enough : (i : ℕ) (u : Tag)
      → find_tag ts i ≡ some u
      → u.id ≢ t.id
      → u.taxonomy ≡ some x
      → begins db old.lineage u.lineage ≡ true
      → old.depth ≤ u.depth + t.depth)
    (ts' : List Tag)
    (after : (i : ℕ) (u : Tag)
      → find_tag ts i ≡ some u
      → find_tag ts' i ≡ some (moved db x old t u)) where
  -- The tag itself.
  self-IsPlaced : (q : Option ℕ) → IsApart db ts old t q → IsBelow ts' t q
  self-IsPlaced none h = h
  self-IsPlaced (some p) (w, found, same, d, l, apart) = (
    w,
    after p w found
        ∙ ap some (
            moved_apart db x old t w (apart_not_old db ts old t here same_id p w found apart)
              apart),
    same,
    d,
    l,
  )

  -- A tag that is not below `old`.
  apart-IsPlaced :
      (i : ℕ) (u : Tag)
      → find_tag ts i ≡ some u
      → u.id ≢ t.id
      → begins db old.lineage u.lineage ≡ false
      → (q : Option ℕ) → IsBelow ts u q
      → IsBelow ts' u q
  apart-IsPlaced i u found other h none b = b
  apart-IsPlaced i u found other h (some p) (w, above, same, d, l) =
      elim (Bool-cases (begins db old.lineage w.lineage)) [
        | inl below ↦
            let bad =
              ap (begins db old.lineage) l
              ∙ begins-append db old.lineage w.lineage (u.value ++ tab ∷ []) below in
            cc
        | inr apart ↦ (
          w,
          after p w above
              ∙ ap some (
                  moved_apart db x old t w (apart_not_old db ts old t here same_id p w above apart)
                    apart),
          same,
          d,
          l,
        )
      ]

  -- A tag of another taxonomy.
  elsewhere-IsPlaced :
      (i : ℕ) (u : Tag)
      → find_tag ts i ≡ some u
      → sql_eq u.taxonomy (some x) ≡ false
      → (q : Option ℕ) → IsBelow ts u q
      → IsBelow ts' u q
  elsewhere-IsPlaced i u found h none b = b
  elsewhere-IsPlaced i u found h (some p) (w, above, same, d, l) =
      let h' : sql_eq w.taxonomy (some x) ≡ false = ap (λ q. sql_eq q (some x)) same ∙ h in
      let other : w.id ≢ t.id = λ e.
        let bad =
          ap (λ (v : Tag). v.taxonomy) (is_old db ts old t here same_id p w above e) ∙ home in
        let bad' = rw bad at h' in ground (arith, bad') in
      (w, after p w above ∙ ap some (moved_elsewhere db x old t w other h'), same, d, l)

  not_at_old : (i : ℕ) (u : Tag) → find_tag ts i ≡ some u → u.id ≢ t.id → i ≢ old.id
  not_at_old i u found other e = other (find_tag-id ts i u found ∙ e ∙ sym same_id)

  -- A child of `old`.
  child-IsPlaced :
      (u w : Tag) (p : ℕ)
      → find_tag ts p ≡ some w
      → w.id ≡ t.id
      → u.taxonomy ≡ some x
      → u.depth ≡ w.depth + 1
      → u.lineage ≡ w.lineage ++ (u.value ++ tab ∷ [])
      → IsBelow ts' (relocated db old t u) (some p)
  unfolding relocated
  child-IsPlaced u w p above self tax d l =
      let e = is_old db ts old t here same_id p w above self in
      let d' : w.depth ≡ old.depth = ap (λ (v : Tag). v.depth) e in
      let l' : u.lineage ≡ old.lineage ++ (u.value ++ tab ∷ []) =
        l ∙ ap (λ (v : Tag). v.lineage ++ (u.value ++ tab ∷ [])) e in
      (
        t,
        after p w above ∙ ap some (moved_self db x old t w self),
        home' ∙ sym tax,
        omega arith,
        ap (λ r. t.lineage ++ drop (length old.lineage) r) l'
            ∙ ap (λ r. t.lineage ++ r) (drop_self old.lineage (u.value ++ tab ∷ [])),
      )

  -- A tag further below.
  deep-IsPlaced :
      (u w : Tag) (p : ℕ)
      → find_tag ts p ≡ some w
      → w.id ≢ t.id
      → w.taxonomy ≡ u.taxonomy
      → u.taxonomy ≡ some x
      → begins db old.lineage w.lineage ≡ true
      → u.depth ≡ w.depth + 1
      → u.lineage ≡ w.lineage ++ (u.value ++ tab ∷ [])
      → IsBelow ts' (relocated db old t u) (some p)
  unfolding relocated
  deep-IsPlaced u w p above other same tax b d l =
      let le = enough p w above other (same ∙ tax) b in
      (
        relocated db old t w,
        after p w above ∙ ap some (moved_below db x old t w other (same ∙ tax) b),
        same,
        omega arith,
        ap (λ r. t.lineage ++ drop (length old.lineage) r) l
            ∙ ap (λ r. t.lineage ++ r)
                (drop-append (length old.lineage) w.lineage (u.value ++ tab ∷ [])
                  (begins-length db old.lineage w.lineage b))
            ∙ sym (
                append_assoc t.lineage (drop (length old.lineage) w.lineage) (u.value ++ tab ∷ [])),
      )

  -- A tag below `old`.
  beneath-IsPlaced :
      (i : ℕ) (u : Tag)
      → find_tag ts i ≡ some u
      → u.id ≢ t.id
      → u.taxonomy ≡ some x
      → begins db old.lineage u.lineage ≡ true
      → (q : Option ℕ) → IsBelow ts u q
      → IsBelow ts' (relocated db old t u) q
  beneath-IsPlaced i u found other tax h none b = absurd (
      begins_nothing db old.lineage (IsBelow-ends_tab ts old old.parent (f.placed old.id old here))
        (begins_above db is_db ts f old here i u found (not_at_old i u found other) (tax ∙ sym home)
          [] (inl refl) b.1 h))
  beneath-IsPlaced i u found other tax h (some p) (w, above, same, d, l) =
      elim (Bool-cases (w.id == t.id)) [
        | inl self ↦ child-IsPlaced u w p above ((==_iff w.id t.id).0 self) tax d l
        | inr not_self ↦
            deep-IsPlaced u w p above (λ e. let bad = (==_iff w.id t.id).1 e in cc) same tax
              (begins_above db is_db ts f old here i u found (not_at_old i u found other)
                (tax ∙ sym home) w.lineage
                (inr (IsBelow-ends_tab ts w w.parent (f.placed p w above))) l h)
              d l
      ]

  pub moved-IsPlaced :
      IsApart db ts old t t.parent
      → (i : ℕ) (u : Tag) → find_tag ts i ≡ some u
      → IsPlaced ts' (moved db x old t u)
  unfolding relocated
  moved-IsPlaced apart i u found = elim (Bool-cases (u.id == t.id)) [
    | inl self ↦
        subst (IsPlaced ts') (sym (moved_self db x old t u ((==_iff u.id t.id).0 self)))
          (self-IsPlaced t.parent apart)
    | inr not_self ↦
        let other : u.id ≢ t.id = λ e. let bad = (==_iff u.id t.id).1 e in cc in
        elim (Bool-cases (sql_eq u.taxonomy (some x))) [
          | inl tax ↦ elim (Bool-cases (begins db old.lineage u.lineage)) [
            | inl below ↦
                let tax' = sql_eq-some u.taxonomy x tax in
                subst (IsPlaced ts') (sym (moved_below db x old t u other tax' below))
                  (beneath-IsPlaced i u found other tax' below u.parent (f.placed i u found))
            | inr above ↦
                subst (IsPlaced ts') (sym (moved_apart db x old t u other above))
                  (apart-IsPlaced i u found other above u.parent (f.placed i u found))
          ]
          | inr tax ↦
              subst (IsPlaced ts') (sym (moved_elsewhere db x old t u other tax))
                (elsewhere-IsPlaced i u found tax u.parent (f.placed i u found))
        ]
  ]
