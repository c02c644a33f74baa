-- ===== src/Tagging/Save/Cascades.antt =====
-- The UPDATE of the descendants meets the constraints of the table.
use openedx_core.Common.{
  ℕ, ◌+◌, ◌-◌, ◌≡◌, ◌≢◌, refl, sym, ap, ◌∙◌, inl, inr, true, List, [], ◌∷◌, ◌++◌, Option, none,
  some, ◌==◌, ==_iff, length, map, arith, Bool-cases,
}
use mathlib.Core.List.{append_assoc}
use openedx_core.Tagging.Str.{Str, str_eq, starts_with, drop, count, tab}
use openedx_core.Tagging.Str.Prefixes.{str_eq_refl, drop_self, drop-append}
use openedx_core.Tagging.Models.{Database, IsDatabase, Tag, find_tag, begins}
use openedx_core.Tagging.Save.{is_allowed, relocated, may_relocate}
use openedx_core.Tagging.Save.Forest.{
  IsBelow, IsForest, IsBelow-ends_tab, find_tag-id, begins_above,
}
use openedx_core.Tagging.Save.Moved.{begins_nothing, begins-length}

pub count-append : (a : ℕ) (l r : Str) → count a (l ++ r) ≡ count a l + count a r
unfolding count
count-append a [] r = omega arith
count-append a (c ∷ l) r = ground (arith, count-append a l r)

pub length-append : (l r : Str) → length (l ++ r) ≡ length l + length r
length-append [] r = omega arith
length-append (c ∷ l) r = omega (arith, length-append l r)

pub drop_end : (l r : Str) → drop (length (l ++ r) - length r) (l ++ r) ≡ r
drop_end l r = ap (λ n. drop n (l ++ r)) (omega (arith, length-append l r)) ∙ drop_self l r

pub counted : (u : Tag) → is_allowed u ≡ true → count tab u.lineage ≡ u.depth + 1
unfolding is_allowed
counted u h = ground (arith, h)

module _ (db : Database) (is_db : IsDatabase db) where
  same_tab : (c d : ℕ) → db.like c ≡ db.like d → (tab == c) ≡ (tab == d)
  same_tab c d h = elim (Bool-cases (tab == c)) [
    | inl this ↦
        let e : tab ≡ c = (==_iff tab c).0 this in
        let e' : d ≡ 9 = is_db.only_tab d (sym h ∙ ap db.like (sym e) ∙ is_db.like_tab) in
        this ∙ sym ((==_iff tab d).1 (sym e'))
    | inr other ↦ elim (Bool-cases (tab == d)) [
      | inl that ↦
          let e : tab ≡ d = (==_iff tab d).0 that in
          let e' : c ≡ 9 = is_db.only_tab c (h ∙ ap db.like (sym e) ∙ is_db.like_tab) in
          (==_iff tab c).1 (sym e') ∙ sym that
      | inr neither ↦ other ∙ sym neither
    ]
  ]

  pub count_after :
      (o l : Str)
      → starts_with (map db.like o) (map db.like l) ≡ true
      → count tab o + count tab (drop (length o) l) ≡ count tab l
  unfolding count drop starts_with
  count_after [] l h = omega arith
  count_after (c ∷ o) [] h = cc
  count_after (c ∷ o) (d ∷ l) h =
      let same : (tab == c) ≡ (tab == d) = same_tab c d (ground (arith, h)) in
      let rest = count_after o l (ground (arith, h)) in
      elim (Bool-cases (tab == c)) [
        | inl this ↦ rw (this, sym same ∙ this) (omega (arith, rest))
        | inr other ↦ rw (other, sym same ∙ other) rest
      ]

  module _ (ts : List Tag) (f : IsForest db ts) (old t : Tag) (x : ℕ)
      (here : find_tag ts old.id ≡ some old) (home : old.taxonomy ≡ some x)
      (same_id : t.id ≡ old.id) (good : is_allowed t ≡ true) where
    -- A tag below `old`, and the parent that it has.
    child-may_relocate :
        (i : ℕ) (u w : Tag) (p : ℕ)
        → find_tag ts i ≡ some u
        → find_tag ts p ≡ some w
        → begins db old.lineage w.lineage ≡ true
        → u.depth ≡ w.depth + 1
        → u.lineage ≡ w.lineage ++ (u.value ++ tab ∷ [])
        → may_relocate db old t u ≡ true
    unfolding may_relocate relocated is_allowed begins
    child-may_relocate i u w p found above b d l =
        let n = length old.lineage in
        let tail = u.value ++ tab ∷ [] in
        let c = count_after old.lineage w.lineage b in
        let cw = counted w (f.allowed p w above) in
        let co = counted old (f.allowed old.id old here) in
        let ct = counted t good in
        let cu = counted u (f.allowed i u found) in
        let cut : drop n u.lineage ≡ drop n w.lineage ++ tail =
          ap (drop n) l ∙ drop-append n w.lineage tail (begins-length db old.lineage w.lineage b) in
        let whole : t.lineage ++ drop n u.lineage ≡ (t.lineage ++ drop n w.lineage) ++ tail =
          ap (λ r. t.lineage ++ r) cut ∙ sym (append_assoc t.lineage (drop n w.lineage) tail) in
        let size : length tail ≡ length u.value + 1 = length-append u.value (tab ∷ []) in
        let ends : str_eq
              (drop (length (t.lineage ++ drop n u.lineage) - (length u.value + 1))
                (t.lineage ++ drop n u.lineage))
              tail
            ≡ true =
          ap (λ z. str_eq (drop (length z - (length u.value + 1)) z) tail) whole
          ∙ ap
              (λ k.
                str_eq
                  (drop (length ((t.lineage ++ drop n w.lineage) ++ tail) - k)
                    ((t.lineage ++ drop n w.lineage) ++ tail))
                  tail)
              (sym size)
          ∙ ap (λ z. str_eq z tail) (drop_end (t.lineage ++ drop n w.lineage) tail)
          ∙ str_eq_refl tail in
        let c1 = count-append tab t.lineage (drop n u.lineage) in
        let c2 = ap (count tab) cut ∙ count-append tab (drop n w.lineage) tail in
        let c3 = ap (count tab) l ∙ count-append tab w.lineage tail in
        ground (arith, ends, c, cw, co, ct, cu, c1, c2, c3, d)

    pub below-may_relocate :
        (i : ℕ) (u : Tag)
        → find_tag ts i ≡ some u
        → u.id ≢ t.id
        → u.taxonomy ≡ some x
        → begins db old.lineage u.lineage ≡ true
        → (q : Option ℕ) → IsBelow ts u q
        → may_relocate db old t u ≡ true
    below-may_relocate i u found other at b none h = absurd (
        begins_nothing db old.lineage
          (IsBelow-ends_tab ts old old.parent (f.placed old.id old here))
          (begins_above db is_db ts f old here i u found
            (λ e. other (find_tag-id ts i u found ∙ e ∙ sym same_id)) (at ∙ sym home) [] (inl refl)
            h.1 b))
    below-may_relocate i u found other at b (some p) (w, above, same, d, l) =
        child-may_relocate i u w p found above
          (begins_above db is_db ts f old here i u found
            (λ e. other (find_tag-id ts i u found ∙ e ∙ sym same_id)) (at ∙ sym home) w.lineage
            (inr (IsBelow-ends_tab ts w w.parent (f.placed p w above))) l b)
          d l
