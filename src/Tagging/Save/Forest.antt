-- ===== src/Tagging/Save/Forest.antt =====
-- The trees of a table of tags: each tag stands below its parent, and values differ in a taxonomy.
use openedx_core.Common.{
  ℕ, ◌+◌, ◌≡◌, refl, sym, ap, ◌∙◌, inl, inr, ◌≢◌, true, false, List, [], ◌∷◌, ◌++◌, Option, none,
  some, ◌==◌, ==_iff, elem, map, Bool-cases, find-true,
}
use mathlib.Core.List.{map-append, append_assoc}
use openedx_core.Tagging.Str.{Str, starts_with, tab}
use openedx_core.Tagging.Str.Prefixes.{elem-map}
use openedx_core.Tagging.Str.Levels.{IsLevels, ends_tab, ends_tab_last, prefix_level}
use openedx_core.Tagging.Models.{Database, IsDatabase, Tag, find_tag, begins}
use openedx_core.Tagging.Save.{is_allowed}

-- The row of a parent, and what a tag below it keeps of it.
abbrev pub IsBelow : List Tag → Tag → Option ℕ → Type 0
IsBelow ts t none = (t.depth ≡ 0) × (t.lineage ≡ t.value ++ tab ∷ [])
IsBelow ts t (some p) =
    (u : Tag) × (find_tag ts p ≡ some u)
    × (u.taxonomy ≡ t.taxonomy)
    × (t.depth ≡ u.depth + 1)
    × (t.lineage ≡ u.lineage ++ (t.value ++ tab ∷ []))

abbrev pub IsPlaced : List Tag → Tag → Type 0
IsPlaced ts t = IsBelow ts t t.parent

pub record IsForest (db : Database) (ts : List Tag) : Type 0 where
  pub placed : (i : ℕ) (t : Tag) → find_tag ts i ≡ some t → IsPlaced ts t
  pub homed : (i : ℕ) (t : Tag) → find_tag ts i ≡ some t → (x : ℕ) × (t.taxonomy ≡ some x)
  pub unique :
      (i j : ℕ) (t u : Tag)
      → find_tag ts i ≡ some t
      → find_tag ts j ≡ some u
      → t.taxonomy ≡ u.taxonomy
      → db.key t.value ≡ db.key u.value
      → i ≡ j
  pub no_tab : (i : ℕ) (t : Tag) → find_tag ts i ≡ some t → elem tab t.value ≡ false
  pub allowed : (i : ℕ) (t : Tag) → find_tag ts i ≡ some t → is_allowed t ≡ true

pub find_tag-id : (ts : List Tag) (i : ℕ) (t : Tag) → find_tag ts i ≡ some t → t.id ≡ i
find_tag-id ts i t h = (==_iff t.id i).0 (find-true (λ u. u.id == i) ts h)

pub IsBelow-ends_tab :
    (ts : List Tag) (u : Tag) (q : Option ℕ) → IsBelow ts u q → ends_tab u.lineage ≡ true
IsBelow-ends_tab ts u none h = ap ends_tab h.1 ∙ ends_tab_last u.value
IsBelow-ends_tab ts u (some p) h =
    ap ends_tab (h.4 ∙ sym (append_assoc h.0.lineage u.value (tab ∷ [])))
    ∙ ends_tab_last (h.0.lineage ++ u.value)

-- The levels above a tag.
abbrev pub Levels : List Tag → Tag → Type 0
Levels ts t = (l : Str) × IsLevels l × (t.lineage ≡ l ++ (t.value ++ tab ∷ []))

pub parts_above :
    (ts : List Tag) (t : Tag)
    → ((i : ℕ) (u : Tag) → find_tag ts i ≡ some u → IsPlaced ts u)
    → (q : Option ℕ) → IsBelow ts t q
    → Levels ts t
parts_above ts t placed none h = ([], inl refl, h.1)
parts_above ts t placed (some p) h =
    (h.0.lineage, inr (IsBelow-ends_tab ts h.0 h.0.parent (placed p h.0 h.1)), h.4)

module _ (db : Database) (is_db : IsDatabase db) where
  ends_tab-like : (l : Str) → ends_tab l ≡ true → ends_tab (map db.like l) ≡ true
  ends_tab-like [] h = cc
  ends_tab-like (c ∷ []) h =
      ap (λ (d : ℕ). db.like d == tab) ((==_iff c tab).0 h)
      ∙ ap (λ (d : ℕ). d == tab) is_db.like_tab
  ends_tab-like (c ∷ d ∷ r) h = ends_tab-like (d ∷ r) h

  like-IsLevels : (l : Str) → IsLevels l → IsLevels (map db.like l)
  like-IsLevels l (inl e) = inl (ap (map db.like) e)
  like-IsLevels l (inr e) = inr (ends_tab-like l e)

  like-levels :
      (l v : Str)
      → map db.like (l ++ (v ++ tab ∷ [])) ≡ map db.like l ++ (map db.like v ++ tab ∷ [])
  like-levels l v =
      map-append db.like l (v ++ tab ∷ [])
      ∙ ap (λ r. map db.like l ++ r)
          (map-append db.like v (tab ∷ []) ∙ ap (λ c. map db.like v ++ c ∷ []) is_db.like_tab)

  -- A lineage begins with a tag's but the levels above it do not: the two values are the same.
  pub same_value_at_level :
      (l v p w : Str)
      → IsLevels l
      → IsLevels p
      → elem tab v ≡ false
      → elem tab w ≡ false
      → begins db (p ++ (w ++ tab ∷ [])) (l ++ (v ++ tab ∷ [])) ≡ true
      → begins db (p ++ (w ++ tab ∷ [])) l ≡ false
      → db.key v ≡ db.key w
  unfolding begins
  same_value_at_level l v p w hl hp nv nw h above = is_db.like_is_finer v w (
      prefix_level (map db.like l) (map db.like p) (map db.like v) (map db.like w)
        (like-IsLevels l hl) (like-IsLevels p hp) (elem-map db.like tab v is_db.only_tab nv)
        (elem-map db.like tab w is_db.only_tab nw)
        (sym (
            ap (λ o. starts_with o (map db.like l ++ (map db.like v ++ tab ∷ [])))
              (like-levels p w))
          ∙ sym (ap (starts_with (map db.like (p ++ (w ++ tab ∷ [])))) (like-levels l v))
          ∙ h)
        (sym (ap (λ o. starts_with o (map db.like l)) (like-levels p w)) ∙ above))

  module _ (ts : List Tag) (f : IsForest db ts) (old : Tag)
      (here : find_tag ts old.id ≡ some old) where
    -- A tag whose lineage begins with that of another is the other, or its parent's does.
    pub begins_above :
        (i : ℕ) (u : Tag)
        → find_tag ts i ≡ some u
        → i ≢ old.id
        → u.taxonomy ≡ old.taxonomy
        → (l : Str) → IsLevels l
        → u.lineage ≡ l ++ (u.value ++ tab ∷ [])
        → begins db old.lineage u.lineage ≡ true
        → begins db old.lineage l ≡ true
    begins_above i u found other same l levels e h =
        let (p, above, e') = parts_above ts old f.placed old.parent (f.placed old.id old here) in
        elim (Bool-cases (begins db old.lineage l)) [
          | inl below ↦ below
          | inr not_below ↦ absurd (
              other (
                f.unique i old.id u old found here same (
                  same_value_at_level l u.value p old.value levels above (f.no_tab i u found)
                    (f.no_tab old.id old here)
                    (sym (ap (λ o. begins db o (l ++ (u.value ++ tab ∷ []))) e')
                      ∙ sym (ap (begins db old.lineage) e)
                      ∙ h)
                    (sym (ap (λ o. begins db o l) e') ∙ not_below))))
        ]
