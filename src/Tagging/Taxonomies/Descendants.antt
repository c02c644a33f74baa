-- ===== src/Tagging/Taxonomies/Descendants.antt =====
-- `Tag.descendant_count` against the chains of parents.
use openedx_core.Common.{
  ℕ, zero, suc, ◌<◌, ◌≡◌, ◌≢◌, refl, sym, ap, ◌∙◌, inl, inr, Bool, true, false, ◌&&◌, ◌||◌, not,
  List, [], ◌∷◌, ◌++◌, Option, none, some, ◌==◌, ==_iff, ltb, sql_eq, select, length, All, All-map,
  All-select, arith, Bool-cases,
}
use mathlib.Core.List.{append-nil}
use openedx_core.Tagging.Str.Levels.{IsLevels}
use openedx_core.Tagging.Str.{Str, tab}
use openedx_core.Tagging.Models.{
  Database, IsDatabase, Tag, Taxonomy, Store, find_tag, tag_set, begins,
}
use openedx_core.Tagging.Save.Forest.{
  IsBelow, IsForest, IsBelow-ends_tab, find_tag-id, begins_above,
}
use openedx_core.Tagging.Save.Moved.{begins_nothing, begins-append, begins_self, sql_eq-some}
use openedx_core.Tagging.Save.Cascades.{count_after, counted}
use openedx_core.Tagging.Save.Keys.{IsKeyed}
use openedx_core.Tagging.Taxonomies.{descendant_count, find_taxonomy, count_in}

abbrev row_is : (Tag → Bool) → Option Tag → Bool
row_is p none = false
row_is p (some u) = p u

abbrev parent_is : (Tag → Bool) → List Tag → Option ℕ → Bool
parent_is p ts none = false
parent_is p ts (some q) = row_is p (find_tag ts q)

-- A tag is `a`, or its parent is or is below it, by the foreign keys.
unfoldable pub is_under : ℕ → List Tag → ℕ → Tag → Bool
is_under zero ts a u = false
is_under (suc fuel) ts a u = (u.id == a) || parent_is (is_under fuel ts a) ts u.parent

module _ (db : Database) (is_db : IsDatabase db) (ts : List Tag) (f : IsForest db ts) (t : Tag)
    (x : ℕ) (here : find_tag ts t.id ≡ some t) (home : t.taxonomy ≡ some x) where
  above_of :
      (i : ℕ) (u : Tag)
      → find_tag ts i ≡ some u
      → u.taxonomy ≡ some x
      → u.id ≢ t.id
      → (l : Str) → IsLevels l
      → u.lineage ≡ l ++ (u.value ++ tab ∷ [])
      → begins db t.lineage u.lineage ≡ true
      → begins db t.lineage l ≡ true
  above_of i u found at other l levels e h =
      begins_above db is_db ts f t here i u found (λ same. other (find_tag-id ts i u found ∙ same))
        (at ∙ sym home) l levels e h

  root_apart : begins db t.lineage [] ≡ true → ⊥
  root_apart = begins_nothing db t.lineage (IsBelow-ends_tab ts t t.parent (f.placed t.id t here))

  parent-under :
      (fuel : ℕ)
      → ((j : ℕ) (w : Tag)
          → find_tag ts j ≡ some w
          → w.taxonomy ≡ some x
          → w.depth < fuel
          → is_under fuel ts t.id w ≡ begins db t.lineage w.lineage)
      → (i : ℕ) (u : Tag) → find_tag ts i ≡ some u
      → u.taxonomy ≡ some x
      → (q : Option ℕ) → u.depth < suc fuel
      → IsBelow ts u q
      → u.id ≢ t.id
      → parent_is (is_under fuel ts t.id) ts q ≡ begins db t.lineage u.lineage
  parent-under fuel under i u found at none d b other =
      elim (Bool-cases (begins db t.lineage u.lineage)) [
        | inl below ↦ absurd (root_apart (above_of i u found at other [] (inl refl) b.1 below))
        | inr apart ↦ sym apart
      ]
  parent-under fuel under i u found at (some p) d (w, above, same, dw, l) other =
      let it =
        ap (row_is (is_under fuel ts t.id)) above ∙ under p w above (same ∙ at) (omega arith) in
      elim (Bool-cases (begins db t.lineage w.lineage)) [
        | inl below ↦
            it
            ∙ below
            ∙ sym (
                ap (begins db t.lineage) l
                ∙ begins-append db t.lineage w.lineage (u.value ++ tab ∷ []) below)
        | inr apart ↦ elim (Bool-cases (begins db t.lineage u.lineage)) [
          | inl bad ↦
              let below =
                above_of i u found at other w.lineage
                  (inr (IsBelow-ends_tab ts w w.parent (f.placed p w above))) l bad in
              cc
          | inr apart' ↦ it ∙ apart ∙ sym apart'
        ]
      ]

  -- The lineages tell what is below a tag.
  under_lem :
      (fuel i : ℕ) (u : Tag)
      → find_tag ts i ≡ some u
      → u.taxonomy ≡ some x
      → u.depth < fuel
      → is_under fuel ts t.id u ≡ begins db t.lineage u.lineage
  unfolding is_under
  under_lem zero i u found at d = elim d [ ]
  under_lem (suc fuel) i u found at d = elim (Bool-cases (u.id == t.id)) [
    | inl self ↦
        let e : i ≡ t.id = sym (find_tag-id ts i u found) ∙ (==_iff u.id t.id).0 self in
        let same : t ≡ u = ground (arith, here, ap (find_tag ts) e, found) in
        rw self (
          sym (
            ap (λ (v : Tag). begins db t.lineage v.lineage) (sym same)
            ∙ ap (begins db t.lineage) (sym (append-nil t.lineage))
            ∙ begins_self db t.lineage []))
    | inr not_self ↦
        let other : u.id ≢ t.id = λ e. let bad = (==_iff u.id t.id).1 e in cc in
        rw not_self
          (parent-under fuel (under_lem fuel) i u found at u.parent d (f.placed i u found) other)
  ]

  deeper :
      (i : ℕ) (u : Tag)
      → find_tag ts i ≡ some u
      → u.taxonomy ≡ some x
      → u.id ≢ t.id
      → (q : Option ℕ) → IsBelow ts u q
      → begins db t.lineage u.lineage ≡ true
      → t.depth < u.depth
  unfolding begins
  deeper i u found at other none b h =
      absurd (root_apart (above_of i u found at other [] (inl refl) b.1 h))
  deeper i u found at other (some p) (w, above, same, dw, l) h =
      let below =
        above_of i u found at other w.lineage
          (inr (IsBelow-ends_tab ts w w.parent (f.placed p w above))) l h in
      let c = count_after db is_db t.lineage w.lineage below in
      let cw = counted w (f.allowed p w above) in
      let ct = counted t (f.allowed t.id t here) in omega (arith, c, cw, ct)

  is_descendant :
      (u : Tag)
      → find_tag ts u.id ≡ some u
      → u.taxonomy ≡ some x
      → (ltb t.depth u.depth && begins db t.lineage u.lineage)
        ≡ (not (u.id == t.id) && is_under (suc u.depth) ts t.id u)
  is_descendant u found at =
      let it = under_lem (suc u.depth) u.id u found at (omega arith) in
      elim (Bool-cases (u.id == t.id)) [
        | inl self ↦
            let e : u.id ≡ t.id = (==_iff u.id t.id).0 self in
            let same : t ≡ u = ground (arith, here, ap (find_tag ts) e, found) in
            let d = ap (λ (v : Tag). v.depth) same in rw self (ground (arith, d))
        | inr not_self ↦
            let other : u.id ≢ t.id = λ e. let bad = (==_iff u.id t.id).1 e in cc in
            elim (Bool-cases (begins db t.lineage u.lineage)) [
              | inl below ↦
                  let d = deeper u.id u found at other u.parent (f.placed u.id u found) below in
                  rw (not_self, it, below) (ground (arith, d))
              | inr apart ↦ rw (not_self, it, apart) (ground arith)
            ]
      ]

select-same :
    (p q : Tag → Bool) (ts : List Tag) → All (λ u. p u ≡ q u) ts → select p ts ≡ select q ts
select-same p q [] h = refl
select-same p q (u ∷ ts) h = ground (arith, h.0, select-same p q ts h.1)

-- In a forest with primary keys, the descendants that a tag of a taxonomy without free text counts by
-- depth and lineage are the tags of the taxonomy other than itself from which the foreign keys lead
-- up to it.
pub descendant_count_lem :
    (db : Database) (t : Tag) (y : Taxonomy) (s : Store)
    → IsDatabase db
    → IsForest db s.tags
    → IsKeyed s.tags
    → find_tag s.tags t.id ≡ some t
    → find_taxonomy t.taxonomy s ≡ some y
    → t.taxonomy ≡ some y.id
    → y.allow_free_text ≡ false
    → descendant_count db t s
      ≡ length (
          select
            (λ u. not (u.id == t.id) && is_under (suc u.depth) s.tags t.id u)
            (tag_set y.id s.tags))
unfolding descendant_count
descendant_count_lem db t y s is_db f keyed here taxonomy home closed =
    ap (λ o. count_in o (λ u. ltb t.depth u.depth && begins db t.lineage u.lineage) s) taxonomy
    ∙ rw closed (
        ap length (
          select-same (λ u. ltb t.depth u.depth && begins db t.lineage u.lineage)
            (λ u. not (u.id == t.id) && is_under (suc u.depth) s.tags t.id u) (tag_set y.id s.tags)
            (All-map _ _ (tag_set y.id s.tags)
              (λ u row.
                is_descendant db is_db s.tags f t y.id here home u row.0
                  (sql_eq-some u.taxonomy y.id row.1))
              (All-select _ (λ (u : Tag). sql_eq u.taxonomy (some y.id)) s.tags keyed))))
