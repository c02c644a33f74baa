-- ===== src/Tagging/Taxonomies/Remaining.antt =====
-- The forest of the tags that a deletion leaves.
use openedx_core.Common.{
  ℕ, ◌≡◌, refl, sym, ap, ◌∙◌, inl, inr, false, ◌&&◌, not, List, [], ◌∷◌, Option, none, some, ◌==◌,
  ==_iff, elem, select, All-map, All-select, arith, Bool-cases, if◌then◌else◌,
}
use openedx_core.Tagging.Models.{Database, Tag, find_tag}
use openedx_core.Tagging.Save.Forest.{IsBelow, IsForest, find_tag-id}
use openedx_core.Tagging.Save.Keys.{IsKeyed}
use openedx_core.Tagging.Save.Tables.{any-false_found}
use openedx_core.Tagging.Taxonomies.{elem_opt}
use openedx_core.Tagging.Taxonomies.Closure.{IsClosed}

pub find_tag-select :
    (ids : List ℕ) (ts : List Tag) (i : ℕ)
    → find_tag (select (λ t. not (elem t.id ids)) ts) i
      ≡ (if elem i ids then none else find_tag ts i)
find_tag-select ids [] i = ground arith
find_tag-select ids (v ∷ ts) i = elim (Bool-cases (v.id == i)) [
  | inl this ↦
      let e : elem v.id ids ≡ elem i ids = ap (λ a. elem a ids) ((==_iff v.id i).0 this) in
      ground (arith, e, find_tag-select ids ts i)
  | inr other ↦ ground (arith, find_tag-select ids ts i)
]

module _ (ids : List ℕ) (ts : List Tag) where
  abbrev pub rows_left : List Tag
  rows_left = select (λ t. not (elem t.id ids)) ts

  pub left_before :
      (i : ℕ) {u : Tag}
      → find_tag rows_left i ≡ some u
      → (find_tag ts i ≡ some u) × (elem i ids ≡ false)
  left_before i {u} h =
      let e = sym (find_tag-select ids ts i) ∙ h in (ground (arith, e), ground (arith, e))

  pub left_after :
      (i : ℕ) {u : Tag}
      → find_tag ts i ≡ some u
      → elem i ids ≡ false
      → find_tag rows_left i ≡ some u
  left_after i h stays = find_tag-select ids ts i ∙ ground (arith, h, stays)

  -- A parent of a row that is left is left, too.
  pub left-IsBelow :
      IsClosed ids ts
      → (i : ℕ) (u : Tag) → find_tag ts i ≡ some u
      → elem i ids ≡ false
      → (q : Option ℕ) → u.parent ≡ q
      → IsBelow ts u q
      → IsBelow rows_left u q
  left-IsBelow closed i u found stays none e b = b
  left-IsBelow closed i u found stays (some p) e (w, above, same, d, l) =
      let c =
        any-false_found (λ v. elem_opt v.parent ids && not (elem v.id ids)) ts i {u = u} closed
          found in
      let at : elem u.id ids ≡ false = ap (λ a. elem a ids) (find_tag-id ts i u found) ∙ stays in
      let below : elem_opt u.parent ids ≡ elem p ids = ap (λ o. elem_opt o ids) e in
      (w, left_after p above (ground (arith, c, at, below)), same, d, l)

  pub left-IsForest : (db : Database) → IsForest db ts → IsClosed ids ts → IsForest db rows_left
  left-IsForest db f closed = record {
    placed = λ i u found.
        let (old, stays) = left_before i found in
        left-IsBelow closed i u old stays u.parent refl (f.placed i u old);
    homed = λ i u found. f.homed i u (left_before i found).0;
    unique = λ i j u v fu fv. f.unique i j u v (left_before i fu).0 (left_before j fv).0;
    no_tab = λ i u found. f.no_tab i u (left_before i found).0;
    allowed = λ i u found. f.allowed i u (left_before i found).0;
  }

  pub left-IsKeyed : IsKeyed ts → IsKeyed rows_left
  left-IsKeyed keyed =
      All-map _ _ rows_left (λ u row. left_after u.id row.0 (ground (arith, row.1)))
        (All-select _ (λ u. not (elem u.id ids)) ts keyed)
