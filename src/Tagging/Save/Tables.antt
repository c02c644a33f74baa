-- ===== src/Tagging/Save/Tables.antt =====
-- The table of tags after a row is written and others are relocated.
use mathlib.Core.Path.{subst}
use openedx_core.Common.{
  ℕ, ◌≡◌, ◌≢◌, refl, sym, ap, ◌∙◌, ◌⊎◌, inl, inr, Bool, true, false, List, [], ◌∷◌, some, ◌==◌,
  ==_iff, any, All, elem, update_where, arith, Bool-cases, if◌then◌else◌,
}
use openedx_core.Tagging.Str.{tab}
use openedx_core.Tagging.Models.{Database, Tag, find_tag}
use openedx_core.Tagging.Save.{is_allowed}
use openedx_core.Tagging.Save.Forest.{IsPlaced, IsForest, find_tag-id}

pub find_tag-update :
    (q : Tag → Bool) (g : Tag → Tag) (ts : List Tag) (i : ℕ) {u : Tag}
    → ((v : Tag) → q v ≡ true → (g v).id ≡ v.id)
    → find_tag ts i ≡ some u
    → find_tag (update_where q g ts) i ≡ some (if q u then g u else u)
find_tag-update q g [] i keep h = cc
find_tag-update q g (v ∷ ts) i {u} keep h = elim (Bool-cases (q v)) [
  | inl hit ↦ let k = keep v hit in ground (arith, find_tag-update q g ts i {u = u} keep)
  | inr miss ↦ ground (arith, find_tag-update q g ts i {u = u} keep)
]

pub find_tag-of_update :
    (q : Tag → Bool) (g : Tag → Tag) (ts : List Tag) (i : ℕ) {w : Tag}
    → ((v : Tag) → q v ≡ true → (g v).id ≡ v.id)
    → find_tag (update_where q g ts) i ≡ some w
    → (u : Tag) × (find_tag ts i ≡ some u) × (w ≡ (if q u then g u else u))
find_tag-of_update q g [] i keep h = cc
find_tag-of_update q g (v ∷ ts) i {w} keep h = elim (Bool-cases (v.id == i)) [
  | inl this ↦ elim (Bool-cases (q v)) [
    | inl hit ↦ let k = keep v hit in (v, ground arith, ground arith)
    | inr miss ↦ (v, ground arith, ground arith)
  ]
  | inr other ↦ elim (Bool-cases (q v)) [
    | inl hit ↦
        let k = keep v hit in
        let (u, found, e) = find_tag-of_update q g ts i {w = w} keep (ground arith) in
        (u, ground (arith, found), e)
    | inr miss ↦
        let (u, found, e) = find_tag-of_update q g ts i {w = w} keep (ground arith) in
        (u, ground (arith, found), e)
  ]
]

pub any-false_found :
    (p : Tag → Bool) (ts : List Tag) (i : ℕ) {u : Tag}
    → any p ts ≡ false
    → find_tag ts i ≡ some u
    → p u ≡ false
any-false_found p [] i h found = cc
any-false_found p (v ∷ ts) i {u} h found = ground (arith, any-false_found p ts i {u = u})

pub any-false : (p : Tag → Bool) (ts : List Tag) → All (λ u. p u ≡ false) ts → any p ts ≡ false
any-false p [] h = refl
any-false p (u ∷ ts) h = ground (arith, h.0, any-false p ts h.1)

-- A row keeps what a cascade leaves alone.
abbrev pub KeepsRow : Tag → Tag → Type 0
KeepsRow u v =
    (v.id ≡ u.id)
    × (v.taxonomy ≡ u.taxonomy)
    × (v.parent ≡ u.parent)
    × (v.value ≡ u.value)
    × (v.external_id ≡ u.external_id)

-- A forest again, with `t` in it and all other rows kept.
pub record IsResaved (db : Database) (ts : List Tag) (t : Tag) (ts' : List Tag) : Type 0 where
  pub forest : IsForest db ts'
  pub self : find_tag ts' t.id ≡ some t
  pub others :
      (i : ℕ) (u : Tag)
      → find_tag ts i ≡ some u
      → i ≢ t.id
      → (v : Tag) × (find_tag ts' i ≡ some v) × KeepsRow u v
  pub no_more : (i : ℕ) (v : Tag) → find_tag ts' i ≡ some v → (u : Tag) × (find_tag ts i ≡ some u)

-- A table whose rows are those of a forest, one of them written anew and others relocated.
module _ (db : Database) (ts ts' : List Tag) (f : IsForest db ts) (t : Tag) (step : Tag → Tag)
    (before : (i : ℕ) (v : Tag)
      → find_tag ts' i ≡ some v
      → (u : Tag) × (find_tag ts i ≡ some u) × (v ≡ step u))
    (self : (u : Tag) → u.id ≡ t.id → step u ≡ t)
    (values : (u : Tag) → u.id ≢ t.id → (step u).value ≡ u.value)
    (homes : (i : ℕ) (u : Tag) → find_tag ts i ≡ some u → (step u).taxonomy ≡ u.taxonomy) where
  same_values :
      (i : ℕ) (u : Tag)
      → find_tag ts i ≡ some u
      → ((u.id ≡ t.id) × (step u ≡ t)) ⊎ ((u.id ≢ t.id) × ((step u).value ≡ u.value))
  same_values i u found = elim (Bool-cases (u.id == t.id)) [
    | inl h ↦ inl ((==_iff u.id t.id).0 h, self u ((==_iff u.id t.id).0 h))
    | inr h ↦
        let other : u.id ≢ t.id = λ e. let bad = (==_iff u.id t.id).1 e in cc in
        inr (other, values u other)
  ]

  module _
      (differs : (i : ℕ) (u : Tag)
        → find_tag ts i ≡ some u
        → u.id ≢ t.id
        → u.taxonomy ≡ t.taxonomy
        → db.key u.value ≢ db.key t.value) where
    step_unique :
        (i j : ℕ) (u v : Tag)
        → find_tag ts i ≡ some u
        → find_tag ts j ≡ some v
        → (step u).taxonomy ≡ (step v).taxonomy
        → db.key (step u).value ≡ db.key (step v).value
        → i ≡ j
    step_unique i j u v fu fv ht hk =
        let ht' : u.taxonomy ≡ v.taxonomy = sym (homes i u fu) ∙ ht ∙ homes j v fv in
        elim (same_values i u fu) [
          | inl (iu, eu) ↦ elim (same_values j v fv) [
            | inl (iv, ev) ↦ sym (find_tag-id ts i u fu) ∙ iu ∙ sym iv ∙ find_tag-id ts j v fv
            | inr (ov, ev) ↦ absurd (
                differs j v fv ov (sym ht' ∙ sym (homes i u fu) ∙ ap (λ (z : Tag). z.taxonomy) eu)
                  (ap db.key (sym ev) ∙ sym hk ∙ ap (λ (z : Tag). db.key z.value) eu))
          ]
          | inr (ou, eu) ↦ elim (same_values j v fv) [
            | inl (iv, ev) ↦ absurd (
                differs i u fu ou (ht' ∙ sym (homes j v fv) ∙ ap (λ (z : Tag). z.taxonomy) ev)
                  (ap db.key (sym eu) ∙ hk ∙ ap (λ (z : Tag). db.key z.value) ev))
            | inr (ov, ev) ↦ f.unique i j u v fu fv ht' (ap db.key (sym eu) ∙ hk ∙ ap db.key ev)
          ]
        ]

    pub step-IsForest :
        elem tab t.value ≡ false
        → ((i : ℕ) (u : Tag) → find_tag ts i ≡ some u → is_allowed (step u) ≡ true)
        → ((i : ℕ) (u : Tag) → find_tag ts i ≡ some u → IsPlaced ts' (step u))
        → IsForest db ts'
    step-IsForest plain allowed placed = record {
      placed = λ i v found.
          let (u, fu, e) = before i v found in subst (IsPlaced ts') (sym e) (placed i u fu);
      homed = λ i v found.
          let (u, fu, e) = before i v found in
          let (x, at) = f.homed i u fu in (x, ap (λ (z : Tag). z.taxonomy) e ∙ homes i u fu ∙ at);
      unique = λ i j v w fv fw ht hk.
          let (u, fu, e) = before i v fv in
          let (u', fu', e') = before j w fw in
          step_unique i j u u' fu fu'
            (sym (ap (λ (z : Tag). z.taxonomy) e) ∙ ht ∙ ap (λ (z : Tag). z.taxonomy) e')
            (sym (ap (λ (z : Tag). db.key z.value) e) ∙ hk ∙ ap (λ (z : Tag). db.key z.value) e');
      no_tab = λ i v found.
          let (u, fu, e) = before i v found in
          elim (same_values i u fu) [
            | inl (iu, eu) ↦ ap (λ (z : Tag). elem tab z.value) (e ∙ eu) ∙ plain
            | inr (ou, eu) ↦
                ap (λ (z : Tag). elem tab z.value) e ∙ ap (elem tab) eu ∙ f.no_tab i u fu
          ];
      allowed = λ i v found. let (u, fu, e) = before i v found in ap is_allowed e ∙ allowed i u fu;
    }
