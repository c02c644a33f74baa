-- ===== src/Tagging/Save/Keys.antt =====
-- The primary keys of the table of tags.
use openedx_core.Common.{
  ℕ, ◌+◌, ◌<◌, ◌≡◌, ◌≢◌, refl, sym, ap, ◌∙◌, ◌⊎◌, inl, inr, Bool, true, List, [], ◌∷◌, ◌++◌, none,
  some, ◌==◌, All, All-map, All-append, update_where, arith, Bool-cases, Option-cases,
  if◌then◌else◌,
}
use openedx_core.Tagging.Models.{Tag, Store, find_tag}
use openedx_core.Tagging.Save.Tables.{find_tag-update}

-- Each row is found by its primary key.
abbrev pub IsKeyed : List Tag → Type 0
IsKeyed ts = All (λ u. find_tag ts u.id ≡ some u) ts

-- The primary keys that are given out.
pub record IsNumbered (s : Store) : Type 0 where
  pub positive : s.next_tag ≢ 0
  pub no_zero : find_tag s.tags 0 ≡ none
  pub keyed : IsKeyed s.tags
  pub below_next : (i : ℕ) (u : Tag) → find_tag s.tags i ≡ some u → i < s.next_tag

pub find_tag-append :
    (ts : List Tag) (t : Tag) (i : ℕ) {u : Tag}
    → find_tag ts i ≡ some u
    → find_tag (ts ++ t ∷ []) i ≡ some u
find_tag-append [] t i h = cc
find_tag-append (v ∷ ts) t i {u} h = ground (arith, find_tag-append ts t i {u = u})

pub find_tag-append_new :
    (ts : List Tag) (t : Tag) (i : ℕ)
    → find_tag ts i ≡ none
    → find_tag (ts ++ t ∷ []) i ≡ (if t.id == i then some t else none)
find_tag-append_new [] t i h = refl
find_tag-append_new (v ∷ ts) t i h = ground (arith, find_tag-append_new ts t i)

pub find_tag-of_append :
    (ts : List Tag) (t : Tag) (i : ℕ) {u : Tag}
    → find_tag (ts ++ t ∷ []) i ≡ some u
    → (find_tag ts i ≡ some u) ⊎ ((u ≡ t) × (i ≡ t.id))
find_tag-of_append ts t i {u} h = elim (Option-cases (find_tag ts i)) [
  | inl new ↦
      let e = sym (find_tag-append_new ts t i new) ∙ h in inr (ground (arith, e), ground (arith, e))
  | inr (v, old) ↦ let e = sym (find_tag-append ts t i old) ∙ h in inl (old ∙ e)
]

All-update_where {ℓ κ μ} :
    {A : Type ℓ} (P : A → Type κ) (Q : A → Type μ) (q : A → Bool) (g : A → A) (xs : List A)
    → ((x : A) → P x → Q (if q x then g x else x))
    → All P xs
    → All Q (update_where q g xs)
All-update_where P Q q g [] k h = tt
All-update_where P Q q g (x ∷ xs) k h = (k x h.0, All-update_where P Q q g xs k h.1)

pub All-rows {ℓ} :
    (ts : List Tag) (Q : Tag → Type ℓ) (q : Tag → Bool) (g : Tag → Tag)
    → IsKeyed ts
    → ((u : Tag) → find_tag ts u.id ≡ some u → Q (if q u then g u else u))
    → All Q (update_where q g ts)
All-rows ts Q q g keyed k = All-update_where (λ u. find_tag ts u.id ≡ some u) Q q g ts k keyed

pub update-IsKeyed :
    (ts : List Tag) (q : Tag → Bool) (g : Tag → Tag)
    → ((v : Tag) → q v ≡ true → (g v).id ≡ v.id)
    → IsKeyed ts
    → IsKeyed (update_where q g ts)
update-IsKeyed ts q g keep keyed =
    All-rows ts (λ u. find_tag (update_where q g ts) u.id ≡ some u) q g keyed
      λ u found.
        ap (find_tag (update_where q g ts)) (same_id u) ∙ find_tag-update q g ts u.id keep found
  where
    same_id : (u : Tag) → (if q u then g u else u).id ≡ u.id
    same_id u = elim (Bool-cases (q u)) [ inl hit ↦ rw hit (keep u hit) | inr miss ↦ rw miss refl ]

pub fresh_id : (s : Store) → IsNumbered s → find_tag s.tags s.next_tag ≡ none
fresh_id s n = elim (Option-cases (find_tag s.tags s.next_tag)) [
  | inl new ↦ new
  | inr (u, old) ↦ absurd (omega (arith, n.below_next s.next_tag u old))
]

pub append-IsNumbered :
    (s : Store) (r : Tag)
    → IsNumbered s
    → r.id ≡ s.next_tag
    → IsNumbered (record s { tags = s.tags ++ r ∷ []; next_tag = s.next_tag + 1 })
append-IsNumbered s r n e = record {
  positive = λ h. absurd (omega (arith, h));
  no_zero = find_tag-append_new s.tags r 0 n.no_zero ∙ ground (arith, e, n.positive);
  keyed =
      All-append (λ u. find_tag (s.tags ++ r ∷ []) u.id ≡ some u) s.tags (r ∷ [])
        (All-map _ _ s.tags (λ u found. find_tag-append s.tags r u.id found) n.keyed)
        (
          find_tag-append_new s.tags r r.id (ap (find_tag s.tags) e ∙ fresh_id s n) ∙ ground arith,
          tt,
        );
  below_next = λ i u found. elim (find_tag-of_append s.tags r i found) [
    | inl old ↦ omega (arith, n.below_next i u old)
    | inr (same, at) ↦ omega (arith, at, e)
  ];
}
