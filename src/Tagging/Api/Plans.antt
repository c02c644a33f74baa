-- ===== src/Tagging/Api/Plans.antt =====
-- What `tag_object` plans to delete and to save.
use mathlib.Core.Path.{subst}
use mathlib.Core.List.{append-nil}
use openedx_core.Common.{
  ℕ, suc, ◌+◌, ◌≤◌, ◌≡◌, refl, sym, ◌∙◌, inl, inr, Bool, true, false, List, [], ◌∷◌, ◌++◌, Option,
  none, some, ◌==◌, opt_eq, length, any, find, select, All, All-append, arith, Bool-cases,
  if◌then◌else◌,
}
use openedx_core.Tagging.Str.{Str, str_eq, strip}
use openedx_core.Tagging.Models.{Database, Tag, Taxonomy, ObjectTag, Store}
use openedx_core.Tagging.Monad.{Result, ok, err}
use openedx_core.Tagging.Objects.{new_object_tag, value_of}
use openedx_core.Tagging.Objects.Resync.{found-All}
use openedx_core.Tagging.Api.{
  Plan, without_first, plan_free, plan_all_free, renewed_first, plan_tag, tag_or_invalid,
  plan_found, and_plan, plan_all_closed, plan, start,
}

-- A list with some of the elements of another, in order.
pub data IsPart {ℓ} {A : Type ℓ} : List A → List A → Type ℓ where
  part_nil : IsPart [] []
  part_keep : {x : A} {xs ys : List A} → IsPart xs ys → IsPart (x ∷ xs) (x ∷ ys)
  part_skip : {x : A} {xs ys : List A} → IsPart xs ys → IsPart xs (x ∷ ys)

pub IsPart-self {ℓ} : {A : Type ℓ} (xs : List A) → IsPart xs xs
IsPart-self [] = part_nil
IsPart-self (x ∷ xs) = part_keep (IsPart-self xs)

pub IsPart-trans {ℓ} : {A : Type ℓ} {xs ys zs : List A} → IsPart xs ys → IsPart ys zs → IsPart xs zs
IsPart-trans h part_nil = h
IsPart-trans h (part_skip k) = part_skip (IsPart-trans h k)
IsPart-trans (part_keep h) (part_keep k) = part_keep (IsPart-trans h k)
IsPart-trans (part_skip h) (part_keep k) = part_skip (IsPart-trans h k)

pub All-part {ℓ κ} :
    {A : Type ℓ} (P : A → Type κ) {xs ys : List A} → IsPart xs ys → All P ys → All P xs
All-part P part_nil h = tt
All-part P (part_keep k) h = (h.0, All-part P k h.1)
All-part P (part_skip k) h = All-part P k h.1

pub select-IsPart {ℓ} : {A : Type ℓ} (q : A → Bool) (xs : List A) → IsPart (select q xs) xs
select-IsPart q [] = part_nil
select-IsPart q (x ∷ xs) = elim (Bool-cases (q x)) [
  | inl kept ↦ rw kept (part_keep (select-IsPart q xs))
  | inr dropped ↦ rw dropped (part_skip (select-IsPart q xs))
]

without_first-IsPart : (p : ObjectTag → Bool) (os : List ObjectTag) → IsPart (without_first p os) os
unfolding without_first
without_first-IsPart p [] = part_nil
without_first-IsPart p (o ∷ os) = elim (Bool-cases (p o)) [
  | inl this ↦ rw this (part_skip (IsPart-self os))
  | inr other ↦ rw other (part_keep (without_first-IsPart p os))
]

length-without_first :
    (p : ObjectTag → Bool) (os : List ObjectTag)
    → any p os ≡ true
    → length os ≡ suc (length (without_first p os))
unfolding without_first
length-without_first p [] h = cc
length-without_first p (o ∷ os) h = ground (arith, length-without_first p os)

else_branch {ℓ} : {A : Type ℓ} (b : Bool) (x z : A) → b ≡ false → (if b then x else z) ≡ z
else_branch b x z h = rw h refl

-- The rows that a save will insert.
abbrev pub news : List ObjectTag → ℕ
news os = length (select (λ (o : ObjectTag). o.id == 0) os)

news-append : (xs ys : List ObjectTag) → news (xs ++ ys) ≡ news xs + news ys
news-append [] ys = omega arith
news-append (x ∷ xs) ys = ground (arith, news-append xs ys)

module _ {ℓ} (R : ObjectTag → Type ℓ)
    (of_value : (o : ObjectTag) (v : Str) → R o → R (record o { cached_value = v }))
    (object_id : Str)
    (of_new : (taxonomy : Option Taxonomy) (t : Option Tag) (v e : Str)
      → R (new_object_tag object_id taxonomy t v e))
    (first : List ObjectTag)
    (all_first : All (λ (o : ObjectTag). R o × ((o.id == 0) ≡ false)) first) where
  -- After `k` values: no more rows are kept and new than values.
  pub record IsPlan (k : ℕ) (p : Plan) : Type ℓ where
    pub part : IsPart p.current first
    pub sound : All R p.updated
    pub balanced : news p.updated + length first ≤ k + length p.current

  start-IsPlan : IsPlan 0 (start first)
  start-IsPlan = record { part = IsPart-self first; sound = tt; balanced = omega arith }

  -- One row more to save.
  more-IsPlan :
      (k : ℕ) (p : Plan) (o : ObjectTag)
      → R o
      → IsPlan k p
      → IsPlan (suc k) (record p { updated = p.updated ++ o ∷ [] })
  more-IsPlan k p o r i =
      let n = news-append p.updated (o ∷ []) in
      let one : news (o ∷ []) ≤ 1 = ground arith in
      let before = i.balanced in
      record {
        part = i.part;
        sound = All-append R p.updated (o ∷ []) i.sound (r, tt);
        balanced = omega (arith, n, one, before);
      }

  -- One row fewer to delete, and rows of the table to save.
  fewer-IsPlan :
      (k : ℕ) (p : Plan) (q : ObjectTag → Bool) (os : List ObjectTag)
      → any q p.current ≡ true
      → All R os
      → news os ≡ 0
      → IsPlan k p
      → IsPlan (suc k) (record { current = without_first q p.current; updated = p.updated ++ os })
  fewer-IsPlan k p q os there r old i =
      let n = news-append p.updated os in
      let l = length-without_first q p.current there in
      let before = i.balanced in
      record {
        part = IsPart-trans (without_first-IsPart q p.current) i.part;
        sound = All-append R p.updated os i.sound r;
        balanced = omega (arith, n, l, old, before);
      }

  renewed_first_sound :
      (t : Tag) (o : Option ObjectTag)
      → ((x : ObjectTag) → o ≡ some x → R x × ((x.id == 0) ≡ false))
      → All R (renewed_first t o) × (news (renewed_first t o) ≡ 0)
  renewed_first_sound t none h = (tt, refl)
  renewed_first_sound t (some o) h = elim (Bool-cases (str_eq o.cached_value t.value)) [
    | inl same ↦ rw same (tt, refl)
    | inr other ↦ let (r, saved) = h o refl in rw other ((of_value o t.value r, tt), rw saved refl)
  ]

  plan_free-IsPlan :
      (s : Store) (y : Taxonomy) (k : ℕ) (p : Plan) (v : Str)
      → IsPlan k p
      → IsPlan (suc k) (plan_free s y object_id p v)
  unfolding plan_free
  plan_free-IsPlan s y k p v i = elim (Bool-cases (any (λ o. str_eq (value_of s o) v) p.current)) [
    | inl there ↦
        let f = fewer-IsPlan k p (λ o. str_eq (value_of s o) v) [] there tt refl i in
        rw there (
          subst
            (λ us. IsPlan (suc k) (record {
              current = without_first (λ o. str_eq (value_of s o) v) p.current;
              updated = us;
            }))
            (append-nil p.updated) f)
    | inr new ↦ rw new (
        more-IsPlan k p (new_object_tag object_id (some y) none v []) (of_new (some y) none v []) i)
  ]

  plan_all_free-IsPlan :
      (s : Store) (y : Taxonomy) (tags : List Str) (k : ℕ) (p : Plan)
      → IsPlan k p
      → IsPlan (length tags + k) (plan_all_free s y object_id tags p)
  unfolding plan_all_free
  plan_all_free-IsPlan s y [] k p i = subst (λ n. IsPlan n p) (omega arith) i
  plan_all_free-IsPlan s y (v ∷ tags) k p i =
      subst (λ n. IsPlan n (plan_all_free s y object_id tags (plan_free s y object_id p v)))
        (omega arith)
        (plan_all_free-IsPlan s y tags (suc k) (plan_free s y object_id p v)
          (plan_free-IsPlan s y k p v i))

  plan_tag-IsPlan :
      (taxonomy : Option Taxonomy) (t : Tag) (k : ℕ) (p : Plan)
      → IsPlan k p
      → IsPlan (suc k) (plan_tag taxonomy object_id t p)
  unfolding plan_tag
  plan_tag-IsPlan taxonomy t k p i =
      let q : ObjectTag → Bool = λ o. opt_eq o.tag (some t.id) in
      elim (Bool-cases (any q p.current)) [
        | inl there ↦
            let (r, old) =
              renewed_first_sound t (find q p.current)
                (λ x e. found-All _ q p.current (All-part _ i.part all_first) e) in
            rw there (fewer-IsPlan k p q (renewed_first t (find q p.current)) there r old i)
        | inr new ↦ rw new (
            more-IsPlan k p (new_object_tag object_id taxonomy (some t) [] [])
              (of_new taxonomy (some t) [] []) i)
      ]

  plan_found-IsPlan :
      (taxonomy : Option Taxonomy) (e v : Str) (k : ℕ) (p : Plan) (t : Option Tag)
      → IsPlan k p
      → IsPlan (suc k) (plan_found taxonomy object_id e v p t)
  plan_found-IsPlan taxonomy e v k p (some t) i = plan_tag-IsPlan taxonomy t k p i
  plan_found-IsPlan (some y) e v k p none i =
      more-IsPlan k p (new_object_tag object_id (some y) none v []) (of_new (some y) none v []) i
  plan_found-IsPlan none e v k p none i =
      more-IsPlan k p (new_object_tag object_id none none v e) (of_new none none v e) i

  and_plan_ok :
      (r : Result (Option Tag)) (f : Option Tag → Result Plan) {p : Plan}
      → and_plan r f ≡ ok p
      → (t : Option Tag) × (f t ≡ ok p)
  and_plan_ok (ok t) f h = (t, h)
  and_plan_ok (err e) f h = absurd (ground (arith, h))

  plan_all_closed-IsPlan :
      (db : Database) (s : Store) (taxonomy : Option Taxonomy) (e : Str) (create_invalid : Bool)
      (tags : List Str) (k : ℕ) (p : Plan) {p' : Plan}
      → IsPlan k p
      → plan_all_closed db s taxonomy object_id e create_invalid tags p ≡ ok p'
      → IsPlan (length tags + k) p'
  unfolding plan_all_closed
  plan_all_closed-IsPlan db s taxonomy e create_invalid [] k p {p'} i h =
      let same : p ≡ p' = ground (arith, h) in
      subst (λ n. IsPlan n p') (omega arith) (subst (IsPlan k) same i)
  plan_all_closed-IsPlan db s taxonomy e create_invalid (v ∷ tags) k p {p'} i h =
      let (t, rest) = and_plan_ok (tag_or_invalid db taxonomy (strip v) create_invalid s) _ h in
      subst (λ n. IsPlan n p') (omega arith)
        (plan_all_closed-IsPlan db s taxonomy e create_invalid tags (suc k)
          (plan_found taxonomy object_id e (strip v) p t)
          (plan_found-IsPlan taxonomy e (strip v) k p t i) rest)

  pub plan-IsPlan :
      (db : Database) (s : Store) (taxonomy : Option Taxonomy) (e : Str) (create_invalid : Bool)
      (tags : List Str) {p : Plan}
      → plan db s taxonomy object_id e create_invalid tags first ≡ ok p
      → IsPlan (length tags) p
  unfolding plan
  plan-IsPlan db s none e create_invalid tags {p} h =
      subst (λ n. IsPlan n p) (omega arith)
        (plan_all_closed-IsPlan db s none e create_invalid tags 0 (start first) start-IsPlan h)
  plan-IsPlan db s (some y) e create_invalid tags {p} h = elim (Bool-cases y.allow_free_text) [
    | inl free ↦
        let h' = rw free at h in
        let same : plan_all_free s y object_id tags (start first) ≡ p = ground (arith, h') in
        subst (λ n. IsPlan n p) (omega arith)
          (subst (IsPlan (length tags + 0)) same
            (plan_all_free-IsPlan s y tags 0 (start first) start-IsPlan))
    | inr closed ↦
        let h' =
          sym (
            else_branch y.allow_free_text (ok (plan_all_free s y object_id tags (start first)))
              (plan_all_closed db s (some y) object_id e create_invalid tags (start first)) closed)
          ∙ h in
        subst (λ n. IsPlan n p) (omega arith)
          (plan_all_closed-IsPlan db s (some y) e create_invalid tags 0 (start first) start-IsPlan
            h')
  ]
