-- ===== src/Tagging/Taxonomies/Closure.antt =====
-- The rows that a deletion of tags collects are closed under children.
use openedx_core.Common.{
  ℕ, zero, suc, ◌<◌, ◌≡◌, refl, inl, inr, Bool, true, false, ◌&&◌, ◌||◌, not, List, [], ◌∷◌, ◌++◌,
  Option, none, some, elem, any, select, map, length, length-select, length-select-lt, any_mono,
  All, All-map, All-both, All-every, arith, Bool-cases,
}
use openedx_core.Tagging.Str.{is_empty}
use openedx_core.Tagging.Models.{Tag}
use openedx_core.Tagging.Taxonomies.{elem_opt, is_child, collect}

pub elem-append : (a : ℕ) (xs ys : List ℕ) → elem a (xs ++ ys) ≡ elem a xs || elem a ys
elem-append a [] ys = refl
elem-append a (x ∷ xs) ys = ground (arith, elem-append a xs ys)

elem_opt-append :
    (o : Option ℕ) (xs ys : List ℕ) → elem_opt o (xs ++ ys) ≡ elem_opt o xs || elem_opt o ys
elem_opt-append none xs ys = refl
elem_opt-append (some a) xs ys = elem-append a xs ys

abbrev row_ids : List Tag → List ℕ
row_ids ts = map (λ (t : Tag). t.id) ts

-- A row that passes a test is among the row_ids of those that do.
elem-row_ids :
    (p : Tag → Bool) (ts : List Tag)
    → All (λ u. p u ≡ true → elem u.id (row_ids (select p ts)) ≡ true) ts
elem-row_ids p [] = tt
elem-row_ids p (u ∷ ts) = (
  λ h. ground (arith, h),
  All-map _ _ ts (λ v step h. let it = step h in ground (arith, it)) (elem-row_ids p ts),
)

-- Each child of a collected row is collected, or the child of a row of the last level.
IsOpen : List ℕ → List ℕ → Tag → Type 0
IsOpen found level u =
    (elem_opt u.parent found && (not (elem u.id found) && not (elem_opt u.parent level))) ≡ false

step-IsOpen :
    (found level new : List ℕ) (u : Tag)
    → IsOpen found level u
    → (is_child found level u ≡ true → elem u.id new ≡ true)
    → IsOpen (found ++ new) new u
unfolding IsOpen is_child
step-IsOpen found level new u h step =
    let e = elem-append u.id found new in
    let e' = elem_opt-append u.parent found new in
    elim (Bool-cases (is_child found level u)) [
      | inl child ↦ let it = step child in ground (arith, h, e, e', it)
      | inr other ↦ ground (arith, h, e, e', other)
    ]

-- No row is left whose parent is collected.
abbrev pub IsClosed : List ℕ → List Tag → Type 0
IsClosed found ts = any (λ u. elem_opt u.parent found && not (elem u.id found)) ts ≡ false

no_child :
    (found level : List ℕ) (ts : List Tag)
    → is_empty (row_ids (select (is_child found level) ts)) ≡ true
    → All (λ u. is_child found level u ≡ false) ts
no_child found level [] h = tt
no_child found level (u ∷ ts) h = elim (Bool-cases (is_child found level u)) [
  | inl child ↦ let bad = rw child at h in absurd (ground (arith, bad))
  | inr other ↦ let h' = rw other at h in (other, no_child found level ts h')
]

left : List ℕ → List Tag → ℕ
left found ts = length (select (λ u. not (elem u.id found)) ts)

some_child :
    (p : Tag → Bool) (ts : List Tag) → is_empty (row_ids (select p ts)) ≡ false → any p ts ≡ true
some_child p [] h = cc
some_child p (u ∷ ts) h = elim (Bool-cases (p u)) [
  | inl child ↦ rw child refl
  | inr other ↦ let h' = rw other at h in rw other (some_child p ts h')
]

child_counts :
    (found level new : List ℕ) (u : Tag)
    → (is_child found level u ≡ true → elem u.id new ≡ true)
    → is_child found level u ≡ true
    → (not (elem u.id found) && not (not (elem u.id (found ++ new)))) ≡ true
unfolding is_child
child_counts found level new u step h =
    let it = step h in let e = elem-append u.id found new in ground (arith, h, it, e)

fewer_left :
    (found level : List ℕ) (ts : List Tag)
    → is_empty (row_ids (select (is_child found level) ts)) ≡ false
    → left (found ++ row_ids (select (is_child found level) ts)) ts < left found ts
unfolding left
fewer_left found level ts full =
    let new = row_ids (select (is_child found level) ts) in
    length-select-lt (λ u. not (elem u.id (found ++ new))) (λ u. not (elem u.id found)) ts
      (All-every _ ts (λ (u : Tag) h. let a = elem-append u.id found new in ground (arith, a, h)))
      (any_mono (is_child found level)
        (λ u. not (elem u.id found) && not (not (elem u.id (found ++ new)))) ts
        (All-map _ _ ts (child_counts found level new) (elem-row_ids (is_child found level) ts))
        (some_child (is_child found level) ts full))

ends-IsClosed :
    (found level : List ℕ) (ts : List Tag)
    → All (IsOpen found level) ts
    → All (λ u. is_child found level u ≡ false) ts
    → IsClosed found ts
unfolding IsOpen is_child
ends-IsClosed found level [] h none_left = refl
ends-IsClosed found level (u ∷ ts) h none_left =
    let here = h.0 in
    let other = none_left.0 in
    ground (arith, here, other, ends-IsClosed found level ts h.1 none_left.1)

collect-IsClosed :
    (fuel : ℕ) (ts : List Tag) (found level : List ℕ)
    → left found ts < fuel
    → All (IsOpen found level) ts
    → IsClosed (collect fuel ts found level) ts
unfolding collect
collect-IsClosed zero ts found level d h = elim d [ ]
collect-IsClosed (suc fuel) ts found level d h =
    let new = row_ids (select (is_child found level) ts) in
    elim (Bool-cases (is_empty new)) [
      | inl done ↦ rw done (ends-IsClosed found level ts h (no_child found level ts done))
      | inr more ↦
          let fewer = fewer_left found level ts more in
          rw more (
            collect-IsClosed fuel ts (found ++ new) new (omega arith) (
              All-map _ _ ts (λ u both. step-IsOpen found level new u both.0 both.1)
                (All-both _ _ ts h (elem-row_ids (is_child found level) ts))))
    ]

start-IsOpen : (level : List ℕ) (ts : List Tag) → All (IsOpen level level) ts
unfolding IsOpen
start-IsOpen level ts = All-every _ ts (λ (u : Tag). ground arith)

-- Fuel above the number of tags is enough.
pub collected-IsClosed :
    (ts : List Tag) (level : List ℕ) → IsClosed (collect (suc (length ts)) ts level level) ts
unfolding left
collected-IsClosed ts level =
    collect-IsClosed (suc (length ts)) ts level level
      (omega (arith, length-select (λ (u : Tag). not (elem u.id level)) ts)) (start-IsOpen level ts)

-- What is given is collected.
collect-keeps :
    (fuel : ℕ) (ts : List Tag) (found level : List ℕ) (a : ℕ)
    → elem a found ≡ true
    → elem a (collect fuel ts found level) ≡ true
unfolding collect
collect-keeps zero ts found level a h = h
collect-keeps (suc fuel) ts found level a h =
    let new = row_ids (select (is_child found level) ts) in
    elim (Bool-cases (is_empty new)) [
      | inl done ↦ rw done h
      | inr more ↦
          let e = elem-append a found new in
          rw more (collect-keeps fuel ts (found ++ new) new a (ground (arith, e, h)))
    ]

pub collected-given :
    (ts : List Tag) (level : List ℕ) (a : ℕ)
    → elem a level ≡ true
    → elem a (collect (suc (length ts)) ts level level) ≡ true
collected-given ts level a h = collect-keeps (suc (length ts)) ts level level a h
