-- ===== src/Tagging/Str/Prefixes.antt =====
-- Equality, prefixes and the cutting of texts.
use openedx_core.Common.{
  ℕ, zero, suc, ◌≤◌, ◌≡◌, refl, ◌⊎◌, inl, inr, true, false, List, [], ◌∷◌, ◌++◌, ◌==◌, elem, map,
  length, arith, Bool-cases,
}
use openedx_core.Tagging.Str.{Str, str_eq, starts_with, contains, drop, tab}

pub str_eq→eq : (a b : Str) → str_eq a b ≡ true → a ≡ b
unfolding str_eq
str_eq→eq [] [] h = refl
str_eq→eq [] (d ∷ ds) h = cc
str_eq→eq (c ∷ cs) [] h = cc
str_eq→eq (c ∷ cs) (d ∷ ds) h = ground (arith, str_eq→eq cs ds)

pub str_eq_refl : (a : Str) → str_eq a a ≡ true
unfolding str_eq
str_eq_refl [] = refl
str_eq_refl (c ∷ cs) = ground (arith, str_eq_refl cs)

pub starts_with_self : (o r : Str) → starts_with o (o ++ r) ≡ true
unfolding starts_with
starts_with_self [] r = refl
starts_with_self (c ∷ cs) r = ground (arith, starts_with_self cs r)

pub starts_with-append : (o l r : Str) → starts_with o l ≡ true → starts_with o (l ++ r) ≡ true
unfolding starts_with
starts_with-append [] l r h = refl
starts_with-append (c ∷ cs) [] r h = cc
starts_with-append (c ∷ cs) (d ∷ ds) r h = ground (arith, starts_with-append cs ds r)

pub starts_with-length : (o l : Str) → starts_with o l ≡ true → length o ≤ length l
unfolding starts_with
starts_with-length [] l h = omega arith
starts_with-length (c ∷ cs) [] h = cc
starts_with-length (c ∷ cs) (d ∷ ds) h = ground (arith, starts_with-length cs ds)

-- A prefix of an appended text is one of the first part, or reaches into the second.
pub starts_with-append_cases :
    (o l r : Str)
    → starts_with o (l ++ r) ≡ true
    → (starts_with o l ≡ true) ⊎ ((x : Str) × (o ≡ l ++ x) × (starts_with x r ≡ true))
unfolding starts_with
starts_with-append_cases o [] r h = inr (o, refl, h)
starts_with-append_cases [] (d ∷ ds) r h = inl refl
starts_with-append_cases (c ∷ cs) (d ∷ ds) r h = elim (Bool-cases (c == d)) [
  | inl same ↦ elim (starts_with-append_cases cs ds r (ground arith)) [
    | inl below ↦ inl (ground arith)
    | inr (x, e, below) ↦ inr (x, ground arith, below)
  ]
  | inr other ↦ absurd (ground arith)
]

pub length-map {ℓ κ} :
    {A : Type ℓ} {B : Type κ} (f : A → B) (xs : List A) → length (map f xs) ≡ length xs
length-map f [] = refl
length-map f (x ∷ xs) = omega (arith, length-map f xs)

pub drop_self : (o r : Str) → drop (length o) (o ++ r) ≡ r
unfolding drop
drop_self [] r = refl
drop_self (c ∷ cs) r = drop_self cs r

pub drop-append : (n : ℕ) (l r : Str) → n ≤ length l → drop n (l ++ r) ≡ drop n l ++ r
unfolding drop
drop-append zero l r h = refl
drop-append (suc n) [] r h = absurd (omega arith)
drop-append (suc n) (c ∷ cs) r h = drop-append n cs r (omega arith)

-- A text without a TAB.
pub contains-tab : (v : Str) → contains (tab ∷ []) v ≡ false → elem tab v ≡ false
unfolding contains starts_with
contains-tab [] h = refl
contains-tab (c ∷ cs) h = ground (arith, contains-tab cs)

pub elem-map :
    (f : ℕ → ℕ) (a : ℕ) (v : Str)
    → ((c : ℕ) → f c ≡ a → c ≡ a)
    → elem a v ≡ false
    → elem a (map f v) ≡ false
elem-map f a [] only h = refl
elem-map f a (c ∷ cs) only h = let o = only c in ground (arith, elem-map f a cs only)
