-- ===== src/Publishing/Bulk/Members.antt =====
-- Which keys are among the selected rows of a table with a primary key.
use openedx_core.Common.{
  ℕ, ◌≡◌, refl, none, sym, ap, ◌∙◌, inl, inr, Bool, false, ◌&&◌, List, [], ◌∷◌, some, ◌==◌, elem,
  find, select, map, All, All-map, arith, Bool-cases,
}

pub select_twice :
    {A : Type 0} (p q : A → Bool) (xs : List A)
    → select q (select p xs) ≡ select (λ x. p x && q x) xs
select_twice p q [] = refl
select_twice p q (x ∷ xs) = ground (arith, select_twice p q xs)

module _ {A : Type 0} (key : A → ℕ) where
  abbrev pub IsKeyedBy : List A → Type 0
  IsKeyedBy [] = Unit
  IsKeyedBy (x ∷ xs) = All (λ y. (key x == key y) ≡ false) xs × IsKeyedBy xs

  no_key :
      (p : A → Bool) (i : ℕ) (xs : List A)
      → All (λ y. (key y == i) ≡ false) xs
      → elem i (map key (select p xs)) ≡ false
  no_key p i [] h = refl
  no_key p i (y ∷ ys) h = elim (Bool-cases (p y)) [
    | inl kept ↦ rw kept (ground (arith, h.0, no_key p i ys h.1))
    | inr dropped ↦ rw dropped (no_key p i ys h.1)
  ]

  pub absent_key :
      (p : A → Bool) (i : ℕ) (xs : List A)
      → find (λ y. key y == i) xs ≡ none
      → elem i (map key (select p xs)) ≡ false
  absent_key p i xs h = no_key p i xs (go xs h)
    where
      go : (xs : List A) → find (λ y. key y == i) xs ≡ none → All (λ y. (key y == i) ≡ false) xs
      go [] h = tt
      go (y ∷ ys) h = (ground (arith, h), go ys (ground (arith, h)))

  pub present_key :
      (p : A → Bool) (i : ℕ) (xs : List A) {x : A}
      → IsKeyedBy xs
      → find (λ y. key y == i) xs ≡ some x
      → elem i (map key (select p xs)) ≡ p x
  present_key p i [] k h = cc
  present_key p i (y ∷ ys) {x} k h = elim (Bool-cases (key y == i)) [
    | inl this ↦
        let h' = rw this at h in
        let same : y ≡ x = ground (arith, h') in
        let rest = no_key p i ys (All-map _ _ ys (λ z apart. ground (arith, this, apart)) k.0) in
        let tested : p y ≡ p x = ap p same in
        elim (Bool-cases (p y)) [
          | inl kept ↦ rw kept (ground (arith, this, kept, tested))
          | inr dropped ↦ rw dropped (rest ∙ sym dropped ∙ tested)
        ]
    | inr past ↦
        let h' = rw past at h in
        let rest = present_key p i ys {x = x} k.1 h' in
        elim (Bool-cases (p y)) [
          | inl kept ↦ rw kept (ground (arith, past, rest))
          | inr dropped ↦ rw dropped rest
        ]
  ]
