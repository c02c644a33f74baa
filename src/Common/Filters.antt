-- ===== src/Common/Filters.antt =====
-- Filters over appended, filtered and updated lists.
use openedx_core.Common.Tests.{Bool-cases}
use openedx_core.Common.Lists.{select, find, head?, update_where, All}
use mathlib.Core.Path.{◌≡◌, refl}
use mathlib.Core.Logic.{inl, inr}
use native.Mathlib.Omega.{arith}
use mathlib.Core.Bool.{Bool, true, false}
use mathlib.Core.List.{List, [], ◌∷◌, ◌++◌}

module _ {ℓ} {A : Type ℓ} where
  pub find-head_of_select : (p : A → Bool) (xs : List A) → find p xs ≡ head? (select p xs)
  find-head_of_select p [] = refl
  find-head_of_select p (x ∷ xs) = ground (arith, find-head_of_select p xs)

  pub select-append :
      (p : A → Bool) (xs ys : List A) → select p (xs ++ ys) ≡ select p xs ++ select p ys
  select-append p [] ys = refl
  select-append p (x ∷ xs) ys = ground (arith, select-append p xs ys)

  pub select-select :
      (p q : A → Bool) (xs : List A) → select p (select q xs) ≡ select q (select p xs)
  select-select p q [] = refl
  select-select p q (x ∷ xs) = ground (arith, select-select p q xs)

  -- An update that no test sees.
  pub select-update_where :
      (p q : A → Bool) (f : A → A) (xs : List A)
      → ((x : A) → p (f x) ≡ p x)
      → select p (update_where q f xs) ≡ update_where q f (select p xs)
  select-update_where p q f [] h = refl
  select-update_where p q f (x ∷ xs) h = elim (Bool-cases (q x)) [
    | inl hit ↦ elim (Bool-cases (p x)) [
      | inl kept ↦ let k = h x in ground (arith, select-update_where p q f xs h)
      | inr dropped ↦ let k = h x in ground (arith, select-update_where p q f xs h)
    ]
    | inr miss ↦ ground (arith, select-update_where p q f xs h)
  ]

  pub select-every : (p : A → Bool) (xs : List A) → All (λ x. p x ≡ true) xs → select p xs ≡ xs
  select-every p [] h = refl
  select-every p (x ∷ xs) h = ground (arith, h.0, select-every p xs h.1)

  pub update_where-none :
      (p : A → Bool) (f : A → A) (xs : List A)
      → All (λ x. p x ≡ false) xs
      → update_where p f xs ≡ xs
  update_where-none p f [] h = refl
  update_where-none p f (x ∷ xs) h = ground (arith, h.0, update_where-none p f xs h.1)
