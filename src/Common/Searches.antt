-- ===== src/Common/Searches.antt =====
-- Searches and filters by related tests: what one finds, and how many another keeps.
use openedx_core.Common.Lists.{select, any, length, All}
use Prim.Native.Nat.{◌≤◌, ◌<◌}
use mathlib.Core.Path.{◌≡◌, refl}
use native.Mathlib.Omega.{arith}
use mathlib.Core.Bool.{Bool, true, ◌&&◌, not}
use mathlib.Core.List.{List, [], ◌∷◌}

pub All-every {ℓ κ} : {A : Type ℓ} (P : A → Type κ) (xs : List A) → ((x : A) → P x) → All P xs
All-every P [] f = tt
All-every P (x ∷ xs) f = (f x, All-every P xs f)

-- A search among the elements that pass a test.
pub any-select {ℓ} :
    {A : Type ℓ} (p q : A → Bool) (xs : List A) → any q (select p xs) ≡ any (λ x. p x && q x) xs
any-select p q [] = refl
any-select p q (x ∷ xs) = ground (arith, any-select p q xs)

-- A weaker test finds what a stronger one does.
pub any_mono {ℓ} :
    {A : Type ℓ} (p q : A → Bool) (xs : List A)
    → All (λ x. p x ≡ true → q x ≡ true) xs
    → any p xs ≡ true
    → any q xs ≡ true
any_mono p q [] h e = cc
any_mono p q (x ∷ xs) h e = ground (arith, h.0, any_mono p q xs h.1)

pub length-select-le {ℓ} :
    {A : Type ℓ} (p q : A → Bool) (xs : List A)
    → All (λ x. p x ≡ true → q x ≡ true) xs
    → length (select p xs) ≤ length (select q xs)
length-select-le p q [] h = omega arith
length-select-le p q (x ∷ xs) h = ground (arith, h.0, length-select-le p q xs h.1)

-- Strictly fewer, when one element passes the weaker test only.
pub length-select-lt {ℓ} :
    {A : Type ℓ} (p q : A → Bool) (xs : List A)
    → All (λ x. p x ≡ true → q x ≡ true) xs
    → any (λ x. q x && not (p x)) xs ≡ true
    → length (select p xs) < length (select q xs)
length-select-lt p q [] h e = cc
length-select-lt p q (x ∷ xs) h e =
    ground (arith, h.0, length-select-lt p q xs h.1, length-select-le p q xs h.1)
