-- ===== src/Publishing/Monad.antt =====
-- A call of the publishing API: state passing with exceptions. Every function of the API that
-- writes runs under `atomic()`, so that an exception leaves nothing written.
use openedx_core.Common.{◌≡◌, ◌⊎◌, inl, inr, refl, Bool, true, false, Option, none, some}
use openedx_core.Publishing.Models.{Store}

-- `type_error` stands for Python's TypeError and AttributeError, `recursion_error` for its
-- RecursionError, and `endless` for a loop that does not end.
pub data Error : Type 0 where
  validation_error integrity_error does_not_exist restricted_error type_error : Error
  recursion_error endless : Error

pub data Result {ℓ} (A : Type ℓ) : Type ℓ where
  ok : A → Result A
  err : Error → Result A

pub Result-cases {ℓ} :
    {A : Type ℓ} (r : Result A) → ((a : A) × (r ≡ ok a)) ⊎ ((e : Error) × (r ≡ err e))
Result-cases (ok a) = inl (a, refl)
Result-cases (err e) = inr (e, refl)

abbrev pub M {ℓ} : Type ℓ → Type ℓ
M A = Store → Result (A × Store)

module _ {ℓ} {A : Type ℓ} where
  abbrev pub pure : A → M A
  pure a s = ok (a, s)

  abbrev pub raise : Error → M A
  raise e s = err e

  abbrev pub gets : (Store → A) → M A
  gets f s = ok (f s, s)

  -- `.get()`
  abbrev pub get_or_raise : Option A → Error → M A
  get_or_raise none e = raise e
  get_or_raise (some a) e = pure a

abbrev pub modify : (Store → Store) → M (Unit {0})
modify f s = ok (tt, f s)

abbrev pub raise_if : Bool → Error → M (Unit {0})
raise_if true e = raise e
raise_if false e = pure tt

module _ {ℓ κ} {A : Type ℓ} {B : Type κ} where
  abbrev pub and_then : Result (A × Store) → (A → M B) → Result (B × Store)
  and_then (ok (a, s)) f = f a s
  and_then (err e) f = err e

  infixl 5 ◌>>=◌ ◌>>◌
  abbrev pub ◌>>=◌ : M A → (A → M B) → M B
  ◌>>=◌ m f s = and_then (m s) f

  abbrev pub ◌>>◌ : M A → M B → M B
  ◌>>◌ m n s = and_then (m s) (λ _. n)

  pub and_then-eq-ok :
      (r : Result (A × Store)) (f : A → M B) {b : B × Store}
      → and_then r f ≡ ok b
      → (a : A × Store) × (r ≡ ok a) × (f a.0 a.1 ≡ ok b)
  and_then-eq-ok (ok a) f h = (a, refl, h)
  and_then-eq-ok (err e) f h = cc
