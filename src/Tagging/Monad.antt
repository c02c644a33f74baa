-- ===== src/Tagging/Monad.antt =====
-- A call of the tagging models: state passing with exceptions. An exception keeps what was written
-- before it, unless the call runs under `atomic()`.
use openedx_core.Common.{◌≡◌, ◌⊎◌, inl, inr, refl, Bool, true, false, List, [], ◌∷◌, arith}
use openedx_core.Tagging.Models.{Store}

pub data Error : Type 0 where
  value_error validation_error integrity_error does_not_exist multiple_objects : Error
  assertion_error attribute_error not_implemented : Error

pub data Result {ℓ} (A : Type ℓ) : Type ℓ where
  ok : A → Result A
  err : Error → Result A

abbrev pub M {ℓ} : Type ℓ → Type ℓ
M A = Store → Result A × Store

module _ {ℓ} {A : Type ℓ} where
  abbrev pub pure : A → M A
  pure a s = (ok a, s)

  abbrev pub raise : Error → M A
  raise e s = (err e, s)

  abbrev pub gets : (Store → A) → M A
  gets f s = (ok (f s), s)

  -- `queryset.get()`
  abbrev pub get_one : List A → M A
  get_one [] = raise does_not_exist
  get_one (x ∷ []) = pure x
  get_one (x ∷ y ∷ xs) = raise multiple_objects

  -- `with atomic():`
  abbrev pub rolled_back : Store → Result A × Store → Result A × Store
  rolled_back s (ok a, s') = (ok a, s')
  rolled_back s (err e, s') = (err e, s)

  abbrev pub atomic : M A → M A
  atomic m s = rolled_back s (m s)

abbrev pub modify : (Store → Store) → M (Unit {0})
modify f s = (ok tt, f s)

abbrev pub raise_if : Bool → Error → M (Unit {0})
raise_if true e = raise e
raise_if false e = pure tt

module _ {ℓ κ} {A : Type ℓ} {B : Type κ} where
  abbrev pub and_then : Result A × Store → (A → M B) → Result B × Store
  and_then (ok a, s) f = f a s
  and_then (err e, s) f = (err e, s)

  infixl 5 ◌>>=◌ ◌>>◌
  abbrev pub ◌>>=◌ : M A → (A → M B) → M B
  ◌>>=◌ m f s = and_then (m s) f

  abbrev pub ◌>>◌ : M A → M B → M B
  ◌>>◌ m n s = and_then (m s) (λ _. n)

  pub and_then-eq-ok :
      (r : Result A × Store) (f : A → M B) {b : B} {s' : Store}
      → and_then r f ≡ (ok b, s')
      → (a : A) × (s : Store) × (r ≡ (ok a, s)) × (f a s ≡ (ok b, s'))
  and_then-eq-ok (ok a, s) f h = (a, s, refl, h)
  and_then-eq-ok (err e, s) f h = absurd (ground (arith, h))

module _ {ℓ κ} {A : Type ℓ} {B : Type κ} where
  -- An exception of a chain is one of its first part, or of what follows it.
  pub and_then-eq-err :
      (r : Result A × Store) (f : A → M B) {e : Error} {s' : Store}
      → and_then r f ≡ (err e, s')
      → (r ≡ (err e, s')) ⊎ ((a : A) × (s : Store) × (r ≡ (ok a, s)) × (f a s ≡ (err e, s')))
  and_then-eq-err (ok a, s) f h = inr (a, s, refl, h)
  and_then-eq-err (err e, s) f h = inl (ground (arith, h))

pub raise_if-eq-err :
    (b : Bool) (d : Error) (s : Store) {e : Error} {s' : Store}
    → raise_if b d s ≡ (err e, s')
    → s' ≡ s
raise_if-eq-err true d s h = ground (arith, h)
raise_if-eq-err false d s h = absurd (ground (arith, h))

pub raise_if-eq-ok :
    (b : Bool) (e : Error) (s : Store) {s' : Store}
    → raise_if b e s ≡ (ok tt, s')
    → (b ≡ false) × (s ≡ s')
raise_if-eq-ok true e s h = absurd (ground (arith, h))
raise_if-eq-ok false e s h = (refl, ground (arith, h))

module _ {ℓ} {A : Type ℓ} where
  pub get_one-eq-ok :
      (xs : List A) (s : Store) {a : A} {s' : Store}
      → get_one xs s ≡ (ok a, s')
      → (s' ≡ s) × (xs ≡ a ∷ [])
  get_one-eq-ok [] s h = absurd (ground (arith, h))
  get_one-eq-ok (x ∷ []) s h = (ground (arith, h), ground (arith, h))
  get_one-eq-ok (x ∷ y ∷ xs) s h = absurd (ground (arith, h))

  pub get_one-eq-err :
      (xs : List A) (s : Store) {e : Error} {s' : Store} → get_one xs s ≡ (err e, s') → s' ≡ s
  get_one-eq-err [] s h = ground (arith, h)
  get_one-eq-err (x ∷ []) s h = absurd (ground (arith, h))
  get_one-eq-err (x ∷ y ∷ xs) s h = ground (arith, h)
