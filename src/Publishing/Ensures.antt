-- ===== src/Publishing/Ensures.antt =====
-- Postconditions of calls: what holds of the value and the store if the call returns.
use mathlib.Core.Path.{subst}
use openedx_core.Common.{◌≡◌, refl}
use openedx_core.Publishing.Models.{Store}
use openedx_core.Publishing.Monad.{Result, ok, err, M, Error, and_then}

module _ {A : Type 0} where
  pub data Ensures (P : A → Store → Type 0) : Result (A × Store) → Type 0 where
    returned : {a : A} {s : Store} → P a s → Ensures P (ok (a, s))
    raised : {e : Error} → Ensures P (err e)

  -- A postcondition read off a call that returned, and the other way round.
  at_ok :
      {P : A → Store → Type 0} (r : Result (A × Store)) {a : A} {s : Store}
      → Ensures P r
      → r ≡ ok (a, s)
      → P a s
  at_ok {P} (ok (b, t)) {a} {s} (returned p) e =
      let ea : b ≡ a = cc in let es : t ≡ s = cc in subst (λ x. P x s) ea (subst (λ x. P b x) es p)
  at_ok (err x) raised e = cc

  pub of_ok :
      {P : A → Store → Type 0} (r : Result (A × Store))
      → ((a : A) (s : Store) → r ≡ ok (a, s) → P a s)
      → Ensures P r
  of_ok (ok (a, s)) f = Ensures.returned (f a s refl)
  of_ok (err e) f = Ensures.raised

  pub Ensures-ok :
      {P : A → Store → Type 0} {r : Result (A × Store)} {a : A} {s : Store}
      → Ensures P r
      → r ≡ ok (a, s)
      → P a s
  Ensures-ok {r = r} h e = at_ok r h e

  pub weaken :
      {P Q : A → Store → Type 0} {r : Result (A × Store)}
      → ((a : A) (s : Store) → P a s → Q a s)
      → Ensures P r
      → Ensures Q r
  weaken f (Ensures.returned {a = a} {s = s} p) = Ensures.returned (f a s p)
  weaken f Ensures.raised = Ensures.raised

module _ {A B : Type 0} where
  -- The rule for `>>=`.
  pub chain :
      {P : A → Store → Type 0} {Q : B → Store → Type 0} {r : Result (A × Store)} {f : A → M B}
      → Ensures P r
      → ((a : A) (s : Store) → P a s → Ensures Q (f a s))
      → Ensures Q (and_then r f)
  chain (Ensures.returned {a = a} {s = s} p) k = k a s p
  chain Ensures.raised k = Ensures.raised

pub Ensures-both :
    {A : Type 0} {P Q : A → Store → Type 0} {r : Result (A × Store)}
    → Ensures P r
    → Ensures Q r
    → Ensures (λ a s. P a s × Q a s) r
Ensures-both (Ensures.returned {a = a} {s = s} p) q = Ensures.returned (p, Ensures-ok q refl)
Ensures-both Ensures.raised q = Ensures.raised
