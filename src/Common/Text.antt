-- ===== src/Common/Text.antt =====
-- Python's `str` of a number, and `str.join`.
use Prim.Native.String.{String, ◌++◌ as ◌+s◌}
use Prim.Native.Nat.{ℕ, zero, suc, ◌/◌, ◌%◌}
use mathlib.Core.List.{List, [], ◌∷◌}
use openedx_core.Common.Tests.{◌==◌, if◌then◌else◌}

digit : ℕ → String
digit d =
    if d == 0
    then "0"
    else if d == 1
    then "1"
    else if d == 2
    then "2"
    else if d == 3
    then "3"
    else if d == 4
    then "4"
    else if d == 5
    then "5"
    else if d == 6
    then "6"
    else if d == 7
    then "7"
    else if d == 8
    then "8"
    else "9"

-- The digits of `n` in front of `t`. A number has fewer digits than its value.
digits_onto : ℕ → ℕ → String → String
unfolding digit
digits_onto zero n t = t
digits_onto (suc fuel) n t =
    let t' = ◌+s◌ (digit (n % 10)) t in
    let rest = digits_onto fuel (n / 10) t' in if n / 10 == 0 then t' else rest

unfoldable pub show : ℕ → String
unfolding digits_onto
show n = digits_onto (suc n) n ""

unfoldable pub join : String → List String → String
join sep [] = ""
join sep (x ∷ []) = x
join sep (x ∷ y ∷ xs) = ◌+s◌ x (◌+s◌ sep (join sep (y ∷ xs)))
