-- ===== src/Publishing/SideEffects/Termination/Weights.antt =====
-- The weight of the queue of the worklist: it falls with every pass of the loop.
use openedx_core.Common.{
  ℕ, zero, suc, ◌+◌, ◌-◌, ◌*◌, ◌≤◌, ◌<◌, ◌≡◌, refl, inl, inr, true, false, List, [], ◌∷◌, ◌==◌,
  if◌then◌else◌, elem, length, All, All-map, arith, Bool-cases, ==_iff,
}
use openedx_core.Publishing.Models.{BranchRow, LogRecord}
use openedx_core.Publishing.SideEffects.{power, extend, paired}

-- How many of the entities are not processed.
left : List ℕ → List ℕ → ℕ
left p [] = 0
left p (e ∷ es) = (if elem e p then 0 else 1) + left p es

left-le-length : (p es : List ℕ) → left p es ≤ length es
unfolding left
left-le-length p [] = omega arith
left-le-length p (e ∷ es) = ground (arith, left-le-length p es)

left-le : (c : ℕ) (p es : List ℕ) → left (c ∷ p) es ≤ left p es
unfolding left
left-le c p [] = omega arith
left-le c p (e ∷ es) = ground (arith, left-le c p es)

left-done : (c : ℕ) (p es : List ℕ) → elem c p ≡ true → left (c ∷ p) es ≡ left p es
unfolding left
left-done c p [] h = refl
left-done c p (e ∷ es) h = elim (Bool-cases (e == c)) [
  | inl same ↦ let e≡c = (==_iff e c).0 same in ground (arith, left-done c p es h)
  | inr other ↦ ground (arith, left-done c p es h)
]

left-new :
    (c : ℕ) (p es : List ℕ) → elem c p ≡ false → elem c es ≡ true → left (c ∷ p) es < left p es
unfolding left
left-new c p [] new h = cc
left-new c p (e ∷ es) new h = ground (arith, left-new c p es new, left-le c p es)

elem-done : (x c : ℕ) (p : List ℕ) → elem c p ≡ true → elem x (c ∷ p) ≡ elem x p
elem-done x c p h = ground arith

phase : List ℕ → ℕ → ℕ → ℕ
phase p a b = if elem a p then (if elem b p then 2 else 1) else 0

module _ (es : List ℕ) where
  exponent : List ℕ → ℕ → ℕ → ℕ
  unfolding phase
  exponent p a b = 3 * left p es + phase p a b

  -- The exponent of a pair does not grow when an entity is processed.
  exponent-le : (p : List ℕ) (c a b : ℕ) → elem c es ≡ true → exponent (c ∷ p) a b ≤ exponent p a b
  unfolding exponent
  exponent-le p c a b h = elim (Bool-cases (elem c p)) [
    | inl old ↦ ground (arith, left-done c p es old)
    | inr new ↦ ground (arith, left-new c p es new h)
  ]

  -- The pairs that a pair leads to have a smaller exponent.
  exponent-lt :
      (p : List ℕ) (a b c : ℕ)
      → elem a es ≡ true
      → elem c (a ∷ p) ≡ false
      → exponent (a ∷ p) b c < exponent p a b
  unfolding exponent
  exponent-lt p a b c h fresh = elim (Bool-cases (elem a p)) [
    | inl old ↦ ground (arith, left-done a p es old)
    | inr new ↦ ground (arith, left-new a p es new h)
  ]

  exponent-pos : (p : List ℕ) (a b : ℕ) → elem a es ≡ true → 0 < exponent p a b
  unfolding exponent
  exponent-pos p a b h = elim (Bool-cases (elem a p)) [
    | inl old ↦ ground arith
    | inr new ↦ ground (arith, left-new a p es new h)
  ]

  exponent-bound : (p : List ℕ) (a b : ℕ) → exponent p a b ≤ 3 * length es + 2
  unfolding exponent
  exponent-bound p a b = ground (arith, left-le-length p es)

power-pos : (b n : ℕ) → 0 < power (suc b) n
unfolding power
power-pos b zero = omega arith
power-pos b (suc n) = grind (arith, power-pos b n)

power-le : (b m n : ℕ) → m ≤ n → power (suc b) m ≤ power (suc b) n
unfolding power
power-le b zero n h = power-pos b n
power-le b (suc m) zero h = absurd (omega arith)
power-le b (suc m) (suc n) h = grind (arith, power-le b m n)

abbrev pub Item : Type 0
Item = LogRecord × BranchRow

module _ (n : ℕ) (es : List ℕ) where
  weight : List ℕ → Item → ℕ
  weight p (change, r) = power (suc n) (exponent es p change.entity r.entity)

  pub total : List ℕ → List Item → ℕ
  total p [] = 0
  total p (x ∷ xs) = weight p x + total p xs

  abbrev pub Known : Item → Type 0
  Known (change, r) = (elem change.entity es ≡ true) × (elem r.entity es ≡ true)

  total-le :
      (p : List ℕ) (c : ℕ) (xs : List Item) → elem c es ≡ true → total (c ∷ p) xs ≤ total p xs
  unfolding total weight
  total-le p c [] h = omega arith
  total-le p c (x ∷ xs) h =
      omega (arith, total-le p c xs h, power-le n _ _ (exponent-le es p c x.0.entity x.1.entity h))

  total-extend : (p : List ℕ) (xs ys : List Item) → total p (extend xs ys) ≡ total p xs + total p ys
  unfolding total
  total-extend p [] ys = omega arith
  total-extend p (x ∷ xs) ys = omega (arith, total-extend p xs (x ∷ ys))

  -- What the pair weighs is more than all that it leads to.
  total-paired :
      (p : List ℕ) (k : ℕ) (change : LogRecord) (rows : List BranchRow)
      → All (λ (r : BranchRow). exponent es p change.entity r.entity ≤ k) rows
      → total p (paired change rows) ≤ length rows * power (suc n) k
  unfolding total weight
  total-paired p k change [] h = omega arith
  total-paired p k change (r ∷ rows) h = grind (
    arith,
    total-paired p k change rows h.1,
    power-le n (exponent es p change.entity r.entity) k h.0,
  )

below-power :
    (n t len x : ℕ) → t ≤ len * power (suc n) (x - 1) → len ≤ n → 0 < x → t < power (suc n) x
unfolding power
below-power n t len zero h size pos = absurd (omega arith)
below-power n t len (suc x) h size pos =
    let same : suc x - 1 ≡ x = omega arith in let h' = rw same at h in grind (arith, power-pos n x)

module _ (n : ℕ) (es : List ℕ) where
  -- One pass takes more weight off the queue than it puts on.
  pub total-next :
      (p : List ℕ) (change effect : LogRecord) (r : BranchRow) (rows : List BranchRow)
      (queue : List Item)
      → elem change.entity es ≡ true
      → effect.entity ≡ r.entity
      → All (λ (x : BranchRow). elem x.entity (change.entity ∷ p) ≡ false) rows
      → length rows ≤ n
      → total n es (change.entity ∷ p) (extend (paired effect rows) queue)
        < total n es p ((change, r) ∷ queue)
  unfolding total weight
  total-next p change effect r rows queue known same fresh size =
      let x = exponent es p change.entity r.entity in
      let p' = change.entity ∷ p in
      let smaller : (y : BranchRow)
          → elem y.entity p' ≡ false
          → exponent es p' effect.entity y.entity ≤ x - 1 =
        λ y f. rw same (omega (arith, exponent-lt es p change.entity r.entity y.entity known f)) in
      let paid = total-paired n es p' (x - 1) effect rows (All-map _ _ rows smaller fresh) in
      omega (
        arith,
        total-extend n es p' (paired effect rows) queue,
        total-le n es p change.entity queue known,
        below-power n _ (length rows) x paid size (exponent-pos es p change.entity r.entity known),
      )

pub total-bound :
    (n : ℕ) (es p : List ℕ) (xs : List Item)
    → total n es p xs ≤ length xs * power (suc n) (3 * length es + 2)
unfolding total weight
total-bound n es p [] = omega arith
total-bound n es p (x ∷ xs) =
    grind (arith, total-bound n es p xs, power-le n _ _ (exponent-bound es p x.0.entity x.1.entity))
