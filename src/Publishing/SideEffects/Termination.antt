-- ===== src/Publishing/SideEffects/Termination.antt =====
-- The passes of the `while` loop of `_create_side_effects_for_change_log`, and their bound. Each
-- pair in the queue weighs a power whose exponent falls with the entities not yet processed.
mod Weights
use openedx_core.Common.{
  ℕ, zero, suc, ◌+◌, ◌-◌, ◌*◌, ◌≤◌, ◌<◌, ◌≡◌, refl, inl, inr, Bool, true, false, ◌&&◌, ◌||◌, not,
  Option, none, some, List, [], ◌∷◌, ◌==◌, if◌then◌else◌, select, find, elem, length, All, All-map,
  All-select, length-select, find-true, arith, Bool-cases, Option-cases, ==_iff,
}
use openedx_core.Publishing.Models.{Dependency, BranchRow, LogRecord, Branch, Kind}
use openedx_core.Publishing.Tables.{find_record, record_key, rows_affected_by, depends}
use openedx_core.Publishing.SideEffects.{
  power, fuel_for, Loop, extend, paired, visit, drain, get_or_create_record, get_or_create_effect,
  finish, effects_of_change, effects_of_changes, create_side_effects,
}
use openedx_core.Publishing.SideEffects.Termination.Weights.{
  Item, total, Known, total-next, total-bound,
}

-- The record of a side effect is one of the affected entity.
get_or_create_record-entity :
    (k : Kind) (log : ℕ) (r : BranchRow) (b : Branch)
    → (get_or_create_record k log r b).0.entity ≡ r.entity
get_or_create_record-entity k log r b = elim (Option-cases (find_record log r.entity b.records)) [
  | inl new ↦ rw (new, get_or_create_record)
  | inr (x, old) ↦
      rw (old, get_or_create_record)
        (ground (arith, find-true (record_key log r.entity) b.records old))
]

get_or_create_record-rows :
    (k : Kind) (log : ℕ) (r : BranchRow) (b : Branch)
    → (get_or_create_record k log r b).1.rows ≡ b.rows
get_or_create_record-rows k log r b = ground arith

pub get_or_create_effect-rows :
    (cause effect : ℕ) (b : Branch) → (get_or_create_effect cause effect b).rows ≡ b.rows
get_or_create_effect-rows cause effect b = ground arith

-- The loop does not touch the rows.
pub visit-rows :
    (k : Kind) (deps : List Dependency) (change : LogRecord) (r : BranchRow) (l : Loop)
    → (visit k deps change r l).1.branch.rows ≡ l.branch.rows
unfolding visit
visit-rows k deps change r l = ground arith

not-true : (b : Bool) → not b ≡ true → b ≡ false
not-true b h = ground arith

All-paired :
    (n : ℕ) (es : List ℕ) (effect : LogRecord) (rows : List BranchRow)
    → elem effect.entity es ≡ true
    → All (λ (x : BranchRow). elem x.entity es ≡ true) rows
    → All (Known n es) (paired effect rows)
All-paired n es effect [] h all = tt
All-paired n es effect (x ∷ rows) h all = ((h, all.0), All-paired n es effect rows h all.1)

All-extend {ℓ κ} :
    {A : Type ℓ} (P : A → Type κ) (xs ys : List A) → All P xs → All P ys → All P (extend xs ys)
All-extend P [] ys hx hy = hy
All-extend P (x ∷ xs) ys hx hy = All-extend P xs (x ∷ ys) hx.1 (hx.0, hy)

module _ (n : ℕ) (es : List ℕ) (k : Kind) (deps : List Dependency) where
  abbrev RowsKnown : List BranchRow → Type 0
  RowsKnown = All (λ (r : BranchRow). elem r.entity es ≡ true)

  -- What one pass queues up is known, and weighs less than the pair that it takes off.
  visit-falls :
      (change : LogRecord) (r : BranchRow) (l : Loop) (queue : List Item)
      → Known n es (change, r)
      → RowsKnown l.branch.rows
      → length l.branch.rows ≤ n
      → let (next, l') = visit k deps change r l in
        (total n es l'.processed (extend next queue) < total n es l.processed ((change, r) ∷ queue))
        × All (Known n es) next
  unfolding visit
  visit-falls change r l queue known rows size =
      let same = get_or_create_record-entity k change.log r l.branch in
      let affected = rows_affected_by r.entity deps l.branch.rows in
      let fresh = λ (x : BranchRow). not (elem x.entity (change.entity ∷ l.processed)) in
      let all =
        All-select _ fresh affected (All-map _ _ affected (λ x h. h.0) (All-select _ _ _ rows)) in
      (
        total-next n es l.processed change _ r (select fresh affected) queue known.0 same
            (All-map _ _ _ (λ x h. not-true _ h.1) all)
            (omega (arith, length-select fresh affected, length-select _ l.branch.rows, size)),
        All-paired n es _ _ (rw same known.1) (All-map _ _ _ (λ x h. h.0) all),
      )

  enough_passes :
      (fuel : ℕ) (queue : List Item) (l : Loop)
      → total n es l.processed queue ≤ fuel
      → All (Known n es) queue
      → RowsKnown l.branch.rows
      → length l.branch.rows ≤ n
      → (l' : Loop) × (drain k deps fuel queue l ≡ some l')
  unfolding drain
  enough_passes zero [] l h known rows size = (l, refl)
  enough_passes (suc fuel) [] l h known rows size = (l, refl)
  enough_passes zero ((change, r) ∷ queue) l h known rows size =
      absurd (omega (arith, (visit-falls change r l queue known.0 rows size).0))
  enough_passes (suc fuel) ((change, r) ∷ queue) l h known rows size =
      let (next, l') = visit k deps change r l in
      let falls = visit-falls change r l queue known.0 rows size in
      let kept = visit-rows k deps change r l in
      enough_passes fuel (extend next queue) l' (omega (arith, falls.0, h))
        (All-extend _ next queue falls.1 known.1) (rw kept rows) (rw kept size)

length-extend {ℓ} : {A : Type ℓ} (xs ys : List A) → length (extend xs ys) ≡ length xs + length ys
length-extend [] ys = omega arith
length-extend (x ∷ xs) ys = omega (arith, length-extend xs (x ∷ ys))

length-paired :
    (change : LogRecord) (rows : List BranchRow) → length (paired change rows) ≡ length rows
length-paired change [] = refl
length-paired change (r ∷ rows) = omega (arith, length-paired change rows)

-- The change's entity and those of all rows.
entities_of : ℕ → List BranchRow → List ℕ
entities_of e [] = e ∷ []
entities_of e (r ∷ rows) = r.entity ∷ entities_of e rows

length-entities_of :
    (e : ℕ) (rows : List BranchRow) → length (entities_of e rows) ≡ suc (length rows)
unfolding entities_of
length-entities_of e [] = refl
length-entities_of e (r ∷ rows) = omega (arith, length-entities_of e rows)

elem-entities_of : (e : ℕ) (rows : List BranchRow) → elem e (entities_of e rows) ≡ true
unfolding entities_of
elem-entities_of e [] = ground arith
elem-entities_of e (r ∷ rows) = ground (arith, elem-entities_of e rows)

rows-entities_of :
    (e : ℕ) (rows : List BranchRow)
    → All (λ (r : BranchRow). elem r.entity (entities_of e rows) ≡ true) rows
unfolding entities_of
rows-entities_of e [] = tt
rows-entities_of e (r ∷ rows) =
    (ground arith, All-map _ _ rows (λ x h. ground arith) (rows-entities_of e rows))

effects_of_change_total :
    (k : Kind) (deps : List Dependency) (change : LogRecord) (b : Branch) (p : List ℕ)
    → (r : Branch × List ℕ) × (effects_of_change k deps change b p ≡ some r)
unfolding effects_of_change fuel_for
effects_of_change_total k deps change b p =
    let n = length b.rows in
    let es = entities_of change.entity b.rows in
    let known = rows-entities_of change.entity b.rows in
    let affected = rows_affected_by change.entity deps b.rows in
    let queue = extend (paired change affected) [] in
    let start : Loop = record { branch = b; processed = p; updates = [] } in
    let start_known =
      All-paired n es change affected (elem-entities_of change.entity b.rows)
        (All-map _ _ affected (λ x h. h.0) (All-select _ _ b.rows known)) in
    let size : length queue ≤ n = omega (
      arith,
      length-extend (paired change affected) [],
      length-paired change affected,
      length-select (λ (r : BranchRow). depends r.version change.entity deps) b.rows,
    ) in
    let bound = rw (length-entities_of change.entity b.rows) at (total-bound n es p queue) in
    let enough : total n es p queue ≤ fuel_for b = grind (arith, bound, size) in
    let (l, done) =
      enough_passes n es k deps (fuel_for b) queue start enough
        (All-extend _ (paired change affected) [] start_known tt) known (omega arith) in
    (finish l, rw (done, effects_of_change))

effects_of_changes_total :
    (k : Kind) (deps : List Dependency) (changes : List LogRecord) (b : Branch) (p : List ℕ)
    → (r : Branch) × (effects_of_changes k deps changes b p ≡ some r)
unfolding effects_of_changes
effects_of_changes_total k deps [] b p = (b, refl)
effects_of_changes_total k deps (c ∷ changes) b p =
    let (r, done) = effects_of_change_total k deps c b p in
    let (b', rest) = effects_of_changes_total k deps changes r.0 r.1 in
    (b', rw (done, effects_of_changes) rest)

-- For every graph of dependencies, cyclic ones included, `create_side_effects` returns a branch:
-- its loops end within the bound on their passes.
pub create_side_effects_total :
    (k : Kind) (deps : List Dependency) (log : ℕ) (b : Branch)
    → (b' : Branch) × (create_side_effects k deps log b ≡ some b')
unfolding create_side_effects
create_side_effects_total k deps log b = effects_of_changes_total k deps _ b []
