-- ===== src/Publishing/SideEffects/Growth.antt =====
-- What `create_side_effects` adds to the records: nothing is altered, and no key is taken twice.
use mathlib.Core.List.{append-nil, append_assoc}
use mathlib.Core.Path.{subst}
use openedx_core.Common.{
  ℕ, zero, suc, ◌≤◌, ◌≡◌, refl, sym, ap, ◌∙◌, inl, inr, Bool, none, some, List, [], ◌∷◌, ◌++◌, ◌==◌,
  select, find, length, All, All-map, All-append, All-select, All-every, arith, Bool-cases,
  Option-cases, select-append, ==_iff,
}
use openedx_core.Publishing.Models.{Dependency, BranchRow, LogRecord, Branch, Kind}
use openedx_core.Publishing.Tables.{find_record, record_key, records_of, rows_affected_by}
use openedx_core.Publishing.SideEffects.{
  Loop, extend, paired, visit, drain, get_or_create_record, get_or_create_effect, new_effect_record,
  finish, fuel_for, effects_of_change, effects_of_changes, create_side_effects,
}
use openedx_core.Publishing.SideEffects.Steps.{effect_facts}
use openedx_core.Publishing.SideEffects.Worklist.{Item, All-extend}

-- At most one record has the key.
abbrev pub HasOne : ℕ → ℕ → List LogRecord → Type 0
HasOne l e rs = length (select (record_key l e) rs) ≤ 1

-- Records of the log are added in which nothing but the dependencies has changed.
pub record Grows (log : ℕ) (rs rs' : List LogRecord) : Type 0 where
  pub added : List LogRecord
  pub records : rs' ≡ rs ++ added
  pub pure_effects : All (λ (x : LogRecord). (x.log ≡ log) × (x.old_version ≡ x.new_version)) added
  pub unique : (l e : ℕ) → HasOne l e rs → HasOne l e rs'

Grows-refl : (log : ℕ) (rs : List LogRecord) → Grows log rs rs
Grows-refl log rs = record {
  added = [];
  records = sym (append-nil rs);
  pure_effects = tt;
  unique = λ l e h. h;
}

Grows-trans : (log : ℕ) (a b c : List LogRecord) → Grows log a b → Grows log b c → Grows log a c
Grows-trans log a b c x y = record {
  added = x.added ++ y.added;
  records = y.records ∙ ap (λ z. z ++ y.added) x.records ∙ append_assoc a x.added y.added;
  pure_effects = All-append _ x.added y.added x.pure_effects y.pure_effects;
  unique = λ l e h. y.unique l e (x.unique l e h);
}

find-none : (p : LogRecord → Bool) (xs : List LogRecord) → find p xs ≡ none → select p xs ≡ []
find-none p [] h = refl
find-none p (x ∷ xs) h = ground (arith, find-none p xs)

-- A record with a key that was free.
unique-new :
    (log e : ℕ) (rs : List LogRecord) (r : LogRecord)
    → find_record log e rs ≡ none
    → (r.log ≡ log) × (r.entity ≡ e)
    → (l j : ℕ) → HasOne l j rs
    → HasOne l j (rs ++ r ∷ [])
unique-new log e rs r free (in_log, of_entity) l j h = elim (Bool-cases (record_key l j r)) [
  | inr other ↦
      rw
        (select-append (record_key l j) rs (r ∷ []), other, append-nil (select (record_key l j) rs))
        h
  | inl key ↦
      let l≡ : log ≡ l = ground arith in
      let j≡ : e ≡ j = ground arith in
      let empty : select (record_key l j) rs ≡ [] =
        find-none (record_key l j) rs (rw (l≡, j≡) at free) in
      rw (select-append (record_key l j) rs (r ∷ []), key, empty) (omega arith)
]

get_or_create-Grows :
    (k : Kind) (log : ℕ) (a : BranchRow) (b : Branch)
    → Grows log b.records (get_or_create_record k log a b).1.records
get_or_create-Grows k log a b = elim (Option-cases (find_record log a.entity b.records)) [
  | inr (x, old) ↦ rw (old, get_or_create_record) (Grows-refl log b.records)
  | inl new ↦
      let r = new_effect_record k log a b in
      rw (new, get_or_create_record)
        (record {
          added = r ∷ [];
          records = refl;
          pure_effects = ((refl, refl), tt);
          unique = unique-new log a.entity b.records r new (refl, refl);
        })
]

get_or_create_effect-records :
    (cause effect : ℕ) (b : Branch) → (get_or_create_effect cause effect b).records ≡ b.records
get_or_create_effect-records cause effect b = ground arith

abbrev OfLog : ℕ → List Item → Type 0
OfLog log = All (λ (x : Item). x.0.log ≡ log)

OfLog-paired :
    (log : ℕ) (c : LogRecord) (rows : List BranchRow) → c.log ≡ log → OfLog log (paired c rows)
OfLog-paired log c [] h = tt
OfLog-paired log c (r ∷ rows) h = (h, OfLog-paired log c rows h)

module _ (k : Kind) (deps : List Dependency) (log : ℕ) where
  visit-Grows :
      (c : LogRecord) (a : BranchRow) (l : Loop)
      → c.log ≡ log
      → Grows log l.branch.records (visit k deps c a l).1.branch.records
        × OfLog log (visit k deps c a l).0
  unfolding visit
  visit-Grows c a l h =
      let (effect, b) = get_or_create_record k c.log a l.branch in
      let grown = get_or_create-Grows k c.log a l.branch in
      (
        subst (λ i. Grows i l.branch.records (visit k deps c a l).1.branch.records) h
            (rw (get_or_create_effect-records c.id effect.id b) grown),
        OfLog-paired log effect _ ((effect_facts k c.log a l.branch).0 ∙ h),
      )

  drain-Grows :
      (fuel : ℕ) (queue : List Item) (l l' : Loop)
      → OfLog log queue
      → drain k deps fuel queue l ≡ some l'
      → Grows log l.branch.records l'.branch.records
  unfolding drain
  drain-Grows zero [] l l' all e =
      let same : l ≡ l' = cc in
      subst (λ (x : Loop). Grows log l.branch.records x.branch.records) same (Grows-refl log _)
  drain-Grows (suc fuel) [] l l' all e =
      let same : l ≡ l' = cc in
      subst (λ (x : Loop). Grows log l.branch.records x.branch.records) same (Grows-refl log _)
  drain-Grows zero ((c, a) ∷ queue) l l' all e = cc
  drain-Grows (suc fuel) ((c, a) ∷ queue) l l' all e =
      let (next, m) = visit k deps c a l in
      let (grown, of_log) = visit-Grows c a l all.0 in
      Grows-trans log l.branch.records m.branch.records l'.branch.records grown
        (drain-Grows fuel (extend next queue) m l' (All-extend _ next queue of_log all.1) e)

  effects_of_change-Grows :
      (c : LogRecord) (b : Branch) (processed : List ℕ) (r : Branch × List ℕ)
      → c.log ≡ log
      → effects_of_change k deps c b processed ≡ some r
      → Grows log b.records r.0.records
  unfolding effects_of_change
  effects_of_change-Grows c b processed r h e =
      let rows = rows_affected_by c.entity deps b.rows in
      let queue = extend (paired c rows) [] in
      let start : Loop = record { branch = b; processed = processed; updates = [] } in
      elim (Option-cases (drain k deps (fuel_for b) queue start)) [
        | inl out ↦ let e' = rw (out, effects_of_change) at e in cc
        | inr (l, ended) ↦
            let e' = rw (ended, effects_of_change) at e in
            let same : finish l ≡ r = cc in
            subst (λ (x : Branch × List ℕ). Grows log b.records x.0.records) same
              (drain-Grows (fuel_for b) queue start l
                (All-extend _ (paired c rows) [] (OfLog-paired log c rows h) tt) ended)
      ]

  effects_of_changes-Grows :
      (changes : List LogRecord) (b b' : Branch) (processed : List ℕ)
      → All (λ (c : LogRecord). c.log ≡ log) changes
      → effects_of_changes k deps changes b processed ≡ some b'
      → Grows log b.records b'.records
  unfolding effects_of_changes
  effects_of_changes-Grows [] b b' processed all e =
      let same : b ≡ b' = cc in
      subst (λ (x : Branch). Grows log b.records x.records) same (Grows-refl log b.records)
  effects_of_changes-Grows (c ∷ changes) b b' processed all e =
      elim (Option-cases (effects_of_change k deps c b processed)) [
        | inl out ↦ let e' = rw (out, effects_of_changes) at e in cc
        | inr (r, done) ↦
            let e' = rw (done, effects_of_changes) at e in
            Grows-trans log b.records r.0.records b'.records
              (effects_of_change-Grows c b processed r all.0 done)
              (effects_of_changes-Grows changes r.0 b' r.1 all.1 e')
      ]

-- `create_side_effects` of a log leaves the records that there are, and adds records of that log
-- whose old version is the new one. No pair of a log and an entity that had one record at most gets
-- a second one.
pub create_side_effects-Grows :
    (k : Kind) (deps : List Dependency) (log : ℕ) (b b' : Branch)
    → create_side_effects k deps log b ≡ some b'
    → Grows log b.records b'.records
unfolding create_side_effects
create_side_effects-Grows k deps log b b' h =
    effects_of_changes-Grows k deps log (records_of log b.records) b b' []
      (All-map _ _ (records_of log b.records) (λ r x. (==_iff r.log log).0 x.1)
        (All-select (λ _. Unit {0}) (λ (r : LogRecord). r.log == log) b.records
          (All-every _ b.records (λ _. tt))))
      h
