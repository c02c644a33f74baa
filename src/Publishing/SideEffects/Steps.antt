-- ===== src/Publishing/SideEffects/Steps.antt =====
-- The invariant of the worklist over the passes of the loop, and at the start of each change.
use mathlib.Core.Path.{subst}
use openedx_core.Common.{
  ℕ, zero, suc, ◌≡◌, refl, sym, ◌∙◌, inl, inr, Bool, true, some, List, [], ◌∷◌, ◌==◌, select, any,
  All, All-map, find-true, arith, Bool-cases, Option-cases, ==_iff,
}
use openedx_core.Publishing.Models.{Dependency, BranchRow, LogRecord, Branch, Kind}
use openedx_core.Publishing.Tables.{find_record, record_key, rows_affected_by, depends}
use openedx_core.Publishing.SideEffects.{Loop, extend, paired, visit, drain, get_or_create_record}
use openedx_core.Publishing.SideEffects.Worklist.{
  Item, has_record, visit_records, Inv, Inv-step, Covered, IsSource, queued-extend, queued-paired,
  All-extend,
}
use openedx_core.Publishing.SideEffects.Termination.{visit-rows}

pub effect_facts :
    (k : Kind) (log : ℕ) (a : BranchRow) (b : Branch)
    → let x = (get_or_create_record k log a b).0 in (x.log ≡ log) × (x.entity ≡ a.entity)
effect_facts k log a b = elim (Option-cases (find_record log a.entity b.records)) [
  | inl new ↦ rw (new, get_or_create_record) (refl, refl)
  | inr (x, old) ↦
      rw (old, get_or_create_record)
        (ground (arith, find-true (record_key log a.entity) b.records old))
]

module _ (k : Kind) (deps : List Dependency) (log : ℕ) where
  visit-Inv :
      (pending : List ℕ) (c : LogRecord) (a : BranchRow) (queue : List Item) (l : Loop)
      → Inv deps log l.branch.rows pending l.processed l.branch.records ((c, a) ∷ queue)
      → let (next, m) = visit k deps c a l in
        Inv deps log l.branch.rows pending m.processed m.branch.records (extend next queue)
  unfolding visit
  visit-Inv pending c a queue l inv =
      let (effect_log, effect_entity) = effect_facts k c.log a l.branch in
      Inv-step deps log l.branch.rows c a _ _ (visit_records k deps c a l) l.processed queue _
        (effect_log ∙ inv.sources.0.0) effect_entity inv

  at_end :
      (rows : List BranchRow) (pending : List ℕ) (l l' : Loop)
      → l.branch.rows ≡ rows
      → Inv deps log rows pending l.processed l.branch.records []
      → some l ≡ some l'
      → (l'.branch.rows ≡ rows) × Inv deps log rows pending l'.processed l'.branch.records []
  at_end rows pending l l' same inv e =
      let e' : l ≡ l' = cc in
      subst
        (λ (x : Loop).
          (x.branch.rows ≡ rows) × Inv deps log rows pending x.processed x.branch.records [])
        e' (same, inv)

  pub drain-Inv :
      (rows : List BranchRow) (pending : List ℕ) (fuel : ℕ) (queue : List Item) (l l' : Loop)
      → l.branch.rows ≡ rows
      → Inv deps log rows pending l.processed l.branch.records queue
      → drain k deps fuel queue l ≡ some l'
      → (l'.branch.rows ≡ rows) × Inv deps log rows pending l'.processed l'.branch.records []
  unfolding drain
  drain-Inv rows pending zero [] l l' same inv e = at_end rows pending l l' same inv e
  drain-Inv rows pending (suc fuel) [] l l' same inv e = at_end rows pending l l' same inv e
  drain-Inv rows pending zero ((c, a) ∷ queue) l l' same inv e = cc
  drain-Inv rows pending (suc fuel) ((c, a) ∷ queue) l l' same inv e =
      let (next, m) = visit k deps c a l in
      let here =
        subst (λ rs. Inv deps log rs pending l.processed l.branch.records ((c, a) ∷ queue))
          (sym same) inv in
      let there =
        subst (λ rs. Inv deps log rs pending m.processed m.branch.records (extend next queue)) same
          (visit-Inv pending c a queue l here) in
      drain-Inv rows pending fuel (extend next queue) m l' (visit-rows k deps c a l ∙ same) there e

  every_row_queued :
      (p : BranchRow → Bool) (rows : List BranchRow)
      → All
          (λ (r : BranchRow).
            p r ≡ true → any (λ (x : BranchRow). x.entity == r.entity) (select p rows) ≡ true)
          rows
  every_row_queued p [] = tt
  every_row_queued p (x ∷ rows) =
      (λ h. ground arith, All-map _ _ rows (λ r f h. ground (arith, f h)) (every_row_queued p rows))

  -- A change that is started: all that depends on it is queued.
  pub start-Inv :
      (rows : List BranchRow) (c : LogRecord) (pending processed : List ℕ)
      (records : List LogRecord)
      → c.log ≡ log
      → Inv deps log rows (c.entity ∷ pending) processed records []
      → Inv deps log rows pending processed records
          (extend (paired c (rows_affected_by c.entity deps rows)) [])
  start-Inv rows c pending processed records h inv =
      let has = inv.waiting c.entity (ground arith) in
      let affected = rows_affected_by c.entity deps rows in
      let queue = extend (paired c affected) [] in
      let at_once : Covered deps log rows records queue c.entity =
        All-map _ _ rows
          (λ r f d. ground (
            arith,
            f d,
            queued-extend r.entity (paired c affected) [],
            queued-paired r.entity c affected,
          ))
          (every_row_queued (λ (r : BranchRow). depends r.version c.entity deps) rows) in
      record {
        closed = λ e he. elim (Bool-cases (c.entity == e)) [
          | inl same ↦ inr (rw (← (==_iff c.entity e).0 same) at_once)
          | inr other ↦ elim (inv.closed e he) [
            | inl later ↦ inl (ground arith)
            | inr cov ↦ inr (All-map _ _ rows (λ r f d. ground (arith, f d)) cov)
          ]
        ];
        done = inv.done;
        waiting = λ e he. inv.waiting e (ground arith);
        sources = All-extend _ (paired c affected) [] (all (h, has) affected) tt;
      }
    where
      all :
          (c.log ≡ log) × (has_record log records c.entity ≡ true)
          → (rs : List BranchRow) → All (IsSource deps log rows records) (paired c rs)
      all both [] = tt
      all both (r ∷ rs) = (both, all both rs)
