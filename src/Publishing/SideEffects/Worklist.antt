-- ===== src/Publishing/SideEffects/Worklist.antt =====
-- The worklist of `_create_side_effects_for_change_log`: the invariant of the `while` loop.
use openedx_core.Common.{
  ℕ, ◌≡◌, refl, ◌⊎◌, inl, inr, Bool, true, false, ◌||◌, not, none, some, List, [], ◌∷◌, ◌++◌, ◌==◌,
  select, find, any, elem, All, All-map, arith, Bool-cases, Option-cases, ==_iff,
}
use openedx_core.Publishing.Models.{Dependency, BranchRow, LogRecord, Kind}
use openedx_core.Publishing.Tables.{find_record, record_key, rows_affected_by, depends}
use openedx_core.Publishing.Tables.Laws.{any-append}
use openedx_core.Publishing.SideEffects.{Loop, new_effect_record, extend, paired, visit}

abbrev pub Item : Type 0
Item = LogRecord × BranchRow

-- The log has a record of the entity.
abbrev pub has_record : ℕ → List LogRecord → ℕ → Bool
has_record log records e = any (record_key log e) records

abbrev pub queued : ℕ → List Item → Bool
queued e = any (λ (x : Item). x.1.entity == e)

any_of_find {ℓ} :
    {A : Type ℓ} (p : A → Bool) (xs : List A) {x : A} → find p xs ≡ some x → any p xs ≡ true
any_of_find p [] h = cc
any_of_find p (y ∷ xs) {x} h = ground (arith, any_of_find p xs {x = x})

-- The records after one pass: one more if the affected entity had none in the log.
pub record VisitRecords (c : LogRecord) (a : BranchRow) (before after : List LogRecord)
    : Type 0 where
  pub added : LogRecord
  pub log : added.log ≡ c.log
  pub entity : added.entity ≡ a.entity
  pub result :
      ((find_record c.log a.entity before ≡ none) × (after ≡ before ++ added ∷ []))
      ⊎ ((x : LogRecord) × (find_record c.log a.entity before ≡ some x) × (after ≡ before))

module _ (k : Kind) (deps : List Dependency) where
  pub visit_records :
      (c : LogRecord) (a : BranchRow) (l : Loop)
      → VisitRecords c a l.branch.records (visit k deps c a l).1.branch.records
  unfolding visit
  visit_records c a l = record {
    added = new_effect_record k c.log a l.branch;
    log = refl;
    entity = refl;
    result = elim (Option-cases (find_record c.log a.entity l.branch.records)) [
      | inl new ↦ inl (new, ground arith)
      | inr (x, old) ↦ inr (x, old, ground arith)
    ];
  }

module _ (log : ℕ) (c : LogRecord) (a : BranchRow) (before after : List LogRecord)
    (v : VisitRecords c a before after) where
  keeps : (e : ℕ) → has_record log before e ≡ true → has_record log after e ≡ true
  keeps e h = elim v.result [
    | inl (_, grown) ↦ rw (grown, any-append (record_key log e) before (v.added ∷ []), h)
    | inr (_, _, same) ↦ rw same h
  ]

  has_affected : c.log ≡ log → has_record log after a.entity ≡ true
  has_affected h = elim v.result [
    | inl (_, grown) ↦
        rw (grown, any-append (record_key log a.entity) before (v.added ∷ []))
          (ground (arith, v.log, v.entity))
    | inr (x, old, same) ↦ rw (same, ← h) (any_of_find (record_key c.log a.entity) before old)
  ]

  only_affected :
      (e : ℕ)
      → has_record log after e ≡ true
      → (a.entity == e) ≡ false
      → has_record log before e ≡ true
  only_affected e h other = elim v.result [
    | inl (_, grown) ↦
        let h' = rw (grown, any-append (record_key log e) before (v.added ∷ [])) at h in
        ground (arith, v.log, v.entity)
    | inr (x, old, same) ↦ rw same at h
  ]

pub All-extend {ℓ κ} :
    {A : Type ℓ} (P : A → Type κ) (xs ys : List A) → All P xs → All P ys → All P (extend xs ys)
All-extend P [] ys hx hy = hy
All-extend P (x ∷ xs) ys hx hy = All-extend P xs (x ∷ ys) hx.1 (hx.0, hy)

pub queued-extend :
    (e : ℕ) (xs ys : List Item) → queued e (extend xs ys) ≡ (queued e xs || queued e ys)
queued-extend e [] ys = refl
queued-extend e (x ∷ xs) ys = ground (arith, queued-extend e xs (x ∷ ys))

pub queued-paired :
    (e : ℕ) (c : LogRecord) (rows : List BranchRow)
    → queued e (paired c rows) ≡ any (λ (r : BranchRow). r.entity == e) rows
queued-paired e c [] = refl
queued-paired e c (r ∷ rows) = ground (arith, queued-paired e c rows)

abbrev pub Selected : (p q : BranchRow → Bool) → List BranchRow → List BranchRow → Type 0
Selected p q rows = All (λ (r : BranchRow).
    p r ≡ true
    → q r ≡ true
    → any (λ (x : BranchRow). x.entity == r.entity) (select q (select p rows)) ≡ true)

Selected-cons :
    (p q : BranchRow → Bool) (x : BranchRow) (rows some_rows : List BranchRow)
    → Selected p q rows some_rows
    → Selected p q (x ∷ rows) some_rows
Selected-cons p q x rows [] h = tt
Selected-cons p q x rows (r ∷ rs) h =
    (λ hp hq. ground (arith, h.0 hp hq), Selected-cons p q x rows rs h.1)

pub select-Selected : (p q : BranchRow → Bool) (rows : List BranchRow) → Selected p q rows rows
select-Selected p q [] = tt
select-Selected p q (x ∷ rows) =
    (λ hp hq. ground arith, Selected-cons p q x rows rows (select-Selected p q rows))

module _ (deps : List Dependency) (log : ℕ) (rows : List BranchRow) where
  -- What depends on the entity has a record, or waits in the queue.
  abbrev pub Covered : List LogRecord → List Item → ℕ → Type 0
  Covered records queue e =
      All
        (λ (r : BranchRow).
          depends r.version e deps ≡ true
          → (has_record log records r.entity || queued r.entity queue) ≡ true)
        rows

  abbrev pub IsSource : List LogRecord → Item → Type 0
  IsSource records (c, a) = (c.log ≡ log) × (has_record log records c.entity ≡ true)

  -- The invariant of the worklist, with the changes that are still to come.
  pub record Inv (pending processed : List ℕ) (records : List LogRecord) (queue : List Item)
      : Type 0 where
    pub closed :
        (e : ℕ)
        → has_record log records e ≡ true
        → (elem e pending ≡ true) ⊎ Covered records queue e
    pub done : (e : ℕ) → elem e processed ≡ true → has_record log records e ≡ true
    pub waiting : (e : ℕ) → elem e pending ≡ true → has_record log records e ≡ true
    pub sources : All (IsSource records) queue

  module _ (c : LogRecord) (a : BranchRow) (before after : List LogRecord)
      (v : VisitRecords c a before after) (processed : List ℕ) (queue : List Item) where
    abbrev next_rows : List BranchRow
    next_rows =
        select (λ (r : BranchRow). not (elem r.entity (c.entity ∷ processed)))
          (rows_affected_by a.entity deps rows)

    Covered-keeps :
        (e : ℕ) (x : LogRecord)
        → c.log ≡ log
        → Covered before ((c, a) ∷ queue) e
        → Covered after (extend (paired x next_rows) queue) e
    Covered-keeps e x h cov =
        All-map _ _ rows
          (λ r f d. ground (
            arith,
            f d,
            keeps log c a before after v r.entity,
            has_affected log c a before after v h,
            queued-extend r.entity (paired x next_rows) queue,
          ))
          cov

    Covered-affected :
        (x : LogRecord)
        → ((e : ℕ) → elem e (c.entity ∷ processed) ≡ true → has_record log after e ≡ true)
        → Covered after (extend (paired x next_rows) queue) a.entity
    Covered-affected x done' =
        All-map _ _ rows
          (λ r f d. ground (
            arith,
            f d,
            done' r.entity,
            queued-extend r.entity (paired x next_rows) queue,
            queued-paired r.entity x next_rows,
          ))
          (select-Selected (λ (r : BranchRow). depends r.version a.entity deps)
            (λ (r : BranchRow). not (elem r.entity (c.entity ∷ processed))) rows)

    pub Inv-step :
        (x : LogRecord) {pending : List ℕ}
        → x.log ≡ log
        → x.entity ≡ a.entity
        → Inv pending processed before ((c, a) ∷ queue)
        → Inv pending (c.entity ∷ processed) after (extend (paired x next_rows) queue)
    Inv-step x {pending} xl xe inv =
        let from = inv.sources.0 in
        let has = has_affected log c a before after v from.0 in
        let kept = keeps log c a before after v in
        let done' : (e : ℕ) → elem e (c.entity ∷ processed) ≡ true → has_record log after e ≡ true =
          λ e h. elim (Bool-cases (e == c.entity)) [
            | inl same ↦ rw ((==_iff e c.entity).0 same) (kept c.entity from.1)
            | inr other ↦ kept e (inv.done e (ground arith))
          ] in
        record {
          closed = λ e h. elim (Bool-cases (a.entity == e)) [
            | inl same ↦ inr (rw (← (==_iff a.entity e).0 same) (Covered-affected x done'))
            | inr other ↦ elim (inv.closed e (only_affected log c a before after v e h other)) [
              | inl later ↦ inl later
              | inr cov ↦ inr (Covered-keeps e x from.0 cov)
            ]
          ];
          done = done';
          waiting = λ e h. kept e (inv.waiting e h);
          sources =
              All-extend _ (paired x next_rows) queue (All-paired x next_rows (xl, rw xe has))
                (All-map _ _ queue (λ y s. (s.0, kept y.0.entity s.1)) inv.sources.1);
        }
      where
        All-paired :
            (y : LogRecord) (rs : List BranchRow)
            → (y.log ≡ log) × (has_record log after y.entity ≡ true)
            → All (IsSource after) (paired y rs)
        All-paired y [] h = tt
        All-paired y (r ∷ rs) h = (h, All-paired y rs h)
