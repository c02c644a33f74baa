-- ===== src/Publishing/SideEffects/Closure.antt =====
-- What `_create_side_effects_for_change_log` leaves behind in the log and
-- in the rows of the branch, from the invariant of the worklist.
use mathlib.Core.Path.{subst}
use openedx_core.Common.{
  ℕ, ◌≡◌, refl, sym, ap, ◌∙◌, inl, inr, true, Option, some, List, [], ◌∷◌, ◌==◌, elem, All, All-map,
  arith, Bool-cases, Option-cases, ==_iff,
}
use openedx_core.Publishing.Models.{Dependency, BranchRow, LogRecord, Branch, Kind}
use openedx_core.Publishing.Tables.{records_of, rows_affected_by, depends, version_of, point_row}
use openedx_core.Publishing.Tables.Laws.{version_of-update_where}
use openedx_core.Publishing.SideEffects.{
  Loop, extend, paired, drain, write_updates, finish, fuel_for, effects_of_change,
  effects_of_changes, create_side_effects,
}
use openedx_core.Publishing.SideEffects.Worklist.{has_record, Inv}
use openedx_core.Publishing.SideEffects.Steps.{drain-Inv, start-Inv}

-- What looks at keys and versions only does not see the updates of the pointers.
All-update :
    (P : BranchRow → Type 0) (e : ℕ) (v : Option ℕ) (rows : List BranchRow)
    → ((r : BranchRow) → P r → P (record r { log_record = v }))
    → All P rows
    → All P (point_row e v rows)
All-update P e v [] f h = tt
All-update P e v (r ∷ rows) f h = elim (Bool-cases (r.entity == e)) [
  | inl hit ↦ rw hit (f r h.0, All-update P e v rows f h.1)
  | inr miss ↦ rw miss (h.0, All-update P e v rows f h.1)
]

All-write_updates :
    (P : BranchRow → Type 0) (us rows : List BranchRow)
    → ((r : BranchRow) (v : Option ℕ) → P r → P (record r { log_record = v }))
    → All P rows
    → All P (write_updates us rows)
All-write_updates P [] rows f h = h
All-write_updates P (u ∷ us) rows f h =
    All-write_updates P us _ f (All-update P u.entity u.log_record rows (λ r. f r u.log_record) h)

version_of-write_updates :
    (j : ℕ) (us rows : List BranchRow) → version_of j (write_updates us rows) ≡ version_of j rows
version_of-write_updates j [] rows = refl
version_of-write_updates j (u ∷ us) rows =
    version_of-write_updates j us (point_row u.entity u.log_record rows)
    ∙ version_of-update_where j (λ (r : BranchRow). r.entity == u.entity) u.log_record rows

entities_of : List LogRecord → List ℕ
entities_of [] = []
entities_of (c ∷ cs) = c.entity ∷ entities_of cs

module _ (k : Kind) (deps : List Dependency) (log : ℕ) where
  -- The invariant between two changes, and the versions.
  abbrev Between : List ℕ → List ℕ → Branch → Type 0
  Between pending processed b = Inv deps log b.rows pending processed b.records []

  Inv-write_updates :
      (us rows : List BranchRow) (pending processed : List ℕ) (records : List LogRecord)
      → Inv deps log rows pending processed records []
      → Inv deps log (write_updates us rows) pending processed records []
  Inv-write_updates us rows pending processed records inv = record {
    closed = λ e h. elim (inv.closed e h) [
      | inl later ↦ inl later
      | inr cov ↦ inr (All-write_updates _ us rows (λ r v f. f) cov)
    ];
    done = inv.done;
    waiting = inv.waiting;
    sources = tt;
  }

  effects_of_change-Between :
      (c : LogRecord) (b : Branch) (pending processed : List ℕ) (r : Branch × List ℕ)
      → c.log ≡ log
      → Between (c.entity ∷ pending) processed b
      → effects_of_change k deps c b processed ≡ some r
      → Between pending r.1 r.0 × ((j : ℕ) → version_of j r.0.rows ≡ version_of j b.rows)
  unfolding effects_of_change
  effects_of_change-Between c b pending processed r h inv e =
      let queue = extend (paired c (rows_affected_by c.entity deps b.rows)) [] in
      let start : Loop = record { branch = b; processed = processed; updates = [] } in
      elim (Option-cases (drain k deps (fuel_for b) queue start)) [
        | inl out ↦ let e' = rw (out, effects_of_change) at e in cc
        | inr (l, ended) ↦
            let e' = rw (ended, effects_of_change) at e in
            let same : finish l ≡ r = cc in
            let (rows_same, inv') =
              drain-Inv k deps log b.rows pending (fuel_for b) queue start l refl
                (start-Inv k deps log b.rows c pending processed b.records h inv) ended in
            let inv'' =
              subst (λ rs. Inv deps log rs pending l.processed l.branch.records []) (sym rows_same)
                inv' in
            subst
              (λ (x : Branch × List ℕ).
                Between pending x.1 x.0 × ((j : ℕ) → version_of j x.0.rows ≡ version_of j b.rows))
              same
              (
                Inv-write_updates l.updates l.branch.rows pending _ _ inv'',
                λ j.
                    version_of-write_updates j l.updates l.branch.rows
                    ∙ ap (version_of j) rows_same,
              )
      ]

  effects_of_changes-Between :
      (cs : List LogRecord) (b b' : Branch) (processed : List ℕ)
      → All (λ (c : LogRecord). c.log ≡ log) cs
      → Between (entities_of cs) processed b
      → effects_of_changes k deps cs b processed ≡ some b'
      → (p : List ℕ) × Between [] p b' × ((j : ℕ) → version_of j b'.rows ≡ version_of j b.rows)
  unfolding effects_of_changes entities_of
  effects_of_changes-Between [] b b' processed all inv e =
      let same : b ≡ b' = cc in
      subst
        (λ (x : Branch).
          (p : List ℕ) × Between [] p x × ((j : ℕ) → version_of j x.rows ≡ version_of j b.rows))
        same (processed, inv, λ j. refl)
  effects_of_changes-Between (c ∷ cs) b b' processed all inv e =
      elim (Option-cases (effects_of_change k deps c b processed)) [
        | inl out ↦ let e' = rw (out, effects_of_changes) at e in cc
        | inr (r, ended) ↦
            let e' = rw (ended, effects_of_changes) at e in
            let (inv', versions) =
              effects_of_change-Between c b (entities_of cs) processed r all.0 inv ended in
            let (p, inv'', versions') = effects_of_changes-Between cs r.0 b' r.1 all.1 inv' e' in
            (p, inv'', λ j. versions' j ∙ versions j)
      ]

-- At the start every record of the log is a change that is still to come.
records-All :
    (log : ℕ) (rs : List LogRecord) → All (λ (c : LogRecord). c.log ≡ log) (records_of log rs)
records-All log [] = tt
records-All log (r ∷ rs) = elim (Bool-cases (r.log == log)) [
  | inl ours ↦ rw ours ((==_iff r.log log).0 ours, records-All log rs)
  | inr other ↦ rw other (records-All log rs)
]

has_record-elem :
    (log e : ℕ) (rs : List LogRecord)
    → has_record log rs e ≡ elem e (entities_of (records_of log rs))
unfolding entities_of
has_record-elem log e [] = refl
has_record-elem log e (r ∷ rs) = ground (arith, has_record-elem log e rs)

-- After `create_side_effects` of a log, every row whose version depends on an entity with a record
-- in the log has a record in the log too, and every entity has the version that it had.
pub create_side_effects-closed :
    (k : Kind) (deps : List Dependency) (log : ℕ) (b b' : Branch)
    → create_side_effects k deps log b ≡ some b'
    → ((e : ℕ)
        → has_record log b'.records e ≡ true
        → All
            (λ (r : BranchRow).
              depends r.version e deps ≡ true → has_record log b'.records r.entity ≡ true)
            b'.rows)
      × ((j : ℕ) → version_of j b'.rows ≡ version_of j b.rows)
unfolding create_side_effects
create_side_effects-closed k deps log b b' h =
    let start : Inv deps log b.rows (entities_of (records_of log b.records)) [] b.records [] =
      record {
        closed = λ e he. inl (sym (has_record-elem log e b.records) ∙ he);
        done = λ e he. cc;
        waiting = λ e he. has_record-elem log e b.records ∙ he;
        sources = tt;
      } in
    let (p, inv, versions) =
      effects_of_changes-Between k deps log (records_of log b.records) b b' []
        (records-All log b.records) start h in
    (
      λ e he. elim (inv.closed e he) [
        | inl later ↦ cc
        | inr cov ↦ All-map _ _ b'.rows (λ r f d. ground (arith, f d)) cov
      ],
      versions,
    )
