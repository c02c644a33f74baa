-- ===== src/Publishing/SideEffects.antt =====
-- publishing/api.py, `_create_side_effects_for_change_log`: the records and side effects of what
-- depends on the changed entities, found by a worklist over the dependency graph.
pub mod Termination
pub mod Worklist
pub mod Steps
pub mod Closure
pub mod Growth
use openedx_core.Common.{
  ℕ, zero, suc, ◌+◌, ◌*◌, ◌^◌, Bool, false, ◌&&◌, not, Option, none, some, List, [], ◌∷◌, ◌++◌,
  ◌==◌, if◌then◌else◌, opt_eq, select, any, elem, length,
}
use openedx_core.Publishing.Models.{
  Dependency, BranchRow, LogRecord, SideEffect, Branch, Kind, draft, published,
}
use openedx_core.Publishing.Tables.{
  add_record, find_record, records_of, rows_affected_by, point_row,
}

-- `direct` of a record that is created with its default.
abbrev pub default_direct : Kind → Option Bool
default_direct draft = none
default_direct published = some false

-- `change_record_cls.objects.get_or_create`: a pure side effect has its old version as the new one.
abbrev pub new_effect_record : Kind → ℕ → BranchRow → Branch → LogRecord
new_effect_record k log affected b = record {
  id = b.next_record;
  log = log;
  entity = affected.entity;
  old_version = affected.version;
  new_version = affected.version;
  dependencies_hash_digest = "";
  direct = default_direct k;
}

abbrev pub get_or_create_record : Kind → ℕ → BranchRow → Branch → LogRecord × Branch
get_or_create_record k log affected b = elim (find_record log affected.entity b.records) [
  | some r ↦ (r, b)
  | none ↦ let r = new_effect_record k log affected b in (r, add_record r b)
]

abbrev pub is_effect : ℕ → ℕ → SideEffect → Bool
is_effect cause effect x = (x.cause == cause) && (x.effect == effect)

-- `side_effect_cls.objects.get_or_create`
abbrev pub get_or_create_effect : ℕ → ℕ → Branch → Branch
get_or_create_effect cause effect b =
    if any (is_effect cause effect) b.side_effects then b else record b {
      side_effects = b.side_effects ++ (record { cause = cause; effect = effect }) ∷ [];
    }

-- What the loop changes, but for `changes_and_affected`.
pub record Loop : Type 0 where
  pub branch : Branch
  pub processed : List ℕ
  pub updates : List BranchRow

-- `list.extend` onto a list that is popped from its end: the last one comes to stand first.
abbrev pub extend {ℓ} : {A : Type ℓ} → List A → List A → List A
extend [] queue = queue
extend (x ∷ xs) queue = extend xs (x ∷ queue)

abbrev pub paired : LogRecord → List BranchRow → List (LogRecord × BranchRow)
paired change [] = []
paired change (r ∷ rows) = (change, r) ∷ paired change rows

-- `branch_objs_to_update_with_side_effects`, with the row pointed to the side effect's record.
abbrev pub note_update : BranchRow → ℕ → List BranchRow → List BranchRow
note_update affected i updates =
    if opt_eq affected.log_record (some i)
    then updates
    else updates ++ (record affected { log_record = some i }) ∷ []

-- `bulk_update` of the pointers to the records.
abbrev pub write_updates : List BranchRow → List BranchRow → List BranchRow
write_updates [] rows = rows
write_updates (u ∷ updates) rows = write_updates updates (point_row u.entity u.log_record rows)

-- The bound on the passes of the loop, for any graph of dependencies: see SideEffects/Termination.
pub power : ℕ → ℕ → ℕ
power b zero = 1
power b (suc n) = b * power b n

pub fuel_for : Branch → ℕ
unfolding power
fuel_for b = power (suc (length b.rows)) (suc (3 * suc (length b.rows) + 2))

abbrev pub finish : Loop → Branch × List ℕ
finish l = let b = l.branch in (record b { rows = write_updates l.updates b.rows }, l.processed)

module _ (k : Kind) (deps : List Dependency) where
  -- One pass through the body of `while`: what is queued up next, and the new state.
  pub visit : LogRecord → BranchRow → Loop → List (LogRecord × BranchRow) × Loop
  visit change affected l =
      let (effect, b) = get_or_create_record k change.log affected l.branch in
      let b' = get_or_create_effect change.id effect.id b in
      let processed = change.entity ∷ l.processed in
      let next =
        select (λ (r : BranchRow). not (elem r.entity processed))
          (rows_affected_by affected.entity deps l.branch.rows) in
      (
        paired effect next,
        record {
          branch = b';
          processed = processed;
          updates = note_update affected effect.id l.updates;
        },
      )

  pub drain : ℕ → List (LogRecord × BranchRow) → Loop → Option Loop
  unfolding visit
  drain fuel [] l = some l
  drain zero (item ∷ queue) l = none
  drain (suc fuel) ((change, affected) ∷ queue) l =
      let (next, l') = visit change affected l in drain fuel (extend next queue) l'

  -- The effects of one of the changes of the log.
  pub effects_of_change : LogRecord → Branch → List ℕ → Option (Branch × List ℕ)
  unfolding drain fuel_for
  effects_of_change change b processed =
      let start : Loop = record { branch = b; processed = processed; updates = [] } in
      let queue = extend (paired change (rows_affected_by change.entity deps b.rows)) [] in
      elim (drain (fuel_for b) queue start) [ some l ↦ some (finish l) | none ↦ none ]

  pub effects_of_changes : List LogRecord → Branch → List ℕ → Option Branch
  unfolding effects_of_change
  effects_of_changes [] b processed = some b
  effects_of_changes (change ∷ changes) b processed = elim (effects_of_change change b processed) [
    | some (b', processed') ↦ effects_of_changes changes b' processed'
    | none ↦ none
  ]

-- `_create_side_effects_for_change_log`, up to the hash digests. The changes are read once.
unfoldable pub create_side_effects : Kind → List Dependency → ℕ → Branch → Option Branch
unfolding effects_of_changes
create_side_effects k deps log b = effects_of_changes k deps (records_of log b.records) b []
