-- ===== src/Publishing/Logs.antt =====
-- What ends every change of a branch: `_create_side_effects_for_change_log` with the hash digests,
-- and `_emit_event_for_change_log` (publishing/api.py).
pub mod Frame
use openedx_core.Common.{
  ℕ, String, Bool, false, ◌&&◌, not, Option, none, some, List, [], ◌∷◌, ◌++◌, ◌==◌, is_none, find,
  any,
}
use openedx_core.Publishing.Models.{
  LearningPackage, ChangeLog, LogRecord, Kind, RecordData, Store, branch, set_branch, draft,
  published, changed,
}
use openedx_core.Publishing.Tables.{find_version, records_of}
use openedx_core.Publishing.SideEffects.{create_side_effects}
use openedx_core.Publishing.Hashes.{update_dependencies_hash_digests_for_log}
use openedx_core.Publishing.Monad.{
  M, ok, err, gets, get_or_raise, modify, does_not_exist, endless, ◌>>=◌,
}

-- What the calls take from outside: the current time, hashlib's `blake2b`, and the field
-- validators that Django's `full_clean` runs (the lengths and the patterns of the texts).
pub record World : Type 0 where
  pub now : ℕ
  pub blake2b : String → ℕ → String
  pub clean_package : LearningPackage → Bool
  pub clean_log : ChangeLog → Bool

-- The whole of `_create_side_effects_for_change_log`.
unfoldable pub create_side_effects_for_change_log : World → Kind → ℕ → M (Unit {0})
create_side_effects_for_change_log w k log s =
    elim (create_side_effects k s.dependencies log (branch k s)) [
      | none ↦ err endless
      | some b ↦
          elim (update_dependencies_hash_digests_for_log w.blake2b s.dependencies log false b) [
            | err e ↦ err e
            | ok b' ↦ ok (tt, set_branch k b' s)
          ]
    ]

-- `record.old_version.version_num if record.old_version else None`
abbrev pub version_num_of : Option ℕ → Store → Option ℕ
version_num_of none s = none
version_num_of (some v) s = elim (find_version v s) [ none ↦ none | some x ↦ some x.version_num ]

-- A draft that comes back from a soft delete has records in other change logs.
abbrev pub is_restored : Kind → ℕ → List LogRecord → LogRecord → Bool
is_restored published log all r = false
is_restored draft log all r =
    (is_none r.old_version && not (is_none r.new_version))
    && any (λ (x : LogRecord). (x.entity == r.entity) && not (x.log == log)) all

abbrev pub record_data : Kind → ℕ → Store → LogRecord → RecordData
record_data k log s r = record {
  entity = r.entity;
  old_version = version_num_of r.old_version s;
  old_version_id = r.old_version;
  new_version = version_num_of r.new_version s;
  new_version_id = r.new_version;
  direct = r.direct;
  restored = is_restored k log (branch k s).records r;
}

abbrev pub all_record_data : Kind → ℕ → Store → List LogRecord → List RecordData
all_record_data k log s [] = []
all_record_data k log s (r ∷ rs) = record_data k log s r ∷ all_record_data k log s rs

abbrev pub find_package : ℕ → Store → Option LearningPackage
find_package p s = find (λ x. x.id == p) s.packages

-- `_emit_event_for_change_log`. The event waits for the commit.
unfoldable pub emit_event_for_change_log :
    Kind → ChangeLog → (timestamp : ℕ) → (user_id : Option ℕ) → M (Unit {0})
emit_event_for_change_log k log timestamp user_id = do
  lp ← get_or_raise (← gets (find_package log.learning_package)) does_not_exist
  changes ← gets (λ s. all_record_data k log.id s (records_of log.id (branch k s).records))
  modify (λ s. record s {
    events = s.events ++ changed k log.id changes timestamp user_id lp.id lp.title ∷ [];
  })
