-- ===== src/Publishing/Drafts.antt =====
-- publishing/api.py, the changes of single drafts: `set_draft_version`, `soft_delete_draft` and
-- `_add_to_existing_draft_change_log`, with the lookup of publishing/contextmanagers.py.
pub mod Outcome
pub mod Records
pub mod Ids
pub mod Compaction
pub mod Set
pub mod InContext
pub mod Returns
pub mod Sequence
use openedx_core.Common.{
  ℕ, not, Option, none, some, List, [], ◌∷◌, ◌==◌, if◌then◌else◌, opt_eq, is_none, or_else, find,
}
use openedx_core.Publishing.Models.{BranchRow, ChangeLog, LogRecord, Branch, Store, draft}
use openedx_core.Publishing.Tables.{
  find_entity, find_version, find_row, save_row, add_record, add_log, find_record, set_new_version,
  delete_record,
}
use openedx_core.Publishing.Logs.{
  World, create_side_effects_for_change_log, emit_event_for_change_log,
}
use openedx_core.Publishing.Monad.{
  M, pure, raise, gets, get_or_raise, modify, raise_if, validation_error, integrity_error,
  does_not_exist, type_error, ◌>>=◌, ◌>>◌,
}

-- `DraftChangeLogContext.get_active_draft_change_log`: the innermost context of the package.
unfoldable pub get_active_draft_change_log : ℕ → Store → Option ChangeLog
get_active_draft_change_log lp s =
    find (λ (l : ChangeLog). l.learning_package == lp) s.draft_change_logs

-- The argument `draft_or_id`.
pub data DraftOrId : Type 0 where
  draft_object : BranchRow → DraftOrId
  entity_id : ℕ → DraftOrId
  other : DraftOrId

abbrev pub new_record : ℕ → ℕ → Option ℕ → Option ℕ → Branch → LogRecord
new_record log e old new b = record {
  id = b.next_record;
  log = log;
  entity = e;
  old_version = old;
  new_version = new;
  dependencies_hash_digest = "";
  direct = none;
}

-- `DraftChangeLogRecord.objects.create`
abbrev pub create_draft_record : ℕ → ℕ → Option ℕ → Option ℕ → M ℕ
create_draft_record log e old new = do
  b ← gets (λ s. s.drafts)
  modify (λ s. record s { drafts = add_record (new_record log e old new s.drafts) s.drafts })
  pure b.next_record

-- `_add_to_existing_draft_change_log`: the id of the record that is left, if one is.
unfoldable pub add_to_existing_draft_change_log : ChangeLog → ℕ → Option ℕ → Option ℕ → M (Option ℕ)
add_to_existing_draft_change_log active e old new = do
  change ← gets (λ s. find_record active.id e s.drafts.records)
  elim change [
    | none ↦ create_draft_record active.id e old new >>= λ i. pure (some i)
    | some r ↦
        if opt_eq r.old_version new
        then delete_record r.id >> pure none
        else modify (λ s. record s {
          drafts = record (s.drafts) { records = set_new_version r.id new s.drafts.records };
        })
          >> pure (some r.id)
  ]

-- `DraftChangeLogRecord.objects.filter(entity_id=…).order_by("-pk").first()`
abbrev pub last_record_of : ℕ → List LogRecord → Option ℕ
last_record_of e [] = none
last_record_of e (r ∷ rs) = elim (last_record_of e rs) [
  | some i ↦ some i
  | none ↦ if r.entity == e then some r.id else none
]

abbrev pub save_draft : ℕ → Option ℕ → Option ℕ → M (Unit {0})
save_draft e v log_record = modify (λ s. record s {
  drafts = record (s.drafts) {
    rows = save_row (record { entity = e; version = v; log_record = log_record }) s.drafts.rows;
  };
})

-- `Draft.objects.get_or_create(entity_id=…)`, with the foreign key's check, or the object given.
pub resolve_draft : DraftOrId → M BranchRow
resolve_draft (draft_object row) = pure row
resolve_draft other = raise type_error
resolve_draft (entity_id e) = do
  found ← gets (λ s. find_row e s.drafts.rows)
  elim found [
    | some row ↦ pure row
    | none ↦ do
      entity ← gets (find_entity e)
      raise_if (is_none entity) integrity_error
      save_draft e none none
      pure (record { entity = e; version = none; log_record = none })
  ]

-- `DraftChangeLog.objects.create`
abbrev pub create_draft_change_log : ℕ → ℕ → Option ℕ → M ChangeLog
create_draft_change_log lp changed_at changed_by = do
  b ← gets (λ s. s.drafts)
  let log : ChangeLog = record {
    id = b.next_log;
    learning_package = lp;
    message = "";
    at = changed_at;
    by = changed_by;
  }
  modify (λ s. record s { drafts = add_log log s.drafts })
  pure log

-- The check that a version belongs to the draft's entity.
pub check_version : ℕ → Option ℕ → M (Unit {0})
check_version e none = pure tt
check_version e (some v) = do
  version ← get_or_raise (← gets (find_version v)) does_not_exist
  raise_if (not (version.entity == e)) validation_error

-- The change itself, within an active `DraftChangeLog`.
pub change_in_context : ChangeLog → ℕ → Option ℕ → Option ℕ → M (Unit {0})
unfolding add_to_existing_draft_change_log
change_in_context active e old new = do
  left ← add_to_existing_draft_change_log active e old new
  last ← gets (λ s. last_record_of e s.drafts.records)
  save_draft e new (elim left [ some i ↦ some i | none ↦ last ])

-- The same with a `DraftChangeLog` of its own.
pub change_alone : World → ℕ → ℕ → Option ℕ → Option ℕ → ℕ → Option ℕ → M (Unit {0})
change_alone w lp e old new set_at set_by = do
  log ← create_draft_change_log lp set_at set_by
  i ← create_draft_record log.id e old new
  save_draft e new (some i)
  create_side_effects_for_change_log w draft log.id
  emit_event_for_change_log draft log set_at set_by

unfoldable pub set_draft_version : World → DraftOrId → Option ℕ → Option ℕ → Option ℕ → M (Unit {0})
unfolding resolve_draft check_version change_in_context change_alone get_active_draft_change_log
set_draft_version w draft_or_id version set_at set_by = do
  row ← resolve_draft draft_or_id
  if opt_eq row.version version then pure tt else do
    entity ← get_or_raise (← gets (find_entity row.entity)) does_not_exist
    check_version entity.id version
    active ← gets (get_active_draft_change_log entity.learning_package)
    elim active [
      | some log ↦ change_in_context log row.entity row.version version
      | none ↦
          change_alone w entity.learning_package row.entity row.version version
            (or_else set_at w.now) set_by
    ]

pub soft_delete_draft : World → ℕ → Option ℕ → M (Unit {0})
unfolding set_draft_version
soft_delete_draft w e deleted_by = set_draft_version w (entity_id e) none none deleted_by
