-- ===== src/Publishing/Bulk.antt =====
-- publishing/contextmanagers.py, `DraftChangeLogContext`, with publishing/api.py,
-- `bulk_draft_changes_for` and `reset_drafts_to_published`.
pub mod Rows
pub mod Reset
pub mod Guard
pub mod Members
pub mod Agreement
use openedx_core.Common.{
  ℕ, Bool, false, ◌&&◌, not, Option, none, some, List, [], ◌∷◌, ◌==◌, sql_eq, is_none, or_else,
  select,
}
use openedx_core.Publishing.Models.{BranchRow, ChangeLog, Store, draft}
use openedx_core.Publishing.Tables.{find_entity, version_of, records_of}
use openedx_core.Publishing.Logs.{
  World, create_side_effects_for_change_log, emit_event_for_change_log,
}
use openedx_core.Publishing.Drafts.{
  DraftOrId, get_active_draft_change_log, create_draft_change_log, set_draft_version,
}
use openedx_core.Publishing.Monad.{M, pure, gets, modify, ◌>>=◌, ◌>>◌}

-- `__enter__`. The database checks the foreign key to the package at the commit; leaving reads the
-- package before that, in `emit_event_for_change_log`, and raises DoesNotExist without it.
unfoldable pub enter : ℕ → ℕ → Option ℕ → M ChangeLog
enter lp changed_at changed_by = do
  log ← create_draft_change_log lp changed_at changed_by
  modify (λ s. record s { draft_change_logs = log ∷ s.draft_change_logs })
  pure log

abbrev pub pop : List ChangeLog → List ChangeLog
pop [] = []
pop (l ∷ ls) = ls

-- The `DraftChangeLog` is deleted if no record is left in it.
abbrev pub delete_if_empty : ℕ → Store → Store
delete_if_empty log s = elim (records_of log s.drafts.records) [
  | [] ↦ record s {
    drafts = record (s.drafts) {
      logs = select (λ (l : ChangeLog). not (l.id == log)) s.drafts.logs;
    };
  }
  | _ ∷ _ ↦ s
]

-- `__exit__` after a body that raised nothing, with the callbacks of `bulk_draft_changes_for`.
-- After an exception the transaction is rolled back and the stack is popped: an `err`. The callbacks
-- run then, too, on rows that are rolled back; an exception of theirs is not modelled.
pub leave_log : World → ChangeLog → ℕ → Option ℕ → M (Unit {0})
leave_log w log changed_at changed_by = do
  modify (λ s. record s { draft_change_logs = pop s.draft_change_logs })
  create_side_effects_for_change_log w draft log.id
  emit_event_for_change_log draft log changed_at changed_by
  modify (delete_if_empty log.id)

unfoldable pub leave : World → ℕ → Option ℕ → M (Unit {0})
unfolding leave_log
leave w changed_at changed_by = do
  stack ← gets (λ s. s.draft_change_logs)
  elim stack [ [] ↦ pure tt | log ∷ logs ↦ leave_log w log changed_at changed_by ]

-- `with bulk_draft_changes_for(…): body`
unfoldable pub bulk_draft_changes_for {ℓ} :
    {A : Type ℓ} → World → ℕ → Option ℕ → Option ℕ → M A → M A
unfolding enter leave
bulk_draft_changes_for w lp changed_by changed_at body = do
  let at = or_else changed_at w.now
  enter lp at changed_by
  result ← body
  leave w at changed_by
  pure result

-- The drafts that differ from what is published; NULL differs from NULL in SQL.
abbrev pub needs_reset : Store → ℕ → BranchRow → Bool
needs_reset s lp row = elim (find_entity row.entity s) [
  | none ↦ false
  | some e ↦
      let live = version_of row.entity s.publisheds.rows in
      (e.learning_package == lp)
      && (not (sql_eq live row.version) && not (is_none live && is_none row.version))
]

abbrev pub drafts_to_reset : ℕ → Store → List BranchRow
drafts_to_reset lp s = select (needs_reset s lp) s.drafts.rows

pub reset_all : World → List BranchRow → M (Unit {0})
reset_all w [] = pure tt
reset_all w (row ∷ rows) = do
  live ← gets (λ s. version_of row.entity s.publisheds.rows)
  set_draft_version w (DraftOrId.draft_object row) live none none
  reset_all w rows

unfoldable pub reset_drafts_to_published : World → ℕ → Option ℕ → Option ℕ → M (Unit {0})
unfolding reset_all bulk_draft_changes_for
reset_drafts_to_published w lp reset_at reset_by = do
  rows ← gets (drafts_to_reset lp)
  active ← gets (get_active_draft_change_log lp)
  elim rows [
    | [] ↦ pure tt
    | r ∷ rs ↦ elim active [
      | some _ ↦ reset_all w (r ∷ rs)
      | none ↦
          bulk_draft_changes_for w lp reset_by (some (or_else reset_at w.now))
            (reset_all w (r ∷ rs))
    ]
  ]
