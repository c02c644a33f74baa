-- ===== src/Publishing/Publish.antt =====
-- publishing/api.py: `publish_from_drafts`, `publish_all_drafts` and the crawl of the dependencies.
-- A QuerySet is lazy: it is a query, which is run anew against the store whenever it is read.
pub mod Outcome
pub mod Crawl
pub mod Circles
pub mod FromDrafts
pub mod Settled
pub mod Layers
pub mod Covers
pub mod Dependencies
use openedx_core.Common.{
  ℕ, zero, suc, ◌+◌, String, Bool, true, false, ◌&&◌, not, ◌||◌, Option, none, some, List, [], ◌∷◌,
  ◌++◌, map, ◌==◌, if◌then◌else◌, sql_eq, is_none, or_else, select, find, any, elem, length,
}
use openedx_core.Publishing.Models.{
  Dependency, BranchRow, ChangeLog, LogRecord, Branch, Store, published,
}
use openedx_core.Publishing.Tables.{
  find_entity, find_row, version_of, save_row, add_record, add_log, depends,
}
use openedx_core.Publishing.Logs.{
  World, create_side_effects_for_change_log, emit_event_for_change_log, find_package,
}
use openedx_core.Publishing.Drafts.{get_active_draft_change_log}
use openedx_core.Publishing.Monad.{
  M, pure, raise, gets, get_or_raise, modify, raise_if, validation_error, does_not_exist, endless,
  ◌>>=◌, ◌>>◌,
}

abbrev pub QuerySet : Type 0
QuerySet = Store → List BranchRow

-- `Draft.objects.with_unpublished_changes()`
abbrev pub is_unpublished : Store → BranchRow → Bool
is_unpublished s row =
    let live = version_of row.entity s.publisheds.rows in
    not (sql_eq live row.version) && not (is_none row.version && is_none live)

abbrev pub with_unpublished_changes : QuerySet → QuerySet
with_unpublished_changes q s = select (is_unpublished s) (q s)

abbrev pub affects_any : List BranchRow → List Dependency → ℕ → Bool
affects_any rows deps e = any (λ (r : BranchRow). depends r.version e deps) rows

-- `Draft.objects.filter(entity__affects__in=qset.values_list("version_id")).distinct()`
abbrev pub dependency_drafts : QuerySet → QuerySet
dependency_drafts q s =
    select (λ (r : BranchRow). affects_any (q s) s.dependencies r.entity) s.drafts.rows

-- The `while` loop: one query for each layer of dependencies, until a layer is empty.
pub crawl : ℕ → QuerySet → Store → Option (List QuerySet)
crawl zero q s = elim (q s) [ [] ↦ some [] | _ ∷ _ ↦ none ]
crawl (suc fuel) q s =
    let rest = crawl fuel (dependency_drafts q) s in
    elim (q s) [ [] ↦ some [] | _ ∷ _ ↦ elim rest [ none ↦ none | some qs ↦ some (q ∷ qs) ] ]

abbrev pub only_unpublished : List QuerySet → List QuerySet
only_unpublished [] = []
only_unpublished (q ∷ qs) = with_unpublished_changes q ∷ only_unpublished qs

-- As many layers as there are drafts, if no entity depends on itself through others.
pub get_dependencies_with_unpublished_changes : QuerySet → M (List QuerySet)
unfolding crawl
get_dependencies_with_unpublished_changes q = do
  layers ← gets (λ s. crawl (length s.drafts.rows) (dependency_drafts q) s)
  qs ← get_or_raise layers endless
  pure (only_unpublished qs)

-- The drafts of a learning package.
abbrev pub in_package : Store → ℕ → BranchRow → Bool
in_package s lp row = elim (find_entity row.entity s) [
  | none ↦ false
  | some e ↦ e.learning_package == lp
]

abbrev pub ids : List BranchRow → List ℕ
ids [] = []
ids (r ∷ rows) = r.entity ∷ ids rows

abbrev pub publish_record : ℕ → BranchRow → Option ℕ → Bool → Branch → LogRecord
publish_record log row old direct b = record {
  id = b.next_record;
  log = log;
  entity = row.entity;
  old_version = old;
  new_version = row.version;
  dependencies_hash_digest = "";
  direct = some direct;
}

abbrev pub published_row : BranchRow → ℕ → BranchRow
published_row row i = record { entity = row.entity; version = row.version; log_record = some i }

-- The record of one published draft, and `Published.objects.update_or_create`.
pub publish_row : ℕ → BranchRow → Bool → Branch → Branch
publish_row log row direct b =
    let r = publish_record log row (version_of row.entity b.rows) direct b in
    record (add_record r b) { rows = save_row (published_row row r.id) b.rows }

-- The body of the inner loop. `done` is `published_draft_ids`.
pub publish_draft : ℕ → ℕ → List ℕ → List ℕ → BranchRow → M (List ℕ)
unfolding publish_row
publish_draft lp log direct_ids done row = if elem row.entity done then pure done else do
  entity ← get_or_raise (← gets (find_entity row.entity)) does_not_exist
  raise_if (not (entity.learning_package == lp)) validation_error
  modify
      (λ s. record s { publisheds = publish_row log row (elem row.entity direct_ids) s.publisheds })
  pure (row.entity ∷ done)

pub publish_rows : ℕ → ℕ → List ℕ → List ℕ → List BranchRow → M (List ℕ)
unfolding publish_draft
publish_rows lp log direct_ids done [] = pure done
publish_rows lp log direct_ids done (row ∷ rows) = do
  done' ← publish_draft lp log direct_ids done row
  publish_rows lp log direct_ids done' rows

-- Each query set is read when its turn comes.
pub publish_query_sets : ℕ → ℕ → List ℕ → List ℕ → List QuerySet → M (List ℕ)
unfolding publish_rows
publish_query_sets lp log direct_ids done [] = pure done
publish_query_sets lp log direct_ids done (q ∷ qs) = do
  rows ← gets q
  done' ← publish_rows lp log direct_ids done rows
  publish_query_sets lp log direct_ids done' qs

abbrev pub never_published : Store → BranchRow → Bool
never_published s row = is_none (find_row row.entity s.publisheds.rows)

-- The query sets of the dependencies, or the check that all of them have been published.
pub dependency_query_sets : QuerySet → Bool → M (List QuerySet)
unfolding get_dependencies_with_unpublished_changes
dependency_query_sets q true = get_dependencies_with_unpublished_changes q
dependency_query_sets q false = do
  bad ← gets (λ s. any (never_published s) (dependency_drafts q s))
  raise_if bad validation_error
  pure []

-- `publish_log.full_clean(); publish_log.save()`
pub create_publish_log : World → ℕ → String → ℕ → Option ℕ → M ChangeLog
create_publish_log w lp message published_at published_by = do
  i ← gets (λ s. s.publisheds.next_log)
  owner ← gets (find_package lp)
  let log : ChangeLog = record {
    id = i;
    learning_package = lp;
    message = message;
    at = published_at;
    by = published_by;
  }
  raise_if (is_none owner || not (w.clean_log log)) validation_error
  modify (λ s. record s { publisheds = add_log log s.publisheds })
  pure log

unfoldable pub publish_from_drafts :
    World → ℕ → QuerySet → String → Option ℕ → Option ℕ → Bool → M ChangeLog
unfolding dependency_query_sets create_publish_log publish_query_sets
publish_from_drafts w lp q message published_at published_by publish_dependencies = do
  active ← gets (get_active_draft_change_log lp)
  raise_if (not (is_none active)) validation_error
  let at = or_else published_at w.now
  layers ← dependency_query_sets q publish_dependencies
  direct ← gets q
  log ← create_publish_log w lp message at published_by
  publish_query_sets lp log.id (ids direct) [] (q ∷ layers)
  create_side_effects_for_change_log w published log.id
  emit_event_for_change_log published log at published_by
  pure log

abbrev pub all_unpublished : ℕ → QuerySet
all_unpublished lp = with_unpublished_changes (λ s. select (in_package s lp) s.drafts.rows)

unfoldable pub publish_all_drafts : World → ℕ → String → Option ℕ → Option ℕ → M ChangeLog
publish_all_drafts w lp message published_at published_by =
    publish_from_drafts w lp (all_unpublished lp) message published_at published_by true
