-- ===== src/Publishing/Tables.antt =====
-- Lookups and writes of single rows, as Django's ORM makes them for publishing/api.py, and the
-- constraints of the models: unique keys and foreign keys.
pub mod Laws
use openedx_core.Common.{
  ℕ, suc, Bool, false, ◌&&◌, ◌||◌, not, Option, none, some, List, [], ◌∷◌, ◌++◌, ◌==◌,
  if◌then◌else◌, opt_eq, select, find, any, update_where,
}
use openedx_core.Publishing.Models.{
  PublishableEntity, PublishableEntityVersion, Dependency, BranchRow, ChangeLog, LogRecord,
  SideEffect, Branch, Store,
}
use openedx_core.Publishing.Monad.{M, gets, modify, raise_if, restricted_error, ◌>>=◌, ◌>>◌}

abbrev pub find_entity : ℕ → Store → Option PublishableEntity
find_entity e s = find (λ x. x.id == e) s.entities

abbrev pub find_version : ℕ → Store → Option PublishableEntityVersion
find_version v s = find (λ x. x.id == v) s.versions

abbrev pub find_row : ℕ → List BranchRow → Option BranchRow
find_row e rows = find (λ r. r.entity == e) rows

-- The current version of an entity: none without a row, and none after a soft delete.
abbrev pub version_of : ℕ → List BranchRow → Option ℕ
version_of e [] = none
version_of e (r ∷ rows) = if r.entity == e then r.version else version_of e rows

-- `Draft.save()`, or `update_or_create`: the row of that entity is written over, or added.
abbrev pub save_row : BranchRow → List BranchRow → List BranchRow
save_row row [] = row ∷ []
save_row row (r ∷ rows) = if r.entity == row.entity then row ∷ rows else r ∷ save_row row rows

-- An UPDATE of the `log_record` column of the row of one entity.
abbrev pub point_row : ℕ → Option ℕ → List BranchRow → List BranchRow
point_row e log_record =
    update_where (λ r. r.entity == e) (λ r. record r { log_record = log_record })

abbrev pub add_record : LogRecord → Branch → Branch
add_record r b = record b { records = b.records ++ r ∷ []; next_record = suc b.next_record }

abbrev pub add_log : ChangeLog → Branch → Branch
add_log l b = record b { logs = b.logs ++ l ∷ []; next_log = suc b.next_log }

-- The unique key (log, entity) of the records.
abbrev pub record_key : ℕ → ℕ → LogRecord → Bool
record_key log e r = (r.log == log) && (r.entity == e)

abbrev pub find_record : ℕ → ℕ → List LogRecord → Option LogRecord
find_record log e = find (record_key log e)

abbrev pub records_of : ℕ → List LogRecord → List LogRecord
records_of log = select (λ r. r.log == log)

abbrev pub set_new_version : ℕ → Option ℕ → List LogRecord → List LogRecord
set_new_version i v = update_where (λ r. r.id == i) (λ r. record r { new_version = v })

-- `change.delete()`: refused if a side effect refers to the record, and the drafts that point to
-- it lose the pointer (RESTRICT and SET_NULL).
abbrev pub refers_to : ℕ → SideEffect → Bool
refers_to i x = (x.cause == i) || (x.effect == i)

abbrev pub drop_record : ℕ → Branch → Branch
drop_record i b = record b {
  records = select (λ r. not (r.id == i)) b.records;
  rows =
      update_where (λ (r : BranchRow). opt_eq r.log_record (some i))
        (λ r. record r { log_record = none }) b.rows;
}

abbrev pub delete_record : ℕ → M (Unit {0})
delete_record i = do
  raise_if (any (refers_to i) (← gets (λ s. s.drafts.side_effects))) restricted_error
  modify (λ s. record s { drafts = drop_record i s.drafts })

-- The entities that the given versions depend on, and the rows that hold a given dependency.
abbrev pub depends : Option ℕ → ℕ → List Dependency → Bool
depends none e deps = false
depends (some v) e deps = any (λ d. (d.referring_version == v) && (d.referenced_entity == e)) deps

-- `Branch.objects.filter(version__dependencies=entity)`
abbrev pub rows_affected_by : ℕ → List Dependency → List BranchRow → List BranchRow
rows_affected_by e deps = select (λ r. depends r.version e deps)
