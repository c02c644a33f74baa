-- ===== src/Publishing/Tests/Publishes.antt =====
-- Side effects, publishes and histories at a small learning package.
use openedx_core.Common.{
  ◌≤◌, ◌<◌, ℕ, ◌≡◌, ◌⊎◌, refl, true, Option, none, some, List, [], ◌∷◌, All, Bool, ◌||◌, inl, inr,
  opt_eq, opt_eq_iff, select, arith, ◌==◌, Bool-cases, length,
}
use openedx_core.Publishing.Models.{BranchRow, ChangeLog, LogRecord, Branch, Store, draft}
use openedx_core.Publishing.Monad.{ok}
use openedx_core.Publishing.Tables.{depends, version_of}
use openedx_core.Publishing.SideEffects.{create_side_effects}
use openedx_core.Publishing.SideEffects.Termination.{create_side_effects_total}
use openedx_core.Publishing.SideEffects.Growth.{Grows, create_side_effects-Grows}
use openedx_core.Publishing.SideEffects.Closure.{create_side_effects-closed}
use openedx_core.Publishing.SideEffects.Worklist.{has_record}
use openedx_core.Publishing.Publish.{
  with_unpublished_changes, publish_from_drafts, publish_all_drafts, all_unpublished, QuerySet,
  crawl, only_unpublished, get_dependencies_with_unpublished_changes,
}
use openedx_core.Publishing.Publish.Layers.{Reaches, IsStable}
use openedx_core.Publishing.Publish.Dependencies.{publish_from_drafts_lem}
use openedx_core.Publishing.Publish.Crawl.{get_dependencies_total}
use openedx_core.Publishing.Publish.Circles.{IsCircle, crawl_endless}
use openedx_core.Publishing.Publish.Settled.{publish_all_drafts_lem}
use openedx_core.Publishing.Windows.{publish_history_entries_lem}
use openedx_core.Publishing.Queries.{
  changed_at, get_entity_publish_history_entries, get_draft_version, get_published_version,
}
use openedx_core.Publishing.Tests.Sample.{
  a_version, a_row, a_branch, dependency, world, store, publishing, store_of,
}

abbrev after_publish : Store
after_publish = store_of (publish_all_drafts world 1 "first" none none store)

abbrev first_publish : ChangeLog
first_publish = record { id = 1; learning_package = 1; message = "first"; at = 100; by = none }

publish_all_drafts_lem_example :
    (all_unpublished 1 after_publish ≡ [])
    × ((j : ℕ)
        → (get_published_version j after_publish ≡ get_draft_version j store)
          ⊎ (get_published_version j after_publish ≡ get_published_version j store))
unfolding publishing
publish_all_drafts_lem_example =
    publish_all_drafts_lem world 1 "first" none none store after_publish first_publish
      (refl, (refl, (refl, tt))) refl

-- The log 1 of a change of the problem.
abbrev changed_problem : Branch
changed_problem = record (store.drafts) {
  records =
      (record {
        id = 1;
        log = 1;
        entity = 1;
        old_version = some 10;
        new_version = some 11;
        dependencies_hash_digest = "";
        direct = none;
      })
      ∷ [];
  next_record = 2;
}

create_side_effects_total_example :
    (b' : Branch) × (create_side_effects draft store.dependencies 1 changed_problem ≡ some b')
create_side_effects_total_example =
    create_side_effects_total draft store.dependencies 1 changed_problem

abbrev branch_or : Branch → Option Branch → Branch
branch_or b none = b
branch_or b (some b') = b'

abbrev seen_above : Branch
seen_above =
    branch_or changed_problem (create_side_effects draft store.dependencies 1 changed_problem)

create_side_effects-closed_example :
    ((e : ℕ)
      → has_record 1 seen_above.records e ≡ true
      → All
          (λ (r : BranchRow).
            depends r.version e store.dependencies ≡ true
            → has_record 1 seen_above.records r.entity ≡ true)
          seen_above.rows)
    × ((j : ℕ) → version_of j seen_above.rows ≡ version_of j changed_problem.rows)
unfolding publishing
create_side_effects-closed_example =
    create_side_effects-closed draft store.dependencies 1 changed_problem seen_above refl

abbrev the_subsection : QuerySet
the_subsection s = select (λ (r : BranchRow). r.entity == 3) s.drafts.rows

get_dependencies_total_example :
    (layers : List QuerySet) × (get_dependencies_with_unpublished_changes the_subsection store
      ≡ ok (only_unpublished layers, store))
    × (length layers ≤ length store.drafts.rows)
get_dependencies_total_example =
    get_dependencies_total store (λ e. e) the_subsection
      ((λ e h. ground arith), ((λ e h. ground arith), ((λ e h. ground arith), tt)))

-- The unit shows the subsection too.
abbrev circular : Store
circular = record store { dependencies = dependency 20 3 ∷ dependency 20 1 ∷ dependency 30 2 ∷ [] }

abbrev in_circle : BranchRow → Bool
in_circle r = opt_eq r.version (some 20) || opt_eq r.version (some 30)

circular-IsCircle : IsCircle circular in_circle
circular-IsCircle r h = elim (Bool-cases (opt_eq r.version (some 20))) [
  | inl unit ↦ let v = (opt_eq_iff r.version (some 20)).0 unit in rw v refl
  | inr other ↦
      let v : r.version ≡ some 30 = (opt_eq_iff r.version (some 30)).0 (ground arith) in rw v refl
]

crawl_endless_example : crawl 1000 the_subsection circular ≡ none
crawl_endless_example = crawl_endless circular in_circle circular-IsCircle 1000 the_subsection refl

-- The problem is changed twice, published, deleted, and published again.
abbrev a_log : ℕ → ℕ → ChangeLog
a_log i at = record { id = i; learning_package = 1; message = ""; at = at; by = none }

abbrev a_record : (i log : ℕ) → (old new : Option ℕ) → LogRecord
a_record i log old new = record {
  id = i;
  log = log;
  entity = 1;
  old_version = old;
  new_version = new;
  dependencies_hash_digest = "";
  direct = none;
}

abbrev published_twice : Store
published_twice = record store {
  drafts = record (store.drafts) {
    logs = a_log 1 30 ∷ a_log 2 40 ∷ a_log 3 150 ∷ [];
    records =
        a_record 1 1 none (some 10)
        ∷ a_record 2 2 (some 10) (some 11)
        ∷ a_record 3 3 (some 11) none
        ∷ [];
  };
  publisheds = record (store.publisheds) {
    logs = a_log 1 100 ∷ a_log 2 200 ∷ [];
    records = a_record 1 1 none (some 11) ∷ a_record 2 2 (some 11) none ∷ [];
  };
}

abbrev first_changes : List LogRecord
first_changes = a_record 2 2 (some 10) (some 11) ∷ a_record 1 1 none (some 10) ∷ []

abbrev second_changes : List LogRecord
second_changes = a_record 3 3 (some 11) none ∷ []

publish_history_entries_lem_example :
    All (λ (x : LogRecord). changed_at published_twice x ≤ 100) first_changes
    × All
        (λ (x : LogRecord).
          (100 < changed_at published_twice x) × (changed_at published_twice x ≤ 200))
        second_changes
unfolding get_entity_publish_history_entries
publish_history_entries_lem_example =
    publish_history_entries_lem published_twice 1 1 2 (a_record 1 1 none (some 11))
      (a_record 2 2 (some 11) none) first_changes second_changes refl refl (omega arith) refl refl

-- The unit has a new draft version as well, which shows the changed problem.
abbrev both_changed : Store
both_changed = record store {
  versions = a_version 21 2 2 ∷ store.versions;
  dependencies = dependency 21 1 ∷ store.dependencies;
  drafts = a_branch (a_row 1 11 ∷ a_row 2 21 ∷ a_row 3 30 ∷ []);
}

abbrev the_unit : QuerySet
the_unit s = select (λ (r : BranchRow). r.entity == 2) s.drafts.rows

abbrev published_problem : QuerySet → Option ℕ
published_problem q =
    get_published_version 1
      (store_of (publish_from_drafts world 1 q "" none none true both_changed))

-- The problem is published with the unit, but not if the query set is restricted to the changed
-- drafts: its subquery is run again when the unit is published already.
lazy_layers :
    (published_problem the_unit ≡ some 11)
    × (published_problem (with_unpublished_changes the_unit) ≡ some 10)
unfolding publishing
lazy_layers = (refl, refl)

the_unit-IsStable : IsStable store the_unit
the_unit-IsStable t drafts entities dependencies =
    λ i. select (λ (r : BranchRow). r.entity == 2) (drafts i).rows

abbrev unit_published : Store
unit_published = store_of (publish_from_drafts world 1 the_unit "first" none none true store)

publish_from_drafts_lem_example : get_published_version 1 unit_published ≡ get_draft_version 1 store
unfolding publishing
publish_from_drafts_lem_example =
    publish_from_drafts_lem world 1 the_unit "first" none none store unit_published first_publish
      ((refl, (refl, tt)), ((refl, tt), (tt, tt))) the_unit-IsStable (refl, tt) refl 1
      (Reaches.there (Reaches.here refl))

create_side_effects-Grows_example : Grows 1 changed_problem.records seen_above.records
unfolding publishing
create_side_effects-Grows_example =
    create_side_effects-Grows draft store.dependencies 1 changed_problem seen_above refl
