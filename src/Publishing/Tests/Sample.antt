-- ===== src/Publishing/Tests/Sample.antt =====
-- A small learning package, and what runs of the publishing API on it unfold.
use openedx_core.Common.{ℕ, String, true, none, some, List, [], ◌∷◌}
use openedx_core.Publishing.Models.{
  PublishableEntity, PublishableEntityVersion, Dependency, BranchRow, LogRecord, Branch, Store,
}
use openedx_core.Publishing.Monad.{Result, ok, err}
use openedx_core.Publishing.SideEffects.{create_side_effects}
use openedx_core.Publishing.Hashes.{update_dependencies_hash_digests_for_log}
use openedx_core.Publishing.Logs.{
  World, create_side_effects_for_change_log, emit_event_for_change_log,
}
use openedx_core.Publishing.Drafts.{
  set_draft_version, get_active_draft_change_log, add_to_existing_draft_change_log,
}
use openedx_core.Publishing.Publish.{publish_from_drafts, publish_all_drafts}
use openedx_core.Publishing.Queries.{get_draft_version, get_published_version}

abbrev pub world : World
world = record { now = 100; blake2b = λ t n. t; clean_package = λ p. true; clean_log = λ l. true }

abbrev pub an_entity : ℕ → String → PublishableEntity
an_entity i ref = record {
  id = i;
  learning_package = 1;
  entity_ref = ref;
  created = 1;
  created_by = none;
  can_stand_alone = true;
}

abbrev pub a_version : ℕ → ℕ → ℕ → PublishableEntityVersion
a_version i e n = record {
  id = i;
  entity = e;
  version_num = n;
  title = "";
  created = 1;
  created_by = none;
}

abbrev pub a_row : ℕ → ℕ → BranchRow
a_row e v = record { entity = e; version = some v; log_record = none }

abbrev pub a_branch : List BranchRow → Branch
a_branch rows = record {
  rows = rows;
  logs = [];
  records = [];
  side_effects = [];
  next_log = 1;
  next_record = 1;
}

abbrev pub dependency : ℕ → ℕ → Dependency
dependency v e = record { referring_version = v; referenced_entity = e }

-- A problem (1) in a unit (2) in a subsection (3); the problem's draft is a version ahead.
abbrev pub store : Store
store = record {
  packages =
      (record {
        id = 1;
        package_ref = "lib:demo";
        title = "Demo";
        description = "";
        created = 1;
        updated = 1;
      })
      ∷ [];
  entities = an_entity 1 "problem" ∷ an_entity 2 "unit" ∷ an_entity 3 "subsection" ∷ [];
  versions = a_version 10 1 1 ∷ a_version 11 1 2 ∷ a_version 20 2 1 ∷ a_version 30 3 1 ∷ [];
  dependencies = dependency 20 1 ∷ dependency 30 2 ∷ [];
  drafts = a_branch (a_row 1 11 ∷ a_row 2 20 ∷ a_row 3 30 ∷ []);
  publisheds = a_branch (a_row 1 10 ∷ a_row 2 20 ∷ a_row 3 30 ∷ []);
  draft_change_logs = [];
  events = [];
  next_package = 2;
  next_entity = 4;
  next_version = 40;
}

unfoldable pub publishing : Unit {0}
unfolding create_side_effects update_dependencies_hash_digests_for_log
    create_side_effects_for_change_log emit_event_for_change_log set_draft_version
    get_active_draft_change_log add_to_existing_draft_change_log publish_from_drafts
    publish_all_drafts get_draft_version get_published_version
publishing = tt

abbrev pub store_of : {A : Type 0} → Result (A × Store) → Store
store_of (ok (a, s)) = s
store_of (err e) = store

abbrev pub records_entities : List LogRecord → List ℕ
records_entities [] = []
records_entities (r ∷ rs) = r.entity ∷ records_entities rs
