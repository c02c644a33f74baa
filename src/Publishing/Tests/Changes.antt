-- ===== src/Publishing/Tests/Changes.antt =====
-- Changes of drafts at a small learning package, alone and in bulk.
use openedx_core.Common.{
  if◌then◌else◌, ℕ, ◌≡◌, ◌≢◌, refl, true, Option, none, some, List, [], ◌∷◌, All, elem, is_none,
  not, false, ◌&&◌,
}
use openedx_core.Publishing.Models.{PublishableEntityVersion, BranchRow, ChangeLog, Store}
use openedx_core.Publishing.Monad.{ok, err, validation_error}
use openedx_core.Publishing.Drafts.{entity_id, draft_object, set_draft_version}
use openedx_core.Publishing.Drafts.Set.{set_draft_version_lem}
use openedx_core.Publishing.Publish.{
  publish_from_drafts, publish_all_drafts, all_unpublished, in_package,
}
use openedx_core.Publishing.Drafts.Compaction.{IsNet}
use openedx_core.Publishing.Drafts.Sequence.{change_all, change_all_lem}
use openedx_core.Publishing.Bulk.Agreement.{entity_ids, draft_entities, unpublished_lem}
use openedx_core.Publishing.Bulk.{
  drafts_to_reset, enter, leave, bulk_draft_changes_for, reset_drafts_to_published,
}
use openedx_core.Publishing.Bulk.Reset.{reset_drafts_lem}
use openedx_core.Publishing.Bulk.Guard.{publish_in_bulk}
use openedx_core.Publishing.Queries.{
  get_entities_with_unpublished_changes, get_draft_version, get_published_version,
}
use openedx_core.Publishing.Entities.{create_publishable_entity_version}
use openedx_core.Publishing.Entities.Versions.{IsMade, create_version_lem}
use openedx_core.Publishing.Tables.{find_row}
use openedx_core.Publishing.Tests.Sample.{
  world, an_entity, a_version, a_row, store, publishing, store_of, records_entities,
}

-- The change of the problem is seen in the unit and the subsection.
set_back :
    records_entities
      (store_of (set_draft_version world (entity_id 1) (some 10) none none store)).drafts.records
    ≡ 1 ∷ 2 ∷ 3 ∷ []
unfolding publishing
set_back = refl

-- The problem's draft as a `Draft` object.
abbrev after_set_back : Store
after_set_back =
    store_of (set_draft_version world (draft_object (a_row 1 11)) (some 10) none none store)

set_draft_version_lem_example :
    (get_draft_version 1 after_set_back ≡ some 10)
    × ((j : ℕ) → 1 ≢ j → get_draft_version j after_set_back ≡ get_draft_version j store)
    × (after_set_back.publisheds ≡ store.publisheds)
unfolding publishing
set_draft_version_lem_example =
    set_draft_version_lem world (draft_object (a_row 1 11)) 1 (some 10) none none store
      after_set_back (refl, refl) refl

-- A stale object that has the version already: nothing is written.
stale_stays :
    set_draft_version world (draft_object (a_row 1 10)) (some 10) none none store ≡ ok (tt, store)
unfolding publishing
stale_stays = refl

abbrev bulk_log : ChangeLog
bulk_log = record { id = 1; learning_package = 1; message = ""; at = 5; by = none }

abbrev in_bulk : Store
in_bulk = store_of (enter 1 5 none store)

-- The problem goes back and forth, and the unit is deleted.
abbrev some_changes : List (ℕ × Option ℕ)
some_changes = (1, some 10) ∷ (2, none) ∷ (1, some 11) ∷ []

abbrev after_changes : Store
after_changes = store_of (change_all world some_changes in_bulk)

one_record : records_entities after_changes.drafts.records ≡ 2 ∷ []
unfolding publishing enter
one_record = refl

change_all_lem_example :
    (s' : Store) × (change_all world some_changes in_bulk ≡ ok (tt, s'))
    × ((e : ℕ) → IsNet 1 e s'.drafts.records (get_draft_version e in_bulk) (get_draft_version e s'))
unfolding publishing enter
change_all_lem_example =
    change_all_lem world bulk_log some_changes in_bulk refl refl (tt, tt) tt
      (
        ((an_entity 1 "problem", refl, refl), (a_version 10 1 1, refl, refl)),
        (
          ((an_entity 2 "unit", refl, refl), tt),
          (((an_entity 1 "problem", refl, refl), (a_version 11 1 2, refl, refl)), tt),
        ),
      )

abbrev after_reset : Store
after_reset = store_of (reset_drafts_to_published world 1 none none store)

reset_drafts_lem_example :
    All
      (λ (r : BranchRow). get_draft_version r.entity after_reset ≡ (
        if in_package store 1 r
        then get_published_version r.entity store
        else get_draft_version r.entity store))
      store.drafts.rows
    × (after_reset.publisheds ≡ store.publisheds)
unfolding publishing reset_drafts_to_published bulk_draft_changes_for enter leave
reset_drafts_lem_example =
    reset_drafts_lem world 1 none none store after_reset
      ((refl, (refl, tt)), ((refl, tt), (tt, tt))) refl

publish_in_bulk_example :
    (bulk_draft_changes_for world 1 none none
        (publish_from_drafts world 1 (all_unpublished 1) "" none none true)
        store
      ≡ err validation_error)
    × (bulk_draft_changes_for world 1 none none (publish_all_drafts world 1 "" none none) store
        ≡ err validation_error)
publish_in_bulk_example =
    publish_in_bulk world 1 none none (all_unpublished 1) "" none none true store

abbrev after_creation : Store
after_creation =
    store_of (create_publishable_entity_version world 2 2 "Unit" 50 none (1 ∷ 1 ∷ []) in_bulk)

abbrev new_version : PublishableEntityVersion
new_version = record {
  id = 40;
  entity = 2;
  version_num = 2;
  title = "Unit";
  created = 50;
  created_by = none;
}

create_version_lem_example : IsMade 2 2 (1 ∷ 1 ∷ []) in_bulk new_version after_creation
unfolding publishing enter create_publishable_entity_version
create_version_lem_example =
    create_version_lem world 2 2 "Unit" 50 none (1 ∷ 1 ∷ []) in_bulk after_creation new_version
      (refl, (refl, (refl, (refl, tt)))) (refl, (refl, tt)) refl

unpublished_lem_example :
    (drafts_to_reset 1 store ≡ all_unpublished 1 store)
    × ((i : ℕ) (r : BranchRow)
        → find_row i store.drafts.rows ≡ some r
        → (elem i (entity_ids (get_entities_with_unpublished_changes 1 true store))
            ≡ elem i (draft_entities (all_unpublished 1 store)))
          × (elem i (entity_ids (get_entities_with_unpublished_changes 1 false store))
              ≡ (elem i (draft_entities (all_unpublished 1 store)) && not (is_none r.version))))
unpublished_lem_example =
    unpublished_lem 1 store ((refl, (refl, tt)), ((refl, tt), (tt, tt)))
      ((refl, (refl, tt)), ((refl, tt), (tt, tt)))
