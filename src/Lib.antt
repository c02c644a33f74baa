-- ===== src/Lib.antt =====
-- Open edX core: a model of the publishing app, openedx_content/applets/publishing, and of the
-- tagging app, openedx_tagging.
--
-- The program keeps learning packages of publishable entities (problems, units, ...) in a database
-- through Django's ORM. An entity has versions, which are never changed once made. A version may
-- depend on other entities, whose current versions it shows. The `Draft` of an entity names the
-- version that authors see, and its `Published` the one that learners see. Changes of drafts and
-- publishes are written to logs with one record for each entity. What depends on a changed entity,
-- directly or through others, gets a record and a side effect in the same log, and a digest of the
-- state of its dependencies.
--
-- The source is src/openedx_content/applets/publishing (api.py, contextmanagers.py, signals.py and
-- models/). The files and what they model:
--   Common                 tests on numbers and options, lists, texts
--   Publishing/Models      the tables of models/ as the rows of a `Store`. A `Branch` is the four
--                          tables of the drafts or those of what is published
--   Publishing/Monad       calls as state passing with exceptions. An `err` writes nothing, as the
--                          functions of api.py run under `atomic()`
--   Publishing/Ensures     postconditions of calls, and the rules to chain them
--   Publishing/Tables      lookups, inserts and updates of rows, with their constraints
--   Publishing/SideEffects `_create_side_effects_for_change_log` without the digests
--   Publishing/Hashes      `update_dependencies_hash_digests_for_log` and `hash_for_log_record`
--   Publishing/Logs        the two together, and `_emit_event_for_change_log`
--   Publishing/Drafts      `set_draft_version`, `soft_delete_draft`,
--                          `_add_to_existing_draft_change_log`
--   Publishing/Bulk        contextmanagers.py, `bulk_draft_changes_for`,
--                          `reset_drafts_to_published`
--   Publishing/Entities    `create_learning_package`, `update_learning_package`,
--                          `create_publishable_entity`, `create_publishable_entity_version`,
--                          `set_version_dependencies`
--   Publishing/Publish     `publish_from_drafts`, `publish_all_drafts` and the crawl of the
--                          dependencies
--   Publishing/Queries     the other `get_` functions, and `filter_publishable_entities`
--   Publishing/Windows     the windows of time of the publish history
--   Publishing/Tests       a small package, and the theorems at it
-- src/openedx_tagging keeps taxonomies of tags. The tags of a taxonomy are trees: each row names
-- its parent, and has its depth and its lineage, the values from the root to itself with a TAB
-- after each. A save sets these two, and an UPDATE carries a change on to the rows below. Content
-- is tagged by rows that link an object's identifier to a tag, and keep the tag's value.
--   Tagging/Str            texts as lists of code points, with Python's strip, split and prefixes
--   Tagging/Models         the rows of models/base.py, and the tables
--   Tagging/Monad          calls with exceptions that keep what was written before them
--   Tagging/ExternalIds    models/utils.py, and the search of a free external id
--   Tagging/Save           `Tag.clean` and `Tag.save`, with the constraints of the table
--   Tagging/Taxonomies     the methods of `Taxonomy` on its tags, `get_lineage` and the counts
--   Tagging/Objects        `ObjectTag`: its constructor, properties, `clean` and `resync`
--   Tagging/Api            api.py: `tag_object`, `resync_object_tags` and the calls that change a
--                          taxonomy and resync its rows
--   Tagging/Copies         `get_object_tags`, `copy_tags`, `delete_object_tags`
--   Tagging/Counts         `add_usage_counts`
--   Tagging/Tallies        `get_object_tag_counts`
--   Tagging/Tests          a small taxonomy, and the theorems at it
-- The modules below each of these hold its lemmas and theorems.
--
-- The drafts call the logs, the logs the side effects and the hashes. The bulk context puts a log
-- on a stack, where `set_draft_version` finds it, and calls the logs when it is left. A publish is
-- refused while such a log is on the stack.
--
-- Loops. The worklist of the side effects runs on fuel, a power of the number of rows that is
-- enough for every graph of dependencies (Publishing/SideEffects/Termination). The crawl of the
-- dependencies of a publish has no guard against cycles in the code. Its fuel is the number of
-- drafts, and more layers than that mean a cycle (Publishing/Publish/Crawl and Circles): then the
-- call is the error `endless`. The recursion of the hash digests is bounded by the number of rows
-- as well, and a deeper one is Python's RecursionError. But for two loops over tags (below), all others are
-- structural.
--
-- From outside: the clock, hashlib's `blake2b` and the field validators of Django's `full_clean`
-- are the fields of the record `World`. Primary keys count up, the order of a table is the order of
-- the primary keys, and an `order_by` is stable. A datetime is a number. Events are kept in the
-- order in which they are queued for the commit.
--
-- The comparison of a case-insensitive column (by a key for each text), the comparison of characters
-- by LIKE, the order of texts, SQL's `Lower` and `str.casefold` are the fields of the record
-- `Database`. Plain columns, such as the export id of a taxonomy, are compared exactly.
--
-- The loop over the candidates of an external id has as fuel one more than the ids in the taxonomy
-- (Tagging/ExternalIds/Searches); the cascade of a deletion of tags, one more than the tags
-- (Tagging/Taxonomies/Closure).
--
-- The foreign key of a draft change log to its package is checked when the transaction commits. The
-- bulk context reads the package before that, when it is left, and raises DoesNotExist without it.
--
-- Not modelled: an exception of the callbacks that `DraftChangeLogContext` runs after an exception of
-- its body (what they write is rolled back), uuids, users as rows, the Django model mixins and the
-- admin, and the other apps: containers, components, media, collections, backup_restore, catalog and
-- learning; of the tagging app the filtered tag lists, `create_taxonomy`, `get_taxonomies`, the import
-- and export, and the REST API.
pub mod Common
pub mod Publishing
pub mod Tagging
