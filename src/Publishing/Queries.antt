-- ===== src/Publishing/Queries.antt =====
-- publishing/api.py, the queries: entities by their state, and the histories of drafts and publishes.
use openedx_core.Common.{
  ℕ, Bool, true, false, ◌&&◌, ◌||◌, not, Option, none, some, List, [], ◌∷◌, ◌==◌, if◌then◌else◌,
  ltb, leb, opt_eq, sql_eq, is_none, or_else, select, find, head?, distinct, order_desc,
}
use openedx_core.Publishing.Models.{PublishableEntity, BranchRow, ChangeLog, LogRecord, Store}
use openedx_core.Publishing.Tables.{find_row, version_of, record_key}
use openedx_core.Publishing.Logs.{version_num_of}
use openedx_core.Publishing.Publish.{in_package}
use openedx_core.Publishing.Monad.{Result, ok, err, does_not_exist}

pub get_last_publish : ℕ → Store → Option ChangeLog
get_last_publish lp s = head? (
    order_desc (λ (l : ChangeLog). l.id)
      (select (λ (l : ChangeLog). l.learning_package == lp) s.publisheds.logs))

pub get_all_drafts : ℕ → Store → List BranchRow
get_all_drafts lp s =
    select (λ (r : BranchRow). in_package s lp r && not (is_none r.version)) s.drafts.rows

abbrev pub package_entities : ℕ → Store → List PublishableEntity
package_entities lp s = select (λ (e : PublishableEntity). e.learning_package == lp) s.entities

-- `get_draft_version` and `get_published_version`
unfoldable pub get_draft_version : ℕ → Store → Option ℕ
get_draft_version e s = version_of e s.drafts.rows

unfoldable pub get_published_version : ℕ → Store → Option ℕ
get_published_version e s = version_of e s.publisheds.rows

-- Entities whose draft is not what is published, by SQL's comparison.
abbrev pub has_changes : Store → Bool → PublishableEntity → Bool
has_changes s include_deleted e =
    let edited = version_of e.id s.drafts.rows in
    let live = version_of e.id s.publisheds.rows in
    not (sql_eq edited live)
    && (if include_deleted then not (is_none edited && is_none live) else not (is_none edited))

unfoldable pub get_entities_with_unpublished_changes : ℕ → Bool → Store → List PublishableEntity
get_entities_with_unpublished_changes lp include_deleted_drafts s =
    select (has_changes s include_deleted_drafts) (package_entities lp s)

abbrev pub has_delete : Store → PublishableEntity → Bool
has_delete s e =
    is_none (version_of e.id s.drafts.rows) && not (is_none (version_of e.id s.publisheds.rows))

pub get_entities_with_unpublished_deletes : ℕ → Store → List PublishableEntity
get_entities_with_unpublished_deletes lp s = select (has_delete s) (package_entities lp s)

-- `filter(…__isnull=not flag)`, which is left out for `None`.
abbrev pub flag_holds : Option Bool → Option ℕ → Bool
flag_holds none v = true
flag_holds (some flag) v = if flag then not (is_none v) else is_none v

pub filter_publishable_entities :
    Option Bool → Option Bool → Store → List PublishableEntity → List PublishableEntity
filter_publishable_entities has_draft has_published s = select (λ (e : PublishableEntity).
    flag_holds has_draft (version_of e.id s.drafts.rows)
    && flag_holds has_published (version_of e.id s.publisheds.rows))

-- The time of the log of a record.
abbrev pub log_at : List ChangeLog → ℕ → ℕ
log_at logs i = elim (find (λ (l : ChangeLog). l.id == i) logs) [ none ↦ 0 | some l ↦ l.at ]

abbrev pub changed_at : Store → LogRecord → ℕ
changed_at s r = log_at s.drafts.logs r.log

abbrev pub published_at : Store → LogRecord → ℕ
published_at s r = log_at s.publisheds.logs r.log

abbrev pub records_for : ℕ → List LogRecord → List LogRecord
records_for e = select (λ (r : LogRecord). r.entity == e)

-- `published.publish_log_record.publish_log.published_at`, with the published version.
abbrev pub last_published : ℕ → Store → Option (ℕ × Option ℕ)
last_published e s = elim (find_row e s.publisheds.rows) [
  | none ↦ none
  | some row ↦ elim row.log_record [
    | none ↦ none
    | some i ↦ elim (find (λ (r : LogRecord). r.id == i) s.publisheds.records) [
      | none ↦ none
      | some r ↦ some (published_at s r, row.version)
    ]
  ]
]

-- The time of the latest record that set the draft to `version`, within the bounds.
abbrev pub last_reset_at : Store → Option ℕ → (LogRecord → Bool) → List LogRecord → Option ℕ
last_reset_at s version within rs =
    elim (head? (
      order_desc (changed_at s)
        (select (λ (r : LogRecord). opt_eq r.new_version version && within r) rs))) [
          | none ↦ none
          | some r ↦ some (changed_at s r)
        ]

abbrev pub changed_after : Store → ℕ → LogRecord → Bool
changed_after s t r = ltb t (changed_at s r)

pub get_entity_draft_history : ℕ → Store → List LogRecord
get_entity_draft_history e s =
    let qs = order_desc (changed_at s) (records_for e s.drafts.records) in
    elim (last_published e s) [
      | none ↦ qs
      | some (at, version) ↦
          let reset =
            last_reset_at s version (changed_after s at) (records_for e s.drafts.records) in
          select (changed_after s (or_else reset at)) qs
    ]

pub get_entity_publish_history : ℕ → Store → List LogRecord
get_entity_publish_history e s = order_desc (published_at s) (records_for e s.publisheds.records)

-- The last publish of the entity before a time.
abbrev pub previous_publish : ℕ → ℕ → Store → Option LogRecord
previous_publish e at s = head? (
    order_desc (published_at s)
      (select (λ (r : LogRecord). ltb (published_at s r) at) (records_for e s.publisheds.records)))

-- `changed_at > prev_published_at`, if there is an earlier publish.
abbrev pub after_previous : Store → Option LogRecord → LogRecord → Bool
after_previous s none r = true
after_previous s (some p) r = changed_after s (published_at s p) r

abbrev pub within_window : Store → Option LogRecord → ℕ → LogRecord → Bool
within_window s previous at r = leb (changed_at s r) at && after_previous s previous r

abbrev pub baseline : Option LogRecord → Option ℕ
baseline none = none
baseline (some p) = p.new_version

abbrev pub drop_discarded : Store → Option ℕ → List LogRecord → List LogRecord
drop_discarded s none rs = rs
drop_discarded s (some t) rs = select (changed_after s t) rs

unfoldable pub get_entity_publish_history_entries :
    ℕ → (publish_log : ℕ) → Store → Result (List LogRecord)
get_entity_publish_history_entries e publish_log s =
    elim (find (record_key publish_log e) s.publisheds.records) [
      | none ↦ err does_not_exist
      | some r ↦
          let at = published_at s r in
          let previous = previous_publish e at s in
          let all = records_for e s.drafts.records in
          let reset = last_reset_at s (baseline previous) (within_window s previous at) all in
          ok (
            drop_discarded s reset
              (select (within_window s previous at) (order_desc (changed_at s) all)))
    ]

-- `version_num__gt` and the like, which NULL never meets.
abbrev pub above : ℕ → Option ℕ → Bool
above n none = false
above n (some m) = ltb n m

abbrev pub at_most : ℕ → Option ℕ → Bool
at_most n none = false
at_most n (some m) = leb m n

abbrev pub at_least : ℕ → Option ℕ → Bool
at_least n none = false
at_least n (some m) = leb n m

abbrev pub in_version_range : Store → ℕ → Option ℕ → LogRecord → Bool
in_version_range s old (some new) r =
    let n = version_num_of r.new_version s in above old n && at_most new n
in_version_range s old none r =
    above old (version_num_of r.new_version s)
    || (is_none r.new_version && at_least old (version_num_of r.old_version s))

abbrev pub changed_by : Store → LogRecord → Option ℕ
changed_by s r = elim (find (λ (l : ChangeLog). l.id == r.log) s.drafts.logs) [
  | none ↦ none
  | some l ↦ l.by
]

abbrev pub users_of : Store → List LogRecord → List ℕ
users_of s [] = []
users_of s (r ∷ rs) =
    let rest = users_of s rs in elim (changed_by s r) [ none ↦ rest | some u ↦ u ∷ rest ]

abbrev pub last_contributed : Store → List LogRecord → ℕ → ℕ
last_contributed s rs u =
    elim (head? (
      order_desc (changed_at s)
        (select (λ (r : LogRecord). sql_eq (changed_by s r) (some u)) rs))) [
          | none ↦ 0
          | some r ↦ changed_at s r
        ]

-- The users, the latest contributor first.
pub get_entity_version_contributors : ℕ → ℕ → Option ℕ → Store → List ℕ
get_entity_version_contributors e old_version_num new_version_num s =
    let rs =
      select (in_version_range s old_version_num new_version_num)
        (records_for e s.drafts.records) in
    order_desc (last_contributed s rs) (distinct (users_of s rs))

pub get_published_version_as_of : ℕ → ℕ → Store → Option ℕ
get_published_version_as_of e publish_log s =
    elim (head? (
      order_desc (λ (r : LogRecord). r.log)
        (select (λ (r : LogRecord). leb r.log publish_log) (records_for e s.publisheds.records)))) [
          | none ↦ none
          | some r ↦ r.new_version
        ]
