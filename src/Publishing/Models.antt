-- ===== src/Publishing/Models.antt =====
-- The tables of the publishing app (openedx_content/applets/publishing/models), as the rows of one
-- store. Each table is listed by primary key, oldest first. A datetime is a number.
-- `Draft`, `DraftChangeLog`, `DraftChangeLogRecord` and `DraftSideEffect` have the same shape as
-- `Published`, `PublishLog`, `PublishLogRecord` and `PublishSideEffect`, and the code of
-- publishing/api.py is generic over the two: a `Branch` holds either four.
use openedx_core.Common.{ℕ, String, Bool, Option, List}

pub record LearningPackage : Type 0 where
  pub id : ℕ
  pub package_ref : String
  pub title : String
  pub description : String
  pub created : ℕ
  pub updated : ℕ

pub record PublishableEntity : Type 0 where
  pub id : ℕ
  pub learning_package : ℕ
  pub entity_ref : String
  pub created : ℕ
  pub created_by : Option ℕ
  pub can_stand_alone : Bool

pub record PublishableEntityVersion : Type 0 where
  pub id : ℕ
  pub entity : ℕ
  pub version_num : ℕ
  pub title : String
  pub created : ℕ
  pub created_by : Option ℕ

-- `PublishableEntityVersionDependency`.
pub record Dependency : Type 0 where
  pub referring_version : ℕ
  pub referenced_entity : ℕ

-- `Draft` or `Published`. The primary key is the entity.
pub record BranchRow : Type 0 where
  pub entity : ℕ
  pub version : Option ℕ
  pub log_record : Option ℕ

-- `DraftChangeLog` or `PublishLog`. The `uuid` is as good as the id. A `DraftChangeLog` has no message.
pub record ChangeLog : Type 0 where
  pub id : ℕ
  pub learning_package : ℕ
  pub message : String
  pub at : ℕ
  pub by : Option ℕ

-- `DraftChangeLogRecord` or `PublishLogRecord`. Only the latter has the field `direct`.
pub record LogRecord : Type 0 where
  pub id : ℕ
  pub log : ℕ
  pub entity : ℕ
  pub old_version : Option ℕ
  pub new_version : Option ℕ
  pub dependencies_hash_digest : String
  pub direct : Option Bool

-- `DraftSideEffect` or `PublishSideEffect`.
pub record SideEffect : Type 0 where
  pub cause : ℕ
  pub effect : ℕ

pub record Branch : Type 0 where
  pub rows : List BranchRow
  pub logs : List ChangeLog
  pub records : List LogRecord
  pub side_effects : List SideEffect
  pub next_log : ℕ
  pub next_record : ℕ

pub data Kind : Type 0 where
  draft published : Kind

-- `signals.ChangeLogRecordData`.
pub record RecordData : Type 0 where
  pub entity : ℕ
  pub old_version : Option ℕ
  pub old_version_id : Option ℕ
  pub new_version : Option ℕ
  pub new_version_id : Option ℕ
  pub direct : Option Bool
  pub restored : Bool

-- The events that wait for the commit, `on_commit`.
pub data Event : Type 0 where
  package_created package_updated : (id : ℕ) (title : String) → Event
  changed :
      (kind : Kind) (log : ℕ) (changes : List RecordData) (time : ℕ) (user : Option ℕ)
      (learning_package : ℕ) (title : String)
      → Event

-- The database, the stack of `DraftChangeLogContext` (the innermost first), and the events.
pub record Store : Type 0 where
  pub packages : List LearningPackage
  pub entities : List PublishableEntity
  pub versions : List PublishableEntityVersion
  pub dependencies : List Dependency
  pub drafts : Branch
  pub publisheds : Branch
  pub draft_change_logs : List ChangeLog
  pub events : List Event
  pub next_package : ℕ
  pub next_entity : ℕ
  pub next_version : ℕ

abbrev pub branch : Kind → Store → Branch
branch draft s = s.drafts
branch published s = s.publisheds

abbrev pub set_branch : Kind → Branch → Store → Store
set_branch draft b s = record s { drafts = b }
set_branch published b s = record s { publisheds = b }
