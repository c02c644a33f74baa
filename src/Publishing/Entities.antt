-- ===== src/Publishing/Entities.antt =====
-- publishing/api.py: learning packages, publishable entities, and their versions.
pub mod Versions
use text.Mathlib.Text.{◌==◌ as str_eq}
use openedx_core.Common.{
  ℕ, suc, String, Bool, false, ◌&&◌, ◌||◌, not, Option, none, some, List, [], ◌∷◌, ◌++◌, ◌==◌,
  if◌then◌else◌, is_none, or_else, find, any, elem, distinct, update_where,
}
use openedx_core.Publishing.Models.{
  LearningPackage, PublishableEntity, PublishableEntityVersion, Dependency, Store, package_created,
  package_updated,
}
use openedx_core.Publishing.Tables.{find_entity}
use openedx_core.Publishing.Logs.{World, find_package}
use openedx_core.Publishing.Drafts.{DraftOrId, set_draft_version}
use openedx_core.Publishing.Monad.{
  M, pure, gets, get_or_raise, modify, raise_if, validation_error, integrity_error, does_not_exist,
  ◌>>=◌, ◌>>◌,
}

abbrev pub has_ref : String → LearningPackage → Bool
has_ref ref p = str_eq p.package_ref ref

pub learning_package_exists : String → Store → Bool
learning_package_exists ref s = any (has_ref ref) s.packages

pub get_learning_package_by_ref : String → M LearningPackage
get_learning_package_by_ref ref = do
  get_or_raise (← gets (λ s. find (has_ref ref) s.packages)) does_not_exist

-- `full_clean` runs the validators of the fields, and looks for the reference among the others.
pub create_learning_package : World → String → String → String → Option ℕ → M LearningPackage
unfolding learning_package_exists
create_learning_package w ref title description created = do
  i ← gets (λ s. s.next_package)
  taken ← gets (learning_package_exists ref)
  let at = or_else created w.now
  let lp : LearningPackage = record {
    id = i;
    package_ref = ref;
    title = title;
    description = description;
    created = at;
    updated = at;
  }
  raise_if (not (w.clean_package lp)) validation_error
  raise_if taken validation_error
  modify (λ s. record s {
    packages = s.packages ++ lp ∷ [];
    next_package = suc s.next_package;
    events = s.events ++ package_created i title ∷ [];
  })
  pure lp

-- The package with the fields that are given.
abbrev pub updated_package :
    World
    → Option String
    → Option String
    → Option String
    → Option ℕ
    → LearningPackage
    → LearningPackage
updated_package w ref title description updated lp = record lp {
  package_ref = or_else ref lp.package_ref;
  title = or_else title lp.title;
  description = or_else description lp.description;
  updated = or_else updated w.now;
}

-- `lp.save()` checks the unique key only: the validators run in `full_clean`, not here.
pub update_learning_package :
    World → ℕ → Option String → Option String → Option String → Option ℕ → M LearningPackage
update_learning_package w i ref title description updated = do
  lp ← get_or_raise (← gets (find_package i)) does_not_exist
  if is_none ref && (is_none title && (is_none description && is_none updated)) then pure lp else do
    let lp' = updated_package w ref title description updated lp
    taken ← gets (λ s. any (λ p. not (p.id == i) && has_ref lp'.package_ref p) s.packages)
    raise_if taken integrity_error
    modify (λ s. record s {
      packages = update_where (λ p. p.id == i) (λ _. lp') s.packages;
      events = s.events ++ package_updated i lp'.title ∷ [];
    })
    pure lp'

-- The unique key (learning_package, entity_ref), and the foreign key of the package.
abbrev pub same_ref : ℕ → String → PublishableEntity → Bool
same_ref lp ref e = (e.learning_package == lp) && str_eq e.entity_ref ref

pub create_publishable_entity : ℕ → String → ℕ → Option ℕ → Bool → M PublishableEntity
create_publishable_entity lp ref created created_by can_stand_alone = do
  i ← gets (λ s. s.next_entity)
  owner ← gets (find_package lp)
  taken ← gets (λ s. any (same_ref lp ref) s.entities)
  let e : PublishableEntity = record {
    id = i;
    learning_package = lp;
    entity_ref = ref;
    created = created;
    created_by = created_by;
    can_stand_alone = can_stand_alone;
  }
  raise_if (is_none owner || taken) integrity_error
  modify (λ s. record s { entities = s.entities ++ e ∷ []; next_entity = suc s.next_entity })
  pure e

abbrev pub dependency_rows : ℕ → List ℕ → List Dependency
dependency_rows v [] = []
dependency_rows v (e ∷ es) =
    (record { referring_version = v; referenced_entity = e }) ∷ dependency_rows v es

abbrev pub is_missing : Store → ℕ → Bool
is_missing s e = is_none (find_entity e s)

-- `set_version_dependencies`, with the foreign key of each dependency and the unique key
-- (referring_version, referenced_entity).
pub set_version_dependencies : ℕ → List ℕ → M (Unit {0})
set_version_dependencies v dependencies = do
  missing ← gets (λ s. any (is_missing s) dependencies)
  taken ← gets (λ s.
      any (λ (d : Dependency). (d.referring_version == v) && elem d.referenced_entity dependencies)
        s.dependencies)
  raise_if (missing || taken) integrity_error
  modify
      (λ s. record s { dependencies = s.dependencies ++ dependency_rows v (distinct dependencies) })

-- A dependency that exists, in another package.
abbrev pub is_foreign : Store → ℕ → ℕ → Bool
is_foreign s lp e = elim (find_entity e s) [
  | none ↦ false
  | some x ↦ not (x.learning_package == lp)
]

abbrev pub same_num : ℕ → ℕ → PublishableEntityVersion → Bool
same_num e n v = (v.entity == e) && (v.version_num == n)

abbrev pub add_dependencies : ℕ → ℕ → List ℕ → M (Unit {0})
add_dependencies lp v [] = pure tt
add_dependencies lp v (e ∷ es) = do
  let dependencies : List ℕ = e ∷ es
  foreign ← gets (λ s. any (is_foreign s lp) dependencies)
  raise_if foreign validation_error
  set_version_dependencies v dependencies

-- `version_num` is a positive integer column with the unique key (entity, version_num).
unfoldable pub create_publishable_entity_version :
    World → ℕ → ℕ → String → ℕ → Option ℕ → List ℕ → M PublishableEntityVersion
unfolding set_version_dependencies
create_publishable_entity_version w e version_num title created created_by dependencies = do
  i ← gets (λ s. s.next_version)
  owner ← gets (find_entity e)
  taken ← gets (λ s. any (same_num e version_num) s.versions)
  raise_if taken integrity_error
  entity ← get_or_raise owner integrity_error
  let v : PublishableEntityVersion = record {
    id = i;
    entity = e;
    version_num = version_num;
    title = title;
    created = created;
    created_by = created_by;
  }
  modify (λ s. record s { versions = s.versions ++ v ∷ []; next_version = suc s.next_version })
  add_dependencies entity.learning_package i dependencies
  set_draft_version w (DraftOrId.entity_id e) (some i) (some created) created_by
  pure v
