-- ===== src/Publishing.antt =====
-- The publishing app, openedx_content/applets/publishing: entities with versions, the drafts and
-- the published versions with their logs, side effects and events.
pub mod Models
pub mod Monad
pub mod Ensures
pub mod Tables
pub mod SideEffects
pub mod Hashes
pub mod Logs
pub mod Drafts
pub mod Entities
pub mod Bulk
pub mod Publish
pub mod Queries
pub mod Windows
mod Tests
