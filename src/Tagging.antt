-- ===== src/Tagging.antt =====
-- openedx_tagging: taxonomies, their trees of tags, and the tags of objects.
pub mod Str
pub mod Models
pub mod Monad
pub mod ExternalIds
pub mod Save
pub mod Taxonomies
pub mod Objects
pub mod Api
pub mod Copies
pub mod Counts
pub mod Tallies
pub mod Tests
