-- ===== src/Tagging/Models.antt =====
-- models/base.py: the rows of the tagging app, and its tables.
use openedx_core.Common.{ℕ, Bool, List, Option, ◌==◌, sql_eq, select, find, some, map, ◌≡◌}
use openedx_core.Tagging.Str.{Str, str_eq, starts_with}

-- What the program takes from the database and from Python: the comparison of a case-insensitive
-- column by a key, the comparison of characters by LIKE, `str.casefold`, and the order of texts.
pub record Database : Type 0 where
  pub key : Str → Str
  pub like : ℕ → ℕ
  pub casefold : Str → Str
  pub sorts_before : Str → Str → Bool
  pub lower : Str → Str

-- An instance that is not saved has no primary key, which 0 stands for; `""` stands for an
-- `external_id` of None, too.
pub record Tag : Type 0 where
  pub id : ℕ
  pub taxonomy : Option ℕ
  pub parent : Option ℕ
  pub value : Str
  pub external_id : Str
  pub depth : ℕ
  pub lineage : Str

pub record Taxonomy : Type 0 where
  pub id : ℕ
  pub name : Str
  pub description : Str
  pub enabled : Bool
  pub allow_multiple : Bool
  pub allow_free_text : Bool
  pub visible_to_authors : Bool
  pub export_id : Str
  pub read_only : Bool

-- `cached_export_id` and `cached_value` are the fields `_export_id` and `_value`.
pub record ObjectTag : Type 0 where
  pub id : ℕ
  pub object_id : Str
  pub taxonomy : Option ℕ
  pub tag : Option ℕ
  pub is_copied : Bool
  pub cached_export_id : Str
  pub cached_value : Str

-- The tables, and the next primary key of each.
pub record Store : Type 0 where
  pub tags : List Tag
  pub taxonomies : List Taxonomy
  pub object_tags : List ObjectTag
  pub next_tag : ℕ
  pub next_taxonomy : ℕ
  pub next_object_tag : ℕ

abbrev pub find_tag : List Tag → ℕ → Option Tag
find_tag ts i = find (λ t. t.id == i) ts

-- `taxonomy.tag_set`
abbrev pub tag_set : ℕ → List Tag → List Tag
tag_set x ts = select (λ t. sql_eq t.taxonomy (some x)) ts

module _ (db : Database) where
  -- `column = value` and `column__iexact=value` on a case-insensitive column.
  unfoldable pub same_text : Str → Str → Bool
  same_text a b = str_eq (db.key a) (db.key b)

  -- `column__startswith=start`
  unfoldable pub begins : Str → Str → Bool
  begins start text = starts_with (map db.like start) (map db.like text)

-- What the databases document: characters that LIKE takes for equal are equal in the collation of
-- the column, and a TAB is like no other character.
pub record IsDatabase (db : Database) : Type 0 where
  pub like_tab : db.like 9 ≡ 9
  pub only_tab : (c : ℕ) → db.like c ≡ 9 → c ≡ 9
  pub like_is_finer : (a b : Str) → map db.like a ≡ map db.like b → db.key a ≡ db.key b
