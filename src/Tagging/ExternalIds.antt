-- ===== src/Tagging/ExternalIds.antt =====
-- models/utils.py, and the part of `Tag.save` that makes up an external id.
pub mod Suffixes
pub mod Searches
use openedx_core.Common.{
  ℕ, zero, suc, ◌+◌, ◌-◌, ◌/◌, ◌%◌, Bool, true, false, ◌&&◌, ◌||◌, not, List, [], ◌∷◌, ◌++◌, Option,
  none, some, ◌==◌, leb, if◌then◌else◌, length, any, select, map, reverse, sql_eq,
}
use openedx_core.Tagging.Str.{Str, str_eq, strip, take, is_empty, tab}
use openedx_core.Tagging.Models.{Database, Tag, Store, tag_set, same_text}
use openedx_core.Tagging.Monad.{M, pure, raise, assertion_error}

-- The parts of a tag's value that are not allowed: a TAB, ` > ` and `;`.
unfoldable pub reserved_tag_chars : List Str
reserved_tag_chars = (tab ∷ []) ∷ (32 ∷ 62 ∷ 32 ∷ []) ∷ (59 ∷ []) ∷ []

abbrev pub tag_external_id_max_length : ℕ
tag_external_id_max_length = 255

-- The digits of `n`, the last one first; a number has fewer digits than its value.
unfoldable pub digits : ℕ → ℕ → Str
digits zero n = []
digits (suc fuel) n =
    let rest = digits fuel (n / 10) in (48 + n % 10) ∷ (if n / 10 == 0 then [] else rest)

-- `f"-{attempt}"`
unfoldable pub suffix_of : ℕ → Str
unfolding digits
suffix_of attempt = 45 ∷ reverse (digits (suc attempt) attempt)

-- `text[: limit - cut]`: a bound below zero counts from the end.
unfoldable pub cut_to : ℕ → ℕ → Str → Str
unfolding take
cut_to limit cut text =
    take (if leb cut limit then limit - cut else length text - (cut - limit)) text

unfoldable pub tag_external_id_candidate : Str → ℕ → Str
tag_external_id_candidate value attempt =
    if attempt == 1
    then strip (take tag_external_id_max_length (strip value))
    else strip (cut_to tag_external_id_max_length (length (suffix_of attempt)) (strip value))
      ++ suffix_of attempt

-- `text in texts`
unfoldable pub str_elem : Str → List Str → Bool
unfolding str_eq
str_elem text texts = any (λ other. str_eq text other) texts

module _ (db : Database) where
  -- The loop over further attempts. `none` means that the fuel ran out.
  unfoldable pub next_candidate : List Str → ℕ → Str → ℕ → Option Str
  next_candidate existing zero value attempt = none
  next_candidate existing (suc fuel) value attempt =
      let rest = next_candidate existing fuel value (attempt + 1) in
      if str_elem (db.casefold (tag_external_id_candidate value attempt)) existing
      then rest
      else some (tag_external_id_candidate value attempt)

  -- The folded external ids of the other tags of the taxonomy.
  unfoldable pub existing_ids : ℕ → ℕ → List Tag → List Str
  existing_ids x id ts =
      map (λ t. db.casefold t.external_id) (select (λ t. not (t.id == id)) (tag_set x ts))

  unfoldable pub candidate_taken : ℕ → Str → List Tag → Bool
  candidate_taken x candidate ts = any (λ t. same_text db t.external_id candidate) (tag_set x ts)

  -- The fuel is one more than the ids there are.
  unfoldable pub free_external_id : ℕ → ℕ → Str → List Tag → Option Str
  free_external_id x id value ts =
      let first = tag_external_id_candidate value 1 in
      let existing = existing_ids x id ts in
      let further = next_candidate existing (suc (length existing)) value 2 in
      if candidate_taken x first ts then further else some first
