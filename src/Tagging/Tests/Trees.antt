-- ===== src/Tagging/Tests/Trees.antt =====
-- The trees of tags: runs, and the theorems at the sample.
use openedx_core.Common.{
  ℕ, suc, ◌≡◌, ◌<◌, ◌≤◌, refl, ◌⊎◌, inl, true, false, ◌&&◌, not, [], ◌∷◌, none, some, ◌==◌, select,
  length, arith,
}
use openedx_core.Tagging.Str.{take, str_eq, starts_with, strip}
use openedx_core.Tagging.Models.{Tag, Store, tag_set, same_text, begins}
use openedx_core.Tagging.Monad.{ok}
use openedx_core.Tagging.Save.{save}
use openedx_core.Tagging.Taxonomies.{
  update_tag, add_tag, delete_tags, get_lineage, descendant_count,
}
use openedx_core.Tagging.Taxonomies.Changes.{IsUpdated, update_tag_lem}
use openedx_core.Tagging.Taxonomies.Additions.{IsAddition, add_tag_lem}
use openedx_core.Tagging.Taxonomies.Deletions.{IsDeletion, delete_tags_lem}
use openedx_core.Tagging.Taxonomies.Lineages.{ancestors, get_lineage_lem}
use openedx_core.Tagging.Taxonomies.Descendants.{is_under, descendant_count_lem}
use openedx_core.Tagging.Save.Existing.{IsOutcome, save_existing_lem}
use openedx_core.Tagging.ExternalIds.{
  tag_external_id_candidate, tag_external_id_max_length, candidate_taken, free_external_id,
  existing_ids, str_elem, next_candidate, cut_to, suffix_of,
}
use openedx_core.Tagging.ExternalIds.Suffixes.{length-candidate}
use openedx_core.Tagging.ExternalIds.Searches.{free_external_id_lem}
use openedx_core.Tagging.Tests.Sample.{
  ascii, ascii-IsDatabase, ascii-IsCasefold, earth, asia, india, places, sample, sample-IsSound,
}

-- `Asia` is renamed: `India` follows.
abbrev asia_renamed : Tag
asia_renamed = record asia { value = 90 ∷ []; lineage = 69 ∷ 9 ∷ 90 ∷ 9 ∷ [] }

abbrev india_moved : Tag
india_moved = record india { lineage = 69 ∷ 9 ∷ 90 ∷ 9 ∷ 73 ∷ 9 ∷ [] }

abbrev sample_renamed : Store
sample_renamed = record sample { tags = earth ∷ asia_renamed ∷ india_moved ∷ [] }

renames :
    update_tag ascii places (97 ∷ []) (32 ∷ 90 ∷ []) sample ≡ (ok asia_renamed, sample_renamed)
unfolding update_tag same_text save str_eq starts_with take strip begins tag_external_id_candidate
    candidate_taken existing_ids free_external_id next_candidate str_elem cut_to suffix_of
renames = refl

update_tag_lem_example :
    IsUpdated ascii places (97 ∷ []) (32 ∷ 90 ∷ []) sample (ok asia_renamed) sample_renamed
update_tag_lem_example =
    update_tag_lem ascii places (97 ∷ []) (32 ∷ 90 ∷ []) sample (ok asia_renamed) sample_renamed
      ascii-IsDatabase sample-IsSound renames

-- `India` is moved to the root's children.
abbrev india_raised : Tag
india_raised = record india { parent = some 1; depth = 1; lineage = 69 ∷ 9 ∷ 73 ∷ 9 ∷ [] }

abbrev sample_raised : Store
sample_raised = record sample { tags = earth ∷ asia ∷ india_raised ∷ [] }

raises :
    save ascii (record india { parent = some 1 }) none sample ≡ (ok india_raised, sample_raised)
unfolding save same_text str_eq starts_with take strip begins tag_external_id_candidate
    candidate_taken existing_ids free_external_id next_candidate str_elem cut_to suffix_of
raises = refl

save_existing_lem_example :
    IsOutcome ascii (record india { parent = some 1 }) sample (ok india_raised) sample_raised
unfolding begins starts_with
save_existing_lem_example =
    save_existing_lem ascii (record india { parent = some 1 }) india none sample (ok india_raised)
      sample_raised ascii-IsDatabase sample-IsSound.forest sample-IsSound.numbered.keyed refl
      (λ h. ground (arith, h)) refl (earth, refl, refl, refl, inl refl) raises

-- `Asia` is moved below `India`, its child: the code lets it, and the rows are above one another.
abbrev asia_looped : Tag
asia_looped = record asia {
  parent = some 3;
  depth = 3;
  lineage = 69 ∷ 9 ∷ 65 ∷ 9 ∷ 73 ∷ 9 ∷ 65 ∷ 9 ∷ [];
}

loops : (save ascii (record asia { parent = some 3 }) none sample).0 ≡ ok asia_looped
unfolding save same_text begins str_eq starts_with take strip tag_external_id_candidate
    candidate_taken existing_ids free_external_id next_candidate str_elem cut_to suffix_of
loops = refl

-- A tag is added below `India`, with its value for an external id.
abbrev delhi : Tag
delhi = record {
  id = 4;
  taxonomy = some 1;
  parent = some 3;
  value = 68 ∷ [];
  external_id = 68 ∷ [];
  depth = 3;
  lineage = 69 ∷ 9 ∷ 65 ∷ 9 ∷ 73 ∷ 9 ∷ 68 ∷ 9 ∷ [];
}

abbrev sample_added : Store
sample_added = record sample { tags = earth ∷ asia ∷ india ∷ delhi ∷ []; next_tag = 5 }

adds : add_tag ascii places (68 ∷ []) (105 ∷ []) [] sample ≡ (ok delhi, sample_added)
unfolding add_tag same_text save tag_external_id_candidate str_eq starts_with take strip begins
    candidate_taken existing_ids free_external_id next_candidate str_elem cut_to suffix_of
adds = refl

add_tag_lem_example : IsAddition ascii places (68 ∷ []) (105 ∷ []) [] sample (ok delhi) sample_added
add_tag_lem_example =
    add_tag_lem ascii places (68 ∷ []) (105 ∷ []) [] sample (ok delhi) sample_added sample-IsSound
      adds

-- A blank value: the call raises, and the tag without a value stays in the table.
blank_stays : (add_tag ascii places (32 ∷ []) [] (66 ∷ []) sample).1.next_tag ≡ 5
unfolding add_tag same_text save tag_external_id_candidate str_eq starts_with take strip begins
    candidate_taken existing_ids free_external_id next_candidate str_elem cut_to suffix_of
blank_stays = refl

-- `Asia` is deleted with its subtags.
deletes :
    delete_tags ascii places ((97 ∷ []) ∷ []) true sample
    ≡ (ok tt, record sample { tags = earth ∷ [] })
unfolding delete_tags same_text str_eq starts_with take strip begins tag_external_id_candidate
    candidate_taken existing_ids free_external_id next_candidate str_elem cut_to suffix_of
deletes = refl

delete_tags_lem_example :
    IsDeletion ascii places
      ((97 ∷ []) ∷ [])
      true
      sample
      (ok tt)
      (record sample { tags = earth ∷ [] })
delete_tags_lem_example =
    delete_tags_lem ascii places ((97 ∷ []) ∷ []) true sample (ok tt)
      (record sample { tags = earth ∷ [] }) sample-IsSound deletes

get_lineage_lem_example : ancestors 3 sample.tags india ≡ some (get_lineage india)
get_lineage_lem_example =
    get_lineage_lem ascii sample.tags 3 3 india sample-IsSound.forest refl refl (omega arith)

india_lineage : get_lineage india ≡ (69 ∷ []) ∷ (65 ∷ []) ∷ (73 ∷ []) ∷ []
unfolding get_lineage str_eq starts_with take strip same_text begins tag_external_id_candidate
    candidate_taken existing_ids free_external_id next_candidate str_elem cut_to suffix_of
india_lineage = refl

descendant_count_lem_example :
    descendant_count ascii earth sample
    ≡ length (
        select
          (λ u. not (u.id == 1) && is_under (suc u.depth) sample.tags 1 u)
          (tag_set 1 sample.tags))
descendant_count_lem_example =
    descendant_count_lem ascii earth places sample ascii-IsDatabase sample-IsSound.forest
      sample-IsSound.numbered.keyed refl refl refl refl

earth_descendants : descendant_count ascii earth sample ≡ 2
unfolding descendant_count begins str_eq starts_with take strip same_text tag_external_id_candidate
    candidate_taken existing_ids free_external_id next_candidate str_elem cut_to suffix_of
earth_descendants = refl

length-candidate_example :
    length (tag_external_id_candidate (32 ∷ 65 ∷ []) 12) ≤ tag_external_id_max_length
length-candidate_example =
    length-candidate (32 ∷ 65 ∷ []) 12 1 (omega arith) (omega arith) (omega arith)

second_candidate : tag_external_id_candidate (32 ∷ 65 ∷ []) 12 ≡ 65 ∷ 45 ∷ 49 ∷ 50 ∷ []
unfolding tag_external_id_candidate str_eq starts_with take strip same_text begins candidate_taken
    existing_ids free_external_id next_candidate str_elem cut_to suffix_of
second_candidate = refl

-- A value that is an external id already.
free_external_id_lem_example :
    ((candidate_taken ascii 1 (tag_external_id_candidate (50 ∷ []) 1) sample.tags ≡ false)
      × (free_external_id ascii 1 4 (50 ∷ []) sample.tags
          ≡ some (tag_external_id_candidate (50 ∷ []) 1)))
    ⊎ ((candidate_taken ascii 1 (tag_external_id_candidate (50 ∷ []) 1) sample.tags ≡ true)
        × (n : ℕ) × (2 ≤ n)
        × (free_external_id ascii 1 4 (50 ∷ []) sample.tags
            ≡ some (tag_external_id_candidate (50 ∷ []) n))
        × (str_elem
              (ascii.casefold (tag_external_id_candidate (50 ∷ []) n))
              (existing_ids ascii 1 4 sample.tags)
            ≡ false)
        × ((i : ℕ)
            → 2 ≤ i
            → i < n
            → str_elem
                (ascii.casefold (tag_external_id_candidate (50 ∷ []) i))
                (existing_ids ascii 1 4 sample.tags)
              ≡ true))
free_external_id_lem_example = free_external_id_lem ascii 1 4 (50 ∷ []) sample.tags ascii-IsCasefold

second_taken : free_external_id ascii 1 4 (50 ∷ []) sample.tags ≡ some (50 ∷ 45 ∷ 50 ∷ [])
unfolding free_external_id same_text str_eq starts_with take strip begins tag_external_id_candidate
    candidate_taken existing_ids next_candidate str_elem cut_to suffix_of
second_taken = refl
