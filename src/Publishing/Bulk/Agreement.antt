-- ===== src/Publishing/Bulk/Agreement.antt =====
-- Three queries for what is not published: the one of `reset_drafts_to_published`, the one of
-- `publish_all_drafts`, and the one of `get_entities_with_unpublished_changes`.
use openedx_core.Common.{
  ℕ, ◌≡◌, refl, sym, ap, ◌∙◌, inl, inr, Bool, true, false, ◌&&◌, ◌||◌, not, some, List, [], ◌∷◌,
  ◌==◌, ==_iff, is_none, elem, find-true, map, select, arith, Bool-cases, Option-cases,
}
use openedx_core.Publishing.Models.{PublishableEntity, BranchRow, Store}
use openedx_core.Publishing.Tables.{find_row, find_entity, version_of}
use openedx_core.Publishing.Tables.Laws.{find_row-some}
use openedx_core.Publishing.Publish.{in_package, is_unpublished, all_unpublished}
use openedx_core.Publishing.Queries.{has_changes, get_entities_with_unpublished_changes}
use openedx_core.Publishing.Bulk.Members.{select_twice, IsKeyedBy, present_key, absent_key}
use openedx_core.Publishing.Bulk.{needs_reset, drafts_to_reset}

needs_reset-is_unpublished :
    (lp : ℕ) (s : Store) (r : BranchRow)
    → needs_reset s lp r ≡ (in_package s lp r && is_unpublished s r)
needs_reset-is_unpublished lp s r = ground arith

agreement :
    (lp : ℕ) (s : Store) (rows : List BranchRow)
    → select (needs_reset s lp) rows ≡ select (is_unpublished s) (select (in_package s lp) rows)
agreement lp s [] = refl
agreement lp s (r ∷ rows) = elim (Bool-cases (in_package s lp r)) [
  | inr outside ↦ rw (needs_reset-is_unpublished lp s r, outside) (agreement lp s rows)
  | inl inside ↦ elim (Bool-cases (is_unpublished s r)) [
    | inl need ↦
        rw (needs_reset-is_unpublished lp s r, inside, need) (rw (agreement lp s rows) refl)
    | inr fine ↦ rw (needs_reset-is_unpublished lp s r, inside, fine) (agreement lp s rows)
  ]
]

abbrev pub entity_ids : List PublishableEntity → List ℕ
entity_ids es = map (λ (e : PublishableEntity). e.id) es

abbrev pub draft_entities : List BranchRow → List ℕ
draft_entities rows = map (λ (r : BranchRow). r.entity) rows

-- The test of an entity is that of its draft; the default also wants the draft not to be deleted.
same_test :
    (s : Store) (deleted : Bool) (e : PublishableEntity) (r : BranchRow)
    → find_row e.id s.drafts.rows ≡ some r
    → has_changes s deleted e ≡ (is_unpublished s r && (deleted || not (is_none r.version)))
same_test s deleted e r found =
    let (key, version) = find_row-some e.id s.drafts.rows {r = r} found in
    ground (arith, key, version, ap (λ k. version_of k s.publisheds.rows) key)

module _ (lp : ℕ) (s : Store) (deleted : Bool) (i : ℕ) (r : BranchRow)
    (found : find_row i s.drafts.rows ≡ some r) where
  listed_draft :
      IsKeyedBy (λ (x : BranchRow). x.entity) s.drafts.rows
      → elem i (draft_entities (all_unpublished lp s)) ≡ (in_package s lp r && is_unpublished s r)
  listed_draft keyed =
      ap (λ rows. elem i (draft_entities rows)) (sym (agreement lp s s.drafts.rows))
      ∙ present_key (λ (x : BranchRow). x.entity) (needs_reset s lp) i s.drafts.rows keyed found
      ∙ needs_reset-is_unpublished lp s r

  listed_entity :
      IsKeyedBy (λ (e : PublishableEntity). e.id) s.entities
      → elem i (entity_ids (get_entities_with_unpublished_changes lp deleted s))
        ≡ (in_package s lp r && (is_unpublished s r && (deleted || not (is_none r.version))))
  unfolding get_entities_with_unpublished_changes
  listed_entity keyed =
      let key = λ (e : PublishableEntity). e.id in
      let at = (find_row-some i s.drafts.rows {r = r} found).0 in
      let test = λ (e : PublishableEntity). (e.learning_package == lp) && has_changes s deleted e in
      let one =
        ap (λ es. elem i (entity_ids es))
          (select_twice (λ (e : PublishableEntity). e.learning_package == lp)
            (has_changes s deleted) s.entities) in
      elim (Option-cases (find_entity i s)) [
        | inl missing ↦
            let outside : in_package s lp r ≡ false =
              ap (λ k. in_package s lp (record r { entity = k })) at
              ∙ rw (in_package, missing) refl in
            one ∙ absent_key key test i s.entities missing ∙ rw outside refl
        | inr (e, there) ↦
            let id : e.id ≡ i =
              (==_iff e.id i).0
                (find-true (λ (x : PublishableEntity). x.id == i) s.entities there) in
            let inside : in_package s lp r ≡ (e.learning_package == lp) =
              ap (λ k. in_package s lp (record r { entity = k })) at
              ∙ rw (in_package, there) refl in
            let test_of = same_test s deleted e r (ap (λ k. find_row k s.drafts.rows) id ∙ found) in
            one ∙ present_key key test i s.entities keyed there ∙ rw (inside, test_of) refl
      ]

-- On tables with primary keys, the drafts that a reset changes are those that `publish_all_drafts`
-- publishes, in the same order. An entity with a draft is listed by
-- `get_entities_with_unpublished_changes` with deleted drafts exactly if its draft is one of them,
-- and without deleted drafts exactly if its draft is one of them and has a version.
pub unpublished_lem :
    (lp : ℕ) (s : Store)
    → IsKeyedBy (λ (r : BranchRow). r.entity) s.drafts.rows
    → IsKeyedBy (λ (e : PublishableEntity). e.id) s.entities
    → (drafts_to_reset lp s ≡ all_unpublished lp s)
      × ((i : ℕ) (r : BranchRow)
          → find_row i s.drafts.rows ≡ some r
          → (elem i (entity_ids (get_entities_with_unpublished_changes lp true s))
              ≡ elem i (draft_entities (all_unpublished lp s)))
            × (elem i (entity_ids (get_entities_with_unpublished_changes lp false s))
                ≡ (elem i (draft_entities (all_unpublished lp s)) && not (is_none r.version))))
unpublished_lem lp s rows entities = (
  agreement lp s s.drafts.rows,
  λ i r found.
      let draft_of = listed_draft lp s true i r found rows in
      let all = listed_entity lp s true i r found entities in
      let live = listed_entity lp s false i r found entities in
      (ground (arith, draft_of, all), ground (arith, draft_of, live)),
)
