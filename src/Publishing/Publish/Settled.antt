-- ===== src/Publishing/Publish/Settled.antt =====
-- `publish_all_drafts`: what is left unpublished, and the published versions.
use openedx_core.Common.{
  ℕ, String, ◌≡◌, ◌⊎◌, refl, ap, inl, inr, true, false, Option, List, [], ◌∷◌, select, elem, All,
  arith, Bool-cases,
}
use openedx_core.Publishing.Models.{BranchRow, ChangeLog, Store}
use openedx_core.Publishing.Monad.{ok}
use openedx_core.Publishing.Ensures.{Ensures-ok}
use openedx_core.Publishing.Logs.{World}
use openedx_core.Publishing.Publish.{
  ids, is_unpublished, in_package, publish_all_drafts, all_unpublished,
}
use openedx_core.Publishing.Queries.{get_draft_version, get_published_version}
use openedx_core.Publishing.Publish.Outcome.{Published, IsCurrent, IsDraftQuery}
use openedx_core.Publishing.Publish.FromDrafts.{
  select-IsDraftQuery, rows-IsDraftQuery, ReadsTables, publish_from_drafts-Outcome,
}

module _ (s : Store) (keyed : All (IsCurrent s) s.drafts.rows) where
  settled_row :
      (done : List ℕ) (t : Store) (r : BranchRow)
      → Published s done t
      → IsCurrent s r
      → (is_unpublished s r ≡ true → elem r.entity done ≡ true)
      → is_unpublished t r ≡ false
  settled_row done t r p current h = elim (Bool-cases (is_unpublished s r)) [
    | inl need ↦ let hit = h need in ground (arith, p.versions r.entity)
    | inr fine ↦ elim (Bool-cases (elem r.entity done)) [
      | inl hit ↦ ground (arith, p.versions r.entity)
      | inr miss ↦ ground (arith, p.versions r.entity)
    ]
  ]

  same_package :
      (lp : ℕ) (done : List ℕ) (t : Store) (r : BranchRow)
      → Published s done t
      → in_package t lp r ≡ in_package s lp r
  same_package lp done t r p = ap (λ es. in_package (record s { entities = es }) lp r) p.entities

  -- A draft that has been published, or that was not in need of it, has no unpublished change.
  settled :
      (lp : ℕ) (done : List ℕ) (t : Store) (rows : List BranchRow)
      → Published s done t
      → All (IsCurrent s) rows
      → All
          (λ e. elem e done ≡ true)
          (ids (select (is_unpublished s) (select (in_package s lp) rows)))
      → select (is_unpublished t) (select (in_package t lp) rows) ≡ []
  settled lp done t [] p current all = refl
  settled lp done t (r ∷ rows) p current all = elim (Bool-cases (in_package s lp r)) [
    | inr outside ↦
        rw (same_package lp done t r p, outside)
          (settled lp done t rows p current.1 (rw outside at all))
    | inl inside ↦
        let all' = rw inside at all in
        rw (same_package lp done t r p, inside)
          (elim (Bool-cases (is_unpublished s r)) [
            | inl need ↦
                let (hit, rest) = rw need at all' in
                rw (settled_row done t r p current.0 (λ _. hit))
                  (settled lp done t rows p current.1 rest)
            | inr fine ↦
                let rest = rw fine at all' in
                rw (settled_row done t r p current.0 (λ need. cc))
                  (settled lp done t rows p current.1 rest)
          ])
  ]

  all_unpublished-IsDraftQuery : (lp : ℕ) → IsDraftQuery s (all_unpublished lp)
  all_unpublished-IsDraftQuery lp =
      select-IsDraftQuery s keyed is_unpublished (λ t. select (in_package t lp) t.drafts.rows)
        (select-IsDraftQuery s keyed (λ t. in_package t lp) (λ t. t.drafts.rows)
          (rows-IsDraftQuery s keyed))

  all_unpublished-ReadsTables : (lp : ℕ) → ReadsTables s keyed (all_unpublished lp)
  all_unpublished-ReadsTables lp t drafts entities dependencies rows = λ i.
      all_unpublished lp (record s {
        drafts = drafts i;
        entities = entities i;
        publisheds = record (s.publisheds) { rows = rows i };
      })

-- When `publish_all_drafts` returns, no draft of the package has an unpublished change, and the
-- published version of every entity is its draft's version or what it was before.
pub publish_all_drafts_lem :
    (w : World) (lp : ℕ) (message : String) (at by : Option ℕ) (s s' : Store) (log : ChangeLog)
    → All (IsCurrent s) s.drafts.rows
    → publish_all_drafts w lp message at by s ≡ ok (log, s')
    → (all_unpublished lp s' ≡ [])
      × ((j : ℕ)
          → (get_published_version j s' ≡ get_draft_version j s)
            ⊎ (get_published_version j s' ≡ get_published_version j s))
unfolding publish_all_drafts get_draft_version get_published_version
publish_all_drafts_lem w lp message at by s s' log keyed h =
    let (done, p, all) =
      Ensures-ok
        (publish_from_drafts-Outcome s keyed w lp (all_unpublished lp) message at by true
          (all_unpublished-IsDraftQuery s keyed lp) (all_unpublished-ReadsTables s keyed lp))
        h in
    (
      rw p.drafts (settled s keyed lp done s' s.drafts.rows p keyed all),
      λ j. elim (Bool-cases (elem j done)) [
        | inl hit ↦ inl (ground (arith, p.versions j))
        | inr miss ↦ inr (ground (arith, p.versions j))
      ],
    )
