-- ===== src/Publishing/Publish/Outcome.antt =====
-- What a publish does to the published versions.
use openedx_core.Common.{
  ℕ, ◌≡◌, inl, inr, Bool, true, List, [], ◌∷◌, ◌==◌, if◌then◌else◌, elem, All, All-map, arith,
  Bool-cases, Option-cases, ==_iff,
}
use openedx_core.Publishing.Models.{BranchRow, Branch, Store}
use openedx_core.Publishing.Tables.{version_of, find_entity}
use openedx_core.Publishing.Tables.Laws.{version_of-save_row}
use openedx_core.Publishing.Ensures.{Ensures, weaken, chain}
use openedx_core.Publishing.Publish.{
  QuerySet, ids, publish_row, published_row, publish_draft, publish_rows, publish_query_sets,
}

publish_row-version :
    (j log : ℕ) (row : BranchRow) (direct : Bool) (b : Branch)
    → version_of j (publish_row log row direct b).rows
      ≡ (if row.entity == j then row.version else version_of j b.rows)
unfolding publish_row
publish_row-version j log row direct b =
    version_of-save_row j (published_row row b.next_record) b.rows

module _ (s : Store) where
  -- The entities in `done` have been published as the drafts of `s`, and no others.
  pub record Published (done : List ℕ) (t : Store) : Type 0 where
    pub drafts : t.drafts ≡ s.drafts
    pub entities : t.entities ≡ s.entities
    pub dependencies : t.dependencies ≡ s.dependencies
    pub versions :
        (j : ℕ)
        → version_of j t.publisheds.rows
          ≡ (if elem j done then version_of j s.drafts.rows else version_of j s.publisheds.rows)

  -- A row as the drafts of `s` have it.
  abbrev pub IsCurrent : BranchRow → Type 0
  IsCurrent row = row.version ≡ version_of row.entity s.drafts.rows

  abbrev pub Step : List ℕ → List ℕ → List ℕ → Store → Type 0
  Step names done done' t =
      Published done' t
      × ((j : ℕ) → elem j done ≡ true → elem j done' ≡ true)
      × All (λ e. elem e done' ≡ true) names

  Published-cons :
      (log : ℕ) (done : List ℕ) (row : BranchRow) (direct : Bool) (t : Store)
      → Published done t
      → IsCurrent row
      → Published
          (row.entity ∷ done)
          (record t { publisheds = publish_row log row direct t.publisheds })
  Published-cons log done row direct t p current = record {
    drafts = p.drafts;
    entities = p.entities;
    dependencies = p.dependencies;
    versions = λ j. elim (Bool-cases (row.entity == j)) [
      | inl same ↦
          let here = (==_iff row.entity j).0 same in
          ground (arith, publish_row-version j log row direct t.publisheds)
      | inr other ↦ ground (arith, publish_row-version j log row direct t.publisheds, p.versions j)
    ];
  }

  publish_draft-Step :
      (lp log : ℕ) (direct done : List ℕ) (row : BranchRow) (t : Store)
      → Published done t
      → IsCurrent row
      → Ensures (Step (row.entity ∷ []) done) (publish_draft lp log direct done row t)
  unfolding publish_draft
  publish_draft-Step lp log direct done row t p current = elim (Bool-cases (elem row.entity done)) [
    | inl again ↦ rw again (Ensures.returned (p, (λ j h. h), (again, tt)))
    | inr first ↦ elim (Option-cases (find_entity row.entity t)) [
      | inl missing ↦ rw (first, missing) Ensures.raised
      | inr (e, there) ↦ elim (Bool-cases (e.learning_package == lp)) [
        | inr foreign ↦ rw (first, there, foreign) Ensures.raised
        | inl ours ↦
            rw (first, there, ours)
              (Ensures.returned (
                Published-cons log done row (elem row.entity direct) t p current,
                (λ j h. ground arith),
                (ground arith, tt),
              ))
      ]
    ]
  ]

  pub publish_rows-Step :
      (lp log : ℕ) (direct done : List ℕ) (rows : List BranchRow) (t : Store)
      → Published done t
      → All IsCurrent rows
      → Ensures (Step (ids rows) done) (publish_rows lp log direct done rows t)
  unfolding publish_rows
  publish_rows-Step lp log direct done [] t p current = Ensures.returned (p, (λ j h. h), tt)
  publish_rows-Step lp log direct done (row ∷ rows) t p current =
      chain (publish_draft-Step lp log direct done row t p current.0) λ done₁ t₁ (p₁, grows, here).
        weaken
          (λ done₂ t₂ (p₂, grows', rest).
            (p₂, (λ j h. grows' j (grows j h)), (grows' row.entity here.0, rest)))
          (publish_rows-Step lp log direct done₁ rows t₁ p₁ current.1)

  -- A query that reads the tables only, and gives rows of the drafts.
  pub record IsDraftQuery (q : QuerySet) : Type 0 where
    pub current : (t : Store) → t.drafts ≡ s.drafts → All IsCurrent (q t)

  publish_query_sets-Step :
      (lp log : ℕ) (direct done : List ℕ) (qs : List QuerySet) (t : Store)
      → Published done t
      → All IsDraftQuery qs
      → Ensures (Step [] done) (publish_query_sets lp log direct done qs t)
  unfolding publish_query_sets
  publish_query_sets-Step lp log direct done [] t p h = Ensures.returned (p, (λ j x. x), tt)
  publish_query_sets-Step lp log direct done (q ∷ qs) t p h =
      chain (publish_rows-Step lp log direct done (q t) t p (h.0.current t p.drafts))
        λ done₁ t₁ (p₁, grows, _).
          weaken (λ done₂ t₂ (p₂, grows', _). (p₂, (λ j x. grows' j (grows j x)), tt))
            (publish_query_sets-Step lp log direct done₁ qs t₁ p₁ h.1)

  -- The first query set is published whole.
  pub publish_first-Step :
      (lp log : ℕ) (direct : List ℕ) (q : QuerySet) (qs : List QuerySet) (t : Store)
      → Published [] t
      → All IsDraftQuery (q ∷ qs)
      → Ensures (Step (ids (q t)) []) (publish_query_sets lp log direct [] (q ∷ qs) t)
  unfolding publish_query_sets
  publish_first-Step lp log direct q qs t p h =
      chain (publish_rows-Step lp log direct [] (q t) t p (h.0.current t p.drafts))
        λ done₁ t₁ (p₁, grows, here).
          weaken
            (λ done₂ t₂ (p₂, grows', _).
              (p₂, (λ j x. grows' j (grows j x)), All-map _ _ _ grows' here))
            (publish_query_sets-Step lp log direct done₁ qs t₁ p₁ h.1)
