-- ===== src/Publishing/Publish/Layers.antt =====
-- What a publish does to the dependencies: the layers of the crawl, one after the other.
use mathlib.Core.Path.{subst}
use openedx_core.Common.{
  ℕ, ◌≡◌, ◌⊎◌, inl, inr, true, List, [], ◌∷◌, select, elem, All, All-map, All-select, arith,
  Bool-cases,
}
use openedx_core.Publishing.Models.{BranchRow, Store}
use openedx_core.Publishing.Tables.{version_of}
use openedx_core.Publishing.Ensures.{Ensures, weaken, chain}
use openedx_core.Publishing.Publish.{
  QuerySet, ids, dependency_drafts, only_unpublished, affects_any, is_unpublished,
  publish_query_sets,
}
use openedx_core.Publishing.Publish.Outcome.{Published, IsCurrent, publish_rows-Step}

-- The entities that a publish is asked for: those of a query set and all that they depend on,
-- directly or through others.
pub data Reaches (s : Store) (e : ℕ) : QuerySet → Type 0 where
  here : {q : QuerySet} → elem e (ids (q s)) ≡ true → Reaches s e q
  there : {q : QuerySet} → Reaches s e (dependency_drafts q) → Reaches s e q

module _ (s : Store) where
  -- A query that reads the drafts and the dependencies, but nothing that is published.
  abbrev pub IsStable : QuerySet → Type 0
  IsStable q =
      (t : Store)
      → t.drafts ≡ s.drafts
      → t.entities ≡ s.entities
      → t.dependencies ≡ s.dependencies
      → q t ≡ q s

  pub dependency-IsStable : (q : QuerySet) → IsStable q → IsStable (dependency_drafts q)
  dependency-IsStable q h t drafts entities dependencies = λ i.
      select
        (λ (r : BranchRow).
          affects_any (h t drafts entities dependencies i) (dependencies i) r.entity)
        (drafts i).rows

  -- Published as the draft is, or as it was before and the same as the draft.
  abbrev pub IsSettled : List ℕ → ℕ → Type 0
  IsSettled done e =
      (elem e done ≡ true) ⊎ (version_of e s.publisheds.rows ≡ version_of e s.drafts.rows)

  abbrev pub AreSettled : List ℕ → List BranchRow → Type 0
  AreSettled done = All (λ (r : BranchRow). IsSettled done r.entity)

  more-AreSettled :
      (done done' : List ℕ) (rows : List BranchRow)
      → ((j : ℕ) → elem j done ≡ true → elem j done' ≡ true)
      → AreSettled done rows
      → AreSettled done' rows
  more-AreSettled done done' rows grows h =
      All-map _ _ rows (λ r x. elim x [ inl hit ↦ inl (grows r.entity hit) | inr same ↦ inr same ])
        h

  -- After a layer is published, all of its rows are settled.
  layer-AreSettled :
      (done done' : List ℕ) (t : Store) (rows : List BranchRow)
      → Published s done t
      → All (IsCurrent s) rows
      → ((j : ℕ) → elem j done ≡ true → elem j done' ≡ true)
      → All (λ e. elem e done' ≡ true) (ids (select (is_unpublished t) rows))
      → AreSettled done' rows
  layer-AreSettled done done' t [] p current grows all = tt
  layer-AreSettled done done' t (r ∷ rows) p current grows all =
      elim (Bool-cases (is_unpublished t r)) [
        | inl need ↦
            let (hit, rest) = rw need at all in
            (inl hit, layer-AreSettled done done' t rows p current.1 grows rest)
        | inr fine ↦
            let rest = rw fine at all in
            let here : IsSettled done' r.entity = elim (Bool-cases (elem r.entity done)) [
              | inl hit ↦ inl (grows r.entity hit)
              | inr miss ↦ let v = p.versions r.entity in let now = current.0 in inr (ground arith)
            ] in
            (here, layer-AreSettled done done' t rows p current.1 grows rest)
      ]

  -- A layer: stable, and of drafts.
  pub record IsLayer (q : QuerySet) : Type 0 where
    pub stable : IsStable q
    pub current : All (IsCurrent s) (q s)

  pub publish_layers-AreSettled :
      (lp log : ℕ) (direct done : List ℕ) (layers : List QuerySet) (t : Store)
      → Published s done t
      → All IsLayer layers
      → Ensures
          (λ done' u.
            Published s done' u
            × ((j : ℕ) → elem j done ≡ true → elem j done' ≡ true)
            × All (λ (q : QuerySet). AreSettled done' (q s)) layers)
          (publish_query_sets lp log direct done (only_unpublished layers) t)
  unfolding publish_query_sets
  publish_layers-AreSettled lp log direct done [] t p h = Ensures.returned (p, (λ j x. x), tt)
  publish_layers-AreSettled lp log direct done (q ∷ layers) t p h =
      let same = h.0.stable t p.drafts p.entities p.dependencies in
      let current : All (IsCurrent s) (select (is_unpublished t) (q t)) =
        rw same (All-map _ _ _ (λ r x. x.0) (All-select _ (is_unpublished t) (q s) h.0.current)) in
      chain (publish_rows-Step s lp log direct done (select (is_unpublished t) (q t)) t p current)
        λ done₁ t₁ (p₁, grows, names).
          weaken
            (λ done₂ t₂ (p₂, grows', rest). (
              p₂,
              (λ j x. grows' j (grows j x)),
              (
                more-AreSettled done₁ done₂ (q s) grows' (
                    layer-AreSettled done done₁ t (q s) p h.0.current grows (
                      subst
                        (λ rs. All (λ e. elem e done₁ ≡ true) (ids (select (is_unpublished t) rs)))
                        same names)),
                rest,
              ),
            ))
            (publish_layers-AreSettled lp log direct done₁ layers t₁ p₁ h.1)
