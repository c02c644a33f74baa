-- ===== src/Publishing/Publish/Covers.antt =====
-- The crawl of the dependencies: what its layers hold.
use openedx_core.Common.{
  ℕ, ◌≡◌, ◌⊎◌, refl, inl, inr, Bool, true, false, Option, none, some, List, [], ◌∷◌, select, any,
  elem, All, All-map, All-select, length, arith, Option-cases, List-cases, zero, suc,
}
use openedx_core.Publishing.Models.{BranchRow, Store}
use openedx_core.Publishing.Ensures.{Ensures}
use openedx_core.Publishing.Publish.{
  QuerySet, ids, dependency_drafts, crawl, only_unpublished, affects_any,
  get_dependencies_with_unpublished_changes,
}
use openedx_core.Publishing.Publish.Outcome.{IsCurrent}
use openedx_core.Publishing.Publish.Layers.{Reaches, dependency-IsStable, IsLayer}

abbrev pub in_layers : Store → ℕ → List QuerySet → Bool
in_layers s e = any (λ (q : QuerySet). elem e (ids (q s)))

module _ (s : Store) where
  nothing-below : (q : QuerySet) → q s ≡ [] → dependency_drafts q s ≡ []
  nothing-below q h = rw h (none_left s.drafts.rows)
    where
      none_left : (rows : List BranchRow) → select (λ (r : BranchRow). false) rows ≡ []
      none_left [] = refl
      none_left (r ∷ rows) = none_left rows

  nothing-Reaches : {e : ℕ} {q : QuerySet} → Reaches s e q → q s ≡ [] → ⊥
  nothing-Reaches (Reaches.here h) empty = let h' = rw empty at h in cc
  nothing-Reaches (Reaches.there {q = q} h) empty = nothing-Reaches h (nothing-below q empty)

  -- What the crawl has found, when it found a first layer.
  crawl-layers :
      (q : QuerySet) (rest : Option (List QuerySet)) (rows : List BranchRow)
      {layers : List QuerySet}
      → elim rows [ [] ↦ some [] | _ ∷ _ ↦ elim rest [ none ↦ none | some qs ↦ some (q ∷ qs) ] ]
        ≡ some layers
      → ((rows ≡ []) × (layers ≡ []))
        ⊎ ((qs : List QuerySet) × (rest ≡ some qs) × (layers ≡ q ∷ qs))
  crawl-layers q rest [] {layers} h = inl (refl, cc)
  crawl-layers q none (r ∷ rows) {layers} h = cc
  crawl-layers q (some qs) (r ∷ rows) {layers} h = inr (qs, refl, cc)

  one-IsLayer :
      (q : QuerySet) (layers : List QuerySet)
      → IsLayer s q
      → All (IsLayer s) layers
        × ((e : ℕ) → Reaches s e (dependency_drafts q) → in_layers s e layers ≡ true)
      → All (IsLayer s) (q ∷ layers) × ((e : ℕ) → Reaches s e q → in_layers s e (q ∷ layers) ≡ true)
  one-IsLayer q layers h (hs, covers) = ((h, hs), reach)
    where
      reach : (e : ℕ) → Reaches s e q → in_layers s e (q ∷ layers) ≡ true
      reach e (Reaches.here hit) = ground arith
      reach e (Reaches.there more) = ground (arith, covers e more)

  dependency-IsLayer :
      (keyed : All (IsCurrent s) s.drafts.rows) (q : QuerySet)
      → IsLayer s q
      → IsLayer s (dependency_drafts q)
  dependency-IsLayer keyed q h = record {
    stable = dependency-IsStable s q h.stable;
    current =
        All-map _ _ _ (λ r x. x.0)
          (All-select _ (λ (r : BranchRow). affects_any (q s) s.dependencies r.entity) s.drafts.rows
            keyed);
  }

  crawl-covers :
      (keyed : All (IsCurrent s) s.drafts.rows) (fuel : ℕ) (q : QuerySet) (layers : List QuerySet)
      → IsLayer s q
      → crawl fuel q s ≡ some layers
      → All (IsLayer s) layers × ((e : ℕ) → Reaches s e q → in_layers s e layers ≡ true)
  unfolding crawl
  crawl-covers keyed zero q layers h e = elim (List-cases (q s)) [
    | inl empty ↦
        let e' = rw (empty, crawl) at e in
        let none_left : layers ≡ [] = cc in
        rw none_left (tt, λ e r. absurd (nothing-Reaches r empty))
    | inr (r, rows, full) ↦ let e' = rw (full, crawl) at e in cc
  ]
  crawl-covers keyed (suc fuel) q layers h e = elim (crawl-layers q _ (q s) {layers = layers} e) [
    | inl (empty, none_left) ↦ rw none_left (tt, λ e r. absurd (nothing-Reaches r empty))
    | inr (qs, found, same) ↦ rw same (
        one-IsLayer q qs h
          (crawl-covers keyed fuel (dependency_drafts q) qs (dependency-IsLayer keyed q h) found))
  ]

  -- The layers that the call finds, and the store that it leaves.
  pub layers-found :
      (keyed : All (IsCurrent s) s.drafts.rows) (q : QuerySet)
      → IsLayer s q
      → Ensures
          (λ qs t.
            (layers : List QuerySet) × (qs ≡ only_unpublished layers)
            × (t ≡ s)
            × All (IsLayer s) layers
            × ((e : ℕ) → Reaches s e (dependency_drafts q) → in_layers s e layers ≡ true))
          (get_dependencies_with_unpublished_changes q s)
  unfolding get_dependencies_with_unpublished_changes
  layers-found keyed q h =
      elim (Option-cases (crawl (length s.drafts.rows) (dependency_drafts q) s)) [
        | inl lost ↦ rw lost Ensures.raised
        | inr (layers, found) ↦
            let (hs, covers) =
              crawl-covers keyed (length s.drafts.rows) (dependency_drafts q) layers
                (dependency-IsLayer keyed q h) found in
            rw found (Ensures.returned (layers, refl, refl, hs, covers))
      ]
