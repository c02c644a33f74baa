-- ===== src/Publishing/Publish/Circles.antt =====
-- The crawl of the dependencies where they are circular.
use openedx_core.Common.{
  ℕ, zero, suc, ◌≡◌, refl, ◌∙◌, inl, inr, Bool, true, ◌&&◌, Option, none, some, List, [], ◌∷◌, any,
  All-every, any-select, any_mono, arith, Bool-cases,
}
use openedx_core.Publishing.Models.{BranchRow, Store}
use openedx_core.Publishing.Tables.{depends}
use openedx_core.Publishing.Publish.{QuerySet, affects_any, dependency_drafts, crawl}

-- A set of drafts each of which depends on one of them.
abbrev pub IsCircle : Store → (BranchRow → Bool) → Type 0
IsCircle s p =
    (r : BranchRow)
    → p r ≡ true
    → any (λ (d : BranchRow). p d && depends r.version d.entity s.dependencies) s.drafts.rows ≡ true

module _ (s : Store) (p : BranchRow → Bool) (circle : IsCircle s p) where
  circle-below :
      (rows : List BranchRow)
      → any p rows ≡ true
      → any (λ (d : BranchRow). affects_any rows s.dependencies d.entity && p d) s.drafts.rows
        ≡ true
  circle-below [] h = cc
  circle-below (r ∷ rows) h = elim (Bool-cases (p r)) [
    | inl hit ↦
        any_mono (λ (d : BranchRow). p d && depends r.version d.entity s.dependencies) _
          s.drafts.rows (All-every _ s.drafts.rows λ d b. ground arith) (circle r hit)
    | inr miss ↦
        any_mono (λ (d : BranchRow). affects_any rows s.dependencies d.entity && p d) _
          s.drafts.rows (All-every _ s.drafts.rows λ d b. ground arith)
          (circle-below rows (ground arith))
  ]

  -- A layer with a draft of the circle is not empty.
  nonempty :
      (rows : List BranchRow)
      → any p rows ≡ true
      → elim rows as (λ _. Option (List QuerySet)) [ [] ↦ some [] | _ ∷ _ ↦ none ] ≡ none
  nonempty [] h = cc
  nonempty (r ∷ rows) h = refl

  one_more :
      (q : QuerySet) (rest : Option (List QuerySet)) (rows : List BranchRow)
      → any p rows ≡ true
      → rest ≡ none
      → elim rows as (λ _. Option (List QuerySet)) [
        | [] ↦ some []
        | _ ∷ _ ↦ elim rest [ none ↦ none | some qs ↦ some (q ∷ qs) ]
      ]
        ≡ none
  one_more q rest [] h e = cc
  one_more q rest (r ∷ rows) h e = rw e refl

  -- The crawl of a query set that holds a draft of a circle has not ended after any number of
  -- passes.
  pub crawl_endless : (fuel : ℕ) (q : QuerySet) → any p (q s) ≡ true → crawl fuel q s ≡ none
  unfolding crawl
  crawl_endless zero q h = nonempty (q s) h
  crawl_endless (suc fuel) q h =
      let rest = crawl_endless fuel (dependency_drafts q) (
        any-select (λ (r : BranchRow). affects_any (q s) s.dependencies r.entity) p s.drafts.rows
        ∙ circle-below (q s) h) in
      one_more q _ (q s) h rest
