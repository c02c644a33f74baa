-- ===== src/Publishing/Publish/Dependencies.antt =====
-- `publish_from_drafts` with the dependencies: the drafts that are asked for and all that they
-- depend on.
use mathlib.Core.Path.{subst}
use openedx_core.Common.{
  ℕ, String, ◌≡◌, sym, inl, inr, true, Option, List, [], ◌∷◌, ◌==◌, elem, All, or_else, arith,
  Bool-cases, Option-cases, ==_iff,
}
use openedx_core.Publishing.Models.{BranchRow, ChangeLog, Store}
use openedx_core.Publishing.Tables.{version_of}
use openedx_core.Publishing.Monad.{ok}
use openedx_core.Publishing.Ensures.{Ensures, Ensures-ok, weaken, chain}
use openedx_core.Publishing.Logs.{World}
use openedx_core.Publishing.Drafts.{get_active_draft_change_log}
use openedx_core.Publishing.Publish.{
  QuerySet, ids, dependency_drafts, only_unpublished, publish_query_sets, publish_from_drafts,
  dependency_query_sets,
}
use openedx_core.Publishing.Publish.Outcome.{Published, IsCurrent, publish_rows-Step}
use openedx_core.Publishing.Publish.FromDrafts.{
  start-Ready, Ready, log-Ready, effects-Published, event-Published,
}
use openedx_core.Publishing.Publish.Layers.{
  Reaches, IsStable, IsLayer, IsSettled, AreSettled, publish_layers-AreSettled,
}
use openedx_core.Publishing.Bulk.Rows.{Keyed, Keyed-current}
use openedx_core.Publishing.Queries.{get_draft_version, get_published_version}
use openedx_core.Publishing.Publish.Covers.{in_layers, layers-found}

module _ (s : Store) where
  -- The drafts that are asked for are published.
  abbrev AllPublished : QuerySet → Store → Type 0
  AllPublished q t =
      (e : ℕ) → Reaches s e q → version_of e t.publisheds.rows ≡ version_of e s.drafts.rows

  settled-version :
      (done : List ℕ) (t : Store) (e : ℕ)
      → Published s done t
      → IsSettled s done e
      → version_of e t.publisheds.rows ≡ version_of e s.drafts.rows
  settled-version done t e p (inl hit) = ground (arith, p.versions e)
  settled-version done t e p (inr same) = elim (Bool-cases (elem e done)) [
    | inl hit ↦ ground (arith, p.versions e)
    | inr miss ↦ ground (arith, p.versions e)
  ]

  elem-All :
      (P : ℕ → Type 0) (e : ℕ) (rows : List BranchRow)
      → All (λ (r : BranchRow). P r.entity) rows
      → elem e (ids rows) ≡ true
      → P e
  elem-All P e [] h hit = cc
  elem-All P e (r ∷ rows) h hit = elim (Bool-cases (e == r.entity)) [
    | inl same ↦ subst P (sym ((==_iff e r.entity).0 same)) h.0
    | inr other ↦ elem-All P e rows h.1 (ground arith)
  ]

  layers-IsSettled :
      (done : List ℕ) (e : ℕ) (layers : List QuerySet)
      → All (λ (q : QuerySet). AreSettled s done (q s)) layers
      → in_layers s e layers ≡ true
      → IsSettled s done e
  layers-IsSettled done e [] h hit = cc
  layers-IsSettled done e (q ∷ layers) h hit = elim (Bool-cases (elem e (ids (q s)))) [
    | inl here ↦ elem-All (IsSettled s done) e (q s) h.0 here
    | inr later ↦ layers-IsSettled done e layers h.1 (ground arith)
  ]

  named-elem :
      (done : List ℕ) (e : ℕ) (es : List ℕ)
      → All (λ j. elem j done ≡ true) es
      → elem e es ≡ true
      → elem e done ≡ true
  named-elem done e [] h hit = cc
  named-elem done e (j ∷ es) h hit = elim (Bool-cases (e == j)) [
    | inl same ↦ subst (λ i. elem i done ≡ true) (sym ((==_iff e j).0 same)) h.0
    | inr other ↦ named-elem done e es h.1 (ground arith)
  ]

  -- The query set itself, then its layers.
  publish_asked :
      (lp log : ℕ) (direct : List ℕ) (q : QuerySet) (qs layers : List QuerySet) (u : Store)
      → qs ≡ only_unpublished layers
      → Published s [] u
      → All (IsCurrent s) (q u)
      → All (IsLayer s) layers
      → Ensures
          (λ done v.
            Published s done v
            × ((e : ℕ) → elem e (ids (q u)) ≡ true → elem e done ≡ true)
            × All (λ (r : QuerySet). AreSettled s done (r s)) layers)
          (publish_query_sets lp log direct [] (q ∷ qs) u)
  unfolding publish_query_sets
  publish_asked lp log direct q qs layers u names p current hs = rw names (
      chain (publish_rows-Step s lp log direct [] (q u) u p current) λ done₁ u₁ (p₁, grows, first).
        weaken
          (λ done₂ u₂ (p₂, grows', rest).
            (p₂, (λ e hit. grows' e (named-elem done₁ e (ids (q u)) first hit)), rest))
          (publish_layers-AreSettled s lp log direct done₁ layers u₁ p₁ hs))

  reached :
      (q : QuerySet) (done : List ℕ) (layers : List QuerySet)
      → ((e : ℕ) → elem e (ids (q s)) ≡ true → elem e done ≡ true)
      → All (λ (r : QuerySet). AreSettled s done (r s)) layers
      → ((e : ℕ) → Reaches s e (dependency_drafts q) → in_layers s e layers ≡ true)
      → (e : ℕ) → Reaches s e q
      → IsSettled s done e
  reached q done layers direct settled covers e (Reaches.here hit) = inl (direct e hit)
  reached q done layers direct settled covers e (Reaches.there more) =
      layers-IsSettled done e layers settled (covers e more)

  publish-AllPublished :
      (keyed : All (IsCurrent s) s.drafts.rows) (w : World) (lp : ℕ) (q : QuerySet)
      (message : String) (at by : Option ℕ)
      → IsLayer s q
      → Ensures (λ _. AllPublished q) (publish_from_drafts w lp q message at by true s)
  unfolding publish_from_drafts dependency_query_sets
  publish-AllPublished keyed w lp q message at by h =
      elim (Option-cases (get_active_draft_change_log lp s)) [
        | inr (log, bulk) ↦ rw bulk Ensures.raised
        | inl free ↦ rw free (
            chain (layers-found s keyed q h) λ qs t (layers, names, same, hs, covers).
              chain
                (log-Ready s keyed w lp message (or_else at w.now) by t
                  (subst (Ready s keyed) (sym same) (start-Ready s keyed)))
                λ log u (p, _).
                  let seen = h.stable u p.drafts p.entities p.dependencies in
                  let current : All (IsCurrent s) (q u) =
                    subst (All (IsCurrent s)) (sym seen) h.current in
                  chain (publish_asked lp log.id (ids (q t)) q qs layers u names p current hs)
                    λ done u₃ (p₃, direct, settled).
                      chain (effects-Published s keyed w log.id done u₃ p₃) λ _ u₄ p₄.
                        chain (event-Published s keyed log (or_else at w.now) by done u₄ p₄)
                          λ _ u₅ p₅. Ensures.returned λ e r. settled-version done u₅ e p₅ (
                            reached q done layers
                              (λ j hit.
                                direct j (subst (λ rs. elem j (ids rs) ≡ true) (sym seen) hit))
                              settled covers e r))
      ]

-- When `publish_from_drafts` returns, with dependencies and for a query set of drafts that does not
-- read what is published, the published version of every entity of the query set, and of all that
-- they depend on, directly or through others, is the draft version.
pub publish_from_drafts_lem :
    (w : World) (lp : ℕ) (q : QuerySet) (message : String) (at by : Option ℕ) (s s' : Store)
    (log : ChangeLog)
    → Keyed s.drafts.rows
    → IsStable s q
    → All (IsCurrent s) (q s)
    → publish_from_drafts w lp q message at by true s ≡ ok (log, s')
    → (e : ℕ) → Reaches s e q
    → get_published_version e s' ≡ get_draft_version e s
unfolding get_draft_version get_published_version
publish_from_drafts_lem w lp q message at by s s' log keyed stable current h =
    let layer : IsLayer s q = record { stable = stable; current = current } in
    Ensures-ok
      (publish-AllPublished s (Keyed-current s.drafts.rows keyed) w lp q message at by layer) h
