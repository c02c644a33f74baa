-- ===== src/Publishing/Publish/FromDrafts.antt =====
-- `publish_from_drafts` as a whole: the layers, the log, the publish, the side effects and the event.
use mathlib.Core.Path.{subst}
use openedx_core.Common.{
  ℕ, String, ◌≡◌, refl, sym, inl, inr, Bool, true, false, Option, none, some, List, [], ◌∷◌, select,
  any, elem, All, All-map, All-select, or_else, length, arith, Bool-cases, Option-cases, zero, suc,
}
use openedx_core.Publishing.Models.{BranchRow, ChangeLog, Branch, Store, published}
use openedx_core.Publishing.Monad.{Error, get_or_raise}
use openedx_core.Publishing.Ensures.{Ensures, of_ok, chain}
use openedx_core.Publishing.Logs.{
  World, create_side_effects_for_change_log, emit_event_for_change_log,
}
use openedx_core.Publishing.Logs.Frame.{
  create_side_effects_for_change_log-SameVersions, emit_event-keeps,
}
use openedx_core.Publishing.Drafts.{get_active_draft_change_log}
use openedx_core.Publishing.Publish.{
  QuerySet, ids, dependency_drafts, crawl, only_unpublished, affects_any, is_unpublished,
  never_published, dependency_query_sets, create_publish_log, publish_from_drafts,
}
use openedx_core.Publishing.Publish.Outcome.{Published, IsCurrent, IsDraftQuery, publish_first-Step}

module _ (s : Store) (keyed : All (IsCurrent s) s.drafts.rows) where
  pub select-IsDraftQuery :
      (p : Store → BranchRow → Bool) (q : QuerySet)
      → IsDraftQuery s q
      → IsDraftQuery s (λ t. select (p t) (q t))
  select-IsDraftQuery p q h = record {
    current = λ t same. All-map _ _ _ (λ r x. x.0) (All-select _ (p t) (q t) (h.current t same));
  }

  pub rows-IsDraftQuery : IsDraftQuery s (λ t. t.drafts.rows)
  rows-IsDraftQuery = record {
    current = λ t same. subst (λ (b : Branch). All (IsCurrent s) b.rows) (sym same) keyed;
  }

  pub dependency-IsDraftQuery : (q : QuerySet) → IsDraftQuery s (dependency_drafts q)
  dependency-IsDraftQuery q =
      select-IsDraftQuery (λ t r. affects_any (q t) t.dependencies r.entity) (λ t. t.drafts.rows)
        rows-IsDraftQuery

  abbrev pub AllDraftQueries : Option (List QuerySet) → Type 0
  AllDraftQueries none = Unit
  AllDraftQueries (some qs) = All (IsDraftQuery s) (only_unpublished qs)

  -- One layer more, whatever the rows are.
  crawl_layer :
      (q : QuerySet) (rest : Option (List QuerySet)) (rows : List BranchRow)
      → IsDraftQuery s q
      → AllDraftQueries rest
      → AllDraftQueries
          (elim rows [ [] ↦ some [] | _ ∷ _ ↦ elim rest [ none ↦ none | some qs ↦ some (q ∷ qs) ] ])
  crawl_layer q rest [] h hs = tt
  crawl_layer q none (r ∷ rows) h hs = tt
  crawl_layer q (some qs) (r ∷ rows) h hs = (select-IsDraftQuery is_unpublished q h, hs)

  no_layer : (rows : List BranchRow) → AllDraftQueries (elim rows [ [] ↦ some [] | _ ∷ _ ↦ none ])
  no_layer [] = tt
  no_layer (r ∷ rows) = tt

  pub crawl-AllDraftQueries :
      (fuel : ℕ) (q : QuerySet) (t : Store) → IsDraftQuery s q → AllDraftQueries (crawl fuel q t)
  unfolding crawl
  crawl-AllDraftQueries zero q t h = no_layer (q t)
  crawl-AllDraftQueries (suc fuel) q t h =
      crawl_layer q _ (q t) h
        (crawl-AllDraftQueries fuel (dependency_drafts q) t (dependency-IsDraftQuery q))

  abbrev pub Ready : Store → Type 0
  Ready t = Published s [] t × (t.publisheds.rows ≡ s.publisheds.rows)

  pub start-Ready : Ready s
  start-Ready =
      (record { drafts = refl; entities = refl; dependencies = refl; versions = λ j. refl }, refl)

  found-Ready :
      (o : Option (List QuerySet)) (e : Error)
      → AllDraftQueries o
      → Ensures (λ qs t. All (IsDraftQuery s) (only_unpublished qs) × Ready t) (get_or_raise o e s)
  found-Ready none e h = Ensures.raised
  found-Ready (some qs) e h = Ensures.returned (h, start-Ready)

  layers-Ready :
      (q : QuerySet) (b : Bool)
      → Ensures (λ qs t. All (IsDraftQuery s) qs × Ready t) (dependency_query_sets q b s)
  unfolding dependency_query_sets
  layers-Ready q true =
      chain
        (found-Ready _ _ (
          crawl-AllDraftQueries (length s.drafts.rows) (dependency_drafts q) s
            (dependency-IsDraftQuery q)))
        (λ qs t h. Ensures.returned h)
  layers-Ready q false = elim (Bool-cases (any (never_published s) (dependency_drafts q s))) [
    | inl bad ↦ rw bad Ensures.raised
    | inr fine ↦ rw fine (Ensures.returned (tt, start-Ready))
  ]

  pub log-Ready :
      (w : World) (lp : ℕ) (message : String) (at : ℕ) (by : Option ℕ) (t : Store)
      → Ready t
      → Ensures (λ _. Ready) (create_publish_log w lp message at by t)
  unfolding create_publish_log
  log-Ready w lp message at by t (p, same) = of_ok _ λ log u e. (
    record {
      drafts = ground (arith, p.drafts);
      entities = ground (arith, p.entities);
      dependencies = ground (arith, p.dependencies);
      versions = λ j. ground (arith, p.versions j);
    },
    ground (arith, same),
  )

  pub effects-Published :
      (w : World) (log : ℕ) (done : List ℕ) (t : Store)
      → Published s done t
      → Ensures (λ _. Published s done) (create_side_effects_for_change_log w published log t)
  effects-Published w log done t p = of_ok _ λ _ u h.
      let (b, same, versions) =
        create_side_effects_for_change_log-SameVersions w published log t u h in
      record {
        drafts = ground (arith, p.drafts);
        entities = ground (arith, p.entities);
        dependencies = ground (arith, p.dependencies);
        versions = λ j. ground (arith, versions j, p.versions j);
      }

  pub event-Published :
      (log : ChangeLog) (at : ℕ) (by : Option ℕ) (done : List ℕ) (t : Store)
      → Published s done t
      → Ensures (λ _. Published s done) (emit_event_for_change_log published log at by t)
  event-Published log at by done t p = of_ok _ λ _ u h.
      let same = emit_event-keeps published log at by t u h in
      record {
        drafts = ground (arith, p.drafts);
        entities = ground (arith, p.entities);
        dependencies = ground (arith, p.dependencies);
        versions = λ j. ground (arith, p.versions j);
      }

  -- A query that depends on the tables that it reads, and on nothing else.
  abbrev pub ReadsTables : QuerySet → Type 0
  ReadsTables q =
      (t : Store)
      → t.drafts ≡ s.drafts
      → t.entities ≡ s.entities
      → t.dependencies ≡ s.dependencies
      → t.publisheds.rows ≡ s.publisheds.rows
      → q t ≡ q s

  -- The published versions after a publish: those of the drafts for what was published, all that
  -- the query gave included, and those of before for the rest.
  abbrev pub Outcome : QuerySet → Store → Type 0
  Outcome q t = (done : List ℕ) × Published s done t × All (λ e. elem e done ≡ true) (ids (q s))

  pub publish_from_drafts-Outcome :
      (w : World) (lp : ℕ) (q : QuerySet) (message : String) (at by : Option ℕ) (b : Bool)
      → IsDraftQuery s q
      → ReadsTables q
      → Ensures (λ _. Outcome q) (publish_from_drafts w lp q message at by b s)
  unfolding publish_from_drafts
  publish_from_drafts-Outcome w lp q message at by b h reads =
      elim (Option-cases (get_active_draft_change_log lp s)) [
        | inr (log, bulk) ↦ rw bulk Ensures.raised
        | inl free ↦ rw free (
            chain (layers-Ready q b) λ qs t (hs, ready).
              chain (log-Ready w lp message (or_else at w.now) by t ready) λ log u (p, same).
                let seen = reads u p.drafts p.entities p.dependencies same in
                chain (publish_first-Step s lp log.id (ids (q t)) q qs u p (h, hs))
                  λ done u₁ (p₁, _, all). chain (effects-Published w log.id done u₁ p₁) λ _ u₂ p₂.
                    chain (event-Published log (or_else at w.now) by done u₂ p₂) λ _ u₃ p₃.
                      Ensures.returned
                        (done, p₃, subst (λ rs. All (λ e. elem e done ≡ true) (ids rs)) seen all))
      ]
