-- ===== src/Publishing/Drafts/Sequence.antt =====
-- Sequences of changes of drafts in a bulk context.
use mathlib.Core.Path.{subst}
use openedx_core.Common.{
  ℕ, ◌≡◌, ◌<◌, refl, sym, ap, ◌∙◌, inl, inr, true, Option, none, some, List, [], ◌∷◌, ◌==◌, opt_eq,
  select, find, find-true, All, arith, Bool-cases, ==_iff, ◌≤◌,
}
use openedx_core.Publishing.Models.{
  LogRecord, ChangeLog, Store, PublishableEntity, PublishableEntityVersion, SideEffect,
}
use openedx_core.Publishing.Monad.{M, ok, pure, ◌>>◌}
use openedx_core.Publishing.Ensures.{Ensures-both, Ensures-ok}
use openedx_core.Publishing.Tables.{find_entity, version_of, record_key, records_of}
use openedx_core.Publishing.Logs.{World}
use openedx_core.Publishing.Drafts.{entity_id, get_active_draft_change_log, set_draft_version}
use openedx_core.Publishing.Drafts.Set.{resolve-Resolved, set_draft_version-Sets}
use openedx_core.Publishing.Drafts.Records.{change_in_context-Recorded}
use openedx_core.Publishing.Drafts.Ids.{IdsOf}
use openedx_core.Publishing.Drafts.Compaction.{IsNet}
use openedx_core.Publishing.Drafts.InContext.{
  InContext, Owned, set_draft_version-InContext, Resolved-InContext, resolve-records,
}
use openedx_core.Publishing.Drafts.Returns.{
  IsVersionOf, Younger, Younger-IsFree, Recorded-Younger, resolve_returns, check_returns,
  change_returns,
}
use openedx_core.Publishing.Queries.{get_draft_version}

module _ (log : ChangeLog) (base : ℕ → Option ℕ) (es : List PublishableEntity)
    (vs : List PublishableEntityVersion) (n : ℕ) where
  -- A change of the draft of an entity of the package to one of its versions.
  abbrev IsChange : ℕ × Option ℕ → Type 0
  IsChange (e, v) = Owned log base es e × IsVersionOf vs e v

  record IsReady (s : Store) : Type 0 where
    pub context : InContext log base es s
    pub younger : Younger log.id n s.drafts
    pub versions : s.versions ≡ vs

  set_draft_version_returns :
      (w : World) (e : ℕ) (v at by : Option ℕ) (s : Store)
      → IsReady s
      → IsChange (e, v)
      → (t : Store) × (set_draft_version w (entity_id e) v at by s ≡ ok (tt, t))
        × Younger log.id n t.drafts
  unfolding set_draft_version
  set_draft_version_returns w e v at by s ready ((x, there, ours), fits) =
      let there' : find_entity e s ≡ some x =
        ap (find (λ (y : PublishableEntity). y.id == e)) ready.context.entities ∙ there in
      let (row, t, (resolved, effects)) = resolve_returns e s {x = x} there' in
      let (facts, records) =
        Ensures-ok (Ensures-both (resolve-Resolved e s) (resolve-records e s)) resolved in
      let inn = Resolved-InContext log base es e s t row ready.context facts records in
      let young : Younger log.id n t.drafts = record {
        next = rw records.1 ready.younger.next;
        records = rw records.0 ready.younger.records;
        effects = rw effects ready.younger.effects;
      } in
      elim (Bool-cases (opt_eq row.version v)) [
        | inl same ↦ (t, rw (resolved, same) refl, young)
        | inr change ↦
            let found : find_entity row.entity t ≡ some x =
              ap (λ i. find_entity i t) facts.1
              ∙ ap (find (λ (y : PublishableEntity). y.id == e)) inn.entities
              ∙ there in
            let is_e : x.id ≡ e =
              (==_iff x.id e).0
                (find-true (λ (y : PublishableEntity). y.id == e) es {x = x} there) in
            let known : IsVersionOf t.versions x.id v =
              subst (λ l. IsVersionOf l x.id v) (sym (facts.0.tables.versions ∙ ready.versions))
                (subst (λ i. IsVersionOf vs i v) (sym is_e) fits) in
            let checked = check_returns x.id v t known in
            let active : get_active_draft_change_log x.learning_package t ≡ some log =
              rw ours inn.active in
            let (u, changed, effects') =
              change_returns log row.entity row.version v t
                (Younger-IsFree log.id row.entity n t.drafts young) in
            (
              u,
              rw (resolved, change, found, checked, active) changed,
              Recorded-Younger log.id row.entity n row.version v t.drafts u.drafts
                  (change_in_context-Recorded log row.entity row.version v t u changed) effects'
                  young,
            )
      ]

-- The body of a bulk context: changes of drafts in a row.
abbrev pub change_all : World → List (ℕ × Option ℕ) → M (Unit {0})
change_all w [] = pure tt
change_all w ((e, v) ∷ changes) =
    set_draft_version w (entity_id e) v none none >> change_all w changes

change_all_returns :
    (log : ChangeLog) (base : ℕ → Option ℕ) (es : List PublishableEntity)
    (vs : List PublishableEntityVersion) (n : ℕ) (w : World) (changes : List (ℕ × Option ℕ))
    (s : Store)
    → IsReady log base es vs n s
    → All (IsChange log base es vs n) changes
    → (t : Store) × (change_all w changes s ≡ ok (tt, t)) × InContext log base es t
change_all_returns log base es vs n w [] s ready valid = (s, refl, ready.context)
change_all_returns log base es vs n w ((e, v) ∷ changes) s ready valid =
    let (t, done, younger) =
      set_draft_version_returns log base es vs n w e v none none s ready valid.0 in
    let inn =
      Ensures-ok (set_draft_version-InContext log base es w e v none none s ready.context valid.0.0)
        done in
    let sets = Ensures-ok (set_draft_version-Sets w v none none e s) done in
    let ready' : IsReady log base es vs n t = record {
      context = inn;
      younger = younger;
      versions = sets.tables.versions ∙ ready.versions;
    } in
    let (u, rest, last) = change_all_returns log base es vs n w changes t ready' valid.1 in
    (u, rw done rest, last)

records_of-none :
    (log e : ℕ) (rs : List LogRecord) → records_of log rs ≡ [] → select (record_key log e) rs ≡ []
records_of-none log e [] h = refl
records_of-none log e (r ∷ rs) h = elim (Bool-cases (r.log == log)) [
  | inl hit ↦ let h' = rw hit at h in cc
  | inr miss ↦ rw miss (records_of-none log e rs (rw miss at h))
]

records_of-none_young :
    (log n : ℕ) (rs : List LogRecord)
    → records_of log rs ≡ []
    → All (λ (r : LogRecord). (r.log == log) ≡ true → n ≤ r.id) rs
records_of-none_young log n [] h = tt
records_of-none_young log n (r ∷ rs) h = elim (Bool-cases (r.log == log)) [
  | inl hit ↦ let h' = rw hit at h in cc
  | inr miss ↦ ((λ hit. cc), records_of-none_young log n rs (rw miss at h))
]

-- A change of the draft of an entity of the package to none, or to a version of the entity.
abbrev pub IsChangeOf : ℕ → Store → ℕ × Option ℕ → Type 0
IsChangeOf lp s (e, v) =
    ((x : PublishableEntity) × (find_entity e s ≡ some x) × (x.learning_package ≡ lp))
    × IsVersionOf s.versions e v

-- In a bulk context whose log has no record yet, any sequence of changes of drafts of the package
-- to none or to versions of theirs returns. Then the log has no record of an entity that has the
-- draft version of before, and one record of each other entity, from its version of before to the
-- one that it has now.
pub change_all_lem :
    (w : World) (log : ChangeLog) (changes : List (ℕ × Option ℕ)) (s : Store)
    → get_active_draft_change_log log.learning_package s ≡ some log
    → records_of log.id s.drafts.records ≡ []
    → IdsOf s.drafts.records s.drafts.next_record
    → All
        (λ (x : SideEffect). (x.cause < s.drafts.next_record) × (x.effect < s.drafts.next_record))
        s.drafts.side_effects
    → All (IsChangeOf log.learning_package s) changes
    → (s' : Store) × (change_all w changes s ≡ ok (tt, s'))
      × ((e : ℕ)
          → IsNet log.id e s'.drafts.records (get_draft_version e s) (get_draft_version e s'))
unfolding get_draft_version
change_all_lem w log changes s active empty ids effects valid =
    let base = λ (j : ℕ). version_of j s.drafts.rows in
    let n = s.drafts.next_record in
    let ready : IsReady log base s.entities s.versions n s = record {
      context = record {
        ids = ids;
        net = λ j. rw (records_of-none log.id j s.drafts.records empty) refl;
        active = active;
        entities = refl;
      };
      younger = record {
        next = omega arith;
        records = records_of-none_young log.id n s.drafts.records empty;
        effects = effects;
      };
      versions = refl;
    } in
    let (t, done, last) =
      change_all_returns log base s.entities s.versions n w changes s ready valid in
    (t, done, last.net)
