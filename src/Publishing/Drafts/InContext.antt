-- ===== src/Publishing/Drafts/InContext.antt =====
-- Changes of drafts in a bulk context, one after the other.
use mathlib.Core.Path.{subst}
use openedx_core.Common.{
  ℕ, ◌≡◌, refl, sym, ap, ◌∙◌, inl, inr, false, Option, none, some, List, ◌==◌, opt_eq, find, arith,
  Bool-cases, Option-cases, ==_iff,
}
use openedx_core.Publishing.Models.{ChangeLog, Store, BranchRow, PublishableEntity}
use openedx_core.Publishing.Monad.{Error, ok, get_or_raise}
use openedx_core.Publishing.Ensures.{Ensures, Ensures-both, of_ok, chain}
use openedx_core.Publishing.Tables.{find_entity, find_version, find_row, version_of}
use openedx_core.Publishing.Logs.{World}
use openedx_core.Publishing.Drafts.{
  entity_id, get_active_draft_change_log, resolve_draft, check_version, change_in_context,
  set_draft_version,
}
use openedx_core.Publishing.Drafts.Outcome.{change_in_context-Sets}
use openedx_core.Publishing.Drafts.Set.{Resolved, resolve-Resolved}
use openedx_core.Publishing.Drafts.Records.{change_in_context-Recorded}
use openedx_core.Publishing.Drafts.Ids.{IdsOf, Recorded-IdsOf, other_records}
use openedx_core.Publishing.Drafts.Compaction.{IsNet, NetOf, own-IsNet}

get_or_raise-same :
    {A : Type 0} (o : Option A) (e : Error) (s : Store)
    → Ensures (λ a t. (o ≡ some a) × (t ≡ s)) (get_or_raise o e s)
get_or_raise-same none e s = Ensures.raised
get_or_raise-same (some a) e s = Ensures.returned (refl, refl)

check_version-same :
    (e : ℕ) (v : Option ℕ) (s : Store) → Ensures (λ _ t. t ≡ s) (check_version e v s)
unfolding check_version
check_version-same e v s = of_ok _ λ _ t h. sym (same e v s t h)
  where
    same : (e : ℕ) (v : Option ℕ) (s t : Store) → check_version e v s ≡ ok (tt, t) → s ≡ t
    same e none s t h = cc
    same e (some v) s t h = elim (Option-cases (find_version v s)) [
      | inl gone ↦ let h' = rw gone at h in cc
      | inr (x, there) ↦ elim (Bool-cases (x.entity == e)) [
        | inl fits ↦ let h' = rw (there, fits) at h in cc
        | inr wrong ↦ let h' = rw (there, wrong) at h in cc
      ]
    ]

pub resolve-records :
    (e : ℕ) (s : Store)
    → Ensures
        (λ _ t.
          (t.drafts.records ≡ s.drafts.records) × (t.drafts.next_record ≡ s.drafts.next_record))
        (resolve_draft (entity_id e) s)
unfolding resolve_draft
resolve-records e s = elim (Option-cases (find_row e s.drafts.rows)) [
  | inr (row, old) ↦ rw old (Ensures.returned (refl, refl))
  | inl new ↦ elim (Option-cases (find_entity e s)) [
    | inl missing ↦ rw (new, missing) Ensures.raised
    | inr (x, there) ↦ rw (new, there) (Ensures.returned (refl, refl))
  ]
]

module _ (log : ChangeLog) (base : ℕ → Option ℕ) (es : List PublishableEntity) where
  -- The log is active, and its records are the changes from `base` so far.
  pub record InContext (t : Store) : Type 0 where
    pub ids : IdsOf t.drafts.records t.drafts.next_record
    pub net : (j : ℕ) → IsNet log.id j t.drafts.records (base j) (version_of j t.drafts.rows)
    pub active : get_active_draft_change_log log.learning_package t ≡ some log
    pub entities : t.entities ≡ es

  change-InContext :
      (e : ℕ) (v new : Option ℕ) (s t : Store)
      → InContext s
      → v ≡ version_of e s.drafts.rows
      → opt_eq v new ≡ false
      → change_in_context log e v new s ≡ ok (tt, t)
      → InContext t
  unfolding get_active_draft_change_log
  change-InContext e v new s t inn here apart h =
      let sets = change_in_context-Sets log e v new s t h in
      let recorded = change_in_context-Recorded log e v new s t h in
      record {
        ids = Recorded-IdsOf log.id e v new s.drafts t.drafts recorded inn.ids;
        net = λ j. elim (Bool-cases (e == j)) [
          | inl same ↦
              let e≡j = (==_iff e j).0 same in
              let now : version_of j t.drafts.rows ≡ new = ground (arith, sets.drafts j) in
              let before : IsNet log.id e s.drafts.records (base e) v =
                subst (λ x. IsNet log.id e s.drafts.records (base e) x) (sym here) (inn.net e) in
              let after =
                own-IsNet log.id e (base e) v new s.drafts t.drafts recorded apart before in
              subst (λ x. IsNet log.id j t.drafts.records (base j) x) (sym now)
                (subst (λ i. IsNet log.id i t.drafts.records (base i) new) e≡j after)
          | inr other ↦
              let now : version_of j t.drafts.rows ≡ version_of j s.drafts.rows =
                ground (arith, sets.drafts j) in
              let kept =
                other_records log.id e log.id j v new s.drafts t.drafts recorded inn.ids.0 other in
              subst (λ rs. NetOf rs (base j) (version_of j t.drafts.rows)) (sym kept)
                (subst (λ x. IsNet log.id j s.drafts.records (base j) x) (sym now) (inn.net j))
        ];
        active =
            ap (find (λ (l : ChangeLog). l.learning_package == log.learning_package))
              sets.tables.stack
            ∙ inn.active;
        entities = sets.tables.entities ∙ inn.entities;
      }

  -- An entity of the log's package.
  abbrev pub Owned : ℕ → Type 0
  Owned e =
      (x : PublishableEntity) × (find (λ (y : PublishableEntity). y.id == e) es ≡ some x)
      × (x.learning_package ≡ log.learning_package)

  pub Resolved-InContext :
      (e : ℕ) (s t : Store) (row : BranchRow)
      → InContext s
      → Resolved e s row t
      → (t.drafts.records ≡ s.drafts.records) × (t.drafts.next_record ≡ s.drafts.next_record)
      → InContext t
  unfolding get_active_draft_change_log
  Resolved-InContext e s t row inn (keeps, at, version) (records, next) = record {
    ids = rw (records, next) inn.ids;
    net = λ j. rw (records, keeps.drafts j) (inn.net j);
    active =
        ap (find (λ (l : ChangeLog). l.learning_package == log.learning_package)) keeps.tables.stack
        ∙ inn.active;
    entities = keeps.tables.entities ∙ inn.entities;
  }

  pub set_draft_version-InContext :
      (w : World) (e : ℕ) (v at by : Option ℕ) (s : Store)
      → InContext s
      → Owned e
      → Ensures (λ _. InContext) (set_draft_version w (entity_id e) v at by s)
  unfolding set_draft_version
  set_draft_version-InContext w e v at by s inn (owner, there, ours) =
      chain (Ensures-both (resolve-Resolved e s) (resolve-records e s))
        λ row s₁ (resolved, records).
          let inn₁ = Resolved-InContext e s s₁ row inn resolved records in
          let (keeps, at_e, version) = resolved in
          elim (Bool-cases (opt_eq row.version v)) [
            | inl same ↦ rw same (Ensures.returned inn₁)
            | inr change ↦ rw change (
                chain (get_or_raise-same (find_entity row.entity s₁) _ s₁) λ x s₂ (found, e₂).
                  chain (check_version-same x.id v s₂) λ _ s₃ e₃.
                    let inn₃ = subst InContext (sym (e₃ ∙ e₂)) inn₁ in
                    let owner_is : some owner ≡ some x =
                      sym there
                      ∙ ap (find (λ (y : PublishableEntity). y.id == e)) (sym inn₁.entities)
                      ∙ ap (λ i. find_entity i s₁) (sym at_e)
                      ∙ found in
                    let in_lp : x.learning_package ≡ log.learning_package = cc in
                    let current : row.version ≡ version_of row.entity s₃.drafts.rows =
                      version
                      ∙ sym (keeps.drafts e)
                      ∙ ap (λ i. version_of i s₁.drafts.rows) (sym at_e)
                      ∙ ap (λ (u : Store). version_of row.entity u.drafts.rows) (sym (e₃ ∙ e₂)) in
                    let active : get_active_draft_change_log x.learning_package s₃ ≡ some log =
                      rw in_lp inn₃.active in
                    rw active (
                      of_ok _
                        λ _ t. change-InContext row.entity row.version v s₃ t inn₃ current change))
          ]
