-- ===== src/Publishing/Drafts/Set.antt =====
-- `set_draft_version` as a whole, with the lookup of the draft and the checks.
use mathlib.Core.Path.{subst}
use openedx_core.Common.{
  ℕ, ◌≡◌, ◌≢◌, refl, sym, ap, ◌∙◌, inl, inr, Option, none, some, ◌==◌, if◌then◌else◌, opt_eq,
  opt_eq_iff, arith, Bool-cases, Option-cases, ==_iff,
}
use openedx_core.Publishing.Models.{BranchRow, Store}
use openedx_core.Publishing.Tables.{version_of, find_row, save_row, find_entity, find_version}
use openedx_core.Publishing.Tables.Laws.{version_of-save_row, find_row-some, find_row-none}
use openedx_core.Publishing.Monad.{ok, Error, get_or_raise}
use openedx_core.Publishing.Ensures.{Ensures, of_ok, Ensures-ok, weaken, chain}
use openedx_core.Publishing.Logs.{World}
use openedx_core.Publishing.Drafts.{
  DraftOrId, draft_object, entity_id, other, get_active_draft_change_log, resolve_draft,
  check_version, set_draft_version,
}
use openedx_core.Publishing.Queries.{get_draft_version}
use openedx_core.Publishing.Drafts.Outcome.{
  Keeps, Sets, Keeps-Sets, Keeps-trans, change_in_context-Sets, change_alone-Sets,
}

Keeps-refl : (s : Store) → Keeps s s
Keeps-refl s = record {
  tables = record {
    entities = refl;
    versions = refl;
    dependencies = refl;
    publisheds = refl;
    stack = refl;
  };
  drafts = λ j. refl;
}

get_or_raise-Keeps :
    {A : Type 0} (o : Option A) (e : Error) (s : Store)
    → Ensures (λ _. Keeps s) (get_or_raise o e s)
get_or_raise-Keeps none e s = Ensures.raised
get_or_raise-Keeps (some a) e s = Ensures.returned (Keeps-refl s)

check_version-Keeps :
    (e : ℕ) (v : Option ℕ) (s : Store) → Ensures (λ _. Keeps s) (check_version e v s)
unfolding check_version
check_version-Keeps e none s = Ensures.returned (Keeps-refl s)
check_version-Keeps e (some v) s = chain (get_or_raise-Keeps (find_version v s) _ s) λ x t k.
    elim (Bool-cases (x.entity == e)) [
      | inl fits ↦ rw fits (Ensures.returned k)
      | inr wrong ↦ rw wrong Ensures.raised
    ]

-- The row that the change starts from.
abbrev pub Resolved : ℕ → Store → BranchRow → Store → Type 0
Resolved e s row t = Keeps s t × (row.entity ≡ e) × (row.version ≡ version_of e s.drafts.rows)

pub resolve-Resolved : (e : ℕ) (s : Store) → Ensures (Resolved e s) (resolve_draft (entity_id e) s)
unfolding resolve_draft
resolve-Resolved e s = elim (Option-cases (find_row e s.drafts.rows)) [
  | inr (row, old) ↦
      let (at, version) = find_row-some e s.drafts.rows old in
      rw old (Ensures.returned (Keeps-refl s, at, sym version))
  | inl new ↦ elim (Option-cases (find_entity e s)) [
    | inl missing ↦ rw (new, missing) Ensures.raised
    | inr (x, there) ↦
        let blank = find_row-none e s.drafts.rows new in
        let row : BranchRow = record { entity = e; version = none; log_record = none } in
        let kept : (j : ℕ)
            → version_of j (save_row row s.drafts.rows) ≡ version_of j s.drafts.rows =
          λ j. elim (Bool-cases (e == j)) [
            | inl same ↦
                let e≡j = (==_iff e j).0 same in
                ground (arith, version_of-save_row j row s.drafts.rows)
            | inr apart ↦ ground (arith, version_of-save_row j row s.drafts.rows)
          ] in
        let t : Store = record s {
          drafts = record (s.drafts) { rows = save_row row s.drafts.rows };
        } in
        let k : Keeps s t = record { tables = ground arith; drafts = kept } in
        rw (new, there) (Ensures.returned (k, refl, sym blank))
  ]
]

module _ (w : World) (v : Option ℕ) (set_at set_by : Option ℕ) where
  -- The change of a draft that is as the store has it.
  pub set_resolved-Sets :
      (row : BranchRow) (s : Store)
      → row.version ≡ version_of row.entity s.drafts.rows
      → Ensures
          (λ _. Sets row.entity v s)
          (set_draft_version w (draft_object row) v set_at set_by s)
  unfolding set_draft_version
  set_resolved-Sets row s fresh = elim (Bool-cases (opt_eq row.version v)) [
    | inl same ↦
        let nothing : (j : ℕ)
            → version_of j s.drafts.rows
              ≡ (if row.entity == j then v else version_of j s.drafts.rows) =
          λ j. elim (Bool-cases (row.entity == j)) [
            | inl at ↦
                let here = (==_iff row.entity j).0 at in
                let there = (opt_eq_iff row.version v).0 same in ground arith
            | inr apart ↦ ground arith
          ] in
        rw same (Ensures.returned (record { tables = (Keeps-refl s).tables; drafts = nothing }))
    | inr change ↦ rw change (
        chain (get_or_raise-Keeps (find_entity row.entity s) _ s) λ x s₁ k₁.
          chain (check_version-Keeps x.id v s₁) λ _ s₂ k₂.
            elim (Option-cases (get_active_draft_change_log x.learning_package s₂)) [
              | inl alone ↦ rw alone (
                  weaken (λ _ t. Keeps-Sets (Keeps-trans k₁ k₂))
                    (change_alone-Sets w x.learning_package row.entity row.version v _ set_by s₂))
              | inr (log, bulk) ↦ rw bulk (
                  weaken (λ _ t. Keeps-Sets (Keeps-trans k₁ k₂))
                    (of_ok _ (λ _ t. change_in_context-Sets log row.entity row.version v s₂ t)))
            ])
  ]

  -- The draft given by the entity's id.
  pub set_draft_version-Sets :
      (e : ℕ) (s : Store)
      → Ensures (λ _. Sets e v s) (set_draft_version w (entity_id e) v set_at set_by s)
  unfolding set_draft_version
  set_draft_version-Sets e s = chain (resolve-Resolved e s) λ row s₁ (k, at, version).
      weaken (λ _ t x. Keeps-Sets k (subst (λ i. Sets i v s₁ t) at x))
        (set_resolved-Sets row s₁
          (version ∙ (sym (k.drafts e) ∙ ap (λ i. version_of i s₁.drafts.rows) (sym at))))

-- The argument names the draft of an entity. A `Draft` object has the version that the store has
-- for it; what is neither an object nor an id is refused.
abbrev pub IsDraftOf : DraftOrId → ℕ → Store → Type 0
IsDraftOf (draft_object row) e s = (row.entity ≡ e) × (row.version ≡ version_of e s.drafts.rows)
IsDraftOf (entity_id i) e s = i ≡ e
IsDraftOf other e s = Unit {0}

set_named-Sets :
    (w : World) (d : DraftOrId) (e : ℕ) (v set_at set_by : Option ℕ) (s : Store)
    → IsDraftOf d e s
    → Ensures (λ _. Sets e v s) (set_draft_version w d v set_at set_by s)
unfolding set_draft_version resolve_draft
set_named-Sets w (draft_object row) e v set_at set_by s (at, fresh) =
    let fresh' = fresh ∙ ap (λ i. version_of i s.drafts.rows) (sym at) in
    weaken (λ _ t x. subst (λ i. Sets i v s t) at x)
      (set_resolved-Sets w v set_at set_by row s fresh')
set_named-Sets w (entity_id i) e v set_at set_by s at =
    weaken (λ _ t x. subst (λ k. Sets k v s t) at x) (set_draft_version-Sets w v set_at set_by i s)
set_named-Sets w other e v set_at set_by s at = Ensures.raised

-- When `set_draft_version` returns, for an entity's id or for a `Draft` object that has the version
-- that the store has for it, the draft of the entity has the version that was given, the draft
-- version of every other entity is what it was, and nothing that is published has changed.
pub set_draft_version_lem :
    (w : World) (d : DraftOrId) (e : ℕ) (v set_at set_by : Option ℕ) (s s' : Store)
    → IsDraftOf d e s
    → set_draft_version w d v set_at set_by s ≡ ok (tt, s')
    → (get_draft_version e s' ≡ v)
      × ((j : ℕ) → e ≢ j → get_draft_version j s' ≡ get_draft_version j s)
      × (s'.publisheds ≡ s.publisheds)
unfolding get_draft_version
set_draft_version_lem w d e v set_at set_by s s' named h =
    let x = Ensures-ok (set_named-Sets w d e v set_at set_by s named) h in
    (ground (arith, x.drafts e), λ j apart. ground (arith, x.drafts j), x.tables.publisheds)
