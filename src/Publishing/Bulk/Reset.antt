-- ===== src/Publishing/Bulk/Reset.antt =====
-- `reset_drafts_to_published`: the drafts after it.
use mathlib.Core.Path.{subst}
use openedx_core.Common.{
  ℕ, ◌≡◌, refl, sym, ◌∙◌, inl, inr, true, false, Option, none, List, [], ◌∷◌, ◌==◌, if◌then◌else◌,
  or_else, All, All-map, All-select, All-both, arith, List-cases, Bool-cases, Option-cases, ==_iff,
}
use openedx_core.Publishing.Models.{Store, BranchRow}
use openedx_core.Publishing.Monad.{ok}
use openedx_core.Publishing.Ensures.{Ensures, of_ok, Ensures-ok, weaken, chain}
use openedx_core.Publishing.Tables.{version_of}
use openedx_core.Publishing.Logs.{World}
use openedx_core.Publishing.Drafts.{get_active_draft_change_log}
use openedx_core.Publishing.Drafts.Outcome.{Keeps, side_effects-Keeps, emit_event-Keeps}
use openedx_core.Publishing.Drafts.Set.{set_resolved-Sets}
use openedx_core.Publishing.Bulk.{
  enter, leave, leave_log, delete_if_empty, bulk_draft_changes_for, needs_reset, drafts_to_reset,
  reset_all, reset_drafts_to_published,
}
use openedx_core.Publishing.Publish.{in_package}
use openedx_core.Publishing.Queries.{get_draft_version, get_published_version}
use openedx_core.Publishing.Bulk.Rows.{
  Keyed, mentions, Keyed-select, Keyed-current, select-mentions, foreign-mentions, not-needs_reset,
}

-- The drafts of the rows are as published, and the others as they were.
record ResetTo (rows : List BranchRow) (s t : Store) : Type 0 where
  pub publisheds : t.publisheds ≡ s.publisheds
  pub drafts :
      (j : ℕ)
      → version_of j t.drafts.rows
        ≡ (if mentions j rows then version_of j s.publisheds.rows else version_of j s.drafts.rows)

reset_all-ResetTo :
    (w : World) (rows : List BranchRow) (s : Store)
    → Keyed rows
    → All (λ (r : BranchRow). r.version ≡ version_of r.entity s.drafts.rows) rows
    → Ensures (λ _. ResetTo rows s) (reset_all w rows s)
unfolding reset_all
reset_all-ResetTo w [] s keyed current =
    Ensures.returned (record { publisheds = refl; drafts = λ j. refl })
reset_all-ResetTo w (row ∷ rows) s keyed current =
    chain (set_resolved-Sets w (version_of row.entity s.publisheds.rows) none none row s current.0)
      λ _ t sets.
        weaken
          (λ _ u rest. record {
            publisheds = rest.publisheds ∙ sets.tables.publisheds;
            drafts = λ j. elim (Bool-cases (row.entity == j)) [
              | inl same ↦
                  let e≡j = (==_iff row.entity j).0 same in
                  ground (arith, rest.drafts j, sets.drafts j, sets.tables.publisheds)
              | inr other ↦ ground (arith, rest.drafts j, sets.drafts j, sets.tables.publisheds)
            ];
          })
          (reset_all-ResetTo w rows t keyed.1 (
            All-apart row.entity s.drafts.rows t.drafts.rows rows keyed.0 current.1
              (λ j other. ground (arith, sets.drafts j))))
  where
    All-apart :
        (e : ℕ) (rs ss xs : List BranchRow)
        → All (λ (x : BranchRow). (e == x.entity) ≡ false) xs
        → All (λ (x : BranchRow). x.version ≡ version_of x.entity rs) xs
        → ((j : ℕ) → (e == j) ≡ false → version_of j ss ≡ version_of j rs)
        → All (λ (x : BranchRow). x.version ≡ version_of x.entity ss) xs
    All-apart e rs ss [] far here same = tt
    All-apart e rs ss (x ∷ xs) far here same =
        (here.0 ∙ sym (same x.entity far.0), All-apart e rs ss xs far.1 here.1 same)

-- What changes neither the published tables nor the versions of the drafts.
record Kept (s t : Store) : Type 0 where
  pub publisheds : t.publisheds ≡ s.publisheds
  pub drafts : (j : ℕ) → version_of j t.drafts.rows ≡ version_of j s.drafts.rows

Keeps-Kept : {s t : Store} → Keeps s t → Kept s t
Keeps-Kept k = record { publisheds = k.tables.publisheds; drafts = k.drafts }

Kept-trans : {s t u : Store} → Kept s t → Kept t u → Kept s u
Kept-trans a b = record {
  publisheds = b.publisheds ∙ a.publisheds;
  drafts = λ j. b.drafts j ∙ a.drafts j;
}

enter-Kept :
    (lp at : ℕ) (by : Option ℕ) (s : Store)
    → Ensures (λ _ t. Kept s t × (t.drafts.rows ≡ s.drafts.rows)) (enter lp at by s)
unfolding enter
enter-Kept lp at by s = Ensures.returned (record { publisheds = refl; drafts = λ j. refl }, refl)

delete_if_empty-Kept : (log : ℕ) (s : Store) → Kept s (delete_if_empty log s)
delete_if_empty-Kept log s = record { publisheds = ground arith; drafts = λ j. ground arith }

leave-Kept :
    (w : World) (at : ℕ) (by : Option ℕ) (s : Store) → Ensures (λ _. Kept s) (leave w at by s)
unfolding leave leave_log
leave-Kept w at by s = elim (List-cases s.draft_change_logs) [
  | inl none_left ↦
      rw none_left (Ensures.returned (record { publisheds = refl; drafts = λ j. refl }))
  | inr (log, logs, stack) ↦ rw stack (
      chain (of_ok _ (λ _ t. side_effects-Keeps w log.id (record s { draft_change_logs = logs }) t))
        λ _ t k₁. chain (of_ok _ (λ _ u. emit_event-Keeps log at by t u)) λ _ u k₂.
          Ensures.returned (
            Kept-trans (record { publisheds = k₁.tables.publisheds; drafts = k₁.drafts })
              (Kept-trans (Keeps-Kept k₂) (delete_if_empty-Kept log.id u))))
]

ResetTo-Kept :
    {rows : List BranchRow} {s t u : Store} → ResetTo rows s t → Kept t u → ResetTo rows s u
ResetTo-Kept a k = record {
  publisheds = k.publisheds ∙ a.publisheds;
  drafts = λ j. k.drafts j ∙ a.drafts j;
}

Kept-ResetTo :
    {rows : List BranchRow} {s t u : Store} → Kept s t → ResetTo rows t u → ResetTo rows s u
Kept-ResetTo k a = record {
  publisheds = a.publisheds ∙ k.publisheds;
  drafts = λ j. ground (arith, a.drafts j, k.drafts j, k.publisheds);
}

abbrev Current : Store → List BranchRow → Type 0
Current s = All (λ (r : BranchRow). r.version ≡ version_of r.entity s.drafts.rows)

reset_drafts-ResetTo :
    (w : World) (lp : ℕ) (at by : Option ℕ) (s : Store)
    → Keyed (drafts_to_reset lp s)
    → Current s (drafts_to_reset lp s)
    → Ensures (λ _. ResetTo (drafts_to_reset lp s) s) (reset_drafts_to_published w lp at by s)
unfolding reset_drafts_to_published bulk_draft_changes_for
reset_drafts-ResetTo w lp at by s keyed current = elim (List-cases (drafts_to_reset lp s)) [
  | inl nothing ↦ rw nothing (Ensures.returned (record { publisheds = refl; drafts = λ j. refl }))
  | inr (r, rs, rows) ↦
      let keyed' : Keyed (r ∷ rs) = subst Keyed rows keyed in
      let current' : Current s (r ∷ rs) = subst (Current s) rows current in
      elim (Option-cases (get_active_draft_change_log lp s)) [
        | inr (log, bulk) ↦ rw (rows, bulk) (reset_all-ResetTo w (r ∷ rs) s keyed' current')
        | inl free ↦
            rw (rows, free)
              (chain (enter-Kept lp (or_else at w.now) by s) λ _ t (kept, same).
                chain
                  (reset_all-ResetTo w (r ∷ rs) t keyed' (
                    subst
                      (λ ds. All (λ (x : BranchRow). x.version ≡ version_of x.entity ds) (r ∷ rs))
                      (sym same) current'))
                  λ _ u reset.
                    chain (leave-Kept w (or_else at w.now) by u)
                      λ _ v left. Ensures.returned (ResetTo-Kept (Kept-ResetTo kept reset) left))
      ]
]

-- A row of the drafts after the reset.
settled :
    (lp : ℕ) (s s' : Store)
    → ResetTo (drafts_to_reset lp s) s s'
    → (r : BranchRow) → r.version ≡ version_of r.entity s.drafts.rows
    → (needs_reset s lp r ≡ true → mentions r.entity (drafts_to_reset lp s) ≡ true)
    → version_of r.entity s'.drafts.rows ≡ (
        if in_package s lp r
        then version_of r.entity s.publisheds.rows
        else version_of r.entity s.drafts.rows)
settled lp s s' reset r current found = elim (Bool-cases (in_package s lp r)) [
  | inr outside ↦
      rw (outside, reset.drafts r.entity, foreign-mentions lp s r s.drafts.rows outside) refl
  | inl inside ↦ elim (Bool-cases (needs_reset s lp r)) [
    | inl need ↦ rw (inside, reset.drafts r.entity, found need) refl
    | inr fine ↦
        let live = not-needs_reset lp s r inside fine in
        elim (Bool-cases (mentions r.entity (drafts_to_reset lp s))) [
          | inl hit ↦ rw (inside, reset.drafts r.entity, hit) refl
          | inr miss ↦ rw (inside, reset.drafts r.entity, miss) (sym current ∙ live)
        ]
  ]
]

-- When `reset_drafts_to_published` returns, every draft of the package has the published version,
-- the drafts of entities of other packages have the versions that they had, and nothing that is
-- published has changed.
pub reset_drafts_lem :
    (w : World) (lp : ℕ) (at by : Option ℕ) (s s' : Store)
    → Keyed s.drafts.rows
    → reset_drafts_to_published w lp at by s ≡ ok (tt, s')
    → All
        (λ (r : BranchRow). get_draft_version r.entity s' ≡ (
          if in_package s lp r
          then get_published_version r.entity s
          else get_draft_version r.entity s))
        s.drafts.rows
      × (s'.publisheds ≡ s.publisheds)
unfolding get_draft_version get_published_version
reset_drafts_lem w lp at by s s' keyed h =
    let current = Keyed-current s.drafts.rows keyed in
    let reset =
      Ensures-ok
        (reset_drafts-ResetTo w lp at by s (Keyed-select (needs_reset s lp) s.drafts.rows keyed)
          (All-map _ _ _ (λ r x. x.0) (All-select _ (needs_reset s lp) s.drafts.rows current)))
        h in
    (
      All-map _ _ s.drafts.rows (λ r x. settled lp s s' reset r x.0 x.1)
          (All-both _ _ s.drafts.rows current (select-mentions (needs_reset s lp) s.drafts.rows)),
      reset.publisheds,
    )
