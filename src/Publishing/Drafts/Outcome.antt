-- ===== src/Publishing/Drafts/Outcome.antt =====
-- What `set_draft_version` does to the drafts, in a bulk context and alone.
use openedx_core.Common.{
  ℕ, ◌≡◌, ◌∙◌, inl, inr, Option, none, some, ◌==◌, if◌then◌else◌, opt_eq, arith, Option-cases,
}
use openedx_core.Publishing.Models.{BranchRow, ChangeLog, Store, draft}
use openedx_core.Publishing.Tables.{version_of, find_record}
use openedx_core.Publishing.Tables.Laws.{version_of-save_row, version_of-update_where}
use openedx_core.Publishing.Monad.{ok, and_then, and_then-eq-ok}
use openedx_core.Publishing.Ensures.{Ensures, of_ok, weaken, chain}
use openedx_core.Publishing.Logs.{
  World, create_side_effects_for_change_log, emit_event_for_change_log,
}
use openedx_core.Publishing.Logs.Frame.{
  create_side_effects_for_change_log-SameVersions, emit_event-keeps,
}
use openedx_core.Publishing.Drafts.{
  add_to_existing_draft_change_log, change_in_context, change_alone, save_draft,
  create_draft_record, create_draft_change_log,
}

-- What a change of drafts leaves alone.
pub record SameTables (s s' : Store) : Type 0 where
  pub entities : s'.entities ≡ s.entities
  pub versions : s'.versions ≡ s.versions
  pub dependencies : s'.dependencies ≡ s.dependencies
  pub publisheds : s'.publisheds ≡ s.publisheds
  pub stack : s'.draft_change_logs ≡ s.draft_change_logs

-- The drafts have the versions that they had.
pub record Keeps (s s' : Store) : Type 0 where
  pub tables : SameTables s s'
  pub drafts : (j : ℕ) → version_of j s'.drafts.rows ≡ version_of j s.drafts.rows

-- The draft of `e` has the version `v`, and the other drafts have the versions that they had.
pub record Sets (e : ℕ) (v : Option ℕ) (s s' : Store) : Type 0 where
  pub tables : SameTables s s'
  pub drafts :
      (j : ℕ) → version_of j s'.drafts.rows ≡ (if e == j then v else version_of j s.drafts.rows)

SameTables-trans : {s t u : Store} → SameTables s t → SameTables t u → SameTables s u
SameTables-trans a b = record {
  entities = b.entities ∙ a.entities;
  versions = b.versions ∙ a.versions;
  dependencies = b.dependencies ∙ a.dependencies;
  publisheds = b.publisheds ∙ a.publisheds;
  stack = b.stack ∙ a.stack;
}

pub Keeps-Sets : {e : ℕ} {v : Option ℕ} {s t u : Store} → Keeps s t → Sets e v t u → Sets e v s u
Keeps-Sets k x = record {
  tables = SameTables-trans k.tables x.tables;
  drafts = λ j. ground (arith, k.drafts j, x.drafts j);
}

pub Keeps-trans : {s t u : Store} → Keeps s t → Keeps t u → Keeps s u
Keeps-trans a b = record {
  tables = SameTables-trans a.tables b.tables;
  drafts = λ j. b.drafts j ∙ a.drafts j;
}

pub Sets-Keeps : {e : ℕ} {v : Option ℕ} {s t u : Store} → Sets e v s t → Keeps t u → Sets e v s u
Sets-Keeps x k = record {
  tables = SameTables-trans x.tables k.tables;
  drafts = λ j. k.drafts j ∙ x.drafts j;
}

add_to_existing-Keeps :
    (active : ChangeLog) (e : ℕ) (old new : Option ℕ) (s s' : Store) (left : Option ℕ)
    → add_to_existing_draft_change_log active e old new s ≡ ok (left, s')
    → Keeps s s'
unfolding add_to_existing_draft_change_log
add_to_existing-Keeps active e old new s s' left h = record {
  tables = ground arith;
  drafts = λ j. elim (Option-cases (find_record active.id e s.drafts.records)) [
    | inl new_one ↦ ground arith
    | inr (r, old_one) ↦ ground (
      arith,
      version_of-update_where j (λ (x : BranchRow). opt_eq x.log_record (some r.id)) none
          s.drafts.rows,
    )
  ];
}

save_draft-Sets :
    (e : ℕ) (v i : Option ℕ) (s s' : Store) → save_draft e v i s ≡ ok (tt, s') → Sets e v s s'
save_draft-Sets e v i s s' h = record {
  tables = ground arith;
  drafts = λ j. ground (
    arith,
    version_of-save_row j (record { entity = e; version = v; log_record = i }) s.drafts.rows,
  );
}

pub change_in_context-Sets :
    (active : ChangeLog) (e : ℕ) (old new : Option ℕ) (s s' : Store)
    → change_in_context active e old new s ≡ ok (tt, s')
    → Sets e new s s'
unfolding change_in_context
change_in_context-Sets active e old new s s' h =
    let ((left, m), added, rest) =
      and_then-eq-ok (add_to_existing_draft_change_log active e old new s) _ h in
    Keeps-Sets (add_to_existing-Keeps active e old new s m left added)
      (save_draft-Sets e new _ m s' rest)

create_log-Keeps :
    (lp at : ℕ) (by : Option ℕ) (s s' : Store) (log : ChangeLog)
    → create_draft_change_log lp at by s ≡ ok (log, s')
    → Keeps s s'
create_log-Keeps lp at by s s' log h = record { tables = ground arith; drafts = λ j. ground arith }

create_record-Keeps :
    (log e i : ℕ) (old new : Option ℕ) (s s' : Store)
    → create_draft_record log e old new s ≡ ok (i, s')
    → Keeps s s'
create_record-Keeps log e i old new s s' h = record {
  tables = ground arith;
  drafts = λ j. ground arith;
}

pub side_effects-Keeps :
    (w : World) (log : ℕ) (s s' : Store)
    → create_side_effects_for_change_log w draft log s ≡ ok (tt, s')
    → Keeps s s'
side_effects-Keeps w log s s' h =
    let (b, same, versions) = create_side_effects_for_change_log-SameVersions w draft log s s' h in
    record { tables = ground arith; drafts = λ j. ground (arith, versions j) }

pub emit_event-Keeps :
    (log : ChangeLog) (t : ℕ) (u : Option ℕ) (s s' : Store)
    → emit_event_for_change_log draft log t u s ≡ ok (tt, s')
    → Keeps s s'
emit_event-Keeps log t u s s' h =
    let same = emit_event-keeps draft log t u s s' h in
    record { tables = ground arith; drafts = λ j. ground arith }

-- The end of a change keeps the versions.
pub finish-Keeps :
    (w : World) (log : ChangeLog) (t : ℕ) (u : Option ℕ) (s : Store)
    → Ensures
        (λ _. Keeps s)
        (and_then
          (create_side_effects_for_change_log w draft log.id s)
          (λ _. emit_event_for_change_log draft log t u))
finish-Keeps w log t u s =
    chain (of_ok _ (λ _ s₁. side_effects-Keeps w log.id s s₁))
      λ _ s₁ k. of_ok _ (λ _ s₂ h. Keeps-trans k (emit_event-Keeps log t u s₁ s₂ h))

pub change_alone-Sets :
    (w : World) (lp e : ℕ) (old new : Option ℕ) (at : ℕ) (by : Option ℕ) (s : Store)
    → Ensures (λ _. Sets e new s) (change_alone w lp e old new at by s)
unfolding change_alone
change_alone-Sets w lp e old new at by s =
    chain (of_ok _ (λ log s₁. create_log-Keeps lp at by s s₁ log)) λ log s₁ k₁.
      chain (of_ok _ (λ i s₂. create_record-Keeps log.id e i old new s₁ s₂)) λ i s₂ k₂.
        chain (of_ok _ (λ _ s₃. save_draft-Sets e new (some i) s₂ s₃)) λ _ s₃ x.
          weaken (λ _ s₄ k₃. Keeps-Sets k₁ (Keeps-Sets k₂ (Sets-Keeps x k₃)))
            (finish-Keeps w log at by s₃)
