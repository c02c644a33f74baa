-- ===== src/Publishing/Drafts/Records.antt =====
-- What a change in a bulk context does to the records of the drafts: `Recorded`, and the keys and
-- ids of the records.
use openedx_core.Common.{
  ℕ, suc, ◌≡◌, inl, inr, true, false, not, Option, none, some, [], ◌∷◌, ◌++◌, ◌==◌, opt_eq, select,
  arith, Bool-cases, Option-cases,
}
use openedx_core.Publishing.Models.{LogRecord, ChangeLog, Branch, Store}
use openedx_core.Publishing.Tables.{find_record, set_new_version}
use openedx_core.Publishing.Monad.{ok, and_then-eq-ok}
use openedx_core.Publishing.Drafts.{new_record, add_to_existing_draft_change_log, change_in_context}

-- The record of a change is created, cancelled or merged with the one that is there.
pub data Recorded (log e : ℕ) (old new : Option ℕ) (b b' : Branch) : Type 0 where
  created :
      find_record log e b.records ≡ none
      → b'.records ≡ b.records ++ new_record log e old new b ∷ []
      → b'.next_record ≡ suc b.next_record
      → Recorded log e old new b b'
  cancelled :
      (r : LogRecord)
      → find_record log e b.records ≡ some r
      → opt_eq r.old_version new ≡ true
      → b'.records ≡ select (λ (x : LogRecord). not (x.id == r.id)) b.records
      → b'.next_record ≡ b.next_record
      → Recorded log e old new b b'
  merged :
      (r : LogRecord)
      → find_record log e b.records ≡ some r
      → opt_eq r.old_version new ≡ false
      → b'.records ≡ set_new_version r.id new b.records
      → b'.next_record ≡ b.next_record
      → Recorded log e old new b b'

pub change_in_context-Recorded :
    (active : ChangeLog) (e : ℕ) (old new : Option ℕ) (s s' : Store)
    → change_in_context active e old new s ≡ ok (tt, s')
    → Recorded active.id e old new s.drafts s'.drafts
unfolding change_in_context add_to_existing_draft_change_log
change_in_context-Recorded active e old new s s' h =
    let ((left, m), added, rest) =
      and_then-eq-ok (add_to_existing_draft_change_log active e old new s) _ h in
    elim (Option-cases (find_record active.id e s.drafts.records)) [
      | inl fresh ↦ Recorded.created fresh (ground arith) (ground arith)
      | inr (r, found) ↦ elim (Bool-cases (opt_eq r.old_version new)) [
        | inr apart ↦ Recorded.merged r found apart (ground arith) (ground arith)
        | inl back ↦ Recorded.cancelled r found back (ground arith) (ground arith)
      ]
    ]
