-- ===== src/Publishing/Drafts/Compaction.antt =====
-- The records of an active `DraftChangeLog`: one for each entity whose draft differs from what it
-- was at the start, from that version to the current one.
use openedx_core.Common.{
  ℕ, ◌≡◌, refl, sym, ap, ◌∙◌, true, false, not, Option, none, some, List, [], ◌∷◌, ◌++◌, ◌==◌,
  opt_eq, select, head?, opt_eq_iff, ==_refl, find-head_of_select, select-append, select-select,
  select-update_where,
}
use openedx_core.Publishing.Models.{LogRecord, Branch}
use openedx_core.Publishing.Tables.{find_record, record_key, set_new_version}
use openedx_core.Publishing.Drafts.{new_record}
use openedx_core.Publishing.Drafts.Records.{Recorded}

-- The records of one entity in the log, for a draft that went from `base` to `v`.
abbrev pub NetOf : List LogRecord → (base v : Option ℕ) → Type 0
NetOf [] base v = base ≡ v
NetOf (r ∷ []) base v = (r.old_version ≡ base) × (r.new_version ≡ v) × (opt_eq base v ≡ false)
NetOf (r ∷ x ∷ rs) base v = ⊥

abbrev pub IsNet : ℕ → ℕ → List LogRecord → (base v : Option ℕ) → Type 0
IsNet log e records = NetOf (select (record_key log e) records)

module _ (log e : ℕ) (base v new : Option ℕ) (b b' : Branch) where
  created-IsNet :
      (rs : List LogRecord)
      → select (record_key log e) b.records ≡ rs
      → NetOf rs base v
      → opt_eq v new ≡ false
      → find_record log e b.records ≡ none
      → b'.records ≡ b.records ++ new_record log e v new b ∷ []
      → IsNet log e b'.records base new
  created-IsNet [] own net apart fresh same =
      rw
        (
          same,
          select-append (record_key log e) b.records (new_record log e v new b ∷ []),
          own,
          ==_refl log,
          ==_refl e,
        )
        (sym net, refl, rw net apart)
  created-IsNet (r ∷ rs) own net apart fresh same =
      let found : find_record log e b.records ≡ some r =
        find-head_of_select (record_key log e) b.records ∙ ap head? own in
      cc

  cancelled-IsNet :
      (rs : List LogRecord) (r : LogRecord)
      → select (record_key log e) b.records ≡ rs
      → NetOf rs base v
      → find_record log e b.records ≡ some r
      → opt_eq r.old_version new ≡ true
      → b'.records ≡ select (λ (x : LogRecord). not (x.id == r.id)) b.records
      → IsNet log e b'.records base new
  cancelled-IsNet [] r own net found back same =
      let empty : find_record log e b.records ≡ none =
        find-head_of_select (record_key log e) b.records ∙ ap head? own in
      cc
  cancelled-IsNet (x ∷ []) r own net found back same =
      let first : find_record log e b.records ≡ some x =
        find-head_of_select (record_key log e) b.records ∙ ap head? own in
      let it : x ≡ r = cc in
      let target = (opt_eq_iff r.old_version new).0 back in
      rw
        (
          same,
          select-select (record_key log e) (λ (y : LogRecord). not (y.id == r.id)) b.records,
          own,
          it,
          ==_refl r.id,
        )
        (sym (rw it at net.0) ∙ target)
  cancelled-IsNet (x ∷ y ∷ rs) r own net found back same = absurd net

  merged-IsNet :
      (rs : List LogRecord) (r : LogRecord)
      → select (record_key log e) b.records ≡ rs
      → NetOf rs base v
      → find_record log e b.records ≡ some r
      → opt_eq r.old_version new ≡ false
      → b'.records ≡ set_new_version r.id new b.records
      → IsNet log e b'.records base new
  merged-IsNet [] r own net found apart same =
      let empty : find_record log e b.records ≡ none =
        find-head_of_select (record_key log e) b.records ∙ ap head? own in
      cc
  merged-IsNet (x ∷ []) r own net found apart same =
      let first : find_record log e b.records ≡ some x =
        find-head_of_select (record_key log e) b.records ∙ ap head? own in
      let it : x ≡ r = cc in
      rw
        (
          same,
          select-update_where (record_key log e) (λ (y : LogRecord). y.id == r.id)
              (λ y. record y { new_version = new }) b.records (λ y. refl),
          own,
          it,
          ==_refl r.id,
        )
        (rw it at net.0, refl, rw (sym (rw it at net.0)) apart)
  merged-IsNet (x ∷ y ∷ rs) r own net found apart same = absurd net

  -- The records of the entity that changes.
  pub own-IsNet :
      Recorded log e v new b b'
      → opt_eq v new ≡ false
      → IsNet log e b.records base v
      → IsNet log e b'.records base new
  own-IsNet (Recorded.created fresh same next) apart net = created-IsNet _ refl net apart fresh same
  own-IsNet (Recorded.cancelled r found back same next) apart net =
      cancelled-IsNet _ r refl net found back same
  own-IsNet (Recorded.merged r found off same next) apart net =
      merged-IsNet _ r refl net found off same
