-- ===== src/Publishing/Bulk/Rows.antt =====
-- Tables of drafts with a primary key, and the rows among them that are to be reset.
use openedx_core.Common.{
  ℕ, ◌≡◌, refl, inl, inr, Bool, true, false, Option, List, [], ◌∷◌, ◌==◌, if◌then◌else◌, select,
  All, All-map, All-select, arith, Bool-cases, ==_iff,
}
use openedx_core.Publishing.Models.{Store, BranchRow}
use openedx_core.Publishing.Tables.{version_of}
use openedx_core.Publishing.Bulk.{needs_reset}
use openedx_core.Publishing.Publish.{in_package}

-- No two rows are of the same entity: the primary key of the drafts.
abbrev pub Keyed : List BranchRow → Type 0
Keyed [] = Unit
Keyed (r ∷ rows) = All (λ (x : BranchRow). (r.entity == x.entity) ≡ false) rows × Keyed rows

abbrev pub mentions : ℕ → List BranchRow → Bool
mentions j [] = false
mentions j (r ∷ rows) = if r.entity == j then true else mentions j rows

pub Keyed-select :
    (p : BranchRow → Bool) (rows : List BranchRow) → Keyed rows → Keyed (select p rows)
Keyed-select p [] k = tt
Keyed-select p (r ∷ rows) k = elim (Bool-cases (p r)) [
  | inl kept ↦
      rw kept (All-map _ _ _ (λ x h. h.0) (All-select _ p rows k.0), Keyed-select p rows k.1)
  | inr dropped ↦ rw dropped (Keyed-select p rows k.1)
]

-- In a table with a primary key, every row is the one that a lookup finds.
pub Keyed-current :
    (rows : List BranchRow)
    → Keyed rows
    → All (λ (r : BranchRow). r.version ≡ version_of r.entity rows) rows
Keyed-current [] k = tt
Keyed-current (r ∷ rows) (far, k) = (ground arith, later rows far (Keyed-current rows k))
  where
    later :
        (xs : List BranchRow)
        → All (λ (x : BranchRow). (r.entity == x.entity) ≡ false) xs
        → All (λ (x : BranchRow). x.version ≡ version_of x.entity rows) xs
        → All (λ (x : BranchRow). x.version ≡ version_of x.entity (r ∷ rows)) xs
    later [] far h = tt
    later (x ∷ xs) far h = (ground (arith, far.0, h.0), later xs far.1 h.1)

pub select-mentions :
    (p : BranchRow → Bool) (rows : List BranchRow)
    → All (λ (r : BranchRow). p r ≡ true → mentions r.entity (select p rows) ≡ true) rows
select-mentions p [] = tt
select-mentions p (r ∷ rows) = elim (Bool-cases (p r)) [
  | inl kept ↦ rw kept (
    (λ h. ground arith),
    All-map _ _ rows (λ x f h. ground (arith, f h)) (select-mentions p rows),
  )
  | inr dropped ↦
      rw dropped
        ((λ h. cc), All-map _ _ rows (λ x f h. ground (arith, f h)) (select-mentions p rows))
]

pub not-needs_reset :
    (lp : ℕ) (s : Store) (r : BranchRow)
    → in_package s lp r ≡ true
    → needs_reset s lp r ≡ false
    → r.version ≡ version_of r.entity s.publisheds.rows
not-needs_reset lp s r ours h = ground arith

-- What is reset is in the package.
pub foreign-mentions :
    (lp : ℕ) (s : Store) (r : BranchRow) (rows : List BranchRow)
    → in_package s lp r ≡ false
    → mentions r.entity (select (needs_reset s lp) rows) ≡ false
foreign-mentions lp s r [] h = refl
foreign-mentions lp s r (x ∷ rows) h = elim (Bool-cases (x.entity == r.entity)) [
  | inl same ↦
      let e≡ = (==_iff x.entity r.entity).0 same in
      let out : needs_reset s lp x ≡ false = rw e≡ (foreign x.version x.log_record) in
      rw out (foreign-mentions lp s r rows h)
  | inr other ↦ ground (arith, foreign-mentions lp s r rows h)
]
  where
    foreign :
        (v i : Option ℕ)
        → needs_reset s lp (record { entity = r.entity; version = v; log_record = i }) ≡ false
    foreign v i = ground arith
