-- ===== src/Publishing/Publish/Crawl.antt =====
-- The crawl of the dependencies, layer by layer: each layer is among fewer drafts than the last.
use openedx_core.Common.{
  ℕ, zero, suc, ◌≤◌, ◌<◌, ◌≡◌, refl, sym, ◌∙◌, ◌⊎◌, inl, inr, Bool, true, false, ◌&&◌, not, Option,
  none, some, List, [], ◌∷◌, leb, select, any, length, length-select, All, All-map, All-every,
  List-cases, Option-cases, any-select, any_mono, length-select-le, length-select-lt, arith,
  Bool-cases,
}
use openedx_core.Publishing.Models.{BranchRow, Store}
use openedx_core.Publishing.Tables.{depends}
use openedx_core.Publishing.Monad.{ok}
use openedx_core.Publishing.Publish.{
  QuerySet, affects_any, dependency_drafts, crawl, only_unpublished,
  get_dependencies_with_unpublished_changes,
}

module _ (rank : ℕ → ℕ) (q : BranchRow → Bool) where
  -- A row of the highest rank among those that pass a test.
  top :
      (rows : List BranchRow)
      → (select q rows ≡ [])
        ⊎ ((m : BranchRow) × (q m ≡ true)
            × All (λ (r : BranchRow). q r ≡ true → rank r.entity ≤ rank m.entity) rows
            × ((p : BranchRow → Bool) → p m ≡ true → any p rows ≡ true))
  top [] = inl refl
  top (r ∷ rows) = elim (Bool-cases (q r)) [
    | inr dropped ↦ elim (top rows) [
      | inl none_left ↦ inl (ground arith)
      | inr (m, hit, high, found) ↦
          inr (m, hit, ((λ h. ground arith), high), λ p h. ground (arith, found p h))
    ]
    | inl kept ↦ elim (top rows) [
      | inl none_left ↦
          inr (r, kept, ((λ h. omega arith), all_dropped rows none_left), λ p h. ground arith)
      | inr (m, hit, high, found) ↦ elim (Bool-cases (leb (rank r.entity) (rank m.entity))) [
        | inl below ↦ inr (m, hit, ((λ h. ground arith), high), λ p h. ground (arith, found p h))
        | inr above ↦ inr (
          r,
          kept,
          ((λ h. omega arith), All-map _ _ rows (λ x le h. ground (arith, le h)) high),
          λ p h. ground arith,
        )
      ]
    ]
  ]
    where
      all_dropped :
          (xs : List BranchRow)
          → select q xs ≡ []
          → All (λ (x : BranchRow). q x ≡ true → rank x.entity ≤ rank r.entity) xs
      all_dropped [] e = tt
      all_dropped (x ∷ xs) e = elim (Bool-cases (q x)) [
        | inl hit ↦ let bad = rw hit at e in cc
        | inr miss ↦ ((λ h. cc), all_dropped xs (rw miss at e))
      ]

module _ (s : Store) where
  -- The drafts that one of those that pass a test depends on.
  abbrev below : (BranchRow → Bool) → BranchRow → Bool
  below p r = affects_any (select p s.drafts.rows) s.dependencies r.entity

  -- No entity depends on itself through others: what a draft's version depends on ranks lower.
  abbrev pub Acyclic : (ℕ → ℕ) → Type 0
  Acyclic rank =
      All
        (λ (r : BranchRow).
          (e : ℕ) → depends r.version e s.dependencies ≡ true → rank e < rank r.entity)
        s.drafts.rows

  -- Nothing depends on the row of the highest rank.
  top-below :
      (rank : ℕ → ℕ) (p : BranchRow → Bool) (m : BranchRow) (rows : List BranchRow)
      → All
          (λ (r : BranchRow).
            (e : ℕ) → depends r.version e s.dependencies ≡ true → rank e < rank r.entity)
          rows
      → All (λ (r : BranchRow). p r ≡ true → rank r.entity ≤ rank m.entity) rows
      → any (λ (r : BranchRow). p r && depends r.version m.entity s.dependencies) rows ≡ false
  top-below rank p m [] acyclic high = refl
  top-below rank p m (r ∷ rows) acyclic high =
      elim (Bool-cases (p r && depends r.version m.entity s.dependencies)) [
        | inr fine ↦ ground (arith, top-below rank p m rows acyclic.1 high.1)
        | inl bad ↦
            let hit : p r ≡ true = ground arith in
            let dep : depends r.version m.entity s.dependencies ≡ true = ground arith in
            absurd (omega (arith, acyclic.0 m.entity dep, high.0 hit))
      ]

  -- The rows below are fewer, if there are any rows to be below of.
  fewer_below :
      (rank : ℕ → ℕ) (p : BranchRow → Bool) (fuel : ℕ)
      → Acyclic rank
      → All (λ (r : BranchRow). below p r ≡ true → p r ≡ true) s.drafts.rows
      → length (select p s.drafts.rows) ≤ suc fuel
      → length (select (below p) s.drafts.rows) ≤ fuel
  fewer_below rank p fuel acyclic within size = elim (top rank p s.drafts.rows) [
    | inl nothing ↦
        let le = length-select-le (below p) p s.drafts.rows within in
        let le' : length (select (below p) s.drafts.rows) ≤ 0 = rw nothing at le in
        omega (arith, le')
    | inr (m, hit, high, found) ↦
        let free : below p m ≡ false =
          any-select p (λ (r : BranchRow). depends r.version m.entity s.dependencies) s.drafts.rows
          ∙ top-below rank p m s.drafts.rows acyclic high in
        let missed : (p m && not (below p m)) ≡ true = rw (hit, free) refl in
        omega (
          arith,
          size,
          length-select-lt (below p) p s.drafts.rows within
              (found (λ r. p r && not (below p r)) missed),
        )
  ]

  -- The rows are drafts that pass a test, told by what a search finds among them.
  abbrev Within : (BranchRow → Bool) → List BranchRow → Type 0
  Within p rs =
      (f : BranchRow → Bool) → any f rs ≡ true → any (λ r. p r && f r) s.drafts.rows ≡ true

  below_mono :
      (p q : BranchRow → Bool) (e : ℕ)
      → All (λ (r : BranchRow). p r ≡ true → q r ≡ true) s.drafts.rows
      → affects_any (select p s.drafts.rows) s.dependencies e ≡ true
      → affects_any (select q s.drafts.rows) s.dependencies e ≡ true
  below_mono p q e h a =
      let f : BranchRow → Bool = λ r. depends r.version e s.dependencies in
      any-select q f s.drafts.rows
      ∙ any_mono (λ r. p r && f r) (λ r. q r && f r) s.drafts.rows
          (All-map _ _ s.drafts.rows (λ r i b. ground (arith, i)) h)
          (sym (any-select p f s.drafts.rows) ∙ a)

  layer-Within :
      (p : BranchRow → Bool) (q : QuerySet)
      → Within p (q s)
      → Within (below p) (dependency_drafts q s)
  layer-Within p q h f a =
      let g : BranchRow → Bool = λ r. affects_any (q s) s.dependencies r.entity in
      any_mono (λ r. g r && f r) (λ r. below p r && f r) s.drafts.rows
        (All-every _ s.drafts.rows λ r b.
          let lower : g r ≡ true = ground arith in
          let here : below p r ≡ true =
            any-select p (λ (x : BranchRow). depends x.version r.entity s.dependencies)
              s.drafts.rows
            ∙ h (λ x. depends x.version r.entity s.dependencies) lower in
          ground arith)
        (sym (any-select g f s.drafts.rows) ∙ a)

  no_rows :
      (p : BranchRow → Bool) (rs : List BranchRow)
      → length (select p s.drafts.rows) ≤ 0
      → Within p rs
      → rs ≡ []
  no_rows p [] size h = refl
  no_rows p (r ∷ rs) size h =
      let some_row : any (λ _. true) (select p s.drafts.rows) ≡ true =
        any-select p (λ _. true) s.drafts.rows ∙ h (λ _. true) (ground arith) in
      absurd (empty (select p s.drafts.rows) size some_row)
    where
      empty : (xs : List BranchRow) → length xs ≤ 0 → any (λ _. true) xs ≡ true → ⊥
      empty [] size e = cc
      empty (x ∷ xs) size e = omega arith

  -- One layer is found when the rest is.
  layer-some :
      (q : QuerySet) (rest : Option (List QuerySet)) (rows : List BranchRow)
      → (qs : List QuerySet) × (rest ≡ some qs)
      → (qs : List QuerySet) × (elim rows [
        | [] ↦ some []
        | _ ∷ _ ↦ elim rest [ none ↦ none | some rs ↦ some (q ∷ rs) ]
      ]
          ≡ some qs)
  layer-some q rest [] h = ([], refl)
  layer-some q rest (r ∷ rows) (qs, e) = rw e (q ∷ qs, refl)

  crawl-some :
      (rank : ℕ → ℕ) (fuel : ℕ) (p : BranchRow → Bool) (q : QuerySet)
      → Acyclic rank
      → All (λ (r : BranchRow). below p r ≡ true → p r ≡ true) s.drafts.rows
      → length (select p s.drafts.rows) ≤ fuel
      → Within p (q s)
      → (qs : List QuerySet) × (crawl fuel q s ≡ some qs)
  unfolding crawl
  crawl-some rank zero p q acyclic within size h = rw (no_rows p (q s) size h, crawl) ([], refl)
  crawl-some rank (suc fuel) p q acyclic within size h = layer-some q _ (q s) (
      crawl-some rank fuel (below p) (dependency_drafts q) acyclic
        (All-map _ _ s.drafts.rows (λ r i. below_mono (below p) p r.entity within) within)
        (fewer_below rank p fuel acyclic within size) (layer-Within p q h))

-- A crawl that ends has no more layers than passes.
length-crawl :
    (fuel : ℕ) (q : QuerySet) (s : Store) {layers : List QuerySet}
    → crawl fuel q s ≡ some layers
    → length layers ≤ fuel
unfolding crawl
length-crawl zero q s h = elim (List-cases (q s)) [
  | inl empty ↦ let h' = rw (crawl, empty) at h in ground (arith, h')
  | inr (r, rows, more) ↦ let h' = rw (crawl, more) at h in absurd (ground (arith, h'))
]
length-crawl (suc fuel) q s h = elim (List-cases (q s)) [
  | inl empty ↦ let h' = rw (crawl, empty) at h in ground (arith, h')
  | inr (r, rows, more) ↦ elim (Option-cases (crawl fuel (dependency_drafts q) s)) [
    | inl endless ↦ let h' = rw (crawl, more, endless) at h in absurd (ground (arith, h'))
    | inr (qs, found) ↦
        let h' = rw (crawl, more, found) at h in
        ground (arith, h', length-crawl fuel (dependency_drafts q) s found)
  ]
]

-- Without circular dependencies, the crawl of the dependencies of any query set returns the query
-- sets of its layers, at most as many as there are drafts, and leaves the store as it is.
pub get_dependencies_total :
    (s : Store) (rank : ℕ → ℕ) (q : QuerySet)
    → Acyclic s rank
    → (layers : List QuerySet) × (get_dependencies_with_unpublished_changes q s
        ≡ ok (only_unpublished layers, s))
      × (length layers ≤ length s.drafts.rows)
unfolding get_dependencies_with_unpublished_changes
get_dependencies_total s rank q acyclic =
    let (layers, found) =
      crawl-some s rank (length s.drafts.rows) (λ _. true) (dependency_drafts q) acyclic
        (All-every _ s.drafts.rows λ r h. refl) (length-select (λ _. true) s.drafts.rows)
        (anything q) in
    (layers, rw found refl, length-crawl (length s.drafts.rows) (dependency_drafts q) s found)
  where
    anything : (q : QuerySet) → Within s (λ _. true) (dependency_drafts q s)
    anything q f h =
        let g : BranchRow → Bool = λ r. affects_any (q s) s.dependencies r.entity in
        any_mono (λ r. g r && f r) (λ r. f r) s.drafts.rows
          (All-every _ s.drafts.rows λ r b. ground arith) (sym (any-select g f s.drafts.rows) ∙ h)
