-- ===== src/Tagging/ExternalIds/Searches.antt =====
-- The loop over further attempts ends, at the first candidate that is free.
use mathlib.Core.Path.{subst}
use openedx_core.Common.{
  ℕ, zero, suc, ◌+◌, ◌<◌, ◌≤◌, ◌≡◌, ◌≢◌, refl, sym, ap, ◌∙◌, ◌⊎◌, inl, inr, Bool, true, false, List,
  [], ◌∷◌, some, ◌==◌, length, arith, Bool-cases, if◌then◌else◌,
}
use openedx_core.Tagging.Str.{Str, str_eq}
use openedx_core.Tagging.Str.Prefixes.{str_eq→eq}
use openedx_core.Tagging.Models.{Database, Tag}
use openedx_core.Tagging.ExternalIds.{
  tag_external_id_candidate, str_elem, next_candidate, existing_ids, candidate_taken,
  free_external_id,
}
use openedx_core.Tagging.ExternalIds.Suffixes.{IsCasefold, candidates_differ}

-- The list without the first occurrence.
without : Str → List Str → List Str
without a [] = []
without a (x ∷ xs) = let rest = without a xs in if str_eq a x then xs else x ∷ rest

length-without :
    (a : Str) (xs : List Str) → str_elem a xs ≡ true → length xs ≡ suc (length (without a xs))
unfolding without str_elem
length-without a [] h = cc
length-without a (x ∷ xs) h = ground (arith, length-without a xs)

elem-without :
    (a b : Str) (xs : List Str) → b ≢ a → str_elem b xs ≡ true → str_elem b (without a xs) ≡ true
unfolding without str_elem
elem-without a b [] other h = cc
elem-without a b (x ∷ xs) other h = elim (Bool-cases (str_eq a x)) [
  | inl this ↦ elim (Bool-cases (str_eq b x)) [
    | inl that ↦ absurd (other (str_eq→eq b x that ∙ sym (str_eq→eq a x this)))
    | inr past ↦ ground (arith, this, past)
  ]
  | inr past ↦ ground (arith, past, elem-without a b xs other)
]

-- A list that has n different texts is as long as that.
pigeonhole :
    (n : ℕ) (g : ℕ → Str) (xs : List Str)
    → ((i j : ℕ) → g i ≡ g j → i ≡ j)
    → ((i : ℕ) → i < n → str_elem (g i) xs ≡ true)
    → n ≤ length xs
pigeonhole zero g xs differ h = omega arith
pigeonhole (suc n) g xs differ h = omega (
  arith,
  length-without (g n) xs (h n (omega arith)),
  pigeonhole n g (without (g n) xs) differ (λ i lt.
      elem-without (g n) (g i) xs (λ e. let same = differ i n e in omega arith)
        (h i (omega arith))),
)

module _ (db : Database) (value : Str) (existing : List Str) where
  is_taken : ℕ → Bool
  is_taken n = str_elem (db.casefold (tag_external_id_candidate value n)) existing

  -- Where the loop stops, if it does.
  IsFirstFree : ℕ → Str → Type 0
  IsFirstFree attempt c =
      (n : ℕ) × (attempt ≤ n)
      × (c ≡ tag_external_id_candidate value n)
      × (is_taken n ≡ false)
      × ((i : ℕ) → attempt ≤ i → i < n → is_taken i ≡ true)

  taken_at : (m n : ℕ) → m ≡ n → is_taken m ≡ true → is_taken n ≡ true
  taken_at m n e h = subst (λ k. is_taken k ≡ true) e h

  one_more_taken :
      (fuel attempt : ℕ)
      → is_taken attempt ≡ true
      → ((i : ℕ) → i < fuel → is_taken (attempt + 1 + i) ≡ true)
      → (i : ℕ) → i < suc fuel
      → is_taken (attempt + i) ≡ true
  one_more_taken fuel attempt here rest zero lt = taken_at attempt (attempt + 0) (omega arith) here
  one_more_taken fuel attempt here rest (suc i) lt =
      taken_at (attempt + 1 + i) (attempt + suc i) (omega arith) (rest i (omega arith))

  one_more_before :
      (attempt n : ℕ)
      → is_taken attempt ≡ true
      → ((i : ℕ) → attempt + 1 ≤ i → i < n → is_taken i ≡ true)
      → (i : ℕ) → attempt ≤ i
      → i < n
      → is_taken i ≡ true
  one_more_before attempt n here rest i le lt = elim (Bool-cases (attempt == i)) [
    | inl same ↦ taken_at attempt i (ground (arith, same)) here
    | inr past ↦ rest i (ground (arith, past)) lt
  ]

  -- All attempts are taken, or the loop stops at the first that is not.
  next_candidate_cases :
      (fuel attempt : ℕ)
      → ((i : ℕ) → i < fuel → is_taken (attempt + i) ≡ true)
        ⊎ ((c : Str) × (next_candidate db existing fuel value attempt ≡ some c)
            × IsFirstFree attempt c)
  unfolding next_candidate is_taken IsFirstFree
  next_candidate_cases zero attempt = inl (λ i lt. elim lt [ ])
  next_candidate_cases (suc fuel) attempt =
      elim (Bool-cases
        (str_elem (db.casefold (tag_external_id_candidate value attempt)) existing)) [
          | inl taken ↦ elim (next_candidate_cases fuel (attempt + 1)) [
            | inl rest ↦ inl (one_more_taken fuel attempt taken rest)
            | inr (c, found, (n, le, e, free, before)) ↦ inr (
              c,
              rw taken found,
              (n, omega arith, e, free, one_more_before attempt n taken before),
            )
          ]
          | inr free ↦ inr (
            tag_external_id_candidate value attempt,
            rw free refl,
            (attempt, omega arith, refl, free, λ i le lt. absurd (omega arith)),
          )
        ]

  all_taken-le :
      (fuel : ℕ)
      → IsCasefold db
      → ((i : ℕ) → i < fuel → is_taken (2 + i) ≡ true)
      → fuel ≤ length existing
  unfolding is_taken
  all_taken-le fuel fold taken =
      pigeonhole fuel (λ i. db.casefold (tag_external_id_candidate value (2 + i))) existing
        (λ i j e.
          let same =
            candidates_differ db value (2 + i) (2 + j) fold (omega arith) (omega arith) e in
          omega arith)
        taken

-- The external id that a save makes up: the first candidate, if no tag of the taxonomy has it, else
-- the first of the further candidates that differs, casefolded, from those of the other tags. It
-- is found within one attempt more than there are ids.
pub free_external_id_lem :
    (db : Database) (x id : ℕ) (value : Str) (ts : List Tag)
    → IsCasefold db
    → ((candidate_taken db x (tag_external_id_candidate value 1) ts ≡ false)
        × (free_external_id db x id value ts ≡ some (tag_external_id_candidate value 1)))
      ⊎ ((candidate_taken db x (tag_external_id_candidate value 1) ts ≡ true)
          × (n : ℕ) × (2 ≤ n)
          × (free_external_id db x id value ts ≡ some (tag_external_id_candidate value n))
          × (str_elem (db.casefold (tag_external_id_candidate value n)) (existing_ids db x id ts)
              ≡ false)
          × ((i : ℕ)
              → 2 ≤ i
              → i < n
              → str_elem (db.casefold (tag_external_id_candidate value i)) (existing_ids db x id ts)
                ≡ true))
unfolding free_external_id IsFirstFree is_taken
free_external_id_lem db x id value ts fold =
    let existing = existing_ids db x id ts in
    elim (Bool-cases (candidate_taken db x (tag_external_id_candidate value 1) ts)) [
      | inr free ↦ inl (free, rw free refl)
      | inl taken ↦ elim (next_candidate_cases db value existing (suc (length existing)) 2) [
        | inl all_taken ↦
            let le = all_taken-le db value existing (suc (length existing)) fold all_taken in
            absurd (omega arith)
        | inr (c, found, (n, le, e, free, before)) ↦
            inr (taken, n, le, rw taken (found ∙ ap some e), free, before)
      ]
    ]
