-- ===== src/Tagging/ExternalIds/Suffixes.antt =====
-- The candidates of different attempts are different texts, and short enough.
use mathlib.Core.Path.{subst}
use openedx_core.Common.{
  ℕ, zero, suc, ◌+◌, ◌-◌, ◌*◌, ◌/◌, ◌<◌, ◌≤◌, ◌≡◌, refl, sym, ap, ◌∙◌, Bool, [], ◌∷◌, ◌++◌, ◌==◌,
  leb, reverse, length, arith, Bool-cases, inl, inr, if◌then◌else◌,
}
use mathlib.Core.List.{reverse-append, reverse-reverse, append_assoc}
use openedx_core.Tagging.Str.{Str, strip, lstrip, rstrip, is_space, take}
use openedx_core.Tagging.Models.{Database}
use openedx_core.Tagging.ExternalIds.{
  digits, suffix_of, cut_to, tag_external_id_candidate, tag_external_id_max_length,
}

-- What Python documents of `str.casefold`: it works character by character, and leaves the
-- characters below the letters.
pub record IsCasefold (db : Database) : Type 0 where
  pub of_nothing : db.casefold [] ≡ []
  pub of_append : (a b : Str) → db.casefold (a ++ b) ≡ db.casefold a ++ db.casefold b
  pub of_sign : (c : ℕ) → c < 65 → db.casefold (c ∷ []) ≡ c ∷ []

-- The number that digits stand for, the last one first, up to a hyphen.
read : Str → ℕ
read [] = 0
read (c ∷ cs) = let rest = read cs in if c == 45 then 0 else c - 48 + 10 * rest

read-digits : (fuel n : ℕ) (r : Str) → n < fuel → read (digits fuel n ++ 45 ∷ r) ≡ n
unfolding read digits
read-digits zero n r h = elim h [ ]
read-digits (suc fuel) n r h = elim (Bool-cases (n / 10 == 0)) [
  | inl last ↦ rw last (ground (arith, last))
  | inr more ↦
      let rest = read-digits fuel (n / 10) r (ground (arith, more)) in
      rw more (ground (arith, rest))
]

-- Casefolding keeps hyphens and digits.
abbrev AllSigns : Str → Type 0
AllSigns [] = Unit {0}
AllSigns (c ∷ cs) = (c < 65) × AllSigns cs

AllSigns-append : (a b : Str) → AllSigns a → AllSigns b → AllSigns (a ++ b)
AllSigns-append [] b h k = k
AllSigns-append (c ∷ a) b h k = (h.0, AllSigns-append a b h.1 k)

AllSigns-reverse : (a : Str) → AllSigns a → AllSigns (reverse a)
AllSigns-reverse [] h = tt
AllSigns-reverse (c ∷ a) h =
    subst AllSigns (sym (reverse-append (c ∷ []) a))
      (AllSigns-append (reverse a) (c ∷ []) (AllSigns-reverse a h.1) (h.0, tt))

AllSigns-digits : (fuel n : ℕ) → AllSigns (digits fuel n)
unfolding digits
AllSigns-digits zero n = tt
AllSigns-digits (suc fuel) n = elim (Bool-cases (n / 10 == 0)) [
  | inl last ↦ rw last (omega arith, tt)
  | inr more ↦ rw more (omega arith, AllSigns-digits fuel (n / 10))
]

casefold-signs : (db : Database) → IsCasefold db → (t : Str) → AllSigns t → db.casefold t ≡ t
casefold-signs db fold [] h = fold.of_nothing
casefold-signs db fold (c ∷ cs) h =
    fold.of_append (c ∷ []) cs
    ∙ ap (λ r. r ++ db.casefold cs) (fold.of_sign c h.0)
    ∙ ap (λ r. c ∷ r) (casefold-signs db fold cs h.1)

-- The text in front of a suffix, of a further attempt.
stem : Str → ℕ → Str
unfolding cut_to suffix_of
stem value attempt =
    strip (cut_to tag_external_id_max_length (length (suffix_of attempt)) (strip value))

candidate-stem :
    (value : Str) (attempt : ℕ)
    → 1 < attempt
    → tag_external_id_candidate value attempt ≡ stem value attempt ++ suffix_of attempt
unfolding tag_external_id_candidate stem
candidate-stem value attempt h = ground (arith, h)

folded_candidate :
    (db : Database) (value : Str) (attempt : ℕ)
    → IsCasefold db
    → 1 < attempt
    → db.casefold (tag_external_id_candidate value attempt)
      ≡ db.casefold (stem value attempt) ++ suffix_of attempt
unfolding suffix_of
folded_candidate db value attempt fold h =
    ap db.casefold (candidate-stem value attempt h)
    ∙ fold.of_append (stem value attempt) (suffix_of attempt)
    ∙ ap (λ r. db.casefold (stem value attempt) ++ r)
        (casefold-signs db fold (suffix_of attempt) (
          omega arith,
          AllSigns-reverse (digits (suc attempt) attempt) (AllSigns-digits (suc attempt) attempt),
        ))

-- The attempt that a candidate tells.
told : Str → ℕ
told t = read (reverse t)

told-suffix : (t : Str) (attempt : ℕ) → told (t ++ suffix_of attempt) ≡ attempt
unfolding told suffix_of
told-suffix t attempt =
    ap read (
      reverse-append t (45 ∷ reverse (digits (suc attempt) attempt))
      ∙ ap (λ r. r ++ reverse t) (reverse-append (45 ∷ []) (reverse (digits (suc attempt) attempt)))
      ∙ ap (λ r. (r ++ 45 ∷ []) ++ reverse t) (reverse-reverse (digits (suc attempt) attempt))
      ∙ append_assoc (digits (suc attempt) attempt) (45 ∷ []) (reverse t))
    ∙ read-digits (suc attempt) attempt (reverse t) (omega arith)

pub candidates_differ :
    (db : Database) (value : Str) (m n : ℕ)
    → IsCasefold db
    → 1 < m
    → 1 < n
    → db.casefold (tag_external_id_candidate value m)
      ≡ db.casefold (tag_external_id_candidate value n)
    → m ≡ n
candidates_differ db value m n fold hm hn e =
    sym (told-suffix (db.casefold (stem value m)) m)
    ∙ ap told (sym (folded_candidate db value m fold hm) ∙ e ∙ folded_candidate db value n fold hn)
    ∙ told-suffix (db.casefold (stem value n)) n

-- The lengths.
length-take : (n : ℕ) (t : Str) → length (take n t) ≤ n
unfolding take
length-take zero t = omega arith
length-take (suc n) [] = omega arith
length-take (suc n) (c ∷ cs) = omega (arith, length-take n cs)

length-lstrip : (p : ℕ → Bool) (t : Str) → length (lstrip p t) ≤ length t
unfolding lstrip
length-lstrip p [] = omega arith
length-lstrip p (c ∷ cs) = ground (arith, length-lstrip p cs)

length-rstrip : (p : ℕ → Bool) (t : Str) → length (rstrip p t) ≤ length t
unfolding rstrip
length-rstrip p [] = omega arith
length-rstrip p (c ∷ cs) = ground (arith, length-rstrip p cs)

length-strip : (t : Str) → length (strip t) ≤ length t
unfolding strip
length-strip t = omega (arith, length-rstrip is_space (lstrip is_space t), length-lstrip is_space t)

length-append : (a b : Str) → length (a ++ b) ≡ length a + length b
length-append [] b = omega arith
length-append (c ∷ a) b = omega (arith, length-append a b)

length-reverse : (a : Str) → length (reverse a) ≡ length a
length-reverse [] = refl
length-reverse (c ∷ a) =
    ap (length) (reverse-append (c ∷ []) a)
    ∙ omega (arith, length-append (reverse a) (c ∷ []), length-reverse a)

-- 10 to the power k
abbrev pub tens : ℕ → ℕ
tens zero = 1
tens (suc k) = 10 * tens k

length-digits : (k fuel n : ℕ) → n < 10 * tens k → length (digits fuel n) ≤ k + 1
unfolding digits
length-digits k zero n h = omega arith
length-digits zero (suc fuel) n h = elim (Bool-cases (n / 10 == 0)) [
  | inl last ↦ rw last (omega arith)
  | inr more ↦ absurd (ground (arith, more))
]
length-digits (suc k) (suc fuel) n h = elim (Bool-cases (n / 10 == 0)) [
  | inl last ↦ rw last (omega arith)
  | inr more ↦ rw more (omega (arith, length-digits k fuel (n / 10) (omega arith)))
]

length-suffix_of : (k attempt : ℕ) → attempt < 10 * tens k → length (suffix_of attempt) ≤ k + 2
unfolding suffix_of
length-suffix_of k attempt h =
    omega (
      arith,
      length-digits k (suc attempt) attempt h,
      length-reverse (digits (suc attempt) attempt),
    )

length-cut_to : (limit cut : ℕ) (t : Str) → cut ≤ limit → length (cut_to limit cut t) ≤ limit - cut
unfolding cut_to
length-cut_to limit cut t h = elim (Bool-cases (leb cut limit)) [
  | inl fits ↦ rw fits (length-take (limit - cut) t)
  | inr over ↦ absurd (ground (arith, over))
]

first-candidate :
    (value : Str)
    → length (strip (take tag_external_id_max_length (strip value))) ≤ tag_external_id_max_length
first-candidate value = omega (
  arith,
  length-strip (take tag_external_id_max_length (strip value)),
  length-take tag_external_id_max_length (strip value),
)

candidate-first :
    (value : Str)
    → tag_external_id_candidate value 1 ≡ strip (take tag_external_id_max_length (strip value))
unfolding tag_external_id_candidate
candidate-first value = refl

length-stem-le :
    (value : Str) (attempt : ℕ)
    → length (stem value attempt)
      ≤ length (cut_to tag_external_id_max_length (length (suffix_of attempt)) (strip value))
unfolding stem
length-stem-le value attempt =
    length-strip (cut_to tag_external_id_max_length (length (suffix_of attempt)) (strip value))

length-stem :
    (value : Str) (attempt k : ℕ)
    → k < 254
    → attempt < 10 * tens k
    → length (stem value attempt) + length (suffix_of attempt) ≤ tag_external_id_max_length
length-stem value attempt k hk h =
    let cut = length (suffix_of attempt) in
    let short = length-suffix_of k attempt h in
    omega (
      arith,
      short,
      length-stem-le value attempt,
      length-cut_to tag_external_id_max_length cut (strip value) (omega arith),
    )

-- An external id that is made up fits the column: at most 255 characters, where the number of the
-- attempt has at most 254 digits.
pub length-candidate :
    (value : Str) (attempt k : ℕ)
    → 0 < attempt
    → k < 254
    → attempt < 10 * tens k
    → length (tag_external_id_candidate value attempt) ≤ tag_external_id_max_length
length-candidate value attempt k pos hk h = elim (Bool-cases (attempt == 1)) [
  | inl one ↦
      let e : attempt ≡ 1 = ground (arith, one) in
      omega (
        arith,
        ap (λ n. length (tag_external_id_candidate value n)) e,
        ap (length) (candidate-first value),
        first-candidate value,
      )
  | inr further ↦ omega (
    arith,
    ap (length) (candidate-stem value attempt (ground (arith, further))),
    length-append (stem value attempt) (suffix_of attempt),
    length-stem value attempt k hk h,
  )
]
