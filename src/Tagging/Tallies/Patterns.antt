-- ===== src/Tagging/Tallies/Patterns.antt =====
-- Which objects a pattern of `get_object_tag_counts` stands for.
use mathlib.Core.Path.{subst}
use mathlib.Core.List.{map-append}
use openedx_core.Common.{
  ℕ, ◌≡◌, refl, sym, ap, ◌∙◌, ◌⊎◌, inl, inr, Bool, true, false, [], ◌∷◌, ◌++◌, ◌==◌, ==_iff, Option,
  some, none, elem, map, arith, Bool-cases, Option-cases,
}
use openedx_core.Tagging.Str.{Str, starts_with, split}
use openedx_core.Tagging.Str.Prefixes.{starts_with_self}
use openedx_core.Tagging.Models.{Database, begins}
use openedx_core.Tagging.Monad.{ok, err, value_error}
use openedx_core.Tagging.ExternalIds.{str_elem}
use openedx_core.Tagging.Tallies.{onto, without_star, filter_of, object_filter}

-- A pattern has no star, or ends with one.
abbrev pub IsPattern : Str → Type 0
IsPattern pattern = (elem 42 pattern ≡ false) ⊎ ((start : Str) × (pattern ≡ start ++ 42 ∷ []))

-- An object whose identifier begins like the text before the star, or is one of those listed.
abbrev pub IsAdmitted : Database → Str → Str → Type 0
IsAdmitted db pattern object_id =
    ((start head rest : Str) × (pattern ≡ start ++ 42 ∷ [])
      × (object_id ≡ head ++ rest)
      × (map db.like head ≡ map db.like start))
    ⊎ ((elem 42 pattern ≡ false) × (str_elem object_id (split 44 pattern) ≡ true))

without_star-append : (start : Str) → without_star (start ++ 42 ∷ []) ≡ some start
unfolding without_star
without_star-append [] = refl
without_star-append (c ∷ []) = refl
without_star-append (c ∷ d ∷ cs) = ap (onto c) (without_star-append (d ∷ cs))

without_star-some :
    (pattern : Str) {start : Str} → without_star pattern ≡ some start → pattern ≡ start ++ 42 ∷ []
unfolding without_star
without_star-some [] h = cc
without_star-some (c ∷ []) {start} h = elim (Bool-cases (c == 42)) [
  | inl star ↦
      let h' = rw star at h in
      let nothing : [] ≡ start = ground (arith, h') in
      subst (λ t. c ∷ [] ≡ t ++ 42 ∷ []) nothing (ap (λ x. x ∷ []) ((==_iff c 42).0 star))
  | inr plain ↦ let h' = rw plain at h in absurd (ground (arith, h'))
]
without_star-some (c ∷ d ∷ cs) {start} h = elim (Option-cases (without_star (d ∷ cs))) [
  | inl nothing ↦ let h' = rw nothing at h in absurd (ground (arith, h'))
  | inr (t, there) ↦
      let h' = rw there at h in
      let whole : c ∷ t ≡ start = ground (arith, h') in
      subst (λ u. c ∷ d ∷ cs ≡ u ++ 42 ∷ []) whole
        (ap (λ u. c ∷ u) (without_star-some (d ∷ cs) there))
]

elem-last : (start : Str) → elem 42 (start ++ 42 ∷ []) ≡ true
elem-last [] = refl
elem-last (c ∷ cs) = ground (arith, elem-last cs)

not_both : (pattern start : Str) → elem 42 pattern ≡ false → pattern ≡ start ++ 42 ∷ [] → ⊥
not_both pattern start plain e =
    absurd (ground (arith, plain, ap (λ p. elem 42 p) e, elem-last start))

begins_like :
    (f : ℕ → ℕ) (start text : Str)
    → starts_with (map f start) (map f text) ≡ true
    → (head rest : Str) × (text ≡ head ++ rest) × (map f head ≡ map f start)
unfolding starts_with
begins_like f [] text h = ([], text, refl, refl)
begins_like f (c ∷ cs) [] h = cc
begins_like f (c ∷ cs) (d ∷ ds) h =
    let same : f c ≡ f d = ground (arith, h) in
    let (head, rest, whole, like) = begins_like f cs ds (ground (arith, h)) in
    (
      d ∷ head,
      rest,
      ap (λ t. d ∷ t) whole,
      ap (λ x. x ∷ map f head) (sym same) ∙ ap (λ t. f c ∷ t) like,
    )

like_begins :
    (f : ℕ → ℕ) (start head rest : Str)
    → map f head ≡ map f start
    → starts_with (map f start) (map f (head ++ rest)) ≡ true
like_begins f start head rest like =
    ap (λ t. starts_with (map f start) t) (map-append f head rest ∙ ap (λ t. t ++ map f rest) like)
    ∙ starts_with_self (map f start) (map f rest)

some_inj : {a b : Str} → some a ≡ some b → a ≡ b
some_inj h = ground (arith, h)

-- A filter that is made is that of a pattern, and passes the objects that the pattern admits.
abbrev pub IsFilter : Database → Str → (Str → Bool) → Type 0
IsFilter db pattern holds =
    IsPattern pattern
    × ((v : Str)
        → (IsAdmitted db pattern v → holds v ≡ true) × (holds v ≡ true → IsAdmitted db pattern v))

star-IsFilter :
    (db : Database) (pattern start : Str)
    → without_star pattern ≡ some start
    → IsFilter db pattern (begins db start)
unfolding begins
star-IsFilter db pattern start e =
    let ends = without_star-some pattern e in
    (
      inr (start, ends),
      λ v. (
        to v,
        λ h.
            let (head, rest, whole, like) = begins_like db.like start v h in
            inl (start, head, rest, ends, whole, like),
      ),
    )
  where
    to : (v : Str) → IsAdmitted db pattern v → begins db start v ≡ true
    to v (inl (start', head, rest, ends', whole, like)) =
        let same : start' ≡ start =
          some_inj (sym (without_star-append start') ∙ sym (ap without_star ends') ∙ e) in
        ap (begins db start) whole
        ∙ like_begins db.like start head rest (like ∙ ap (map db.like) same)
    to v (inr (plain, listed)) = absurd (not_both pattern start plain (without_star-some pattern e))

list-IsFilter :
    (db : Database) (pattern : Str)
    → elem 42 pattern ≡ false
    → IsFilter db pattern (λ object_id. str_elem object_id (split 44 pattern))
list-IsFilter db pattern plain = (inl plain, λ v. (to v, λ h. inr (plain, h)))
  where
    to : (v : Str) → IsAdmitted db pattern v → str_elem v (split 44 pattern) ≡ true
    to v (inl (start, head, rest, ends, whole, like)) = absurd (not_both pattern start plain ends)
    to v (inr (plain', listed)) = listed

filter_of-cases :
    (db : Database) (pattern : Str) (o : Option Str)
    → without_star pattern ≡ o
    → ((holds : Str → Bool) × (filter_of db o pattern ≡ ok holds) × IsFilter db pattern holds)
      ⊎ ((filter_of db o pattern ≡ err value_error) × ¬ IsPattern pattern)
filter_of-cases db pattern (some start) e =
    inl (begins db start, refl, star-IsFilter db pattern start e)
filter_of-cases db pattern none e = elim (Bool-cases (elem 42 pattern)) [
  | inl star ↦ inr (rw star refl, λ is. no_pattern star is)
  | inr plain ↦ inl (
    (λ object_id. str_elem object_id (split 44 pattern)),
    rw plain refl,
    list-IsFilter db pattern plain,
  )
]
  where
    no_pattern : elem 42 pattern ≡ true → IsPattern pattern → ⊥
    no_pattern star (inl plain) = absurd (ground (arith, star, plain))
    no_pattern star (inr (start, ends)) =
        let found = sym (without_star-append start) ∙ sym (ap without_star ends) ∙ e in
        absurd (ground (arith, found))

-- A filter is made of every pattern, and a ValueError of everything else.
pub object_filter-cases :
    (db : Database) (pattern : Str)
    → ((holds : Str → Bool) × (object_filter db pattern ≡ ok holds) × IsFilter db pattern holds)
      ⊎ ((object_filter db pattern ≡ err value_error) × ¬ IsPattern pattern)
unfolding object_filter
object_filter-cases db pattern = filter_of-cases db pattern (without_star pattern) refl
