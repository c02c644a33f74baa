-- ===== src/Tagging/Str/Levels.antt =====
-- Texts of levels that a TAB ends each: the last level of one, and of a prefix.
use openedx_core.Common.{
  ℕ, ◌≡◌, refl, sym, ap, ◌∙◌, ◌⊎◌, inl, inr, Bool, true, false, [], ◌∷◌, ◌++◌, ◌==◌, elem, arith,
  if◌then◌else◌,
}
use mathlib.Core.List.{append_assoc, append-nil}
use openedx_core.Tagging.Str.{Str, starts_with, tab}
use openedx_core.Tagging.Str.Prefixes.{starts_with-append_cases, starts_with_self}

abbrev pub ends_tab : Str → Bool
ends_tab [] = false
ends_tab (c ∷ []) = c == tab
ends_tab (c ∷ d ∷ r) = ends_tab (d ∷ r)

-- Nothing, or some levels.
abbrev pub IsLevels : Str → Type 0
IsLevels l = (l ≡ []) ⊎ (ends_tab l ≡ true)

pub ends_tab_last : (l : Str) → ends_tab (l ++ tab ∷ []) ≡ true
ends_tab_last [] = refl
ends_tab_last (c ∷ []) = refl
ends_tab_last (c ∷ d ∷ r) = ends_tab_last (d ∷ r)

pub ends_tab-append : (l : Str) (c : ℕ) (r : Str) → ends_tab (l ++ c ∷ r) ≡ ends_tab (c ∷ r)
ends_tab-append [] c r = refl
ends_tab-append (d ∷ []) c r = refl
ends_tab-append (d ∷ e ∷ l) c r = ends_tab-append (e ∷ l) c r

elem-ends_tab : (l v : Str) → ends_tab l ≡ true → elem tab (l ++ v) ≡ true
elem-ends_tab [] v h = cc
elem-ends_tab (c ∷ []) v h = ground arith
elem-ends_tab (c ∷ d ∷ r) v h = ground (arith, elem-ends_tab (d ∷ r) v)

-- What follows the last TAB.
tail_of : Str → Str
tail_of [] = []
tail_of (c ∷ cs) =
    let rest = tail_of cs in if elem tab cs then rest else if c == tab then cs else c ∷ cs

tail_of-levels : (l v : Str) → IsLevels l → elem tab v ≡ false → tail_of (l ++ v) ≡ v
unfolding tail_of
tail_of-levels [] [] h no_tab = refl
tail_of-levels [] (c ∷ cs) h no_tab = ground arith
tail_of-levels (c ∷ []) v (inl e) no_tab = absurd (ground (arith, e))
tail_of-levels (c ∷ []) v (inr e) no_tab = ground arith
tail_of-levels (c ∷ d ∷ r) v (inl e) no_tab = absurd (ground (arith, e))
tail_of-levels (c ∷ d ∷ r) v (inr e) no_tab =
    rw (elem-ends_tab (d ∷ r) v e) (tail_of-levels (d ∷ r) v (inr e) no_tab)

init : Str → Str
init [] = []
init (c ∷ []) = []
init (c ∷ d ∷ r) = c ∷ init (d ∷ r)

init_lem : (l : Str) (c : ℕ) → init (l ++ c ∷ []) ≡ l
unfolding init
init_lem [] c = refl
init_lem (d ∷ []) c = refl
init_lem (d ∷ e ∷ r) c = ap (λ t. d ∷ t) (init_lem (e ∷ r) c)

-- The last level of a text is determined.
pub last_level :
    (l p v w : Str)
    → IsLevels l
    → IsLevels p
    → elem tab v ≡ false
    → elem tab w ≡ false
    → l ++ (v ++ tab ∷ []) ≡ p ++ (w ++ tab ∷ [])
    → v ≡ w
last_level l p v w hl hp nv nw e =
    let e' : (l ++ v) ++ tab ∷ [] ≡ (p ++ w) ++ tab ∷ [] =
      append_assoc l v (tab ∷ []) ∙ e ∙ sym (append_assoc p w (tab ∷ [])) in
    let same : l ++ v ≡ p ++ w = sym (init_lem (l ++ v) tab) ∙ ap init e' ∙ init_lem (p ++ w) tab in
    sym (tail_of-levels l v hl nv) ∙ ap tail_of same ∙ tail_of-levels p w hp nw

-- A prefix of one level that ends in a TAB is the whole level.
whole_level :
    (x v : Str)
    → elem tab v ≡ false
    → ends_tab x ≡ true
    → starts_with x (v ++ tab ∷ []) ≡ true
    → x ≡ v ++ tab ∷ []
unfolding starts_with
whole_level [] v nv e h = cc
whole_level (c ∷ []) [] nv e h = ground arith
whole_level (c ∷ []) (d ∷ v) nv e h = absurd (ground arith)
whole_level (c ∷ b ∷ x) [] nv e h = absurd (ground arith)
whole_level (c ∷ b ∷ x) (d ∷ v) nv e h = ground (arith, whole_level (b ∷ x) v)

-- A prefix that reaches into the last level ends with that level.
pub prefix_level :
    (l p v w : Str)
    → IsLevels l
    → IsLevels p
    → elem tab v ≡ false
    → elem tab w ≡ false
    → starts_with (p ++ (w ++ tab ∷ [])) (l ++ (v ++ tab ∷ [])) ≡ true
    → starts_with (p ++ (w ++ tab ∷ [])) l ≡ false
    → v ≡ w
prefix_level l p v w hl hp nv nw h above =
    elim (starts_with-append_cases (p ++ (w ++ tab ∷ [])) l (v ++ tab ∷ []) h) [
      | inl below ↦ absurd (ground (arith, below, above))
      | inr ([], e, within) ↦
          let o = p ++ (w ++ tab ∷ []) in
          let below : starts_with o l ≡ true =
            ap (starts_with o) (sym (append-nil l) ∙ sym e ∙ sym (append-nil o))
            ∙ starts_with_self o [] in
          absurd (ground (arith, below, above))
      | inr (c ∷ x, e, within) ↦
          let ends = ends_tab_last (p ++ w) in
          let reaches : ends_tab (c ∷ x) ≡ true =
            sym (ends_tab-append l c x)
            ∙ ap ends_tab (sym e)
            ∙ ap ends_tab (sym (append_assoc p w (tab ∷ [])))
            ∙ ends in
          last_level l p v w hl hp nv nw
            (ap (λ t. l ++ t) (sym (whole_level (c ∷ x) v nv reaches within)) ∙ sym e)
    ]
