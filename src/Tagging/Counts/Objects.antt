-- ===== src/Tagging/Counts/Objects.antt =====
-- `add_usage_counts` counts each object of a tag once.
use mathlib.Core.Path.{subst}
use openedx_core.Common.{
  ℕ, zero, suc, ◌+◌, ◌≡◌, refl, sym, ap, ◌∙◌, inl, inr, Bool, true, false, ◌&&◌, not, List, [], ◌∷◌,
  ◌++◌, Option, length, select, map, All, arith, Bool-cases, if◌then◌else◌,
}
use openedx_core.Tagging.Str.{Str, str_eq}
use openedx_core.Tagging.Str.Prefixes.{str_eq→eq}
use openedx_core.Tagging.Models.{Taxonomy, Store}
use openedx_core.Tagging.ExternalIds.{str_elem}
use openedx_core.Tagging.Api.{without_repeats}
use openedx_core.Tagging.Counts.{
  Counter, counted, increment, update_counts, Seen, is_seen, lineage_tags, unseen_tags, with_object,
  count_rows, usage_rows, add_usage_counts,
}

abbrev pub is_distinct : List Str → Bool
is_distinct [] = true
is_distinct (v ∷ values) = not (str_elem v values) && is_distinct values

-- The objects of the rows whose lineage has a value, each once.
abbrev pub objects_of : Str → List (Str × Option Str) → List Str
objects_of v rows =
    map (λ (r : Str × Option Str). r.0)
      (select (λ (r : Str × Option Str). str_elem v (lineage_tags r.1)) rows)

module _ (v : Str) where
  unfoldable pub times : List Str → ℕ
  times [] = 0
  times (w ∷ ws) = let rest = times ws in if str_eq v w then suc rest else rest

  seen_by : Seen → List Str
  seen_by seen = map (λ (p : Str × Str). p.0) (select (λ (p : Str × Str). str_eq v p.1) seen)

  not_both : (w x : Str) → str_eq v x ≡ true → str_eq w x ≡ false → str_eq v w ≡ false
  not_both w x this other = elim (Bool-cases (str_eq v w)) [
    | inl same ↦ absurd (ground (arith, ap (λ z. str_eq z x) (str_eq→eq v w same), this, other))
    | inr differs ↦ differs
  ]

  counted-increment :
      (w : Str) (cs : Counter)
      → counted v (increment w cs) ≡ counted v cs + (if str_eq v w then 1 else 0)
  unfolding counted increment
  counted-increment w [] = ground arith
  counted-increment w ((x, n) ∷ cs) = elim (Bool-cases (str_eq w x)) [
    | inl same ↦
        let e : str_eq v w ≡ str_eq v x = ap (λ z. str_eq v z) (str_eq→eq w x same) in
        elim (Bool-cases (str_eq v x)) [
          | inl this ↦ rw (same, e, this) (ground (arith, this))
          | inr past ↦ rw (same, e, past) (ground (arith, past))
        ]
    | inr other ↦ elim (Bool-cases (str_eq v x)) [
      | inl this ↦
          let e : str_eq v w ≡ false = not_both w x this other in
          rw (other, this, e) (ground (arith, this))
      | inr past ↦ rw (other, past) (ground (arith, past, counted-increment w cs))
    ]
  ]

  pub counted-update_counts :
      (ws : List Str) (cs : Counter) → counted v (update_counts ws cs) ≡ counted v cs + times ws
  unfolding update_counts times
  counted-update_counts [] cs = omega arith
  counted-update_counts (w ∷ ws) cs =
      let one = counted-increment w cs in
      let rest = counted-update_counts ws (increment w cs) in ground (arith, one, rest)

  is_seen_by : (o : Str) (seen : Seen) → is_seen o v seen ≡ str_elem o (seen_by seen)
  unfolding is_seen str_elem seen_by
  is_seen_by o [] = refl
  is_seen_by o ((p, w) ∷ seen) = ground (arith, is_seen_by o seen)

  times-unseen_tags :
      (o : Str) (seen : Seen) (ws : List Str)
      → times (unseen_tags o seen ws) ≡ (if is_seen o v seen then 0 else times ws)
  unfolding unseen_tags times
  times-unseen_tags o seen [] = ground arith
  times-unseen_tags o seen (w ∷ ws) = elim (Bool-cases (str_eq v w)) [
    | inl this ↦
        let e : is_seen o w seen ≡ is_seen o v seen =
          ap (λ x. is_seen o x seen) (sym (str_eq→eq v w this)) in
        ground (arith, this, e, times-unseen_tags o seen ws)
    | inr other ↦ ground (arith, other, times-unseen_tags o seen ws)
  ]

  not_there : (ws : List Str) → str_elem v ws ≡ false → times ws ≡ 0
  unfolding str_elem times
  not_there [] h = refl
  not_there (w ∷ ws) h = ground (arith, not_there ws (ground (arith, h)))

  once : (ws : List Str) → is_distinct ws ≡ true → str_elem v ws ≡ true → times ws ≡ 1
  unfolding str_elem times
  once [] d h = cc
  once (w ∷ ws) d h = elim (Bool-cases (str_eq v w)) [
    | inl this ↦
        let e : str_elem w ws ≡ str_elem v ws =
          ap (λ x. str_elem x ws) (sym (str_eq→eq v w this)) in
        ground (arith, this, not_there ws (sym e ∙ ground (arith, d)))
    | inr other ↦ ground (arith, other, once ws (ground (arith, d)) (ground (arith, other, h)))
  ]

  repeated : ℕ → Str → List Str
  repeated zero o = []
  repeated (suc n) o = o ∷ repeated n o

  seen_by-with_object :
      (o : Str) (ws : List Str) (seen : Seen)
      → seen_by (with_object o ws ++ seen) ≡ repeated (times ws) o ++ seen_by seen
  unfolding times seen_by repeated
  seen_by-with_object o [] seen = refl
  seen_by-with_object o (w ∷ ws) seen = elim (Bool-cases (str_eq v w)) [
    | inl this ↦ rw this (ap (λ r. o ∷ r) (seen_by-with_object o ws seen))
    | inr other ↦ rw other (seen_by-with_object o ws seen)
  ]

  as_seen :
      (o : Str) (ws : List Str) (rows : List (Str × Option Str)) (seen : Seen) (cs : Counter)
      (n : ℕ)
      → times ws ≡ n
      → counted v (count_rows rows (with_object o ws ++ seen) (update_counts ws cs))
        ≡ counted v (update_counts ws cs)
          + length (without_repeats (seen_by (with_object o ws ++ seen)) (objects_of v rows))
      → counted v (count_rows rows (with_object o ws ++ seen) (update_counts ws cs))
        ≡ counted v (update_counts ws cs)
          + length (without_repeats (repeated n o ++ seen_by seen) (objects_of v rows))
  as_seen o ws rows seen cs n e h =
      subst
        (λ l.
          counted v (count_rows rows (with_object o ws ++ seen) (update_counts ws cs))
          ≡ counted v (update_counts ws cs) + length (without_repeats l (objects_of v rows)))
        (seen_by-with_object o ws seen ∙ ap (λ k. repeated k o ++ seen_by seen) e) h

  counted-count_rows :
      (rows : List (Str × Option Str)) (seen : Seen) (cs : Counter)
      → All (λ (r : Str × Option Str). is_distinct (lineage_tags r.1) ≡ true) rows
      → counted v (count_rows rows seen cs)
        ≡ counted v cs + length (without_repeats (seen_by seen) (objects_of v rows))
  unfolding count_rows without_repeats repeated
  counted-count_rows [] seen cs d = omega arith
  counted-count_rows ((o, lineage) ∷ rows) seen cs d =
      let ws = lineage_tags lineage in
      let unseen = unseen_tags o seen ws in
      let rest =
        counted-count_rows rows (with_object o unseen ++ seen) (update_counts unseen cs) d.1 in
      let now = counted-update_counts unseen cs in
      let t = times-unseen_tags o seen ws in
      let by = is_seen_by o seen in
      elim (Bool-cases (str_elem v ws)) [
        | inl there ↦ elim (Bool-cases (is_seen o v seen)) [
          | inl old ↦
              let e : times unseen ≡ 0 = ground (arith, t, old) in
              let rest' = as_seen o unseen rows seen cs 0 e rest in
              let elem_of : str_elem o (seen_by seen) ≡ true = sym by ∙ old in
              rw (there, elem_of) (omega (arith, rest', now, e))
          | inr new ↦
              let e : times unseen ≡ 1 = ground (arith, t, new) ∙ once ws d.0 there in
              let rest' = as_seen o unseen rows seen cs 1 e rest in
              let elem_of : str_elem o (seen_by seen) ≡ false = sym by ∙ new in
              rw (there, elem_of) (omega (arith, rest', now, e))
        ]
        | inr absent ↦
            let e : times unseen ≡ 0 = ground (arith, t, not_there ws absent) in
            let rest' = as_seen o unseen rows seen cs 0 e rest in
            rw absent (omega (arith, rest', now, e))
      ]

counted_from_nothing :
    (v : Str) (rows : List (Str × Option Str))
    → All (λ (r : Str × Option Str). is_distinct (lineage_tags r.1) ≡ true) rows
    → counted v (count_rows rows [] []) ≡ length (without_repeats [] (objects_of v rows))
unfolding counted seen_by
counted_from_nothing v rows d = ground (arith, counted-count_rows v rows [] [] d)

-- What add_usage_counts gives for a value, on a taxonomy with rows of object tags whose lineages
-- have no value twice: the number of the objects, each once, that have a row whose lineage has the
-- value.
pub add_usage_counts_lem :
    (y : Taxonomy) (values : List Str) (s : Store)
    → All (λ (r : Str × Option Str). is_distinct (lineage_tags r.1) ≡ true) (usage_rows y s)
    → add_usage_counts y values s
      ≡ map (λ v. (v, length (without_repeats [] (objects_of v (usage_rows y s))))) values
unfolding add_usage_counts
add_usage_counts_lem y [] s d = refl
add_usage_counts_lem y (v ∷ values) s d =
    let one : counted v (count_rows (usage_rows y s) [] [])
        ≡ length (without_repeats [] (objects_of v (usage_rows y s))) =
      counted_from_nothing v (usage_rows y s) d in
    rw (one, add_usage_counts_lem y values s d) refl
