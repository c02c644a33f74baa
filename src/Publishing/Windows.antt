-- ===== src/Publishing/Windows.antt =====
-- publishing/api.py, `get_entity_publish_history_entries`: the windows of time of two publishes.
use mathlib.Core.Path.{subst}
use openedx_core.Common.{
  ℕ, ◌≡◌, ◌<◌, ◌≤◌, refl, sym, ◌∙◌, inl, inr, Bool, true, Option, none, some, List, [], ◌∷◌, ◌==◌,
  ltb, leb, if◌then◌else◌, select, find, find-true, head?, All, All-map, All-select, All-every,
  insert_desc, order_desc, arith, Bool-cases, Option-cases,
}
use openedx_core.Publishing.Models.{LogRecord, Store}
use openedx_core.Publishing.Monad.{ok}
use openedx_core.Publishing.Tables.{record_key}
use openedx_core.Publishing.Queries.{
  published_at, changed_at, records_for, previous_publish, within_window,
  get_entity_publish_history_entries, drop_discarded, last_reset_at, baseline, changed_after,
}

module _ {ℓ} {A : Type ℓ} (key : A → ℕ) where
  head-insert_desc :
      (a : A) (xs : List A)
      → head? (insert_desc key a xs) ≡ elim (head? xs) [
        | none ↦ some a
        | some x ↦ if leb (key x) (key a) then some a else some x
      ]
  head-insert_desc a [] = refl
  head-insert_desc a (x ∷ xs) = ground arith

  order_desc-none : (xs : List A) → head? (order_desc key xs) ≡ none → xs ≡ []
  order_desc-none [] h = refl
  order_desc-none (x ∷ xs) h =
      let h' = sym (head-insert_desc x (order_desc key xs)) ∙ h in
      elim (Option-cases (head? (order_desc key xs))) [
        | inl empty ↦ let bad = rw empty at h' in cc
        | inr (y, first) ↦ let bad = rw first at h' in absurd (ground (arith, bad))
      ]

  -- The first in descending order is as high as all others.
  order_desc-highest :
      (xs : List A) {m : A} → head? (order_desc key xs) ≡ some m → All (λ x. key x ≤ key m) xs
  order_desc-highest [] h = tt
  order_desc-highest (x ∷ xs) {m} h =
      let h' = sym (head-insert_desc x (order_desc key xs)) ∙ h in
      elim (Option-cases (head? (order_desc key xs))) [
        | inl empty ↦
            let it = rw empty at h' in
            let same : x ≡ m = cc in
            rw (order_desc-none xs empty) (subst (λ y. key x ≤ key y) same (omega arith), tt)
        | inr (y, first) ↦
            let rest = order_desc-highest xs {m = y} first in
            let it = rw first at h' in
            elim (Bool-cases (leb (key y) (key x))) [
              | inl above ↦
                  let same : x ≡ m = ground (arith, it) in
                  subst (λ z. All (λ (w : A). key w ≤ key z) (x ∷ xs)) same
                    (omega arith, All-map _ _ xs (λ w le. ground arith) rest)
              | inr below ↦
                  let same : y ≡ m = ground (arith, it) in
                  subst (λ z. All (λ (w : A). key w ≤ key z) (x ∷ xs)) same (ground arith, rest)
            ]
      ]

module _ {ℓ κ} {A : Type ℓ} (P : A → Type κ) where
  All-unselect : (p : A → Bool) (xs : List A) → All P (select p xs) → All (λ x. p x ≡ true → P x) xs
  All-unselect p [] h = tt
  All-unselect p (x ∷ xs) h = elim (Bool-cases (p x)) [
    | inl hit ↦ let h' = rw hit at h in ((λ _. h'.0), All-unselect p xs h'.1)
    | inr miss ↦ ((λ hit. cc), All-unselect p xs (rw miss at h))
  ]

  All-find : (p : A → Bool) (xs : List A) {x : A} → find p xs ≡ some x → All P xs → P x
  All-find p [] h all = cc
  All-find p (y ∷ xs) {x} h all = elim (Bool-cases (p y)) [
    | inl hit ↦ let same : y ≡ x = ground arith in subst P same all.0
    | inr miss ↦ All-find p xs {x = x} (ground arith) all.1
  ]

module _ (s : Store) (e : ℕ) where
  -- The publish before a time is not before another publish of the entity before that time.
  previous-latest :
      (log at : ℕ) {r : LogRecord}
      → find (record_key log e) s.publisheds.records ≡ some r
      → published_at s r < at
      → (p : LogRecord) × (previous_publish e at s ≡ some p) × (published_at s r ≤ published_at s p)
  previous-latest log at {r} found earlier =
      let candidates =
        select (λ (x : LogRecord). ltb (published_at s x) at)
          (records_for e s.publisheds.records) in
      let key = find-true (record_key log e) s.publisheds.records found in
      let is_candidate : ltb (published_at s r) at ≡ true = ground arith in
      let is_ours : (r.entity == e) ≡ true = ground arith in
      let reach : (P : LogRecord → Type 0) → All P candidates → P r = λ P all.
        All-find (λ x. (x.entity == e) ≡ true → ltb (published_at s x) at ≡ true → P x)
          (record_key log e) s.publisheds.records found
          (All-unselect (λ x. ltb (published_at s x) at ≡ true → P x) (λ x. x.entity == e)
            s.publisheds.records
            (All-unselect P (λ x. ltb (published_at s x) at) (records_for e s.publisheds.records)
              all))
          is_ours is_candidate in
      elim (Option-cases (previous_publish e at s)) [
        | inr (p, first) ↦ (
          p,
          first,
          reach (λ x. published_at s x ≤ published_at s p)
              (order_desc-highest (published_at s) candidates {m = p} first),
        )
        | inl nothing ↦ absurd (
            reach (λ _. ⊥)
              (subst (All (λ _. ⊥)) (sym (order_desc-none (published_at s) candidates nothing)) tt))
      ]

  -- The changes that are listed for a publish lie in its window.
  entries-within :
      (log : ℕ) (rs : List LogRecord) {r : LogRecord}
      → find (record_key log e) s.publisheds.records ≡ some r
      → get_entity_publish_history_entries e log s ≡ ok rs
      → All
          (λ (x : LogRecord).
            within_window s (previous_publish e (published_at s r) s) (published_at s r) x ≡ true)
          rs
  unfolding get_entity_publish_history_entries
  entries-within log rs {r} found h =
      let at = published_at s r in
      let previous = previous_publish e at s in
      let all = records_for e s.drafts.records in
      let reset = last_reset_at s (baseline previous) (within_window s previous at) all in
      let listed =
        drop_discarded s reset
          (select (within_window s previous at) (order_desc (changed_at s) all)) in
      let h' : ok listed ≡ ok rs = rw (found, get_entity_publish_history_entries) at h in
      let same : listed ≡ rs = cc in
      subst (All (λ (x : LogRecord). within_window s previous at x ≡ true)) same
        (kept (within_window s previous at) reset (order_desc (changed_at s) all))
    where
      window :
          (w : LogRecord → Bool) (xs : List LogRecord)
          → All (λ (x : LogRecord). w x ≡ true) (select w xs)
      window w xs =
          All-map _ _ _ (λ x h. h.1) (All-select (λ _. Unit {0}) w xs (All-every _ xs (λ _. tt)))

      kept :
          (w : LogRecord → Bool) (reset : Option ℕ) (xs : List LogRecord)
          → All (λ (x : LogRecord). w x ≡ true) (drop_discarded s reset (select w xs))
      kept w none xs = window w xs
      kept w (some t) xs =
          All-map _ _ _ (λ x h. h.0) (All-select _ (changed_after s t) (select w xs) (window w xs))

-- Two publishes of an entity at different times: the changes listed for the earlier one were made
-- up to its time, and those listed for the later one after that time and up to its own.
pub publish_history_entries_lem :
    (s : Store) (e earlier later : ℕ) (r r' : LogRecord) (rs rs' : List LogRecord)
    → find (record_key earlier e) s.publisheds.records ≡ some r
    → find (record_key later e) s.publisheds.records ≡ some r'
    → published_at s r < published_at s r'
    → get_entity_publish_history_entries e earlier s ≡ ok rs
    → get_entity_publish_history_entries e later s ≡ ok rs'
    → All (λ (x : LogRecord). changed_at s x ≤ published_at s r) rs
      × All
          (λ (x : LogRecord).
            (published_at s r < changed_at s x) × (changed_at s x ≤ published_at s r'))
          rs'
publish_history_entries_lem s e earlier later r r' rs rs' found found' order h h' =
    let (p, first, latest) = previous-latest s e earlier (published_at s r') {r = r} found order in
    (
      All-map _ _ rs (λ x w. ground arith) (entries-within s e earlier rs {r = r} found h),
      All-map _ _ rs' (λ x w. let w' = rw first at w in ground (arith, latest))
          (entries-within s e later rs' {r = r'} found' h'),
    )
