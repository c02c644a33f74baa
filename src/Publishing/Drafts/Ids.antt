-- ===== src/Publishing/Drafts/Ids.antt =====
-- The ids of the records of the drafts, and the records of the entities that do not change.
use mathlib.Core.List.{append-nil}
use openedx_core.Common.{
  ℕ, ◌≡◌, ◌<◌, refl, inl, inr, Bool, false, not, Option, some, List, [], ◌∷◌, ◌++◌, ◌==◌, select,
  find, All, All-map, All-select, All-append, arith, Bool-cases, find-true, select-append,
  select-select, select-update_where, select-every, update_where-none,
}
use openedx_core.Publishing.Models.{LogRecord, Branch}
use openedx_core.Publishing.Tables.{record_key, set_new_version}
use openedx_core.Publishing.Drafts.{new_record}
use openedx_core.Publishing.Drafts.Records.{Recorded}

abbrev pub Distinct : List LogRecord → Type 0
Distinct [] = Unit
Distinct (r ∷ rs) = All (λ (x : LogRecord). (x.id == r.id) ≡ false) rs × Distinct rs

-- The primary key of the records, and the next id.
abbrev pub IdsOf : List LogRecord → ℕ → Type 0
IdsOf records next = Distinct records × All (λ (r : LogRecord). r.id < next) records

Distinct-append :
    (rs : List LogRecord) (x : LogRecord)
    → Distinct rs
    → All (λ (r : LogRecord). r.id < x.id) rs
    → Distinct (rs ++ x ∷ [])
Distinct-append [] x d h = (tt, tt)
Distinct-append (r ∷ rs) x d h =
    (All-append _ rs (x ∷ []) d.0 (ground arith, tt), Distinct-append rs x d.1 h.1)

Distinct-select :
    (p : LogRecord → Bool) (rs : List LogRecord) → Distinct rs → Distinct (select p rs)
Distinct-select p [] d = tt
Distinct-select p (r ∷ rs) d = elim (Bool-cases (p r)) [
  | inl kept ↦
      rw kept (All-map _ _ _ (λ x h. h.0) (All-select _ p rs d.0), Distinct-select p rs d.1)
  | inr dropped ↦ rw dropped (Distinct-select p rs d.1)
]

All-set_new_version :
    (P : ℕ → Type 0) (i : ℕ) (v : Option ℕ) (rs : List LogRecord)
    → All (λ (r : LogRecord). P r.id) rs
    → All (λ (r : LogRecord). P r.id) (set_new_version i v rs)
All-set_new_version P i v [] h = tt
All-set_new_version P i v (r ∷ rs) h = elim (Bool-cases (r.id == i)) [
  | inl hit ↦ rw hit (h.0, All-set_new_version P i v rs h.1)
  | inr miss ↦ rw miss (h.0, All-set_new_version P i v rs h.1)
]

Distinct-set_new_version :
    (i : ℕ) (v : Option ℕ) (rs : List LogRecord) → Distinct rs → Distinct (set_new_version i v rs)
Distinct-set_new_version i v [] d = tt
Distinct-set_new_version i v (r ∷ rs) d = elim (Bool-cases (r.id == i)) [
  | inl hit ↦ rw hit (
    All-set_new_version (λ j. (j == r.id) ≡ false) i v rs d.0,
    Distinct-set_new_version i v rs d.1,
  )
  | inr miss ↦ rw miss (
    All-set_new_version (λ j. (j == r.id) ≡ false) i v rs d.0,
    Distinct-set_new_version i v rs d.1,
  )
]

pub Recorded-IdsOf :
    (log e : ℕ) (old new : Option ℕ) (b b' : Branch)
    → Recorded log e old new b b'
    → IdsOf b.records b.next_record
    → IdsOf b'.records b'.next_record
Recorded-IdsOf log e old new b b' (Recorded.created fresh same next) (d, h) =
    rw (same, next)
      (
        Distinct-append b.records (new_record log e old new b) d h,
        All-append _ b.records (new_record log e old new b ∷ [])
            (All-map _ _ b.records (λ r lt. omega arith) h) (omega arith, tt),
      )
Recorded-IdsOf log e old new b b' (Recorded.cancelled r found back same next) (d, h) =
    rw (same, next)
      (Distinct-select _ b.records d, All-map _ _ _ (λ x y. y.0) (All-select _ _ b.records h))
Recorded-IdsOf log e old new b b' (Recorded.merged r found off same next) (d, h) =
    rw (same, next)
      (
        Distinct-set_new_version r.id new b.records d,
        All-set_new_version (λ i. i < b.next_record) r.id new b.records h,
      )

-- The record that a search finds is the only one with its id.
others_differ :
    (p q : LogRecord → Bool) (rs : List LogRecord) {r : LogRecord}
    → Distinct rs
    → find p rs ≡ some r
    → q r ≡ false
    → All (λ (x : LogRecord). (x.id == r.id) ≡ false) (select q rs)
others_differ p q [] d found miss = tt
others_differ p q (x ∷ rs) {r} d found miss = elim (Bool-cases (p x)) [
  | inl hit ↦
      let it : x ≡ r = ground arith in
      let missed : q x ≡ false = rw it miss in
      rw missed (rw it at (All-map _ _ _ (λ y h. h.0) (All-select _ q rs d.0)))
  | inr later ↦
      let found' : find p rs ≡ some r = ground arith in
      let rest = others_differ p q rs {r = r} d.1 found' miss in
      elim (Bool-cases (q x)) [
        | inl kept ↦ rw kept (differs x rs d.0 found', rest)
        | inr dropped ↦ rw dropped rest
      ]
]
  where
    differs :
        (x : LogRecord) (ys : List LogRecord)
        → All (λ (y : LogRecord). (y.id == x.id) ≡ false) ys
        → find p ys ≡ some r
        → (x.id == r.id) ≡ false
    differs x [] h e = cc
    differs x (y ∷ ys) h e = ground (arith, h.0, differs x ys h.1)

-- A change leaves the records of all other entities and logs.
pub other_records :
    (log e l j : ℕ) (old new : Option ℕ) (b b' : Branch)
    → Recorded log e old new b b'
    → Distinct b.records
    → (e == j) ≡ false
    → select (record_key l j) b'.records ≡ select (record_key l j) b.records
other_records log e l j old new b b' (Recorded.created fresh same next) d apart =
    let far : record_key l j (new_record log e old new b) ≡ false = ground arith in
    rw (same, select-append (record_key l j) b.records (new_record log e old new b ∷ []), far)
      (append-nil (select (record_key l j) b.records))
other_records log e l j old new b b' (Recorded.cancelled r found back same next) d apart =
    let key = find-true (record_key log e) b.records found in
    let far : record_key l j r ≡ false = ground arith in
    rw (same, select-select (record_key l j) (λ (x : LogRecord). not (x.id == r.id)) b.records)
      (select-every _ _ (
        All-map _ _ _ (λ x h. ground arith)
          (others_differ _ (record_key l j) b.records d found far)))
other_records log e l j old new b b' (Recorded.merged r found off same next) d apart =
    let key = find-true (record_key log e) b.records found in
    let far : record_key l j r ≡ false = ground arith in
    rw
      (
        same,
        select-update_where (record_key l j) (λ (x : LogRecord). x.id == r.id)
            (λ x. record x { new_version = new }) b.records (λ x. refl),
      )
      (update_where-none _ _ _ (others_differ _ (record_key l j) b.records d found far))
