-- ===== src/Publishing/Drafts/Returns.antt =====
-- Changes of drafts in a bulk context that return: what they need of the store.
use mathlib.Core.Path.{subst}
use openedx_core.Common.{
  ℕ, ◌≡◌, ◌<◌, ◌≤◌, refl, inl, inr, true, false, Option, none, some, List, [], ◌∷◌, ◌==◌, opt_eq,
  find, any, All, All-map, All-select, All-append, arith, Bool-cases, Option-cases, ==_refl,
}
use openedx_core.Publishing.Models.{
  LogRecord, ChangeLog, Branch, Store, BranchRow, PublishableEntity, PublishableEntityVersion,
  SideEffect,
}
use openedx_core.Publishing.Monad.{ok}
use openedx_core.Publishing.Tables.{
  find_entity, find_row, find_record, record_key, refers_to, set_new_version,
}
use openedx_core.Publishing.Drafts.{
  entity_id, resolve_draft, check_version, change_in_context, add_to_existing_draft_change_log,
  new_record,
}
use openedx_core.Publishing.Drafts.Records.{Recorded}

-- A version to set: none, or one of the entity.
abbrev pub IsVersionOf : List PublishableEntityVersion → ℕ → Option ℕ → Type 0
IsVersionOf versions e none = Unit
IsVersionOf versions e (some v) =
    (y : PublishableEntityVersion) × (find (λ (z : PublishableEntityVersion). z.id == v) versions
      ≡ some y)
    × (y.entity ≡ e)

-- No side effect refers to the record of the entity in the log.
abbrev pub IsFree : ℕ → ℕ → Branch → Type 0
IsFree log e b =
    (r : LogRecord)
    → find_record log e b.records ≡ some r
    → any (refers_to r.id) b.side_effects ≡ false

abbrev pub Resolves : ℕ → Store → BranchRow → Store → Type 0
Resolves e s row t =
    (resolve_draft (entity_id e) s ≡ ok (row, t)) × (t.drafts.side_effects ≡ s.drafts.side_effects)

pub resolve_returns :
    (e : ℕ) (s : Store) {x : PublishableEntity}
    → find_entity e s ≡ some x
    → (row : BranchRow) × (t : Store) × Resolves e s row t
unfolding resolve_draft
resolve_returns e s there = elim (Option-cases (find_row e s.drafts.rows)) [
  | inr (row, old) ↦ rw old (row, s, (refl, refl))
  | inl new ↦ rw (new, there) (_, _, (refl, refl))
]

pub check_returns :
    (e : ℕ) (v : Option ℕ) (s : Store)
    → IsVersionOf s.versions e v
    → check_version e v s ≡ ok (tt, s)
unfolding check_version
check_returns e none s h = refl
check_returns e (some v) s (y, there, fits) = rw (there, fits, ==_refl e) refl

pub change_returns :
    (log : ChangeLog) (e : ℕ) (old new : Option ℕ) (s : Store)
    → IsFree log.id e s.drafts
    → (t : Store) × (change_in_context log e old new s ≡ ok (tt, t))
      × (t.drafts.side_effects ≡ s.drafts.side_effects)
unfolding change_in_context add_to_existing_draft_change_log
change_returns log e old new s free = elim (Option-cases (find_record log.id e s.drafts.records)) [
  | inl fresh ↦ rw fresh (_, refl, refl)
  | inr (r, found) ↦ elim (Bool-cases (opt_eq r.old_version new)) [
    | inr apart ↦ rw (found, apart) (_, refl, refl)
    | inl back ↦ rw (found, back, free r found) (_, refl, refl)
  ]
]

-- The records of the log are younger than all side effects: none of these refers to them.
pub record Younger (log n : ℕ) (b : Branch) : Type 0 where
  pub next : n ≤ b.next_record
  pub records : All (λ (r : LogRecord). (r.log == log) ≡ true → n ≤ r.id) b.records
  pub effects : All (λ (x : SideEffect). (x.cause < n) × (x.effect < n)) b.side_effects

no_reference :
    (i n : ℕ) (xs : List SideEffect)
    → n ≤ i
    → All (λ (x : SideEffect). (x.cause < n) × (x.effect < n)) xs
    → any (refers_to i) xs ≡ false
no_reference i n [] h all = refl
no_reference i n (x ∷ xs) h all = ground (arith, all.0, no_reference i n xs h all.1)

young :
    (log e n : ℕ) (rs : List LogRecord) {r : LogRecord}
    → All (λ (r : LogRecord). (r.log == log) ≡ true → n ≤ r.id) rs
    → find_record log e rs ≡ some r
    → n ≤ r.id
young log e n [] all h = cc
young log e n (x ∷ rs) {r} all h = elim (Bool-cases (record_key log e x)) [
  | inl hit ↦
      let it : x ≡ r = ground arith in
      let le = all.0 (ground arith) in subst (λ (y : LogRecord). n ≤ y.id) it le
  | inr miss ↦ young log e n rs {r = r} all.1 (ground arith)
]

pub Younger-IsFree : (log e n : ℕ) (b : Branch) → Younger log n b → IsFree log e b
Younger-IsFree log e n b y r found =
    no_reference r.id n b.side_effects (young log e n b.records {r = r} y.records found) y.effects

All-unchanged :
    (P : ℕ → ℕ → Type 0) (i : ℕ) (v : Option ℕ) (rs : List LogRecord)
    → All (λ (r : LogRecord). P r.log r.id) rs
    → All (λ (r : LogRecord). P r.log r.id) (set_new_version i v rs)
All-unchanged P i v [] h = tt
All-unchanged P i v (r ∷ rs) h = elim (Bool-cases (r.id == i)) [
  | inl hit ↦ rw hit (h.0, All-unchanged P i v rs h.1)
  | inr miss ↦ rw miss (h.0, All-unchanged P i v rs h.1)
]

pub Recorded-Younger :
    (log e n : ℕ) (old new : Option ℕ) (b b' : Branch)
    → Recorded log e old new b b'
    → b'.side_effects ≡ b.side_effects
    → Younger log n b
    → Younger log n b'
Recorded-Younger log e n old new b b' (Recorded.created fresh same next) effects y = record {
  next = omega (arith, y.next);
  records =
      rw same
        (All-append _ b.records (new_record log e old new b ∷ []) y.records ((λ h. y.next), tt));
  effects = rw effects y.effects;
}
Recorded-Younger log e n old new b b' (Recorded.cancelled r found back same next) effects y =
    record {
      next = rw next y.next;
      records = rw same (All-map _ _ _ (λ x h. h.0) (All-select _ _ b.records y.records));
      effects = rw effects y.effects;
    }
Recorded-Younger log e n old new b b' (Recorded.merged r found off same next) effects y = record {
  next = rw next y.next;
  records = rw same (All-unchanged (λ l i. (l == log) ≡ true → n ≤ i) r.id new b.records y.records);
  effects = rw effects y.effects;
}
