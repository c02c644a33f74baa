-- ===== src/Publishing/Entities/Versions.antt =====
-- `create_publishable_entity_version`: the version, its dependencies and the draft.
use mathlib.Core.List.{append-nil}
use openedx_core.Common.{
  ℕ, String, ◌≡◌, refl, sym, ap, ◌∙◌, inl, inr, Bool, false, ◌&&◌, ◌||◌, Option, some, List, [],
  ◌∷◌, ◌++◌, ◌==◌, if◌then◌else◌, find, any, elem, distinct, All, arith, Bool-cases, Option-cases,
  ==_iff,
}
use openedx_core.Publishing.Models.{PublishableEntityVersion, Dependency, Store}
use openedx_core.Publishing.Monad.{ok}
use openedx_core.Publishing.Ensures.{Ensures, Ensures-ok, chain}
use openedx_core.Publishing.Tables.{find_entity, find_version, depends, version_of}
use openedx_core.Publishing.Tables.Laws.{any-append}
use openedx_core.Publishing.Logs.{World}
use openedx_core.Publishing.Drafts.Set.{set_draft_version-Sets}
use openedx_core.Publishing.Entities.{
  create_publishable_entity_version, add_dependencies, set_version_dependencies, dependency_rows,
  is_foreign, is_missing, same_num,
}

elem-distinct : (d : ℕ) (xs : List ℕ) → elem d (distinct xs) ≡ elem d xs
elem-distinct d [] = refl
elem-distinct d (x ∷ xs) = elim (Bool-cases (elem x xs)) [
  | inr new ↦ ground (arith, elem-distinct d xs)
  | inl again ↦ elim (Bool-cases (d == x)) [
    | inl same ↦ let d≡x = (==_iff d x).0 same in ground (arith, elem-distinct d xs)
    | inr other ↦ ground (arith, elem-distinct d xs)
  ]
]

depends-dependency_rows :
    (v d : ℕ) (xs : List ℕ) → depends (some v) d (dependency_rows v xs) ≡ elem d xs
depends-dependency_rows v d [] = refl
depends-dependency_rows v d (x ∷ xs) = ground (arith, depends-dependency_rows v d xs)

any-none {ℓ} :
    {A : Type ℓ} (p : A → Bool) (xs : List A) → All (λ x. p x ≡ false) xs → any p xs ≡ false
any-none p [] h = refl
any-none p (x ∷ xs) h = ground (arith, h.0, any-none p xs h.1)

fresh-depends :
    (v d : ℕ) (deps : List Dependency)
    → All (λ (x : Dependency). (x.referring_version == v) ≡ false) deps
    → depends (some v) d deps ≡ false
fresh-depends v d [] h = refl
fresh-depends v d (x ∷ deps) h = ground (arith, h.0, fresh-depends v d deps h.1)

-- What the dependencies of a new version add.
record Adds (v : ℕ) (dependencies : List ℕ) (s t : Store) : Type 0 where
  pub rows : t.dependencies ≡ s.dependencies ++ dependency_rows v (distinct dependencies)
  pub versions : t.versions ≡ s.versions
  pub drafts : t.drafts ≡ s.drafts

add_dependencies-Adds :
    (lp v : ℕ) (dependencies : List ℕ) (s : Store)
    → Ensures (λ _. Adds v dependencies s) (add_dependencies lp v dependencies s)
unfolding set_version_dependencies
add_dependencies-Adds lp v [] s =
    Ensures.returned
      (record { rows = sym (append-nil s.dependencies); versions = refl; drafts = refl })
add_dependencies-Adds lp v (e ∷ es) s = elim (Bool-cases (any (is_foreign s lp) (e ∷ es))) [
  | inl foreign ↦ rw foreign Ensures.raised
  | inr ours ↦
      elim (Bool-cases (
        any (is_missing s) (e ∷ es)
        || any (λ (d : Dependency). (d.referring_version == v) && elem d.referenced_entity (e ∷ es))
            s.dependencies)) [
              | inl bad ↦ rw (ours, bad) Ensures.raised
              | inr fine ↦
                  rw (ours, fine)
                    (Ensures.returned (record { rows = refl; versions = refl; drafts = refl }))
            ]
]

find_version-new :
    (v : PublishableEntityVersion) (versions : List PublishableEntityVersion)
    → All (λ (x : PublishableEntityVersion). (x.id == v.id) ≡ false) versions
    → find (λ (x : PublishableEntityVersion). x.id == v.id) (versions ++ v ∷ []) ≡ some v
find_version-new v [] h = ground arith
find_version-new v (x ∷ versions) h = ground (arith, h.0, find_version-new v versions h.1)

-- A version and its draft as they are to be made.
abbrev pub IsMade : ℕ → ℕ → List ℕ → Store → PublishableEntityVersion → Store → Type 0
IsMade e num dependencies s v t =
    (v.entity ≡ e)
    × (v.version_num ≡ num)
    × (find_version v.id t ≡ some v)
    × ((d : ℕ) → depends (some v.id) d t.dependencies ≡ elem d dependencies)
    × ((j : ℕ)
        → version_of j t.drafts.rows ≡ (if e == j then some v.id else version_of j s.drafts.rows))

create_version-IsMade :
    (w : World) (e num : ℕ) (title : String) (created : ℕ) (by : Option ℕ) (dependencies : List ℕ)
    (s : Store)
    → All (λ (x : PublishableEntityVersion). (x.id == s.next_version) ≡ false) s.versions
    → All (λ (x : Dependency). (x.referring_version == s.next_version) ≡ false) s.dependencies
    → Ensures
        (IsMade e num dependencies s)
        (create_publishable_entity_version w e num title created by dependencies s)
unfolding create_publishable_entity_version
create_version-IsMade w e num title created by dependencies s new_id no_rows =
    elim (Bool-cases (any (same_num e num) s.versions)) [
      | inl taken ↦ rw taken Ensures.raised
      | inr free ↦ elim (Option-cases (find_entity e s)) [
        | inl missing ↦ rw (free, missing) Ensures.raised
        | inr (x, there) ↦
            let i = s.next_version in
            rw (free, there)
              (chain (add_dependencies-Adds x.learning_package i dependencies _) λ _ t adds.
                chain (set_draft_version-Sets w (some i) (some created) by e t) λ _ u sets.
                  Ensures.returned (
                    refl,
                    refl,
                    rw (sets.tables.versions, adds.versions) (find_version-new _ s.versions new_id),
                    (λ d.
                        ap (depends (some i) d) (sets.tables.dependencies ∙ adds.rows)
                        ∙ any-append _ s.dependencies (dependency_rows i (distinct dependencies))
                        ∙ ground (
                          arith,
                          fresh-depends i d s.dependencies no_rows,
                          depends-dependency_rows i d (distinct dependencies),
                          elem-distinct d dependencies,
                        )),
                    λ j. ground (arith, sets.drafts j, adds.drafts),
                  ))
      ]
    ]

-- When `create_publishable_entity_version` returns a version: it is a version of the entity with
-- the given number, it is found in the store by its id, it depends on the given entities and no
-- others, it is the draft version of the entity, and the other drafts have the versions that they
-- had. The conditions say that the next id is new among the versions and the dependencies.
pub create_version_lem :
    (w : World) (e num : ℕ) (title : String) (created : ℕ) (by : Option ℕ) (dependencies : List ℕ)
    (s s' : Store) (v : PublishableEntityVersion)
    → All (λ (x : PublishableEntityVersion). (x.id == s.next_version) ≡ false) s.versions
    → All (λ (x : Dependency). (x.referring_version == s.next_version) ≡ false) s.dependencies
    → create_publishable_entity_version w e num title created by dependencies s ≡ ok (v, s')
    → IsMade e num dependencies s v s'
create_version_lem w e num title created by dependencies s s' v new_id no_rows h =
    Ensures-ok (create_version-IsMade w e num title created by dependencies s new_id no_rows) h
