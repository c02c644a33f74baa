-- ===== src/Tagging/Taxonomies/Deletions.antt =====
-- `Taxonomy.delete_tags` on a forest.
use mathlib.Core.Path.{subst}
use openedx_core.Common.{
  ℕ, suc, ◌≡◌, refl, sym, ap, ◌∙◌, inl, inr, Bool, true, false, ◌&&◌, not, List, [], ◌∷◌, Option,
  none, some, ◌==◌, elem, any, select, update_where, map, length, All, All-map, arith, Bool-cases,
  if◌then◌else◌,
}
use openedx_core.Tagging.Str.{Str}
use openedx_core.Tagging.Models.{Database, Tag, Taxonomy, ObjectTag, Store, find_tag}
use openedx_core.Tagging.Monad.{
  Result, Error, ok, err, raise_if, and_then-eq-ok, and_then-eq-err, raise_if-eq-ok,
  raise_if-eq-err,
}
use openedx_core.Tagging.Taxonomies.{
  may_change, elem_opt, is_child, collect, delete_rows, delete_all, delete_tags, named, named_ids,
  may_delete,
}
use openedx_core.Tagging.Taxonomies.Changes.{IsSound, may_change_ok, may_change_err}
use openedx_core.Tagging.Taxonomies.Remaining.{
  find_tag-select, left_before, left_after, left-IsForest, left-IsKeyed,
}
use openedx_core.Tagging.Taxonomies.Closure.{IsClosed, collected-IsClosed, collected-given}

-- The link of an object tag: its tag is in the table.
abbrev pub IsLinkedTo : List Tag → Option ℕ → Type 0
IsLinkedTo ts none = Unit {0}
IsLinkedTo ts (some i) = (t : Tag) × (find_tag ts i ≡ some t)

abbrev pub IsLinked : Store → Type 0
IsLinked s = All (λ (o : ObjectTag). IsLinkedTo s.tags o.tag) s.object_tags

still_linked :
    (ids : List ℕ) (ts : List Tag) (q : Option ℕ)
    → elem_opt q ids ≡ false
    → IsLinkedTo ts q
    → IsLinkedTo (select (λ t. not (elem t.id ids)) ts) q
still_linked ids ts none h l = tt
still_linked ids ts (some i) h (t, found) = (t, left_after ids ts i found h)

unlink-IsLinked :
    (ids : List ℕ) (ts : List Tag) (os : List ObjectTag)
    → All (λ (o : ObjectTag). IsLinkedTo ts o.tag) os
    → All
        (λ (o : ObjectTag). IsLinkedTo (select (λ t. not (elem t.id ids)) ts) o.tag)
        (update_where
          (λ (o : ObjectTag). elem_opt o.tag ids)
          (λ (o : ObjectTag). record o { tag = none })
          os)
unlink-IsLinked ids ts [] h = tt
unlink-IsLinked ids ts (o ∷ os) h = elim (Bool-cases (elem_opt o.tag ids)) [
  | inl gone ↦ rw gone (tt, unlink-IsLinked ids ts os h.1)
  | inr stays ↦ rw stays (still_linked ids ts o.tag stays h.0, unlink-IsLinked ids ts os h.1)
]

delete_rows-IsSound :
    (db : Database) (ids : List ℕ) (s : Store)
    → IsSound db s
    → IsClosed ids s.tags
    → IsSound db (delete_rows ids s)
unfolding delete_rows
delete_rows-IsSound db ids s sound closed =
    let n = sound.numbered in
    record {
      forest = left-IsForest ids s.tags db sound.forest closed;
      numbered = record {
        positive = n.positive;
        no_zero = find_tag-select ids s.tags 0 ∙ ground (arith, n.no_zero);
        keyed = left-IsKeyed ids s.tags n.keyed;
        below_next = λ i u found. n.below_next i u (left_before ids s.tags i found).0;
      };
    }

no_children_row :
    (ids : List ℕ) (ts : List Tag)
    → any (λ t. elem_opt t.parent ids) ts ≡ false
    → map (λ (t : Tag). t.id) (select (is_child ids ids) ts) ≡ []
unfolding is_child
no_children_row ids [] h = refl
no_children_row ids (t ∷ ts) h =
    let none_here : elem_opt t.parent ids ≡ false = ground (arith, h) in
    rw none_here (no_children_row ids ts (ground (arith, h)))

collect_alone :
    (n : ℕ) (ids : List ℕ) (ts : List Tag)
    → any (λ t. elem_opt t.parent ids) ts ≡ false
    → collect (suc n) ts ids ids ≡ ids
unfolding collect
collect_alone n ids ts h = rw (no_children_row ids ts h) refl

own_ids : (ts : List Tag) → All (λ (t : Tag). elem t.id (map (λ (u : Tag). u.id) ts) ≡ true) ts
own_ids [] = tt
own_ids (t ∷ ts) = (ground arith, All-map _ _ ts (λ u h. ground (arith, h)) (own_ids ts))

may_delete_ok :
    (db : Database) (y : Taxonomy) (tags : List Str) (with_subtags : Bool) (s : Store) {s' : Store}
    → may_delete db y tags with_subtags s ≡ (ok tt, s')
    → (s' ≡ s)
      × (length (named db y tags s) ≡ length tags)
      × (with_subtags ≡ false → any (λ t. elem_opt t.parent (named_ids db y tags s)) s.tags ≡ false)
unfolding may_delete
may_delete_ok db y tags with_subtags s {s'} h =
    let (o, s1, e1, h1) =
      and_then-eq-ok (raise_if (not (length (named db y tags s) == length tags)) _ s) _ h in
    let (all_found, same) =
      raise_if-eq-ok (not (length (named db y tags s) == length tags)) _ s e1 in
    let (no_children, same') =
      raise_if-eq-ok
        (any (λ t. elem_opt t.parent (named_ids db y tags s)) s.tags && not with_subtags) _ s1 h1 in
    (sym (same ∙ same'), ground (arith, all_found), λ alone. ground (arith, no_children, alone))

may_delete_err :
    (db : Database) (y : Taxonomy) (tags : List Str) (with_subtags : Bool) (s : Store) {e : Error}
    {s' : Store}
    → may_delete db y tags with_subtags s ≡ (err e, s')
    → s' ≡ s
unfolding may_delete
may_delete_err db y tags with_subtags s {e} {s'} h =
    elim (and_then-eq-err (raise_if (not (length (named db y tags s) == length tags)) _ s) _ h) [
      | inl bad ↦ raise_if-eq-err (not (length (named db y tags s) == length tags)) _ s bad
      | inr (o, s1, e1, h1) ↦
          let (all_found, same) =
            raise_if-eq-ok (not (length (named db y tags s) == length tags)) _ s e1 in
          raise_if-eq-err
            (any (λ t. elem_opt t.parent (named_ids db y tags s)) s.tags && not with_subtags) _ s1
            h1
          ∙ sym same
    ]

-- What a deletion comes to.
abbrev pub IsDeletion :
    Database → Taxonomy → List Str → Bool → Store → Result (Unit {0}) → Store → Type 0
IsDeletion db y tags with_subtags s (ok o) s' =
    (y.allow_free_text ≡ false)
    × (y.read_only ≡ false)
    × (length (named db y tags s) ≡ length tags)
    × (gone : List ℕ) × IsClosed gone s.tags
    × All (λ (t : Tag). elem t.id gone ≡ true) (named db y tags s)
    × (with_subtags ≡ false → gone ≡ named_ids db y tags s)
    × ((i : ℕ) → find_tag s'.tags i ≡ (if elem i gone then none else find_tag s.tags i))
    × IsSound db s'
    × (IsLinked s → IsLinked s')
IsDeletion db y tags with_subtags s (err e) s' = s' ≡ s

deleted_lem :
    (db : Database) (y : Taxonomy) (tags : List Str) (with_subtags : Bool) (s : Store) (s' : Store)
    → IsSound db s
    → y.allow_free_text ≡ false
    → y.read_only ≡ false
    → length (named db y tags s) ≡ length tags
    → (with_subtags ≡ false → any (λ t. elem_opt t.parent (named_ids db y tags s)) s.tags ≡ false)
    → s' ≡ delete_all (named_ids db y tags s) s
    → IsDeletion db y tags with_subtags s (ok tt) s'
unfolding delete_all delete_rows
deleted_lem db y tags with_subtags s s' sound closed open_to all_found alone e =
    let ids = named_ids db y tags s in
    let gone = collect (suc (length s.tags)) s.tags ids ids in
    let down = collected-IsClosed s.tags ids in
    (
      closed,
      open_to,
      all_found,
      gone,
      down,
      All-map _ _ (named db y tags s) (λ t h. collected-given s.tags ids t.id h)
          (own_ids (named db y tags s)),
      (λ no_subtags. collect_alone (length s.tags) ids s.tags (alone no_subtags)),
      (λ i. ap (λ (z : Store). find_tag z.tags i) e ∙ find_tag-select gone s.tags i),
      subst (IsSound db) (sym e) (delete_rows-IsSound db gone s sound down),
      λ linked. subst IsLinked (sym e) (unlink-IsLinked gone s.tags s.object_tags linked),
    )

-- A deletion raises and leaves the tables, or takes exactly the rows of a set that has the named
-- tags, one to each value given, and with a tag its children; without `with_subtags` the set is
-- the named tags. The tables are a forest again, and no object tag links to a tag that is gone.
pub delete_tags_lem :
    (db : Database) (y : Taxonomy) (tags : List Str) (with_subtags : Bool) (s : Store)
    (res : Result (Unit {0})) (s' : Store)
    → IsSound db s
    → delete_tags db y tags with_subtags s ≡ (res, s')
    → IsDeletion db y tags with_subtags s res s'
unfolding delete_tags
delete_tags_lem db y tags with_subtags s (ok o) s' sound h =
    let (o1, s1, e1, h1) = and_then-eq-ok (may_change y s) _ h in
    let (same, closed, open_to) = may_change_ok y s e1 in
    let (o2, s2, e2, h2) = and_then-eq-ok (may_delete db y tags with_subtags s1) _ h1 in
    let (same', all_found, alone) =
      may_delete_ok db y tags with_subtags s
        (subst (λ z. may_delete db y tags with_subtags z ≡ (ok tt, s2)) same e2) in
    let last : s' ≡ delete_all (named_ids db y tags s2) s2 = ground (arith, h2) in
    deleted_lem db y tags with_subtags s s' sound closed open_to all_found alone
      (last ∙ ap (λ (z : Store). delete_all (named_ids db y tags z) z) same')
delete_tags_lem db y tags with_subtags s (err e) s' sound h =
    elim (and_then-eq-err (may_change y s) _ h) [
      | inl bad ↦ may_change_err y s bad
      | inr (o1, s1, e1, h1) ↦
          let (same, closed, open_to) = may_change_ok y s e1 in
          elim (and_then-eq-err (may_delete db y tags with_subtags s1) _ h1) [
            | inl bad ↦ may_delete_err db y tags with_subtags s1 bad ∙ same
            | inr (o2, s2, e2, h2) ↦ absurd (ground (arith, h2))
          ]
    ]
