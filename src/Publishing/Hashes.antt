-- ===== src/Publishing/Hashes.antt =====
-- publishing/api.py, `update_dependencies_hash_digests_for_log` and `hash_for_log_record`: the
-- digest of the live state of what a version depends on. `blake2b` stands for hashlib's function,
-- from a text and a number of bytes to a hexadecimal text.
use Prim.Native.String.{◌++◌ as ◌+s◌}
use openedx_core.Common.{
  ℕ, zero, suc, String, Bool, false, ◌&&◌, not, Option, none, some, List, [], ◌∷◌, ◌==◌,
  if◌then◌else◌, leb, is_none, or_else, select, find, any, elem, length, order_asc, update_where,
}
use openedx_core.Common.Text.{show, join}
use openedx_core.Publishing.Models.{Dependency, BranchRow, LogRecord, Branch}
use openedx_core.Publishing.Tables.{find_row, records_of}
use openedx_core.Publishing.Monad.{Result, ok, err, type_error, recursion_error}

-- `record_ids_to_hash_digests` and `record_ids_to_live_deps`.
pub record Caches : Type 0 where
  pub digests : List (ℕ × String)
  pub live_deps : List (ℕ × List ℕ)

abbrev pub cached {ℓ} : {A : Type ℓ} → ℕ → List (ℕ × A) → Option A
cached k [] = none
cached k ((j, v) ∷ d) = if j == k then some v else cached k d

abbrev pub remember : ℕ → String → Caches → Caches
remember i digest c = record c { digests = (i, digest) ∷ c.digests }

-- Exceptions without the store.
abbrev pub bind : {A B : Type 0} → Result A → (A → Result B) → Result B
bind (ok a) f = f a
bind (err e) f = err e

abbrev pub show_version : Option ℕ → String
show_version none = "None"
show_version (some v) = show v

abbrev pub is_live : ℕ → List BranchRow → Bool
is_live e rows = elim (find_row e rows) [ none ↦ false | some r ↦ not (is_none r.version) ]

-- `record.new_version.dependencies.all()`, in the order of the table.
abbrev pub dependencies_of : ℕ → List Dependency → List ℕ
dependencies_of v [] = []
dependencies_of v (d ∷ deps) =
    let rest = dependencies_of v deps in
    if d.referring_version == v then d.referenced_entity ∷ rest else rest

-- The dependencies with a row in the branch that holds a version.
abbrev pub live_deps_of : Option ℕ → List Dependency → List BranchRow → List ℕ
live_deps_of none deps rows = []
live_deps_of (some v) deps rows = select (λ e. is_live e rows) (dependencies_of v deps)

-- `getattr(dep_entity, branch).log_record`
abbrev pub log_record_of : ℕ → Branch → Option LogRecord
log_record_of e b = elim (find_row e b.rows) [
  | none ↦ none
  | some row ↦ elim row.log_record [ none ↦ none | some i ↦ find (λ r. r.id == i) b.records ]
]

abbrev pub log_records_of : List ℕ → Branch → Result (List LogRecord)
log_records_of [] b = ok []
log_records_of (e ∷ es) b = elim (log_record_of e b) [
  | none ↦ err type_error
  | some r ↦ elim (log_records_of es b) [ ok rs ↦ ok (r ∷ rs) | err x ↦ err x ]
]

-- `sorted(deps, key=new_version_id)`: Python refuses to compare `None` with a number.
abbrev pub sort_by_version : List LogRecord → Result (List LogRecord)
sort_by_version rs =
    if leb 2 (length rs) && any (λ (r : LogRecord). is_none r.new_version) rs
    then err type_error
    else ok (order_asc (λ r. or_else r.new_version 0) rs)

-- fields.py, `create_hash_digest`.
abbrev pub create_hash_digest : (String → ℕ → String) → String → ℕ → String
create_hash_digest blake2b data_bytes num_bytes = blake2b data_bytes num_bytes

abbrev pub trusts : Option (List ℕ) → ℕ → Bool
trusts none i = false
trusts (some untrusted) i = not (elem i untrusted)

module _ (blake2b : String → ℕ → String) (deps : List Dependency) (b : Branch)
    (untrusted : Option (List ℕ)) where
  -- The loop over the sorted dependencies, with the recursive call passed in.
  pub hash_entries :
      (LogRecord → Caches → Result (String × Caches))
      → List LogRecord
      → Caches
      → Result (List String × Caches)
  hash_entries hash [] c = ok ([], c)
  hash_entries hash (r ∷ rs) c = bind (hash r c) λ (digest, c').
      bind (hash_entries hash rs c')
        λ (entries, c''). ok (◌+s◌ (show_version r.new_version) (◌+s◌ ":" digest) ∷ entries, c'')

  -- The normal case, for a record whose live dependencies are known.
  pub hash_live :
      (LogRecord → Caches → Result (String × Caches))
      → LogRecord
      → List ℕ
      → Caches
      → Result (String × Caches)
  unfolding hash_entries
  hash_live hash r live c = bind (log_records_of live b) λ rs. bind (sort_by_version rs) λ sorted.
      bind (hash_entries hash sorted c) λ (entries, c').
        let digest = create_hash_digest blake2b (join "\n" entries) 4 in
        ok (digest, remember r.id digest c')

  -- The dependencies are looked up if the cache lacks them, as happens in a backfill only.
  pub hash_uncached :
      (LogRecord → Caches → Result (String × Caches))
      → LogRecord
      → Caches
      → Result (String × Caches)
  unfolding hash_live
  hash_uncached hash r c = elim (cached r.id c.live_deps) [
    | some live ↦ hash_live hash r live c
    | none ↦ elim (live_deps_of r.new_version deps b.rows) [
      | [] ↦ ok ("", remember r.id "" c)
      | e ∷ es ↦ hash_live hash r (e ∷ es) (record c { live_deps = (r.id, e ∷ es) ∷ c.live_deps })
    ]
  ]

  -- The cache, then the stored digest of a record that did not change, then the computation.
  pub hash_step :
      (LogRecord → Caches → Result (String × Caches))
      → LogRecord
      → Caches
      → Result (String × Caches)
  unfolding hash_uncached
  hash_step hash r c = elim (cached r.id c.digests) [
    | some digest ↦ ok (digest, c)
    | none ↦
        if trusts untrusted r.id then ok (r.dependencies_hash_digest, c) else hash_uncached hash r c
  ]

  -- The recursion is on the depth of Python's stack.
  pub hash_for_log_record : ℕ → LogRecord → Caches → Result (String × Caches)
  unfolding hash_step
  hash_for_log_record zero = hash_step (λ r c. err recursion_error)
  hash_for_log_record (suc depth) = hash_step (hash_for_log_record depth)

  -- The loop over the records that need a hash: the digests to write.
  pub hash_records : ℕ → List LogRecord → Caches → Result (List (ℕ × String))
  unfolding hash_for_log_record
  hash_records depth [] c = ok []
  hash_records depth (r ∷ rs) c =
      bind (hash_for_log_record depth r c)
        λ (digest, c'). bind (hash_records depth rs c') λ rest. ok ((r.id, digest) ∷ rest)

-- The first loop of `update_dependencies_hash_digests_for_log`: the records without a live
-- dependency get the blank digest in the cache, and the others are to be hashed.
abbrev pub sort_out :
    List Dependency → List BranchRow → List LogRecord → Caches → List LogRecord × Caches
sort_out deps rows [] c = ([], c)
sort_out deps rows (r ∷ rs) c =
    let live = live_deps_of r.new_version deps rows in
    let blank = sort_out deps rows rs (remember r.id "" c) in
    let (need, c') = sort_out deps rows rs (record c { live_deps = (r.id, live) ∷ c.live_deps }) in
    elim live [ [] ↦ blank | _ ∷ _ ↦ (r ∷ need, c') ]

abbrev pub ids_of : List LogRecord → List ℕ
ids_of [] = []
ids_of (r ∷ rs) = r.id ∷ ids_of rs

-- `_bulk_update_hashes`
abbrev pub write_digests : List (ℕ × String) → List LogRecord → List LogRecord
write_digests [] rs = rs
write_digests ((i, digest) ∷ ds) rs =
    write_digests ds
      (update_where (λ r. r.id == i) (λ r. record r { dependencies_hash_digest = digest }) rs)

unfoldable pub update_dependencies_hash_digests_for_log :
    (String → ℕ → String) → List Dependency → ℕ → Bool → Branch → Result Branch
unfolding hash_records
update_dependencies_hash_digests_for_log blake2b deps log backfill b =
    let (need, c) =
      sort_out deps b.rows (records_of log b.records) (record { digests = []; live_deps = [] }) in
    let untrusted : Option (List ℕ) = if backfill then none else some (ids_of need) in
    bind (hash_records blake2b deps b untrusted (length b.rows) need c)
      λ digests. ok (record b { records = write_digests digests b.records })
