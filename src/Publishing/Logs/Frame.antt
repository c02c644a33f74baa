-- ===== src/Publishing/Logs/Frame.antt =====
-- What the end of a change leaves alone: the versions of the branch and all other tables.
use openedx_core.Common.{
  ℕ, String, ◌≡◌, sym, ap, ◌∙◌, inl, inr, Bool, false, Option, List, Option-cases, arith,
}
use openedx_core.Publishing.Models.{Dependency, Branch, Kind, Store, ChangeLog, branch, set_branch}
use openedx_core.Publishing.Tables.{version_of}
use openedx_core.Publishing.Monad.{Result, ok, err, Result-cases}
use openedx_core.Publishing.Hashes.{write_digests, update_dependencies_hash_digests_for_log, bind}
use openedx_core.Publishing.SideEffects.{create_side_effects}
use openedx_core.Publishing.SideEffects.Closure.{create_side_effects-closed}
use openedx_core.Publishing.Logs.{
  World, create_side_effects_for_change_log, emit_event_for_change_log,
}

bind-rows :
    (r : Result (List (ℕ × String))) (b b' : Branch)
    → bind r (λ ds. ok (record b { records = write_digests ds b.records })) ≡ ok b'
    → b'.rows ≡ b.rows
bind-rows (ok ds) b b' h = ground arith
bind-rows (err e) b b' h = cc

digests-rows :
    (blake2b : String → ℕ → String) (deps : List Dependency) (log : ℕ) (backfill : Bool)
    (b b' : Branch)
    → update_dependencies_hash_digests_for_log blake2b deps log backfill b ≡ ok b'
    → b'.rows ≡ b.rows
unfolding update_dependencies_hash_digests_for_log
digests-rows blake2b deps log backfill b b' h = bind-rows _ b b' h

-- The end of a change of either branch, as far as the versions go.
pub create_side_effects_for_change_log-SameVersions :
    (w : World) (k : Kind) (log : ℕ) (s s' : Store)
    → create_side_effects_for_change_log w k log s ≡ ok (tt, s')
    → (b : Branch) × (s' ≡ set_branch k b s)
      × ((j : ℕ) → version_of j b.rows ≡ version_of j (branch k s).rows)
unfolding create_side_effects_for_change_log
create_side_effects_for_change_log-SameVersions w k log s s' h =
    elim (Option-cases (create_side_effects k s.dependencies log (branch k s))) [
      | inl out ↦ let h' = rw (out, create_side_effects_for_change_log) at h in cc
      | inr (b, made) ↦
          let h' = rw (made, create_side_effects_for_change_log) at h in
          elim (Result-cases
            (update_dependencies_hash_digests_for_log w.blake2b s.dependencies log false b)) [
              | inl (b', hashed) ↦
                  let h'' = rw hashed at h' in
                  let same : set_branch k b' s ≡ s' = cc in
                  (
                    b',
                    sym same,
                    λ j.
                        ap (version_of j)
                          (digests-rows w.blake2b s.dependencies log false b b' hashed)
                        ∙ (create_side_effects-closed k s.dependencies log (branch k s) b made).1 j,
                  )
              | inr (e, failed) ↦ let h'' = rw failed at h' in cc
            ]
    ]

-- The event is all that `emit_event_for_change_log` adds.
pub emit_event-keeps :
    (k : Kind) (log : ChangeLog) (t : ℕ) (u : Option ℕ) (s s' : Store)
    → emit_event_for_change_log k log t u s ≡ ok (tt, s')
    → s' ≡ record s { events = s'.events }
unfolding emit_event_for_change_log
emit_event-keeps k log t u s s' h = ground arith
