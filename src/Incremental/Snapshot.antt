-- ===== src/Incremental/Snapshot.antt =====
-- The snapshot that starts marking, and the barriers that it turns on.
use rudo.Prelude.{ℕ, ◌≡◌, refl, sym, ◌∙◌, Bool, true, false, List, [], ◌∷◌, ◌++◌, length, arith, ap}
use mathlib.Core.List.{append-nil, append_assoc}
use rudo.Incremental.{
  IncrementalMarkState, marking, phase, execute_snapshot, push_all, push_work, write_barrier_needed,
  is_generational_barrier_active, stop_all_mutators, new_stats,
}

worklist-push_all :
    (s : IncrementalMarkState) (ptrs : List ℕ)
    → push_all s ptrs ≡ record s { worklist = s.worklist ++ ptrs }
unfolding push_all
worklist-push_all s [] =
    ap (λ (w : List ℕ). record s { worklist = w }) (sym (append-nil s.worklist))
worklist-push_all s (p ∷ ps) =
    worklist-push_all (push_work s p) ps
    ∙ ap (λ (w : List ℕ). record s { worklist = w }) (append_assoc s.worklist (p ∷ []) ps)

-- After a snapshot, whatever the state before and whether or not the threads stopped in time, the
-- collector is marking, the worklist is the marked roots, counted as both the root count and the
-- largest worklist, the statistics are cleared, and the barriers are on if marking is enabled.
execute_snapshot_exact :
    (s : IncrementalMarkState) (timed_out : Bool) (roots : List ℕ) (now : ℕ)
    → let (count, t) = execute_snapshot s timed_out roots now in
      (count ≡ length roots)
      × (t.worklist ≡ roots)
      × (t.root_count ≡ length roots)
      × (t.max_worklist_size ≡ length roots)
      × (phase t ≡ marking)
      × (t.stats ≡ new_stats)
      × (write_barrier_needed t ≡ s.enabled)
      × (is_generational_barrier_active t ≡ true)
unfolding execute_snapshot phase write_barrier_needed is_generational_barrier_active
execute_snapshot_exact s true roots now =
    rw worklist-push_all (refl, refl, refl, refl, refl, refl, ground arith, refl)
execute_snapshot_exact s false roots now =
    rw worklist-push_all (refl, refl, refl, refl, refl, refl, ground arith, refl)

-- The fallback that a timeout has requested does not survive the snapshot: its request is taken
-- back and its reason forgotten.
timeout_forgotten :
    (s : IncrementalMarkState) (roots : List ℕ) (now : ℕ)
    → let t = (execute_snapshot s true roots now).1 in
      ((stop_all_mutators s true).fallback_requested ≡ true)
      × (t.fallback_requested ≡ false)
      × (t.stats.fallback_occurred ≡ false)
unfolding execute_snapshot
timeout_forgotten s roots now = rw worklist-push_all (refl, refl, refl)
