-- ===== src/Cell/ThreadSafe.antt =====
-- `GcThreadSafeCell` of crates/rudo-gc/src/cell.rs. `has_heap` is whether the thread still has its
-- local heap, which goes with its thread-local variables: without it `try_with_heap` gives nothing, and `with_heap` panics.
use rudo.Prelude.{
  ℕ, Bool, false, not, ◌||◌, Option, none, some, List, [], ◌∷◌, ◌==◌, if◌then◌else◌, ◌>>=◌,
}
use rudo.Incremental.{is_incremental_marking_active, is_generational_barrier_active}
use rudo.Buffers.{Shared, push_cross_thread_satb, request_satb_fallback}
use rudo.Barrier.{unified_write_barrier}
use rudo.Cell.{Mutator, record_old_values, mark_all_black}

-- Every pointer is pushed, also after one that finds the buffer full.
unfoldable pub push_old_values : Shared → List ℕ → Shared
unfolding push_cross_thread_satb
push_old_values s [] = s
push_old_values s (ptr ∷ ptrs) =
    let (stored, s') = push_cross_thread_satb s ptr in
    push_old_values (if stored then s' else request_satb_fallback s') ptrs

module _ (thread heap_start heap_end : ℕ) (hash_set : List ℕ → List ℕ) (has_heap : Bool) where
  unfoldable pub trigger_write_barrier_with_incremental : Mutator → ℕ → Bool → Bool → Option Mutator
  unfolding unified_write_barrier
  trigger_write_barrier_with_incremental m cell incremental_active generational_active =
      if not (generational_active || incremental_active)
      then some m
      else if cell == 0
      then some m
      else if not has_heap
      then none
      else unified_write_barrier hash_set (λ s. s) m.heap cell incremental_active >>= λ h.
          some (record m { heap = h })

  -- The old values go to the thread's buffer or, without one, to that of all threads.
  abbrev pub capture_old_values : Mutator → List ℕ → Option Mutator
  capture_old_values m captured =
      if has_heap
      then (record_old_values thread heap_start heap_end m.heap.space m.heap.buffers m.shared
            captured
          >>= λ (b, s). some (record { heap = record m.heap { buffers = b }; shared = s }))
      else some (record m { shared = push_old_values m.shared captured })

  abbrev pub mark_new_values : Mutator → List ℕ → Option Mutator
  mark_new_values m captured = mark_all_black m.heap.space captured >>= λ space.
      some (record m { heap = record m.heap { space = space } })

  unfoldable pub borrow_mut : Mutator → ℕ → List ℕ → Option Mutator
  unfolding record_old_values push_old_values mark_all_black trigger_write_barrier_with_incremental
      is_incremental_marking_active is_generational_barrier_active
  borrow_mut m cell captured =
      let incremental_active = is_incremental_marking_active m.shared.mark_state in
      let generational_active = is_generational_barrier_active m.shared.mark_state in
      (if incremental_active then capture_old_values m captured else some m) >>= λ m1.
      trigger_write_barrier_with_incremental m1 cell incremental_active generational_active
      >>= λ m2. if incremental_active then mark_new_values m2 captured else some m2

  -- The second flag is read only after the old values have been recorded.
  -- The guard is the mutex's own, which does nothing more when it is dropped; that of `borrow_mut` runs
  -- `drop` below.
  unfoldable pub borrow_mut_simple : Mutator → ℕ → List ℕ → Option Mutator
  unfolding record_old_values push_old_values mark_all_black trigger_write_barrier_with_incremental
      is_incremental_marking_active is_generational_barrier_active
  borrow_mut_simple m cell captured =
      let incremental_active = is_incremental_marking_active m.shared.mark_state in
      (if incremental_active then capture_old_values m captured else some m) >>= λ m1.
      let generational_active = is_generational_barrier_active m1.shared.mark_state in
      trigger_write_barrier_with_incremental m1 cell incremental_active generational_active
      >>= λ m2. if incremental_active then mark_new_values m2 captured else some m2

  unfoldable pub borrow_mut_gen_only : Mutator → ℕ → Option Mutator
  unfolding trigger_write_barrier_with_incremental is_generational_barrier_active
  borrow_mut_gen_only m cell =
      trigger_write_barrier_with_incremental m cell false
        (is_generational_barrier_active m.shared.mark_state)

  -- `Drop for GcThreadSafeRefMut`: `captured` is of the value that has been written, `value` its address.
  unfoldable pub drop : Mutator → ℕ → List ℕ → Option Mutator
  unfolding mark_all_black trigger_write_barrier_with_incremental is_incremental_marking_active
      is_generational_barrier_active
  drop m value captured =
      let incremental_active = is_incremental_marking_active m.shared.mark_state in
      let generational_active = is_generational_barrier_active m.shared.mark_state in
      (if incremental_active then mark_new_values m captured else some m) >>= λ m1.
      trigger_write_barrier_with_incremental m1 value incremental_active generational_active
