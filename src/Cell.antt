-- ===== src/Cell.antt =====
-- `GcCell` and `GcThreadSafeCell` of crates/rudo-gc/src/cell.rs: what a mutable borrow does before the
-- value is handed out. `captured` is what `capture_gc_ptrs_into` of the value gives: it is the same
-- before and after the borrow, since nothing has been written yet. `cell` is the cell's address,
-- `hash_set` the set of Buffers. The thread has its local heap, and no other thread acts during the
-- borrow. `none` is a panic.
pub mod ThreadSafe
pub mod Black
pub mod Satb
pub mod Agree
pub mod Borrow
pub mod Tests
use rudo.Prelude.{
  ℕ, Bool, true, false, not, ◌||◌, Option, none, some, List, [], ◌∷◌, ltb, leb, ◌==◌, if◌then◌else◌,
  ◌>>=◌,
}
use rudo.Page.{TryMark, marked, contended, try_mark, is_allocated, clear_mark_atomic}
use rudo.GcBox.{is_under_construction}
use rudo.Incremental.{is_incremental_marking_active, is_generational_barrier_active}
use rudo.Mark.{Space, header_of, index_of, put_header}
use rudo.Buffers.{LocalHeap, Shared, record_satb_old_value, request_satb_fallback}
use rudo.Barrier.{Heap, gc_cell_validate_and_barrier}

-- A thread's heap, and what the threads share.
pub record Mutator : Type 0 where
  pub heap : Heap
  pub shared : Shared

-- `mark_object_black` of crates/rudo-gc/src/gc/incremental.rs, with the index of an object that is
-- marked afterwards.
unfoldable pub mark_object_black : Space → ℕ → Option (Option ℕ × Space)
unfolding is_allocated is_under_construction try_mark clear_mark_atomic
mark_object_black s ptr = elim (index_of s ptr) [
  | none ↦ some (none, s)
  | some idx ↦ is_allocated (header_of s ptr) idx >>= λ live.
      if not live
      then some (none, s)
      else if is_under_construction (s.boxes ptr)
      then some (none, s)
      else try_mark (header_of s ptr) (header_of s ptr) idx >>= λ (r, h). elim r [
        | contended ↦ none
        | marked newly ↦ is_allocated h idx >>= λ still.
            if not newly
            then some (if still then some idx else none, s)
            else if still
            then some (some idx, put_header s ptr h)
            else (clear_mark_atomic h idx >>= λ cleared. some (none, put_header s ptr cleared))
      ]
]

unfoldable pub mark_all_black : Space → List ℕ → Option Space
unfolding mark_object_black
mark_all_black s [] = some s
mark_all_black s (ptr ∷ ptrs) = mark_object_black s ptr >>= λ (_, s'). mark_all_black s' ptrs

module _ (thread heap_start heap_end : ℕ) where
  -- The loop over the captured pointers, which a full buffer ends.
  unfoldable pub record_old_values :
      Space → LocalHeap → Shared → List ℕ → Option (LocalHeap × Shared)
  unfolding record_satb_old_value
  record_old_values sp b s [] = some (b, s)
  record_old_values sp b s (ptr ∷ ptrs) =
      record_satb_old_value thread heap_start heap_end sp b s ptr >>= λ (stored, b', s').
      if stored then record_old_values sp b' s' ptrs else some (b', request_satb_fallback s')

  unfoldable pub validate_thread_affinity : Space → ℕ → Option {0} Unit
  unfolding is_allocated
  validate_thread_affinity sp cell =
      if ltb cell heap_start || leb heap_end cell then some tt else elim (index_of sp cell) [
        | none ↦ some tt
        | some idx ↦ is_allocated (header_of sp cell) idx >>= λ live.
            let owner = (header_of sp cell).owner_thread in
            if not live
            then some tt
            else if (owner == 0) || (owner == thread)
            then some tt
            else none
      ]

  -- `mutably` is whether the value is mutably borrowed.
  unfoldable pub borrow : Mutator → ℕ → Bool → Option Mutator
  unfolding validate_thread_affinity
  borrow m cell mutably =
      validate_thread_affinity m.heap.space cell >>= λ _. if mutably then none else some m

  module _ (hash_set : List ℕ → List ℕ) where
    abbrev pub cell_barrier : Mutator → ℕ → Bool → Option Mutator
    cell_barrier m cell incremental_active =
        gc_cell_validate_and_barrier hash_set (λ s. s) thread m.heap cell incremental_active
        >>= λ h. some (record m { heap = h })

    -- `borrowed` is whether the value is borrowed in any way.
    unfoldable pub borrow_mut : Mutator → ℕ → Bool → List ℕ → Option Mutator
    unfolding validate_thread_affinity is_incremental_marking_active is_generational_barrier_active
        record_old_values gc_cell_validate_and_barrier mark_all_black
    borrow_mut m cell borrowed captured = validate_thread_affinity m.heap.space cell >>= λ _.
        let incremental_active = is_incremental_marking_active m.shared.mark_state in
        let generational_active = is_generational_barrier_active m.shared.mark_state in
        (if incremental_active
          then record_old_values m.heap.space m.heap.buffers m.shared captured
          else some (m.heap.buffers, m.shared))
        >>= λ (buffers, shared).
            let m1 : Mutator = record {
              heap = record m.heap { buffers = buffers };
              shared = shared;
            } in
            (if generational_active || incremental_active
              then cell_barrier m1 cell incremental_active
              else some m1)
            >>= λ m2.
                if borrowed
                then none
                else if not incremental_active
                then some m2
                else mark_all_black m2.heap.space captured >>= λ space.
                    some (record m2 { heap = record m2.heap { space = space } })

    unfoldable pub borrow_mut_gen_only : Mutator → ℕ → Bool → Option Mutator
    unfolding validate_thread_affinity is_generational_barrier_active gc_cell_validate_and_barrier
    borrow_mut_gen_only m cell borrowed = validate_thread_affinity m.heap.space cell >>= λ _.
        (if is_generational_barrier_active m.shared.mark_state
          then cell_barrier m cell false
          else some m)
        >>= λ m1. if borrowed then none else some m1
