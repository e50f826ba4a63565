-- ===== src/Cell/Agree.antt =====
-- The borrows of a `GcThreadSafeCell` against each other, and without a local heap.
use rudo.Prelude.{ℕ, ◌≡◌, refl, Bool, true, List, arith, Bool-cases, Option-cases, inl, inr}
use rudo.Incremental.{is_incremental_marking_active, is_generational_barrier_active}
use rudo.Cell.{Mutator}
use rudo.Cell.ThreadSafe
use rudo.Cell.ThreadSafe.{trigger_write_barrier_with_incremental, capture_old_values}

module _ (thread heap_start heap_end : ℕ) (hash_set : List ℕ → List ℕ) where
  generational_unread :
      (has_heap : Bool) (m : Mutator) (cell : ℕ) (one other : Bool)
      → trigger_write_barrier_with_incremental thread heap_start heap_end hash_set has_heap m cell
          true one
        ≡ trigger_write_barrier_with_incremental thread heap_start heap_end hash_set has_heap m cell
            true other
  unfolding trigger_write_barrier_with_incremental
  generational_unread has_heap m cell one other = ground arith

  -- Up to the handing out of their guards, `borrow_mut` and `borrow_mut_simple` of a `GcThreadSafeCell`
  -- do the same on every input, although the second reads the generational flag only after the old
  -- values have been recorded. What the guards do when they are dropped is not compared.
  pub borrow_mut-borrow_mut_simple :
      (has_heap : Bool) (m : Mutator) (cell : ℕ) (captured : List ℕ)
      → ThreadSafe.borrow_mut thread heap_start heap_end hash_set has_heap m cell captured
        ≡ ThreadSafe.borrow_mut_simple thread heap_start heap_end hash_set has_heap m cell captured
  unfolding ThreadSafe.borrow_mut ThreadSafe.borrow_mut_simple
  borrow_mut-borrow_mut_simple has_heap m cell captured =
      elim (Bool-cases (is_incremental_marking_active m.shared.mark_state)) [
        | inr off ↦ rw off refl
        | inl on ↦
            elim (Option-cases
              (capture_old_values thread heap_start heap_end hash_set has_heap m captured)) [
                | inl e ↦ ground (arith, on, e)
                | inr (m1, e) ↦ ground (
                  arith,
                  on,
                  e,
                  generational_unread has_heap m1 cell
                      (is_generational_barrier_active m.shared.mark_state)
                      (is_generational_barrier_active m1.shared.mark_state),
                )
              ]
      ]
