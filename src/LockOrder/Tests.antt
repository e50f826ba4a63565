-- ===== src/LockOrder/Tests.antt =====
-- A thread that takes the heap's lock and then the request lock.
use rudo.Prelude.{◌≡◌, refl, false, some, [], ◌∷◌}
use rudo.LockOrder.{
  local_heap, gc_request, LockOrderState, level, new, drop, get_current_lock_level,
}
use rudo.LockOrder.Laws.{IsOrdered, guard_nests}

abbrev idle : LockOrderState
idle = record { stack = []; is_shutdown = false }

abbrev outer_held : LockOrderState
outer_held = record { stack = 1 ∷ []; is_shutdown = false }

abbrev both_held : LockOrderState
both_held = record { stack = 3 ∷ 1 ∷ []; is_shutdown = false }

outer_taken : new local_heap idle ≡ some outer_held
unfolding new
outer_taken = refl

inner_taken : new gc_request outer_held ≡ some both_held
unfolding new
inner_taken = refl

guard_nests_example :
    IsOrdered both_held.stack
    × (get_current_lock_level both_held ≡ level gc_request)
    × (drop both_held ≡ outer_held)
guard_nests_example = guard_nests gc_request outer_held both_held refl (tt, tt) inner_taken
