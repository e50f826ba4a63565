-- ===== src/LockOrder.antt =====
-- The lock ordering discipline of crates/rudo-gc/src/gc/sync.rs, in a build with debug assertions:
-- a thread keeps a stack of the levels that its guards hold. `none` is the panic of the assertion.
pub mod Laws
pub mod Tests
use rudo.Prelude.{
  ℕ, ◌≤◌, max, Bool, true, false, not, ◌||◌, Option, none, some, List, [], ◌∷◌, ltb, ◌==◌,
  if◌then◌else◌,
}

pub data LockOrder : Type 0 where
  local_heap segment_manager global_mark_state gc_request : LockOrder

unfoldable pub order_value : LockOrder → ℕ
order_value local_heap = 1
order_value segment_manager = 2
order_value global_mark_state = 3
order_value gc_request = 4

unfoldable pub level : LockOrder → ℕ
level local_heap = 1
level segment_manager = 1
level global_mark_state = 2
level gc_request = 3

-- The thread-local state; the head of the list is the top of the stack.
pub record LockOrderState : Type 0 where
  pub stack : List ℕ
  pub is_shutdown : Bool

-- `iter().max()`, 0 for an empty stack
abbrev pub maximum : List ℕ → ℕ
maximum [] = 0
maximum (x ∷ xs) = max x (maximum xs)

unfoldable pub get_current_lock_level : LockOrderState → ℕ
get_current_lock_level s = if s.is_shutdown then 0 else maximum s.stack

-- Whether the assertion holds.
unfoldable pub validate_lock_order : LockOrder → ℕ → Bool
unfolding level
validate_lock_order tag current_level =
    let same_level = level tag == current_level in
    let is_downgrade = ltb (level tag) current_level in same_level || not is_downgrade

unfoldable pub acquire_lock : LockOrder → ℕ → Option (Unit {0})
unfolding validate_lock_order
acquire_lock tag current_level = if validate_lock_order tag current_level then some tt else none

unfoldable pub set_min_lock_order : LockOrder → LockOrderState → LockOrderState
unfolding level
set_min_lock_order order s = if s.is_shutdown then s else record s { stack = level order ∷ s.stack }

-- `LockGuard::new`
unfoldable pub new : LockOrder → LockOrderState → Option LockOrderState
unfolding get_current_lock_level validate_lock_order set_min_lock_order
new tag s =
    if validate_lock_order tag (get_current_lock_level s)
    then some (set_min_lock_order tag s)
    else none

abbrev pub pop : List ℕ → List ℕ
pop [] = []
pop (x ∷ xs) = xs

-- `Drop for LockGuard`; the guard's own tag is not looked at.
unfoldable pub drop : LockOrderState → LockOrderState
drop s = if s.is_shutdown then s else record s { stack = pop s.stack }

unfoldable pub enter_thread_shutdown : LockOrderState → LockOrderState
enter_thread_shutdown s = record s { is_shutdown = true }
