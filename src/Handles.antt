-- ===== src/Handles.antt =====
-- Handle scopes, of crates/rudo-gc/src/handles/local_handles.rs and crates/rudo-gc/src/handles/mod.rs.
-- Addresses of slots are counted in slots, 0 is null, and `slots` is the memory of the slots. A handle
-- is its slot's address. A block is the address of its first slot. The blocks are kept in the order of
-- their `next` links, which only `add_block` sets, at the block that is the last of the chain. Where
-- the allocator puts a new block is an argument, `at`. `debug` is whether debug assertions are compiled.
pub mod Frames
pub mod Visit
pub mod Scopes
pub mod Slots
pub mod Reach
pub mod Live
pub mod Stale
pub mod Tests
use rudo.Prelude.{
  ℕ, zero, suc, ◌+◌, ◌-◌, ◌^◌, Bool, true, false, not, ◌&&◌, ◌||◌, Option, none, some, List, [],
  ◌∷◌, ◌++◌, ltb, leb, ◌==◌, if◌then◌else◌, ◌>>=◌,
}

abbrev pub handle_block_size : ℕ
handle_block_size = 256

pub record HandleScopeData : Type 0 where
  pub next : ℕ
  pub limit : ℕ
  pub level : ℕ
  pub sealed_level : ℕ

abbrev pub is_sealed : Bool → HandleScopeData → Bool
is_sealed debug d = debug && leb d.level d.sealed_level && ltb 0 d.sealed_level

pub record LocalHandles : Type 0 where
  pub blocks : List ℕ
  pub current_block : Option ℕ
  pub scope_data : HandleScopeData
  pub slots : ℕ → ℕ

-- `LocalHandles::new`
abbrev pub no_handles : LocalHandles
no_handles = record {
  blocks = [];
  current_block = none;
  scope_data = record { next = 0; limit = 0; level = 0; sealed_level = 0 };
  slots = λ _. 0;
}

-- `HandleSlot::set`
abbrev pub set_slot : LocalHandles → ℕ → ℕ → LocalHandles
set_slot h slot ptr = record h { slots = λ s. if s == slot then ptr else h.slots s }

abbrev pub set_bounds : LocalHandles → ℕ → ℕ → LocalHandles
set_bounds h next limit = record h {
  scope_data = record h.scope_data { next = next; limit = limit };
}

-- `start.add(HANDLE_BLOCK_SIZE)` of the first block.
abbrev pub first_end : List ℕ → ℕ
first_end [] = 0
first_end (first ∷ _) = first + handle_block_size

abbrev pub last_allocation_bounds : LocalHandles → ℕ × ℕ
last_allocation_bounds h = (first_end h.blocks, first_end h.blocks)

-- The new block's slots are null.
unfoldable pub add_block : ℕ → LocalHandles → (ℕ × ℕ) × LocalHandles
add_block at h = (
  (at, at + handle_block_size),
  record h {
    blocks = h.blocks ++ (at ∷ []);
    current_block = some at;
    slots = λ s. if leb at s && ltb s (at + handle_block_size) then 0 else h.slots s;
  },
)

-- `none` if the scope is sealed, which panics.
unfoldable pub allocate : Bool → ℕ → LocalHandles → Option (ℕ × LocalHandles)
unfolding add_block
allocate debug at h =
    if is_sealed debug h.scope_data
    then none
    else let ((start, end), grown) = add_block at h in
      let ready =
        if leb h.scope_data.limit h.scope_data.next || (h.scope_data.next == 0)
        then set_bounds grown start end
        else h in
      some
        (ready.scope_data.next, set_bounds ready (ready.scope_data.next + 1) ready.scope_data.limit)

-- The boxes of the slots that are not null, from `slot_ptr` on.
unfoldable pub visit_slots : (ℕ → ℕ) → ℕ → ℕ → List ℕ
visit_slots slots slot_ptr zero = []
visit_slots slots slot_ptr (suc left) =
    let rest = visit_slots slots (slot_ptr + 1) left in
    if slots slot_ptr == 0 then rest else slots slot_ptr ∷ rest

abbrev pub is_current : LocalHandles → ℕ → Bool
is_current h block = elim h.current_block [ none ↦ false | some current ↦ current == block ]

-- How many slots of a block are visited: `slots_end` is `next` in the current block, wherever
-- `next` points.
abbrev pub visited_slots : LocalHandles → ℕ → ℕ
visited_slots h block = if is_current h block then h.scope_data.next - block else handle_block_size

-- `none` if a block is read beyond its last slot.
unfoldable pub iterate_from : LocalHandles → List ℕ → Option (List ℕ)
unfolding visit_slots
iterate_from h [] = some []
iterate_from h (block ∷ rest) = iterate_from h rest >>= λ seen.
    if ltb handle_block_size (visited_slots h block)
    then none
    else some (visit_slots h.slots block (visited_slots h block) ++ seen)

-- The boxes for which the visitor is called.
unfoldable pub iterate : LocalHandles → Option (List ℕ)
unfolding iterate_from
iterate h = iterate_from h h.blocks

pub record HandleScope : Type 0 where
  pub prev_next : ℕ
  pub prev_limit : ℕ
  pub prev_level : ℕ

abbrev pub prev_bounds : LocalHandles → ℕ × ℕ
prev_bounds h =
    if h.scope_data.next == 0
    then last_allocation_bounds h
    else (h.scope_data.next, h.scope_data.limit)

-- `HandleScope::new`, `none` if the level overflows.
unfoldable pub new : LocalHandles → Option (HandleScope × LocalHandles)
new h =
    if h.scope_data.level + 1 == 2 ^ 32
    then none
    else some (
      record {
        prev_next = (prev_bounds h).0;
        prev_limit = (prev_bounds h).1;
        prev_level = h.scope_data.level;
      },
      record h { scope_data = record h.scope_data { level = h.scope_data.level + 1 } },
    )

-- `HandleScope::handle`
unfoldable pub handle : Bool → ℕ → ℕ → LocalHandles → Option (ℕ × LocalHandles)
unfolding allocate
handle debug at gc_box h =
    allocate debug at h >>= λ (slot, h'). some (slot, set_slot h' slot gc_box)

-- `HandleScope::drop`
unfoldable pub drop : HandleScope → LocalHandles → LocalHandles
drop scope h = record h {
  scope_data = record h.scope_data {
    next = scope.prev_next;
    limit = scope.prev_limit;
    level = scope.prev_level;
  };
}

pub record EscapeableHandleScope : Type 0 where
  pub inner : HandleScope
  pub escaped : Bool
  pub escape_slot : ℕ
  pub parent_level : ℕ

-- `EscapeableHandleScope::new`
unfoldable pub new_escapeable :
    Bool → ℕ → LocalHandles → Option (EscapeableHandleScope × LocalHandles)
unfolding allocate new
new_escapeable debug at h = allocate debug at h >>= λ (slot, h1). new h1 >>= λ (inner, h2). some (
  record { inner = inner; escaped = false; escape_slot = slot; parent_level = h1.scope_data.level },
  h2,
)

-- With the handle that is valid in the parent scope; `none` is a panic.
unfoldable pub escape :
    Bool
    → EscapeableHandleScope
    → ℕ
    → LocalHandles
    → Option (ℕ × EscapeableHandleScope × LocalHandles)
escape debug scope slot h =
    if scope.escaped
    then none
    else if debug && not (scope.parent_level + 1 == h.scope_data.level)
    then none
    else some (
      scope.escape_slot,
      record scope { escaped = true },
      set_slot h scope.escape_slot (h.slots slot),
    )

-- `SealedHandleScope::new`, with the `prev_sealed_level`; without debug assertions it does nothing.
unfoldable pub new_sealed : Bool → LocalHandles → ℕ × LocalHandles
new_sealed debug h =
    if debug
    then (
      h.scope_data.sealed_level,
      record h { scope_data = record h.scope_data { sealed_level = h.scope_data.level } },
    )
    else (0, h)

-- `SealedHandleScope::drop`
unfoldable pub drop_sealed : Bool → ℕ → LocalHandles → LocalHandles
drop_sealed debug prev_sealed_level h =
    if debug
    then record h { scope_data = record h.scope_data { sealed_level = prev_sealed_level } }
    else h
