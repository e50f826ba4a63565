-- ===== src/Alloc.antt =====
-- The allocation of small objects in crates/rudo-gc/src/heap.rs: a buffer per size class (`Tlab`) that
-- runs through a fresh page, and the refill from a new page (`alloc_slow`). The address of the new page
-- is what the global manager gives: it is an argument. A null pointer is 0, `none` a panic.
pub mod Search
pub mod Bump
pub mod Refill
pub mod Found
pub mod Tests
use rudo.Prelude.{
  ℕ, zero, suc, ◌+◌, ◌-◌, ◌*◌, ◌/◌, ◌%◌, ◌^◌, Bool, true, false, not, ◌&&◌, ◌||◌, Option, none,
  some, List, [], ◌∷◌, ◌++◌, ltb, leb, ◌==◌, if◌then◌else◌, ◌>>=◌, replicate,
}
use rudo.Page.{PageHeader, magic_gc_page, free_list_none, set_allocated}
use rudo.GcBox.{GcBox, no_op_drop}
use rudo.Address.{header_size, max_objects}
use rudo.Mark.{Space}
use rudo.Barrier.{put_page}

pub record Tlab : Type 0 where
  pub bump_ptr : ℕ
  pub bump_end : ℕ
  pub current_page : Option ℕ

abbrev pub new_tlab : Tlab
new_tlab = record { bump_ptr = 0; bump_end = 0; current_page = none }

-- What a thread allocates small objects from. `small_pages` is the set of its small pages, `tlabs` and
-- `pages_by_class` are by class index.
pub record Allocator : Type 0 where
  pub space : Space
  pub pages : List ℕ
  pub small_pages : List ℕ
  pub pages_by_class : ℕ → List ℕ
  pub tlabs : ℕ → Tlab
  pub min_addr : ℕ
  pub max_addr : ℕ

-- The slot that the buffer has come to is entered in the header of the page.
unfoldable pub mark_allocated : Space → Option ℕ → ℕ → ℕ → Option Space
unfolding header_size set_allocated
mark_allocated s none ptr block_size = some s
mark_allocated s (some page) ptr block_size =
    let start = page + header_size s.layout block_size in
    if ltb ptr start || (block_size == 0)
    then none
    else set_allocated (s.pages page) ((ptr - start) / block_size) >>= λ header.
        some (put_page s page header)

-- `Tlab::alloc`
unfoldable pub alloc : Space → Tlab → ℕ → Option (Option ℕ × Space × Tlab)
unfolding mark_allocated
alloc s t block_size =
    let ptr = t.bump_ptr in
    if not (ptr == 0) && leb ((ptr + block_size) % 2 ^ 64) t.bump_end
    then (mark_allocated s t.current_page ptr block_size >>= λ s'.
        some (some ptr, s', record t { bump_ptr = ptr + block_size }))
    else some (none, s, t)

abbrev pub class_block_size : ℕ → ℕ
class_block_size class_index =
    if class_index == 0
    then 16
    else if class_index == 1
    then 32
    else if class_index == 2
    then 64
    else if class_index == 3
    then 128
    else if class_index == 4
    then 256
    else if class_index == 5
    then 512
    else if class_index == 6
    then 1024
    else 2048

-- The header that `alloc_slow` writes, on the thread `thread`.
unfoldable pub new_header : Space → ℕ → ℕ → PageHeader
unfolding header_size max_objects
new_header s thread block_size = record {
  magic = magic_gc_page;
  block_size = block_size % 2 ^ 32;
  obj_count = max_objects s.layout block_size % 2 ^ 16;
  header_size = header_size s.layout block_size % 2 ^ 16;
  generation = 0;
  flags = 0;
  owner_thread = thread;
  dead_count = 0;
  mark_bitmap = replicate 64 0;
  dirty_bitmap = replicate 64 0;
  allocated_bitmap = replicate 64 0;
  free_list_head = free_list_none;
}

-- Each slot gets the destructor that does nothing.
abbrev pub init_slots : ℕ → ℕ → ℕ → (ℕ → GcBox) → ℕ → GcBox
init_slots start block_size zero boxes q = boxes q
init_slots start block_size (suc i) boxes q =
    let box = init_slots start block_size i boxes q in
    if q == start + i * block_size then record box { drop_fn = no_op_drop } else box

-- The buffer of the whole new page.
unfoldable pub new_page_tlab : Space → ℕ → ℕ → Tlab
unfolding header_size max_objects
new_page_tlab s page block_size =
    let start = page + header_size s.layout block_size in
    record {
      bump_ptr = start;
      bump_end = start + max_objects s.layout block_size * block_size;
      current_page = some page;
    }

-- The page is initialised and listed.
abbrev pub add_page : Allocator → ℕ → ℕ → ℕ → Allocator
add_page a thread page class_index =
    let block_size = class_block_size class_index in
    let start = page + header_size a.space.layout block_size in
    let count = max_objects a.space.layout block_size in
    let written = put_page a.space page (new_header a.space thread block_size) in
    record a {
      space = record written { boxes = init_slots start block_size count a.space.boxes };
      pages = a.pages ++ (page ∷ []);
      small_pages = page ∷ a.small_pages;
      pages_by_class =
          λ c. if c == class_index then a.pages_by_class c ++ (page ∷ []) else a.pages_by_class c;
    }

abbrev pub set_tlab : Allocator → ℕ → Space → Tlab → Allocator
set_tlab a class_index s t = record a {
  space = s;
  tlabs = λ c. if c == class_index then t else a.tlabs c;
}

-- `tlab.alloc(…).unwrap()` at the end
unfoldable pub alloc_slow : Allocator → ℕ → ℕ → ℕ → Option (ℕ × Allocator)
unfolding alloc new_header new_page_tlab header_size max_objects
alloc_slow a thread page class_index =
    let b = add_page a thread page class_index in
    let block_size = class_block_size class_index in
    alloc b.space (new_page_tlab b.space page block_size) block_size >>= λ (r, s, t). elim r [
      | none ↦ none
      | some ptr ↦ some (ptr, set_tlab b class_index s t)
    ]

-- The first attempt of `LocalHeap::alloc`.
unfoldable pub alloc_tlab : Allocator → ℕ → Option (Option ℕ × Allocator)
unfolding alloc
alloc_tlab a class_index =
    alloc a.space (a.tlabs class_index) (class_block_size class_index) >>= λ (r, s, t).
    some (r, set_tlab a class_index s t)

abbrev pub update_range : Allocator → ℕ → ℕ → Allocator
update_range a addr size = record a {
  min_addr = if ltb addr a.min_addr then addr else a.min_addr;
  max_addr = if ltb a.max_addr (addr + size) then addr + size else a.max_addr;
}
