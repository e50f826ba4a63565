-- ===== src/Barrier.antt =====
-- The write barriers of crates/rudo-gc/src/heap.rs: from the address of a field that is written to the
-- dirty bit of its object, the list of dirty pages and the remembered buffer. `between` is what other
-- threads make of the headers and boxes between the two looks at the allocated bit. `none` is a panic.
pub mod Search
pub mod Exact
pub mod Tests
use rudo.Prelude.{
  ℕ, ◌+◌, ◌-◌, ◌*◌, ◌/◌, Bool, true, false, not, ◌&&◌, ◌||◌, Option, none, some, List, ltb, leb,
  ◌==◌, if◌then◌else◌, ◌>>=◌,
}
use rudo.Prelude.Maps.{nat_key, lookup}
use rudo.Page.{PageHeader, magic_gc_page, is_allocated, set_dirty}
use rudo.GcBox.{has_gen_old_flag}
use rudo.Address.{ptr_to_page_header}
use rudo.Mark.{Space}
use rudo.Buffers.{LocalHeap, add_to_dirty_pages, record_in_remembered_buffer}

-- What a thread's heap knows of its addresses, with the headers and boxes and the buffers. An entry of
-- `large_object_map` has the address of the head page, the size and the size of the header.
pub record Heap : Type 0 where
  pub space : Space
  pub buffers : LocalHeap
  pub min_addr : ℕ
  pub max_addr : ℕ
  pub large_object_map : List (ℕ × (ℕ × ℕ × ℕ))

-- The objects that the barriers are for: the page is not young, or the object has the flag.
abbrev pub is_old : Space → ℕ → ℕ → Bool
is_old s page gc_box_addr =
    not (((s.pages page).generation == 0) && not (has_gen_old_flag (s.boxes gc_box_addr)))

-- The page and the index of the large object that an address lies in.
unfoldable pub find_large : Space → ℕ × ℕ × ℕ → ℕ → Option (Option (ℕ × ℕ))
unfolding is_allocated has_gen_old_flag
find_large s (head_addr, size, h_size) ptr =
    if ltb ptr (head_addr + h_size) || leb (head_addr + h_size + size) ptr
    then some none
    else if not ((s.pages head_addr).magic == magic_gc_page)
    then some none
    else is_allocated (s.pages head_addr) 0 >>= λ live.
        if not live
        then some none
        else if not (is_old s head_addr (head_addr + h_size))
        then some none
        else some (some (head_addr, 0))

-- Of the small object. A block size of 0 panics.
unfoldable pub find_small : Space → ℕ → Option (Option (ℕ × ℕ))
unfolding is_allocated has_gen_old_flag ptr_to_page_header
find_small s ptr =
    let page = ptr_to_page_header s.layout ptr in
    let h = s.pages page in
    let index = (ptr - (page + h.header_size)) / h.block_size in
    if not (h.magic == magic_gc_page)
    then some none
    else if ltb ptr (page + h.header_size)
    then some none
    else if h.block_size == 0
    then none
    else if leb h.obj_count index
    then some none
    else is_allocated h index >>= λ live.
        if not live
        then some none
        else if not (is_old s page (page + h.header_size + index * h.block_size))
        then some none
        else some (some (page, index))

abbrev pub find_object : Heap → ℕ → Option (Option (ℕ × ℕ))
find_object h ptr = elim (lookup (ptr_to_page_header h.space.layout ptr) h.large_object_map) [
  | none ↦ find_small h.space ptr
  | some entry ↦ find_large h.space entry ptr
]

abbrev pub out_of_range : Heap → ℕ → Bool
out_of_range h ptr = (ptr == 0) || ltb ptr h.min_addr || leb h.max_addr ptr

abbrev pub put_page : Space → ℕ → PageHeader → Space
put_page s page header = record s { pages = λ p. if p == page then header else s.pages p }

-- `set_dirty`, and the page on the list.
abbrev pub dirty : Heap → ℕ → ℕ → Option Heap
dirty h page index = set_dirty (h.space.pages page) index >>= λ header.
    some (record h {
      space = put_page h.space page header;
      buffers = add_to_dirty_pages h.buffers page;
    })

abbrev pub remember : (List ℕ → List ℕ) → Heap → ℕ → Heap
remember hash_set h page = record h {
  buffers = record_in_remembered_buffer hash_set h.buffers page;
}

-- The second look, and the step after it.
abbrev pub recheck : (Space → Space) → Heap → ℕ → ℕ → (Heap → Option Heap) → Option Heap
recheck between h page index step =
    let now : Heap = record h { space = between h.space } in
    is_allocated (now.space.pages page) index >>= λ live. if not live then some now else step now

unfoldable pub simple_write_barrier : (Space → Space) → Heap → ℕ → Option Heap
unfolding find_large find_small ptr_to_page_header is_allocated set_dirty add_to_dirty_pages
simple_write_barrier between h ptr =
    if out_of_range h ptr
    then some h
    else find_object h ptr >>= λ found. elim found [
      | none ↦ some h
      | some (page, index) ↦ recheck between h page index (λ now. dirty now page index)
    ]

unfoldable pub unified_write_barrier :
    (List ℕ → List ℕ) → (Space → Space) → Heap → ℕ → Bool → Option Heap
unfolding find_large find_small ptr_to_page_header is_allocated set_dirty add_to_dirty_pages
    record_in_remembered_buffer
unified_write_barrier hash_set between h ptr incremental_active =
    if out_of_range h ptr
    then some h
    else find_object h ptr >>= λ found. elim found [
      | none ↦ some h
      | some (page, index) ↦ recheck between h page index (λ now. dirty now page index >>= λ after.
          some (if incremental_active then remember hash_set after page else after))
    ]

unfoldable pub incremental_write_barrier :
    (List ℕ → List ℕ) → (Space → Space) → Heap → ℕ → Option Heap
unfolding find_large find_small ptr_to_page_header is_allocated record_in_remembered_buffer
incremental_write_barrier hash_set between h ptr =
    if out_of_range h ptr
    then some h
    else find_object h ptr >>= λ found. elim found [
      | none ↦ some h
      | some (page, index) ↦ recheck between h page index (λ now. some (remember hash_set now page))
    ]

abbrev pub is_own : PageHeader → ℕ → Bool
is_own header thread = (header.owner_thread == 0) || (header.owner_thread == thread)

-- The searches of the cells' barrier, on the thread `thread`: an object of another thread panics, if
-- it is large only after it has been found to be old.
unfoldable pub find_own_large : Space → ℕ → ℕ × ℕ × ℕ → ℕ → Option (Option (ℕ × ℕ))
unfolding find_large
find_own_large s thread entry ptr = find_large s entry ptr >>= λ found. elim found [
  | none ↦ some none
  | some (page, index) ↦ if is_own (s.pages page) thread then some (some (page, index)) else none
]

unfoldable pub find_own_small : Space → ℕ → ℕ → Option (Option (ℕ × ℕ))
unfolding is_allocated has_gen_old_flag ptr_to_page_header
find_own_small s thread ptr =
    let page = ptr_to_page_header s.layout ptr in
    let h = s.pages page in
    let index = (ptr - (page + h.header_size)) / h.block_size in
    if not (h.magic == magic_gc_page)
    then some none
    else if ltb ptr (page + h.header_size)
    then some none
    else if h.block_size == 0
    then none
    else if leb h.obj_count index
    then some none
    else is_allocated h index >>= λ live.
        if not live
        then some none
        else if not (is_own h thread)
        then none
        else if not (is_old s page (page + h.header_size + index * h.block_size))
        then some none
        else some (some (page, index))

unfoldable pub gc_cell_validate_and_barrier :
    (List ℕ → List ℕ) → (Space → Space) → ℕ → Heap → ℕ → Bool → Option Heap
unfolding find_own_large find_own_small ptr_to_page_header is_allocated set_dirty add_to_dirty_pages
    record_in_remembered_buffer
gc_cell_validate_and_barrier hash_set between thread h ptr incremental_active =
    if out_of_range h ptr
    then some h
    else (elim (lookup (ptr_to_page_header h.space.layout ptr) h.large_object_map) [
      | none ↦ find_own_small h.space thread ptr
      | some entry ↦ find_own_large h.space thread entry ptr
    ])
      >>= λ found. elim found [
        | none ↦ some h
        | some (page, index) ↦ recheck between h page index (λ now.
            dirty now page index >>= λ after.
            some (if incremental_active then remember hash_set after page else after))
      ]
