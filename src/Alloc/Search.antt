-- ===== src/Alloc/Search.antt =====
-- From an address that may point into an object to the object, which is the core of conservative
-- scanning in crates/rudo-gc/src/heap.rs: `find_gc_box_from_ptr` and, for pages whose thread has gone,
-- `find_gc_box_from_orphan`.
use rudo.Prelude.{
  ℕ, ◌+◌, ◌-◌, ◌*◌, ◌/◌, ◌%◌, Bool, not, ◌&&◌, ◌||◌, Option, none, some, List, mem, ltb, leb, ◌==◌,
  if◌then◌else◌, ◌>>=◌,
}
use rudo.Prelude.Maps.{nat_key, lookup}
use rudo.Page.{magic_gc_page, is_allocated, is_large_object}
use rudo.Address.{header_size, ptr_to_page_header}
use rudo.Mark.{Space}
use rudo.Alloc.{Allocator}

-- An orphan's size and owner are not looked at.
pub record OrphanPage : Type 0 where
  pub addr : ℕ
  pub is_large : Bool

-- Both maps are by page address. The entries of `large_object_map` are the address of the head page,
-- the size and the size of the header.
pub record GlobalSegmentManager : Type 0 where
  pub large_object_map : List (ℕ × (ℕ × ℕ × ℕ))
  pub orphan_by_addr : List (ℕ × OrphanPage)

-- The object that starts at or before `addr` in the small page `page`.
unfoldable pub find_in_orphan : Space → ℕ → ℕ → Option (Option ℕ)
unfolding header_size is_allocated
find_in_orphan s page addr =
    let header = s.pages page in
    let start = page + header_size s.layout header.block_size in
    let index = (addr - start) / header.block_size in
    if not (header.magic == magic_gc_page)
    then some none
    else if ltb addr start
    then some none
    else if header.block_size == 0
    then none
    else if leb header.obj_count index
    then some none
    else is_allocated header index >>= λ live.
        some (if live then some (start + index * header.block_size) else none)

unfoldable pub find_gc_box_from_orphan : GlobalSegmentManager → Space → ℕ → Option (Option ℕ)
unfolding ptr_to_page_header find_in_orphan
find_gc_box_from_orphan m s addr =
    if ltb addr 4096
    then some none
    else let page = ptr_to_page_header s.layout addr in
      elim (lookup page m.large_object_map) [
        | some (head_addr, size, h_size) ↦ some (
            if ltb addr (head_addr + h_size)
            then none
            else if leb size (addr - (head_addr + h_size))
            then none
            else some (head_addr + h_size))
        | none ↦ elim (lookup page m.orphan_by_addr) [
          | none ↦ some none
          | some orphan ↦ if orphan.is_large then some none else find_in_orphan s orphan.addr addr
        ]
      ]

-- The last checks, with the header at `page`, the size of its blocks and of its header, and the offset
-- of the address among the blocks.
unfoldable pub find_at : Space → ℕ → ℕ → ℕ → ℕ → Option (Option ℕ)
unfolding is_allocated
find_at s page block_size h_size offset =
    let header = s.pages page in
    let index = offset / block_size in
    let found = some (some (page + h_size + index * block_size)) in
    if block_size == 0
    then none
    else if leb header.obj_count index
    then some none
    else if is_large_object header
    then (if leb block_size offset then some none else found)
    else is_allocated header index >>= λ live. if live then found else some none

unfoldable pub find_gc_box_from_ptr :
    GlobalSegmentManager → List (ℕ × (ℕ × ℕ × ℕ)) → Allocator → ℕ → Option (Option ℕ)
unfolding header_size ptr_to_page_header find_gc_box_from_orphan find_at
find_gc_box_from_ptr m large_object_map a addr =
    let s = a.space in
    let page = ptr_to_page_header s.layout addr in
    let header = s.pages page in
    let h_size = header_size s.layout header.block_size in
    if not (leb a.min_addr addr && ltb addr a.max_addr)
    then find_gc_box_from_orphan m s addr
    else if ltb addr 4096
    then some none
    else elim (lookup page large_object_map) [
      | some (head_addr, size, head_size) ↦
          if ltb addr (head_addr + head_size)
          then some none
          else find_at s head_addr size head_size (addr - (head_addr + head_size))
      | none ↦
          if not (mem page a.small_pages)
          then find_gc_box_from_orphan m s addr
          else if not (page % 4096 == 0) || ltb page 4096
          then some none
          else if not (header.magic == magic_gc_page)
          then some none
          else if ltb addr (page + h_size)
          then some none
          else find_at s page header.block_size h_size (addr - (page + h_size))
    ]
