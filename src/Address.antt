-- ===== src/Address.antt =====
-- Where objects stand: size classes, the size of a page's header, and the way from an address to its
-- page and slot, of crates/rudo-gc/src/heap.rs. A page starts at a multiple of the page size, a power
-- of two that the system gives; the size of the header's fields is the compiler's. Both are fields of
-- `Layout`.
pub mod Classes
pub mod Tests
use rudo.Prelude.{
  ℕ, zero, suc, ◌+◌, ◌-◌, ◌*◌, ◌/◌, ◌%◌, Bool, true, false, not, ◌&&◌, Option, none, some, ltb, leb,
  ◌==◌, if◌then◌else◌, bit_and,
}
use rudo.Page.{PageHeader, magic_gc_page}

pub record Layout : Type 0 where
  pub page_size : ℕ
  pub header_base : ℕ

abbrev pub max_small_object_size : ℕ
max_small_object_size = 2048

unfoldable pub compute_size_class : ℕ → ℕ
compute_size_class size =
    if leb size 16
    then 16
    else if leb size 32
    then 32
    else if leb size 64
    then 64
    else if leb size 128
    then 128
    else if leb size 256
    then 256
    else if leb size 512
    then 512
    else if leb size 1024
    then 1024
    else 2048

unfoldable pub compute_class_index : ℕ → ℕ
compute_class_index size =
    if leb size 16
    then 0
    else if leb size 32
    then 1
    else if leb size 64
    then 2
    else if leb size 128
    then 3
    else if leb size 256
    then 4
    else if leb size 512
    then 5
    else if leb size 1024
    then 6
    else 7

-- The zeros at the end of a number's binary digits: at most `width`, the answer for 0.
pub trailing_zeros : ℕ → ℕ → ℕ
trailing_zeros zero n = 0
trailing_zeros (suc width) n =
    let rest = trailing_zeros width (n / 2) in if n % 2 == 0 then rest + 1 else 0

unfoldable pub block_size_to_class_index : ℕ → ℕ
unfolding trailing_zeros
block_size_to_class_index block_size = trailing_zeros 64 block_size - 4

abbrev pub is_power_of_two : ℕ → Bool
is_power_of_two n = not (n == 0) && (bit_and n (n - 1) == 0)

-- `(base + a - 1) & !(a - 1)` for a power of two `a` is rounding up to a multiple.
abbrev pub align_up : ℕ → ℕ → ℕ
align_up base a = (base + a - 1) / a * a

unfoldable pub header_size : Layout → ℕ → ℕ
header_size l block_size =
    if ltb 0 block_size && is_power_of_two block_size && leb block_size max_small_object_size
    then align_up l.header_base block_size
    else align_up l.header_base 16

unfoldable pub max_objects : Layout → ℕ → ℕ
unfolding header_size
max_objects l block_size = (l.page_size - header_size l block_size) / block_size

-- `ptr & page_mask()`, the address of the page's header.
unfoldable pub ptr_to_page_header : Layout → ℕ → ℕ
ptr_to_page_header l ptr = ptr / l.page_size * l.page_size

-- `header` is the header that `ptr_to_page_header` finds.
unfoldable pub ptr_to_object_index : Layout → PageHeader → ℕ → Option ℕ
unfolding ptr_to_page_header
ptr_to_object_index l header ptr =
    let page_addr = ptr_to_page_header l ptr in
    let start = page_addr + header_size l header.block_size in
    let index = (ptr - start) / header.block_size in
    if not (header.magic == magic_gc_page)
    then none
    else if ltb ptr start
    then none
    else if leb header.obj_count index
    then none
    else some index
