-- ===== src/Alloc/Found.antt =====
-- Which objects of a page that a buffer runs through the conservative scan finds.
use rudo.Prelude.{
  ℕ, ◌+◌, ◌-◌, ◌*◌, ◌/◌, ◌%◌, ◌<◌, ◌≤◌, ◌≡◌, ◌∙◌, ap, refl, true, false, none, some, List, mem, ltb,
  if◌then◌else◌, arith,
}
use rudo.Prelude.Maps.{nat_key, lookup}
use rudo.Bitmap.Laws.{test-has}
use rudo.Page.{PageHeader, magic_gc_page, is_allocated, is_large_object}
use rudo.Address.{Layout, header_size, max_objects, ptr_to_page_header}
use rudo.Barrier.Search.{field_index}
use rudo.Alloc.{Allocator, class_block_size}
use rudo.Alloc.Search.{GlobalSegmentManager, find_gc_box_from_ptr, find_at}
use rudo.Alloc.Bump.{IsRoom, slot_at, IsBumpOf, next_slot, slots_end}
use native.Mathlib.Nat.{mul-add-div_right, div-eq_of_lt}

-- A page of the thread's range that is in its set of small pages.
pub record IsSmallPage (large_object_map : List (ℕ × (ℕ × ℕ × ℕ))) (a : Allocator) (page number : ℕ)
    : Type 0 where
  pub aligned : page ≡ number * a.space.layout.page_size
  pub sized : 0 < a.space.layout.page_size
  pub on_boundary : page % 4096 ≡ 0
  pub not_first : 4096 ≤ page
  pub from : a.min_addr ≤ page
  pub to : page + a.space.layout.page_size ≤ a.max_addr
  pub not_large : lookup page large_object_map ≡ none
  pub listed : mem page a.small_pages ≡ true

page_of :
    (l : Layout) (page number x : ℕ)
    → page ≡ number * l.page_size
    → x < l.page_size
    → ptr_to_page_header l (page + x) ≡ page
unfolding ptr_to_page_header
page_of l page number x e h =
    ap (λ q. q * l.page_size)
      (ap (λ p. (p + x) / l.page_size) e
        ∙ mul-add-div_right (omega arith) number x
        ∙ ap (λ t. number + t) (div-eq_of_lt h))
    ∙ omega (arith, e)

find_on_page :
    (m : GlobalSegmentManager) (large_object_map : List (ℕ × (ℕ × ℕ × ℕ))) (a : Allocator)
    (page number block_size addr : ℕ)
    → IsSmallPage large_object_map a page number
    → (a.space.pages page).magic ≡ magic_gc_page
    → (a.space.pages page).block_size ≡ block_size
    → ptr_to_page_header a.space.layout addr ≡ page
    → page + header_size a.space.layout block_size ≤ addr
    → addr < page + a.space.layout.page_size
    → find_gc_box_from_ptr m large_object_map a addr
      ≡ find_at a.space page block_size
          (header_size a.space.layout block_size)
          (addr - (page + header_size a.space.layout block_size))
unfolding find_gc_box_from_ptr
find_on_page m lm a page number bs addr p is_page size at low high = ground (
  arith, at, size, p.not_large, p.listed, p.on_boundary, p.not_first, p.from, p.to, is_page, low,
  high,
)

not_large_flag : (h : PageHeader) → h.flags ≡ 0 → is_large_object h ≡ false
unfolding rudo.Page.has_flag
not_large_flag h e = rw e refl

-- The first `k` slots of a small page of the thread have been handed out. An address into one of its
-- slots, at the start or inside, is taken for the object of the slot if that is among the first `k`,
-- and for none otherwise.
pub found_exact :
    (m : GlobalSegmentManager) (large_object_map : List (ℕ × (ℕ × ℕ × ℕ))) (a : Allocator)
    (class_index page number k index offset : ℕ)
    → IsSmallPage large_object_map a page number
    → IsRoom a.space.layout page (class_block_size class_index)
    → IsBumpOf a page class_index k
    → index < max_objects a.space.layout (class_block_size class_index)
    → offset < class_block_size class_index
    → let start = slot_at a.space.layout page (class_block_size class_index) index in
      find_gc_box_from_ptr m large_object_map a (start + offset)
      ≡ some (if ltb index k then some start else none)
unfolding find_at is_allocated
found_exact m lm a c page number k index offset p r b h inside =
    let l = a.space.layout in
    let bs = class_block_size c in
    let start = slot_at l page bs index in
    let fits = next_slot index (max_objects l bs) bs h in
    let end = slots_end l page bs r in
    let below : header_size l bs + index * bs + offset < l.page_size = omega arith in
    let at : ptr_to_page_header l (start + offset) ≡ page =
      ap (λ q. ptr_to_page_header l q) (omega arith)
      ∙ page_of l page number (header_size l bs + index * bs + offset) p.aligned below in
    let number_of : (start + offset - (page + header_size l bs)) / bs ≡ index =
      ap (λ t. t / bs) (omega arith) ∙ field_index index bs offset inside in
    let live =
      test-has (a.space.pages page).allocated_bitmap b.bits index (omega (arith, r.slots_fit)) in
    let found : find_at a.space page bs (header_size l bs)
          (start + offset - (page + header_size l bs))
        ≡ some (if ltb index k then some start else none) =
      rw number_of (
        ground (
          arith,
          b.count,
          not_large_flag (a.space.pages page) b.no_flags,
          live,
          b.slots index,
          inside,
          h,
        )) in
    find_on_page m lm a page number bs (start + offset) p b.is_page b.size at (omega arith)
      (omega arith)
    ∙ found
