-- ===== src/Sweep/Pop.antt =====
-- Popping the head of a page's free list.
use rudo.Prelude.{
  ℕ, ◌+◌, ◌%◌, ◌^◌, ◌<◌, ◌≡◌, refl, sym, subst, Bool, true, false, not, ◌&&◌, ◌||◌, none, some,
  ◌==◌, if◌then◌else◌, arith, Bool-cases, inl, inr,
}
use rudo.Bitmap.Laws.{
  has, IsBitmap, test-has, with_bit, without_bit, has-with_bit, has-without_bit, fetch_or_lem,
  fetch_and_not_lem,
}
use rudo.Bitmap.Laws.{with_bit-IsBitmap, without_bit-IsBitmap}
use rudo.Page.{
  PageHeader, is_allocated, set_allocated, clear_dirty, is_large_object, encode_head, all_dead,
  free_list_head, compare_exchange_free_list, clear_all_dead, set_dead_count, has_flag, clear_flag,
  bitmap_size,
}
use rudo.Page.Marks.{IsWf, max_index}
use rudo.Page.Flags.{IsSlot, decode-encode, flags_independent}
use rudo.Sweep.{Page, try_pop_from_page, reset_box, put_box, put_header}

module _ (p : Page) (w : IsWf p.header) (i : ℕ) (in_page : i < max_index) where
  -- The header that a pop leaves, before the page's flag is looked at.
  abbrev taken_header : PageHeader
  taken_header = record p.header {
    free_list_head = encode_head (p.links i);
    allocated_bitmap = with_bit p.header.allocated_bitmap i;
    dirty_bitmap = without_bit p.header.dirty_bitmap i;
  }

  abbrev popped : Page
  popped =
      put_header (put_box p i (reset_box (p.boxes i)))
        (if all_dead p.header then set_dead_count (clear_all_dead taken_header) 0 else taken_header)

  abbrev exhausted : Bool
  exhausted = elim (p.links i) [ none ↦ true | some _ ↦ false ]

  pop_lem :
      is_large_object p.header ≡ false
      → p.header.free_list_head ≡ i
      → has p.header.allocated_bitmap i ≡ false
      → try_pop_from_page p p.header.block_size ≡ some (some (i, exhausted), popped)
  unfolding try_pop_from_page is_allocated set_allocated clear_dirty free_list_head
      compare_exchange_free_list has_flag
  pop_lem small head free = ground (
    arith,
    test-has p.header.allocated_bitmap w.allocated i in_page,
    fetch_or_lem p.header.allocated_bitmap w.allocated i in_page,
    fetch_and_not_lem p.header.dirty_bitmap w.dirty i in_page,
  )

  bitmaps_after :
      (popped.header.mark_bitmap ≡ p.header.mark_bitmap)
      × (popped.header.dirty_bitmap ≡ without_bit p.header.dirty_bitmap i)
      × (popped.header.allocated_bitmap ≡ with_bit p.header.allocated_bitmap i)
      × (popped.header.free_list_head ≡ encode_head (p.links i))
  unfolding set_dead_count clear_flag
  bitmaps_after = (ground arith, ground arith, ground arith, ground arith)

  popped-IsWf : IsWf popped.header
  popped-IsWf = record {
    marks = subst (IsBitmap bitmap_size) (sym bitmaps_after.0) w.marks;
    dirty =
        subst (IsBitmap bitmap_size) (sym bitmaps_after.1)
          (without_bit-IsBitmap p.header.dirty_bitmap w.dirty i in_page);
    allocated =
        subst (IsBitmap bitmap_size) (sym bitmaps_after.2)
          (with_bit-IsBitmap p.header.allocated_bitmap w.allocated i in_page);
  }

  taken_flags : all_dead taken_header ≡ all_dead p.header
  unfolding has_flag
  taken_flags = refl

  set_dead_count_flags : (h : PageHeader) → all_dead (set_dead_count h 0) ≡ all_dead h
  unfolding has_flag set_dead_count
  set_dead_count_flags h = refl

  not_all_dead : p.header.flags < 256 → all_dead popped.header ≡ false
  not_all_dead fits = elim (Bool-cases (all_dead p.header)) [
    | inl e ↦ ground (
      arith,
      (flags_independent taken_header fits 3 (omega arith)).1 3 (omega arith),
      set_dead_count_flags (clear_all_dead taken_header),
    )
    | inr e ↦ ground (arith, taken_flags)
  ]

  -- The head of the free list is popped if it is a free slot: the caller gets it and whether it was
  -- the last, its link is the new head, it is allocated and not dirty, and no other slot's bits have
  -- changed. The page is not all dead any more, and the slot's generation has moved on.
  try_pop_exact :
      is_large_object p.header ≡ false
      → p.header.flags < 256
      → p.header.free_list_head ≡ i
      → has p.header.allocated_bitmap i ≡ false
      → IsSlot (p.links i)
      → (p' : Page) × (try_pop_from_page p p.header.block_size ≡ some (some (i, exhausted), p'))
        × IsWf p'.header
        × (free_list_head p'.header ≡ p.links i)
        × ((j : ℕ)
            → has p'.header.allocated_bitmap j ≡ ((i == j) || has p.header.allocated_bitmap j))
        × ((j : ℕ) → has p'.header.dirty_bitmap j ≡ (not (i == j) && has p.header.dirty_bitmap j))
        × (p'.header.mark_bitmap ≡ p.header.mark_bitmap)
        × (all_dead p'.header ≡ false)
        × ((p'.boxes i).generation ≡ ((p.boxes i).generation + 1) % 2 ^ 32)
  unfolding free_list_head reset_box
  try_pop_exact small fits head free link = (
    popped,
    pop_lem small head free,
    popped-IsWf,
    ground (arith, bitmaps_after, decode-encode (p.links i) link),
    (λ j.
        ground
          (arith, bitmaps_after, has-with_bit p.header.allocated_bitmap w.allocated i in_page j)),
    (λ j. ground (arith, bitmaps_after, has-without_bit p.header.dirty_bitmap w.dirty i in_page j)),
    bitmaps_after.0,
    not_all_dead fits,
    ground arith,
  )
