-- ===== src/Alloc/Tests.antt =====
-- Objects of 32 bytes in a page at 4096, which has room for 79 of them.
use rudo.Prelude.{
  ◌+◌, ◌^◌, ◌<◌, ◌≤◌, ◌≡◌, refl, true, some, none, [], ◌∷◌, mem, ltb, arith, if◌then◌else◌,
  replicate,
}
use rudo.Bitmap.Laws.{with_bit, has-with_bit, has-replicate, replicate-IsBitmap, with_bit-IsBitmap}
use rudo.Page.Tests.{fresh}
use rudo.Address.{header_size, max_objects}
use rudo.Mark.Tests.{space}
use rudo.Alloc.{new_tlab, Allocator, alloc_slow, alloc_tlab}
use rudo.Alloc.Search.{GlobalSegmentManager, find_gc_box_from_ptr}
use rudo.Alloc.Bump.{IsRoom, IsBumpOf, slot_at, slots_from, take}
use rudo.Alloc.Refill.{refill_exact}
use rudo.Alloc.Found.{IsSmallPage, found_exact}

-- Before the refill.
abbrev empty : Allocator
empty = record {
  space = space;
  pages = [];
  small_pages = [];
  pages_by_class = λ c. [];
  tlabs = λ c. new_tlab;
  min_addr = 4096;
  max_addr = 8192;
}

-- After it, with one slot given out.
abbrev refilled : Allocator
refilled = record empty {
  space = record space {
    pages = λ page. record fresh { obj_count = 79; allocated_bitmap = with_bit (replicate 64 0) 0 };
  };
  small_pages = 4096 ∷ [];
  tlabs = λ c. record { bump_ptr = 5696; bump_end = 8192; current_page = some 4096 };
}

room : IsRoom space.layout 4096 32
unfolding max_objects header_size
room = record {
  positive = omega arith;
  small = omega arith;
  page_set = omega arith;
  header_fits = omega arith;
  slots_fit = omega arith;
  page_fits = omega arith;
}

small_header : header_size space.layout 32 < 2 ^ 16
unfolding header_size
small_header = omega arith

has_slots : 3 ≤ max_objects space.layout 32
unfolding max_objects header_size
has_slots = omega arith

refill_exact_example :
    (a1 a' : Allocator) × (alloc_slow empty 1 4096 1 ≡ some (slot_at space.layout 4096 32 0, a1))
    × (take a1 1 2 ≡ some (slots_from space.layout 4096 32 1 2, a'))
    × (mem 4096 a'.small_pages ≡ true)
    × IsBumpOf a' 4096 1 3
    × (3 ≡ max_objects space.layout 32 → (a'' : Allocator) × (alloc_tlab a' 1 ≡ some (none, a'')))
refill_exact_example = refill_exact empty 1 4096 1 2 room small_header has_slots

refilled-IsBump : IsBumpOf refilled 4096 1 1
unfolding max_objects header_size
refilled-IsBump = record {
  size = refl;
  count = refl;
  is_page = refl;
  no_flags = refl;
  at = refl;
  end = refl;
  current = refl;
  bits = with_bit-IsBitmap {n = 64} (replicate 64 0) (replicate-IsBitmap 64) 0 (omega arith);
  slots = λ i. ground (
    arith,
    has-with_bit {n = 64} (replicate 64 0) (replicate-IsBitmap 64) 0 (omega arith) i,
    has-replicate 64 i,
  );
}

refilled-IsSmallPage : IsSmallPage [] refilled 4096 1
refilled-IsSmallPage = record {
  aligned = refl;
  sized = omega arith;
  on_boundary = refl;
  not_first = omega arith;
  from = omega arith;
  to = omega arith;
  not_large = refl;
  listed = refl;
}

abbrev manager : GlobalSegmentManager
manager = record { large_object_map = []; orphan_by_addr = [] }

-- An address inside the first object.
found_exact_example :
    find_gc_box_from_ptr manager [] refilled (slot_at space.layout 4096 32 0 + 8)
    ≡ some (if ltb 0 1 then some (slot_at space.layout 4096 32 0) else none)
found_exact_example =
    found_exact manager [] refilled 1 4096 1 1 0 8 refilled-IsSmallPage room refilled-IsBump
      (omega (arith, has_slots)) (omega arith)
