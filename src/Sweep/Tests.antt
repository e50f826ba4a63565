-- ===== src/Sweep/Tests.antt =====
-- A page of four slots: slot 0 is marked, slot 1 is garbage, slots 2 and 3 are free, and slot 2 is
-- the head of the free list.
use rudo.Prelude.{
  if◌then◌else◌, ◌-◌, ℕ, ◌≡◌, refl, false, not, ◌&&◌, none, some, ◌∷◌, replicate, ltb, ◌==◌, arith,
}
use rudo.Bitmap.Laws.{has, with_bit-IsBitmap, replicate-IsBitmap}
use rudo.GcBox.{GcBox, drop_fn_for, weak_count, weak_count_and_dead_flag}
use rudo.Page.{is_large_object, free_list_head, free_list_none, has_flag}
use rudo.Page.Marks.{IsWf}
use rudo.Page.Tests.{fresh}
use rudo.Sweep.{Page, Glue, lazy_sweep_page}
use rudo.Sweep.Lazy.{is_garbage, KeepsWeak}
use rudo.Sweep.Rounds.{garbage_in, lazy_sweep_exact}
use rudo.Sweep.Eager.{Drops, reclaim_page, sweep_segment_pages}
use rudo.Sweep.Slots.{Chain, count_below, slots_below}
use rudo.Sweep.FreeList.{freed, listed, reclaim_page_exact}
use rudo.Sweep.Segment.{expired, SegmentSwept, sweep_segment_keeps_marked}
use rudo.Prelude.{Bool, List, []}

abbrev dropped_box : GcBox
dropped_box = record {
  ref_count = 0;
  weak_count = 0;
  drop_fn = drop_fn_for;
  is_dropping = 0;
  generation = 6;
  dropped = 0;
}

abbrev page : Page
page = record {
  header = record fresh {
    mark_bitmap = 1 ∷ replicate 63 0;
    allocated_bitmap = 3 ∷ replicate 63 0;
    free_list_head = 2;
  };
  boxes = λ _. dropped_box;
  links = λ _. none;
}

abbrev full_page : Page
full_page = record page { header = record page.header { free_list_head = free_list_none } }

page-IsWf : IsWf page.header
page-IsWf = record {
  marks = with_bit-IsBitmap {n = 64} (replicate 64 0) (replicate-IsBitmap 64) 0 (omega arith);
  dirty = replicate-IsBitmap 64;
  allocated =
      with_bit-IsBitmap {n = 64} (1 ∷ replicate 63 0)
        (with_bit-IsBitmap {n = 64} (replicate 64 0) (replicate-IsBitmap 64) 0 (omega arith)) 1
        (omega arith);
}

full_page-IsWf : IsWf full_page.header
full_page-IsWf = record {
  marks = page-IsWf.marks;
  dirty = page-IsWf.dirty;
  allocated = page-IsWf.allocated;
}

-- A dropped value holds a pointer to the object in slot 0, and dropping it gives up that reference.
abbrev releasing : Glue
releasing i boxes j =
    if j == 0 then record (boxes j) { ref_count = (boxes j).ref_count - 1 } else boxes j

releasing-KeepsWeak : KeepsWeak releasing
unfolding weak_count
releasing-KeepsWeak i j boxes away = ground arith

-- The second page holds pointers to the object in slot 0 of the first.
abbrev drops : ℕ → Drops
drops k = record {
  earlier = λ b. b;
  own = releasing;
  later = if k == 0 then releasing 0 else λ b. b;
}

abbrev IsAlive : GcBox → Type 0
IsAlive b = (weak_count_and_dead_flag b).1 ≡ false

alive-expired : (b : GcBox) → IsAlive b → expired b ≡ false
alive-expired b h = ground (arith, h)

sweep_segment_keeps_marked_example :
    (n : ℕ) × (pushed : List (ℕ × ℕ)) × (pages' : List Page) × (sweep_segment_pages false drops
        (page ∷ full_page ∷ [])
      ≡ some (n, pushed, pages'))
    × SegmentSwept IsAlive alive-expired false drops 0 (page ∷ full_page ∷ []) pages'
sweep_segment_keeps_marked_example =
    sweep_segment_keeps_marked IsAlive alive-expired false drops (page ∷ full_page ∷ [])
      (page-IsWf, omega arith, (full_page-IsWf, omega arith, tt))

lazy_sweep_exact_example :
    (p' : Page) × (lazy_sweep_page releasing page 4 ≡ some (garbage_in page 0 4, 4 == 0, p'))
    × IsWf p'.header
    × (p'.header.free_list_head ≡ page.header.free_list_head)
    × ((j : ℕ)
        → has p'.header.allocated_bitmap j
          ≡ (not (ltb j 4 && is_garbage page j) && has page.header.allocated_bitmap j))
lazy_sweep_exact_example =
    lazy_sweep_exact releasing page 4 releasing-KeepsWeak page-IsWf (omega arith)

page_small : is_large_object page.header ≡ false
unfolding has_flag
page_small = refl

reclaim_page_exact_example :
    (p' : Page) × (has_free : Bool) × (reclaim_page page
      ≡ some (count_below (freed page) 124, has_free, p'))
    × IsWf p'.header
    × ((j : ℕ)
        → has p'.header.allocated_bitmap j
          ≡ (not (ltb j 124 && freed page j) && has page.header.allocated_bitmap j))
    × Chain p'.links (free_list_head p'.header) (slots_below (listed page) 124 [])
    × (p'.header.mark_bitmap ≡ page.header.mark_bitmap)
    × ((j : ℕ) → (ltb j 124 && freed page j) ≡ false → p'.boxes j ≡ page.boxes j)
reclaim_page_exact_example = reclaim_page_exact page page-IsWf (omega arith)
