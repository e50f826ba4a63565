-- ===== src/Barrier/Tests.antt =====
-- A field 8 bytes into the first object of Mark/Tests, in a page that has been promoted and belongs to
-- thread 1.
use rudo.Prelude.{ℕ, ◌≡◌, refl, true, false, some, none, List, [], ◌∷◌, mem, if◌then◌else◌, arith}
use rudo.Bitmap.Laws.{has}
use rudo.Page.{is_allocated}
use rudo.Address.{ptr_to_page_header}
use rudo.Mark.{Space}
use rudo.Mark.Step.{IsWfSpace}
use rudo.Mark.Tests.{space, space-IsWfSpace}
use rudo.Buffers.{LocalHeap, scan_dirty_pages}
use rudo.Buffers.Tests.{buffers, buffers-IsListed}
use rudo.Barrier.{
  Heap, is_old, is_own, remember, simple_write_barrier, unified_write_barrier,
  incremental_write_barrier, gc_cell_validate_and_barrier,
}
use rudo.Barrier.Search.{IsField, box_at}
use rudo.Barrier.Exact.{dirtied, barriers_exact, old_write_scanned}

abbrev pub promoted : Space
promoted = record space { pages = λ p. record (space.pages p) { generation = 1 } }

abbrev pub heap : Heap
heap = record {
  space = promoted;
  buffers = buffers;
  min_addr = 4096;
  max_addr = 8192;
  large_object_map = [];
}

abbrev pub field : ℕ
field = 5672

pub field-IsField : IsField heap 4096 0 8 field
unfolding ptr_to_page_header is_allocated rudo.Bitmap.test
field-IsField = record {
  inside = refl;
  small = refl;
  on_page = refl;
  is_page = refl;
  place = refl;
  in_object = omega arith;
  counted = omega arith;
  allocated = refl;
}

pub promoted-IsWfSpace : IsWfSpace promoted
promoted-IsWfSpace = record {
  wf = λ page. record {
    marks = (space-IsWfSpace.wf page).marks;
    dirty = (space-IsWfSpace.wf page).dirty;
    allocated = (space-IsWfSpace.wf page).allocated;
  };
  fits = space-IsWfSpace.fits;
}

barriers_exact_example :
    let old = is_old promoted 4096 (box_at heap 4096 0) in
    let marked = dirtied heap 4096 0 in
    let both = if true then remember (λ b. b) marked 4096 else marked in
    (simple_write_barrier (λ s. s) heap field ≡ some (if old then marked else heap))
    × (unified_write_barrier (λ b. b) (λ s. s) heap field true ≡ some (if old then both else heap))
    × (incremental_write_barrier (λ b. b) (λ s. s) heap field
        ≡ some (if old then remember (λ b. b) heap 4096 else heap))
    × (gc_cell_validate_and_barrier (λ b. b) (λ s. s) 1 heap field true
        ≡ (if is_own (promoted.pages 4096) 1 then some (if old then both else heap) else none))
barriers_exact_example =
    barriers_exact (λ b. b) heap 4096 0 8 field field-IsField (promoted-IsWfSpace.wf 4096)
      (omega arith) 1 true

old_write_scanned_example :
    (h' : Heap) × (unified_write_barrier (λ b. b) (λ s. s) heap field false ≡ some h')
    × (has (h'.space.pages 4096).dirty_bitmap 0 ≡ true)
    × (pages : List ℕ) × (after : LocalHeap) × (scan_dirty_pages h'.buffers (12288 ∷ [])
        ≡ (pages, after))
    × (mem 4096 pages ≡ true)
old_write_scanned_example =
    old_write_scanned (λ b. b) heap 4096 0 8 field field-IsField (promoted-IsWfSpace.wf 4096)
      (omega arith) (12288 ∷ []) refl buffers-IsListed (refl, tt)
