-- ===== src/Barrier/Exact.antt =====
-- What the barriers do for a field of a small object, with no other thread at the heap.
use rudo.Prelude.{
  ℕ, ◌<◌, ◌≡◌, ◌∙◌, ap, refl, Bool, true, false, none, some, List, [], ◌∷◌, mem, if◌then◌else◌,
  arith,
}
use rudo.Prelude.Maps.{nat_key, lookup}
use rudo.Bitmap.Laws.{has, with_bit, fetch_or_lem, has-with_bit}
use rudo.Page.{PageHeader, set_dirty}
use rudo.Page.Marks.{IsWf, max_index}
use rudo.Buffers.{LocalHeap, add_to_dirty_pages, scan_dirty_pages, add_all}
use rudo.Buffers.Dirty
use rudo.Buffers.Dirty.{IsListed, dirty_pages_scanned}
use rudo.Barrier.{
  Heap, is_old, is_own, put_page, remember, simple_write_barrier, unified_write_barrier,
  incremental_write_barrier, gc_cell_validate_and_barrier,
}
use rudo.Barrier.Search.{IsField, box_at, find_small_lem, find_own_small_lem}

-- The header with the object's dirty bit.
abbrev pub with_dirty : PageHeader → ℕ → PageHeader
with_dirty header index = record header { dirty_bitmap = with_bit header.dirty_bitmap index }

set_dirty_lem :
    (header : PageHeader) (index : ℕ)
    → IsWf header
    → index < max_index
    → set_dirty header index ≡ some (with_dirty header index)
unfolding set_dirty
set_dirty_lem header index w h = rw (fetch_or_lem header.dirty_bitmap w.dirty index h) refl

-- The heap after the generational barrier.
abbrev pub dirtied : Heap → ℕ → ℕ → Heap
dirtied h page index = record h {
  space = put_page h.space page (with_dirty (h.space.pages page) index);
  buffers = add_to_dirty_pages h.buffers page;
}

one_added : (b : LocalHeap) (page : ℕ) → add_to_dirty_pages b page ≡ add_all b (page ∷ [])
unfolding add_all
one_added b page = refl

module _ (hash_set : List ℕ → List ℕ) (h : Heap) (page index offset ptr : ℕ)
    (f : IsField h page index offset ptr) (w : IsWf (h.space.pages page))
    (fits : index < max_index) where
  -- The barriers of a field of an allocated small object panic only in the cells' barrier, for an object
  -- of another thread. Otherwise they leave the heap as it is if the object is young; if it is old, the
  -- generational ones set its dirty bit and list its page, and with incremental marking (for the
  -- incremental one always) the page goes to the remembered buffer.
  pub barriers_exact :
      (thread : ℕ) (incremental_active : Bool)
      → let old = is_old h.space page (box_at h page index) in
        let marked = dirtied h page index in
        let both = if incremental_active then remember hash_set marked page else marked in
        (simple_write_barrier (λ s. s) h ptr ≡ some (if old then marked else h))
        × (unified_write_barrier hash_set (λ s. s) h ptr incremental_active
            ≡ some (if old then both else h))
        × (incremental_write_barrier hash_set (λ s. s) h ptr
            ≡ some (if old then remember hash_set h page else h))
        × (gc_cell_validate_and_barrier hash_set (λ s. s) thread h ptr incremental_active
            ≡ (if is_own (h.space.pages page) thread then some (if old then both else h) else none))
  unfolding simple_write_barrier unified_write_barrier incremental_write_barrier
      gc_cell_validate_and_barrier
  barriers_exact thread incremental_active =
      let small = find_small_lem h page index offset ptr f in
      let own = find_own_small_lem h thread page index offset ptr f in
      let set = set_dirty_lem (h.space.pages page) index w fits in
      let no_entry = ap (λ p. lookup p h.large_object_map) f.on_page ∙ f.small in
      (
        ground (arith, f.inside, no_entry, small, set, f.allocated),
        ground (arith, f.inside, no_entry, small, set, f.allocated),
        ground (arith, f.inside, no_entry, small, set, f.allocated),
        ground (arith, f.inside, no_entry, own, set, f.allocated),
      )

  -- A field of an old object is written while no incremental marking is active, and the flags of the pages
  -- agree with the list of dirty pages: the object has its dirty bit, and the next minor collection
  -- scans its page, whatever pages are added while it scans.
  pub old_write_scanned :
      (added : List ℕ)
      → is_old h.space page (box_at h page index) ≡ true
      → IsListed h.buffers
      → Dirty.Distinct h.buffers.dirty_pages
      → (h' : Heap) × (unified_write_barrier hash_set (λ s. s) h ptr false ≡ some h')
        × (has (h'.space.pages page).dirty_bitmap index ≡ true)
        × (pages : List ℕ) × (after : LocalHeap) × (scan_dirty_pages h'.buffers added
            ≡ (pages, after))
        × (mem page pages ≡ true)
  old_write_scanned added old l d =
      let (simple, unified, incremental, cell) = barriers_exact 0 false in
      let (pages, after, run, scanned, _, _, _) =
        dirty_pages_scanned h.buffers (page ∷ []) added l d in
      (
        dirtied h page index,
        unified ∙ ap some (ground (arith, old)),
        ground (arith, has-with_bit (h.space.pages page).dirty_bitmap w.dirty index fits index),
        pages,
        after,
        ap (λ b. scan_dirty_pages b added) (one_added h.buffers page) ∙ run,
        ground (arith, scanned page),
      )
