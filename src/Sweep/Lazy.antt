-- ===== src/Sweep/Lazy.antt =====
-- What a lazy sweep does to a page's free list.
use rudo.Prelude.{
  ℕ, ◌<◌, ◌≡◌, sym, subst, Bool, true, false, not, ◌&&◌, some, ◌==◌, if◌then◌else◌, arith,
}
use rudo.Bitmap.Laws.{has, without_bit, test-has, fetch_and_not_lem}
use rudo.Bitmap.Laws.{has-without_bit, without_bit-IsBitmap}
use rudo.Page.{PageHeader, clear_mark, clear_allocated, is_allocated, is_marked, decode_head}
use rudo.Page.Marks.{IsWf, max_index}
use rudo.Page.Flags.{encode-decode}
use rudo.GcBox.{GcBox, call_drop_fn, weak_count, set_dead, clear_gen_old, weak_count_and_dead_flag}
use rudo.Sweep.{
  Page, Glue, drop_slot, dropped_boxes, drop_value, push_free_lazy, lazy_sweep_slot, put_header,
  put_link, put_box,
}

-- The free-list link that the slot is left with.
abbrev relinked : Page → ℕ → Page
relinked p i = put_link p i (decode_head p.header.free_list_head)

module _ (p : Page) (w : IsWf p.header) (i : ℕ) (in_page : i < max_index) where
  -- Exchanging slot `i` in and, as it still reads as allocated, out again leaves the header.
  push_free_lazy_lem :
      has p.header.allocated_bitmap i ≡ true → push_free_lazy p i ≡ some (true, true, relinked p i)
  unfolding push_free_lazy
  push_free_lazy_lem a = ground (
    arith,
    test-has p.header.allocated_bitmap w.allocated i in_page,
    encode-decode p.header.free_list_head,
  )

pub if-IsWf : (b : Bool) (x y : PageHeader) → IsWf x → IsWf y → IsWf (if b then x else y)
if-IsWf true x y u v = u
if-IsWf false x y u v = v

-- Slot `j` is allocated, unmarked and without weak references.
abbrev pub is_garbage : Page → ℕ → Bool
is_garbage p j =
    has p.header.allocated_bitmap j
    && not (has p.header.mark_bitmap j)
    && (weak_count (p.boxes j) == 0)

-- Dropping a value changes no other box's number of weak references: it holds no weak pointer to an
-- object of the page, and its destructor makes none.
abbrev pub KeepsWeak : Glue → Type 0
KeepsWeak glue =
    (i j : ℕ) (boxes : ℕ → GcBox)
    → (i == j) ≡ false
    → weak_count (glue i boxes j) ≡ weak_count (boxes j)

module _ (glue : Glue) (p : Page) (w : IsWf p.header) (i : ℕ) (in_page : i < max_index) where
  abbrev garbage : Bool
  garbage = has p.header.allocated_bitmap i && not (has p.header.mark_bitmap i)

  abbrev unreferenced : Bool
  unreferenced = weak_count (p.boxes i) == 0

  abbrev buried : Page
  buried =
      let q = drop_slot glue p i in relinked (put_box q i (clear_gen_old (set_dead (q.boxes i)))) i

  abbrev swept : Page
  swept =
      if garbage
      then (if unreferenced
          then put_header buried
              (record p.header { allocated_bitmap = without_bit p.header.allocated_bitmap i })
          else drop_value glue p i)
      else put_header p (record p.header { mark_bitmap = without_bit p.header.mark_bitmap i })

  slot_tests :
      (is_allocated p.header i ≡ some (has p.header.allocated_bitmap i))
      × (is_marked p.header i ≡ some (has p.header.mark_bitmap i))
      × (clear_mark p.header i
          ≡ some (record p.header { mark_bitmap = without_bit p.header.mark_bitmap i }))
      × (clear_allocated p.header i
          ≡ some (record p.header { allocated_bitmap = without_bit p.header.allocated_bitmap i }))
  unfolding is_allocated is_marked clear_mark clear_allocated
  slot_tests = (
    test-has p.header.allocated_bitmap w.allocated i in_page,
    test-has p.header.mark_bitmap w.marks i in_page,
    ground (arith, fetch_and_not_lem p.header.mark_bitmap w.marks i in_page),
    ground (arith, fetch_and_not_lem p.header.allocated_bitmap w.allocated i in_page),
  )

  swept_lem : lazy_sweep_slot glue p i ≡ some (garbage && unreferenced, false, swept)
  unfolding lazy_sweep_slot weak_count weak_count_and_dead_flag
  swept_lem =
      let q = drop_slot glue p i in
      ground (
        arith,
        slot_tests,
        push_free_lazy_lem (put_box q i (clear_gen_old (set_dead (q.boxes i)))) w i in_page,
      )

  swept_header : swept.header ≡ (
      if garbage
      then (if unreferenced
          then record p.header { allocated_bitmap = without_bit p.header.allocated_bitmap i }
          else p.header)
      else record p.header { mark_bitmap = without_bit p.header.mark_bitmap i })
  swept_header = ground arith

  swept-IsWf : IsWf swept.header
  swept-IsWf = subst IsWf (sym swept_header) (
      if-IsWf garbage _ _
        (if-IsWf unreferenced _ _
          (record {
            marks = w.marks;
            dirty = w.dirty;
            allocated = without_bit-IsBitmap p.header.allocated_bitmap w.allocated i in_page;
          })
          w)
        (record {
          marks = without_bit-IsBitmap p.header.mark_bitmap w.marks i in_page;
          dirty = w.dirty;
          allocated = w.allocated;
        }))

  head_kept : swept.header.free_list_head ≡ p.header.free_list_head
  head_kept = ground arith

  allocated_after :
      (j : ℕ)
      → has swept.header.allocated_bitmap j
        ≡ (not ((i == j) && is_garbage p i) && has p.header.allocated_bitmap j)
  allocated_after j =
      ground (arith, has-without_bit p.header.allocated_bitmap w.allocated i in_page j)

  marks_after :
      (j : ℕ)
      → has swept.header.mark_bitmap j
        ≡ (not (not garbage && (i == j)) && has p.header.mark_bitmap j)
  marks_after j = ground (arith, has-without_bit p.header.mark_bitmap w.marks i in_page j)

  dropped_weak :
      KeepsWeak glue
      → (j : ℕ) → (i == j) ≡ false
      → weak_count (dropped_boxes glue p i j) ≡ weak_count (p.boxes j)
  unfolding dropped_boxes
  dropped_weak keeps j e =
      ground (arith, e, keeps i j (put_box p i (call_drop_fn (p.boxes i))).boxes e)

  others_kept : KeepsWeak glue → (j : ℕ) → (i == j) ≡ false → is_garbage swept j ≡ is_garbage p j
  others_kept keeps j e =
      ground (arith, allocated_after j, marks_after j, dropped_weak keeps j e, e)

  pub round_lem :
      KeepsWeak glue
      → (p' : Page) × (lazy_sweep_slot glue p i ≡ some (is_garbage p i, false, p'))
        × IsWf p'.header
        × (p'.header.free_list_head ≡ p.header.free_list_head)
        × ((j : ℕ)
            → has p'.header.allocated_bitmap j
              ≡ (not ((i == j) && is_garbage p i) && has p.header.allocated_bitmap j))
        × ((j : ℕ) → (i == j) ≡ false → is_garbage p' j ≡ is_garbage p j)
  round_lem keeps =
      (swept, ground (arith, swept_lem), swept-IsWf, head_kept, allocated_after, others_kept keeps)
