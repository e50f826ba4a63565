-- ===== src/Sweep/FreeList.antt =====
-- The free list that an eager sweep builds.
use rudo.Prelude.{
  mem, ℕ, zero, suc, ◌+◌, ◌≤◌, ◌<◌, ◌≡◌, refl, sym, subst, ◌∙◌, Bool, true, false, not, ◌&&◌, ◌||◌,
  Option, none, some, List, [], ◌∷◌, ltb, ◌==◌, if◌then◌else◌, arith,
}
use rudo.Bitmap.Laws.{
  has, without_bit, test-has, fetch_and_not_lem, has-without_bit, without_bit-IsBitmap,
}
use rudo.Page.{free_list_head, set_free_list_head}
use rudo.Page.Marks.{IsWf, max_index}
use rudo.GcBox.{
  weak_count_and_dead_flag, clear_gen_old, clear_under_construction, clear_is_dropping,
}
use rudo.Sweep.{Page, put_box, put_link, put_header}
use rudo.Page.Flags.{IsSlot, decode-encode}
use rudo.Sweep.Lazy.{if-IsWf}
use rudo.Sweep.Slots.{
  Chain, AllFrom, slots_below, slots_below_congr, count_below, count_below_congr, Chain-push,
  above_after, mem-slots_below, head-IsSlot,
}
use rudo.Sweep.Eager.{is_head, reclaim_slot, reclaim_below, reclaim_page}

-- Slot `i` is reclaimed, is put on the new free list.
abbrev pub freed : Page → ℕ → Bool
freed p i =
    has p.header.allocated_bitmap i
    && not (has p.header.mark_bitmap i)
    && ((weak_count_and_dead_flag (p.boxes i)).0 == 0)
    && (weak_count_and_dead_flag (p.boxes i)).1

abbrev pub listed : Page → ℕ → Bool
listed p i = freed p i || (not (has p.header.allocated_bitmap i) && not (is_head p.header i))

module _ (p : Page) (w : IsWf p.header) (i : ℕ) (in_page : i < max_index)
    (free_head : Option ℕ) where
  abbrev after : Page
  after =
      if freed p i
      then put_header
          (put_box (put_link p i free_head) i
            (clear_is_dropping (clear_under_construction (clear_gen_old (p.boxes i)))))
          (record p.header { allocated_bitmap = without_bit p.header.allocated_bitmap i })
      else if listed p i
      then put_link p i free_head
      else p

  reclaim_slot_lem :
      (n : ℕ)
      → reclaim_slot p i free_head n
        ≡ some ((if listed p i then some i else free_head), (if freed p i then n + 1 else n), after)
  unfolding reclaim_slot
  reclaim_slot_lem n = ground (
    arith,
    test-has p.header.allocated_bitmap w.allocated i in_page,
    test-has p.header.mark_bitmap w.marks i in_page,
    fetch_and_not_lem p.header.allocated_bitmap w.allocated i in_page,
  )

  after_header : after.header ≡ (
      if freed p i
      then record p.header { allocated_bitmap = without_bit p.header.allocated_bitmap i }
      else p.header)
  after_header = ground arith

  after-IsWf : IsWf after.header
  after-IsWf = subst IsWf (sym after_header) (
      if-IsWf (freed p i) _ _
        (record {
          marks = w.marks;
          dirty = w.dirty;
          allocated = without_bit-IsBitmap p.header.allocated_bitmap w.allocated i in_page;
        })
        w)

  marks_after : after.header.mark_bitmap ≡ p.header.mark_bitmap
  marks_after = ground arith

  links_after : (j : ℕ) → after.links j ≡ (if listed p i && (i == j) then free_head else p.links j)
  links_after j = ground arith

  allocated_after :
      (j : ℕ)
      → has after.header.allocated_bitmap j
        ≡ (not ((i == j) && freed p i) && has p.header.allocated_bitmap j)
  allocated_after j =
      ground (arith, has-without_bit p.header.allocated_bitmap w.allocated i in_page j)

  boxes_after : (j : ℕ) → ((i == j) && freed p i) ≡ false → after.boxes j ≡ p.boxes j
  boxes_after j h = ground arith

  others_after :
      (j : ℕ) → (i == j) ≡ false → (freed after j ≡ freed p j) × (listed after j ≡ listed p j)
  unfolding free_list_head
  others_after j e = (ground (arith, allocated_after j), ground (arith, allocated_after j))

-- What the rounds below `n` leave.
pub record Reclaimed (p : Page) (n : ℕ) (p' : Page) : Type 0 where
  pub wf : IsWf p'.header
  pub marks : p'.header.mark_bitmap ≡ p.header.mark_bitmap
  pub allocated :
      (j : ℕ)
      → has p'.header.allocated_bitmap j
        ≡ (not (ltb j n && freed p j) && has p.header.allocated_bitmap j)
  pub boxes : (j : ℕ) → (ltb j n && freed p j) ≡ false → p'.boxes j ≡ p.boxes j

reclaim_below_lem :
    (p : Page) (n count : ℕ) (free_head : Option ℕ) (xs : List ℕ)
    → IsWf p.header
    → n ≤ max_index
    → AllFrom n xs
    → Chain p.links free_head xs
    → (head : Option ℕ) × (p' : Page) × (reclaim_below p n free_head count
        ≡ some (head, count + count_below (freed p) n, p'))
      × Reclaimed p n p'
      × Chain p'.links head (slots_below (listed p) n xs)
unfolding reclaim_below slots_below count_below
reclaim_below_lem p zero count free_head xs w le above chain = (
  free_head,
  p,
  ground arith,
  record { wf = w; marks = refl; allocated = λ j. ground arith; boxes = λ j h. refl },
  chain,
)
reclaim_below_lem p (suc i) count free_head xs w le above chain =
    let q : Page = after p w i (omega arith) free_head in
    let same =
      λ (j : ℕ) (lt : j < i). others_after p w i (omega arith) free_head j (ground arith) in
    let (head, p', run, r, chain') =
      reclaim_below_lem q i (if freed p i then count + 1 else count)
        (if listed p i then some i else free_head) (if listed p i then i ∷ xs else xs)
        (after-IsWf p w i (omega arith) free_head) (omega arith)
        (above_after (listed p i) i xs above)
        (Chain-push (listed p i) p.links i free_head xs q.links
          (links_after p w i (omega arith) free_head) above chain) in
    (
      head,
      p',
      ground (
        arith,
        reclaim_slot_lem p w i (omega arith) free_head count,
        run,
        count_below_congr (freed q) (freed p) i (λ j lt. (same j lt).0),
      ),
      record {
        wf = r.wf;
        marks = r.marks ∙ marks_after p w i (omega arith) free_head;
        allocated = λ j. ground (
          arith,
          r.allocated j,
          allocated_after p w i (omega arith) free_head j,
          others_after p w i (omega arith) free_head j,
        );
        boxes = λ j h.
            r.boxes j (ground (arith, h, others_after p w i (omega arith) free_head j))
            ∙ boxes_after p w i (omega arith) free_head j (ground (arith, h));
      },
      rw
          (← slots_below_congr (listed q) (listed p) i (if listed p i then i ∷ xs else xs)
            (λ j lt. (same j lt).1))
          chain',
    )

-- The second phase of an eager sweep reclaims exactly the slots that are allocated, unmarked, dead and
-- without weak references: they alone lose their allocated bit, and their number is returned. The
-- page's free list afterwards runs through distinct slots in ascending order: the reclaimed ones and
-- those that were free before, except the slot that was the head of the old list. The marks and the
-- boxes of the other slots stay.
pub reclaim_page_exact :
    (p : Page)
    → IsWf p.header
    → p.header.obj_count ≤ max_index
    → (p' : Page) × (has_free : Bool) × (reclaim_page p
        ≡ some (count_below (freed p) p.header.obj_count, has_free, p'))
      × IsWf p'.header
      × ((j : ℕ)
          → has p'.header.allocated_bitmap j
            ≡ (not (ltb j p.header.obj_count && freed p j) && has p.header.allocated_bitmap j))
      × Chain p'.links (free_list_head p'.header) (slots_below (listed p) p.header.obj_count [])
      × (p'.header.mark_bitmap ≡ p.header.mark_bitmap)
      × ((j : ℕ) → (ltb j p.header.obj_count && freed p j) ≡ false → p'.boxes j ≡ p.boxes j)
unfolding reclaim_page set_free_list_head free_list_head
reclaim_page_exact p w le =
    let n : ℕ = p.header.obj_count in
    let (head, q, run, r, chain) = reclaim_below_lem p n 0 none [] w le tt refl in
    let slot : IsSlot head =
      head-IsSlot q.links head (slots_below (listed p) n [])
        (λ j m. ground (arith, mem-slots_below (listed p) n [] j, m)) chain in
    (
      put_header q (set_free_list_head q.header head),
      elim head [ none ↦ false | some _ ↦ true ],
      ground (arith, run),
      record { marks = r.wf.marks; dirty = r.wf.dirty; allocated = r.wf.allocated },
      r.allocated,
      rw (decode-encode head slot) chain,
      r.marks,
      r.boxes,
    )

-- If the old head of a page's free list is a free slot, then it is free after the second phase too,
-- and yet not on the new list.
pub old_head_lost :
    (p : Page) (i : ℕ)
    → IsWf p.header
    → p.header.obj_count ≤ max_index
    → i < p.header.obj_count
    → free_list_head p.header ≡ some i
    → has p.header.allocated_bitmap i ≡ false
    → (p' : Page) × (n : ℕ) × (has_free : Bool) × (list : List ℕ) × (reclaim_page p
        ≡ some (n, has_free, p'))
      × Chain p'.links (free_list_head p'.header) list
      × (has p'.header.allocated_bitmap i ≡ false)
      × (mem i list ≡ false)
old_head_lost p i w le lt head free =
    let (p', has_free, run, w', alloc, chain, marks, boxes) = reclaim_page_exact p w le in
    (
      p',
      count_below (freed p) p.header.obj_count,
      has_free,
      slots_below (listed p) p.header.obj_count [],
      run,
      chain,
      ground (arith, alloc i, free),
      ground (arith, mem-slots_below (listed p) p.header.obj_count [] i, free, head),
    )
