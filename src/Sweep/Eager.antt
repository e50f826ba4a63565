-- ===== src/Sweep/Eager.antt =====
-- The eager sweep of a page and the sweeps that an allocation asks for, of
-- crates/rudo-gc/src/gc/gc.rs. A page's slots are visited with no other thread at the page. The two
-- phases of `sweep_segment_pages` run over all pages: the first drops values, the second rebuilds
-- the free lists. What dropping a value does to other boxes is an argument of the sweeps (`Glue` of
-- Sweep.antt); that it changes headers, by allocating, is left out.
use rudo.Prelude.{
  ℕ, zero, suc, ◌+◌, ◌-◌, ◌*◌, Bool, true, false, not, ◌&&◌, ◌||◌, Option, none, some, List, [],
  ◌∷◌, ltb, leb, ◌==◌, if◌then◌else◌, ◌>>=◌,
}
use rudo.Page.{
  PageHeader, is_allocated, is_marked, clear_mark, clear_allocated, free_list_head,
  set_free_list_head, is_large_object, all_dead, set_all_dead, clear_all_dead, needs_sweep,
  clear_needs_sweep, set_dead_count, is_fully_marked, bitmap_size,
}
use rudo.GcBox.{
  GcBox, weak_count_and_dead_flag, set_dead, clear_gen_old, clear_under_construction,
  clear_is_dropping, set_gen_old,
}
use rudo.Address.{block_size_to_class_index}
use rudo.Sweep.{
  Page, Glue, put_box, put_link, put_header, as_u16, push_free_lazy, dropped_boxes, drop_slot,
  drop_value, lazy_sweep_page,
}

-- What the values dropped in a sweep of several pages do to the boxes of one page: those of the pages
-- before it, its own, and those of the pages after it.
pub record Drops : Type 0 where
  pub earlier : (ℕ → GcBox) → ℕ → GcBox
  pub own : Glue
  pub later : (ℕ → GcBox) → ℕ → GcBox

-- A page between the drops of the other pages.
abbrev pub after_earlier : Drops → Page → Page
after_earlier d p = record p { boxes = d.earlier p.boxes }

abbrev pub after_later : Drops → Page → Page
after_later d p = record p { boxes = d.later p.boxes }

module _ (glue : Glue) where
  -- One round of `sweep_phase1_finalize`.
  unfoldable pub finalize_slot : Page → ℕ → Option Page
  unfolding is_marked is_allocated clear_mark weak_count_and_dead_flag dropped_boxes set_dead
  finalize_slot p i = is_marked p.header i >>= λ marked. is_allocated p.header i >>= λ allocated.
      if marked
      then (clear_mark p.header i >>= λ h. some (put_header p h))
      else if allocated
      then (if ltb 0 (weak_count_and_dead_flag (p.boxes i)).0
          then some (drop_value glue p i)
          else (let q = drop_slot glue p i in some (put_box q i (set_dead (q.boxes i)))))
      else some p

  unfoldable pub finalize_from : Page → ℕ → ℕ → Option Page
  finalize_from p i zero = some p
  finalize_from p i (suc left) = finalize_slot p i >>= λ p'. finalize_from p' (i + 1) left

-- Large pages, and old ones if `only_young`, are left out of both phases.
abbrev pub is_swept : Bool → PageHeader → Bool
is_swept only_young h = not (is_large_object h) && not (only_young && ltb 0 h.generation)

-- The pages from position `k` of the list on.
unfoldable pub sweep_phase1_finalize : Bool → (ℕ → Drops) → ℕ → List Page → Option (List Page)
unfolding finalize_from
sweep_phase1_finalize only_young drops k [] = some []
sweep_phase1_finalize only_young drops k (p ∷ ps) =
    let q = after_earlier (drops k) p in
    (if is_swept only_young p.header
      then finalize_from (drops k).own q 0 p.header.obj_count
      else some q)
    >>= λ p'. sweep_phase1_finalize only_young drops (k + 1) ps >>= λ ps'.
        some (after_later (drops k) p' ∷ ps')

-- `current_head == Some(idx_as_u16)`
abbrev pub is_head : PageHeader → ℕ → Bool
is_head h idx = elim (free_list_head h) [ none ↦ false | some head ↦ head == idx ]

-- Allocated, unmarked, without weak references and dead.
abbrev pub is_reclaimed : Page → Bool → Bool → ℕ → Bool
is_reclaimed p allocated marked i =
    allocated
    && not marked
    && ((weak_count_and_dead_flag (p.boxes i)).0 == 0)
    && (weak_count_and_dead_flag (p.boxes i)).1

-- One round of `sweep_phase2_reclaim`: the head of the list so far, the count and the page.
unfoldable pub reclaim_slot : Page → ℕ → Option ℕ → ℕ → Option (Option ℕ × ℕ × Page)
unfolding is_marked is_allocated clear_allocated
reclaim_slot p i free_head reclaimed = is_allocated p.header i >>= λ is_alloc.
    is_marked p.header i >>= λ is_mark.
    if is_reclaimed p is_alloc is_mark i
    then (as_u16 i >>= λ slot. clear_allocated p.header i >>= λ h. some (
      some slot,
      reclaimed + 1,
      put_header
          (put_box (put_link p i free_head) i
            (clear_is_dropping (clear_under_construction (clear_gen_old (p.boxes i)))))
          h,
    ))
    else if not is_alloc
    then (as_u16 i >>= λ idx_as_u16.
        if is_head p.header idx_as_u16
        then some (free_head, reclaimed, p)
        else some (some idx_as_u16, reclaimed, put_link p i free_head))
    else some (free_head, reclaimed, p)

-- The rounds below slot `n`, the highest first.
unfoldable pub reclaim_below : Page → ℕ → Option ℕ → ℕ → Option (Option ℕ × ℕ × Page)
reclaim_below p zero free_head reclaimed = some (free_head, reclaimed, p)
reclaim_below p (suc i) free_head reclaimed =
    reclaim_slot p i free_head reclaimed >>= λ (free_head', reclaimed', p').
    reclaim_below p' i free_head' reclaimed'

-- With the number of reclaimed slots: the page, and whether it goes to `pages_with_free_slots`.
unfoldable pub reclaim_page : Page → Option (ℕ × Bool × Page)
unfolding reclaim_below set_free_list_head
reclaim_page p = reclaim_below p p.header.obj_count none 0 >>= λ (free_head, reclaimed, p'). some (
  reclaimed,
  elim free_head [ none ↦ false | some _ ↦ true ],
  put_header p' (set_free_list_head p'.header free_head),
)

-- With the reclaimed slots: the pages, and the classes and positions pushed to
-- `pages_with_free_slots`, of which the first page has position `k`.
unfoldable pub sweep_phase2_reclaim : Bool → ℕ → List Page → Option (ℕ × List (ℕ × ℕ) × List Page)
sweep_phase2_reclaim only_young k [] = some (0, [], [])
sweep_phase2_reclaim only_young k (p ∷ ps) =
    (if is_swept only_young p.header then reclaim_page p else some (0, false, p))
    >>= λ (reclaimed, has_free, p').
        sweep_phase2_reclaim only_young (k + 1) ps >>= λ (more, pushed, ps'). some (
          reclaimed + more,
          if has_free then (block_size_to_class_index p.header.block_size, k) ∷ pushed else pushed,
          p' ∷ ps',
        )

unfoldable pub sweep_segment_pages :
    Bool → (ℕ → Drops) → List Page → Option (ℕ × List (ℕ × ℕ) × List Page)
unfolding sweep_phase1_finalize sweep_phase2_reclaim
sweep_segment_pages only_young drops pages =
    sweep_phase1_finalize only_young drops 0 pages >>= sweep_phase2_reclaim only_young 0

-- One round of `lazy_sweep_page_all_dead`, with whether the slot was reclaimed.
unfoldable pub all_dead_slot : Glue → Page → ℕ → Option (Bool × Page)
unfolding is_allocated clear_mark clear_allocated push_free_lazy weak_count_and_dead_flag
    dropped_boxes clear_gen_old
all_dead_slot glue p i = is_allocated p.header i >>= λ allocated.
    if not allocated
    then some (false, p)
    else if ltb 0 (weak_count_and_dead_flag (p.boxes i)).0
    then (clear_mark p.header i >>= λ h. some (false, put_header (drop_value glue p i) h))
    else (let q = drop_slot glue p i in
        push_free_lazy (put_box q i (clear_gen_old (q.boxes i))) i
        >>= λ (did_reclaim, concurrent, p').
            (if did_reclaim then clear_allocated p'.header i else some p'.header) >>= λ h.
            clear_mark h i >>= λ h'. some (did_reclaim, put_header p' h'))

unfoldable pub all_dead_from : Glue → Page → ℕ → ℕ → ℕ → Option (ℕ × Page)
unfolding all_dead_slot
all_dead_from glue p i zero reclaimed = some (reclaimed, p)
all_dead_from glue p i (suc left) reclaimed = all_dead_slot glue p i >>= λ (took, p').
    all_dead_from glue p' (i + 1) left (if took then reclaimed + 1 else reclaimed)

unfoldable pub lazy_sweep_page_all_dead : Glue → Page → ℕ → Option (ℕ × Page)
unfolding all_dead_from
lazy_sweep_page_all_dead glue p obj_count = all_dead_from glue p 0 obj_count 0

-- `clear_needs_sweep` and `set_dead_count(0)`
abbrev pub sweep_done : PageHeader → PageHeader
sweep_done h = set_dead_count (clear_needs_sweep h) 0

-- What both callers of the page sweeps do with a page; `none` also if the assertion of a debug build
-- fails. With the number of reclaimed slots, `obj_count` for a page of dead objects.
unfoldable pub sweep_page : Glue → Page → Option (ℕ × Page)
unfolding lazy_sweep_page lazy_sweep_page_all_dead set_dead_count is_fully_marked
sweep_page glue p =
    let obj_count = p.header.obj_count in
    if all_dead p.header
    then (lazy_sweep_page_all_dead glue p obj_count >>= λ (_, p').
        some (obj_count, put_header p' (sweep_done (clear_all_dead p'.header))))
    else (lazy_sweep_page glue p obj_count >>= λ (reclaimed, dead, p').
        let h = if dead && (reclaimed == obj_count) then set_all_dead p'.header else p'.header in
        if ltb 0 reclaimed
        then (if reclaimed == obj_count
            then some (reclaimed, put_header p' (clear_all_dead (sweep_done h)))
            else if leb reclaimed h.dead_count
            then some (reclaimed, put_header p' (set_dead_count h (h.dead_count - reclaimed)))
            else none)
        else if is_fully_marked p'.header
        then some (0, put_header p' (sweep_done p'.header))
        else some (0, p'))

-- With whether the page goes to `pages_with_free_slots`.
unfoldable pub sweep_specific_page : Glue → Page → Option (ℕ × Bool × Page)
unfolding sweep_page
sweep_specific_page glue p =
    sweep_page glue p >>= λ (reclaimed, p'). some (reclaimed, ltb 0 reclaimed, p')

abbrev pub awaits_sweep : Page → Bool
awaits_sweep p = not (is_large_object p.header) && needs_sweep p.header

-- The first `num_pages` pages that await a sweep are swept; a page counts if slots of it have been
-- reclaimed or all its objects were dead. The page at the front has position `k`.
unfoldable pub sweep_pending : (ℕ → Drops) → ℕ → List Page → ℕ → Option (ℕ × List Page)
unfolding sweep_page
sweep_pending drops k [] num_pages = some (0, [])
sweep_pending drops k (p ∷ ps) num_pages =
    let q = after_earlier (drops k) p in
    let taken = ltb 0 num_pages && awaits_sweep p in
    (if taken then sweep_page (drops k).own q else some (0, q)) >>= λ (reclaimed, p').
    sweep_pending drops (k + 1) ps (if taken then num_pages - 1 else num_pages) >>= λ (swept, ps').
    some (
      (if taken && (all_dead p.header || ltb 0 reclaimed) then swept + 1 else swept),
      after_later (drops k) p' ∷ ps',
    )

pub pending_sweep_count : List Page → ℕ
pending_sweep_count [] = 0
pending_sweep_count (p ∷ ps) = (if awaits_sweep p then 1 else 0) + pending_sweep_count ps

-- The loops over the words of the allocated bitmap and the bits set in each: the indices that are
-- not set are passed over, and so are those from `obj_count` on.
unfoldable pub set_gen_old_from : Page → ℕ → ℕ → Option Page
set_gen_old_from p i zero = some p
set_gen_old_from p i (suc left) = is_allocated p.header i >>= λ allocated.
    set_gen_old_from
      (if allocated && ltb i p.header.obj_count then put_box p i (set_gen_old (p.boxes i)) else p)
      (i + 1) left

unfoldable pub promote_page : Page → Option Page
unfolding set_gen_old_from
promote_page p =
    set_gen_old_from (put_header p (record p.header { generation = 1 })) 0 (bitmap_size * 64)

unfoldable pub promote_all_pages : List Page → Option (List Page)
promote_all_pages [] = some []
promote_all_pages (p ∷ ps) =
    promote_page p >>= λ p'. promote_all_pages ps >>= λ ps'. some (p' ∷ ps')
