-- ===== src/Collection/Survivors.antt =====
-- A major collection keeps the reachable objects and frees the others.
use rudo.Prelude.{
  ℕ, zero, suc, ◌+◌, ◌*◌, ◌≤◌, ◌<◌, ◌≡◌, refl, sym, subst, ap, ◌∙◌, ◌↔◌, true, false, not, ◌&&◌,
  Option, none, some, List, [], ◌∷◌, map, get_elem?, ◌==◌, arith, Bool-cases, inl, inr,
}
use rudo.Bitmap.Laws.{has}
use rudo.Page.{PageHeader, is_large_object}
use rudo.GcBox.{GcBox, weak_count_and_dead_flag}
use rudo.Address.{Layout, header_size, ptr_to_page_header}
use rudo.Mark.{Space, index_of, header_of}
use rudo.Mark.Step.{IsWfSpace, seen_at, live_at, is_box, Grows, index-lt-obj_count}
use rudo.Mark.Worklist.{AllClean, unmarked, Covers}
use rudo.Mark.Roots.{Reachable, AllNonNull, mark_major_roots_exact}
use rudo.Sweep.{Page}
use rudo.Sweep.Eager.{Drops, is_swept}
use rudo.Sweep.Segment.{
  expired, LeavesIt, LeavesDead, Swept, SegmentSwept, PagesWf, is_swept_frame,
  sweep_segment_keeps_marked,
}
use rudo.Collection.{page_at, mark_and_sweep}

PagesWf-map :
    (t : Space) (links : ℕ → ℕ → Option ℕ) (pages : List ℕ)
    → IsWfSpace t
    → PagesWf (map (page_at t links) pages)
PagesWf-map t links [] w = tt
PagesWf-map t links (b ∷ bs) w = (w.wf b, omega (arith, w.fits b), PagesWf-map t links bs w)

get_elem?-map :
    (f : ℕ → Page) (pages : List ℕ) (k b : ℕ)
    → get_elem? pages k ≡ some b
    → get_elem? (map f pages) k ≡ some (f b)
get_elem?-map f [] k b e = cc
get_elem?-map f (x ∷ xs) zero b e =
    ap (λ (o : Option ℕ). elim o [ none ↦ none | some y ↦ some (f y) ]) e
get_elem?-map f (x ∷ xs) (suc k) b e = get_elem?-map f xs k b e

Swept-get_elem :
    (P : GcBox → Type 0) (lives : (b : GcBox) → P b → expired b ≡ false) (drops : ℕ → Drops)
    (ps ps' : List Page) (from k : ℕ) (p : Page)
    → SegmentSwept P lives false drops from ps ps'
    → get_elem? ps k ≡ some p
    → is_swept false p.header ≡ true
    → (p' : Page) × (get_elem? ps' k ≡ some p') × Swept P lives (drops (from + k)) p p'
Swept-get_elem P lives drops [] ps' from k p s e taken = absurd (cc e)
Swept-get_elem P lives drops (q ∷ qs) [] from k p s e taken = absurd s
Swept-get_elem P lives drops (q ∷ qs) (q' ∷ qs') from zero p s e taken =
    let same : q ≡ p = ap (λ (o : Option Page). elim o [ none ↦ q | some y ↦ y ]) e in
    let at : from ≡ from + 0 = omega arith in
    (
      q',
      refl,
      subst (λ (k : ℕ). Swept P lives (drops k) p q') at
          (subst (λ (r : Page). Swept P lives (drops from) r q') same (s.0 (rw same taken))),
    )
Swept-get_elem P lives drops (q ∷ qs) (q' ∷ qs') from (suc k) p s e taken =
    let (p', found, swept) = Swept-get_elem P lives drops qs qs' (from + 1) k p s.2 e taken in
    let at : from + 1 + k ≡ from + suc k = omega arith in
    (p', found, subst (λ (n : ℕ). Swept P lives (drops n) p p') at swept)

starts : (q a : ℕ) → (not (q == 0) && (q == a)) ≡ true → q ≡ a
starts q a e = ground (arith, e)

slot_of :
    (s : Space) (q i : ℕ)
    → index_of s q ≡ some i
    → (seen_at s q ≡ has (header_of s q).mark_bitmap i)
      × (live_at s q ≡ has (header_of s q).allocated_bitmap i)
      × (is_box s q ≡ (
          not (q == 0)
          && (q
              == ptr_to_page_header s.layout q
                + header_size s.layout (header_of s q).block_size
                + i * (header_of s q).block_size)))
slot_of s q i e = (
  ap (λ (o : Option ℕ). elim o [ none ↦ false | some j ↦ has (header_of s q).mark_bitmap j ]) e,
  ap (λ (o : Option ℕ). elim o [ none ↦ false | some j ↦ has (header_of s q).allocated_bitmap j ])
      e,
  ap
      (λ (o : Option ℕ). elim o [
        | none ↦ false
        | some j ↦
            not (q == 0)
            && (q
                == ptr_to_page_header s.layout q
                  + header_size s.layout (header_of s q).block_size
                  + j * (header_of s q).block_size)
      ])
      e,
)

-- What marking leaves of the page of a box, at its slot.
module _ (s t : Space) (links : ℕ → ℕ → Option ℕ) (grows : Grows s t) (q i : ℕ)
    (at : index_of s q ≡ some i) (box : is_box s q ≡ true) where
  abbrev base : ℕ
  base = ptr_to_page_header s.layout q

  abbrev page : Page
  page = page_at t links base

  same_header : header_of t q ≡ t.pages base
  same_header = ap (λ (l : Layout). t.pages (ptr_to_page_header l q)) grows.layout

  at_t : index_of t q ≡ some i
  at_t = grows.index q ∙ at

  in_count : i < page.header.obj_count
  in_count =
      subst (λ (h : PageHeader). i < h.obj_count) same_header
        (index-lt-obj_count t.layout (header_of t q) q i at_t)

  mark_of : has page.header.mark_bitmap i ≡ seen_at t q
  mark_of = sym ((slot_of t q i at_t).0 ∙ ap (λ (h : PageHeader). has h.mark_bitmap i) same_header)

  allocated_of : has page.header.allocated_bitmap i ≡ live_at t q
  allocated_of =
      sym ((slot_of t q i at_t).1 ∙ ap (λ (h : PageHeader). has h.allocated_bitmap i) same_header)

  box_of : page.boxes i ≡ s.boxes q
  box_of =
      let size : (t.pages base).block_size ≡ (s.pages base).block_size =
        ap (λ (h : PageHeader). h.block_size) (grows.frame base) in
      let start : q
          ≡ base + header_size s.layout (s.pages base).block_size + i * (s.pages base).block_size =
        starts q _ (sym (slot_of s q i at).2 ∙ box) in
      let address : base
            + header_size t.layout (t.pages base).block_size
            + i * (t.pages base).block_size
          ≡ q =
        ap
          (λ (l : Layout).
            base + header_size l (t.pages base).block_size + i * (t.pages base).block_size)
          grows.layout
        ∙ ap (λ (b : ℕ). base + header_size s.layout b + i * b) size
        ∙ sym start in
      ap t.boxes address ∙ ap (λ (f : ℕ → GcBox). f q) grows.boxes

module _ (trace : ℕ → List ℕ) (fuel : ℕ) (s : Space) (roots heap : List ℕ) (w : IsWfSpace s)
    (covers : Covers s heap) (clear : (q : ℕ) → seen_at s q ≡ false) (clean : AllClean s roots)
    (nonnull : AllNonNull roots) (fields : (p : ℕ) → is_box s p ≡ true → AllClean s (trace p))
    (enough : unmarked s heap ≤ fuel) (links : ℕ → ℕ → Option ℕ) (drops : ℕ → Drops)
    (pages : List ℕ) (k q i : ℕ) (here : get_elem? pages k ≡ some (ptr_to_page_header s.layout q))
    (small : is_large_object (s.pages (ptr_to_page_header s.layout q)) ≡ false)
    (at : index_of s q ≡ some i) (box : is_box s q ≡ true) (live : live_at s q ≡ true) where
  collected :
      (P : GcBox → Type 0) (lives : (b : GcBox) → P b → expired b ≡ false)
      → (t : Space) × (n : ℕ) × (reclaimed : ℕ) × (pushed : List (ℕ × ℕ)) × (pages' : List Page)
        × (p' : Page) × (mark_and_sweep trace fuel links drops s roots pages
            ≡ some (n, reclaimed, pushed, pages'))
        × (get_elem? pages' k ≡ some p')
        × Grows s t
        × ((seen_at t q ≡ true) ↔ Reachable trace s roots q)
        × Swept P lives (drops k) (page_at t links (ptr_to_page_header s.layout q)) p'
  unfolding mark_and_sweep rudo.Page.has_flag
  collected P lives =
      let b : ℕ = ptr_to_page_header s.layout q in
      let (t, n, run, grows, wf, exact) =
        mark_major_roots_exact trace fuel s roots heap w covers clear clean nonnull fields enough in
      let (reclaimed, pushed, pages', swept, all) =
        sweep_segment_keeps_marked P lives false drops (map (page_at t links) pages)
          (PagesWf-map t links pages wf) in
      let first : 0 + k ≡ k = omega arith in
      let taken : is_swept false (t.pages b) ≡ true =
        is_swept_frame false (s.pages b) (t.pages b) (grows.frame b) ∙ ground (arith, small) in
      let (p', found, s') =
        Swept-get_elem P lives drops (map (page_at t links) pages) pages' 0 k (page_at t links b)
          all (get_elem?-map (page_at t links) pages k b here) taken in
      (
        t,
        n,
        reclaimed,
        pushed,
        pages',
        p',
        rw run (rw swept refl),
        found,
        grows,
        exact q box,
        subst (λ (m : ℕ). Swept P lives (drops m) (page_at t links b) p') first s',
      )

  -- A stop-the-world major collection starts on a well-formed heap without marks, with roots and
  -- fields that hold starts of boxes or dangling pointers, no root being null, and with as much fuel
  -- as there are unmarked boxes. Let `P` be a property that no box has which is dead and without weak
  -- references, and that no value dropped elsewhere takes from the box of the object. If an object
  -- of one of the swept pages, not a large one, has it and is reached by the roots, then it is allocated
  -- afterwards and its box still has the property.
  pub collection_keeps :
      (P : GcBox → Type 0) (lives : (b : GcBox) → P b → expired b ≡ false)
      → LeavesIt P (drops k) i
      → Reachable trace s roots q
      → P (s.boxes q)
      → (n reclaimed : ℕ) × (pushed : List (ℕ × ℕ)) × (pages' : List Page) × (p' : Page)
        × (mark_and_sweep trace fuel links drops s roots pages
            ≡ some (n, reclaimed, pushed, pages'))
        × (get_elem? pages' k ≡ some p')
        × (has p'.header.allocated_bitmap i ≡ true)
        × P (p'.boxes i)
  collection_keeps P lives leaves reached holds =
      let (t, n, reclaimed, pushed, pages', p', run, found, grows, exact, swept) =
        collected P lives in
      let same : (page_at t links (ptr_to_page_header s.layout q)).boxes i ≡ s.boxes q =
        box_of s t links grows q i at box in
      let (stays, keeps) =
        swept.survivors i (in_count s t links grows q i at box)
          (mark_of s t links grows q i at box ∙ exact.1 reached)
          (allocated_of s t links grows q i at box ∙ grows.live q ∙ live) leaves
          (subst P (sym same) holds) in
      (n, reclaimed, pushed, pages', p', run, found, stays, keeps)

  -- On a well-formed heap without marks, with roots and fields that hold starts of boxes or dangling
  -- pointers, no root being null, and with as much fuel as there are unmarked boxes, a stop-the-world
  -- major collection frees each allocated object of one of the swept pages, not a large one, that the
  -- roots do not reach and that has no weak references, if no dropped value gives it one or brings
  -- its value back.
  pub collection_frees :
      ¬ Reachable trace s roots q
      → (weak_count_and_dead_flag (s.boxes q)).0 ≡ 0
      → LeavesDead (drops k) i
      → (n reclaimed : ℕ) × (pushed : List (ℕ × ℕ)) × (pages' : List Page) × (p' : Page)
        × (mark_and_sweep trace fuel links drops s roots pages
            ≡ some (n, reclaimed, pushed, pages'))
        × (get_elem? pages' k ≡ some p')
        × (has p'.header.allocated_bitmap i ≡ false)
  collection_frees lost alone leaves =
      let (t, n, reclaimed, pushed, pages', p', run, found, grows, exact, swept) =
        collected (λ b. expired b ≡ false) (λ b h. h) in
      let same : (page_at t links (ptr_to_page_header s.layout q)).boxes i ≡ s.boxes q =
        box_of s t links grows q i at box in
      let unmarked_here : seen_at t q ≡ false = elim (Bool-cases (seen_at t q)) [
        | inl seen ↦ absurd (lost (exact.0 seen))
        | inr not_seen ↦ not_seen
      ] in
      (
        n,
        reclaimed,
        pushed,
        pages',
        p',
        run,
        found,
        swept.garbage i (in_count s t links grows q i at box)
            (mark_of s t links grows q i at box ∙ unmarked_here)
            (allocated_of s t links grows q i at box ∙ grows.live q ∙ live) leaves (rw same alone),
      )
