-- ===== src/Sweep/Segment.antt =====
-- An eager sweep of a segment's pages: which objects it keeps and which it frees.
use rudo.Prelude.{
  ℕ, ◌+◌, ◌≤◌, ◌<◌, ◌≡◌, refl, sym, subst, ap, Bool, true, false, not, ◌&&◌, some, List, [], ◌∷◌,
  ltb, ◌==◌, if◌then◌else◌, arith, Bool-cases, inl, inr,
}
use rudo.Bitmap.Laws.{has}
use rudo.Page
use rudo.Page.{PageHeader}
use rudo.Address.{block_size_to_class_index}
use rudo.Page.Marks.{IsWf, max_index}
use rudo.GcBox.{GcBox, weak_count_and_dead_flag}
use rudo.Sweep.{Page}
use rudo.Sweep.Eager.{
  Drops, after_earlier, after_later, finalize_from, reclaim_page, is_swept, sweep_phase1_finalize,
  sweep_phase2_reclaim, sweep_segment_pages,
}
use rudo.Sweep.Survival.{
  Preserves, GivesNone, IsAlone, IsExpired, finalized_from, finalize_from_lem, kept_from,
  dropped_from,
}
use rudo.Sweep.FreeList.{freed, reclaim_page_exact}

-- Dead and without weak references.
abbrev pub expired : GcBox → Bool
expired b = ((weak_count_and_dead_flag b).0 == 0) && (weak_count_and_dead_flag b).1

-- No value dropped from another slot or page takes `P` from the box of slot `j`.
abbrev pub LeavesIt : (GcBox → Type 0) → Drops → ℕ → Type 0
LeavesIt P d j =
    Preserves d.own j P
    × ((b : ℕ → GcBox) → P (b j) → P (d.earlier b j))
    × ((b : ℕ → GcBox) → P (b j) → P (d.later b j))

-- No dropped value, on any page, gives the box of slot `j` a weak reference, or brings its value back.
abbrev pub LeavesDead : Drops → ℕ → Type 0
LeavesDead d j =
    GivesNone d.own j
    × ((b : ℕ → GcBox) → IsAlone (b j) → IsAlone (d.earlier b j))
    × ((b : ℕ → GcBox) → IsExpired (b j) → IsExpired (d.later b j))

module _ (P : GcBox → Type 0) (lives : (b : GcBox) → P b → expired b ≡ false) where
  pub record Swept (d : Drops) (p p' : Page) : Type 0 where
    pub survivors :
        (j : ℕ)
        → j < p.header.obj_count
        → has p.header.mark_bitmap j ≡ true
        → has p.header.allocated_bitmap j ≡ true
        → LeavesIt P d j
        → P (p.boxes j)
        → (has p'.header.allocated_bitmap j ≡ true) × P (p'.boxes j)
    pub garbage :
        (j : ℕ)
        → j < p.header.obj_count
        → has p.header.mark_bitmap j ≡ false
        → has p.header.allocated_bitmap j ≡ true
        → LeavesDead d j
        → IsAlone (p.boxes j)
        → has p'.header.allocated_bitmap j ≡ false
    pub marks :
        (j : ℕ)
        → has p'.header.mark_bitmap j
          ≡ (not (ltb j p.header.obj_count) && has p.header.mark_bitmap j)

  sweep_page_lem :
      (d : Drops) (p : Page)
      → IsWf p.header
      → p.header.obj_count ≤ max_index
      → (q : Page) × (n : ℕ) × (has_free : Bool) × (p' : Page) × (finalize_from d.own
            (after_earlier d p)
            0
            p.header.obj_count
          ≡ some q)
        × (reclaim_page (after_later d q) ≡ some (n, has_free, p'))
        × (record q.header { mark_bitmap = p.header.mark_bitmap } ≡ p.header)
        × Swept d p p'
  sweep_page_lem d p w le =
      let p1 : Page = after_earlier d p in
      let n : ℕ = p.header.obj_count in
      let q : Page = finalized_from d.own p1 0 n in
      let (run, f) = finalize_from_lem d.own n p1 0 w (omega (arith, le)) in
      let (p', has_free, run', w', alloc, chain, same, boxes) =
        reclaim_page_exact (after_later d q) f.wf (omega (arith, f.count, le)) in
      (
        q,
        _,
        has_free,
        p',
        run,
        run',
        f.frame,
        record {
          survivors = λ j lt m a leaves x.
              let kept : P (d.later q.boxes j) = leaves.2 q.boxes (
                kept_from d.own P j leaves.0 n p1 0 w (omega (arith, le)) (ground (arith, m))
                  (leaves.1 p.boxes x)) in
              let stays : (ltb j q.header.obj_count && freed (after_later d q) j) ≡ false =
                ground (arith, lives (d.later q.boxes j) kept) in
              (ground (arith, alloc j, stays, f.allocated, a), subst P (sym (boxes j stays)) kept);
          garbage = λ j lt m a leaves x.
              let gone : IsExpired (d.later q.boxes j) = leaves.2 q.boxes (
                dropped_from d.own j leaves.0 n p1 0 w (omega (arith, le)) (omega arith)
                  (omega (arith, lt)) m a (leaves.1 p.boxes x)) in
              ground (arith, alloc j, gone, f.allocated, f.marks j, f.count);
          marks = λ j. ground (arith, same, f.marks j);
        },
      )

  -- Each page of a segment, from position `k` on, is swept, or its header is left alone.
  abbrev pub SegmentSwept : Bool → (ℕ → Drops) → ℕ → List Page → List Page → Type 0
  SegmentSwept only_young drops k [] ps' = ps' ≡ []
  SegmentSwept only_young drops k (p ∷ ps) [] = ⊥
  SegmentSwept only_young drops k (p ∷ ps) (p' ∷ ps') =
      (is_swept only_young p.header ≡ true → Swept (drops k) p p')
      × (is_swept only_young p.header ≡ false
          → p' ≡ after_later (drops k) (after_earlier (drops k) p))
      × SegmentSwept only_young drops (k + 1) ps ps'

abbrev pub PagesWf : List Page → Type 0
PagesWf [] = Unit
PagesWf (p ∷ ps) = IsWf p.header × (p.header.obj_count ≤ max_index) × PagesWf ps

pub is_swept_frame :
    (only_young : Bool) (h h' : PageHeader)
    → record h' { mark_bitmap = h.mark_bitmap } ≡ h
    → is_swept only_young h' ≡ is_swept only_young h
unfolding rudo.Page.has_flag
is_swept_frame only_young h h' e = ap (is_swept only_young) e

module _ (P : GcBox → Type 0) (lives : (b : GcBox) → P b → expired b ≡ false) (only_young : Bool)
    (drops : ℕ → Drops) where
  phases_lem :
      (pages : List Page) (k : ℕ)
      → PagesWf pages
      → (mid : List Page) × (n : ℕ) × (pushed : List (ℕ × ℕ)) × (pages' : List Page)
        × (sweep_phase1_finalize only_young drops k pages ≡ some mid)
        × (sweep_phase2_reclaim only_young k mid ≡ some (n, pushed, pages'))
        × SegmentSwept P lives only_young drops k pages pages'
  unfolding sweep_phase1_finalize sweep_phase2_reclaim
  phases_lem [] k wf = ([], 0, [], [], refl, refl, refl)
  phases_lem (p ∷ ps) k wf =
      let (mid, n, pushed, ps', run1, run2, rest) = phases_lem ps (k + 1) wf.2 in
      elim (Bool-cases (is_swept only_young p.header)) [
        | inl taken ↦
            let (q, m, has_free, p', fin, rec, frame, s) =
              sweep_page_lem P lives (drops k) p wf.0 wf.1 in
            (
              after_later (drops k) q ∷ mid,
              m + n,
              (if has_free
                  then (block_size_to_class_index q.header.block_size, k) ∷ pushed
                  else pushed),
              p' ∷ ps',
              rw taken (rw fin (rw run1 refl)),
              rw (is_swept_frame only_young p.header q.header frame)
                  (rw taken (rw rec (rw run2 refl))),
              (λ h. s, λ h. ground (arith, taken, h), rest),
            )
        | inr left ↦ (
          after_later (drops k) (after_earlier (drops k) p) ∷ mid,
          0 + n,
          pushed,
          after_later (drops k) (after_earlier (drops k) p) ∷ ps',
          rw left (rw run1 refl),
          rw left (rw run2 refl),
          (λ h. ground (arith, left, h), λ h. refl, rest),
        )
      ]

  -- An eager sweep of a segment goes through, whatever the dropped values do to other boxes. In each
  -- page that it takes, the marks below the object count are cleared. For a property `P` that no box
  -- has which is dead and without weak references: a marked, allocated object whose box has it
  -- stays allocated and its box keeps it, if no value dropped elsewhere takes it away. An unmarked
  -- object without weak references is freed, if no dropped value gives it a weak reference or brings
  -- its value back. The other pages keep their headers.
  pub sweep_segment_keeps_marked :
      (pages : List Page)
      → PagesWf pages
      → (n : ℕ) × (pushed : List (ℕ × ℕ)) × (pages' : List Page) × (sweep_segment_pages only_young
            drops pages
          ≡ some (n, pushed, pages'))
        × SegmentSwept P lives only_young drops 0 pages pages'
  unfolding sweep_segment_pages
  sweep_segment_keeps_marked pages wf =
      let (mid, n, pushed, pages', run1, run2, s) = phases_lem pages 0 wf in
      (n, pushed, pages', rw run1 run2, s)
