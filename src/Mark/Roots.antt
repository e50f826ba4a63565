-- ===== src/Mark/Roots.antt =====
-- A major collection's marking, from the roots.
use rudo.Prelude.{
  mem, ℕ, ◌≤◌, ◌≡◌, refl, sym, ◌∙◌, true, false, not, ◌&&◌, ◌||◌, some, List, [], ◌∷◌, ◌==◌,
  if◌then◌else◌, arith, ◌↔◌, Option-cases, inl, inr,
}
use rudo.Bitmap.Laws.{has, with_bit, test-has}
use rudo.Page.{is_allocated}
use rudo.Page.Marks.{try_mark_quiet}
use rudo.Address.{ptr_to_page_header}
use rudo.Mark.{
  Space, GcVisitor, new, major, header_of, index_of, mark_and_recheck, mark_object, mark_objects,
  mark_major_roots, visit, visit_all,
}
use rudo.Mark.Step.{IsWfSpace, seen_at, live_at, is_box, Grows, Grows-trans}
use rudo.Mark.Visit.{in_page, visit_lem, slot_steps, index-magic}
use rudo.Mark.Worklist.{
  all_seen, AllClean, unmarked, Covers, visit_all_lem, Covers-Grows, AllClean-Grows,
}
use rudo.Mark.Loop.{Reach, root, next, all_seen-mem, marking_exact}
use rudo.Mark.Tricolor.{IsTricolor}

module _ (s : Space) (w : IsWfSpace s) (v : GcVisitor) (ptr : ℕ) where
  recheck_lem :
      (i : ℕ)
      → index_of s ptr ≡ some i
      → has (header_of s ptr).allocated_bitmap i ≡ true
      → mark_and_recheck (header_of s ptr) i
        ≡ some (
            if has (header_of s ptr).mark_bitmap i then (false, header_of s ptr) else (
              true,
              record (header_of s ptr) { mark_bitmap = with_bit (header_of s ptr).mark_bitmap i },
            ))
  unfolding mark_and_recheck is_allocated
  recheck_lem i at live = ground (
    arith,
    try_mark_quiet (header_of s ptr) (w.wf (ptr_to_page_header s.layout ptr)) i
        (in_page s w ptr i at),
    test-has (header_of s ptr).allocated_bitmap (w.wf (ptr_to_page_header s.layout ptr)).allocated i
        (in_page s w ptr i at),
  )

  -- With nobody else at the page, marking a root is a visit of its pointer.
  pub mark_object-eq-visit :
      v.kind ≡ major → not (ptr == 0) ≡ true → mark_object s v ptr ≡ visit s v ptr
  unfolding mark_object visit
  mark_object-eq-visit kind nonnull = elim (Option-cases (index_of s ptr)) [
    | inl e ↦ ground (arith, e)
    | inr (i, at) ↦
        ground (arith, slot_steps s w ptr i at, recheck_lem i at, index-magic s ptr i at)
  ]

-- What can be reached from the roots along live pointers.
pub data Reachable (trace : ℕ → List ℕ) (s : Space) (roots : List ℕ) : ℕ → Type 0 where
  from_root :
      {p : ℕ}
      → mem p roots ≡ true
      → is_box s p ≡ true
      → live_at s p ≡ true
      → Reachable trace s roots p
  from_object :
      {p c : ℕ}
      → Reachable trace s roots p
      → mem c (trace p) ≡ true
      → is_box s c ≡ true
      → live_at s c ≡ true
      → Reachable trace s roots c

abbrev pub AllNonNull : List ℕ → Type 0
AllNonNull [] = Unit
AllNonNull (p ∷ ps) = (not (p == 0) ≡ true) × AllNonNull ps

mark_objects-eq-visit_all :
    (s : Space) (v : GcVisitor) (heap roots : List ℕ)
    → IsWfSpace s
    → v.kind ≡ major
    → Covers s heap
    → AllClean s roots
    → AllNonNull roots
    → mark_objects s v roots ≡ visit_all s v roots
unfolding mark_objects visit_all
mark_objects-eq-visit_all s v heap [] w kind covers clean nonnull = refl
mark_objects-eq-visit_all s v heap (p ∷ ps) w kind covers clean nonnull =
    let (t, v', step, d) = visit_lem s w v p kind clean.0 in
    ground (
      arith,
      step,
      mark_object-eq-visit s w v p kind nonnull.0,
      mark_objects-eq-visit_all t v' heap ps d.wf d.kind (Covers-Grows s t heap d.grows covers)
          (AllClean-Grows s t ps d.grows clean.1) nonnull.1,
    )

module _ (trace : ℕ → List ℕ) (s t : Space) (roots : List ℕ) (grows : Grows s t)
    (clear : (q : ℕ) → seen_at s q ≡ false)
    (only : (q : ℕ)
      → is_box s q ≡ true
      → seen_at t q ≡ true
      → (seen_at s q || (mem q roots && live_at s q)) ≡ true)
    (clean : AllClean s roots) (done : all_seen t roots ≡ true) where
  Reach-Reachable : {q : ℕ} → Reach trace t q → Reachable trace s roots q
  Reach-Reachable (root {p} b e) =
      let box : is_box s p ≡ true = sym (grows.start p) ∙ b in
      let found : (mem p roots ≡ true) × (live_at s p ≡ true) =
        ground (arith, only p box e, clear p) in
      from_root found.0 box found.1
  Reach-Reachable (next {p} {c} r m b l) =
      from_object (Reach-Reachable r) m (sym (grows.start c) ∙ b) (sym (grows.live c) ∙ l)

  Reachable-Reach : {q : ℕ} → Reachable trace s roots q → Reach trace t q
  Reachable-Reach (from_root {p} m b l) =
      root (grows.start p ∙ b) (all_seen-mem t roots p done m (grows.live p ∙ l))
  Reachable-Reach (from_object {p} {c} r m b l) =
      next (Reachable-Reach r) m (grows.start c ∙ b) (grows.live c ∙ l)

-- From a heap without marks, a major collection's marking ends, with as much fuel as there are
-- boxes, and marks exactly the boxes that the live roots lead to along live pointers; nothing else
-- of the heap changes. Roots and fields hold starts of boxes or dangling pointers, and no root is
-- null.
pub mark_major_roots_exact :
    (trace : ℕ → List ℕ) (fuel : ℕ) (s : Space) (roots heap : List ℕ)
    → IsWfSpace s
    → Covers s heap
    → ((q : ℕ) → seen_at s q ≡ false)
    → AllClean s roots
    → AllNonNull roots
    → ((p : ℕ) → is_box s p ≡ true → AllClean s (trace p))
    → unmarked s heap ≤ fuel
    → (t : Space) × (n : ℕ) × (mark_major_roots trace fuel s roots ≡ some (t, n))
      × Grows s t
      × IsWfSpace t
      × ((q : ℕ) → is_box s q ≡ true → (seen_at t q ≡ true) ↔ Reachable trace s roots q)
unfolding mark_major_roots new
mark_major_roots_exact trace fuel s roots heap w covers clear clean nonnull fields enough =
    let v : GcVisitor = record { kind = major; worklist = []; objects_marked = 0 } in
    let (t, v', run, m, done, only) = visit_all_lem s v heap roots w refl covers clean in
    let tri : IsTricolor trace t v' = record {
      wf = m.wf;
      kind = m.kind;
      clean = λ q b. AllClean-Grows s t (trace q) m.grows (fields q (sym (m.grows.start q) ∙ b));
      entries = m.entries tt;
      black = λ q b e. ground (arith, m.fresh q, m.grows.start q, clear q, e);
    } in
    let (u, v'', ends, empty, grows, wf_u, exact) =
      marking_exact trace fuel t v' heap (Covers-Grows s t heap m.grows covers) tri
        (omega (arith, m.measure)) in
    (
      u,
      v''.objects_marked,
      ground
          (arith, mark_objects-eq-visit_all s v heap roots w refl covers clean nonnull, run, ends),
      Grows-trans s t u m.grows grows,
      wf_u,
      λ q b. (
        (λ e.
            Reach-Reachable trace s t roots m.grows clear only clean done
              ((exact q (m.grows.start q ∙ b)).0 e)),
        (λ r.
            (exact q (m.grows.start q ∙ b)).1
              (Reachable-Reach trace s t roots m.grows clear only clean done r)),
      ),
    )
