-- ===== src/Mark/Tricolor.antt =====
-- One round of the marking loop keeps the invariant of the marked objects.
use rudo.Prelude.{
  mem, ℕ, ◌+◌, ◌<◌, ◌≡◌, sym, ◌∙◌, true, ◌||◌, some, List, ◌∷◌, arith, Bool-cases, Option-cases,
  inl, inr, length,
}
use rudo.Mark.{Space, GcVisitor, major, index_of, visit_all, process}
use rudo.Mark.Step.{IsWfSpace, seen_at, live_at, is_box, Grows}
use rudo.Mark.Visit.{index-magic, slot_steps}
use rudo.Mark.Worklist.{
  queued, all_seen, AllClean, unmarked, Covers, Entries, visit_all_lem, AllClean-Grows,
  all_seen-Grows,
}

module _ (trace : ℕ → List ℕ) where
  -- Each marked object waits on the worklist, or all live objects that it points to are marked. A
  -- trace function visits null, dangling pointers and starts of boxes.
  pub record IsTricolor (s : Space) (v : GcVisitor) : Type 0 where
    pub wf : IsWfSpace s
    pub kind : v.kind ≡ major
    pub clean : (p : ℕ) → is_box s p ≡ true → AllClean s (trace p)
    pub entries : Entries s v.worklist
    pub black :
        (q : ℕ)
        → is_box s q ≡ true
        → seen_at s q ≡ true
        → (queued q v.worklist || all_seen s (trace q)) ≡ true

  process_lem :
      (s : Space) (v : GcVisitor) (p g : ℕ)
      → IsWfSpace s
      → is_box s p ≡ true
      → live_at s p ≡ true
      → seen_at s p ≡ true
      → g ≡ (s.boxes p).generation
      → process trace s v p g ≡ visit_all s v (trace p)
  unfolding process
  process_lem s v p g w box live seen gen = elim (Option-cases (index_of s p)) [
    | inl e ↦ ground (arith, e)
    | inr (i, at) ↦ ground (arith, slot_steps s w p i at, index-magic s p i at)
  ]

  -- `P` holds of the live objects that objects with `P` point to.
  abbrev pub Closed : (ℕ → Type 0) → Space → Type 0
  Closed P s =
      (p c : ℕ) → P p → is_box s p ≡ true → mem c (trace p) ≡ true → live_at s c ≡ true → P c

  abbrev pub AllMarked : (ℕ → Type 0) → Space → Type 0
  AllMarked P s = (q : ℕ) → is_box s q ≡ true → seen_at s q ≡ true → P q

  pub step_lem :
      (P : ℕ → Type 0) (s : Space) (v : GcVisitor) (heap : List ℕ) (p g : ℕ) (rest : List (ℕ × ℕ))
      → Covers s heap
      → IsTricolor s v
      → v.worklist ≡ (p, g) ∷ rest
      → Closed P s
      → AllMarked P s
      → (t : Space) × (v' : GcVisitor) × (process trace s (record v { worklist = rest }) p g
          ≡ some (t, v'))
        × IsTricolor t v'
        × Grows s t
        × (unmarked t heap + length v'.worklist < unmarked s heap + length v.worklist)
        × AllMarked P t
  step_lem P s v heap p g rest covers tri e closed marked =
      let entries : Entries s ((p, g) ∷ rest) = rw e at tri.entries in
      let (t, v', run, m, seen, only) =
        visit_all_lem s (record v { worklist = rest }) heap (trace p) tri.wf tri.kind covers
          (tri.clean p entries.0) in
      (
        t,
        v',
        process_lem s (record v { worklist = rest }) p g tri.wf entries.0 entries.1 entries.2
              entries.3
            ∙ run,
        record {
          wf = m.wf;
          kind = m.kind;
          clean =
              λ q b. AllClean-Grows s t (trace q) m.grows (tri.clean q (sym (m.grows.start q) ∙ b));
          entries = m.entries entries.4;
          black = λ q b now.
              let was : seen_at s q ≡ true
                  → (queued q ((p, g) ∷ rest) || all_seen s (trace q)) ≡ true =
                λ old. rw e at (tri.black q (sym (m.grows.start q) ∙ b) old) in
              ground (
                arith,
                m.fresh q,
                m.grows.start q,
                was,
                m.kept q,
                all_seen-Grows s t (trace q) m.grows,
                seen,
              );
        },
        m.grows,
        ground (arith, m.measure, e),
        λ q b now.
            let box : is_box s q ≡ true = sym (m.grows.start q) ∙ b in
            elim (Bool-cases (seen_at s q)) [
              | inl old ↦ marked q box old
              | inr new ↦
                  let found : (mem q (trace p) ≡ true) × (live_at s q ≡ true) =
                    ground (arith, only q box now, new) in
                  closed p q (marked p entries.0 entries.2) entries.0 found.0 found.1
            ],
      )
