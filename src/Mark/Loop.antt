-- ===== src/Mark/Loop.antt =====
-- The marking loop ends within the marks and pushes that are left, and leaves nothing reachable
-- unmarked.
use rudo.Prelude.{
  mem, ℕ, zero, suc, ◌+◌, ◌≤◌, ◌≡◌, refl, sym, ◌∙◌, ap, true, some, List, [], ◌∷◌, arith, ◌⊎◌, ◌↔◌,
  inl, inr, length,
}
use rudo.Mark.{Space, GcVisitor, process, process_worklist}
use rudo.Mark.Step.{IsWfSpace, seen_at, live_at, is_box, Grows, Grows-refl, Grows-trans}
use rudo.Mark.Worklist.{all_seen, AllClean, unmarked, Covers, Covers-Grows}
use rudo.Mark.Tricolor.{IsTricolor, Closed, AllMarked, step_lem}

module _ (trace : ℕ → List ℕ) where
  worklist_cases :
      (wl : List (ℕ × ℕ))
      → (wl ≡ []) ⊎ ((p : ℕ) × (g : ℕ) × (rest : List (ℕ × ℕ)) × (wl ≡ (p, g) ∷ rest))
  worklist_cases [] = inl refl
  worklist_cases ((p, g) ∷ rest) = inr (p, g, rest, refl)

  Closed-Grows : (P : ℕ → Type 0) (s t : Space) → Grows s t → Closed trace P s → Closed trace P t
  Closed-Grows P s t grows closed p c h b m l =
      closed p c h (sym (grows.start p) ∙ b) m (sym (grows.live c) ∙ l)

  loop_step :
      (fuel : ℕ) (s t : Space) (v v' : GcVisitor) (p g : ℕ) (rest : List (ℕ × ℕ))
      → v.worklist ≡ (p, g) ∷ rest
      → process trace s (record v { worklist = rest }) p g ≡ some (t, v')
      → process_worklist trace (suc fuel) s v ≡ process_worklist trace fuel t v'
  unfolding process_worklist
  loop_step fuel s t v v' p g rest e run = ground (arith, e, run)

  -- With the marks and entries that are left as fuel, the loop of `process_worklist` ends with an
  -- empty worklist, on a heap in which more is marked and nothing else has changed, and no marked
  -- object points to a live one that is not marked.
  pub process_worklist_ends :
      (P : ℕ → Type 0) (fuel : ℕ) (s : Space) (v : GcVisitor) (heap : List ℕ)
      → Covers s heap
      → IsTricolor trace s v
      → unmarked s heap + length v.worklist ≤ fuel
      → Closed trace P s
      → AllMarked trace P s
      → (t : Space) × (v' : GcVisitor) × (process_worklist trace fuel s v ≡ some (t, v'))
        × (v'.worklist ≡ [])
        × IsTricolor trace t v'
        × Grows s t
        × AllMarked trace P t
  unfolding process_worklist
  process_worklist_ends P zero s v heap covers tri enough closed marked =
      elim (worklist_cases v.worklist) [
        | inl done ↦ (s, v, rw done refl, done, tri, Grows-refl s, marked)
        | inr (p, g, rest, e) ↦ absurd (omega (arith, ap (λ (wl : List (ℕ × ℕ)). length wl) e))
      ]
  process_worklist_ends P (suc fuel) s v heap covers tri enough closed marked =
      elim (worklist_cases v.worklist) [
        | inl done ↦ (s, v, rw done refl, done, tri, Grows-refl s, marked)
        | inr (p, g, rest, e) ↦
            let (t, v', run, tri', grows, less, marked') =
              step_lem trace P s v heap p g rest covers tri e closed marked in
            let (u, v'', ends, empty, tri'', grows', marked'') =
              process_worklist_ends P fuel t v' heap (Covers-Grows s t heap grows covers) tri'
                (omega arith) (Closed-Grows P s t grows closed) marked' in
            (
              u,
              v'',
              loop_step fuel s t v v' p g rest e run ∙ ends,
              empty,
              tri'',
              Grows-trans s t u grows grows',
              marked'',
            )
      ]

-- What can be reached from the marked boxes of a heap along live pointers.
pub data Reach (trace : ℕ → List ℕ) (s : Space) : ℕ → Type 0 where
  root : {p : ℕ} → is_box s p ≡ true → seen_at s p ≡ true → Reach trace s p
  next :
      {p c : ℕ}
      → Reach trace s p
      → mem c (trace p) ≡ true
      → is_box s c ≡ true
      → live_at s c ≡ true
      → Reach trace s c

pub all_seen-mem :
    (s : Space) (cs : List ℕ) (c : ℕ)
    → all_seen s cs ≡ true
    → mem c cs ≡ true
    → live_at s c ≡ true
    → seen_at s c ≡ true
all_seen-mem s [] c a m l = cc
all_seen-mem s (d ∷ ds) c a m l = ground (arith, all_seen-mem s ds c)

Reach-is_box : {trace : ℕ → List ℕ} {s : Space} {q : ℕ} → Reach trace s q → is_box s q ≡ true
Reach-is_box (root b e) = b
Reach-is_box (next r m b l) = b

Reach-seen :
    (trace : ℕ → List ℕ) (s t : Space) (v : GcVisitor) {q : ℕ}
    → IsTricolor trace t v
    → v.worklist ≡ []
    → Grows s t
    → Reach trace s q
    → seen_at t q ≡ true
Reach-seen trace s t v {q} tri done grows (root b e) = grows.more q e
Reach-seen trace s t v {q} tri done grows (next {p} r m b l) =
    let box : is_box t p ≡ true = grows.start p ∙ Reach-is_box r in
    let here : seen_at t p ≡ true = Reach-seen trace s t v tri done grows r in
    all_seen-mem t (trace p) q (rw done at (tri.black p box here)) m (grows.live q ∙ l)

clean_box :
    (s : Space) (cs : List ℕ) (c : ℕ)
    → AllClean s cs
    → mem c cs ≡ true
    → live_at s c ≡ true
    → is_box s c ≡ true
clean_box s [] c a m l = cc
clean_box s (d ∷ ds) c a m l = ground (arith, clean_box s ds c)

-- Marking from a heap whose marked objects all wait on the worklist or point to marked objects
-- ends, with as much fuel as there are unmarked boxes and waiting entries, and marks exactly the
-- boxes that can be reached from the marked ones along live pointers; nothing else of the heap
-- changes.
pub marking_exact :
    (trace : ℕ → List ℕ) (fuel : ℕ) (s : Space) (v : GcVisitor) (heap : List ℕ)
    → Covers s heap
    → IsTricolor trace s v
    → unmarked s heap + length v.worklist ≤ fuel
    → (t : Space) × (v' : GcVisitor) × (process_worklist trace fuel s v ≡ some (t, v'))
      × (v'.worklist ≡ [])
      × Grows s t
      × IsWfSpace t
      × ((q : ℕ) → is_box s q ≡ true → (seen_at t q ≡ true) ↔ Reach trace s q)
marking_exact trace fuel s v heap covers tri enough =
    let closed : Closed trace (Reach trace s) s =
      λ p c r b m l. next r m (clean_box s (trace p) c (tri.clean p b) m l) l in
    let (t, v', run, done, tri', grows, only) =
      process_worklist_ends trace (Reach trace s) fuel s v heap covers tri enough closed
        (λ q b e. root b e) in
    (
      t,
      v',
      run,
      done,
      grows,
      tri'.wf,
      λ q b. (
        (λ seen. only q (grows.start q ∙ b) seen),
        (λ r. Reach-seen trace s t v' tri' done grows r),
      ),
    )
