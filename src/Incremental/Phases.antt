-- ===== src/Incremental/Phases.antt =====
-- The phase machine: which transitions `transition_to` makes, and what runs of it look like.
use rudo.Prelude.{
  ℕ, ◌+◌, ◌≤◌, ◌≡◌, refl, ◌↔◌, Bool, true, false, List, [], ◌∷◌, arith, ◌==◌, if◌then◌else◌,
  Bool-cases, inl, inr, ap,
}
use rudo.Incremental.{
  MarkPhase, idle, snapshot, marking, final_mark, sweeping, to_usize, IncrementalMarkState, phase,
  is_valid_transition, transition_to, decode_phase,
}

-- The edges of the cycle, with the ways back to marking.
pub data Edge : MarkPhase → MarkPhase → Type 0 where
  begin : Edge idle snapshot
  mark : Edge snapshot marking
  slice : Edge marking marking
  remark : Edge final_mark marking
  close : Edge marking final_mark
  sweep : Edge final_mark sweeping
  finish : Edge sweeping idle

edge-valid : {p q : MarkPhase} → Edge p q → is_valid_transition p q ≡ true
unfolding is_valid_transition
edge-valid begin = refl
edge-valid mark = refl
edge-valid slice = refl
edge-valid remark = refl
edge-valid close = refl
edge-valid sweep = refl
edge-valid finish = refl

valid-edge : (p q : MarkPhase) → is_valid_transition p q ≡ true → Edge p q
unfolding is_valid_transition
valid-edge idle snapshot e = begin
valid-edge snapshot marking e = mark
valid-edge marking marking e = slice
valid-edge final_mark marking e = remark
valid-edge marking final_mark e = close
valid-edge final_mark sweeping e = sweep
valid-edge sweeping idle e = finish
valid-edge _ _ e = cc

decode-to_usize : (p : MarkPhase) → decode_phase (to_usize p) ≡ p
decode-to_usize idle = refl
decode-to_usize snapshot = refl
decode-to_usize marking = refl
decode-to_usize final_mark = refl
decode-to_usize sweeping = refl

-- `transition_to` succeeds exactly along an edge of the cycle; it then stands in the new phase with
-- every other field as it was, and a refused transition changes nothing.
pub transition_to_exact :
    (s : IncrementalMarkState) (p : MarkPhase)
    → ((transition_to s p).0 ≡ true ↔ Edge (phase s) p)
      × ((transition_to s p).1
          ≡ (if (transition_to s p).0 then record s { phase = to_usize p } else s))
      × (phase (transition_to s p).1 ≡ (if (transition_to s p).0 then p else phase s))
unfolding transition_to phase
transition_to_exact s p = (
  (
    (λ e. valid-edge (decode_phase s.phase) p (ground arith)),
    (λ edge. ground (arith, edge-valid edge)),
  ),
  ground arith,
  ground (arith, decode-to_usize p),
)

-- Tries the transitions in turn and stops at the first that is refused.
abbrev pub run : IncrementalMarkState → List MarkPhase → Bool × IncrementalMarkState
run s [] = (true, s)
run s (p ∷ ps) =
    let (ok, s') = transition_to s p in elim ok [ true ↦ run s' ps | false ↦ (false, s) ]

abbrev pub visits : MarkPhase → List MarkPhase → ℕ
visits p [] = 0
visits p (q ∷ qs) = (if to_usize p == to_usize q then 1 else 0) + visits p qs

-- What a phase owes: a sweep that has not had its final mark.
abbrev credit : MarkPhase → ℕ
credit final_mark = 1
credit _ = 0

edge_credit :
    {p q : MarkPhase}
    → Edge p q
    → visits sweeping (q ∷ []) + credit q ≤ visits final_mark (q ∷ []) + credit p
edge_credit begin = omega arith
edge_credit mark = omega arith
edge_credit slice = omega arith
edge_credit remark = omega arith
edge_credit close = omega arith
edge_credit sweep = omega arith
edge_credit finish = omega arith

sweeps_from :
    (s : IncrementalMarkState) (ps : List MarkPhase)
    → (run s ps).0 ≡ true
    → visits sweeping ps ≤ visits final_mark ps + credit (phase s)
sweeps_from s [] e = omega arith
sweeps_from s (p ∷ ps) e = elim (Bool-cases (transition_to s p).0) [
  | inl ok ↦
      let exact = transition_to_exact s p in
      omega (
        arith,
        sweeps_from (transition_to s p).1 ps (rw (ok, run) at e),
        edge_credit (exact.0.0 ok),
        ap credit (rw ok at exact.2),
      )
  | inr refused ↦ cc (rw (refused, run) at e)
]

-- In every run of transitions that all succeed, from an idle state, there are no more sweeps than
-- final marks.
pub sweeps-le-final_marks :
    (s : IncrementalMarkState) (ps : List MarkPhase)
    → phase s ≡ idle
    → (run s ps).0 ≡ true
    → visits sweeping ps ≤ visits final_mark ps
sweeps-le-final_marks s ps start e = ground (arith, sweeps_from s ps e)
