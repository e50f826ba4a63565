-- ===== src/Incremental/Tests.antt =====
-- The state that a process starts with, and a cycle from it.
use rudo.Prelude.{ℕ, ◌≤◌, ◌≡◌, refl, true, List, [], ◌∷◌}
use rudo.Incremental.{
  MarkPhase, idle, snapshot, marking, final_mark, sweeping, new, phase, transition_to,
}
use rudo.Incremental.Phases.{run, visits, sweeps-le-final_marks}

abbrev cycle : List MarkPhase
cycle = snapshot ∷ marking ∷ final_mark ∷ marking ∷ final_mark ∷ sweeping ∷ idle ∷ []

start_idle : phase new ≡ idle
unfolding new phase
start_idle = refl

cycle_runs : (run new cycle).0 ≡ true
unfolding new transition_to
cycle_runs = refl

sweeps-le-final_marks_example : visits sweeping cycle ≤ visits final_mark cycle
sweeps-le-final_marks_example = sweeps-le-final_marks new cycle start_idle cycle_runs

abbrev roots : List ℕ
roots = 4096 ∷ 8192 ∷ []
