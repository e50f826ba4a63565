-- ===== src/CrossThread/WeakOrigin.antt =====
-- Weak handles: where they resolve, and their counts.
use rudo.Prelude.{ℕ, ◌≡◌, Bool, true, Option, none, some}
use rudo.Mark.{Space}
use rudo.GcBox.{GcBox}
use rudo.Pointer.{Outcome, panicked, returned}
use rudo.Pointer.Guarded.{Passed, taken}
use rudo.CrossThread.{World}
use rudo.CrossThread.WeakHandle
use rudo.CrossThread.WeakHandle.{WeakCrossThreadHandle}

-- A pointer is given only on the origin thread, while that has its control block.
abbrev pub AtOrigin :
    Bool
    → (ℕ → Space → Space)
    → (GcBox → GcBox)
    → World
    → ℕ
    → WeakCrossThreadHandle
    → ℕ
    → Outcome World (Option (Option ℕ))
    → Type 0
AtOrigin late between during w cur h ptr (panicked t) = Unit
AtOrigin late between during w cur h ptr (returned none t) = Unit
AtOrigin late between during w cur h ptr (returned (some gc) t) =
    ((w.tcbs h.origin_tcb).alive ≡ true)
    × (cur ≡ h.origin_thread)
    × (gc ≡ some ptr)
    × Passed late between (taken during w.heap ptr) ptr (w.heap.boxes ptr).generation t.heap
