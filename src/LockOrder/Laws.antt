-- ===== src/LockOrder/Laws.antt =====
-- Guards are taken in order of level, and guards that nest are tracked exactly.
use rudo.Prelude.{ℕ, ◌≤◌, ◌≡◌, ◌↔◌, false, some, List, [], ◌∷◌, arith}
use rudo.LockOrder.{LockOrder, LockOrderState, level, get_current_lock_level, new, drop, maximum}

abbrev pub AllLe : ℕ → List ℕ → Type 0
AllLe n [] = Unit
AllLe n (x ∷ xs) = (x ≤ n) × AllLe n xs

maximum-le : (n : ℕ) (xs : List ℕ) → AllLe n xs → maximum xs ≤ n
maximum-le n [] h = omega arith
maximum-le n (x ∷ xs) h = omega (arith, maximum-le n xs h.1)

AllLe-maximum : (n : ℕ) (xs : List ℕ) → maximum xs ≤ n → AllLe n xs
AllLe-maximum n [] h = tt
AllLe-maximum n (x ∷ xs) h = (omega arith, AllLe-maximum n xs (omega arith))

-- Each level on the stack is at least the levels below it.
abbrev pub IsOrdered : List ℕ → Type 0
IsOrdered [] = Unit
IsOrdered (x ∷ xs) = AllLe x xs × IsOrdered xs

-- While the thread is not shutting down, a guard is granted exactly if no level that the thread holds
-- is above the level of the lock.
granted_iff :
    (tag : LockOrder) (s : LockOrderState)
    → s.is_shutdown ≡ false
    → (new tag s ≡ some (record s { stack = level tag ∷ s.stack })) ↔ AllLe (level tag) s.stack
unfolding new
granted_iff tag s live = (
  (λ e. AllLe-maximum (level tag) s.stack (ground arith)),
  (λ h. ground (arith, maximum-le (level tag) s.stack h)),
)

-- A granted guard keeps the stack in order of level, reports the level of its lock as the current
-- one, and dropping it restores the state before.
pub guard_nests :
    (tag : LockOrder) (s t : LockOrderState)
    → s.is_shutdown ≡ false
    → IsOrdered s.stack
    → new tag s ≡ some t
    → IsOrdered t.stack × (get_current_lock_level t ≡ level tag) × (drop t ≡ s)
unfolding new get_current_lock_level drop
guard_nests tag s t live ordered e =
    let grown : t ≡ record s { stack = level tag ∷ s.stack } = ground arith in
    let below : maximum s.stack ≤ level tag = ground arith in
    rw grown ((AllLe-maximum (level tag) s.stack below, ordered), ground arith, ground arith)

-- Dropping the outer of two guards first takes the inner one's level off the stack: the lock of the
-- inner guard is still held, and the level of the outer one is reported.
pub outer_dropped_first :
    (outer inner : LockOrder) (s t u : LockOrderState)
    → s.is_shutdown ≡ false
    → s.stack ≡ []
    → new outer s ≡ some t
    → new inner t ≡ some u
    → get_current_lock_level (drop u) ≡ level outer
unfolding new get_current_lock_level drop
outer_dropped_first outer inner s t u live empty e f = ground arith
