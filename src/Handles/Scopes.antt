-- ===== src/Handles/Scopes.antt =====
-- The scopes of a thread, as the runs of their operations.
use rudo.Prelude.{ℕ, ◌≡◌, Bool, Option, some, List, [], ◌∷◌}
use rudo.Handles.{
  LocalHandles, HandleScope, EscapeableHandleScope, no_handles, new, handle, drop, new_escapeable,
  escape, new_sealed, drop_sealed,
}
use rudo.Handles.Frames.{Frame, FreshBlock}

-- The states that a thread's operations on handles reach: its storage, the slots of the handles that
-- can be used, and the open scopes, the innermost first, each with the slots that will be usable when
-- it is closed. New blocks overlap no other block.
pub data Reachable (debug : Bool)
    : LocalHandles → List ℕ → List (HandleScope × List ℕ) → Type 0 where
  started : Reachable debug no_handles [] []
  opened :
      {h h' : LocalHandles} {live : List ℕ} {outer : List (HandleScope × List ℕ)}
      {scope : HandleScope}
      → Reachable debug h live outer
      → new h ≡ some (scope, h')
      → Reachable debug h' live ((scope, live) ∷ outer)
  handled :
      {h h' : LocalHandles} {live : List ℕ} {outer : List (HandleScope × List ℕ)} (at gc_box : ℕ)
      {slot : ℕ}
      → Reachable debug h live outer
      → FreshBlock at h.blocks
      → handle debug at gc_box h ≡ some (slot, h')
      → Reachable debug h' (slot ∷ live) outer
  closed :
      {h : LocalHandles} {live kept : List ℕ} {outer : List (HandleScope × List ℕ)}
      {scope : HandleScope}
      → Reachable debug h live ((scope, kept) ∷ outer)
      → Reachable debug (drop scope h) kept outer
  opened_escapeable :
      {h h' : LocalHandles} {live : List ℕ} {outer : List (HandleScope × List ℕ)}
      {scope : EscapeableHandleScope} (at : ℕ)
      → Reachable debug h live outer
      → FreshBlock at h.blocks
      → new_escapeable debug at h ≡ some (scope, h')
      → Reachable debug h'
          (scope.escape_slot ∷ live)
          ((scope.inner, scope.escape_slot ∷ live) ∷ outer)
  escaped :
      {h h' : LocalHandles} {live : List ℕ} {outer : List (HandleScope × List ℕ)}
      (scope : EscapeableHandleScope) {scope' : EscapeableHandleScope} (slot : ℕ) {parent : ℕ}
      → Reachable debug h live outer
      → escape debug scope slot h ≡ some (parent, scope', h')
      → Reachable debug h' live outer
  sealed :
      {h : LocalHandles} {live : List ℕ} {outer : List (HandleScope × List ℕ)}
      → Reachable debug h live outer
      → Reachable debug (new_sealed debug h).1 live outer
  unsealed :
      {h : LocalHandles} {live : List ℕ} {outer : List (HandleScope × List ℕ)} (prev : ℕ)
      → Reachable debug h live outer
      → Reachable debug (drop_sealed debug prev h) live outer

abbrev pub Outer : List ℕ → Option ℕ → List (HandleScope × List ℕ) → Type 0
Outer blocks current [] = Unit
Outer blocks current ((scope, kept) ∷ outer) =
    Frame blocks current scope.prev_next scope.prev_limit kept × Outer blocks current outer

-- The frames of the running scope and of those around it.
abbrev pub Frames : LocalHandles → List ℕ → List (HandleScope × List ℕ) → Type 0
Frames h live outer =
    Frame h.blocks h.current_block h.scope_data.next h.scope_data.limit live
    × Outer h.blocks h.current_block outer
