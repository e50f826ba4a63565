-- ===== src/Handles/Reach.antt =====
-- Every state that a thread's operations on handles reach has the frames of its scopes.
use rudo.Prelude.{
  ℕ, ◌+◌, ◌≡◌, refl, subst, Bool, true, false, ◌&&◌, not, Option, none, some, List, [], ◌∷◌, inl,
  inr, ◌==◌, arith, Bool-cases, ◌>>=◌,
}
use rudo.Handles.{
  LocalHandles, HandleScope, EscapeableHandleScope, allocate, set_slot, new, handle, drop,
  new_escapeable, escape, new_sealed, drop_sealed, prev_bounds, first_end,
}
use rudo.Handles.Frames.{Frame}
use rudo.Handles.Scopes.{
  started, opened, handled, closed, opened_escapeable, escaped, sealed, unsealed, Reachable, Frames,
}
use rudo.Handles.Slots.{AllTaken, allocate-AllTaken}

idle-Frame : (blocks : List ℕ) (current : Option ℕ) (n : ℕ) → Frame blocks current n n []
idle-Frame blocks current n = record {
  placed = λ s m. absurd (ground (arith, m));
  bounded = λ s m l u. absurd (ground (arith, m));
  below = λ s c m e there. absurd (ground (arith, m));
  within = λ lt. absurd (omega (arith, lt));
  inactive = λ z. refl;
}

prev-Frame :
    (h : LocalHandles) (live : List ℕ)
    → Frame h.blocks h.current_block h.scope_data.next h.scope_data.limit live
    → Frame h.blocks h.current_block (prev_bounds h).0 (prev_bounds h).1 live
prev-Frame h live f = elim (Bool-cases (h.scope_data.next == 0)) [
  | inl z ↦
      let empty : live ≡ [] = f.inactive (ground (arith, z)) in
      rw z (rw empty (idle-Frame h.blocks h.current_block (first_end h.blocks)))
  | inr n ↦ rw n f
]

-- What opening a scope does.
abbrev AllOpened :
    LocalHandles
    → List ℕ
    → List (HandleScope × List ℕ)
    → Option (HandleScope × LocalHandles)
    → Type 0
AllOpened h live outer none = Unit
AllOpened h live outer (some (scope, h')) = Frames h' live ((scope, live) ∷ outer)

new-AllOpened :
    (h : LocalHandles) (live : List ℕ) (outer : List (HandleScope × List ℕ))
    → Frames h live outer
    → AllOpened h live outer (new h)
unfolding new
new-AllOpened h live outer f = elim (Bool-cases (h.scope_data.level + 1 == 4294967296)) [
  | inl full ↦ rw full tt
  | inr room ↦ rw room (f.0, (prev-Frame h live f.0, f.1))
]

-- The same of a scope from which a handle can escape.
abbrev AllEscapeable :
    List ℕ → List (HandleScope × List ℕ) → Option (EscapeableHandleScope × LocalHandles) → Type 0
AllEscapeable live outer none = Unit
AllEscapeable live outer (some (scope, h')) =
    Frames h' (scope.escape_slot ∷ live) ((scope.inner, scope.escape_slot ∷ live) ∷ outer)

AllEscapeable-of_taken :
    (live : List ℕ) (outer : List (HandleScope × List ℕ)) (h : LocalHandles)
    (taken : Option (ℕ × LocalHandles))
    → AllTaken h live outer taken
    → AllEscapeable live outer (
        taken >>= λ (slot, h1). new h1 >>= λ (inner, h2). some (
          record {
            inner = inner;
            escaped = false;
            escape_slot = slot;
            parent_level = h1.scope_data.level;
          },
          h2,
        ))
AllEscapeable-of_taken live outer h none t = tt
AllEscapeable-of_taken live outer h (some (slot, h1)) t =
    go (new h1) (new-AllOpened h1 (slot ∷ live) outer t.frames)
  where
    go :
        (opened : Option (HandleScope × LocalHandles))
        → AllOpened h1 (slot ∷ live) outer opened
        → AllEscapeable live outer (
            opened >>= λ (inner, h2). some (
              record {
                inner = inner;
                escaped = false;
                escape_slot = slot;
                parent_level = h1.scope_data.level;
              },
              h2,
            ))
    go none o = tt
    go (some (inner, h2)) o = o

abbrev AllHandled :
    LocalHandles → List ℕ → List (HandleScope × List ℕ) → Option (ℕ × LocalHandles) → Type 0
AllHandled h live outer none = Unit
AllHandled h live outer (some (slot, h')) = Frames h' (slot ∷ live) outer

AllHandled-of_taken :
    (live : List ℕ) (outer : List (HandleScope × List ℕ)) (h : LocalHandles) (gc_box : ℕ)
    (taken : Option (ℕ × LocalHandles))
    → AllTaken h live outer taken
    → AllHandled h live outer (taken >>= λ (slot, h'). some (slot, set_slot h' slot gc_box))
AllHandled-of_taken live outer h gc_box none t = tt
AllHandled-of_taken live outer h gc_box (some (slot, h1)) t = t.frames

-- Escaping and sealing leave the frames.
abbrev SameFrames :
    List ℕ
    → List (HandleScope × List ℕ)
    → Option (ℕ × EscapeableHandleScope × LocalHandles)
    → Type 0
SameFrames live outer none = Unit
SameFrames live outer (some (slot, scope, h')) = Frames h' live outer

escape-SameFrames :
    (debug : Bool) (scope : EscapeableHandleScope) (slot : ℕ) (h : LocalHandles) (live : List ℕ)
    (outer : List (HandleScope × List ℕ))
    → Frames h live outer
    → SameFrames live outer (escape debug scope slot h)
unfolding escape
escape-SameFrames debug scope slot h live outer f = elim (Bool-cases scope.escaped) [
  | inl done ↦ rw done tt
  | inr first ↦ elim (Bool-cases (debug && not (scope.parent_level + 1 == h.scope_data.level))) [
    | inl other ↦ rw first (rw other tt)
    | inr parent ↦ rw first (rw parent f)
  ]
]

sealed-Frames :
    (debug : Bool) (h : LocalHandles) (live : List ℕ) (outer : List (HandleScope × List ℕ))
    (prev : ℕ)
    → Frames h live outer
    → Frames (new_sealed debug h).1 live outer × Frames (drop_sealed debug prev h) live outer
unfolding new_sealed drop_sealed
sealed-Frames true h live outer prev f = (f, f)
sealed-Frames false h live outer prev f = (f, f)

-- Every reachable state has the frames of its scopes.
pub Reachable-Frames :
    (debug : Bool) {h : LocalHandles} {live : List ℕ} {outer : List (HandleScope × List ℕ)}
    → Reachable debug h live outer
    → Frames h live outer
unfolding handle new_escapeable drop
Reachable-Frames debug started = (idle-Frame [] none 0, tt)
Reachable-Frames debug (opened {h} {h'} {live} {outer} r e) =
    subst (AllOpened h live outer) e (new-AllOpened h live outer (Reachable-Frames debug r))
Reachable-Frames debug (handled {h} {h'} {live} {outer} at gc_box r fresh e) =
    subst (AllHandled h live outer) e (
      AllHandled-of_taken live outer h gc_box (allocate debug at h)
        (allocate-AllTaken debug h live outer at fresh (Reachable-Frames debug r)))
Reachable-Frames debug (closed r) = (Reachable-Frames debug r).1
Reachable-Frames debug (opened_escapeable {h} {h'} {live} {outer} at r fresh e) =
    subst (AllEscapeable live outer) e (
      AllEscapeable-of_taken live outer h (allocate debug at h)
        (allocate-AllTaken debug h live outer at fresh (Reachable-Frames debug r)))
Reachable-Frames debug (escaped {h} {h'} {live} {outer} scope slot r e) =
    subst (SameFrames live outer) e
      (escape-SameFrames debug scope slot h live outer (Reachable-Frames debug r))
Reachable-Frames debug (sealed {h} {live} {outer} r) =
    (sealed-Frames debug h live outer 0 (Reachable-Frames debug r)).0
Reachable-Frames debug (unsealed {h} {live} {outer} prev r) =
    (sealed-Frames debug h live outer prev (Reachable-Frames debug r)).1
