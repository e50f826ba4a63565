-- ===== src/Handles/Slots.antt =====
-- Taking a slot for a handle.
use rudo.Prelude.{
  ℕ, ◌+◌, ◌<◌, ◌≡◌, refl, Bool, true, false, ◌&&◌, ◌||◌, Option, none, some, List, [], ◌∷◌, ◌++◌,
  inl, inr, mem, ltb, leb, ◌==◌, arith, Bool-cases,
}
use rudo.Handles.{
  LocalHandles, HandleScope, handle_block_size, allocate, is_sealed, set_bounds, add_block,
}
use rudo.Handles.Frames.{FreshBlock, InBlock, grow, take_next, take_first, apart}
use rudo.Handles.Scopes.{Outer, Frames}

grow-Outer :
    (blocks : List ℕ) (current : Option ℕ) (at : ℕ) (outer : List (HandleScope × List ℕ))
    → FreshBlock at blocks
    → Outer blocks current outer
    → Outer (blocks ++ (at ∷ [])) (some at) outer
grow-Outer blocks current at [] fresh o = tt
grow-Outer blocks current at ((scope, kept) ∷ outer) fresh o = (
  grow blocks current scope.prev_next scope.prev_limit kept at fresh o.0,
  grow-Outer blocks current at outer fresh o.1,
)

-- What taking a slot does.
pub record Taken (h : LocalHandles) (live : List ℕ) (outer : List (HandleScope × List ℕ)) (slot : ℕ)
    (h' : LocalHandles) : Type 0 where
  pub frames : Frames h' (slot ∷ live) outer
  pub unused : mem slot live ≡ false
  pub others : (s : ℕ) → mem s live ≡ true → h'.slots s ≡ h.slots s

abbrev pub AllTaken :
    LocalHandles → List ℕ → List (HandleScope × List ℕ) → Option (ℕ × LocalHandles) → Type 0
AllTaken h live outer none = Unit
AllTaken h live outer (some (slot, h')) = Taken h live outer slot h'

module _ (debug : Bool) (h : LocalHandles) (live : List ℕ) (outer : List (HandleScope × List ℕ))
    (at : ℕ) (fresh : FreshBlock at h.blocks) (f : Frames h live outer) where
  full : Bool
  full = leb h.scope_data.limit h.scope_data.next || (h.scope_data.next == 0)

  not_at : (s : ℕ) → mem s live ≡ true → InBlock at s → ⊥
  not_at s m there = let (b, mb, here) = f.0.placed s m in apart at h.blocks b s fresh mb here there

  first-Taken :
      Taken h live outer at (set_bounds (add_block at h).1 (at + 1) (at + handle_block_size))
  unfolding add_block
  first-Taken = record {
    frames = (
      take_first h.blocks h.current_block h.scope_data.next h.scope_data.limit live at fresh f.0,
      grow-Outer h.blocks h.current_block at outer fresh f.1,
    );
    unused = elim (Bool-cases (mem at live)) [
      | inl m ↦ absurd (not_at at m (omega arith, omega arith))
      | inr n ↦ n
    ];
    others = λ s m. elim (Bool-cases (leb at s && ltb s (at + handle_block_size))) [
      | inl there ↦ absurd (not_at s m (ground (arith, there)))
      | inr out ↦ rw out refl
    ];
  }

  next-Taken :
      h.scope_data.next < h.scope_data.limit
      → Taken h live outer h.scope_data.next
          (set_bounds h (h.scope_data.next + 1) h.scope_data.limit)
  next-Taken room = record {
    frames = (
      take_next h.blocks h.current_block h.scope_data.next h.scope_data.limit live f.0 room,
      f.1,
    );
    unused = elim (Bool-cases (mem h.scope_data.next live)) [
      | inl m ↦
          let (b, mb, e, le) = f.0.within room in
          absurd (omega (arith, f.0.bounded h.scope_data.next m (omega (arith, e, le)) room))
      | inr n ↦ n
    ];
    others = λ s m. refl;
  }

  pub allocate-AllTaken : AllTaken h live outer (allocate debug at h)
  unfolding allocate add_block full
  allocate-AllTaken = elim (Bool-cases (is_sealed debug h.scope_data)) [
    | inl s ↦ rw s tt
    | inr n ↦ elim (Bool-cases full) [
      | inl more ↦ rw n (rw more first-Taken)
      | inr room ↦ rw n (rw room (next-Taken (ground (arith, room))))
    ]
  ]
