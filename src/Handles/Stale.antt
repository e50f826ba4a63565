-- ===== src/Handles/Stale.antt =====
-- Slots of closed scopes that are visited all the same.
use rudo.Prelude.{
  ℕ, zero, suc, ◌+◌, ◌≤◌, ◌<◌, ◌≡◌, ◌≢◌, refl, ◌∙◌, ap, Bool, true, false, ◌&&◌, none, some, [],
  ◌∷◌, inl, inr, ltb, leb, ◌==◌, if◌then◌else◌, arith,
}
use rudo.Handles.{
  LocalHandles, HandleScope, no_handles, handle_block_size, allocate, add_block, is_sealed, new,
  handle, drop, visited_slots, visit_slots, iterate_from, iterate,
}
use rudo.Handles.Frames.{FreshBlock}

visit-null :
    (slots : ℕ → ℕ) (n p : ℕ)
    → ((s : ℕ) → p ≤ s → s < p + n → slots s ≡ 0)
    → visit_slots slots p n ≡ []
unfolding visit_slots
visit-null slots zero p h = refl
visit-null slots (suc n) p h = ground (
  arith,
  h p (omega arith) (omega arith),
  visit-null slots n (p + 1) (λ s l u. h s (omega (arith, l)) (omega (arith, u))),
)

visit-first :
    (slots : ℕ → ℕ) (p : ℕ)
    → slots p ≢ 0
    → ((s : ℕ) → p < s → s < p + handle_block_size → slots s ≡ 0)
    → visit_slots slots p handle_block_size ≡ slots p ∷ []
unfolding visit_slots
visit-first slots p ne h =
    ground
      (arith, visit-null slots 255 (p + 1) (λ s l u. h s (omega (arith, l)) (omega (arith, u))))

module _ (debug : Bool) (a x : ℕ) where
  unsealed : is_sealed debug (record { next = 0; limit = 0; level = 1; sealed_level = 0 }) ≡ false
  unsealed = ground arith

  -- The storage while the first scope of a thread, with the handle of `x` in the block at `a`, is open.
  abbrev pub first_open : LocalHandles
  first_open = record {
    blocks = a ∷ [];
    current_block = some a;
    scope_data = record {
      next = a + 1;
      limit = a + handle_block_size;
      level = 1;
      sealed_level = 0;
    };
    slots = λ s. if s == a then x else if leb a s && ltb s (a + handle_block_size) then 0 else 0;
  }

  abbrev pub first_scope : HandleScope
  first_scope = record { prev_next = 0; prev_limit = 0; prev_level = 0 }

  abbrev first_closed : LocalHandles
  first_closed = record first_open {
    scope_data = record { next = 0; limit = 0; level = 0; sealed_level = 0 };
  }

  abbrev pub first_start : LocalHandles
  first_start = record no_handles {
    scope_data = record { next = 0; limit = 0; level = 1; sealed_level = 0 };
  }

  first_closed-iterate : 1 ≤ a → iterate first_closed ≡ some []
  unfolding iterate iterate_from visit_slots
  first_closed-iterate pos = ground (arith, pos)

  module _ (b y : ℕ) where
    abbrev second_open : LocalHandles
    second_open = record {
      blocks = a ∷ b ∷ [];
      current_block = some b;
      scope_data = record {
        next = b + 1;
        limit = b + handle_block_size;
        level = 1;
        sealed_level = 0;
      };
      slots = λ s.
          if s == b
          then y
          else if leb b s && ltb s (b + handle_block_size)
          then 0
          else first_closed.slots s;
    }

    abbrev second_scope : HandleScope
    second_scope = record {
      prev_next = a + handle_block_size;
      prev_limit = a + handle_block_size;
      prev_level = 0;
    }

    abbrev second_start : LocalHandles
    second_start = record first_closed { scope_data = record first_closed.scope_data { level = 1 } }

    -- A slot of the first block is none of the second.
    first_slots :
        FreshBlock b (a ∷ [])
        → (s : ℕ) → a ≤ s
        → s < a + handle_block_size
        → second_open.slots s ≡ (if s == a then x else 0)
    first_slots fresh s l u = elim (fresh.1 a (ground arith)) [
      | inl below ↦ ground (arith, below, l, u)
      | inr above ↦ ground (arith, above, l, u)
    ]

    first_visited :
        FreshBlock b (a ∷ []) → x ≢ 0 → visit_slots second_open.slots a handle_block_size ≡ x ∷ []
    first_visited fresh hx =
        let here : second_open.slots a ≡ x =
          ground (arith, first_slots fresh a (omega arith) (omega arith)) in
        visit-first second_open.slots a (rw here hx)
          (λ s l u. ground (arith, first_slots fresh s (omega (arith, l)) u, l))
        ∙ ap (λ (v : ℕ). v ∷ []) here

    others : FreshBlock b (a ∷ []) → (b == a) ≡ false
    others fresh = elim (fresh.1 a (ground arith)) [
      | inl below ↦ ground (arith, below)
      | inr above ↦ ground (arith, above)
    ]

    second_visited : y ≢ 0 → visit_slots second_open.slots b 1 ≡ y ∷ []
    unfolding visit_slots
    second_visited hy = ground (arith, hy)

    second_iterate : FreshBlock b (a ∷ []) → x ≢ 0 → y ≢ 0 → iterate second_open ≡ some (x ∷ y ∷ [])
    unfolding iterate iterate_from
    second_iterate fresh hx hy =
        let one : visited_slots second_open b ≡ 1 = ground arith in
        let all : visited_slots second_open a ≡ handle_block_size = ground (arith, others fresh) in
        rw one (rw all (rw (first_visited fresh hx) (rw (second_visited hy) refl)))

    third_visited :
        FreshBlock b (a ∷ [])
        → x ≢ 0
        → iterate (drop second_scope second_open)
          ≡ (if leb (b + handle_block_size) a then none else some (x ∷ []))
    unfolding iterate iterate_from drop visit_slots
    third_visited fresh hx =
        let all : visited_slots (drop second_scope second_open) a ≡ handle_block_size =
          ground (arith, others fresh) in
        elim (fresh.1 a (ground arith)) [
          | inl below ↦
              let test : leb (b + handle_block_size) a ≡ false = ground (arith, below) in
              let over : ltb handle_block_size (visited_slots (drop second_scope second_open) b)
                  ≡ false =
                ground (arith, below) in
              let no_rounds : visited_slots (drop second_scope second_open) b ≡ 0 =
                ground (arith, below) in
              rw test (rw no_rounds (rw all (rw (first_visited fresh hx) refl)))
          | inr above ↦
              let test : leb (b + handle_block_size) a ≡ true = ground (arith, above) in
              let over : ltb handle_block_size (visited_slots (drop second_scope second_open) b)
                  ≡ true =
                ground (arith, above) in
              rw test (rw over refl)
        ]

-- A thread opens a scope, makes a handle of `x` and closes the scope; iterating then visits nothing.
-- If it opens a scope again and makes a handle of `y`, iterating visits `x` too, of which no handle can
-- be used any more. When that scope is closed as well, iterating still visits `x` if the second block
-- lies above the first, and reads beyond the second block if it lies below.
pub stale_slot_visited :
    (debug : Bool) (a x b y : ℕ)
    → 1 ≤ a
    → FreshBlock b (a ∷ [])
    → x ≢ 0
    → y ≢ 0
    → (scope scope' : HandleScope) × (h1 h2 h3 h4 : LocalHandles) × (new no_handles
        ≡ some (scope, h1))
      × (handle debug a x h1 ≡ some (a, h2))
      × (iterate (drop scope h2) ≡ some [])
      × (new (drop scope h2) ≡ some (scope', h3))
      × (handle debug b y h3 ≡ some (b, h4))
      × (iterate h4 ≡ some (x ∷ y ∷ []))
      × (iterate (drop scope' h4) ≡ (if leb (b + handle_block_size) a then none else some (x ∷ [])))
unfolding new drop handle allocate add_block
stale_slot_visited debug a x b y pos fresh hx hy = (
  first_scope debug a x,
  second_scope debug a x b y,
  first_start debug a x,
  first_open debug a x,
  second_start debug a x b y,
  second_open debug a x b y,
  refl,
  rw (unsealed debug a x) refl,
  first_closed-iterate debug a x pos,
  refl,
  rw (unsealed debug a x) refl,
  second_iterate debug a x b y fresh hx hy,
  third_visited debug a x b y fresh hx,
)
