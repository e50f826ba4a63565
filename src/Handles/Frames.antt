-- ===== src/Handles/Frames.antt =====
-- What a scope knows of the slots of its live handles.
use rudo.Prelude.{
  mem-++, ℕ, ◌+◌, ◌≤◌, ◌<◌, ◌≡◌, refl, ap, true, Option, none, some, List, [], ◌∷◌, ◌++◌, ◌⊎◌, inl,
  inr, mem, ◌==◌, arith, Bool-cases,
}
use rudo.Handles.{handle_block_size}

-- `s` is a slot of block `b`.
abbrev pub InBlock : ℕ → ℕ → Type 0
InBlock b s = (b ≤ s) × (s < b + handle_block_size)

-- A new block is not at null and overlaps no other.
abbrev pub FreshBlock : ℕ → List ℕ → Type 0
FreshBlock at blocks =
    (1 ≤ at)
    × ((b : ℕ) → mem b blocks ≡ true → (b + handle_block_size ≤ at) ⊎ (at + handle_block_size ≤ b))

-- Slots in `live` are in blocks; those in the block that `next` and `limit` bound, or in the current
-- block, are below `next`; and `next` is in a block unless it is at the limit.
pub record Frame (blocks : List ℕ) (current : Option ℕ) (next limit : ℕ) (live : List ℕ)
    : Type 0 where
  pub placed : (s : ℕ) → mem s live ≡ true → (b : ℕ) × (mem b blocks ≡ true) × InBlock b s
  pub bounded : (s : ℕ) → mem s live ≡ true → limit ≤ s + handle_block_size → s < limit → s < next
  pub below : (s c : ℕ) → mem s live ≡ true → current ≡ some c → InBlock c s → s < next
  pub within :
      next < limit → (b : ℕ) × (mem b blocks ≡ true) × (limit ≡ b + handle_block_size) × (b ≤ next)
  pub inactive : next ≡ 0 → live ≡ []

-- A block that overlaps no other has no slot of theirs.
pub apart :
    (at : ℕ) (blocks : List ℕ) (b s : ℕ)
    → FreshBlock at blocks
    → mem b blocks ≡ true
    → InBlock b s
    → InBlock at s
    → ⊥
apart at blocks b s fresh m here there = elim (fresh.1 b m) [
  | inl l ↦ omega (arith, here, there, l)
  | inr r ↦ omega (arith, here, there, r)
]

some-injective : (a b : ℕ) → some a ≡ some b → a ≡ b
some-injective a b e = ap (λ (o : Option ℕ). elim o [ none ↦ a | some x ↦ x ]) e

-- A frame stays one when a block is added.
pub grow :
    (blocks : List ℕ) (current : Option ℕ) (next limit : ℕ) (live : List ℕ) (at : ℕ)
    → FreshBlock at blocks
    → Frame blocks current next limit live
    → Frame (blocks ++ (at ∷ [])) (some at) next limit live
grow blocks current next limit live at fresh f = record {
  placed = λ s m.
      let (b, mb, here) = f.placed s m in (b, ground (arith, mem-++ b blocks (at ∷ []), mb), here);
  bounded = f.bounded;
  below = λ s c m e there.
      let (b, mb, here) = f.placed s m in
      absurd (apart at blocks b s fresh mb here (omega (arith, some-injective at c e, there)));
  within = λ lt.
      let (b, mb, e, le) = f.within lt in (b, ground (arith, mem-++ b blocks (at ∷ []), mb), e, le);
  inactive = f.inactive;
}

-- A frame with the slot that is taken from its block.
pub take_next :
    (blocks : List ℕ) (current : Option ℕ) (next limit : ℕ) (live : List ℕ)
    → Frame blocks current next limit live
    → next < limit
    → Frame blocks current (next + 1) limit (next ∷ live)
take_next blocks current next limit live f room =
    let (b, mb, e, le) = f.within room in
    record {
      placed = λ s m. elim (Bool-cases (next == s)) [
        | inl here ↦ (b, mb, ground (arith, here, e, le, room))
        | inr away ↦ f.placed s (ground (arith, away, m))
      ];
      bounded = λ s m l u. elim (Bool-cases (next == s)) [
        | inl here ↦ ground (arith, here)
        | inr away ↦ omega (arith, f.bounded s (ground (arith, away, m)) l u)
      ];
      below = λ s c m at there. elim (Bool-cases (next == s)) [
        | inl here ↦ ground (arith, here)
        | inr away ↦ omega (arith, f.below s c (ground (arith, away, m)) at there)
      ];
      within = λ lt. (b, mb, e, omega arith);
      inactive = λ z. absurd (omega (arith, z));
    }

-- A frame with the first slot of a new block.
pub take_first :
    (blocks : List ℕ) (current : Option ℕ) (next limit : ℕ) (live : List ℕ) (at : ℕ)
    → FreshBlock at blocks
    → Frame blocks current next limit live
    → Frame (blocks ++ (at ∷ [])) (some at) (at + 1) (at + handle_block_size) (at ∷ live)
take_first blocks current next limit live at fresh f =
    let g = grow blocks current next limit live at fresh f in
    let new_mem : mem at (blocks ++ (at ∷ [])) ≡ true =
      ground (arith, mem-++ at blocks (at ∷ [])) in
    let old_out : (s : ℕ) → mem s live ≡ true → InBlock at s → s < at + 1 = λ s m there.
      let (b, mb, here) = f.placed s m in absurd (apart at blocks b s fresh mb here there) in
    record {
      placed = λ s m. elim (Bool-cases (at == s)) [
        | inl here ↦ (at, new_mem, ground (arith, here))
        | inr away ↦ g.placed s (ground (arith, away, m))
      ];
      bounded = λ s m l u. elim (Bool-cases (at == s)) [
        | inl here ↦ ground (arith, here)
        | inr away ↦ old_out s (ground (arith, away, m)) (omega arith, omega arith)
      ];
      below = λ s c m e there. elim (Bool-cases (at == s)) [
        | inl here ↦ ground (arith, here)
        | inr away ↦ old_out s (ground (arith, away, m)) (
          omega (arith, some-injective at c e, there),
          omega (arith, some-injective at c e, there),
        )
      ];
      within = λ lt. (at, new_mem, refl, omega arith);
      inactive = λ z. absurd (omega (arith, z));
    }
