-- ===== src/Handles/Live.antt =====
-- The handles that can be used are the ones that `iterate` visits.
use rudo.Prelude.{
  ℕ, ◌+◌, ◌≤◌, ◌<◌, ◌≡◌, ◌≢◌, refl, subst, Bool, true, false, Option, none, some, List, ◌∷◌, inl,
  inr, mem, ◌==◌, arith, Bool-cases, Option-cases, ◌>>=◌,
}
use rudo.Handles.{
  LocalHandles, HandleScope, EscapeableHandleScope, handle_block_size, allocate, is_sealed,
  set_slot, handle, drop, escape, visited_slots, iterate,
}
use rudo.Handles.Frames.{FreshBlock, InBlock}
use rudo.Handles.Scopes.{closed, escaped, Reachable}
use rudo.Handles.Slots.{AllTaken, allocate-AllTaken}
use rudo.Handles.Visit.{iterate_from_lem}
use rudo.Handles.Reach.{Reachable-Frames}

visited_fits :
    (h : LocalHandles) (b : ℕ)
    → ((c : ℕ) → h.current_block ≡ some c → h.scope_data.next ≤ c + handle_block_size)
    → visited_slots h b ≤ handle_block_size
visited_fits h b inside = elim (Option-cases h.current_block) [
  | inl n ↦ rw n (omega arith)
  | inr (c, e) ↦ rw e (ground (arith, inside c e))
]

visited_reaches :
    (h : LocalHandles) (b s : ℕ)
    → InBlock b s
    → ((c : ℕ) → h.current_block ≡ some c → InBlock c s → s < h.scope_data.next)
    → s < b + visited_slots h b
visited_reaches h b s here below = elim (Option-cases h.current_block) [
  | inl n ↦ rw n (omega (arith, here))
  | inr (c, e) ↦ elim (Bool-cases (c == b)) [
    | inl at ↦
        let same : c ≡ b = ground (arith, at) in
        rw e (
          rw at
            (omega (arith, here, below c e (omega (arith, same, here), omega (arith, same, here)))))
    | inr off ↦ rw e (rw off (omega (arith, here)))
  ]
]

-- In every state that a thread reaches, if `next` is not beyond the end of the current block, iterating
-- ends without reading beyond a block, and visits the box of every handle that can still be used.
pub live_handles_visited :
    (debug : Bool) {h : LocalHandles} {live : List ℕ} {outer : List (HandleScope × List ℕ)}
    → Reachable debug h live outer
    → ((c : ℕ) → h.current_block ≡ some c → h.scope_data.next ≤ c + handle_block_size)
    → (seen : List ℕ) × (iterate h ≡ some seen)
      × ((s : ℕ) → mem s live ≡ true → h.slots s ≢ 0 → mem (h.slots s) seen ≡ true)
unfolding iterate
live_handles_visited debug {h} {live} {outer} r inside =
    let f = (Reachable-Frames debug r).0 in
    let (seen, run, all) = iterate_from_lem h h.blocks (λ b m. visited_fits h b inside) in
    (
      seen,
      run,
      λ s m ne.
          let (b, mb, here) = f.placed s m in
          all b s mb here.0 (visited_reaches h b s here (λ c e. f.below s c m e)) ne,
    )

abbrev GivesSlot : LocalHandles → List ℕ → ℕ → Option (ℕ × LocalHandles) → Type 0
GivesSlot h live gc_box none = Unit
GivesSlot h live gc_box (some (slot, h')) =
    (mem slot live ≡ false)
    × (h'.slots slot ≡ gc_box)
    × ((s : ℕ) → mem s live ≡ true → h'.slots s ≡ h.slots s)

GivesSlot-of_taken :
    (live : List ℕ) (outer : List (HandleScope × List ℕ)) (h : LocalHandles) (gc_box : ℕ)
    (taken : Option (ℕ × LocalHandles))
    → AllTaken h live outer taken
    → GivesSlot h live gc_box (taken >>= λ (slot, h'). some (slot, set_slot h' slot gc_box))
GivesSlot-of_taken live outer h gc_box none t = tt
GivesSlot-of_taken live outer h gc_box (some (slot, h1)) t = (
  t.unused,
  ground arith,
  λ s m. elim (Bool-cases (s == slot)) [
    | inl same ↦
        let e : s ≡ slot = ground (arith, same) in
        absurd (ground (arith, subst (λ (k : ℕ). mem k live ≡ true) e m, t.unused))
    | inr other ↦ rw other (t.others s m)
  ],
)

handle_returns :
    (debug : Bool) (at gc_box : ℕ) (h : LocalHandles)
    → is_sealed debug h.scope_data ≡ false
    → (slot : ℕ) × (h' : LocalHandles) × (handle debug at gc_box h ≡ some (slot, h'))
unfolding handle allocate
handle_returns debug at gc_box h free = elim (Option-cases (handle debug at gc_box h)) [
  | inl e ↦ absurd (ground (arith, e, free))
  | inr ((slot, h'), e) ↦ (slot, h', e)
]

-- In every state that a thread reaches, making a handle in a scope that is not sealed returns a slot
-- of no handle that can still be used, and stores the box there; the slots of those handles keep
-- their boxes.
pub handle_exact :
    (debug : Bool) {h : LocalHandles} {live : List ℕ} {outer : List (HandleScope × List ℕ)}
    → Reachable debug h live outer
    → (at gc_box : ℕ) → FreshBlock at h.blocks
    → is_sealed debug h.scope_data ≡ false
    → (slot : ℕ) × (h' : LocalHandles) × (handle debug at gc_box h ≡ some (slot, h'))
      × (mem slot live ≡ false)
      × (h'.slots slot ≡ gc_box)
      × ((s : ℕ) → mem s live ≡ true → h'.slots s ≡ h.slots s)
unfolding handle
handle_exact debug {h} {live} {outer} r at gc_box fresh free =
    let (slot, h', run) = handle_returns debug at gc_box h free in
    let (unused, stored, others) = subst (GivesSlot h live gc_box) run (
      GivesSlot-of_taken live outer h gc_box (allocate debug at h)
        (allocate-AllTaken debug h live outer at fresh (Reachable-Frames debug r))) in
    (slot, h', run, unused, stored, others)

-- A handle that escapes to the parent scope keeps its box visited: escaping returns the slot that was
-- taken in the parent, and once the inner scope is closed, if the parent's `next` is not beyond the
-- end of the current block, iterating visits the box. Escaping a second time panics.
pub escaped_handle_visited :
    (debug : Bool) (scope : EscapeableHandleScope) {h : LocalHandles} {live kept : List ℕ}
    {outer : List (HandleScope × List ℕ)}
    → Reachable debug h live ((scope.inner, kept) ∷ outer)
    → mem scope.escape_slot kept ≡ true
    → (slot : ℕ) → scope.escaped ≡ false
    → scope.parent_level + 1 ≡ h.scope_data.level
    → h.slots slot ≢ 0
    → ((c : ℕ) → h.current_block ≡ some c → scope.inner.prev_next ≤ c + handle_block_size)
    → (scope' : EscapeableHandleScope) × (h' : LocalHandles) × (seen : List ℕ) × (escape debug scope
          slot h
        ≡ some (scope.escape_slot, scope', h'))
      × (iterate (drop scope.inner h') ≡ some seen)
      × (mem (h.slots slot) seen ≡ true)
      × ((other : ℕ) (later : LocalHandles) → escape debug scope' other later ≡ none)
unfolding escape drop
escaped_handle_visited debug scope {h} {live} {kept} {outer} r m slot first level full inside =
    let h' : LocalHandles = set_slot h scope.escape_slot (h.slots slot) in
    let after : EscapeableHandleScope = record scope { escaped = true } in
    let run : escape debug scope slot h ≡ some (scope.escape_slot, after, h') =
      rw first (ground (arith, level)) in
    let here : h'.slots scope.escape_slot ≡ h.slots slot = ground arith in
    let (seen, runs, all) = live_handles_visited debug (closed (escaped scope slot r run)) inside in
    (
      after,
      h',
      seen,
      run,
      runs,
      subst (λ (box : ℕ). mem box seen ≡ true) here (all scope.escape_slot m (rw here full)),
      λ other later. refl,
    )
