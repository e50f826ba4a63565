-- ===== src/Pointer/WeakRef.antt =====
-- `GcBoxWeakRef` of crates/rudo-gc/src/ptr.rs, the weak pointer inside the cross-thread handles, and
-- the two `as_weak` that make one. The exchange of `upgrade` has its own `during`, what other threads
-- make of the box inside it.
use rudo.Prelude.{ℕ, Bool, true, false, not, ◌&&◌, ◌||◌, Option, none, some, ◌==◌, if◌then◌else◌}
use rudo.GcBox.{
  GcBox, has_dead_flag, is_under_construction, is_dead_or_unrooted, undo_inc_ref,
  try_inc_ref_if_nonzero, try_inc_ref_from_zero, inc_weak, dec_weak,
}
use rudo.Mark.{Space}
use rudo.Pointer.{
  Outcome, returned, put_box, slot_is_allocated, checked, is_usable, is_plausible, flags_clear,
}

pub record GcBoxWeakRef : Type 0 where
  pub ptr : Option ℕ
  pub generation : ℕ

unfoldable pub new : Space → ℕ → GcBoxWeakRef
new s ptr = record { ptr = some ptr; generation = (s.boxes ptr).generation }

unfoldable pub null : GcBoxWeakRef
null = record { ptr = none; generation = 0 }

-- `Gc::as_weak`.
unfoldable pub gc_as_weak : (Space → Space) → Space → Option ℕ → Outcome Space GcBoxWeakRef
unfolding null slot_is_allocated is_usable inc_weak dec_weak
gc_as_weak between s none = returned null s
gc_as_weak between s (some ptr) =
    let before = s.boxes ptr in
    checked s ptr (λ live.
      if not live
      then returned null s
      else if not (is_usable before)
      then returned null s
      else let t = between (put_box s ptr (inc_weak before)) in
        let after = t.boxes ptr in
        if not (before.generation == after.generation)
        then returned null (put_box t ptr (dec_weak after).1)
        else checked t ptr (λ still.
          if still
          then returned (record { ptr = some ptr; generation = before.generation }) t
          else returned null t))

-- `GcBox::as_weak`, of the box at an address.
unfoldable pub box_as_weak : (Space → Space) → Space → ℕ → Outcome Space GcBoxWeakRef
unfolding new null slot_is_allocated is_usable inc_weak dec_weak
box_as_weak between s ptr =
    let before = s.boxes ptr in
    if not (is_usable before)
    then returned null s
    else let t = between (put_box s ptr (inc_weak before)) in
      let after = t.boxes ptr in
      if not (before.generation == after.generation)
      then returned null (put_box t ptr (dec_weak after).1)
      else checked t ptr (λ still. if still then returned (new t ptr) t else returned null t)

-- The looks after the count has been taken, and the rollback where one fails. Look 0 is at the
-- generation and 4 at the allocated bit; `late` is whether the construction flag is among the others.
-- After a resurrection what look 0 has found is compared only after the flags.
abbrev pub settle :
    Bool → Bool → (ℕ → Space → Space) → Space → ℕ → ℕ → Outcome Space (Option (Option ℕ))
settle late resurrected between s ptr pre_generation =
    let t = between 0 s in
    let (clear, u) = flags_clear late between t ptr in
    let v = between 4 u in
    let same = pre_generation == (t.boxes ptr).generation in
    if not resurrected && not same
    then returned none (put_box t ptr (undo_inc_ref (t.boxes ptr)))
    else if not clear || not same
    then returned none (put_box u ptr (undo_inc_ref (u.boxes ptr)))
    else checked v ptr (λ still. if still then returned (some (some ptr)) v else returned none v)

-- The two ways to take a count.
abbrev pub take_count :
    Bool → (GcBox → GcBox) → (ℕ → Space → Space) → Space → ℕ → Outcome Space (Option (Option ℕ))
take_count late during between s ptr =
    let before = s.boxes ptr in
    let (resurrected, b) = try_inc_ref_from_zero during before in
    if resurrected
    then settle late true between (put_box s ptr b) ptr before.generation
    else let (counted, c) = try_inc_ref_if_nonzero b in
      if not counted
      then returned none (put_box s ptr c)
      else settle late false between (put_box s ptr c) ptr b.generation

unfoldable pub upgrade :
    ℕ
    → (ℕ → Bool)
    → (GcBox → GcBox)
    → (ℕ → Space → Space)
    → Space
    → GcBoxWeakRef
    → Outcome Space (Option (Option ℕ))
unfolding slot_is_allocated has_dead_flag is_under_construction undo_inc_ref try_inc_ref_if_nonzero
    try_inc_ref_from_zero
upgrade alignment valid during between s w = elim w.ptr [
  | none ↦ returned none s
  | some ptr ↦
      let before = s.boxes ptr in
      if not (is_plausible alignment valid ptr)
      then returned none s
      else if is_under_construction before
      then returned none s
      else if has_dead_flag before
      then returned none s
      else if not (before.is_dropping == 0)
      then returned none s
      else take_count false during between s ptr
]

-- Without the look at the heaps, and with a count of zero refused at the start.
unfoldable pub try_upgrade :
    ℕ
    → (GcBox → GcBox)
    → (ℕ → Space → Space)
    → Space
    → GcBoxWeakRef
    → Outcome Space (Option (Option ℕ))
unfolding slot_is_allocated has_dead_flag is_under_construction is_dead_or_unrooted undo_inc_ref
    try_inc_ref_if_nonzero try_inc_ref_from_zero
try_upgrade alignment during between s w = elim w.ptr [
  | none ↦ returned none s
  | some ptr ↦
      let before = s.boxes ptr in
      if not (is_plausible alignment (λ p. true) ptr)
      then returned none s
      else if is_under_construction before
      then returned none s
      else if is_dead_or_unrooted before
      then returned none s
      else if not (before.is_dropping == 0)
      then returned none s
      else take_count true during between s ptr
]

unfoldable pub clone :
    ℕ → (ℕ → Bool) → (Space → Space) → Space → GcBoxWeakRef → Outcome Space GcBoxWeakRef
unfolding null slot_is_allocated has_dead_flag inc_weak dec_weak
clone alignment valid between s w = elim w.ptr [
  | none ↦ returned null s
  | some ptr ↦
      let before = s.boxes ptr in
      if not (is_plausible alignment valid ptr)
      then returned null s
      else if has_dead_flag before
      then returned null s
      else if not (before.is_dropping == 0)
      then returned null s
      else let t = between (put_box s ptr (inc_weak before)) in
        let after = t.boxes ptr in
        if not (before.generation == after.generation)
        then returned null (put_box t ptr (dec_weak after).1)
        else checked t ptr (λ still.
          if still
          then returned (record { ptr = some ptr; generation = w.generation }) t
          else returned null (put_box t ptr (dec_weak after).1))
]

unfoldable pub may_be_valid : ℕ → (ℕ → Bool) → GcBoxWeakRef → Bool
may_be_valid alignment valid w = elim w.ptr [
  | none ↦ false
  | some ptr ↦ is_plausible alignment valid ptr
]

unfoldable pub is_live : ℕ → (ℕ → Bool) → Space → GcBoxWeakRef → Outcome Space Bool
unfolding slot_is_allocated has_dead_flag is_under_construction
is_live alignment valid s w = elim w.ptr [
  | none ↦ returned false s
  | some ptr ↦
      let b = s.boxes ptr in
      if not (is_plausible alignment valid ptr)
      then returned false s
      else if is_under_construction b
      then returned false s
      else if has_dead_flag b
      then returned false s
      else if not (b.is_dropping == 0)
      then returned false s
      else checked s ptr (λ live. returned live s)
]
