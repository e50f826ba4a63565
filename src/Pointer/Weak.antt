-- ===== src/Pointer/Weak.antt =====
-- `Weak` of crates/rudo-gc/src/ptr.rs. The compare-and-exchange of `upgrade` finds the count it has
-- loaded, so that its loop ends in the first round.
use rudo.Prelude.{ℕ, ◌+◌, Bool, true, false, not, ◌||◌, Option, none, some, ◌==◌, if◌then◌else◌}
use rudo.GcBox.{
  usize_max, has_dead_flag, is_under_construction, undo_inc_ref, inc_weak, dec_weak, dec_weak_raw,
}
use rudo.Mark.{Space}
use rudo.Pointer.{Outcome, returned, put_box, slot_is_allocated, checked, is_plausible, flags_clear}

-- One round of the loop and the looks after it, of which look 0 is at the generation and 4 at the
-- allocated bit; `late` is whether the construction flag is among them.
abbrev pub exchange_count :
    Bool → (ℕ → Space → Space) → Space → ℕ → Outcome Space (Option (Option ℕ))
exchange_count late between s ptr =
    let before = s.boxes ptr in
    if has_dead_flag before
    then returned none s
    else if not (before.is_dropping == 0)
    then returned none s
    else if (before.ref_count == 0) || (before.ref_count == usize_max)
    then returned none s
    else let t = between 0 (put_box s ptr (record before { ref_count = before.ref_count + 1 })) in
      let (clear, u) = flags_clear late between t ptr in
      let v = between 4 u in
      if not (before.generation == (t.boxes ptr).generation)
      then returned none (put_box t ptr (undo_inc_ref (t.boxes ptr)))
      else if not clear
      then returned none (put_box u ptr (undo_inc_ref (u.boxes ptr)))
      else checked v ptr (λ still. if still then returned (some (some ptr)) v else returned none v)

unfoldable pub upgrade :
    ℕ → (ℕ → Bool) → (ℕ → Space → Space) → Space → Option ℕ → Outcome Space (Option (Option ℕ))
unfolding slot_is_allocated has_dead_flag is_under_construction undo_inc_ref
upgrade alignment valid between s none = returned none s
upgrade alignment valid between s (some ptr) =
    if not (is_plausible alignment valid ptr)
    then returned none s
    else checked s ptr (λ live.
      if not live
      then returned none s
      else if is_under_construction (s.boxes ptr)
      then returned none s
      else exchange_count false between s ptr)

unfoldable pub try_upgrade :
    ℕ → (ℕ → Bool) → (ℕ → Space → Space) → Space → Option ℕ → Outcome Space (Option (Option ℕ))
unfolding slot_is_allocated has_dead_flag is_under_construction undo_inc_ref
try_upgrade alignment valid between s none = returned none s
try_upgrade alignment valid between s (some ptr) =
    if not (is_plausible alignment valid ptr)
    then returned none s
    else checked s ptr (λ live.
      if not live
      then returned none s
      else if is_under_construction (s.boxes ptr)
      then returned none s
      else exchange_count true between s ptr)

unfoldable pub clone :
    ℕ → (ℕ → Bool) → (Space → Space) → Space → Option ℕ → Outcome Space (Option ℕ)
unfolding slot_is_allocated has_dead_flag inc_weak dec_weak
clone alignment valid between s none = returned none s
clone alignment valid between s (some ptr) =
    let before = s.boxes ptr in
    if not (is_plausible alignment valid ptr)
    then returned none s
    else if has_dead_flag before
    then returned none s
    else if not (before.is_dropping == 0)
    then returned none s
    else checked s ptr (λ live.
      if not live
      then returned none s
      else let t = between (put_box s ptr (inc_weak before)) in
        let after = t.boxes ptr in
        if not (before.generation == after.generation)
        then returned none (put_box t ptr (dec_weak after).1)
        else checked t ptr (λ still. if still then returned (some ptr) t else returned none t))

-- With the pointer afterwards: it is cleared only where the address is in no heap.
unfoldable pub drop : (ℕ → Bool) → Space → Option ℕ → Outcome Space (Option ℕ)
unfolding slot_is_allocated dec_weak_raw
drop valid s none = returned none s
drop valid s (some ptr) =
    if not (valid ptr)
    then returned none s
    else checked s ptr (λ live.
      if not live
      then returned (some ptr) s
      else returned (some ptr) (put_box s ptr (dec_weak_raw (s.boxes ptr)).1))
