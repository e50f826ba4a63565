-- ===== src/CrossThread/Resolve.antt =====
-- `GcHandle::resolve` and `try_resolve` of crates/rudo-gc/src/handles/cross_thread.rs. The locks of
-- the tables are given up between the looks into them: `moved` is what other threads make of the
-- tables before the second, third and fourth look.
use rudo.Prelude.{ℕ, Bool, true, false, not, Option, none, some, ◌==◌, if◌then◌else◌}
use rudo.GcBox.{inc_ref, dec_ref}
use rudo.Mark.{Space}
use rudo.Pointer.{
  Outcome, panicked, returned, put_box, slot_is_allocated, checked, is_usable, flags_clear,
}
use rudo.CrossThread.{World, invalid, on_heap}
use rudo.CrossThread.Handle.{GcHandle, is_alive, in_tcb, in_orphans}

-- The pointer of the new `Gc`. After the count, look 0 is at the generation, 1 to 3 are at the flags
-- and 4 is at the allocated bit.
unfoldable pub resolve_impl : (ℕ → Space → Space) → Space → ℕ → Outcome Space ℕ
unfolding slot_is_allocated is_usable inc_ref dec_ref
resolve_impl between s ptr =
    let before = s.boxes ptr in
    checked s ptr (λ live.
      if not live
      then panicked s
      else if not (is_usable before)
      then panicked s
      else checked s ptr (λ again.
        if not again
        then panicked s
        else let t = between 0 (put_box s ptr (inc_ref before)) in
          let (clear, u) = flags_clear true between t ptr in
          let v = between 4 u in
          if not (before.generation == (t.boxes ptr).generation)
          then panicked t
          else if not clear
          then panicked (put_box u ptr (dec_ref (u.boxes ptr)).1)
          else checked v ptr (λ still. if still then returned ptr v else panicked v)))

unfoldable pub try_resolve_impl : (ℕ → Space → Space) → Space → ℕ → Outcome Space (Option ℕ)
unfolding slot_is_allocated is_usable inc_ref dec_ref
try_resolve_impl between s ptr =
    let before = s.boxes ptr in
    checked s ptr (λ live.
      if not live
      then returned none s
      else if not (is_usable before)
      then returned none s
      else checked s ptr (λ again.
        if not again
        then returned none s
        else let t = between 0 (put_box s ptr (inc_ref before)) in
          let (clear, u) = flags_clear true between t ptr in
          let v = between 4 u in
          if not (before.generation == (t.boxes ptr).generation)
          then returned none (put_box t ptr (dec_ref (t.boxes ptr)).1)
          else if not clear
          then returned none (put_box u ptr (dec_ref (u.boxes ptr)).1)
          else checked v ptr (λ still.
            if still
            then returned (some ptr) v
            else returned none (put_box v ptr (dec_ref (v.boxes ptr)).1))))

-- What other threads make of the tables before the second, third and fourth look.
pub record Moves : Type 0 where
  pub second : World → World
  pub third : World → World
  pub fourth : World → World

-- The looks of both functions: whether one of them finds the root, with the tables by then.
unfoldable pub find_root : Moves → World → GcHandle → Bool × World
find_root m w h =
    if not (is_alive w h.origin_tcb)
    then (in_orphans w h, w)
    else if in_tcb w h
    then (true, w)
    else let w2 = m.second w in
      if in_orphans w2 h
      then (true, w2)
      else let w3 = m.third w2 in
        if in_tcb w3 h
        then (true, w3)
        else let w4 = m.fourth w3 in
          if is_alive w4 h.origin_tcb then (in_orphans w4 h, w4) else (false, w4)

-- `cur` is the thread of the call.
unfoldable pub resolve : Moves → (ℕ → Space → Space) → World → ℕ → GcHandle → Outcome World ℕ
unfolding find_root resolve_impl
resolve m between w cur h =
    if h.handle_id == invalid
    then panicked w
    else if not (cur == h.origin_thread)
    then panicked w
    else let (found, w1) = find_root m w h in
      if found then on_heap w1 (resolve_impl between w1.heap h.ptr) else panicked w1

unfoldable pub try_resolve :
    Moves → (ℕ → Space → Space) → World → ℕ → GcHandle → Outcome World (Option ℕ)
unfolding find_root try_resolve_impl
try_resolve m between w cur h =
    if h.handle_id == invalid
    then returned none w
    else if not (cur == h.origin_thread)
    then returned none w
    else let (found, w1) = find_root m w h in
      if found then on_heap w1 (try_resolve_impl between w1.heap h.ptr) else returned none w1
