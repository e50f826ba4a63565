-- ===== src/CrossThread/WeakHandle.antt =====
-- `WeakCrossThreadHandle` of crates/rudo-gc/src/handles/cross_thread.rs, with `GcHandle::downgrade` and
-- `Gc::weak_cross_thread_handle`, which make one. The arguments `alignment`, `valid`, `during` and
-- `between` are those of `GcBoxWeakRef`.
use rudo.Prelude.{ℕ, Bool, false, not, Option, none, some, ◌==◌, if◌then◌else◌}
use rudo.GcBox.{GcBox, inc_weak, dec_weak, dec_weak_raw}
use rudo.Mark.{Space}
use rudo.Pointer.{Outcome, panicked, returned, put_box, slot_is_allocated, checked, is_usable}
use rudo.Pointer.WeakRef
use rudo.Pointer.WeakRef.{GcBoxWeakRef, new, null}
use rudo.CrossThread.{World, invalid, on_heap}
use rudo.CrossThread.Handle.{GcHandle, is_alive, in_tcb, in_orphans}

pub record WeakCrossThreadHandle : Type 0 where
  pub weak : GcBoxWeakRef
  pub origin_tcb : ℕ
  pub origin_thread : ℕ

-- The count and the checks after it, the same in both branches.
abbrev pub count_weak : (Space → Space) → Space → ℕ → Outcome Space GcBoxWeakRef
count_weak between s ptr =
    let before = s.boxes ptr in
    let t = between (put_box s ptr (inc_weak before)) in
    let after = t.boxes ptr in
    if not (before.generation == after.generation)
    then returned null (put_box t ptr (dec_weak after).1)
    else checked t ptr (λ live.
      if not live
      then returned null (put_box t ptr (dec_weak after).1)
      else if not (is_usable after)
      then panicked (put_box t ptr (dec_weak after).1)
      else returned (new t ptr) t)

abbrev pub with_origin : GcHandle → Outcome World GcBoxWeakRef → Outcome World WeakCrossThreadHandle
with_origin h (panicked w) = panicked w
with_origin h (returned r w) =
    returned (record { weak = r; origin_tcb = h.origin_tcb; origin_thread = h.origin_thread }) w

unfoldable pub downgrade : (Space → Space) → World → GcHandle → Outcome World WeakCrossThreadHandle
unfolding slot_is_allocated is_usable inc_weak dec_weak new null
downgrade between w h =
    if h.handle_id == invalid
    then panicked w
    else if not (if is_alive w h.origin_tcb then in_tcb w h else in_orphans w h)
    then panicked w
    else with_origin h (on_heap w (count_weak between w.heap h.ptr))

-- The checks and the count of `Gc::weak_cross_thread_handle`.
abbrev pub count_weak_of_gc : (Space → Space) → Space → ℕ → Outcome Space GcBoxWeakRef
count_weak_of_gc between s ptr = checked s ptr (λ live.
    let before = s.boxes ptr in
    if not live
    then panicked s
    else if not (is_usable before)
    then panicked s
    else let t = between (put_box s ptr (inc_weak before)) in
      let after = t.boxes ptr in
      if not (before.generation == after.generation)
      then panicked (put_box t ptr (dec_weak after).1)
      else checked t ptr (λ still. if still then returned (new t ptr) t else panicked t))

-- On the thread `cur`; that it has a control block is asked for last.
unfoldable pub weak_cross_thread_handle :
    (Space → Space) → World → ℕ → Option ℕ → Outcome World WeakCrossThreadHandle
unfolding slot_is_allocated is_usable inc_weak dec_weak new
weak_cross_thread_handle between w cur none = panicked w
weak_cross_thread_handle between w cur (some ptr) =
    elim (on_heap w (count_weak_of_gc between w.heap ptr)) [
      | panicked w1 ↦ panicked w1
      | returned r w1 ↦
          if is_alive w1 cur
          then returned (record { weak = r; origin_tcb = cur; origin_thread = cur }) w1
          else panicked w1
    ]

unfoldable pub is_valid : ℕ → (ℕ → Bool) → World → WeakCrossThreadHandle → Outcome World Bool
unfolding WeakRef.is_live
is_valid alignment valid w h =
    if not (is_alive w h.origin_tcb)
    then returned false w
    else on_heap w (WeakRef.is_live alignment valid w.heap h.weak)

-- `cur` is the thread of the call.
unfoldable pub resolve :
    ℕ
    → (ℕ → Bool)
    → (GcBox → GcBox)
    → (ℕ → Space → Space)
    → World
    → ℕ
    → WeakCrossThreadHandle
    → Outcome World (Option (Option ℕ))
unfolding WeakRef.upgrade
resolve alignment valid during between w cur h =
    if not (is_alive w h.origin_tcb)
    then returned none w
    else if not (cur == h.origin_thread)
    then panicked w
    else on_heap w (WeakRef.upgrade alignment valid during between w.heap h.weak)

unfoldable pub try_resolve :
    ℕ
    → (ℕ → Bool)
    → (GcBox → GcBox)
    → (ℕ → Space → Space)
    → World
    → ℕ
    → WeakCrossThreadHandle
    → Outcome World (Option (Option ℕ))
unfolding WeakRef.upgrade
try_resolve alignment valid during between w cur h =
    if not (is_alive w h.origin_tcb)
    then returned none w
    else if not (cur == h.origin_thread)
    then returned none w
    else on_heap w (WeakRef.upgrade alignment valid during between w.heap h.weak)

unfoldable pub may_be_valid : ℕ → (ℕ → Bool) → World → WeakCrossThreadHandle → Bool
unfolding WeakRef.may_be_valid
may_be_valid alignment valid w h =
    if not (is_alive w h.origin_tcb) then false else WeakRef.may_be_valid alignment valid h.weak

unfoldable pub try_upgrade :
    ℕ
    → (GcBox → GcBox)
    → (ℕ → Space → Space)
    → World
    → ℕ
    → WeakCrossThreadHandle
    → Outcome World (Option (Option ℕ))
unfolding WeakRef.try_upgrade
try_upgrade alignment during between w cur h =
    if not (is_alive w h.origin_tcb)
    then returned none w
    else if not (cur == h.origin_thread)
    then panicked w
    else on_heap w (WeakRef.try_upgrade alignment during between w.heap h.weak)

unfoldable pub clone :
    ℕ
    → (ℕ → Bool)
    → (Space → Space)
    → World
    → WeakCrossThreadHandle
    → Outcome World WeakCrossThreadHandle
unfolding WeakRef.clone
clone alignment valid between w h =
    elim (on_heap w (WeakRef.clone alignment valid between w.heap h.weak)) [
      | panicked w1 ↦ panicked w1
      | returned r w1 ↦ returned (record h { weak = r }) w1
    ]

unfoldable pub drop : (ℕ → Bool) → World → WeakCrossThreadHandle → World
unfolding dec_weak_raw
drop valid w h = elim h.weak.ptr [
  | none ↦ w
  | some ptr ↦
      let b = w.heap.boxes ptr in
      if not (valid ptr)
      then w
      else if not (b.generation == h.weak.generation)
      then w
      else record w { heap = put_box w.heap ptr (dec_weak_raw b).1 }
]
