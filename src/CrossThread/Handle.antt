-- ===== src/CrossThread/Handle.antt =====
-- `GcHandle` of crates/rudo-gc/src/handles/cross_thread.rs: making, cloning, unregistering and
-- dropping a handle. `between` is what other threads make of the heap between the change of a count,
-- or the removal of the root, and the checks after it.
use rudo.Prelude.{ℕ, Bool, true, false, not, Option, none, some, ◌==◌, if◌then◌else◌}
use rudo.Prelude.Maps.{nat_key, pair_key, insert, remove}
use rudo.GcBox.{inc_ref, undo_inc_ref, dec_ref}
use rudo.Mark.{Space}
use rudo.Pointer.{Outcome, panicked, returned, put_box, slot_is_allocated, checked, is_usable}
use rudo.CrossThread.{
  World, invalid, put_roots, contains_key, orphan_contains_key, allocate_id, on_heap,
  remove_orphan_root, clone_orphan_root_with_inc_ref,
}

-- `origin_tcb` is the thread whose control block the handle refers to.
pub record GcHandle : Type 0 where
  pub ptr : ℕ
  pub origin_tcb : ℕ
  pub origin_thread : ℕ
  pub handle_id : ℕ

abbrev pub is_alive : World → ℕ → Bool
is_alive w t = (w.tcbs t).alive

abbrev pub in_tcb : World → GcHandle → Bool
in_tcb w h = contains_key h.handle_id (w.tcbs h.origin_tcb).roots.strong

abbrev pub in_orphans : World → GcHandle → Bool
in_orphans w h = orphan_contains_key h.origin_thread h.handle_id w.orphans

-- Between the two looks `moved` is what other threads make of the tables.
unfoldable pub is_valid : (World → World) → World → GcHandle → Bool
is_valid moved w h =
    if h.handle_id == invalid
    then false
    else if is_alive w h.origin_tcb
    then (if in_tcb w h then true else in_orphans (moved w) h)
    else in_orphans w h

-- The root goes out of the table of a live control block, otherwise out of the orphans.
unfoldable pub forget_root : World → GcHandle → World
unfolding remove_orphan_root
forget_root w h =
    let r = (w.tcbs h.origin_tcb).roots in
    if is_alive w h.origin_tcb
    then put_roots w h.origin_tcb (record r { strong = remove h.handle_id r.strong })
    else remove_orphan_root w h.origin_thread h.handle_id

unfoldable pub unregister : World → GcHandle → GcHandle × World
unfolding forget_root dec_ref
unregister w h =
    if h.handle_id == invalid
    then (h, w)
    else let w1 = forget_root w h in
      (
        record h { handle_id = invalid },
        record w1 { heap = put_box w1.heap h.ptr (dec_ref (w1.heap.boxes h.ptr)).1 },
      )

-- What follows the removal of the root, on the heap.
abbrev pub release_count : (Space → Space) → Space → ℕ → Outcome Space Unit
release_count between before ptr =
    let s = between before in
    checked s ptr (λ live.
      if not live
      then returned tt s
      else if not ((before.boxes ptr).generation == (s.boxes ptr).generation)
      then panicked s
      else returned tt (put_box s ptr (dec_ref (s.boxes ptr)).1))

unfoldable pub drop : (Space → Space) → World → GcHandle → Outcome World Unit
unfolding forget_root dec_ref slot_is_allocated
drop between w h =
    if h.handle_id == invalid
    then returned tt w
    else on_heap (forget_root w h) (release_count between w.heap h.ptr)

-- The checks and the count of `Gc::cross_thread_handle`, on the heap.
abbrev pub count_handle : (Space → Space) → Space → ℕ → Outcome Space Unit
count_handle between s ptr = checked s ptr (λ live.
    if not live
    then panicked s
    else if not (is_usable (s.boxes ptr))
    then panicked s
    else let t = between (put_box s ptr (inc_ref (s.boxes ptr))) in
      checked t ptr (λ still. if still then returned tt t else panicked t))

abbrev pub insert_root : World → ℕ → ℕ → ℕ → World
insert_root w t id ptr =
    let r = (w.tcbs t).roots in put_roots w t (record r { strong = insert id ptr r.strong })

-- `Gc::cross_thread_handle` of crates/rudo-gc/src/ptr.rs, called on the thread `cur`: the thread has a
-- control block until its local storage is gone. The identifier is taken before the checks.
unfoldable pub cross_thread_handle : (Space → Space) → World → ℕ → Option ℕ → Outcome World GcHandle
unfolding allocate_id is_usable slot_is_allocated inc_ref
cross_thread_handle between w cur gc =
    if not (is_alive w cur)
    then panicked w
    else let (id, r) = allocate_id (w.tcbs cur).roots in
      let w1 = put_roots w cur r in
      elim gc [
        | none ↦ panicked w1
        | some ptr ↦ elim (on_heap w1 (count_handle between w1.heap ptr)) [
          | panicked w2 ↦ panicked w2
          | returned _ w2 ↦
              returned (record { ptr = ptr; origin_tcb = cur; origin_thread = cur; handle_id = id })
                (insert_root w2 cur id ptr)
        ]
      ]

-- The checks and the count of a clone on the origin thread, on the heap.
abbrev pub count_clone : (Space → Space) → Space → ℕ → Outcome Space Unit
count_clone between s ptr = checked s ptr (λ live.
    let before = s.boxes ptr in
    if not live
    then panicked s
    else if not (is_usable before)
    then panicked s
    else let t = between (put_box s ptr (inc_ref before)) in
      let after = t.boxes ptr in
      if not (before.generation == after.generation)
      then panicked (put_box t ptr (undo_inc_ref after))
      else returned tt t)

-- The path of a live control block.
unfoldable pub clone_registered : (Space → Space) → World → ℕ → GcHandle → Outcome World GcHandle
unfolding allocate_id is_usable slot_is_allocated inc_ref undo_inc_ref
clone_registered between w cur h =
    if not (cur == h.origin_thread)
    then panicked w
    else if not (in_tcb w h)
    then panicked w
    else elim (on_heap w (count_clone between w.heap h.ptr)) [
      | panicked w1 ↦ panicked w1
      | returned _ w1 ↦
          let (new_id, r) = allocate_id (w1.tcbs h.origin_tcb).roots in
          returned (record h { handle_id = new_id })
            (insert_root (put_roots w1 h.origin_tcb r) h.origin_tcb new_id h.ptr)
    ]

-- `cur` is the thread of the call.
unfoldable pub clone : (Space → Space) → World → ℕ → GcHandle → Outcome World GcHandle
unfolding clone_orphan_root_with_inc_ref clone_registered
clone between w cur h =
    if h.handle_id == invalid
    then panicked w
    else elim (clone_orphan_root_with_inc_ref between w h.origin_thread h.handle_id h.ptr) [
      | panicked w1 ↦ panicked w1
      | returned (new_id, true) w1 ↦ returned (record h { handle_id = new_id }) w1
      | returned (new_id, false) w1 ↦
          if is_alive w1 h.origin_tcb then clone_registered between w1 cur h else panicked w1
    ]
