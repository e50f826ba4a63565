-- ===== src/CrossThread/Tests.antt =====
-- Thread 1 makes handles to the first object of Mark/Tests and exits.
use rudo.Prelude.{ℕ, ◌≡◌, ◌≢◌, refl, ◌↔◌, inl, true, false, ◌||◌, Option, some, none, mem, arith}
use rudo.Prelude.Maps.{nat_key, lookup, Distinct}
use rudo.Address.{ptr_to_page_header, ptr_to_object_index, header_size}
use rudo.Mark.{Space}
use rudo.Mark.Tests.{space, first, second}
use rudo.Pointer.{Outcome, panicked, returned}
use rudo.CrossThread.{
  World, invalid, start_thread, exit_thread, drop_thread_local_heap, cross_thread_roots,
  migrate_roots_to_orphan, get_orphaned_cross_thread_roots,
}
use rudo.CrossThread.Handle
use rudo.CrossThread.Handle.{GcHandle, cross_thread_handle, is_valid, in_tcb, in_orphans}
use rudo.CrossThread.Resolve.{find_root}
use rudo.CrossThread.Origin.{migration_unseen}
use rudo.CrossThread.Clash.{clone_takes_root, drop_keeps_root}
use rudo.CrossThread.WeakHandle
use rudo.CrossThread.WeakHandle.{WeakCrossThreadHandle}
use rudo.CrossThread.Outcomes.{end_state}
use rudo.CrossThread.Roots.{root_of}
use rudo.CrossThread.Keep.{with_root}
use rudo.CrossThread.Runs.{
  first_world, Run, Run-Refines, started, exited, made, IsHandle, handles_rooted,
}

abbrev steady : Space → Space
steady s = s

-- No other thread acts.
abbrev quiet : ℕ → Space → Space
quiet k s = s

abbrev world_started : World
world_started = start_thread (first_world space) 1

abbrev world_made : World
world_made = end_state (cross_thread_handle steady world_started 1 (some first))

abbrev world_exited : World
world_exited = exit_thread world_made 1

abbrev held : ℕ → ℕ → Option ℕ
held = with_root (λ t id. none) 1 0 first

abbrev first_handle : GcHandle
first_handle = record { ptr = first; origin_tcb = 1; origin_thread = 1; handle_id = 0 }

abbrev second_handle : GcHandle
second_handle = record { ptr = second; origin_tcb = 1; origin_thread = 1; handle_id = 1 }

run_started : Run world_started (λ t id. none)
run_started = started (Run.first space) 1 refl (λ id. refl)

run_made : Run world_made held
unfolding cross_thread_handle start_thread rudo.Pointer.slot_is_allocated rudo.Pointer.is_usable
    ptr_to_object_index header_size ptr_to_page_header rudo.Bitmap.test
run_made = made run_started steady 1 first (omega arith) refl

made_alive : (world_made.tcbs 1).alive ≡ true
unfolding cross_thread_handle start_thread rudo.Pointer.slot_is_allocated rudo.Pointer.is_usable
    ptr_to_object_index header_size ptr_to_page_header rudo.Bitmap.test
made_alive = refl

made_entry : lookup 0 (world_made.tcbs 1).roots.strong ≡ some first
unfolding cross_thread_handle start_thread rudo.Pointer.slot_is_allocated rudo.Pointer.is_usable
    ptr_to_object_index header_size ptr_to_page_header rudo.Bitmap.test
made_entry = refl

made-Distinct : Distinct (world_made.tcbs 1).roots.strong
unfolding cross_thread_handle start_thread rudo.Pointer.slot_is_allocated rudo.Pointer.is_usable
    ptr_to_object_index header_size ptr_to_page_header rudo.Bitmap.test
made-Distinct = (refl, tt)

made_in_tcb : (in_tcb world_made first_handle || in_orphans world_made first_handle) ≡ true
unfolding cross_thread_handle start_thread rudo.Pointer.slot_is_allocated rudo.Pointer.is_usable
    ptr_to_object_index header_size ptr_to_page_header rudo.Bitmap.test
made_in_tcb = refl

zero_valid : 0 ≢ invalid
zero_valid e = omega (arith, e)

handles_rooted_example :
    ((p : ℕ)
      → (mem p (cross_thread_roots world_exited) ≡ true) ↔ ((t id : ℕ) × (held t id ≡ some p)))
    × ((h : GcHandle) → IsHandle held h → is_valid (λ v. v) world_exited h ≡ true)
handles_rooted_example = handles_rooted (exited run_made 1 made_alive)

migration_unseen_example :
    let move = λ (v : World). migrate_roots_to_orphan v 1 in
    let moved = move world_made in
    (is_valid (λ v. v) moved first_handle ≡ true)
    × ((find_root
          (record { second = λ v. v; third = λ v. v; fourth = λ v. v })
          moved
          first_handle).0
        ≡ true)
    × (is_valid move world_made first_handle ≡ true)
    × ((find_root
          (record { second = move; third = λ v. v; fourth = λ v. v })
          world_made
          first_handle).0
        ≡ true)
migration_unseen_example =
    migration_unseen world_made 1 first_handle (λ v. v) (λ v. v) made-Distinct refl
      (λ e. zero_valid e) (inl (made_alive, made_in_tcb))

-- Both objects have a handle, and the thread has exited: the clone of the second handle gets the
-- identifier of the first.
abbrev world_both : World
world_both = exit_thread (end_state (cross_thread_handle steady world_made 1 (some second))) 1

abbrev world_cloned : World
world_cloned = end_state (Handle.clone steady world_both 2 second_handle)

drop_keeps_root_example :
    let after = end_state (Handle.drop steady (drop_thread_local_heap world_made 1) first_handle) in
    (root_of after 1 0 ≡ some first) × (mem first (get_orphaned_cross_thread_roots after) ≡ true)
drop_keeps_root_example =
    drop_keeps_root steady world_made first_handle made-Distinct refl (λ e. zero_valid e) made_alive
      made_entry

abbrev weak_handle : WeakCrossThreadHandle
weak_handle = record {
  weak = record { ptr = some first; generation = 0 };
  origin_tcb = 1;
  origin_thread = 1;
}

run_both : Run world_both (with_root held 1 1 second)
unfolding cross_thread_handle start_thread rudo.Pointer.slot_is_allocated rudo.Pointer.is_usable
    ptr_to_object_index header_size ptr_to_page_header rudo.Bitmap.test
run_both = exited (made run_made steady 1 second (omega arith) refl) 1 refl

only_first : (t id : ℕ) → root_of world_both t id ≡ some first → (t ≡ 1) × (id ≡ 0)
only_first t id e = ground (arith, (Run-Refines run_both).1 t id, e)

clone_takes_root_example :
    (is_valid (λ v. v) world_cloned first_handle ≡ true)
    × (mem first (cross_thread_roots world_cloned) ≡ false)
unfolding Handle.clone rudo.CrossThread.clone_orphan_root_with_inc_ref exit_thread
    cross_thread_handle start_thread rudo.Pointer.slot_is_allocated rudo.Pointer.is_usable
    ptr_to_object_index header_size ptr_to_page_header rudo.Bitmap.test
clone_takes_root_example =
    clone_takes_root steady world_both world_cloned 2 first_handle second_handle
      (record second_handle { handle_id = 0 }) (Run-Refines run_both).0 refl refl
      (refl, refl, refl, zero_valid, λ e. omega (arith, e)) only_first refl
