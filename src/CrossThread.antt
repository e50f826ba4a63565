-- ===== src/CrossThread.antt =====
-- Cross-thread handles: the root tables of crates/rudo-gc/src/heap.rs. A thread and its control block
-- are one number, since a thread has one block. The locks are not modelled: what a function does under
-- a lock is one step.
pub mod Handle
pub mod Roots
pub mod Outcomes
pub mod Origin
pub mod Clash
pub mod WeakHandle
pub mod WeakOrigin
pub mod Runs
pub mod Tests
pub mod Change
pub mod Keep
pub mod Resolve
use rudo.Prelude.{
  ℕ, ◌+◌, ◌%◌, ◌^◌, ◌-◌, Bool, true, false, not, Option, none, some, List, [], ◌∷◌, ◌++◌, ◌==◌,
  if◌then◌else◌,
}
use rudo.Prelude.Maps.{nat_key, pair_key, lookup, insert, remove, values}
use rudo.GcBox.{inc_ref, undo_inc_ref}
use rudo.Mark.{Space}
use rudo.Pointer.{Outcome, panicked, returned, put_box, slot_is_allocated, checked, is_usable}

pub record CrossThreadRootTable : Type 0 where
  pub next_id : ℕ
  pub strong : List (ℕ × ℕ)

unfoldable pub new : CrossThreadRootTable
new = record { next_id = 0; strong = [] }

unfoldable pub allocate_id : CrossThreadRootTable → ℕ × CrossThreadRootTable
allocate_id r = (r.next_id, record r { next_id = (r.next_id + 1) % 2 ^ 64 })

-- `HandleId::INVALID`.
abbrev pub invalid : ℕ
invalid = 2 ^ 64 - 1

-- Of a control block: whether a `Weak` to it can be upgraded, and its table.
pub record Tcb : Type 0 where
  pub alive : Bool
  pub roots : CrossThreadRootTable

-- `threads` is the registry, `orphans` the table of `ORPHANED_CROSS_THREAD_ROOTS`.
pub record World : Type 0 where
  pub heap : Space
  pub tcbs : ℕ → Tcb
  pub threads : List ℕ
  pub orphans : List ((ℕ × ℕ) × ℕ)
  pub orphan_handle_id_counter : ℕ

abbrev pub put_tcb : World → ℕ → Tcb → World
put_tcb w t tcb = record w { tcbs = λ u. if u == t then tcb else w.tcbs u }

abbrev pub put_roots : World → ℕ → CrossThreadRootTable → World
put_roots w t r = put_tcb w t (record { alive = (w.tcbs t).alive; roots = r })

abbrev pub contains_key : ℕ → List (ℕ × ℕ) → Bool
contains_key id m = elim (lookup id m) [ none ↦ false | some _ ↦ true ]

abbrev pub orphan_contains_key : ℕ → ℕ → List ((ℕ × ℕ) × ℕ) → Bool
orphan_contains_key t id m = elim (lookup (t, id) m) [ none ↦ false | some _ ↦ true ]

abbrev pub insert_all : ℕ → List (ℕ × ℕ) → List ((ℕ × ℕ) × ℕ) → List ((ℕ × ℕ) × ℕ)
insert_all t [] orphans = orphans
insert_all t (x ∷ drained) orphans = insert_all t drained (insert (t, x.0) x.1 orphans)

unfoldable pub migrate_roots_to_orphan : World → ℕ → World
migrate_roots_to_orphan w t =
    let r = (w.tcbs t).roots in
    elim r.strong [
      | [] ↦ w
      | x ∷ rest ↦ record (put_roots w t (record { next_id = r.next_id; strong = [] })) {
        orphans = insert_all t r.strong w.orphans;
      }
    ]

unfoldable pub get_orphaned_cross_thread_roots : World → List ℕ
get_orphaned_cross_thread_roots w = values w.orphans

-- What the visitor is called with.
unfoldable pub iterate_cross_thread_roots : World → ℕ → List ℕ
iterate_cross_thread_roots w t = values (w.tcbs t).roots.strong

-- `cross_thread_roots` of a collection: the tables of the threads, then the orphans.
pub thread_roots : World → List ℕ → List ℕ
unfolding iterate_cross_thread_roots
thread_roots w [] = []
thread_roots w (t ∷ threads) = iterate_cross_thread_roots w t ++ thread_roots w threads

unfoldable pub cross_thread_roots : World → List ℕ
unfolding thread_roots get_orphaned_cross_thread_roots
cross_thread_roots w = thread_roots w w.threads ++ get_orphaned_cross_thread_roots w

unfoldable pub remove_orphan_root : World → ℕ → ℕ → World
remove_orphan_root w t id = record w { orphans = remove (t, id) w.orphans }

unfoldable pub insert_orphan_root : World → ℕ → ℕ → ℕ → World
insert_orphan_root w t id ptr = record w { orphans = insert (t, id) ptr w.orphans }

-- `fetch_add` wraps.
unfoldable pub allocate_orphan_handle_id : World → ℕ × World
allocate_orphan_handle_id w = (
  w.orphan_handle_id_counter,
  record w { orphan_handle_id_counter = (w.orphan_handle_id_counter + 1) % 2 ^ 64 },
)

unfoldable pub clone_orphan_root : World → ℕ → ℕ → ℕ → (ℕ × Bool) × World
unfolding allocate_orphan_handle_id insert_orphan_root
clone_orphan_root w t source ptr =
    if not (orphan_contains_key t source w.orphans)
    then ((invalid, false), w)
    else let (new_id, w') = allocate_orphan_handle_id w in
      ((new_id, true), insert_orphan_root w' t new_id ptr)

abbrev pub on_heap : {A : Type 0} → World → Outcome Space A → Outcome World A
on_heap w (panicked s) = panicked (record w { heap = s })
on_heap w (returned a s) = returned a (record w { heap = s })

-- The checks and the count of `clone_orphan_root_with_inc_ref`, on the heap.
abbrev pub count_orphan : (Space → Space) → Space → ℕ → Outcome Space Unit
count_orphan between s ptr =
    let before = s.boxes ptr in
    if not (is_usable before)
    then panicked s
    else checked s ptr (λ live.
      if not live
      then panicked s
      else let t = between (put_box s ptr (inc_ref before)) in
        let after = t.boxes ptr in
        if not (before.generation == after.generation)
        then panicked (put_box t ptr (undo_inc_ref after))
        else returned tt t)

unfoldable pub clone_orphan_root_with_inc_ref :
    (Space → Space) → World → ℕ → ℕ → ℕ → Outcome World (ℕ × Bool)
unfolding is_usable slot_is_allocated inc_ref undo_inc_ref allocate_orphan_handle_id
    insert_orphan_root
clone_orphan_root_with_inc_ref between w t source ptr =
    if not (orphan_contains_key t source w.orphans)
    then returned (invalid, false) w
    else elim (on_heap w (count_orphan between w.heap ptr)) [
      | panicked w1 ↦ panicked w1
      | returned _ w1 ↦
          let (new_id, w2) = allocate_orphan_handle_id w1 in
          returned (new_id, true) (insert_orphan_root w2 t new_id ptr)
    ]

-- `Drop for ThreadLocalHeap`, without the count of active threads. The thread's own reference to its
-- block goes after it, by `release`.
abbrev pub unregister_thread : ℕ → List ℕ → List ℕ
unregister_thread t [] = []
unregister_thread t (u ∷ us) =
    let rest = unregister_thread t us in if u == t then rest else u ∷ rest

unfoldable pub drop_thread_local_heap : World → ℕ → World
unfolding migrate_roots_to_orphan
drop_thread_local_heap w t =
    let w' = migrate_roots_to_orphan w t in record w' { threads = unregister_thread t w'.threads }

-- The last reference to a control block goes.
abbrev pub release : World → ℕ → World
release w t = put_tcb w t (record { alive = false; roots = (w.tcbs t).roots })

-- `ThreadLocalHeap::new` at the start of a thread: a new control block is registered.
unfoldable pub start_thread : World → ℕ → World
unfolding new
start_thread w t = record (put_tcb w t (record { alive = true; roots = new })) {
  threads = w.threads ++ (t ∷ []);
}

-- A thread exits, with nobody else holding its control block.
unfoldable pub exit_thread : World → ℕ → World
unfolding drop_thread_local_heap
exit_thread w t = release (drop_thread_local_heap w t) t
