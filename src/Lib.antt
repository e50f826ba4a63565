-- ===== src/Lib.antt =====
-- A model of rudo-gc, a mark-sweep garbage collector for Rust (crates/rudo-gc/src). The heap is a set
-- of pages: each starts with a header that holds a mark, a dirty and an allocated bit for each of its
-- slots and the head of a list of free slots that runs through the free slots' memory. A slot holds a
-- box: a strong count, a weak count with three flags in its top bits, a destructor and its drop
-- state. A collection marks the boxes that the roots reach, by a worklist; the slots of open handle
-- scopes are roots. A sweep looks at the allocated, unmarked slots of a page and drops their boxes; an
-- allocation pops the free list. Marking can run in increments, in phases that a global state keeps.
-- Locks are taken in the order of their levels, which debug builds check, and each collection leaves
-- its metrics in a ring buffer and in totals.
--
-- - Prelude: shared names, Boolean tests and lists on native numbers (Prelude/Tests, Prelude/Lists,
--   Prelude/Members), steps that may panic (Prelude/Options), the bits of a number (Prelude/Bits) and
--   bit fields (Prelude/Fields).
-- - Bitmap: arrays of 64-bit words as sets of indices, used by both bitmaps below; Bitmap/Laws and
--   Bitmap/Count prove what reading and writing a bit does.
-- - MarkBitmap: `MarkBitmap` of crates/rudo-gc/src/gc/mark/bitmap.rs.
-- - Page: `PageHeader` of crates/rudo-gc/src/heap.rs, with its bitmaps (Page/Marks), flags and
--   free-list head (Page/Flags).
-- - GcBox: the header operations of `GcBox` of crates/rudo-gc/src/ptr.rs; Weak and Strong are about
--   the two counts, Dead about a box whose value has been dropped.
-- - Address: size classes (Address/Classes) and the way from a pointer to the header of its page and to
--   the index of its object, of crates/rudo-gc/src/heap.rs.
-- - Mark: `mark_object`, `mark_object_minor`, `mark_and_trace_incremental`, `mark_major_roots` and
--   `GcVisitor` of crates/rudo-gc/src/gc/gc.rs, with the mutators stopped. Mark/Step and Mark/Visit are
--   about one reference, Mark/Worklist, Mark/Tricolor and Mark/Loop about the worklist, Mark/Roots
--   about a collection.
-- - Sweep: the sweeps of crates/rudo-gc/src/gc/gc.rs and `try_pop_from_page` of
--   crates/rudo-gc/src/heap.rs on a page with its slots' memory. Sweep/Lazy is about one round
--   of `lazy_sweep_page`, Sweep/Rounds about the page, Sweep/Pop about an allocation. Sweep/Eager has the eager sweep in two
--   phases, the sweeps that an allocation asks for and the promotion of pages; Sweep/Survival is about
--   its first phase, Sweep/FreeList and Sweep/Slots about its second, Sweep/Segment about both.
-- - Collection: marking and sweep of a stop-the-world major collection (`collect_major_stw` of
--   crates/rudo-gc/src/gc/gc.rs) put together; Collection/Survivors is about what it keeps.
-- - Buffers: the dirty pages, the remembered buffer and the SATB buffers that write barriers fill, of
--   crates/rudo-gc/src/heap.rs, and their part in a minor collection of crates/rudo-gc/src/gc/gc.rs;
--   Buffers/Dirty is about the first two, Buffers/Satb about the last.
-- - Handles: `LocalHandles` of crates/rudo-gc/src/handles/local_handles.rs and the scopes of
--   crates/rudo-gc/src/handles/mod.rs. Handles/Scopes has the states that a thread reaches;
--   Handles/Frames, Handles/Slots and Handles/Reach keep an invariant of them; Handles/Visit and
--   Handles/Live are about `iterate`, Handles/Stale about slots that outlive their scope.
-- - LockOrder: the lock order of crates/rudo-gc/src/gc/sync.rs.
-- - History: the ring buffer (History/Ring) and the totals (History/Record) of
--   crates/rudo-gc/src/metrics.rs.
-- - Incremental: the state of crates/rudo-gc/src/gc/incremental.rs, its phase machine
--   (Incremental/Phases) and its snapshot (Incremental/Snapshot).
-- - StealQueue: the work-stealing queue of crates/rudo-gc/src/gc/worklist.rs, with whole operations
--   as steps; StealQueue/Deque is about the queue of 1024 slots that the markers use.
-- - Pointer: `Gc` (Pointer/Strong), `Weak` (Pointer/Weak) and `GcBoxWeakRef` (Pointer/WeakRef) of
--   crates/rudo-gc/src/ptr.rs, over the heap of Mark. What other threads make of the heap before each
--   look at the generation, the flags and the allocated bit that follows the change of a count is an
--   argument. Pointer/Guarded is about any such interference, Pointer/Steady and Pointer/RoundTrip
--   about none.
-- - CrossThread: the root tables of crates/rudo-gc/src/heap.rs and the handles of
--   crates/rudo-gc/src/handles/cross_thread.rs: strong handles (CrossThread/Handle), how they resolve
--   (CrossThread/Resolve) and weak handles (CrossThread/WeakHandle). CrossThread/Roots, Keep, Change
--   and Outcomes carry the well-formedness of the tables through each operation, CrossThread/Runs
--   puts them together; CrossThread/Origin and WeakOrigin are about resolving, CrossThread/Clash
--   about roots that are lost or left behind.
-- - Barrier: the write barriers of crates/rudo-gc/src/heap.rs, over the heap of Mark and the buffers of
--   Buffers; Barrier/Search is about the object that a field lies in, Barrier/Exact about small objects
--   with no other thread at the heap.
-- - Cell: the borrows of `GcCell` and, in Cell/ThreadSafe, of `GcThreadSafeCell` of
--   crates/rudo-gc/src/cell.rs, with `mark_object_black` of crates/rudo-gc/src/gc/incremental.rs.
--   Cell/Black is about marking the captured objects, Cell/Satb about recording them, Cell/Borrow about
--   a whole borrow, Cell/Agree about the borrows of `GcThreadSafeCell`.
-- - Alloc: the allocation of small objects from fresh pages, of crates/rudo-gc/src/heap.rs (`Tlab`,
--   `alloc_slow`), and in Alloc/Search the way from an address to its object (`find_gc_box_from_ptr`).
--   Alloc/Bump is about one allocation, Alloc/Refill about a page, Alloc/Found about the search.
-- - MarkQueue: the queues of the marking workers, of crates/rudo-gc/src/gc/marker.rs, over StealQueue;
--   MarkQueue/Steal is about a worker that looks for work.
--
-- Numbers are natural numbers with the wrap-around of the machine's integers (64-bit words) written
-- out; a panic is `none`. A page has 64 words in each bitmap, so an index below 4096. Only
-- `process_worklist` takes fuel, one unit for each entry that it pops: as many as there are unmarked
-- boxes and waiting entries are enough. Every other loop runs over a list or down a number of rounds
-- that the code fixes.
--
-- Atomics are read and written by one thread at a time, except where an operation's meaning lies
-- in what happens between its load and its exchange: `try_mark` takes the header at both, and
-- `try_inc_ref_from_zero` what other threads do to the box in between. Marking takes the trace of
-- a box, as the list of the references in its value, and the roots that the scans found as
-- arguments. What dropping a value does to other boxes, by the pointers in it, is an argument of the
-- sweeps (`Glue`, and `Drops` for several pages); in `dec_ref` alone it is left out. Not modelled: the
-- trace functions and the destructors themselves, which are the
-- user's; stack scanning, mapping of memory and parking of threads; clocks, which are arguments;
-- large objects outside the write barriers, `Ephemeron`, asynchronous handles, the loop of a
-- marking worker, and minor and incremental collections as a whole. Whether an address lies in
-- some heap, which `is_gc_box_pointer_valid` looks up, is an argument of the weak pointers, and
-- the references that a cell's value captures are an argument of its borrows. Locks are not
-- modelled, nor that a panic under a lock poisons it.
pub mod Prelude
pub mod Bitmap
pub mod MarkBitmap
pub mod Page
pub mod GcBox
pub mod Address
pub mod Buffers
pub mod Handles
pub mod LockOrder
pub mod History
pub mod Incremental
pub mod Mark
pub mod Sweep
pub mod Collection
pub mod Pointer
pub mod CrossThread
pub mod Barrier
pub mod Cell
pub mod Alloc
pub mod MarkQueue
pub mod StealQueue
