-- ===== src/MarkQueue.antt =====
-- The queues of the marking workers in crates/rudo-gc/src/gc/marker.rs: each worker has a queue that
-- others steal from and a small buffer for what others send it, and all share an overflow stack. Each
-- operation is one step here; the stack's tagged pointers, which keep concurrent steps apart, are left
-- out. The newest of the pending work, and of the overflow, comes first in its list.
pub mod Steal
pub mod Tests
use rudo.Prelude.{
  ℕ, ◌+◌, ◌%◌, ◌^◌, Bool, true, false, not, ◌||◌, Option, none, some, List, [], ◌∷◌, length, mem,
  ltb, leb, ◌==◌, if◌then◌else◌,
}
use rudo.StealQueue
use rudo.StealQueue.{StealQueue}
use rudo.StealQueue.Deque.{mark_queue_size}

pub record PerThreadMarkQueue : Type 0 where
  pub queue : StealQueue ℕ
  pub worker_idx : ℕ
  pub owned_pages : List ℕ
  pub pending_work : List ℕ
  pub capacity_hint : ℕ

abbrev pub pending_work_buffer_size : ℕ
pending_work_buffer_size = 16

-- `OVERFLOW_QUEUE` and `OVERFLOW_QUEUE_CLEAR_GEN`
pub record OverflowQueue : Type 0 where
  pub works : List ℕ
  pub clear_gen : ℕ

unfoldable pub push_work : PerThreadMarkQueue → ℕ → Bool × PerThreadMarkQueue
unfolding StealQueue.push
push_work m obj =
    let (stored, q) = StealQueue.push mark_queue_size m.queue obj in
    (stored, record m { queue = q })

unfoldable pub pop_work : PerThreadMarkQueue → Option ℕ × PerThreadMarkQueue
unfolding StealQueue.pop
pop_work m = let (r, q) = StealQueue.pop mark_queue_size m.queue in (r, record m { queue = q })

unfoldable pub steal_work : PerThreadMarkQueue → Option ℕ × PerThreadMarkQueue
unfolding StealQueue.steal
steal_work m = let (r, q) = StealQueue.steal mark_queue_size m.queue in (r, record m { queue = q })

unfoldable pub is_near_capacity : PerThreadMarkQueue → Bool
unfolding StealQueue.len
is_near_capacity m = leb m.capacity_hint (StealQueue.len m.queue)

-- While the queue is being cleared the work is handed back.
unfoldable pub push_overflow_work : OverflowQueue → ℕ → Bool × OverflowQueue
push_overflow_work o work =
    if o.clear_gen % 2 == 1 then (false, o) else (true, record o { works = work ∷ o.works })

unfoldable pub pop_overflow_work : OverflowQueue → Option ℕ × OverflowQueue
pop_overflow_work o = elim o.works [
  | [] ↦ (none, o)
  | work ∷ rest ↦ (some work, record o { works = rest })
]

unfoldable pub clear_overflow_queue : OverflowQueue → OverflowQueue
clear_overflow_queue o = record { works = []; clear_gen = (o.clear_gen + 2) % 2 ^ 64 }

unfoldable pub push_remote :
    PerThreadMarkQueue → OverflowQueue → ℕ → Bool × PerThreadMarkQueue × OverflowQueue
unfolding push_overflow_work
push_remote owner o work =
    if ltb (length owner.pending_work) pending_work_buffer_size
    then (true, record owner { pending_work = work ∷ owner.pending_work }, o)
    else let (stored, o') = push_overflow_work o work in (stored, owner, o')

unfoldable pub receive_pending_work : PerThreadMarkQueue → Option ℕ × PerThreadMarkQueue
receive_pending_work m = elim m.pending_work [
  | [] ↦ (none, m)
  | work ∷ rest ↦ (some work, record m { pending_work = rest })
]

-- The loop over the queues, which passes over the worker's own.
unfoldable pub steal_from : ℕ → List PerThreadMarkQueue → Option ℕ × List PerThreadMarkQueue
unfolding steal_work
steal_from own [] = (none, [])
steal_from own (other ∷ others) =
    let (r, rest) = steal_from own others in
    let (stolen, other') = steal_work other in
    if other.worker_idx == own
    then (r, other ∷ rest)
    else elim stolen [ some obj ↦ (some obj, other' ∷ others) | none ↦ (r, other' ∷ rest) ]

-- The copy of the worker's own queue that the list may hold is not looked at.
unfoldable pub work_steal :
    PerThreadMarkQueue
    → OverflowQueue
    → List PerThreadMarkQueue
    → Option ℕ × PerThreadMarkQueue × OverflowQueue × List PerThreadMarkQueue
unfolding receive_pending_work pop_overflow_work steal_from
work_steal m o others =
    let (pending, m') = receive_pending_work m in
    let (popped, o') = pop_overflow_work o in
    let (stolen, others') = steal_from m.worker_idx others in
    elim pending [
      | some obj ↦ (some obj, m', o, others)
      | none ↦ elim popped [
        | some obj ↦ (some obj, m', o', others)
        | none ↦ (stolen, m', o', others')
      ]
    ]
