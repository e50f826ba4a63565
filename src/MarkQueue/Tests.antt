-- ===== src/MarkQueue/Tests.antt =====
-- Worker 1 looks for work when only worker 2 has some, an item in its queue.
use rudo.Prelude.{ℕ, ◌≡◌, refl, Option, [], ◌∷◌, arith}
use rudo.StealQueue.{StealQueue}
use rudo.StealQueue.Deque.{Represents}
use rudo.MarkQueue.{PerThreadMarkQueue, OverflowQueue, work_steal}
use rudo.MarkQueue.Steal.{Filled, queues, AllRepresent, TakesOne, waiting, work_steal_exact}

abbrev worker : ℕ → StealQueue ℕ → PerThreadMarkQueue
worker idx queue = record {
  queue = queue;
  worker_idx = idx;
  owned_pages = [];
  pending_work = [];
  capacity_hint = 768;
}

abbrev empty_queue : StealQueue ℕ
empty_queue = record { buffer = λ i. 0; bottom = 0; top = 0 }

abbrev one_item : StealQueue ℕ
one_item = record { buffer = λ i. 8; bottom = 1; top = 0 }

abbrev others : Filled
others = (worker 1 empty_queue, []) ∷ (worker 2 one_item, 8 ∷ []) ∷ []

abbrev overflow : OverflowQueue
overflow = record { works = []; clear_gen = 0 }

empty_queue-Represents : Represents empty_queue []
empty_queue-Represents = record {
  top_fits = omega arith;
  size = refl;
  few = omega arith;
  items = λ i lt. absurd (omega arith);
}

one_item-Represents : Represents one_item (8 ∷ [])
one_item-Represents = record {
  top_fits = omega arith;
  size = refl;
  few = omega arith;
  items = λ i lt. ground arith;
}

work_steal_exact_example :
    (r : Option ℕ) × (m' : PerThreadMarkQueue) × (o' : OverflowQueue) × (others' : Filled)
    × (work_steal (worker 1 empty_queue) overflow (queues others) ≡ (r, m', o', queues others'))
    × AllRepresent others'
    × TakesOne r (waiting (worker 1 empty_queue) overflow others) (waiting m' o' others')
work_steal_exact_example =
    work_steal_exact (worker 1 empty_queue) overflow others
      (empty_queue-Represents, (one_item-Represents, tt))
