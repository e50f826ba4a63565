-- ===== src/MarkQueue/Steal.antt =====
-- A worker that looks for work finds some, if any waits, and takes it from one place.
use rudo.Prelude.{
  ℕ, ◌≡◌, ◌∙◌, refl, ap, false, Option, none, some, List, [], ◌∷◌, ◌++◌, ◌⊎◌, ◌==◌, if◌then◌else◌,
  arith, Bool-cases, inl, inr,
}
use rudo.StealQueue.{StealQueue, steal}
use rudo.StealQueue.Deque.{mark_queue_size, Represents, steal_exact}
use rudo.MarkQueue.{
  PerThreadMarkQueue, OverflowQueue, steal_work, steal_from, receive_pending_work,
  pop_overflow_work, work_steal,
}

-- Queues with their items, the next one to be stolen first.
abbrev pub Filled : Type 0
Filled = List (PerThreadMarkQueue × List ℕ)

abbrev pub queues : Filled → List PerThreadMarkQueue
queues [] = []
queues ((q, xs) ∷ rest) = q ∷ queues rest

abbrev pub AllRepresent : Filled → Type 0
AllRepresent [] = Unit
AllRepresent ((q, xs) ∷ rest) = Represents q.queue xs × AllRepresent rest

-- The items that the worker `own` may steal.
abbrev pub stealable : ℕ → Filled → List ℕ
stealable own [] = []
stealable own ((q, xs) ∷ rest) =
    if q.worker_idx == own then stealable own rest else xs ++ stealable own rest

-- From one list to the other an item has been taken out, or there was none.
abbrev pub TakesOne : Option ℕ → List ℕ → List ℕ → Type 0
TakesOne none before after = (before ≡ []) × (after ≡ [])
TakesOne (some x) before after =
    (front back : List ℕ) × (before ≡ front ++ (x ∷ back)) × (after ≡ front ++ back)

steal_empty : (q : StealQueue ℕ) → Represents q [] → steal mark_queue_size q ≡ (none, q)
unfolding steal
steal_empty q r = ground (arith, r.size, r.top_fits)

no_work : (q : PerThreadMarkQueue) → Represents q.queue [] → steal_work q ≡ (none, q)
unfolding steal_work
no_work q r =
    ap (λ (z : Option ℕ × StealQueue ℕ). (z.0, record q { queue = z.1 })) (steal_empty q.queue r)

some_work :
    (q : PerThreadMarkQueue) (x : ℕ) (q' : StealQueue ℕ)
    → steal mark_queue_size q.queue ≡ (some x, q')
    → steal_work q ≡ (some x, record q { queue = q' })
unfolding steal_work
some_work q x q' e = ap (λ (z : Option ℕ × StealQueue ℕ). (z.0, record q { queue = z.1 })) e

-- What stealing leaves.
pub record Stolen (own : ℕ) (r : Option ℕ) (qs after : Filled) : Type 0 where
  pub represent : AllRepresent after
  pub takes : TakesOne r (stealable own qs) (stealable own after)

StealFrom : ℕ → Filled → Type 0
StealFrom own qs =
    (r : Option ℕ) × (after : Filled) × (steal_from own (queues qs) ≡ (r, queues after))
    × Stolen own r qs after

-- From a queue of another worker.
steal_other :
    (own : ℕ) (q : PerThreadMarkQueue) (xs : List ℕ) (rest : Filled)
    → (q.worker_idx == own) ≡ false
    → Represents q.queue xs
    → AllRepresent rest
    → StealFrom own rest
    → StealFrom own ((q, xs) ∷ rest)
unfolding StealFrom steal_from
steal_other own q [] rest e a others (r, after, run, s) = (
  r,
  (q, []) ∷ after,
  ground (arith, e, no_work q a, run),
  record { represent = (a, s.represent); takes = rw e s.takes },
)
steal_other own q (y ∷ ys) rest e a others (r, after, run, s) =
    let (q', taken, b) = steal_exact q.queue y ys a in
    (
      some y,
      (record q { queue = q' }, ys) ∷ rest,
      ground (arith, e, some_work q y q' taken),
      record {
        represent = (b, others);
        takes = ([], ys ++ stealable own rest, rw e refl, rw e refl);
      },
    )

steal_from_lem : (own : ℕ) (qs : Filled) → AllRepresent qs → StealFrom own qs
unfolding StealFrom steal_from
steal_from_lem own [] a = (none, [], refl, record { represent = tt; takes = (refl, refl) })
steal_from_lem own ((q, xs) ∷ rest) a = elim (Bool-cases (q.worker_idx == own)) [
  | inl e ↦
      let (r, after, run, s) = steal_from_lem own rest a.1 in
      (
        r,
        (q, xs) ∷ after,
        rw run (rw e refl),
        record { represent = (a.0, s.represent); takes = rw e s.takes },
      )
  | inr e ↦ steal_other own q xs rest e a.0 a.1 (steal_from_lem own rest a.1)
]

-- The work that the worker can get: what others have sent it, what has overflowed, and the others' items.
abbrev pub waiting : PerThreadMarkQueue → OverflowQueue → Filled → List ℕ
waiting m o others = m.pending_work ++ (o.works ++ stealable m.worker_idx others)

looked_further :
    (m : PerThreadMarkQueue) (o : OverflowQueue) (qs : List PerThreadMarkQueue)
    → m.pending_work ≡ []
    → o.works ≡ []
    → work_steal m o qs ≡ ((steal_from m.worker_idx qs).0, m, o, (steal_from m.worker_idx qs).1)
unfolding work_steal receive_pending_work pop_overflow_work
looked_further m o qs no_pending no_overflow =
    let nothing : receive_pending_work m ≡ (none, m) = ground (arith, no_pending) in
    let empty : pop_overflow_work o ≡ (none, o) = ground (arith, no_overflow) in
    ground (arith, nothing, empty, no_pending, no_overflow)

list_cases : (xs : List ℕ) → (xs ≡ []) ⊎ ((x : ℕ) × (ys : List ℕ) × (xs ≡ x ∷ ys))
list_cases [] = inl refl
list_cases (x ∷ ys) = inr (x, ys, refl)

-- A worker that looks for work takes one item of what waits for it, which is its pending work, the
-- overflow and what the queues of the others hold, and leaves the rest in order; it comes away
-- without one exactly if nothing waits. The lists are those that the queues represent.
pub work_steal_exact :
    (m : PerThreadMarkQueue) (o : OverflowQueue) (others : Filled)
    → AllRepresent others
    → (r : Option ℕ) × (m' : PerThreadMarkQueue) × (o' : OverflowQueue) × (others' : Filled)
      × (work_steal m o (queues others) ≡ (r, m', o', queues others'))
      × AllRepresent others'
      × TakesOne r (waiting m o others) (waiting m' o' others')
unfolding work_steal receive_pending_work pop_overflow_work StealFrom
work_steal_exact m o others a = elim (list_cases m.pending_work) [
  | inr (x, ys, e) ↦ (
    some x,
    record m { pending_work = ys },
    o,
    others,
    rw e refl,
    a,
    ([], ys ++ (o.works ++ stealable m.worker_idx others), rw e refl, refl),
  )
  | inl no_pending ↦ elim (list_cases o.works) [
    | inr (x, ys, e) ↦ (
      some x,
      m,
      record o { works = ys },
      others,
      rw no_pending (rw e refl),
      a,
      ([], ys ++ stealable m.worker_idx others, rw no_pending (rw e refl), rw no_pending refl),
    )
    | inl no_overflow ↦
        let (r, after, run, s) = steal_from_lem m.worker_idx others a in
        (
          r,
          m,
          o,
          after,
          looked_further m o (queues others) no_pending no_overflow
              ∙ ap (λ (z : Option ℕ × List PerThreadMarkQueue). (z.0, m, o, z.1)) run,
          s.represent,
          rw no_pending (rw no_overflow s.takes),
        )
  ]
]
