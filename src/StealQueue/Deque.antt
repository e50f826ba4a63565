-- ===== src/StealQueue/Deque.antt =====
-- The queue of a marking worker, with its 1024 slots, is a double-ended queue.
use rudo.Prelude.{
  ℕ, zero, suc, ◌+◌, ◌-◌, ◌%◌, ◌≤◌, ◌<◌, ◌≡◌, refl, true, false, some, List, [], ◌∷◌, ◌++◌, length,
  length-append, get_or, ◌==◌, if◌then◌else◌, arith,
}
use rudo.StealQueue.{StealQueue, usize_mod, push, pop, steal}

-- `MARK_QUEUE_SIZE` of crates/rudo-gc/src/gc/marker.rs
abbrev pub mark_queue_size : ℕ
mark_queue_size = 1024

-- `xs` are the items in the queue, the next one to be stolen first.
pub record Represents (q : StealQueue ℕ) (xs : List ℕ) : Type 0 where
  pub top_fits : q.top < usize_mod
  pub size : q.bottom ≡ (q.top + length xs) % usize_mod
  pub few : length xs ≤ mark_queue_size
  pub items :
      (i : ℕ) → i < length xs → q.buffer ((q.top + i) % usize_mod % mark_queue_size) ≡ get_or xs i 0

get_or-append :
    (xs : List ℕ) (x i : ℕ)
    → i ≤ length xs
    → get_or (xs ++ (x ∷ [])) i 0 ≡ (if i == length xs then x else get_or xs i 0)
get_or-append [] x zero h = refl
get_or-append [] x (suc i) h = absurd (omega arith)
get_or-append (y ∷ xs) x zero h = ground arith
get_or-append (y ∷ xs) x (suc i) h = ground (arith, get_or-append xs x i (omega arith))

module _ (q : StealQueue ℕ) (xs : List ℕ) (r : Represents q xs) (item : ℕ) where
  pushed : StealQueue ℕ
  pushed = record {
    buffer = λ i. if q.bottom % mark_queue_size == i then item else q.buffer i;
    bottom = (q.bottom + 1) % usize_mod;
    top = q.top;
  }

  pushed-Represents : length xs < mark_queue_size → Represents pushed (xs ++ (item ∷ []))
  unfolding pushed
  pushed-Represents room = record {
    top_fits = r.top_fits;
    size = omega (arith, r.size, length-append xs (item ∷ []));
    few = omega (arith, length-append xs (item ∷ []));
    items = λ i lt.
        let le : i ≤ length xs = omega (arith, length-append xs (item ∷ [])) in
        ground (arith, r.size, r.top_fits, r.items i, get_or-append xs item i le);
  }

  -- A queue with room takes the item at the end that its owner pops from.
  pub push_exact :
      length xs < mark_queue_size
      → (q' : StealQueue ℕ) × (push mark_queue_size q item ≡ (true, q'))
        × Represents q' (xs ++ (item ∷ []))
  unfolding push pushed
  push_exact room = (pushed, ground (arith, r.size, r.top_fits), pushed-Represents room)

  -- A queue that holds 1024 items refuses another and stays as it is.
  push_full : length xs ≡ mark_queue_size → push mark_queue_size q item ≡ (false, q)
  unfolding push
  push_full full = ground (arith, r.size, r.top_fits)

-- A steal takes the oldest item.
pub steal_exact :
    (q : StealQueue ℕ) (x : ℕ) (xs : List ℕ)
    → Represents q (x ∷ xs)
    → (q' : StealQueue ℕ) × (steal mark_queue_size q ≡ (some x, q')) × Represents q' xs
unfolding steal
steal_exact q x xs r =
    let here : (q.top + 0) % usize_mod % mark_queue_size ≡ q.top % mark_queue_size =
      omega (arith, r.top_fits) in
    (
      record q { top = (q.top + 1) % usize_mod },
      ground (arith, r.size, r.few, r.top_fits, r.items 0, here),
      record {
        top_fits = omega arith;
        size = omega (arith, r.size);
        few = omega (arith, r.few);
        items = λ i lt.
            let next : ((q.top + 1) % usize_mod + i) % usize_mod ≡ (q.top + suc i) % usize_mod =
              omega arith in
            rw next (r.items (suc i) (omega arith));
      },
    )

-- A pop takes the newest item, and the queue is empty after the pop of its last.
pub pop_exact :
    (q : StealQueue ℕ) (x : ℕ) (xs : List ℕ)
    → Represents q (xs ++ (x ∷ []))
    → (q' : StealQueue ℕ) × (pop mark_queue_size q ≡ (some x, q')) × Represents q' xs
unfolding pop
pop_exact q x [] r =
    let here : (q.bottom + usize_mod - 1) % usize_mod % mark_queue_size
        ≡ (q.top + 0) % usize_mod % mark_queue_size =
      omega (arith, r.size, r.top_fits) in
    (
      record q { bottom = (q.top + 1) % usize_mod; top = (q.top + 1) % usize_mod },
      ground (arith, r.size, r.top_fits, r.items 0, here),
      record {
        top_fits = omega arith;
        size = omega arith;
        few = omega arith;
        items = λ i lt. absurd (omega arith);
      },
    )
pop_exact q x (y ∷ ys) r =
    let len : length (y ∷ (ys ++ (x ∷ []))) ≡ suc (suc (length ys)) =
      omega (arith, length-append ys (x ∷ [])) in
    let here : (q.bottom + usize_mod - 1) % usize_mod % mark_queue_size
        ≡ (q.top + suc (length ys)) % usize_mod % mark_queue_size =
      omega (arith, r.size, r.top_fits, len) in
    (
      record q { bottom = (q.bottom + usize_mod - 1) % usize_mod },
      ground (
        arith,
        r.size,
        r.few,
        r.top_fits,
        len,
        here,
        r.items (suc (length ys)),
        get_or-append (y ∷ ys) x (suc (length ys)),
      ),
      record {
        top_fits = r.top_fits;
        size = omega (arith, r.size, len, r.few, r.top_fits);
        few = omega (arith, r.few, len);
        items = λ i lt.
            ground
              (arith, r.items i (omega (arith, len)), get_or-append (y ∷ ys) x i (omega arith));
      },
    )
