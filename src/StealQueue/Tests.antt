-- ===== src/StealQueue/Tests.antt =====
-- A queue that has wrapped around its buffer's end: the items 7 and 8 stand in slots 1023 and 0.
use rudo.Prelude.{
  ℕ, zero, suc, ◌+◌, ◌%◌, ◌^◌, ◌<◌, ◌≡◌, refl, true, some, [], ◌∷◌, ◌++◌, ◌==◌, if◌then◌else◌,
  replicate, length-replicate, get_or, arith,
}
use rudo.StealQueue.{StealQueue, push, pop, steal}
use rudo.StealQueue.Deque.{Represents, mark_queue_size, push_exact, steal_exact, pop_exact}

abbrev two_items : StealQueue ℕ
two_items = record { buffer = λ i. if i == 0 then 8 else 7; bottom = 1025; top = 1023 }

two_items-Represents : Represents two_items (7 ∷ 8 ∷ [])
two_items-Represents = record {
  top_fits = omega arith;
  size = refl;
  few = omega arith;
  items = items;
}
  where
    items :
        (i : ℕ)
        → i < 2
        → two_items.buffer ((1023 + i) % 2 ^ 64 % mark_queue_size) ≡ get_or (7 ∷ 8 ∷ []) i 0
    items zero lt = refl
    items (suc zero) lt = refl
    items (suc (suc i)) lt = absurd (omega arith)

abbrev full : StealQueue ℕ
full = record { buffer = λ _. 5; bottom = 1024; top = 0 }

get_or-fives : (n i : ℕ) → i < n → get_or {A = ℕ} (replicate n 5) i 0 ≡ 5
get_or-fives zero i lt = absurd (omega arith)
get_or-fives (suc n) zero lt = refl
get_or-fives (suc n) (suc i) lt = get_or-fives n i (omega arith)

full-Represents : Represents full (replicate 1024 5)
full-Represents = record {
  top_fits = omega arith;
  size = refl;
  few = omega (arith, length-replicate {A = ℕ} 1024 5);
  items =
      λ i lt. ground (arith, get_or-fives 1024 i (omega (arith, length-replicate {A = ℕ} 1024 5)));
}

push_exact_example :
    (q' : StealQueue ℕ) × (push mark_queue_size two_items 9 ≡ (true, q'))
    × Represents q' ((7 ∷ 8 ∷ []) ++ (9 ∷ []))
push_exact_example = push_exact two_items (7 ∷ 8 ∷ []) two_items-Represents 9 (omega arith)

steal_exact_example :
    (q' : StealQueue ℕ) × (steal mark_queue_size two_items ≡ (some 7, q')) × Represents q' (8 ∷ [])
steal_exact_example = steal_exact two_items 7 (8 ∷ []) two_items-Represents

pop_exact_example :
    (q' : StealQueue ℕ) × (pop mark_queue_size two_items ≡ (some 8, q')) × Represents q' (7 ∷ [])
pop_exact_example = pop_exact two_items 8 (7 ∷ []) two_items-Represents
