-- ===== src/History/Ring.antt =====
-- The ring buffer refines the list of every collection recorded, newest first.
use rudo.Prelude.{
  ℕ, zero, suc, ◌+◌, ◌-◌, ◌%◌, ◌≤◌, ◌<◌, min, ◌≡◌, refl, ap, ap₂, ◌∙◌, List, [], ◌∷◌, length,
  get_or, set, take, length-set, arith, ◌==◌, if◌then◌else◌,
}
use rudo.History.{
  GcMetrics, GcHistory, new_metrics, history_size, usize_mod, push, recent, recent_from,
}

-- `xs` are the metrics recorded so far, newest first; the buffer keeps the last 64.
pub record Represents (h : GcHistory) (xs : List GcMetrics) : Type 0 where
  pub size : length h.buffer ≡ history_size
  pub recorded : h.write_idx ≡ length xs
  pub kept :
      (i : ℕ)
      → i < history_size
      → i < length xs
      → get_or h.buffer ((length xs - 1 - i) % history_size) new_metrics ≡ get_or xs i new_metrics

get_or-set :
    (xs : List GcMetrics) (i j : ℕ) (v : GcMetrics)
    → i < length xs
    → get_or (set xs i v) j new_metrics ≡ (if i == j then v else get_or xs j new_metrics)
get_or-set [] i j v h = absurd (omega arith)
get_or-set (x ∷ xs) zero zero v h = refl
get_or-set (x ∷ xs) zero (suc j) v h = ground arith
get_or-set (x ∷ xs) (suc i) zero v h = ground arith
get_or-set (x ∷ xs) (suc i) (suc j) v h = ground (arith, get_or-set xs i j v (omega arith))

-- A push records one more collection, and the buffer keeps the last 64 of the longer list.
pub push-Represents :
    (h : GcHistory) (xs : List GcMetrics) (m : GcMetrics)
    → Represents h xs
    → length xs + 1 < usize_mod
    → Represents (push h m) (m ∷ xs)
unfolding push
push-Represents h xs m r room = record {
  size = length-set h.buffer (h.write_idx % history_size) m ∙ r.size;
  recorded = omega (arith, r.recorded);
  kept = kept;
}
  where
    kept :
        (i : ℕ)
        → i < history_size
        → i < suc (length xs)
        → get_or
            (set h.buffer (h.write_idx % history_size) m)
            ((suc (length xs) - 1 - i) % history_size)
            new_metrics
          ≡ get_or (m ∷ xs) i new_metrics
    kept zero small lt = ground (
      arith,
      r.recorded,
      r.size,
      get_or-set h.buffer (h.write_idx % history_size) ((suc (length xs) - 1 - 0) % history_size) m
          (omega (arith, r.size)),
    )
    kept (suc i) small lt =
        let slot : (suc (length xs) - 1 - suc i) ≡ length xs - 1 - i = omega arith in
        rw slot (
          get_or-set h.buffer (h.write_idx % history_size) ((length xs - 1 - i) % history_size) m
            (omega (arith, r.size))
          ∙ ground (arith, r.recorded, r.kept i (omega arith) (omega arith)))

recent_from_lem :
    (h : GcHistory) (xs ys : List GcMetrics) (i left : ℕ)
    → Represents h xs
    → i + left ≤ length xs
    → i + left ≤ history_size
    → ((j : ℕ) → get_or ys j new_metrics ≡ get_or xs (i + j) new_metrics)
    → length ys + i ≡ length xs
    → recent_from h (length xs) i left ≡ take left ys
recent_from_lem h xs ys i zero r inside few same len = refl
recent_from_lem h xs [] i (suc left) r inside few same len = absurd (omega arith)
recent_from_lem h xs (y ∷ ys) i (suc left) r inside few same len =
    ap₂ ◌∷◌ (ground (arith, r.kept i (omega arith) (omega arith), same 0, right_zero)) (
      recent_from_lem h xs ys (i + 1) left r (omega arith) (omega arith)
        (λ j. let shift : i + suc j ≡ i + 1 + j = omega arith in rw shift at (same (suc j)))
        (omega arith))
  where
    right_zero : i + 0 ≡ i
    right_zero = omega arith

take-nil : (k : ℕ) → take {A = GcMetrics} k [] ≡ []
take-nil zero = refl
take-nil (suc k) = refl

take-min : (k : ℕ) (xs : List GcMetrics) → take (min k (length xs)) xs ≡ take k xs
take-min zero xs = let e : min 0 (length xs) ≡ 0 = omega arith in ap (λ (t : ℕ). take t xs) e
take-min (suc k) [] = take-nil (min (suc k) (length {A = GcMetrics} []))
take-min (suc k) (x ∷ xs) =
    let e : min (suc k) (suc (length xs)) ≡ suc (min k (length xs)) = omega arith in
    ap (λ (t : ℕ). take t (x ∷ xs)) e ∙ ap (λ (t : List GcMetrics). x ∷ t) (take-min k xs)

-- `recent` returns the last `n` collections recorded, newest first: at most 64, and no more than
-- there were.
pub recent_refines :
    (h : GcHistory) (xs : List GcMetrics) (n : ℕ)
    → Represents h xs
    → recent h n ≡ take (min n history_size) xs
unfolding recent
recent_refines h [] n r = rw (r.recorded, take-nil)
recent_refines h (x ∷ xs) n r =
    let all : List GcMetrics = x ∷ xs in
    rw r.recorded (
      ground (
        arith,
        recent_from_lem h all all 0 (min (min n history_size) (length all)) r (omega arith)
            (omega arith) (λ j. let e : 0 + j ≡ j = omega arith in rw e refl) (omega arith),
        take-min (min n history_size) all,
      ))
