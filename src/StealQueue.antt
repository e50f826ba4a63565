-- ===== src/StealQueue.antt =====
-- `StealQueue` of crates/rudo-gc/src/gc/worklist.rs: a ring buffer whose owner pushes and pops at
-- `bottom` and from which others steal at `top`. Each operation is one step here, so the exchange of
-- `top` finds what was loaded. `bottom`, which the source keeps beside the queue and passes to each
-- call, is a field. `n` is the const parameter, a power of 2; `& mask` is `% n`.
pub mod Deque
pub mod Tests
use rudo.Prelude.{
  ◌-◌, ◌&&◌, bit_and, ℕ, ◌+◌, ◌%◌, ◌^◌, Bool, true, false, not, Option, none, some, leb, ◌==◌,
  if◌then◌else◌,
}

-- The buffer's slot at an index below `n`; one that was not written holds any value.
pub record StealQueue {ℓ} (A : Type ℓ) : Type ℓ where
  pub buffer : ℕ → A
  pub bottom : ℕ
  pub top : ℕ

abbrev pub usize_mod : ℕ
usize_mod = 2 ^ 64

-- On a `usize`.
abbrev pub wrapping_add : ℕ → ℕ → ℕ
wrapping_add a b = (a + b) % usize_mod

abbrev pub wrapping_sub : ℕ → ℕ → ℕ
wrapping_sub a b = (a + usize_mod - b) % usize_mod

-- `n.is_power_of_two()`
abbrev pub is_power_of_two : ℕ → Bool
is_power_of_two n = not (n == 0) && (bit_and n (n - 1) == 0)

-- `none` is the panic of the assertion; `buffer` is the memory before anything is written.
unfoldable pub new {ℓ} : {A : Type ℓ} → ℕ → (ℕ → A) → Option (StealQueue A)
new n buffer =
    if is_power_of_two n then some (record { buffer = buffer; bottom = 0; top = 0 }) else none

unfoldable pub push {ℓ} : {A : Type ℓ} → ℕ → StealQueue A → A → Bool × StealQueue A
push n q item = if leb n (wrapping_sub q.bottom q.top) then (false, q) else (
  true,
  record {
    buffer = λ i. if q.bottom % n == i then item else q.buffer i;
    bottom = wrapping_add q.bottom 1;
    top = q.top;
  },
)

unfoldable pub pop {ℓ} : {A : Type ℓ} → ℕ → StealQueue A → Option A × StealQueue A
pop n q =
    if q.bottom == q.top
    then (none, q)
    else let new_b = wrapping_sub q.bottom 1 in
      let item = q.buffer (new_b % n) in
      if not (new_b == q.top)
      then (some item, record q { bottom = new_b })
      else (some item, record q { bottom = wrapping_add q.top 1; top = wrapping_add q.top 1 })

unfoldable pub steal {ℓ} : {A : Type ℓ} → ℕ → StealQueue A → Option A × StealQueue A
steal n q =
    if q.top == q.bottom
    then (none, q)
    else (some (q.buffer (q.top % n)), record q { top = wrapping_add q.top 1 })

unfoldable pub len {ℓ} : {A : Type ℓ} → StealQueue A → ℕ
len q = wrapping_sub q.bottom q.top

unfoldable pub is_empty {ℓ} : {A : Type ℓ} → StealQueue A → Bool
unfolding len
is_empty q = len q == 0

unfoldable pub is_full {ℓ} : {A : Type ℓ} → ℕ → StealQueue A → Bool
unfolding len
is_full n q = leb n (len q)
