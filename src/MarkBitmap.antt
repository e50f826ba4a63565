-- ===== src/MarkBitmap.antt =====
-- crates/rudo-gc/src/gc/mark/bitmap.rs: a bitmap with a counter of its marked slots.
-- The atomics are read and written by one thread at a time here: each operation is one step.
pub mod Laws
pub mod Tests
use rudo.Prelude.{
  ℕ, ◌+◌, ◌/◌, ◌%◌, ◌^◌, bit_and, bit_or, Bool, not, Option, none, some, List, map, get_elem?, set,
  replicate, ◌==◌, if◌then◌else◌,
}
use mathlib.Core.Option
use rudo.Bitmap.{Words, word_bits, word_mod, mask_of, fetch_or}

pub record MarkBitmap : Type 0 where
  pub bitmap : Words
  pub capacity : ℕ
  pub marked_count : ℕ

-- `n.div_ceil(d)`
div_ceil : ℕ → ℕ → ℕ
div_ceil n d = if n % d == 0 then n / d else n / d + 1

-- `none` is the panic of the `assert!`.
unfoldable pub new : ℕ → Option MarkBitmap
unfolding div_ceil
new capacity =
    if capacity % 64 == 0
    then some (record {
      bitmap = replicate (div_ceil (capacity + 63) 64) 0;
      capacity = capacity;
      marked_count = 0;
    })
    else none

-- The counter goes up only if the old word lacked the bit. `none` is the panic of an index past
-- the words.
unfoldable pub mark : MarkBitmap → ℕ → Option MarkBitmap
mark m slot_index =
    Option.map
      (λ (prev, words). record m {
        bitmap = words;
        marked_count =
            if bit_and prev (mask_of slot_index) == 0
            then (m.marked_count + 1) % word_mod
            else m.marked_count;
      })
      (fetch_or m.bitmap slot_index)

-- `(word >> bit) & 1 != 0`
unfoldable pub is_marked : MarkBitmap → ℕ → Option Bool
is_marked m slot_index =
    Option.map (λ w. not (bit_and (w / 2 ^ (slot_index % word_bits)) 1 == 0))
      (get_elem? m.bitmap (slot_index / word_bits))

unfoldable pub clear : MarkBitmap → MarkBitmap
clear m = record m { bitmap = map (λ _. 0) m.bitmap; marked_count = 0 }
