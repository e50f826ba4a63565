-- ===== src/Bitmap.antt =====
-- The arrays of `AtomicU64` words that crates/rudo-gc/src/heap.rs and
-- crates/rudo-gc/src/gc/mark/bitmap.rs use as bitmaps: `word = index / 64`, `bit = index % 64`,
-- `mask = 1 << bit`. An index past the array is a panic, `none`.
pub mod Laws
pub mod Count
use rudo.Prelude.{
  ℕ, ◌+◌, ◌-◌, ◌/◌, ◌%◌, ◌^◌, ◌<◌, bit_and, bit_or, ◌≡◌, Bool, not, Option, none, some, List,
  get_elem?, get_or, set, length, ◌==◌,
}
use mathlib.Core.Option

abbrev pub word_bits : ℕ
word_bits = 64

abbrev pub word_mod : ℕ
word_mod = 2 ^ 64

-- `!w` on a `u64`
abbrev pub complement : ℕ → ℕ
complement w = word_mod - 1 - w

abbrev pub Words : Type 0
Words = List ℕ

-- `1u64 << (index % 64)`
abbrev pub mask_of : ℕ → ℕ
mask_of index = 2 ^ (index % word_bits)

-- `(words[word].load() & mask) != 0`
unfoldable pub test : Words → ℕ → Option Bool
test words index =
    Option.map (λ w. not (bit_and w (mask_of index) == 0)) (get_elem? words (index / word_bits))

-- `words[word].fetch_or(mask)`, with the old word
unfoldable pub fetch_or : Words → ℕ → Option (ℕ × Words)
fetch_or words index =
    Option.map (λ old. (old, set words (index / word_bits) (bit_or old (mask_of index))))
      (get_elem? words (index / word_bits))

-- `words[word].fetch_and(!mask)`
unfoldable pub fetch_and_not : Words → ℕ → Option Words
fetch_and_not words index =
    Option.map (λ old. set words (index / word_bits) (bit_and old (complement (mask_of index))))
      (get_elem? words (index / word_bits))
