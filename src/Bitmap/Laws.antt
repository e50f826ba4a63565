-- ===== src/Bitmap/Laws.antt =====
-- What the three word operations do to the set of indices that a bitmap holds.
use rudo.Prelude.{
  ℕ, zero, suc, ◌*◌, ◌/◌, ◌%◌, ◌^◌, ◌<◌, bit_and, bit_or, ◌≡◌, refl, Bool, false, not, ◌&&◌, ◌||◌,
  some, List, [], ◌∷◌, arith, get_elem?, get_or, set, length, ◌==◌, if◌then◌else◌, length-set,
  replicate, length-replicate, ◌∙◌,
}
use rudo.Prelude.Bits.{bit, bit-bit_and, bit-bit_or, bit-pow, bit_complement, bit-le_one, bit-zero}
use rudo.Prelude.Bits.{bit_and-lt, bit_or-lt, bit_and-pow-eq-zero, bit_and-pow-ne-zero}
use native.Mathlib.Nat.{pow-le-pow_right}
use rudo.Bitmap.{Words, word_mod, complement, mask_of, test, fetch_or, fetch_and_not}

-- The index `i` is in the set.
abbrev pub has : Words → ℕ → Bool
has words i = bit (get_or words (i / 64) 0) (i % 64) == 1

-- `n` words of 64 bits.
pub record IsBitmap (n : ℕ) (words : Words) : Type 0 where
  pub size : length words ≡ n
  pub fits : (i : ℕ) → get_or words i 0 < word_mod

get_or-set :
    (xs : List ℕ) (i j v : ℕ)
    → i < length xs
    → get_or (set xs i v) j 0 ≡ (if i == j then v else get_or xs j 0)
get_or-set [] i j v h = absurd (omega arith)
get_or-set (x ∷ xs) zero zero v h = refl
get_or-set (x ∷ xs) zero (suc j) v h = ground arith
get_or-set (x ∷ xs) (suc i) zero v h = ground arith
get_or-set (x ∷ xs) (suc i) (suc j) v h = ground (arith, get_or-set xs i j v (omega arith))

pow_word-lt : (i : ℕ) → i < 64 → 2 ^ i < word_mod
pow_word-lt i h =
    omega (arith, pow-le-pow_right {n = 2} (omega arith) {i = i} {j = 63} (omega arith))

-- A single word.
bit_or_mask : (w i j : ℕ) → (bit (bit_or w (2 ^ i)) j == 1) ≡ ((i == j) || (bit w j == 1))
bit_or_mask w i j = ground (arith, bit-bit_or w (2 ^ i) j, bit-pow i j, bit-le_one w j)

bit_and_unmask :
    (w i j : ℕ)
    → i < 64
    → j < 64
    → (bit (bit_and w (complement (2 ^ i))) j == 1) ≡ (not (i == j) && (bit w j == 1))
bit_and_unmask w i j hi hj = ground (
  arith,
  bit-bit_and w (complement (2 ^ i)) j,
  bit_complement 64 (2 ^ i) j (pow_word-lt i hi) hj,
  bit-pow i j,
  bit-le_one w j,
)

pub mask_test : (w i : ℕ) → w < word_mod → not (bit_and w (2 ^ i) == 0) ≡ (bit w i == 1)
mask_test w i h =
    ground (arith, bit_and-pow-eq-zero 64 w i h, bit_and-pow-ne-zero w i, bit-le_one w i)

pub get_elem?-eq-get_or :
    (xs : List ℕ) (i : ℕ) → i < length xs → get_elem? xs i ≡ some (get_or xs i 0)
get_elem?-eq-get_or [] i h = absurd (omega arith)
get_elem?-eq-get_or (x ∷ xs) zero h = refl
get_elem?-eq-get_or (x ∷ xs) (suc i) h = get_elem?-eq-get_or xs i (omega arith)

-- The words after a bit has been set, or cleared, in range.
abbrev pub with_bit : Words → ℕ → Words
with_bit words i = set words (i / 64) (bit_or (get_or words (i / 64) 0) (mask_of i))

abbrev pub without_bit : Words → ℕ → Words
without_bit words i =
    set words (i / 64) (bit_and (get_or words (i / 64) 0) (complement (mask_of i)))

module _ {n : ℕ} (words : Words) (b : IsBitmap n words) (i : ℕ) (in_range : i < n * 64) where
  word_in_range : i / 64 < length words
  word_in_range = omega (arith, b.size)

  pub read_word : get_elem? words (i / 64) ≡ some (get_or words (i / 64) 0)
  read_word = get_elem?-eq-get_or words (i / 64) word_in_range

  pub test-has : test words i ≡ some (has words i)
  unfolding test
  test-has =
      ground (arith, read_word, mask_test (get_or words (i / 64) 0) (i % 64) (b.fits (i / 64)))

  pub fetch_or_lem : fetch_or words i ≡ some (get_or words (i / 64) 0, with_bit words i)
  unfolding fetch_or
  fetch_or_lem = rw read_word

  pub fetch_and_not_lem : fetch_and_not words i ≡ some (without_bit words i)
  unfolding fetch_and_not
  fetch_and_not_lem = rw read_word

  -- The old word that `fetch_or` returns tells whether the index was in the set.
  pub old_word : (bit_and (get_or words (i / 64) 0) (mask_of i) == 0) ≡ not (has words i)
  old_word = ground (arith, mask_test (get_or words (i / 64) 0) (i % 64) (b.fits (i / 64)))

  pub has-with_bit : (j : ℕ) → has (with_bit words i) j ≡ ((i == j) || has words j)
  has-with_bit j = ground (
    arith,
    get_or-set words (i / 64) (j / 64) (bit_or (get_or words (i / 64) 0) (mask_of i)) word_in_range,
    bit_or_mask (get_or words (i / 64) 0) (i % 64) (j % 64),
  )

  pub has-without_bit : (j : ℕ) → has (without_bit words i) j ≡ (not (i == j) && has words j)
  has-without_bit j = ground (
    arith,
    get_or-set words (i / 64) (j / 64) (bit_and (get_or words (i / 64) 0) (complement (mask_of i)))
        word_in_range,
    bit_and_unmask (get_or words (i / 64) 0) (i % 64) (j % 64) (omega arith) (omega arith),
  )

  set-IsBitmap : (v : ℕ) → v < word_mod → IsBitmap n (set words (i / 64) v)
  set-IsBitmap v h = record {
    size = length-set words (i / 64) v ∙ b.size;
    fits = λ k. ground (arith, get_or-set words (i / 64) k v word_in_range, b.fits k);
  }

  pub with_bit-IsBitmap : IsBitmap n (with_bit words i)
  with_bit-IsBitmap = set-IsBitmap (bit_or (get_or words (i / 64) 0) (mask_of i)) (
      bit_or-lt 64 (get_or words (i / 64) 0) (mask_of i) (b.fits (i / 64))
        (pow_word-lt (i % 64) (omega arith)))

  pub without_bit-IsBitmap : IsBitmap n (without_bit words i)
  without_bit-IsBitmap =
      set-IsBitmap (bit_and (get_or words (i / 64) 0) (complement (mask_of i)))
        (bit_and-lt 64 (get_or words (i / 64) 0) (complement (mask_of i)) (b.fits (i / 64)))

-- A bitmap with every word 0 holds nothing.
get_or-replicate : (n i : ℕ) → get_or {A = ℕ} (replicate n 0) i 0 ≡ 0
get_or-replicate zero i = refl
get_or-replicate (suc n) zero = refl
get_or-replicate (suc n) (suc i) = get_or-replicate n i

pub has-replicate : (n i : ℕ) → has (replicate n 0) i ≡ false
has-replicate n i = rw get_or-replicate (ground (arith, bit-zero (i % 64)))

pub replicate-IsBitmap : (n : ℕ) → IsBitmap n (replicate n 0)
replicate-IsBitmap n = record {
  size = length-replicate n 0;
  fits = λ i. omega (arith, get_or-replicate n i);
}
