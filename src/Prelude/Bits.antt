-- ===== src/Prelude/Bits.antt =====
-- Machine words: the bits of a number, and the laws of `&`, `|`, `!` and `1 << i` at variables.
use Prim.Native.Nat.{digits, bitwise, bit_and-bitwise, bit_or-bitwise}
use native.Mathlib.Nat.{pow-suc, one-le-pow, div-div-eq-div-mul}
use rudo.Prelude.{
  ℕ, zero, suc, ◌+◌, ◌-◌, ◌*◌, ◌/◌, ◌%◌, ◌^◌, ◌≤◌, ◌<◌, min, max, bit_and, bit_or, ◌≡◌, refl, ap,
  ◌∙◌, ◌≢◌, arith, ◌==◌, if◌then◌else◌,
}

-- More fuel than the first word has digits changes nothing.
module _ (last : ℕ → ℕ) (join : ℕ → ℕ → ℕ) where
  digits_enough : (f g a b : ℕ) → a ≤ f → a ≤ g → digits last join f a b ≡ digits last join g a b
  digits_enough zero zero zero b hf hg = refl
  digits_enough zero zero (suc a) b hf hg = absurd (omega arith)
  digits_enough zero (suc g) zero b hf hg = refl
  digits_enough zero (suc g) (suc a) b hf hg = absurd (omega arith)
  digits_enough (suc f) zero zero b hf hg = refl
  digits_enough (suc f) zero (suc a) b hf hg = absurd (omega arith)
  digits_enough (suc f) (suc g) zero b hf hg = refl
  digits_enough (suc f) (suc g) (suc a) b hf hg =
      ap (λ k. k * 2 + join (suc a % 2) (b % 2))
        (digits_enough f g (suc a / 2) (b / 2) (omega arith) (omega arith))

  bitwise_unroll :
      (a b : ℕ)
      → bitwise last join (suc a) b
        ≡ bitwise last join (suc a / 2) (b / 2) * 2 + join (suc a % 2) (b % 2)
  bitwise_unroll a b =
      ap (λ k. k * 2 + join (suc a % 2) (b % 2))
        (digits_enough a (suc a / 2) (suc a / 2) (b / 2) (omega arith) (omega arith))

pub bit_and_unroll : (a b : ℕ) → bit_and a b ≡ bit_and (a / 2) (b / 2) * 2 + min (a % 2) (b % 2)
bit_and_unroll zero b = omega (arith, bit_and-bitwise 0 b, bit_and-bitwise 0 (b / 2))
bit_and_unroll (suc a) b = omega (
  arith,
  bit_and-bitwise (suc a) b,
  bit_and-bitwise (suc a / 2) (b / 2),
  bitwise_unroll (λ b. zero) min a b,
)

pub bit_or_unroll : (a b : ℕ) → bit_or a b ≡ bit_or (a / 2) (b / 2) * 2 + max (a % 2) (b % 2)
bit_or_unroll zero b = omega (arith, bit_or-bitwise 0 b, bit_or-bitwise 0 (b / 2))
bit_or_unroll (suc a) b = omega (
  arith,
  bit_or-bitwise (suc a) b,
  bit_or-bitwise (suc a / 2) (b / 2),
  bitwise_unroll (λ b. b) max a b,
)

-- The bit of weight 2 ^ j, 0 or 1.
abbrev pub bit : ℕ → ℕ → ℕ
bit w zero = w % 2
bit w (suc j) = bit (w / 2) j

pub bit-le_one : (w j : ℕ) → bit w j ≤ 1
bit-le_one w zero = omega arith
bit-le_one w (suc j) = bit-le_one (w / 2) j

pub bit-bit_and : (a b j : ℕ) → bit (bit_and a b) j ≡ min (bit a j) (bit b j)
bit-bit_and a b zero = omega (arith, bit_and_unroll a b)
bit-bit_and a b (suc j) =
    let e : bit_and a b / 2 ≡ bit_and (a / 2) (b / 2) = omega (arith, bit_and_unroll a b) in
    rw e (bit-bit_and (a / 2) (b / 2) j)

pub bit-bit_or : (a b j : ℕ) → bit (bit_or a b) j ≡ max (bit a j) (bit b j)
bit-bit_or a b zero = omega (arith, bit_or_unroll a b)
bit-bit_or a b (suc j) =
    let e : bit_or a b / 2 ≡ bit_or (a / 2) (b / 2) = omega (arith, bit_or_unroll a b) in
    rw e (bit-bit_or (a / 2) (b / 2) j)

pub bit-zero : (j : ℕ) → bit 0 j ≡ 0
bit-zero zero = refl
bit-zero (suc j) = bit-zero j

-- `1 << i` has the bit `i` alone.
pub bit-pow : (i j : ℕ) → bit (2 ^ i) j ≡ (if i == j then 1 else 0)
bit-pow zero zero = refl
bit-pow zero (suc j) = ground (arith, bit-zero j)
bit-pow (suc i) zero = ground (arith, pow-suc 2 i)
bit-pow (suc i) (suc j) =
    let e : 2 ^ suc i / 2 ≡ 2 ^ i = omega (arith, pow-suc 2 i) in rw e (ground (arith, bit-pow i j))

-- `!a` on `k` bits turns every bit over.
pub bit_complement : (k a j : ℕ) → a < 2 ^ k → j < k → bit (2 ^ k - 1 - a) j ≡ 1 - bit a j
bit_complement zero a j h lt = absurd (omega arith)
bit_complement (suc k) a zero h lt = omega (arith, pow-suc 2 k)
bit_complement (suc k) a (suc j) h lt =
    let e : (2 ^ suc k - 1 - a) / 2 ≡ 2 ^ k - 1 - a / 2 = omega (arith, pow-suc 2 k) in
    rw e (bit_complement k (a / 2) j (omega (arith, pow-suc 2 k)) (omega arith))

-- Words are equal if their bits are.
pub bit_ext : (k a b : ℕ) → a < 2 ^ k → b < 2 ^ k → ((j : ℕ) → j < k → bit a j ≡ bit b j) → a ≡ b
bit_ext zero a b ha hb h = omega arith
bit_ext (suc k) a b ha hb h = omega (
  arith,
  h 0 (omega arith),
  bit_ext k (a / 2) (b / 2) (omega (arith, pow-suc 2 k)) (omega (arith, pow-suc 2 k))
      (λ j lt. h (suc j) (omega arith)),
)

pub bit_and-lt : (k a b : ℕ) → a < 2 ^ k → bit_and a b < 2 ^ k
bit_and-lt zero zero b h = omega (arith, bit_and-bitwise 0 b)
bit_and-lt zero (suc a) b h = absurd (omega arith)
bit_and-lt (suc k) a b h = omega (
  arith,
  pow-suc 2 k,
  bit_and_unroll a b,
  bit_and-lt k (a / 2) (b / 2) (omega (arith, pow-suc 2 k)),
)

pub bit_or-lt : (k a b : ℕ) → a < 2 ^ k → b < 2 ^ k → bit_or a b < 2 ^ k
bit_or-lt zero zero b h g = omega (arith, bit_or-bitwise 0 b)
bit_or-lt zero (suc a) b h g = absurd (omega arith)
bit_or-lt (suc k) a b h g = omega (
  arith,
  pow-suc 2 k,
  bit_or_unroll a b,
  bit_or-lt k (a / 2) (b / 2) (omega (arith, pow-suc 2 k)) (omega (arith, pow-suc 2 k)),
)

-- `(w & (1 << i)) != 0` reads the bit `i`.
pub bit_and-pow-eq-zero : (k w i : ℕ) → w < 2 ^ k → bit w i ≡ 0 → bit_and w (2 ^ i) ≡ 0
bit_and-pow-eq-zero k w i h e =
    bit_ext k (bit_and w (2 ^ i)) 0 (bit_and-lt k w (2 ^ i) h) (one-le-pow k 2 (omega arith))
      λ j lt. ground (arith, bit-bit_and w (2 ^ i) j, bit-pow i j, bit-zero j)

pub bit_and-pow-ne-zero : (w i : ℕ) → bit w i ≡ 1 → bit_and w (2 ^ i) ≢ 0
bit_and-pow-ne-zero w i e z =
    ground (arith, bit-bit_and w (2 ^ i) i, bit-pow i i, bit-zero i, ap (λ (t : ℕ). bit t i) z)

-- The shift that `(w >> i) & 1` makes.
pub bit-eq-div : (w i : ℕ) → bit w i ≡ w / 2 ^ i % 2
bit-eq-div w zero = omega arith
bit-eq-div w (suc i) =
    bit-eq-div (w / 2) i
    ∙ ap (λ (t : ℕ). t % 2)
        (div-div-eq-div-mul w 2 (2 ^ i) ∙ ap (λ (t : ℕ). w / t) (omega (arith, pow-suc 2 i)))
