-- ===== src/Prelude/Fields.antt =====
-- Words cut in two fields, `q * 2 ^ k + r` with `r < 2 ^ k`: masks, joins and bits of the parts.
use native.Mathlib.Nat.{pow-suc, div-div-eq-div-mul}
use rudo.Prelude.{
  ℕ, zero, suc, ◌+◌, ◌-◌, ◌*◌, ◌/◌, ◌^◌, ◌<◌, ◌≤◌, bit_and, bit_or, ◌≡◌, refl, ap, ◌∙◌, arith,
}
use rudo.Prelude.Bits.{bit, bit_and_unroll, bit_or_unroll}

double : (q k : ℕ) → q * 2 ^ suc k ≡ 2 * (q * 2 ^ k)
double q k = omega (arith, ap (λ (t : ℕ). q * t) (pow-suc 2 k))

bit_and-zero_fuel : (n a : ℕ) → a ≤ n → bit_and a 0 ≡ 0
bit_and-zero_fuel zero zero h = refl
bit_and-zero_fuel zero (suc a) h = absurd (omega arith)
bit_and-zero_fuel (suc n) zero h = refl
bit_and-zero_fuel (suc n) (suc a) h =
    bit_and_unroll (suc a) 0 ∙ omega (arith, bit_and-zero_fuel n (suc a / 2) (omega arith))

bit_or-zero_fuel : (n a : ℕ) → a ≤ n → bit_or a 0 ≡ a
bit_or-zero_fuel zero zero h = refl
bit_or-zero_fuel zero (suc a) h = absurd (omega arith)
bit_or-zero_fuel (suc n) zero h = refl
bit_or-zero_fuel (suc n) (suc a) h =
    bit_or_unroll (suc a) 0 ∙ omega (arith, bit_or-zero_fuel n (suc a / 2) (omega arith))

-- `x & (2^k - 1)` is the low field.
pub low_field : (k q r : ℕ) → r < 2 ^ k → bit_and (q * 2 ^ k + r) (2 ^ k - 1) ≡ r
low_field zero q r h = bit_and-zero_fuel (q * 2 ^ 0 + r) (q * 2 ^ 0 + r) (omega arith) ∙ omega arith
low_field (suc k) q r h = ground (
  arith,
  bit_and_unroll (q * 2 ^ suc k + r) (2 ^ suc k - 1),
  double q k,
  pow-suc 2 k,
  low_field k q (r / 2) (omega (arith, pow-suc 2 k)),
)

-- `x & (m << k)` masks the high field.
pub high_field :
    (k q r m : ℕ) → r < 2 ^ k → bit_and (q * 2 ^ k + r) (m * 2 ^ k) ≡ bit_and q m * 2 ^ k
high_field zero q r m h = ground arith
high_field (suc k) q r m h = ground (
  arith,
  bit_and_unroll (q * 2 ^ suc k + r) (m * 2 ^ suc k),
  double q k,
  double m k,
  double (bit_and q m) k,
  pow-suc 2 k,
  high_field k q (r / 2) m (omega (arith, pow-suc 2 k)),
)

-- `(q << k) | r` joins the fields.
pub join_fields : (k q r : ℕ) → r < 2 ^ k → bit_or (q * 2 ^ k) r ≡ q * 2 ^ k + r
join_fields zero q r h = ground (arith, bit_or-zero_fuel q q)
join_fields (suc k) q r h = ground (
  arith,
  bit_or_unroll (q * 2 ^ suc k) r,
  double q k,
  pow-suc 2 k,
  join_fields k q (r / 2) (omega (arith, pow-suc 2 k)),
)

-- The bits of the high field.
pub bit_high : (k w i : ℕ) → bit w (k + i) ≡ bit (w / 2 ^ k) i
bit_high zero w i = ap (bit w) zero_left ∙ ap (λ (t : ℕ). bit t i) (omega arith)
  where
    zero_left : 0 + i ≡ i
    zero_left = omega arith
bit_high (suc k) w i =
    ap (bit w) shift
    ∙ bit_high k (w / 2) i
    ∙ ap (λ (t : ℕ). bit t i)
        (div-div-eq-div-mul w 2 (2 ^ k) ∙ ap (λ (t : ℕ). w / t) (omega (arith, pow-suc 2 k)))
  where
    shift : suc k + i ≡ suc (k + i)
    shift = omega arith

-- `x | (m << k)` and `x & !(m << k)` leave the low field.
pub or_high :
    (k q r m : ℕ) → r < 2 ^ k → bit_or (q * 2 ^ k + r) (m * 2 ^ k) ≡ bit_or q m * 2 ^ k + r
or_high zero q r m h = ground arith
or_high (suc k) q r m h = ground (
  arith,
  bit_or_unroll (q * 2 ^ suc k + r) (m * 2 ^ suc k),
  double q k,
  double m k,
  double (bit_or q m) k,
  pow-suc 2 k,
  or_high k q (r / 2) m (omega (arith, pow-suc 2 k)),
)

pub and_high :
    (k q r m : ℕ)
    → r < 2 ^ k
    → bit_and (q * 2 ^ k + r) (m * 2 ^ k + (2 ^ k - 1)) ≡ bit_and q m * 2 ^ k + r
and_high zero q r m h = ground arith
and_high (suc k) q r m h = ground (
  arith,
  bit_and_unroll (q * 2 ^ suc k + r) (m * 2 ^ suc k + (2 ^ suc k - 1)),
  double q k,
  double m k,
  double (bit_and q m) k,
  pow-suc 2 k,
  and_high k q (r / 2) m (omega (arith, pow-suc 2 k)),
)
