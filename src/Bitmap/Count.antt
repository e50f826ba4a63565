-- ===== src/Bitmap/Count.antt =====
-- How many indices below a bound pass a test: the meaning of a bitmap's counter.
use rudo.Prelude.{
  ℕ, zero, suc, ◌+◌, ◌≤◌, ◌<◌, ◌≡◌, refl, Bool, false, ◌||◌, arith, ◌==◌, if◌then◌else◌,
}

abbrev pub count : (ℕ → Bool) → ℕ → ℕ
count p zero = 0
count p (suc n) = (if p n then 1 else 0) + count p n

pub count_ext : (p q : ℕ → Bool) (n : ℕ) → ((i : ℕ) → i < n → p i ≡ q i) → count p n ≡ count q n
count_ext p q zero h = refl
count_ext p q (suc n) h =
    ground (arith, h n (omega arith), count_ext p q n (λ i lt. h i (omega arith)))

count_same : (p : ℕ → Bool) (i n : ℕ) → n ≤ i → count (λ j. (i == j) || p j) n ≡ count p n
count_same p i zero h = refl
count_same p i (suc n) h = ground (arith, count_same p i n (omega arith))

-- Adding an index raises the count by one, unless it was there.
pub count-insert :
    (p : ℕ → Bool) (i n : ℕ)
    → i < n
    → count (λ j. (i == j) || p j) n ≡ count p n + (if p i then 0 else 1)
count-insert p i zero h = absurd (omega arith)
count-insert p i (suc n) h = ground (arith, count-insert p i n, count_same p i n)

pub count-le : (p : ℕ → Bool) (n : ℕ) → count p n ≤ n
count-le p zero = omega arith
count-le p (suc n) = ground (arith, count-le p n)

pub count-none : (n : ℕ) → count (λ _. false) n ≡ 0
count-none zero = refl
count-none (suc n) = omega (arith, count-none n)
