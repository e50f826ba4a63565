-- ===== src/GcBox/Weak.antt =====
-- The weak count and the flags that share its word: neither disturbs the other.
use rudo.Prelude.{
  ℕ, ◌+◌, ◌-◌, ◌*◌, ◌/◌, ◌%◌, ◌^◌, ◌<◌, bit_and, bit_or, ◌≡◌, refl, ap, ◌∙◌, true, false, not, ◌==◌,
  if◌then◌else◌, arith, Bool-cases, inl, inr,
}
use rudo.Prelude.Bits.{
  bit, bit-bit_or, bit-le_one, bit_or-lt, bit_and-pow-eq-zero, bit_and-pow-ne-zero,
}
use rudo.Prelude.Fields.{low_field, high_field, join_fields, or_high, bit_high}
use rudo.Bitmap.{word_mod, complement}
use rudo.GcBox.{
  GcBox, flags_mask, weak_count, has_dead_flag, is_under_construction, has_gen_old_flag, inc_weak,
  dec_weak,
}

-- The weak count's word is a `usize`.
abbrev pub FitsWord : GcBox → Type 0
FitsWord b = b.weak_count < word_mod

-- The largest weak count that leaves the flags alone.
abbrev pub count_mod : ℕ
count_mod = 2 ^ 61

top_three : (f : ℕ) → f < 8 → bit_and f 7 ≡ f
top_three f h =
    let e : f ≡ 0 * 2 ^ 3 + f = omega arith in ap (λ (t : ℕ). bit_and t 7) e ∙ low_field 3 0 f h

split : (w : ℕ) → w ≡ w / count_mod * count_mod + w % count_mod
split w = omega arith

pub count_part : (w : ℕ) → bit_and w (complement flags_mask) ≡ w % count_mod
count_part w =
    ap (λ (t : ℕ). bit_and t (complement flags_mask)) (split w)
    ∙ low_field 61 (w / count_mod) (w % count_mod) (omega arith)

pub flags_part : (w : ℕ) → w < word_mod → bit_and w flags_mask ≡ w / count_mod * count_mod
flags_part w h =
    ap (λ (t : ℕ). bit_and t flags_mask) (split w)
    ∙ high_field 61 (w / count_mod) (w % count_mod) 7 (omega arith)
    ∙ ap (λ (t : ℕ). t * count_mod) (top_three (w / count_mod) (omega arith))

weak_count_lem : (b : GcBox) → weak_count b ≡ b.weak_count % count_mod
unfolding weak_count
weak_count_lem b = count_part b.weak_count

-- The three flags, as the bits of the upper field.
flag_bit :
    (w i : ℕ) → w < word_mod → not (bit_and w (2 ^ (61 + i)) == 0) ≡ (bit (w / count_mod) i == 1)
flag_bit w i h = ground (
  arith,
  bit_and-pow-eq-zero 64 w (61 + i) h,
  bit_and-pow-ne-zero w (61 + i),
  bit_high 61 w i,
  bit-le_one (w / count_mod) i,
)

-- What a header says: its weak count and its three flags.
abbrev pub SameFlags : GcBox → GcBox → Type 0
SameFlags b c =
    (has_dead_flag b ≡ has_dead_flag c)
    × (is_under_construction b ≡ is_under_construction c)
    × (has_gen_old_flag b ≡ has_gen_old_flag c)

SameFlags-of_upper :
    (b c : GcBox)
    → FitsWord b
    → FitsWord c
    → b.weak_count / count_mod ≡ c.weak_count / count_mod
    → SameFlags b c
unfolding has_dead_flag is_under_construction has_gen_old_flag
SameFlags-of_upper b c fb fc e = ground (
  arith,
  flag_bit b.weak_count 2 fb,
  flag_bit b.weak_count 1 fb,
  flag_bit b.weak_count 0 fb,
  flag_bit c.weak_count 2 fc,
  flag_bit c.weak_count 1 fc,
  flag_bit c.weak_count 0 fc,
)

inc_weak_lem :
    (b : GcBox)
    → FitsWord b
    → weak_count b + 1 < count_mod
    → inc_weak b ≡ record b { weak_count = b.weak_count + 1 }
unfolding inc_weak
inc_weak_lem b f room = ground (
  arith,
  weak_count_lem b,
  count_part b.weak_count,
  flags_part b.weak_count f,
  join_fields 61 (b.weak_count / count_mod) (b.weak_count % count_mod + 1)
      (omega (arith, weak_count_lem b)),
)

dec_weak_lem :
    (b : GcBox)
    → FitsWord b
    → dec_weak b ≡ (
        if weak_count b == 0
        then (false, b)
        else (weak_count b == 1, record b { weak_count = b.weak_count - 1 }))
unfolding dec_weak
dec_weak_lem b f = ground (
  arith,
  weak_count_lem b,
  count_part b.weak_count,
  flags_part b.weak_count f,
  join_fields 61 (b.weak_count / count_mod) (b.weak_count % count_mod - 1) (omega arith),
)

-- Below 2^61 - 1 weak references, `inc_weak` adds one to the weak count, leaves the three flags as
-- they are, and `dec_weak` undoes it, telling whether the count was 0.
pub dec_weak-inc_weak :
    (b : GcBox)
    → FitsWord b
    → weak_count b + 1 < count_mod
    → (weak_count (inc_weak b) ≡ weak_count b + 1)
      × SameFlags (inc_weak b) b
      × (dec_weak (inc_weak b) ≡ (weak_count b == 0, b))
dec_weak-inc_weak b f room =
    let c : GcBox = record b { weak_count = b.weak_count + 1 } in
    rw (inc_weak_lem b f room) (
      omega (arith, weak_count_lem b, weak_count_lem c),
      SameFlags-of_upper c b (omega (arith, weak_count_lem b)) f (omega (arith, weak_count_lem b)),
      ground (
        arith,
        dec_weak_lem c (omega (arith, weak_count_lem b)),
        weak_count_lem c,
        weak_count_lem b,
      ),
    )

-- On every branch `dec_weak` leaves the flags alone and lowers the weak count by one, stopping at 0;
-- it returns true exactly when it took the count from 1 to 0.
dec_weak_exact :
    (b : GcBox)
    → FitsWord b
    → let (zeroed, c) = dec_weak b in
      (weak_count c ≡ weak_count b - 1) × SameFlags c b × (zeroed ≡ (weak_count b == 1))
dec_weak_exact b f =
    let c : GcBox = record b { weak_count = b.weak_count - 1 } in
    elim (Bool-cases (weak_count b == 0)) [
      | inl zero ↦ rw (dec_weak_lem b f) (ground (arith, zero))
      | inr some_left ↦ rw (dec_weak_lem b f) (
          rw some_left (
            ground (arith, weak_count_lem b, weak_count_lem c),
            SameFlags-of_upper c b (omega arith) f (ground (arith, weak_count_lem b)),
            refl,
          ))
    ]

or_one : (q : ℕ) → bit_or (q * count_mod) count_mod ≡ bit_or q 1 * count_mod
or_one q = ground (arith, or_high 61 q 0 1)

carried : GcBox → GcBox
carried b = record b { weak_count = bit_or (b.weak_count / count_mod) 1 * count_mod }

inc_weak_full : (b : GcBox) → FitsWord b → weak_count b ≡ count_mod - 1 → inc_weak b ≡ carried b
unfolding inc_weak carried
inc_weak_full b f full = ground (
  arith,
  weak_count_lem b,
  count_part b.weak_count,
  flags_part b.weak_count f,
  or_one (b.weak_count / count_mod),
)

-- At 2^61 - 1 weak references the test for `usize::MAX` does not hold: `inc_weak` carries into the
-- flags, the weak count becomes 0 and the box reads as an old one.
pub inc_weak_carries :
    (b : GcBox)
    → FitsWord b
    → weak_count b ≡ count_mod - 1
    → (weak_count (inc_weak b) ≡ 0) × (has_gen_old_flag (inc_weak b) ≡ true)
unfolding carried has_gen_old_flag
inc_weak_carries b f full =
    let q : ℕ = bit_or (b.weak_count / count_mod) 1 in
    let small : q < 8 = bit_or-lt 3 (b.weak_count / count_mod) 1 (omega arith) (omega arith) in
    let quotient : q * count_mod / count_mod ≡ q = omega arith in
    rw (inc_weak_full b f full) (
      omega (arith, weak_count_lem (carried b)),
      flag_bit (q * count_mod) 0 (omega arith)
          ∙ rw quotient (ground (arith, bit-bit_or (b.weak_count / count_mod) 1 0)),
    )
