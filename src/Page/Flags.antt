-- ===== src/Page/Flags.antt =====
-- The flags byte of a page header, and the head of its free list.
use native.Mathlib.Nat.{pow-le-pow_right}
use rudo.Prelude.{
  ℕ, ◌-◌, ◌^◌, ◌<◌, bit_and, bit_or, ◌≡◌, refl, ◌≢◌, not, ◌&&◌, ◌||◌, Option, none, some, ◌==◌,
  arith, Bool-cases, inl, inr,
}
use rudo.Prelude.Bits.{bit, bit-bit_and, bit-bit_or, bit-pow, bit_complement, bit-le_one}
use rudo.Prelude.Bits.{bit_and-lt, bit_or-lt, bit_and-pow-eq-zero, bit_and-pow-ne-zero}
use rudo.Page.{
  PageHeader, has_flag, set_flag, clear_flag, free_list_none, free_list_head, set_free_list_head,
  compare_exchange_free_list, decode_head, encode_head, done, lost,
}

pow_byte-lt : (i : ℕ) → i < 8 → 2 ^ i < 256
pow_byte-lt i h =
    omega (arith, pow-le-pow_right {n = 2} (omega arith) {i = i} {j = 7} (omega arith))

has_flag-bit : (h : PageHeader) (i : ℕ) → h.flags < 256 → has_flag (2 ^ i) h ≡ (bit h.flags i == 1)
unfolding has_flag
has_flag-bit h i fits = ground (
  arith,
  bit_and-pow-eq-zero 8 h.flags i fits,
  bit_and-pow-ne-zero h.flags i,
  bit-le_one h.flags i,
)

module _ (h : PageHeader) (fits : h.flags < 256) (i : ℕ) (hi : i < 8) where
  set_flag-fits : bit_or h.flags (2 ^ i) < 256
  set_flag-fits = bit_or-lt 8 h.flags (2 ^ i) fits (pow_byte-lt i hi)

  clear_flag-fits : bit_and h.flags (255 - 2 ^ i) < 256
  clear_flag-fits = bit_and-lt 8 h.flags (255 - 2 ^ i) fits

  -- Setting or clearing one of the eight flags changes what that flag reads as, and no other flag
  -- and no other field of the header.
  pub flags_independent :
      ((j : ℕ) → j < 8 → has_flag (2 ^ j) (set_flag (2 ^ i) h) ≡ ((i == j) || has_flag (2 ^ j) h))
      × ((j : ℕ)
          → j < 8
          → has_flag (2 ^ j) (clear_flag (2 ^ i) h) ≡ (not (i == j) && has_flag (2 ^ j) h))
      × (record (set_flag (2 ^ i) h) { flags = h.flags } ≡ h)
      × (record (clear_flag (2 ^ i) h) { flags = h.flags } ≡ h)
  unfolding set_flag clear_flag
  flags_independent = (
    (λ j hj. ground (
      arith,
      has_flag-bit (record h { flags = bit_or h.flags (2 ^ i) }) j set_flag-fits,
      has_flag-bit h j fits,
      bit-bit_or h.flags (2 ^ i) j,
      bit-pow i j,
      bit-le_one h.flags j,
    )),
    (λ j hj. ground (
      arith,
      has_flag-bit (record h { flags = bit_and h.flags (255 - 2 ^ i) }) j clear_flag-fits,
      has_flag-bit h j fits,
      bit-bit_and h.flags (255 - 2 ^ i) j,
      bit_complement 8 (2 ^ i) j (pow_byte-lt i hi) hj,
      bit-pow i j,
      bit-le_one h.flags j,
    )),
    refl,
    refl,
  )

-- A slot index that a free list can hold: any `u16` but the end mark.
abbrev pub IsSlot : Option ℕ → Type 0
IsSlot none = Unit
IsSlot (some idx) = idx < free_list_none

pub decode-encode : (head : Option ℕ) → IsSlot head → decode_head (encode_head head) ≡ head
decode-encode none s = refl
decode-encode (some idx) s = ground arith

pub encode-decode : (x : ℕ) → encode_head (decode_head x) ≡ x
encode-decode x = elim (Bool-cases (x == free_list_none)) [
  | inl e ↦ ground (arith, e)
  | inr e ↦ ground (arith, e)
]

-- The exchange on the free list's head succeeds if the head is the expected one: it returns the old
-- head and installs the new one, which is then read back.
exchange_won :
    (h : PageHeader) (current new : Option ℕ)
    → IsSlot new
    → free_list_head h ≡ current
    → (compare_exchange_free_list h current new ≡ (done current, set_free_list_head h new))
      × (free_list_head (set_free_list_head h new) ≡ new)
unfolding compare_exchange_free_list free_list_head set_free_list_head
exchange_won h current new u same =
    (ground (arith, encode-decode h.free_list_head), decode-encode new u)

-- An exchange that expects another head than the one there is returns that head and changes nothing.
exchange_lost :
    (h : PageHeader) (current new : Option ℕ)
    → IsSlot current
    → free_list_head h ≢ current
    → compare_exchange_free_list h current new ≡ (lost (free_list_head h), h)
unfolding compare_exchange_free_list free_list_head
exchange_lost h current new t differ =
    ground (arith, encode-decode h.free_list_head, decode-encode current t)
