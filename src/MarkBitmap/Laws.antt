-- ===== src/MarkBitmap/Laws.antt =====
-- The counter of a mark bitmap is the number of marked slots, and marking is idempotent.
use native.Mathlib.Nat.{mod-eq_of_lt, le_trans, div-le_self}
use Prim.Native.Nat.{suc-le-suc}
use rudo.Prelude.{
  ℕ, ◌+◌, ◌*◌, ◌/◌, ◌%◌, ◌^◌, ◌≤◌, ◌<◌, ◌≡◌, refl, ap, ◌∙◌, false, ◌||◌, some, map, [], ◌∷◌, get_or,
  replicate, length, ◌==◌, arith, if◌then◌else◌, length-set, sym, length-replicate,
}
use rudo.Prelude.Bits.{bit-eq-div}
use rudo.Bitmap.{Words, word_mod}
use rudo.Bitmap.Laws.{mask_test, get_elem?-eq-get_or}
use rudo.Bitmap.Laws.{has, IsBitmap, with_bit, fetch_or_lem, old_word, has-with_bit}
use rudo.Bitmap.Laws.{with_bit-IsBitmap, has-replicate, replicate-IsBitmap}
use rudo.Bitmap.Count.{count, count_ext, count-insert, count-le, count-none}
use rudo.MarkBitmap.{MarkBitmap, new, mark, is_marked, clear}

-- Number of slots that the words of a bitmap with `capacity` slots hold.
abbrev pub slots : MarkBitmap → ℕ
slots m = length m.bitmap * 64

pub record IsValid (m : MarkBitmap) : Type 0 where
  pub words : IsBitmap (length m.bitmap) m.bitmap
  pub room : m.capacity ≤ slots m
  pub small : slots m < word_mod
  pub counted : m.marked_count ≡ count (has m.bitmap) (slots m)

-- A slot in range reads as its bit.
pub is_marked-has :
    (m : MarkBitmap) (i : ℕ) → IsValid m → i < slots m → is_marked m i ≡ some (has m.bitmap i)
unfolding is_marked
is_marked-has m i v h =
    let w : ℕ = get_or m.bitmap (i / 64) 0 in
    ground (
      arith,
      get_elem?-eq-get_or m.bitmap (i / 64) (omega arith),
      mask_test (w / 2 ^ (i % 64)) 0
          (le_trans (suc-le-suc (div-le_self w (2 ^ (i % 64)))) (v.words.fits (i / 64))),
      bit-eq-div w (i % 64),
    )

-- What `mark` returns for a slot in range.
abbrev pub marked : MarkBitmap → ℕ → MarkBitmap
marked m i = record m {
  bitmap = with_bit m.bitmap i;
  marked_count = if has m.bitmap i then m.marked_count else (m.marked_count + 1) % word_mod;
}

pub mark_lem : (m : MarkBitmap) (i : ℕ) → IsValid m → i < slots m → mark m i ≡ some (marked m i)
unfolding mark
mark_lem m i v h =
    rw (fetch_or_lem m.bitmap v.words i h) (ground (arith, old_word m.bitmap v.words i h))

length-with_bit : (m : MarkBitmap) (i : ℕ) → length (with_bit m.bitmap i) ≡ length m.bitmap
length-with_bit m i = length-set m.bitmap (i / 64) _

counter-marked :
    (m : MarkBitmap) (i : ℕ)
    → IsValid m
    → i < slots m
    → (marked m i).marked_count ≡ m.marked_count + (if has m.bitmap i then 0 else 1)
counter-marked m i v h = ground (
  arith,
  v.counted,
  count-insert (has m.bitmap) i (slots m) h,
  count-le (λ j. (i == j) || has m.bitmap j) (slots m),
  mod-eq_of_lt {n = m.marked_count + 1} {m = word_mod},
)

count-marked :
    (m : MarkBitmap) (i : ℕ)
    → IsValid m
    → i < slots m
    → (marked m i).marked_count ≡ count (has (with_bit m.bitmap i)) (slots m)
count-marked m i v h =
    counter-marked m i v h
    ∙ ap (λ k. k + (if has m.bitmap i then 0 else 1)) v.counted
    ∙ sym (count-insert (has m.bitmap) i (slots m) h)
    ∙ sym (
        count_ext (has (with_bit m.bitmap i)) (λ j. (i == j) || has m.bitmap j) (slots m)
          (λ j lt. has-with_bit m.bitmap v.words i h j))

-- Marking a slot in range keeps the counter equal to the number of marked slots, without overflow.
pub marked-IsValid : (m : MarkBitmap) (i : ℕ) → IsValid m → i < slots m → IsValid (marked m i)
marked-IsValid m i v h =
    let e : length (with_bit m.bitmap i) ≡ length m.bitmap = length-with_bit m i in
    let b : IsBitmap (length m.bitmap) (with_bit m.bitmap i) =
      with_bit-IsBitmap m.bitmap v.words i h in
    record {
      words = record { size = refl; fits = b.fits };
      room = omega (arith, v.room, e);
      small = omega (arith, v.small, e);
      counted = count-marked m i v h ∙ ap (λ k. count (has (with_bit m.bitmap i)) (k * 64)) (sym e);
    }

-- A slot in range can be marked: `mark` returns a valid bitmap in which that slot is marked besides
-- the old ones, and whose counter is one more exactly if the slot was not marked before.
pub mark_exact :
    (m : MarkBitmap) (i : ℕ)
    → IsValid m
    → i < slots m
    → (m' : MarkBitmap) × (mark m i ≡ some m')
      × IsValid m'
      × (m'.marked_count ≡ m.marked_count + (if has m.bitmap i then 0 else 1))
      × ((j : ℕ) → has m'.bitmap j ≡ ((i == j) || has m.bitmap j))
mark_exact m i v h = (
  marked m i,
  mark_lem m i v h,
  marked-IsValid m i v h,
  counter-marked m i v h,
  has-with_bit m.bitmap v.words i h,
)

map-zero : (words : Words) → map {B = ℕ} (λ _. 0) words ≡ replicate (length words) 0
map-zero [] = refl
map-zero (w ∷ ws) = ap (λ (r : Words). 0 ∷ r) (map-zero ws)

count-zeros : (k n : ℕ) → count (has (replicate k 0)) n ≡ 0
count-zeros k n =
    count_ext (has (replicate k 0)) (λ _. false) n (λ i _. has-replicate k i) ∙ count-none n

pub fresh-IsValid :
    (k capacity : ℕ)
    → capacity ≤ k * 64
    → k * 64 < word_mod
    → IsValid (record { bitmap = replicate k 0; capacity = capacity; marked_count = 0 })
fresh-IsValid k capacity h small =
    let e : length (replicate {A = ℕ} k 0) ≡ k = length-replicate k 0 in
    record {
      words = record { size = refl; fits = (replicate-IsBitmap k).fits };
      room = omega (arith, e);
      small = omega (arith, e);
      counted = sym (count-zeros k (length (replicate {A = ℕ} k 0) * 64));
    }

-- For a multiple of 64, `new` returns a valid bitmap of that capacity with nothing marked, whose words
-- hold 64 slots more than the capacity asks for.
new_exact :
    (capacity : ℕ)
    → capacity + 128 < word_mod
    → capacity % 64 ≡ 0
    → (m : MarkBitmap) × (new capacity ≡ some m)
      × IsValid m
      × (m.capacity ≡ capacity)
      × (slots m ≡ capacity + 64)
      × ((i : ℕ) → has m.bitmap i ≡ false)
unfolding new
new_exact capacity small h =
    let k : ℕ = capacity / 64 + 1 in
    (
      record { bitmap = replicate k 0; capacity = capacity; marked_count = 0 },
      ground arith,
      fresh-IsValid k capacity (omega arith) (omega arith),
      refl,
      omega (arith, length-replicate {A = ℕ} k 0),
      has-replicate k,
    )

-- `clear` unmarks every slot and keeps the bitmap valid.
clear_exact :
    (m : MarkBitmap)
    → IsValid m
    → IsValid (clear m) × ((i : ℕ) → has (clear m).bitmap i ≡ false) × ((clear m).marked_count ≡ 0)
unfolding clear
clear_exact m v =
    let e : map {B = ℕ} (λ _. 0) m.bitmap ≡ replicate (length m.bitmap) 0 = map-zero m.bitmap in
    (
      rw e (fresh-IsValid (length m.bitmap) m.capacity v.room v.small),
      λ i. rw e (has-replicate (length m.bitmap) i),
      refl,
    )
