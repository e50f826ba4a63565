-- ===== src/Page/Marks.antt =====
-- The bitmaps of a page header as sets of indices below 4096.
use rudo.Prelude.{
  ℕ, zero, suc, ◌+◌, ◌*◌, ◌/◌, ◌%◌, ◌<◌, bit_and, bit_or, ◌≡◌, refl, ap, ◌≢◌, ◌↔◌, Bool, true,
  false, not, ◌&&◌, ◌||◌, some, [], ◌∷◌, get_or, set, length, ◌==◌, if◌then◌else◌, arith,
}
use rudo.Prelude.Bits.{bit, bit-bit_and, bit-le_one, bit_ext, bit_and-lt}
use rudo.Bitmap.{Words, word_mod, mask_of}
use rudo.Bitmap.Laws.{has, IsBitmap, with_bit, without_bit, fetch_or_lem, fetch_and_not_lem}
use rudo.Bitmap.Laws.{
  old_word, has-with_bit, has-without_bit, with_bit-IsBitmap, without_bit-IsBitmap,
}
use rudo.Bitmap.Laws.{read_word}
use rudo.Page.{
  PageHeader, bitmap_size, set_mark, try_mark, TryMark, marked, contended, fully_marked,
  is_fully_marked, clear_mark,
}

-- The indices of a page.
abbrev pub max_index : ℕ
max_index = 4096

pub record IsWf (h : PageHeader) : Type 0 where
  pub marks : IsBitmap bitmap_size h.mark_bitmap
  pub dirty : IsBitmap bitmap_size h.dirty_bitmap
  pub allocated : IsBitmap bitmap_size h.allocated_bitmap

module _ (h : PageHeader) (w : IsWf h) (i : ℕ) (in_page : i < max_index) where
  -- Marking returns whether the object was not marked before; afterwards it is marked, and no other
  -- mark, bitmap or field has changed.
  set_mark_exact :
      (h' : PageHeader) × (set_mark h i ≡ some (not (has h.mark_bitmap i), h'))
      × IsWf h'
      × ((j : ℕ) → has h'.mark_bitmap j ≡ ((i == j) || has h.mark_bitmap j))
      × (record h' { mark_bitmap = h.mark_bitmap } ≡ h)
  unfolding set_mark
  set_mark_exact = (
    record h { mark_bitmap = with_bit h.mark_bitmap i },
    rw (fetch_or_lem h.mark_bitmap w.marks i in_page)
        (rw (old_word h.mark_bitmap w.marks i in_page)),
    record {
      marks = with_bit-IsBitmap h.mark_bitmap w.marks i in_page;
      dirty = w.dirty;
      allocated = w.allocated;
    },
    has-with_bit h.mark_bitmap w.marks i in_page,
    refl,
  )

  -- Clearing a mark removes that index alone.
  clear_mark_exact :
      (h' : PageHeader) × (clear_mark h i ≡ some h')
      × IsWf h'
      × ((j : ℕ) → has h'.mark_bitmap j ≡ (not (i == j) && has h.mark_bitmap j))
      × (record h' { mark_bitmap = h.mark_bitmap } ≡ h)
  unfolding clear_mark
  clear_mark_exact = (
    record h { mark_bitmap = without_bit h.mark_bitmap i },
    rw (fetch_and_not_lem h.mark_bitmap w.marks i in_page),
    record {
      marks = without_bit-IsBitmap h.mark_bitmap w.marks i in_page;
      dirty = w.dirty;
      allocated = w.allocated;
    },
    has-without_bit h.mark_bitmap w.marks i in_page,
    refl,
  )

-- One word of `is_fully_marked`.
word_covers :
    (m a : ℕ)
    → m < word_mod
    → a < word_mod
    → (bit_and m a ≡ a) ↔ ((j : ℕ) → j < 64 → bit a j ≡ 1 → bit m j ≡ 1)
word_covers m a hm ha = (
  (λ e j lt one. ground (arith, bit-bit_and m a j, ap (λ (t : ℕ). bit t j) e, bit-le_one m j)),
  (λ covers.
      bit_ext 64 (bit_and m a) a (bit_and-lt 64 m a hm) ha
        λ j lt. ground (arith, bit-bit_and m a j, covers j lt, bit-le_one m j, bit-le_one a j)),
)

fully_marked-word :
    (ms allocs : Words) (k : ℕ)
    → fully_marked ms allocs ≡ true
    → k < length ms
    → k < length allocs
    → bit_and (get_or ms k 0) (get_or allocs k 0) ≡ get_or allocs k 0
unfolding fully_marked
fully_marked-word [] allocs k e hm ha = absurd (omega arith)
fully_marked-word (m ∷ ms) [] k e hm ha = absurd (omega arith)
fully_marked-word (m ∷ ms) (a ∷ allocs) zero e hm ha = ground arith
fully_marked-word (m ∷ ms) (a ∷ allocs) (suc k) e hm ha =
    fully_marked-word ms allocs k (ground arith) (omega arith) (omega arith)

fully_marked_of_words :
    (ms allocs : Words)
    → ((k : ℕ) → k < length ms → bit_and (get_or ms k 0) (get_or allocs k 0) ≡ get_or allocs k 0)
    → fully_marked ms allocs ≡ true
unfolding fully_marked
fully_marked_of_words [] allocs h = refl
fully_marked_of_words (m ∷ ms) [] h = refl
fully_marked_of_words (m ∷ ms) (a ∷ allocs) h =
    ground (arith, h 0, fully_marked_of_words ms allocs (λ k lt. h (suc k) (omega arith)))

-- `is_fully_marked` holds exactly if every allocated object of the page is marked.
pub is_fully_marked_iff :
    (h : PageHeader)
    → IsWf h
    → (is_fully_marked h ≡ true)
      ↔ ((i : ℕ) → i < max_index → has h.allocated_bitmap i ≡ true → has h.mark_bitmap i ≡ true)
unfolding is_fully_marked
is_fully_marked_iff h w = (all, back)
  where
    covers :
        (k : ℕ)
        → (bit_and (get_or h.mark_bitmap k 0) (get_or h.allocated_bitmap k 0)
            ≡ get_or h.allocated_bitmap k 0)
          ↔ ((j : ℕ)
              → j < 64
              → bit (get_or h.allocated_bitmap k 0) j ≡ 1
              → bit (get_or h.mark_bitmap k 0) j ≡ 1)
    covers k =
        word_covers (get_or h.mark_bitmap k 0) (get_or h.allocated_bitmap k 0) (w.marks.fits k)
          (w.allocated.fits k)

    all :
        fully_marked h.mark_bitmap h.allocated_bitmap ≡ true
        → (i : ℕ) → i < max_index
        → has h.allocated_bitmap i ≡ true
        → has h.mark_bitmap i ≡ true
    all e i lt a = ground (
      arith,
      (covers (i / 64)).0
          (fully_marked-word h.mark_bitmap h.allocated_bitmap (i / 64) e
            (omega (arith, w.marks.size)) (omega (arith, w.allocated.size)))
          (i % 64) (omega arith),
    )

    back :
        ((i : ℕ) → i < max_index → has h.allocated_bitmap i ≡ true → has h.mark_bitmap i ≡ true)
        → fully_marked h.mark_bitmap h.allocated_bitmap ≡ true
    back f = fully_marked_of_words h.mark_bitmap h.allocated_bitmap λ k lt. (covers k).1 λ j lt'.
        let quotient : (k * 64 + j) / 64 ≡ k = omega arith in
        let rest : (k * 64 + j) % 64 ≡ j = omega arith in
        ground (arith, f (k * 64 + j) (omega (arith, w.marks.size)), quotient, rest)

abbrev pub won : TryMark → Bool
won (marked newly) = newly
won contended = false

module _ (seen h : PageHeader) (ws : IsWf seen) (w : IsWf h) (i : ℕ) (in_page : i < max_index) where
  abbrev old_at : ℕ
  old_at = get_or seen.mark_bitmap (i / 64) 0

  abbrev now_at : ℕ
  now_at = get_or h.mark_bitmap (i / 64) 0

  abbrev outcome : TryMark × PageHeader
  outcome =
      if has seen.mark_bitmap i
      then (marked false, h)
      else if now_at == old_at
      then (
        marked true,
        record h { mark_bitmap = set h.mark_bitmap (i / 64) (bit_or old_at (mask_of i)) },
      )
      else (contended, h)

  try_mark_lem : try_mark seen h i ≡ some outcome
  unfolding try_mark
  try_mark_lem = ground (
    arith,
    read_word seen.mark_bitmap ws.marks i in_page,
    read_word h.mark_bitmap w.marks i in_page,
    old_word seen.mark_bitmap ws.marks i in_page,
  )

  -- `try_mark` loads the word at `seen` and exchanges it at `h`. It returns `Ok(false)` exactly if
  -- the object was marked at the load, the error exactly if it was not and the word has changed in
  -- between, and `Ok(true)` exactly if it was not and the word is the same. Only then does the
  -- header change: that object is marked besides those that are.
  try_mark_exact :
      (r : TryMark) × (h' : PageHeader) × (try_mark seen h i ≡ some (r, h'))
      × (r ≡ marked false ↔ has seen.mark_bitmap i ≡ true)
      × (r ≡ contended ↔ (has seen.mark_bitmap i ≡ false) × (old_at ≢ now_at))
      × (r ≡ marked true ↔ (has seen.mark_bitmap i ≡ false) × (old_at ≡ now_at))
      × ((j : ℕ) → has h'.mark_bitmap j ≡ ((won r && (i == j)) || has h.mark_bitmap j))
      × (record h' { mark_bitmap = h.mark_bitmap } ≡ h)
  try_mark_exact = (
    outcome.0,
    outcome.1,
    try_mark_lem,
    ((λ e. ground arith), (λ e. ground arith)),
    ((λ e. ground arith), (λ e. ground arith)),
    ((λ e. ground arith), (λ e. ground arith)),
    (λ j. ground (arith, has-with_bit h.mark_bitmap w.marks i in_page j)),
    ground arith,
  )

-- With nobody else at the page, `try_mark` cannot lose its exchange.
pub try_mark_quiet :
    (h : PageHeader) (w : IsWf h) (i : ℕ)
    → i < max_index
    → try_mark h h i
      ≡ some (
          if has h.mark_bitmap i
          then (marked false, h)
          else (marked true, record h { mark_bitmap = with_bit h.mark_bitmap i }))
try_mark_quiet h w i lt = ground (arith, try_mark_lem h h w w i lt)
