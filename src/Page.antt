-- ===== src/Page.antt =====
-- `PageHeader` of crates/rudo-gc/src/heap.rs: the metadata at the start of a page, its three
-- bitmaps, its flags and the head of its free list, with the `lazy-sweep` feature on. A method
-- returns the new header; `none` is the panic of an index past the bitmap's 64 words.
pub mod Marks
pub mod Flags
pub mod Tests
use rudo.Prelude.{
  ℕ, suc, ◌+◌, ◌-◌, ◌*◌, ◌/◌, ◌%◌, ◌^◌, bit_and, bit_or, Bool, true, false, not, ◌&&◌, Option, none,
  some, List, [], ◌∷◌, map, get_elem?, set, replicate, ◌==◌, if◌then◌else◌,
}
use mathlib.Core.Option
use rudo.Bitmap.{Words, word_bits, word_mod, mask_of, test, fetch_or, fetch_and_not}

abbrev pub magic_gc_page : ℕ
magic_gc_page = 0x5255_4447

abbrev pub page_flag_large : ℕ
page_flag_large = 0x01

abbrev pub page_flag_orphan : ℕ
page_flag_orphan = 0x02

abbrev pub page_flag_needs_sweep : ℕ
page_flag_needs_sweep = 0x04

abbrev pub page_flag_all_dead : ℕ
page_flag_all_dead = 0x08

abbrev pub page_flag_dirty_listed : ℕ
page_flag_dirty_listed = 0x10

abbrev pub bitmap_size : ℕ
bitmap_size = 64

-- `FREE_LIST_NONE`, `u16::MAX`
abbrev pub free_list_none : ℕ
free_list_none = 2 ^ 16 - 1

pub record PageHeader : Type 0 where
  pub magic : ℕ
  pub block_size : ℕ
  pub obj_count : ℕ
  pub header_size : ℕ
  pub generation : ℕ
  pub flags : ℕ
  pub owner_thread : ℕ
  pub dead_count : ℕ
  pub mark_bitmap : Words
  pub dirty_bitmap : Words
  pub allocated_bitmap : Words
  pub free_list_head : ℕ

unfoldable pub is_marked : PageHeader → ℕ → Option Bool
is_marked h index = test h.mark_bitmap index

-- With `true` if the bit was newly set.
unfoldable pub set_mark : PageHeader → ℕ → Option (Bool × PageHeader)
set_mark h index =
    Option.map
      (λ (old, words). (bit_and old (mask_of index) == 0, record h { mark_bitmap = words }))
      (fetch_or h.mark_bitmap index)

-- `Ok(b)` and `Err(())` of `try_mark`.
pub data TryMark : Type 0 where
  marked : Bool → TryMark
  contended : TryMark

-- `try_mark` loads a word, and later exchanges it. `seen` is the header at the load and `h` the
-- header at the exchange: other threads may have written in between.
unfoldable pub try_mark : PageHeader → PageHeader → ℕ → Option (TryMark × PageHeader)
try_mark seen h index =
    let word = index / word_bits in
    let mask = mask_of index in
    elim (get_elem? seen.mark_bitmap word) [
      | none ↦ none
      | some old ↦
          if not (bit_and old mask == 0)
          then some (marked false, h)
          else Option.map
              (λ now.
                if now == old
                then (
                  marked true,
                  record h { mark_bitmap = set h.mark_bitmap word (bit_or old mask) },
                )
                else (contended, h))
              (get_elem? h.mark_bitmap word)
    ]

-- The loop over the words of both bitmaps; both have `BITMAP_SIZE` words.
pub fully_marked : Words → Words → Bool
fully_marked (mark_word ∷ marks) (alloc_word ∷ allocs) =
    (bit_and mark_word alloc_word == alloc_word) && fully_marked marks allocs
fully_marked _ _ = true

unfoldable pub is_fully_marked : PageHeader → Bool
unfolding fully_marked
is_fully_marked h = fully_marked h.mark_bitmap h.allocated_bitmap

unfoldable pub clear_mark : PageHeader → ℕ → Option PageHeader
clear_mark h index =
    Option.map (λ words. record h { mark_bitmap = words }) (fetch_and_not h.mark_bitmap index)

-- The same on a shared reference.
unfoldable pub clear_mark_atomic : PageHeader → ℕ → Option PageHeader
clear_mark_atomic h index =
    Option.map (λ words. record h { mark_bitmap = words }) (fetch_and_not h.mark_bitmap index)

unfoldable pub clear_all_marks : PageHeader → PageHeader
clear_all_marks h = record h { mark_bitmap = map (λ _. 0) h.mark_bitmap }

unfoldable pub is_dirty : PageHeader → ℕ → Option Bool
is_dirty h index = test h.dirty_bitmap index

unfoldable pub set_dirty : PageHeader → ℕ → Option PageHeader
set_dirty h index =
    Option.map (λ (_, words). record h { dirty_bitmap = words }) (fetch_or h.dirty_bitmap index)

unfoldable pub clear_dirty : PageHeader → ℕ → Option PageHeader
clear_dirty h index =
    Option.map (λ words. record h { dirty_bitmap = words }) (fetch_and_not h.dirty_bitmap index)

unfoldable pub clear_all_dirty : PageHeader → PageHeader
clear_all_dirty h = record h { dirty_bitmap = map (λ _. 0) h.dirty_bitmap }

unfoldable pub is_allocated : PageHeader → ℕ → Option Bool
is_allocated h index = test h.allocated_bitmap index

unfoldable pub set_allocated : PageHeader → ℕ → Option PageHeader
set_allocated h index =
    Option.map (λ (_, words). record h { allocated_bitmap = words })
      (fetch_or h.allocated_bitmap index)

unfoldable pub clear_allocated : PageHeader → ℕ → Option PageHeader
clear_allocated h index =
    Option.map (λ words. record h { allocated_bitmap = words })
      (fetch_and_not h.allocated_bitmap index)

unfoldable pub clear_all_allocated : PageHeader → PageHeader
clear_all_allocated h = record h { allocated_bitmap = map (λ _. 0) h.allocated_bitmap }

-- `(flags & flag) != 0`, `flags |= flag`, `flags &= !flag` on a `u8`
unfoldable pub has_flag : ℕ → PageHeader → Bool
has_flag flag h = not (bit_and h.flags flag == 0)

unfoldable pub set_flag : ℕ → PageHeader → PageHeader
set_flag flag h = record h { flags = bit_or h.flags flag }

unfoldable pub clear_flag : ℕ → PageHeader → PageHeader
clear_flag flag h = record h { flags = bit_and h.flags (255 - flag) }

abbrev pub is_dirty_listed : PageHeader → Bool
is_dirty_listed = has_flag page_flag_dirty_listed

abbrev pub set_dirty_listed : PageHeader → PageHeader
set_dirty_listed = set_flag page_flag_dirty_listed

abbrev pub clear_dirty_listed : PageHeader → PageHeader
clear_dirty_listed = clear_flag page_flag_dirty_listed

abbrev pub needs_sweep : PageHeader → Bool
needs_sweep = has_flag page_flag_needs_sweep

abbrev pub set_needs_sweep : PageHeader → PageHeader
set_needs_sweep = set_flag page_flag_needs_sweep

abbrev pub clear_needs_sweep : PageHeader → PageHeader
clear_needs_sweep = clear_flag page_flag_needs_sweep

abbrev pub all_dead : PageHeader → Bool
all_dead = has_flag page_flag_all_dead

abbrev pub set_all_dead : PageHeader → PageHeader
set_all_dead = set_flag page_flag_all_dead

abbrev pub clear_all_dead : PageHeader → PageHeader
clear_all_dead = clear_flag page_flag_all_dead

abbrev pub is_large_object : PageHeader → Bool
is_large_object = has_flag page_flag_large

abbrev pub set_large_object : PageHeader → PageHeader
set_large_object = set_flag page_flag_large

abbrev pub is_orphan : PageHeader → Bool
is_orphan = has_flag page_flag_orphan

abbrev pub set_orphan : PageHeader → PageHeader
set_orphan = set_flag page_flag_orphan

unfoldable pub set_dead_count : PageHeader → ℕ → PageHeader
set_dead_count h count = record h { dead_count = count }

unfoldable pub increment_dead_count : PageHeader → PageHeader
increment_dead_count h = record h { dead_count = (h.dead_count + 1) % 2 ^ 16 }

-- A `u16` with its `FREE_LIST_NONE` read as `None`, and written back.
abbrev pub decode_head : ℕ → Option ℕ
decode_head val = if val == free_list_none then none else some val

abbrev pub encode_head : Option ℕ → ℕ
encode_head none = free_list_none
encode_head (some idx) = idx

unfoldable pub free_list_head : PageHeader → Option ℕ
free_list_head h = decode_head h.free_list_head

-- `Ok(v)` and `Err(v)` of the exchange.
pub data Exchange : Type 0 where
  done : Option ℕ → Exchange
  lost : Option ℕ → Exchange

unfoldable pub compare_exchange_free_list : PageHeader → Option ℕ → Option ℕ → Exchange × PageHeader
compare_exchange_free_list h current new =
    if h.free_list_head == encode_head current
    then (done (decode_head h.free_list_head), record h { free_list_head = encode_head new })
    else (lost (decode_head h.free_list_head), h)

unfoldable pub set_free_list_head : PageHeader → Option ℕ → PageHeader
set_free_list_head h head = record h { free_list_head = encode_head head }
