-- ===== src/Buffers.antt =====
-- The buffers that the write barriers of `LocalHeap` fill, of crates/rudo-gc/src/heap.rs: the list of
-- dirty pages, the remembered buffer and the SATB buffers. A page is the address of its header;
-- `listed` holds the `DIRTY_LISTED` flag of each. Each function runs without another thread between
-- its steps. `hash_set` is the standard library's: it lists the elements of a set in some order.
pub mod Dirty
pub mod Satb
pub mod Tests
use rudo.Prelude.{
  ℕ, zero, suc, ◌+◌, ◌*◌, ◌/◌, ◌^◌, Bool, true, false, not, ◌&&◌, ◌||◌, Option, none, some, List,
  [], ◌∷◌, ◌++◌, length, take, max, ltb, leb, ◌==◌, if◌then◌else◌, ◌>>=◌,
}
use rudo.Page.{is_allocated}
use rudo.Incremental.{IncrementalMarkState, FallbackReason, satb_buffer_overflow, request_fallback}
use rudo.Mark.{Space, header_of, index_of}

pub record LocalHeap : Type 0 where
  pub dirty_pages : List ℕ
  pub dirty_pages_snapshot : List ℕ
  pub avg_dirty_pages : ℕ
  pub dirty_page_history : List ℕ
  pub remembered_buffer : List ℕ
  pub remembered_buffer_capacity : ℕ
  pub satb_old_values : List ℕ
  pub satb_buffer_capacity : ℕ
  pub satb_overflow_buffer : List ℕ
  pub listed : ℕ → Bool

-- The header's `set_dirty_listed` and `clear_dirty_listed`.
abbrev pub put_listed : LocalHeap → ℕ → Bool → LocalHeap
put_listed h page flag = record h { listed = λ p. if p == page then flag else h.listed p }

unfoldable pub add_to_dirty_pages_slow : LocalHeap → ℕ → LocalHeap
add_to_dirty_pages_slow h page =
    if not (h.listed page)
    then put_listed (record h { dirty_pages = h.dirty_pages ++ (page ∷ []) }) page true
    else h

unfoldable pub add_to_dirty_pages : LocalHeap → ℕ → LocalHeap
unfolding add_to_dirty_pages_slow
add_to_dirty_pages h page = if h.listed page then h else add_to_dirty_pages_slow h page

-- With the number of pages in the snapshot.
unfoldable pub take_dirty_pages_snapshot : LocalHeap → ℕ × LocalHeap
take_dirty_pages_snapshot h =
    (length h.dirty_pages, record h { dirty_pages_snapshot = h.dirty_pages; dirty_pages = [] })

unfoldable pub drain_dirty_pages_overflow : LocalHeap → List ℕ × LocalHeap
drain_dirty_pages_overflow h = (h.dirty_pages, record h { dirty_pages = [] })

abbrev pub sum : List ℕ → ℕ
sum [] = 0
sum (n ∷ ns) = n + sum ns

-- `rotate_right(1)`, then the first entry is replaced by the count.
unfoldable pub clear_dirty_pages_snapshot : LocalHeap → LocalHeap
clear_dirty_pages_snapshot h =
    let history = length h.dirty_pages_snapshot ∷ take 3 h.dirty_page_history in
    record h {
      dirty_page_history = history;
      avg_dirty_pages = sum history / 4;
      dirty_pages_snapshot = [];
    }

-- The calls of the barriers for some pages, in turn.
unfoldable pub add_all : LocalHeap → List ℕ → LocalHeap
unfolding add_to_dirty_pages
add_all h [] = h
add_all h (page ∷ pages) = add_all (add_to_dirty_pages h page) pages

-- What scanning does to the pages' flags; the marking of their objects is left out.
unfoldable pub scan_pages : LocalHeap → List ℕ → LocalHeap
scan_pages h [] = h
scan_pages h (page ∷ pages) = scan_pages (put_listed h page false) pages

-- The part of `mark_minor_roots_multi` on dirty pages, with the pages that are scanned. Between
-- the scan of the snapshot and that of the overflow other threads add the pages `added`.
unfoldable pub scan_dirty_pages : LocalHeap → List ℕ → List ℕ × LocalHeap
unfolding take_dirty_pages_snapshot drain_dirty_pages_overflow clear_dirty_pages_snapshot add_all
    scan_pages
scan_dirty_pages h added =
    let taken = (take_dirty_pages_snapshot h).1 in
    let scanned = add_all (scan_pages taken taken.dirty_pages_snapshot) added in
    let (overflow, drained) = drain_dirty_pages_overflow scanned in
    (
      taken.dirty_pages_snapshot ++ overflow,
      clear_dirty_pages_snapshot (scan_pages drained overflow),
    )

-- A set replaces the list, unless nothing has been recorded.
unfoldable pub flush_remembered_buffer : (List ℕ → List ℕ) → LocalHeap → LocalHeap
flush_remembered_buffer hash_set h = elim h.remembered_buffer [
  | [] ↦ h
  | page ∷ pages ↦ record h {
    remembered_buffer = [];
    dirty_pages = hash_set (h.dirty_pages ++ (page ∷ pages));
  }
]

unfoldable pub record_in_remembered_buffer : (List ℕ → List ℕ) → LocalHeap → ℕ → LocalHeap
unfolding flush_remembered_buffer
record_in_remembered_buffer hash_set h page =
    let pushed = record h { remembered_buffer = h.remembered_buffer ++ (page ∷ []) } in
    if leb pushed.remembered_buffer_capacity (length pushed.remembered_buffer)
    then flush_remembered_buffer hash_set pushed
    else pushed

unfoldable pub set_remembered_buffer_capacity : LocalHeap → ℕ → LocalHeap
set_remembered_buffer_capacity h capacity = record h {
  remembered_buffer_capacity = capacity;
  remembered_buffer = [];
}

unfoldable pub clear_remembered_buffer : LocalHeap → LocalHeap
clear_remembered_buffer h = record h { remembered_buffer = [] }

abbrev pub max_cross_thread_satb_size : ℕ
max_cross_thread_satb_size = 1024 * 1024

-- The process-wide buffers and the marking state.
pub record Shared : Type 0 where
  pub cross_thread_satb : List ℕ
  pub cross_thread_satb_overflow : List ℕ
  pub mark_state : IncrementalMarkState

abbrev pub request_satb_fallback : Shared → Shared
request_satb_fallback s = record s {
  mark_state = request_fallback s.mark_state satb_buffer_overflow;
}

unfoldable pub push_cross_thread_satb : Shared → ℕ → Bool × Shared
push_cross_thread_satb s gc_ptr =
    if leb max_cross_thread_satb_size (length s.cross_thread_satb)
    then (if leb max_cross_thread_satb_size (length s.cross_thread_satb_overflow)
        then (false, request_satb_fallback s)
        else (
          false,
          request_satb_fallback (record s {
            cross_thread_satb_overflow = s.cross_thread_satb_overflow ++ (gc_ptr ∷ []);
          }),
        ))
    else (true, record s { cross_thread_satb = s.cross_thread_satb ++ (gc_ptr ∷ []) })

-- The null addresses, which are never pushed, are filtered out.
abbrev pub non_null : List ℕ → List ℕ
non_null [] = []
non_null (addr ∷ addrs) = if addr == 0 then non_null addrs else addr ∷ non_null addrs

unfoldable pub flush_cross_thread_satb_buffer : Shared → List ℕ × Shared
flush_cross_thread_satb_buffer s = (
  non_null (s.cross_thread_satb ++ s.cross_thread_satb_overflow),
  record s { cross_thread_satb = []; cross_thread_satb_overflow = [] },
)

unfoldable pub satb_buffer_overflowed : LocalHeap → Shared → Bool × LocalHeap × Shared
satb_buffer_overflowed h s = (
  false,
  record h {
    satb_overflow_buffer = h.satb_overflow_buffer ++ h.satb_old_values;
    satb_old_values = [];
  },
  request_satb_fallback s,
)

-- The release build: 0 outside the heap's addresses and for an object that has been swept.
unfoldable pub get_allocating_thread_id : ℕ → ℕ → Space → ℕ → Option ℕ
unfolding is_allocated
get_allocating_thread_id heap_start heap_end sp gc_box_addr =
    if ltb gc_box_addr heap_start || ltb heap_end gc_box_addr
    then some 0
    else elim (index_of sp gc_box_addr) [
      | none ↦ some (header_of sp gc_box_addr).owner_thread
      | some idx ↦ is_allocated (header_of sp gc_box_addr) idx >>= λ live.
          some (if live then (header_of sp gc_box_addr).owner_thread else 0)
    ]

-- The current thread, and the bounds of the heap's addresses, are arguments.
unfoldable pub record_satb_old_value :
    ℕ → ℕ → ℕ → Space → LocalHeap → Shared → ℕ → Option (Bool × LocalHeap × Shared)
unfolding is_allocated get_allocating_thread_id push_cross_thread_satb satb_buffer_overflowed
record_satb_old_value thread heap_start heap_end sp h s gc_box = elim (index_of sp gc_box) [
  | none ↦ some (true, h, s)
  | some idx ↦ is_allocated (header_of sp gc_box) idx >>= λ live.
      get_allocating_thread_id heap_start heap_end sp gc_box >>= λ allocating.
      let pushed = record h { satb_old_values = h.satb_old_values ++ (gc_box ∷ []) } in
      let (stored, shared) = push_cross_thread_satb s gc_box in
      if not live
      then some (true, h, s)
      else if not (thread == allocating) && not (allocating == 0)
      then some (stored, h, shared)
      else if leb pushed.satb_buffer_capacity (length pushed.satb_old_values)
      then some (satb_buffer_overflowed pushed s)
      else some (true, pushed, s)
]

unfoldable pub flush_satb_buffer : LocalHeap → List ℕ × LocalHeap
flush_satb_buffer h = (h.satb_old_values, record h { satb_old_values = [] })

unfoldable pub clear_satb_buffer : LocalHeap → LocalHeap
clear_satb_buffer h = record h { satb_old_values = [] }

unfoldable pub flush_satb_overflow_buffer : LocalHeap → List ℕ × LocalHeap
flush_satb_overflow_buffer h = (h.satb_overflow_buffer, record h { satb_overflow_buffer = [] })

-- The calls of the barriers for some overwritten references, in turn.
unfoldable pub record_all :
    ℕ → ℕ → ℕ → Space → LocalHeap → Shared → List ℕ → Option (LocalHeap × Shared)
unfolding record_satb_old_value
record_all thread heap_start heap_end sp h s [] = some (h, s)
record_all thread heap_start heap_end sp h s (gc_box ∷ rest) =
    record_satb_old_value thread heap_start heap_end sp h s gc_box >>= λ (_, h', s').
    record_all thread heap_start heap_end sp h' s' rest
