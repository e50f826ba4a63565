-- ===== src/Buffers/Tests.antt =====
-- A heap with the page at 4096 on its list of dirty pages and buffers for two values.
use rudo.Prelude.{
  ℕ, ◌<◌, ◌≡◌, refl, subst, Bool-cases, inl, inr, false, ◌||◌, some, List, [], ◌∷◌, ◌++◌, mem,
  length, ◌==◌, if◌then◌else◌, arith,
}
use rudo.Address.{ptr_to_page_header, ptr_to_object_index, header_size}
use rudo.Bitmap
use rudo.Page.{is_allocated}
use rudo.Incremental.{new}
use rudo.Mark.Tests.{space, first, second}
use rudo.Buffers.{
  LocalHeap, Shared, add_all, scan_dirty_pages, record_all, get_allocating_thread_id,
}
use rudo.Buffers.Dirty.{IsListed, dirty_pages_scanned}
use rudo.Buffers.Satb.{IsOwn, IsFilled, recorded, satb_nothing_lost}

abbrev pub buffers : LocalHeap
buffers = record {
  dirty_pages = 4096 ∷ [];
  dirty_pages_snapshot = [];
  avg_dirty_pages = 16;
  dirty_page_history = 16 ∷ 16 ∷ 16 ∷ 16 ∷ [];
  remembered_buffer = 8192 ∷ [];
  remembered_buffer_capacity = 32;
  satb_old_values = [];
  satb_buffer_capacity = 2;
  satb_overflow_buffer = [];
  listed = λ p. p == 4096;
}

pub buffers-IsListed : IsListed buffers
buffers-IsListed p = ground arith

dirty_pages_scanned_example :
    (pages : List ℕ) × (h' : LocalHeap) × (scan_dirty_pages
        (add_all buffers (8192 ∷ 4096 ∷ []))
        (12288 ∷ [])
      ≡ (pages, h'))
    × ((p : ℕ)
        → mem p pages
          ≡ (mem p buffers.dirty_pages || mem p (8192 ∷ 4096 ∷ []) || mem p (12288 ∷ [])))
    × (h'.dirty_pages ≡ [])
    × (h'.dirty_pages_snapshot ≡ [])
    × ((p : ℕ) → h'.listed p ≡ false)
dirty_pages_scanned_example =
    dirty_pages_scanned buffers (8192 ∷ 4096 ∷ []) (12288 ∷ []) buffers-IsListed (refl, tt)

-- A set that keeps the last of equal elements.
unique : List ℕ → List ℕ
unique [] = []
unique (x ∷ xs) = let rest = unique xs in if mem x rest then rest else x ∷ rest

mem-unique : (xs : List ℕ) (p : ℕ) → mem p (unique xs) ≡ mem p xs
unfolding unique
mem-unique [] p = refl
mem-unique (x ∷ xs) p = elim (Bool-cases (x == p)) [
  | inl same ↦
      let e : x ≡ p = ground (arith, same) in
      subst (λ (k : ℕ). mem k (unique (x ∷ xs)) ≡ ((x == k) || mem k xs)) e
        (ground (arith, mem-unique xs x))
  | inr other ↦ ground (arith, other, mem-unique xs p)
]

abbrev pub shared : Shared
shared = record { cross_thread_satb = []; cross_thread_satb_overflow = []; mark_state = new }

pub first-IsOwn : IsOwn 1 0 8192 space first
unfolding ptr_to_page_header ptr_to_object_index header_size is_allocated rudo.Bitmap.test
    get_allocating_thread_id
first-IsOwn = (0, 1, refl, refl, refl, refl)

pub second-IsOwn : IsOwn 1 0 8192 space second
unfolding ptr_to_page_header ptr_to_object_index header_size is_allocated rudo.Bitmap.test
    get_allocating_thread_id
second-IsOwn = (1, 1, refl, refl, refl, refl)

satb_nothing_lost_example :
    (h' : LocalHeap) × (s' : Shared) × (record_all 1 0 8192 space buffers shared
        (first ∷ second ∷ first ∷ [])
      ≡ some (h', s'))
    × (recorded h' ≡ recorded buffers ++ (first ∷ second ∷ first ∷ []))
    × (length h'.satb_old_values < h'.satb_buffer_capacity)
satb_nothing_lost_example =
    satb_nothing_lost 1 0 8192 space buffers shared (first ∷ second ∷ first ∷ [])
      (first-IsOwn, (second-IsOwn, (first-IsOwn, tt))) (omega arith)

shared-IsFilled : IsFilled shared
shared-IsFilled = record { main = omega arith; overflow = omega arith; order = λ l. refl }
