-- ===== src/Alloc/Bump.antt =====
-- What a buffer hands out of a page: its slots, from the first to the last.
use rudo.Prelude.{
  ℕ, zero, suc, ◌+◌, ◌-◌, ◌*◌, ◌/◌, ◌^◌, ◌<◌, ◌≤◌, ◌≡◌, ◌∙◌, ap, Option, none, some, List, [], ◌∷◌,
  ltb, ◌>>=◌, arith,
}
use rudo.Bitmap.Laws.{has, with_bit, IsBitmap, fetch_or_lem, has-with_bit, with_bit-IsBitmap}
use rudo.Page.{magic_gc_page, set_allocated}
use rudo.Address.{Layout, header_size, max_objects}
use rudo.Mark.{Space}
use rudo.Barrier.{put_page}
use rudo.Alloc.{Tlab, Allocator, alloc, alloc_tlab, mark_allocated, class_block_size}
use native.Mathlib.Nat.{mul-div_cancel, div-mul-le_self}

-- A page for blocks of this size: its slots end within the page, and one more block would end below 2^64.
pub record IsRoom (l : Layout) (page block_size : ℕ) : Type 0 where
  pub positive : 0 < block_size
  pub small : block_size < 2 ^ 32
  pub page_set : 0 < page
  pub header_fits : header_size l block_size ≤ l.page_size
  pub slots_fit : max_objects l block_size ≤ 4096
  pub page_fits : page + l.page_size + block_size < 2 ^ 64

-- Where slot `i` of the page starts.
abbrev pub slot_at : Layout → ℕ → ℕ → ℕ → ℕ
slot_at l page block_size i = page + header_size l block_size + i * block_size

-- The first `k` slots of the page have been handed out.
pub record IsBump (s : Space) (t : Tlab) (page block_size k : ℕ) : Type 0 where
  pub size : (s.pages page).block_size ≡ block_size
  pub count : (s.pages page).obj_count ≡ max_objects s.layout block_size
  pub is_page : (s.pages page).magic ≡ magic_gc_page
  pub no_flags : (s.pages page).flags ≡ 0
  pub at : t.bump_ptr ≡ slot_at s.layout page block_size k
  pub end : t.bump_end ≡ slot_at s.layout page block_size (max_objects s.layout block_size)
  pub current : t.current_page ≡ some page
  pub bits : IsBitmap 64 (s.pages page).allocated_bitmap
  pub slots : (i : ℕ) → has (s.pages page).allocated_bitmap i ≡ ltb i k

pub next_slot : (k n block_size : ℕ) → k < n → k * block_size + block_size ≤ n * block_size
next_slot k zero block_size h = absurd (omega arith)
next_slot zero (suc n) block_size h = omega arith
next_slot (suc k) (suc n) block_size h = omega (arith, next_slot k n block_size (omega arith))

pub slots_end :
    (l : Layout) (page block_size : ℕ)
    → IsRoom l page block_size
    → slot_at l page block_size (max_objects l block_size) ≤ page + l.page_size
unfolding max_objects
slots_end l page block_size r =
    omega
      (arith, div-mul-le_self (l.page_size - header_size l block_size) block_size, r.header_fits)

-- The page with slot `k` allocated.
abbrev pub with_slot : Space → ℕ → ℕ → Space
with_slot s page k =
    put_page s page
      (record (s.pages page) { allocated_bitmap = with_bit (s.pages page).allocated_bitmap k })

abbrev pub bumped : Tlab → ℕ → Tlab
bumped t block_size = record t { bump_ptr = t.bump_ptr + block_size }

module _ (s : Space) (t : Tlab) (page block_size k : ℕ) (r : IsRoom s.layout page block_size)
    (b : IsBump s t page block_size k) where
  mark_allocated_lem :
      k < max_objects s.layout block_size
      → mark_allocated s (some page) (slot_at s.layout page block_size k) block_size
        ≡ some (with_slot s page k)
  unfolding mark_allocated set_allocated
  mark_allocated_lem h =
      let index : (slot_at s.layout page block_size k - (page + header_size s.layout block_size))
            / block_size
          ≡ k =
        ap (λ d. d / block_size) (omega arith) ∙ mul-div_cancel k r.positive in
      let set =
        fetch_or_lem (s.pages page).allocated_bitmap b.bits k (omega (arith, r.slots_fit)) in
      rw index (ground (arith, set, r.positive))

  pub alloc_next :
      k < max_objects s.layout block_size
      → alloc s t block_size
        ≡ some (some (slot_at s.layout page block_size k), with_slot s page k, bumped t block_size)
  unfolding alloc
  alloc_next h =
      let below = next_slot k (max_objects s.layout block_size) block_size h in
      let end = slots_end s.layout page block_size r in
      let marked = mark_allocated_lem h in
      rw b.at (
        rw b.current (rw b.end (ground (arith, marked, below, end, r.page_fits, r.page_set, b.at))))

  pub alloc_full : k ≡ max_objects s.layout block_size → alloc s t block_size ≡ some (none, s, t)
  unfolding alloc
  alloc_full e =
      let end = slots_end s.layout page block_size r in
      rw b.at (rw b.end (rw e (ground (arith, end, r.page_fits, r.positive))))

  pub IsBump-next :
      k < max_objects s.layout block_size
      → IsBump (with_slot s page k) (bumped t block_size) page block_size (k + 1)
  IsBump-next h = record {
    size = ground (arith, b.size);
    count = ground (arith, b.count);
    is_page = ground (arith, b.is_page);
    no_flags = ground (arith, b.no_flags);
    at = omega (arith, b.at);
    end = b.end;
    current = b.current;
    bits = ground (
      arith,
      with_bit-IsBitmap (s.pages page).allocated_bitmap b.bits k (omega (arith, r.slots_fit)),
    );
    slots = λ i. ground (
      arith,
      has-with_bit (s.pages page).allocated_bitmap b.bits k (omega (arith, r.slots_fit)) i,
      b.slots i,
    );
  }

-- The buffer of a class in the allocator.
abbrev pub IsBumpOf : Allocator → ℕ → ℕ → ℕ → Type 0
IsBumpOf a page class_index k =
    IsBump a.space (a.tlabs class_index) page (class_block_size class_index) k

-- So many attempts in a row, each of which gives a slot.
abbrev pub take : Allocator → ℕ → ℕ → Option (List ℕ × Allocator)
take a class_index zero = some ([], a)
take a class_index (suc m) = alloc_tlab a class_index >>= λ (r, a1). elim r [
  | none ↦ none
  | some ptr ↦ take a1 class_index m >>= λ (ptrs, a2). some (ptr ∷ ptrs, a2)
]

abbrev pub slots_from : Layout → ℕ → ℕ → ℕ → ℕ → List ℕ
slots_from l page block_size k zero = []
slots_from l page block_size k (suc m) =
    slot_at l page block_size k ∷ slots_from l page block_size (k + 1) m

-- What stays the same for the rest of the allocator.
pub record SameLists (a a' : Allocator) : Type 0 where
  pub layout : a'.space.layout ≡ a.space.layout
  pub pages : a'.pages ≡ a.pages
  pub small_pages : a'.small_pages ≡ a.small_pages
