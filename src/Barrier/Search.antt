-- ===== src/Barrier/Search.antt =====
-- The search of the barriers on a field of a small object.
use rudo.Prelude.{
  ℕ, ◌+◌, ◌-◌, ◌*◌, ◌/◌, ◌<◌, ◌≡◌, ◌∙◌, ap, true, false, none, some, if◌then◌else◌, arith,
}
use rudo.Prelude.Maps.{nat_key, lookup}
use rudo.Page.{magic_gc_page, is_allocated}
use rudo.Address.{ptr_to_page_header}
use rudo.Barrier.{Heap, is_old, is_own, find_small, find_own_small, out_of_range}
use native.Mathlib.Nat.{mul-add-div_right, div-eq_of_lt}

-- The field `offset` bytes into the small object `index` of a page, which is allocated.
pub record IsField (h : Heap) (page index offset ptr : ℕ) : Type 0 where
  pub inside : out_of_range h ptr ≡ false
  pub small : lookup page h.large_object_map ≡ none
  pub on_page : ptr_to_page_header h.space.layout ptr ≡ page
  pub is_page : (h.space.pages page).magic ≡ magic_gc_page
  pub place :
      ptr
      ≡ page + (h.space.pages page).header_size + (index * (h.space.pages page).block_size + offset)
  pub in_object : offset < (h.space.pages page).block_size
  pub counted : index < (h.space.pages page).obj_count
  pub allocated : is_allocated (h.space.pages page) index ≡ some true

-- Where the object starts.
abbrev pub box_at : Heap → ℕ → ℕ → ℕ
box_at h page index =
    page + (h.space.pages page).header_size + index * (h.space.pages page).block_size

pub field_index :
    (index block_size offset : ℕ)
    → offset < block_size
    → (index * block_size + offset) / block_size ≡ index
field_index index block_size offset h =
    mul-add-div_right (omega arith) index offset
    ∙ ap (λ t. index + t) (div-eq_of_lt h)
    ∙ omega arith

pub find_small_lem :
    (h : Heap) (page index offset ptr : ℕ)
    → IsField h page index offset ptr
    → find_small h.space ptr
      ≡ some (if is_old h.space page (box_at h page index) then some (page, index) else none)
unfolding find_small
find_small_lem h page index offset ptr f = rw f.on_page (
    let header = h.space.pages page in
    let at : (ptr - (page + header.header_size)) / header.block_size ≡ index =
      ap (λ t. t / header.block_size) (omega (arith, f.place))
      ∙ field_index index header.block_size offset f.in_object in
    rw at (ground (arith, f.is_page, f.in_object, f.counted, f.allocated, f.place)))

pub find_own_small_lem :
    (h : Heap) (thread page index offset ptr : ℕ)
    → IsField h page index offset ptr
    → find_own_small h.space thread ptr ≡ (
        if is_own (h.space.pages page) thread
        then some (if is_old h.space page (box_at h page index) then some (page, index) else none)
        else none)
unfolding find_own_small
find_own_small_lem h thread page index offset ptr f = rw f.on_page (
    let header = h.space.pages page in
    let at : (ptr - (page + header.header_size)) / header.block_size ≡ index =
      ap (λ t. t / header.block_size) (omega (arith, f.place))
      ∙ field_index index header.block_size offset f.in_object in
    rw at (ground (arith, f.is_page, f.in_object, f.counted, f.allocated, f.place)))
