-- ===== src/Alloc/Refill.antt =====
-- A refill and the allocations after it, until the page is used up.
use rudo.Prelude.{
  ℕ, zero, suc, ◌+◌, ◌^◌, ◌<◌, ◌≤◌, ◌≡◌, ◌∙◌, ap, refl, sym, subst, true, none, some, ltb, ◌==◌,
  arith, replicate, mem,
}
use rudo.Bitmap.Laws.{has, has-replicate, replicate-IsBitmap}
use rudo.Address.{Layout, header_size, max_objects}
use rudo.Alloc.{
  Allocator, alloc_tlab, alloc_slow, class_block_size, add_page, set_tlab, new_header,
  new_page_tlab,
}
use rudo.Alloc.Bump.{
  IsRoom, slot_at, IsBump, IsBumpOf, with_slot, bumped, alloc_next, alloc_full, IsBump-next, take,
  slots_from, SameLists,
}

abbrev pub IsRoomFor : Allocator → ℕ → ℕ → Type 0
IsRoomFor a page class_index = IsRoom a.space.layout page (class_block_size class_index)

-- The allocator after the next slot.
abbrev next_of : Allocator → ℕ → ℕ → ℕ → Allocator
next_of a page class_index k =
    set_tlab a class_index (with_slot a.space page k)
      (bumped (a.tlabs class_index) (class_block_size class_index))

same_class : (class_index : ℕ) → (class_index == class_index) ≡ true
same_class class_index = ground arith

next_of-IsBumpOf :
    (a : Allocator) (page class_index k : ℕ)
    → IsRoomFor a page class_index
    → IsBumpOf a page class_index k
    → k < max_objects a.space.layout (class_block_size class_index)
    → IsBumpOf (next_of a page class_index k) page class_index (k + 1)
next_of-IsBumpOf a page c k r b h =
    rw (same_class c) (IsBump-next a.space (a.tlabs c) page (class_block_size c) k r b h)

pub take_lem :
    (a : Allocator) (page class_index k m : ℕ)
    → IsRoomFor a page class_index
    → IsBumpOf a page class_index k
    → k + m ≤ max_objects a.space.layout (class_block_size class_index)
    → (a' : Allocator) × (take a class_index m
        ≡ some (slots_from a.space.layout page (class_block_size class_index) k m, a'))
      × IsBumpOf a' page class_index (k + m)
      × SameLists a a'
unfolding alloc_tlab
take_lem a page c k zero r b h = (
  a,
  refl,
  subst (λ (j : ℕ). IsBumpOf a page c j) (omega arith) b,
  record { layout = refl; pages = refl; small_pages = refl },
)
take_lem a page c k (suc m) r b h =
    let below : k < max_objects a.space.layout (class_block_size c) = omega arith in
    let first = alloc_next a.space (a.tlabs c) page (class_block_size c) k r b below in
    let (a', rest, b', same) =
      take_lem (next_of a page c k) page c (k + 1) m r (next_of-IsBumpOf a page c k r b below)
        (omega arith) in
    (
      a',
      rw first (rw rest refl),
      subst (λ (j : ℕ). IsBumpOf a' page c j) (omega arith) b',
      record { layout = same.layout; pages = same.pages; small_pages = same.small_pages },
    )

page_bits : (i : ℕ) → has (replicate 64 0) i ≡ ltb i 0
page_bits i = ground (arith, has-replicate 64 i)

same_page : (page : ℕ) → (page == page) ≡ true
same_page page = ground arith

-- The page that has just been added, before anything is taken from it.
added-IsBump :
    (a : Allocator) (thread page class_index : ℕ)
    → IsRoomFor a page class_index
    → header_size a.space.layout (class_block_size class_index) < 2 ^ 16
    → let b = add_page a thread page class_index in
      IsBump b.space
        (new_page_tlab b.space page (class_block_size class_index))
        page
        (class_block_size class_index)
        0
unfolding new_header new_page_tlab
added-IsBump a thread page c r small = record {
  size = ground (arith, r.small);
  count = ground (arith, r.slots_fit);
  is_page = ground arith;
  no_flags = ground arith;
  at = omega arith;
  end = refl;
  current = refl;
  bits = rw (same_page page) (replicate-IsBitmap 64);
  slots = λ i. rw (same_page page) (page_bits i);
}

-- A refill of a size class that has a slot in a page returns the first slot of the new page, and the
-- next requests of the class, one for each of its other slots at most, are given the slots that follow,
-- in order. The page is a small one of the thread, its allocated bits are those of the slots given out,
-- and once it is used up the buffer gives nothing.
pub refill_exact :
    (a : Allocator) (thread page class_index m : ℕ)
    → IsRoomFor a page class_index
    → header_size a.space.layout (class_block_size class_index) < 2 ^ 16
    → suc m ≤ max_objects a.space.layout (class_block_size class_index)
    → (a1 a' : Allocator) × (alloc_slow a thread page class_index
        ≡ some (slot_at a.space.layout page (class_block_size class_index) 0, a1))
      × (take a1 class_index m
          ≡ some (slots_from a.space.layout page (class_block_size class_index) 1 m, a'))
      × (mem page a'.small_pages ≡ true)
      × IsBumpOf a' page class_index (suc m)
      × (suc m ≡ max_objects a.space.layout (class_block_size class_index)
          → (a'' : Allocator) × (alloc_tlab a' class_index ≡ some (none, a'')))
unfolding alloc_slow alloc_tlab
refill_exact a thread page c m r small h =
    let bs = class_block_size c in
    let b = add_page a thread page c in
    let t = new_page_tlab b.space page bs in
    let bump = added-IsBump a thread page c r small in
    let first = alloc_next b.space t page bs 0 r bump (omega arith) in
    let a1 = set_tlab b c (with_slot b.space page 0) (bumped t bs) in
    let bump1 : IsBumpOf a1 page c 1 =
      rw (same_class c) (IsBump-next b.space t page bs 0 r bump (omega arith)) in
    let (a', rest, bump', same) = take_lem a1 page c 1 m r bump1 (omega arith) in
    let done : IsBumpOf a' page c (suc m) =
      subst (λ (j : ℕ). IsBumpOf a' page c j) (omega arith) bump' in
    (
      a1,
      a',
      rw first refl,
      rest,
      ground (arith, same.small_pages),
      done,
      λ e. (
        set_tlab a' c a'.space (a'.tlabs c),
        rw
            (alloc_full a'.space (a'.tlabs c) page bs (suc m)
              (subst (λ (l : Layout). IsRoom l page bs) (sym same.layout) r) done
              (e ∙ ap (λ (l : Layout). max_objects l bs) (sym same.layout)))
            refl,
      ),
    )
