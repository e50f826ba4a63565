-- ===== src/Pointer/Steady.antt =====
-- The pointers' operations with no other thread at the heap.
use rudo.Prelude.{
  ℕ, ◌+◌, ◌||◌, ◌≡◌, refl, Bool, true, false, Option, none, some, Bool-cases, inl, inr, arith, not,
  ◌&&◌, ◌==◌, ◌<◌, if◌then◌else◌,
}
use rudo.GcBox.{
  GcBox, has_dead_flag, is_under_construction, try_inc_ref_from_zero, try_inc_ref_if_nonzero,
  usize_max, is_dead_or_unrooted,
}
use rudo.Mark.{Space}
use rudo.Pointer.{Outcome, returned, put_box, slot_is_allocated, is_usable, is_plausible}
use rudo.Pointer.Weak
use rudo.Pointer.WeakRef
use rudo.Pointer.WeakRef.{GcBoxWeakRef}

pub put_box-slot_is_allocated :
    (s : Space) (ptr p : ℕ) (b : GcBox)
    → slot_is_allocated (put_box s ptr b) p ≡ slot_is_allocated s p
unfolding slot_is_allocated
put_box-slot_is_allocated s ptr p b = refl

pub usable_parts :
    (b : GcBox)
    → is_usable b ≡ true
    → (has_dead_flag b ≡ false) × (b.is_dropping ≡ 0) × (is_under_construction b ≡ false)
unfolding is_usable
usable_parts b u = ground arith

unusable_parts :
    (b : GcBox)
    → is_usable b ≡ false
    → (has_dead_flag b || not (b.is_dropping == 0) || is_under_construction b) ≡ true
unfolding is_usable
unusable_parts b u = ground arith

abbrev pub counted : Space → ℕ → Space
counted s ptr = let b = s.boxes ptr in put_box s ptr (record b { ref_count = b.ref_count + 1 })

abbrev pub upgrade_answer : Space → ℕ → Bool → Outcome Space (Option (Option ℕ))
upgrade_answer s ptr granted =
    if granted then returned (some (some ptr)) (counted s ptr) else returned none s

upgrade_lem :
    (alignment : ℕ) (valid : ℕ → Bool) (s : Space) (ptr : ℕ) (live : Bool)
    → slot_is_allocated s ptr ≡ some live
    → let b = s.boxes ptr in
      let room = not (b.ref_count == 0) && not (b.ref_count == usize_max) in
      Weak.upgrade alignment valid (λ k t. t) s (some ptr)
      ≡ upgrade_answer s ptr (is_plausible alignment valid ptr && live && is_usable b && room)
unfolding Weak.upgrade is_usable
upgrade_lem alignment valid s ptr live e =
    let b = s.boxes ptr in
    ground
      (arith, put_box-slot_is_allocated s ptr ptr (record b { ref_count = b.ref_count + 1 }), e)

try_upgrade_lem :
    (alignment : ℕ) (valid : ℕ → Bool) (s : Space) (ptr : ℕ) (live : Bool)
    → slot_is_allocated s ptr ≡ some live
    → let b = s.boxes ptr in
      let room = not (b.ref_count == 0) && not (b.ref_count == usize_max) in
      Weak.try_upgrade alignment valid (λ k t. t) s (some ptr)
      ≡ upgrade_answer s ptr (is_plausible alignment valid ptr && live && is_usable b && room)
unfolding Weak.try_upgrade is_usable
try_upgrade_lem alignment valid s ptr live e =
    let b = s.boxes ptr in
    ground
      (arith, put_box-slot_is_allocated s ptr ptr (record b { ref_count = b.ref_count + 1 }), e)

take_count_lem :
    (late : Bool) (s : Space) (ptr : ℕ)
    → slot_is_allocated s ptr ≡ some true
    → is_usable (s.boxes ptr) ≡ true
    → (s.boxes ptr).ref_count < usize_max
    → WeakRef.take_count late (λ b. b) (λ k t. t) s ptr ≡ returned (some (some ptr)) (counted s ptr)
unfolding is_usable try_inc_ref_from_zero try_inc_ref_if_nonzero
take_count_lem late s ptr e u h =
    let b = s.boxes ptr in
    ground (
      arith,
      put_box-slot_is_allocated s ptr ptr (record b { ref_count = b.ref_count + 1 }),
      put_box-slot_is_allocated s ptr ptr (record b { ref_count = 1 }),
      e,
    )

-- `GcBoxWeakRef::upgrade` of an allocated slot, where the count is below its largest value: it gives
-- the pointer and counts it exactly if the address passes the checks and the box can be used, at a
-- count of zero too; and otherwise leaves the heap as it is.
weak_ref_upgrade_lem :
    (alignment : ℕ) (valid : ℕ → Bool) (s : Space) (ptr g : ℕ)
    → slot_is_allocated s ptr ≡ some true
    → (s.boxes ptr).ref_count < usize_max
    → WeakRef.upgrade alignment valid
        (λ b. b)
        (λ k t. t)
        s
        (record { ptr = some ptr; generation = g })
      ≡ upgrade_answer s ptr (is_plausible alignment valid ptr && is_usable (s.boxes ptr))
unfolding WeakRef.upgrade
weak_ref_upgrade_lem alignment valid s ptr g e room = elim (Bool-cases (is_usable (s.boxes ptr))) [
  | inl u ↦ rw u (ground (arith, take_count_lem false s ptr e u room, usable_parts (s.boxes ptr) u))
  | inr n ↦ rw n (ground (arith, unusable_parts (s.boxes ptr) n))
]

weak_ref_try_upgrade_lem :
    (alignment : ℕ) (valid : ℕ → Bool) (s : Space) (ptr g : ℕ)
    → slot_is_allocated s ptr ≡ some true
    → (s.boxes ptr).ref_count < usize_max
    → WeakRef.try_upgrade alignment
        (λ b. b)
        (λ k t. t)
        s
        (record { ptr = some ptr; generation = g })
      ≡ upgrade_answer s ptr (
          is_plausible alignment (λ p. true) ptr
          && is_usable (s.boxes ptr)
          && not ((s.boxes ptr).ref_count == 0))
unfolding WeakRef.try_upgrade is_dead_or_unrooted
weak_ref_try_upgrade_lem alignment valid s ptr g e room =
    elim (Bool-cases (is_usable (s.boxes ptr))) [
      | inl u ↦
          rw u (ground (arith, take_count_lem true s ptr e u room, usable_parts (s.boxes ptr) u))
      | inr n ↦ rw n (ground (arith, unusable_parts (s.boxes ptr) n))
    ]

-- With no other thread at the heap, for a pointer into an allocated slot whose count is below its largest
-- value: `upgrade` and `try_upgrade` of a `Weak`, and `try_upgrade` of a `GcBoxWeakRef` if the address
-- is in a heap, all give the pointer and count it exactly if the address passes the checks, the box can
-- be used and its count is not zero, and otherwise leave the heap as it is; `upgrade` of a
-- `GcBoxWeakRef` does the same at a count of zero too.
pub upgrades_exact :
    (alignment : ℕ) (valid : ℕ → Bool) (s : Space) (ptr g : ℕ)
    → slot_is_allocated s ptr ≡ some true
    → (s.boxes ptr).ref_count < usize_max
    → valid ptr ≡ true
    → let w : GcBoxWeakRef = record { ptr = some ptr; generation = g } in
      let usable = is_plausible alignment valid ptr && is_usable (s.boxes ptr) in
      let referenced = upgrade_answer s ptr (usable && not ((s.boxes ptr).ref_count == 0)) in
      (Weak.upgrade alignment valid (λ k t. t) s (some ptr) ≡ referenced)
      × (Weak.try_upgrade alignment valid (λ k t. t) s (some ptr) ≡ referenced)
      × (WeakRef.try_upgrade alignment (λ b. b) (λ k t. t) s w ≡ referenced)
      × (WeakRef.upgrade alignment valid (λ b. b) (λ k t. t) s w ≡ upgrade_answer s ptr usable)
upgrades_exact alignment valid s ptr g e room v = (
  ground (arith, upgrade_lem alignment valid s ptr true e),
  ground (arith, try_upgrade_lem alignment valid s ptr true e),
  ground (arith, weak_ref_try_upgrade_lem alignment valid s ptr g e room),
  weak_ref_upgrade_lem alignment valid s ptr g e room,
)
