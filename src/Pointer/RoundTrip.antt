-- ===== src/Pointer/RoundTrip.antt =====
-- What is taken and given back with no other thread at the heap.
use rudo.Prelude.{
  ℕ, ◌+◌, ◌≡◌, refl, ◌∙◌, ap, Bool, true, false, some, Bool-cases, inl, inr, arith, ◌==◌, ◌<◌, not,
}
use rudo.GcBox.{GcBox, usize_max, inc_ref, dec_ref, inc_weak, dec_weak, dec_weak_raw, weak_count}
use rudo.GcBox.Strong.{IsLive, dec_ref-inc_ref}
use rudo.GcBox.Weak.{FitsWord, count_mod, dec_weak-inc_weak}
use rudo.Mark.{Space}
use rudo.Pointer.{returned, put_box, slot_is_allocated, is_usable}
use rudo.Pointer.Steady.{put_box-slot_is_allocated, usable_parts}
use rudo.Pointer.Strong
use rudo.Pointer.Weak

IsLive-of_usable : (b : GcBox) → is_usable b ≡ true → IsLive b
IsLive-of_usable b u =
    let (d, i, c) = usable_parts b u in record { undead = d; built = c; idle = i }

put_back :
    (s : Space) (ptr : ℕ) (b c : GcBox)
    → c ≡ s.boxes ptr
    → (p : ℕ) → (put_box (put_box s ptr b) ptr c).boxes p ≡ s.boxes p
put_back s ptr b c e p = elim (Bool-cases (p == ptr)) [
  | inl same ↦ let q : p ≡ ptr = ground (arith, same) in rw q (ground (arith, e))
  | inr other ↦ ground (arith, other)
]

clone_lem :
    (s : Space) (ptr : ℕ)
    → slot_is_allocated s ptr ≡ some true
    → is_usable (s.boxes ptr) ≡ true
    → Strong.clone (λ t. t) s (some ptr)
      ≡ returned (some ptr) (put_box s ptr (inc_ref (s.boxes ptr)))
unfolding Strong.clone inc_ref
clone_lem s ptr e u =
    ground (arith, u, e, put_box-slot_is_allocated s ptr ptr (inc_ref (s.boxes ptr)))

here : (s : Space) (ptr : ℕ) (b : GcBox) → (put_box s ptr b).boxes ptr ≡ b
here s ptr b = ground arith

counted_back :
    (s : Space) (ptr : ℕ)
    → let b = s.boxes ptr in
      IsLive b
      → 0 < b.ref_count
      → b.ref_count < usize_max
      → dec_ref ((put_box s ptr (inc_ref b)).boxes ptr) ≡ (false, b)
counted_back s ptr live used room =
    let b = s.boxes ptr in ap dec_ref (here s ptr (inc_ref b)) ∙ dec_ref-inc_ref b live used room

-- A clone of a `Gc` to a referenced box that can be used, in an allocated slot and below the largest
-- count, succeeds; dropping it puts every box back and is not the last drop.
pub drop-clone :
    (s : Space) (ptr : ℕ)
    → slot_is_allocated s ptr ≡ some true
    → is_usable (s.boxes ptr) ≡ true
    → 0 < (s.boxes ptr).ref_count
    → (s.boxes ptr).ref_count < usize_max
    → (t : Space) × (Strong.clone (λ t. t) s (some ptr) ≡ returned (some ptr) t)
      × ((Strong.drop t (some ptr)).0 ≡ true)
      × ((p : ℕ) → (Strong.drop t (some ptr)).1.boxes p ≡ s.boxes p)
unfolding Strong.drop
drop-clone s ptr e u used room =
    let b = s.boxes ptr in
    let t = put_box s ptr (inc_ref b) in
    let back = counted_back s ptr (IsLive-of_usable b u) used room in
    (
      t,
      clone_lem s ptr e u,
      ap (λ r. not r.0) back,
      put_back s ptr (inc_ref b) (dec_ref (t.boxes ptr)).1 (ap (λ r. r.1) back),
    )

downgrade_lem :
    (s : Space) (ptr : ℕ)
    → slot_is_allocated s ptr ≡ some true
    → is_usable (s.boxes ptr) ≡ true
    → Strong.downgrade (λ t. t) s (some ptr)
      ≡ returned (some ptr) (put_box s ptr (inc_weak (s.boxes ptr)))
unfolding Strong.downgrade inc_weak
downgrade_lem s ptr e u =
    ground (arith, u, e, put_box-slot_is_allocated s ptr ptr (inc_weak (s.boxes ptr)))

raw_same : (b : GcBox) → dec_weak_raw b ≡ dec_weak b
unfolding dec_weak_raw dec_weak
raw_same b = refl

weighed_back :
    (s : Space) (ptr : ℕ)
    → let b = s.boxes ptr in
      FitsWord b
      → weak_count b + 1 < count_mod
      → dec_weak_raw ((put_box s ptr (inc_weak b)).boxes ptr) ≡ (weak_count b == 0, b)
weighed_back s ptr fits room =
    let b = s.boxes ptr in
    ap dec_weak_raw (here s ptr (inc_weak b))
    ∙ raw_same (inc_weak b)
    ∙ (dec_weak-inc_weak b fits room).2

-- A downgrade of a `Gc` to a box that can be used, in an allocated slot that is in a heap, with room in
-- the weak count, succeeds; dropping the `Weak` puts every box back.
drop-downgrade :
    (valid : ℕ → Bool) (s : Space) (ptr : ℕ)
    → slot_is_allocated s ptr ≡ some true
    → is_usable (s.boxes ptr) ≡ true
    → valid ptr ≡ true
    → FitsWord (s.boxes ptr)
    → weak_count (s.boxes ptr) + 1 < count_mod
    → (t t' : Space) × (Strong.downgrade (λ t. t) s (some ptr) ≡ returned (some ptr) t)
      × (Weak.drop valid t (some ptr) ≡ returned (some ptr) t')
      × ((p : ℕ) → t'.boxes p ≡ s.boxes p)
unfolding Weak.drop
drop-downgrade valid s ptr e u v fits room =
    let b = s.boxes ptr in
    let t = put_box s ptr (inc_weak b) in
    let back = weighed_back s ptr fits room in
    (
      t,
      put_box t ptr (dec_weak_raw (t.boxes ptr)).1,
      downgrade_lem s ptr e u,
      ground (arith, v, e, put_box-slot_is_allocated s ptr ptr (inc_weak b)),
      put_back s ptr (inc_weak b) (dec_weak_raw (t.boxes ptr)).1 (ap (λ r. r.1) back),
    )
