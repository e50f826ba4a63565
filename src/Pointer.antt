-- ===== src/Pointer.antt =====
-- The pointers of crates/rudo-gc/src/ptr.rs: `Gc`, `Weak` and `GcBoxWeakRef`, over the heap of Mark. A
-- `Gc` or a `Weak` is its nullable pointer; the counters that tell the collector of new and of
-- dropped pointers are left out. An operation checks again after it has changed a count: `between` is
-- what other threads make of the heap between the change and these checks. In the upgrades, which take
-- a strong count, it gives that before each of the looks in turn, by number.
pub mod Strong
pub mod WeakRef
pub mod Weak
pub mod Steady
pub mod RoundTrip
pub mod Guarded
pub mod Tests
use rudo.Prelude.{
  ℕ, Bool, true, false, not, ◌&&◌, Option, none, some, ◌==◌, ltb, ◌%◌, if◌then◌else◌,
}
use rudo.Page.{is_allocated}
use rudo.GcBox.{GcBox, has_dead_flag, is_under_construction}
use rudo.Mark.{Space, header_of, index_of}

-- What a call ends in: the state is kept where an assertion panics, too.
pub data Outcome {ℓ} (S A : Type ℓ) : Type ℓ where
  panicked : S → Outcome S A
  returned : A → S → Outcome S A

abbrev pub put_box : Space → ℕ → GcBox → Space
put_box s ptr b = record s { boxes = λ p. if p == ptr then b else s.boxes p }

-- `if let Some(idx) = ptr_to_object_index(..)` with its `is_allocated(idx)`: true where there is no
-- index to ask about, `none` where the index is past the bitmap.
unfoldable pub slot_is_allocated : Space → ℕ → Option Bool
unfolding is_allocated
slot_is_allocated s ptr = elim (index_of s ptr) [
  | none ↦ some true
  | some idx ↦ is_allocated (header_of s ptr) idx
]

-- To go on with the answer: an index past the bitmap panics.
abbrev pub checked : {A : Type 0} → Space → ℕ → (Bool → Outcome Space A) → Outcome Space A
checked s ptr go = elim (slot_is_allocated s ptr) [ none ↦ panicked s | some live ↦ go live ]

-- The three conditions on the header that come with every access.
unfoldable pub is_usable : GcBox → Bool
unfolding has_dead_flag is_under_construction
is_usable b = not (has_dead_flag b) && (b.is_dropping == 0) && not (is_under_construction b)

abbrev pub min_valid_heap_address : ℕ
min_valid_heap_address = 4096

-- The address checks before a weak pointer is followed: `valid` is the answer of
-- `is_gc_box_pointer_valid`, which looks the address up in the heaps.
abbrev pub is_plausible : ℕ → (ℕ → Bool) → ℕ → Bool
is_plausible alignment valid ptr =
    (ptr % alignment == 0) && not (ltb ptr min_valid_heap_address) && valid ptr

-- The looks at the flags after a strong count has been taken: look 1 is at the dropping state, 2 at the
-- dead flag and, if `late`, 3 at the construction flag. The first that fails ends them.
abbrev pub flags_clear : Bool → (ℕ → Space → Space) → Space → ℕ → Bool × Space
flags_clear late between t0 ptr =
    let t1 = between 1 t0 in
    let t2 = between 2 t1 in
    let t3 = between 3 t2 in
    if not ((t1.boxes ptr).is_dropping == 0)
    then (false, t1)
    else if has_dead_flag (t2.boxes ptr)
    then (false, t2)
    else if not late
    then (true, t2)
    else (not (is_under_construction (t3.boxes ptr)), t3)
