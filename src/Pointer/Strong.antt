-- ===== src/Pointer/Strong.antt =====
-- `Gc` of crates/rudo-gc/src/ptr.rs: its accessors, clone, drop and downgrade.
use rudo.Prelude.{ℕ, Bool, true, false, not, Option, none, some, ◌==◌, ◌||◌, if◌then◌else◌}
use rudo.GcBox
use rudo.GcBox.{inc_ref, undo_inc_ref, try_inc_ref_if_nonzero, dec_ref, inc_weak, dec_weak}
use rudo.Mark.{Space}
use rudo.Pointer.{Outcome, panicked, returned, put_box, slot_is_allocated, checked, is_usable}

-- The value's address stands for the reference to it.
unfoldable pub try_deref : Space → Option ℕ → Outcome Space (Option ℕ)
unfolding slot_is_allocated is_usable
try_deref s none = returned none s
try_deref s (some ptr) = checked s ptr (λ live.
    if not live
    then returned none s
    else if not (is_usable (s.boxes ptr))
    then returned none s
    else returned (some ptr) s)

unfoldable pub deref : Space → Option ℕ → Outcome Space ℕ
unfolding slot_is_allocated is_usable
deref s none = panicked s
deref s (some ptr) = checked s ptr (λ live.
    if not live
    then panicked s
    else if not (is_usable (s.boxes ptr))
    then panicked s
    else returned ptr s)

unfoldable pub as_ptr : Space → Option ℕ → Outcome Space ℕ
unfolding slot_is_allocated is_usable
as_ptr s none = panicked s
as_ptr s (some ptr) = checked s ptr (λ live.
    if not live
    then panicked s
    else if not (is_usable (s.boxes ptr))
    then panicked s
    else returned ptr s)

unfoldable pub internal_ptr : Space → Option ℕ → Outcome Space ℕ
unfolding slot_is_allocated is_usable
internal_ptr s none = panicked s
internal_ptr s (some ptr) = checked s ptr (λ live.
    if not live
    then panicked s
    else if not (is_usable (s.boxes ptr))
    then panicked s
    else returned ptr s)

-- Two null pointers are equal, and no pointer is null and equal to one that is not.
unfoldable pub ptr_eq : Space → Option ℕ → Option ℕ → Outcome Space Bool
unfolding is_usable
ptr_eq s none none = returned true s
ptr_eq s none (some q) = returned false s
ptr_eq s (some p) none = returned false s
ptr_eq s (some p) (some q) =
    if not (is_usable (s.boxes p)) || not (is_usable (s.boxes q))
    then panicked s
    else returned (p == q) s

-- The count is made a nonzero number, which panics at zero.
unfoldable pub ref_count : Space → Option ℕ → Outcome Space ℕ
unfolding slot_is_allocated is_usable
ref_count s none = panicked s
ref_count s (some ptr) = checked s ptr (λ live.
    if not live
    then panicked s
    else if not (is_usable (s.boxes ptr))
    then panicked s
    else if (s.boxes ptr).ref_count == 0
    then panicked s
    else returned (s.boxes ptr).ref_count s)

unfoldable pub weak_count : Space → Option ℕ → Outcome Space ℕ
unfolding slot_is_allocated is_usable GcBox.weak_count
weak_count s none = panicked s
weak_count s (some ptr) = checked s ptr (λ live.
    if not live
    then panicked s
    else if not (is_usable (s.boxes ptr))
    then panicked s
    else returned (GcBox.weak_count (s.boxes ptr)) s)

unfoldable pub clone : (Space → Space) → Space → Option ℕ → Outcome Space (Option ℕ)
unfolding slot_is_allocated is_usable inc_ref undo_inc_ref
clone between s none = returned none s
clone between s (some ptr) =
    let before = s.boxes ptr in
    if not (is_usable before)
    then panicked s
    else checked s ptr (λ live.
      if not live
      then panicked s
      else let t = between (put_box s ptr (inc_ref before)) in
        let after = t.boxes ptr in
        if not (before.generation == after.generation)
        then panicked (put_box t ptr (undo_inc_ref after))
        else checked t ptr (λ still. if still then returned (some ptr) t else panicked t))

unfoldable pub try_clone : (Space → Space) → Space → Option ℕ → Outcome Space (Option (Option ℕ))
unfolding slot_is_allocated is_usable try_inc_ref_if_nonzero undo_inc_ref
try_clone between s none = returned none s
try_clone between s (some ptr) =
    let before = s.boxes ptr in
    checked s ptr (λ live.
      if not live
      then returned none s
      else if not (is_usable before)
      then returned none s
      else let (counted, b) = try_inc_ref_if_nonzero before in
        if not counted
        then returned none s
        else let t = between (put_box s ptr b) in
          let after = t.boxes ptr in
          if not (is_usable after)
          then returned none (put_box t ptr (undo_inc_ref after))
          else checked t ptr
              (λ still. if still then returned (some (some ptr)) t else returned none t))

-- With whether the collector is told of a dropped pointer, which it is not of the last one.
unfoldable pub drop : Space → Option ℕ → Bool × Space
unfolding dec_ref
drop s none = (false, s)
drop s (some ptr) = let (was_last, b) = dec_ref (s.boxes ptr) in (not was_last, put_box s ptr b)

unfoldable pub downgrade : (Space → Space) → Space → Option ℕ → Outcome Space (Option ℕ)
unfolding slot_is_allocated is_usable inc_weak dec_weak
downgrade between s none = panicked s
downgrade between s (some ptr) =
    let before = s.boxes ptr in
    if not (is_usable before)
    then panicked s
    else checked s ptr (λ live.
      if not live
      then panicked s
      else let t = between (put_box s ptr (inc_weak before)) in
        let after = t.boxes ptr in
        if not (before.generation == after.generation)
        then panicked (put_box t ptr (dec_weak after).1)
        else checked t ptr (λ still. if still then returned (some ptr) t else panicked t))
