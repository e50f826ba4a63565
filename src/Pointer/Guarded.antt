-- ===== src/Pointer/Guarded.antt =====
-- What the checks after a count has been taken give, whatever other threads do in between.
use rudo.Prelude.{
  ℕ, ◌+◌, ◌≡◌, refl, Bool, true, false, Option, none, some, ◌==◌, if◌then◌else◌, arith,
}
use rudo.Page.{is_allocated}
use rudo.GcBox.{GcBox, has_dead_flag, try_inc_ref_from_zero, try_inc_ref_if_nonzero}
use rudo.Mark.{Space, index_of, header_of}
use rudo.Pointer.{Outcome, panicked, returned, put_box, slot_is_allocated, checked, flags_clear}
use rudo.Pointer.Weak
use rudo.Pointer.WeakRef

-- What the looks find that let a pointer out, from the heap `c` with the count taken on: `g` is the
-- generation from before. The heap of the last look is the one at the end.
pub record Passed (late : Bool) (between : ℕ → Space → Space) (c : Space) (ptr g : ℕ) (t : Space)
    : Type 0 where
  pub generation : ((between 0 c).boxes ptr).generation ≡ g
  pub idle : ((between 1 (between 0 c)).boxes ptr).is_dropping ≡ 0
  pub undead : has_dead_flag ((between 2 (between 1 (between 0 c))).boxes ptr) ≡ false
  pub last : t ≡ between 4 (flags_clear late between (between 0 c) ptr).1
  pub allocated : (i : ℕ) → index_of t ptr ≡ some i → is_allocated (header_of t ptr) i ≡ some true

abbrev pub HandsOut :
    Bool → (ℕ → Space → Space) → Space → ℕ → ℕ → Outcome Space (Option (Option ℕ)) → Type 0
HandsOut late between c ptr g (panicked t) = Unit
HandsOut late between c ptr g (returned none t) = Unit
HandsOut late between c ptr g (returned (some gc) t) =
    (gc ≡ some ptr) × Passed late between c ptr g t

in_slot :
    (t : Space) (ptr : ℕ)
    → slot_is_allocated t ptr ≡ some true
    → (i : ℕ) → index_of t ptr ≡ some i
    → is_allocated (header_of t ptr) i ≡ some true
unfolding slot_is_allocated
in_slot t ptr e i at = ground (arith, e, at)

-- The heap after the count of each kind of pointer.
abbrev pub exchanged : Space → ℕ → Space
exchanged s ptr = let b = s.boxes ptr in put_box s ptr (record b { ref_count = b.ref_count + 1 })

abbrev pub taken : (GcBox → GcBox) → Space → ℕ → Space
taken during s ptr =
    let (resurrected, b) = try_inc_ref_from_zero during (s.boxes ptr) in
    put_box s ptr (if resurrected then b else (try_inc_ref_if_nonzero b).1)

module _ (late : Bool) (between : ℕ → Space → Space) (c : Space) (ptr g : ℕ) where
  abbrev at_end : Space
  at_end = between 4 (flags_clear late between (between 0 c) ptr).1

  pub passed :
      (g == ((between 0 c).boxes ptr).generation) ≡ true
      → (flags_clear late between (between 0 c) ptr).0 ≡ true
      → slot_is_allocated at_end ptr ≡ some true
      → Passed late between c ptr g at_end
  passed same clear e = record {
    generation = ground (arith, same);
    idle = ground (arith, clear);
    undead = ground (arith, clear);
    last = refl;
    allocated = in_slot at_end ptr e;
  }

  abbrev last_look : Outcome Space (Option (Option ℕ))
  last_look =
      checked at_end ptr
        (λ still. if still then returned (some (some ptr)) at_end else returned none at_end)
