-- ===== src/Pointer/Tests.antt =====
-- The first object of Mark/Tests, with one reference.
use rudo.Prelude.{ℕ, ◌+◌, ◌^◌, ◌<◌, ◌≡◌, refl, Bool, true, not, ◌&&◌, ◌==◌, some, arith}
use rudo.GcBox.{weak_count}
use rudo.Address.{ptr_to_page_header, ptr_to_object_index, header_size}
use rudo.Mark.{Space}
use rudo.Mark.Tests.{space, first}
use rudo.Pointer.{returned, slot_is_allocated, is_usable, is_plausible}
use rudo.Pointer.Strong
use rudo.Pointer.Weak
use rudo.Pointer.WeakRef
use rudo.Pointer.WeakRef.{GcBoxWeakRef}
use rudo.Pointer.Steady.{upgrade_answer, upgrades_exact}
use rudo.Pointer.RoundTrip.{drop-clone}

pub first_allocated : slot_is_allocated space first ≡ some true
unfolding slot_is_allocated ptr_to_object_index header_size ptr_to_page_header rudo.Bitmap.test
first_allocated = refl

pub first_usable : is_usable (space.boxes first) ≡ true
unfolding is_usable
first_usable = refl

abbrev everywhere : ℕ → Bool
everywhere p = true

no_weak : weak_count (space.boxes first) + 1 < 2 ^ 61
unfolding weak_count
no_weak = omega arith

abbrev weak_ref : GcBoxWeakRef
weak_ref = record { ptr = some first; generation = 0 }

-- No other thread acts, so that all four upgrades hand out the pointer.
abbrev quiet : ℕ → Space → Space
quiet k s = s

upgrades_exact_example :
    let usable = is_plausible 16 everywhere first && is_usable (space.boxes first) in
    let referenced = upgrade_answer space first (usable && not (1 == 0)) in
    (Weak.upgrade 16 everywhere (λ k t. t) space (some first) ≡ referenced)
    × (Weak.try_upgrade 16 everywhere (λ k t. t) space (some first) ≡ referenced)
    × (WeakRef.try_upgrade 16 (λ b. b) (λ k t. t) space weak_ref ≡ referenced)
    × (WeakRef.upgrade 16 everywhere (λ b. b) (λ k t. t) space weak_ref
        ≡ upgrade_answer space first usable)
upgrades_exact_example =
    upgrades_exact 16 everywhere space first 0 first_allocated (omega arith) refl

drop-clone_example :
    (t : Space) × (Strong.clone (λ t. t) space (some first) ≡ returned (some first) t)
    × ((Strong.drop t (some first)).0 ≡ true)
    × ((p : ℕ) → (Strong.drop t (some first)).1.boxes p ≡ space.boxes p)
drop-clone_example = drop-clone space first first_allocated first_usable (omega arith) (omega arith)
