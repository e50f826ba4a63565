-- ===== src/Collection/Tests.antt =====
-- The heap of Mark/Tests: from the first object as the root, the second is kept; without roots, it is
-- freed, though other values that are dropped hold references.
use rudo.Prelude.{
  ◌-◌, ℕ, ◌≡◌, refl, true, false, some, none, Option, List, [], ◌∷◌, get_elem?, arith,
}
use rudo.Bitmap.Laws.{has}
use rudo.Page
use rudo.Page.{is_large_object}
use rudo.GcBox.{GcBox, weak_count_and_dead_flag}
use rudo.Address.{ptr_to_page_header, ptr_to_object_index, header_size}
use rudo.Mark.{index_of}
use rudo.Mark.Step.{is_box, live_at}
use rudo.Mark.Roots.{Reachable, from_root, from_object}
use rudo.Mark.Tests.{
  space, first, second, trace, heap, space-IsWfSpace, space-Covers, space_clear, first-IsClean,
  trace-AllClean, unmarked_two,
}
use rudo.Sweep.{Page, Glue}
use rudo.Sweep.Eager.{Drops}
use rudo.Sweep.Segment.{expired, LeavesIt, LeavesDead}
use rudo.Collection.{mark_and_sweep}
use rudo.Collection.Survivors.{collection_keeps, collection_frees}

abbrev links : ℕ → ℕ → Option ℕ
links base i = none

second_page : get_elem? (4096 ∷ []) 0 ≡ some (ptr_to_page_header space.layout second)
unfolding ptr_to_page_header
second_page = refl

second_index : index_of space second ≡ some 1
unfolding ptr_to_object_index header_size ptr_to_page_header
second_index = refl

second_box : (is_box space second ≡ true) × (live_at space second ≡ true)
unfolding ptr_to_object_index header_size ptr_to_page_header
second_box = (refl, refl)

first_box : (is_box space first ≡ true) × (live_at space first ≡ true)
unfolding ptr_to_object_index header_size ptr_to_page_header
first_box = (refl, refl)

second_small : is_large_object (space.pages (ptr_to_page_header space.layout second)) ≡ false
unfolding ptr_to_page_header rudo.Page.has_flag
second_small = refl

second-Reachable : Reachable trace space (first ∷ []) second
second-Reachable =
    from_object (from_root refl first_box.0 first_box.1) refl second_box.0 second_box.1

not_weak : weak_count_and_dead_flag (space.boxes second) ≡ (0, false)
unfolding weak_count_and_dead_flag
not_weak = refl

-- Dropping a value of the page gives up a reference to each of the page's objects.
abbrev releasing : Glue
releasing i boxes j = record (boxes j) { ref_count = (boxes j).ref_count - 1 }

abbrev drops : ℕ → Drops
drops k = record { earlier = λ b. b; own = releasing; later = λ b. b }

abbrev IsAlive : GcBox → Type 0
IsAlive b = (weak_count_and_dead_flag b).1 ≡ false

alive-expired : (b : GcBox) → IsAlive b → expired b ≡ false
alive-expired b h = ground (arith, h)

releasing-IsAlive : LeavesIt IsAlive (drops 0) 1
unfolding weak_count_and_dead_flag
releasing-IsAlive = (λ i b away h. h, λ b h. h, λ b h. h)

releasing-LeavesDead : LeavesDead (drops 0) 1
unfolding weak_count_and_dead_flag
releasing-LeavesDead = (λ i b. (λ h. h, λ h. h), λ b h. h, λ b h. h)

collection_keeps_example :
    (n reclaimed : ℕ) × (pushed : List (ℕ × ℕ)) × (pages' : List Page) × (p' : Page)
    × (mark_and_sweep trace 2 links drops space (first ∷ []) (4096 ∷ [])
        ≡ some (n, reclaimed, pushed, pages'))
    × (get_elem? pages' 0 ≡ some p')
    × (has p'.header.allocated_bitmap 1 ≡ true)
    × IsAlive (p'.boxes 1)
collection_keeps_example =
    collection_keeps trace 2 space (first ∷ []) heap space-IsWfSpace space-Covers space_clear
      (first-IsClean, tt) (refl, tt) trace-AllClean (omega (arith, unmarked_two)) links drops
      (4096 ∷ []) 0 second 1 second_page second_small second_index second_box.0 second_box.1 IsAlive
      alive-expired releasing-IsAlive second-Reachable (ground (arith, not_weak))

rootless : {p : ℕ} → ¬ Reachable trace space [] p
rootless (from_root m b l) = cc m
rootless (from_object r m b l) = rootless r

collection_frees_example :
    (n reclaimed : ℕ) × (pushed : List (ℕ × ℕ)) × (pages' : List Page) × (p' : Page)
    × (mark_and_sweep trace 2 links drops space [] (4096 ∷ [])
        ≡ some (n, reclaimed, pushed, pages'))
    × (get_elem? pages' 0 ≡ some p')
    × (has p'.header.allocated_bitmap 1 ≡ false)
collection_frees_example =
    collection_frees trace 2 space [] heap space-IsWfSpace space-Covers space_clear tt tt
      trace-AllClean (omega (arith, unmarked_two)) links drops (4096 ∷ []) 0 second 1 second_page
      second_small second_index second_box.0 second_box.1 rootless (ground (arith, not_weak))
      releasing-LeavesDead
