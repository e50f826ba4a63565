-- ===== src/Cell/Tests.antt =====
-- The cell is the field of Barrier/Tests, during incremental marking; its value refers to both objects.
use rudo.Prelude.{ℕ, ◌≡◌, refl, true, false, some, List, [], ◌∷◌, mem, arith}
use rudo.Address.{ptr_to_page_header, ptr_to_object_index, header_size}
use rudo.Page.{is_allocated}
use rudo.Incremental.{new, marking, to_usize, is_incremental_marking_active}
use rudo.Mark.Tests.{first, second}
use rudo.Mark.Step.{seen_at}
use rudo.Buffers.{Shared, get_allocating_thread_id}
use rudo.Buffers.Satb.{IsOwn}
use rudo.Buffers.Tests.{shared}
use rudo.Barrier.Tests.{heap, field, field-IsField, promoted, promoted-IsWfSpace}
use rudo.Cell
use rudo.Cell.{Mutator}
use rudo.Cell.ThreadSafe
use rudo.Cell.Black.{is_markable}
use rudo.Cell.Satb.{KeepsOld}
use rudo.Cell.Borrow.{borrow_mut-KeepsOld}
use rudo.Cell.Agree.{borrow_mut-borrow_mut_simple}

abbrev marking_shared : Shared
marking_shared = record shared { mark_state = record new { phase = to_usize marking } }

abbrev mutator : Mutator
mutator = record { heap = heap; shared = marking_shared }

abbrev both : List ℕ
both = first ∷ second ∷ []

marking_active : is_incremental_marking_active marking_shared.mark_state ≡ true
unfolding is_incremental_marking_active new
marking_active = refl

first-IsOwn : IsOwn 1 0 8192 promoted first
unfolding ptr_to_page_header ptr_to_object_index header_size is_allocated rudo.Bitmap.test
    get_allocating_thread_id
first-IsOwn = (0, 1, refl, refl, refl, refl)

second-IsOwn : IsOwn 1 0 8192 promoted second
unfolding ptr_to_page_header ptr_to_object_index header_size is_allocated rudo.Bitmap.test
    get_allocating_thread_id
second-IsOwn = (1, 1, refl, refl, refl, refl)

borrow_mut-KeepsOld_example :
    (m' : Mutator) × (Cell.borrow_mut 1 0 8192 (λ b. b) mutator field false both ≡ some m')
    × KeepsOld heap.buffers both m'.heap.buffers m'.shared
    × ((p : ℕ) → mem p both ≡ true → is_markable promoted p ≡ true → seen_at m'.heap.space p ≡ true)
borrow_mut-KeepsOld_example =
    borrow_mut-KeepsOld 1 0 8192 (λ b. b) mutator 4096 0 8 field both field-IsField
      promoted-IsWfSpace refl (first-IsOwn, (second-IsOwn, tt)) (omega arith) marking_active

borrow_mut-borrow_mut_simple_example :
    ThreadSafe.borrow_mut 1 0 8192 (λ b. b) true mutator field both
    ≡ ThreadSafe.borrow_mut_simple 1 0 8192 (λ b. b) true mutator field both
borrow_mut-borrow_mut_simple_example =
    borrow_mut-borrow_mut_simple 1 0 8192 (λ b. b) true mutator field both
