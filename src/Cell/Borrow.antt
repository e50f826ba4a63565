-- ===== src/Cell/Borrow.antt =====
-- The mutable borrow as a whole, during incremental marking.
use rudo.Prelude.{
  ℕ, ◌<◌, ◌≡◌, refl, ap, ◌∙◌, true, false, some, List, mem, length, arith, Bool-cases, Option-cases,
  inl, inr,
}
use rudo.Page.Marks.{max_index}
use rudo.Incremental.{is_incremental_marking_active}
use rudo.Mark.{Space, header_of, index_of}
use rudo.Mark.Step.{IsWfSpace, seen_at}
use rudo.Mark.Visit.{slot_steps}
use rudo.Buffers.{LocalHeap}
use rudo.Buffers.Satb.{AllOwn, recorded}
use rudo.Barrier.{Heap, is_own, is_old, remember, gc_cell_validate_and_barrier}
use rudo.Barrier.Search.{IsField, box_at}
use rudo.Barrier.Exact.{dirtied, barriers_exact}
use rudo.Cell
use rudo.Cell.{Mutator, record_old_values, validate_thread_affinity, mark_all_black}
use rudo.Cell.Black.{is_markable, mark_all_black_lem}
use rudo.Cell.Satb.{
  KeepsOld, record_old_values_lem, remember_recorded, dirtied_recorded, dirtied-IsWfSpace,
  dirtied_markable,
}

validate_lem :
    (thread heap_start heap_end : ℕ) (s : Space) (cell : ℕ)
    → IsWfSpace s
    → is_own (header_of s cell) thread ≡ true
    → validate_thread_affinity thread heap_start heap_end s cell ≡ some tt
unfolding validate_thread_affinity
validate_lem thread hs he s cell w own = elim (Option-cases (index_of s cell)) [
  | inl e ↦ ground (arith, e)
  | inr (i, at) ↦ ground (arith, at, (slot_steps s w cell i at).0, own)
]

-- The field is the same whatever is in the buffers.
IsField-kept :
    (h : Heap) (b : LocalHeap) (page index offset ptr : ℕ)
    → IsField h page index offset ptr
    → IsField (record h { buffers = b }) page index offset ptr
IsField-kept h b page index offset ptr f = record {
  inside = f.inside;
  small = f.small;
  on_page = f.on_page;
  is_page = f.is_page;
  place = f.place;
  in_object = f.in_object;
  counted = f.counted;
  allocated = f.allocated;
}

-- What the barrier leaves for the marking.
record Barred (h h' : Heap) : Type 0 where
  pub wf : IsWfSpace h'.space
  pub markable : (q : ℕ) → is_markable h'.space q ≡ is_markable h.space q
  pub same : recorded h'.buffers ≡ recorded h.buffers

barred :
    (hash_set : List ℕ → List ℕ) (thread : ℕ) (h : Heap) (page index offset cell : ℕ)
    → IsField h page index offset cell
    → IsWfSpace h.space
    → is_own (h.space.pages page) thread ≡ true
    → (h' : Heap) × (gc_cell_validate_and_barrier hash_set (λ s. s) thread h cell true ≡ some h')
      × Barred h h'
barred hash_set thread h page index offset cell f w own =
    let fits : index < max_index = omega (arith, f.counted, w.fits page) in
    let (_, _, _, run) =
      barriers_exact hash_set h page index offset cell f (w.wf page) fits thread true in
    elim (Bool-cases (is_old h.space page (box_at h page index))) [
      | inl old ↦ (
        remember hash_set (dirtied h page index) page,
        run ∙ ground (arith, own, old),
        record {
          wf = dirtied-IsWfSpace h page index w fits;
          markable = dirtied_markable h page index;
          same =
              remember_recorded hash_set (dirtied h page index) page
              ∙ dirtied_recorded h page index;
        },
      )
      | inr young ↦ (
        h,
        run ∙ ground (arith, own, young),
        record { wf = w; markable = λ q. refl; same = refl },
      )
    ]

-- During incremental marking, a mutable borrow of a `GcCell` that is a field of an allocated small object
-- of the thread, and not borrowed, is granted. The objects that its value refers to, if they are
-- allocated ones of the thread, have then all been recorded, in order, or the fallback has been
-- requested; and each of them that is not under construction is marked.
pub borrow_mut-KeepsOld :
    (thread heap_start heap_end : ℕ) (hash_set : List ℕ → List ℕ) (m : Mutator)
    (page index offset cell : ℕ) (captured : List ℕ)
    → IsField m.heap page index offset cell
    → IsWfSpace m.heap.space
    → is_own (m.heap.space.pages page) thread ≡ true
    → AllOwn thread heap_start heap_end m.heap.space captured
    → length m.heap.buffers.satb_old_values < m.heap.buffers.satb_buffer_capacity
    → is_incremental_marking_active m.shared.mark_state ≡ true
    → (m' : Mutator) × (Cell.borrow_mut thread heap_start heap_end hash_set m cell false captured
        ≡ some m')
      × KeepsOld m.heap.buffers captured m'.heap.buffers m'.shared
      × ((p : ℕ)
          → mem p captured ≡ true
          → is_markable m.heap.space p ≡ true
          → seen_at m'.heap.space p ≡ true)
unfolding Cell.borrow_mut
borrow_mut-KeepsOld thread hs he hash_set m page index offset cell captured f w own values room
      active =
    let affine =
      validate_lem thread hs he m.heap.space cell w
        (ap (λ p. is_own (m.heap.space.pages p) thread) f.on_page ∙ own) in
    let (b, s, recording, keeps) =
      record_old_values_lem thread hs he m.heap.space m.heap.buffers m.shared captured values
        room in
    let h1 : Heap = record m.heap { buffers = b } in
    let (h2, barrier, after) =
      barred hash_set thread h1 page index offset cell
        (IsField-kept m.heap b page index offset cell f) w own in
    let (t, marking, black) = mark_all_black_lem h2.space after.wf captured in
    (
      record { heap = record h2 { space = t }; shared = s },
      ground (arith, affine, active, recording, barrier, marking),
      elim keeps [ inl all ↦ inl (after.same ∙ all) | inr fallback ↦ inr fallback ],
      λ p i can. black.all p i (after.markable p ∙ can),
    )
