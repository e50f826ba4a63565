-- ===== src/Cell/Satb.antt =====
-- A mutable borrow during incremental marking keeps what the value referred to.
use rudo.Prelude.{
  ℕ, ◌<◌, ◌≡◌, refl, sym, ap, ◌∙◌, ◌⊎◌, true, some, List, [], ◌∷◌, ◌++◌, ◌==◌, length, arith,
  Bool-cases, inl, inr,
}
use rudo.Bitmap.Laws.{with_bit, with_bit-IsBitmap}
use rudo.Page.{PageHeader}
use rudo.Page.Marks.{max_index}
use rudo.Address.{Layout, ptr_to_page_header, ptr_to_object_index}
use rudo.Incremental.{request_fallback}
use rudo.Mark.{Space}
use rudo.Mark.Step.{IsWfSpace}
use rudo.Buffers.{
  LocalHeap, Shared, request_satb_fallback, record_in_remembered_buffer, flush_remembered_buffer,
  add_to_dirty_pages,
}
use rudo.Buffers.Satb.{AllOwn, recorded, record_one, append_assoc, append-nil}
use rudo.Barrier.{Heap, remember}
use rudo.Barrier.Exact.{dirtied}
use rudo.Cell.{record_old_values}
use rudo.Cell.Black.{is_markable}

-- All the values are recorded, or the fallback is requested.
abbrev pub KeepsOld : LocalHeap → List ℕ → LocalHeap → Shared → Type 0
KeepsOld before values after s =
    (recorded after ≡ recorded before ++ values) ⊎ (s.mark_state.fallback_requested ≡ true)

fallback_set : (s : Shared) → (request_satb_fallback s).mark_state.fallback_requested ≡ true
unfolding request_fallback
fallback_set s = refl

pub record_old_values_lem :
    (thread heap_start heap_end : ℕ) (sp : Space) (h : LocalHeap) (s : Shared) (values : List ℕ)
    → AllOwn thread heap_start heap_end sp values
    → length h.satb_old_values < h.satb_buffer_capacity
    → (h' : LocalHeap) × (s' : Shared) × (record_old_values thread heap_start heap_end sp h s values
        ≡ some (h', s'))
      × KeepsOld h values h' s'
unfolding record_old_values
record_old_values_lem thread hs he sp h s [] own room =
    (h, s, refl, inl (sym (append-nil (recorded h))))
record_old_values_lem thread hs he sp h s (v ∷ vs) own room =
    let (stored, h1, s1, run, grown, room1, cap, shared, kept) =
      record_one thread hs he sp h s v own.0 room in
    elim (Bool-cases stored) [
      | inr full ↦ (h1, request_satb_fallback s1, ground (arith, run, full), inr (fallback_set s1))
      | inl ok ↦
          let (h', s', run', keeps) = record_old_values_lem thread hs he sp h1 s1 vs own.1 room1 in
          (
            h',
            s',
            ground (arith, run, ok, run'),
            elim keeps [
              | inr fb ↦ inr fb
              | inl all ↦
                  inl (
                    all
                    ∙ ap (λ (t : List ℕ). t ++ vs) grown
                    ∙ append_assoc (recorded h) (v ∷ []) vs)
            ],
          )
    ]

-- The barrier does not touch what has been recorded.
pub remember_recorded :
    (hash_set : List ℕ → List ℕ) (h : Heap) (page : ℕ)
    → recorded (remember hash_set h page).buffers ≡ recorded h.buffers
unfolding record_in_remembered_buffer flush_remembered_buffer
remember_recorded hash_set h page = ground arith

pub dirtied_recorded :
    (h : Heap) (page index : ℕ) → recorded (dirtied h page index).buffers ≡ recorded h.buffers
unfolding add_to_dirty_pages
dirtied_recorded h page index = ground arith

index_dirty :
    (l : Layout) (h : PageHeader) (b : List ℕ) (q : ℕ)
    → ptr_to_object_index l (record h { dirty_bitmap = b }) q ≡ ptr_to_object_index l h q
unfolding ptr_to_object_index
index_dirty l h b q = refl

pub dirtied-IsWfSpace :
    (h : Heap) (page index : ℕ)
    → IsWfSpace h.space
    → index < max_index
    → IsWfSpace (dirtied h page index).space
dirtied-IsWfSpace h page index w fits = record {
  wf = λ p. elim (Bool-cases (p == page)) [
    | inl e ↦ rw e (record {
      marks = (w.wf page).marks;
      dirty = with_bit-IsBitmap (h.space.pages page).dirty_bitmap (w.wf page).dirty index fits;
      allocated = (w.wf page).allocated;
    })
    | inr e ↦ rw e (w.wf p)
  ];
  fits = λ p. ground (arith, w.fits p, w.fits page);
}

pub dirtied_markable :
    (h : Heap) (page index q : ℕ)
    → is_markable (dirtied h page index).space q ≡ is_markable h.space q
dirtied_markable h page index q =
    let at = ptr_to_page_header h.space.layout q in
    let header = h.space.pages page in
    ground (arith, index_dirty h.space.layout header (with_bit header.dirty_bitmap index) q)
