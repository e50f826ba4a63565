-- ===== src/Buffers/Satb.antt =====
-- No overwritten reference that the barriers record is lost before the buffers are full.
use rudo.Prelude.{
  ℕ, ◌+◌, ◌*◌, ◌≤◌, ◌<◌, ◌≡◌, refl, sym, ap, ◌∙◌, Bool, true, false, not, ◌&&◌, ◌||◌, some, List,
  [], ◌∷◌, ◌++◌, length, length-append, ltb, leb, ◌==◌, if◌then◌else◌, arith, Bool-cases, inl, inr,
}
use rudo.Page.{is_allocated}
use rudo.Incremental.{satb_buffer_overflow, request_fallback}
use rudo.Mark.{Space, header_of, index_of}
use rudo.Buffers.{
  LocalHeap, Shared, max_cross_thread_satb_size, push_cross_thread_satb, record_satb_old_value,
  record_all, get_allocating_thread_id, satb_buffer_overflowed, request_satb_fallback,
}

pub append_assoc : (xs ys zs : List ℕ) → (xs ++ ys) ++ zs ≡ xs ++ (ys ++ zs)
append_assoc [] ys zs = refl
append_assoc (x ∷ xs) ys zs = ap (λ (t : List ℕ). x ∷ t) (append_assoc xs ys zs)

pub append-nil : (xs : List ℕ) → xs ++ [] ≡ xs
append-nil [] = refl
append-nil (x ∷ xs) = ap (λ (t : List ℕ). x ∷ t) (append-nil xs)

-- An allocated object of the thread's own heap, or of no thread's.
abbrev pub IsOwn : ℕ → ℕ → ℕ → Space → ℕ → Type 0
IsOwn thread heap_start heap_end sp gc_box =
    (idx : ℕ) × (allocating : ℕ) × (index_of sp gc_box ≡ some idx)
    × (is_allocated (header_of sp gc_box) idx ≡ some true)
    × (get_allocating_thread_id heap_start heap_end sp gc_box ≡ some allocating)
    × (((thread == allocating) || (allocating == 0)) ≡ true)

abbrev pub AllOwn : ℕ → ℕ → ℕ → Space → List ℕ → Type 0
AllOwn thread heap_start heap_end sp [] = Unit
AllOwn thread heap_start heap_end sp (gc_box ∷ rest) =
    IsOwn thread heap_start heap_end sp gc_box × AllOwn thread heap_start heap_end sp rest

-- What has been recorded and not been flushed, the oldest first.
abbrev pub recorded : LocalHeap → List ℕ
recorded h = h.satb_overflow_buffer ++ h.satb_old_values

module _ (thread heap_start heap_end : ℕ) (sp : Space) where
  own_value :
      (h : LocalHeap) (s : Shared) (gc_box : ℕ)
      → IsOwn thread heap_start heap_end sp gc_box
      → record_satb_old_value thread heap_start heap_end sp h s gc_box ≡ (
          if leb h.satb_buffer_capacity (length (h.satb_old_values ++ (gc_box ∷ [])))
          then some (
              satb_buffer_overflowed
                (record h { satb_old_values = h.satb_old_values ++ (gc_box ∷ []) })
                s)
          else some (true, record h { satb_old_values = h.satb_old_values ++ (gc_box ∷ []) }, s))
  unfolding record_satb_old_value
  own_value h s gc_box (idx, allocating, at, live, owner, own) =
      let mine : (not (thread == allocating) && not (allocating == 0)) ≡ false =
        ground (arith, own) in
      ground (arith, at, live, owner, mine)

  pub record_one :
      (h : LocalHeap) (s : Shared) (gc_box : ℕ)
      → IsOwn thread heap_start heap_end sp gc_box
      → length h.satb_old_values < h.satb_buffer_capacity
      → (stored : Bool) × (h' : LocalHeap) × (s' : Shared) × (record_satb_old_value thread
            heap_start heap_end sp h s gc_box
          ≡ some (stored, h', s'))
        × (recorded h' ≡ recorded h ++ (gc_box ∷ []))
        × (length h'.satb_old_values < h'.satb_buffer_capacity)
        × (h'.satb_buffer_capacity ≡ h.satb_buffer_capacity)
        × (s' ≡ (if stored then s else request_satb_fallback s))
        × (stored ≡ ltb (length h.satb_old_values + 1) h.satb_buffer_capacity)
  unfolding satb_buffer_overflowed
  record_one h s gc_box own room =
      let pushed : LocalHeap = record h { satb_old_values = h.satb_old_values ++ (gc_box ∷ []) } in
      let longer : length pushed.satb_old_values ≡ length h.satb_old_values + 1 =
        length-append h.satb_old_values (gc_box ∷ []) ∙ omega arith in
      elim (Bool-cases (leb h.satb_buffer_capacity (length pushed.satb_old_values))) [
        | inl full ↦ (
          false,
          (satb_buffer_overflowed pushed s).1,
          request_satb_fallback s,
          own_value h s gc_box own ∙ rw full refl,
          append-nil _ ∙ sym (append_assoc h.satb_overflow_buffer h.satb_old_values (gc_box ∷ [])),
          omega arith,
          refl,
          refl,
          ground (arith, full, longer),
        )
        | inr fits ↦ (
          true,
          pushed,
          s,
          own_value h s gc_box own ∙ rw fits refl,
          sym (append_assoc h.satb_overflow_buffer h.satb_old_values (gc_box ∷ [])),
          ground (arith, fits),
          refl,
          refl,
          ground (arith, fits, longer),
        )
      ]

  -- A thread records the old values of references to allocated objects of its own heap. After any number
  -- of such calls, the overflow buffer and the buffer together hold what they held before and all the
  -- values, in order, and the buffer is below its capacity.
  pub satb_nothing_lost :
      (h : LocalHeap) (s : Shared) (values : List ℕ)
      → AllOwn thread heap_start heap_end sp values
      → length h.satb_old_values < h.satb_buffer_capacity
      → (h' : LocalHeap) × (s' : Shared) × (record_all thread heap_start heap_end sp h s values
          ≡ some (h', s'))
        × (recorded h' ≡ recorded h ++ values)
        × (length h'.satb_old_values < h'.satb_buffer_capacity)
  unfolding record_all
  satb_nothing_lost h s [] own room = (h, s, refl, sym (append-nil (recorded h)), room)
  satb_nothing_lost h s (v ∷ vs) own room =
      let (stored, h1, s1, run, grown, room1, cap, shared, kept) = record_one h s v own.0 room in
      let (h', s', run', all, room') = satb_nothing_lost h1 s1 vs own.1 room1 in
      (
        h',
        s',
        rw run run',
        all ∙ ap (λ (t : List ℕ). t ++ vs) grown ∙ append_assoc (recorded h) (v ∷ []) vs,
        room',
      )

-- Neither buffer is beyond its limit, and the overflow buffer is used only when the main one is full.
pub record IsFilled (s : Shared) : Type 0 where
  pub main : length s.cross_thread_satb ≤ max_cross_thread_satb_size
  pub overflow : length s.cross_thread_satb_overflow ≤ max_cross_thread_satb_size
  pub order :
      length s.cross_thread_satb < max_cross_thread_satb_size → s.cross_thread_satb_overflow ≡ []

abbrev pub waiting : Shared → List ℕ
waiting s = s.cross_thread_satb ++ s.cross_thread_satb_overflow

-- A push from another thread keeps the buffers' limits. The reference is appended to what waits, unless
-- both buffers are full; exactly if the main buffer is full, the push returns false and requests the
-- fallback.
push_cross_exact :
    (s : Shared) (gc_ptr : ℕ)
    → IsFilled s
    → (stored : Bool) × (s' : Shared) × (push_cross_thread_satb s gc_ptr ≡ (stored, s'))
      × IsFilled s'
      × (waiting s' ≡ (
          if ltb (length (waiting s)) (2 * max_cross_thread_satb_size)
          then waiting s ++ (gc_ptr ∷ [])
          else waiting s))
      × (stored ≡ ltb (length s.cross_thread_satb) max_cross_thread_satb_size)
      × (s'.mark_state
          ≡ (if stored then s.mark_state else request_fallback s.mark_state satb_buffer_overflow))
unfolding push_cross_thread_satb
push_cross_exact s gc_ptr f =
    let total : length (waiting s)
        ≡ length s.cross_thread_satb + length s.cross_thread_satb_overflow =
      length-append s.cross_thread_satb s.cross_thread_satb_overflow in
    let main' : length (s.cross_thread_satb ++ (gc_ptr ∷ [])) ≡ length s.cross_thread_satb + 1 =
      length-append s.cross_thread_satb (gc_ptr ∷ []) ∙ omega arith in
    let over' : length (s.cross_thread_satb_overflow ++ (gc_ptr ∷ []))
        ≡ length s.cross_thread_satb_overflow + 1 =
      length-append s.cross_thread_satb_overflow (gc_ptr ∷ []) ∙ omega arith in
    elim (Bool-cases (leb max_cross_thread_satb_size (length s.cross_thread_satb))) [
      | inr room ↦
          let less : length s.cross_thread_satb < max_cross_thread_satb_size =
            ground (arith, room) in
          let empty : s.cross_thread_satb_overflow ≡ [] = f.order less in
          let fits : ltb (length (waiting s)) (2 * max_cross_thread_satb_size) ≡ true =
            ground (arith, total, ap length empty, less) in
          let test : ltb (length s.cross_thread_satb) max_cross_thread_satb_size ≡ true =
            ground (arith, less) in
          (
            true,
            record s { cross_thread_satb = s.cross_thread_satb ++ (gc_ptr ∷ []) },
            rw room refl,
            record { main = omega (arith, main'); overflow = f.overflow; order = λ l. empty },
            rw fits (
                rw empty (
                  append-nil _
                  ∙ ap (λ (t : List ℕ). t ++ (gc_ptr ∷ []))
                      (sym (append-nil s.cross_thread_satb)))),
            sym test,
            refl,
          )
      | inl full ↦
          let at_limit : max_cross_thread_satb_size ≤ length s.cross_thread_satb =
            ground (arith, full) in
          let test : ltb (length s.cross_thread_satb) max_cross_thread_satb_size ≡ false =
            ground (arith, at_limit) in
          elim (Bool-cases (leb max_cross_thread_satb_size (length s.cross_thread_satb_overflow))) [
            | inl both ↦
                let none_left : ltb (length (waiting s)) (2 * max_cross_thread_satb_size) ≡ false =
                  ground (arith, total, both, at_limit) in
                (
                  false,
                  request_satb_fallback s,
                  rw full (rw both refl),
                  record { main = f.main; overflow = f.overflow; order = f.order },
                  rw none_left refl,
                  sym test,
                  refl,
                )
            | inr space ↦
                let below : length s.cross_thread_satb_overflow < max_cross_thread_satb_size =
                  ground (arith, space) in
                let fits : ltb (length (waiting s)) (2 * max_cross_thread_satb_size) ≡ true =
                  ground (arith, total, below, f.main) in
                (
                  false,
                  request_satb_fallback (record s {
                    cross_thread_satb_overflow = s.cross_thread_satb_overflow ++ (gc_ptr ∷ []);
                  }),
                  rw full (rw space refl),
                  record {
                    main = f.main;
                    overflow = omega (arith, over');
                    order = λ l. absurd (omega (arith, l));
                  },
                  rw fits (
                      sym (
                        append_assoc s.cross_thread_satb s.cross_thread_satb_overflow
                          (gc_ptr ∷ []))),
                  sym test,
                  refl,
                )
          ]
    ]
