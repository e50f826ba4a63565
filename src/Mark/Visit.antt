-- ===== src/Mark/Visit.antt =====
-- What a major collection's visitor does with one pointer: it marks and queues what is new.
use rudo.Prelude.{
  ℕ, ◌+◌, ◌<◌, ◌≡◌, refl, Bool, true, false, not, ◌&&◌, ◌||◌, none, some, ◌∷◌, ◌==◌, if◌then◌else◌,
  arith, Bool-cases, Option-cases, inl, inr,
}
use rudo.Bitmap.Laws.{has, with_bit, test-has, fetch_or_lem, old_word}
use rudo.Page.{PageHeader, magic_gc_page, is_allocated, is_marked, set_mark}
use rudo.Page.Marks.{max_index}
use rudo.Address.{ptr_to_page_header, ptr_to_object_index}
use rudo.Mark.{Space, GcVisitor, major, header_of, index_of, visit, push, count_one}
use rudo.Mark.Step.{
  IsWfSpace, seen_at, live_at, is_box, Grows, Grows-refl, with_mark, with_mark-IsWfSpace,
  with_mark-Grows, seen_box, index-lt-obj_count,
}

-- The pointer is null, or dangles, or is where a box starts.
abbrev pub IsClean : Space → ℕ → Type 0
IsClean s c = live_at s c ≡ true → is_box s c ≡ true

abbrev pub is_new : Space → ℕ → Bool
is_new s c = live_at s c && not (seen_at s c)

-- `t` and `v'` are what a visit of `c` makes of `s` and `v`.
pub record Visited (s : Space) (v : GcVisitor) (c : ℕ) (t : Space) (v' : GcVisitor) : Type 0 where
  pub wf : IsWfSpace t
  pub grows : Grows s t
  pub kind : v'.kind ≡ major
  pub queue :
      v'.worklist ≡ (if is_new s c then (c, (s.boxes c).generation) ∷ v.worklist else v.worklist)
  pub counted : v'.objects_marked ≡ v.objects_marked + (if is_new s c then 1 else 0)
  pub seen : (q : ℕ) → is_box s q ≡ true → seen_at t q ≡ ((is_new s c && (c == q)) || seen_at s q)

pub index-magic :
    (s : Space) (p i : ℕ) → index_of s p ≡ some i → ((header_of s p).magic == magic_gc_page) ≡ true
unfolding ptr_to_object_index
index-magic s p i e = ground arith

module _ (s : Space) (w : IsWfSpace s) (c i : ℕ) (at : index_of s c ≡ some i) where
  pub in_page : i < max_index
  in_page = omega (
    arith,
    index-lt-obj_count s.layout (header_of s c) c i at,
    w.fits (ptr_to_page_header s.layout c),
  )

  abbrev head : PageHeader
  head = header_of s c

  pub slot_steps :
      (is_allocated head i ≡ some (has head.allocated_bitmap i))
      × (is_marked head i ≡ some (has head.mark_bitmap i))
      × (set_mark head i
          ≡ some (
            not (has head.mark_bitmap i),
            record head { mark_bitmap = with_bit head.mark_bitmap i },
          ))
  unfolding is_allocated is_marked set_mark
  slot_steps = (
    test-has head.allocated_bitmap (w.wf (ptr_to_page_header s.layout c)).allocated i in_page,
    test-has head.mark_bitmap (w.wf (ptr_to_page_header s.layout c)).marks i in_page,
    ground (
      arith,
      fetch_or_lem head.mark_bitmap (w.wf (ptr_to_page_header s.layout c)).marks i in_page,
      old_word head.mark_bitmap (w.wf (ptr_to_page_header s.layout c)).marks i in_page,
    ),
  )

  visit_slot :
      (v : GcVisitor)
      → v.kind ≡ major
      → visit s v c
        ≡ some (
            if not (c == 0) && is_new s c
            then (with_mark s c i, push s (count_one v) c)
            else (s, v))
  unfolding visit
  visit_slot v kind = ground (arith, slot_steps, index-magic s c i at)

visit_none : (s : Space) (v : GcVisitor) (c : ℕ) → index_of s c ≡ none → visit s v c ≡ some (s, v)
unfolding visit
visit_none s v c e = ground arith

-- Nothing is new about a pointer that is not live or already marked.
unchanged :
    (s : Space) (w : IsWfSpace s) (v : GcVisitor) (c : ℕ)
    → v.kind ≡ major
    → is_new s c ≡ false
    → Visited s v c s v
unchanged s w v c kind old = record {
  wf = w;
  grows = Grows-refl s;
  kind = kind;
  queue = rw old refl;
  counted = ground (arith, old);
  seen = λ q b. rw old refl;
}

marked_now :
    (s : Space) (w : IsWfSpace s) (v : GcVisitor) (c i : ℕ)
    → index_of s c ≡ some i
    → is_box s c ≡ true
    → v.kind ≡ major
    → is_new s c ≡ true
    → Visited s v c (with_mark s c i) (push s (count_one v) c)
marked_now s w v c i at box kind new = record {
  wf = with_mark-IsWfSpace s w c i at;
  grows = with_mark-Grows s w c i at;
  kind = kind;
  queue = rw new refl;
  counted = ground (arith, new);
  seen = λ q b. rw new (seen_box s w c i at q box b);
}

pub visit_lem :
    (s : Space) (w : IsWfSpace s) (v : GcVisitor) (c : ℕ)
    → v.kind ≡ major
    → IsClean s c
    → (t : Space) × (v' : GcVisitor) × (visit s v c ≡ some (t, v')) × Visited s v c t v'
visit_lem s w v c kind clean = elim (Option-cases (index_of s c)) [
  | inl e ↦ (s, v, visit_none s v c e, unchanged s w v c kind (ground (arith, e)))
  | inr (i, at) ↦ elim (Bool-cases (is_new s c)) [
    | inl new ↦ (
      with_mark s c i,
      push s (count_one v) c,
      ground (arith, visit_slot s w c i at v, clean, new, at),
      marked_now s w v c i at (ground (arith, clean, new)) kind new,
    )
    | inr old ↦ (s, v, ground (arith, visit_slot s w c i at v, old), unchanged s w v c kind old)
  ]
]
