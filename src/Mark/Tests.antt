-- ===== src/Mark/Tests.antt =====
-- A heap with one page of two objects, of which the first points to the second and to null.
use rudo.Prelude.{
  ℕ, ◌≡◌, refl, Bool, true, false, some, List, [], ◌∷◌, ◌==◌, if◌then◌else◌, arith, ◌↔◌,
  Option-cases, inl, inr, replicate,
}
use rudo.Bitmap.Laws.{has-with_bit, has-replicate, with_bit-IsBitmap, replicate-IsBitmap}
use rudo.Page.{PageHeader}
use rudo.Page.Marks.{IsWf}
use rudo.Page.Tests.{fresh, fresh-IsWf}
use rudo.GcBox.{GcBox, drop_fn_for}
use rudo.Address.{Layout, ptr_to_page_header, ptr_to_object_index, header_size}
use rudo.Mark.{Space, GcVisitor, major, index_of, header_of, process_worklist, mark_major_roots}
use rudo.Mark.Step.{IsWfSpace, seen_at, is_box, Grows, index-lt-obj_count}
use rudo.Mark.Visit.{IsClean}
use rudo.Mark.Worklist.{Entries, AllClean, unmarked, Covers}
use rudo.Mark.Loop.{Reach, marking_exact}
use rudo.Mark.Tricolor.{IsTricolor}
use rudo.Mark.Roots.{Reachable, mark_major_roots_exact}

abbrev layout : Layout
layout = record { page_size = 4096; header_base = 1560 }

abbrev header : PageHeader
header = record fresh { obj_count = 2; header_size = 1568; allocated_bitmap = 3 ∷ replicate 63 0 }

abbrev box : GcBox
box = record {
  ref_count = 1;
  weak_count = 0;
  drop_fn = drop_fn_for;
  is_dropping = 0;
  generation = 0;
  dropped = 0;
}

abbrev pub space : Space
space = record {
  layout = layout;
  pages = λ page. if page == 4096 then header else record fresh { obj_count = 0 };
  boxes = λ _. box;
}

abbrev pub first : ℕ
first = 5664

abbrev pub second : ℕ
second = 5696

abbrev pub trace : ℕ → List ℕ
trace p = if p == first then second ∷ 0 ∷ [] else []

abbrev pub heap : List ℕ
heap = first ∷ second ∷ []

header-IsWf : IsWf header
header-IsWf = record {
  marks = replicate-IsBitmap 64;
  dirty = replicate-IsBitmap 64;
  allocated =
      with_bit-IsBitmap {n = 64} (1 ∷ replicate 63 0)
        (with_bit-IsBitmap {n = 64} (replicate 64 0) (replicate-IsBitmap 64) 0 (omega arith)) 1
        (omega arith);
}

pub space-IsWfSpace : IsWfSpace space
space-IsWfSpace = record { wf = λ page. go (page == 4096); fits = λ page. ground arith }
  where
    go : (b : Bool) → IsWf (if b then header else record fresh { obj_count = 0 })
    go true = header-IsWf
    go false = record {
      marks = fresh-IsWf.marks;
      dirty = fresh-IsWf.dirty;
      allocated = fresh-IsWf.allocated;
    }

pub space-Covers : Covers space heap
unfolding header_size
space-Covers p b = elim (Option-cases (index_of space p)) [
  | inl e ↦ ground (arith, e)
  | inr (i, at) ↦ ground (arith, index-lt-obj_count layout (header_of space p) p i at, at)
]

pub space_clear : (q : ℕ) → seen_at space q ≡ false
space_clear q = elim (Option-cases (index_of space q)) [
  | inl e ↦ ground (arith, e)
  | inr (i, at) ↦ ground (arith, at, has-replicate 64 i)
]

second-IsClean : IsClean space second
unfolding ptr_to_object_index header_size ptr_to_page_header
second-IsClean live = refl

null-IsClean : IsClean space 0
unfolding ptr_to_object_index header_size ptr_to_page_header
null-IsClean live = cc live

pub first-IsClean : IsClean space first
unfolding ptr_to_object_index header_size ptr_to_page_header
first-IsClean live = refl

pub trace-AllClean : (p : ℕ) → is_box space p ≡ true → AllClean space (trace p)
trace-AllClean p b = go (p == first)
  where
    go : (t : Bool) → AllClean space (if t then second ∷ 0 ∷ [] else [])
    go true = (second-IsClean, (null-IsClean, tt))
    go false = tt

pub unmarked_two : unmarked space heap ≡ 2
unmarked_two = ground (arith, space_clear first, space_clear second)

-- The same heap when the first object has been marked and waits on the worklist.
abbrev one_marked : Space
one_marked = record space {
  pages = λ page.
      if page == 4096
      then record header { mark_bitmap = 1 ∷ replicate 63 0 }
      else record fresh { obj_count = 0 };
}

abbrev waiting : GcVisitor
waiting = record { kind = major; worklist = (first, 0) ∷ []; objects_marked = 1 }

one_marked-IsWfSpace : IsWfSpace one_marked
one_marked-IsWfSpace = record { wf = λ page. go (page == 4096); fits = λ page. ground arith }
  where
    go :
        (b : Bool)
        → IsWf (
            if b
            then record header { mark_bitmap = 1 ∷ replicate 63 0 }
            else record fresh { obj_count = 0 })
    go true = record {
      marks = with_bit-IsBitmap {n = 64} (replicate 64 0) (replicate-IsBitmap 64) 0 (omega arith);
      dirty = header-IsWf.dirty;
      allocated = header-IsWf.allocated;
    }
    go false = record {
      marks = fresh-IsWf.marks;
      dirty = fresh-IsWf.dirty;
      allocated = fresh-IsWf.allocated;
    }

one_marked-Covers : Covers one_marked heap
unfolding header_size
one_marked-Covers p b = elim (Option-cases (index_of one_marked p)) [
  | inl e ↦ ground (arith, e)
  | inr (i, at) ↦ ground (arith, index-lt-obj_count layout (header_of one_marked p) p i at, at)
]

entry-IsClean : IsClean one_marked second × IsClean one_marked 0
unfolding ptr_to_object_index header_size ptr_to_page_header
entry-IsClean = (λ live. refl, λ live. cc live)

one_marked-AllClean : (p : ℕ) → is_box one_marked p ≡ true → AllClean one_marked (trace p)
one_marked-AllClean p b = go (p == first)
  where
    go : (t : Bool) → AllClean one_marked (if t then second ∷ 0 ∷ [] else [])
    go true = (entry-IsClean.0, (entry-IsClean.1, tt))
    go false = tt

waiting-Entries : Entries one_marked waiting.worklist
unfolding ptr_to_object_index header_size ptr_to_page_header
waiting-Entries = (refl, refl, refl, refl, tt)

only_first :
    (q : ℕ) → is_box one_marked q ≡ true → seen_at one_marked q ≡ true → (q == first) ≡ true
unfolding header_size
only_first q b seen = elim (Option-cases (index_of one_marked q)) [
  | inl e ↦ ground (arith, e, seen)
  | inr (i, at) ↦ ground (
    arith,
    index-lt-obj_count layout (header_of one_marked q) q i at,
    at,
    has-with_bit {n = 64} (replicate 64 0) (replicate-IsBitmap 64) 0 (omega arith) i,
    has-replicate 64 i,
  )
]

waiting-IsTricolor : IsTricolor trace one_marked waiting
waiting-IsTricolor = record {
  wf = one_marked-IsWfSpace;
  kind = refl;
  clean = one_marked-AllClean;
  entries = waiting-Entries;
  black = λ q b e. ground (arith, only_first q b e);
}

unmarked_one : unmarked one_marked heap ≡ 1
unfolding ptr_to_object_index header_size ptr_to_page_header
unmarked_one = refl

marking_exact_example :
    (t : Space) × (v' : GcVisitor) × (process_worklist trace 2 one_marked waiting ≡ some (t, v'))
    × (v'.worklist ≡ [])
    × Grows one_marked t
    × IsWfSpace t
    × ((q : ℕ) → is_box one_marked q ≡ true → (seen_at t q ≡ true) ↔ Reach trace one_marked q)
marking_exact_example =
    marking_exact trace 2 one_marked waiting heap one_marked-Covers waiting-IsTricolor
      (omega (arith, unmarked_one))

mark_major_roots_exact_example :
    (t : Space) × (n : ℕ) × (mark_major_roots trace 2 space (first ∷ []) ≡ some (t, n))
    × Grows space t
    × IsWfSpace t
    × ((q : ℕ)
        → is_box space q ≡ true
        → (seen_at t q ≡ true) ↔ Reachable trace space (first ∷ []) q)
mark_major_roots_exact_example =
    mark_major_roots_exact trace 2 space (first ∷ []) heap space-IsWfSpace space-Covers space_clear
      (first-IsClean, tt) (refl, tt) trace-AllClean (omega (arith, unmarked_two))
