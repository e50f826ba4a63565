-- ===== src/Mark.antt =====
-- Marking with all other threads stopped, of crates/rudo-gc/src/gc/gc.rs: the functions that mark one
-- object and queue it, and `GcVisitor`, whose `visit` the values' trace functions call. What the trace
-- function of the box at an address visits is the argument `trace`. With nobody else at a page an
-- exchange of `try_mark` finds what it has loaded, so its retry is not reached, and a second look at
-- a box finds the generation of the first. `none` is a panic: an index past the bitmaps.
pub mod Step
pub mod Visit
pub mod Worklist
pub mod Tricolor
pub mod Loop
pub mod Roots
pub mod Tests
use rudo.Prelude.{
  ℕ, zero, suc, ◌+◌, ◌-◌, ◌/◌, ◌%◌, ◌^◌, Bool, true, false, not, ◌&&◌, Option, none, some, List, [],
  ◌∷◌, ltb, ◌==◌, if◌then◌else◌, ◌>>=◌,
}
use rudo.Page.{
  PageHeader, TryMark, marked, contended, magic_gc_page, is_allocated, is_marked, set_mark,
  try_mark, clear_mark_atomic,
}
use rudo.GcBox.{GcBox}
use rudo.Address.{Layout, ptr_to_page_header, ptr_to_object_index, header_size}

-- The heap that is marked: page headers and boxes by their addresses.
pub record Space : Type 0 where
  pub layout : Layout
  pub pages : ℕ → PageHeader
  pub boxes : ℕ → GcBox

-- The header of the page that an address lies in.
abbrev pub header_of : Space → ℕ → PageHeader
header_of s ptr = s.pages (ptr_to_page_header s.layout ptr)

abbrev pub put_header : Space → ℕ → PageHeader → Space
put_header s ptr h =
    let page = ptr_to_page_header s.layout ptr in
    record s { pages = λ p. if page == p then h else s.pages p }

abbrev pub index_of : Space → ℕ → Option ℕ
index_of s ptr = ptr_to_object_index s.layout (header_of s ptr) ptr

pub data VisitorKind : Type 0 where
  major minor : VisitorKind

-- The head of the worklist is the end of the vector; an entry carries the generation at its push.
pub record GcVisitor : Type 0 where
  pub kind : VisitorKind
  pub worklist : List (ℕ × ℕ)
  pub objects_marked : ℕ

unfoldable pub new : VisitorKind → GcVisitor
new kind = record { kind = kind; worklist = []; objects_marked = 0 }

abbrev pub push : Space → GcVisitor → ℕ → GcVisitor
push s v ptr = record v { worklist = (ptr, (s.boxes ptr).generation) ∷ v.worklist }

abbrev pub count_one : GcVisitor → GcVisitor
count_one v = record v { objects_marked = v.objects_marked + 1 }

abbrev pub is_minor : VisitorKind → Bool
is_minor major = false
is_minor minor = true

-- The loop around `try_mark` with its second look at the allocated bit: whether the object has been
-- marked here and is still allocated.
unfoldable pub mark_and_recheck : PageHeader → ℕ → Option (Bool × PageHeader)
unfolding try_mark is_allocated clear_mark_atomic
mark_and_recheck h idx = try_mark h h idx >>= λ (r, h'). elim r [
  | contended ↦ none
  | marked newly ↦
      if newly
      then (is_allocated h' idx >>= λ live.
          if live then some (true, h') else (clear_mark_atomic h' idx >>= λ h''. some (false, h'')))
      else some (false, h')
]

unfoldable pub mark_object : Space → GcVisitor → ℕ → Option (Space × GcVisitor)
unfolding mark_and_recheck is_allocated
mark_object s v ptr =
    if not ((header_of s ptr).magic == magic_gc_page) then some (s, v) else elim (index_of s ptr) [
      | none ↦ some (s, v)
      | some idx ↦ is_allocated (header_of s ptr) idx >>= λ live.
          if not live
          then some (s, v)
          else (mark_and_recheck (header_of s ptr) idx >>= λ (newly, h).
              some (put_header s ptr h, if newly then push s (count_one v) ptr else v))
    ]

-- The index is not compared with the page's number of objects.
unfoldable pub mark_object_minor : Space → GcVisitor → ℕ → Option (Space × GcVisitor)
unfolding mark_and_recheck is_allocated ptr_to_page_header header_size
mark_object_minor s v ptr =
    let h = header_of s ptr in
    let data_start = ptr_to_page_header s.layout ptr + header_size s.layout h.block_size in
    let index = (ptr + 2 ^ 64 - data_start) % 2 ^ 64 / h.block_size in
    if not (h.magic == magic_gc_page)
    then some (s, v)
    else (is_allocated h index >>= λ live.
        if not live
        then some (s, v)
        else (mark_and_recheck h index >>= λ (newly, h'). some (
          put_header s ptr h',
          if newly
              then (if ltb 0 h.generation then count_one v else push s (count_one v) ptr)
              else v,
        )))

unfoldable pub mark_and_trace_incremental : Space → GcVisitor → ℕ → Option (Space × GcVisitor)
unfolding mark_and_recheck is_allocated
mark_and_trace_incremental s v ptr =
    if not ((header_of s ptr).magic == magic_gc_page) then some (s, v) else elim (index_of s ptr) [
      | none ↦ some (s, v)
      | some idx ↦
          if is_minor v.kind && ltb 0 (header_of s ptr).generation
          then some (s, v)
          else (is_allocated (header_of s ptr) idx >>= λ live.
              if not live
              then some (s, v)
              else (mark_and_recheck (header_of s ptr) idx >>= λ (newly, h).
                  some (put_header s ptr h, if newly then push s (count_one v) ptr else v)))
    ]

-- `Visitor::visit` of a `Gc` whose raw pointer is `raw`; 0 is null.
unfoldable pub visit : Space → GcVisitor → ℕ → Option (Space × GcVisitor)
unfolding is_allocated is_marked set_mark
visit s v raw =
    if raw == 0
    then some (s, v)
    else if not ((header_of s raw).magic == magic_gc_page)
    then some (s, v)
    else elim (index_of s raw) [
      | none ↦ some (s, v)
      | some idx ↦ is_allocated (header_of s raw) idx >>= λ live.
          is_marked (header_of s raw) idx >>= λ seen.
          if not live
          then some (s, v)
          else if seen
          then some (s, v)
          else (set_mark (header_of s raw) idx >>= λ (_, h). some (
            put_header s raw h,
            if is_minor v.kind && ltb 0 (header_of s raw).generation
                then count_one v
                else push s (count_one v) raw,
          ))
    ]

-- A trace function's calls of `visit`, in turn.
pub visit_all : Space → GcVisitor → List ℕ → Option (Space × GcVisitor)
visit_all s v [] = some (s, v)
visit_all s v (raw ∷ raws) = visit s v raw >>= λ (s', v'). visit_all s' v' raws

-- The body of the loop of `process_worklist` on a popped entry; `v` is the visitor after the pop.
unfoldable pub process : (ℕ → List ℕ) → Space → GcVisitor → ℕ → ℕ → Option (Space × GcVisitor)
unfolding is_allocated is_marked set_mark visit_all
process trace s v ptr enqueue_generation =
    if not ((header_of s ptr).magic == magic_gc_page) then some (s, v) else elim (index_of s ptr) [
      | none ↦ some (s, v)
      | some idx ↦ is_allocated (header_of s ptr) idx >>= λ live.
          is_marked (header_of s ptr) idx >>= λ seen. set_mark (header_of s ptr) idx >>= λ (_, h).
          if not live
          then some (s, v)
          else if not ((s.boxes ptr).generation == enqueue_generation)
          then some (s, v)
          else if seen
          then visit_all s v (trace ptr)
          else visit_all (put_header s ptr h) (count_one v) (trace ptr)
    ]

-- `while let Some(..) = self.worklist.pop()`; `none` also if the fuel has run out.
pub process_worklist : (ℕ → List ℕ) → ℕ → Space → GcVisitor → Option (Space × GcVisitor)
process_worklist trace zero s v = elim v.worklist [ [] ↦ some (s, v) | _ ∷ _ ↦ none ]
process_worklist trace (suc fuel) s v = elim v.worklist [
  | [] ↦ some (s, v)
  | (ptr, enqueue_generation) ∷ rest ↦
      process trace s (record v { worklist = rest }) ptr enqueue_generation >>= λ (s', v').
      process_worklist trace fuel s' v'
]

pub mark_objects : Space → GcVisitor → List ℕ → Option (Space × GcVisitor)
mark_objects s v [] = some (s, v)
mark_objects s v (ptr ∷ ptrs) = mark_object s v ptr >>= λ (s', v'). mark_objects s' v' ptrs

-- The roots are the boxes that the scans of the stacks and of the root tables have found, in turn.
unfoldable pub mark_major_roots : (ℕ → List ℕ) → ℕ → Space → List ℕ → Option (Space × ℕ)
unfolding mark_objects process_worklist
mark_major_roots trace fuel s roots = mark_objects s (new major) roots >>= λ (s', v).
    process_worklist trace fuel s' v >>= λ (s'', v'). some (s'', v'.objects_marked)
