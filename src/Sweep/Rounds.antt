-- ===== src/Sweep/Rounds.antt =====
-- The lazy sweep of a whole page, round by round.
use rudo.Prelude.{
  ℕ, zero, suc, ◌+◌, ◌≤◌, ◌≡◌, refl, ◌∙◌, Bool, true, false, not, ◌&&◌, none, some, ltb, leb, ◌==◌,
  if◌then◌else◌, arith,
}
use rudo.Bitmap.Laws.{has}
use rudo.Page.Marks.{IsWf, max_index}
use rudo.Page.{free_list_none, free_list_head}
use rudo.Sweep.{Page, Glue, try_pop_from_page, lazy_sweep_from, lazy_sweep_page}
use rudo.Sweep.Lazy.{is_garbage, KeepsWeak, round_lem}

-- How many of the slots `i`, ..., `i + left - 1` are garbage.
pub garbage_in : Page → ℕ → ℕ → ℕ
garbage_in p i zero = 0
garbage_in p i (suc left) = (if is_garbage p i then 1 else 0) + garbage_in p (i + 1) left

garbage_in_congr :
    (p q : Page) (i left : ℕ)
    → ((j : ℕ) → i ≤ j → is_garbage q j ≡ is_garbage p j)
    → garbage_in q i left ≡ garbage_in p i left
unfolding garbage_in
garbage_in_congr p q i zero h = refl
garbage_in_congr p q i (suc left) h =
    ground (arith, h i (omega arith), garbage_in_congr p q (i + 1) left (λ j le. h j (omega arith)))

-- What the rounds from slot `i` on make of a page.
abbrev Swept : Page → ℕ → ℕ → Page → Type 0
Swept p i left p' =
    IsWf p'.header
    × (p'.header.free_list_head ≡ p.header.free_list_head)
    × ((j : ℕ)
        → has p'.header.allocated_bitmap j ≡ (
            not (leb i j && ltb j (i + left) && is_garbage p j) && has p.header.allocated_bitmap j))

rounds_lem :
    (glue : Glue)
    → KeepsWeak glue
    → (p : Page) (w : IsWf p.header) (i left n : ℕ) (d : Bool) → i + left ≤ max_index
    → (p' : Page) × (lazy_sweep_from glue p i left n d
        ≡ some (n + garbage_in p i left, left == 0 && d, p'))
      × Swept p i left p'
unfolding lazy_sweep_from garbage_in
rounds_lem glue keeps p w i zero n d le = (p, ground arith, (w, refl, λ j. ground arith))
rounds_lem glue keeps p w i (suc left) n d le =
    let (q, step, wq, hq, aq, gq) = round_lem glue p w i (omega arith) keeps in
    let (p', rest, (w', h', a')) =
      rounds_lem glue keeps q wq (i + 1) left (if is_garbage p i then n + 1 else n) (d && false)
        (omega arith) in
    (
      p',
      ground (arith, step, rest, garbage_in_congr p q (i + 1) left (λ j lt. gq j (ground arith))),
      (w', h' ∙ hq, λ j. ground (arith, a' j, aq j, gq j)),
    )

-- If dropping a value changes no other object's number of weak references, a lazy sweep of the slots of
-- a page drops exactly the objects that are allocated, unmarked and without weak references, whatever
-- else their destructors do to the boxes: those slots alone lose their allocated bit, and their number is
-- returned. The head of the free list is what it was, so none of these slots is on the free list
-- afterwards that was not before, and the page is reported as all dead only if it has no slots.
pub lazy_sweep_exact :
    (glue : Glue) (p : Page) (n : ℕ)
    → KeepsWeak glue
    → IsWf p.header
    → n ≤ max_index
    → (p' : Page) × (lazy_sweep_page glue p n ≡ some (garbage_in p 0 n, n == 0, p'))
      × IsWf p'.header
      × (p'.header.free_list_head ≡ p.header.free_list_head)
      × ((j : ℕ)
          → has p'.header.allocated_bitmap j
            ≡ (not (ltb j n && is_garbage p j) && has p.header.allocated_bitmap j))
unfolding lazy_sweep_page
lazy_sweep_exact glue p n keeps w le =
    let (p', run, (w', head, alloc)) = rounds_lem glue keeps p w 0 n 0 true (omega arith) in
    (p', ground (arith, run), w', head, λ j. ground (arith, alloc j))

-- A page whose free list is empty has nothing to allocate from after a lazy sweep either, however
-- many objects the sweep has dropped: for every block size a pop finds no slot.
sweep_frees_nothing :
    (glue : Glue) (p : Page) (n : ℕ)
    → KeepsWeak glue
    → IsWf p.header
    → n ≤ max_index
    → p.header.free_list_head ≡ free_list_none
    → (p' : Page) × (lazy_sweep_page glue p n ≡ some (garbage_in p 0 n, n == 0, p'))
      × ((block_size : ℕ) → try_pop_from_page p' block_size ≡ some (none, p'))
unfolding try_pop_from_page free_list_head
sweep_frees_nothing glue p n keeps w le empty =
    let (p', run, w', head, alloc) = lazy_sweep_exact glue p n keeps w le in
    (p', run, λ block_size. ground (arith, head, empty))
