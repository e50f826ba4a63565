-- ===== src/Sweep.antt =====
-- Small-object pages and their slots: popping a free slot (`try_pop_from_page` of
-- crates/rudo-gc/src/heap.rs), and the sweeps of crates/rudo-gc/src/gc/gc.rs, each of which runs
-- with no other thread at the page, as their callers promise. A slot's memory is its box and the
-- free-list link that is written over the box's first bytes; the link is kept beside the box, so
-- the strong count of a dead box is not read. `none` is a panic: an index past the bitmaps, or one
-- that is no `u16`.
pub mod Lazy
pub mod Rounds
pub mod Pop
pub mod Eager
pub mod Slots
pub mod FreeList
pub mod Survival
pub mod Segment
pub mod Tests
use rudo.Prelude.{
  ◌>>=◌, ℕ, zero, suc, ◌+◌, ◌-◌, ◌*◌, ◌^◌, Bool, true, false, not, ◌&&◌, ◌||◌, Option, none, some,
  ltb, ◌==◌, if◌then◌else◌,
}
use mathlib.Core.Option
use rudo.Page.{
  PageHeader, Exchange, done, lost, compare_exchange_free_list, free_list_head, encode_head,
}
use rudo.Page.{is_allocated, is_marked, clear_allocated, clear_mark, set_allocated, clear_dirty}
use rudo.Page.{set_free_list_head, all_dead, clear_all_dead, set_dead_count, is_large_object}
use rudo.GcBox.{GcBox, weak_count_and_dead_flag, set_dead, clear_gen_old, clear_dead}
use rudo.GcBox.{
  clear_under_construction, clear_is_dropping, increment_generation, call_drop_fn, drops_value,
  no_op_drop,
}

-- A page with the memory of its slots.
pub record Page : Type 0 where
  pub header : PageHeader
  pub boxes : ℕ → GcBox
  pub links : ℕ → Option ℕ

abbrev pub put_box : Page → ℕ → GcBox → Page
put_box p i b = record p { boxes = λ j. if i == j then b else p.boxes j }

abbrev pub put_link : Page → ℕ → Option ℕ → Page
put_link p i link = record p { links = λ j. if i == j then link else p.links j }

abbrev pub put_header : Page → PageHeader → Page
put_header p h = record p { header = h }

-- `u16::try_from(i).unwrap()`
abbrev pub as_u16 : ℕ → Option ℕ
as_u16 i = if ltb i (2 ^ 16) then some i else none

-- The slot's box made ready for a new object.
unfoldable pub reset_box : GcBox → GcBox
unfolding clear_dead clear_gen_old clear_under_construction clear_is_dropping increment_generation
reset_box b =
    increment_generation
      (clear_is_dropping (clear_under_construction (clear_gen_old (clear_dead b))))

-- The popped index and whether the page has no more free slots, beside the page. The outer option
-- is a panic, the inner one the `None` of the function.
unfoldable pub try_pop_from_page : Page → ℕ → Option (Option (ℕ × Bool) × Page)
unfolding reset_box free_list_head compare_exchange_free_list is_allocated set_allocated clear_dirty
    set_dead_count
try_pop_from_page p block_size =
    if is_large_object p.header || not (p.header.block_size == block_size)
    then some (none, p)
    else elim (free_list_head p.header) [
      | none ↦ some (none, p)
      | some idx ↦ is_allocated p.header idx >>= λ taken.
          let next_head = p.links idx in
          let popped = (compare_exchange_free_list p.header (some idx) next_head).1 in
          if taken
          then some (none, put_header p (compare_exchange_free_list p.header (some idx) none).1)
          else (set_allocated popped idx >>= λ h. clear_dirty h idx >>= λ h'. some (
            some (idx, elim next_head [ none ↦ true | some _ ↦ false ]),
            put_header (put_box p idx (reset_box (p.boxes idx)))
                (if all_dead h' then set_dead_count (clear_all_dead h') 0 else h'),
          ))
    ]

-- The loop of `lazy_sweep_page` that puts slot `i` on the free list: the exchange installs the
-- slot, and if the slot then reads as allocated it is taken off again. With nobody else at the
-- page both exchanges find what was read, so the retry of a lost exchange is not reached. With the
-- page: `did_reclaim`, and whether the slot was taken to be allocated concurrently.
unfoldable pub push_free_lazy : Page → ℕ → Option (Bool × Bool × Page)
unfolding free_list_head compare_exchange_free_list is_allocated
push_free_lazy p i = as_u16 i >>= λ slot.
    let current_free = free_list_head p.header in
    let linked = put_link p i current_free in
    let (first, h) = compare_exchange_free_list p.header current_free (some slot) in
    elim first [
      | done _ ↦ is_allocated h i >>= λ taken.
          if taken
          then some (
            true,
            true,
            put_header linked (compare_exchange_free_list h (some slot) current_free).1,
          )
          else some (true, false, put_header linked h)
      | lost _ ↦ some (false, false, put_header linked h)
    ]

-- What dropping values does to the boxes of a page, by the pointers in them (`drop_in_place`): for the slot
-- whose value is dropped, what becomes of the boxes. The values are the user's.
abbrev pub Glue : Type 0
Glue = ℕ → (ℕ → GcBox) → ℕ → GcBox

-- A call through the `drop_fn` of a slot's box, which is in its final dropping state before the value is
-- dropped, not after.
unfoldable pub dropped_boxes : Glue → Page → ℕ → ℕ → GcBox
unfolding call_drop_fn
dropped_boxes glue p i =
    let called = (put_box p i (call_drop_fn (p.boxes i))).boxes in
    if drops_value (p.boxes i) then glue i called else called

abbrev pub drop_slot : Glue → Page → ℕ → Page
drop_slot glue p i = record p { boxes = dropped_boxes glue p i }

module _ (glue : Glue) where
  -- Drops the value of a box that is kept for its weak references, unless it is dead already. The
  -- code replaces the trace function too, which the boxes of the model do not have.
  abbrev pub drop_value : Page → ℕ → Page
  drop_value p i =
      let q = drop_slot glue p i in
      if (weak_count_and_dead_flag (p.boxes i)).1
      then p
      else put_box q i (set_dead (record (q.boxes i) { drop_fn = no_op_drop }))

  -- One round of `lazy_sweep_page`: whether the slot was reclaimed, and whether it leaves the page
  -- open to being all dead.
  unfoldable pub lazy_sweep_slot : Page → ℕ → Option (Bool × Bool × Page)
  unfolding is_allocated is_marked clear_mark clear_allocated push_free_lazy
      weak_count_and_dead_flag dropped_boxes set_dead clear_gen_old
  lazy_sweep_slot p i = is_allocated p.header i >>= λ allocated. is_marked p.header i >>= λ marked.
      if allocated && not marked
      then (if ltb 0 (weak_count_and_dead_flag (p.boxes i)).0
          then some (false, false, drop_value p i)
          else (let q = drop_slot glue p i in
              push_free_lazy (put_box q i (clear_gen_old (set_dead (q.boxes i)))) i
              >>= λ (did_reclaim, concurrent, p').
                  if did_reclaim
                  then (clear_allocated p'.header i >>= λ h.
                      some (true, not concurrent, put_header p' h))
                  else some (false, true, p')))
      else clear_mark p.header i >>= λ h. some (false, false, put_header p h)

  -- The rounds from slot `i` on, with `left` to go; the reclaimed slots and `all_dead` come back.
  unfoldable pub lazy_sweep_from : Page → ℕ → ℕ → ℕ → Bool → Option (ℕ × Bool × Page)
  lazy_sweep_from p i zero reclaimed all_dead = some (reclaimed, all_dead, p)
  lazy_sweep_from p i (suc left) reclaimed all_dead = lazy_sweep_slot p i >>= λ (took, dead, p').
      lazy_sweep_from p' (i + 1) left (if took then reclaimed + 1 else reclaimed) (all_dead && dead)

  unfoldable pub lazy_sweep_page : Page → ℕ → Option (ℕ × Bool × Page)
  unfolding lazy_sweep_from
  lazy_sweep_page p obj_count = lazy_sweep_from p 0 obj_count 0 true
