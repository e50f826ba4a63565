-- ===== src/Incremental.antt =====
-- The state of incremental marking, crates/rudo-gc/src/gc/incremental.rs: its phases, the fallback
-- request, the worklist, and the snapshot that starts marking. `usize` fields wrap at 2^64. The
-- worklist is the queue of box addresses, oldest first. The collector's thread runs each operation
-- alone, so the exchange of `transition_to` finds the phase that it has loaded.
pub mod Phases
pub mod Snapshot
pub mod Tests
use rudo.Prelude.{
  ℕ, ◌+◌, ◌-◌, ◌%◌, ◌^◌, Bool, true, false, not, ◌&&◌, ◌||◌, Option, none, some, List, [], ◌∷◌,
  ◌++◌, length, ltb, ◌==◌, if◌then◌else◌,
}

pub data MarkPhase : Type 0 where
  idle snapshot marking final_mark sweeping : MarkPhase

-- `phase as usize`
abbrev pub to_usize : MarkPhase → ℕ
to_usize idle = 0
to_usize snapshot = 1
to_usize marking = 2
to_usize final_mark = 3
to_usize sweeping = 4

abbrev pub from_usize : ℕ → Option MarkPhase
from_usize v =
    if v == 0
    then some idle
    else if v == 1
    then some snapshot
    else if v == 2
    then some marking
    else if v == 3
    then some final_mark
    else if v == 4
    then some sweeping
    else none

pub data FallbackReason : Type 0 where
  no_reason dirty_pages_exceeded slice_timeout worklist_unbounded satb_buffer_overflow :
      FallbackReason

abbrev pub reason_to_u32 : FallbackReason → ℕ
reason_to_u32 no_reason = 0
reason_to_u32 dirty_pages_exceeded = 1
reason_to_u32 slice_timeout = 2
reason_to_u32 worklist_unbounded = 3
reason_to_u32 satb_buffer_overflow = 4

abbrev pub reason_from_u32 : ℕ → FallbackReason
reason_from_u32 v =
    if v == 1
    then dirty_pages_exceeded
    else if v == 2
    then slice_timeout
    else if v == 3
    then worklist_unbounded
    else if v == 4
    then satb_buffer_overflow
    else no_reason

pub record IncrementalConfig : Type 0 where
  pub enabled : Bool
  pub increment_size : ℕ
  pub max_dirty_pages : ℕ
  pub remembered_buffer_len : ℕ
  pub slice_timeout_ms : ℕ

abbrev pub default_config : IncrementalConfig
default_config = record {
  enabled = true;
  increment_size = 1000;
  max_dirty_pages = 1000;
  remembered_buffer_len = 32;
  slice_timeout_ms = 50;
}

pub record MarkStats : Type 0 where
  pub objects_marked : ℕ
  pub dirty_pages_scanned : ℕ
  pub slices_executed : ℕ
  pub mark_time_ns : ℕ
  pub fallback_occurred : Bool
  pub fallback_reason : ℕ

-- `MarkStats::new`, which is also what `reset` stores
abbrev pub new_stats : MarkStats
new_stats = record {
  objects_marked = 0;
  dirty_pages_scanned = 0;
  slices_executed = 0;
  mark_time_ns = 0;
  fallback_occurred = false;
  fallback_reason = 0;
}

abbrev pub record_fallback : MarkStats → FallbackReason → MarkStats
record_fallback s reason = record s {
  fallback_occurred = true;
  fallback_reason = reason_to_u32 reason;
}

pub record IncrementalMarkState : Type 0 where
  pub phase : ℕ
  pub worklist : List ℕ
  pub config : IncrementalConfig
  pub enabled : Bool
  pub stats : MarkStats
  pub fallback_requested : Bool
  pub root_count : ℕ
  pub max_worklist_size : ℕ
  pub slice_start_time : Option ℕ
  pub slice_counter : ℕ

unfoldable pub new : IncrementalMarkState
new = record {
  phase = to_usize idle;
  worklist = [];
  config = default_config;
  enabled = true;
  stats = new_stats;
  fallback_requested = false;
  root_count = 0;
  max_worklist_size = 0;
  slice_start_time = none;
  slice_counter = 0;
}

-- An unknown phase number reads as idle.
abbrev pub decode_phase : ℕ → MarkPhase
decode_phase v = elim (from_usize v) [ none ↦ idle | some p ↦ p ]

unfoldable pub phase : IncrementalMarkState → MarkPhase
phase s = decode_phase s.phase

unfoldable pub set_phase : IncrementalMarkState → MarkPhase → IncrementalMarkState
set_phase s p = record s { phase = to_usize p }

unfoldable pub is_valid_transition : MarkPhase → MarkPhase → Bool
is_valid_transition idle snapshot = true
is_valid_transition snapshot marking = true
is_valid_transition marking marking = true
is_valid_transition final_mark marking = true
is_valid_transition marking final_mark = true
is_valid_transition final_mark sweeping = true
is_valid_transition sweeping idle = true
is_valid_transition _ _ = false

unfoldable pub transition_to : IncrementalMarkState → MarkPhase → Bool × IncrementalMarkState
unfolding is_valid_transition
transition_to s new_phase =
    if is_valid_transition (decode_phase s.phase) new_phase
    then (true, record s { phase = to_usize new_phase })
    else (false, s)

unfoldable pub push_work : IncrementalMarkState → ℕ → IncrementalMarkState
push_work s ptr = record s { worklist = s.worklist ++ (ptr ∷ []) }

unfoldable pub pop_work : IncrementalMarkState → Option ℕ × IncrementalMarkState
pop_work s = elim s.worklist [
  | [] ↦ (none, s)
  | ptr ∷ rest ↦ (some ptr, record s { worklist = rest })
]

unfoldable pub worklist_is_empty : IncrementalMarkState → Bool
worklist_is_empty s = length s.worklist == 0

unfoldable pub worklist_len : IncrementalMarkState → ℕ
worklist_len s = length s.worklist

unfoldable pub reset_worklist : IncrementalMarkState → IncrementalMarkState
reset_worklist s = record s { worklist = [] }

unfoldable pub request_fallback : IncrementalMarkState → FallbackReason → IncrementalMarkState
request_fallback s reason = record s {
  fallback_requested = true;
  stats = record_fallback s.stats reason;
}

unfoldable pub reset_fallback : IncrementalMarkState → IncrementalMarkState
reset_fallback s = record s { fallback_requested = false }

unfoldable pub reset_stats : IncrementalMarkState → IncrementalMarkState
reset_stats s = record s { stats = new_stats }

unfoldable pub set_root_count : IncrementalMarkState → ℕ → IncrementalMarkState
set_root_count s count = record s { root_count = count; max_worklist_size = count }

unfoldable pub update_max_worklist_size : IncrementalMarkState → ℕ → IncrementalMarkState
update_max_worklist_size s size =
    if ltb s.max_worklist_size size then record s { max_worklist_size = size } else s

unfoldable pub increment_slice_counter : IncrementalMarkState → ℕ × IncrementalMarkState
increment_slice_counter s =
    (s.slice_counter, record s { slice_counter = (s.slice_counter + 1) % 2 ^ 64 })

unfoldable pub set_config : IncrementalMarkState → IncrementalConfig → IncrementalMarkState
set_config s config = record s { config = config; enabled = config.enabled }

-- `now` is the clock's reading.
unfoldable pub start_slice : IncrementalMarkState → ℕ → IncrementalMarkState
start_slice s now = record s { slice_start_time = some now }

unfoldable pub reset : IncrementalMarkState → IncrementalMarkState
unfolding set_phase reset_worklist reset_fallback reset_stats
reset s =
    let s' = reset_stats (reset_fallback (reset_worklist (set_phase s idle))) in
    record s' { slice_start_time = none; root_count = 0 }

abbrev is_phase : MarkPhase → MarkPhase → Bool
is_phase p q = to_usize p == to_usize q

unfoldable pub is_incremental_marking_active : IncrementalMarkState → Bool
unfolding phase
is_incremental_marking_active s =
    is_phase (phase s) snapshot || is_phase (phase s) marking || is_phase (phase s) final_mark

unfoldable pub is_write_barrier_active : IncrementalMarkState → Bool
unfolding phase
is_write_barrier_active s = is_phase (phase s) marking

unfoldable pub write_barrier_needed : IncrementalMarkState → Bool
unfolding is_write_barrier_active
write_barrier_needed s = s.enabled && not s.fallback_requested && is_write_barrier_active s

unfoldable pub is_generational_barrier_active : IncrementalMarkState → Bool
is_generational_barrier_active s = not s.fallback_requested

-- What `stop_all_mutators_for_snapshot` does to the state: it requests a fallback if the threads
-- have not all stopped within 100 ms.
unfoldable pub stop_all_mutators : IncrementalMarkState → Bool → IncrementalMarkState
unfolding request_fallback
stop_all_mutators s timed_out = if timed_out then request_fallback s slice_timeout else s

unfoldable pub push_all : IncrementalMarkState → List ℕ → IncrementalMarkState
unfolding push_work
push_all s [] = s
push_all s (ptr ∷ ptrs) = push_all (push_work s ptr) ptrs

-- `execute_snapshot`: whether the threads timed out, the roots that the scan has marked, in the
-- order in which the visitor's stack gives them, and the clock are parameters.
unfoldable pub execute_snapshot :
    IncrementalMarkState → Bool → List ℕ → ℕ → ℕ × IncrementalMarkState
unfolding stop_all_mutators set_phase reset_stats reset_fallback reset_worklist push_all
    set_root_count start_slice
execute_snapshot s timed_out roots now =
    let stopped = stop_all_mutators s timed_out in
    let clean = reset_worklist (reset_fallback (reset_stats (set_phase stopped snapshot))) in
    let filled = push_all clean roots in
    let count = length filled.worklist in
    (count, start_slice (set_phase (set_root_count filled count) marking) now)
