-- ===== src/History.antt =====
-- crates/rudo-gc/src/metrics.rs: the ring buffer of the last collections, the process-wide totals
-- and `record_metrics`. Durations are their nanoseconds. `push` runs under the collection handshake,
-- so one writer at a time.
pub mod Ring
pub mod Record
pub mod Tests
use rudo.Prelude.{
  ℕ, zero, suc, ◌+◌, ◌-◌, ◌/◌, ◌%◌, ◌^◌, min, max, Bool, true, false, List, [], ◌∷◌, length, get_or,
  set, map, replicate, ltb, ◌==◌, if◌then◌else◌,
}
use rudo.Incremental.{FallbackReason}

abbrev pub history_size : ℕ
history_size = 64

abbrev pub usize_mod : ℕ
usize_mod = 2 ^ 64

pub data CollectionType : Type 0 where
  none minor major incremental_major : CollectionType

pub record GcMetrics : Type 0 where
  pub duration : ℕ
  pub bytes_reclaimed : ℕ
  pub bytes_surviving : ℕ
  pub objects_reclaimed : ℕ
  pub objects_surviving : ℕ
  pub collection_type : CollectionType
  pub total_collections : ℕ
  pub clear_duration : ℕ
  pub mark_duration : ℕ
  pub sweep_duration : ℕ
  pub objects_marked : ℕ
  pub dirty_pages_scanned : ℕ
  pub slices_executed : ℕ
  pub fallback_occurred : Bool
  pub fallback_reason : FallbackReason

abbrev pub new_metrics : GcMetrics
new_metrics = record {
  duration = 0;
  bytes_reclaimed = 0;
  bytes_surviving = 0;
  objects_reclaimed = 0;
  objects_surviving = 0;
  collection_type = none;
  total_collections = 0;
  clear_duration = 0;
  mark_duration = 0;
  sweep_duration = 0;
  objects_marked = 0;
  dirty_pages_scanned = 0;
  slices_executed = 0;
  fallback_occurred = false;
  fallback_reason = FallbackReason.no_reason;
}

pub record GcHistory : Type 0 where
  pub buffer : List GcMetrics
  pub write_idx : ℕ

unfoldable pub new : GcHistory
new = record { buffer = replicate history_size new_metrics; write_idx = 0 }

unfoldable pub push : GcHistory → GcMetrics → GcHistory
push h metrics = record {
  buffer = set h.buffer (h.write_idx % history_size) metrics;
  write_idx = (h.write_idx + 1) % usize_mod;
}

unfoldable pub total_recorded : GcHistory → ℕ
total_recorded h = h.write_idx

-- The loop `for i in 0..n`: what it pushes for `i`, `i + 1`, …, with `left` rounds to go.
abbrev pub recent_from : GcHistory → ℕ → ℕ → ℕ → List GcMetrics
recent_from h total i zero = []
recent_from h total i (suc left) =
    get_or h.buffer ((total - 1 - i) % history_size) new_metrics ∷ recent_from h total (i + 1) left

unfoldable pub recent : GcHistory → ℕ → List GcMetrics
recent h n =
    let total = h.write_idx in
    if total == 0 then [] else recent_from h total 0 (min (min n history_size) total)

abbrev pub sum_ns : List GcMetrics → ℕ
sum_ns [] = 0
sum_ns (m ∷ ms) = m.duration + sum_ns ms

abbrev pub max_ns : List GcMetrics → ℕ
max_ns [] = 0
max_ns (m ∷ ms) = max m.duration (max_ns ms)

-- `try_into().unwrap_or(u64::MAX)`
abbrev pub to_u64 : ℕ → ℕ
to_u64 n = if ltb n usize_mod then n else usize_mod - 1

unfoldable pub average_pause_time : GcHistory → ℕ → ℕ
unfolding recent
average_pause_time h n =
    let recent_ = recent h n in
    if length recent_ == 0 then 0 else to_u64 (sum_ns recent_ / length recent_)

unfoldable pub max_pause_time : GcHistory → ℕ → ℕ
unfolding recent
max_pause_time h n = let recent_ = recent h n in if length recent_ == 0 then 0 else max_ns recent_

pub record GlobalMetrics : Type 0 where
  pub collections : ℕ
  pub minor_collections : ℕ
  pub major_collections : ℕ
  pub incremental_collections : ℕ
  pub bytes_reclaimed : ℕ
  pub objects_reclaimed : ℕ
  pub pause_ns : ℕ
  pub fallbacks : ℕ

abbrev pub new_totals : GlobalMetrics
new_totals = record {
  collections = 0;
  minor_collections = 0;
  major_collections = 0;
  incremental_collections = 0;
  bytes_reclaimed = 0;
  objects_reclaimed = 0;
  pause_ns = 0;
  fallbacks = 0;
}

-- The thread-locals, the totals and the history that `record_metrics` writes.
pub record Metrics : Type 0 where
  pub last : GcMetrics
  pub total_collections : ℕ
  pub totals : GlobalMetrics
  pub history : GcHistory

-- `fetch_add`
abbrev pub add : ℕ → ℕ → ℕ
add a b = (a + b) % usize_mod

unfoldable pub count_by_type : CollectionType → Bool → GlobalMetrics → GlobalMetrics
count_by_type minor fallback g = record g { minor_collections = add g.minor_collections 1 }
count_by_type major fallback g = record g { major_collections = add g.major_collections 1 }
count_by_type incremental_major fallback g = record g {
  incremental_collections = add g.incremental_collections 1;
  fallbacks = if fallback then add g.fallbacks 1 else g.fallbacks;
}
count_by_type none fallback g = g

unfoldable pub record_metrics : Metrics → GcMetrics → Metrics
unfolding count_by_type push
record_metrics s metrics =
    let total = s.total_collections + 1 in
    let m = record metrics { total_collections = total } in
    let g = record s.totals {
      collections = add s.totals.collections 1;
      bytes_reclaimed = add s.totals.bytes_reclaimed m.bytes_reclaimed;
      objects_reclaimed = add s.totals.objects_reclaimed m.objects_reclaimed;
      pause_ns = add s.totals.pause_ns (to_u64 m.duration);
    } in
    record {
      last = m;
      total_collections = total;
      totals = count_by_type m.collection_type m.fallback_occurred g;
      history = push s.history m;
    }
