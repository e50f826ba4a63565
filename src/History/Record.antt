-- ===== src/History/Record.antt =====
-- What the totals hold after a sequence of `record_metrics`.
use rudo.Prelude.{
  ℕ, ◌+◌, ◌%◌, ◌≡◌, refl, Bool, true, false, List, [], ◌∷◌, length, arith, if◌then◌else◌,
}
use rudo.History.{
  GcMetrics, CollectionType, minor, major, incremental_major, none, GlobalMetrics, Metrics,
  usize_mod, to_u64, record_metrics, count_by_type,
}

-- The metrics recorded one after the other.
pub record_all : Metrics → List GcMetrics → Metrics
record_all s [] = s
record_all s (m ∷ ms) = record_all (record_metrics s m) ms

abbrev pub minors : CollectionType → ℕ
minors minor = 1
minors major = 0
minors incremental_major = 0
minors none = 0

abbrev pub majors : CollectionType → ℕ
majors minor = 0
majors major = 1
majors incremental_major = 0
majors none = 0

abbrev pub incrementals : CollectionType → ℕ
incrementals minor = 0
incrementals major = 0
incrementals incremental_major = 1
incrementals none = 0

abbrev pub falls : CollectionType → Bool → ℕ
falls minor fallback = 0
falls major fallback = 0
falls incremental_major fallback = if fallback then 1 else 0
falls none fallback = 0

abbrev pub sum_of : (GcMetrics → ℕ) → List GcMetrics → ℕ
sum_of f [] = 0
sum_of f (m ∷ ms) = f m + sum_of f ms

-- `a` is `b` up to the wrap-around of a 64-bit counter.
abbrev pub Wraps : ℕ → ℕ → Type 0
Wraps a b = a % usize_mod ≡ b % usize_mod

count_by_type_lem :
    (t : CollectionType) (fallback : Bool) (g : GlobalMetrics)
    → Wraps (count_by_type t fallback g).minor_collections (g.minor_collections + minors t)
      × Wraps (count_by_type t fallback g).major_collections (g.major_collections + majors t)
      × Wraps
          (count_by_type t fallback g).incremental_collections
          (g.incremental_collections + incrementals t)
      × Wraps (count_by_type t fallback g).fallbacks (g.fallbacks + falls t fallback)
      × ((count_by_type t fallback g).collections ≡ g.collections)
      × ((count_by_type t fallback g).bytes_reclaimed ≡ g.bytes_reclaimed)
      × ((count_by_type t fallback g).objects_reclaimed ≡ g.objects_reclaimed)
      × ((count_by_type t fallback g).pause_ns ≡ g.pause_ns)
unfolding count_by_type
count_by_type_lem minor fallback g =
    (omega arith, omega arith, omega arith, omega arith, refl, refl, refl, refl)
count_by_type_lem major fallback g =
    (omega arith, omega arith, omega arith, omega arith, refl, refl, refl, refl)
count_by_type_lem incremental_major true g =
    (omega arith, omega arith, omega arith, omega arith, refl, refl, refl, refl)
count_by_type_lem incremental_major false g =
    (omega arith, omega arith, omega arith, omega arith, refl, refl, refl, refl)
count_by_type_lem none fallback g =
    (omega arith, omega arith, omega arith, omega arith, refl, refl, refl, refl)

record_metrics_lem :
    (s : Metrics) (m : GcMetrics)
    → Wraps (record_metrics s m).totals.collections (s.totals.collections + 1)
      × Wraps
          (record_metrics s m).totals.minor_collections
          (s.totals.minor_collections + minors m.collection_type)
      × Wraps
          (record_metrics s m).totals.major_collections
          (s.totals.major_collections + majors m.collection_type)
      × Wraps
          (record_metrics s m).totals.incremental_collections
          (s.totals.incremental_collections + incrementals m.collection_type)
      × Wraps
          (record_metrics s m).totals.fallbacks
          (s.totals.fallbacks + falls m.collection_type m.fallback_occurred)
      × Wraps
          (record_metrics s m).totals.bytes_reclaimed
          (s.totals.bytes_reclaimed + m.bytes_reclaimed)
      × Wraps
          (record_metrics s m).totals.objects_reclaimed
          (s.totals.objects_reclaimed + m.objects_reclaimed)
      × Wraps (record_metrics s m).totals.pause_ns (s.totals.pause_ns + to_u64 m.duration)
unfolding record_metrics
record_metrics_lem s m =
    let counted = count_by_type_lem m.collection_type m.fallback_occurred (record s.totals {
      collections = (s.totals.collections + 1) % usize_mod;
      bytes_reclaimed = (s.totals.bytes_reclaimed + m.bytes_reclaimed) % usize_mod;
      objects_reclaimed = (s.totals.objects_reclaimed + m.objects_reclaimed) % usize_mod;
      pause_ns = (s.totals.pause_ns + to_u64 m.duration) % usize_mod;
    }) in
    (
      omega (arith, counted.4),
      omega (arith, counted.0),
      omega (arith, counted.1),
      omega (arith, counted.2),
      omega (arith, counted.3),
      omega (arith, counted.5),
      omega (arith, counted.6),
      omega (arith, counted.7),
    )

Wraps-trans : (a b c d e : ℕ) → Wraps a (b + c) → Wraps b (d + e) → Wraps a (d + (e + c))
Wraps-trans a b c d e h k = omega arith

-- After any sequence of collections each of the eight totals, a 64-bit counter that wraps around,
-- has grown by what the sequence adds up to: the collections by their number, the counters of the
-- three kinds by the collections of that kind, the fallbacks by the incremental collections that
-- fell back, and the bytes, objects and pauses by the sums of what was reported.
pub record_all_totals :
    (s : Metrics) (ms : List GcMetrics)
    → Wraps (record_all s ms).totals.collections (s.totals.collections + length ms)
      × Wraps
          (record_all s ms).totals.minor_collections
          (s.totals.minor_collections + sum_of (λ m. minors m.collection_type) ms)
      × Wraps
          (record_all s ms).totals.major_collections
          (s.totals.major_collections + sum_of (λ m. majors m.collection_type) ms)
      × Wraps
          (record_all s ms).totals.incremental_collections
          (s.totals.incremental_collections + sum_of (λ m. incrementals m.collection_type) ms)
      × Wraps
          (record_all s ms).totals.fallbacks
          (s.totals.fallbacks + sum_of (λ m. falls m.collection_type m.fallback_occurred) ms)
      × Wraps
          (record_all s ms).totals.bytes_reclaimed
          (s.totals.bytes_reclaimed + sum_of (λ m. m.bytes_reclaimed) ms)
      × Wraps
          (record_all s ms).totals.objects_reclaimed
          (s.totals.objects_reclaimed + sum_of (λ m. m.objects_reclaimed) ms)
      × Wraps
          (record_all s ms).totals.pause_ns
          (s.totals.pause_ns + sum_of (λ m. to_u64 m.duration) ms)
unfolding record_all
record_all_totals s [] = (
  omega arith,
  omega arith,
  omega arith,
  omega arith,
  omega arith,
  omega arith,
  omega arith,
  omega arith,
)
record_all_totals s (m ∷ ms) =
    let step = record_metrics_lem s m in
    let rest = record_all_totals (record_metrics s m) ms in
    (
      omega (arith, rest.0, step.0),
      Wraps-trans _ _ _ _ _ rest.1 step.1,
      Wraps-trans _ _ _ _ _ rest.2 step.2,
      Wraps-trans _ _ _ _ _ rest.3 step.3,
      Wraps-trans _ _ _ _ _ rest.4 step.4,
      Wraps-trans _ _ _ _ _ rest.5 step.5,
      Wraps-trans _ _ _ _ _ rest.6 step.6,
      Wraps-trans _ _ _ _ _ rest.7 step.7,
    )
