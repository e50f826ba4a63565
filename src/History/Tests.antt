-- ===== src/History/Tests.antt =====
-- A history with one collection, and totals from nothing.
use rudo.Prelude.{min, ◌≡◌, refl, List, [], ◌∷◌, take, arith}
use rudo.History.{
  GcMetrics, Metrics, new_metrics, new_totals, minor, history_size, new, push, recent,
}
use rudo.History.Ring.{Represents, push-Represents, recent_refines}

abbrev collection : GcMetrics
collection = record new_metrics { duration = 900; bytes_reclaimed = 64; collection_type = minor }

new-Represents : Represents new []
unfolding new
new-Represents = record {
  size = refl;
  recorded = refl;
  kept = λ i small none. absurd (omega arith);
}

push-Represents_example : Represents (push new collection) (collection ∷ [])
push-Represents_example = push-Represents new [] collection new-Represents (omega arith)

one-Represents : Represents (push new collection) (collection ∷ [])
one-Represents = push-Represents new [] collection new-Represents (omega arith)

recent_refines_example :
    recent (push new collection) 5 ≡ take (min 5 history_size) (collection ∷ [])
recent_refines_example = recent_refines (push new collection) (collection ∷ []) 5 one-Represents

abbrev start : Metrics
start = record { last = new_metrics; total_collections = 0; totals = new_totals; history = new }

abbrev two : List GcMetrics
two = collection ∷ new_metrics ∷ []
