-- ===== src/Collection.antt =====
-- The marking and the sweep of a stop-the-world major collection (`collect_major_stw` of
-- crates/rudo-gc/src/gc/gc.rs) put together. The pages are those of small objects; clearing the marks
-- before, the large objects and the promotion after it, and the clocks are left out. What the dropped
-- values do to the boxes of each page is an argument (`Drops` of Sweep/Eager).
pub mod Survivors
pub mod Tests
use rudo.Prelude.{ℕ, ◌+◌, ◌*◌, Option, none, some, List, map, false, ◌>>=◌}
use rudo.Address.{header_size}
use rudo.Mark.{Space, mark_major_roots}
use rudo.Sweep.{Page}
use rudo.Sweep.Eager.{Drops, sweep_segment_pages}

-- The page at `base` of a heap, for the sweep.
abbrev pub page_at : Space → (ℕ → ℕ → Option ℕ) → ℕ → Page
page_at s links base = record {
  header = s.pages base;
  boxes = λ i.
      s.boxes
        (base + header_size s.layout (s.pages base).block_size + i * (s.pages base).block_size);
  links = links base;
}

-- With the numbers of marked objects and of reclaimed slots.
unfoldable pub mark_and_sweep :
    (ℕ → List ℕ)
    → ℕ
    → (ℕ → ℕ → Option ℕ)
    → (ℕ → Drops)
    → Space
    → List ℕ
    → List ℕ
    → Option (ℕ × ℕ × List (ℕ × ℕ) × List Page)
unfolding mark_major_roots sweep_segment_pages
mark_and_sweep trace fuel links drops s roots pages =
    mark_major_roots trace fuel s roots >>= λ (t, marked).
    sweep_segment_pages false drops (map (page_at t links) pages) >>= λ (reclaimed, pushed, pages').
    some (marked, reclaimed, pushed, pages')
