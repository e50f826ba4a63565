-- ===== src/MarkBitmap/Tests.antt =====
-- A bitmap of 64 slots, empty and with slots marked.
use rudo.Prelude.{ℕ, ◌+◌, ◌≡◌, ◌||◌, some, replicate, ◌==◌, if◌then◌else◌, arith}
use rudo.Bitmap.Laws.{has}
use rudo.MarkBitmap.{MarkBitmap, mark}
use rudo.MarkBitmap.Laws.{IsValid, fresh-IsValid, mark_exact}

abbrev empty : MarkBitmap
empty = record { bitmap = replicate 2 0; capacity = 64; marked_count = 0 }

empty-IsValid : IsValid empty
empty-IsValid = fresh-IsValid 2 64 (omega arith) (omega arith)

mark_exact_example :
    (m' : MarkBitmap) × (mark empty 5 ≡ some m')
    × IsValid m'
    × (m'.marked_count ≡ empty.marked_count + (if has empty.bitmap 5 then 0 else 1))
    × ((j : ℕ) → has m'.bitmap j ≡ ((5 == j) || has empty.bitmap j))
mark_exact_example = mark_exact empty 5 empty-IsValid (omega arith)
