-- ===== src/Address/Classes.antt =====
-- The size classes fit their sizes.
use rudo.Prelude.{ℕ, ◌+◌, ◌*◌, ◌^◌, ◌≤◌, ◌<◌, ◌≡◌, max, arith}
use rudo.Address.{compute_size_class, compute_class_index, block_size_to_class_index}

-- A small object gets a block that holds it, less than twice its size unless it is below 16 bytes,
-- and the class index that its size gives is the one that its block gives.
pub size_class_fits :
    (size : ℕ)
    → size ≤ 2048
    → (size ≤ compute_size_class size)
      × (compute_size_class size < max 17 (2 * size))
      × (block_size_to_class_index (compute_size_class size) ≡ compute_class_index size)
      × (compute_size_class size ≡ 2 ^ (compute_class_index size + 4))
      × (compute_class_index size < 8)
unfolding compute_size_class compute_class_index block_size_to_class_index
size_class_fits size small = (ground arith, ground arith, ground arith, ground arith, ground arith)
