-- ===== src/Address/Tests.antt =====
-- A struct of 100 bytes goes to a block of 128 bytes.
use rudo.Prelude.{◌+◌, ◌*◌, ◌^◌, ◌≤◌, ◌<◌, ◌≡◌, max, arith}
use rudo.Address.{compute_size_class, compute_class_index, block_size_to_class_index}
use rudo.Address.Classes.{size_class_fits}

size_class_fits_example :
    (100 ≤ compute_size_class 100)
    × (compute_size_class 100 < max 17 (2 * 100))
    × (block_size_to_class_index (compute_size_class 100) ≡ compute_class_index 100)
    × (compute_size_class 100 ≡ 2 ^ (compute_class_index 100 + 4))
    × (compute_class_index 100 < 8)
size_class_fits_example = size_class_fits 100 (omega arith)
