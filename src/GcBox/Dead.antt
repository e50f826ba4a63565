-- ===== src/GcBox/Dead.antt =====
-- What the sweep reads of a box whose value has just been dropped.
use rudo.Prelude.{
  ℕ, ◌+◌, ◌*◌, ◌/◌, ◌%◌, bit_and, bit_or, ◌≡◌, refl, ap, ◌∙◌, true, not, ◌==◌, arith,
}
use rudo.Prelude.Bits.{bit-bit_or, bit-le_one, bit-pow, bit_and-pow-ne-zero}
use rudo.Prelude.Fields.{or_high}
use rudo.GcBox.{
  run_drop_fn_for, set_final_dropping, GcBox, DropFn, drop_fn_for, no_op_drop, dead_flag, set_dead,
  call_drop_fn, weak_count_and_dead_flag,
}
use rudo.GcBox.Weak.{count_mod, count_part}

count-or_dead : (w : ℕ) → bit_or w dead_flag % count_mod ≡ w % count_mod
count-or_dead w =
    let e : w ≡ w / count_mod * count_mod + w % count_mod = omega arith in
    let f : bit_or (w / count_mod * count_mod + w % count_mod) dead_flag
        ≡ bit_or (w / count_mod) 4 * count_mod + w % count_mod =
      or_high 61 (w / count_mod) (w % count_mod) 4 (omega arith) in
    omega (arith, ap (λ (t : ℕ). bit_or t dead_flag) e, f)

pub dead-or_dead : (w : ℕ) → not (bit_and (bit_or w dead_flag) dead_flag == 0) ≡ true
dead-or_dead w = ground (
  arith,
  bit_and-pow-ne-zero (bit_or w dead_flag) 63
      (omega (arith, bit-bit_or w dead_flag 63, bit-pow 63 63, bit-le_one w 63)),
)

pub set_dead_lem :
    (b : GcBox) → weak_count_and_dead_flag (set_dead b) ≡ ((weak_count_and_dead_flag b).0, true)
unfolding set_dead weak_count_and_dead_flag
set_dead_lem b = ground (
  arith,
  count_part (bit_or b.weak_count dead_flag),
  count_part b.weak_count,
  count-or_dead b.weak_count,
  dead-or_dead b.weak_count,
)

run_drop_fn_for_lem :
    (b : GcBox) → (weak_count_and_dead_flag (run_drop_fn_for b)).0 ≡ (weak_count_and_dead_flag b).0
unfolding run_drop_fn_for set_final_dropping weak_count_and_dead_flag set_dead
run_drop_fn_for_lem b = ground (
  arith,
  count_part (bit_or b.weak_count dead_flag),
  count_part b.weak_count,
  count-or_dead b.weak_count,
)

drop_lem :
    (b : GcBox) (d : DropFn)
    → (weak_count_and_dead_flag (elim d [ drop_fn_for ↦ run_drop_fn_for b | no_op_drop ↦ b ])).0
      ≡ (weak_count_and_dead_flag b).0
drop_lem b drop_fn_for = run_drop_fn_for_lem b
drop_lem b no_op_drop = refl

-- A box whose value has been dropped is dead, with the weak count that it had.
pub dead_box :
    (b : GcBox)
    → weak_count_and_dead_flag (set_dead (call_drop_fn b)) ≡ ((weak_count_and_dead_flag b).0, true)
unfolding call_drop_fn
dead_box b = set_dead_lem (call_drop_fn b) ∙ ap (λ (n : ℕ). (n, true)) (drop_lem b b.drop_fn)

pub call_drop_fn_lem :
    (b : GcBox) → (weak_count_and_dead_flag (call_drop_fn b)).0 ≡ (weak_count_and_dead_flag b).0
unfolding call_drop_fn
call_drop_fn_lem b = drop_lem b b.drop_fn
