-- ===== src/GcBox/Strong.antt =====
-- The strong count of a box and the drop of its value.
use rudo.Prelude.{◌+◌, ◌-◌, ◌≤◌, ◌<◌, ◌≡◌, ◌↔◌, true, false, ◌||◌, arith, if◌then◌else◌}
use rudo.Bitmap.{word_mod}
use rudo.GcBox.Dead.{dead-or_dead}
use rudo.GcBox.{
  GcBox, drop_fn_for, no_op_drop, has_dead_flag, is_under_construction, usize_max, dec_ref, inc_ref,
  try_inc_ref_from_zero, call_drop_fn,
}

-- A box whose value can be used: not dead, not under construction, not being dropped.
pub record IsLive (b : GcBox) : Type 0 where
  pub undead : has_dead_flag b ≡ false
  pub built : is_under_construction b ≡ false
  pub idle : b.is_dropping ≡ 0

-- `dec_ref` returns true exactly for the last reference to a live box. A dead box, one under
-- construction and one without references it leaves as it is.
pub dec_ref_exact :
    (b : GcBox)
    → ((dec_ref b).0 ≡ true ↔ IsLive b × (b.ref_count ≡ 1))
      × ((dec_ref b).1.ref_count
          ≡ (if has_dead_flag b || is_under_construction b then b.ref_count else b.ref_count - 1))
unfolding dec_ref
dec_ref_exact b = (((λ e. ground arith), (λ e. ground arith)), ground arith)

last_is_dead :
    (b : GcBox)
    → IsLive b
    → b.ref_count ≡ 1
    → b.drop_fn ≡ drop_fn_for
    → has_dead_flag (dec_ref b).1 ≡ true
unfolding dec_ref rudo.GcBox.try_mark_dropping call_drop_fn rudo.GcBox.run_drop_fn_for
    rudo.GcBox.set_dead rudo.GcBox.set_final_dropping has_dead_flag
last_is_dead b live one typed =
    ground (arith, live.undead, live.built, live.idle, one, typed, dead-or_dead b.weak_count)

-- Dropping the last reference to a live box with a destructor of its own runs the destructor once and
-- leaves the box dead and without references. After that nothing uses it again: another `dec_ref` and
-- another call of the destructor leave it as it is, and it is not resurrected.
pub last_dec_ref :
    (b : GcBox)
    → IsLive b
    → b.ref_count ≡ 1
    → b.drop_fn ≡ drop_fn_for
    → let (last, c) = dec_ref b in
      (last ≡ true)
      × (c.ref_count ≡ 0)
      × (c.dropped ≡ b.dropped + 1)
      × (has_dead_flag c ≡ true)
      × (dec_ref c ≡ (false, c))
      × (call_drop_fn c ≡ c)
      × ((after : GcBox → GcBox) → try_inc_ref_from_zero after c ≡ (false, c))
unfolding dec_ref call_drop_fn try_inc_ref_from_zero
last_dec_ref b live one typed =
    let dead : has_dead_flag (dec_ref b).1 ≡ true = last_is_dead b live one typed in
    (
      ground arith,
      ground arith,
      ground arith,
      dead,
      ground (arith, dead),
      ground arith,
      λ after. ground (arith, dead),
    )

-- For a live box that is referenced, and below the saturation point, `dec_ref` undoes `inc_ref`.
pub dec_ref-inc_ref :
    (b : GcBox)
    → IsLive b
    → 0 < b.ref_count
    → b.ref_count < usize_max
    → dec_ref (inc_ref b) ≡ (false, b)
unfolding dec_ref inc_ref has_dead_flag is_under_construction
dec_ref-inc_ref b live used room = ground (arith, live.undead, live.built)

-- Once the value has been dropped, no further call of the destructor, of `dec_ref` or of both
-- drops it again.
dropped_once :
    (b : GcBox)
    → let c = call_drop_fn b in
      (call_drop_fn c ≡ c) × (c.dropped ≤ b.dropped + 1) × ((dec_ref c).1.dropped ≡ c.dropped)
unfolding dec_ref call_drop_fn
dropped_once b = ground arith

-- A box that is dead, under construction, being dropped or still referenced is not resurrected, and
-- it is left as it is.
pub resurrection_refused :
    (after : GcBox → GcBox) (b : GcBox)
    → ¬ (IsLive b × (b.ref_count ≡ 0))
    → try_inc_ref_from_zero after b ≡ (false, b)
unfolding try_inc_ref_from_zero
resurrection_refused after b out = ground arith

-- A live box without references is resurrected exactly if it is still live when its header is read
-- again after the exchange, and then has the reference; otherwise the claim is taken back, and the
-- count is one less than what other threads have made of it.
resurrection_exact :
    (after : GcBox → GcBox) (b : GcBox)
    → IsLive b
    → b.ref_count ≡ 0
    → 0 < (after (record b { ref_count = 1 })).ref_count
    → (after (record b { ref_count = 1 })).ref_count < word_mod
    → let now = after (record b { ref_count = 1 }) in
      let (taken, c) = try_inc_ref_from_zero after b in
      (taken ≡ true ↔ IsLive now)
      × (c ≡ (if taken then now else record now { ref_count = now.ref_count - 1 }))
unfolding try_inc_ref_from_zero
resurrection_exact after b live free claimed small =
    (((λ e. ground arith), (λ e. ground arith)), ground arith)
