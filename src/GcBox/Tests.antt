-- ===== src/GcBox/Tests.antt =====
-- A live box with one strong reference and two weak ones, its variants, and one with the most weak
-- references that fit.
use rudo.Prelude.{◌+◌, ◌-◌, ◌^◌, ◌≡◌, refl, true, false, arith}
use rudo.GcBox.{
  GcBox, drop_fn_for, weak_count, dec_ref, has_dead_flag, is_under_construction, call_drop_fn,
  try_inc_ref_from_zero,
}
use rudo.GcBox.Weak.{count_mod}
use rudo.GcBox.Strong.{IsLive, last_dec_ref}

abbrev live : GcBox
live = record {
  ref_count = 1;
  weak_count = 2;
  drop_fn = drop_fn_for;
  is_dropping = 0;
  generation = 0;
  dropped = 0;
}

abbrev unrooted : GcBox
unrooted = record live { ref_count = 0 }

abbrev full : GcBox
full = record live { weak_count = 2 ^ 61 - 1 }

live-IsLive : IsLive live
unfolding has_dead_flag is_under_construction
live-IsLive = record { undead = refl; built = refl; idle = refl }

unrooted-IsLive : IsLive unrooted
unfolding has_dead_flag is_under_construction
unrooted-IsLive = record { undead = refl; built = refl; idle = refl }

live_weak : weak_count live ≡ 2
unfolding weak_count
live_weak = refl

full_weak : weak_count full ≡ count_mod - 1
unfolding weak_count
full_weak = refl

last_dec_ref_example :
    ((dec_ref live).0 ≡ true)
    × ((dec_ref live).1.ref_count ≡ 0)
    × ((dec_ref live).1.dropped ≡ live.dropped + 1)
    × (has_dead_flag (dec_ref live).1 ≡ true)
    × (dec_ref (dec_ref live).1 ≡ (false, (dec_ref live).1))
    × (call_drop_fn (dec_ref live).1 ≡ (dec_ref live).1)
    × ((after : GcBox → GcBox)
        → try_inc_ref_from_zero after (dec_ref live).1 ≡ (false, (dec_ref live).1))
last_dec_ref_example = last_dec_ref live live-IsLive refl refl

live_referenced : ¬ (IsLive live × (live.ref_count ≡ 0))
live_referenced e = absurd (omega (arith, e.1))
