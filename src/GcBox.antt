-- ===== src/GcBox.antt =====
-- `GcBox` of crates/rudo-gc/src/ptr.rs: the header of a heap object, with its strong count, and its
-- weak count whose three top bits are flags. `usize` is 64 bits wide. Each function is one thread's
-- run of it: a compare-and-exchange finds the value that was loaded, so each loop ends in its first
-- round. That the value has been dropped is recorded by the counter `dropped`.
pub mod Weak
pub mod Dead
pub mod Strong
pub mod Tests
use rudo.Prelude.{
  ℕ, ◌+◌, ◌-◌, ◌%◌, ◌^◌, bit_and, bit_or, Bool, true, false, not, ◌&&◌, ◌||◌, Option, none, some,
  ltb, ◌==◌, if◌then◌else◌,
}
use rudo.Bitmap.{word_mod, complement}

abbrev pub dead_flag : ℕ
dead_flag = 2 ^ 63

abbrev pub under_construction_flag : ℕ
under_construction_flag = 2 ^ 62

abbrev pub gen_old_flag : ℕ
gen_old_flag = 2 ^ 61

abbrev pub flags_mask : ℕ
flags_mask = bit_or (bit_or dead_flag under_construction_flag) gen_old_flag

abbrev pub usize_max : ℕ
usize_max = 2 ^ 64 - 1

-- `drop_fn`: the typed destructor of the value, or `no_op_drop`.
pub data DropFn : Type 0 where
  drop_fn_for : DropFn
  no_op_drop : DropFn

pub record GcBox : Type 0 where
  pub ref_count : ℕ
  pub weak_count : ℕ
  pub drop_fn : DropFn
  pub is_dropping : ℕ
  pub generation : ℕ
  pub dropped : ℕ

unfoldable pub is_under_construction : GcBox → Bool
is_under_construction b = not (bit_and b.weak_count under_construction_flag == 0)

unfoldable pub set_under_construction : GcBox → Bool → GcBox
set_under_construction b flag =
    if flag
    then record b { weak_count = bit_or b.weak_count under_construction_flag }
    else record b { weak_count = bit_and b.weak_count (complement under_construction_flag) }

-- With `true` if the exchange of 0 for 1 succeeded.
unfoldable pub try_mark_dropping : GcBox → Bool × GcBox
try_mark_dropping b =
    if b.is_dropping == 0 then (true, record b { is_dropping = 1 }) else (false, b)

unfoldable pub set_final_dropping : GcBox → GcBox
set_final_dropping b = record b { is_dropping = 2 }

unfoldable pub increment_generation : GcBox → GcBox
increment_generation b = record b { generation = (b.generation + 1) % 2 ^ 32 }

unfoldable pub set_dead : GcBox → GcBox
set_dead b = record b { weak_count = bit_or b.weak_count dead_flag }

unfoldable pub mark_dead : GcBox → GcBox
mark_dead b = record b {
  weak_count = bit_and (bit_or b.weak_count dead_flag) (complement under_construction_flag);
}

unfoldable pub set_gen_old : GcBox → GcBox
set_gen_old b = record b { weak_count = bit_or b.weak_count gen_old_flag }

unfoldable pub clear_gen_old : GcBox → GcBox
clear_gen_old b = record b { weak_count = bit_and b.weak_count (complement gen_old_flag) }

unfoldable pub clear_dead : GcBox → GcBox
clear_dead b = record b { weak_count = bit_and b.weak_count (complement dead_flag) }

unfoldable pub clear_under_construction : GcBox → GcBox
clear_under_construction b = record b {
  weak_count = bit_and b.weak_count (complement under_construction_flag);
}

unfoldable pub clear_is_dropping : GcBox → GcBox
clear_is_dropping b = record b { is_dropping = 0 }

unfoldable pub has_dead_flag : GcBox → Bool
has_dead_flag b = not (bit_and b.weak_count dead_flag == 0)

unfoldable pub has_gen_old_flag : GcBox → Bool
has_gen_old_flag b = not (bit_and b.weak_count gen_old_flag == 0)

unfoldable pub weak_count : GcBox → ℕ
weak_count b = bit_and b.weak_count (complement flags_mask)

unfoldable pub weak_count_and_dead_flag : GcBox → ℕ × Bool
weak_count_and_dead_flag b =
    (bit_and b.weak_count (complement flags_mask), not (bit_and b.weak_count dead_flag == 0))

unfoldable pub is_dead_or_unrooted : GcBox → Bool
is_dead_or_unrooted b = not (bit_and b.weak_count dead_flag == 0) || b.ref_count == 0

-- `saturating_add` at a count that is not `usize::MAX` adds one.
unfoldable pub inc_ref : GcBox → GcBox
inc_ref b = if b.ref_count == usize_max then b else record b { ref_count = b.ref_count + 1 }

unfoldable pub try_inc_ref_if_nonzero : GcBox → Bool × GcBox
try_inc_ref_if_nonzero b =
    if ltb 0 b.ref_count && ltb b.ref_count usize_max
    then (true, record b { ref_count = b.ref_count + 1 })
    else (false, b)

-- `fetch_sub` wraps.
unfoldable pub undo_inc_ref : GcBox → GcBox
undo_inc_ref b = record b { ref_count = (b.ref_count + word_mod - 1) % word_mod }

-- The header's part of the typed destructor, which returns at once in the final dropping phase. What
-- dropping the value does to other boxes, by the pointers in it, is for the callers to say.
unfoldable pub run_drop_fn_for : GcBox → GcBox
unfolding set_dead set_final_dropping
run_drop_fn_for b =
    if ltb 1 b.is_dropping
    then b
    else let dead = set_dead b in
      let after = set_final_dropping (record dead { dropped = dead.dropped + 1 }) in
      record after { drop_fn = no_op_drop }

-- Whether such a call drops the value.
abbrev pub drops_value : GcBox → Bool
drops_value b = elim b.drop_fn [ drop_fn_for ↦ not (ltb 1 b.is_dropping) | no_op_drop ↦ false ]

-- A call through the header's `drop_fn`.
unfoldable pub call_drop_fn : GcBox → GcBox
unfolding run_drop_fn_for
call_drop_fn b = elim b.drop_fn [ drop_fn_for ↦ run_drop_fn_for b | no_op_drop ↦ b ]

-- With `true` if the count reached zero and the value has been dropped.
unfoldable pub dec_ref : GcBox → Bool × GcBox
unfolding has_dead_flag is_under_construction try_mark_dropping call_drop_fn
dec_ref b =
    if has_dead_flag b
    then (false, b)
    else if is_under_construction b
    then (false, b)
    else if b.ref_count == 0
    then (false, b)
    else if (b.ref_count == 1) && (b.is_dropping == 0)
    then (true, record (call_drop_fn (try_mark_dropping b).1) { ref_count = 0 })
    else (false, record b { ref_count = b.ref_count - 1 })

-- A count that reaches `usize::MAX` stays.
unfoldable pub inc_weak : GcBox → GcBox
inc_weak b =
    let flags = bit_and b.weak_count flags_mask in
    let count = bit_and b.weak_count (complement flags_mask) in
    if count == usize_max then b else record b { weak_count = bit_or flags (count + 1) }

-- With `true` if the weak count reached zero.
unfoldable pub dec_weak : GcBox → Bool × GcBox
dec_weak b =
    let flags = bit_and b.weak_count flags_mask in
    let count = bit_and b.weak_count (complement flags_mask) in
    if count == 0
    then (false, b)
    else if count == 1
    then (true, record b { weak_count = flags })
    else (false, record b { weak_count = bit_or flags (count - 1) })

-- The same loop on a raw pointer.
unfoldable pub dec_weak_raw : GcBox → Bool × GcBox
dec_weak_raw b =
    let flags = bit_and b.weak_count flags_mask in
    let count = bit_and b.weak_count (complement flags_mask) in
    if count == 0
    then (false, b)
    else if count == 1
    then (true, record b { weak_count = flags })
    else (false, record b { weak_count = bit_or flags (count - 1) })

unfoldable pub weak_count_raw : GcBox → ℕ
weak_count_raw b = b.weak_count

unfoldable pub weak_count_acquire : GcBox → ℕ
weak_count_acquire b = bit_and b.weak_count (complement flags_mask)

-- The rollback after the exchange is reached only if another thread intervenes: `after` is what
-- other threads make of the header between the exchange and the second check.
unfoldable pub try_inc_ref_from_zero : (GcBox → GcBox) → GcBox → Bool × GcBox
unfolding has_dead_flag is_under_construction undo_inc_ref
try_inc_ref_from_zero after b =
    if has_dead_flag b
    then (false, b)
    else if not (b.is_dropping == 0)
    then (false, b)
    else if is_under_construction b
    then (false, b)
    else if not (b.ref_count == 0)
    then (false, b)
    else let now = after (record b { ref_count = 1 }) in
      if has_dead_flag now || is_under_construction now || not (now.is_dropping == 0)
      then (false, undo_inc_ref now)
      else (true, now)
