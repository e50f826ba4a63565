-- ===== src/CrossThread/Outcomes.antt =====
-- What the operations on handles do to the tables, by the outcome.
use rudo.Prelude.{
  ℕ, ◌+◌, ◌%◌, ◌^◌, ◌≡◌, ◌≢◌, refl, ◌⊎◌, true, none, some, Option-cases, inl, inr, arith,
}
use rudo.Prelude.Maps.{nat_key, pair_key, lookup}
use rudo.Mark.{Space}
use rudo.GcBox.{dec_ref}
use rudo.Pointer.{put_box, Outcome, panicked, returned}
use rudo.CrossThread.{
  World, invalid, insert_orphan_root, allocate_id, count_orphan, clone_orphan_root_with_inc_ref,
  allocate_orphan_handle_id,
}
use rudo.CrossThread.Handle
use rudo.CrossThread.Handle.{
  GcHandle, cross_thread_handle, count_handle, count_clone, release_count, forget_root, unregister,
  is_valid, clone_registered,
}
use rudo.CrossThread.Keep.{granted}

Outcome-cases :
    {S A : Type 0} (o : Outcome S A)
    → ((s : S) × (o ≡ panicked s)) ⊎ ((a : A) × (s : S) × (o ≡ returned a s))
Outcome-cases (panicked s) = inl (s, refl)
Outcome-cases (returned a s) = inr (a, s, refl)

pub cross_thread_handle_inv :
    (between : Space → Space) (w w' : World) (cur ptr : ℕ) (h : GcHandle)
    → cross_thread_handle between w cur (some ptr) ≡ returned h w'
    → ((w.tcbs cur).alive ≡ true)
      × (h ≡ record {
        ptr = ptr;
        origin_tcb = cur;
        origin_thread = cur;
        handle_id = (w.tcbs cur).roots.next_id;
      })
      × ((s : Space) × (w' ≡ granted (record w { heap = s }) cur ptr))
unfolding cross_thread_handle allocate_id
cross_thread_handle_inv between w w' cur ptr h run =
    elim (Outcome-cases (count_handle between w.heap ptr)) [
      | inl (s, e) ↦ absurd (ground (arith, run, e))
      | inr (u, s, e) ↦ (ground (arith, run), ground (arith, run, e), (s, ground (arith, run, e)))
    ]

-- A clone goes to the orphans if the handle's root is there, and otherwise to the table of its thread.
pub clone_inv :
    (between : Space → Space) (w w' : World) (cur : ℕ) (h h' : GcHandle)
    → Handle.clone between w cur h ≡ returned h' w'
    → ((lookup (h.origin_thread, h.handle_id) w.orphans ≢ none)
        × (h' ≡ record h { handle_id = w.orphan_handle_id_counter })
        × (s : Space) × (n : ℕ) × (w'
            ≡ insert_orphan_root
                (record (record w { heap = s }) { orphan_handle_id_counter = n })
                h.origin_thread
                w.orphan_handle_id_counter
                h.ptr))
      ⊎ (((w.tcbs h.origin_tcb).alive ≡ true)
          × (h' ≡ record h { handle_id = (w.tcbs h.origin_tcb).roots.next_id })
          × ((s : Space) × (w' ≡ granted (record w { heap = s }) h.origin_tcb h.ptr)))
unfolding Handle.clone clone_orphan_root_with_inc_ref clone_registered allocate_id
    allocate_orphan_handle_id insert_orphan_root
clone_inv between w w' cur h h' run =
    elim (Option-cases (lookup (h.origin_thread, h.handle_id) w.orphans)) [
      | inl n ↦ elim (Outcome-cases (count_clone between w.heap h.ptr)) [
        | inl (s, e) ↦ absurd (ground (arith, run, e, n))
        | inr (u, s, e) ↦
            inr (ground (arith, run, n), ground (arith, run, e, n), (s, ground (arith, run, e, n)))
      ]
      | inr (p, f) ↦ elim (Outcome-cases (count_orphan between w.heap h.ptr)) [
        | inl (s, e) ↦ absurd (ground (arith, run, e, f))
        | inr (u, s, e) ↦ inl (
          λ z. ground (arith, z, f),
          ground (arith, run, e, f),
          s,
          (w.orphan_handle_id_counter + 1) % 2 ^ 64,
          ground (arith, run, e, f),
        )
      ]
    ]

-- The state that a call ends in.
abbrev pub end_state {ℓ} : {S A : Type ℓ} → Outcome S A → S
end_state (panicked s) = s
end_state (returned a s) = s

-- Whether it returns or panics, the root is forgotten.
pub drop_inv :
    (between : Space → Space) (w : World) (h : GcHandle)
    → h.handle_id ≢ invalid
    → (s : Space) × (end_state (Handle.drop between w h) ≡ record (forget_root w h) { heap = s })
unfolding Handle.drop
drop_inv between w h valid = elim (Outcome-cases (release_count between w.heap h.ptr)) [
  | inl (s, e) ↦ (s, ground (arith, e))
  | inr (u, s, e) ↦ (s, ground (arith, e))
]

pub unregister_inv :
    (w : World) (h : GcHandle)
    → h.handle_id ≢ invalid
    → (s : Space) × ((unregister w h).1 ≡ record (forget_root w h) { heap = s })
unfolding unregister
unregister_inv w h valid =
    let w1 = forget_root w h in
    (put_box w1.heap h.ptr (dec_ref (w1.heap.boxes h.ptr)).1, ground arith)
