-- ===== src/CrossThread/Clash.antt =====
-- Two ways to come to roots that are not the boxes of the handles.
use rudo.Prelude.{
  ℕ, ◌≡◌, ◌≢◌, refl, sym, ap, ◌∙◌, true, false, some, List, [], ◌∷◌, ◌==◌, ◌&&◌, mem, Bool-cases,
  inl, inr, arith,
}
use rudo.Prelude.Maps.{nat_key, pair_key, lookup, Distinct, lookup-mem}
use rudo.Mark.{Space}
use rudo.Pointer.{returned}
use rudo.CrossThread.{
  World, invalid, migrate_roots_to_orphan, drop_thread_local_heap, cross_thread_roots,
  get_orphaned_cross_thread_roots,
}
use rudo.CrossThread.Handle
use rudo.CrossThread.Handle.{GcHandle, is_valid, forget_root}
use rudo.CrossThread.Outcomes.{end_state, clone_inv, drop_inv}
use rudo.CrossThread.Roots.{IsWf, root_of, lookup-insert_all, cross_thread_roots_exact}
use rudo.CrossThread.Keep.{Refines, heap-Refines, with_root}
use rudo.CrossThread.Change.{insert_orphan_root-Refines}

cloned_orphan :
    (between : Space → Space) (w w' : World) (cur : ℕ) (h h' : GcHandle)
    → (w.tcbs h.origin_thread).alive ≡ false
    → h.origin_tcb ≡ h.origin_thread
    → IsWf w
    → Handle.clone between w cur h ≡ returned h' w'
    → Refines w' (with_root (root_of w) h.origin_thread w.orphan_handle_id_counter h.ptr)
cloned_orphan between w w' cur h h' gone same wf run = elim (clone_inv between w w' cur h h' run) [
  | inl (there, e, s, n, after) ↦ rw after (
      insert_orphan_root-Refines (record w { heap = s }) h.origin_thread w.orphan_handle_id_counter
        h.ptr n (root_of w) gone (heap-Refines w s (root_of w) (wf, λ t id. refl)))
  | inr (a, e, after) ↦ absurd (ground (arith, a, gone, ap (λ (t : ℕ). (w.tcbs t).alive) same))
]

-- The identifiers of clones among the orphans are counted apart from those that the handles got while
-- their thread was alive. If such a clone gets the identifier of another handle of its thread that has
-- exited, that handle stays valid, but its box is no longer a root, if no other handle leads to it.
pub clone_takes_root :
    (between : Space → Space) (w w' : World) (cur : ℕ) (a h h' : GcHandle)
    → IsWf w
    → (w.tcbs h.origin_thread).alive ≡ false
    → h.origin_tcb ≡ h.origin_thread
    → (a.origin_thread ≡ h.origin_thread)
      × (a.origin_tcb ≡ h.origin_thread)
      × (a.handle_id ≡ w.orphan_handle_id_counter)
      × (a.handle_id ≢ invalid)
      × (a.ptr ≢ h.ptr)
    → ((t id : ℕ) → root_of w t id ≡ some a.ptr → (t ≡ a.origin_thread) × (id ≡ a.handle_id))
    → Handle.clone between w cur h ≡ returned h' w'
    → (is_valid (λ v. v) w' a ≡ true) × (mem a.ptr (cross_thread_roots w') ≡ false)
unfolding is_valid
clone_takes_root between w w' cur a h h' wf gone same (thread, tcb, id, valid, ne) only run =
    let (wf', all) = cloned_orphan between w w' cur h h' gone same wf run in
    let taken = all a.origin_thread a.handle_id in
    let home : w'.tcbs a.origin_tcb ≡ w'.tcbs a.origin_thread =
      ap (λ (t : ℕ). w'.tcbs t) (tcb ∙ sym thread) in
    (
      ground (arith, valid, taken, home, thread, id),
      elim (Bool-cases (mem a.ptr (cross_thread_roots w'))) [
        | inr n ↦ n
        | inl m ↦
            let (t, j, found) = (cross_thread_roots_exact w' a.ptr wf').0 m in
            let kept = sym (all t j) ∙ found in
            elim (Bool-cases ((h.origin_thread == t) && (w.orphan_handle_id_counter == j))) [
              | inl at ↦ absurd (ground (arith, kept, at, ne))
              | inr off ↦
                  let (x, y) = only t j (ground (arith, kept, off)) in
                  absurd (ground (arith, off, x, y, thread, id))
            ]
      ],
    )

orphan_root :
    (w : World) (h : GcHandle)
    → lookup (h.origin_thread, h.handle_id) w.orphans ≡ some h.ptr
    → mem h.ptr (get_orphaned_cross_thread_roots w) ≡ true
unfolding get_orphaned_cross_thread_roots
orphan_root w h f = lookup-mem (h.origin_thread, h.handle_id) h.ptr w.orphans f

forgotten_orphan :
    (w : World) (h : GcHandle)
    → Distinct (w.tcbs h.origin_tcb).roots.strong
    → h.origin_tcb ≡ h.origin_thread
    → (w.tcbs h.origin_tcb).alive ≡ true
    → lookup h.handle_id (w.tcbs h.origin_tcb).roots.strong ≡ some h.ptr
    → let after = forget_root (drop_thread_local_heap w h.origin_tcb) h in
      (root_of after h.origin_thread h.handle_id ≡ some h.ptr)
      × (lookup (h.origin_thread, h.handle_id) after.orphans ≡ some h.ptr)
unfolding forget_root drop_thread_local_heap migrate_roots_to_orphan
forgotten_orphan w h d same a f = go (w.tcbs h.origin_tcb).roots.strong refl
  where
    go :
        (strong : List (ℕ × ℕ))
        → (w.tcbs h.origin_tcb).roots.strong ≡ strong
        → let after = forget_root (drop_thread_local_heap w h.origin_tcb) h in
          (root_of after h.origin_thread h.handle_id ≡ some h.ptr)
          × (lookup (h.origin_thread, h.handle_id) after.orphans ≡ some h.ptr)
    go [] e = absurd (ground (arith, f, e, ap (lookup h.handle_id) e))
    go (x ∷ rest) e = (
      ground (
        arith,
        e,
        f,
        a,
        same,
        lookup-insert_all h.origin_tcb h.origin_thread h.handle_id
            (w.tcbs h.origin_tcb).roots.strong w.orphans d,
      ),
      ground (
        arith,
        e,
        f,
        a,
        same,
        lookup-insert_all h.origin_tcb h.origin_thread h.handle_id
            (w.tcbs h.origin_tcb).roots.strong w.orphans d,
      ),
    )

-- While the control block of a thread that has exited is still held by somebody, its roots are among
-- the orphans, but dropping a handle looks for its root only in the empty table: the root is still
-- there after the drop, and among the roots of a collection.
pub drop_keeps_root :
    (between : Space → Space) (w : World) (h : GcHandle)
    → Distinct (w.tcbs h.origin_tcb).roots.strong
    → h.origin_tcb ≡ h.origin_thread
    → h.handle_id ≢ invalid
    → (w.tcbs h.origin_tcb).alive ≡ true
    → lookup h.handle_id (w.tcbs h.origin_tcb).roots.strong ≡ some h.ptr
    → let after = end_state (Handle.drop between (drop_thread_local_heap w h.origin_tcb) h) in
      (root_of after h.origin_thread h.handle_id ≡ some h.ptr)
      × (mem h.ptr (get_orphaned_cross_thread_roots after) ≡ true)
drop_keeps_root between w h d same v a f =
    let t = h.origin_tcb in
    let moved = drop_thread_local_heap w t in
    let (s, e) = drop_inv between moved h v in
    let entry = forgotten_orphan w h d same a f in
    (
      ap (λ u. root_of u h.origin_thread h.handle_id) e ∙ entry.0,
      ap (λ u. mem h.ptr (get_orphaned_cross_thread_roots u)) e
          ∙ orphan_root (record (forget_root moved h) { heap = s }) h entry.1,
    )
