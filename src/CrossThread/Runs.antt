-- ===== src/CrossThread/Runs.antt =====
-- Runs of a program with cross-thread handles: threads that start and exit, and handles that are made,
-- cloned, unregistered and dropped, in any order.
use rudo.Prelude.{
  ℕ, ◌+◌, ◌^◌, ◌<◌, ◌≡◌, ◌≢◌, refl, sym, ap, ◌∙◌, ◌↔◌, true, false, Option, none, some, [], mem,
  Bool-cases, inl, inr, arith,
}
use rudo.Prelude.Maps.{nat_key, pair_key}
use rudo.Mark.{Space}
use rudo.Pointer.{returned}
use rudo.CrossThread.{World, invalid, cross_thread_roots, start_thread, exit_thread}
use rudo.CrossThread.Handle
use rudo.CrossThread.Handle.{
  GcHandle, cross_thread_handle, count_handle, count_clone, forget_root, unregister, is_valid,
  clone_registered,
}
use rudo.CrossThread.Outcomes.{
  end_state, cross_thread_handle_inv, clone_inv, drop_inv, unregister_inv,
}
use rudo.CrossThread.Roots.{cross_thread_roots_exact}
use rudo.CrossThread.Keep.{with_root, without_root, Refines, heap-Refines, granted-Refines}
use rudo.CrossThread.Change.{
  forget_root-Refines, insert_orphan_root-Refines, exit_thread-Refines, start_thread-Refines,
}

-- No thread yet.
abbrev pub first_world : Space → World
first_world s = record {
  heap = s;
  tcbs = λ t. record { alive = false; roots = record { next_id = 0; strong = [] } };
  threads = [];
  orphans = [];
  orphan_handle_id_counter = 0;
}

first_world-Refines : (s : Space) → Refines (first_world s) (λ t id. none)
first_world-Refines s = (
  record {
    distinct = λ t. tt;
    orphans_distinct = tt;
    at_home = λ t id a. refl;
    emptied = λ t d. refl;
    below = λ t id p h. absurd (ground arith);
    registered = λ t. refl;
  },
  λ t id. refl,
)

-- A handle that the program has: `held` says which box the handle of a thread and an identifier has.
abbrev pub IsHandle : (ℕ → ℕ → Option ℕ) → GcHandle → Type 0
IsHandle held h =
    (held h.origin_thread h.handle_id ≡ some h.ptr)
    × (h.origin_tcb ≡ h.origin_thread)
    × (h.handle_id ≢ invalid)

-- A thread number is not used again while a handle of it is left, and fewer than 2^64 identifiers are
-- given out. A clone among the orphans is taken to get an identifier that no handle of the thread has.
-- The heap changes in any way between the operations.
pub data Run : World → (ℕ → ℕ → Option ℕ) → Type 0 where
  first : (s : Space) → Run (first_world s) (λ t id. none)
  changed :
      {w : World} {held : ℕ → ℕ → Option ℕ}
      → Run w held
      → (s : Space) → Run (record w { heap = s }) held
  started :
      {w : World} {held : ℕ → ℕ → Option ℕ}
      → Run w held
      → (t : ℕ) → (w.tcbs t).alive ≡ false
      → ((id : ℕ) → held t id ≡ none)
      → Run (start_thread w t) held
  exited :
      {w : World} {held : ℕ → ℕ → Option ℕ}
      → Run w held
      → (t : ℕ) → (w.tcbs t).alive ≡ true
      → Run (exit_thread w t) held
  made :
      {w w' : World} {held : ℕ → ℕ → Option ℕ} {h : GcHandle}
      → Run w held
      → (between : Space → Space) (cur ptr : ℕ) → (w.tcbs cur).roots.next_id + 1 < 2 ^ 64
      → cross_thread_handle between w cur (some ptr) ≡ returned h w'
      → Run w' (with_root held h.origin_thread h.handle_id h.ptr)
  cloned :
      {w w' : World} {held : ℕ → ℕ → Option ℕ} {h h' : GcHandle}
      → Run w held
      → IsHandle held h
      → (between : Space → Space) (cur : ℕ) → (w.tcbs h.origin_tcb).roots.next_id + 1 < 2 ^ 64
      → ((w.tcbs h.origin_tcb).alive ≡ false
          → held h.origin_thread w.orphan_handle_id_counter ≡ none)
      → Handle.clone between w cur h ≡ returned h' w'
      → Run w' (with_root held h'.origin_thread h'.handle_id h'.ptr)
  dropped :
      {w : World} {held : ℕ → ℕ → Option ℕ} {h : GcHandle}
      → Run w held
      → IsHandle held h
      → (between : Space → Space)
      → Run (end_state (Handle.drop between w h)) (without_root held h.origin_thread h.handle_id)
  unregistered :
      {w : World} {held : ℕ → ℕ → Option ℕ} {h : GcHandle}
      → Run w held
      → IsHandle held h
      → Run (unregister w h).1 (without_root held h.origin_thread h.handle_id)

cloned-Refines :
    (between : Space → Space) (w w' : World) (cur : ℕ) (h h' : GcHandle) (held : ℕ → ℕ → Option ℕ)
    → IsHandle held h
    → (w.tcbs h.origin_tcb).roots.next_id + 1 < 2 ^ 64
    → Handle.clone between w cur h ≡ returned h' w'
    → Refines w held
    → Refines w' (with_root held h'.origin_thread h'.handle_id h'.ptr)
cloned-Refines between w w' cur h h' held has room run (wf, all) =
    elim (clone_inv between w w' cur h h' run) [
      | inl (there, e, s, n, after) ↦
          let gone : (w.tcbs h.origin_thread).alive ≡ false =
            elim (Bool-cases (w.tcbs h.origin_thread).alive) [
              | inl a ↦ absurd (there (wf.at_home h.origin_thread h.handle_id a))
              | inr d ↦ d
            ] in
          rw (after, e)
            (insert_orphan_root-Refines (record w { heap = s }) h.origin_thread
              w.orphan_handle_id_counter h.ptr n held gone (heap-Refines w s held (wf, all)))
      | inr (a, e, (s, after)) ↦
          rw (after, e, ← has.1)
            (granted-Refines (record w { heap = s }) h.origin_tcb h.ptr held a room
              (heap-Refines w s held (wf, all)))
    ]

pub Run-Refines : {w : World} {held : ℕ → ℕ → Option ℕ} → Run w held → Refines w held
Run-Refines (first s) = first_world-Refines s
Run-Refines (changed {w = w} {held = held} r s) = heap-Refines w s held (Run-Refines r)
Run-Refines (started {w = w} {held = held} r t d fresh) =
    let (wf, all) = Run-Refines r in
    start_thread-Refines w t held d (λ id. ground (arith, d, all t id, fresh id)) (wf, all)
Run-Refines (exited {w = w} {held = held} r t a) = exit_thread-Refines w t held a (Run-Refines r)
Run-Refines (made {w = w} {w' = w'} {held = held} {h = h} r between cur ptr room run) =
    let (a, here, (s, after)) = cross_thread_handle_inv between w w' cur ptr h run in
    rw (after, here)
      (granted-Refines (record w { heap = s }) cur ptr held a room
        (heap-Refines w s held (Run-Refines r)))
Run-Refines
      (cloned {w = w} {w' = w'} {held = held} {h = h} {h' = h'} r has between cur room fresh run) =
    cloned-Refines between w w' cur h h' held has room run (Run-Refines r)
Run-Refines (dropped {w = w} {held = held} {h = h} r has between) =
    let (s, e) = drop_inv between w h has.2 in
    let forgotten = forget_root-Refines w h held has.1 (Run-Refines r) in
    rw e
      (heap-Refines (forget_root w h) s (without_root held h.origin_thread h.handle_id) forgotten)
Run-Refines (unregistered {w = w} {held = held} {h = h} r has) =
    let (s, e) = unregister_inv w h has.2 in
    let forgotten = forget_root-Refines w h held has.1 (Run-Refines r) in
    rw e
      (heap-Refines (forget_root w h) s (without_root held h.origin_thread h.handle_id) forgotten)

handle_valid :
    (w : World) (held : ℕ → ℕ → Option ℕ) (h : GcHandle)
    → Refines w held
    → IsHandle held h
    → is_valid (λ v. v) w h ≡ true
unfolding is_valid
handle_valid w held h (wf, all) (has, same, valid) =
    let found = all h.origin_thread h.handle_id ∙ has in
    let home = ap (λ (t : ℕ). w.tcbs t) same in ground (arith, found, home, valid)

-- In every state that a program with cross-thread handles reaches by the steps of `Run`, a
-- collection's cross-thread roots are exactly the boxes of the handles that the program has, wherever
-- their threads are by then, and each of these handles is valid. In these steps a clone among the
-- orphans gets an identifier that no handle of the thread has, a thread's exit ends its control block
-- in the same step, no thread number is used again while handles of it are left, and there are fewer
-- than 2^64 identifiers.
pub handles_rooted :
    {w : World} {held : ℕ → ℕ → Option ℕ}
    → Run w held
    → ((p : ℕ) → (mem p (cross_thread_roots w) ≡ true) ↔ ((t id : ℕ) × (held t id ≡ some p)))
      × ((h : GcHandle) → IsHandle held h → is_valid (λ v. v) w h ≡ true)
handles_rooted {w} {held} r =
    let (wf, all) = Run-Refines r in
    (
      λ p.
          let (fwd, back) = cross_thread_roots_exact w p wf in
          (
            λ m. let (t, id, e) = fwd m in (t, id, sym (all t id) ∙ e),
            λ (t, id, e). back (t, id, all t id ∙ e),
          ),
      λ h has. handle_valid w held h (wf, all) has,
    )
