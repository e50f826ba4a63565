-- ===== src/CrossThread/Change.antt =====
-- Removing a root, the orphans' new roots, and the start and exit of a thread keep the tables
-- well-formed.
use rudo.Prelude.{
  ℕ, ◌≡◌, refl, ap, ◌∙◌, true, false, Option, none, List, [], ◌∷◌, ◌==◌, if◌then◌else◌, mem, mem-++,
  Bool-cases, inl, inr, arith,
}
use rudo.Prelude.Maps.{
  nat_key, pair_key, lookup, lookup-insert, lookup-remove, insert-Distinct, remove-Distinct,
}
use rudo.CrossThread.{
  World, Tcb, insert_all, remove_orphan_root, insert_orphan_root, migrate_roots_to_orphan,
  drop_thread_local_heap, exit_thread, start_thread, unregister_thread, new,
}
use rudo.CrossThread.Handle.{GcHandle, forget_root}
use rudo.CrossThread.Roots.{IsWf, root_of, insert_all-Distinct, lookup-insert_all}
use rudo.CrossThread.Keep.{with_root, without_root, Refines}

forget_root-IsWf : (w : World) (h : GcHandle) → IsWf w → IsWf (forget_root w h)
unfolding forget_root remove_orphan_root
forget_root-IsWf w h wf = elim (Bool-cases (w.tcbs h.origin_tcb).alive) [
  | inl a ↦
      let t = h.origin_tcb in
      let strong = (w.tcbs t).roots.strong in
      rw a (record {
        distinct = λ u. elim (Bool-cases (u == t)) [
          | inl at ↦ rw at (remove-Distinct h.handle_id strong (wf.distinct t))
          | inr off ↦ rw off (wf.distinct u)
        ];
        orphans_distinct = wf.orphans_distinct;
        at_home = λ u id e. wf.at_home u id (ground (arith, a));
        emptied = λ u e. elim (Bool-cases (u == t)) [
          | inl at ↦ absurd (ground (arith, at, a))
          | inr off ↦ rw off (wf.emptied u (ground (arith, off)))
        ];
        below = λ u id q e. elim (Bool-cases (u == t)) [
          | inl at ↦ ground (arith, at, wf.below t id q, lookup-remove id h.handle_id strong)
          | inr off ↦ ground (arith, off, wf.below u id q)
        ];
        registered = λ u. wf.registered u ∙ ground (arith, a);
      })
  | inr d ↦ rw d (record {
    distinct = wf.distinct;
    orphans_distinct = remove-Distinct (h.origin_thread, h.handle_id) w.orphans wf.orphans_distinct;
    at_home = λ u id e.
        lookup-remove (u, id) (h.origin_thread, h.handle_id) w.orphans
        ∙ ground (arith, wf.at_home u id e);
    emptied = wf.emptied;
    below = wf.below;
    registered = wf.registered;
  })
]

forget_root_lem :
    (w : World) (h : GcHandle) (u j : ℕ)
    → h.origin_tcb ≡ h.origin_thread
    → IsWf w
    → root_of (forget_root w h) u j ≡ without_root (root_of w) h.origin_thread h.handle_id u j
unfolding forget_root remove_orphan_root
forget_root_lem w h u j same wf = rw (← same) elim (Bool-cases (w.tcbs h.origin_tcb).alive) [
  | inl a ↦ rw a (elim (Bool-cases (u == h.origin_tcb)) [
    | inl at ↦
        let q : u ≡ h.origin_tcb = ground (arith, at) in
        rw q (
          ground (
            arith,
            a,
            lookup-remove j h.handle_id (w.tcbs h.origin_tcb).roots.strong,
            wf.at_home h.origin_tcb j a,
          ))
    | inr off ↦ ground (arith, off)
  ])
  | inr d ↦ rw d (elim (Bool-cases (u == h.origin_tcb)) [
    | inl at ↦
        let q : u ≡ h.origin_tcb = ground (arith, at) in
        rw q
          (ground (arith, d, lookup-remove (h.origin_tcb, j) (h.origin_tcb, h.handle_id) w.orphans))
    | inr off ↦ ground (arith, off, lookup-remove (u, j) (h.origin_tcb, h.handle_id) w.orphans)
  ])
]

pub forget_root-Refines :
    (w : World) (h : GcHandle) (held : ℕ → ℕ → Option ℕ)
    → h.origin_tcb ≡ h.origin_thread
    → Refines w held
    → Refines (forget_root w h) (without_root held h.origin_thread h.handle_id)
forget_root-Refines w h held same (wf, all) =
    (forget_root-IsWf w h wf, λ u j. forget_root_lem w h u j same wf ∙ ground (arith, all u j))

-- A root among the orphans of a thread that is gone.
pub insert_orphan_root-Refines :
    (w : World) (t id p n : ℕ) (held : ℕ → ℕ → Option ℕ)
    → (w.tcbs t).alive ≡ false
    → Refines w held
    → Refines
        (insert_orphan_root (record w { orphan_handle_id_counter = n }) t id p)
        (with_root held t id p)
unfolding insert_orphan_root
insert_orphan_root-Refines w t id p n held d (wf, all) = (
  record {
    distinct = wf.distinct;
    orphans_distinct = insert-Distinct (t, id) p w.orphans wf.orphans_distinct;
    at_home = λ u j e. lookup-insert (u, j) (t, id) p w.orphans ∙ elim (Bool-cases (u == t)) [
      | inl at ↦
          let q : u ≡ t = ground (arith, at) in
          absurd (ground (arith, ap (λ (v : ℕ). (w.tcbs v).alive) q, e, d))
      | inr off ↦ ground (arith, off, wf.at_home u j e)
    ];
    emptied = wf.emptied;
    below = wf.below;
    registered = wf.registered;
  },
  λ u j. elim (Bool-cases (u == t)) [
    | inl at ↦
        let q : u ≡ t = ground (arith, at) in
        let gone : (w.tcbs u).alive ≡ false = ap (λ (v : ℕ). (w.tcbs v).alive) q ∙ d in
        ground (arith, at, gone, lookup-insert (u, j) (t, id) p w.orphans, all u j)
    | inr off ↦ ground (arith, off, lookup-insert (u, j) (t, id) p w.orphans, all u j)
  ],
)

unregister-mem :
    (t u : ℕ) (ts : List ℕ) → mem u (unregister_thread t ts) ≡ (if u == t then false else mem u ts)
unregister-mem t u [] = ground arith
unregister-mem t u (v ∷ ts) = ground (arith, unregister-mem t u ts)

abbrev gone_tcb : World → ℕ → Tcb
gone_tcb w t = record {
  alive = false;
  roots = record { next_id = (w.tcbs t).roots.next_id; strong = [] };
}

-- The tables after a thread's exit.
exit_thread_lem :
    (w : World) (t : ℕ) (strong : List (ℕ × ℕ))
    → (w.tcbs t).roots.strong ≡ strong
    → ((u : ℕ) → (exit_thread w t).tcbs u ≡ (if u == t then gone_tcb w t else w.tcbs u))
      × ((exit_thread w t).orphans ≡ insert_all t strong w.orphans)
      × ((exit_thread w t).threads ≡ unregister_thread t w.threads)
unfolding exit_thread drop_thread_local_heap migrate_roots_to_orphan
exit_thread_lem w t [] e = (λ u. ground (arith, e), ground (arith, e), ground (arith, e))
exit_thread_lem w t (x ∷ rest) e = (λ u. ground (arith, e), ground (arith, e), ground (arith, e))

exit_thread-IsWf : (w : World) (t : ℕ) → IsWf w → IsWf (exit_thread w t)
exit_thread-IsWf w t wf =
    let strong = (w.tcbs t).roots.strong in
    let (tcb, orphans, threads) = exit_thread_lem w t strong refl in
    record {
      distinct = λ u.
          rw (tcb u)
            elim (Bool-cases (u == t)) [ inl at ↦ rw at tt | inr off ↦ rw off (wf.distinct u) ];
      orphans_distinct = rw orphans (insert_all-Distinct t strong w.orphans wf.orphans_distinct);
      at_home = λ u id a.
          ap (λ (o : List ((ℕ × ℕ) × ℕ)). lookup (u, id) o) orphans
          ∙ lookup-insert_all t u id strong w.orphans (wf.distinct t)
          ∙ ground (arith, tcb u, a, wf.at_home u id);
      emptied = λ u d. rw (tcb u) elim (Bool-cases (u == t)) [
        | inl at ↦ rw at refl
        | inr off ↦ rw off (wf.emptied u (ground (arith, off, d, tcb u)))
      ];
      below = λ u id q h. elim (Bool-cases (u == t)) [
        | inl at ↦
            absurd
              (ground (arith, at, h, tcb u, ap (λ (c : Tcb). lookup id c.roots.strong) (tcb u)))
        | inr off ↦ ground (arith, off, tcb u, wf.below u id q)
      ];
      registered = λ u.
          ap (mem u) threads
          ∙ unregister-mem t u w.threads
          ∙ ground (arith, tcb u, wf.registered u);
    }

exit_thread_root :
    (w : World) (t u j : ℕ)
    → (w.tcbs t).alive ≡ true
    → IsWf w
    → root_of (exit_thread w t) u j ≡ root_of w u j
exit_thread_root w t u j a wf =
    let strong = (w.tcbs t).roots.strong in
    let (tcb, orphans, threads) = exit_thread_lem w t strong refl in
    let found =
      ap (λ (o : List ((ℕ × ℕ) × ℕ)). lookup (u, j) o) orphans
      ∙ lookup-insert_all t u j strong w.orphans (wf.distinct t) in
    elim (Bool-cases (u == t)) [
      | inl at ↦
          let q : u ≡ t = ground (arith, at) in
          let alive : (w.tcbs u).alive ≡ true = ap (λ (v : ℕ). (w.tcbs v).alive) q ∙ a in
          let table = ap (λ (v : ℕ). lookup j (w.tcbs v).roots.strong) q in
          ground (arith, at, alive, table, found, tcb u)
      | inr off ↦ ground (arith, off, found, tcb u)
    ]

-- A thread's exit loses no root and adds none.
pub exit_thread-Refines :
    (w : World) (t : ℕ) (held : ℕ → ℕ → Option ℕ)
    → (w.tcbs t).alive ≡ true
    → Refines w held
    → Refines (exit_thread w t) held
exit_thread-Refines w t held a (wf, all) =
    (exit_thread-IsWf w t wf, λ u j. exit_thread_root w t u j a wf ∙ all u j)

-- A thread that is new starts.
pub start_thread-Refines :
    (w : World) (t : ℕ) (held : ℕ → ℕ → Option ℕ)
    → (w.tcbs t).alive ≡ false
    → ((id : ℕ) → lookup (t, id) w.orphans ≡ none)
    → Refines w held
    → Refines (start_thread w t) held
unfolding start_thread new
start_thread-Refines w t held d fresh (wf, all) = (
  record {
    distinct =
        λ u. elim (Bool-cases (u == t)) [ inl at ↦ rw at tt | inr off ↦ rw off (wf.distinct u) ];
    orphans_distinct = wf.orphans_distinct;
    at_home = λ u id a. elim (Bool-cases (u == t)) [
      | inl at ↦ let q : u ≡ t = ground (arith, at) in rw q (fresh id)
      | inr off ↦ wf.at_home u id (ground (arith, off, a))
    ];
    emptied = λ u e. elim (Bool-cases (u == t)) [
      | inl at ↦ rw at refl
      | inr off ↦ rw off (wf.emptied u (ground (arith, off, e)))
    ];
    below = λ u id q h. elim (Bool-cases (u == t)) [
      | inl at ↦ absurd (ground (arith, at))
      | inr off ↦ ground (arith, off, wf.below u id q)
    ];
    registered = λ u. mem-++ u w.threads (t ∷ []) ∙ ground (arith, wf.registered u, d);
  },
  λ u j. elim (Bool-cases (u == t)) [
    | inl at ↦
        let q : u ≡ t = ground (arith, at) in
        let gone : (w.tcbs u).alive ≡ false = ap (λ (v : ℕ). (w.tcbs v).alive) q ∙ d in
        ground (arith, at, gone, all u j)
    | inr off ↦ ground (arith, off, all u j)
  ],
)
