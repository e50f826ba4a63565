-- ===== src/CrossThread/Origin.antt =====
-- Resolving handles: the two functions against each other, and against a thread's exit between their
-- looks into the tables.
use rudo.Prelude.{
  ℕ, ◌≡◌, ◌≢◌, refl, ap, subst, ◌∙◌, ◌⊎◌, Bool, true, false, Option, none, some, List, [], ◌∷◌,
  ◌==◌, ◌||◌, if◌then◌else◌, Bool-cases, inl, inr, arith,
}
use rudo.Prelude.Maps.{nat_key, pair_key, Distinct}
use rudo.Mark.{Space}
use rudo.GcBox.{inc_ref}
use rudo.Pointer.{Outcome, panicked, returned, put_box, flags_clear}
use rudo.Pointer.Guarded.{Passed}
use rudo.CrossThread.{World, invalid, contains_key, migrate_roots_to_orphan}
use rudo.CrossThread.Handle.{GcHandle, is_valid, in_tcb, in_orphans}
use rudo.CrossThread.Roots.{lookup-insert_all}
use rudo.CrossThread.Resolve.{find_root}

-- What a resolved pointer has passed, on a heap `s` on which the root has been found.
abbrev pub ResolvesTo : (ℕ → Space → Space) → Space → ℕ → ℕ → Space → Type 0
ResolvesTo between s ptr p t =
    (p ≡ ptr)
    × Passed true between (put_box s ptr (inc_ref (s.boxes ptr))) ptr (s.boxes ptr).generation t

abbrev pub AgreeOn :
    (ℕ → Space → Space) → Space → ℕ → Outcome Space ℕ → Outcome Space (Option ℕ) → Type 0
AgreeOn between s ptr (panicked t) (panicked u) = Unit
AgreeOn between s ptr (panicked t) (returned none u) = Unit
AgreeOn between s ptr (panicked t) (returned (some p) u) = ⊥
AgreeOn between s ptr (returned p t) (panicked u) = ⊥
AgreeOn between s ptr (returned p t) (returned none u) = ⊥
AgreeOn between s ptr (returned p t) (returned (some q) u) =
    (q ≡ p) × (t ≡ u) × ResolvesTo between s ptr p t

module _ (between : ℕ → Space → Space) (s : Space) (ptr : ℕ) (w : Space) where
  abbrev c : Space
  c = put_box s ptr (inc_ref (s.boxes ptr))

  abbrev v : Space
  v = between 4 (flags_clear true between (between 0 c) ptr).1

-- That both give the pointer, on the handle's own thread, or neither does.
abbrev pub AgreeAt :
    (ℕ → Space → Space) → World → ℕ → GcHandle → Outcome World ℕ → Outcome World (Option ℕ) → Type 0
AgreeAt between w cur h (panicked t) (panicked u) = Unit
AgreeAt between w cur h (panicked t) (returned none u) = Unit
AgreeAt between w cur h (panicked t) (returned (some p) u) = ⊥
AgreeAt between w cur h (returned p t) (panicked u) = ⊥
AgreeAt between w cur h (returned p t) (returned none u) = ⊥
AgreeAt between w cur h (returned p t) (returned (some q) u) =
    (cur ≡ h.origin_thread) × (q ≡ p) × (t ≡ u) × ResolvesTo between w.heap h.ptr p t.heap

unmoved : (w : World) (t : ℕ) → (w.tcbs t).roots.strong ≡ [] → w ≡ migrate_roots_to_orphan w t
unfolding migrate_roots_to_orphan
unmoved w t e = ground (arith, e)

emptied :
    (w : World) (t : ℕ) (x : ℕ × ℕ) (rest : List (ℕ × ℕ))
    → (w.tcbs t).roots.strong ≡ x ∷ rest
    → [] ≡ ((migrate_roots_to_orphan w t).tcbs t).roots.strong
unfolding migrate_roots_to_orphan
emptied w t x rest e = ground (arith, e)

migrate-Distinct :
    (w : World) (t : ℕ)
    → Distinct (w.tcbs t).roots.strong
    → Distinct ((migrate_roots_to_orphan w t).tcbs t).roots.strong
unfolding migrate_roots_to_orphan
migrate-Distinct w t d = go (w.tcbs t).roots.strong refl
  where
    go :
        (strong : List (ℕ × ℕ))
        → (w.tcbs t).roots.strong ≡ strong
        → Distinct ((migrate_roots_to_orphan w t).tcbs t).roots.strong
    go [] e = subst (λ (o : World). Distinct (o.tcbs t).roots.strong) (unmoved w t e) d
    go (x ∷ rest) e = subst Distinct (emptied w t x rest e) tt

migrate-in_orphans :
    (w : World) (t : ℕ) (h : GcHandle)
    → Distinct (w.tcbs t).roots.strong
    → in_orphans w h ≡ true
    → in_orphans (migrate_roots_to_orphan w t) h ≡ true
unfolding migrate_roots_to_orphan
migrate-in_orphans w t h d f = go (w.tcbs t).roots.strong refl
  where
    go :
        (strong : List (ℕ × ℕ))
        → (w.tcbs t).roots.strong ≡ strong
        → in_orphans (migrate_roots_to_orphan w t) h ≡ true
    go [] e = ground (arith, e, f)
    go (x ∷ rest) e = ground (
      arith,
      e,
      f,
      lookup-insert_all t h.origin_thread h.handle_id (w.tcbs t).roots.strong w.orphans d,
    )

-- A root in the thread's own table is afterwards among the orphans, or still in the table of another
-- thread.
migrate-in_tcb :
    (w : World) (t : ℕ) (h : GcHandle)
    → Distinct (w.tcbs t).roots.strong
    → h.origin_tcb ≡ h.origin_thread
    → in_tcb w h ≡ true
    → let after = migrate_roots_to_orphan w t in (in_tcb after h || in_orphans after h) ≡ true
unfolding migrate_roots_to_orphan
migrate-in_tcb w t h d same f = go (w.tcbs t).roots.strong refl
  where
    go :
        (strong : List (ℕ × ℕ))
        → (w.tcbs t).roots.strong ≡ strong
        → let after = migrate_roots_to_orphan w t in (in_tcb after h || in_orphans after h) ≡ true
    go [] e = ground (arith, e, f)
    go (x ∷ rest) e = elim (Bool-cases (h.origin_tcb == t)) [
      | inr off ↦ ground (arith, e, f, off)
      | inl at ↦
          let own : h.origin_tcb ≡ t = ground (arith, at) in
          let there : in_tcb w h ≡ contains_key h.handle_id (w.tcbs t).roots.strong =
            ap (λ (u : ℕ). contains_key h.handle_id (w.tcbs u).roots.strong) own in
          ground (
            arith,
            e,
            f,
            there,
            own,
            same,
            lookup-insert_all t h.origin_thread h.handle_id (w.tcbs t).roots.strong w.orphans d,
          )
    ]

migrate-alive :
    (w : World) (t u : ℕ) → ((migrate_roots_to_orphan w t).tcbs u).alive ≡ (w.tcbs u).alive
unfolding migrate_roots_to_orphan
migrate-alive w t u = ground arith

-- Where a handle's root is: in the table of its thread, while that has its control block, or among
-- the orphans.
abbrev pub IsRooted : World → GcHandle → Type 0
IsRooted w h =
    (((w.tcbs h.origin_tcb).alive ≡ true) × ((in_tcb w h || in_orphans w h) ≡ true))
    ⊎ (((w.tcbs h.origin_tcb).alive ≡ false) × (in_orphans w h ≡ true))

migrate-IsRooted :
    (w : World) (t : ℕ) (h : GcHandle)
    → Distinct (w.tcbs t).roots.strong
    → h.origin_tcb ≡ h.origin_thread
    → IsRooted w h
    → IsRooted (migrate_roots_to_orphan w t) h
migrate-IsRooted w t h d same (inl (a, f)) = elim (Bool-cases (in_tcb w h)) [
  | inl here ↦ inl (migrate-alive w t h.origin_tcb ∙ a, migrate-in_tcb w t h d same here)
  | inr n ↦ inl (
    migrate-alive w t h.origin_tcb ∙ a,
    ground (arith, migrate-in_orphans w t h d (ground (arith, f, n))),
  )
]
migrate-IsRooted w t h d same (inr (g, f)) =
    inr (migrate-alive w t h.origin_tcb ∙ g, migrate-in_orphans w t h d f)

-- A look at a quiet moment, or one that a move comes between.
looks_lem :
    (w : World) (t : ℕ) (h : GcHandle) (still : Bool) (third fourth : World → World)
    → Distinct (w.tcbs t).roots.strong
    → h.handle_id ≢ invalid
    → IsRooted w h
    → let move = λ (v : World). if still then v else migrate_roots_to_orphan v t in
      (is_valid move w h ≡ true)
      × ((find_root (record { second = move; third = third; fourth = fourth }) w h).0 ≡ true)
unfolding is_valid find_root
looks_lem w t h still third fourth d v (inl (a, f)) = elim (Bool-cases (in_tcb w h)) [
  | inl here ↦ (ground (arith, here, a, v), ground (arith, here, a))
  | inr n ↦
      let moved = migrate-in_orphans w t h d (ground (arith, f, n)) in
      (ground (arith, f, n, a, v, moved), ground (arith, f, n, a, moved))
]
looks_lem w t h still third fourth d v (inr (g, f)) =
    (ground (arith, g, f, v), ground (arith, g, f))

-- A handle's root is in the table of its thread, which has its control block, or among the orphans. Then
-- a thread's table is moved to the orphans. Whether the looks of `is_valid`, `resolve` and
-- `try_resolve` come after the move, or the move comes between the first two of them, the handle is
-- found valid, and its root is found.
pub migration_unseen :
    (w : World) (t : ℕ) (h : GcHandle) (third fourth : World → World)
    → Distinct (w.tcbs t).roots.strong
    → h.origin_tcb ≡ h.origin_thread
    → h.handle_id ≢ invalid
    → IsRooted w h
    → let move = λ (v : World). migrate_roots_to_orphan v t in
      let moved = move w in
      (is_valid (λ v. v) moved h ≡ true)
      × ((find_root (record { second = λ v. v; third = third; fourth = fourth }) moved h).0 ≡ true)
      × (is_valid move w h ≡ true)
      × ((find_root (record { second = move; third = third; fourth = fourth }) w h).0 ≡ true)
migration_unseen w t h third fourth d same v rooted =
    let (valid, found) = looks_lem w t h false third fourth d v rooted in
    let moved = migrate_roots_to_orphan w t in
    let (valid', found') =
      looks_lem moved t h true third fourth (migrate-Distinct w t d) v
        (migrate-IsRooted w t h d same rooted) in
    (valid', found', valid, found)
