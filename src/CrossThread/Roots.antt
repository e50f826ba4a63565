-- ===== src/CrossThread/Roots.antt =====
-- The tables as one map from a handle's thread and identifier to the box it keeps, and the roots that
-- a collection gathers.
use rudo.Prelude.{
  ℕ, ◌<◌, ◌≡◌, ap, ◌∙◌, ◌↔◌, true, false, Option, none, some, List, [], ◌∷◌, ◌==◌, if◌then◌else◌,
  mem, mem-++, Bool-cases, inl, inr, arith,
}
use rudo.Prelude.Maps.{
  nat_key, pair_key, lookup, insert, values, Distinct, lookup-mem, mem-lookup, lookup-insert,
  insert-Distinct,
}
use rudo.CrossThread.{World, insert_all, thread_roots, cross_thread_roots}

abbrev pub or_else : Option ℕ → Option ℕ → Option ℕ
or_else none b = b
or_else (some p) b = some p

-- The box that the entry of a handle keeps.
abbrev pub root_of : World → ℕ → ℕ → Option ℕ
root_of w t id =
    if (w.tcbs t).alive
    then or_else (lookup id (w.tcbs t).roots.strong) (lookup (t, id) w.orphans)
    else lookup (t, id) w.orphans

-- No identifier twice in a table, those of a live thread below its counter and in its own table, those
-- of a thread that is gone among the orphans; the registry lists the live threads.
pub record IsWf (w : World) : Type 0 where
  pub distinct : (t : ℕ) → Distinct (w.tcbs t).roots.strong
  pub orphans_distinct : Distinct w.orphans
  pub at_home : (t id : ℕ) → (w.tcbs t).alive ≡ true → lookup (t, id) w.orphans ≡ none
  pub emptied : (t : ℕ) → (w.tcbs t).alive ≡ false → (w.tcbs t).roots.strong ≡ []
  pub below :
      (t id p : ℕ) → lookup id (w.tcbs t).roots.strong ≡ some p → id < (w.tcbs t).roots.next_id
  pub registered : (t : ℕ) → mem t w.threads ≡ (w.tcbs t).alive

thread_roots-of_mem :
    (w : World) (t p : ℕ) (ts : List ℕ)
    → mem t ts ≡ true
    → mem p (values (w.tcbs t).roots.strong) ≡ true
    → mem p (thread_roots w ts) ≡ true
unfolding thread_roots
thread_roots-of_mem w t p [] m h = absurd (ground arith)
thread_roots-of_mem w t p (u ∷ ts) m h = elim (Bool-cases (u == t)) [
  | inl at ↦
      let q : u ≡ t = ground (arith, at) in
      mem-++ p (values (w.tcbs u).roots.strong) (thread_roots w ts) ∙ rw q (ground (arith, h))
  | inr off ↦ ground (
    arith,
    off,
    mem-++ p (values (w.tcbs u).roots.strong) (thread_roots w ts),
    thread_roots-of_mem w t p ts (ground (arith, off)) h,
  )
]

mem-of_thread_roots :
    (w : World) (p : ℕ) (ts : List ℕ)
    → mem p (thread_roots w ts) ≡ true
    → (t : ℕ) × (mem t ts ≡ true) × (mem p (values (w.tcbs t).roots.strong) ≡ true)
unfolding thread_roots
mem-of_thread_roots w p [] h = absurd (ground arith)
mem-of_thread_roots w p (u ∷ ts) h = elim (Bool-cases (mem p (values (w.tcbs u).roots.strong))) [
  | inl here ↦ (u, ground arith, here)
  | inr n ↦
      let (t, m, found) =
        mem-of_thread_roots w p ts
          (ground (arith, n, mem-++ p (values (w.tcbs u).roots.strong) (thread_roots w ts))) in
      (t, ground (arith, m), found)
]

-- In a well-formed state, a box is among the roots that a collection gathers exactly if the entry of
-- some handle keeps it.
pub cross_thread_roots_exact :
    (w : World) (p : ℕ)
    → IsWf w
    → (mem p (cross_thread_roots w) ≡ true) ↔ ((t id : ℕ) × (root_of w t id ≡ some p))
unfolding cross_thread_roots
cross_thread_roots_exact w p wf = (
  λ m. elim (Bool-cases (mem p (values w.orphans))) [
    | inl o ↦
        let ((t, id), found) = mem-lookup p w.orphans wf.orphans_distinct o in
        elim (Bool-cases (w.tcbs t).alive) [
          | inl a ↦ absurd (ground (arith, wf.at_home t id a, found))
          | inr d ↦ (t, id, rw d found)
        ]
    | inr n ↦
        let (t, listed, here) =
          mem-of_thread_roots w p w.threads
            (ground (arith, n, m, mem-++ p (thread_roots w w.threads) (values w.orphans))) in
        let (id, found) = mem-lookup p (w.tcbs t).roots.strong (wf.distinct t) here in
        (t, id, ground (arith, wf.registered t, listed, found))
  ],
  λ (t, id, found). elim (Bool-cases (w.tcbs t).alive) [
    | inl a ↦
        let strong : lookup id (w.tcbs t).roots.strong ≡ some p =
          ground (arith, wf.at_home t id a, a, found) in
        mem-++ p (thread_roots w w.threads) (values w.orphans)
        ∙ ground (
          arith,
          thread_roots-of_mem w t p w.threads (wf.registered t ∙ a) (lookup-mem id p _ strong),
        )
    | inr d ↦
        mem-++ p (thread_roots w w.threads) (values w.orphans)
        ∙ ground (arith, lookup-mem (t, id) p w.orphans (ground (arith, d, found)))
  ],
)

pub insert_all-Distinct :
    (t : ℕ) (d : List (ℕ × ℕ)) (o : List ((ℕ × ℕ) × ℕ)) → Distinct o → Distinct (insert_all t d o)
insert_all-Distinct t [] o h = h
insert_all-Distinct t (x ∷ d) o h =
    insert_all-Distinct t d (insert (t, x.0) x.1 o) (insert-Distinct (t, x.0) x.1 o h)

-- What the drained table holds is found, and nothing else of the orphans changes.
pub lookup-insert_all :
    (t u id : ℕ) (d : List (ℕ × ℕ)) (o : List ((ℕ × ℕ) × ℕ))
    → Distinct d
    → lookup (u, id) (insert_all t d o)
      ≡ (if t == u then or_else (lookup id d) (lookup (u, id) o) else lookup (u, id) o)
lookup-insert_all t u id [] o h = ground arith
lookup-insert_all t u id (x ∷ d) o h =
    lookup-insert_all t u id d (insert (t, x.0) x.1 o) h.1 ∙ elim (Bool-cases (x.0 == id)) [
      | inl at ↦
          let q : x.0 ≡ id = ground (arith, at) in
          ground
            (arith, lookup-insert (u, id) (t, x.0) x.1 o, ap (λ (j : ℕ). lookup j d) q, h.0, at)
      | inr off ↦ ground (arith, lookup-insert (u, id) (t, x.0) x.1 o, off)
    ]
