-- ===== src/CrossThread/Keep.antt =====
-- Each operation on the tables keeps them well-formed, and changes the map of the roots as it is meant
-- to.
use rudo.Prelude.{
  ℕ, ◌+◌, ◌%◌, ◌^◌, ◌<◌, ◌≡◌, ◌∙◌, true, Option, none, some, ◌==◌, if◌then◌else◌, Bool-cases,
  Option-cases, inl, inr, arith, ◌&&◌,
}
use rudo.Prelude.Maps.{nat_key, pair_key, lookup, insert, lookup-insert, insert-Distinct}
use rudo.Mark.{Space}
use rudo.CrossThread.{World, put_roots, allocate_id}
use rudo.CrossThread.Handle.{insert_root}
use rudo.CrossThread.Roots.{IsWf, root_of}

-- The roots as one map, and its two changes.
abbrev pub with_root : (ℕ → ℕ → Option ℕ) → ℕ → ℕ → ℕ → ℕ → ℕ → Option ℕ
with_root held t id p u j = if (t == u) && (id == j) then some p else held u j

abbrev pub without_root : (ℕ → ℕ → Option ℕ) → ℕ → ℕ → ℕ → ℕ → Option ℕ
without_root held t id u j = if (t == u) && (id == j) then none else held u j

-- The tables are well-formed and hold what the map says.
abbrev pub Refines : World → (ℕ → ℕ → Option ℕ) → Type 0
Refines w held = IsWf w × ((t id : ℕ) → root_of w t id ≡ held t id)

-- The heap is not looked at.
pub heap-Refines :
    (w : World) (s : Space) (held : ℕ → ℕ → Option ℕ)
    → Refines w held
    → Refines (record w { heap = s }) held
heap-Refines w s held (wf, same) = (
  record {
    distinct = wf.distinct;
    orphans_distinct = wf.orphans_distinct;
    at_home = wf.at_home;
    emptied = wf.emptied;
    below = wf.below;
    registered = wf.registered;
  },
  same,
)

-- A new entry with a fresh identifier.
abbrev pub granted : World → ℕ → ℕ → World
granted w t p =
    insert_root (put_roots w t (allocate_id (w.tcbs t).roots).1) t (w.tcbs t).roots.next_id p

fresh_id :
    (w : World) (t : ℕ) → IsWf w → lookup (w.tcbs t).roots.next_id (w.tcbs t).roots.strong ≡ none
fresh_id w t wf = elim (Option-cases (lookup (w.tcbs t).roots.next_id (w.tcbs t).roots.strong)) [
  | inl n ↦ n
  | inr (p, e) ↦ absurd (omega (arith, wf.below t (w.tcbs t).roots.next_id p e))
]

granted_tcb :
    (w : World) (t p u : ℕ)
    → (granted w t p).tcbs u ≡ (
        if u == t
        then record {
          alive = (w.tcbs t).alive;
          roots = record {
            next_id = ((w.tcbs t).roots.next_id + 1) % 2 ^ 64;
            strong = insert (w.tcbs t).roots.next_id p (w.tcbs t).roots.strong;
          };
        }
        else w.tcbs u)
unfolding allocate_id
granted_tcb w t p u = ground arith

granted-IsWf :
    (w : World) (t p : ℕ)
    → (w.tcbs t).alive ≡ true
    → (w.tcbs t).roots.next_id + 1 < 2 ^ 64
    → IsWf w
    → IsWf (granted w t p)
unfolding allocate_id
granted-IsWf w t p a room wf = record {
  distinct = λ u. rw (granted_tcb w t p u) elim (Bool-cases (u == t)) [
    | inl at ↦
        rw at (insert-Distinct (w.tcbs t).roots.next_id p (w.tcbs t).roots.strong (wf.distinct t))
    | inr off ↦ rw off (wf.distinct u)
  ];
  orphans_distinct = wf.orphans_distinct;
  at_home = λ u id h. wf.at_home u id (ground (arith, a));
  emptied = λ u h. elim (Bool-cases (u == t)) [
    | inl at ↦ absurd (ground (arith, at, a))
    | inr off ↦ rw off (wf.emptied u (ground (arith, off)))
  ];
  below = λ u id q h. elim (Bool-cases (u == t)) [
    | inl at ↦ ground (
      arith,
      at,
      room,
      wf.below t id q,
      lookup-insert id (w.tcbs t).roots.next_id p (w.tcbs t).roots.strong,
    )
    | inr off ↦ ground (arith, off, wf.below u id q)
  ];
  registered = λ u. wf.registered u ∙ ground (arith, a);
}

granted_root :
    (w : World) (t p u j : ℕ)
    → (w.tcbs t).alive ≡ true
    → root_of (granted w t p) u j ≡ with_root (root_of w) t (w.tcbs t).roots.next_id p u j
unfolding allocate_id
granted_root w t p u j a = elim (Bool-cases (u == t)) [
  | inl at ↦
      let q : u ≡ t = ground (arith, at) in
      rw q (ground (arith, a, lookup-insert j (w.tcbs t).roots.next_id p (w.tcbs t).roots.strong))
  | inr off ↦ ground (arith, off)
]

pub granted-Refines :
    (w : World) (t p : ℕ) (held : ℕ → ℕ → Option ℕ)
    → (w.tcbs t).alive ≡ true
    → (w.tcbs t).roots.next_id + 1 < 2 ^ 64
    → Refines w held
    → Refines (granted w t p) (with_root held t (w.tcbs t).roots.next_id p)
granted-Refines w t p held a room (wf, all) =
    (granted-IsWf w t p a room wf, λ u j. granted_root w t p u j a ∙ ground (arith, all u j))
