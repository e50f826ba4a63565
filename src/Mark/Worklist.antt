-- ===== src/Mark/Worklist.antt =====
-- The marking loop: it ends, and everything that a marked object leads to gets marked.
use rudo.Prelude.{
  mem, ℕ, ◌+◌, ◌≤◌, ◌<◌, ◌≡◌, refl, sym, ◌∙◌, ap, Bool, true, false, not, ◌&&◌, ◌||◌, some, List,
  [], ◌∷◌, ◌==◌, if◌then◌else◌, arith, Bool-cases, inl, inr, length,
}
use rudo.GcBox.{GcBox}
use rudo.Mark.{Space, GcVisitor, major, visit_all}
use rudo.Mark.Step.{IsWfSpace, seen_at, live_at, is_box, Grows, Grows-refl, Grows-trans}
use rudo.Mark.Visit.{IsClean, is_new, Visited, visit_lem}

-- The address is on the worklist.
abbrev pub queued : ℕ → List (ℕ × ℕ) → Bool
queued p [] = false
queued p ((q, g) ∷ rest) = (q == p) || queued p rest

-- Every pointer in the list that is live is marked.
abbrev pub all_seen : Space → List ℕ → Bool
all_seen s [] = true
all_seen s (c ∷ cs) = (not (live_at s c) || seen_at s c) && all_seen s cs

abbrev pub AllClean : Space → List ℕ → Type 0
AllClean s [] = Unit
AllClean s (c ∷ cs) = IsClean s c × AllClean s cs

-- How many boxes of the list are not marked.
abbrev pub unmarked : Space → List ℕ → ℕ
unmarked s [] = 0
unmarked s (p ∷ ps) = (if seen_at s p then 0 else 1) + unmarked s ps

-- `heap` lists the addresses of all boxes of `s`.
abbrev pub Covers : Space → List ℕ → Type 0
Covers s heap = (p : ℕ) → is_box s p ≡ true → mem p heap ≡ true

-- Every entry is a marked, live box with its generation.
abbrev pub Entries : Space → List (ℕ × ℕ) → Type 0
Entries s [] = Unit
Entries s ((p, g) ∷ rest) =
    (is_box s p ≡ true)
    × (live_at s p ≡ true)
    × (seen_at s p ≡ true)
    × (g ≡ (s.boxes p).generation)
    × Entries s rest

-- What a sequence of visits makes of a space and a visitor.
pub record Marked (s : Space) (v : GcVisitor) (heap : List ℕ) (t : Space) (v' : GcVisitor)
    : Type 0 where
  pub wf : IsWfSpace t
  pub grows : Grows s t
  pub kind : v'.kind ≡ major
  pub kept : (q : ℕ) → queued q v.worklist ≡ true → queued q v'.worklist ≡ true
  pub fresh :
      (q : ℕ)
      → is_box s q ≡ true
      → seen_at t q ≡ true
      → (seen_at s q || queued q v'.worklist) ≡ true
  pub entries : Entries s v.worklist → Entries t v'.worklist
  pub measure : unmarked t heap + length v'.worklist ≤ unmarked s heap + length v.worklist

unmarked_mono :
    (s t : Space) (heap : List ℕ)
    → ((q : ℕ) → seen_at s q ≡ true → seen_at t q ≡ true)
    → unmarked t heap ≤ unmarked s heap
unmarked_mono s t [] more = omega arith
unmarked_mono s t (p ∷ ps) more = ground (arith, more p, unmarked_mono s t ps more)

unmarked_falls :
    (s t : Space) (heap : List ℕ) (c : ℕ)
    → ((q : ℕ) → seen_at s q ≡ true → seen_at t q ≡ true)
    → mem c heap ≡ true
    → seen_at s c ≡ false
    → seen_at t c ≡ true
    → unmarked t heap < unmarked s heap
unmarked_falls s t [] c more m old now = cc
unmarked_falls s t (p ∷ ps) c more m old now =
    ground (arith, more p, unmarked_mono s t ps more, unmarked_falls s t ps c more)

Marked-refl :
    (s : Space) (v : GcVisitor) (heap : List ℕ) → IsWfSpace s → v.kind ≡ major → Marked s v heap s v
Marked-refl s v heap w kind = record {
  wf = w;
  grows = Grows-refl s;
  kind = kind;
  kept = λ q e. e;
  fresh = λ q b e. ground (arith, e);
  entries = λ e. e;
  measure = omega arith;
}

Marked-trans :
    (s t u : Space) (v v' v'' : GcVisitor) (heap : List ℕ)
    → Marked s v heap t v'
    → Marked t v' heap u v''
    → Marked s v heap u v''
Marked-trans s t u v v' v'' heap m n = record {
  wf = n.wf;
  grows = Grows-trans s t u m.grows n.grows;
  kind = n.kind;
  kept = λ q e. n.kept q (m.kept q e);
  fresh = λ q b e. ground (arith, n.fresh q, m.fresh q, n.kept q, m.grows.start q);
  entries = λ e. n.entries (m.entries e);
  measure = omega (arith, m.measure, n.measure);
}

Entries-Grows : (s t : Space) (wl : List (ℕ × ℕ)) → Grows s t → Entries s wl → Entries t wl
Entries-Grows s t [] g e = tt
Entries-Grows s t ((p, n) ∷ wl) g e = (
  g.start p ∙ e.0,
  g.live p ∙ e.1,
  g.more p e.2,
  e.3 ∙ ap (λ (b : ℕ → GcBox). (b p).generation) (sym g.boxes),
  Entries-Grows s t wl g e.4,
)

Visited-Marked :
    (s : Space) (v : GcVisitor) (c : ℕ) (t : Space) (v' : GcVisitor) (heap : List ℕ)
    → Covers s heap
    → IsClean s c
    → Visited s v c t v'
    → Marked s v heap t v'
Visited-Marked s v c t v' heap covers clean d = record {
  wf = d.wf;
  grows = d.grows;
  kind = d.kind;
  kept = λ q e. elim (Bool-cases (is_new s c)) [
    | inl new ↦ rw (d.queue, new) (ground (arith, e))
    | inr old ↦ rw (d.queue, old) e
  ];
  fresh = λ q b e. elim (Bool-cases (is_new s c)) [
    | inl new ↦ rw (d.queue, new) (ground (arith, d.seen q b, e, new))
    | inr old ↦ ground (arith, d.seen q b, e, old)
  ];
  entries = λ e. elim (Bool-cases (is_new s c)) [
    | inl new ↦
        rw (d.queue, new)
          (
            ground (arith, clean, new, d.grows.start c),
            ground (arith, new, d.grows.live c),
            ground (arith, clean, new, d.seen c),
            ap (λ (b : ℕ → GcBox). (b c).generation) (sym d.grows.boxes),
            Entries-Grows s t v.worklist d.grows e,
          )
    | inr old ↦ rw (d.queue, old) (Entries-Grows s t v.worklist d.grows e)
  ];
  measure = elim (Bool-cases (is_new s c)) [
    | inl new ↦
        rw (d.queue, new)
          (ground (arith, unmarked_falls s t heap c d.grows.more, covers c, clean, new, d.seen c))
    | inr old ↦ rw (d.queue, old) (ground (arith, unmarked_mono s t heap d.grows.more))
  ];
}

-- A visited pointer that is live is marked afterwards.
Visited-seen :
    (s : Space) (v : GcVisitor) (c : ℕ) (t : Space) (v' : GcVisitor)
    → IsClean s c
    → Visited s v c t v'
    → (not (live_at t c) || seen_at t c) ≡ true
Visited-seen s v c t v' clean d = ground (arith, d.seen c, clean, d.grows.live c)

IsClean-Grows : (s t : Space) (c : ℕ) → Grows s t → IsClean s c → IsClean t c
IsClean-Grows s t c g clean = ground (arith, g.live c, g.start c, clean)

pub AllClean-Grows : (s t : Space) (cs : List ℕ) → Grows s t → AllClean s cs → AllClean t cs
AllClean-Grows s t [] g clean = tt
AllClean-Grows s t (c ∷ cs) g clean =
    (IsClean-Grows s t c g clean.0, AllClean-Grows s t cs g clean.1)

pub Covers-Grows : (s t : Space) (heap : List ℕ) → Grows s t → Covers s heap → Covers t heap
Covers-Grows s t heap g covers p b = covers p (sym (g.start p) ∙ b)

pub all_seen-Grows :
    (s t : Space) (cs : List ℕ) → Grows s t → all_seen s cs ≡ true → all_seen t cs ≡ true
all_seen-Grows s t [] g e = refl
all_seen-Grows s t (c ∷ cs) g e = ground (arith, g.live c, g.more c, all_seen-Grows s t cs g)

pub visit_all_lem :
    (s : Space) (v : GcVisitor) (heap cs : List ℕ)
    → IsWfSpace s
    → v.kind ≡ major
    → Covers s heap
    → AllClean s cs
    → (t : Space) × (v' : GcVisitor) × (visit_all s v cs ≡ some (t, v'))
      × Marked s v heap t v'
      × (all_seen t cs ≡ true)
      × ((q : ℕ)
          → is_box s q ≡ true
          → seen_at t q ≡ true
          → (seen_at s q || (mem q cs && live_at s q)) ≡ true)
unfolding visit_all
visit_all_lem s v heap [] w kind covers clean =
    (s, v, refl, Marked-refl s v heap w kind, refl, λ q b e. ground (arith, e))
visit_all_lem s v heap (c ∷ cs) w kind covers clean =
    let (t, v', step, d) = visit_lem s w v c kind clean.0 in
    let (u, v'', rest, m, seen, only) =
      visit_all_lem t v' heap cs d.wf d.kind (Covers-Grows s t heap d.grows covers)
        (AllClean-Grows s t cs d.grows clean.1) in
    (
      u,
      v'',
      ground (arith, step, rest),
      Marked-trans s t u v v' v'' heap (Visited-Marked s v c t v' heap covers clean.0 d) m,
      ground (arith, seen, Visited-seen s v c t v' clean.0 d, m.grows.live c, m.grows.more c),
      λ q b e. ground (arith, only q, d.grows.start q, d.grows.live q, d.seen q),
    )
