-- ===== src/Cell/Black.antt =====
-- What marking the captured objects black does to the marks.
use rudo.Prelude.{
  ℕ, ◌≡◌, refl, subst, ap, ◌∙◌, Bool, true, not, ◌&&◌, Option, none, some, List, [], ◌∷◌, mem, ◌==◌,
  if◌then◌else◌, arith, Bool-cases, Option-cases, inl, inr,
}
use rudo.Bitmap.Laws.{has, with_bit}
use rudo.Page.{PageHeader, is_allocated}
use rudo.Page.Marks.{try_mark_quiet}
use rudo.GcBox.{is_under_construction}
use rudo.Address.{ptr_to_page_header}
use rudo.Mark.{Space, header_of, index_of}
use rudo.Mark.Step.{
  IsWfSpace, seen_at, live_at, Grows, Grows-refl, Grows-trans, with_mark, with_mark-IsWfSpace,
  with_mark-Grows, seen_some,
}
use rudo.Mark.Visit.{slot_steps, in_page}
use rudo.Cell.{mark_object_black, mark_all_black}

-- The objects that are marked: allocated, and not under construction.
abbrev pub is_markable : Space → ℕ → Bool
is_markable s p = live_at s p && not (is_under_construction (s.boxes p))

abbrev black : Space → ℕ → Option ℕ × Space
black s p = elim (index_of s p) [
  | none ↦ (none, s)
  | some i ↦
      if not (is_markable s p)
      then (none, s)
      else if seen_at s p
      then (some i, s)
      else (some i, with_mark s p i)
]

same_allocated :
    (h : PageHeader) (b : List ℕ) (i : ℕ)
    → is_allocated (record h { mark_bitmap = b }) i ≡ is_allocated h i
unfolding is_allocated
same_allocated h b i = refl

mark_object_black_lem :
    (s : Space) (w : IsWfSpace s) (p : ℕ) → mark_object_black s p ≡ some (black s p)
unfolding mark_object_black
mark_object_black_lem s w p = elim (Option-cases (index_of s p)) [
  | inl e ↦ ground (arith, e)
  | inr (i, at) ↦
      let header = header_of s p in
      let (live, seen, set) = slot_steps s w p i at in
      let tried =
        try_mark_quiet header (w.wf (ptr_to_page_header s.layout p)) i (in_page s w p i at) in
      let still : is_allocated (record header { mark_bitmap = with_bit header.mark_bitmap i }) i
          ≡ some (has header.allocated_bitmap i) =
        same_allocated header (with_bit header.mark_bitmap i) i ∙ live in
      ground (arith, at, live, tried, still)
]

-- From `s` to `t` these objects have been marked, as far as they can be.
pub record Blackens (s t : Space) (ptrs : List ℕ) : Type 0 where
  pub wf : IsWfSpace t
  pub grows : Grows s t
  pub all : (p : ℕ) → mem p ptrs ≡ true → is_markable s p ≡ true → seen_at t p ≡ true

seen_self :
    (s : Space) (w : IsWfSpace s) (p i : ℕ) (at : index_of s p ≡ some i)
    → seen_at (with_mark s p i) p ≡ true
seen_self s w p i at = seen_some s w p i at p i at ∙ ground arith

black_one :
    (s : Space) (w : IsWfSpace s) (p : ℕ)
    → (r : Option ℕ) × (t : Space) × (mark_object_black s p ≡ some (r, t))
      × IsWfSpace t
      × Grows s t
      × (is_markable s p ≡ true → seen_at t p ≡ true)
black_one s w p =
    let run = mark_object_black_lem s w p in
    elim (Option-cases (index_of s p)) [
      | inl e ↦
          (none, s, ground (arith, run, e), w, Grows-refl s, λ m. absurd (ground (arith, m, e)))
      | inr (i, at) ↦ elim (Bool-cases (is_markable s p)) [
        | inr n ↦ (
          none,
          s,
          ground (arith, run, at, n),
          w,
          Grows-refl s,
          λ m. absurd (ground (arith, m, n)),
        )
        | inl m ↦ elim (Bool-cases (seen_at s p)) [
          | inl seen ↦ (some i, s, ground (arith, run, at, m, seen), w, Grows-refl s, λ _. seen)
          | inr new ↦ (
            some i,
            with_mark s p i,
            ground (arith, run, at, m, new),
            with_mark-IsWfSpace s w p i at,
            with_mark-Grows s w p i at,
            λ _. seen_self s w p i at,
          )
        ]
      ]
    ]

Grows-is_markable : (s t : Space) (p : ℕ) → Grows s t → is_markable t p ≡ is_markable s p
Grows-is_markable s t p g =
    ap (λ b. live_at t p && not (is_under_construction (b p))) g.boxes
    ∙ ap (λ l. l && not (is_under_construction (s.boxes p))) (g.live p)

-- Marking returns, and marks every object that can be marked.
pub mark_all_black_lem :
    (s : Space) (w : IsWfSpace s) (ptrs : List ℕ)
    → (t : Space) × (mark_all_black s ptrs ≡ some t) × Blackens s t ptrs
unfolding mark_all_black
mark_all_black_lem s w [] =
    (s, refl, record { wf = w; grows = Grows-refl s; all = λ p m. absurd (ground arith) })
mark_all_black_lem s w (q ∷ ptrs) =
    let (r, u, run, wu, gu, here) = black_one s w q in
    let (t, rest, b) = mark_all_black_lem u wu ptrs in
    (
      t,
      rw run rest,
      record {
        wf = b.wf;
        grows = Grows-trans s u t gu b.grows;
        all = λ p m can. elim (Bool-cases (q == p)) [
          | inl at ↦
              let e : q ≡ p = ground (arith, at) in
              b.grows.more p
                (subst (λ (c : ℕ). is_markable s c ≡ true → seen_at u c ≡ true) e here can)
          | inr off ↦ b.all p (ground (arith, m, off)) (Grows-is_markable s u p gu ∙ can)
        ];
      },
    )
