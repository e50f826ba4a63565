-- ===== src/Sweep/Survival.antt =====
-- What the first phase of an eager sweep does to the headers of a page, to marked objects and to
-- garbage.
use rudo.Prelude.{
  ℕ, zero, suc, ◌+◌, ◌≤◌, ◌<◌, ◌≡◌, ◌⊎◌, Bool, refl, sym, subst, ap, ◌∙◌, true, false, not, ◌&&◌,
  ◌||◌, some, ltb, leb, ◌==◌, if◌then◌else◌, arith, Bool-cases, inl, inr,
}
use rudo.Bitmap.Laws.{
  has, without_bit, test-has, fetch_and_not_lem, has-without_bit, without_bit-IsBitmap,
}
use rudo.Page.{PageHeader}
use rudo.Page.Marks.{IsWf, max_index}
use rudo.GcBox.{GcBox, weak_count_and_dead_flag, set_dead, call_drop_fn, drops_value}
use rudo.GcBox.Dead.{call_drop_fn_lem, set_dead_lem}
use rudo.Sweep.{Page, Glue, put_box, put_header, drop_slot, dropped_boxes, drop_value}
use rudo.Sweep.Lazy.{if-IsWf}
use rudo.Sweep.Eager.{finalize_slot, finalize_from}

-- What the first phase makes of the header for the slots from `i` up to `i + left`.
pub record Finalized (p : Page) (i left : ℕ) (p' : Page) : Type 0 where
  pub wf : IsWf p'.header
  pub allocated : p'.header.allocated_bitmap ≡ p.header.allocated_bitmap
  pub count : p'.header.obj_count ≡ p.header.obj_count
  pub frame : record p'.header { mark_bitmap = p.header.mark_bitmap } ≡ p.header
  pub marks :
      (j : ℕ)
      → has p'.header.mark_bitmap j
        ≡ (not (leb i j && ltb j (i + left)) && has p.header.mark_bitmap j)

-- No value dropped from another slot takes `P` from the box of slot `j`.
abbrev pub Preserves : Glue → ℕ → (GcBox → Type 0) → Type 0
Preserves glue j P = (i : ℕ) (b : ℕ → GcBox) → (i == j) ≡ false → P (b j) → P (glue i b j)

abbrev pub IsAlone : GcBox → Type 0
IsAlone b = (weak_count_and_dead_flag b).0 ≡ 0

abbrev pub IsExpired : GcBox → Type 0
IsExpired b = weak_count_and_dead_flag b ≡ (0, true)

-- No dropped value gives the box of slot `j` a weak reference, or brings its value back.
abbrev pub GivesNone : Glue → ℕ → Type 0
GivesNone glue j =
    (i : ℕ) (b : ℕ → GcBox)
    → (IsAlone (b j) → IsAlone (glue i b j)) × (IsExpired (b j) → IsExpired (glue i b j))

module _ (glue : Glue) where
  abbrev pub finalized : Page → ℕ → Page
  finalized p i =
      if has p.header.mark_bitmap i
      then put_header p (record p.header { mark_bitmap = without_bit p.header.mark_bitmap i })
      else if has p.header.allocated_bitmap i
      then (if ltb 0 (weak_count_and_dead_flag (p.boxes i)).0
          then drop_value glue p i
          else put_box (drop_slot glue p i) i (set_dead ((drop_slot glue p i).boxes i)))
      else p

  unfoldable pub finalized_from : Page → ℕ → ℕ → Page
  finalized_from p i zero = p
  finalized_from p i (suc left) = finalized_from (finalized p i) (i + 1) left

  module _ (p : Page) (w : IsWf p.header) (i : ℕ) (in_page : i < max_index) where
    finalize_slot_lem : finalize_slot glue p i ≡ some (finalized p i)
    unfolding finalize_slot
    finalize_slot_lem = ground (
      arith,
      test-has p.header.allocated_bitmap w.allocated i in_page,
      test-has p.header.mark_bitmap w.marks i in_page,
      fetch_and_not_lem p.header.mark_bitmap w.marks i in_page,
    )

    finalized_header : (finalized p i).header ≡ (
        if has p.header.mark_bitmap i
        then record p.header { mark_bitmap = without_bit p.header.mark_bitmap i }
        else p.header)
    finalized_header = ground arith

    finalized-IsWf : IsWf (finalized p i).header
    finalized-IsWf = subst IsWf (sym finalized_header) (
        if-IsWf (has p.header.mark_bitmap i) _ _
          (record {
            marks = without_bit-IsBitmap p.header.mark_bitmap w.marks i in_page;
            dirty = w.dirty;
            allocated = w.allocated;
          })
          w)

    marks_one :
        (j : ℕ)
        → has (finalized p i).header.mark_bitmap j ≡ (not (i == j) && has p.header.mark_bitmap j)
    marks_one j = ground (arith, has-without_bit p.header.mark_bitmap w.marks i in_page j)

    frame_one : record (finalized p i).header { mark_bitmap = p.header.mark_bitmap } ≡ p.header
    frame_one = elim (Bool-cases (has p.header.mark_bitmap i)) [
      | inl m ↦ rw finalized_header (rw m refl)
      | inr m ↦ rw finalized_header (rw m refl)
    ]

  same_one :
      (p : Page) (i : ℕ)
      → ((finalized p i).header.allocated_bitmap ≡ p.header.allocated_bitmap)
        × ((finalized p i).header.obj_count ≡ p.header.obj_count)
  same_one p i = (ground arith, ground arith)

  pub finalize_from_lem :
      (left : ℕ) (p : Page) (i : ℕ)
      → IsWf p.header
      → i + left ≤ max_index
      → (finalize_from glue p i left ≡ some (finalized_from p i left))
        × Finalized p i left (finalized_from p i left)
  unfolding finalize_from finalized_from
  finalize_from_lem zero p i w le = (
    refl,
    record { wf = w; allocated = refl; count = refl; frame = refl; marks = λ j. ground arith },
  )
  finalize_from_lem (suc left) p i w le =
      let q : Page = finalized p i in
      let (run, f) =
        finalize_from_lem left q (i + 1) (finalized-IsWf p w i (omega arith)) (omega arith) in
      let same = same_one p i in
      let marks_q = marks_one p w i (omega arith) in
      (
        rw (finalize_slot_lem p w i (omega arith)) run,
        record {
          wf = f.wf;
          allocated = f.allocated ∙ same.0;
          count = f.count ∙ same.1;
          frame =
              ap (λ (h : PageHeader). record h { mark_bitmap = p.header.mark_bitmap }) f.frame
              ∙ frame_one p w i (omega arith);
          marks = λ j. ground (arith, f.marks j, marks_q j);
        },
      )

  called : Page → ℕ → ℕ → GcBox
  called p i = (put_box p i (call_drop_fn (p.boxes i))).boxes

  dropped_boxes-called :
      (p : Page) (i : ℕ)
      → dropped_boxes glue p i
        ≡ (if drops_value (p.boxes i) then glue i (called p i) else called p i)
  unfolding dropped_boxes called
  dropped_boxes-called p i = refl

  called-away : (p : Page) (i j : ℕ) → (i == j) ≡ false → called p i j ≡ p.boxes j
  unfolding called
  called-away p i j away = ground (arith, away)

  called-here : (p : Page) (i : ℕ) → called p i i ≡ call_drop_fn (p.boxes i)
  unfolding called
  called-here p i = ground arith

  either_boxes :
      (Q : (ℕ → GcBox) → Type 0) (c : Bool) {f g : ℕ → GcBox} → Q f → Q g → Q (if c then f else g)
  either_boxes Q true hf hg = hf
  either_boxes Q false hf hg = hg

  dropped_away :
      (P : GcBox → Type 0) (p : Page) (i j : ℕ)
      → Preserves glue j P
      → (i == j) ≡ false
      → P (p.boxes j)
      → P (dropped_boxes glue p i j)
  dropped_away P p i j leaves away h =
      let before : P (called p i j) = subst P (sym (called-away p i j away)) h in
      subst (λ (f : ℕ → GcBox). P (f j)) (sym (dropped_boxes-called p i))
        (either_boxes (λ f. P (f j)) (drops_value (p.boxes i)) (leaves i (called p i) away before)
          before)

  -- A slot of which the box is not that of the round.
  kept_away :
      (P : GcBox → Type 0) (p : Page) (i j : ℕ)
      → Preserves glue j P
      → (i == j) ≡ false
      → P (p.boxes j)
      → P ((finalized p i).boxes j)
  kept_away P p i j leaves away h =
      let dropped = dropped_away P p i j leaves away h in
      let same : ((finalized p i).boxes j ≡ p.boxes j)
          ⊎ ((finalized p i).boxes j ≡ dropped_boxes glue p i j) =
        elim (Bool-cases (has p.header.mark_bitmap i)) [
          | inl m ↦ inl (ground (arith, m, away))
          | inr m ↦ elim (Bool-cases (has p.header.allocated_bitmap i)) [
            | inl a ↦ elim (Bool-cases (ltb 0 (weak_count_and_dead_flag (p.boxes i)).0)) [
              | inl k ↦ elim (Bool-cases (weak_count_and_dead_flag (p.boxes i)).1) [
                | inl d ↦ inl (ground (arith, m, a, k, d, away))
                | inr d ↦ inr (ground (arith, m, a, k, d, away))
              ]
              | inr k ↦ inr (ground (arith, m, a, k, away))
            ]
            | inr a ↦ inl (ground (arith, m, a, away))
          ]
        ] in
      elim same [ inl e ↦ subst P (sym e) h | inr e ↦ subst P (sym e) dropped ]

  dropped_here :
      (p : Page) (i : ℕ)
      → GivesNone glue i
      → IsAlone (p.boxes i)
      → IsAlone (dropped_boxes glue p i i)
  dropped_here p i none_given alone =
      let before : IsAlone (called p i i) =
        ap (λ (b : GcBox). (weak_count_and_dead_flag b).0) (called-here p i)
        ∙ call_drop_fn_lem (p.boxes i)
        ∙ alone in
      subst (λ (f : ℕ → GcBox). IsAlone (f i)) (sym (dropped_boxes-called p i))
        (either_boxes (λ f. IsAlone (f i)) (drops_value (p.boxes i))
          ((none_given i (called p i)).0 before) before)

  -- The round of a garbage slot.
  finalized-IsExpired :
      (p : Page) (i : ℕ)
      → GivesNone glue i
      → has p.header.mark_bitmap i ≡ false
      → has p.header.allocated_bitmap i ≡ true
      → IsAlone (p.boxes i)
      → IsExpired ((finalized p i).boxes i)
  finalized-IsExpired p i none_given m a alone =
      let box : (finalized p i).boxes i ≡ set_dead (dropped_boxes glue p i i) =
        ground (arith, m, a, alone) in
      ap weak_count_and_dead_flag box
      ∙ set_dead_lem (dropped_boxes glue p i i)
      ∙ ap (λ (n : ℕ). (n, true)) (dropped_here p i none_given alone)

  pub kept_from :
      (P : GcBox → Type 0) (j : ℕ)
      → Preserves glue j P
      → (left : ℕ) (p : Page) (i : ℕ) → IsWf p.header
      → i + left ≤ max_index
      → (not (leb i j && ltb j (i + left)) || has p.header.mark_bitmap j) ≡ true
      → P (p.boxes j)
      → P ((finalized_from p i left).boxes j)
  unfolding finalized_from
  kept_from P j leaves zero p i w le h x = x
  kept_from P j leaves (suc left) p i w le h x =
      let marks_q = marks_one p w i (omega arith) j in
      kept_from P j leaves left (finalized p i) (i + 1) (finalized-IsWf p w i (omega arith))
        (omega arith) (ground (arith, marks_q, h))
        (elim (Bool-cases (i == j)) [
          | inl here ↦
              let same : (finalized p i).boxes j ≡ p.boxes j = ground (arith, here, h) in
              subst P (sym same) x
          | inr away ↦ kept_away P p i j leaves away x
        ])

  pub dropped_from :
      (j : ℕ)
      → GivesNone glue j
      → (left : ℕ) (p : Page) (i : ℕ) → IsWf p.header
      → i + left ≤ max_index
      → i ≤ j
      → j < i + left
      → has p.header.mark_bitmap j ≡ false
      → has p.header.allocated_bitmap j ≡ true
      → IsAlone (p.boxes j)
      → IsExpired ((finalized_from p i left).boxes j)
  unfolding finalized_from
  dropped_from j none_given zero p i w le l u m a x = absurd (omega (arith, l, u))
  dropped_from j none_given (suc left) p i w le l u m a x =
      let w' = finalized-IsWf p w i (omega arith) in
      elim (Bool-cases (i == j)) [
        | inl here ↦
            let at : j ≡ i = ground (arith, here) in
            kept_from IsExpired j (λ k b away. (none_given k b).1) left (finalized p i) (i + 1) w'
              (omega arith) (ground (arith, at))
              (subst (λ k. IsExpired ((finalized p i).boxes k)) (sym at)
                (finalized-IsExpired p i (subst (GivesNone glue) at none_given)
                  (subst (λ k. has p.header.mark_bitmap k ≡ false) at m)
                  (subst (λ k. has p.header.allocated_bitmap k ≡ true) at a)
                  (subst (λ k. IsAlone (p.boxes k)) at x)))
        | inr away ↦
            let marks_q = marks_one p w i (omega arith) j in
            let same = same_one p i in
            dropped_from j none_given left (finalized p i) (i + 1) w' (omega arith)
              (ground (arith, l, away)) (omega (arith, u)) (ground (arith, marks_q, m))
              (ground (arith, same.0, a))
              (kept_away IsAlone p i j (λ k b apart. (none_given k b).0) away x)
      ]
