-- ===== src/Buffers/Dirty.antt =====
-- The list of dirty pages and the flags of its pages.
use rudo.Prelude.{
  ℕ, ◌≡◌, refl, sym, subst, ap, ◌∙◌, Bool, true, false, not, ◌&&◌, ◌||◌, List, [], ◌∷◌, ◌++◌, mem,
  mem-++, ◌==◌, arith, Bool-cases, inl, inr,
}
use rudo.Buffers.{
  LocalHeap, put_listed, add_to_dirty_pages_slow, add_to_dirty_pages, add_all, scan_pages,
  scan_dirty_pages, flush_remembered_buffer, take_dirty_pages_snapshot, drain_dirty_pages_overflow,
  clear_dirty_pages_snapshot,
}

-- The pages that are listed are those of the list.
abbrev pub IsListed : LocalHeap → Type 0
IsListed h = (p : ℕ) → h.listed p ≡ mem p h.dirty_pages

abbrev pub Distinct : List ℕ → Type 0
Distinct [] = Unit
Distinct (p ∷ ps) = (mem p ps ≡ false) × Distinct ps

Distinct-snoc : (ps : List ℕ) (p : ℕ) → mem p ps ≡ false → Distinct ps → Distinct (ps ++ (p ∷ []))
Distinct-snoc [] p m d = (refl, tt)
Distinct-snoc (q ∷ qs) p m d =
    (ground (arith, mem-++ q qs (p ∷ []), d.0, m), Distinct-snoc qs p (ground (arith, m)) d.1)

-- What one call of a barrier leaves.
add_lem :
    (h : LocalHeap) (page : ℕ)
    → IsListed h
    → Distinct h.dirty_pages
    → IsListed (add_to_dirty_pages h page)
      × Distinct (add_to_dirty_pages h page).dirty_pages
      × ((p : ℕ)
          → mem p (add_to_dirty_pages h page).dirty_pages ≡ (mem p h.dirty_pages || (page == p)))
unfolding add_to_dirty_pages add_to_dirty_pages_slow
add_lem h page l d = elim (Bool-cases (h.listed page)) [
  | inl yes_listed ↦ rw yes_listed (
    l,
    d,
    λ p. elim (Bool-cases (page == p)) [
      | inl same ↦
          let e : page ≡ p = ground (arith, same) in
          let m : mem p h.dirty_pages ≡ true =
            sym (l p) ∙ subst (λ (k : ℕ). h.listed k ≡ true) e yes_listed in
          ground (arith, m)
      | inr other ↦ ground (arith, other)
    ],
  )
  | inr fresh ↦ rw fresh (
    (λ p. elim (Bool-cases (p == page)) [
      | inl same ↦ rw same (ground (arith, mem-++ p h.dirty_pages (page ∷ []), same))
      | inr other ↦ rw other (ground (arith, mem-++ p h.dirty_pages (page ∷ []), other, l p))
    ]),
    Distinct-snoc h.dirty_pages page (sym (l page) ∙ fresh) d,
    λ p. ground (arith, mem-++ p h.dirty_pages (page ∷ [])),
  )
]

add_all_lem :
    (h : LocalHeap) (pages : List ℕ)
    → IsListed h
    → Distinct h.dirty_pages
    → IsListed (add_all h pages)
      × Distinct (add_all h pages).dirty_pages
      × ((p : ℕ) → mem p (add_all h pages).dirty_pages ≡ (mem p h.dirty_pages || mem p pages))
unfolding add_all
add_all_lem h [] l d = (l, d, λ p. ground arith)
add_all_lem h (page ∷ pages) l d =
    let (l1, d1, m1) = add_lem h page l d in
    let (l2, d2, m2) = add_all_lem (add_to_dirty_pages h page) pages l1 d1 in
    (l2, d2, λ p. ground (arith, m1 p, m2 p))

scan_pages_lem :
    (h : LocalHeap) (pages : List ℕ)
    → ((scan_pages h pages).dirty_pages ≡ h.dirty_pages)
      × ((p : ℕ) → (scan_pages h pages).listed p ≡ (not (mem p pages) && h.listed p))
unfolding scan_pages
scan_pages_lem h [] = (refl, λ p. ground arith)
scan_pages_lem h (page ∷ pages) =
    let (d, l) = scan_pages_lem (put_listed h page false) pages in (d, λ p. ground (arith, l p))

-- If the flags of the pages agree with the list of dirty pages, then a minor collection scans exactly the
-- pages that were on the list, those that the barriers added before it and those that they add while
-- the snapshot is scanned; afterwards the list is empty, and no page has its flag.
pub dirty_pages_scanned :
    (h : LocalHeap) (before added : List ℕ)
    → IsListed h
    → Distinct h.dirty_pages
    → (pages : List ℕ) × (h' : LocalHeap) × (scan_dirty_pages (add_all h before) added
        ≡ (pages, h'))
      × ((p : ℕ) → mem p pages ≡ (mem p h.dirty_pages || mem p before || mem p added))
      × (h'.dirty_pages ≡ [])
      × (h'.dirty_pages_snapshot ≡ [])
      × ((p : ℕ) → h'.listed p ≡ false)
unfolding scan_dirty_pages take_dirty_pages_snapshot drain_dirty_pages_overflow
    clear_dirty_pages_snapshot
dirty_pages_scanned h before added l d =
    let h1 : LocalHeap = add_all h before in
    let (l1, d1, m1) = add_all_lem h before l d in
    let h2 : LocalHeap = record h1 { dirty_pages_snapshot = h1.dirty_pages; dirty_pages = [] } in
    let h3 : LocalHeap = scan_pages h2 h1.dirty_pages in
    let (e3, s3) = scan_pages_lem h2 h1.dirty_pages in
    let clean : (p : ℕ) → h3.listed p ≡ false = λ p. ground (arith, s3 p, l1 p) in
    let (l4, d4, m4) =
      add_all_lem h3 added (λ p. clean p ∙ sym (ap (mem p) e3)) (subst Distinct (sym e3) tt) in
    let h4 : LocalHeap = add_all h3 added in
    let h5 : LocalHeap = record h4 { dirty_pages = [] } in
    let (e6, s6) = scan_pages_lem h5 h4.dirty_pages in
    (
      h1.dirty_pages ++ h4.dirty_pages,
      clear_dirty_pages_snapshot (scan_pages h5 h4.dirty_pages),
      refl,
      (λ p. ground (arith, mem-++ p h1.dirty_pages h4.dirty_pages, m1 p, m4 p, ap (mem p) e3)),
      e6,
      refl,
      λ p. ground (arith, s6 p, l4 p),
    )

flush_lem :
    (hash_set : List ℕ → List ℕ) (h : LocalHeap) (page : ℕ)
    → mem page h.remembered_buffer ≡ true
    → ((flush_remembered_buffer hash_set h).dirty_pages
        ≡ hash_set (h.dirty_pages ++ h.remembered_buffer))
      × ((flush_remembered_buffer hash_set h).listed ≡ h.listed)
unfolding flush_remembered_buffer
flush_lem hash_set h page m = go h.remembered_buffer m
  where
    go :
        (buffer : List ℕ)
        → mem page buffer ≡ true
        → ((flush_remembered_buffer hash_set (record h { remembered_buffer = buffer })).dirty_pages
            ≡ hash_set (h.dirty_pages ++ buffer))
          × ((flush_remembered_buffer hash_set (record h { remembered_buffer = buffer })).listed
              ≡ h.listed)
    go [] m' = absurd (ground (arith, m'))
    go (p ∷ ps) m' = (refl, refl)

-- A page that is recorded in the remembered buffer, and whose flag is not set, is on the list of dirty
-- pages when the buffer has been flushed, and a barrier puts it on the list once more.
pub flushed_page_listed_twice :
    (hash_set : List ℕ → List ℕ)
    → ((xs : List ℕ) (p : ℕ) → mem p (hash_set xs) ≡ mem p xs)
    → (h : LocalHeap) (page : ℕ) → h.listed page ≡ false
    → mem page h.remembered_buffer ≡ true
    → (list : List ℕ) × ((flush_remembered_buffer hash_set h).dirty_pages ≡ list)
      × (mem page list ≡ true)
      × ((add_to_dirty_pages (flush_remembered_buffer hash_set h) page).dirty_pages
          ≡ list ++ (page ∷ []))
unfolding add_to_dirty_pages add_to_dirty_pages_slow
flushed_page_listed_twice hash_set same h page fresh m =
    let list : List ℕ = (flush_remembered_buffer hash_set h).dirty_pages in
    let (e, flag) = flush_lem hash_set h page m in
    (
      list,
      refl,
      ground (
        arith,
        ap (mem page) e,
        same (h.dirty_pages ++ h.remembered_buffer) page,
        mem-++ page h.dirty_pages h.remembered_buffer,
        m,
      ),
      rw (ap (λ (f : ℕ → Bool). f page) flag ∙ fresh) refl,
    )
