-- ===== src/Mark/Step.antt =====
-- What marking one slot does to the marks of a heap.
use rudo.Prelude.{
  ap, subst, ℕ, ◌+◌, ◌*◌, ◌≤◌, ◌<◌, ◌≡◌, refl, ◌∙◌, Bool, true, false, not, ◌&&◌, ◌||◌, none, some,
  List, ◌==◌, arith, Bool-cases, Option-cases, inl, inr,
}
use rudo.Bitmap.Laws.{has, with_bit, with_bit-IsBitmap, has-with_bit}
use rudo.Page.{PageHeader}
use rudo.Page.Marks.{IsWf, max_index}
use rudo.Address.{Layout, ptr_to_page_header, ptr_to_object_index, header_size}
use rudo.Mark.{Space, header_of, put_header, index_of}

pub record IsWfSpace (s : Space) : Type 0 where
  pub wf : (page : ℕ) → IsWf (s.pages page)
  pub fits : (page : ℕ) → (s.pages page).obj_count ≤ max_index

-- The object that an address lies in is marked, is allocated; the address is where a box starts.
abbrev pub seen_at : Space → ℕ → Bool
seen_at s p = elim (index_of s p) [ none ↦ false | some i ↦ has (header_of s p).mark_bitmap i ]

abbrev pub live_at : Space → ℕ → Bool
live_at s p = elim (index_of s p) [ none ↦ false | some i ↦ has (header_of s p).allocated_bitmap i ]

abbrev pub is_box : Space → ℕ → Bool
is_box s p = elim (index_of s p) [
  | none ↦ false
  | some i ↦
      not (p == 0)
      && (p
          == ptr_to_page_header s.layout p
            + header_size s.layout (header_of s p).block_size
            + i * (header_of s p).block_size)
]

-- From `s` to `t` objects have been marked, and nothing else has changed.
pub record Grows (s t : Space) : Type 0 where
  pub live : (q : ℕ) → live_at t q ≡ live_at s q
  pub start : (q : ℕ) → is_box t q ≡ is_box s q
  pub boxes : t.boxes ≡ s.boxes
  pub more : (q : ℕ) → seen_at s q ≡ true → seen_at t q ≡ true
  pub layout : t.layout ≡ s.layout
  pub index : (q : ℕ) → index_of t q ≡ index_of s q
  pub frame :
      (page : ℕ) → record (t.pages page) { mark_bitmap = (s.pages page).mark_bitmap } ≡ s.pages page

pub Grows-refl : (s : Space) → Grows s s
Grows-refl s = record {
  live = λ q. refl;
  start = λ q. refl;
  boxes = refl;
  more = λ q h. h;
  layout = refl;
  index = λ q. refl;
  frame = λ page. refl;
}

pub Grows-trans : (s t u : Space) → Grows s t → Grows t u → Grows s u
Grows-trans s t u g h = record {
  live = λ q. h.live q ∙ g.live q;
  start = λ q. h.start q ∙ g.start q;
  boxes = h.boxes ∙ g.boxes;
  more = λ q e. h.more q (g.more q e);
  layout = h.layout ∙ g.layout;
  index = λ q. h.index q ∙ g.index q;
  frame = λ page.
      ap (λ (k : PageHeader). record k { mark_bitmap = (s.pages page).mark_bitmap }) (h.frame page)
      ∙ g.frame page;
}

pub index-lt-obj_count :
    (l : Layout) (h : PageHeader) (p i : ℕ) → ptr_to_object_index l h p ≡ some i → i < h.obj_count
unfolding ptr_to_object_index
index-lt-obj_count l h p i e = ground arith

index_same :
    (l : Layout) (h : PageHeader) (b : List ℕ) (q : ℕ)
    → ptr_to_object_index l (record h { mark_bitmap = b }) q ≡ ptr_to_object_index l h q
unfolding ptr_to_object_index
index_same l h b q = refl

-- The space after slot `i` of the page of `p` is marked.
abbrev pub with_mark : Space → ℕ → ℕ → Space
with_mark s p i =
    put_header s p (record (header_of s p) { mark_bitmap = with_bit (header_of s p).mark_bitmap i })

module _ (s : Space) (w : IsWfSpace s) (p i : ℕ) (at : index_of s p ≡ some i) where
  in_page : i < max_index
  in_page = omega (
    arith,
    index-lt-obj_count s.layout (header_of s p) p i at,
    w.fits (ptr_to_page_header s.layout p),
  )

  h' : PageHeader
  h' = record (header_of s p) { mark_bitmap = with_bit (header_of s p).mark_bitmap i }

  pub with_mark-IsWfSpace : IsWfSpace (with_mark s p i)
  with_mark-IsWfSpace = record {
    wf = λ page. elim (Bool-cases (ptr_to_page_header s.layout p == page)) [
      | inl e ↦ rw e (record {
        marks =
            with_bit-IsBitmap (header_of s p).mark_bitmap
              (w.wf (ptr_to_page_header s.layout p)).marks i in_page;
        dirty = (w.wf (ptr_to_page_header s.layout p)).dirty;
        allocated = (w.wf (ptr_to_page_header s.layout p)).allocated;
      })
      | inr e ↦ rw e (w.wf page)
    ];
    fits = λ page. ground (arith, w.fits page, w.fits (ptr_to_page_header s.layout p));
  }

  index_kept : (q : ℕ) → index_of (with_mark s p i) q ≡ index_of s q
  index_kept q =
      ground (arith, index_same s.layout (header_of s p) (with_bit (header_of s p).mark_bitmap i) q)

  pub seen_some :
      (q j : ℕ)
      → index_of s q ≡ some j
      → seen_at (with_mark s p i) q ≡ (
          ((ptr_to_page_header s.layout p == ptr_to_page_header s.layout q) && (i == j))
          || seen_at s q)
  seen_some q j e = ground (
    arith,
    index_kept q,
    has-with_bit (header_of s p).mark_bitmap (w.wf (ptr_to_page_header s.layout p)).marks i in_page
        j,
  )

  seen_none : (q : ℕ) → index_of s q ≡ none → seen_at (with_mark s p i) q ≡ seen_at s q
  seen_none q e = ground (arith, index_kept q)

  pub seen_box :
      (q : ℕ)
      → is_box s p ≡ true
      → is_box s q ≡ true
      → seen_at (with_mark s p i) q ≡ ((p == q) || seen_at s q)
  seen_box q bp bq = elim (Option-cases (index_of s q)) [
    | inl e ↦ ground (arith, e)
    | inr (j, e) ↦ ground (arith, seen_some q j e, e)
  ]

  pub with_mark-Grows : Grows s (with_mark s p i)
  with_mark-Grows = record {
    live = λ q. ground (arith, index_kept q);
    start = λ q. ground (arith, index_kept q);
    boxes = refl;
    more = λ q h. elim (Option-cases (index_of s q)) [
      | inl e ↦ ground (arith, seen_none q e)
      | inr (j, e) ↦ ground (arith, seen_some q j e)
    ];
    layout = refl;
    index = index_kept;
    frame = λ page. elim (Bool-cases (ptr_to_page_header s.layout p == page)) [
      | inl e ↦
          let here : ptr_to_page_header s.layout p ≡ page = ground (arith, e) in
          rw e (
            subst
              (λ (k : ℕ).
                record (header_of s p) { mark_bitmap = (s.pages k).mark_bitmap } ≡ s.pages k)
              here refl)
      | inr e ↦ rw e refl
    ];
  }
