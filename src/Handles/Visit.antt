-- ===== src/Handles/Visit.antt =====
-- Which slots `iterate` reads.
use rudo.Prelude.{
  mem-++, ℕ, zero, suc, ◌+◌, ◌≤◌, ◌<◌, ◌≡◌, ◌≢◌, refl, sym, subst, true, some, List, [], ◌∷◌, ◌++◌,
  inl, inr, mem, ◌==◌, arith, Bool-cases,
}
use rudo.Handles.{LocalHandles, handle_block_size, visited_slots, visit_slots, iterate_from}

mem-visit_slots :
    (slots : ℕ → ℕ) (left p s : ℕ)
    → p ≤ s
    → s < p + left
    → slots s ≢ 0
    → mem (slots s) (visit_slots slots p left) ≡ true
unfolding visit_slots
mem-visit_slots slots zero p s l u ne = absurd (omega arith)
mem-visit_slots slots (suc left) p s l u ne = elim (Bool-cases (p == s)) [
  | inl here ↦
      let e : p ≡ s = ground (arith, here) in
      let full : slots p ≢ 0 = subst (λ (k : ℕ). slots k ≢ 0) (sym e) ne in
      subst (λ (k : ℕ). mem (slots k) (visit_slots slots p (suc left)) ≡ true) e
        (ground (arith, full))
  | inr away ↦
      ground (arith, mem-visit_slots slots left (p + 1) s (ground (arith, away)) (omega arith) ne)
]

pub iterate_from_lem :
    (h : LocalHandles) (blocks : List ℕ)
    → ((b : ℕ) → mem b blocks ≡ true → visited_slots h b ≤ handle_block_size)
    → (seen : List ℕ) × (iterate_from h blocks ≡ some seen)
      × ((b s : ℕ)
          → mem b blocks ≡ true
          → b ≤ s
          → s < b + visited_slots h b
          → h.slots s ≢ 0
          → mem (h.slots s) seen ≡ true)
unfolding iterate_from
iterate_from_lem h [] fits = ([], refl, λ b s m l u ne. absurd (ground (arith, m)))
iterate_from_lem h (block ∷ rest) fits =
    let (seen, run, all) = iterate_from_lem h rest (λ b m. fits b (ground (arith, m))) in
    (
      visit_slots h.slots block (visited_slots h block) ++ seen,
      ground (arith, run, fits block (ground arith)),
      λ b s m l u ne. elim (Bool-cases (block == b)) [
        | inl here ↦
            let e : block ≡ b = ground (arith, here) in
            let near : s < block + visited_slots h block =
              subst (λ (k : ℕ). s < k + visited_slots h k) (sym e) u in
            ground (
              arith,
              mem-++ (h.slots s) (visit_slots h.slots block (visited_slots h block)) seen,
              mem-visit_slots h.slots (visited_slots h block) block s (omega (arith, e, l)) near ne,
            )
        | inr away ↦ ground (
          arith,
          mem-++ (h.slots s) (visit_slots h.slots block (visited_slots h block)) seen,
          all b s (ground (arith, away, m)) l u ne,
        )
      ],
    )
