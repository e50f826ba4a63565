-- ===== src/Sweep/Slots.antt =====
-- Lists of slots below a bound, and the linked lists that run through them.
use rudo.Prelude.{
  mem, ℕ, zero, suc, ◌+◌, ◌≤◌, ◌<◌, ◌≡◌, refl, Bool, true, ◌&&◌, ◌||◌, Option, none, some, List, [],
  ◌∷◌, ltb, ◌==◌, if◌then◌else◌, arith, Bool-cases, inl, inr,
}
use rudo.Page.Marks.{max_index}
use rudo.Page.Flags.{IsSlot}

-- From `head` on the links run through the slots of the list and end.
abbrev pub Chain : (ℕ → Option ℕ) → Option ℕ → List ℕ → Type 0
Chain links head [] = head ≡ none
Chain links head (x ∷ xs) = (head ≡ some x) × Chain links (links x) xs

abbrev pub AllFrom : ℕ → List ℕ → Type 0
AllFrom n [] = Unit
AllFrom n (x ∷ xs) = (n ≤ x) × AllFrom n xs

AllFrom-weaken : (n m : ℕ) (xs : List ℕ) → m ≤ n → AllFrom n xs → AllFrom m xs
AllFrom-weaken n m [] le h = tt
AllFrom-weaken n m (x ∷ xs) le h = (omega arith, AllFrom-weaken n m xs le h.1)

pub Chain-congr :
    (links links' : ℕ → Option ℕ) (n : ℕ) (head : Option ℕ) (xs : List ℕ)
    → ((j : ℕ) → n ≤ j → links' j ≡ links j)
    → AllFrom n xs
    → Chain links head xs
    → Chain links' head xs
Chain-congr links links' n head [] same above c = c
Chain-congr links links' n head (x ∷ xs) same above c =
    (c.0, rw (same x above.0) (Chain-congr links links' n (links x) xs same above.1 c.1))

-- The slots below `n` that pass a test, in order, and `xs` after them.
unfoldable pub slots_below : (ℕ → Bool) → ℕ → List ℕ → List ℕ
slots_below test zero xs = xs
slots_below test (suc i) xs = slots_below test i (if test i then i ∷ xs else xs)

pub slots_below_congr :
    (f g : ℕ → Bool) (n : ℕ) (xs : List ℕ)
    → ((j : ℕ) → j < n → f j ≡ g j)
    → slots_below f n xs ≡ slots_below g n xs
unfolding slots_below
slots_below_congr f g zero xs h = refl
slots_below_congr f g (suc i) xs h =
    rw (h i (omega arith))
      (slots_below_congr f g i (if g i then i ∷ xs else xs) (λ j lt. h j (omega arith)))

unfoldable pub count_below : (ℕ → Bool) → ℕ → ℕ
count_below test zero = 0
count_below test (suc i) = (if test i then 1 else 0) + count_below test i

pub count_below_congr :
    (f g : ℕ → Bool) (n : ℕ) → ((j : ℕ) → j < n → f j ≡ g j) → count_below f n ≡ count_below g n
unfolding count_below
count_below_congr f g zero h = refl
count_below_congr f g (suc i) h =
    ground (arith, h i (omega arith), count_below_congr f g i (λ j lt. h j (omega arith)))

pub Chain-push :
    (put : Bool) (links : ℕ → Option ℕ) (i : ℕ) (free_head : Option ℕ) (xs : List ℕ)
    (links' : ℕ → Option ℕ)
    → ((j : ℕ) → links' j ≡ (if put && (i == j) then free_head else links j))
    → AllFrom (suc i) xs
    → Chain links free_head xs
    → Chain links' (if put then some i else free_head) (if put then i ∷ xs else xs)
Chain-push put links i free_head xs links' same above chain = elim (Bool-cases put) [
  | inl taken ↦
      let here : links' i ≡ free_head = ground (arith, same i, taken) in
      let rest : Chain links' (links' i) xs = rw here (
        Chain-congr links links' (suc i) free_head xs (λ j le. ground (arith, same j)) above
          chain) in
      rw taken (refl, rest)
  | inr left ↦ rw left (
      Chain-congr links links' (suc i) free_head xs (λ j le. ground (arith, same j, left)) above
        chain)
]

pub above_after :
    (put : Bool) (i : ℕ) (xs : List ℕ) → AllFrom (suc i) xs → AllFrom i (if put then i ∷ xs else xs)
above_after put i xs above = elim (Bool-cases put) [
  | inl taken ↦ rw taken (omega arith, AllFrom-weaken (suc i) i xs (omega arith) above)
  | inr left ↦ rw left (AllFrom-weaken (suc i) i xs (omega arith) above)
]

pub mem-slots_below :
    (test : ℕ → Bool) (n : ℕ) (xs : List ℕ) (j : ℕ)
    → mem j (slots_below test n xs) ≡ ((ltb j n && test j) || mem j xs)
unfolding slots_below
mem-slots_below test zero xs j = ground arith
mem-slots_below test (suc i) xs j = elim (Bool-cases (test i)) [
  | inl put ↦ rw put (ground (arith, mem-slots_below test i (i ∷ xs) j, put))
  | inr out ↦ rw out (ground (arith, mem-slots_below test i xs j, out))
]

pub head-IsSlot :
    (links : ℕ → Option ℕ) (head : Option ℕ) (xs : List ℕ)
    → ((j : ℕ) → mem j xs ≡ true → j < max_index)
    → Chain links head xs
    → IsSlot head
head-IsSlot links head [] below chain = rw chain tt
head-IsSlot links head (x ∷ xs) below chain = rw (chain.0) (omega (arith, below x (ground arith)))
