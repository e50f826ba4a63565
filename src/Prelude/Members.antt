-- ===== src/Prelude/Members.antt =====
-- Membership in a list of numbers, as a test.
use Prim.Native.Nat.{ℕ}
use mathlib.Core.Path.{◌≡◌, refl}
use mathlib.Core.Bool.{Bool, false, ◌||◌}
use mathlib.Core.List.{List, [], ◌∷◌, ◌++◌}
use native.Mathlib.Omega.{arith}
use rudo.Prelude.Tests.{◌==◌}

abbrev pub mem : ℕ → List ℕ → Bool
mem p [] = false
mem p (q ∷ qs) = (q == p) || mem p qs

pub mem-++ : (s : ℕ) (xs ys : List ℕ) → mem s (xs ++ ys) ≡ (mem s xs || mem s ys)
mem-++ s [] ys = refl
mem-++ s (x ∷ xs) ys = ground (arith, mem-++ s xs ys)
