-- ===== src/Prelude/Maps.antt =====
-- A hash map as an association list: an insertion takes the place of the entry with its key. Keys are
-- compared by the interface `Key`.
use Prim.Native.Nat.{ℕ}
use mathlib.Core.Path.{◌≡◌, refl, sym, ap, ◌∙◌}
use mathlib.Core.Logic.{◌↔◌, inl, inr}
use mathlib.Core.Bool.{Bool, true, ◌&&◌}
use mathlib.Core.Option.{Option, none, some}
use mathlib.Core.List.{List, [], ◌∷◌, map}
use native.Mathlib.Omega.{arith}
use rudo.Prelude.Tests.{◌==◌, ==_iff, if◌then◌else◌, Bool-cases}
use rudo.Prelude.Members.{mem}

pub record Key {ℓ} (K : Type ℓ) : Type ℓ where
  pub key_eq : K → K → Bool
  pub key_eq_iff : (a b : K) → (key_eq a b ≡ true) ↔ (a ≡ b)

abbrev pub same {ℓ} : {K : Type ℓ} ⦃e : Key K⦄ → K → K → Bool
same ⦃e⦄ = e.key_eq

pub pairs_eq_iff : (a b : ℕ × ℕ) → (((a.0 == b.0) && (a.1 == b.1)) ≡ true) ↔ (a ≡ b)
pairs_eq_iff (i, j) (k, l) = ground arith

instance abbrev pub nat_key : Key ℕ
nat_key = record { key_eq = ◌==◌; key_eq_iff = ==_iff }

instance abbrev pub pair_key : Key (ℕ × ℕ)
pair_key = record { key_eq = λ a b. (a.0 == b.0) && (a.1 == b.1); key_eq_iff = pairs_eq_iff }

pub same_self {ℓ} : {K : Type ℓ} ⦃e : Key K⦄ (k : K) → same k k ≡ true
same_self ⦃e⦄ k = (e.key_eq_iff k k).1 refl

module _ {ℓ} {K V : Type ℓ} ⦃e : Key K⦄ where
  abbrev pub lookup : K → List (K × V) → Option V
  lookup k [] = none
  lookup k (x ∷ m) = if same x.0 k then some x.1 else lookup k m

  abbrev pub remove : K → List (K × V) → List (K × V)
  remove k [] = []
  remove k (x ∷ m) = let rest = remove k m in if same x.0 k then rest else x ∷ rest

  abbrev pub insert : K → V → List (K × V) → List (K × V)
  insert k v m = (k, v) ∷ remove k m

  -- No key twice.
  abbrev pub Distinct : List (K × V) → Type ℓ
  Distinct [] = Unit
  Distinct (x ∷ m) = (lookup x.0 m ≡ none) × Distinct m

  pub lookup-remove :
      (j k : K) (m : List (K × V)) → lookup j (remove k m) ≡ (if same k j then none else lookup j m)
  lookup-remove j k [] = ground arith
  lookup-remove j k (x ∷ m) = elim (Bool-cases (same x.0 k)) [
    | inl at ↦
        let q : x.0 ≡ k = (e.key_eq_iff x.0 k).0 at in
        rw at (lookup-remove j k m ∙ rw q (ground arith))
    | inr off ↦ rw off (elim (Bool-cases (same x.0 j)) [
      | inl here ↦
          let q : x.0 ≡ j = (e.key_eq_iff x.0 j).0 here in
          rw here (elim (Bool-cases (same k j)) [
            | inl both ↦
                absurd
                  (ground (arith, (e.key_eq_iff x.0 k).1 (q ∙ sym ((e.key_eq_iff k j).0 both))))
            | inr n ↦ rw n refl
          ])
      | inr away ↦ rw away (lookup-remove j k m)
    ])
  ]

  pub lookup-insert :
      (j k : K) (v : V) (m : List (K × V))
      → lookup j (insert k v m) ≡ (if same k j then some v else lookup j m)
  lookup-insert j k v m = ground (arith, lookup-remove j k m)

  pub remove-Distinct : (k : K) (m : List (K × V)) → Distinct m → Distinct (remove k m)
  remove-Distinct k [] d = d
  remove-Distinct k (x ∷ m) d = elim (Bool-cases (same x.0 k)) [
    | inl at ↦ rw at (remove-Distinct k m d.1)
    | inr off ↦ rw off (lookup-remove x.0 k m ∙ ground (arith, d.0), remove-Distinct k m d.1)
  ]

  pub insert-Distinct : (k : K) (v : V) (m : List (K × V)) → Distinct m → Distinct (insert k v m)
  insert-Distinct k v m d =
      (lookup-remove k k m ∙ ground (arith, same_self k), remove-Distinct k m d)

module _ {K : Type 0} ⦃e : Key K⦄ where
  abbrev pub values : List (K × ℕ) → List ℕ
  values = map (λ x. x.1)

  pub lookup-mem :
      (k : K) (p : ℕ) (m : List (K × ℕ)) → lookup k m ≡ some p → mem p (values m) ≡ true
  lookup-mem k p [] h = absurd (ground arith)
  lookup-mem k p (x ∷ m) h = ground (arith, lookup-mem k p m)

  -- With no key twice, a value belongs to a key.
  pub mem-lookup :
      (p : ℕ) (m : List (K × ℕ))
      → Distinct m
      → mem p (values m) ≡ true
      → (k : K) × (lookup k m ≡ some p)
  mem-lookup p [] d h = absurd (ground arith)
  mem-lookup p (x ∷ m) d h = elim (Bool-cases (x.1 == p)) [
    | inl at ↦ (x.0, ground (arith, same_self x.0, at))
    | inr off ↦
        let (k, found) = mem-lookup p m d.1 (ground (arith, off)) in
        elim (Bool-cases (same x.0 k)) [
          | inl s ↦
              let q : x.0 ≡ k = (e.key_eq_iff x.0 k).0 s in
              absurd (ground (arith, ap (λ (j : K). lookup j m) q, d.0))
          | inr n ↦ (k, ground (arith, n, found))
        ]
  ]
