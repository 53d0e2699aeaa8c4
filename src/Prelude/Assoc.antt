-- ===== src/Prelude/Assoc.antt =====
-- The language's Map and Set as association lists: `insert` writes in place or at the end, as
-- Map.set does, and `erase` deletes. Keys are compared by an instance of `Eq`.
use Prim.Native.Nat.{ℕ, ◌+◌, ◌≤◌, ◌<◌}
use mathlib.Core.Path.{◌≡◌, refl, subst}
use mathlib.Core.Logic.{◌↔◌, inl, inr}
use mathlib.Core.Bool.{Bool, true, false}
use mathlib.Core.Option.{Option, none, some}
use mathlib.Core.List.{List, [], ◌∷◌}
use native.Mathlib.Omega.{arith}
use vinx.Prelude.Tests.{◌==◌, ==_iff, if◌then◌else◌, Bool-cases}
use vinx.Prelude.Lists.{length, text_eq, text_eq_iff, All}

pub record Eq (A : Type 0) : Type 0 where
  pub beq : A → A → Bool
  pub beq_iff : (a b : A) → (beq a b ≡ true) ↔ (a ≡ b)

instance abbrev pub nat_eq : Eq ℕ
nat_eq = record { beq = ◌==◌; beq_iff = ==_iff }

instance abbrev pub text_key : Eq (List ℕ)
text_key = record { beq = text_eq; beq_iff = text_eq_iff }

-- The measure of a value that may be missing.
abbrev pub weight {ℓ} : {V : Type ℓ} → (V → ℕ) → Option V → ℕ
weight f none = 0
weight f (some v) = f v

abbrev pub missing {ℓ} : {V : Type ℓ} → Option V → ℕ
missing none = 1
missing (some v) = 0

module _ {ℓ} {K : Type 0} {V : Type ℓ} ⦃e : Eq K⦄ where
  unfoldable pub lookup : K → List (K × V) → Option V
  lookup k [] = none
  lookup k ((j, v) ∷ m) = if e.beq j k then some v else lookup k m

  unfoldable pub insert : K → V → List (K × V) → List (K × V)
  insert k v [] = (k, v) ∷ []
  insert k v ((j, w) ∷ m) = if e.beq j k then (j, v) ∷ m else (j, w) ∷ insert k v m

  unfoldable pub erase : K → List (K × V) → List (K × V)
  erase k [] = []
  erase k ((j, v) ∷ m) = let rest = erase k m in if e.beq j k then rest else (j, v) ∷ rest

  abbrev pub has : K → List (K × V) → Bool
  has k m = elim (lookup k m) [ none ↦ false | some v ↦ true ]

  pub lookup-insert :
      (k j : K) (v : V) (m : List (K × V))
      → lookup j (insert k v m) ≡ (if e.beq k j then some v else lookup j m)
  unfolding lookup insert
  lookup-insert k j v [] = refl
  lookup-insert k j v ((i, w) ∷ m) =
      ground (arith, e.beq_iff k j, e.beq_iff i k, e.beq_iff i j, lookup-insert k j v m)

  pub lookup-erase :
      (k j : K) (m : List (K × V)) → lookup j (erase k m) ≡ (if e.beq k j then none else lookup j m)
  unfolding lookup erase
  lookup-erase k j [] = ground arith
  lookup-erase k j ((i, w) ∷ m) =
      ground (arith, e.beq_iff k j, e.beq_iff i k, e.beq_iff i j, lookup-erase k j m)

  -- No key twice.
  abbrev pub Distinct : List (K × V) → Type ℓ
  Distinct [] = Unit {ℓ}
  Distinct ((k, v) ∷ m) = (lookup k m ≡ none) × Distinct m

  pub insert-Distinct : (k : K) (v : V) (m : List (K × V)) → Distinct m → Distinct (insert k v m)
  unfolding insert lookup
  insert-Distinct k v [] d = (refl, tt)
  insert-Distinct k v ((j, w) ∷ m) d =
      ground (arith, e.beq_iff j k, e.beq_iff k j, lookup-insert k j v m, insert-Distinct k v m d.1)

  pub erase-Distinct : (k : K) (m : List (K × V)) → Distinct m → Distinct (erase k m)
  unfolding erase
  erase-Distinct k [] d = tt
  erase-Distinct k ((j, w) ∷ m) d =
      ground (arith, e.beq_iff j k, e.beq_iff k j, lookup-erase k j m, erase-Distinct k m d.1)

  -- What holds of all values holds after a write of one that it holds of.
  pub insert-All {κ} :
      (Q : V → Type κ) (k : K) (v : V) (m : List (K × V))
      → All (λ (e : K × V). Q e.1) m
      → Q v
      → All (λ (e : K × V). Q e.1) (insert k v m)
  unfolding insert
  insert-All Q k v [] h q = (q, tt)
  insert-All Q k v ((j, w) ∷ m) h q = elim (Bool-cases (e.beq j k)) [
    | inl here ↦ rw here (q, h.1)
    | inr there ↦ rw there (h.0, insert-All Q k v m h.1 q)
  ]

  pub erase-All {κ} :
      (Q : K → V → Type κ) (k : K) (m : List (K × V))
      → All (λ (e : K × V). Q e.0 e.1) m
      → All (λ (e : K × V). Q e.0 e.1) (erase k m)
  unfolding erase
  erase-All Q k [] h = tt
  erase-All Q k ((j, w) ∷ m) h = elim (Bool-cases (e.beq j k)) [
    | inl here ↦ rw here (erase-All Q k m h.1)
    | inr there ↦ rw there (h.0, erase-All Q k m h.1)
  ]

  pub lookup-All {κ} :
      (Q : V → Type κ) (k : K) (v : V) (m : List (K × V))
      → All (λ (e : K × V). Q e.1) m
      → lookup k m ≡ some v
      → Q v
  unfolding lookup
  lookup-All Q k v [] h found = absurd (cc)
  lookup-All Q k v ((j, w) ∷ m) h found = elim (Bool-cases (e.beq j k)) [
    | inl here ↦ subst Q (ground (arith)) h.0
    | inr there ↦ lookup-All Q k v m h.1 (ground (arith))
  ]

  pub lookup_pos : (k : K) (v : V) (m : List (K × V)) → lookup k m ≡ some v → 0 < length m
  unfolding lookup
  lookup_pos k v [] found = absurd (cc)
  lookup_pos k v ((j, w) ∷ m) found = omega arith

  erase-none : (k : K) (m : List (K × V)) → lookup k m ≡ none → erase k m ≡ m
  unfolding erase lookup
  erase-none k [] h = refl
  erase-none k ((j, w) ∷ m) h = ground (arith, erase-none k m)

  -- The sum of a measure over the values.
  abbrev pub total : (V → ℕ) → List (K × V) → ℕ
  total f [] = 0
  total f ((k, v) ∷ m) = f v + total f m

  pub total-insert :
      (f : V → ℕ) (k : K) (v : V) (m : List (K × V))
      → total f (insert k v m) + weight f (lookup k m) ≡ total f m + f v
  unfolding insert lookup
  total-insert f k v [] = omega arith
  total-insert f k v ((j, w) ∷ m) = elim (Bool-cases (e.beq j k)) [
    | inl here ↦ rw here (omega arith)
    | inr there ↦ rw there (omega (arith, total-insert f k v m))
  ]

  pub total-erase :
      (f : V → ℕ) (k : K) (m : List (K × V))
      → Distinct m
      → total f (erase k m) + weight f (lookup k m) ≡ total f m
  unfolding erase lookup
  total-erase f k [] d = omega arith
  total-erase f k ((j, w) ∷ m) d = elim (Bool-cases (e.beq j k)) [
    | inl here ↦ rw (here, erase-none k m (absent here)) (omega arith)
    | inr there ↦ rw there (omega (arith, total-erase f k m d.1))
  ]
    where
      absent : e.beq j k ≡ true → lookup k m ≡ none
      absent here = rw (← (e.beq_iff j k).0 here) d.0

  pub length-insert :
      (k : K) (v : V) (m : List (K × V)) → length (insert k v m) ≡ length m + missing (lookup k m)
  unfolding insert lookup
  length-insert k v [] = omega arith
  length-insert k v ((j, w) ∷ m) = elim (Bool-cases (e.beq j k)) [
    | inl here ↦ rw here (omega arith)
    | inr there ↦ rw there (omega (arith, length-insert k v m))
  ]

  pub length-erase : (k : K) (m : List (K × V)) → length (erase k m) ≤ length m
  unfolding erase
  length-erase k [] = omega arith
  length-erase k ((j, w) ∷ m) = ground (arith, length-erase k m)
