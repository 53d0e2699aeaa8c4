-- ===== src/Prelude/Decimal.antt =====
-- The language's decimal text of a number below 10^21, as a template literal prints it, and the
-- scan of decimal digits that the frame parsers of web/app/rpc.ts and web/app/stream-mux.ts share.
use Prim.Native.Nat.{ℕ, zero, suc, ◌+◌, ◌-◌, ◌*◌, ◌/◌, ◌%◌, ◌^◌, ◌≤◌, ◌<◌}
use mathlib.Core.Path.{◌≡◌, refl, ap, ◌∙◌}
use mathlib.Core.Bool.{Bool, true, ◌&&◌}
use mathlib.Core.Logic.{inl, inr}
use mathlib.Core.List.{List, [], ◌∷◌}
use native.Mathlib.Nat.{pow-suc}
use native.Mathlib.Omega.{arith}
use vinx.Prelude.Tests.{ltb, leb, if◌then◌else◌, Bool-cases, lt→ltb}
use vinx.Prelude.Lists.{length, All}

unfoldable pub is_digit : ℕ → Bool
is_digit c = leb 0x30 c && leb c 0x39

-- The digits of `n` in front of `acc`; the fuel is above `n`.
emit : ℕ → ℕ → List ℕ → List ℕ
emit zero n acc = acc
emit (suc fuel) n acc =
    let more = emit fuel (n / 10) ((0x30 + n % 10) ∷ acc) in
    if ltb n 10 then (0x30 + n) ∷ acc else more

unfoldable pub decimal : ℕ → List ℕ
unfolding emit
decimal n = emit (suc n) n []

-- The number that digits stand for, read on from `value`.
unfoldable pub number_of : ℕ → List ℕ → ℕ
number_of value [] = value
number_of value (c ∷ cs) = number_of (value * 10 + (c - 0x30)) cs

decimal_1203 : decimal 1203 ≡ b'1' ∷ b'2' ∷ b'0' ∷ b'3' ∷ []
unfolding decimal
decimal_1203 = refl

emit-digits :
    (fuel n : ℕ) (acc : List ℕ)
    → All (λ c. is_digit c ≡ true) acc
    → All (λ c. is_digit c ≡ true) (emit fuel n acc)
unfolding emit is_digit
emit-digits zero n acc h = h
emit-digits (suc fuel) n acc h = ground (arith, emit-digits fuel (n / 10) ((0x30 + n % 10) ∷ acc))

-- A decimal text has digits only.
pub decimal-digits : (n : ℕ) → All (λ c. is_digit c ≡ true) (decimal n)
unfolding decimal
decimal-digits n = emit-digits (suc n) n [] tt

number_of-emit :
    (fuel n : ℕ) (acc : List ℕ) → n < fuel → number_of 0 (emit fuel n acc) ≡ number_of n acc
unfolding emit number_of
number_of-emit zero n acc h = absurd (omega arith)
number_of-emit (suc fuel) n acc h = elim (Bool-cases (ltb n 10)) [
  | inl small ↦
      let e : 0 * 10 + (0x30 + n - 0x30) ≡ n = omega arith in rw small (ap (λ k. number_of k acc) e)
  | inr big ↦
      let e : n / 10 * 10 + (0x30 + n % 10 - 0x30) ≡ n = omega arith in
      rw big (
        number_of-emit fuel (n / 10) ((0x30 + n % 10) ∷ acc) (ground arith)
        ∙ ap (λ k. number_of k acc) e)
]

-- Reading a printed number gives it back.
pub number_of-decimal : (n : ℕ) → number_of 0 (decimal n) ≡ n
unfolding decimal number_of
number_of-decimal n = number_of-emit (suc n) n [] (omega arith)

length-emit :
    (fuel k n : ℕ) (acc : List ℕ)
    → n < fuel
    → n < 10 ^ suc k
    → length acc < length (emit fuel n acc) × (length (emit fuel n acc) ≤ length acc + suc k)
unfolding emit
length-emit zero k n acc h b = absurd (omega arith)
length-emit (suc fuel) zero n acc h b =
    let small : n < 10 = b in rw (lt→ltb n 10 small) (omega arith)
length-emit (suc fuel) (suc k) n acc h b = elim (Bool-cases (ltb n 10)) [
  | inl small ↦ rw small (omega arith)
  | inr big ↦ rw big (
      omega (
        arith,
        length-emit fuel k (n / 10) ((0x30 + n % 10) ∷ acc) (ground arith)
            (let e : 10 ^ suc (suc k) ≡ 10 ^ suc k * 10 = pow-suc 10 (suc k) in omega arith),
      ))
]

-- A number below 10^k has from 1 to k digits.
pub length-decimal :
    (k n : ℕ) → n < 10 ^ suc k → (0 < length (decimal n)) × (length (decimal n) ≤ suc k)
unfolding decimal
length-decimal k n b = omega (arith, length-emit (suc n) k n [] (omega arith) b)
