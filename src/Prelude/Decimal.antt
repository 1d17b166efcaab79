-- ===== src/Prelude/Decimal.antt =====
-- `%d` of `snprintf` for numbers that are not negative, and that two numbers never print alike.
use Prim.Native.Nat.{ℕ, zero, suc, ◌+◌, ◌-◌, ◌*◌, ◌/◌, ◌%◌, ◌≤◌, ◌<◌}
use mathlib.Core.Path.{◌≡◌, refl, ap, sym, ◌∙◌}
use mathlib.Core.List.{List, [], ◌∷◌, ◌++◌}
use native.Mathlib.Omega.{arith}
use htcp_multithread.Prelude.Tests.{ltb}
use htcp_multithread.Prelude.Lists.{length, length-append}
use mathlib.Core.Bool.{true, false}
unfoldable use native.Mathlib.Decide.{dec_lt}

-- The digits of `n` in ASCII; fuel `n + 1` is enough, since each digit makes `n` smaller.
abbrev decimal_fuel : ℕ → ℕ → List ℕ
decimal_fuel zero n = []
decimal_fuel (suc fuel) n = elim (ltb n 10) [
  | true ↦ (48 + n) ∷ []
  | false ↦ decimal_fuel fuel (n / 10) ++ (48 + n % 10) ∷ []
]

unfoldable pub decimal : ℕ → List ℕ
decimal n = decimal_fuel (suc n) n

-- The number that a string of digits stands for, after a number `acc` to its left.
abbrev pub value : ℕ → List ℕ → ℕ
value acc [] = acc
value acc (d ∷ ds) = value (acc * 10 + (d - 48)) ds

value-snoc :
    (acc : ℕ) (ds : List ℕ) (d : ℕ) → value acc (ds ++ d ∷ []) ≡ value acc ds * 10 + (d - 48)
value-snoc acc [] d = refl
value-snoc acc (x ∷ ds) d = value-snoc (acc * 10 + (x - 48)) ds d

decimal_small : (fuel n : ℕ) → n < 10 → decimal_fuel (suc fuel) n ≡ (48 + n) ∷ []
decimal_small fuel n h = ground arith

decimal_large :
    (fuel n : ℕ)
    → 10 ≤ n
    → decimal_fuel (suc fuel) n ≡ decimal_fuel fuel (n / 10) ++ (48 + n % 10) ∷ []
decimal_large fuel n h = ground arith

value-decimal_fuel : (fuel n : ℕ) → n < fuel → value 0 (decimal_fuel fuel n) ≡ n
value-decimal_fuel zero n h = absurd (omega arith)
value-decimal_fuel (suc fuel) n h = elim (dec_lt n 10) [
  | yes small ↦ ap (value 0) (decimal_small fuel n small) ∙ omega arith
  | no large ↦
      ap (value 0) (decimal_large fuel n (omega arith))
      ∙ value-snoc 0 (decimal_fuel fuel (n / 10)) (48 + n % 10)
      ∙ omega (arith, value-decimal_fuel fuel (n / 10) (omega arith))
]

pub value-decimal : (n : ℕ) → value 0 (decimal n) ≡ n
unfolding decimal
value-decimal n = value-decimal_fuel (suc n) n (omega arith)

pub decimal_injective : (m n : ℕ) → decimal m ≡ decimal n → m ≡ n
decimal_injective m n e = sym (value-decimal m) ∙ ap (value 0) e ∙ value-decimal n

-- The first number with more than `k + 1` digits.
abbrev pub ten_to : ℕ → ℕ
ten_to zero = 10
ten_to (suc k) = 10 * ten_to k

length-decimal_fuel : (k fuel n : ℕ) → n < ten_to k → length (decimal_fuel fuel n) ≤ suc k
length-decimal_fuel k zero n h = omega arith
length-decimal_fuel zero (suc fuel) n h = rw (decimal_small fuel n h) (omega arith)
length-decimal_fuel (suc k) (suc fuel) n h = elim (dec_lt n 10) [
  | yes small ↦ rw (decimal_small fuel n small) (omega arith)
  | no large ↦ rw (decimal_large fuel n (omega arith)) (
      omega (
        arith,
        length-append (decimal_fuel fuel (n / 10)) ((48 + n % 10) ∷ []),
        length-decimal_fuel k fuel (n / 10) (omega arith),
      ))
]

pub length-decimal : (k n : ℕ) → n < ten_to k → length (decimal n) ≤ suc k
unfolding decimal
length-decimal k n h = length-decimal_fuel k (suc n) n h
