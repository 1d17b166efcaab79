-- ===== src/Prelude/Bits.antt =====
-- `bit_and` with the masks that the program tests, as arithmetic.
use Prim.Native.Nat.{ℕ, zero, suc, ◌*◌, ◌/◌, ◌%◌, ◌≤◌, min, bit_and, digits, bit_and-bitwise}
use mathlib.Core.Path.{◌≡◌, refl, ◌∙◌}
use native.Mathlib.Omega.{arith}

-- What the bits of `a` under the mask `m` are worth, digit by digit for `n` digits.
abbrev masked : (n a m : ℕ) → ℕ
masked n a m = digits (λ m. 0) min n a m

-- The masks none, EPOLLIN, EPOLLPRI, EPOLLIN | EPOLLPRI, EPOLLOUT, EPOLLERR and EPOLLHUP.
record Masked (n a : ℕ) : Type 0 where
  under_0 : masked n a 0 ≡ 0
  under_1 : masked n a 1 ≡ a % 2
  under_2 : masked n a 2 ≡ a / 2 % 2 * 2
  under_3 : masked n a 3 ≡ a % 4
  under_4 : masked n a 4 ≡ a / 4 % 2 * 4
  under_8 : masked n a 8 ≡ a / 8 % 2 * 8
  under_16 : masked n a 16 ≡ a / 16 % 2 * 16

-- The masks of one digit more are the masks of half the number, moved up by one digit.
all-Masked : (n a : ℕ) → a ≤ n → Masked n a
all-Masked zero zero h = record {
  under_0 = refl;
  under_1 = refl;
  under_2 = refl;
  under_3 = refl;
  under_4 = refl;
  under_8 = refl;
  under_16 = refl;
}
all-Masked zero (suc a) h = absurd (omega arith)
all-Masked (suc n) zero h = record {
  under_0 = refl;
  under_1 = refl;
  under_2 = refl;
  under_3 = refl;
  under_4 = refl;
  under_8 = refl;
  under_16 = refl;
}
all-Masked (suc n) (suc a) h =
    let half = all-Masked n (suc a / 2) (omega arith) in
    record {
      under_0 = omega (arith, half.under_0);
      under_1 = omega (arith, half.under_0);
      under_2 = omega (arith, half.under_1);
      under_3 = omega (arith, half.under_1);
      under_4 = omega (arith, half.under_2);
      under_8 = omega (arith, half.under_4);
      under_16 = omega (arith, half.under_8);
    }

in_full : (a : ℕ) → Masked a a
in_full a = all-Masked a a (omega arith)

pub bit_and_1 : (a : ℕ) → bit_and a 1 ≡ a % 2
bit_and_1 a = bit_and-bitwise a 1 ∙ (in_full a).under_1

pub bit_and_3 : (a : ℕ) → bit_and a 3 ≡ a % 4
bit_and_3 a = bit_and-bitwise a 3 ∙ (in_full a).under_3

pub bit_and_4 : (a : ℕ) → bit_and a 4 ≡ a / 4 % 2 * 4
bit_and_4 a = bit_and-bitwise a 4 ∙ (in_full a).under_4

pub bit_and_8 : (a : ℕ) → bit_and a 8 ≡ a / 8 % 2 * 8
bit_and_8 a = bit_and-bitwise a 8 ∙ (in_full a).under_8

pub bit_and_16 : (a : ℕ) → bit_and a 16 ≡ a / 16 % 2 * 16
bit_and_16 a = bit_and-bitwise a 16 ∙ (in_full a).under_16
