-- ===== src/Thread/Names.antt =====
-- The default names of threads tell them apart.
use htcp_multithread.Prelude.{
  ℕ, suc, ◌^◌, ◌<◌, ◌≡◌, ap, sym, ◌∙◌, [], ◌∷◌, take, take_all, drop, arith,
}
use htcp_multithread.Prelude.Decimal.{decimal, decimal_injective, length-decimal}
use htcp_multithread.Thread.{init, set_default_name}

-- Default names are never cut by the buffer of 32 bytes, and two threads that are given no name never
-- have the same one, for numbers that fit an `int`.
pub default_names_differ :
    (m n : ℕ) → suc m < 2 ^ 31 → suc n < 2 ^ 31 → (init m []).0.name ≡ (init n []).0.name → m ≡ n
unfolding init set_default_name
default_names_differ m n hm hn e =
    omega
      (arith, decimal_injective (suc m) (suc n) (ap (drop 6) (sym (whole m hm) ∙ e ∙ whole n hn)))
  where
    whole :
        (k : ℕ)
        → suc k < 2 ^ 31
        → take 31 (84 ∷ 104 ∷ 114 ∷ 101 ∷ 97 ∷ 100 ∷ decimal (suc k))
          ≡ 84 ∷ 104 ∷ 114 ∷ 101 ∷ 97 ∷ 100 ∷ decimal (suc k)
    whole k h =
        take_all 31 (84 ∷ 104 ∷ 114 ∷ 101 ∷ 97 ∷ 100 ∷ decimal (suc k))
          (omega (arith, length-decimal 9 (suc k) (omega (arith, h))))
