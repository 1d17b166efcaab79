-- ===== src/Prelude/Windows.antt =====
-- Contiguous parts of a list: how `take` and `drop` meet `++` and one another.
use Prim.Native.Nat.{ℕ, zero, suc, ◌+◌, ◌-◌, ◌≤◌}
use mathlib.Core.Path.{◌≡◌, refl, sym, ap, ◌∙◌}
use mathlib.Core.List.{List, [], ◌∷◌, ◌++◌, append-nil}
use native.Mathlib.Omega.{arith}
use htcp_multithread.Prelude.Lists.{length, take, drop, length-take, length-drop}

module _ {ℓ} {A : Type ℓ} where
  pub drop-nil : (n : ℕ) → drop {A = A} n [] ≡ []
  drop-nil zero = refl
  drop-nil (suc n) = refl

  pub take-nil : (n : ℕ) → take {A = A} n [] ≡ []
  take-nil zero = refl
  take-nil (suc n) = refl

  pub take_all : (n : ℕ) (xs : List A) → length xs ≤ n → take n xs ≡ xs
  take_all n [] h = take-nil n
  take_all zero (x ∷ xs) h = absurd (omega arith)
  take_all (suc n) (x ∷ xs) h = ap (◌∷◌ x) (take_all n xs (omega arith))

  pub take-append_left : (n : ℕ) (xs ys : List A) → n ≤ length xs → take n (xs ++ ys) ≡ take n xs
  take-append_left zero xs ys h = refl
  take-append_left (suc n) [] ys h = absurd (omega arith)
  take-append_left (suc n) (x ∷ xs) ys h = ap (◌∷◌ x) (take-append_left n xs ys (omega arith))

  pub take-append_add :
      (n k : ℕ) (xs ys : List A) → n ≡ length xs + k → take n (xs ++ ys) ≡ xs ++ take k ys
  take-append_add n k [] ys e = ap (λ m. take m ys) (omega arith)
  take-append_add zero k (x ∷ xs) ys e = absurd (omega arith)
  take-append_add (suc n) k (x ∷ xs) ys e = ap (◌∷◌ x) (take-append_add n k xs ys (omega arith))

  pub drop-append_left :
      (n : ℕ) (xs ys : List A) → n ≤ length xs → drop n (xs ++ ys) ≡ drop n xs ++ ys
  drop-append_left zero xs ys h = refl
  drop-append_left (suc n) [] ys h = absurd (omega arith)
  drop-append_left (suc n) (x ∷ xs) ys h = drop-append_left n xs ys (omega arith)

  pub drop-append_length : (n : ℕ) (xs ys : List A) → n ≡ length xs → drop n (xs ++ ys) ≡ ys
  drop-append_length zero [] ys e = refl
  drop-append_length zero (x ∷ xs) ys e = absurd (omega arith)
  drop-append_length (suc n) [] ys e = absurd (omega arith)
  drop-append_length (suc n) (x ∷ xs) ys e = drop-append_length n xs ys (omega arith)

  pub drop-take : (r w : ℕ) (xs : List A) → drop r (take w xs) ≡ take (w - r) (drop r xs)
  drop-take zero w xs = ap (λ n. take n xs) (omega arith)
  drop-take (suc r) zero xs =
      ap (λ n. take n (drop (suc r) xs)) {x = 0} {y = zero - suc r} (omega arith)
  drop-take (suc r) (suc w) [] = sym (take-nil (suc w - suc r))
  drop-take (suc r) (suc w) (x ∷ xs) =
      drop-take r w xs ∙ ap (λ n. take n (drop r xs)) {x = w - r} {y = suc w - suc r} (omega arith)

  pub drop-drop : (k r : ℕ) (xs : List A) → drop k (drop r xs) ≡ drop (r + k) xs
  drop-drop k zero xs = ap (λ n. drop n xs) (omega arith)
  drop-drop k (suc r) [] = drop-nil k ∙ sym (drop-nil (suc r + k))
  drop-drop k (suc r) (x ∷ xs) =
      drop-drop k r xs ∙ ap (λ n. drop n (x ∷ xs)) {x = suc (r + k)} {y = suc r + k} (omega arith)

  -- The `n` elements from index `r` on.
  abbrev pub window : List A → ℕ → ℕ → List A
  window xs r n = take n (drop r xs)

  pub length-window : (xs : List A) (r n : ℕ) → r + n ≤ length xs → length (window xs r n) ≡ n
  length-window xs r n h = omega (arith, length-take n (drop r xs), length-drop r xs)

  pub take-window : (xs : List A) (r n k : ℕ) → k ≤ n → take k (window xs r n) ≡ window xs r k
  take-window xs r n k h = take-take n k (drop r xs) h
    where
      take-take : (n k : ℕ) (ys : List A) → k ≤ n → take k (take n ys) ≡ take k ys
      take-take n zero ys h = refl
      take-take zero (suc k) ys h = absurd (omega arith)
      take-take (suc n) (suc k) [] h = refl
      take-take (suc n) (suc k) (y ∷ ys) h = ap (◌∷◌ y) (take-take n k ys (omega arith))

  pub drop-window : (xs : List A) (r n k : ℕ) → drop k (window xs r n) ≡ window xs (r + k) (n - k)
  drop-window xs r n k = drop-take k n (drop r xs) ∙ ap (take (n - k)) (drop-drop k r xs)

  -- What stands behind a window does not show in it.
  pub window-append :
      (xs ys : List A) (r n : ℕ) → r + n ≤ length xs → window (xs ++ ys) r n ≡ window xs r n
  window-append xs ys r n h =
      ap (take n) (drop-append_left r xs ys (omega arith))
      ∙ take-append_left n (drop r xs) ys (omega (arith, length-drop r xs))

  -- Overwriting the elements behind a window lengthens it by what is written.
  pub window-splice :
      (xs src rest : List A) (r n w m : ℕ)
      → w ≡ r + n
      → m ≡ n + length src
      → w ≤ length xs
      → window (take w xs ++ (src ++ rest)) r m ≡ window xs r n ++ src
  window-splice xs src rest r n w m e f h = rw (
    drop-append_left r (take w xs) (src ++ rest) (omega (arith, length-take w xs)),
    drop-take r w xs,
    cut,
    take-append_add m (length src) (window xs r n) (src ++ rest)
        (omega (arith, length-window xs r n)),
    take-append_add (length src) 0 src rest (omega arith),
    append-nil,
  )
    where
      cut : w - r ≡ n
      cut = omega arith

  -- What is written from index `w` on stands there.
  pub window-at :
      (xs src rest : List A) (w n : ℕ)
      → n ≡ length src
      → w ≤ length xs
      → window (take w xs ++ (src ++ rest)) w n ≡ src
  window-at xs src rest w n e h = rw (
    drop-append_length w (take w xs) (src ++ rest) (omega (arith, length-take w xs)),
    take-append_add n 0 src rest (omega arith),
    append-nil,
  )

  pub drop_all : (n : ℕ) (xs : List A) → length xs ≤ n → drop n xs ≡ []
  drop_all n [] h = drop-nil n
  drop_all zero (x ∷ xs) h = absurd (omega arith)
  drop_all (suc n) (x ∷ xs) h = drop_all n xs (omega arith)

  pub nil_of_length : (xs : List A) → length xs ≡ 0 → xs ≡ []
  nil_of_length [] h = refl
  nil_of_length (x ∷ xs) h = absurd (omega arith)
