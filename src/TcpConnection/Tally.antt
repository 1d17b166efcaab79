-- ===== src/TcpConnection/Tally.antt =====
-- How often a connection did something to the world.
use htcp_multithread.Prelude.{
  ℕ, ◌+◌, ◌≡◌, refl, ◌∙◌, Bool, true, false, List, [], ◌∷◌, ◌++◌, if◌then◌else◌, arith,
}
use htcp_multithread.TcpConnection.{Effect, close_called, channel_removed}

abbrev pub tally : (Effect → Bool) → List Effect → ℕ
tally p [] = 0
tally p (e ∷ es) = (if p e then 1 else 0) + tally p es

-- The calls of the close callback, and the removals of the channel from the poller.
abbrev pub is_closing : Effect → Bool
is_closing close_called = true
is_closing _ = false

abbrev pub is_removal : Effect → Bool
is_removal channel_removed = true
is_removal _ = false

module _ (p : Effect → Bool) where
  pub tally-append : (xs ys : List Effect) → tally p (xs ++ ys) ≡ tally p xs + tally p ys
  tally-append [] ys = omega arith
  tally-append (e ∷ es) ys = omega (arith, tally-append es ys)

  pub silent :
      {n : ℕ} (xs : List Effect) (e : Effect)
      → p e ≡ false
      → tally p xs ≡ n
      → tally p (xs ++ e ∷ []) ≡ n
  silent xs e other h = tally-append xs (e ∷ []) ∙ rw other (omega (arith, h))

  pub heard :
      {n : ℕ} (xs : List Effect) (e : Effect)
      → p e ≡ true
      → tally p xs ≡ n
      → tally p (xs ++ e ∷ []) ≡ n + 1
  heard xs e same h = tally-append xs (e ∷ []) ∙ rw same (omega (arith, h))

  pub if-silent : (b : Bool) (e : Effect) → p e ≡ false → tally p (if b then e ∷ [] else []) ≡ 0
  if-silent true e other = rw other
  if-silent false e other = refl
