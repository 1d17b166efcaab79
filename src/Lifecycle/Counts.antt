-- ===== src/Lifecycle/Counts.antt =====
-- How many functors, and how many entries of the table, are there for a name.
use htcp_multithread.Prelude.{
  ℕ, suc, ◌+◌, ◌≡◌, ◌≢◌, refl, ap, sym, ◌∙◌, Bool, true, false, List, [], ◌∷◌, ◌++◌, if◌then◌else◌,
  arith, Bool-cases, inl, inr,
}
use htcp_multithread.TcpServer.{
  Connection, Task, listen, connect_established, connect_destroyed, remove_connection_in_loop_of,
  is_same, put, erase,
}
use htcp_multithread.TcpServer.Names.{is_same_self, is_same_sound}
use htcp_multithread.TcpServer.Table.{is_same_ne}

abbrev pub establishes : List ℕ → Task → Bool
establishes n (connect_established conn) = is_same conn.name n
establishes n _ = false

abbrev pub removes : List ℕ → Task → Bool
removes n (remove_connection_in_loop_of conn) = is_same conn.name n
removes n _ = false

abbrev pub destroys : List ℕ → Task → Bool
destroys n (connect_destroyed conn) = is_same conn.name n
destroys n _ = false

abbrev pub count : (Task → Bool) → List (ℕ × Task) → ℕ
count p [] = 0
count p (e ∷ es) = (if p e.1 then 1 else 0) + count p es

abbrev pub held : List ℕ → List (List ℕ × Connection) → ℕ
held n [] = 0
held n (e ∷ es) = (if is_same e.0 n then 1 else 0) + held n es

-- The calls that are still to come for a functor, with those that it will queue.
abbrev pub weight : List (ℕ × Task) → ℕ
weight [] = 0
weight ((l, remove_connection_in_loop_of conn) ∷ es) = 2 + weight es
weight ((l, task) ∷ es) = 1 + weight es

pub weight-append : (xs ys : List (ℕ × Task)) → weight (xs ++ ys) ≡ weight xs + weight ys
weight-append [] ys = omega arith
weight-append ((l, listen) ∷ es) ys = omega (arith, weight-append es ys)
weight-append ((l, connect_established conn) ∷ es) ys = omega (arith, weight-append es ys)
weight-append ((l, connect_destroyed conn) ∷ es) ys = omega (arith, weight-append es ys)
weight-append ((l, remove_connection_in_loop_of conn) ∷ es) ys = omega (arith, weight-append es ys)

module _ (p : Task → Bool) where
  pub count-append : (xs ys : List (ℕ × Task)) → count p (xs ++ ys) ≡ count p xs + count p ys
  count-append [] ys = omega arith
  count-append (e ∷ es) ys = omega (arith, count-append es ys)

  pub count_middle :
      (xs : List (ℕ × Task)) (l : ℕ) (task : Task) (ys : List (ℕ × Task))
      → count p (xs ++ (l, task) ∷ ys) ≡ count p (xs ++ ys) + (if p task then 1 else 0)
  count_middle [] l task ys = omega arith
  count_middle (x ∷ xs) l task ys = omega (arith, count_middle xs l task ys)

mirrored : (xs ys : List ℕ) → is_same xs ys ≡ true → is_same ys xs ≡ true
mirrored xs ys e = ap (λ z. is_same z xs) (sym (is_same_sound xs ys e)) ∙ is_same_self xs

mirrored_ne : (xs ys : List ℕ) → is_same xs ys ≡ false → is_same ys xs ≡ false
mirrored_ne xs ys e =
    is_same_ne ys xs (λ z. cc (mirrored ys xs (ap (is_same ys) (sym z) ∙ is_same_self ys), e))

held_here :
    (key : List ℕ) (e : List ℕ × Connection) (es : List (List ℕ × Connection))
    → is_same key e.0 ≡ true
    → held key (e ∷ es) ≡ 1 + held key es
held_here key e es same = ap (λ b. (if b then 1 else 0) + held key es) (mirrored key e.0 same)

held_past :
    (key : List ℕ) (e : List ℕ × Connection) (es : List (List ℕ × Connection))
    → is_same key e.0 ≡ false
    → held key (e ∷ es) ≡ held key es
held_past key e es other =
    ap (λ b. (if b then 1 else 0) + held key es) (mirrored_ne key e.0 other) ∙ omega arith

-- A name that the table does not have gets its entry.
pub held-put :
    (n key : List ℕ) (conn : Connection) (es : List (List ℕ × Connection))
    → held key es ≡ 0
    → held n (put key conn es) ≡ held n es + (if is_same key n then 1 else 0)
held-put n key conn [] none_there = omega arith
held-put n key conn (e ∷ es) none_there = elim (Bool-cases (is_same key e.0)) [
  | inl same ↦ absurd (omega (arith, held_here key e es same))
  | inr other ↦
      rw other (omega (arith, held-put n key conn es (omega (arith, held_past key e es other))))
]

-- `erase` takes one entry of its key, and none of another.
pub held-erase_other :
    (n key : List ℕ) (es : List (List ℕ × Connection)) → key ≢ n → held n (erase key es) ≡ held n es
held-erase_other n key [] ne = refl
held-erase_other n key (e ∷ es) ne = elim (Bool-cases (is_same key e.0)) [
  | inl same ↦ rw (same, is_same_ne e.0 n (λ z. ne (is_same_sound key e.0 same ∙ z))) (omega arith)
  | inr other ↦ rw other (omega (arith, held-erase_other n key es ne))
]

pub held-erase :
    (m : ℕ) (key : List ℕ) (es : List (List ℕ × Connection))
    → held key es ≡ suc m
    → held key (erase key es) ≡ m
held-erase m key [] some_there = omega arith
held-erase m key (e ∷ es) some_there = elim (Bool-cases (is_same key e.0)) [
  | inl same ↦ rw same (omega (arith, held_here key e es same))
  | inr other ↦ rw other (
      held_past key e (erase key es) other
      ∙ held-erase m key es (omega (arith, held_past key e es other)))
]
