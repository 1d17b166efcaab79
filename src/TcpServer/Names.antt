-- ===== src/TcpServer/Names.antt =====
-- The names of connections: no two connections of a server have the same one.
use htcp_multithread.Prelude.{
  ℕ, ◌≤◌, ◌≡◌, refl, ap, sym, ◌∙◌, true, List, [], ◌∷◌, ◌++◌, arith, length, take_all,
  length-append,
}
use htcp_multithread.Prelude.Decimal.{decimal, decimal_injective, length-decimal}
use htcp_multithread.TcpServer.{TcpServer, conn_name, is_same, int_max}

-- The longest "address:port" is "255.255.255.255:65535".
abbrev pub max_ip_port : ℕ
max_ip_port = 21

-- Equal heads leave equal tails.
tail_of : List ℕ → List ℕ
tail_of [] = []
tail_of (x ∷ xs) = xs

append_cancel : (xs : List ℕ) {ys zs : List ℕ} → xs ++ ys ≡ xs ++ zs → ys ≡ zs
unfolding tail_of
append_cancel [] e = e
append_cancel (x ∷ xs) e = append_cancel xs (ap tail_of e)

conn_name_whole :
    (s : TcpServer) (id : ℕ)
    → length s.ip_port ≤ max_ip_port
    → id ≤ int_max
    → conn_name s id ≡ s.name ++ (45 ∷ (s.ip_port ++ 35 ∷ decimal id))
unfolding conn_name
conn_name_whole s id short small =
    ap (λ xs. s.name ++ xs)
      (take_all 63 (45 ∷ (s.ip_port ++ 35 ∷ decimal id)) (
        omega
          (arith, length-append s.ip_port (35 ∷ decimal id), length-decimal 9 id (omega arith))))

pub conn_name_injective :
    (s : TcpServer) (i j : ℕ)
    → length s.ip_port ≤ max_ip_port
    → i ≤ int_max
    → j ≤ int_max
    → conn_name s i ≡ conn_name s j
    → i ≡ j
unfolding tail_of
conn_name_injective s i j short small₁ small₂ e =
    let whole = sym (conn_name_whole s i short small₁) ∙ e ∙ conn_name_whole s j short small₂ in
    decimal_injective i j
      (ap tail_of (append_cancel s.ip_port (ap tail_of (append_cancel s.name whole))))

pub is_same_self : (xs : List ℕ) → is_same xs xs ≡ true
is_same_self [] = refl
is_same_self (x ∷ xs) = ground (arith, is_same_self xs)

pub is_same_sound : (xs ys : List ℕ) → is_same xs ys ≡ true → xs ≡ ys
is_same_sound [] [] e = refl
is_same_sound [] (y ∷ ys) e = absurd (cc)
is_same_sound (x ∷ xs) [] e = absurd (cc)
is_same_sound (x ∷ xs) (y ∷ ys) e = ground (arith, is_same_sound xs ys)
