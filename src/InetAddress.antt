-- ===== src/InetAddress.antt =====
-- InetAddress.h and InetAddress.cc: an IPv4 address with its port, both in network byte order.
pub mod Text
mod Tests
use htcp_multithread.Prelude.{
  ℕ, ◌+◌, ◌^◌, ◌<◌, ◌≤◌, ◌≡◌, Bool, Option, none, some, List, [], ◌∷◌, ◌++◌, leb, if◌then◌else◌,
  length, suc,
}
use htcp_multithread.Prelude.Decimal.{decimal}

-- `sin_addr` and `sin_port` of `addr_`; the family is always AF_INET.
pub record InetAddress : Type 0 where
  pub sin_addr : ℕ
  pub sin_port : ℕ

-- The byte order functions and the text form of an address, from the C library: `ntohs` undoes
-- `htons`, both stay within 16 bits, and a text has at most 15 characters, as "255.255.255.255".
pub record Network : Type 0 where
  pub htons : ℕ → ℕ
  pub ntohs : ℕ → ℕ
  pub inet_addr : List ℕ → ℕ
  pub inet_ntop : ℕ → List ℕ
  pub ntohs-htons : (port : ℕ) → port < 2 ^ 16 → ntohs (htons port) ≡ port
  pub ntohs_small : (port : ℕ) → ntohs port < 2 ^ 16
  pub inet_ntop_short : (addr : ℕ) → length (inet_ntop addr) ≤ 15

module _ (net : Network) where
  open net use {htons, ntohs, inet_addr, inet_ntop}

  unfoldable pub init : (port : ℕ) → (ip : List ℕ) → InetAddress
  init port ip = record { sin_addr = inet_addr ip; sin_port = htons port }

  unfoldable pub to_ip : InetAddress → List ℕ
  to_ip a = inet_ntop a.sin_addr

  -- `sprintf` writes behind the address, and a final zero; `none` is a write beyond the 64 bytes of the
  -- buffer.
  unfoldable pub to_ip_port : InetAddress → Option (List ℕ)
  to_ip_port a =
      let text = inet_ntop a.sin_addr ++ 58 ∷ decimal (ntohs a.sin_port) in
      if leb (suc (length text)) 64 then some text else none

  unfoldable pub port : InetAddress → ℕ
  port a = ntohs a.sin_port
