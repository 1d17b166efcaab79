-- ===== src/InetAddress/Text.antt =====
-- The text form of an address.
use htcp_multithread.Prelude.{
  ℕ, ◌^◌, ◌<◌, ◌≤◌, ◌≡◌, refl, some, List, ◌∷◌, ◌++◌, length, length-append, arith,
}
use htcp_multithread.Prelude.Decimal.{decimal, length-decimal}
use htcp_multithread.InetAddress.{InetAddress, Network, init, to_ip, to_ip_port, port}
use htcp_multithread.TcpServer.Names.{max_ip_port}

module _ (net : Network) where
  -- The text "address:port" never overruns its buffer, begins with the text of the address, and is
  -- short enough for the names of the connections.
  pub to_ip_port_lem :
      (a : InetAddress)
      → (text : List ℕ) × (to_ip_port net a ≡ some text)
        × (text ≡ to_ip net a ++ 58 ∷ decimal (port net a))
        × (length text ≤ max_ip_port)
  unfolding to_ip_port to_ip port
  to_ip_port_lem a = (
    net.inet_ntop a.sin_addr ++ 58 ∷ decimal (net.ntohs a.sin_port),
    ground (arith, short),
    refl,
    short,
  )
    where
      short : length (net.inet_ntop a.sin_addr ++ 58 ∷ decimal (net.ntohs a.sin_port)) ≤ max_ip_port
      short = omega (
        arith,
        length-append (net.inet_ntop a.sin_addr) (58 ∷ decimal (net.ntohs a.sin_port)),
        net.inet_ntop_short a.sin_addr,
        length-decimal 4 (net.ntohs a.sin_port) (omega (arith, net.ntohs_small a.sin_port)),
      )

  -- The port that an address was made with is read back, and printed, whatever the byte order is.
  pub port-init : (p : ℕ) (ip : List ℕ) → p < 2 ^ 16 → port net (init net p ip) ≡ p
  unfolding port init
  port-init p ip small = net.ntohs-htons p small
