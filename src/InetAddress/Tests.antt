-- ===== src/InetAddress/Tests.antt =====
-- A network whose byte order is the host's.
use htcp_multithread.Prelude.{ℕ, ◌^◌, ◌%◌, ◌≤◌, ◌≡◌, some, List, [], ◌∷◌, ◌++◌, length, arith}
use htcp_multithread.Prelude.Decimal.{decimal}
use htcp_multithread.InetAddress.{InetAddress, Network, init, to_ip, to_ip_port, port}
use htcp_multithread.InetAddress.Text.{to_ip_port_lem, port-init}
use htcp_multithread.TcpServer.Names.{max_ip_port}

abbrev same_order : Network
same_order = record {
  htons = λ p. p % 2 ^ 16;
  ntohs = λ p. p % 2 ^ 16;
  inet_addr = λ ip. 0;
  inet_ntop = λ a. 48 ∷ [];
  ntohs-htons = λ p h. omega arith;
  ntohs_small = λ p. omega arith;
  inet_ntop_short = λ a. omega arith;
}

abbrev any_address : InetAddress
any_address = record { sin_addr = 0; sin_port = 8000 }

to_ip_port_lem_example :
    (text : List ℕ) × (to_ip_port same_order any_address ≡ some text)
    × (text ≡ to_ip same_order any_address ++ 58 ∷ decimal (port same_order any_address))
    × (length text ≤ max_ip_port)
to_ip_port_lem_example = to_ip_port_lem same_order any_address

port-init_example : port same_order (init same_order 8000 []) ≡ 8000
port-init_example = port-init same_order 8000 [] (omega arith)
