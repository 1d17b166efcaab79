-- ===== src/TcpServer/Constructed.antt =====
-- The constructor of a TcpServer, with the acceptor that it makes.
use htcp_multithread.Prelude.{ℕ, Bool, Option, some, ◌>>=◌, List}
use htcp_multithread.InetAddress.{InetAddress, Network, to_ip_port}
use htcp_multithread.Acceptor
use htcp_multithread.Acceptor.{Acceptor}
use htcp_multithread.TcpServer.{TcpServer, init}

-- `loop` is none for the null pointer, `socket` and `bound` are the results of the system calls of the
-- acceptor, and `address` is where its channel is. `none` is the end of the process. The function that
-- the acceptor is given is the server's `newConnection`.
unfoldable pub construct :
    Network
    → (socket bound : Option ℕ) → (address : ℕ) → (loop : Option ℕ) → (listen_addr : InetAddress)
    → (name : List ℕ) → (reuseport : Bool) → Option (TcpServer × Acceptor)
construct net socket bound address loop listen_addr name reuseport = do
  loop₁ ← loop
  ip_port ← to_ip_port net listen_addr
  a ← Acceptor.init socket bound address listen_addr reuseport
  some (init loop₁ ip_port name, Acceptor.set_new_connection_callback a)
