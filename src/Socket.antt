-- ===== src/Socket.antt =====
-- Socket.h and Socket.cc: a descriptor of a socket, and the system calls on it.
pub mod Options
mod Tests
use htcp_multithread.Prelude.{
  ℕ, zero, Bool, true, false, Option, none, some, List, [], ◌∷◌, ◌++◌, if◌then◌else◌,
}
use htcp_multithread.InetAddress.{InetAddress}

abbrev pub sol_socket : ℕ
sol_socket = 1

abbrev pub so_reuseaddr : ℕ
so_reuseaddr = 2

abbrev pub so_keepalive : ℕ
so_keepalive = 9

abbrev pub so_reuseport : ℕ
so_reuseport = 15

abbrev pub ipproto_tcp : ℕ
ipproto_tcp = 6

abbrev pub tcp_nodelay : ℕ
tcp_nodelay = 1

abbrev pub shut_wr : ℕ
shut_wr = 1

-- The system calls that a socket makes, with what it hands them.
pub data SocketCall : Type 0 where
  bind_called : (sockfd : ℕ) → InetAddress → SocketCall
  listen_called : (sockfd backlog : ℕ) → SocketCall
  accept_called : (sockfd : ℕ) → SocketCall
  shutdown_called : (sockfd how : ℕ) → SocketCall
  setsockopt_called : (sockfd level optname optval : ℕ) → SocketCall
  close_called : (sockfd : ℕ) → SocketCall
  error_logged : SocketCall

-- `calls` is the world: what was called so far.
pub record Socket : Type 0 where
  pub sockfd : ℕ
  pub calls : List SocketCall

unfoldable pub init : ℕ → List SocketCall → Socket
init sockfd calls = record { sockfd = sockfd; calls = calls }

abbrev pub call : SocketCall → Socket → Socket
call c s = record s { calls = s.calls ++ c ∷ [] }

unfoldable pub destroy : Socket → Socket
destroy s = call (close_called s.sockfd) s

-- `result` is what the system call returns, 0 or -1 (none); a failure ends the process.
unfoldable pub bind_address : (result : Option ℕ) → InetAddress → Socket → Option Socket
bind_address (some zero) localaddr s = some (call (bind_called s.sockfd localaddr) s)
bind_address _ localaddr s = none

unfoldable pub listen : (result : Option ℕ) → Socket → Option Socket
listen (some zero) s = some (call (listen_called s.sockfd 1024) s)
listen _ s = none

-- What `accept4` returns: a descriptor, with the peer's address written to `addr`, or -1.
pub data AcceptCall : Type 0 where
  accepted : ℕ → InetAddress → AcceptCall
  accept_failed : AcceptCall

-- The descriptor, none for -1, and what `peeraddr` points to afterwards.
unfoldable pub accept : AcceptCall → InetAddress → Socket → Option ℕ × InetAddress × Socket
accept (accepted connfd addr) peeraddr s = (some connfd, addr, call (accept_called s.sockfd) s)
accept accept_failed peeraddr s = (none, peeraddr, call (accept_called s.sockfd) s)

unfoldable pub shutdown_write : (result : Option ℕ) → Socket → Socket
shutdown_write (some r) s = call (shutdown_called s.sockfd shut_wr) s
shutdown_write none s = call error_logged (call (shutdown_called s.sockfd shut_wr) s)

-- The results of the following calls are not looked at.
abbrev pub set_option : (level optname : ℕ) → (on : Bool) → Socket → Socket
set_option level optname on s =
    call (setsockopt_called s.sockfd level optname (if on then 1 else 0)) s

unfoldable pub set_tcp_no_delay : Bool → Socket → Socket
set_tcp_no_delay on s = set_option ipproto_tcp tcp_nodelay on s

unfoldable pub set_reuse_addr : Bool → Socket → Socket
set_reuse_addr on s = set_option sol_socket so_reuseaddr on s

unfoldable pub set_reuse_port : Bool → Socket → Socket
set_reuse_port on s = set_option sol_socket so_reuseport on s

unfoldable pub set_keep_alive : Bool → Socket → Socket
set_keep_alive on s = set_option sol_socket so_keepalive on s
