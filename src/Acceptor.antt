-- ===== src/Acceptor.antt =====
-- Acceptor.h, Acceptor.cc the listening socket.
pub mod Accepting
mod Tests
use htcp_multithread.Prelude.{
  ℕ, map, Bool, true, false, Option, none, some, List, [], ◌∷◌, ◌++◌, ◌==◌, if◌then◌else◌, ◌>>=◌,
}
use htcp_multithread.Syscall.{emfile}
use htcp_multithread.InetAddress.{InetAddress}
use htcp_multithread.Socket
use htcp_multithread.Socket.{Socket, SocketCall, AcceptCall}
use htcp_multithread.Channel
use htcp_multithread.Channel.{Channel}

-- What the acceptor does to its socket, its loop and the log, in order.
pub data Effect : Type 0 where
  socket_called : SocketCall → Effect
  channel_updated : ℕ → Effect
  channel_removed : Effect
  connection_handed_on : (fd : ℕ) → InetAddress → Effect
  descriptor_closed : ℕ → Effect
  error_logged : ℕ → Effect
  limit_logged : Effect

-- The callback is a program's own: it matters whether it is set, and what it is called with. `sockfd`
-- is the descriptor of `acceptSocket_`.
pub record Acceptor : Type 0 where
  pub sockfd : ℕ
  pub accept_channel : Channel
  pub callback_set : Bool
  pub listening : Bool
  pub effects : List Effect

-- `acceptSocket_` before an operation on it, and the effects of that.
abbrev pub accept_socket : ℕ → Socket
accept_socket sockfd = record { sockfd = sockfd; calls = [] }

abbrev pub called : Socket → List Effect
called s = map socket_called s.calls

abbrev update : Channel → List Effect → Option (Channel × List Effect)
update c effects = some (c, effects ++ channel_updated c.events ∷ [])

-- `socket` is what the system call returns, `none` for -1, which ends the process, and `bound` what
-- `bind` returns. `reuseport` is the parameter of that name.
unfoldable pub init :
    (socket bound : Option ℕ)
    → (address : ℕ) → (listen_addr : InetAddress) → (reuseport : Bool) → Option Acceptor
init socket bound address listen_addr reuseport = do
  fd ← socket
  s ←
      Socket.bind_address bound listen_addr
        (Socket.set_reuse_port true (Socket.set_reuse_addr true (accept_socket fd)))
  some (record {
    sockfd = fd;
    accept_channel = Channel.init address fd;
    callback_set = false;
    listening = false;
    effects = called s;
  })

unfoldable pub set_new_connection_callback : Acceptor → Acceptor
set_new_connection_callback a = record a { callback_set = true }

-- `result` is what the system call returns.
unfoldable pub listen : (result : Option ℕ) → Acceptor → Option Acceptor
listen result a = do
  s ← Socket.listen result (accept_socket a.sockfd)
  (c, effects) ← Channel.enable_reading update a.accept_channel (a.effects ++ called s)
  some (record a { accept_channel = c; listening = true; effects = effects })

-- `peer_addr` is the local variable as its constructor leaves it, and `errno` is read when `accept4`
-- has failed.
unfoldable pub handle_read :
    AcceptCall → (peer_addr : InetAddress) → (errno : ℕ) → Acceptor → Acceptor
handle_read result peer_addr errno a =
    let (connfd, peer, s) = Socket.accept result peer_addr (accept_socket a.sockfd) in
    record a {
      effects =
          a.effects
          ++ (called s ++ elim connfd [
            | some fd ↦
                (if a.callback_set then connection_handed_on fd peer else descriptor_closed fd) ∷ []
            | none ↦ error_logged errno ∷ (if errno == emfile then limit_logged ∷ [] else [])
          ]);
    }

-- The destructor, with that of its socket.
unfoldable pub destroy : Acceptor → Option Acceptor
destroy a = do
  (c, effects) ← Channel.disable_all update a.accept_channel a.effects
  some (record a {
    accept_channel = c;
    effects = effects ++ channel_removed ∷ called (Socket.destroy (accept_socket a.sockfd));
  })
