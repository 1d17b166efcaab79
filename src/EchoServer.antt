-- ===== src/EchoServer.antt =====
-- example/EchoServer.cc: a server that sends back what it receives and then closes the write side.
pub mod Setting
pub mod Echo
mod Tests
use htcp_multithread.Prelude.{
  ℕ, Bool, true, false, Option, none, some, List, [], ◌∷◌, ◌++◌, if◌then◌else◌, codes, ◌>>=◌,
}
use htcp_multithread.Syscall.{WriteResult}
use htcp_multithread.Buffer
use htcp_multithread.InetAddress
use htcp_multithread.InetAddress.{InetAddress, Network}
use htcp_multithread.TcpConnection.{
  TcpConnection, ConnectionCallbacks, is_state, connected, send, shutdown,
}
use htcp_multithread.Epoll.{Epoll}
use htcp_multithread.Channel.{Channel}
use htcp_multithread.Acceptor.{Acceptor}
use htcp_multithread.EventLoop.Setup.{Setup, construct}
use htcp_multithread.TcpServer
use htcp_multithread.TcpServer.Constructed
use htcp_multithread.TcpServer.{TcpServer}

-- The acceptor is the server's.
pub record EchoServer : Type 0 where
  pub server : TcpServer
  pub acceptor : Acceptor
  pub loop : ℕ

-- The numbers that its two callbacks go by.
abbrev pub on_connection_id : ℕ
on_connection_id = 1

abbrev pub on_message_id : ℕ
on_message_id = 2

-- `none` is the end of the process in the constructor of the server.
unfoldable pub init :
    Network
    → (socket bound : Option ℕ) → (address loop : ℕ) → (listen_addr : InetAddress) → (name : List ℕ)
    → Option EchoServer
init net socket bound address loop listen_addr name = do
  (server, acceptor) ←
      TcpServer.Constructed.construct net socket bound address (some loop) listen_addr name false
  let s₁ = TcpServer.set_connection_callback on_connection_id server
  let s₂ = TcpServer.set_message_callback on_message_id s₁
  some (record { server = TcpServer.set_thread_num 3 s₂; acceptor = acceptor; loop = loop })

unfoldable pub start : (start_loop : List ℕ → ℕ) → EchoServer → EchoServer
start start_loop e = record e { server = TcpServer.start start_loop e.server }

-- The text of the log line; the addresses are texts already. The connection stays as it is.
unfoldable pub on_connection : (peer local : List ℕ) → TcpConnection → List ℕ
on_connection peer local conn =
    codes "EchoServer - "
    ++ peer
    ++ codes " -> "
    ++ local
    ++ codes " is "
    ++ (if is_state conn.state connected then codes "UP" else codes "DOWN")

-- Called in the connection's own loop; `buf` is the connection's input buffer. `address` is where
-- `msg` has its bytes, and `time` is not used.
unfoldable pub on_message :
    ConnectionCallbacks
    → (List ℕ → WriteResult)
    → (address time : ℕ) → TcpConnection
    → Option TcpConnection
on_message k write address time conn = do
  (msg, input) ← Buffer.retrieve_all_as_string conn.input_buffer
  conn₁ ← send k true write address msg (record conn { input_buffer = input })
  some (shutdown true conn₁)

-- The callbacks of a connection of this server: the server's own close callback, and no callbacks for
-- written data, which the program does not set.
abbrev pub base_callbacks : (TcpConnection → Option TcpConnection) → ConnectionCallbacks
base_callbacks on_close = record {
  connection_callback = some some;
  message_callback = none;
  close_callback = some on_close;
  write_complete_set = false;
  high_water_mark_set = false;
}

abbrev pub callbacks :
    (TcpConnection → Option TcpConnection)
    → (List ℕ → WriteResult)
    → (address : ℕ) → ConnectionCallbacks
callbacks on_close write address = record (base_callbacks on_close) {
  message_callback = some (on_message (base_callbacks on_close) write address);
}

-- What `main` meets: the results of the system calls, `none` for a failure, the addresses of the base
-- loop, of its wakeup channel and of the acceptor's channel, and the loops that new threads make.
pub record Surroundings : Type 0 where
  pub eventfd : Option ℕ
  pub socket : Option ℕ
  pub bound : Option ℕ
  pub loop : ℕ
  pub wakeup_channel : ℕ
  pub accept_channel : ℕ
  pub start_loop : List ℕ → ℕ

-- `main` up to the call of `loop.loop()`: the base loop and the server. The address of `listenAddr` is
-- the default argument of its constructor.
unfoldable pub main :
    (ep : Epoll) → Network → Surroundings → (ℕ → Channel) → Option (Setup ep × EchoServer)
main ep net out chans = do
  base ← construct ep false out.eventfd out.loop out.wakeup_channel none chans
  let listen_addr = InetAddress.init net 8000 (codes "127.0.0.1")
  server ←
      init net out.socket out.bound out.accept_channel out.loop listen_addr
        (codes "echoserver-hans")
  some (base, start out.start_loop server)
