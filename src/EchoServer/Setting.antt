-- ===== src/EchoServer/Setting.antt =====
-- What `main` has set up when the base loop begins.
use htcp_multithread.Prelude.{
  ℕ, ◌≢◌, ◌⊎◌, none, Option, ◌≡◌, refl, true, false, some, List, [], ◌∷◌, map, codes, arith,
}
use htcp_multithread.Epoll.{Epoll}
use htcp_multithread.Channel
use htcp_multithread.Channel.{Channel}
use htcp_multithread.Socket
use htcp_multithread.Acceptor
use htcp_multithread.Acceptor.{Acceptor}
use htcp_multithread.InetAddress
use htcp_multithread.InetAddress.{InetAddress, Network}
use htcp_multithread.InetAddress.Text.{to_ip_port_lem}
use htcp_multithread.EventLoop.Setup
use htcp_multithread.EventLoop.Setup.{Setup, IsUnused, construct_lem}
use htcp_multithread.EventLoopThreadPool
use htcp_multithread.EventLoopThreadPool.{get_all_loops}
use htcp_multithread.EventLoopThreadPool.RoundRobin.{IsInside, thread_names}
use htcp_multithread.TcpServer
use htcp_multithread.TcpServer.{TcpServer, run_in_loop, listen, set_thread_num}
use htcp_multithread.TcpServer.Constructed.{construct}
use htcp_multithread.TcpServer.Table.{IsTable}
use htcp_multithread.EchoServer.{
  EchoServer, Surroundings, init, start, main, on_connection_id, on_message_id,
}

-- A server that serves: its table is empty, its pool has the loops of three threads named after it, both
-- callbacks are set, and the one thing asked for is to listen, in the base loop.
abbrev pub IsServing : (loop : ℕ) → (start_loop : List ℕ → ℕ) → EchoServer → Type 0
IsServing loop start_loop e =
    IsTable e.server []
    × IsInside e.server.thread_pool
    × (get_all_loops e.server.thread_pool
        ≡ map start_loop (thread_names (codes "echoserver-hans") 3 0))
    × (e.server.connection_callback ≡ some on_connection_id)
    × (e.server.message_callback ≡ some on_message_id)
    × (e.server.effects ≡ run_in_loop loop listen ∷ [])

module _ (net : Network) (fd address loop : ℕ) (listen_addr : InetAddress) where
  acceptor_lem :
      (a : Acceptor) × (Acceptor.init (some fd) (some 0) address listen_addr false ≡ some a)
      × (a.listening ≡ false)
  unfolding Acceptor.init Socket.bind_address
  acceptor_lem = (_, refl, refl)

  abbrev server_of : (ip_port : List ℕ) → TcpServer
  server_of ip_port = set_thread_num 3 (
      TcpServer.set_message_callback on_message_id (
        TcpServer.set_connection_callback on_connection_id
          (TcpServer.init loop ip_port (codes "echoserver-hans"))))

  -- The server is made when the acceptor's socket can be made and bound.
  init_lem :
      (start_loop : List ℕ → ℕ)
      → (e : EchoServer) × (init net
            (some fd)
            (some 0)
            address
            loop
            listen_addr
            (codes "echoserver-hans")
          ≡ some e)
        × IsServing loop start_loop (start start_loop e)
        × (e.acceptor.callback_set ≡ true)
        × (e.acceptor.listening ≡ false)
  unfolding init start TcpServer.init set_thread_num TcpServer.start EventLoopThreadPool.init
      EventLoopThreadPool.set_thread_num EventLoopThreadPool.start get_all_loops construct
      Acceptor.set_new_connection_callback
  init_lem start_loop =
      let (text, made, shape, short) = to_ip_port_lem net listen_addr in
      let (a, accepted, idle) = acceptor_lem in
      (
        record {
          server = server_of text;
          acceptor = Acceptor.set_new_connection_callback a;
          loop = loop;
        },
        rw (made, accepted) refl,
        (
          record { table = refl; issued = tt; distinct = tt; short = short; counted = omega arith },
          omega arith,
          refl,
          refl,
          refl,
          refl,
        ),
        refl,
        idle,
      )

-- When the system calls succeed, `main` makes a base loop whose wakeup descriptor is watched, and a
-- server that serves, with an acceptor that knows its callback and listens when the loop runs.
pub main_lem :
    (ep : Epoll) (net : Network) (out : Surroundings) (chans : ℕ → Channel) (wakeup_fd fd : ℕ)
    → IsUnused ep chans
    → out.eventfd ≡ some wakeup_fd
    → out.socket ≡ some fd
    → out.bound ≡ some 0
    → (b : Setup ep) × (e : EchoServer) × (main ep net out chans ≡ some (b, e))
      × IsServing out.loop out.start_loop e
      × (e.acceptor.callback_set ≡ true)
      × (e.acceptor.listening ≡ false)
      × (ep.interest b.world.poller.kernel wakeup_fd
          ≡ some (record { events = Channel.read_event; ptr = out.wakeup_channel }))
unfolding main start
main_lem ep net out chans wakeup_fd fd unused woken opened bound =
    let (b, based, _, _, watched, _) =
      construct_lem ep out.loop out.wakeup_channel wakeup_fd chans unused in
    let (e, made, serving, given, quiet) =
      init_lem net fd out.accept_channel out.loop (InetAddress.init net 8000 (codes "127.0.0.1"))
        out.start_loop in
    (
      b,
      start out.start_loop e,
      rw (woken, opened, bound, based, made) refl,
      serving,
      given,
      quiet,
      watched,
    )

-- Where `main` comes to: the process ends, because a system call failed, or the base loop begins.
pub data Outcome (ep : Epoll) (out : Surroundings) : Option (Setup ep × EchoServer) → Type 0 where
  ends : (out.eventfd ≡ none) ⊎ (out.socket ≡ none) ⊎ (out.bound ≢ some 0) → Outcome ep out none
  serves :
      {b : Setup ep} {e : EchoServer} {wakeup_fd fd : ℕ}
      → out.eventfd ≡ some wakeup_fd
      → out.socket ≡ some fd
      → out.bound ≡ some 0
      → IsServing out.loop out.start_loop e
      → e.acceptor.callback_set ≡ true
      → e.acceptor.listening ≡ false
      → ep.interest b.world.poller.kernel wakeup_fd
        ≡ some (record { events = Channel.read_event; ptr = out.wakeup_channel })
      → Outcome ep out (some (b, e))
