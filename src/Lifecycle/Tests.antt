-- ===== src/Lifecycle/Tests.antt =====
-- A connection from its coming in to its end.
use htcp_multithread.Prelude.{
  ℕ, ◌+◌, ◌≤◌, ◌≡◌, refl, Bool, true, false, Option, none, some, List, [], ◌∷◌, ◌++◌, length, arith,
  ◌⊎◌,
}
use htcp_multithread.Channel
use htcp_multithread.EventLoopThreadPool
use htcp_multithread.TcpServer
use htcp_multithread.TcpServer.{
  TcpServer, Connection, Task, listen, connect_established, connect_destroyed,
  remove_connection_in_loop_of,
}
use htcp_multithread.TcpConnection
use htcp_multithread.TcpConnection.{TcpConnection}
use htcp_multithread.TcpConnection.Runs.{callbacks}
use htcp_multithread.Syscall.{received, sent, optval}
use htcp_multithread.Lifecycle.{
  Act, handles, perform, Object, System, collect, accept, serve, run_task, connects, serves, calls,
  Reach, begun, later, Called, told_of_close,
}
use htcp_multithread.Lifecycle.Runs.{
  IsStarted, start-IsStarted, IsSettled, calls_made, Reach-Phase, Reach-settles,
}
use htcp_multithread.Lifecycle.Counts.{weight}
use htcp_multithread.Lifecycle.Phases.{Phase, IsOf}

-- A server at 5, which accepts in its own loop.
abbrev server : TcpServer
server = TcpServer.start (λ name. 0) (TcpServer.init 5 (49 ∷ []) (115 ∷ []))

abbrev beginning : System
beginning = collect (record { server = server; objects = λ name. none; pending = [] })

-- The next point of a run.
abbrev next {ℓ} : {A : Type ℓ} → Option A → A → A
next none s = s
next (some t) s = t

abbrev connected_to : System
connected_to = next (accept (λ fd. none) 9 77 700 beginning) beginning

connected_to_next : accept (λ fd. none) 9 77 700 beginning ≡ some connected_to
unfolding accept collect TcpServer.new_connection TcpServer.make_connection TcpServer.start
    TcpServer.init EventLoopThreadPool.get_next_loop EventLoopThreadPool.init
    EventLoopThreadPool.start
connected_to_next = refl

abbrev conn : Connection
conn = TcpServer.make_connection (λ fd. none) 5 9 77 server

abbrev name : List ℕ
name = conn.name

-- Its establishment is called, it closes, and the server, in whose loop it is, queues its destruction.
abbrev is_up : System
is_up =
    next
      (run_task true false (connect_established conn)
        (record connected_to { pending = (5, listen) ∷ [] }))
      connected_to

-- The kernel reports a hang-up, with nothing left to read.
abbrev hangs_up : Act
hangs_up = handles (λ a. true) (λ lens. received []) (λ bytes. sent 0) (optval 0) 16 9

abbrev closed : System
closed = next (serve true false name hangs_up is_up) is_up

is_up_next :
    run_task true false
      (connect_established conn)
      (record connected_to { pending = (5, listen) ∷ [] })
    ≡ some is_up
unfolding run_task accept collect TcpServer.new_connection TcpServer.make_connection TcpServer.start
    TcpServer.init TcpServer.conn_name htcp_multithread.Prelude.Decimal.decimal
    EventLoopThreadPool.get_next_loop EventLoopThreadPool.init EventLoopThreadPool.start
    TcpConnection.connect_established Channel.enable_reading
is_up_next = refl

abbrev up_body : TcpConnection
up_body =
    next (TcpConnection.connect_established (callbacks true false) 700 (TcpConnection.init 700 9))
      (TcpConnection.init 700 9)

closed_next : serve true false name hangs_up is_up ≡ some closed
unfolding run_task accept collect TcpServer.new_connection TcpServer.make_connection TcpServer.start
    TcpServer.init TcpServer.conn_name htcp_multithread.Prelude.Decimal.decimal
    EventLoopThreadPool.get_next_loop EventLoopThreadPool.init EventLoopThreadPool.start
    TcpConnection.connect_established Channel.enable_reading serve told_of_close
    TcpConnection.handle_close Channel.disable_all TcpServer.remove_connection
    TcpServer.remove_connection_in_loop perform Channel.set_revents Channel.handle_event
    Channel.handle_event_with_guard TcpConnection.channel_callbacks Channel.set_tie Channel.init
    TcpConnection.init Channel.set_read_callback Channel.set_write_callback
    Channel.set_close_callback Channel.set_error_callback
closed_next = refl

run : Reach true false server closed
unfolding accept collect TcpServer.new_connection TcpServer.make_connection TcpServer.start
    TcpServer.init TcpServer.conn_name htcp_multithread.Prelude.Decimal.decimal
    EventLoopThreadPool.get_next_loop EventLoopThreadPool.init EventLoopThreadPool.start run_task
    TcpConnection.connect_established Channel.enable_reading
run =
    later
      (later (later begun (connects (λ fd. none) 9 77 700 connected_to_next))
        (calls ((5, listen) ∷ []) 5 (connect_established conn) [] refl is_up_next))
      (serves name (record { facts = conn; self = 700; body = up_body }) hangs_up refl tt refl
        closed_next)

server-IsStarted : IsStarted server
server-IsStarted = start-IsStarted (λ name. 0) 5 (49 ∷ []) (115 ∷ []) (omega arith)

Reach-Phase_example : Phase closed name
Reach-Phase_example = Reach-Phase true false server-IsStarted run name

Reach-settles_example :
    ((t : System) (calls_ : Called true false closed t)
      → (calls_made true false calls_ + weight t.pending ≤ weight closed.pending)
        × (t.pending ≡ []
            → (n : List ℕ) (o : Object) → closed.objects n ≡ some o
            → (o' : Object) × (t.objects n ≡ some o') × IsOf o o' × IsSettled true false t n o'))
    × ((t : System) × Called true false closed t × (t.pending ≡ []))
Reach-settles_example = Reach-settles true false server-IsStarted run
