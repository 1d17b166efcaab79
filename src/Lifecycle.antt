-- ===== src/Lifecycle.antt =====
-- TcpServer.cc, TcpConnection.cc and EventLoop.cc together: a server's connections, and the functors that
-- the loops have in their queues for them.
pub mod Counts
pub mod Phases
pub mod Accepting
pub mod Calling
pub mod Acting
pub mod Runs
mod Tests
use htcp_multithread.Prelude.{
  ℕ, ◌==◌, ◌≡◌, Bool, Option, none, some, ◌>>=◌, List, [], ◌∷◌, ◌++◌, if◌then◌else◌,
}
use htcp_multithread.Syscall.{ReadResult, WriteResult, SockoptResult}
use htcp_multithread.Channel.{handle_event, set_revents}
use htcp_multithread.TcpServer
use htcp_multithread.TcpServer.{
  TcpServer, Connection, Task, Effect, listen, connect_established, connect_destroyed,
  remove_connection_in_loop_of, run_in_loop, queue_in_loop, is_same, conn_name, make_connection,
  new_connection, remove_connection, remove_connection_in_loop,
}
use htcp_multithread.TcpConnection
use htcp_multithread.TcpConnection.{TcpConnection, channel_callbacks}
use htcp_multithread.TcpConnection.Runs.{Op, callbacks, run_op}
use htcp_multithread.TcpConnection.Tally.{tally, is_closing}
use htcp_multithread.TcpConnection.Ending.{IsUp, IsCalled}
use htcp_multithread.TcpConnection.Ending.Dispatched.{IsOrderly}

-- A connection object: what the server set in it, its address, and the connection itself.
pub record Object : Type 0 where
  pub facts : Connection
  pub self : ℕ
  pub body : TcpConnection

-- `objects` finds a connection by its name, also after the server has forgotten it. `pending` has the
-- functors that wait in the loops' queues, each with its loop.
pub record System : Type 0 where
  pub server : TcpServer
  pub objects : List ℕ → Option Object
  pub pending : List (ℕ × Task)

abbrev pub set_object : List ℕ → Object → (List ℕ → Option Object) → List ℕ → Option Object
set_object name o objects n = if is_same name n then some o else objects n

-- What the server did to the loops comes into their queues. A functor that `runInLoop` calls at once
-- counts as one that is called next.
abbrev pub tasks_of : List Effect → List (ℕ × Task)
tasks_of [] = []
tasks_of (run_in_loop l task ∷ es) = (l, task) ∷ tasks_of es
tasks_of (queue_in_loop l task ∷ es) = (l, task) ∷ tasks_of es

unfoldable pub collect : System → System
collect s = record s {
  server = record (s.server) { effects = [] };
  pending = s.pending ++ tasks_of s.server.effects;
}

-- The objects of the connections that the server has just made, the next one at `self`.
abbrev pub make_objects :
    (self : ℕ) → List Effect → (List ℕ → Option Object) → List ℕ → Option Object
make_objects self [] objects = objects
make_objects self (run_in_loop l (connect_established conn) ∷ es) objects = make_objects self es (
    set_object conn.name
      (record { facts = conn; self = self; body = TcpConnection.init self conn.sockfd }) objects)
make_objects self (_ ∷ es) objects = make_objects self es objects

-- `newConnection`, called by the acceptor in the server's loop.
unfoldable pub accept :
    (getsockname : ℕ → Option ℕ) → (sockfd peer_addr self : ℕ) → System → Option System
accept getsockname sockfd peer_addr self s = do
  server ← new_connection getsockname sockfd peer_addr s.server
  some
      (collect (record s { server = server; objects = make_objects self server.effects s.objects }))

abbrev pub change_body : List ℕ → (Object → Option TcpConnection) → System → Option System
change_body name f s = elim (s.objects name) [
  | none ↦ none
  | some o ↦ (do
    body ← f o
    some (record s { objects = set_object name (record o { body = body }) s.objects }))
]

-- What a connection does in its loop: the `handleEvent` of its channel, for events that the poller left
-- there, or what the program calls, `send`, `shutdown` or `setHighWaterMarkCallback`. `alive` says
-- which objects still have an owner.
pub data Act : Type 0 where
  handles :
      (alive : ℕ → Bool)
      → (List ℕ → ReadResult)
      → (List ℕ → WriteResult)
      → SockoptResult
      → (revents time : ℕ) → Act
  does : Op → Act

-- The events are orderly, or the call is one of a program.
abbrev pub IsServed : Act → Type 0
IsServed (handles alive readv write so_error revents time) = IsOrderly revents
IsServed (does op) = IsCalled op

module _ (c h : Bool) where
  unfoldable pub perform : Act → TcpConnection → Option TcpConnection
  perform (handles alive readv write so_error revents time) s =
      handle_event alive (channel_callbacks (callbacks c h) readv write so_error)
        (set_revents revents s.channel) time s
  perform (does op) s = run_op (callbacks c h) op s

  -- A functor of a queue. It has its connection by a shared pointer.
  unfoldable pub run_task : Task → System → Option System
  run_task listen s = some s
  run_task (connect_established conn) s =
      change_body conn.name (λ o. TcpConnection.connect_established (callbacks c h) o.self o.body) s
  run_task (connect_destroyed conn) s =
      change_body conn.name (λ o. TcpConnection.connect_destroyed (callbacks c h) o.body) s
  run_task (remove_connection_in_loop_of conn) s =
      some (collect (record s { server = remove_connection_in_loop conn s.server }))

  -- The close callback is the server's `removeConnection`, which the connection's own loop calls.
  unfoldable pub told_of_close : (before after : TcpConnection) → Connection → TcpServer → TcpServer
  told_of_close before after conn server =
      if tally is_closing after.effects == tally is_closing before.effects
      then server
      else remove_connection (conn.io_loop == server.loop) conn server

  -- The same, with what the server does when the connection calls its close callback.
  unfoldable pub serve : (name : List ℕ) → Act → System → Option System
  serve name act s = elim (s.objects name) [
    | none ↦ none
    | some o ↦ (do
      body ← perform act o.body
      some (
          collect (record s {
            server = told_of_close o.body body o.facts s.server;
            objects = set_object name (record o { body = body }) s.objects;
          })))
  ]

  -- A connection comes in; a connection that is up is served, since the channel of another waits for
  -- nothing when `poll` returns; or a loop calls one of the functors of its queue. The functors may
  -- come in any order, so also in that of the queues.
  pub data Step (s : System) : System → Type 0 where
    connects :
        {t : System} (getsockname : ℕ → Option ℕ) (sockfd peer_addr self : ℕ)
        → accept getsockname sockfd peer_addr self s ≡ some t
        → Step s t
    serves :
        {t : System} (name : List ℕ) (o : Object) (act : Act)
        → s.objects name ≡ some o
        → IsUp o.body.state
        → IsServed act
        → serve name act s ≡ some t
        → Step s t
    calls :
        {t : System} (xs : List (ℕ × Task)) (l : ℕ) (task : Task) (ys : List (ℕ × Task))
        → s.pending ≡ xs ++ (l, task) ∷ ys
        → run_task task (record s { pending = xs ++ ys }) ≡ some t
        → Step s t

  -- From a server that has no connections yet.
  pub data Reach (server : TcpServer) : System → Type 0 where
    begun :
        Reach server (collect (record { server = server; objects = λ name. none; pending = [] }))
    later : {s t : System} → Reach server s → Step s t → Reach server t

  -- The loops call functors of their queues, and nothing else happens.
  pub data Called : System → System → Type 0 where
    no_more : {s : System} → Called s s
    called :
        {s t u : System} (xs : List (ℕ × Task)) (l : ℕ) (task : Task) (ys : List (ℕ × Task))
        → s.pending ≡ xs ++ (l, task) ∷ ys
        → run_task task (record s { pending = xs ++ ys }) ≡ some t
        → Called t u
        → Called s u
