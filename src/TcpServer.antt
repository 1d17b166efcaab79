-- ===== src/TcpServer.antt =====
-- TcpServer.h and TcpServer.cc: the table of connections, and the loops that they are given to.
pub mod Names
pub mod Table
pub mod Life
pub mod Ledger
pub mod Constructed
mod Tests
use htcp_multithread.Prelude.{
  ℕ, suc, ◌+◌, ◌-◌, ◌^◌, Bool, true, false, ◌&&◌, Option, none, some, List, [], ◌∷◌, ◌++◌, leb,
  ◌==◌, if◌then◌else◌, take, ◌>>=◌,
}
use htcp_multithread.Prelude.Decimal.{decimal}
use htcp_multithread.EventLoopThreadPool
use htcp_multithread.EventLoopThreadPool.{EventLoopThreadPool}

-- The members of a connection that the server sets and reads. An address is a number, and a callback
-- goes by a number of its own. `removes_itself` says that the close callback is the server's
-- `removeConnection`.
pub record Connection : Type 0 where
  pub io_loop : ℕ
  pub name : List ℕ
  pub sockfd : ℕ
  pub local_addr : ℕ
  pub peer_addr : ℕ
  pub connection_callback : Option ℕ
  pub message_callback : Option ℕ
  pub write_complete_callback : Option ℕ
  pub removes_itself : Bool

abbrev pub set_connection_callback_of : Option ℕ → Connection → Connection
set_connection_callback_of cb conn = record conn { connection_callback = cb }

abbrev pub set_message_callback_of : Option ℕ → Connection → Connection
set_message_callback_of cb conn = record conn { message_callback = cb }

abbrev pub set_write_complete_callback_of : Option ℕ → Connection → Connection
set_write_complete_callback_of cb conn = record conn { write_complete_callback = cb }

-- The argument is the server's `removeConnection`.
abbrev pub set_close_callback_of : Connection → Connection
set_close_callback_of conn = record conn { removes_itself = true }

-- What the server gives the loops to do.
pub data Task : Type 0 where
  listen : Task
  connect_established : Connection → Task
  connect_destroyed : Connection → Task
  remove_connection_in_loop_of : Connection → Task

-- A loop, and what was handed to its `runInLoop` or `queueInLoop`.
pub data Effect : Type 0 where
  run_in_loop : ℕ → Task → Effect
  queue_in_loop : ℕ → Task → Effect

pub record TcpServer : Type 0 where
  pub loop : ℕ
  pub ip_port : List ℕ
  pub name : List ℕ
  pub thread_pool : EventLoopThreadPool
  pub connection_callback : Option ℕ
  pub message_callback : Option ℕ
  pub write_complete_callback : Option ℕ
  pub thread_init_callback : Bool
  pub started : ℕ
  pub next_conn_id : ℕ
  pub connections : List (List ℕ × Connection)
  pub effects : List Effect

-- The members that are the server's own; the constructor also makes the acceptor.
unfoldable pub init : (loop : ℕ) → (ip_port name : List ℕ) → TcpServer
init loop ip_port name = record {
  loop = loop;
  ip_port = ip_port;
  name = name;
  thread_pool = EventLoopThreadPool.init loop name;
  connection_callback = none;
  message_callback = none;
  write_complete_callback = none;
  thread_init_callback = false;
  started = 0;
  next_conn_id = 1;
  connections = [];
  effects = [];
}

abbrev pub set_thread_init_callback : TcpServer → TcpServer
set_thread_init_callback s = record s { thread_init_callback = true }

abbrev pub set_connection_callback : ℕ → TcpServer → TcpServer
set_connection_callback cb s = record s { connection_callback = some cb }

abbrev pub set_message_callback : ℕ → TcpServer → TcpServer
set_message_callback cb s = record s { message_callback = some cb }

abbrev pub set_write_complete_callback : ℕ → TcpServer → TcpServer
set_write_complete_callback cb s = record s { write_complete_callback = some cb }

unfoldable pub set_thread_num : ℕ → TcpServer → TcpServer
set_thread_num n s = record s { thread_pool = EventLoopThreadPool.set_thread_num n s.thread_pool }

-- `started_++ == 0`; the pool's threads are there when `start` of the pool returns.
unfoldable pub start : (start_loop : List ℕ → ℕ) → TcpServer → TcpServer
start start_loop s =
    if s.started == 0
    then record s {
      started = suc s.started;
      thread_pool = EventLoopThreadPool.start start_loop s.thread_init_callback s.thread_pool;
      effects = s.effects ++ run_in_loop s.loop listen ∷ [];
    }
    else record s { started = suc s.started }

-- Equality of strings.
abbrev pub is_same : List ℕ → List ℕ → Bool
is_same [] [] = true
is_same [] (y ∷ ys) = false
is_same (x ∷ xs) [] = false
is_same (x ∷ xs) (y ∷ ys) = x == y && is_same xs ys

-- `connections_[key] = v` and `connections_.erase(key)`; the order of the entries has no meaning.
abbrev pub put : List ℕ → Connection → List (List ℕ × Connection) → List (List ℕ × Connection)
put key v [] = (key, v) ∷ []
put key v (e ∷ es) = if is_same key e.0 then (key, v) ∷ es else e ∷ put key v es

abbrev pub erase : List ℕ → List (List ℕ × Connection) → List (List ℕ × Connection)
erase key [] = []
erase key (e ∷ es) = if is_same key e.0 then es else e ∷ erase key es

abbrev pub int_max : ℕ
int_max = 2 ^ 31 - 1

-- `snprintf` into 64 bytes keeps 63 characters: "-%s#%d".
unfoldable pub conn_name : TcpServer → ℕ → List ℕ
conn_name s id = s.name ++ take 63 (45 ∷ (s.ip_port ++ 35 ∷ decimal id))

-- The connection object that `newConnection` makes. `getsockname` is the system call; when it fails,
-- the address is all zeros.
unfoldable pub make_connection :
    (getsockname : ℕ → Option ℕ) → (io_loop sockfd peer_addr : ℕ) → TcpServer → Connection
make_connection getsockname io_loop sockfd peer_addr s =
    let conn : Connection = record {
      io_loop = io_loop;
      name = conn_name s s.next_conn_id;
      sockfd = sockfd;
      local_addr = elim (getsockname sockfd) [ none ↦ 0 | some local ↦ local ];
      peer_addr = peer_addr;
      connection_callback = none;
      message_callback = none;
      write_complete_callback = none;
      removes_itself = false;
    } in
    set_close_callback_of (
      set_write_complete_callback_of s.write_complete_callback (
        set_message_callback_of s.message_callback
          (set_connection_callback_of s.connection_callback conn)))

-- `none` is the overflow of `nextConnId_`, or an access outside the pool's loops.
unfoldable pub new_connection :
    (getsockname : ℕ → Option ℕ) → (sockfd peer_addr : ℕ) → TcpServer → Option TcpServer
new_connection getsockname sockfd peer_addr s = do
  (io_loop, pool) ← EventLoopThreadPool.get_next_loop s.thread_pool
  let conn = make_connection getsockname io_loop sockfd peer_addr s
  if leb int_max s.next_conn_id
      then none
      else some (record s {
        thread_pool = pool;
        next_conn_id = suc s.next_conn_id;
        connections = put conn.name conn s.connections;
        effects = s.effects ++ run_in_loop io_loop (connect_established conn) ∷ [];
      })

unfoldable pub remove_connection_in_loop : Connection → TcpServer → TcpServer
remove_connection_in_loop conn s = record s {
  connections = erase conn.name s.connections;
  effects = s.effects ++ queue_in_loop conn.io_loop (connect_destroyed conn) ∷ [];
}

-- Called in the connection's own loop, as its close callback.
unfoldable pub remove_connection : (in_loop_thread : Bool) → Connection → TcpServer → TcpServer
remove_connection in_loop_thread conn s =
    if in_loop_thread then remove_connection_in_loop conn s else record s {
      effects = s.effects ++ run_in_loop s.loop (remove_connection_in_loop_of conn) ∷ [];
    }

-- The destructor's loop over the connections.
abbrev pub destroy_all : List (List ℕ × Connection) → List Effect
destroy_all [] = []
destroy_all (e ∷ es) = run_in_loop e.1.io_loop (connect_destroyed e.1) ∷ destroy_all es

unfoldable pub destroy : TcpServer → TcpServer
destroy s = record s { effects = s.effects ++ destroy_all s.connections; connections = [] }
