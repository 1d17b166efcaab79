-- ===== src/TcpServer/Tests.antt =====
-- A server with two loops and two connections.
use htcp_multithread.Prelude.{
  ℕ, ◌+◌, ◌≡◌, refl, Bool, true, false, Option, some, none, List, [], ◌∷◌, ◌++◌, length, map, arith,
}
use htcp_multithread.EventLoopThreadPool
use htcp_multithread.EventLoopThreadPool.{EventLoopThreadPool}
use htcp_multithread.EventLoopThreadPool.RoundRobin.{IsInside, loop_at}
use htcp_multithread.TcpServer.{
  TcpServer, Connection, run_in_loop, queue_in_loop, connect_established, connect_destroyed,
  destroy, new_connection, remove_connection_in_loop, conn_name, remove_connection,
  remove_connection_in_loop_of, make_connection,
}
use htcp_multithread.TcpServer.Table.{
  IsTable, entries, new_connection_lem, remove_connection_in_loop_lem,
}
use mathlib.Core.List.{Perm}
use htcp_multithread.TcpServer.Ledger.{
  Step, Reach, connects, closes, begun, later, established, destroyed,
}
use htcp_multithread.TcpServer.Ledger.Balance.{destroy-balanced}

abbrev pool : EventLoopThreadPool
pool = record {
  base_loop = 1;
  name = [];
  started = true;
  num_threads = 2;
  next = 1;
  threads = [];
  loops = 100 ∷ 200 ∷ [];
  inits = [];
}

-- The server "S" on "0:9".
abbrev fresh : TcpServer
fresh = record {
  loop = 1;
  ip_port = 48 ∷ 58 ∷ 57 ∷ [];
  name = 83 ∷ [];
  thread_pool = pool;
  connection_callback = some 1;
  message_callback = some 2;
  write_complete_callback = none;
  thread_init_callback = false;
  started = 1;
  next_conn_id = 1;
  connections = [];
  effects = [];
}

fresh-IsTable : IsTable fresh []
fresh-IsTable = record {
  table = refl;
  issued = tt;
  distinct = tt;
  short = omega arith;
  counted = omega arith;
}

pool-IsInside : IsInside pool
unfolding EventLoopThreadPool.get_all_loops
pool-IsInside = omega arith

abbrev no_address : ℕ → Option ℕ
no_address fd = none

-- "S-0:9#1"
name_example : conn_name fresh 1 ≡ 83 ∷ 45 ∷ 48 ∷ 58 ∷ 57 ∷ 35 ∷ 49 ∷ []
unfolding conn_name htcp_multithread.Prelude.Decimal.decimal
name_example = refl

remove_from_elsewhere :
    (c : Connection)
    → (remove_connection false c fresh).effects
      ≡ run_in_loop 1 (remove_connection_in_loop_of c) ∷ []
unfolding remove_connection
remove_from_elsewhere c = refl

new_connection_lem_example :
    (t : TcpServer) × (conn : Connection) × (new_connection no_address 5 77 fresh ≡ some t)
    × IsTable t (conn ∷ [])
    × IsInside t.thread_pool
    × (conn.sockfd ≡ 5)
    × (conn.io_loop ≡ loop_at pool 1)
    × (t.effects ≡ run_in_loop conn.io_loop (connect_established conn) ∷ [])
new_connection_lem_example =
    new_connection_lem no_address 5 77 fresh-IsTable pool-IsInside (omega arith)

-- The connection that `fresh` makes of descriptor 5, and the server that has it.
abbrev first : Connection
first = record {
  io_loop = 200;
  name = conn_name fresh 1;
  sockfd = 5;
  local_addr = 0;
  peer_addr = 77;
  connection_callback = some 1;
  message_callback = some 2;
  write_complete_callback = none;
  removes_itself = true;
}

abbrev one_open : TcpServer
one_open = record fresh { next_conn_id = 2; connections = entries (first ∷ []) }

one_open-IsTable : IsTable one_open (first ∷ [])
unfolding conn_name
one_open-IsTable = record {
  table = refl;
  issued = ((1, omega arith, refl), tt);
  distinct = (tt, tt);
  short = omega arith;
  counted = omega arith;
}

first_removed :
    let t = remove_connection_in_loop first one_open in
    IsTable t [] × (t.effects ≡ queue_in_loop 200 (connect_destroyed first) ∷ [])
first_removed = remove_connection_in_loop_lem [] first [] one_open-IsTable

abbrev second : Connection
second = record first { io_loop = 100; name = conn_name fresh 2; sockfd = 6; peer_addr = 78 }

-- The server with `first`, and with both.
abbrev one_in : TcpServer
one_in = record fresh {
  thread_pool = record pool { next = 0 };
  next_conn_id = 2;
  connections = entries (first ∷ []);
  effects = run_in_loop 200 (connect_established first) ∷ [];
}

abbrev two_in : TcpServer
two_in = record fresh {
  thread_pool = record pool { next = 1 };
  next_conn_id = 3;
  connections = entries (first ∷ second ∷ []);
  effects =
      run_in_loop 200 (connect_established first)
      ∷ run_in_loop 100 (connect_established second)
      ∷ [];
}

first_made : new_connection no_address 5 77 fresh ≡ some one_in
unfolding new_connection make_connection EventLoopThreadPool.get_next_loop
first_made = refl

second_made : new_connection no_address 6 78 one_in ≡ some two_in
unfolding new_connection make_connection EventLoopThreadPool.get_next_loop conn_name
    htcp_multithread.Prelude.Decimal.decimal
second_made = refl

-- Both come in, and the first is closed again.
first_closed-Reach : Reach fresh (remove_connection_in_loop first two_in)
first_closed-Reach =
    later (later (later begun first_in) second_in) (closes [] first (second ∷ []) refl)
  where
    first_in : Step fresh one_in
    first_in = connects no_address 5 77 first_made

    second_in : Step one_in two_in
    second_in = connects no_address 6 78 second_made

destroy-balanced_example :
    let t = destroy (remove_connection_in_loop first two_in) in
    Perm (established t.effects) (destroyed t.effects) × (t.connections ≡ [])
destroy-balanced_example = destroy-balanced fresh-IsTable pool-IsInside refl refl first_closed-Reach
