-- ===== src/TcpServer/Ledger.antt =====
-- Runs of a server: connections come and go, and the server is destroyed at the end.
pub mod Books
pub mod Balance
use htcp_multithread.Prelude.{
  ℕ, ◌<◌, ◌≡◌, refl, ap, sym, subst, ◌∙◌, Option, none, some, List, [], ◌∷◌, ◌++◌, append_assoc,
  append-nil, map, dec_lt, arith, leb, true,
}
use mathlib.Core.List.Perm
use mathlib.Core.List.{Perm, perm_middle, perm_append_singleton, perm_append_comm}
use htcp_multithread.EventLoopThreadPool.RoundRobin.{IsInside, get_next_loop_lem}
use htcp_multithread.TcpServer.{
  TcpServer, Connection, Effect, listen, connect_established, connect_destroyed,
  remove_connection_in_loop_of, run_in_loop, queue_in_loop, new_connection,
  remove_connection_in_loop, destroy, int_max,
}
use htcp_multithread.TcpServer.Table.{
  IsTable, entries, new_connection_lem, remove_connection_in_loop_lem,
}
use htcp_multithread.TcpServer.Life.{destroy_lem}

-- The connections that loops were given to establish, and those that they were given to destroy, with
-- the loop each time.
abbrev pub established : List Effect → List (ℕ × Connection)
established [] = []
established (run_in_loop l (connect_established c) ∷ es) = (l, c) ∷ established es
established (_ ∷ es) = established es

abbrev pub destroyed : List Effect → List (ℕ × Connection)
destroyed [] = []
destroyed (run_in_loop l (connect_destroyed c) ∷ es) = (l, c) ∷ destroyed es
destroyed (queue_in_loop l (connect_destroyed c) ∷ es) = (l, c) ∷ destroyed es
destroyed (_ ∷ es) = destroyed es

-- The connections with their own loops.
abbrev pub at_home : List Connection → List (ℕ × Connection)
at_home [] = []
at_home (c ∷ cs) = (c.io_loop, c) ∷ at_home cs

-- A connection comes in, or one that is open is closed by its peer.
pub data Step (s : TcpServer) : TcpServer → Type 0 where
  connects :
      {t : TcpServer} (getsockname : ℕ → Option ℕ) (sockfd peer_addr : ℕ)
      → new_connection getsockname sockfd peer_addr s ≡ some t
      → Step s t
  closes :
      (xs : List Connection) (conn : Connection) (ys : List Connection)
      → s.connections ≡ entries (xs ++ conn ∷ ys)
      → Step s (remove_connection_in_loop conn s)

pub data Reach (s : TcpServer) : TcpServer → Type 0 where
  begun : Reach s s
  later : {t u : TcpServer} → Reach s t → Step t u → Reach s u

established-append :
    (xs ys : List Effect) → established (xs ++ ys) ≡ established xs ++ established ys
established-append [] ys = refl
established-append (run_in_loop l (connect_established c) ∷ es) ys =
    ap (◌∷◌ (l, c)) (established-append es ys)
established-append (run_in_loop l listen ∷ es) ys = established-append es ys
established-append (run_in_loop l (connect_destroyed c) ∷ es) ys = established-append es ys
established-append (run_in_loop l (remove_connection_in_loop_of c) ∷ es) ys =
    established-append es ys
established-append (queue_in_loop l task ∷ es) ys = established-append es ys

destroyed-append : (xs ys : List Effect) → destroyed (xs ++ ys) ≡ destroyed xs ++ destroyed ys
destroyed-append [] ys = refl
destroyed-append (run_in_loop l (connect_destroyed c) ∷ es) ys =
    ap (◌∷◌ (l, c)) (destroyed-append es ys)
destroyed-append (queue_in_loop l (connect_destroyed c) ∷ es) ys =
    ap (◌∷◌ (l, c)) (destroyed-append es ys)
destroyed-append (run_in_loop l listen ∷ es) ys = destroyed-append es ys
destroyed-append (run_in_loop l (connect_established c) ∷ es) ys = destroyed-append es ys
destroyed-append (run_in_loop l (remove_connection_in_loop_of c) ∷ es) ys = destroyed-append es ys
destroyed-append (queue_in_loop l listen ∷ es) ys = destroyed-append es ys
destroyed-append (queue_in_loop l (connect_established c) ∷ es) ys = destroyed-append es ys
destroyed-append (queue_in_loop l (remove_connection_in_loop_of c) ∷ es) ys = destroyed-append es ys

at_home-append : (xs ys : List Connection) → at_home (xs ++ ys) ≡ at_home xs ++ at_home ys
at_home-append [] ys = refl
at_home-append (c ∷ xs) ys = ap (◌∷◌ (c.io_loop, c)) (at_home-append xs ys)
