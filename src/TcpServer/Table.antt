-- ===== src/TcpServer/Table.antt =====
-- The table of connections as the list of those that are open.
use htcp_multithread.Prelude.{
  ℕ, suc, ◌<◌, ◌≤◌, ◌≡◌, ◌≢◌, refl, ap, sym, ◌∙◌, false, Option, some, List, [], ◌∷◌, ◌++◌, arith,
  length, ◌%◌, Bool-cases, inl, inr, leb,
}
use htcp_multithread.Epoll.{All}
use htcp_multithread.EventLoopThreadPool
use htcp_multithread.EventLoopThreadPool.{EventLoopThreadPool}
use htcp_multithread.EventLoopThreadPool.RoundRobin.{
  next-IsInside, IsInside, loop_at, get_next_loop_lem,
}
use htcp_multithread.TcpServer.{
  TcpServer, Connection, connect_established, connect_destroyed, run_in_loop, queue_in_loop,
  conn_name, is_same, put, erase, int_max, make_connection, new_connection,
  remove_connection_in_loop,
}
use htcp_multithread.TcpServer.Names.{max_ip_port, conn_name_injective, is_same_self, is_same_sound}

abbrev pub entries : List Connection → List (List ℕ × Connection)
entries [] = []
entries (c ∷ cs) = (c.name, c) ∷ entries cs

-- No connection of the list has the name.
abbrev pub Unused : List ℕ → List Connection → Type 0
Unused name = All (λ c. name ≢ c.name)

abbrev pub Distinct : List Connection → Type 0
Distinct [] = Unit
Distinct (c ∷ cs) = Unused c.name cs × Distinct cs

-- A name that the server has given out.
abbrev pub IsIssued : TcpServer → Connection → Type 0
IsIssued s c = (id : ℕ) × (id < s.next_conn_id) × (c.name ≡ conn_name s id)

-- The table has exactly the connections `live`, each under its own name, all names different.
pub record IsTable (s : TcpServer) (live : List Connection) : Type 0 where
  pub table : s.connections ≡ entries live
  pub issued : All (IsIssued s) live
  pub distinct : Distinct live
  pub short : length s.ip_port ≤ max_ip_port
  pub counted : s.next_conn_id ≤ int_max

pub is_same_ne : (xs ys : List ℕ) → xs ≢ ys → is_same xs ys ≡ false
is_same_ne xs ys ne = elim (Bool-cases (is_same xs ys)) [
  | inl e ↦ absurd (ne (is_same_sound xs ys e))
  | inr e ↦ e
]

put_new :
    (c : Connection) (live : List Connection)
    → Unused c.name live
    → put c.name c (entries live) ≡ entries (live ++ c ∷ [])
put_new c [] u = refl
put_new c (d ∷ ds) (ne, u) = rw (is_same_ne c.name d.name ne, put_new c ds u) refl

erase_open :
    (c : Connection) (xs ys : List Connection)
    → Distinct (xs ++ c ∷ ys)
    → erase c.name (entries (xs ++ c ∷ ys)) ≡ entries (xs ++ ys)
erase_open c [] ys d = rw (is_same_self c.name) refl
erase_open c (x ∷ xs) ys (u, d) =
    rw (is_same_ne c.name x.name (λ e. middle xs u (sym e)), erase_open c xs ys d) refl
  where
    middle : (xs : List Connection) → Unused x.name (xs ++ c ∷ ys) → x.name ≢ c.name
    middle [] (ne, u) = ne
    middle (y ∷ xs) (ne, u) = middle xs u

module _ (P : Connection → Type 0) where
  All-snoc : (xs : List Connection) (c : Connection) → All P xs → P c → All P (xs ++ c ∷ [])
  All-snoc [] c h p = (p, tt)
  All-snoc (x ∷ xs) c (q, h) p = (q, All-snoc xs c h p)

  All-remove : (xs ys : List Connection) (c : Connection) → All P (xs ++ c ∷ ys) → All P (xs ++ ys)
  All-remove [] ys c (p, h) = h
  All-remove (x ∷ xs) ys c (p, h) = (p, All-remove xs ys c h)

Distinct-snoc :
    (xs : List Connection) (c : Connection)
    → Distinct xs
    → Unused c.name xs
    → Distinct (xs ++ c ∷ [])
Distinct-snoc [] c d u = (tt, tt)
Distinct-snoc (x ∷ xs) c (v, d) (ne, u) =
    (All-snoc (λ d. x.name ≢ d.name) xs c v (λ e. ne (sym e)), Distinct-snoc xs c d u)

Distinct-remove :
    (xs ys : List Connection) (c : Connection) → Distinct (xs ++ c ∷ ys) → Distinct (xs ++ ys)
Distinct-remove [] ys c (u, d) = d
Distinct-remove (x ∷ xs) ys c (u, d) =
    (All-remove (λ d. x.name ≢ d.name) xs ys c u, Distinct-remove xs ys c d)

later-IsIssued :
    (s t : TcpServer) (live : List Connection)
    → s.next_conn_id ≤ t.next_conn_id
    → ((id : ℕ) → conn_name t id ≡ conn_name s id)
    → All (IsIssued s) live
    → All (IsIssued t) live
later-IsIssued s t [] le same h = tt
later-IsIssued s t (c ∷ cs) le same ((id, lt, e), h) =
    ((id, omega arith, e ∙ sym (same id)), later-IsIssued s t cs le same h)

-- The next name is not in use.
fresh-Unused :
    (s : TcpServer) (live : List Connection)
    → length s.ip_port ≤ max_ip_port
    → s.next_conn_id ≤ int_max
    → All (IsIssued s) live
    → Unused (conn_name s s.next_conn_id) live
fresh-Unused s [] short small h = tt
fresh-Unused s (c ∷ cs) short small ((id, lt, e), h) = (
  λ same.
      omega (arith, conn_name_injective s s.next_conn_id id short small (omega arith) (same ∙ e)),
  fresh-Unused s cs short small h,
)

-- `newConnection` adds exactly one connection to the table, under a name that is not in use, replaces
-- none, and has it established once, in the loop whose turn it is in the pool. This holds until the
-- counter of names reaches the largest `int`.
pub new_connection_lem :
    {s : TcpServer} {live : List Connection} (getsockname : ℕ → Option ℕ) (sockfd peer_addr : ℕ)
    → IsTable s live
    → IsInside s.thread_pool
    → s.next_conn_id < int_max
    → (t : TcpServer) × (conn : Connection) × (new_connection getsockname sockfd peer_addr s
        ≡ some t)
      × IsTable t (live ++ conn ∷ [])
      × IsInside t.thread_pool
      × (conn.sockfd ≡ sockfd)
      × (conn.io_loop ≡ loop_at s.thread_pool s.thread_pool.next)
      × (t.effects ≡ s.effects ++ run_in_loop conn.io_loop (connect_established conn) ∷ [])
unfolding new_connection make_connection
new_connection_lem {s} {live} getsockname sockfd peer_addr v inside room = (
  after,
  conn,
  rw (get_next_loop_lem s.thread_pool inside, small) refl,
  record {
    table = ap (put conn.name conn) v.table ∙ put_new conn live fresh;
    issued =
        All-snoc (IsIssued after) live conn
          (later-IsIssued s after live (omega arith) (λ id. unfold conn_name in refl) v.issued)
          (s.next_conn_id, omega arith, unfold conn_name in refl);
    distinct = Distinct-snoc live conn v.distinct fresh;
    short = v.short;
    counted = omega arith;
  },
  next-IsInside s.thread_pool inside,
  refl,
  refl,
  refl,
)
  where
    small : leb int_max s.next_conn_id ≡ false
    small = ground arith

    conn : Connection
    conn = make_connection getsockname (loop_at s.thread_pool s.thread_pool.next) sockfd peer_addr s

    fresh : Unused conn.name live
    fresh = fresh-Unused s live v.short (omega (arith, v.counted)) v.issued

    after : TcpServer
    after = record s {
      thread_pool = record (s.thread_pool) {
        next = suc s.thread_pool.next % length (EventLoopThreadPool.get_all_loops s.thread_pool);
      };
      next_conn_id = suc s.next_conn_id;
      connections = put conn.name conn s.connections;
      effects = s.effects ++ run_in_loop conn.io_loop (connect_established conn) ∷ [];
    }

-- `removeConnectionInLoop` takes exactly the given connection out of the table and queues its
-- destruction once, in the connection's own loop.
pub remove_connection_in_loop_lem :
    {s : TcpServer} (xs : List Connection) (conn : Connection) (ys : List Connection)
    → IsTable s (xs ++ conn ∷ ys)
    → let t = remove_connection_in_loop conn s in
      IsTable t (xs ++ ys)
      × (t.effects ≡ s.effects ++ queue_in_loop conn.io_loop (connect_destroyed conn) ∷ [])
unfolding remove_connection_in_loop
remove_connection_in_loop_lem {s} xs conn ys v = (
  record {
    table = ap (erase conn.name) v.table ∙ erase_open conn xs ys v.distinct;
    issued =
        later-IsIssued s _ (xs ++ ys) (omega arith) (λ id. unfold conn_name in refl)
          (All-remove (IsIssued s) xs ys conn v.issued);
    distinct = Distinct-remove xs ys conn v.distinct;
    short = v.short;
    counted = v.counted;
  },
  refl,
)
