-- ===== src/Lifecycle/Accepting.antt =====
-- `newConnection` in the life of connections.
use htcp_multithread.Prelude.{
  ℕ, suc, ◌+◌, ◌<◌, ◌≡◌, ◌≢◌, refl, ap, sym, subst, ◌∙◌, Bool, false, Option, none, some, List, [],
  ◌∷◌, ◌++◌, Bool-cases, inl, inr, leb, arith, if◌then◌else◌,
}
use htcp_multithread.EventLoopThreadPool
use htcp_multithread.EventLoopThreadPool.{EventLoopThreadPool}
use htcp_multithread.TcpServer.{
  TcpServer, Connection, Task, is_same, conn_name, int_max, run_in_loop, connect_established, put,
  make_connection, new_connection,
}
use htcp_multithread.TcpServer.Names.{is_same_self, is_same_sound, conn_name_injective}
use htcp_multithread.TcpServer.Table.{is_same_ne}
use htcp_multithread.TcpConnection.{init}
use htcp_multithread.Lifecycle.{Object, System, set_object, collect, accept}
use htcp_multithread.Lifecycle.Counts.{
  establishes, removes, destroys, count, held-put, count-append,
}
use htcp_multithread.Lifecycle.Phases.{
  IsWhole, Phase, IsIssued, IsCounted, unborn, arriving, up, closing, leaving, gone, IsUnseen,
  phases_but_one,
}

-- What a call of `newConnection` that succeeds has done.
record Accepted (s t : TcpServer) : Type 0 where
  conn : Connection
  pool : EventLoopThreadPool
  named : conn.name ≡ conn_name s s.next_conn_id
  room : s.next_conn_id < int_max
  after :
      record s {
        thread_pool = pool;
        next_conn_id = suc s.next_conn_id;
        connections = put conn.name conn s.connections;
        effects = s.effects ++ run_in_loop conn.io_loop (connect_established conn) ∷ [];
      }
      ≡ t

module _ (getsockname : ℕ → Option ℕ) (sockfd peer_addr : ℕ) where
  new_connection-Accepted :
      (s t : TcpServer) → new_connection getsockname sockfd peer_addr s ≡ some t → Accepted s t
  unfolding new_connection make_connection
  new_connection-Accepted s t = go (EventLoopThreadPool.get_next_loop s.thread_pool) refl
    where
      go :
          (o : Option (ℕ × EventLoopThreadPool))
          → EventLoopThreadPool.get_next_loop s.thread_pool ≡ o
          → new_connection getsockname sockfd peer_addr s ≡ some t
          → Accepted s t
      go none e did =
          let fails : new_connection getsockname sockfd peer_addr s ≡ none = rw e refl in
          absurd (cc (sym fails ∙ did))
      go (some (l, pool)) e did = elim (Bool-cases (leb int_max s.next_conn_id)) [
        | inl full ↦
            (let fails : new_connection getsockname sockfd peer_addr s ≡ none = rw (e, full) refl in
              absurd (cc (sym fails ∙ did)))
        | inr small ↦
            (let conn = make_connection getsockname l sockfd peer_addr s in
              let does : new_connection getsockname sockfd peer_addr s
                  ≡ some (record s {
                    thread_pool = pool;
                    next_conn_id = suc s.next_conn_id;
                    connections = put conn.name conn s.connections;
                    effects = s.effects ++ run_in_loop conn.io_loop (connect_established conn) ∷ [];
                  }) =
                rw (e, small) refl in
              record {
                conn = conn;
                pool = pool;
                named = refl;
                room = ground (arith, small);
                after = cc (sym does ∙ did);
              })
      ]

module _ {s : System} (v : IsWhole s) (server : TcpServer) (a : Accepted s.server server)
    (self : ℕ) where
  abbrev newborn : Object
  newborn = record { facts = a.conn; self = self; body = init self a.conn.sockfd }

  abbrev arrived : System
  arrived = record {
    server = record (s.server) {
      thread_pool = a.pool;
      next_conn_id = suc s.server.next_conn_id;
      connections = put a.conn.name a.conn s.server.connections;
      effects = [];
    };
    objects = set_object a.conn.name newborn s.objects;
    pending = s.pending ++ (a.conn.io_loop, connect_established a.conn) ∷ [];
  }

  -- The name is new.
  untaken : (o : Object) → s.objects a.conn.name ≡ some o → ⊥
  untaken o e =
      let (id, lt, same) = v.issued a.conn.name o e in
      omega (
        arith,
        conn_name_injective s.server s.server.next_conn_id id v.short v.counted (omega arith)
            (sym a.named ∙ same),
      )

  unborn_yet : (s.objects a.conn.name ≡ none) × IsCounted s a.conn.name 0 0 0 0
  unborn_yet = go (v.phases a.conn.name)
    where
      go : Phase s a.conn.name → (s.objects a.conn.name ≡ none) × IsCounted s a.conn.name 0 0 0 0
      go (unborn e k) = (e, k)
      go (arriving o w k) = absurd (untaken o w.0)
      go (up o w k) = absurd (untaken o w.0)
      go (closing o w k) = absurd (untaken o w.0)
      go (leaving o w k) = absurd (untaken o w.0)
      go (gone o w k) = absurd (untaken o w.0)

  posted :
      (p : Task → Bool)
      → count p arrived.pending
        ≡ count p s.pending + (if p (connect_established a.conn) then 1 else 0)
  posted p = count-append p s.pending _ ∙ omega arith

  arrived-IsUnseen : (n : List ℕ) → a.conn.name ≢ n → IsUnseen s arrived n
  arrived-IsUnseen n ne =
      let apart : is_same a.conn.name n ≡ false = is_same_ne a.conn.name n ne in
      record {
        object = rw apart refl;
        to_establish = posted (establishes n) ∙ rw apart (omega arith);
        to_remove = posted (removes n) ∙ omega arith;
        to_destroy = posted (destroys n) ∙ omega arith;
        entries =
            held-put n a.conn.name a.conn s.server.connections unborn_yet.1.3
            ∙ rw apart (omega arith);
      }

  arrived-Phase : Phase arrived a.conn.name
  unfolding init
  arrived-Phase =
      let (e, (k₁, k₂, k₃, k₄)) = unborn_yet in
      let here = is_same_self a.conn.name in
      arriving newborn (rw here refl, refl, refl, (refl, refl))
        (
          posted (establishes a.conn.name) ∙ rw here (omega arith),
          posted (removes a.conn.name) ∙ omega arith,
          posted (destroys a.conn.name) ∙ omega arith,
          held-put a.conn.name a.conn.name a.conn s.server.connections k₄ ∙ rw here (omega arith),
        )

  arrived-IsIssued :
      (n : List ℕ) (o : Object) → arrived.objects n ≡ some o → IsIssued arrived.server n
  unfolding conn_name
  arrived-IsIssued n o e = elim (Bool-cases (is_same a.conn.name n)) [
    | inl same ↦
        (s.server.next_conn_id, omega arith, sym (is_same_sound a.conn.name n same) ∙ a.named)
    | inr other ↦
        (let old : s.objects n ≡ some o =
            ap (λ b. if b then some newborn else s.objects n) (sym other) ∙ e in
          let (id, lt, same) = v.issued n o old in (id, omega arith, same))
  ]

  arrived-IsWhole : IsWhole arrived
  arrived-IsWhole = record {
    phases = phases_but_one a.conn.name v.phases arrived-IsUnseen arrived-Phase;
    issued = arrived-IsIssued;
    collected = refl;
    short = v.short;
    counted = omega (arith, a.room);
  }

-- A connection that comes in.
pub accept-IsWhole :
    {s t : System} (getsockname : ℕ → Option ℕ) (sockfd peer_addr self : ℕ)
    → IsWhole s
    → accept getsockname sockfd peer_addr self s ≡ some t
    → IsWhole t
unfolding accept collect
accept-IsWhole {s} {t} getsockname sockfd peer_addr self v =
    go (new_connection getsockname sockfd peer_addr s.server) refl
  where
    go :
        (o : Option TcpServer)
        → new_connection getsockname sockfd peer_addr s.server ≡ o
        → accept getsockname sockfd peer_addr self s ≡ some t
        → IsWhole t
    go none e did =
        let fails : accept getsockname sockfd peer_addr self s ≡ none = rw e refl in
        absurd (cc (sym fails ∙ did))
    go (some server) e did =
        let a = new_connection-Accepted getsockname sockfd peer_addr s.server server e in
        let does : accept getsockname sockfd peer_addr self s ≡ some (arrived v server a self) =
          rw (e, sym a.after, v.collected) refl in
        subst IsWhole (cc (sym does ∙ did)) (arrived-IsWhole v server a self)
