-- ===== src/TcpServer/Life.antt =====
-- The beginning and the end of a server.
use htcp_multithread.Prelude.{
  ℕ, suc, ◌≤◌, ◌≡◌, refl, false, List, [], ◌∷◌, ◌++◌, arith, length, map, ◌==◌, Bool-cases, inl,
  inr,
}
use htcp_multithread.TcpServer.{
  TcpServer, Connection, run_in_loop, connect_destroyed, init, start, destroy, destroy_all,
}
use htcp_multithread.TcpServer.Names.{max_ip_port}
use htcp_multithread.TcpServer.Table.{IsTable, entries}

start_counts : (f : List ℕ → ℕ) (s : TcpServer) → (start f s).started ≡ suc s.started
unfolding start
start_counts f s = elim (Bool-cases (s.started == 0)) [ inl e ↦ rw e refl | inr e ↦ rw e refl ]

start_again :
    (f : List ℕ → ℕ) (s : TcpServer) (n : ℕ)
    → s.started ≡ suc n
    → start f s ≡ record s { started = suc s.started }
unfolding start
start_again f s n e = let started : (s.started == 0) ≡ false = ground (arith, e) in rw started refl

start_keeps : (f : List ℕ → ℕ) (s : TcpServer) → (start f s).connections ≡ s.connections
unfolding start
start_keeps f s = elim (Bool-cases (s.started == 0)) [ inl e ↦ rw e refl | inr e ↦ rw e refl ]

-- Only the first `start` does anything: the second one leaves the pool's threads and the listening
-- socket alone, whatever the threads would have been. Neither touches the connections.
pub start-start :
    (f g : List ℕ → ℕ) (s : TcpServer)
    → ((start g (start f s)).effects ≡ (start f s).effects)
      × ((start g (start f s)).thread_pool ≡ (start f s).thread_pool)
      × ((start g (start f s)).connections ≡ s.connections)
start-start f g s =
    rw (start_again g (start f s) s.started (start_counts f s)) (refl, refl, start_keeps f s)

pub init-IsTable :
    (loop : ℕ) (ip_port name : List ℕ)
    → length ip_port ≤ max_ip_port
    → IsTable (init loop ip_port name) []
unfolding init
init-IsTable loop ip_port name short = record {
  table = refl;
  issued = tt;
  distinct = tt;
  short = short;
  counted = omega arith;
}

destroy_all-entries :
    (live : List Connection)
    → destroy_all (entries live) ≡ map (λ c. run_in_loop c.io_loop (connect_destroyed c)) live
destroy_all-entries [] = refl
destroy_all-entries (c ∷ cs) = rw (destroy_all-entries cs) refl

-- The destructor has every connection that is still open destroyed once, in its own loop, and no
-- other one.
pub destroy_lem :
    {s : TcpServer} (live : List Connection)
    → IsTable s live
    → ((destroy s).effects
        ≡ s.effects ++ map (λ c. run_in_loop c.io_loop (connect_destroyed c)) live)
      × ((destroy s).connections ≡ [])
unfolding destroy
destroy_lem {s} live v = (rw (v.table, destroy_all-entries live) refl, refl)
