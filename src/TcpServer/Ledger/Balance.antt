-- ===== src/TcpServer/Ledger/Balance.antt =====
-- What the destructor of a server leaves.
use htcp_multithread.Prelude.{◌≡◌, refl, ap, List, [], ◌∷◌, append-nil, map}
use mathlib.Core.List.Perm
use mathlib.Core.List.{Perm, perm_append_comm}
use htcp_multithread.EventLoopThreadPool.RoundRobin.{IsInside}
use htcp_multithread.TcpServer.{TcpServer, Connection, connect_destroyed, run_in_loop, destroy}
use htcp_multithread.TcpServer.Table.{IsTable}
use htcp_multithread.TcpServer.Life.{destroy_lem}
use htcp_multithread.TcpServer.Ledger.{
  established, destroyed, at_home, Reach, established-append, destroyed-append,
}
use htcp_multithread.TcpServer.Ledger.Books.{Reach-IsBalanced}

-- Over the whole life of a server, connections may come in and be closed in any order: when its destructor
-- is through, exactly the connections that were given to a loop to establish have been given to a loop to
-- destroy, each as often and to the same loop, and none is left in the table. The server begins with
-- an empty table and no connection ever made.
pub destroy-balanced :
    {s t : TcpServer}
    → IsTable s []
    → IsInside s.thread_pool
    → established s.effects ≡ []
    → destroyed s.effects ≡ []
    → Reach s t
    → Perm (established (destroy t).effects) (destroyed (destroy t).effects)
      × ((destroy t).connections ≡ [])
destroy-balanced {s} {t} table inside none_yet none_gone r =
    let (live, v) =
      Reach-IsBalanced {live = []}
        (record { is_table = table; inside = inside; balance = rw (none_yet, none_gone) Perm.rfl })
        r in
    let (did, empty) = destroy_lem live v.is_table in
    (
      rw
          (
            did,
            established-append t.effects (map _ live),
            destroyed-append t.effects (map _ live),
            no_establishing live,
            all_destroying live,
            append-nil (established t.effects),
          )
          (Perm.trans v.balance (perm_append_comm (at_home live) (destroyed t.effects))),
      empty,
    )
  where
    no_establishing :
        (cs : List Connection)
        → established (map (λ c. run_in_loop c.io_loop (connect_destroyed c)) cs) ≡ []
    no_establishing [] = refl
    no_establishing (c ∷ cs) = no_establishing cs

    all_destroying :
        (cs : List Connection)
        → destroyed (map (λ c. run_in_loop c.io_loop (connect_destroyed c)) cs) ≡ at_home cs
    all_destroying [] = refl
    all_destroying (c ∷ cs) = ap (◌∷◌ (c.io_loop, c)) (all_destroying cs)
