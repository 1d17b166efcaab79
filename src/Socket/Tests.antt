-- ===== src/Socket/Tests.antt =====
-- A socket whose options are set, and set again.
use htcp_multithread.Prelude.{◌≡◌, true, false, [], ◌∷◌}
use htcp_multithread.Socket.{init}
use htcp_multithread.Socket.Options.{reuse_addr_set, keep_alive_set, set_all, view, view-set_all}

options_in_order :
    view
      (set_all (reuse_addr_set true ∷ keep_alive_set true ∷ reuse_addr_set false ∷ []) (init 7 []))
    ≡ record { tcp_no_delay = false; reuse_addr = false; reuse_port = false; keep_alive = true }
unfolding init
options_in_order =
    view-set_all (reuse_addr_set true ∷ keep_alive_set true ∷ reuse_addr_set false ∷ []) (init 7 [])
