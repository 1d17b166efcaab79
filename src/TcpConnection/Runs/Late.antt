-- ===== src/TcpConnection/Runs/Late.antt =====
-- A `send` from another thread whose functor runs after a `shutdown` of the loop's own thread.
use htcp_multithread.Prelude.{ℕ, ◌≡◌, Bool, false, List, length}
use htcp_multithread.Syscall.{WriteResult}
use htcp_multithread.TcpConnection.{
  TcpConnection, ConnectionCallbacks, connected, emit, functor_queued, queued_send,
}
use htcp_multithread.TcpConnection.Sound.{IsSound}

module _ (k : ConnectionCallbacks) (write : List ℕ → WriteResult) (address : ℕ) (bytes : List ℕ)
    {r : Bool} {s : TcpConnection} (v : IsSound r false s) (live : s.state ≡ connected) where
  -- The connection with the functor queued, and then shut down.
  abbrev queued : TcpConnection
  queued = emit (functor_queued (queued_send address (length bytes))) s
