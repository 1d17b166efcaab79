-- ===== src/Serving.antt =====
-- One round of `EventLoop::loop` of EventLoop.cc over the poller of the loop and its connections: `poll`,
-- then `handleEvent` of each active channel, whose handlers are those of the channel's connection.
pub mod Joined
pub mod Round
pub mod Runs
mod Tests
use htcp_multithread.Prelude.{ℕ, Bool, Option, none, some, ◌>>=◌, List, [], ◌∷◌, map, drop, length}
use htcp_multithread.Syscall.{ReadResult, WriteResult, SockoptResult}
use htcp_multithread.Channel.{Channel, set_revents, handle_event}
use htcp_multithread.Epoll.{Epoll}
use htcp_multithread.Poller.{World, update_map, poll}
use htcp_multithread.TcpConnection.{TcpConnection, ConnectionCallbacks, Effect, channel_callbacks}
use htcp_multithread.TcpConnection.Registered.{replay}

-- What the system calls of a connection's handlers return in a round.
pub record Answers : Type 0 where
  pub readv : List ℕ → ReadResult
  pub write : List ℕ → WriteResult
  pub so_error : SockoptResult

module _ (ep : Epoll) where
  -- `conns` finds the connection whose channel is at an address; the loop's other channels, that of the
  -- wakeup descriptor and that of an acceptor, have none.
  pub record Serving : Type 0 where
    pub world : World ep
    pub conns : ℕ → Option TcpConnection

  -- The effects of a connection on its channel, at the poller.
  abbrev pub tell_poller : ℕ → TcpConnection → TcpConnection → World ep → Option (World ep)
  tell_poller a conn conn' w =
      replay ep (map (λ e. (a, e)) (drop (length conn.effects) conn'.effects)) w

  -- An action of the connection whose channel is at `a`.
  unfoldable pub act : ℕ → (TcpConnection → Option TcpConnection) → Serving → Option Serving
  act a f s = elim (s.conns a) [
    | none ↦ some s
    | some conn ↦ (do
      conn' ← f conn
      w ← tell_poller a conn conn' s.world
      some (record { world = w; conns = update_map a (some conn') s.conns }))
  ]

  -- `alive` says which connections still have an owner.
  module _ (alive : ℕ → Bool) (k : ConnectionCallbacks) (answers : ℕ → Answers) (time : ℕ) where
    -- `handleEvent` of the channel at `a`, for which the poller left `revents`.
    abbrev pub handle_active : ℕ → (revents : ℕ) → TcpConnection → Option TcpConnection
    handle_active a revents conn =
        handle_event alive
          (channel_callbacks k (answers a).readv (answers a).write (answers a).so_error)
          (set_revents revents conn.channel) time conn

    unfoldable pub handle_all : List ℕ → Serving → Option Serving
    handle_all [] s = some s
    handle_all (a ∷ active) s =
        act a (handle_active a (s.world.chans a).revents) s >>= handle_all active

    unfoldable pub serve_round : Serving → Option Serving
    serve_round s =
        let (w, active) = poll ep s.world [] in
        handle_all active (record { world = w; conns = s.conns })
