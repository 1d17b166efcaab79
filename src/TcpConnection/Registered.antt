-- ===== src/TcpConnection/Registered.antt =====
-- The connections of a loop over the poller of the loop: each `enableReading`, `enableWriting`,
-- `disableWriting`, `disableAll` and `remove` of a connection's channel becomes the call of the poller
-- that `Channel::update` and `Channel::remove` of Channel.cc hand on through `EventLoop`.
pub mod Touching
pub mod Replay
pub mod Lifetime
mod Tests
use htcp_multithread.Prelude.{
  ℕ, Bool, true, false, Option, some, ◌>>=◌, List, [], ◌∷◌, ◌==◌, if◌then◌else◌,
}
use htcp_multithread.Epoll.{Epoll}
use htcp_multithread.Poller.{World, set_events, remove}
use htcp_multithread.TcpConnection.{Effect, channel_updated, channel_removed}

-- Whether the poller has a channel after some effects of its connection, if it had it before as `b`
-- says.
abbrev pub registered_by : Effect → Bool → Bool
registered_by (channel_updated events) b = true
registered_by channel_removed b = false
registered_by _ b = b

abbrev pub registered : Bool → List Effect → Bool
registered b [] = b
registered b (e ∷ es) = registered (registered_by e b) es

-- What the connections of a loop do, one after another: the address of the channel, and the effect.
-- These are the effects of one of them.
abbrev pub of_channel : ℕ → List (ℕ × Effect) → List Effect
of_channel a [] = []
of_channel a (x ∷ xs) = if a == x.0 then x.1 ∷ of_channel a xs else of_channel a xs

module _ (ep : Epoll) where
  -- What an effect of the connection whose channel is at `a` does to the poller.
  unfoldable pub touch : ℕ → Effect → World ep → Option (World ep)
  touch a (channel_updated events) w = set_events ep a events w
  touch a channel_removed w = remove ep a w
  touch a _ w = some w

  unfoldable pub replay : List (ℕ × Effect) → World ep → Option (World ep)
  replay [] w = some w
  replay (x ∷ xs) w = touch x.0 x.1 w >>= replay xs
