-- ===== src/TcpConnection/Registered/Tests.antt =====
-- Two connections of one loop, over a concrete epoll instance.
use htcp_multithread.Prelude.{ℕ, ◌≡◌, refl, true, false, some, none, List, [], ◌∷◌, ◌++◌, map}
use htcp_multithread.Channel
use htcp_multithread.Channel.{new}
use htcp_multithread.Channel.Events.{waiting}
use htcp_multithread.Poller.{World}
use htcp_multithread.Poller.Simple.{simple_epoll}
use htcp_multithread.Poller.Synced.{IsSynced}
use htcp_multithread.TcpConnection.{
  TcpConnection, ConnectionCallbacks, Effect, connected, init, keep_alive_set, channel_updated,
  connection_called, connect_established, connect_destroyed,
}
use htcp_multithread.TcpConnection.Runs.{establishes, callbacks, Reach, begun, later}
use htcp_multithread.TcpConnection.Registered.{registered, replay}
use htcp_multithread.TcpConnection.Registered.Lifetime.{
  IsFresh, Lists, replay-Reach, replay-destroyed,
}

-- The descriptor of a channel is its address, and no channel is registered.
abbrev fresh : World simple_epoll
fresh = record {
  poller = record { channels = λ _. none; kernel = λ _. none; event_list_size = 16 };
  chans = λ a. record {
    address = a;
    fd = a;
    events = 0;
    revents = 0;
    index = new;
    tie = none;
    tied = false;
  };
}

fresh-IsFresh : IsFresh simple_epoll fresh 5
fresh-IsFresh = record {
  synced = record {
    named = λ a. refl;
    listed = λ a ne. absurd (ne refl);
    mapped = λ fd a e. absurd (cc);
    held = λ a e. absurd (cc);
    owned = λ fd e h. absurd (cc);
  };
  distinct = λ a b same. same;
  is_new = refl;
  is_idle = refl;
}

abbrev k : ConnectionCallbacks
k = callbacks true false

abbrev up : TcpConnection
up = record (init 5 5) {
  state = connected;
  channel = waiting true false (Channel.set_tie 7 (Channel.init 5 5));
  effects = keep_alive_set ∷ channel_updated 3 ∷ connection_called connected ∷ [];
}

up_next : connect_established k 7 (init 5 5) ≡ some up
unfolding init Channel.init Channel.set_tie connect_established Channel.enable_reading
up_next = refl

up-Reach : Reach k 5 5 up []
unfolding init
up-Reach = later (establishes 7) begun refl up_next

-- The connection with channel 5 and one with channel 6, established at the same time.
abbrev both : List (ℕ × Effect)
both =
    (5, keep_alive_set)
    ∷ (6, keep_alive_set)
    ∷ (6, channel_updated 3)
    ∷ (5, channel_updated 3)
    ∷ (5, connection_called connected)
    ∷ (6, connection_called connected)
    ∷ []

both_up :
    (w' : World simple_epoll) × (replay simple_epoll both fresh ≡ some w')
    × IsSynced simple_epoll w'
    × ((w'.chans 5).events ≡ up.channel.events)
    × Lists simple_epoll w' (registered false up.effects) 5 5 up.channel.events
both_up = replay-Reach simple_epoll fresh-IsFresh both true false up-Reach refl

replay-destroyed_example :
    (t : TcpConnection) × (connect_destroyed k up ≡ some t)
    × (es : List Effect) × (t.effects ≡ up.effects ++ es)
    × (w' : World simple_epoll) × (replay simple_epoll (both ++ map (λ e. (5, e)) es) fresh
        ≡ some w')
    × IsSynced simple_epoll w'
    × (w'.poller.channels 5 ≡ none)
    × (w'.poller.kernel 5 ≡ none)
replay-destroyed_example = replay-destroyed simple_epoll fresh-IsFresh both true false up-Reach refl
