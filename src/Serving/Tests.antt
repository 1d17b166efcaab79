-- ===== src/Serving/Tests.antt =====
-- A loop that takes a connection on, has output waiting on it, and serves it for a round, over a concrete
-- epoll instance.
use htcp_multithread.Prelude.{
  ℕ, ◌≡◌, ◌≢◌, refl, ap, sym, subst, ◌∙◌, Bool, true, false, none, some, List, [], ◌∷◌, map, ◌==◌,
  if◌then◌else◌, arith, ℕ_discrete, leb, min, length, inr,
}
use htcp_multithread.Syscall.{sent, sum, received, read_failed, optval}
use htcp_multithread.Buffer
use htcp_multithread.Channel
use htcp_multithread.Channel.{new, added}
use htcp_multithread.Channel.Events.{waiting}
use htcp_multithread.Epoll.{All, EpollEvent, ready}
use htcp_multithread.Poller.{update_map, set_events, update_channel, update, poll}
use htcp_multithread.Poller.Simple.{simple_epoll}
use htcp_multithread.Poller.Synced.{IsSynced}
use htcp_multithread.TcpConnection.{
  TcpConnection, ConnectionCallbacks, init, connecting, connected, keep_alive_set, channel_updated,
  connection_called, connect_established, send, send_in_loop, keep_rest, first_write, buffer_rest,
  wait_for_room, note_high_water,
}
use htcp_multithread.TcpConnection.Sound.{IsSound}
use htcp_multithread.TcpConnection.Runs.{Op, MayCome, sends, callbacks, establishes, run_op}
use htcp_multithread.TcpConnection.Runs.Dispatch.{IsRoomy}
use htcp_multithread.TcpConnection.Registered.{registered, replay, touch}
use htcp_multithread.TcpConnection.Registered.Replay.{AreDistinct}
use htcp_multithread.TcpConnection.Registered.Lifetime.{Lists}
use htcp_multithread.Serving.{Serving, Answers, act, serve_round}
use htcp_multithread.Serving.Joined.{IsServing}
use htcp_multithread.Serving.Round.{
  AreWithin, ReportsOnce, HasRoom, IsUnique, handled, polled, serve_round_lem,
}
use htcp_multithread.Serving.Runs.{
  Reach, begun, later, comes, acts, placed, injective, none_not_some, empty-IsServing,
  Reach-IsServing, Reach-shows,
}

-- The descriptor of a channel is its address, and there is no connection.
abbrev fresh : Serving simple_epoll
fresh = record {
  world = record {
    poller = record { channels = λ _. none; kernel = λ _. none; event_list_size = 16 };
    chans = λ a. record {
      address = a;
      fd = a;
      events = 0;
      revents = 0;
      index = new;
      tie = none;
      tied = false;
    };
  };
  conns = λ _. none;
}

fresh-IsSynced : IsSynced simple_epoll fresh.world
fresh-IsSynced = record {
  named = λ a. refl;
  listed = λ a ne. absurd (ne refl);
  mapped = λ fd a e. absurd (cc);
  held = λ a e. absurd (cc);
  owned = λ fd e h. absurd (cc);
}

fresh-AreDistinct : AreDistinct simple_epoll fresh.world
fresh-AreDistinct a b e = e

abbrev k : ConnectionCallbacks
k = callbacks true false

abbrev up : TcpConnection
up = record (init 5 5) {
  state = connected;
  channel = waiting true false (Channel.set_tie 7 (Channel.init 5 5));
  effects = keep_alive_set ∷ channel_updated 3 ∷ connection_called connected ∷ [];
}

-- The loop once the connection with channel 5 is established.
abbrev busy : Serving simple_epoll
busy = record {
  world = record {
    poller = record {
      channels = update_map 5 (some 5) (λ _. none);
      kernel = update_map 5 (some (record { events = 3; ptr = 5 })) (λ _. none);
      event_list_size = 16;
    };
    chans =
        update_map 5 (record (fresh.world.chans 5) { events = 3; index = added }) fresh.world.chans;
  };
  conns = update_map 5 (some up) (update_map 5 (some (init 5 5)) (λ _. none));
}

established :
    act simple_epoll 5 (run_op k (establishes 7)) (placed 5 (some (init 5 5)) fresh) ≡ some busy
unfolding act init Channel.init Channel.set_tie connect_established Channel.enable_reading replay
    touch set_events update_channel update Channel.set_index
established = refl

busy-Reach : Reach simple_epoll true false fresh busy
unfolding init
busy-Reach = later (later begun (comes 5 refl refl refl)) (
    acts 5 (establishes 7) (λ conn e. subst (λ x. x.state ≡ connecting) (injective e) refl)
      established)

-- It sends three bytes, of which the kernel takes two, so that it waits for room to write.
abbrev says_part : Op
says_part = sends (λ bytes. sent (min 2 (length bytes))) 70 (1 ∷ 2 ∷ 3 ∷ [])

abbrev full : TcpConnection
full = elim (run_op k says_part up) [ none ↦ up | some conn ↦ conn ]

abbrev crowded : Serving simple_epoll
crowded = elim (act simple_epoll 5 (run_op k says_part) busy) [ none ↦ busy | some s ↦ s ]

crowded_next : act simple_epoll 5 (run_op k says_part) busy ≡ some crowded
unfolding act init Channel.init Channel.set_tie replay touch set_events update_channel update
    Channel.set_index send send_in_loop keep_rest first_write Channel.is_writing
    Buffer.readable_bytes Buffer.init buffer_rest wait_for_room note_high_water
    Channel.enable_writing Buffer.append Buffer.ensure_writable_bytes Buffer.writable_bytes
    Buffer.copy_in Channel.is_none_event
crowded_next = refl

full_next : crowded.conns 5 ≡ some full
unfolding act init Channel.init Channel.set_tie replay touch set_events update_channel update
    Channel.set_index send send_in_loop keep_rest first_write Channel.is_writing
    Buffer.readable_bytes Buffer.init buffer_rest wait_for_room note_high_water
    Channel.enable_writing Buffer.append Buffer.ensure_writable_bytes Buffer.writable_bytes
    Buffer.copy_in Channel.is_none_event
full_next = refl

full_waits : full.channel.events ≡ 7
unfolding init Channel.init Channel.set_tie send send_in_loop keep_rest first_write
    Channel.is_writing Buffer.readable_bytes Buffer.init buffer_rest wait_for_room note_high_water
    Channel.enable_writing Buffer.append Buffer.ensure_writable_bytes Buffer.writable_bytes
    Buffer.copy_in
full_waits = refl

says_part-MayCome : (conn : TcpConnection) → busy.conns 5 ≡ some conn → MayCome says_part conn
unfolding init Buffer.init Channel.is_writing Channel.init Channel.set_tie
says_part-MayCome conn e =
    subst (MayCome says_part) (injective e) (omega arith, inr (2, refl, omega arith))

crowded-Reach : Reach simple_epoll true false fresh crowded
crowded-Reach = later busy-Reach (acts 5 says_part says_part-MayCome crowded_next)

Reach-shows_example :
    IsSynced simple_epoll crowded.world
    × ((crowded.world.chans 5).events ≡ full.channel.events)
    × Lists simple_epoll crowded.world
        (registered false full.effects)
        5
        (crowded.world.chans 5).fd
        full.channel.events
    × (r : Bool) × (w : Bool) × IsSound r w full
Reach-shows_example =
    Reach-shows simple_epoll true false fresh-IsSynced fresh-AreDistinct (λ a. refl) crowded-Reach 5
      full full_next

-- Two bytes come in, if `readv` has room for them, and the kernel takes what is waiting.
abbrev answers : ℕ → Answers
answers a = record {
  readv = λ lens. if leb 2 (sum lens) then received (104 ∷ 105 ∷ []) else read_failed 11;
  write = λ bytes. sent (length bytes);
  so_error = optval 0;
}

answers-AreWithin : AreWithin answers
answers-AreWithin a = ((λ lens bytes e. ground (arith, e)), (λ bytes n e. ground (arith, e)))

crowded-ReportsOnce : ReportsOnce simple_epoll crowded.world
unfolding act init Channel.init Channel.set_tie replay touch set_events update_channel update
    Channel.set_index send send_in_loop keep_rest first_write Channel.is_writing
    Buffer.readable_bytes Buffer.init buffer_rest wait_for_room note_high_water
    Channel.enable_writing Buffer.append Buffer.ensure_writable_bytes Buffer.writable_bytes
    Buffer.copy_in Channel.is_none_event
crowded-ReportsOnce es e = subst (λ xs. IsUnique (map (λ x. x.ptr) xs)) (same_list e) (tt, tt)
  where
    same_list : {xs ys : List EpollEvent} → ready xs ≡ ready ys → xs ≡ ys
    same_list e = cc e

crowded-HasRoom : (a : ℕ) → HasRoom simple_epoll crowded a
unfolding act init Channel.init Channel.set_tie replay touch set_events update_channel update
    Channel.set_index send send_in_loop keep_rest first_write Channel.is_writing
    Buffer.readable_bytes Buffer.init buffer_rest wait_for_room note_high_water
    Channel.enable_writing Buffer.append Buffer.ensure_writable_bytes Buffer.writable_bytes
    Buffer.copy_in Channel.is_none_event
crowded-HasRoom a conn e = elim (ℕ_discrete a 5) [
  | yes same ↦ subst IsRoomy (injective (sym (ap crowded.conns same) ∙ e)) (omega arith)
  | no ne ↦
      (let apart : (5 == a) ≡ false = ground (arith, ne) in
        absurd (none_not_some (sym (rw apart refl) ∙ e)))
]

serve_round_lem_example :
    (s' : Serving simple_epoll) × (serve_round simple_epoll (λ _. true) k answers 9 crowded
      ≡ some s')
    × IsServing simple_epoll true false s'
    × All
        (λ a.
          s'.conns a
          ≡ handled simple_epoll true false
              (λ _. true)
              answers
              9
              answers-AreWithin
              (polled simple_epoll crowded)
              a)
        (poll simple_epoll crowded.world []).1
    × ((b : ℕ)
        → All (λ a. b ≢ a) (poll simple_epoll crowded.world []).1
        → s'.conns b ≡ crowded.conns b)
serve_round_lem_example =
    serve_round_lem simple_epoll true false (λ _. true) answers 9 answers-AreWithin
      (Reach-IsServing simple_epoll true false
        (empty-IsServing simple_epoll true false fresh-IsSynced fresh-AreDistinct (λ a. refl))
        crowded-Reach)
      crowded-ReportsOnce crowded-HasRoom
