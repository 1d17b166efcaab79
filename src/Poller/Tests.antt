-- ===== src/Poller/Tests.antt =====
-- The poller over a concrete epoll instance.
use htcp_multithread.Prelude.{
  ℕ, ◌≤◌, ◌≡◌, ◌≢◌, refl, false, some, none, [], ◌∷◌, length, ◌==◌, if◌then◌else◌, arith, inl, inr,
}
use htcp_multithread.Channel.{new, added}
use htcp_multithread.Epoll.{All}
use htcp_multithread.Poller.{World, update_map, set_events, remove, poll}
use htcp_multithread.Poller.Simple.{simple_epoll}
use htcp_multithread.Poller.Synced.{IsSynced}
use htcp_multithread.Poller.Calls.{set_events_lem, remove_lem}
use htcp_multithread.Poller.Poll.{poll_ready, reported}

-- Every address has a channel; the descriptor is the address.
abbrev fresh : World simple_epoll
fresh = record {
  poller = record { channels = λ _. none; kernel = λ _. none; event_list_size = 16 };
  chans = λ a. record {
    address = a;
    fd = a;
    events = 0;
    revents = 0;
    index = new;
    tie = none;
    tied = false;
  };
}

fresh-IsSynced : IsSynced simple_epoll fresh
fresh-IsSynced = record {
  named = λ a. refl;
  listed = λ a ne. absurd (ne refl);
  mapped = λ fd a e. absurd (cc);
  held = λ a e. absurd (cc);
  owned = λ fd e h. absurd (cc);
}

set_events_lem_example :
    (w' : World simple_epoll) × (set_events simple_epoll 5 3 fresh ≡ some w')
    × IsSynced simple_epoll w'
    × (w'.chans 5 ≡ record (fresh.chans 5) { events = 3; index = added })
    × ((b : ℕ) → b ≢ 5 → w'.chans b ≡ fresh.chans b)
set_events_lem_example = set_events_lem simple_epoll fresh-IsSynced 5 (inl refl) 3

-- Channel 5 waits to read.
abbrev reading : World simple_epoll
reading = record {
  poller = record {
    channels = update_map 5 (some 5) (λ _. none);
    kernel = update_map 5 (some (record { events = 3; ptr = 5 })) (λ _. none);
    event_list_size = 1;
  };
  chans = λ a. record {
    address = a;
    fd = a;
    events = if 5 == a then 3 else 0;
    revents = 0;
    index = if 5 == a then added else new;
    tie = none;
    tied = false;
  };
}

reading-IsSynced : IsSynced simple_epoll reading
reading-IsSynced = record {
  named = λ a. refl;
  listed = λ a ne. ground arith;
  mapped = λ fd a e. ground arith;
  held = λ a e. ground arith;
  owned = λ fd e h. ground arith;
}

remove_lem_example :
    (w' : World simple_epoll) × (remove simple_epoll 5 reading ≡ some w')
    × IsSynced simple_epoll w'
    × (w'.chans 5 ≡ record (reading.chans 5) { index = new })
    × (w'.poller.channels 5 ≡ none)
    × (w'.poller.kernel 5 ≡ none)
    × ((b : ℕ) → b ≢ 5 → w'.chans b ≡ reading.chans b)
remove_lem_example = remove_lem simple_epoll reading-IsSynced 5 (inr refl)

poll_ready_example :
    let (w', active) = poll simple_epoll reading [] in
    (active ≡ 5 ∷ [])
    × All (λ a. (reading.chans a).index ≡ added) active
    × (length active ≤ 1)
    × (w'.poller.event_list_size ≡ (if length active == 1 then 2 else 1))
    × ((a : ℕ)
        → w'.chans a ≡ record (reading.chans a) {
          revents = reported simple_epoll a (record { events = 1; ptr = 5 } ∷ []) 0;
        })
    × IsSynced simple_epoll w'
poll_ready_example =
    poll_ready simple_epoll (record { events = 1; ptr = 5 } ∷ []) reading-IsSynced (omega arith)
      refl
