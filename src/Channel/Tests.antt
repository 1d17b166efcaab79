-- ===== src/Channel/Tests.antt =====
-- Channel.h and Channel.cc on concrete channels.
use htcp_multithread.Prelude.{ℕ, ◌≡◌, refl, true, false, Option, some, List, [], ◌∷◌, ◌++◌}
use htcp_multithread.Channel.{Channel, new, Callbacks, handle_event_with_guard, handle_event}
use htcp_multithread.Channel.Events.{waiting}
use htcp_multithread.Channel.Dispatch.{
  Kind, closing, failing, reading, writing, handle_event_tied, handle_event_with_guard_lem,
}

-- A loop that only counts the updates.
abbrev count_updates : Channel → List ℕ → Option (Channel × List ℕ)
count_updates c masks = some (c, masks ++ c.events ∷ [])

abbrev idle : Channel
idle = waiting false false (record {
  address = 100;
  fd = 5;
  events = 0;
  revents = 0x11;
  index = new;
  tie = some 7;
  tied = true;
})

-- Callbacks that write down which of them was called.
abbrev recorders : Callbacks (List Kind)
recorders = record {
  read_callback = some (λ time kinds. some (kinds ++ reading ∷ []));
  write_callback = some (λ kinds. some (kinds ++ writing ∷ []));
  close_callback = some (λ kinds. some (kinds ++ closing ∷ []));
  error_callback = some (λ kinds. some (kinds ++ failing ∷ []));
}

-- EPOLLHUP with EPOLLIN does not close; without it, it closes first.
hang_up_with_input : handle_event_with_guard recorders 0x11 0 [] ≡ some (reading ∷ [])
unfolding handle_event_with_guard
hang_up_with_input = refl

hang_up_alone :
    handle_event_with_guard recorders 0x1c 0 [] ≡ some (closing ∷ failing ∷ writing ∷ [])
unfolding handle_event_with_guard
hang_up_alone = refl

handle_event_with_guard_lem_example :
    handle_event_with_guard recorders 0x1a 0 [] ≡ some (closing ∷ failing ∷ reading ∷ [])
handle_event_with_guard_lem_example = handle_event_with_guard_lem recorders 0 0x1a []

unowned : handle_event (λ _. false) recorders idle 0 [] ≡ some []
unowned = handle_event_tied recorders 0 (λ _. false) idle 7 [] refl refl
