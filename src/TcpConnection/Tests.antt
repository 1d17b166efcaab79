-- ===== src/TcpConnection/Tests.antt =====
-- TcpConnection.h and TcpConnection.cc on concrete connections.
use htcp_multithread.Prelude.{
  ℕ, suc, ◌+◌, ◌≡◌, ◌≢◌, refl, Bool, true, false, some, none, List, [], ◌∷◌, length, min, arith,
  inl,
}
use htcp_multithread.Syscall.{
  ReadResult, received, ReadsWithin, WriteResult, sent, write_failed, WritesWithin, epipe,
  ewouldblock, optval,
}
use htcp_multithread.Buffer.{Buffer}
use htcp_multithread.Buffer.Content.{content}
use htcp_multithread.Channel
use htcp_multithread.Channel.Events.{waiting}
use htcp_multithread.TcpConnection.{
  TcpConnection, ConnectionCallbacks, State, connecting, connected, disconnecting, channel_updated,
  functor_queued, write_shut_down, call_write_complete, handle_read, handle_close, send_in_loop,
}
use htcp_multithread.TcpConnection.Sound.{IsSound}
use htcp_multithread.TcpConnection.Stream.{written, stream}
use htcp_multithread.TcpConnection.Stream.Draining.{HasRoom, drain, IsDrained, drain_lem}
use htcp_multithread.TcpConnection.Sending.Results.{send_in_loop_failed}
use htcp_multithread.TcpConnection.Sending.Delivery.{
  Delivers, send_in_loop-Delivers, send_in_loop_partial, send_in_loop_stale_errno,
}
use htcp_multithread.TcpConnection.Reading.{handle_read_lem}

-- A program whose callbacks do nothing, and that asks to be told when output is gone.
abbrev quiet : ConnectionCallbacks
quiet = record {
  connection_callback = some some;
  message_callback = some (λ time s. some s);
  close_callback = some some;
  write_complete_set = true;
  high_water_mark_set = false;
}

abbrev buffer_of : List ℕ → Buffer
buffer_of bytes = record {
  buffer = 0 ∷ 0 ∷ 0 ∷ 0 ∷ 0 ∷ 0 ∷ 0 ∷ 0 ∷ bytes;
  reader_index = 8;
  writer_index = 8 + length bytes;
}

abbrev connection : State → Bool → Bool → List ℕ → ℕ → TcpConnection
connection state r w output errno = record {
  state = state;
  reading = true;
  channel = waiting r w (record {
    address = 100;
    fd = 5;
    events = 0;
    revents = 0;
    index = Channel.added;
    tie = some 7;
    tied = true;
  });
  input_buffer = buffer_of [];
  output_buffer = buffer_of output;
  high_water_mark = 64;
  effects = [];
  errno = errno;
}

-- Connected with no output; connected with three bytes of output; disconnecting with the same.
abbrev idle : TcpConnection
idle = connection connected true false [] ewouldblock

abbrev busy : TcpConnection
busy = connection connected true true (1 ∷ 2 ∷ 3 ∷ []) 0

abbrev leaving : TcpConnection
leaving = connection disconnecting true true (1 ∷ 2 ∷ 3 ∷ []) 0

idle-IsSound : IsSound true false idle
idle-IsSound = record {
  input_valid = omega arith;
  output_valid = omega arith;
  mask = refl;
  pending = λ e. cc;
  drained = λ e ne. refl;
}

busy-IsSound : IsSound true true busy
busy-IsSound = record {
  input_valid = omega arith;
  output_valid = omega arith;
  mask = refl;
  pending = λ e z. cc;
  drained = λ e. cc;
}

leaving-IsSound : IsSound true true leaving
leaving-IsSound = record {
  input_valid = omega arith;
  output_valid = omega arith;
  mask = refl;
  pending = λ e z. cc;
  drained = λ e. cc;
}

-- A kernel that takes everything, one that takes two bytes at most, and one that takes nothing.
abbrev take_all : List ℕ → WriteResult
take_all bytes = sent (length bytes)

abbrev take_two : List ℕ → WriteResult
take_two bytes = sent (min 2 (length bytes))

abbrev take_none : List ℕ → WriteResult
take_none bytes = write_failed ewouldblock

take_all-WritesWithin : WritesWithin take_all
take_all-WritesWithin bytes n e = ground arith

take_two-WritesWithin : WritesWithin take_two
take_two-WritesWithin bytes n e = ground arith

behind_waiting : Delivers quiet take_all (4 ∷ 5 ∷ []) (4 ∷ 5 ∷ []) true busy
behind_waiting =
    send_in_loop-Delivers quiet take_all (4 ∷ 5 ∷ []) true true busy-IsSound (λ e. cc) (omega arith)
      (inl refl)

-- Five bytes of which the kernel takes two: the output then holds 1, 2, 3 and not 3, 4, 5.
send_in_loop_partial_example :
    (s' : TcpConnection) × (send_in_loop quiet take_two (1 ∷ 2 ∷ 3 ∷ 4 ∷ 5 ∷ []) idle ≡ some s')
    × (written s'.effects ≡ 1 ∷ 2 ∷ [])
    × (content s'.output_buffer ≡ 1 ∷ 2 ∷ 3 ∷ [])
send_in_loop_partial_example =
    send_in_loop_partial quiet take_two (1 ∷ 2 ∷ 3 ∷ 4 ∷ 5 ∷ []) 2 idle-IsSound (λ e. cc)
      (omega arith) (omega arith) refl refl

broken_before : IsSound true false (record idle { errno = epipe })
broken_before = record {
  input_valid = omega arith;
  output_valid = omega arith;
  mask = refl;
  pending = λ e. cc;
  drained = λ e ne. refl;
}

send_in_loop_stale_errno_example :
    (s' : TcpConnection) × (send_in_loop quiet take_two
        (1 ∷ 2 ∷ 3 ∷ [])
        (record idle { errno = epipe })
      ≡ some s')
    × (stream s' ≡ 1 ∷ 2 ∷ [])
    × (s'.state ≡ connected)
send_in_loop_stale_errno_example =
    send_in_loop_stale_errno quiet take_two (1 ∷ 2 ∷ 3 ∷ []) 2 broken_before (λ e. cc) (omega arith)
      (omega arith) refl refl

send_in_loop_failed_example : send_in_loop quiet take_none (1 ∷ 2 ∷ []) idle ≡ none
send_in_loop_failed_example =
    send_in_loop_failed quiet take_none (1 ∷ 2 ∷ []) idle-IsSound (λ e. cc) ewouldblock
      (omega arith) refl

-- A peer that has closed its side.
abbrev end_of_file : List ℕ → ReadResult
end_of_file lens = received []

end_of_file-ReadsWithin : ReadsWithin end_of_file
end_of_file-ReadsWithin lens bytes e = ground arith

read_at_end :
    (b : Buffer) × (handle_read quiet end_of_file (optval 0) 9 busy
      ≡ handle_close quiet (record busy { input_buffer = b }))
    × (content b ≡ [])
    × IsSound true true (record busy { input_buffer = b })
read_at_end =
    handle_read_lem quiet true true end_of_file (optval 0) 9 (λ time s. some s) busy-IsSound
      end_of_file-ReadsWithin (omega arith) refl (received []) refl

abbrev fresh : TcpConnection
fresh = connection connecting false false [] 0

fresh-IsSound : IsSound false false fresh
fresh-IsSound = record {
  input_valid = omega arith;
  output_valid = omega arith;
  mask = refl;
  pending = λ e. cc;
  drained = λ e ne. refl;
}

take_two-HasRoom : HasRoom take_two
take_two-HasRoom = (take_two-WritesWithin, takes)
  where
    takes : (bytes : List ℕ) → bytes ≢ [] → (n : ℕ) × (take_two bytes ≡ sent (suc n))
    takes [] ne = absurd (ne refl)
    takes (x ∷ []) ne = (0, refl)
    takes (x ∷ y ∷ bytes) ne = (1, ground arith)

drain_lem_example :
    (s' : TcpConnection) × (drain quiet (take_two ∷ take_two ∷ take_two ∷ []) leaving ≡ some s')
    × IsDrained quiet true
        (1 ∷ 2 ∷ 3 ∷ [])
        (channel_updated 3 ∷ functor_queued call_write_complete ∷ write_shut_down ∷ [])
        s'
drain_lem_example =
    drain_lem quiet (take_two ∷ take_two ∷ take_two ∷ []) leaving leaving-IsSound (λ e. cc)
      (take_two-HasRoom, (take_two-HasRoom, (take_two-HasRoom, tt))) (omega arith)
