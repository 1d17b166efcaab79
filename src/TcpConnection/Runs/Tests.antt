-- ===== src/TcpConnection/Runs/Tests.antt =====
-- A connection from its beginning to its end.
use htcp_multithread.Prelude.{
  ℕ, ◌≡◌, refl, Bool, true, false, Option, none, some, List, [], ◌∷◌, length, min, arith, inr, ◌⊎◌,
  ◌+◌, ◌&&◌, if◌then◌else◌,
}
use htcp_multithread.Syscall.{WriteResult, sent, WritesWithin}
use htcp_multithread.Buffer
use htcp_multithread.Channel
use htcp_multithread.Channel.Events.{waiting}
use htcp_multithread.TcpConnection.{
  TcpConnection, ConnectionCallbacks, connected, disconnecting, init, keep_alive_set,
  channel_updated, connection_called, bytes_written, functor_queued, call_write_complete,
  write_shut_down, connect_established, send, send_in_loop, keep_rest, handle_write, output_drained,
  buffer_rest, wait_for_room, note_high_water, first_write, shutdown, shutdown_in_loop,
}
use htcp_multithread.TcpConnection.Sound.{IsSound}
use htcp_multithread.TcpConnection.Stream.{written, stream}
use htcp_multithread.TcpConnection.Silence.{sending, ended, line_after}
use htcp_multithread.TcpConnection.Runs.Completion.{completions, finishes, completions_lem}
use htcp_multithread.TcpConnection.Runs.{
  Op, MayCome, writes, sends, shuts, establishes, callbacks, run_op, Reach, begun, later,
}
use htcp_multithread.TcpConnection.Runs.Invariant.{Reach-stream, Reach-line}

abbrev take_all : List ℕ → WriteResult
take_all bytes = sent (length bytes)

abbrev k : ConnectionCallbacks
k = callbacks true false

-- A connection that is established, sends three bytes and shuts its write side down.
abbrev up : TcpConnection
up = record (init 100 5) {
  state = connected;
  channel = waiting true false (Channel.set_tie 7 (Channel.init 100 5));
  effects = keep_alive_set ∷ channel_updated 3 ∷ connection_called connected ∷ [];
}

abbrev spoken : TcpConnection
spoken = record up {
  effects =
      keep_alive_set
      ∷ channel_updated 3
      ∷ connection_called connected
      ∷ bytes_written (1 ∷ 2 ∷ 3 ∷ [])
      ∷ functor_queued call_write_complete
      ∷ [];
}

abbrev over : TcpConnection
over = record up {
  state = disconnecting;
  effects =
      keep_alive_set
      ∷ channel_updated 3
      ∷ connection_called connected
      ∷ bytes_written (1 ∷ 2 ∷ 3 ∷ [])
      ∷ functor_queued call_write_complete
      ∷ write_shut_down
      ∷ [];
}

up_next : connect_established k 7 (init 100 5) ≡ some up
unfolding init Channel.init Channel.set_tie connect_established Channel.enable_reading
up_next = refl

spoken_next : send k true take_all 70 (1 ∷ 2 ∷ 3 ∷ []) up ≡ some spoken
unfolding init Channel.init Channel.set_tie send send_in_loop keep_rest first_write
    Channel.is_writing Buffer.readable_bytes Buffer.init
spoken_next = refl

over_next : some (shutdown true spoken) ≡ some over
unfolding init Channel.init Channel.set_tie shutdown shutdown_in_loop Channel.is_writing
over_next = refl

abbrev says : Op
says = sends take_all 70 (1 ∷ 2 ∷ 3 ∷ [])

up-Reach : Reach k 100 5 up []
unfolding init
up-Reach = later (establishes 7) begun refl up_next

says-MayCome : MayCome says up
unfolding init Buffer.init
says-MayCome = (omega arith, inr (3, refl, omega arith))

spoken-Reach : Reach k 100 5 spoken (1 ∷ 2 ∷ 3 ∷ [])
unfolding Channel.is_writing init
spoken-Reach = later says up-Reach says-MayCome spoken_next

over-Reach : Reach k 100 5 over (1 ∷ 2 ∷ 3 ∷ [])
over-Reach = later shuts spoken-Reach tt over_next

-- The kernel takes two of the bytes, the shutdown has to wait, and then the kernel takes the rest.
abbrev take_two : List ℕ → WriteResult
take_two bytes = sent (min 2 (length bytes))

abbrev next {ℓ} : {A : Type ℓ} → Option A → A → A
next none s = s
next (some t) s = t

abbrev says_part : Op
says_part = sends take_two 70 (1 ∷ 2 ∷ 3 ∷ [])

abbrev waits : TcpConnection
waits = next (run_op k says_part up) up

waits_next : run_op k says_part up ≡ some waits
unfolding init Channel.init Channel.set_tie send send_in_loop keep_rest first_write
    Channel.is_writing Buffer.readable_bytes Buffer.init buffer_rest wait_for_room note_high_water
    Channel.enable_writing Buffer.append Buffer.ensure_writable_bytes Buffer.writable_bytes
    Buffer.copy_in
waits_next = refl

waits-Reach : Reach k 100 5 waits (1 ∷ 2 ∷ 1 ∷ [])
unfolding init Buffer.init Channel.is_writing Channel.init Channel.set_tie
waits-Reach = later says_part up-Reach (omega arith, inr (2, refl, omega arith)) waits_next

waits_still : Channel.is_writing waits.channel ≡ true
unfolding init Channel.init Channel.set_tie send send_in_loop keep_rest first_write
    Channel.is_writing Buffer.readable_bytes Buffer.init buffer_rest wait_for_room note_high_water
    Channel.enable_writing Buffer.append Buffer.ensure_writable_bytes Buffer.writable_bytes
    Buffer.copy_in
waits_still = refl

abbrev ending : TcpConnection
ending = shutdown true waits

ending-Reach : Reach k 100 5 ending (1 ∷ 2 ∷ 1 ∷ [])
ending-Reach = later shuts waits-Reach tt refl

abbrev drained : TcpConnection
drained = next (handle_write k take_all ending) ending

take_all-WritesWithin : WritesWithin take_all
take_all-WritesWithin bytes n e = ground arith

drained_next : handle_write k take_all ending ≡ some drained
unfolding init Channel.init Channel.set_tie send send_in_loop keep_rest first_write
    Channel.is_writing Buffer.readable_bytes Buffer.init buffer_rest wait_for_room note_high_water
    Channel.enable_writing Buffer.append Buffer.ensure_writable_bytes Buffer.writable_bytes
    Buffer.copy_in shutdown shutdown_in_loop handle_write output_drained Buffer.write_fd Buffer.peek
    Buffer.retrieve Buffer.retrieve_all Channel.disable_writing
drained_next = refl

drained-Reach : Reach k 100 5 drained (1 ∷ 2 ∷ 1 ∷ [])
drained-Reach = later (writes take_all) ending-Reach take_all-WritesWithin drained_next

-- The shutdown comes after the last byte.
drained_line : line_after drained.effects ≡ ended
unfolding init Channel.init Channel.set_tie send send_in_loop keep_rest first_write
    Channel.is_writing Buffer.readable_bytes Buffer.init buffer_rest wait_for_room note_high_water
    Channel.enable_writing Buffer.append Buffer.ensure_writable_bytes Buffer.writable_bytes
    Buffer.copy_in shutdown shutdown_in_loop handle_write output_drained Buffer.write_fd Buffer.peek
    Buffer.retrieve Buffer.retrieve_all Channel.disable_writing
drained_line = refl

Reach-stream_example :
    (r : Bool) × (w : Bool) × IsSound r w ending × (stream ending ≡ 1 ∷ 2 ∷ 1 ∷ [])
Reach-stream_example = Reach-stream true false 100 5 ending-Reach

Reach-line_example :
    (line_after drained.effects ≡ sending)
    ⊎ ((line_after drained.effects ≡ ended) × (written drained.effects ≡ 1 ∷ 2 ∷ 1 ∷ []))
Reach-line_example = Reach-line true false 100 5 drained-Reach

completions_lem_example :
    completions drained.effects
    ≡ completions ending.effects
      + (if finishes (writes take_all) ending drained && true then 1 else 0)
completions_lem_example =
    completions_lem true false 100 5 (writes take_all) ending-Reach take_all-WritesWithin
      drained_next
