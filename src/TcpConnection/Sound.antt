-- ===== src/TcpConnection/Sound.antt =====
-- The invariant of a connection: its buffers are valid, and it waits for room to write exactly while
-- it has output that is still to be sent.
use htcp_multithread.Prelude.{ℕ, ◌≡◌, ◌≢◌, refl, Bool, true, false, List, [], arith}
use htcp_multithread.Buffer
use htcp_multithread.Buffer.{Buffer}
use htcp_multithread.Buffer.Content.{content, IsValid}
use htcp_multithread.Channel
use htcp_multithread.Channel.Events.{Waits, waiting}
use htcp_multithread.TcpConnection.{Effect, TcpConnection, State, disconnected, init}

-- The connection waits for reading as `r` says and for writing as `w` says.
pub record IsSound (r w : Bool) (s : TcpConnection) : Type 0 where
  pub input_valid : IsValid s.input_buffer
  pub output_valid : IsValid s.output_buffer
  pub mask : Waits r w s.channel
  pub pending : w ≡ true → content s.output_buffer ≢ []
  pub drained : w ≡ false → s.state ≢ disconnected → content s.output_buffer ≡ []

pub init-IsSound : (address sockfd : ℕ) → IsSound false false (init address sockfd)
unfolding init Channel.init
init-IsSound address sockfd = record {
  input_valid = Buffer.Content.init-IsValid 1024 (omega arith);
  output_valid = Buffer.Content.init-IsValid 1024 (omega arith);
  mask = refl;
  pending = λ e. cc;
  drained = λ e ne. Buffer.Content.content-init 1024;
}

-- The invariant does not speak of the world around the connection.
pub outside-IsSound :
    {r w : Bool} {s : TcpConnection} (effects : List Effect) (errno : ℕ)
    → IsSound r w s
    → IsSound r w (record s { effects = effects; errno = errno })
outside-IsSound effects errno v = record {
  input_valid = v.input_valid;
  output_valid = v.output_valid;
  mask = v.mask;
  pending = v.pending;
  drained = v.drained;
}

-- Only a connection that was disconnected may hold output without waiting for room.
pub state-IsSound :
    {r w : Bool} {s : TcpConnection} (state : State) (effects : List Effect)
    → s.state ≢ disconnected
    → IsSound r w s
    → IsSound r w (record s { state = state; effects = effects })
state-IsSound state effects live v = record {
  input_valid = v.input_valid;
  output_valid = v.output_valid;
  mask = v.mask;
  pending = v.pending;
  drained = λ e ne. v.drained e live;
}

-- A disconnected connection waits for nothing, whatever output it still holds.
pub closed-IsSound :
    {r w : Bool} {s : TcpConnection} (effects : List Effect)
    → IsSound r w s
    → IsSound false false (record s {
      state = disconnected;
      channel = waiting false false s.channel;
      effects = effects;
    })
closed-IsSound effects v = record {
  input_valid = v.input_valid;
  output_valid = v.output_valid;
  mask = refl;
  pending = λ e. cc;
  drained = λ e ne. absurd (ne refl);
}

pub input-IsSound :
    {r w : Bool} {s : TcpConnection} {b : Buffer}
    → IsValid b
    → IsSound r w s
    → IsSound r w (record s { input_buffer = b })
input-IsSound u v = record {
  input_valid = u;
  output_valid = v.output_valid;
  mask = v.mask;
  pending = v.pending;
  drained = v.drained;
}
