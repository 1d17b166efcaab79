-- ===== src/TcpConnection/Members.antt =====
-- The members of a connection, from TcpConnection.h, and its constructor.
use htcp_multithread.Prelude.{ℕ, ◌*◌, Bool, true, false, Option, List, [], ◌∷◌, ◌++◌}
use htcp_multithread.Buffer
use htcp_multithread.Buffer.{Buffer}
use htcp_multithread.Channel
use htcp_multithread.Channel.{Channel, Callbacks}

-- `StateE`
pub data State : Type 0 where
  disconnected connecting connected disconnecting : State

-- What the connection gives its loop to run later. `queued_send` holds the pointer and the length
-- that `std::bind` copies, not the bytes.
pub data Functor : Type 0 where
  call_write_complete : Functor
  call_high_water_mark : ℕ → Functor
  queued_send : (address len : ℕ) → Functor
  queued_shutdown : Functor

-- What the connection does to the world around it, in order.
pub data Effect : Type 0 where
  keep_alive_set : Effect
  channel_updated : ℕ → Effect
  channel_removed : Effect
  functor_queued : Functor → Effect
  bytes_written : List ℕ → Effect
  write_shut_down : Effect
  connection_called : State → Effect
  message_called : Effect
  close_called : Effect
  error_logged : ℕ → Effect

-- The last two fields are the world: what was done to it so far, and the thread's `errno`.
pub record TcpConnection : Type 0 where
  pub state : State
  pub reading : Bool
  pub channel : Channel
  pub input_buffer : Buffer
  pub output_buffer : Buffer
  pub high_water_mark : ℕ
  pub effects : List Effect
  pub errno : ℕ

-- The callbacks that are set. Those that run at once are actions; of those that are only queued it
-- matters whether they are set. `none` as a result is a fault in the callback.
pub record ConnectionCallbacks : Type 0 where
  pub connection_callback : Option (TcpConnection → Option TcpConnection)
  pub message_callback : Option (ℕ → TcpConnection → Option TcpConnection)
  pub close_callback : Option (TcpConnection → Option TcpConnection)
  pub write_complete_set : Bool
  pub high_water_mark_set : Bool

abbrev pub emit : Effect → TcpConnection → TcpConnection
emit e s = record s { effects = s.effects ++ e ∷ [] }

abbrev pub set_state : State → TcpConnection → TcpConnection
set_state state s = record s { state = state }

abbrev pub is_state : State → State → Bool
is_state disconnected disconnected = true
is_state connecting connecting = true
is_state connected connected = true
is_state disconnecting disconnecting = true
is_state _ _ = false

unfoldable pub init : ℕ → ℕ → TcpConnection
init address sockfd = record {
  state = connecting;
  reading = true;
  channel = Channel.init address sockfd;
  input_buffer = Buffer.init Buffer.initial_size;
  output_buffer = Buffer.init Buffer.initial_size;
  high_water_mark = 64 * 1024 * 1024;
  effects = keep_alive_set ∷ [];
  errno = 0;
}

-- The mark of `setHighWaterMarkCallback`; whether its callback is a set one is `high_water_mark_set`.
unfoldable pub set_high_water_mark_callback : (high_water_mark : ℕ) → TcpConnection → TcpConnection
set_high_water_mark_callback high_water_mark s = record s { high_water_mark = high_water_mark }
