-- ===== src/TcpConnection/Runs.antt =====
-- The handlers and operations of a connection in any order, as its loop calls them.
pub mod Steps
pub mod Calls
pub mod Outgoing
pub mod Incoming
pub mod Invariant
pub mod Dispatch
pub mod Completion
pub mod Late
mod Tests
use htcp_multithread.Prelude.{
  ℕ, ◌+◌, ◌≤◌, ◌≡◌, Bool, true, false, Option, none, some, List, [], ◌∷◌, ◌++◌, length,
  if◌then◌else◌, ◌⊎◌,
}
use htcp_multithread.Syscall.{
  ReadResult, ReadsWithin, WriteResult, sent, WritesWithin, SockoptResult,
}
use htcp_multithread.Buffer
use htcp_multithread.Channel
use htcp_multithread.TcpConnection.Sending.Results.{puts, IsTaken}
use htcp_multithread.TcpConnection.{
  TcpConnection, ConnectionCallbacks, connecting, connected, is_state, init, handle_read,
  handle_write, handle_close, handle_error, send, shutdown, set_high_water_mark_callback,
  connect_established, connect_destroyed,
}

-- What the loop has a connection do. What a program does in its callbacks are further operations.
pub data Op : Type 0 where
  reads : (List ℕ → ReadResult) → SockoptResult → (time : ℕ) → Op
  writes : (List ℕ → WriteResult) → Op
  fails : SockoptResult → Op
  sends : (List ℕ → WriteResult) → (address : ℕ) → List ℕ → Op
  shuts closes destroys : Op
  establishes : (self : ℕ) → Op
  marks : (high_water_mark : ℕ) → Op

-- Callbacks that are set and do nothing.
abbrev pub callbacks : (write_complete_set high_water_mark_set : Bool) → ConnectionCallbacks
callbacks c h = record {
  connection_callback = some some;
  message_callback = some (λ time s. some s);
  close_callback = some some;
  write_complete_set = c;
  high_water_mark_set = h;
}

module _ (k : ConnectionCallbacks) where
  abbrev pub run_op : Op → TcpConnection → Option TcpConnection
  run_op (reads readv so_error time) s = handle_read k readv so_error time s
  run_op (writes write) s = handle_write k write s
  run_op (fails so_error) s = some (handle_error so_error s)
  run_op (sends write address bytes) s = send k true write address bytes s
  run_op shuts s = some (shutdown true s)
  run_op closes s = handle_close k s
  run_op destroys s = connect_destroyed k s
  run_op (establishes self) s = connect_established k self s
  run_op (marks high_water_mark) s = some (set_high_water_mark_callback high_water_mark s)

-- The bytes that an operation puts behind those to be sent.
abbrev pub said : Op → TcpConnection → List ℕ
said (sends write address bytes) s =
    if is_state s.state connected
    then puts (Channel.is_writing s.channel) s.errno bytes (write bytes)
    else []
said _ s = []

-- When an operation may come: the kernel keeps to what it was asked for, the buffers do not outgrow the
-- address space, the first write of a `send` does not fail, and a connection is established first.
abbrev pub MayCome : Op → TcpConnection → Type 0
MayCome (reads readv so_error time) s =
    ReadsWithin readv
    × (length s.input_buffer.buffer + length s.input_buffer.buffer + Buffer.extrabuf_size
        ≤ Buffer.max_size)
MayCome (writes write) s = WritesWithin write
MayCome (sends write address bytes) s =
    (s.output_buffer.writer_index + length bytes ≤ Buffer.max_size)
    × IsTaken (Channel.is_writing s.channel) bytes (write bytes)
MayCome (establishes self) s = s.state ≡ connecting
MayCome _ s = Unit

-- The connections that come about from a new one, with all the bytes that were put in to be sent.
pub data Reach (k : ConnectionCallbacks) (address sockfd : ℕ)
    : TcpConnection → List ℕ → Type 0 where
  begun : Reach k address sockfd (init address sockfd) []
  later :
      {s t : TcpConnection} {all : List ℕ} (op : Op)
      → Reach k address sockfd s all
      → MayCome op s
      → run_op k op s ≡ some t
      → Reach k address sockfd t (all ++ said op s)
