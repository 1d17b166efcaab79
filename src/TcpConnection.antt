-- ===== src/TcpConnection.antt =====
-- TcpConnection.h and TcpConnection.cc: one connection, run by the loop that owns it.
mod Members
pub mod Sound
pub mod Stream
pub mod Sending
pub mod Silence
pub mod Runs
pub mod Growing
pub mod Tally
pub mod Ending
pub mod Closing
pub mod Reading
pub mod Registered
mod Tests
unfoldable pub use Members.*
use htcp_multithread.Prelude.{
  ℕ, zero, suc, drop, ◌*◌, ◌≡◌, Bool, true, false, not, ◌&&◌, ◌||◌, Option, none, some, List, [],
  ◌∷◌, ◌++◌, ltb, leb, ◌==◌, if◌then◌else◌, length, take, add_size, sub_size, ◌>>=◌,
}
use htcp_multithread.Syscall.{
  ReadResult, WriteResult, sent, write_failed, SockoptResult, optval, sockopt_failed, ewouldblock,
  epipe, econnreset,
}
use htcp_multithread.Buffer
use htcp_multithread.Buffer.{Buffer}
use htcp_multithread.Channel
use htcp_multithread.Channel.{Channel, Callbacks}

-- `Channel::update` and `Channel::remove`, which go to the loop's poller.
abbrev update : Channel → List Effect → Option (Channel × List Effect)
update c effects = some (c, effects ++ channel_updated c.events ∷ [])

-- A setter of the channel, applied to the connection's own.
abbrev with_channel :
    ((Channel → List Effect → Option (Channel × List Effect))
      → Channel
      → List Effect
      → Option (Channel × List Effect))
    → TcpConnection
    → Option TcpConnection
with_channel setter s = do
  (c, effects) ← setter update s.channel s.effects
  some (record s { channel = c; effects = effects })

-- The conversion of a `std::function` that is not set: the call throws.
abbrev call_connection :
    Option (TcpConnection → Option TcpConnection) → TcpConnection → Option TcpConnection
call_connection none s = none
call_connection (some cb) s = cb s

abbrev call_message :
    Option (ℕ → TcpConnection → Option TcpConnection) → ℕ → TcpConnection → Option TcpConnection
call_message none time s = none
call_message (some cb) time s = cb time s

unfoldable pub shutdown_in_loop : TcpConnection → TcpConnection
shutdown_in_loop s = if not (Channel.is_writing s.channel) then emit write_shut_down s else s

-- `runInLoop` runs the functor at once in the loop's own thread, and queues it in any other.
unfoldable pub shutdown : (in_loop_thread : Bool) → TcpConnection → TcpConnection
shutdown in_loop_thread s =
    if is_state s.state connected
    then (let s₁ = set_state disconnecting s in
        if in_loop_thread then shutdown_in_loop s₁ else emit (functor_queued queued_shutdown) s₁)
    else s

-- The first write of `sendInLoop`: `nwrote` (`none` is -1), `remaining`, `faultError`.
pub record Attempt : Type 0 where
  pub nwrote : Option ℕ
  pub remaining : ℕ
  pub fault_error : Bool
  pub after : TcpConnection

unfoldable pub handle_error : SockoptResult → TcpConnection → TcpConnection
handle_error (optval err) s = emit (error_logged err) s
handle_error (sockopt_failed err) s = emit (error_logged err) (record s { errno = err })

module _ (k : ConnectionCallbacks) where
  open k use {write_complete_set, high_water_mark_set}

  unfoldable pub connect_established : (self : ℕ) → TcpConnection → Option TcpConnection
  connect_established self s = do
    let s₁ = set_state connected s
    let s₂ = record s₁ { channel = Channel.set_tie self s.channel }
    s₃ ← with_channel Channel.enable_reading s₂
    call_connection k.connection_callback (emit (connection_called connected) s₃)

  unfoldable pub connect_destroyed : TcpConnection → Option TcpConnection
  connect_destroyed s = do
    s₁ ←
        (if is_state s.state connected
          then with_channel Channel.disable_all (set_state disconnected s)
          else some s)
    some (emit channel_removed s₁)

  unfoldable pub handle_close : TcpConnection → Option TcpConnection
  handle_close s = do
    s₁ ← with_channel Channel.disable_all (set_state disconnected s)
    s₂ ← call_connection k.connection_callback (emit (connection_called disconnected) s₁)
    call_connection k.close_callback (emit close_called s₂)

  -- The branches on what `readFd` returned; `savedErrno` begins as 0.
  unfoldable pub after_read :
      SockoptResult → ℕ → Option ℕ → Option ℕ → TcpConnection → Option TcpConnection
  after_read so_error receive_time (some (suc n)) saved_errno s =
      call_message k.message_callback receive_time (emit message_called s)
  after_read so_error receive_time (some zero) saved_errno s = handle_close s
  after_read so_error receive_time none (some errno) s =
      some (handle_error so_error (record s { errno = errno }))
  after_read so_error receive_time none none s =
      some (handle_error so_error (record s { errno = 0 }))

  unfoldable pub handle_read :
      (List ℕ → ReadResult) → SockoptResult → ℕ → TcpConnection → Option TcpConnection
  handle_read readv so_error receive_time s = do
    r ← Buffer.read_fd readv s.input_buffer
    after_read so_error receive_time r.count r.saved_errno (record s { input_buffer = r.after })

  -- The loop's queue has the functor after the ones that it had.
  abbrev queue_write_complete : TcpConnection → TcpConnection
  queue_write_complete s =
      if write_complete_set then emit (functor_queued call_write_complete) s else s

  -- What `handleWrite` does when all output is gone.
  unfoldable pub output_drained : TcpConnection → Option TcpConnection
  output_drained s = do
    s₁ ← with_channel Channel.disable_writing s
    let s₂ = queue_write_complete s₁
    some (if is_state s₂.state disconnecting then shutdown_in_loop s₂ else s₂)

  unfoldable pub handle_write : (List ℕ → WriteResult) → TcpConnection → Option TcpConnection
  handle_write write s =
      if Channel.is_writing s.channel
      then (do
        r ← Buffer.write_fd write s.output_buffer
        elim r [
          | sent (suc n) ↦
              (let out = take (suc n) (Buffer.peek s.output_buffer) in
                let s₁ : TcpConnection = record (emit (bytes_written out) s) {
                  output_buffer = Buffer.retrieve s.output_buffer (suc n);
                } in
                if Buffer.readable_bytes s₁.output_buffer == 0 then output_drained s₁ else some s₁)
          | sent zero ↦ some s
          | write_failed errno ↦ some (record s { errno = errno })
        ])
      else some s

  unfoldable pub first_write : (List ℕ → WriteResult) → List ℕ → TcpConnection → Attempt
  first_write write bytes s = elim (write bytes) [
    | sent n ↦
        (let remaining = sub_size (length bytes) n in
          let s₁ = emit (bytes_written (take n bytes)) s in
          if remaining == 0 && write_complete_set
          then record {
            nwrote = some n;
            remaining = remaining;
            fault_error = false;
            after = emit (functor_queued call_write_complete) s₁;
          }
          else record {
            nwrote = some 0;
            remaining = remaining;
            fault_error =
                not (s.errno == ewouldblock) && (s.errno == epipe || s.errno == econnreset);
            after = s₁;
          })
    | write_failed errno ↦ record {
      nwrote = none;
      remaining = length bytes;
      fault_error = false;
      after = record s { errno = errno };
    }
  ]

  -- The high-water callback is queued when the output comes up to the mark from below it.
  unfoldable pub note_high_water : (old_len remaining : ℕ) → TcpConnection → TcpConnection
  note_high_water old_len remaining s = record s {
    effects =
        if leb s.high_water_mark (add_size old_len remaining)
          && ltb old_len s.high_water_mark
          && high_water_mark_set
        then s.effects ++ functor_queued (call_high_water_mark (add_size old_len remaining)) ∷ []
        else s.effects;
  }

  unfoldable pub wait_for_room : TcpConnection → Option TcpConnection
  wait_for_room s =
      if not (Channel.is_writing s.channel) then with_channel Channel.enable_writing s else some s

  -- The rest of the data goes behind the output: `append` reads from `data + nwrote` on, which for
  -- -1 begins in front of the data.
  unfoldable pub buffer_rest : List ℕ → Option ℕ → ℕ → TcpConnection → Option TcpConnection
  buffer_rest bytes nwrote remaining s = do
    let s₁ = note_high_water (Buffer.readable_bytes s.output_buffer) remaining s
    offset ← nwrote
    out ← Buffer.append s.output_buffer (drop offset bytes) remaining
    wait_for_room (record s₁ { output_buffer = out })

  -- What is still to be sent after the first write, unless there was an error that ends it.
  unfoldable pub keep_rest : List ℕ → Attempt → Option TcpConnection
  keep_rest bytes a =
      if not a.fault_error && ltb 0 a.remaining
      then buffer_rest bytes a.nwrote a.remaining a.after
      else some a.after

  unfoldable pub send_in_loop :
      (List ℕ → WriteResult) → List ℕ → TcpConnection → Option TcpConnection
  send_in_loop write bytes s =
      if is_state s.state disconnected
      then some s
      else keep_rest bytes (
          if not (Channel.is_writing s.channel) && Buffer.readable_bytes s.output_buffer == 0
          then first_write write bytes s
          else record { nwrote = some 0; remaining = length bytes; fault_error = false; after = s })

  -- `address` is where the caller's string has its bytes.
  unfoldable pub send :
      (in_loop_thread : Bool)
      → (List ℕ → WriteResult)
      → (address : ℕ) → List ℕ
      → TcpConnection
      → Option TcpConnection
  send in_loop_thread write address bytes s =
      if is_state s.state connected
      then (if in_loop_thread
          then send_in_loop write bytes s
          else some (emit (functor_queued (queued_send address (length bytes))) s))
      else some s

  -- The callbacks that the constructor sets on its channel.
  unfoldable pub channel_callbacks :
      (List ℕ → ReadResult) → (List ℕ → WriteResult) → SockoptResult → Callbacks TcpConnection
  channel_callbacks readv write so_error =
      Channel.set_error_callback (λ s. some (handle_error so_error s))
        (Channel.set_close_callback handle_close (
          Channel.set_write_callback (handle_write write)
            (Channel.set_read_callback (handle_read readv so_error) Channel.no_callbacks)))
