-- ===== src/TcpConnection/Ending/Twice.antt =====
-- A hang-up with urgent data.
use htcp_multithread.Prelude.{
  ℕ, ◌+◌, ◌≤◌, ◌≡◌, refl, subst, ◌∙◌, Bool, false, some, List, [], length, arith,
}
use htcp_multithread.Syscall.{ReadResult, ReadsWithin, received, WriteResult, SockoptResult}
use htcp_multithread.Buffer
use htcp_multithread.Channel
use htcp_multithread.Channel.{Callbacks, handle_event_with_guard}
use htcp_multithread.Channel.Dispatch.{handle_event_with_guard_lem}
use htcp_multithread.TcpConnection.{
  TcpConnection, ConnectionCallbacks, emit, close_called, channel_callbacks, handle_close,
}
use htcp_multithread.TcpConnection.Sound.{IsSound, outside-IsSound}
use htcp_multithread.TcpConnection.Closing.{closed, handle_close_lem}
use htcp_multithread.TcpConnection.Reading.{handle_read_lem}
use htcp_multithread.TcpConnection.Runs.{callbacks}
use htcp_multithread.TcpConnection.Tally.{tally, is_closing, is_removal}
use htcp_multithread.TcpConnection.Ending.{Closes, Whenever, handle_close-Closes}

-- EPOLLHUP and EPOLLPRI.
abbrev pub hung_up : ℕ
hung_up = 18

module _ (c h : Bool) where
  abbrev k : ConnectionCallbacks
  k = callbacks c h

  abbrev down : TcpConnection → TcpConnection
  down s = emit close_called (closed k s)

  down_lem :
      (r w : Bool) {s : TcpConnection}
      → IsSound r w s
      → (handle_close k s ≡ some (down s)) × IsSound false false (down s)
  down_lem r w v =
      let (e, sound) = handle_close_lem k some some refl refl r w v in
      (e, outside-IsSound _ _ sound)

  tally-down :
      (s : TcpConnection)
      → handle_close k s ≡ some (down s)
      → tally is_closing (down s).effects ≡ tally is_closing s.effects + 1
  tally-down s e =
      let v : Closes (tally is_closing s.effects) (tally is_removal s.effects) (down s) =
        subst (Whenever (Closes (tally is_closing s.effects) (tally is_removal s.effects))) e
          (handle_close-Closes c h s (refl, refl)) in
      v.2.0

  -- The bug: when the kernel reports a hang-up and urgent data (and no input), and `readv` then finds
  -- the end of the stream, `handleEventWithGuard` calls the close callback of the connection twice.
  -- This goes for every connection whose invariant holds and whose input buffer has room for a read,
  -- with callbacks that do nothing.
  pub closes_twice :
      (r w : Bool) (s : TcpConnection) (readv : List ℕ → ReadResult) (write : List ℕ → WriteResult)
      (so_error : SockoptResult) (time : ℕ)
      → IsSound r w s
      → ReadsWithin readv
      → length s.input_buffer.buffer + length s.input_buffer.buffer + Buffer.extrabuf_size
        ≤ Buffer.max_size
      → readv (Buffer.iovecs s.input_buffer) ≡ received []
      → (t : TcpConnection) × (handle_event_with_guard
            (channel_callbacks k readv write so_error)
            hung_up
            time
            s
          ≡ some t)
        × (tally is_closing t.effects ≡ tally is_closing s.effects + 2)
  unfolding channel_callbacks Channel.set_read_callback Channel.set_write_callback
      Channel.set_close_callback Channel.set_error_callback
  closes_twice r w s readv write so_error time v within room over =
      let (first, sound) = down_lem r w v in
      let (b, again, _, sound') =
        handle_read_lem k false false readv so_error time (λ time t. some t) sound within room refl
          (received []) over in
      let (second, _) = down_lem false false sound' in
      (
        down (record (down s) { input_buffer = b }),
        handle_event_with_guard_lem (channel_callbacks k readv write so_error) time hung_up s
            ∙ rw (first, again, second) refl,
        tally-down (record (down s) { input_buffer = b }) second
            ∙ omega (arith, tally-down s first),
      )
