-- ===== src/TcpConnection/Reading.antt =====
-- `handleRead` on each result of `readv`.
use htcp_multithread.Prelude.{
  ℕ, ◌+◌, ◌≤◌, ◌≡◌, ◌∙◌, Bool, Option, some, List, [], ◌∷◌, ◌++◌, length, append-nil,
}
use htcp_multithread.Syscall.{ReadResult, received, read_failed, ReadsWithin, SockoptResult}
use htcp_multithread.Buffer
use htcp_multithread.Buffer.{Buffer}
use htcp_multithread.Buffer.Content.{content}
use htcp_multithread.Buffer.Reads.{read_fd_lem, read_fd_failed}
use htcp_multithread.TcpConnection.{
  TcpConnection, ConnectionCallbacks, emit, message_called, handle_close, handle_read, after_read,
  handle_error,
}
use htcp_multithread.TcpConnection.Sound.{IsSound, input-IsSound}

module _ (k : ConnectionCallbacks) where
  -- What `handleRead` has to do with each result of `readv`.
  abbrev pub Handled :
      (r w : Bool)
      → SockoptResult
      → ℕ
      → (ℕ → TcpConnection → Option TcpConnection)
      → TcpConnection
      → Option TcpConnection
      → ReadResult
      → Type 0
  Handled r w so_error time on_message s after (received []) =
      (b : Buffer) × (after ≡ handle_close k (record s { input_buffer = b }))
      × (content b ≡ content s.input_buffer)
      × IsSound r w (record s { input_buffer = b })
  Handled r w so_error time on_message s after (received (x ∷ bytes)) =
      (b : Buffer) × (after ≡ on_message time (emit message_called (record s { input_buffer = b })))
      × (content b ≡ content s.input_buffer ++ x ∷ bytes)
      × IsSound r w (record s { input_buffer = b })
  Handled r w so_error time on_message s after (read_failed errno) =
      after ≡ some (handle_error so_error (record s { errno = errno }))

  -- What `handleRead` does with each result of `readv`: bytes that came go behind the input, and the
  -- message callback is called; end of file closes the connection; an error is logged, and keeps
  -- both the input and the connection.
  pub handle_read_lem :
      (r w : Bool) {s : TcpConnection} (readv : List ℕ → ReadResult) (so_error : SockoptResult)
      (time : ℕ) (on_message : ℕ → TcpConnection → Option TcpConnection)
      → IsSound r w s
      → ReadsWithin readv
      → length s.input_buffer.buffer + length s.input_buffer.buffer + Buffer.extrabuf_size
        ≤ Buffer.max_size
      → k.message_callback ≡ some on_message
      → (result : ReadResult) → readv (Buffer.iovecs s.input_buffer) ≡ result
      → Handled r w so_error time on_message s (handle_read k readv so_error time s) result
  unfolding handle_read after_read
  handle_read_lem r w {s} readv so_error time on_message v within fits message_set (received []) e =
      let (b, f, u, c) = read_fd_lem readv [] v.input_valid within fits e in
      (b, rw f, c ∙ append-nil (content s.input_buffer), input-IsSound u v)
  handle_read_lem r w {s} readv so_error time on_message v within fits message_set
        (received (x ∷ bytes)) e =
      let (b, f, u, c) = read_fd_lem readv (x ∷ bytes) v.input_valid within fits e in
      (b, rw (f, message_set), c, input-IsSound u v)
  handle_read_lem r w {s} readv so_error time on_message v within fits message_set
        (read_failed errno) e =
      rw (read_fd_failed readv s.input_buffer errno e)
