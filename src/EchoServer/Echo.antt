-- ===== src/EchoServer/Echo.antt =====
-- What a connection of the server does with the bytes that it receives.
use htcp_multithread.Prelude.{
  ℕ, ◌+◌, ◌≤◌, ◌≡◌, refl, ap, sym, ◌∙◌, Bool, true, false, some, List, [], ◌∷◌, ◌++◌, length,
  append-nil, ◌⊎◌, inl, inr,
}
use htcp_multithread.Syscall.{WriteResult}
use htcp_multithread.Buffer
use htcp_multithread.Buffer.{Buffer}
use htcp_multithread.Buffer.Content.{content}
use htcp_multithread.Buffer.Retrieve.{retrieve_all_as_string_lem}
use htcp_multithread.TcpConnection.{
  TcpConnection, ConnectionCallbacks, Effect, connected, disconnecting, write_shut_down, shutdown,
}
use htcp_multithread.TcpConnection.Sound.{IsSound, input-IsSound, state-IsSound}
use htcp_multithread.TcpConnection.Stream.{stream, written, written-append}
use htcp_multithread.TcpConnection.Sending.Results.{puts, IsTaken}
use htcp_multithread.TcpConnection.Sending.Delivery.{send_in_loop-Delivers, send_connected}
use htcp_multithread.TcpConnection.Closing.{shutdown-shut}
use htcp_multithread.EchoServer.{on_message}

-- The connection answered: `all` is all that was ever to be sent on it, the input is used up, and the
-- connection is disconnecting; the write side is either left to `handleWrite`, as output is waiting, or
-- shut down as the last thing done, when every byte is written.
abbrev pub Answered : (all : List ℕ) → (r : Bool) → TcpConnection → Type 0
Answered all r s =
    (w : Bool) × IsSound r w s
    × (stream s ≡ all)
    × (content s.input_buffer ≡ [])
    × (s.state ≡ disconnecting)
    × ((w ≡ true)
        ⊎ ((es : List Effect) × (s.effects ≡ es ++ write_shut_down ∷ [])
            × (written s.effects ≡ all)))

answer-Answered :
    (r w : Bool) (all : List ℕ) (t : TcpConnection)
    → IsSound r w t
    → stream t ≡ all
    → content t.input_buffer ≡ []
    → t.state ≡ connected
    → Answered all r (shutdown true t)
answer-Answered r true all t v str inp live =
    rw (shutdown-shut r true v live)
      (true, state-IsSound disconnecting t.effects (λ d. cc) v, str, inp, refl, inl refl)
answer-Answered r false all t v str inp live = rw (shutdown-shut r false v live) (
  false,
  state-IsSound disconnecting (t.effects ++ write_shut_down ∷ []) (λ d. cc) v,
  ap (λ xs. xs ++ content t.output_buffer) same ∙ str,
  inp,
  refl,
  inr (
    t.effects,
    refl,
    same
        ∙ sym (append-nil (written t.effects))
        ∙ ap (◌++◌ (written t.effects)) (sym (v.drained refl (λ d. cc)))
        ∙ str,
  ),
)
  where
    same : written (t.effects ++ write_shut_down ∷ []) ≡ written t.effects
    same = written-append t.effects (write_shut_down ∷ []) ∙ append-nil (written t.effects)

module _ (k : ConnectionCallbacks) (write : List ℕ → WriteResult) (address time : ℕ) (r w : Bool)
    {s : TcpConnection} where
  -- The message callback on its own.
  pub on_message-Answered :
      IsSound r w s
      → s.state ≡ connected
      → s.output_buffer.writer_index + length (content s.input_buffer) ≤ Buffer.max_size
      → IsTaken w (content s.input_buffer) (write (content s.input_buffer))
      → (s' : TcpConnection) × (on_message k write address time s ≡ some s')
        × Answered
            (stream s ++ puts w s.errno (content s.input_buffer) (write (content s.input_buffer)))
            r
            s'
  unfolding on_message
  on_message-Answered v live fits took =
      let (b, e, valid, empty, same) = retrieve_all_as_string_lem v.input_valid in
      let (t, w', done, v', str, st, inp, goes_on) =
        send_in_loop-Delivers k write (content s.input_buffer) r w (input-IsSound valid v) (λ d. cc)
          fits took in
      (
        shutdown true t,
        rw
            (
              e,
              send_connected k write address (content s.input_buffer)
                  (record s { input_buffer = b }) live,
              done,
            )
            refl,
        answer-Answered r w' _ t v' str (ap content inp ∙ empty) (st ∙ live),
      )
