-- ===== src/TcpConnection/Stream.antt =====
-- `handleWrite`: the bytes handed to the kernel, followed by those still in the output buffer, are
-- one stream that sending never breaks.
pub mod Writes
pub mod Draining
use htcp_multithread.Prelude.{
  ℕ, zero, suc, ◌+◌, ◌-◌, ◌≤◌, ◌<◌, ◌≡◌, ◌≢◌, refl, ap, sym, ◌∙◌, Bool, true, false, not, ◌&&◌,
  ◌||◌, Option, none, some, List, [], ◌∷◌, ◌++◌, ltb, leb, ◌==◌, if◌then◌else◌, length, take, drop,
  arith, ◌⊎◌, inl, inr, ◌>>=◌, append_assoc, append-nil, ℕ_discrete, Bool-cases, length-drop,
  take-append-drop, drop_all,
}
use htcp_multithread.Syscall.{WriteResult, sent, write_failed, WritesWithin}
use htcp_multithread.Buffer
use htcp_multithread.Buffer.{Buffer}
use htcp_multithread.Buffer.Content.{content, IsValid, readable_bytes_lem}
use htcp_multithread.Buffer.Retrieve.{retrieve_lem, take-peek}
use htcp_multithread.Buffer.Reads.{write_fd_lem}
use htcp_multithread.Channel
use htcp_multithread.Channel.Events.{Waits, Waits-tests, waiting, mask, setters_lem}
use htcp_multithread.TcpConnection.{
  TcpConnection, ConnectionCallbacks, State, disconnected, connecting, connected, disconnecting,
  is_state, emit, Effect, keep_alive_set, channel_updated, channel_removed, functor_queued,
  bytes_written, write_shut_down, connection_called, message_called, close_called, error_logged,
  call_write_complete, output_drained, handle_write, update, shutdown_in_loop,
}
use htcp_multithread.TcpConnection.Sound.{IsSound}

-- The bytes that the kernel has taken, oldest first.
abbrev pub written : List Effect → List ℕ
written [] = []
written (bytes_written bytes ∷ es) = bytes ++ written es
written (_ ∷ es) = written es

pub written-append : (xs ys : List Effect) → written (xs ++ ys) ≡ written xs ++ written ys
written-append [] ys = refl
written-append (bytes_written bytes ∷ es) ys =
    ap (◌++◌ bytes) (written-append es ys) ∙ sym (append_assoc bytes (written es) (written ys))
written-append (keep_alive_set ∷ es) ys = written-append es ys
written-append (channel_updated e ∷ es) ys = written-append es ys
written-append (channel_removed ∷ es) ys = written-append es ys
written-append (functor_queued f ∷ es) ys = written-append es ys
written-append (write_shut_down ∷ es) ys = written-append es ys
written-append (connection_called s ∷ es) ys = written-append es ys
written-append (message_called ∷ es) ys = written-append es ys
written-append (close_called ∷ es) ys = written-append es ys
written-append (error_logged e ∷ es) ys = written-append es ys

-- All that was ever to be sent on the connection.
abbrev pub stream : TcpConnection → List ℕ
stream s = written s.effects ++ content s.output_buffer

module _ (k : ConnectionCallbacks) where
  -- What happens when the output is gone: writing is switched off, the program is told if it asked
  -- for that, and a connection that is being shut down is closed for writing.
  abbrev pub drained_effects : Bool → State → List Effect
  drained_effects r state =
      channel_updated (mask r false)
      ∷ ((if k.write_complete_set then functor_queued call_write_complete ∷ [] else [])
          ++ (if is_state state disconnecting then write_shut_down ∷ [] else []))

  written-drained : (r : Bool) (state : State) → written (drained_effects r state) ≡ []
  written-drained r state = ground arith

  pub output_drained_lem :
      (r w : Bool) (s : TcpConnection)
      → Waits r w s.channel
      → output_drained k s
        ≡ some (record s {
          channel = waiting r false s.channel;
          effects = s.effects ++ drained_effects r s.state;
        })
  unfolding output_drained shutdown_in_loop
  output_drained_lem r w s m =
      rw ((setters_lem update r w s.channel s.effects m).3)
        (elim (Bool-cases k.write_complete_set) [
          | inl e ↦ rw e (elim (Bool-cases (is_state s.state disconnecting)) [
            | inl d ↦
                rw (d, (Waits-tests r false (waiting r false s.channel) refl).1) (simp append_assoc)
            | inr d ↦ rw d (simp append_assoc)
          ])
          | inr e ↦ rw e (elim (Bool-cases (is_state s.state disconnecting)) [
            | inl d ↦
                rw (d, (Waits-tests r false (waiting r false s.channel) refl).1) (simp append_assoc)
            | inr d ↦ rw d
          ])
        ])

  module _ {r : Bool} {s : TcpConnection} (v : IsSound r true s) (n : ℕ)
      (h : suc n ≤ length (content s.output_buffer)) where
    abbrev out : List ℕ
    out = content s.output_buffer

    -- The connection once the kernel has taken `suc n` bytes.
    unfoldable pub sent_on : TcpConnection
    sent_on = record s {
      output_buffer = Buffer.retrieve s.output_buffer (suc n);
      effects = s.effects ++ bytes_written (take (suc n) out) ∷ [];
    }

    is_drained : Bool
    is_drained = length out == suc n

    pub left : content sent_on.output_buffer ≡ drop (suc n) out
    unfolding sent_on
    left = (retrieve_lem (suc n) v.output_valid).1

    readable_left : Buffer.readable_bytes sent_on.output_buffer ≡ length out - suc n
    unfolding sent_on
    readable_left = omega (
      arith,
      readable_bytes_lem (retrieve_lem (suc n) v.output_valid).0,
      ap length (retrieve_lem (suc n) v.output_valid).1,
      length-drop (suc n) (content s.output_buffer),
    )

    unfoldable pub finished : TcpConnection
    finished = record sent_on {
      channel = waiting r false s.channel;
      effects = sent_on.effects ++ drained_effects r s.state;
    }

    nothing_left : length out ≡ suc n → Buffer.readable_bytes sent_on.output_buffer ≡ 0
    nothing_left d = omega (arith, readable_left)

    something_left : length out ≢ suc n → (Buffer.readable_bytes sent_on.output_buffer == 0) ≡ false
    something_left d = ground (arith, readable_left)

    module _ (write : List ℕ → WriteResult)
        (e : write (content s.output_buffer) ≡ sent (suc n)) where
      pub handle_write-drained : length out ≡ suc n → handle_write k write s ≡ some finished
      unfolding handle_write finished sent_on
      handle_write-drained d =
          rw
            (
              (Waits-tests r true s.channel v.mask).1,
              write_fd_lem write v.output_valid,
              e,
              take-peek (suc n) h v.output_valid,
              nothing_left d,
            )
            (output_drained_lem r true sent_on v.mask)

      pub handle_write-left : length out ≢ suc n → handle_write k write s ≡ some sent_on
      unfolding handle_write sent_on
      handle_write-left d = rw (
        (Waits-tests r true s.channel v.mask).1,
        write_fd_lem write v.output_valid,
        e,
        take-peek (suc n) h v.output_valid,
        something_left d,
      )

    pub stream-sent_on : stream sent_on ≡ stream s
    unfolding sent_on
    stream-sent_on =
        rw
          (
            written-append s.effects (bytes_written (take (suc n) out) ∷ []),
            left,
            append-nil,
            append_assoc,
            take-append-drop (suc n) out,
          )
          refl

    pub stream-finished : stream finished ≡ stream s
    unfolding finished
    stream-finished =
        rw
          (
            written-append sent_on.effects (drained_effects r s.state),
            written-drained r s.state,
            append-nil,
          )
          stream-sent_on

    pub sent_on-IsSound : length out ≢ suc n → IsSound r true sent_on
    unfolding sent_on
    sent_on-IsSound d = record {
      input_valid = v.input_valid;
      output_valid = (retrieve_lem (suc n) v.output_valid).0;
      mask = v.mask;
      pending = λ e z. omega (arith, ap length left, ap length z, length-drop (suc n) out);
      drained = λ e. cc;
    }

    pub finished-IsSound : length out ≡ suc n → IsSound r false finished
    unfolding finished sent_on
    finished-IsSound d = record {
      input_valid = v.input_valid;
      output_valid = (retrieve_lem (suc n) v.output_valid).0;
      mask = refl;
      pending = λ e. cc;
      drained = λ e ne. left ∙ drop_all (suc n) out (omega arith);
    }
