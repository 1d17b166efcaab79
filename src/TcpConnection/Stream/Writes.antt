-- ===== src/TcpConnection/Stream/Writes.antt =====
-- `handleWrite` on each result of `write`.
use htcp_multithread.Prelude.{
  ℕ, zero, suc, ◌≤◌, ◌≡◌, refl, Bool, true, false, some, List, [], ◌∷◌, ◌++◌, ◌==◌, if◌then◌else◌,
  length, take, drop, arith, append_assoc, ℕ_discrete,
}
use htcp_multithread.Syscall.{WriteResult, sent, write_failed, WritesWithin}
use htcp_multithread.Buffer.Content.{content}
use htcp_multithread.Buffer.Reads.{write_fd_lem}
use htcp_multithread.Channel.Events.{Waits-tests}
use htcp_multithread.TcpConnection.{TcpConnection, ConnectionCallbacks, bytes_written, handle_write}
use htcp_multithread.TcpConnection.Sound.{IsSound, outside-IsSound}
use htcp_multithread.TcpConnection.Stream.{
  stream, drained_effects, sent_on, finished, left, handle_write-drained, handle_write-left,
  stream-sent_on, stream-finished, sent_on-IsSound, finished-IsSound,
}

module _ (k : ConnectionCallbacks) where
  -- When the kernel takes `suc n` bytes of the output, exactly these leave the output buffer. Only
  -- when they were all of it, writing is switched off, the program's write-complete callback is
  -- queued if it is set, and the write side is shut down if the connection is disconnecting.
  pub handle_write_sent :
      {r : Bool} {s : TcpConnection} (write : List ℕ → WriteResult) (n : ℕ)
      → IsSound r true s
      → WritesWithin write
      → write (content s.output_buffer) ≡ sent (suc n)
      → (s' : TcpConnection) × (handle_write k write s ≡ some s')
        × (content s'.output_buffer ≡ drop (suc n) (content s.output_buffer))
        × (s'.effects
            ≡ s.effects
              ++ bytes_written (take (suc n) (content s.output_buffer))
                ∷ (if length (content s.output_buffer) == suc n
                    then drained_effects k r s.state
                    else []))
  unfolding finished sent_on
  handle_write_sent {r} {s} write n v within e =
      elim (ℕ_discrete (length (content s.output_buffer)) (suc n)) [
        | yes d ↦ (
          finished k v n h,
          handle_write-drained k v n h write e d,
          left k v n h,
          rw append_assoc (ground arith),
        )
        | no d ↦ (sent_on k v n h, handle_write-left k v n h write e d, left k v n h, ground arith)
      ]
    where
      h : suc n ≤ length (content s.output_buffer)
      h = within (content s.output_buffer) (suc n) e

  pub handle_write_idle :
      {r : Bool} {s : TcpConnection} (write : List ℕ → WriteResult)
      → IsSound r false s
      → handle_write k write s ≡ some s
  unfolding handle_write
  handle_write_idle {r} {s} write v = rw ((Waits-tests r false s.channel v.mask).1)

  pub handle_write_refused :
      {r : Bool} {s : TcpConnection} (write : List ℕ → WriteResult)
      → IsSound r true s
      → (write (content s.output_buffer) ≡ sent 0)
      → handle_write k write s ≡ some s
  unfolding handle_write
  handle_write_refused {r} {s} write v e =
      rw ((Waits-tests r true s.channel v.mask).1, write_fd_lem write v.output_valid, e)

  pub handle_write_failed :
      {r : Bool} {s : TcpConnection} (write : List ℕ → WriteResult) (errno : ℕ)
      → IsSound r true s
      → (write (content s.output_buffer) ≡ write_failed errno)
      → handle_write k write s ≡ some (record s { errno = errno })
  unfolding handle_write
  handle_write_failed {r} {s} write errno v e =
      rw ((Waits-tests r true s.channel v.mask).1, write_fd_lem write v.output_valid, e)

  -- `handleWrite` never faults. It keeps the invariant and the stream of bytes taken by the kernel
  -- and bytes still to be sent, whatever part of the output the kernel takes, if any.
  pub handle_write_lem :
      (r w : Bool) {s : TcpConnection} (write : List ℕ → WriteResult)
      → IsSound r w s
      → WritesWithin write
      → (s' : TcpConnection) × (w' : Bool) × (handle_write k write s ≡ some s')
        × IsSound r w' s'
        × (stream s' ≡ stream s)
        × (s'.state ≡ s.state)
  handle_write_lem r false {s} write v within = (s, false, handle_write_idle write v, v, refl, refl)
  handle_write_lem r true {s} write v within = go (write (content s.output_buffer)) refl
    where
      go :
          (result : WriteResult)
          → write (content s.output_buffer) ≡ result
          → (s' : TcpConnection) × (w' : Bool) × (handle_write k write s ≡ some s')
            × IsSound r w' s'
            × (stream s' ≡ stream s)
            × (s'.state ≡ s.state)
      go (sent zero) e = (s, true, handle_write_refused write v e, v, refl, refl)
      go (write_failed errno) e = (
        record s { errno = errno },
        true,
        handle_write_failed write errno v e,
        outside-IsSound s.effects errno v,
        refl,
        refl,
      )
      go (sent (suc n)) e =
          let h : suc n ≤ length (content s.output_buffer) =
            within (content s.output_buffer) (suc n) e in
          elim (ℕ_discrete (length (content s.output_buffer)) (suc n)) [
            | yes d ↦ (
              finished k v n h,
              false,
              handle_write-drained k v n h write e d,
              finished-IsSound k v n h d,
              stream-finished k v n h,
              unfold finished sent_on in refl,
            )
            | no d ↦ (
              sent_on k v n h,
              true,
              handle_write-left k v n h write e d,
              sent_on-IsSound k v n h d,
              stream-sent_on k v n h,
              unfold sent_on in refl,
            )
          ]
