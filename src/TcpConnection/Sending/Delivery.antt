-- ===== src/TcpConnection/Sending/Delivery.antt =====
-- What the peer will have received of the data of one `sendInLoop`.
use htcp_multithread.Prelude.{
  ℕ_discrete, Bool-cases, ◌-◌, dec_lt, ℕ, ◌+◌, ◌-◌, ◌≤◌, ◌<◌, ◌≡◌, ◌≢◌, refl, ap, ap₂, subst, sym,
  ◌∙◌, Bool, true, false, some, List, [], ◌∷◌, ◌++◌, length, take, arith, inl, inr, append_assoc,
  append-nil, if◌then◌else◌, ◌^◌, take_all, nil_of_length,
}
use htcp_multithread.Syscall.{WriteResult, sent}
use htcp_multithread.Buffer
use htcp_multithread.Buffer.{Buffer}
use htcp_multithread.Buffer.Content.{content}
use htcp_multithread.Channel.Events.{mask}
use htcp_multithread.TcpConnection.{
  TcpConnection, ConnectionCallbacks, Effect, disconnected, connected, is_state, bytes_written,
  channel_updated, functor_queued, call_write_complete, call_high_water_mark, send, send_in_loop,
}
use htcp_multithread.TcpConnection.Stream.{written, stream, written-append}
use htcp_multithread.TcpConnection.Silence.{
  follow, sending, follow-append, follow-if, masked, masked-append, masked-if,
}
use htcp_multithread.TcpConnection.Sound.{IsSound, outside-IsSound}
use htcp_multithread.TcpConnection.Sending.{
  buffered, buffered_effects, crosses, content-buffered, buffered-IsSound, written-buffered,
}
use htcp_multithread.TcpConnection.Sending.Results.{
  is_lethal, puts, puts_whole, IsTaken, send_nothing, send_buffered, whole, send_whole, wrote,
  send_part, send_part_lethal,
}

-- One call succeeds, keeps the invariant, the state and the input, does not end the stream, tells the
-- poller what the channel waits for if that changes, and puts `out` behind all that was to be sent
-- before.
abbrev pub Delivers :
    ConnectionCallbacks
    → (List ℕ → WriteResult)
    → (bytes out : List ℕ) → Bool
    → TcpConnection
    → Type 0
Delivers k write bytes out r s =
    (s' : TcpConnection) × (w' : Bool) × (send_in_loop k write bytes s ≡ some s')
    × IsSound r w' s'
    × (stream s' ≡ stream s ++ out)
    × (s'.state ≡ s.state)
    × (s'.input_buffer ≡ s.input_buffer)
    × ((es : List Effect) × (s'.effects ≡ s.effects ++ es)
        × (follow sending es ≡ sending)
        × (masked s.channel.events es ≡ s'.channel.events))

module _ (k : ConnectionCallbacks) (write : List ℕ → WriteResult) (bytes : List ℕ) {r : Bool}
    {s : TcpConnection} (live : s.state ≢ disconnected) where
  buffered-Delivers :
      IsSound r true s
      → 0 < length bytes
      → s.output_buffer.writer_index + length bytes ≤ Buffer.max_size
      → Delivers k write bytes bytes r s
  buffered-Delivers v pos fits = (
    buffered k r true v bytes 0 (length bytes) (omega arith) fits,
    true,
    send_buffered k write bytes v live pos fits,
    buffered-IsSound k r true v bytes 0 (length bytes) (omega arith) fits pos,
    rw (
      written-buffered k r true v bytes 0 (length bytes) (omega arith) fits,
      content-buffered k r true v bytes 0 (length bytes) (omega arith) fits,
      take_all (length bytes) bytes (omega arith),
      append_assoc,
    ),
    unfold buffered in refl,
    unfold buffered in refl,
    (
      buffered_effects k r true s (length bytes),
      unfold buffered in refl,
      goes_on,
      unfold buffered in told ∙ v.mask,
    ),
  )
    where
      told : masked s.channel.events (buffered_effects k r true s (length bytes)) ≡ s.channel.events
      told =
          let queued =
            functor_queued
              (call_high_water_mark (length (content s.output_buffer) + length bytes)) in
          masked-append s.channel.events (if crosses k s (length bytes) then queued ∷ [] else []) []
          ∙ masked-if s.channel.events (crosses k s (length bytes)) queued refl

      goes_on : follow sending (buffered_effects k r true s (length bytes)) ≡ sending
      goes_on =
          let queued =
            functor_queued
              (call_high_water_mark (length (content s.output_buffer) + length bytes)) in
          follow-append sending (if crosses k s (length bytes) then queued ∷ [] else []) []
          ∙ follow-if sending (crosses k s (length bytes)) queued refl

  whole-Delivers :
      IsSound r false s
      → length bytes < 2 ^ 64
      → write bytes ≡ sent (length bytes)
      → Delivers k write bytes bytes r s
  unfolding whole
  whole-Delivers v small e = (
    whole k write bytes v live,
    false,
    send_whole k write bytes v live small e,
    outside-IsSound (whole k write bytes v live).effects s.errno v,
    rw (written-append s.effects, v.drained refl live, append-nil)
        (ground (arith, append-nil bytes, append-nil (written s.effects))),
    refl,
    refl,
    (
      _,
      refl,
      follow-if sending k.write_complete_set (functor_queued call_write_complete) refl,
      masked-if s.channel.events k.write_complete_set (functor_queued call_write_complete) refl,
    ),
  )

  nothing-Delivers : IsSound r true s → length bytes ≡ 0 → Delivers k write bytes bytes r s
  nothing-Delivers v e = (
    s,
    true,
    send_nothing k write bytes v live e,
    v,
    rw (nil_of_length bytes e, append-nil),
    refl,
    refl,
    ([], sym (append-nil s.effects), refl, refl),
  )

module _ (k : ConnectionCallbacks) (write : List ℕ → WriteResult) (bytes : List ℕ) {r : Bool}
    {s : TcpConnection} (v : IsSound r false s) (live : s.state ≢ disconnected) (n : ℕ)
    (small : length bytes < 2 ^ 64) (part : n < length bytes) (took : write bytes ≡ sent n) where
  part_lethal-Delivers : is_lethal s.errno ≡ true → Delivers k write bytes (take n bytes ++ []) r s
  part_lethal-Delivers lethal = (
    wrote k write bytes v live small n,
    false,
    send_part_lethal k write bytes v live small n part took lethal,
    outside-IsSound _ s.errno v,
    rw (v.drained refl live, written-append s.effects (bytes_written (take n bytes) ∷ []))
        (simp append-nil),
    refl,
    refl,
    (bytes_written (take n bytes) ∷ [], refl, refl, refl),
  )

  abbrev after_part : IsSound r false (wrote k write bytes v live small n)
  after_part = outside-IsSound _ s.errno v

  part_mild-Delivers :
      is_lethal s.errno ≡ false
      → (room : s.output_buffer.writer_index + (length bytes - n) ≤ Buffer.max_size)
      → Delivers k write bytes (take n bytes ++ take (length bytes - n) bytes) r s
  part_mild-Delivers mild room = (
    buffered k r false after_part bytes 0 (length bytes - n) (omega arith) room,
    true,
    send_part k write bytes v live small n part took mild room after_part,
    buffered-IsSound k r false after_part bytes 0 (length bytes - n) (omega arith) room
        (omega arith),
    ap₂ ◌++◌
          (written-buffered k r false after_part bytes 0 (length bytes - n) (omega arith) room
            ∙ written-append s.effects (bytes_written (take n bytes) ∷ [])
            ∙ ap (◌++◌ (written s.effects)) (append-nil (take n bytes)))
          (content-buffered k r false after_part bytes 0 (length bytes - n) (omega arith) room
            ∙ ap (λ xs. xs ++ take (length bytes - n) bytes) (v.drained refl live))
        ∙ rw (v.drained refl live) (simp (append_assoc, append-nil)),
    unfold buffered in refl,
    unfold buffered in refl,
    (
      bytes_written (take n bytes) ∷ buffered_effects k r false s (length bytes - n),
      unfold buffered in append_assoc s.effects _ _,
      goes_on,
      unfold buffered in told,
    ),
  )
    where
      queued : Effect
      queued =
          functor_queued
            (call_high_water_mark (length (content s.output_buffer) + (length bytes - n)))

      goes_on : follow sending (buffered_effects k r false s (length bytes - n)) ≡ sending
      goes_on =
          follow-append sending (if crosses k s (length bytes - n) then queued ∷ [] else []) _
          ∙ ap (λ l. follow l (channel_updated (mask r true) ∷ []))
              (follow-if sending (crosses k s (length bytes - n)) queued refl)

      told : masked s.channel.events (buffered_effects k r false s (length bytes - n)) ≡ mask r true
      told =
          masked-append s.channel.events
            (if crosses k s (length bytes - n) then queued ∷ [] else []) _

-- When the first write of a call does not fail, the call succeeds, and the bytes of `puts` follow all
-- that was to be sent before, in order and each once; the invariant, the state and the input are
-- kept, the stream is not ended, and the poller knows what the channel waits for.
pub send_in_loop-Delivers :
    (k : ConnectionCallbacks) (write : List ℕ → WriteResult) (bytes : List ℕ) (r w : Bool)
    {s : TcpConnection}
    → IsSound r w s
    → s.state ≢ disconnected
    → s.output_buffer.writer_index + length bytes ≤ Buffer.max_size
    → IsTaken w bytes (write bytes)
    → Delivers k write bytes (puts w s.errno bytes (write bytes)) r s
send_in_loop-Delivers k write bytes r false v live fits (inl e) = absurd (cc)
send_in_loop-Delivers k write bytes r false {s} v live fits (inr (n, e, le)) =
    subst (λ x. Delivers k write bytes (puts false s.errno bytes x) r s) (sym e)
      (elim (ℕ_discrete n (length bytes)) [
        | yes all_ ↦
            subst (λ m. Delivers k write bytes (puts false s.errno bytes (sent m)) r s) (sym all_)
              (subst (λ out. Delivers k write bytes out r s) (sym (puts_whole false s.errno bytes))
                (whole-Delivers k write bytes live v (omega arith) (e ∙ ap sent all_)))
        | no some_left ↦ elim (Bool-cases (is_lethal s.errno)) [
          | inl lethal ↦
              rw lethal
                (part_lethal-Delivers k write bytes v live n (omega arith) (omega arith) e lethal)
          | inr mild ↦ rw mild (
              part_mild-Delivers k write bytes v live n (omega arith) (omega arith) e mild
                (omega arith))
        ]
      ])
send_in_loop-Delivers k write bytes r true v live fits took = elim (dec_lt 0 (length bytes)) [
  | yes pos ↦ buffered-Delivers k write bytes live v pos fits
  | no none_given ↦ nothing-Delivers k write bytes live v (omega arith)
]

-- `send` in the loop's own thread is `sendInLoop`, on a connected connection.
pub send_connected :
    (k : ConnectionCallbacks) (write : List ℕ → WriteResult) (address : ℕ) (bytes : List ℕ)
    (s : TcpConnection)
    → s.state ≡ connected
    → send k true write address bytes s ≡ send_in_loop k write bytes s
unfolding send
send_connected k write address bytes s live = rw (ap (λ st. is_state st connected) live) refl

-- A connection that is not connected is given nothing to send.
pub send_ignored :
    (k : ConnectionCallbacks) (in_loop_thread : Bool) (write : List ℕ → WriteResult) (address : ℕ)
    (bytes : List ℕ) (s : TcpConnection)
    → is_state s.state connected ≡ false
    → send k in_loop_thread write address bytes s ≡ some s
unfolding send
send_ignored k in_loop_thread write address bytes s other = rw other refl

module _ (k : ConnectionCallbacks) (write : List ℕ → WriteResult) (bytes : List ℕ) (n : ℕ)
    {r : Bool} {s : TcpConnection} (v : IsSound r false s) (live : s.state ≢ disconnected)
    (fits : s.output_buffer.writer_index + length bytes ≤ Buffer.max_size) (part : n < length bytes)
    (took : write bytes ≡ sent n) where
  -- The bug: when the kernel takes only the first `n` bytes, the rest of the stream is not the bytes
  -- from `n` on, but the data from its beginning, cut off by `n` bytes at its end.
  pub send_in_loop_partial :
      is_lethal s.errno ≡ false
      → (s' : TcpConnection) × (send_in_loop k write bytes s ≡ some s')
        × (written s'.effects ≡ written s.effects ++ take n bytes)
        × (content s'.output_buffer ≡ take (length bytes - n) bytes)
  send_in_loop_partial mild = (
    buffered k r false after bytes 0 (length bytes - n) (omega arith) room,
    send_part k write bytes v live (omega arith) n part took mild room after,
    written-buffered k r false after bytes 0 (length bytes - n) (omega arith) room
        ∙ written-append s.effects (bytes_written (take n bytes) ∷ [])
        ∙ ap (◌++◌ (written s.effects)) (append-nil (take n bytes)),
    content-buffered k r false after bytes 0 (length bytes - n) (omega arith) room
        ∙ ap (λ xs. xs ++ take (length bytes - n) bytes) (v.drained refl live),
  )
    where
      after : IsSound r false (wrote k write bytes v live (omega arith) n)
      after = outside-IsSound _ s.errno v

      room : s.output_buffer.writer_index + (length bytes - n) ≤ Buffer.max_size
      room = omega arith

  -- The other bug: `errno` is looked at although the call succeeded. When an old EPIPE or ECONNRESET
  -- stands there, the bytes that the kernel did not take are dropped.
  pub send_in_loop_stale_errno :
      is_lethal s.errno ≡ true
      → (s' : TcpConnection) × (send_in_loop k write bytes s ≡ some s')
        × (stream s' ≡ stream s ++ take n bytes)
        × (s'.state ≡ s.state)
  send_in_loop_stale_errno lethal = (
    wrote k write bytes v live (omega arith) n,
    send_part_lethal k write bytes v live (omega arith) n part took lethal,
    rw (v.drained refl live, written-append s.effects (bytes_written (take n bytes) ∷ []))
        (simp append-nil),
    refl,
  )
