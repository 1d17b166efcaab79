-- ===== src/TcpConnection/Runs/Outgoing.antt =====
-- Writing in a run.
use htcp_multithread.Prelude.{
  ℕ, zero, suc, ◌≤◌, ◌≡◌, refl, ap, ◌∙◌, Bool, true, false, List, [], ◌∷◌, length, if◌then◌else◌,
  inl, inr, arith, drop_all, Bool-cases, ℕ_discrete,
}
use htcp_multithread.Syscall.{WriteResult, sent, write_failed, WritesWithin}
use htcp_multithread.Buffer.Content.{content}
use htcp_multithread.TcpConnection.{
  TcpConnection, State, connecting, connected, disconnected, disconnecting, is_state,
  write_shut_down, functor_queued, call_write_complete,
}
use htcp_multithread.Channel.Events.{mask}
use htcp_multithread.TcpConnection.Sound.{outside-IsSound}
use htcp_multithread.TcpConnection.Stream.{
  drained_effects, sent_on, finished, left, handle_write-drained, handle_write-left, stream-sent_on,
  stream-finished, sent_on-IsSound, finished-IsSound,
}
use htcp_multithread.TcpConnection.Stream.Writes.{
  handle_write_idle, handle_write_refused, handle_write_failed,
}
use htcp_multithread.TcpConnection.Silence.{
  masked, masked-append, masked-if, Line, sending, ended, follow, line_after, follow-append,
  follow-if, after_bytes, HasEnded,
}
use htcp_multithread.TcpConnection.Runs.Steps.{IsFine, FitsLine, line_waiting, Goes}
use htcp_multithread.TcpConnection.Runs.{writes, callbacks}

disconnecting-HasEnded : (st : State) → is_state st disconnecting ≡ true → HasEnded st
disconnecting-HasEnded disconnected e = tt
disconnecting-HasEnded connecting e = absurd (cc)
disconnecting-HasEnded connected e = absurd (cc)
disconnecting-HasEnded disconnecting e = tt

drained-FitsLine :
    (st : State) (line : Line) (out : List ℕ)
    → line ≡ (if is_state st disconnecting then ended else sending)
    → out ≡ []
    → FitsLine line false st out
drained-FitsLine st line out e gone_ = elim (Bool-cases (is_state st disconnecting)) [
  | inl d ↦
      inr (e ∙ ap (λ b. if b then ended else sending) d, refl, disconnecting-HasEnded st d, gone_)
  | inr d ↦ inl (e ∙ ap (λ b. if b then ended else sending) d)
]

module _ (c h r : Bool) (st : State) where
  -- The line after the last byte of the output.
  line_drained :
      follow sending (drained_effects (callbacks c h) r st)
      ≡ (if is_state st disconnecting then ended else sending)
  line_drained =
      follow-append sending (if c then functor_queued call_write_complete ∷ [] else []) _
      ∙ ap (λ l. follow l (if is_state st disconnecting then write_shut_down ∷ [] else []))
          (follow-if sending c (functor_queued call_write_complete) refl)
      ∙ last (is_state st disconnecting)
    where
      last :
          (b : Bool)
          → follow sending (if b then write_shut_down ∷ [] else []) ≡ (if b then ended else sending)
      last true = refl
      last false = refl

module _ (c h : Bool) {s : TcpConnection} {all : List ℕ} (write : List ℕ → WriteResult)
    (within : WritesWithin write) where
  line-sent_on :
      (v : IsFine true s all) (n : ℕ) (room : suc n ≤ length (content s.output_buffer))
      → line_after (sent_on (callbacks c h) v.sound n room).effects ≡ sending
  unfolding sent_on
  line-sent_on v n room =
      follow-append sending s.effects _ ∙ ap after_bytes (line_waiting s.state v.line)

  line-finished :
      (v : IsFine true s all) (n : ℕ) (room : suc n ≤ length (content s.output_buffer))
      → line_after (finished (callbacks c h) v.sound n room).effects
        ≡ (if is_state s.state disconnecting then ended else sending)
  unfolding finished
  line-finished v n room =
      follow-append sending (sent_on (callbacks c h) v.sound n room).effects _
      ∙ ap (λ l. follow l (drained_effects (callbacks c h) v.r s.state)) (line-sent_on v n room)
      ∙ line_drained c h v.r s.state

  finished-FitsLine :
      (v : IsFine true s all) (n : ℕ) (room : suc n ≤ length (content s.output_buffer))
      → length (content s.output_buffer) ≡ suc n
      → let t = finished (callbacks c h) v.sound n room in
        FitsLine (line_after t.effects) false t.state (content t.output_buffer)
  unfolding finished sent_on
  finished-FitsLine v n room d = drained-FitsLine s.state _ _ (line-finished v n room) (
      left (callbacks c h) v.sound n room
      ∙ drop_all (suc n) (content s.output_buffer) (omega arith))

  told-sent_on :
      (v : IsFine true s all) (n : ℕ) (room : suc n ≤ length (content s.output_buffer))
      → let t = sent_on (callbacks c h) v.sound n room in masked 0 t.effects ≡ t.channel.events
  unfolding sent_on
  told-sent_on v n room = masked-append 0 s.effects _ ∙ v.told

  told-finished :
      (v : IsFine true s all) (n : ℕ) (room : suc n ≤ length (content s.output_buffer))
      → let t = finished (callbacks c h) v.sound n room in masked 0 t.effects ≡ t.channel.events
  unfolding finished
  told-finished v n room =
      masked-append 0 (sent_on (callbacks c h) v.sound n room).effects _
      ∙ masked-append (mask v.r false) (if c then functor_queued call_write_complete ∷ [] else []) _
      ∙ ap (λ m. masked m (if is_state s.state disconnecting then write_shut_down ∷ [] else []))
          (masked-if (mask v.r false) c (functor_queued call_write_complete) refl)
      ∙ masked-if (mask v.r false) (is_state s.state disconnecting) write_shut_down refl

  writes_some :
      (v : IsFine true s all) (n : ℕ)
      → write (content s.output_buffer) ≡ sent (suc n)
      → Goes c h s (writes write) all
  writes_some v n e =
      let k = callbacks c h in
      let room : suc n ≤ length (content s.output_buffer) =
        within (content s.output_buffer) (suc n) e in
      elim (ℕ_discrete (length (content s.output_buffer)) (suc n)) [
        | yes d ↦ (
          finished k v.sound n room,
          false,
          handle_write-drained k v.sound n room write e d,
          record {
            r = v.r;
            sound = finished-IsSound k v.sound n room d;
            all_said = stream-finished k v.sound n room ∙ v.all_said;
            line = finished-FitsLine v n room d;
            told = told-finished v n room;
          },
        )
        | no d ↦ (
          sent_on k v.sound n room,
          true,
          handle_write-left k v.sound n room write e d,
          record {
            r = v.r;
            sound = sent_on-IsSound k v.sound n room d;
            all_said = stream-sent_on k v.sound n room ∙ v.all_said;
            line = inl (line-sent_on v n room);
            told = told-sent_on v n room;
          },
        )
      ]

  pub writes-Goes : (w : Bool) → IsFine w s all → Goes c h s (writes write) all
  writes-Goes false v = (s, false, handle_write_idle (callbacks c h) write v.sound, v)
  writes-Goes true v = go (write (content s.output_buffer)) refl
    where
      go :
          (result : WriteResult)
          → write (content s.output_buffer) ≡ result
          → Goes c h s (writes write) all
      go (sent zero) e = (s, true, handle_write_refused (callbacks c h) write v.sound e, v)
      go (sent (suc n)) e = writes_some v n e
      go (write_failed errno) e = (
        record s { errno = errno },
        true,
        handle_write_failed (callbacks c h) write errno v.sound e,
        record {
          r = v.r;
          sound = outside-IsSound s.effects errno v.sound;
          all_said = v.all_said;
          line = v.line;
          told = v.told;
        },
      )
