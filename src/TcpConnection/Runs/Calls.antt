-- ===== src/TcpConnection/Runs/Calls.antt =====
-- Sending, shutting down and closing in a run.
use htcp_multithread.Prelude.{
  ℕ, ◌≡◌, refl, ap, subst, ◌∙◌, Bool, true, false, some, List, [], ◌∷◌, ◌++◌, inl, inr, append-nil,
  append_assoc,
}
use htcp_multithread.Syscall.{WriteResult}
use htcp_multithread.Channel
use htcp_multithread.Channel.Events.{Waits-tests}
use htcp_multithread.TcpConnection.{
  TcpConnection, connected, disconnected, is_state, emit, set_high_water_mark_callback,
  channel_updated, channel_removed, connection_called, close_called,
}
use htcp_multithread.TcpConnection.Sound.{outside-IsSound, closed-IsSound}
use htcp_multithread.TcpConnection.Silence.{
  masked, masked-append, sending, follow, line_after, follow-append,
}
use htcp_multithread.TcpConnection.Sending.Results.{puts, IsTaken}
use htcp_multithread.TcpConnection.Sending.Delivery.{
  send_in_loop-Delivers, send_connected, send_ignored,
}
use htcp_multithread.TcpConnection.Closing.{
  shut, shutdown-shut, shutdown_ignored, connected_or_not, is_state-connected, closed,
  handle_close_lem, gone, connect_destroyed_connected, connect_destroyed_other,
}
use htcp_multithread.TcpConnection.Runs.{
  marks, sends, shuts, closes, destroys, callbacks, said, MayCome,
}
use htcp_multithread.TcpConnection.Runs.Steps.{
  IsFine, unseen-IsFine, ended-FitsLine, line_connected, shut-IsFine, Goes,
}

module _ (c h : Bool) {w : Bool} {s : TcpConnection} {all : List ℕ} (v : IsFine w s all) where
  pub marks-Goes : (mark : ℕ) → Goes c h s (marks mark) all
  unfolding set_high_water_mark_callback
  marks-Goes mark = (
    _,
    w,
    refl,
    record {
      r = v.r;
      sound = record {
        input_valid = v.sound.input_valid;
        output_valid = v.sound.output_valid;
        mask = v.sound.mask;
        pending = v.sound.pending;
        drained = v.sound.drained;
      };
      all_said = v.all_said;
      line = v.line;
      told = v.told;
    },
  )

  pub closes-Goes : Goes c h s closes all
  closes-Goes =
      let (e, sound) = handle_close_lem (callbacks c h) some some refl refl v.r w v.sound in
      (
        emit close_called (closed (callbacks c h) s),
        false,
        e,
        unseen-IsFine (channel_updated 0 ∷ connection_called disconnected ∷ close_called ∷ []) v
            false (outside-IsSound _ s.errno sound) (append_assoc s.effects _ _) refl refl
            (λ l. refl) refl (ended-FitsLine s.state disconnected tt v.line),
      )

  pub destroys-Goes : Goes c h s destroys all
  destroys-Goes = elim (connected_or_not s.state) [
    | inl e ↦ (
      gone (callbacks c h) s,
      false,
      connect_destroyed_connected (callbacks c h) v.sound e,
      unseen-IsFine (channel_updated 0 ∷ channel_removed ∷ []) v false (closed-IsSound _ v.sound)
          refl refl refl (λ l. refl) refl (ended-FitsLine s.state disconnected tt v.line),
    )
    | inr ne ↦ (
      emit channel_removed s,
      w,
      connect_destroyed_other (callbacks c h) s ne,
      unseen-IsFine (channel_removed ∷ []) v v.r (outside-IsSound _ s.errno v.sound) refl refl refl
          (λ l. refl) refl v.line,
    )
  ]

  pub shuts-Goes : Goes c h s shuts all
  shuts-Goes = elim (connected_or_not s.state) [
    | inl e ↦ (shut w s, w, ap some (shutdown-shut v.r w v.sound e), shut-IsFine w v e)
    | inr ne ↦ (s, w, ap some (shutdown_ignored true s ne), v)
  ]

  pub sends-Goes :
      (write : List ℕ → WriteResult) (address : ℕ) (bytes : List ℕ)
      → MayCome (sends write address bytes) s
      → Goes c h s (sends write address bytes) (all ++ said (sends write address bytes) s)
  sends-Goes write address bytes (fits, took) = elim (connected_or_not s.state) [
    | inl e ↦
        (let (t, w', did, sound, str, st, inp, (es, added, goes_on, tells)) =
            send_in_loop-Delivers (callbacks c h) write bytes v.r w v.sound (λ d. cc) fits
              (subst (λ b. IsTaken b bytes (write bytes)) waits took) in
          let behind : line_after t.effects ≡ sending =
            ap line_after added
            ∙ follow-append sending s.effects es
            ∙ ap (λ l. follow l es) (line_connected e v.line)
            ∙ goes_on in
          (
            t,
            w',
            send_connected (callbacks c h) write address bytes s e ∙ did,
            rw (ap (λ x. is_state x connected) e) (record {
              r = v.r;
              sound = sound;
              all_said =
                  rw waits (str ∙ ap (λ xs. xs ++ puts w s.errno bytes (write bytes)) v.all_said);
              line = inl behind;
              told =
                  ap (masked 0) added
                  ∙ masked-append 0 s.effects es
                  ∙ ap (λ m. masked m es) v.told
                  ∙ tells;
            }),
          ))
    | inr ne ↦
        (let other : is_state s.state connected ≡ false = is_state-connected s.state ne in
          (
            s,
            w,
            send_ignored (callbacks c h) true write address bytes s other,
            rw (other, append-nil all) v,
          ))
  ]
    where
      waits : Channel.is_writing s.channel ≡ w
      waits = (Waits-tests v.r w s.channel v.sound.mask).1
