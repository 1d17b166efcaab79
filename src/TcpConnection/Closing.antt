-- ===== src/TcpConnection/Closing.antt =====
-- The life of a connection: established, shut down, closed, destroyed.
use htcp_multithread.Prelude.{
  ℕ, ◌≡◌, ◌≢◌, refl, ap, ◌∙◌, Bool, true, false, Option, none, some, [], ◌∷◌, ◌++◌, if◌then◌else◌,
  arith, ◌⊎◌, inl, inr, ◌>>=◌, append_assoc, append-nil,
}
use htcp_multithread.Buffer.Content.{content}
use htcp_multithread.Channel
use htcp_multithread.Channel.Events.{Waits-tests, waiting, mask, setters_lem}
use htcp_multithread.TcpConnection.{
  TcpConnection, ConnectionCallbacks, State, disconnected, connecting, connected, disconnecting,
  is_state, emit, channel_updated, channel_removed, write_shut_down, connection_called,
  close_called, update, shutdown, shutdown_in_loop, connect_established, connect_destroyed,
  handle_close,
}
use htcp_multithread.TcpConnection.Sound.{IsSound, outside-IsSound, state-IsSound, closed-IsSound}
use htcp_multithread.TcpConnection.Stream.{stream, written, written-append}

pub is_state-connected : (st : State) → st ≢ connected → is_state st connected ≡ false
is_state-connected disconnected ne = refl
is_state-connected connecting ne = refl
is_state-connected connected ne = absurd (ne refl)
is_state-connected disconnecting ne = refl

pub connected_or_not : (st : State) → (st ≡ connected) ⊎ (st ≢ connected)
connected_or_not disconnected = inr (λ e. cc)
connected_or_not connecting = inr (λ e. cc)
connected_or_not connected = inl refl
connected_or_not disconnecting = inr (λ e. cc)

-- The connection after `shutdown` of a connected one in its own loop.
abbrev pub shut : Bool → TcpConnection → TcpConnection
shut w s = record s {
  state = disconnecting;
  effects = if w then s.effects else s.effects ++ write_shut_down ∷ [];
}

pub shutdown-shut :
    (r w : Bool) {s : TcpConnection}
    → IsSound r w s
    → s.state ≡ connected
    → shutdown true s ≡ shut w s
unfolding shutdown shutdown_in_loop
shutdown-shut r true {s} v e = rw (e, (Waits-tests r true s.channel v.mask).1) refl
shutdown-shut r false {s} v e = rw (e, (Waits-tests r false s.channel v.mask).1) refl

-- `shutdown` acts on a connected connection only, and makes it disconnecting. The write side is shut
-- down at once only when all output is gone; otherwise that is left to `handleWrite`.
pub shutdown_lem :
    (r w : Bool) {s : TcpConnection}
    → IsSound r w s
    → s.state ≡ connected
    → let s' = shutdown true s in
      (s'.state ≡ disconnecting)
      × IsSound r w s'
      × (s'.effects ≡ (if w then s.effects else s.effects ++ write_shut_down ∷ []))
      × ((w ≡ true) ⊎ (content s'.output_buffer ≡ []))
shutdown_lem r true {s} v e =
    rw (shutdown-shut r true v e)
      (refl, state-IsSound disconnecting s.effects (λ d. cc) v, refl, inl refl)
shutdown_lem r false {s} v e = rw (shutdown-shut r false v e) (
  refl,
  state-IsSound disconnecting (s.effects ++ write_shut_down ∷ []) (λ d. cc) v,
  refl,
  inr (v.drained refl (λ d. cc)),
)

pub shutdown_ignored :
    (in_loop_thread : Bool) (s : TcpConnection)
    → s.state ≢ connected
    → shutdown in_loop_thread s ≡ s
unfolding shutdown
shutdown_ignored in_loop_thread s ne = rw (is_state-connected s.state ne) refl

-- A second `shutdown` does nothing, in whichever thread the two calls are made.
pub shutdown-shutdown : (b c : Bool) (s : TcpConnection) → shutdown c (shutdown b s) ≡ shutdown b s
unfolding shutdown shutdown_in_loop
shutdown-shutdown b c s = ground arith

module _ (k : ConnectionCallbacks) where
  -- What `handleClose` does before it calls back: the connection is disconnected and waits for
  -- nothing.
  abbrev pub closed : TcpConnection → TcpConnection
  closed s = record s {
    state = disconnected;
    channel = waiting false false s.channel;
    effects = s.effects ++ channel_updated 0 ∷ connection_called disconnected ∷ [];
  }

  module _ (on_connection on_close : TcpConnection → Option TcpConnection)
      (connection_set : k.connection_callback ≡ some on_connection)
      (close_set : k.close_callback ≡ some on_close) where
    -- `handleClose` calls the connection callback and then the close callback, each once, on a
    -- connection that is already disconnected and off the poller's hands.
    pub handle_close_lem :
        (r w : Bool) {s : TcpConnection}
        → IsSound r w s
        → (handle_close k s ≡ (on_connection (closed s) >>= λ t. on_close (emit close_called t)))
          × IsSound false false (closed s)
    unfolding handle_close
    handle_close_lem r w {s} v = (
      rw (
        (setters_lem update r w s.channel s.effects v.mask).4,
        connection_set,
        close_set,
        append_assoc,
      ),
      closed-IsSound _ v,
    )

  -- `connectEstablished` calls the connection callback once, on a connection that is connected, tied
  -- to itself and waiting to read.
  pub connect_established_lem :
      (r w : Bool) (self : ℕ) {s : TcpConnection}
      (on_connection : TcpConnection → Option TcpConnection)
      → k.connection_callback ≡ some on_connection
      → IsSound r w s
      → s.state ≡ connecting
      → (s' : TcpConnection) × (connect_established k self s ≡ on_connection s')
        × IsSound true w s'
        × (s'.state ≡ connected)
        × (s'.channel.tie ≡ some self)
        × (s'.channel.tied ≡ true)
        × (s'.effects
            ≡ s.effects ++ channel_updated (mask true w) ∷ connection_called connected ∷ [])
        × (s'.output_buffer ≡ s.output_buffer)
  unfolding connect_established Channel.set_tie
  connect_established_lem r w self {s} on_connection set v e = (
    record s {
      state = connected;
      channel = waiting true w (Channel.set_tie self s.channel);
      effects = s.effects ++ channel_updated (mask true w) ∷ connection_called connected ∷ [];
    },
    rw (
      (setters_lem update r w (Channel.set_tie self s.channel) s.effects v.mask).0,
      set,
      append_assoc,
    ),
    record {
      input_valid = v.input_valid;
      output_valid = v.output_valid;
      mask = refl;
      pending = v.pending;
      drained = λ z ne. v.drained z (λ d. cc);
    },
    refl,
    refl,
    refl,
    refl,
    refl,
  )

  -- Without a connection callback the call throws; nothing sets a default one.
  pub connect_established_unset :
      (self : ℕ) (s : TcpConnection)
      → k.connection_callback ≡ none
      → connect_established k self s ≡ none
  unfolding connect_established Channel.enable_reading
  connect_established_unset self s unset = rw unset

  -- The connection after `connectDestroyed`.
  abbrev pub gone : TcpConnection → TcpConnection
  gone s = record s {
    state = disconnected;
    channel = waiting false false s.channel;
    effects = s.effects ++ channel_updated 0 ∷ channel_removed ∷ [];
  }

  pub connect_destroyed_connected :
      {r w : Bool} {s : TcpConnection}
      → IsSound r w s
      → s.state ≡ connected
      → connect_destroyed k s ≡ some (gone s)
  unfolding connect_destroyed
  connect_destroyed_connected {r} {w} {s} v e =
      rw (e, (setters_lem update r w s.channel s.effects v.mask).4, append_assoc)

  pub connect_destroyed_other :
      (s : TcpConnection)
      → s.state ≢ connected
      → connect_destroyed k s ≡ some (emit channel_removed s)
  unfolding connect_destroyed
  connect_destroyed_other s ne = rw (is_state-connected s.state ne)

  -- `connectDestroyed` ends with the removal of the channel from the poller in every state. Only a
  -- connection that is still connected is disconnected first and stops waiting for events; either
  -- way the buffers stay as they are and the invariant is kept.
  pub connect_destroyed_lem :
      (r w : Bool) {s : TcpConnection}
      → IsSound r w s
      → (s' : TcpConnection) × (r' : Bool) × (w' : Bool) × (connect_destroyed k s ≡ some s')
        × IsSound r' w' s'
        × (s'.state ≢ connected)
        × (stream s' ≡ stream s)
        × (s'.effects
            ≡ s.effects
              ++ (if is_state s.state connected
                  then channel_updated 0 ∷ channel_removed ∷ []
                  else channel_removed ∷ []))
  connect_destroyed_lem r w {s} v = elim (connected_or_not s.state) [
    | inl e ↦ (
      gone s,
      false,
      false,
      connect_destroyed_connected v e,
      closed-IsSound _ v,
      (λ d. cc),
      ap (λ xs. xs ++ content s.output_buffer)
          (written-append s.effects _ ∙ append-nil (written s.effects)),
      rw e,
    )
    | inr ne ↦ (
      emit channel_removed s,
      r,
      w,
      connect_destroyed_other s ne,
      outside-IsSound _ s.errno v,
      ne,
      ap (λ xs. xs ++ content s.output_buffer)
          (written-append s.effects _ ∙ append-nil (written s.effects)),
      rw (is_state-connected s.state ne),
    )
  ]
