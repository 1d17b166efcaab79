-- ===== src/TcpConnection/Registered/Touching.antt =====
-- One effect of a connection at the poller.
use htcp_multithread.Prelude.{
  ℕ, ◌≡◌, ◌≢◌, refl, ap, sym, subst, zero, suc, ◌∙◌, Bool, true, false, some, [], ◌∷◌, arith, ◌==◌,
}
use htcp_multithread.Channel.{Channel, Index, new, added, deleted}
use htcp_multithread.Epoll.{Epoll}
use htcp_multithread.Poller.{World}
use htcp_multithread.Poller.Synced.{IsSynced, OwnsFd}
use htcp_multithread.Poller.Calls.{set_events_lem, remove_lem, next_index}
use htcp_multithread.TcpConnection.{
  Effect, keep_alive_set, channel_updated, channel_removed, functor_queued, bytes_written,
  write_shut_down, connection_called, message_called, close_called, error_logged,
}
use htcp_multithread.TcpConnection.Silence.{masked}
use htcp_multithread.TcpConnection.Registered.{registered_by, touch}

-- What `index_` has to be: a channel that the poller has and that waits for something is on the kernel's
-- list, and one that it does not have is new.
abbrev pub HasStatus : Bool → Channel → Type 0
HasStatus true c = c.events ≢ 0 → c.index ≡ added
HasStatus false c = c.index ≡ new

module _ (ep : Epoll) (a : ℕ) where
  next_index_added : (i : Index) (events : ℕ) → events ≢ 0 → next_index ep i (events == 0) ≡ added
  next_index_added new events ne = refl
  next_index_added added zero ne = absurd (ne refl)
  next_index_added added (suc n) ne = ground arith
  next_index_added deleted events ne = refl

  -- What an effect leaves of the channels.
  pub record IsTouched (w w' : World ep) (e : Effect) : Type 0 where
    pub synced : IsSynced ep w'
    pub same_fd : (w'.chans a).fd ≡ (w.chans a).fd
    pub same_revents : (w'.chans a).revents ≡ (w.chans a).revents
    pub mask : (w'.chans a).events ≡ masked (w.chans a).events (e ∷ [])
    pub status : (b : Bool) → HasStatus b (w.chans a) → HasStatus (registered_by e b) (w'.chans a)
    pub others : (b : ℕ) → b ≢ a → w'.chans b ≡ w.chans b

  module _ {w : World ep} (v : IsSynced ep w) (own : OwnsFd ep w a) where
    Touches : Effect → Type 0
    Touches e = (w' : World ep) × (touch ep a e w ≡ some w') × IsTouched w w' e

    updated-Touches : (events : ℕ) → Touches (channel_updated events)
    unfolding Touches touch
    updated-Touches events =
        let (w', e, v', c, rest) = set_events_lem ep v a own events in
        (
          w',
          e,
          record {
            synced = v';
            same_fd = ap (λ x. x.fd) c;
            same_revents = ap (λ x. x.revents) c;
            mask = ap (λ x. x.events) c;
            status = λ b was ne.
                ap (λ x. x.index) c
                ∙ next_index_added (w.chans a).index events (subst (λ x. x.events ≢ 0) c ne);
            others = rest;
          },
        )

    removed-Touches : Touches channel_removed
    unfolding Touches touch
    removed-Touches =
        let (w', e, v', c, clear, list, rest) = remove_lem ep v a own in
        (
          w',
          e,
          record {
            synced = v';
            same_fd = ap (λ x. x.fd) c;
            same_revents = ap (λ x. x.revents) c;
            mask = ap (λ x. x.events) c;
            status = λ b was. ap (λ x. x.index) c;
            others = rest;
          },
        )

    -- The other effects leave the poller alone.
    apart :
        {e : Effect}
        → masked (w.chans a).events (e ∷ []) ≡ (w.chans a).events
        → ((b : Bool) → registered_by e b ≡ b)
        → IsTouched w w e
    apart same keeps = record {
      synced = v;
      same_fd = refl;
      same_revents = refl;
      mask = sym same;
      status = λ b was. subst (λ x. HasStatus x (w.chans a)) (sym (keeps b)) was;
      others = λ b ne. refl;
    }

    pub touch_lem : (e : Effect) → (w' : World ep) × (touch ep a e w ≡ some w') × IsTouched w w' e
    unfolding Touches touch
    touch_lem (channel_updated events) = updated-Touches events
    touch_lem channel_removed = removed-Touches
    touch_lem keep_alive_set = (w, refl, apart refl (λ b. refl))
    touch_lem (functor_queued f) = (w, refl, apart refl (λ b. refl))
    touch_lem (bytes_written bytes) = (w, refl, apart refl (λ b. refl))
    touch_lem write_shut_down = (w, refl, apart refl (λ b. refl))
    touch_lem (connection_called st) = (w, refl, apart refl (λ b. refl))
    touch_lem message_called = (w, refl, apart refl (λ b. refl))
    touch_lem close_called = (w, refl, apart refl (λ b. refl))
    touch_lem (error_logged n) = (w, refl, apart refl (λ b. refl))
