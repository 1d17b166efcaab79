-- ===== src/Poller/Poll.antt =====
-- One round of `poll`: what goes into the list of active channels.
use htcp_multithread.Prelude.{
  ℕ, ◌<◌, ◌*◌, ◌≤◌, ◌≡◌, refl, ap, sym, ◌∙◌, some, ◌==◌, if◌then◌else◌, arith, List, [], ◌∷◌, ◌++◌,
  length, map, append_assoc, append-nil, length-map, ◌⊎◌, inl, inr,
}
use htcp_multithread.Channel.{Channel, added, set_revents}
use htcp_multithread.Epoll.{Epoll, EpollEvent, All, WaitResult, ready, wait_failed}
use htcp_multithread.Poller.{World, update_map, fill_active_channels, poll}
use htcp_multithread.Poller.Synced.{IsSynced}

module _ (ep : Epoll) where
  -- The active channels are those of the events, in the order in which the kernel reports them.
  active-fill :
      (es : List EpollEvent) (chans : ℕ → Channel) (active : List ℕ)
      → (fill_active_channels ep es chans active).1 ≡ active ++ map (λ e. e.ptr) es
  unfolding fill_active_channels
  active-fill [] chans active = sym (append-nil active)
  active-fill (e ∷ es) chans active =
      active-fill es (update_map e.ptr (set_revents e.events (chans e.ptr)) chans)
        (active ++ e.ptr ∷ [])
      ∙ append_assoc active (e.ptr ∷ []) (map (λ e. e.ptr) es)

  -- The loop changes nothing of a channel but its `revents_`.
  fill_other_fields :
      (es : List EpollEvent) (chans : ℕ → Channel) (active : List ℕ) (a : ℕ)
      → let c = (fill_active_channels ep es chans active).0 a in
        c ≡ record (chans a) { revents = c.revents }
  unfolding fill_active_channels set_revents
  fill_other_fields [] chans active a = refl
  fill_other_fields (e ∷ es) chans active a = ground (
    arith,
    fill_other_fields es (update_map e.ptr (set_revents e.events (chans e.ptr)) chans)
        (active ++ e.ptr ∷ []) a,
  )

  -- The last event that the kernel reports for a channel.
  abbrev pub reported : ℕ → List EpollEvent → ℕ → ℕ
  reported a [] old = old
  reported a (e ∷ es) old = reported a es (if e.ptr == a then e.events else old)

  fill_revents :
      (es : List EpollEvent) (chans : ℕ → Channel) (active : List ℕ) (a : ℕ)
      → ((fill_active_channels ep es chans active).0 a).revents ≡ reported a es (chans a).revents
  unfolding fill_active_channels set_revents
  fill_revents [] chans active a = refl
  fill_revents (e ∷ es) chans active a =
      fill_revents es (update_map e.ptr (set_revents e.events (chans e.ptr)) chans)
        (active ++ e.ptr ∷ []) a
      ∙ ap (reported a es) (ground arith)

  -- New `revents_` do not concern the invariant.
  revents-IsSynced :
      {w : World ep} (chans : ℕ → Channel) (size : ℕ)
      → IsSynced ep w
      → ((a : ℕ) → chans a ≡ record (w.chans a) { revents = (chans a).revents })
      → IsSynced ep
          (record { poller = record (w.poller) { event_list_size = size }; chans = chans })
  revents-IsSynced chans size v same = record {
    named = λ a. ground (arith, same a, v.named a);
    listed = λ a ne. ground (arith, same a, v.listed a);
    mapped = λ fd a e. ground (arith, same a, v.mapped fd a);
    held = λ a e. ground (arith, same a, v.held a);
    owned = λ fd e h. ground (arith, same e.ptr, v.owned fd e);
  }

  active_added :
      {w : World ep}
      → IsSynced ep w
      → (es : List EpollEvent)
      → All
          (λ e.
            (fd : ℕ) × (o : EpollEvent) × (ep.interest w.poller.kernel fd ≡ some o)
            × (o.ptr ≡ e.ptr))
          es
      → All (λ a. (w.chans a).index ≡ added) (map (λ e. e.ptr) es)
  active_added v [] h = tt
  active_added {w} v (e ∷ es) ((fd, o, held, same), hs) =
      (ground (arith, v.owned fd o held), active_added v es hs)

  -- When `epoll_wait` reports the events `es`, exactly their channels become active, in that order;
  -- all of them are registered; there are at most `events_.size()`, which doubles when all of it was
  -- used; each channel has the mask reported for it, and nothing else of it changes.
  pub poll_ready :
      {w : World ep} (es : List EpollEvent)
      → IsSynced ep w
      → 0 < w.poller.event_list_size
      → ep.wait w.poller.event_list_size w.poller.kernel ≡ ready es
      → let (w', active) = poll ep w [] in
        (active ≡ map (λ e. e.ptr) es)
        × All (λ a. (w.chans a).index ≡ added) active
        × (length active ≤ w.poller.event_list_size)
        × (w'.poller.event_list_size ≡ (
            if length active == w.poller.event_list_size
            then w.poller.event_list_size * 2
            else w.poller.event_list_size))
        × ((a : ℕ)
            → w'.chans a ≡ record (w.chans a) { revents = reported a es (w.chans a).revents })
        × IsSynced ep w'
  unfolding poll
  poll_ready {w} [] v pos e = rw (e, poll) (refl, tt, omega arith, ground arith, λ a. refl, v)
  poll_ready {w} (e ∷ es) v pos h =
      rw (h, poll)
        (
          filled,
          rw filled (
              active_added v (e ∷ es)
                (ep.wait_registered w.poller.event_list_size w.poller.kernel (e ∷ es) h)),
          rw (filled, count) (ep.wait_bounded w.poller.event_list_size w.poller.kernel (e ∷ es) h),
          rw (filled, count) refl,
          λ a.
              ground (
                arith,
                fill_other_fields (e ∷ es) w.chans [] a,
                fill_revents (e ∷ es) w.chans [] a,
              ),
          revents-IsSynced _ _ v (fill_other_fields (e ∷ es) w.chans []),
        )
    where
      filled : (fill_active_channels ep (e ∷ es) w.chans []).1 ≡ map (λ x. x.ptr) (e ∷ es)
      filled = active-fill (e ∷ es) w.chans []

      count : length (map (λ (x : EpollEvent). x.ptr) (e ∷ es)) ≡ length (e ∷ es)
      count = length-map (e ∷ es) (λ (x : EpollEvent). x.ptr)

  -- A failed wait, a signal among them, changes nothing.
  pub poll_failed :
      (w : World ep) (errno : ℕ)
      → ep.wait w.poller.event_list_size w.poller.kernel ≡ wait_failed errno
      → poll ep w [] ≡ (w, [])
  unfolding poll
  poll_failed w errno e = rw (e, poll)

  -- Whatever `epoll_wait` returns, the invariant is kept, and nothing of a channel changes but its
  -- `revents_`.
  pub poll_keeps :
      {w : World ep}
      → IsSynced ep w
      → let (w', active) = poll ep w [] in
        IsSynced ep w'
        × ((a : ℕ) → w'.chans a ≡ record (w.chans a) { revents = (w'.chans a).revents })
  unfolding poll
  poll_keeps {w} v = go (ep.wait w.poller.event_list_size w.poller.kernel) refl
    where
      go :
          (r : WaitResult)
          → ep.wait w.poller.event_list_size w.poller.kernel ≡ r
          → let (w', active) = poll ep w [] in
            IsSynced ep w'
            × ((a : ℕ) → w'.chans a ≡ record (w.chans a) { revents = (w'.chans a).revents })
      go (wait_failed errno) e = rw (e, poll) (v, λ a. refl)
      go (ready []) e = rw (e, poll) (v, λ a. refl)
      go (ready (x ∷ xs)) e =
          rw (e, poll)
            (
              revents-IsSynced _ _ v (fill_other_fields (x ∷ xs) w.chans []),
              fill_other_fields (x ∷ xs) w.chans [],
            )

  -- The active channels are those of the events that the kernel reported, if it reported any.
  pub active_reported :
      (w : World ep)
      → ((poll ep w []).1 ≡ [])
        ⊎ ((es : List EpollEvent) × (ep.wait w.poller.event_list_size w.poller.kernel ≡ ready es)
            × ((poll ep w []).1 ≡ map (λ e. e.ptr) es))
  unfolding poll
  active_reported w = go (ep.wait w.poller.event_list_size w.poller.kernel) refl
    where
      go :
          (r : WaitResult)
          → ep.wait w.poller.event_list_size w.poller.kernel ≡ r
          → ((poll ep w []).1 ≡ [])
            ⊎ ((es : List EpollEvent) × (ep.wait w.poller.event_list_size w.poller.kernel
                  ≡ ready es)
                × ((poll ep w []).1 ≡ map (λ e. e.ptr) es))
      go (wait_failed errno) e = inl (rw (e, poll) refl)
      go (ready []) e = inl (rw (e, poll) refl)
      go (ready (x ∷ xs)) e = inr (x ∷ xs, e, rw (e, poll) (active-fill (x ∷ xs) w.chans []))
