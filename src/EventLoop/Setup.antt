-- ===== src/EventLoop/Setup.antt =====
-- The constructor and the destructor of an EventLoop: its poller, its wakeup channel, and the one loop
-- that a thread may have.
use htcp_multithread.Prelude.{
  ℕ_discrete, subst, ℕ, ◌≡◌, ◌≢◌, refl, ap, sym, ◌∙◌, Bool, true, false, Option, none, some, ◌>>=◌,
  List, [], ◌∷◌, ◌++◌, arith, inl, inr,
}
use htcp_multithread.Epoll.{Epoll, EpollEvent}
use htcp_multithread.Channel
use htcp_multithread.Channel.{Channel, new, added, deleted}
use htcp_multithread.Poller
use htcp_multithread.Poller.{
  World, update_map, new_default_poller, update_channel, set_events, remove,
}
use htcp_multithread.Poller.Synced.{IsSynced}
use htcp_multithread.Poller.Calls.{next_index, set_events_lem, remove_lem}

module _ (ep : Epoll) where
  open ep use {interest}

  -- The poller, the channel objects, `wakeupFd_`, the descriptors that were closed, in order, and
  -- `t_loopInThisThread`, none for the null pointer.
  pub record Setup : Type 0 where
    pub world : World ep
    pub wakeup_fd : ℕ
    pub closed : List ℕ
    pub t_loop_in_this_thread : Option ℕ

  -- `use_poll` is whether MUDUO_USE_POLL is set, `eventfd` the result of the system call, `channel` the
  -- address of the wakeup channel. `none` is the end of the process, also by the null poller, which
  -- `enableReading` uses.
  unfoldable pub construct :
      (use_poll : Bool) (eventfd : Option ℕ) (this_loop channel : ℕ)
      (t_loop_in_this_thread : Option ℕ)
      → (ℕ → Channel)
      → Option Setup
  construct use_poll eventfd this_loop channel (some other) chans = none
  construct use_poll eventfd this_loop channel none chans = do
    poller ← new_default_poller use_poll (Poller.init ep)
    wakeup_fd ← eventfd
    let w : World ep = record {
      poller = poller;
      chans = update_map channel (Channel.init channel wakeup_fd) chans;
    }
    (c, p) ← Channel.enable_reading (update_channel ep) (w.chans channel) w.poller
    some (record {
      world = record { poller = p; chans = update_map channel c w.chans };
      wakeup_fd = wakeup_fd;
      closed = [];
      t_loop_in_this_thread = some this_loop;
    })

  unfoldable pub destroy : (channel : ℕ) → Setup → Option Setup
  destroy channel s = do
    w₁ ← set_events ep channel 0 s.world
    w₂ ← remove ep channel w₁
    some (record s {
      world = w₂;
      closed = s.closed ++ s.wakeup_fd ∷ [];
      t_loop_in_this_thread = none;
    })

  -- A store in which no channel was given to a poller yet.
  abbrev pub IsUnused : (ℕ → Channel) → Type 0
  IsUnused chans = (a : ℕ) → ((chans a).address ≡ a) × ((chans a).index ≡ new)

  module _ (this_loop channel wakeup_fd : ℕ) (chans : ℕ → Channel) (unused : IsUnused chans) where
    abbrev before : World ep
    before = record {
      poller = Poller.init ep;
      chans = update_map channel (Channel.init channel wakeup_fd) chans;
    }

    before_named : (a : ℕ) → (before.chans a).address ≡ a
    unfolding Channel.init
    before_named a = ground (arith, unused a)

    before_new : (a : ℕ) → (before.chans a).index ≡ new
    unfolding Channel.init
    before_new a = ground (arith, unused a)

    before-IsSynced : IsSynced ep before
    unfolding Poller.init
    before-IsSynced = record {
      named = before_named;
      listed = λ a ne. absurd (ne (before_new a));
      mapped = λ fd a e. absurd (cc (e));
      held = λ a e. absurd (cc (e, before_new a));
      owned = λ fd e h. absurd (cc (h, ep.create_empty fd));
    }

    at_channel : before.chans channel ≡ Channel.init channel wakeup_fd
    at_channel = ground arith

    made_of : World ep → Setup
    made_of w = record {
      world = w;
      wakeup_fd = wakeup_fd;
      closed = [];
      t_loop_in_this_thread = some this_loop;
    }

    as_one :
        (o : Option (Channel × Poller.Poller ep))
        → (o >>= λ x.
            some (made_of (record { poller = x.1; chans = update_map channel x.0 before.chans })))
          ≡ ((o >>= λ x.
                some (record { poller = x.1; chans = update_map channel x.0 before.chans }))
              >>= λ w. some (made_of w))
    as_one none = refl
    as_one (some x) = refl

    -- The constructor sets the events of its channel as any owner does.
    construct-set_events :
        construct false (some wakeup_fd) this_loop channel none chans
        ≡ (set_events ep channel Channel.read_event before >>= λ w. some (made_of w))
    unfolding construct new_default_poller Channel.enable_reading set_events Channel.init made_of
    construct-set_events = rw at_channel (
        as_one (
          update_channel ep
            (record (Channel.init channel wakeup_fd) { events = Channel.read_event })
            (Poller.init ep)))

    -- The wakeup channel once it is enabled.
    waiting : Channel
    waiting = record (Channel.init channel wakeup_fd) { events = Channel.read_event; index = added }

    module _ {w : World ep} (v : IsSynced ep w) (c : w.chans channel ≡ waiting)
        (others : (b : ℕ) → b ≢ channel → w.chans b ≡ before.chans b) where
      watched :
          interest w.poller.kernel wakeup_fd
          ≡ some (record { events = Channel.read_event; ptr = channel })
      unfolding waiting Channel.init
      watched =
          let held : interest w.poller.kernel (w.chans channel).fd
              ≡ some (Poller.event_of ep (w.chans channel)) =
            v.held channel (ap (λ x. x.index) c) in
          subst (λ x. interest w.poller.kernel x.fd ≡ some (Poller.event_of ep x)) c held

      unwatched : (fd : ℕ) → fd ≢ wakeup_fd → interest w.poller.kernel fd ≡ none
      unfolding waiting Channel.init
      unwatched fd ne = go (interest w.poller.kernel fd) refl
        where
          go : (o : Option EpollEvent) → interest w.poller.kernel fd ≡ o → o ≡ none
          go none h = refl
          go (some e) h = elim (ℕ_discrete e.ptr channel) [
            | yes p ↦
                absurd (ne (sym (v.owned fd e h).1 ∙ ap (λ b. (w.chans b).fd) p ∙ ap (λ x. x.fd) c))
            | no np ↦ absurd (
                cc
                  (sym (v.owned fd e h).0 ∙ ap (λ x. x.index) (others e.ptr np) ∙ before_new e.ptr))
          ]

    enabled :
        (w : World ep) × (set_events ep channel Channel.read_event before ≡ some w)
        × IsSynced ep w
        × (w.chans channel ≡ waiting)
        × ((b : ℕ) → b ≢ channel → w.chans b ≡ before.chans b)
    unfolding Poller.init waiting Channel.init
    enabled =
        let (w, e, v, c, others) =
          set_events_lem ep before-IsSynced channel (inl refl) Channel.read_event in
        (w, e, v, c ∙ rw at_channel refl, others)

    -- A loop that is made in a thread without one becomes that thread's loop, and its poller watches the
    -- wakeup descriptor for reading, and nothing else.
    pub construct_lem :
        (s : Setup) × (construct false (some wakeup_fd) this_loop channel none chans ≡ some s)
        × (s.t_loop_in_this_thread ≡ some this_loop)
        × IsSynced ep s.world
        × (interest s.world.poller.kernel wakeup_fd
            ≡ some (record { events = Channel.read_event; ptr = channel }))
        × ((fd : ℕ) → fd ≢ wakeup_fd → interest s.world.poller.kernel fd ≡ none)
    unfolding made_of
    construct_lem =
        let (w, e, v, c, others) = enabled in
        (
          made_of w,
          construct-set_events ∙ rw e refl,
          refl,
          v,
          watched v c others,
          unwatched v c others,
        )

    module _ {w : World ep} (v : IsSynced ep w) (c : w.chans channel ≡ waiting)
        (others : (b : ℕ) → b ≢ channel → w.chans b ≡ before.chans b) where
      disabled :
          (w' : World ep) × (set_events ep channel 0 w ≡ some w')
          × IsSynced ep w'
          × ((w'.chans channel).index ≢ new)
          × ((b : ℕ) → b ≢ channel → w'.chans b ≡ before.chans b)
      unfolding waiting Channel.init
      disabled =
          let own = v.listed channel (λ h. cc (h, ap (λ x. x.index) c)) in
          let (w', e', v', c', others') = set_events_lem ep v channel (inr own) 0 in
          let deleted_now : (w'.chans channel).index ≡ deleted =
            ap (λ x. x.index) c' ∙ ap (λ x. next_index ep x.index true) c in
          (w', e', v', (λ h. cc (h, deleted_now)), λ b ne. others' b ne ∙ others b ne)

      removed :
          (t : World ep) × ((set_events ep channel 0 w >>= remove ep channel) ≡ some t)
          × IsSynced ep t
          × ((b : ℕ) → (t.chans b).index ≡ new)
      removed =
          let (w', e', v', ne, others') = disabled in
          let (t, e, u, c'', gone, unheard, others'') =
            remove_lem ep v' channel (inr (v'.listed channel ne)) in
          (
            t,
            rw e' e,
            u,
            λ b. elim (ℕ_discrete b channel) [
              | yes p ↦ ap (λ k. (t.chans k).index) p ∙ ap (λ x. x.index) c''
              | no np ↦ ap (λ x. x.index) (others'' b np ∙ others' b np) ∙ before_new b
            ],
          )

    unheard_of :
        {t : World ep}
        → IsSynced ep t
        → ((b : ℕ) → (t.chans b).index ≡ new)
        → (fd : ℕ) → interest t.poller.kernel fd ≡ none
    unheard_of {t} u all_new fd = go (interest t.poller.kernel fd) refl
      where
        go : (o : Option EpollEvent) → interest t.poller.kernel fd ≡ o → o ≡ none
        go none h = refl
        go (some e) h = absurd (cc (sym (u.owned fd e h).0 ∙ all_new e.ptr))

    unlisted :
        {t : World ep}
        → IsSynced ep t
        → ((b : ℕ) → (t.chans b).index ≡ new)
        → (fd : ℕ) → t.poller.channels fd ≡ none
    unlisted {t} u all_new fd = go (t.poller.channels fd) refl
      where
        go : (o : Option ℕ) → t.poller.channels fd ≡ o → o ≡ none
        go none h = refl
        go (some a) h = absurd ((u.mapped fd a h).1 (all_new a))

    left_with : Setup → World ep → Setup
    left_with s w = record s {
      world = w;
      closed = s.closed ++ s.wakeup_fd ∷ [];
      t_loop_in_this_thread = none;
    }

    destroy_in_two :
        (s : Setup)
        → destroy channel s
          ≡ ((set_events ep channel 0 s.world >>= remove ep channel) >>= λ w. some (left_with s w))
    unfolding destroy left_with
    destroy_in_two s = go (set_events ep channel 0 s.world)
      where
        go :
            (o : Option (World ep))
            → (o >>= λ w. remove ep channel w >>= λ w'. some (left_with s w'))
              ≡ ((o >>= remove ep channel) >>= λ w. some (left_with s w))
        go none = refl
        go (some w) = refl

    -- What the constructor leaves, the destructor takes down again: both succeed, no descriptor is left
    -- in the poller's table or in the kernel's list, the wakeup descriptor is closed, and the thread may
    -- make another loop.
    pub construct-destroy :
        (t : Setup) × ((construct false (some wakeup_fd) this_loop channel none chans
            >>= destroy channel)
          ≡ some t)
        × (t.t_loop_in_this_thread ≡ none)
        × (t.closed ≡ wakeup_fd ∷ [])
        × IsSynced ep t.world
        × ((fd : ℕ) → t.world.poller.channels fd ≡ none)
        × ((fd : ℕ) → interest t.world.poller.kernel fd ≡ none)
    unfolding destroy made_of left_with
    construct-destroy =
        let (w, e, v, c, others) = enabled in
        let (t, e', u, all_new) = removed v c others in
        (
          left_with (made_of w) t,
          rw (construct-set_events, e) (destroy_in_two (made_of w) ∙ rw e' refl),
          refl,
          refl,
          u,
          unlisted u all_new,
          unheard_of u all_new,
        )
