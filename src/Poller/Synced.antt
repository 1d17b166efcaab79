-- ===== src/Poller/Synced.antt =====
-- The poller's table, the channels' `index_` and the kernel's interest list stay in step.
use htcp_multithread.Prelude.{
  ℕ, ◌≡◌, ◌≢◌, refl, Option, some, none, ◌==◌, if◌then◌else◌, arith, ◌⊎◌,
}
use htcp_multithread.Channel.{Channel, new, added, deleted}
use htcp_multithread.Epoll.{Epoll, EpollEvent}
use htcp_multithread.Poller.{Poller, World, update_map, event_of}

module _ (ep : Epoll) where
  open ep use {interest}

  -- Channels are found under their addresses. A channel that is not new is the table's entry for its
  -- descriptor, and the table has no other entries. The kernel waits for exactly the channels that
  -- are added, with the mask that each of them has.
  pub record IsSynced (w : World ep) : Type 0 where
    pub named : (a : ℕ) → (w.chans a).address ≡ a
    pub listed : (a : ℕ) → (w.chans a).index ≢ new → w.poller.channels (w.chans a).fd ≡ some a
    pub mapped :
        (fd a : ℕ)
        → w.poller.channels fd ≡ some a
        → ((w.chans a).fd ≡ fd) × ((w.chans a).index ≢ new)
    pub held :
        (a : ℕ)
        → (w.chans a).index ≡ added
        → interest w.poller.kernel (w.chans a).fd ≡ some (event_of ep (w.chans a))
    pub owned :
        (fd : ℕ) (e : EpollEvent)
        → interest w.poller.kernel fd ≡ some e
        → ((w.chans e.ptr).index ≡ added) × ((w.chans e.ptr).fd ≡ fd)

  -- What a call leaves: channel `a` is replaced by `c`.
  abbrev pub replaced : World ep → ℕ → Channel → Poller ep → World ep
  replaced w a c p = record { poller = p; chans = update_map a c w.chans }

  -- The entry and the registration that a channel's `index_` stands for.
  abbrev pub entry_of : Channel → Option ℕ
  entry_of c = elim c.index [ new ↦ none | added ↦ some c.address | deleted ↦ some c.address ]

  abbrev pub registration_of : Channel → Option EpollEvent
  registration_of c = elim c.index [ new ↦ none | added ↦ some (event_of ep c) | deleted ↦ none ]

  -- A call for the channel at `a` that changes nothing for other descriptors.
  pub record IsLocal (w : World ep) (a : ℕ) (c : Channel) (p : Poller ep) : Type 0 where
    pub same_address : c.address ≡ a
    pub same_fd : c.fd ≡ (w.chans a).fd
    pub entry : (j : ℕ) → p.channels j ≡ (if c.fd == j then entry_of c else w.poller.channels j)
    pub registration :
        (j : ℕ)
        → interest p.kernel j
          ≡ (if c.fd == j then registration_of c else interest w.poller.kernel j)

  -- Nothing but the channel at `a` has its descriptor.
  abbrev pub OwnsFd : World ep → ℕ → Type 0
  OwnsFd w a =
      (w.poller.channels (w.chans a).fd ≡ none) ⊎ (w.poller.channels (w.chans a).fd ≡ some a)

  module _ {w : World ep} (v : IsSynced w) (a : ℕ) where
    open v use {named, listed, mapped, held, owned}

    -- The kernel does not know a descriptor whose channel is not added.
    pub idle :
        (w.chans a).index ≢ added → OwnsFd w a → interest w.poller.kernel (w.chans a).fd ≡ none
    idle ne entry = go (interest w.poller.kernel (w.chans a).fd) refl
      where
        go : (o : Option EpollEvent) → interest w.poller.kernel (w.chans a).fd ≡ o → o ≡ none
        go none e = refl
        go (some e) h = ground (arith, owned (w.chans a).fd e h, listed e.ptr)

    module _ (own : OwnsFd w a) {c : Channel} {p : Poller ep} (l : IsLocal w a c p) where
      open l use {same_address, same_fd, entry, registration}

      named' : (b : ℕ) → (update_map a c w.chans b).address ≡ b
      named' b = ground (arith, named b)

      listed' :
          (b : ℕ)
          → (update_map a c w.chans b).index ≢ new
          → p.channels (update_map a c w.chans b).fd ≡ some b
      listed' b = ground (arith, listed b, entry (w.chans b).fd, entry c.fd)

      mapped' :
          (fd b : ℕ)
          → p.channels fd ≡ some b
          → ((update_map a c w.chans b).fd ≡ fd) × ((update_map a c w.chans b).index ≢ new)
      mapped' fd b = ground (arith, mapped fd b, entry fd)

      held' :
          (b : ℕ)
          → (update_map a c w.chans b).index ≡ added
          → interest p.kernel (update_map a c w.chans b).fd
            ≡ some (event_of ep (update_map a c w.chans b))
      held' b = ground (arith, held b, listed b, registration (w.chans b).fd, registration c.fd)

      owned' :
          (fd : ℕ) (e : EpollEvent)
          → interest p.kernel fd ≡ some e
          → ((update_map a c w.chans e.ptr).index ≡ added)
            × ((update_map a c w.chans e.ptr).fd ≡ fd)
      owned' fd e = ground (arith, owned fd e, registration fd, listed e.ptr)

      pub IsLocal-IsSynced : IsSynced (replaced w a c p)
      IsLocal-IsSynced = record {
        named = named';
        listed = listed';
        mapped = mapped';
        held = held';
        owned = owned';
      }
