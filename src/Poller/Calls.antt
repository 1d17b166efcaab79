-- ===== src/Poller/Calls.antt =====
-- `updateChannel` and `removeChannel` keep the poller in step, and never end the process.
use htcp_multithread.Prelude.{
  ℕ_discrete, ℕ, ◌≡◌, ◌≢◌, refl, Bool, true, some, none, ◌==◌, arith, ◌⊎◌, inl, inr,
}
use htcp_multithread.Channel.{Channel, Index, new, added, deleted, is_none_event, set_index}
use htcp_multithread.Epoll.{Epoll, ctl_add, ctl_mod, ctl_del}
use htcp_multithread.Poller.{
  Poller, World, update, update_channel, remove_channel, update_map, event_of, set_events, remove,
}
use htcp_multithread.Poller.Synced.{IsSynced, IsLocal, OwnsFd, replaced, idle, IsLocal-IsSynced}

Index-cases : (i : Index) → (i ≡ new) ⊎ (i ≡ added) ⊎ (i ≡ deleted)
Index-cases new = inl refl
Index-cases added = inr (inl refl)
Index-cases deleted = inr (inr refl)

module _ (ep : Epoll) where
  open ep use {interest, ctl, add_new, mod_registered, del_registered}

  -- The `index_` after an update: a channel that waits for nothing is taken off the kernel's list if
  -- it was on it, and any other channel is put or kept there.
  abbrev pub next_index : Index → Bool → Index
  next_index added true = deleted
  next_index _ _ = added

  module _ {w : World ep} (v : IsSynced ep w) (a : ℕ) (own : OwnsFd ep w a) (events : ℕ) where
    open v use {named, listed, mapped, held, owned}

    asked : Channel
    asked = record (w.chans a) { events = events }

    -- The channel as the update leaves it.
    kept : Channel
    kept = set_index (next_index (w.chans a).index (events == 0)) asked

    Updates : Type 0
    Updates =
        (p : Poller ep) × (update_channel ep asked w.poller ≡ some (kept, p))
        × IsLocal ep w a kept p

    fd : ℕ
    fd = (w.chans a).fd

    updates_new : (w.chans a).index ≡ new → Updates
    unfolding Updates update_channel asked kept update set_index fd
    updates_new e =
        let (done, list) =
          add_new fd (event_of ep asked) w.poller.kernel (idle ep v a (ground arith) own) in
        (
          record {
            channels = update_map fd (some (w.chans a).address) w.poller.channels;
            kernel = (ctl ctl_add fd (event_of ep asked) w.poller.kernel).1;
            event_list_size = w.poller.event_list_size;
          },
          ground (arith, done),
          record {
            same_address = named a;
            same_fd = refl;
            entry = λ j. ground arith;
            registration = λ j. ground (arith, list j);
          },
        )

    updates_deleted : (w.chans a).index ≡ deleted → Updates
    unfolding Updates update_channel asked kept update set_index fd
    updates_deleted e =
        let (done, list) =
          add_new fd (event_of ep asked) w.poller.kernel (idle ep v a (ground arith) own) in
        (
          record (w.poller) { kernel = (ctl ctl_add fd (event_of ep asked) w.poller.kernel).1 },
          ground (arith, done),
          record {
            same_address = named a;
            same_fd = refl;
            entry = λ j. ground (arith, listed a, named a);
            registration = λ j. ground (arith, list j);
          },
        )

    updates_added_none : (w.chans a).index ≡ added → events ≡ 0 → Updates
    unfolding Updates update_channel asked kept update set_index fd is_none_event
    updates_added_none e none_left =
        let (done, list) =
          del_registered fd (event_of ep asked) (event_of ep (w.chans a)) w.poller.kernel
            (held a e) in
        (
          record (w.poller) { kernel = (ctl ctl_del fd (event_of ep asked) w.poller.kernel).1 },
          ground (arith, done),
          record {
            same_address = named a;
            same_fd = refl;
            entry = λ j. ground (arith, listed a, named a);
            registration = λ j. ground (arith, list j);
          },
        )

    updates_added : (w.chans a).index ≡ added → events ≢ 0 → Updates
    unfolding Updates update_channel asked kept update set_index fd is_none_event
    updates_added e some_left =
        let (done, list) =
          mod_registered fd (event_of ep asked) (event_of ep (w.chans a)) w.poller.kernel
            (held a e) in
        (
          record (w.poller) { kernel = (ctl ctl_mod fd (event_of ep asked) w.poller.kernel).1 },
          ground (arith, done),
          record {
            same_address = named a;
            same_fd = refl;
            entry = λ j. ground (arith, listed a, named a);
            registration = λ j. ground (arith, list j);
          },
        )

    updates : Updates
    updates = elim (Index-cases (w.chans a).index) [
      | inl e ↦ updates_new e
      | inr (inl e) ↦ elim (ℕ_discrete events 0) [
        | yes z ↦ updates_added_none e z
        | no nz ↦ updates_added e nz
      ]
      | inr (inr e) ↦ updates_deleted e
    ]

    -- Setting the events of a channel whose descriptor no other channel has never ends the process,
    -- and keeps table, channels and kernel in step. Afterwards the channel has the new mask; it is on
    -- the kernel's list, unless it was on it and now waits for nothing. No other channel changes.
    pub set_events_lem :
        (w' : World ep) × (set_events ep a events w ≡ some w')
        × IsSynced ep w'
        × (w'.chans a ≡ record (w.chans a) {
          events = events;
          index = next_index (w.chans a).index (events == 0);
        })
        × ((b : ℕ) → b ≢ a → w'.chans b ≡ w.chans b)
    unfolding set_events Updates kept asked set_index
    set_events_lem =
        let (p, e, l) = updates in
        (
          replaced ep w a kept p,
          rw (e, set_events),
          IsLocal-IsSynced ep v a own l,
          ground arith,
          λ b ne. ground arith,
        )

  -- `remove_channel` for a channel that has the table's entry, or that is new and whose descriptor
  -- is free.
  module _ {w : World ep} (v : IsSynced ep w) (a : ℕ) (own : OwnsFd ep w a) where
    open v use {named, listed, mapped, held, owned}

    gone : Channel
    gone = set_index new (w.chans a)

    Removes : Type 0
    Removes =
        (p : Poller ep) × (remove_channel ep (w.chans a) w.poller ≡ some (gone, p))
        × IsLocal ep w a gone p

    erased : Poller ep
    erased = record (w.poller) { channels = update_map (w.chans a).fd none w.poller.channels }

    removes_idle : (w.chans a).index ≢ added → Removes
    unfolding Removes remove_channel gone update set_index erased
    removes_idle ne = (
      erased,
      ground (arith, Index-cases (w.chans a).index),
      record {
        same_address = named a;
        same_fd = refl;
        entry = λ j. ground arith;
        registration = λ j. ground (arith, idle ep v a ne own);
      },
    )

    removes_added : (w.chans a).index ≡ added → Removes
    unfolding Removes remove_channel gone update set_index erased
    removes_added e =
        let (done, list) =
          del_registered (w.chans a).fd (event_of ep (w.chans a)) (event_of ep (w.chans a))
            w.poller.kernel (held a e) in
        (
          record erased {
            kernel = (ctl ctl_del (w.chans a).fd (event_of ep (w.chans a)) w.poller.kernel).1;
          },
          ground (arith, done),
          record {
            same_address = named a;
            same_fd = refl;
            entry = λ j. ground arith;
            registration = λ j. ground (arith, list j);
          },
        )

    removes : Removes
    removes = elim (Index-cases (w.chans a).index) [
      | inl e ↦ removes_idle (ground arith)
      | inr (inl e) ↦ removes_added e
      | inr (inr e) ↦ removes_idle (ground arith)
    ]

    -- Removing a channel never ends the process either, from whichever state it is in. Afterwards
    -- the channel is new, and neither the table nor the kernel has anything under its descriptor.
    pub remove_lem :
        (w' : World ep) × (remove ep a w ≡ some w')
        × IsSynced ep w'
        × (w'.chans a ≡ record (w.chans a) { index = new })
        × (w'.poller.channels (w.chans a).fd ≡ none)
        × (interest w'.poller.kernel (w.chans a).fd ≡ none)
        × ((b : ℕ) → b ≢ a → w'.chans b ≡ w.chans b)
    unfolding remove Removes gone set_index
    remove_lem =
        let (p, e, l) = removes in
        (
          replaced ep w a gone p,
          rw (e, remove),
          IsLocal-IsSynced ep v a own l,
          ground arith,
          ground (arith, l.entry (w.chans a).fd),
          ground (arith, l.registration (w.chans a).fd),
          λ b ne. ground arith,
        )
