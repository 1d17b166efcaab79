-- ===== src/Poller.antt =====
-- Poller.h, Poller.cc, DefaultPoller.cc, EPollPoller.h and EPollPoller.cc: the table of channels,
-- kept in step with the kernel's epoll instance.
pub mod Synced
pub mod Poll
pub mod Calls
pub mod Simple
mod Tests
use htcp_multithread.Prelude.{
  ℕ, ◌*◌, ◌≡◌, Bool, true, false, ◌&&◌, ◌||◌, Option, some, none, List, [], ◌∷◌, ◌++◌, ◌==◌,
  if◌then◌else◌, length, ◌>>=◌,
}
use htcp_multithread.Channel.{
  Channel, Index, new, added, deleted, is_none_event, set_index, set_revents,
}
use htcp_multithread.Epoll.{
  Epoll, CtlOp, ctl_add, ctl_mod, ctl_del, EpollEvent, WaitResult, ready, wait_failed,
}

abbrev pub init_event_list_size : ℕ
init_event_list_size = 16

-- A map with one key set.
abbrev pub update_map {ℓ} : {V : Type ℓ} → ℕ → V → (ℕ → V) → (ℕ → V)
update_map k v m j = if k == j then v else m j

-- `new Poller` by the environment: `getenv("MUDUO_USE_POLL")` set gives a null pointer.
unfoldable pub new_default_poller {ℓ} : {P : Type ℓ} → Bool → P → Option P
new_default_poller use_poll epoll_poller = if use_poll then none else some epoll_poller

module _ (ep : Epoll) where
  open ep use {Kernel, create, ctl, wait}

  -- `channels` maps a descriptor to the address of its channel; `event_list_size` is
  -- `events_.size()`.
  pub record Poller : Type 0 where
    pub channels : ℕ → Option ℕ
    pub kernel : Kernel
    pub event_list_size : ℕ

  unfoldable pub init : Poller
  init = record { channels = λ _. none; kernel = create; event_list_size = init_event_list_size }

  unfoldable pub has_channel : Poller → Channel → Bool
  has_channel p c = elim (p.channels c.fd) [ none ↦ false | some a ↦ a == c.address ]

  -- The event that `update` fills in.
  abbrev pub event_of : Channel → EpollEvent
  event_of c = record { events = c.events; ptr = c.address }

  -- A failed deletion is logged; any other failure ends the process.
  abbrev pub after_ctl : CtlOp → Bool × Kernel → Poller → Option Poller
  after_ctl op (true, kernel) p = some (record p { kernel = kernel })
  after_ctl ctl_del (false, kernel) p = some (record p { kernel = kernel })
  after_ctl ctl_add (false, kernel) p = none
  after_ctl ctl_mod (false, kernel) p = none

  unfoldable pub update : CtlOp → Channel → Poller → Option Poller
  update op c p = after_ctl op (ctl op c.fd (event_of c) p.kernel) p

  unfoldable pub update_channel : Channel → Poller → Option (Channel × Poller)
  update_channel c p = elim c.index [
    | new ↦ (do
      let c₁ = set_index added c
      p₁ ← update ctl_add c₁ (record p { channels = update_map c.fd (some c.address) p.channels })
      some (c₁, p₁))
    | deleted ↦ (do let c₁ = set_index added c; p₁ ← update ctl_add c₁ p; some (c₁, p₁))
    | added ↦
        if is_none_event c
        then (do p₁ ← update ctl_del c p; some (set_index deleted c, p₁))
        else (do p₁ ← update ctl_mod c p; some (c, p₁))
  ]

  unfoldable pub remove_channel : Channel → Poller → Option (Channel × Poller)
  remove_channel c p =
      let p₁ : Poller = record p { channels = update_map c.fd none p.channels } in
      elim c.index [
        | added ↦ (do p₂ ← update ctl_del c p₁; some (set_index new c, p₂))
        | _ ↦ some (set_index new c, p₁)
      ]

  -- The loop over the events that came: `chans` finds the channel objects by their addresses.
  unfoldable pub fill_active_channels :
      List EpollEvent → (ℕ → Channel) → List ℕ → (ℕ → Channel) × List ℕ
  fill_active_channels [] chans active = (chans, active)
  fill_active_channels (e ∷ es) chans active =
      fill_active_channels es (update_map e.ptr (set_revents e.events (chans e.ptr)) chans)
        (active ++ e.ptr ∷ [])

  -- The poller and the channel objects, as a loop owns them.
  pub record World : Type 0 where
    pub poller : Poller
    pub chans : ℕ → Channel

  -- A timeout and a failed wait (EINTR is not even logged) leave everything as it was. The time that
  -- `poll` returns is read from the clock and comes in elsewhere.
  unfoldable pub poll : World → List ℕ → World × List ℕ
  poll w active = elim (wait w.poller.event_list_size w.poller.kernel) [
    | wait_failed errno ↦ (w, active)
    | ready [] ↦ (w, active)
    | ready (e ∷ es) ↦
        (let (chans, active') = fill_active_channels (e ∷ es) w.chans active in
          let size = w.poller.event_list_size in
          let size' = (if length (e ∷ es) == size then size * 2 else size) in
          (
            record { poller = record (w.poller) { event_list_size = size' }; chans = chans },
            active',
          ))
  ]

  -- The calls of a channel's owner: set the events that the channel at `a` waits for, and remove it.
  unfoldable pub set_events : ℕ → ℕ → World → Option World
  set_events a events w = do
    (c, p) ← update_channel (record (w.chans a) { events = events }) w.poller
    some (record { poller = p; chans = update_map a c w.chans })

  unfoldable pub remove : ℕ → World → Option World
  remove a w = do
    (c, p) ← remove_channel (w.chans a) w.poller
    some (record { poller = p; chans = update_map a c w.chans })
