-- ===== src/Channel.antt =====
-- Channel.h and Channel.cc: a descriptor, the events that it waits for, and the callbacks for the
-- events that came.
pub mod Events
pub mod Dispatch
mod Tests
use Prim.Native.Nat.{bit_and, bit_or}
use htcp_multithread.Prelude.{
  ℕ, ◌-◌, ◌^◌, Bool, true, false, not, ◌&&◌, Option, none, some, ◌==◌, if◌then◌else◌, ◌>>=◌,
}

-- The constants of <sys/epoll.h>.
abbrev pub epollin : ℕ
epollin = 0x001

abbrev pub epollpri : ℕ
epollpri = 0x002

abbrev pub epollout : ℕ
epollout = 0x004

abbrev pub epollerr : ℕ
epollerr = 0x008

abbrev pub epollhup : ℕ
epollhup = 0x010

abbrev pub none_event : ℕ
none_event = 0

abbrev pub read_event : ℕ
read_event = bit_or epollin epollpri

abbrev pub write_event : ℕ
write_event = epollout

-- `index_`: -1, 1 and 2 under the names that EPollPoller.cc gives them.
pub data Index : Type 0 where
  new added deleted : Index

-- `address` is the channel's `this`. `events` and `revents` are bit masks of 32 bits. `tie` is the
-- object behind the weak pointer.
pub record Channel : Type 0 where
  pub address : ℕ
  pub fd : ℕ
  pub events : ℕ
  pub revents : ℕ
  pub index : Index
  pub tie : Option ℕ
  pub tied : Bool

unfoldable pub init : ℕ → ℕ → Channel
init address fd = record {
  address = address;
  fd = fd;
  events = 0;
  revents = 0;
  index = new;
  tie = none;
  tied = false;
}

-- The conversion of an `int` to `bool`.
abbrev pub to_bool : ℕ → Bool
to_bool n = not (n == 0)

-- `~mask` on 32 bits
abbrev pub complement : ℕ → ℕ
complement mask = 2 ^ 32 - 1 - mask

unfoldable pub is_none_event : Channel → Bool
is_none_event c = c.events == none_event

unfoldable pub is_writing : Channel → Bool
is_writing c = to_bool (bit_and c.events write_event)

unfoldable pub is_reading : Channel → Bool
is_reading c = to_bool (bit_and c.events read_event)

unfoldable pub set_revents : ℕ → Channel → Channel
set_revents revents c = record c { revents = revents }

unfoldable pub set_index : Index → Channel → Channel
set_index index c = record c { index = index }

unfoldable pub set_tie : ℕ → Channel → Channel
set_tie object c = record c { tie = some object; tied = true }

-- `update` and `remove` go to the loop that owns the channel, and from there to its poller; the
-- loop's state is `S`, and `none` is the end of the process.
module _ {S : Type 0} (update : Channel → S → Option (Channel × S)) where
  unfoldable pub enable_reading : Channel → S → Option (Channel × S)
  enable_reading c = update (record c { events = bit_or c.events read_event })

  unfoldable pub disable_reading : Channel → S → Option (Channel × S)
  disable_reading c = update (record c { events = bit_and c.events (complement read_event) })

  unfoldable pub enable_writing : Channel → S → Option (Channel × S)
  enable_writing c = update (record c { events = bit_or c.events write_event })

  unfoldable pub disable_writing : Channel → S → Option (Channel × S)
  disable_writing c = update (record c { events = bit_and c.events (complement write_event) })

  unfoldable pub disable_all : Channel → S → Option (Channel × S)
  disable_all c = update (record c { events = none_event })

-- The callbacks that are set, as actions on the state of whoever set them. `none` as a result is a
-- fault in the callback.
pub record Callbacks (S : Type 0) : Type 0 where
  pub read_callback : Option (ℕ → S → Option S)
  pub write_callback : Option (S → Option S)
  pub close_callback : Option (S → Option S)
  pub error_callback : Option (S → Option S)

module _ {S : Type 0} where
  abbrev pub no_callbacks : Callbacks S
  no_callbacks = record {
    read_callback = none;
    write_callback = none;
    close_callback = none;
    error_callback = none;
  }

  unfoldable pub set_read_callback : (ℕ → S → Option S) → Callbacks S → Callbacks S
  set_read_callback cb k = record k { read_callback = some cb }

  unfoldable pub set_write_callback : (S → Option S) → Callbacks S → Callbacks S
  set_write_callback cb k = record k { write_callback = some cb }

  unfoldable pub set_close_callback : (S → Option S) → Callbacks S → Callbacks S
  set_close_callback cb k = record k { close_callback = some cb }

  unfoldable pub set_error_callback : (S → Option S) → Callbacks S → Callbacks S
  set_error_callback cb k = record k { error_callback = some cb }

  -- `if (cb) { cb(); }`
  abbrev pub call_if_set : Option (S → Option S) → S → Option S
  call_if_set none s = some s
  call_if_set (some cb) s = cb s

  abbrev pub call_read_if_set : Option (ℕ → S → Option S) → ℕ → S → Option S
  call_read_if_set none time s = some s
  call_read_if_set (some cb) time s = cb time s

  -- `revents` does not change while the callbacks run: only the poller sets it.
  unfoldable pub handle_event_with_guard : Callbacks S → ℕ → ℕ → S → Option S
  handle_event_with_guard k revents receive_time s = do
    s₁ ←
        (if to_bool (bit_and revents epollhup) && not (to_bool (bit_and revents epollin))
          then call_if_set k.close_callback s
          else some s)
    s₂ ← (if to_bool (bit_and revents epollerr) then call_if_set k.error_callback s₁ else some s₁)
    s₃ ←
        (if to_bool (bit_and revents (bit_or epollin epollpri))
          then call_read_if_set k.read_callback receive_time s₂
          else some s₂)
    if to_bool (bit_and revents epollout) then call_if_set k.write_callback s₃ else some s₃

  -- `alive` says which objects still have an owner, which is what `tie_.lock()` asks.
  unfoldable pub handle_event : (ℕ → Bool) → Callbacks S → Channel → ℕ → S → Option S
  handle_event alive k c receive_time s =
      if c.tied
      then elim c.tie [
        | none ↦ some s
        | some object ↦
            if alive object then handle_event_with_guard k c.revents receive_time s else some s
      ]
      else handle_event_with_guard k c.revents receive_time s
