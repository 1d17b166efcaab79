-- ===== src/Channel/Dispatch.antt =====
-- Which callbacks the events of a channel call, and in which order.
use Prim.Native.Nat.{bit_and, bit_or}
use htcp_multithread.Prelude.{
  ℕ, ◌/◌, ◌%◌, ◌≡◌, refl, Bool, true, not, ◌&&◌, ◌||◌, Option, some, none, arith, ◌==◌,
  if◌then◌else◌, ◌>>=◌, List, [], ◌∷◌,
}
use htcp_multithread.Prelude.Bits.{bit_and_1, bit_and_3, bit_and_4, bit_and_8, bit_and_16}
use htcp_multithread.Channel.{
  Channel, Callbacks, call_if_set, call_read_if_set, handle_event_with_guard, handle_event, to_bool,
  epollin, epollhup, epollerr, epollpri, epollout,
}

pub data Kind : Type 0 where
  closing failing reading writing : Kind

-- Bit `n` of a mask.
abbrev pub bit : ℕ → ℕ → Bool
bit n revents = revents / n % 2 == 1

-- What the manual of epoll calls for: a hang-up with nothing left to read closes; errors, input and
-- room for output go to their own callbacks.
abbrev pub wanted : ℕ → Kind → Bool
wanted revents closing = bit 16 revents && not (bit 1 revents)
wanted revents failing = bit 8 revents
wanted revents reading = bit 1 revents || bit 2 revents
wanted revents writing = bit 4 revents

module _ {S : Type 0} where
  abbrev pub call : Callbacks S → ℕ → Kind → S → Option S
  call k time closing = call_if_set k.close_callback
  call k time failing = call_if_set k.error_callback
  call k time reading = call_read_if_set k.read_callback time
  call k time writing = call_if_set k.write_callback

  -- The wanted callbacks, one after the other; a fault ends the row.
  abbrev pub call_wanted : Callbacks S → ℕ → ℕ → List Kind → S → Option S
  call_wanted k revents time [] s = some s
  call_wanted k revents time (x ∷ xs) s =
      (if wanted revents x then call k time x s else some s) >>= call_wanted k revents time xs

abbrev pub dispatch_order : List Kind
dispatch_order = closing ∷ failing ∷ reading ∷ writing ∷ []

-- The masks of the code test single bits.
tests_in : (r : ℕ) → to_bool (bit_and r epollin) ≡ bit 1 r
tests_in r = ground (arith, bit_and_1 r)

tests_out : (r : ℕ) → to_bool (bit_and r epollout) ≡ bit 4 r
tests_out r = ground (arith, bit_and_4 r)

tests_err : (r : ℕ) → to_bool (bit_and r epollerr) ≡ bit 8 r
tests_err r = ground (arith, bit_and_8 r)

tests_hup : (r : ℕ) → to_bool (bit_and r epollhup) ≡ bit 16 r
tests_hup r = ground (arith, bit_and_16 r)

tests_readable : (r : ℕ) → to_bool (bit_and r (bit_or epollin epollpri)) ≡ bit 1 r || bit 2 r
tests_readable r = ground (arith, bit_and_3 r)

bind_some {ℓ} : {A : Type ℓ} (m : Option A) → (m >>= some) ≡ m
bind_some none = refl
bind_some (some a) = refl

module _ {S : Type 0} (k : Callbacks S) (time : ℕ) where
  -- For every mask, exactly the wanted callbacks that are set are called, each once, in the order
  -- close, error, read, write, and each on the state that the one before it left.
  pub handle_event_with_guard_lem :
      (revents : ℕ) (s : S)
      → handle_event_with_guard k revents time s ≡ call_wanted k revents time dispatch_order s
  unfolding handle_event_with_guard
  handle_event_with_guard_lem revents s =
      rw
        (
          tests_in revents,
          tests_out revents,
          tests_err revents,
          tests_hup revents,
          tests_readable revents,
        )
        (simp bind_some)

  -- A tied channel calls its callbacks exactly while the object that it is tied to is alive.
  pub handle_event_tied :
      (alive : ℕ → Bool) (c : Channel) (object : ℕ) (s : S)
      → c.tied ≡ true
      → c.tie ≡ some object
      → handle_event alive k c time s
        ≡ (if alive object then call_wanted k c.revents time dispatch_order s else some s)
  unfolding handle_event
  handle_event_tied alive c object s tied tie =
      rw (tied, tie, handle_event, ← handle_event_with_guard_lem c.revents s)
