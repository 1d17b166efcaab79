-- ===== src/Channel/Events.antt =====
-- The event mask of a channel.
use Prim.Native.Nat.{bit_or}
use htcp_multithread.Prelude.{ℕ, ◌≡◌, refl, Bool, true, false, Option, ◌||◌, not}
use htcp_multithread.Channel.{
  Channel, init, read_event, write_event, none_event, is_none_event, is_writing, is_reading,
  enable_reading, disable_reading, enable_writing, disable_writing, disable_all,
}

-- The masks that a channel can wait for: nothing, reading, writing, or both.
abbrev pub mask : Bool → Bool → ℕ
mask false false = none_event
mask true false = read_event
mask false true = write_event
mask true true = bit_or read_event write_event

-- A channel that waits for reading as `r` says, and for writing as `w` says.
abbrev pub Waits : Bool → Bool → Channel → Type 0
Waits r w c = c.events ≡ mask r w

pub init-Waits : (address fd : ℕ) → Waits false false (init address fd)
unfolding init
init-Waits address fd = refl

-- The three questions about the mask are answered by what the channel waits for.
pub Waits-tests :
    (r w : Bool) (c : Channel)
    → Waits r w c
    → (is_reading c ≡ r) × (is_writing c ≡ w) × (is_none_event c ≡ not (r || w))
unfolding is_reading is_writing is_none_event
Waits-tests false false c h = rw h (refl, refl, refl)
Waits-tests true false c h = rw h (refl, refl, refl)
Waits-tests false true c h = rw h (refl, refl, refl)
Waits-tests true true c h = rw h (refl, refl, refl)

abbrev pub waiting : Bool → Bool → Channel → Channel
waiting r w c = record c { events = mask r w }

module _ {S : Type 0} (update : Channel → S → Option (Channel × S)) where
  -- Each of the five setters hands the channel to `update` once, waiting for what its name says and
  -- for nothing else that it did not wait for before; no other field changes.
  pub setters_lem :
      (r w : Bool) (c : Channel) (s : S)
      → Waits r w c
      → (enable_reading update c s ≡ update (waiting true w c) s)
        × (disable_reading update c s ≡ update (waiting false w c) s)
        × (enable_writing update c s ≡ update (waiting r true c) s)
        × (disable_writing update c s ≡ update (waiting r false c) s)
        × (disable_all update c s ≡ update (waiting false false c) s)
  unfolding enable_reading disable_reading enable_writing disable_writing disable_all
  setters_lem false false c s h = rw h (refl, refl, refl, refl, refl)
  setters_lem true false c s h = rw h (refl, refl, refl, refl, refl)
  setters_lem false true c s h = rw h (refl, refl, refl, refl, refl)
  setters_lem true true c s h = rw h (refl, refl, refl, refl, refl)
