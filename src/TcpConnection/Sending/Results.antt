-- ===== src/TcpConnection/Sending/Results.antt =====
-- `sendInLoop` on each result of `write`: what becomes of the bytes of one call.
use htcp_multithread.Prelude.{
  ℕ, ◌+◌, ◌-◌, ◌≤◌, ◌<◌, ◌≡◌, ◌≢◌, refl, ap, ◌∙◌, Bool, true, false, not, ◌&&◌, ◌||◌, none, some,
  List, [], ◌∷◌, ◌++◌, ◌==◌, if◌then◌else◌, length, take, arith, inl, inr, append_assoc, sub_size,
  lt→ltb, ◌^◌, append-nil, ◌⊎◌, Bool-cases, take_all, nil_of_length,
}
use htcp_multithread.Syscall.{WriteResult, sent, write_failed, ewouldblock, epipe, econnreset}
use htcp_multithread.Buffer
use htcp_multithread.Buffer.{Buffer}
use htcp_multithread.Buffer.Content.{readable_bytes_lem}
use htcp_multithread.Channel.Events.{Waits-tests}
use htcp_multithread.TcpConnection.{
  TcpConnection, ConnectionCallbacks, State, disconnected, connecting, connected, disconnecting,
  is_state, functor_queued, bytes_written, call_write_complete, first_write, buffer_rest, keep_rest,
  send_in_loop,
}
use htcp_multithread.TcpConnection.Sound.{IsSound}
use htcp_multithread.TcpConnection.Sending.{buffered, buffer_rest_lem}

is_state_ne : (st : State) → st ≢ disconnected → is_state st disconnected ≡ false
is_state_ne disconnected ne = absurd (ne refl)
is_state_ne connecting ne = refl
is_state_ne connected ne = refl
is_state_ne disconnecting ne = refl

-- The values of `errno` on which `sendInLoop` gives the data up.
abbrev pub is_lethal : ℕ → Bool
is_lethal errno = not (errno == ewouldblock) && (errno == epipe || errno == econnreset)

-- The bytes that one call puts behind all that is to be sent: the data, while output is waiting. Otherwise
-- the part of it that the kernel takes at once, and then as many bytes as are left, but from the
-- beginning of the data, unless `errno` is a value on which they are given up. When the kernel takes
-- the whole, that is the data too.
abbrev pub puts : (waits : Bool) (errno : ℕ) (bytes : List ℕ) → WriteResult → List ℕ
puts true errno bytes result = bytes
puts false errno bytes (sent n) =
    take n bytes ++ (if is_lethal errno then [] else take (length bytes - n) bytes)
puts false errno bytes (write_failed e) = []

-- The first write of a call does not fail, or there is none.
abbrev pub IsTaken : (waits : Bool) → List ℕ → WriteResult → Type 0
IsTaken waits bytes result = (waits ≡ true) ⊎ ((n : ℕ) × (result ≡ sent n) × (n ≤ length bytes))

-- What the kernel takes whole is put in whole.
pub puts_whole :
    (waits : Bool) (errno : ℕ) (bytes : List ℕ)
    → puts waits errno bytes (sent (length bytes)) ≡ bytes
puts_whole true errno bytes = refl
puts_whole false errno bytes =
    rw (take_all (length bytes) bytes (omega arith), none_left)
      (elim (Bool-cases (is_lethal errno)) [
        | inl e ↦ rw e (append-nil bytes)
        | inr e ↦ rw e (append-nil bytes)
      ])
  where
    none_left : length bytes - length bytes ≡ 0
    none_left = omega arith

-- After a disconnection the data is dropped.
pub send_in_loop_disconnected :
    (k : ConnectionCallbacks) (write : List ℕ → WriteResult) (bytes : List ℕ) (s : TcpConnection)
    → s.state ≡ disconnected
    → send_in_loop k write bytes s ≡ some s
unfolding send_in_loop
send_in_loop_disconnected k write bytes s e = rw e

module _ (k : ConnectionCallbacks) (write : List ℕ → WriteResult) (bytes : List ℕ) {r : Bool}
    {s : TcpConnection} where
  module _ (v : IsSound r true s) (open_still : s.state ≢ disconnected)
      (some_bytes : 0 < length bytes)
      (fits : s.output_buffer.writer_index + length bytes ≤ Buffer.max_size) where
    -- While output is waiting, nothing is written: the data goes behind that output.
    pub send_buffered :
        send_in_loop k write bytes s
        ≡ some (buffered k r true v bytes 0 (length bytes) (omega arith) fits)
    unfolding send_in_loop keep_rest
    send_buffered =
        rw
          (
            is_state_ne s.state open_still,
            (Waits-tests r true s.channel v.mask).1,
            lt→ltb 0 (length bytes) some_bytes,
          )
          (buffer_rest_lem k r true v bytes 0 (length bytes) (omega arith) fits)

  -- No data, no effect.
  pub send_nothing :
      IsSound r true s
      → s.state ≢ disconnected
      → length bytes ≡ 0
      → send_in_loop k write bytes s ≡ some s
  unfolding send_in_loop keep_rest
  send_nothing v open_still e = rw (
    is_state_ne s.state open_still,
    (Waits-tests r true s.channel v.mask).1,
    nil_of_length bytes e,
  )

  module _ (v : IsSound r false s) (open_still : s.state ≢ disconnected) where
    empty : Buffer.readable_bytes s.output_buffer ≡ 0
    empty = omega (arith, readable_bytes_lem v.output_valid, ap length (v.drained refl open_still))

    send_first : send_in_loop k write bytes s ≡ keep_rest k bytes (first_write k write bytes s)
    unfolding send_in_loop
    send_first =
        rw (is_state_ne s.state open_still, (Waits-tests r false s.channel v.mask).1, empty)

    -- The kernel takes all of the data: nothing is kept, and the program is told if it asked for that.
    unfoldable pub whole : TcpConnection
    whole = record s {
      effects =
          s.effects
          ++ bytes_written bytes
            ∷ (if k.write_complete_set then functor_queued call_write_complete ∷ [] else []);
    }

    module _ (small : length bytes < 2 ^ 64) where
      pub send_whole : write bytes ≡ sent (length bytes) → send_in_loop k write bytes s ≡ some whole
      unfolding first_write keep_rest whole
      send_whole e =
          send_first
          ∙ rw (e, first_write, all_gone, take_all (length bytes) bytes (omega arith))
              (elim (Bool-cases k.write_complete_set) [
                | inl c ↦ rw c (simp append_assoc)
                | inr c ↦
                    rw c (elim (Bool-cases (is_lethal s.errno)) [ inl f ↦ rw f | inr f ↦ rw f ])
              ])
        where
          all_gone : sub_size (length bytes) (length bytes) ≡ 0
          all_gone = omega arith

      -- The connection after the kernel took only `n` bytes.
      abbrev pub wrote : ℕ → TcpConnection
      wrote n = record s { effects = s.effects ++ bytes_written (take n bytes) ∷ [] }

      module _ (n : ℕ) (part : n < length bytes) (e : write bytes ≡ sent n) where
        first_write_part : first_write k write bytes s ≡ record {
          nwrote = some 0;
          remaining = length bytes - n;
          fault_error = is_lethal s.errno;
          after = wrote n;
        }
        unfolding first_write
        first_write_part = rw (e, first_write, some_left) (ground arith)
          where
            some_left : sub_size (length bytes) n ≡ length bytes - n
            some_left = omega arith

        pub send_part_lethal :
            is_lethal s.errno ≡ true → send_in_loop k write bytes s ≡ some (wrote n)
        unfolding keep_rest
        send_part_lethal h = send_first ∙ rw (first_write_part, h)

        pub send_part :
            is_lethal s.errno ≡ false
            → (fits : s.output_buffer.writer_index + (length bytes - n) ≤ Buffer.max_size)
            → (w : IsSound r false (wrote n))
            → send_in_loop k write bytes s
              ≡ some (buffered k r false w bytes 0 (length bytes - n) (omega arith) fits)
        unfolding keep_rest
        send_part h fits w =
            send_first
            ∙ rw (first_write_part, h, lt→ltb 0 (length bytes - n) (omega arith))
                (buffer_rest_lem k r false w bytes 0 (length bytes - n) (omega arith) fits)

    -- A `write` that fails leaves `nwrote` at -1, and the data is then read from in front of it.
    pub send_in_loop_failed :
        (errno : ℕ)
        → 0 < length bytes
        → write bytes ≡ write_failed errno
        → send_in_loop k write bytes s ≡ none
    unfolding first_write keep_rest buffer_rest
    send_in_loop_failed errno pos e = send_first ∙ rw (e, first_write, lt→ltb 0 (length bytes) pos)
