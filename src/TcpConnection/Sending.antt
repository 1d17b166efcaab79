-- ===== src/TcpConnection/Sending.antt =====
-- `sendInLoop`: the data that goes into the output buffer.
pub mod Results
pub mod Delivery
use htcp_multithread.Prelude.{
  ℕ, zero, suc, ◌+◌, ◌-◌, ◌≤◌, ◌<◌, ◌≡◌, ◌≢◌, refl, ap, sym, ◌∙◌, Bool, true, false, not, ◌&&◌,
  ◌||◌, Option, none, some, List, [], ◌∷◌, ◌++◌, ltb, leb, ◌==◌, if◌then◌else◌, length, take, drop,
  arith, ◌⊎◌, inl, inr, ◌>>=◌, append_assoc, append-nil, add_size, ℕ_discrete, Bool-cases,
  length-drop, length-append, length-take, take-append-drop, drop_all,
}
use htcp_multithread.Syscall.{WriteResult, sent, write_failed, WritesWithin}
use htcp_multithread.Buffer
use htcp_multithread.Buffer.{Buffer}
use htcp_multithread.Buffer.Content.{content, IsValid, readable_bytes_lem, length-content}
use htcp_multithread.Buffer.Retrieve.{retrieve_lem, take-peek}
use htcp_multithread.Buffer.Append.{append_lem}
use htcp_multithread.Channel
use htcp_multithread.Channel.Events.{Waits, Waits-tests, waiting, mask, setters_lem}
use htcp_multithread.TcpConnection.{
  TcpConnection, ConnectionCallbacks, State, disconnected, connecting, connected, disconnecting,
  is_state, emit, Effect, keep_alive_set, channel_updated, channel_removed, functor_queued,
  bytes_written, write_shut_down, connection_called, message_called, close_called, error_logged,
  call_write_complete, call_high_water_mark, Attempt, first_write, buffer_rest, note_high_water,
  wait_for_room, send_in_loop, send, update, queued_send,
}
use htcp_multithread.TcpConnection.Stream.{written, stream, written-append}
use htcp_multithread.TcpConnection.Sound.{IsSound, outside-IsSound}

if-append {ℓ} :
    {A : Type ℓ} (b : Bool) (xs ys zs : List A)
    → (if b then xs ++ ys else xs) ++ zs ≡ xs ++ ((if b then ys else []) ++ zs)
if-append true xs ys zs = append_assoc xs ys zs
if-append false xs ys zs = refl

module _ (k : ConnectionCallbacks) where
  -- The high-water callback is queued when the output grows from below the mark to it or past it.
  abbrev pub crosses : TcpConnection → ℕ → Bool
  crosses s m =
      let old_len = length (content s.output_buffer) in
      leb s.high_water_mark (old_len + m) && ltb old_len s.high_water_mark && k.high_water_mark_set

  abbrev pub buffered_effects : Bool → Bool → TcpConnection → ℕ → List Effect
  buffered_effects r w s m =
      (if crosses s m
        then functor_queued (call_high_water_mark (length (content s.output_buffer) + m)) ∷ []
        else [])
      ++ (if w then [] else channel_updated (mask r true) ∷ [])

  wait_for_room_lem :
      (r w : Bool) (s : TcpConnection)
      → Waits r w s.channel
      → wait_for_room k s
        ≡ some (record s {
          channel = waiting r true s.channel;
          effects = s.effects ++ (if w then [] else channel_updated (mask r true) ∷ []);
        })
  unfolding wait_for_room
  wait_for_room_lem r false s m =
      rw ((Waits-tests r false s.channel m).1, (setters_lem update r false s.channel s.effects m).2)
  wait_for_room_lem r true s m =
      rw ((Waits-tests r true s.channel m).1, append-nil s.effects)
        (ap (λ e. some (record s { channel = record (s.channel) { events = e } })) m)

  module _ (r w : Bool) {s : TcpConnection} (v : IsSound r w s) (bytes : List ℕ) (o m : ℕ)
      (inside : o + m ≤ length bytes)
      (fits : s.output_buffer.writer_index + m ≤ Buffer.max_size) where
    appended :
        (b : Buffer) × (Buffer.append s.output_buffer (drop o bytes) m ≡ some b)
        × IsValid b
        × (content b ≡ content s.output_buffer ++ take m (drop o bytes))
        × (length b.buffer ≤ length s.output_buffer.buffer + m)
    appended = append_lem (drop o bytes) m v.output_valid (omega (arith, length-drop o bytes)) fits

    -- The connection with the rest of the data in its output buffer.
    pub buffered : TcpConnection
    buffered = record s {
      output_buffer = appended.0;
      channel = waiting r true s.channel;
      effects = s.effects ++ buffered_effects r w s m;
    }

    old_readable : Buffer.readable_bytes s.output_buffer ≡ length (content s.output_buffer)
    old_readable = readable_bytes_lem v.output_valid

    old_sum :
        add_size (Buffer.readable_bytes s.output_buffer) m ≡ length (content s.output_buffer) + m
    old_sum = omega (arith, old_readable, length-content v.output_valid, v.output_valid)

    buffer_rest_lem : buffer_rest k bytes (some o) m s ≡ some buffered
    unfolding buffer_rest buffered note_high_water
    buffer_rest_lem =
        rw (old_sum, old_readable, appended.1)
          (wait_for_room_lem r w _ v.mask
            ∙ ap
                (λ es. some (record s {
                  output_buffer = appended.0;
                  channel = waiting r true s.channel;
                  effects = es;
                }))
                (if-append (crosses s m) s.effects _ _))

    pub effects-buffered : buffered.effects ≡ s.effects ++ buffered_effects r w s m
    unfolding buffered
    effects-buffered = refl

    content-buffered :
        content buffered.output_buffer ≡ content s.output_buffer ++ take m (drop o bytes)
    unfolding buffered
    content-buffered = appended.3

    pub buffered-IsSound : 0 < m → IsSound r true buffered
    unfolding buffered
    buffered-IsSound pos = record {
      input_valid = v.input_valid;
      output_valid = appended.2;
      mask = refl;
      pending = λ e z. omega (
        arith,
        ap length (sym appended.3 ∙ z),
        length-append (content s.output_buffer) (take m (drop o bytes)),
        length-take m (drop o bytes),
        length-drop o bytes,
      );
      drained = λ e. cc;
    }

    written-buffered : written buffered.effects ≡ written s.effects
    unfolding buffered
    written-buffered =
        rw (written-append s.effects (buffered_effects r w s m), nothing_written r w, append-nil)
      where
        nothing_written : (r w : Bool) → written (buffered_effects r w s m) ≡ []
        nothing_written r w = ground arith
