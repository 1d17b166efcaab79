-- ===== src/TcpConnection/Runs/Completion.antt =====
-- When the write-complete callback is queued, in a run of a connection.
use htcp_multithread.Prelude.{
  ◌++◌, ap₂, ◌==◌, ◌-◌, length-take, append-nil, ℕ, zero, suc, ◌+◌, ◌≤◌, ◌<◌, ◌≡◌, ◌≢◌, refl, ap,
  sym, subst, ◌∙◌, Bool, true, false, not, ◌&&◌, Option, none, some, ◌>>=◌, List, [], ◌∷◌, length,
  if◌then◌else◌, arith, inl, inr, Bool-cases, ℕ_discrete, drop_all, take, dec_lt, ◌^◌,
}
use htcp_multithread.Syscall.{
  ReadResult, WriteResult, sent, write_failed, WritesWithin, SockoptResult, optval, sockopt_failed,
}
use htcp_multithread.Buffer
use htcp_multithread.Buffer.Content.{content}
use htcp_multithread.Channel
use htcp_multithread.Channel.Events.{Waits-tests, mask}
use htcp_multithread.TcpConnection.{
  TcpConnection, ConnectionCallbacks, Effect, State, channel_updated, channel_removed,
  functor_queued, call_write_complete, call_high_water_mark, bytes_written, write_shut_down,
  connection_called, message_called, close_called, error_logged, connected, disconnected,
  disconnecting, is_state, shutdown_in_loop, send_in_loop, shutdown, handle_error,
  connect_established, connect_destroyed, handle_close, after_read, handle_read,
  set_high_water_mark_callback,
}
use htcp_multithread.TcpConnection.Runs.{
  Op, reads, writes, fails, sends, shuts, closes, destroys, establishes, marks, callbacks, run_op,
  MayCome, Reach, said,
}
use htcp_multithread.TcpConnection.Runs.Invariant.{Reach-IsFine}
use htcp_multithread.TcpConnection.Tally.{tally, tally-append, silent, if-silent}
use htcp_multithread.TcpConnection.Closing.{connected_or_not, is_state-connected}
use htcp_multithread.TcpConnection.Sending.{
  buffered, buffered_effects, crosses, buffered-IsSound, effects-buffered,
}
use htcp_multithread.TcpConnection.Sound.{IsSound, outside-IsSound}
use htcp_multithread.TcpConnection.Sending.Results.{
  puts, puts_whole, is_lethal, wrote, send_part, send_part_lethal, whole, send_whole, send_buffered,
  send_nothing,
}
use htcp_multithread.TcpConnection.Sending.Delivery.{send_connected, send_ignored}
use htcp_multithread.TcpConnection.Stream.{
  drained_effects, sent_on, finished, left, handle_write-drained, handle_write-left,
  sent_on-IsSound,
}
use htcp_multithread.TcpConnection.Stream.Writes.{
  handle_write_idle, handle_write_refused, handle_write_failed,
}

abbrev pub is_completion : Effect → Bool
is_completion (functor_queued call_write_complete) = true
is_completion _ = false

-- How often the callback was queued.
abbrev pub completions : List Effect → ℕ
completions = tally is_completion

abbrev pub is_empty : List ℕ → Bool
is_empty [] = true
is_empty (x ∷ xs) = false

-- An operation that sends, after which nothing is left to send, and which gave up nothing.
abbrev pub finishes : Op → (before after : TcpConnection) → Bool
finishes (writes write) s t = Channel.is_writing s.channel && is_empty (content t.output_buffer)
finishes (sends write address bytes) s t =
    is_state s.state connected
    && (is_empty (content t.output_buffer)
        && (length (said (sends write address bytes) s) == length bytes))
finishes _ s t = false

-- A call that does not queue the callback, where it does not end the process.
abbrev IsQuiet : ℕ → Option TcpConnection → Type 0
IsQuiet n none = Unit
IsQuiet n (some t) = completions t.effects ≡ n

either :
    {n : ℕ} (b : Bool) (t u : TcpConnection)
    → completions t.effects ≡ n
    → completions u.effects ≡ n
    → completions (if b then t else u).effects ≡ n
either true t u g h = g
either false t u g h = h

IsQuiet-bind {ℓ} :
    {A : Type ℓ} (n : ℕ) (m : Option A) (f : A → Option TcpConnection)
    → ((a : A) → IsQuiet n (f a))
    → IsQuiet n (m >>= f)
IsQuiet-bind n none f h = tt
IsQuiet-bind n (some a) f h = h a

handle_error-IsQuiet :
    (so_error : SockoptResult) (s : TcpConnection)
    → completions (handle_error so_error s).effects ≡ completions s.effects
unfolding handle_error
handle_error-IsQuiet (optval err) s = silent is_completion _ (error_logged err) refl refl
handle_error-IsQuiet (sockopt_failed err) s = silent is_completion _ (error_logged err) refl refl

shutdown-IsQuiet :
    (s : TcpConnection) → completions (shutdown true s).effects ≡ completions s.effects
unfolding shutdown shutdown_in_loop
shutdown-IsQuiet s =
    either (is_state s.state connected) _ _
      (either (not (Channel.is_writing s.channel)) _ _
        (silent is_completion _ write_shut_down refl refl) refl)
      refl

module _ (c h : Bool) where
  abbrev k : ConnectionCallbacks
  k = callbacks c h

  handle_close-IsQuiet : (s : TcpConnection) → IsQuiet (completions s.effects) (handle_close k s)
  unfolding handle_close Channel.disable_all
  handle_close-IsQuiet s = silent is_completion _ close_called refl (
      silent is_completion _ (connection_called _) refl
        (silent is_completion _ (channel_updated 0) refl refl))

  connect_established-IsQuiet :
      (self : ℕ) (s : TcpConnection)
      → IsQuiet (completions s.effects) (connect_established k self s)
  unfolding connect_established Channel.enable_reading
  connect_established-IsQuiet self s =
      silent is_completion _ (connection_called _) refl
        (silent is_completion _ (channel_updated _) refl refl)

  connect_destroyed-IsQuiet :
      (s : TcpConnection) → IsQuiet (completions s.effects) (connect_destroyed k s)
  unfolding connect_destroyed Channel.disable_all
  connect_destroyed-IsQuiet s = elim (Bool-cases (is_state s.state connected)) [
    | inl on ↦ rw (on) (
        silent is_completion _ channel_removed refl
          (silent is_completion _ (channel_updated 0) refl refl))
    | inr off ↦ rw (off) (silent is_completion _ channel_removed refl refl)
  ]

  after_read-IsQuiet :
      (so_error : SockoptResult) (time : ℕ) (count errno : Option ℕ) (s : TcpConnection)
      → IsQuiet (completions s.effects) (after_read k so_error time count errno s)
  unfolding after_read
  after_read-IsQuiet so_error time (some (suc n)) errno s =
      silent is_completion _ message_called refl refl
  after_read-IsQuiet so_error time (some zero) errno s = handle_close-IsQuiet s
  after_read-IsQuiet so_error time none (some errno) s =
      handle_error-IsQuiet so_error (record s { errno = errno })
  after_read-IsQuiet so_error time none none s =
      handle_error-IsQuiet so_error (record s { errno = 0 })

  handle_read-IsQuiet :
      (readv : List ℕ → ReadResult) (so_error : SockoptResult) (time : ℕ) (s : TcpConnection)
      → IsQuiet (completions s.effects) (handle_read k readv so_error time s)
  unfolding handle_read
  handle_read-IsQuiet readv so_error time s =
      IsQuiet-bind (completions s.effects) (Buffer.read_fd readv s.input_buffer) _ (λ r.
        after_read-IsQuiet so_error time r.count r.saved_errno
          (record s { input_buffer = r.after }))

  -- What an operation adds.
  abbrev due : Op → (before after : TcpConnection) → ℕ
  due op s t = if finishes op s t && c then 1 else 0

  abbrev Counts : Op → TcpConnection → Type 0
  Counts op s =
      (t : TcpConnection) × (run_op k op s ≡ some t)
      × (completions t.effects ≡ completions s.effects + due op s t)

  is_empty-false : (xs : List ℕ) → xs ≢ [] → is_empty xs ≡ false
  is_empty-false [] ne = absurd (ne refl)
  is_empty-false (x ∷ xs) ne = refl

  counted :
      (op : Op) (s t : TcpConnection) (b : Bool)
      → finishes op s t ≡ b
      → completions t.effects ≡ completions s.effects + (if b && c then 1 else 0)
      → completions t.effects ≡ completions s.effects + due op s t
  counted op s t b e n = n ∙ ap (λ x. completions s.effects + (if x && c then 1 else 0)) (sym e)

  if-queued :
      (b : Bool)
      → completions (if b then functor_queued call_write_complete ∷ [] else [])
        ≡ (if b then 1 else 0)
  if-queued true = refl
  if-queued false = refl

  completions-drained :
      (r : Bool) (st : State) → completions (drained_effects k r st) ≡ (if c then 1 else 0)
  completions-drained r st = omega (
    arith,
    tally-append is_completion (if c then functor_queued call_write_complete ∷ [] else []) _,
    if-queued c,
    if-silent is_completion (is_state st disconnecting) write_shut_down refl,
  )

  module _ {r : Bool} {s : TcpConnection} (write : List ℕ → WriteResult)
      (within : WritesWithin write) where
    waiting_on : IsSound r true s → {b : Bool} → (Channel.is_writing s.channel && b) ≡ b
    waiting_on v {b} = ap (λ x. x && b) (Waits-tests r true s.channel v.mask).1

    still_waiting : IsSound r true s → is_empty (content s.output_buffer) ≡ false
    still_waiting v = is_empty-false (content s.output_buffer) (v.pending refl)

    writes_some :
        (v : IsSound r true s) (n : ℕ)
        → write (content s.output_buffer) ≡ sent (suc n)
        → Counts (writes write) s
    unfolding finished sent_on
    writes_some v n e =
        let room : suc n ≤ length (content s.output_buffer) =
          within (content s.output_buffer) (suc n) e in
        elim (ℕ_discrete (length (content s.output_buffer)) (suc n)) [
          | yes d ↦ (
            finished k v n room,
            handle_write-drained k v n room write e d,
            counted (writes write) s (finished k v n room) true
                (waiting_on v
                  ∙ ap is_empty
                      (left k v n room ∙ drop_all (suc n) (content s.output_buffer) (omega arith)))
                (tally-append is_completion (sent_on k v n room).effects
                    (drained_effects k r s.state)
                  ∙ omega (
                    arith,
                    completions-drained r s.state,
                    silent is_completion s.effects
                        (bytes_written (take (suc n) (content s.output_buffer))) refl refl,
                  )),
          )
          | no d ↦ (
            sent_on k v n room,
            handle_write-left k v n room write e d,
            counted (writes write) s (sent_on k v n room) false
                (waiting_on v ∙ is_empty-false _ ((sent_on-IsSound k v n room d).pending refl))
                (omega (
                  arith,
                  silent is_completion s.effects
                      (bytes_written (take (suc n) (content s.output_buffer))) refl refl,
                )),
          )
        ]

    writes-Counts : (w : Bool) → IsSound r w s → Counts (writes write) s
    writes-Counts false v = (
      s,
      handle_write_idle k write v,
      counted (writes write) s s false
          (ap (λ x. x && is_empty (content s.output_buffer))
            (Waits-tests r false s.channel v.mask).1)
          (omega arith),
    )
    writes-Counts true v = go (write (content s.output_buffer)) refl
      where
        go :
            (result : WriteResult)
            → write (content s.output_buffer) ≡ result
            → Counts (writes write) s
        go (sent zero) e = (
          s,
          handle_write_refused k write v e,
          counted (writes write) s s false (waiting_on v ∙ still_waiting v) (omega arith),
        )
        go (sent (suc n)) e = writes_some v n e
        go (write_failed errno) e = (
          record s { errno = errno },
          handle_write_failed k write errno v e,
          counted (writes write) s (record s { errno = errno }) false
              (waiting_on v ∙ still_waiting v) (omega arith),
        )

  module _ (s : TcpConnection) (write : List ℕ → WriteResult) (address : ℕ) (bytes : List ℕ)
      (st : s.state ≡ connected) where
    live : s.state ≢ disconnected
    live = λ e. cc

    in_loop :
        {t : TcpConnection}
        → send_in_loop k write bytes s ≡ some t
        → run_op k (sends write address bytes) s ≡ some t
    in_loop did = send_connected k write address bytes s st ∙ did

    same_length : (length bytes == length bytes) ≡ true
    same_length = ground arith

    connected_on : {b : Bool} → (is_state s.state connected && b) ≡ b
    connected_on {b} = ap (λ x. is_state x connected && b) st

    -- The tests of `finishes`, once the output and what was put in are known.
    ends_as :
        {r w : Bool} (v : IsSound r w s) (t : TcpConnection) (empty given : Bool)
        → is_empty (content t.output_buffer) ≡ empty
        → (length (puts w s.errno bytes (write bytes)) == length bytes) ≡ given
        → finishes (sends write address bytes) s t ≡ (empty && given)
    ends_as {r} {w} v t empty given e g =
        connected_on
        ∙ ap₂ ◌&&◌ e (
            ap (λ xs. length xs == length bytes)
              (ap
                  (λ x.
                    if is_state x connected
                    then puts (Channel.is_writing s.channel) s.errno bytes (write bytes)
                    else [])
                  st
                ∙ ap (λ b. puts b s.errno bytes (write bytes)) (Waits-tests r w s.channel v.mask).1)
            ∙ g)

    not_empty :
        {r w : Bool} (v : IsSound r w s) (t : TcpConnection)
        → content t.output_buffer ≢ []
        → finishes (sends write address bytes) s t ≡ false
    not_empty v t ne = ends_as v t false _ (is_empty-false (content t.output_buffer) ne) refl

    high_water : (w r : Bool) (n : ℕ) → completions (buffered_effects k r w s n) ≡ 0
    high_water w r n =
        tally-append is_completion
          (if crosses k s n
            then functor_queued (call_high_water_mark (length (content s.output_buffer) + n)) ∷ []
            else [])
          _
        ∙ omega (
          arith,
          if-silent is_completion (crosses k s n)
              (functor_queued (call_high_water_mark (length (content s.output_buffer) + n))) refl,
          told w r,
        )
      where
        told : (w r : Bool) → completions (if w then [] else channel_updated (mask r true) ∷ []) ≡ 0
        told true r = refl
        told false r = refl

    buffered-Counts :
        {r : Bool}
        → IsSound r true s
        → 0 < length bytes
        → s.output_buffer.writer_index + length bytes ≤ Buffer.max_size
        → Counts (sends write address bytes) s
    buffered-Counts {r} v pos fits =
        let t = buffered k r true v bytes 0 (length bytes) (omega arith) fits in
        (
          t,
          in_loop (send_buffered k write bytes v live pos fits),
          counted (sends write address bytes) s t false
              (not_empty v t (
                (buffered-IsSound k r true v bytes 0 (length bytes) (omega arith) fits pos).pending
                  refl))
              (ap completions
                  (effects-buffered k r true v bytes 0 (length bytes) (omega arith) fits)
                ∙ tally-append is_completion s.effects (buffered_effects k r true s (length bytes))
                ∙ omega (arith, high_water true r (length bytes))),
        )

    whole-Counts :
        {r : Bool}
        → IsSound r false s
        → length bytes < 2 ^ 64
        → write bytes ≡ sent (length bytes)
        → Counts (sends write address bytes) s
    unfolding whole
    whole-Counts v small e = (
      whole k write bytes v live,
      in_loop (send_whole k write bytes v live small e),
      counted (sends write address bytes) s (whole k write bytes v live) true
          (ends_as v (whole k write bytes v live) true true (ap is_empty (v.drained refl live)) (
            ap (λ x. length (puts false s.errno bytes x) == length bytes) e
            ∙ ap (λ xs. length xs == length bytes) (puts_whole false s.errno bytes)
            ∙ same_length))
          (tally-append is_completion s.effects _ ∙ omega (arith, if-queued c)),
    )

    nothing-Counts :
        {r : Bool} → IsSound r true s → length bytes ≡ 0 → Counts (sends write address bytes) s
    nothing-Counts v e = (
      s,
      in_loop (send_nothing k write bytes v live e),
      counted (sends write address bytes) s s false (not_empty v s (v.pending refl)) (omega arith),
    )

    -- The kernel takes a part.
    module _ {r : Bool} (v : IsSound r false s) (n : ℕ) (small : length bytes < 2 ^ 64)
        (part : n < length bytes) (e : write bytes ≡ sent n) where
      lethal-Counts : is_lethal s.errno ≡ true → Counts (sends write address bytes) s
      lethal-Counts lethal = (
        wrote k write bytes v live small n,
        in_loop (send_part_lethal k write bytes v live small n part e lethal),
        counted (sends write address bytes) s (wrote k write bytes v live small n) false
            (ends_as v (wrote k write bytes v live small n) true false
              (ap is_empty (v.drained refl live))
              (ap (λ x. length (puts false s.errno bytes x) == length bytes) e
                ∙ ap
                    (λ b.
                      length (take n bytes ++ (if b then [] else take (length bytes - n) bytes))
                      == length bytes)
                    lethal
                ∙ shorter))
            (omega
              (arith, silent is_completion s.effects (bytes_written (take n bytes)) refl refl)),
      )
        where
          shorter : (length (take n bytes ++ []) == length bytes) ≡ false
          shorter = rw (append-nil (take n bytes)) (ground (arith, length-take n bytes))

      abbrev after_part : IsSound r false (wrote k write bytes v live small n)
      after_part = outside-IsSound _ s.errno v

      mild-Counts :
          is_lethal s.errno ≡ false
          → s.output_buffer.writer_index + (length bytes - n) ≤ Buffer.max_size
          → Counts (sends write address bytes) s
      mild-Counts mild room =
          let t = buffered k r false after_part bytes 0 (length bytes - n) (omega arith) room in
          (
            t,
            in_loop (send_part k write bytes v live small n part e mild room after_part),
            counted (sends write address bytes) s t false
                (not_empty v t (
                  (buffered-IsSound k r false after_part bytes 0 (length bytes - n) (omega arith)
                      room (omega arith)).pending
                    refl))
                (ap completions (
                    effects-buffered k r false after_part bytes 0 (length bytes - n) (omega arith)
                      room)
                  ∙ tally-append is_completion (wrote k write bytes v live small n).effects
                      (buffered_effects k r false s (length bytes - n))
                  ∙ omega (
                    arith,
                    high_water false r (length bytes - n),
                    silent is_completion s.effects (bytes_written (take n bytes)) refl refl,
                  )),
          )

    sends-Counts :
        {r : Bool} (w : Bool)
        → IsSound r w s
        → MayCome (sends write address bytes) s
        → Counts (sends write address bytes) s
    sends-Counts {r} false v (fits, inl e) =
        absurd (cc (sym (Waits-tests r false s.channel v.mask).1 ∙ e))
    sends-Counts false v (fits, inr (n, e, le)) = elim (ℕ_discrete n (length bytes)) [
      | yes all_ ↦ whole-Counts v (omega arith) (e ∙ ap sent all_)
      | no some_left ↦ elim (Bool-cases (is_lethal s.errno)) [
        | inl lethal ↦ lethal-Counts v n (omega arith) (omega arith) e lethal
        | inr mild ↦ mild-Counts v n (omega arith) (omega arith) e mild (omega arith)
      ]
    ]
    sends-Counts true v (fits, took) = elim (dec_lt 0 (length bytes)) [
      | yes pos ↦ buffered-Counts v pos fits
      | no none_given ↦ nothing-Counts v (omega arith)
    ]

  ignored-Counts :
      (write : List ℕ → WriteResult) (address : ℕ) (bytes : List ℕ) (s : TcpConnection)
      → is_state s.state connected ≡ false
      → Counts (sends write address bytes) s
  ignored-Counts write address bytes s other = (
    s,
    send_ignored k true write address bytes s other,
    counted (sends write address bytes) s s false
        (ap
          (λ x.
            x
            && (is_empty (content s.output_buffer)
                && (length (said (sends write address bytes) s) == length bytes)))
          other)
        (omega arith),
  )

  module _ (address sockfd : ℕ) where
    quiet :
        (op : Op) (s t : TcpConnection)
        → IsQuiet (completions s.effects) (run_op k op s)
        → finishes op s t ≡ false
        → run_op k op s ≡ some t
        → completions t.effects ≡ completions s.effects + due op s t
    quiet op s t silent_ no_end did =
        counted op s t false no_end
          (omega (arith, subst (IsQuiet (completions s.effects)) did silent_))

    took :
        (op : Op) (s t : TcpConnection)
        → Counts op s
        → run_op k op s ≡ some t
        → completions t.effects ≡ completions s.effects + due op s t
    took op s t (u, did', n) did =
        let same : u ≡ t = cc (sym did' ∙ did) in
        subst (λ x. completions x.effects ≡ completions s.effects + due op s x) same n

    -- In every run of operations that may come (no `send` whose first write fails, callbacks that do
    -- nothing, all in the loop's own thread), an operation that returns queues the write-complete
    -- callback exactly once if the callback is set and the operation is `handleWrite` while the
    -- channel waits for room, or `send` on a connected connection, that leaves the output buffer empty
    -- and has given up none of its data. No other operation queues it.
    pub completions_lem :
        {s t : TcpConnection} {all : List ℕ} (op : Op)
        → Reach (callbacks c h) address sockfd s all
        → MayCome op s
        → run_op (callbacks c h) op s ≡ some t
        → completions t.effects ≡ completions s.effects + (if finishes op s t && c then 1 else 0)
    unfolding set_high_water_mark_callback
    completions_lem {s} {t} (reads readv so_error time) run may did =
        quiet (reads readv so_error time) s t (handle_read-IsQuiet readv so_error time s) refl did
    completions_lem {s} {t} (writes write) run may did =
        let (w, v) = Reach-IsFine c h address sockfd run in
        took (writes write) s t (writes-Counts write may w v.sound) did
    completions_lem {s} {t} (fails so_error) run may did =
        quiet (fails so_error) s t (handle_error-IsQuiet so_error s) refl did
    completions_lem {s} {t} (sends write a bytes) run may did = elim (connected_or_not s.state) [
      | inl e ↦
          (let (w, v) = Reach-IsFine c h address sockfd run in
            took (sends write a bytes) s t (sends-Counts s write a bytes e w v.sound may) did)
      | inr ne ↦
          took (sends write a bytes) s t
            (ignored-Counts write a bytes s (is_state-connected s.state ne)) did
    ]
    completions_lem {s} {t} shuts run may did = quiet shuts s t (shutdown-IsQuiet s) refl did
    completions_lem {s} {t} closes run may did = quiet closes s t (handle_close-IsQuiet s) refl did
    completions_lem {s} {t} destroys run may did =
        quiet destroys s t (connect_destroyed-IsQuiet s) refl did
    completions_lem {s} {t} (establishes self) run may did =
        quiet (establishes self) s t (connect_established-IsQuiet self s) refl did
    completions_lem {s} {t} (marks mark) run may did = quiet (marks mark) s t refl refl did
