-- ===== src/TcpConnection/Ending.antt =====
-- How a connection that is up ends: what its handlers do to its state, and how often they call the close
-- callback.
pub mod Dispatched
pub mod Twice
mod Tests
use htcp_multithread.Prelude.{
  subst, ℕ, zero, suc, ◌+◌, ◌≡◌, refl, Bool, true, false, Option, none, some, ◌>>=◌, List, [], ◌∷◌,
  ◌++◌, if◌then◌else◌, ◌==◌, ◌&&◌, not, ltb, Bool-cases, inl, inr, ◌⊎◌,
}
use htcp_multithread.Syscall.{
  ReadResult, WriteResult, sent, write_failed, SockoptResult, optval, sockopt_failed,
}
use htcp_multithread.Buffer
use htcp_multithread.Channel
use htcp_multithread.TcpConnection.{
  TcpConnection, ConnectionCallbacks, Effect, State, connected, disconnected, disconnecting,
  is_state, emit, set_state, shutdown_in_loop, shutdown, Attempt, handle_error, connect_established,
  connect_destroyed, handle_close, after_read, handle_read, output_drained, handle_write,
  first_write, note_high_water, wait_for_room, buffer_rest, keep_rest, send_in_loop, send,
  set_high_water_mark_callback, channel_updated, channel_removed, connection_called, message_called,
  close_called, error_logged, bytes_written, functor_queued, write_shut_down, call_write_complete,
  call_high_water_mark,
}
use htcp_multithread.TcpConnection.Runs.{
  Op, reads, writes, fails, sends, shuts, closes, destroys, establishes, marks, callbacks, run_op,
}
use htcp_multithread.TcpConnection.Tally.{tally, is_closing, is_removal, silent, heard}

abbrev pub IsUp : State → Type 0
IsUp connected = Unit
IsUp disconnecting = Unit
IsUp _ = ⊥

-- What a program calls.
abbrev pub IsCalled : Op → Type 0
IsCalled (sends write address bytes) = Unit
IsCalled shuts = Unit
IsCalled (marks mark) = Unit
IsCalled _ = ⊥

-- What a connection that is up does, until its owner destroys it.
abbrev pub IsServed : Op → Type 0
IsServed destroys = ⊥
IsServed (establishes self) = ⊥
IsServed _ = Unit

pub IsCalled-IsServed : (op : Op) → IsCalled op → IsServed op
IsCalled-IsServed (sends write address bytes) i = tt
IsCalled-IsServed shuts i = tt
IsCalled-IsServed (marks mark) i = tt
IsCalled-IsServed (reads readv so_error time) i = absurd i
IsCalled-IsServed (writes write) i = absurd i
IsCalled-IsServed (fails so_error) i = absurd i
IsCalled-IsServed closes i = absurd i
IsCalled-IsServed destroys i = absurd i
IsCalled-IsServed (establishes self) i = absurd i

-- So many calls of the close callback and removals of the channel.
abbrev pub IsTallied : (closings removals : ℕ) → List Effect → Type 0
IsTallied n m es = (tally is_closing es ≡ n) × (tally is_removal es ≡ m)

-- The connection is up, or it was just closed, with one more call of the close callback, and waits for
-- nothing.
abbrev pub Stays : (closings removals : ℕ) → TcpConnection → Type 0
Stays n m t = IsUp t.state × IsTallied n m t.effects

abbrev pub Closes : (closings removals : ℕ) → TcpConnection → Type 0
Closes n m t =
    (t.state ≡ disconnected)
    × (Channel.is_writing t.channel ≡ false)
    × IsTallied (n + 1) m t.effects

abbrev pub Ends : (closings removals : ℕ) → TcpConnection → Type 0
Ends n m t = Stays n m t ⊎ Closes n m t

-- Where the call does not end the process.
abbrev pub Whenever : (TcpConnection → Type 0) → Option TcpConnection → Type 0
Whenever P none = Unit
Whenever P (some t) = P t

module _ (P : TcpConnection → Type 0) where
  Whenever-from {ℓ} :
      {A : Type ℓ} (m : Option A) (f : A → Option TcpConnection)
      → ((a : A) → Whenever P (f a))
      → Whenever P (m >>= f)
  Whenever-from none f h = tt
  Whenever-from (some a) f h = h a

  Whenever-if :
      (b : Bool) (m n : Option TcpConnection)
      → Whenever P m
      → Whenever P n
      → Whenever P (if b then m else n)
  Whenever-if true m n g h = g
  Whenever-if false m n g h = h

  either : (b : Bool) (t u : TcpConnection) → P t → P u → P (if b then t else u)
  either true t u g h = g
  either false t u g h = h

  attempted : (b : Bool) (x y : Attempt) → P x.after → P y.after → P (if b then x else y).after
  attempted true x y g h = g
  attempted false x y g h = h

pub Whenever-Stays :
    (n m : ℕ) (o : Option TcpConnection) → Whenever (Stays n m) o → Whenever (Ends n m) o
Whenever-Stays n m none v = tt
Whenever-Stays n m (some t) v = inl v

pub Whenever-Closes :
    (n m : ℕ) (o : Option TcpConnection) → Whenever (Closes n m) o → Whenever (Ends n m) o
Whenever-Closes n m none v = tt
Whenever-Closes n m (some t) v = inr v

-- Neither a call of the close callback nor a removal.
abbrev IsPlain : Effect → Type 0
IsPlain e = (is_closing e ≡ false) × (is_removal e ≡ false)

pub plain_next :
    {n m : ℕ} (es : List Effect) (e : Effect)
    → IsPlain e
    → IsTallied n m es
    → IsTallied n m (es ++ e ∷ [])
plain_next es e (p, q) (g, h) = (silent is_closing es e p g, silent is_removal es e q h)

IsTallied-if :
    {n m : ℕ} (b : Bool) (xs ys : List Effect)
    → IsTallied n m xs
    → IsTallied n m ys
    → IsTallied n m (if b then xs else ys)
IsTallied-if true xs ys g h = g
IsTallied-if false xs ys g h = h

shutdown_in_loop-Stays :
    {n m : ℕ} (t : TcpConnection) → Stays n m t → Stays n m (shutdown_in_loop t)
unfolding shutdown_in_loop
shutdown_in_loop-Stays {n} {m} t (up, v) =
    either (Stays n m) (not (Channel.is_writing t.channel)) _ _
      (up, plain_next _ write_shut_down (refl, refl) v) (up, v)

shutdown-Stays : {n m : ℕ} (t : TcpConnection) → Stays n m t → Stays n m (shutdown true t)
unfolding shutdown
shutdown-Stays {n} {m} t v =
    either (Stays n m) (is_state t.state connected) _ _
      (shutdown_in_loop-Stays (set_state disconnecting t) (tt, v.1)) v

pub handle_error-Stays :
    {n m : ℕ} (so_error : SockoptResult) (t : TcpConnection)
    → Stays n m t
    → Stays n m (handle_error so_error t)
unfolding handle_error
handle_error-Stays (optval err) t (up, v) = (up, plain_next _ (error_logged err) (refl, refl) v)
handle_error-Stays (sockopt_failed err) t (up, v) =
    (up, plain_next _ (error_logged err) (refl, refl) v)

module _ (c h : Bool) where
  abbrev k : ConnectionCallbacks
  k = callbacks c h

  module _ {n m : ℕ} where
    pub handle_close-Closes :
        (t : TcpConnection) → IsTallied n m t.effects → Whenever (Closes n m) (handle_close k t)
    unfolding handle_close Channel.disable_all Channel.is_writing
    handle_close-Closes t v =
        let (g, r) =
          plain_next _ (connection_called disconnected) (refl, refl)
            (plain_next _ (channel_updated 0) (refl, refl) v) in
        (
          refl,
          refl,
          (heard is_closing _ close_called refl g, silent is_removal _ close_called refl r),
        )

    after_read-Ends :
        (so_error : SockoptResult) (time : ℕ) (count errno : Option ℕ) (t : TcpConnection)
        → Stays n m t
        → Whenever (Ends n m) (after_read k so_error time count errno t)
    unfolding after_read
    after_read-Ends so_error time (some (suc i)) errno t v =
        inl (v.0, plain_next _ message_called (refl, refl) v.1)
    after_read-Ends so_error time (some zero) errno t v =
        Whenever-Closes n m (handle_close k t) (handle_close-Closes t v.1)
    after_read-Ends so_error time none (some errno) t v =
        inl (handle_error-Stays so_error (record t { errno = errno }) v)
    after_read-Ends so_error time none none t v =
        inl (handle_error-Stays so_error (record t { errno = 0 }) v)

    pub handle_read-Ends :
        (readv : List ℕ → ReadResult) (so_error : SockoptResult) (time : ℕ) (t : TcpConnection)
        → Stays n m t
        → Whenever (Ends n m) (handle_read k readv so_error time t)
    unfolding handle_read
    handle_read-Ends readv so_error time t v =
        Whenever-from (Ends n m) (Buffer.read_fd readv t.input_buffer) _ (λ r.
          after_read-Ends so_error time r.count r.saved_errno (record t { input_buffer = r.after })
            v)

    output_drained-Stays :
        (t : TcpConnection) → Stays n m t → Whenever (Stays n m) (output_drained k t)
    unfolding output_drained Channel.disable_writing
    output_drained-Stays t (up, v) =
        let told = plain_next _ (channel_updated _) (refl, refl) v in
        let queued =
          either (Stays n m) c _ _
            (up, plain_next _ (functor_queued call_write_complete) (refl, refl) told) (up, told) in
        either (Stays n m) _ _ _ (shutdown_in_loop-Stays _ queued) queued

    pub handle_write-Stays :
        (write : List ℕ → WriteResult) (t : TcpConnection)
        → Stays n m t
        → Whenever (Stays n m) (handle_write k write t)
    unfolding handle_write
    handle_write-Stays write t v = elim (Bool-cases (Channel.is_writing t.channel)) [
      | inl on ↦ go on (Buffer.write_fd write t.output_buffer) refl
      | inr off ↦ rw (off, handle_write) v
    ]
      where
        go :
            Channel.is_writing t.channel ≡ true
            → (o : Option WriteResult) → Buffer.write_fd write t.output_buffer ≡ o
            → Whenever (Stays n m) (handle_write k write t)
        go on none e = rw (on, e, handle_write) tt
        go on (some (sent zero)) e = rw (on, e, handle_write) v
        go on (some (sent (suc i))) e =
            let told = plain_next _ (bytes_written _) (refl, refl) v.1 in
            rw (on, e, handle_write)
              (Whenever-if (Stays n m)
                (Buffer.readable_bytes (Buffer.retrieve t.output_buffer (suc i)) == 0) _ _
                (output_drained-Stays _ (v.0, told)) (v.0, told))
        go on (some (write_failed errno)) e = rw (on, e, handle_write) v

    first_write-Stays :
        (write : List ℕ → WriteResult) (bytes : List ℕ) (t : TcpConnection)
        → Stays n m t
        → Stays n m (first_write k write bytes t).after
    unfolding first_write
    first_write-Stays write bytes t v = go (write bytes) refl
      where
        go : (r : WriteResult) → write bytes ≡ r → Stays n m (first_write k write bytes t).after
        go (sent i) e =
            let told = plain_next _ (bytes_written _) (refl, refl) v.1 in
            rw (e, first_write)
              (attempted (Stays n m) _ _ _
                (v.0, plain_next _ (functor_queued call_write_complete) (refl, refl) told)
                (v.0, told))
        go (write_failed errno) e = rw (e, first_write) v

    wait_for_room-Stays :
        (t : TcpConnection) → Stays n m t → Whenever (Stays n m) (wait_for_room k t)
    unfolding wait_for_room Channel.enable_writing
    wait_for_room-Stays t v =
        Whenever-if (Stays n m) (not (Channel.is_writing t.channel)) _ _
          (v.0, plain_next _ (channel_updated _) (refl, refl) v.1) v

    keep_rest-Stays :
        (bytes : List ℕ) (a : Attempt)
        → Stays n m a.after
        → Whenever (Stays n m) (keep_rest k bytes a)
    unfolding keep_rest buffer_rest note_high_water
    keep_rest-Stays bytes a v =
        Whenever-if (Stays n m) (not a.fault_error && ltb 0 a.remaining) _ _
          (Whenever-from (Stays n m) a.nwrote _ (λ offset. Whenever-from (Stays n m) _ _ (λ out.
            wait_for_room-Stays _ (
              v.0,
              IsTallied-if _ _ _
                  (plain_next _ (functor_queued (call_high_water_mark _)) (refl, refl) v.1) v.1,
            ))))
          v

    send_in_loop-Stays :
        (write : List ℕ → WriteResult) (bytes : List ℕ) (t : TcpConnection)
        → Stays n m t
        → Whenever (Stays n m) (send_in_loop k write bytes t)
    unfolding send_in_loop
    send_in_loop-Stays write bytes t v =
        Whenever-if (Stays n m) (is_state t.state disconnected) _ _ v (
          keep_rest-Stays bytes _
            (attempted (Stays n m) _ _ _ (first_write-Stays write bytes t v) v))

    send-Stays :
        (write : List ℕ → WriteResult) (address : ℕ) (bytes : List ℕ) (t : TcpConnection)
        → Stays n m t
        → Whenever (Stays n m) (send k true write address bytes t)
    unfolding send
    send-Stays write address bytes t v =
        Whenever-if (Stays n m) (is_state t.state connected) _ _
          (send_in_loop-Stays write bytes t v) v

    run_op-Whenever :
        (op : Op) (t : TcpConnection)
        → IsServed op
        → Stays n m t
        → Whenever (Ends n m) (run_op k op t)
    unfolding set_high_water_mark_callback
    run_op-Whenever (reads readv so_error time) t i v = handle_read-Ends readv so_error time t v
    run_op-Whenever (writes write) t i v =
        Whenever-Stays n m (handle_write k write t) (handle_write-Stays write t v)
    run_op-Whenever (sends write address bytes) t i v =
        Whenever-Stays n m (send k true write address bytes t) (send-Stays write address bytes t v)
    run_op-Whenever (fails so_error) t i v = inl (handle_error-Stays so_error t v)
    run_op-Whenever shuts t i v = inl (shutdown-Stays t v)
    run_op-Whenever closes t i v =
        Whenever-Closes n m (handle_close k t) (handle_close-Closes t v.1)
    run_op-Whenever (marks mark) t i v = inl v
    run_op-Whenever destroys t i v = absurd i
    run_op-Whenever (establishes self) t i v = absurd i

    -- Whatever a connection that is up does, it is up afterwards, or it is closed and has called its
    -- close callback just once; it does not remove its channel.
    pub run_op-Ends :
        (op : Op) (s t : TcpConnection)
        → IsServed op
        → Stays n m s
        → run_op k op s ≡ some t
        → Ends n m t
    run_op-Ends op s t i v did = subst (Whenever (Ends n m)) did (run_op-Whenever op s i v)

    pub connect_established-Stays :
        (self : ℕ) (s : TcpConnection)
        → IsTallied n m s.effects
        → (t : TcpConnection) × (connect_established k self s ≡ some t) × Stays n m t
    unfolding connect_established Channel.enable_reading
    connect_established-Stays self s v = (
      _,
      refl,
      (
        tt,
        plain_next _ (connection_called connected) (refl, refl)
            (plain_next _ (channel_updated _) (refl, refl) v),
      ),
    )

  -- To destroy a connection that is closed is to remove its channel.
  pub connect_destroyed-Removes :
      (s : TcpConnection)
      → s.state ≡ disconnected
      → connect_destroyed k s ≡ some (emit channel_removed s)
  unfolding connect_destroyed
  connect_destroyed-Removes s e = rw (e)
