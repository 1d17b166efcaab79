-- ===== src/TcpConnection/Growing.antt =====
-- What a connection did to the world stays done: every handler and operation puts its effects behind
-- those that there were.
use htcp_multithread.Prelude.{
  ℕ, zero, suc, ◌≡◌, refl, ap, sym, ◌∙◌, Bool, true, false, Option, none, some, ◌>>=◌, List, [],
  ◌∷◌, ◌++◌, append_assoc, append-nil, if◌then◌else◌, ◌==◌, ◌&&◌, not, ltb, Bool-cases, inl, inr,
}
use htcp_multithread.Syscall.{
  ReadResult, WriteResult, sent, write_failed, SockoptResult, optval, sockopt_failed,
}
use htcp_multithread.Buffer
use htcp_multithread.Channel
use htcp_multithread.TcpConnection.{
  TcpConnection, ConnectionCallbacks, Effect, connected, disconnected, disconnecting, is_state,
  set_state, shutdown_in_loop, shutdown, Attempt, handle_error, connect_established,
  connect_destroyed, handle_close, after_read, handle_read, output_drained, handle_write,
  first_write, note_high_water, wait_for_room, buffer_rest, keep_rest, send_in_loop, send,
  set_high_water_mark_callback,
}
use htcp_multithread.TcpConnection.Runs.{
  Op, reads, writes, fails, sends, shuts, closes, destroys, establishes, marks, callbacks, run_op,
}

-- `ys` begins with `xs`.
pub record IsLonger (xs ys : List Effect) : Type 0 where
  pub more : List Effect
  pub added : ys ≡ xs ++ more

-- Where the call does not end the process.
abbrev pub Grows : List Effect → Option TcpConnection → Type 0
Grows xs none = Unit
Grows xs (some t) = IsLonger xs t.effects

pub same : {xs : List Effect} → IsLonger xs xs
same {xs} = record { more = []; added = sym (append-nil xs) }

one_more : {xs ys : List Effect} (e : Effect) → IsLonger xs ys → IsLonger xs (ys ++ e ∷ [])
one_more {xs} e g = record {
  more = g.more ++ e ∷ [];
  added = ap (λ ys. ys ++ e ∷ []) g.added ∙ append_assoc xs g.more (e ∷ []);
}

pub IsLonger-trans : {xs ys zs : List Effect} → IsLonger xs ys → IsLonger ys zs → IsLonger xs zs
IsLonger-trans {xs} g h = record {
  more = g.more ++ h.more;
  added = h.added ∙ ap (λ ys. ys ++ h.more) g.added ∙ append_assoc xs g.more h.more;
}

-- A `do` block over connections, one over other results, and a test.
pub Grows-bind :
    (xs : List Effect) (m : Option TcpConnection) (f : TcpConnection → Option TcpConnection)
    → Grows xs m
    → ((t : TcpConnection) → IsLonger xs t.effects → Grows xs (f t))
    → Grows xs (m >>= f)
Grows-bind xs none f g h = tt
Grows-bind xs (some t) f g h = h t g

Grows-from {ℓ} :
    {A : Type ℓ} (xs : List Effect) (m : Option A) (f : A → Option TcpConnection)
    → ((a : A) → Grows xs (f a))
    → Grows xs (m >>= f)
Grows-from xs none f h = tt
Grows-from xs (some a) f h = h a

pub Grows-if :
    (xs : List Effect) (b : Bool) (m n : Option TcpConnection)
    → Grows xs m
    → Grows xs n
    → Grows xs (if b then m else n)
Grows-if xs true m n g h = g
Grows-if xs false m n g h = h

either :
    (xs : List Effect) (b : Bool) (t u : TcpConnection)
    → IsLonger xs t.effects
    → IsLonger xs u.effects
    → IsLonger xs (if b then t else u).effects
either xs true t u g h = g
either xs false t u g h = h

IsLonger-if :
    {xs ys zs : List Effect} (b : Bool)
    → IsLonger xs ys
    → IsLonger xs zs
    → IsLonger xs (if b then ys else zs)
IsLonger-if true g h = g
IsLonger-if false g h = h

attempted :
    {xs : List Effect} (b : Bool) (x y : Attempt)
    → IsLonger xs x.after.effects
    → IsLonger xs y.after.effects
    → IsLonger xs (if b then x else y).after.effects
attempted true x y g h = g
attempted false x y g h = h

Grows-on :
    {xs ys : List Effect} (m : Option TcpConnection) → IsLonger xs ys → Grows ys m → Grows xs m
Grows-on none g h = tt
Grows-on (some u) g h = IsLonger-trans g h

shutdown_in_loop-IsLonger : (s : TcpConnection) → IsLonger s.effects (shutdown_in_loop s).effects
unfolding shutdown_in_loop
shutdown_in_loop-IsLonger s =
    either s.effects (not (Channel.is_writing s.channel)) _ _ (one_more _ same) same

shutdown-IsLonger : (here : Bool) (s : TcpConnection) → IsLonger s.effects (shutdown here s).effects
unfolding shutdown
shutdown-IsLonger true s =
    either s.effects (is_state s.state connected) _ _
      (shutdown_in_loop-IsLonger (set_state disconnecting s)) same
shutdown-IsLonger false s = either s.effects (is_state s.state connected) _ _ (one_more _ same) same

pub handle_error-IsLonger :
    (so_error : SockoptResult) (s : TcpConnection)
    → IsLonger s.effects (handle_error so_error s).effects
unfolding handle_error
handle_error-IsLonger (optval err) s = one_more _ same
handle_error-IsLonger (sockopt_failed err) s = one_more _ same

module _ (c h : Bool) where
  abbrev k : ConnectionCallbacks
  k = callbacks c h

  connect_established-Grows :
      (self : ℕ) (s : TcpConnection) → Grows s.effects (connect_established k self s)
  unfolding connect_established Channel.enable_reading
  connect_established-Grows self s = one_more _ (one_more _ same)

  connect_destroyed-Grows : (s : TcpConnection) → Grows s.effects (connect_destroyed k s)
  unfolding connect_destroyed Channel.disable_all
  connect_destroyed-Grows s =
      Grows-bind s.effects _ _
        (Grows-if s.effects (is_state s.state connected) _ _ (one_more _ same) same)
        (λ t g. one_more _ g)

  pub handle_close-Grows : (s : TcpConnection) → Grows s.effects (handle_close k s)
  unfolding handle_close Channel.disable_all
  handle_close-Grows s = one_more _ (one_more _ (one_more _ same))

  after_read-Grows :
      (so_error : SockoptResult) (time : ℕ) (count errno : Option ℕ) (s : TcpConnection)
      → Grows s.effects (after_read k so_error time count errno s)
  unfolding after_read
  after_read-Grows so_error time (some (suc n)) errno s = one_more _ same
  after_read-Grows so_error time (some zero) errno s = handle_close-Grows s
  after_read-Grows so_error time none (some errno) s =
      handle_error-IsLonger so_error (record s { errno = errno })
  after_read-Grows so_error time none none s =
      handle_error-IsLonger so_error (record s { errno = 0 })

  pub handle_read-Grows :
      (readv : List ℕ → ReadResult) (so_error : SockoptResult) (time : ℕ) (s : TcpConnection)
      → Grows s.effects (handle_read k readv so_error time s)
  unfolding handle_read
  handle_read-Grows readv so_error time s =
      Grows-from s.effects (Buffer.read_fd readv s.input_buffer) _ (λ r.
        after_read-Grows so_error time r.count r.saved_errno (record s { input_buffer = r.after }))

  output_drained-Grows : (s : TcpConnection) → Grows s.effects (output_drained k s)
  unfolding output_drained Channel.disable_writing
  output_drained-Grows s =
      let queued = either s.effects c _ _ (one_more _ (one_more _ same)) (one_more _ same) in
      either s.effects _ _ _ (IsLonger-trans queued (shutdown_in_loop-IsLonger _)) queued

  pub handle_write-Grows :
      (write : List ℕ → WriteResult) (s : TcpConnection) → Grows s.effects (handle_write k write s)
  unfolding handle_write
  handle_write-Grows write s = elim (Bool-cases (Channel.is_writing s.channel)) [
    | inl on ↦ go on (Buffer.write_fd write s.output_buffer) refl
    | inr off ↦ rw (off, handle_write) same
  ]
    where
      go :
          Channel.is_writing s.channel ≡ true
          → (o : Option WriteResult) → Buffer.write_fd write s.output_buffer ≡ o
          → Grows s.effects (handle_write k write s)
      go on none e = rw (on, e, handle_write) tt
      go on (some (sent zero)) e = rw (on, e, handle_write) same
      go on (some (sent (suc n))) e =
          rw (on, e, handle_write)
            (Grows-if s.effects
              (Buffer.readable_bytes (Buffer.retrieve s.output_buffer (suc n)) == 0) _ _
              (Grows-on _ (one_more _ same) (output_drained-Grows _)) (one_more _ same))
      go on (some (write_failed errno)) e = rw (on, e, handle_write) same

  first_write-IsLonger :
      (write : List ℕ → WriteResult) (bytes : List ℕ) (s : TcpConnection)
      → IsLonger s.effects (first_write k write bytes s).after.effects
  unfolding first_write
  first_write-IsLonger write bytes s = go (write bytes) refl
    where
      go :
          (r : WriteResult)
          → write bytes ≡ r
          → IsLonger s.effects (first_write k write bytes s).after.effects
      go (sent n) e =
          rw (e, first_write) (attempted _ _ _ (one_more _ (one_more _ same)) (one_more _ same))
      go (write_failed errno) e = rw (e, first_write) same

  wait_for_room-Grows : (s : TcpConnection) → Grows s.effects (wait_for_room k s)
  unfolding wait_for_room Channel.enable_writing
  wait_for_room-Grows s =
      Grows-if s.effects (not (Channel.is_writing s.channel)) _ _ (one_more _ same) same

  keep_rest-Grows : (bytes : List ℕ) (a : Attempt) → Grows a.after.effects (keep_rest k bytes a)
  unfolding keep_rest buffer_rest note_high_water
  keep_rest-Grows bytes a =
      Grows-if a.after.effects (not a.fault_error && ltb 0 a.remaining) _ _
        (Grows-from a.after.effects a.nwrote _ (λ offset.
          Grows-from a.after.effects _ _
            (λ out. Grows-on _ (IsLonger-if _ (one_more _ same) same) (wait_for_room-Grows _))))
        same

  send_in_loop-Grows :
      (write : List ℕ → WriteResult) (bytes : List ℕ) (s : TcpConnection)
      → Grows s.effects (send_in_loop k write bytes s)
  unfolding send_in_loop
  send_in_loop-Grows write bytes s = Grows-if s.effects (is_state s.state disconnected) _ _ same (
      Grows-on _ (attempted _ _ _ (first_write-IsLonger write bytes s) same)
        (keep_rest-Grows bytes _))

  send-Grows :
      (here : Bool) (write : List ℕ → WriteResult) (address : ℕ) (bytes : List ℕ)
      (s : TcpConnection)
      → Grows s.effects (send k here write address bytes s)
  unfolding send
  send-Grows true write address bytes s =
      Grows-if s.effects (is_state s.state connected) _ _ (send_in_loop-Grows write bytes s) same
  send-Grows false write address bytes s =
      Grows-if s.effects (is_state s.state connected) _ _ (one_more _ same) same

  -- Every handler and operation puts its effects behind those that there were.
  pub run_op-Grows : (op : Op) (s : TcpConnection) → Grows s.effects (run_op k op s)
  unfolding set_high_water_mark_callback
  run_op-Grows (reads readv so_error time) s = handle_read-Grows readv so_error time s
  run_op-Grows (writes write) s = handle_write-Grows write s
  run_op-Grows (sends write address bytes) s = send-Grows true write address bytes s
  run_op-Grows (fails so_error) s = handle_error-IsLonger so_error s
  run_op-Grows shuts s = shutdown-IsLonger true s
  run_op-Grows closes s = handle_close-Grows s
  run_op-Grows destroys s = connect_destroyed-Grows s
  run_op-Grows (establishes self) s = connect_established-Grows self s
  run_op-Grows (marks mark) s = same
