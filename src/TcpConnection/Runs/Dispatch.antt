-- ===== src/TcpConnection/Runs/Dispatch.antt =====
-- The handlers that the channel of a connection calls for the events that came.
use htcp_multithread.Prelude.{
  ℕ, ◌+◌, ◌≤◌, ◌≡◌, refl, ap, sym, subst, Bool, true, false, Option, none, some, ◌>>=◌, List,
  append-nil, length, [], ◌∷◌, ◌++◌, ◌∙◌, arith, if◌then◌else◌, Bool-cases, inl, inr,
}
use htcp_multithread.Syscall.{
  ReadResult, ReadsWithin, WriteResult, WritesWithin, SockoptResult, optval, sockopt_failed,
}
use htcp_multithread.Buffer
use htcp_multithread.Channel
use htcp_multithread.Channel.{Channel, Callbacks, handle_event, handle_event_with_guard}
use htcp_multithread.Channel.Dispatch.{
  Kind, closing, failing, reading, writing, wanted, call, call_wanted, dispatch_order,
  handle_event_with_guard_lem,
}
use htcp_multithread.TcpConnection.{TcpConnection, channel_callbacks, handle_close, handle_error}
use htcp_multithread.TcpConnection.Growing.{IsLonger, Grows, same, IsLonger-trans, run_op-Grows}
use htcp_multithread.TcpConnection.Runs.{
  Op, reads, writes, fails, closes, callbacks, run_op, said, MayCome, Reach,
}
use htcp_multithread.TcpConnection.Runs.Invariant.{Reach-progress}

-- The input buffer can take what one `readv` delivers.
abbrev pub IsRoomy : TcpConnection → Type 0
IsRoomy s =
    length s.input_buffer.buffer + length s.input_buffer.buffer + Buffer.extrabuf_size
    ≤ Buffer.max_size

abbrev pub IsAny : TcpConnection → Type 0
IsAny s = Unit

module _ (c h : Bool) (address sockfd : ℕ) (all : List ℕ) where
  -- A call that leaves the connection in a run, where `P` holds of it.
  abbrev pub Advances : (TcpConnection → Type 0) → TcpConnection → Option TcpConnection → Type 0
  Advances P s o =
      (t : TcpConnection) × (o ≡ some t)
      × Reach (callbacks c h) address sockfd t all
      × IsLonger s.effects t.effects
      × P t

  pub by_op :
      (P : TcpConnection → Type 0) {s : TcpConnection} (op : Op)
      → Reach (callbacks c h) address sockfd s all
      → MayCome op s
      → said op s ≡ []
      → ((t : TcpConnection) → run_op (callbacks c h) op s ≡ some t → P t)
      → Advances P s (run_op (callbacks c h) op s)
  by_op P {s} op run may silent keeps =
      let (t, did, goes) = Reach-progress c h address sockfd run op may in
      (
        t,
        did,
        subst (Reach (callbacks c h) address sockfd t)
            (ap (λ ys. all ++ ys) silent ∙ append-nil all) goes,
        subst (Grows s.effects) did (run_op-Grows c h op s),
        keeps t did,
      )

  -- A call that is made if `b` says so, and one after another.
  Advances-if :
      (P : TcpConnection → Type 0) {s : TcpConnection} (b : Bool) (m : Option TcpConnection)
      → Reach (callbacks c h) address sockfd s all
      → P s
      → Advances P s m
      → Advances P s (if b then m else some s)
  Advances-if P true m run p v = v
  Advances-if P {s} false m run p v = (s, refl, run, same, p)

  Advances-bind :
      (P Q : TcpConnection → Type 0) (s : TcpConnection) (m : Option TcpConnection)
      (f : TcpConnection → Option TcpConnection)
      → Advances P s m
      → ((t : TcpConnection)
          → Reach (callbacks c h) address sockfd t all
          → P t
          → Advances Q t (f t))
      → Advances Q s (m >>= f)
  Advances-bind P Q s m f (t, did, run, longer, p) g =
      let (u, done, run', longer', q) = g t run p in
      (u, ap (λ o. o >>= f) did ∙ done, run', IsLonger-trans longer longer', q)

  keeps_room_close :
      (s : TcpConnection)
      → IsRoomy s
      → (t : TcpConnection) → handle_close (callbacks c h) s ≡ some t
      → IsRoomy t
  unfolding handle_close Channel.disable_all
  keeps_room_close s roomy t e = ground (arith, roomy, e)

  keeps_room_error :
      (so_error : SockoptResult) (s : TcpConnection)
      → IsRoomy s
      → (t : TcpConnection) → some (handle_error so_error s) ≡ some t
      → IsRoomy t
  unfolding handle_error
  keeps_room_error (optval err) s roomy t e = ground (arith, roomy, e)
  keeps_room_error (sockopt_failed err) s roomy t e = ground (arith, roomy, e)

  module _ {readv : List ℕ → ReadResult} {write : List ℕ → WriteResult} (so_error : SockoptResult)
      (within : ReadsWithin readv) (takes : WritesWithin write) where
    abbrev handlers : Callbacks TcpConnection
    handlers = channel_callbacks (callbacks c h) readv write so_error

    -- One wanted callback and those after it.
    in_order :
        (P Q : TcpConnection → Type 0) (revents time : ℕ) (x : Kind) (xs : List Kind)
        (s : TcpConnection)
        → Reach (callbacks c h) address sockfd s all
        → P s
        → Advances P s (call handlers time x s)
        → ((t : TcpConnection)
            → Reach (callbacks c h) address sockfd t all
            → P t
            → Advances Q t (call_wanted handlers revents time xs t))
        → Advances Q s (call_wanted handlers revents time (x ∷ xs) s)
    in_order P Q revents time x xs s run p once rest =
        Advances-bind P Q s (if wanted revents x then call handlers time x s else some s)
          (call_wanted handlers revents time xs)
          (Advances-if P (wanted revents x) (call handlers time x s) run p once) rest

    wanted-Advances :
        (s : TcpConnection) (revents time : ℕ)
        → Reach (callbacks c h) address sockfd s all
        → IsRoomy s
        → Advances IsAny s (call_wanted handlers revents time dispatch_order s)
    unfolding channel_callbacks Channel.set_read_callback Channel.set_write_callback
        Channel.set_close_callback Channel.set_error_callback
    wanted-Advances s revents time run roomy =
        in_order IsRoomy IsAny revents time closing (failing ∷ reading ∷ writing ∷ []) s run roomy
          (by_op IsRoomy closes run tt refl (keeps_room_close s roomy))
          (λ s₁ run₁ roomy₁.
            in_order IsRoomy IsAny revents time failing (reading ∷ writing ∷ []) s₁ run₁ roomy₁
              (by_op IsRoomy (fails so_error) run₁ tt refl (keeps_room_error so_error s₁ roomy₁))
              (λ s₂ run₂ roomy₂.
                in_order IsAny IsAny revents time reading (writing ∷ []) s₂ run₂ tt
                  (by_op IsAny (reads readv so_error time) run₂ (within, roomy₂) refl (λ t e. tt))
                  (λ s₃ run₃ any.
                    in_order IsAny IsAny revents time writing [] s₃ run₃ tt
                      (by_op IsAny (writes write) run₃ takes refl (λ t e. tt))
                      (λ s₄ run₄ any'. (s₄, refl, run₄, same, tt)))))

    -- Whatever events came for a connection, and whether or not its owner is still alive, its channel's
    -- `handleEvent` returns, and leaves the connection in a run.
    pub handle_event-Advances :
        (alive : ℕ → Bool) (channel : Channel) (s : TcpConnection) (time : ℕ)
        → Reach (callbacks c h) address sockfd s all
        → IsRoomy s
        → Advances IsAny s (handle_event alive handlers channel time s)
    unfolding handle_event
    handle_event-Advances alive channel s time run roomy =
        let guarded =
          subst (Advances IsAny s)
            (sym (handle_event_with_guard_lem handlers time channel.revents s))
            (wanted-Advances s channel.revents time run roomy) in
        elim (Bool-cases channel.tied) [
          | inl on ↦ tied_to guarded on channel.tie refl
          | inr off ↦ rw (off, handle_event) guarded
        ]
      where
        tied_to :
            Advances IsAny s (handle_event_with_guard handlers channel.revents time s)
            → channel.tied ≡ true
            → (tie : Option ℕ) → channel.tie ≡ tie
            → Advances IsAny s (handle_event alive handlers channel time s)
        tied_to guarded on none e = rw (on, e, handle_event) (s, refl, run, same, tt)
        tied_to guarded on (some object) e =
            rw (on, e, handle_event) (Advances-if IsAny (alive object) _ run tt guarded)
