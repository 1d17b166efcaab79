-- ===== src/TcpConnection/Ending/Dispatched.antt =====
-- How a connection that is up leaves the `handleEvent` of its channel.
use htcp_multithread.Prelude.{
  ℕ, ◌≡◌, refl, ap, sym, subst, ◌∙◌, Bool, true, false, Option, none, some, ◌>>=◌, List, [], ◌∷◌,
  if◌then◌else◌, ◌&&◌, Bool-cases, inl, inr,
}
use htcp_multithread.Syscall.{ReadResult, WriteResult, SockoptResult, optval, sockopt_failed}
use htcp_multithread.Channel
use htcp_multithread.Channel.{Channel, Callbacks, handle_event, handle_event_with_guard}
use htcp_multithread.Channel.Dispatch.{
  closing, failing, reading, writing, wanted, call_wanted, dispatch_order,
  handle_event_with_guard_lem,
}
use htcp_multithread.TcpConnection.{
  TcpConnection, ConnectionCallbacks, channel_callbacks, handle_error, handle_write, error_logged,
}
use htcp_multithread.TcpConnection.Runs.{callbacks}
use htcp_multithread.TcpConnection.Ending.{
  Stays, Closes, Ends, Whenever, plain_next, handle_error-Stays, handle_read-Ends,
  handle_write-Stays, handle_close-Closes, Whenever-Stays, Whenever-Closes,
}

-- The kernel does not report urgent data together with a hang-up and without other input.
abbrev pub IsOrderly : ℕ → Type 0
IsOrderly revents = (wanted revents closing && wanted revents reading) ≡ false

Whenever-bind :
    (P Q : TcpConnection → Type 0) (m : Option TcpConnection)
    (f : TcpConnection → Option TcpConnection)
    → Whenever P m
    → ((t : TcpConnection) → P t → Whenever Q (f t))
    → Whenever Q (m >>= f)
Whenever-bind P Q none f v g = tt
Whenever-bind P Q (some t) f v g = g t v

Whenever-when :
    (P : TcpConnection → Type 0) (b : Bool) (m : Option TcpConnection) (t : TcpConnection)
    → P t
    → Whenever P m
    → Whenever P (if b then m else some t)
Whenever-when P true m t p v = v
Whenever-when P false m t p v = p

handle_error-Closes :
    (n m : ℕ) (so_error : SockoptResult) (t : TcpConnection)
    → Closes n m t
    → Closes n m (handle_error so_error t)
unfolding handle_error
handle_error-Closes n m (optval err) t (down, idle, v) =
    (down, idle, plain_next _ (error_logged err) (refl, refl) v)
handle_error-Closes n m (sockopt_failed err) t (down, idle, v) =
    (down, idle, plain_next _ (error_logged err) (refl, refl) v)

module _ (c h : Bool) (readv : List ℕ → ReadResult) (write : List ℕ → WriteResult)
    (so_error : SockoptResult) (time n m : ℕ) where
  abbrev k : ConnectionCallbacks
  k = callbacks c h

  abbrev handlers : Callbacks TcpConnection
  handlers = channel_callbacks k readv write so_error

  handle_write_closed :
      (t : TcpConnection) → Closes n m t → Whenever (Closes n m) (handle_write k write t)
  unfolding handle_write
  handle_write_closed t v = rw (v.1) v

  -- The last callbacks.
  writing-Ends :
      (revents : ℕ) (t : TcpConnection)
      → Ends n m t
      → Whenever (Ends n m) (call_wanted handlers revents time (writing ∷ []) t)
  unfolding channel_callbacks Channel.set_read_callback Channel.set_write_callback
      Channel.set_close_callback Channel.set_error_callback
  writing-Ends revents t v =
      Whenever-bind (Ends n m) (Ends n m) _ some
        (Whenever-when (Ends n m) (wanted revents writing) _ t v (each v)) (λ u w. w)
    where
      each : Ends n m t → Whenever (Ends n m) (handle_write k write t)
      each (inl stays) =
          Whenever-Stays n m (handle_write k write t) (handle_write-Stays c h write t stays)
      each (inr down) = Whenever-Closes n m (handle_write k write t) (handle_write_closed t down)

  closed-Ends :
      (revents : ℕ) (t : TcpConnection)
      → wanted revents reading ≡ false
      → Closes n m t
      → Whenever (Ends n m) (call_wanted handlers revents time (failing ∷ reading ∷ writing ∷ []) t)
  unfolding channel_callbacks Channel.set_read_callback Channel.set_write_callback
      Channel.set_close_callback Channel.set_error_callback
  closed-Ends revents t unread v =
      Whenever-bind (Closes n m) (Ends n m) _ _
        (Whenever-when (Closes n m) (wanted revents failing) _ t v
          (handle_error-Closes n m so_error t v))
        (λ u w. rw unread (writing-Ends revents u (inr w)))

  open-Ends :
      (revents : ℕ) (t : TcpConnection)
      → Stays n m t
      → Whenever (Ends n m) (call_wanted handlers revents time (failing ∷ reading ∷ writing ∷ []) t)
  unfolding channel_callbacks Channel.set_read_callback Channel.set_write_callback
      Channel.set_close_callback Channel.set_error_callback
  open-Ends revents t v =
      Whenever-bind (Stays n m) (Ends n m) _ _
        (Whenever-when (Stays n m) (wanted revents failing) _ t v (handle_error-Stays so_error t v))
        (λ u w.
          Whenever-bind (Ends n m) (Ends n m) _ _
            (Whenever-when (Ends n m) (wanted revents reading) _ u (inl w)
              (handle_read-Ends c h readv so_error time u w))
            (λ x y. writing-Ends revents x y))

  wanted-Ends :
      (revents : ℕ) (t : TcpConnection)
      → IsOrderly revents
      → Stays n m t
      → Whenever (Ends n m) (call_wanted handlers revents time dispatch_order t)
  unfolding channel_callbacks Channel.set_read_callback Channel.set_write_callback
      Channel.set_close_callback Channel.set_error_callback
  wanted-Ends revents t orderly v = elim (Bool-cases (wanted revents closing)) [
    | inl on ↦ rw on (
        Whenever-bind (Closes n m) (Ends n m) _ _ (handle_close-Closes c h t v.1) (λ u w.
          closed-Ends revents u (ap (λ b. b && wanted revents reading) (sym on) ∙ orderly) w))
    | inr off ↦ rw off (open-Ends revents t v)
  ]

  -- Whatever orderly events came for a connection that is up, all the callbacks that `handleEvent` calls for
  -- them leave it up, or closed with just one call of the close callback.
  pub handle_event-Ends :
      (alive : ℕ → Bool) (channel : Channel) (t : TcpConnection)
      → IsOrderly channel.revents
      → Stays n m t
      → Whenever (Ends n m) (handle_event alive handlers channel time t)
  unfolding handle_event
  handle_event-Ends alive channel t orderly v =
      let guarded =
        subst (Whenever (Ends n m))
          (sym (handle_event_with_guard_lem handlers time channel.revents t))
          (wanted-Ends channel.revents t orderly v) in
      elim (Bool-cases channel.tied) [
        | inl on ↦ tied_to guarded on channel.tie refl
        | inr off ↦ rw (off, handle_event) guarded
      ]
    where
      tied_to :
          Whenever (Ends n m) (handle_event_with_guard handlers channel.revents time t)
          → channel.tied ≡ true
          → (tie : Option ℕ) → channel.tie ≡ tie
          → Whenever (Ends n m) (handle_event alive handlers channel time t)
      tied_to guarded on none e = rw (on, e, handle_event) (inl v)
      tied_to guarded on (some object) e =
          rw (on, e, handle_event) (Whenever-when (Ends n m) (alive object) _ t (inl v) guarded)
