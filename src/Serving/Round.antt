-- ===== src/Serving/Round.antt =====
-- One round of a loop with any number of connections.
use htcp_multithread.Prelude.{
  ℕ, ◌≡◌, ◌≢◌, refl, ap, ap₂, sym, subst, ◌∙◌, Bool, true, false, Option, some, ◌>>=◌, List, [],
  ◌∷◌, map, inl, inr,
}
use htcp_multithread.Syscall.{ReadsWithin, WritesWithin}
use htcp_multithread.Channel.{Channel}
use htcp_multithread.TcpConnection.Registered.Touching.{HasStatus}
use htcp_multithread.Epoll.{Epoll, EpollEvent, All, ready}
use htcp_multithread.Poller.{World, poll}
use htcp_multithread.Poller.Poll.{poll_keeps, active_reported}
use htcp_multithread.TcpConnection.{TcpConnection}
use htcp_multithread.TcpConnection.Runs.{callbacks}
use htcp_multithread.TcpConnection.Runs.Dispatch.{IsRoomy, handle_event-Advances}
use htcp_multithread.Serving.{Serving, Answers, handle_active, handle_all, serve_round}
use htcp_multithread.Serving.Joined.{IsServing, IsJoined-kept, Carries, act_lem}

-- The system calls keep to what they were asked for.
abbrev pub AreWithin : (ℕ → Answers) → Type 0
AreWithin answers = (a : ℕ) → ReadsWithin (answers a).readv × WritesWithin (answers a).write

-- Nothing stands in the list twice.
abbrev pub IsUnique : List ℕ → Type 0
IsUnique [] = Unit
IsUnique (x ∷ xs) = All (λ y. y ≢ x) xs × IsUnique xs

All-each : {P Q : ℕ → Type 0} (xs : List ℕ) → ((x : ℕ) → P x → Q x) → All P xs → All Q xs
All-each [] f h = tt
All-each (x ∷ xs) f (p, ps) = (f x p, All-each xs f ps)

All-both :
    {P Q R : ℕ → Type 0} (xs : List ℕ)
    → ((x : ℕ) → P x → Q x → R x)
    → All P xs
    → All Q xs
    → All R xs
All-both [] f h g = tt
All-both (x ∷ xs) f (p, ps) (q, qs) = (f x p q, All-both xs f ps qs)

All-always : {P : ℕ → Type 0} (xs : List ℕ) → ((x : ℕ) → P x) → All P xs
All-always [] f = tt
All-always (x ∷ xs) f = (f x, All-always xs f)

HasStatus-revents :
    (b : Bool) (c : Channel) (revents : ℕ)
    → HasStatus b c
    → HasStatus b (record c { revents = revents })
HasStatus-revents true c revents was = was
HasStatus-revents false c revents was = was

module _ (ep : Epoll) where
  -- The kernel reports each channel once.
  abbrev pub ReportsOnce : World ep → Type 0
  ReportsOnce w =
      (es : List EpollEvent)
      → ep.wait w.poller.event_list_size w.poller.kernel ≡ ready es
      → IsUnique (map (λ e. e.ptr) es)

  -- The connection at `a`, if there is one, has room for what it is sent in a round.
  abbrev pub HasRoom : Serving ep → ℕ → Type 0
  HasRoom s a = (conn : TcpConnection) → s.conns a ≡ some conn → IsRoomy conn

  -- The connections once `poll` is back: only the `revents_` of channels have changed.
  abbrev pub polled : Serving ep → Serving ep
  polled s = record { world = (poll ep s.world []).0; conns = s.conns }

  module _ (c h : Bool) (alive : ℕ → Bool) (answers : ℕ → Answers) (time : ℕ)
      (within : AreWithin answers) where
    -- What becomes of the connection at `a` when its channel is active.
    abbrev pub handled : Serving ep → ℕ → Option TcpConnection
    handled s a =
        s.conns a
        >>= handle_active ep alive (callbacks c h) answers time a (s.world.chans a).revents

    one-Carries :
        {s : Serving ep}
        → IsServing ep c h s
        → (a : ℕ) → HasRoom s a
        → (conn : TcpConnection) → s.conns a ≡ some conn
        → Carries ep c h a
            (s.world.chans a).fd
            conn
            (handle_active ep alive (callbacks c h) answers time a (s.world.chans a).revents conn)
    one-Carries {s} v a room conn e =
        let j = v.joined a conn e in
        let (t, did, run, longer, any) =
          handle_event-Advances c h a (s.world.chans a).fd j.all (answers a).so_error (within a).0
            (within a).1 alive _ conn time j.run (room conn e) in
        record { after = t; result = did; all = j.all; run = run; longer = longer }

    -- What the loop over the active channels leaves.
    pub record IsHandled (s s' : Serving ep) (active : List ℕ) : Type 0 where
      pub serving : IsServing ep c h s'
      pub active_handled : All (λ a. s'.conns a ≡ handled s a) active
      pub others : (b : ℕ) → All (λ a. b ≢ a) active → s'.conns b ≡ s.conns b

    handle_all_lem :
        (active : List ℕ) {s : Serving ep}
        → IsServing ep c h s
        → IsUnique active
        → All (HasRoom s) active
        → (s' : Serving ep) × (handle_all ep alive (callbacks c h) answers time active s ≡ some s')
          × IsHandled s s' active
    unfolding handle_all
    handle_all_lem [] {s} v u rooms =
        (s, refl, record { serving = v; active_handled = tt; others = λ b h. refl })
    handle_all_lem (a ∷ active) {s} v (apart, u) (room, rooms) =
        let (s₁, did, x) = act_lem ep c h v a _ (one-Carries v a room) in
        let (s₂, done, y) =
          handle_all_lem active x.serving u
            (All-both active (λ b ne r conn e. r conn (sym (x.others b ne) ∙ e)) apart rooms) in
        (
          s₂,
          ap (λ o. o >>= handle_all ep alive (callbacks c h) answers time active) did ∙ done,
          record {
            serving = y.serving;
            active_handled = (
              y.others a (All-each active (λ b ne e. ne (sym e)) apart) ∙ x.own,
              All-both active
                  (λ b ne e.
                    e
                    ∙ ap₂ (λ o r. o >>= handle_active ep alive (callbacks c h) answers time b r)
                        (x.others b ne) (x.same_revents b))
                  apart y.active_handled,
            );
            others = λ b (ne, nes). y.others b nes ∙ x.others b ne;
          },
        )

    IsUnique-poll : (w : World ep) → ReportsOnce w → IsUnique (poll ep w []).1
    IsUnique-poll w once = elim (active_reported ep w) [
      | inl e ↦ subst IsUnique (sym e) tt
      | inr (es, reported, e) ↦ subst IsUnique (sym e) (once es reported)
    ]

    polled-IsServing : {s : Serving ep} → IsServing ep c h s → IsServing ep c h (polled s)
    polled-IsServing {s} v =
        let (v', same) = poll_keeps ep v.synced in
        record {
          synced = v';
          distinct =
              λ a b e. v.distinct a b (sym (ap (λ x. x.fd) (same a)) ∙ e ∙ ap (λ x. x.fd) (same b));
          joined = λ a conn e.
              IsJoined-kept ep c h (ap (λ x. x.fd) (same a)) (ap (λ x. x.events) (same a))
                (λ b was.
                  subst (HasStatus b) (sym (same a)) (HasStatus-revents b (s.world.chans a) _ was))
                (v.joined a conn e);
        }

    -- A round of a loop that serves any number of connections returns, whatever events the kernel reports
    -- and whatever the system calls of the handlers return within their contracts, when the program's
    -- callbacks return and do nothing: what a program calls from one, as a `send` whose first write
    -- may fail, is not part of the round. The connection of each active channel is handled once, by
    -- its own handlers and with the events reported for it, no other connection changes, and
    -- afterwards every connection is in a run again and the poller has its channel as the connection
    -- left it. No channel is reported twice, and each input buffer has room for one more read. The
    -- connections may be waiting for room to write.
    pub serve_round_lem :
        {s : Serving ep}
        → IsServing ep c h s
        → ReportsOnce s.world
        → ((a : ℕ) → HasRoom s a)
        → (s' : Serving ep) × (serve_round ep alive (callbacks c h) answers time s ≡ some s')
          × IsServing ep c h s'
          × All (λ a. s'.conns a ≡ handled (polled s) a) (poll ep s.world []).1
          × ((b : ℕ) → All (λ a. b ≢ a) (poll ep s.world []).1 → s'.conns b ≡ s.conns b)
    unfolding serve_round
    serve_round_lem {s} v once rooms =
        let active = (poll ep s.world []).1 in
        let (s', did, x) =
          handle_all_lem active (polled-IsServing v) (IsUnique-poll s.world once)
            (All-always active rooms) in
        (s', did, x.serving, x.active_handled, x.others)
