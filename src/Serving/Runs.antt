-- ===== src/Serving/Runs.antt =====
-- A loop with connections that come, are served, and go.
use htcp_multithread.Prelude.{
  ℕ, ◌≡◌, ◌≢◌, refl, ap, sym, subst, ◌∙◌, Bool, true, false, Option, none, some, [], ◌++◌, ◌==◌,
  arith, ℕ_discrete,
}
use htcp_multithread.Channel
use htcp_multithread.Channel.{new}
use htcp_multithread.Epoll.{Epoll}
use htcp_multithread.Poller.{World, update_map}
use htcp_multithread.Poller.Synced.{IsSynced}
use htcp_multithread.TcpConnection
use htcp_multithread.TcpConnection.{TcpConnection}
use htcp_multithread.TcpConnection.Sound.{IsSound}
use htcp_multithread.TcpConnection.Growing.{Grows, run_op-Grows}
use htcp_multithread.TcpConnection.Runs
use htcp_multithread.TcpConnection.Runs.{Op, callbacks, run_op, said, MayCome}
use htcp_multithread.TcpConnection.Runs.Invariant.{Reach-IsFine, Reach-progress}
use htcp_multithread.TcpConnection.Registered.{registered}
use htcp_multithread.TcpConnection.Registered.Replay.{AreDistinct}
use htcp_multithread.TcpConnection.Registered.Lifetime.{Lists, lists}
use htcp_multithread.Serving.{Serving, Answers, act, serve_round}
use htcp_multithread.Serving.Joined.{IsServing, IsJoined, Carries, act_lem}
use htcp_multithread.Serving.Round.{AreWithin, ReportsOnce, HasRoom, serve_round_lem}

-- The state with another connection, or none, at an address.
abbrev pub placed : {ep : Epoll} → ℕ → Option TcpConnection → Serving ep → Serving ep
placed a o s = record { world = s.world; conns = update_map a o s.conns }

one_result {ℓ} : {A : Type ℓ} {o : Option A} {a b : A} → o ≡ some a → o ≡ some b → a ≡ b
one_result e f = cc (sym e ∙ f)

pub none_not_some {ℓ} : {A : Type ℓ} {a : A} → none ≡ some a → ⊥
none_not_some e = cc e

pub injective {ℓ} : {A : Type ℓ} {a b : A} → some a ≡ some b → a ≡ b
injective e = cc e

module _ (ep : Epoll) (c h : Bool) where
  -- What a loop does: a round; a functor that has one connection do something; a new connection, whose
  -- channel is as its constructor leaves it; and the end of a connection that the poller does not have.
  pub data Step (s : Serving ep) : Serving ep → Type 0 where
    rounds :
        {t : Serving ep} (alive : ℕ → Bool) (answers : ℕ → Answers) (time : ℕ)
        → AreWithin answers
        → ReportsOnce ep s.world
        → ((a : ℕ) → HasRoom ep s a)
        → serve_round ep alive (callbacks c h) answers time s ≡ some t
        → Step s t
    acts :
        {t : Serving ep} (a : ℕ) (op : Op)
        → ((conn : TcpConnection) → s.conns a ≡ some conn → MayCome op conn)
        → act ep a (run_op (callbacks c h) op) s ≡ some t
        → Step s t
    comes :
        (a : ℕ)
        → s.conns a ≡ none
        → (s.world.chans a).index ≡ new
        → (s.world.chans a).events ≡ 0
        → Step s (placed a (some (TcpConnection.init a (s.world.chans a).fd)) s)
    goes :
        (a : ℕ) (conn : TcpConnection)
        → s.conns a ≡ some conn
        → registered false conn.effects ≡ false
        → Step s (placed a none s)

  pub data Reach (s : Serving ep) : Serving ep → Type 0 where
    begun : Reach s s
    later : {t u : Serving ep} → Reach s t → Step t u → Reach s u

  op-Carries :
      {s : Serving ep}
      → IsServing ep c h s
      → (a : ℕ) (op : Op) → ((conn : TcpConnection) → s.conns a ≡ some conn → MayCome op conn)
      → (conn : TcpConnection) → s.conns a ≡ some conn
      → Carries ep c h a (s.world.chans a).fd conn (run_op (callbacks c h) op conn)
  op-Carries {s} v a op may conn e =
      let j = v.joined a conn e in
      let (t, did, run) = Reach-progress c h a (s.world.chans a).fd j.run op (may conn e) in
      record {
        after = t;
        result = did;
        all = j.all ++ said op conn;
        run = run;
        longer = subst (Grows conn.effects) did (run_op-Grows c h op conn);
      }

  placed-IsServing :
      {s : Serving ep} (a : ℕ) (o : Option TcpConnection)
      → IsServing ep c h s
      → ((conn : TcpConnection) → o ≡ some conn → IsJoined ep c h s.world a conn)
      → IsServing ep c h (placed a o s)
  placed-IsServing {s} a o v fits = record {
    synced = v.synced;
    distinct = v.distinct;
    joined = λ b conn e. elim (ℕ_discrete b a) [
      | yes same ↦
          subst (λ x. IsJoined ep c h s.world x conn) (sym same)
            (fits conn (sym here ∙ ap (update_map a o s.conns) (sym same) ∙ e))
      | no ne ↦ v.joined b conn (other b ne ∙ e)
    ];
  }
    where
      here : update_map a o s.conns a ≡ o
      here = let same : (a == a) ≡ true = ground arith in rw same refl

      other : (b : ℕ) → b ≢ a → s.conns b ≡ update_map a o s.conns b
      other b ne = let apart : (a == b) ≡ false = ground (arith, ne) in rw apart refl

  new-IsJoined :
      {w : World ep} (a : ℕ)
      → (w.chans a).index ≡ new
      → (w.chans a).events ≡ 0
      → IsJoined ep c h w a (TcpConnection.init a (w.chans a).fd)
  unfolding TcpConnection.init Channel.init
  new-IsJoined a is_new is_idle = record {
    all = [];
    run = Runs.begun;
    agree = is_idle;
    status = is_new;
  }

  Step-IsServing : {s t : Serving ep} → IsServing ep c h s → Step s t → IsServing ep c h t
  Step-IsServing {s} v (rounds alive answers time within once rooms did) =
      let (t', did', v', handled, others) =
        serve_round_lem ep c h alive answers time within v once rooms in
      subst (IsServing ep c h) (one_result did' did) v'
  Step-IsServing {s} v (acts a op may did) =
      let (t', did', x) = act_lem ep c h v a (run_op (callbacks c h) op) (op-Carries v a op may) in
      subst (IsServing ep c h) (one_result did' did) x.serving
  Step-IsServing {s} v (comes a none_yet is_new is_idle) =
      placed-IsServing a (some (TcpConnection.init a (s.world.chans a).fd)) v
        (λ conn e. subst (IsJoined ep c h s.world a) (injective e) (new-IsJoined a is_new is_idle))
  Step-IsServing {s} v (goes a conn e gone) = placed-IsServing a none v (λ conn' e'. absurd (cc e'))

  pub empty-IsServing :
      {s : Serving ep}
      → IsSynced ep s.world
      → AreDistinct ep s.world
      → ((a : ℕ) → s.conns a ≡ none)
      → IsServing ep c h s
  empty-IsServing synced distinct empty = record {
    synced = synced;
    distinct = distinct;
    joined = λ b conn e. absurd (none_not_some (sym (empty b) ∙ e));
  }

  pub Reach-IsServing : {s t : Serving ep} → IsServing ep c h s → Reach s t → IsServing ep c h t
  Reach-IsServing v begun = v
  Reach-IsServing v (later r step) = Step-IsServing (Reach-IsServing v r) step

  -- In every run of a loop that begins with no connection, with rounds, functors, new connections and ended
  -- ones in any order, each connection is sound, and the poller and the kernel are in step with it:
  -- the poller's channel waits for exactly the events of the connection's channel, the kernel waits
  -- for them on its descriptor if they are any and the poller has the channel, and has nothing under
  -- the descriptor if the poller does not have it. The loop begins with table, channels and kernel in
  -- step and no descriptor in two channels. In a run the program's callbacks do nothing, each input
  -- buffer has room for a read, no channel is reported twice in a round, and a functor has a
  -- connection only do what may come: a `send` whose first write does not fail, though it may take a
  -- part, and whose data the output buffer can take, and reads and writes within their contracts.
  pub Reach-shows :
      {s t : Serving ep}
      → IsSynced ep s.world
      → AreDistinct ep s.world
      → ((a : ℕ) → s.conns a ≡ none)
      → Reach s t
      → (a : ℕ) (conn : TcpConnection) → t.conns a ≡ some conn
      → IsSynced ep t.world
        × ((t.world.chans a).events ≡ conn.channel.events)
        × Lists ep t.world
            (registered false conn.effects)
            a
            (t.world.chans a).fd
            conn.channel.events
        × (r : Bool) × (w : Bool) × IsSound r w conn
  Reach-shows synced distinct empty run a conn e =
      let v = Reach-IsServing (empty-IsServing synced distinct empty) run in
      let j = v.joined a conn e in
      let (w, fine) = Reach-IsFine c h a _ j.run in
      (
        v.synced,
        j.agree,
        lists ep (registered false conn.effects) v.synced v.distinct refl j.agree j.status,
        fine.r,
        w,
        fine.sound,
      )
