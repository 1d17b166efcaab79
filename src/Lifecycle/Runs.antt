-- ===== src/Lifecycle/Runs.antt =====
-- Runs of a server with its connections and its loops.
use htcp_multithread.Prelude.{
  ◌+◌, ℕ, zero, suc, ◌≤◌, ◌<◌, ◌≡◌, refl, ap, sym, subst, ◌∙◌, Bool, none, some, List, [], ◌∷◌,
  length, inl, inr, arith, ◌⊎◌,
}
use htcp_multithread.TcpServer
use htcp_multithread.TcpServer.{
  TcpServer, Task, listen, connect_established, connect_destroyed, remove_connection_in_loop_of,
  run_in_loop, int_max,
}
use htcp_multithread.TcpServer.Names.{max_ip_port}
use htcp_multithread.TcpConnection.{disconnected}
use htcp_multithread.TcpConnection.Ending.{IsUp, IsTallied}
use htcp_multithread.Lifecycle.{
  Object, System, collect, Step, connects, serves, calls, Reach, begun, later, Called, no_more,
  called,
}
use htcp_multithread.Lifecycle.Counts.{establishes, removes, destroys, count, held, weight}
use htcp_multithread.Lifecycle.Phases.{
  IsWhole, Phase, unborn, arriving, up, closing, leaving, gone, Keeps, IsOf,
}
use htcp_multithread.Lifecycle.Accepting.{accept-IsWhole}
use htcp_multithread.Lifecycle.Calling.Destroying.{run_task-Goes}
use htcp_multithread.Lifecycle.Acting.{serve-IsWhole}

-- A server that was started and has no connections yet.
pub record IsStarted (server : TcpServer) : Type 0 where
  pub empty : server.connections ≡ []
  pub listens : server.effects ≡ run_in_loop server.loop listen ∷ []
  pub short : length server.ip_port ≤ max_ip_port
  pub counted : server.next_conn_id ≤ int_max

-- As `start` leaves a new server.
pub start-IsStarted :
    (start_loop : List ℕ → ℕ) (loop : ℕ) (ip_port name : List ℕ)
    → length ip_port ≤ max_ip_port
    → IsStarted (TcpServer.start start_loop (TcpServer.init loop ip_port name))
unfolding TcpServer.start TcpServer.init
start-IsStarted start_loop loop ip_port name short = record {
  empty = refl;
  listens = refl;
  short = short;
  counted = omega arith;
}

module _ (c h : Bool) where
  begun-IsWhole :
      (server : TcpServer)
      → IsStarted server
      → IsWhole (collect (record { server = server; objects = λ name. none; pending = [] }))
  unfolding collect
  begun-IsWhole server v = record {
    phases = λ n. unborn refl (rw (v.listens, v.empty) (refl, refl, refl, refl));
    issued = λ n o e. absurd (cc e);
    collected = refl;
    short = v.short;
    counted = v.counted;
  }

  Step-IsWhole : {s t : System} → IsWhole s → Step c h s t → IsWhole t
  Step-IsWhole v (connects getsockname sockfd peer_addr self did) =
      accept-IsWhole getsockname sockfd peer_addr self v did
  Step-IsWhole v (serves name o act e is_up served did) =
      serve-IsWhole v name o e is_up c h act served did
  Step-IsWhole v (calls xs l task ys first did) =
      let (u, did', whole, _, _) = run_task-Goes c h v xs l ys task first in
      subst IsWhole (cc (sym did' ∙ did)) whole

  pub Reach-IsWhole :
      {server : TcpServer} {s : System} → IsStarted server → Reach c h server s → IsWhole s
  Reach-IsWhole {server} v begun = begun-IsWhole server v
  Reach-IsWhole v (later run step) = Step-IsWhole (Reach-IsWhole v run) step

  -- In every run of a started server, in which connections come in, those that are up are served, and the
  -- loops call the functors of their queues in any order, every name is in one of six phases.
  -- Either it has no connection; or its connection is in the table and still to be established, by
  -- one functor; or it is in the table and up, and no functor waits for it; or it is closed and in
  -- the table, and one functor will take it out; or it is closed and out of the table, and one functor
  -- will destroy it; or it is closed and destroyed, and no functor waits for it. The close callback
  -- was called just once when it is closed, and its channel is removed just once when it is destroyed.
  -- To serve a connection is to have its channel handle events, with all the callbacks that they call,
  -- or a call of the program in the connection's loop. The kernel does not report a hang-up with
  -- urgent data and without other input, the program's callbacks do nothing, and the server is not
  -- destroyed.
  pub Reach-Phase :
      {server : TcpServer} {s : System}
      → IsStarted server
      → Reach c h server s
      → (n : List ℕ) → Phase s n
  Reach-Phase v run = (Reach-IsWhole v run).phases

  -- When no functors wait.
  abbrev pub IsSettled : System → List ℕ → Object → Type 0
  IsSettled s n o =
      (IsUp o.body.state × (held n s.server.connections ≡ 1) × IsTallied 0 0 o.body.effects)
      ⊎ ((o.body.state ≡ disconnected)
          × (held n s.server.connections ≡ 0)
          × IsTallied 1 1 o.body.effects)

  settled :
      {s : System} (n : List ℕ) (o : Object)
      → s.pending ≡ []
      → s.objects n ≡ some o
      → Phase s n
      → IsSettled s n o
  settled {s} n o none_wait e (unborn a k) = absurd (cc (sym a ∙ e))
  settled {s} n o none_wait e (up o' (a, b, st, tl) (k₁, k₂, k₃, k₄)) =
      let same : o' ≡ o = cc (sym a ∙ e) in
      inl (
        subst
          (λ p.
            IsUp p.body.state × (held n s.server.connections ≡ 1) × IsTallied 0 0 p.body.effects)
          same (st, k₄, tl))
  settled {s} n o none_wait e (gone o' (a, b, st, tl) (k₁, k₂, k₃, k₄)) =
      let same : o' ≡ o = cc (sym a ∙ e) in
      inr (
        subst
          (λ p.
            (p.body.state ≡ disconnected)
            × (held n s.server.connections ≡ 0)
            × IsTallied 1 1 p.body.effects)
          same (st, k₄, tl))
  settled {s} n o none_wait e (arriving o' a (k₁, k₂, k₃, k₄)) =
      absurd (omega (arith, k₁, ap (count (establishes n)) none_wait))
  settled {s} n o none_wait e (closing o' a (k₁, k₂, k₃, k₄)) =
      absurd (omega (arith, k₂, ap (count (removes n)) none_wait))
  settled {s} n o none_wait e (leaving o' a (k₁, k₂, k₃, k₄)) =
      absurd (omega (arith, k₃, ap (count (destroys n)) none_wait))

  -- A functor has at least its own call to come.
  some_weight : (l : ℕ) (task : Task) (es : List (ℕ × Task)) → 0 < weight ((l, task) ∷ es)
  some_weight l listen es = omega arith
  some_weight l (connect_established conn) es = omega arith
  some_weight l (connect_destroyed conn) es = omega arith
  some_weight l (remove_connection_in_loop_of conn) es = omega arith

  Keeps-trans : (s t u : System) → Keeps s t → Keeps t u → Keeps s u
  Keeps-trans s t u k k' n o e =
      let (p, e', (facts, down)) = k n o e in
      let (q, e'', (facts', down')) = k' n p e' in (q, e'', (facts' ∙ facts, down' ∙ down))

  call_all :
      (fuel : ℕ) (s : System)
      → IsWhole s
      → weight s.pending ≤ fuel
      → (es : List (ℕ × Task)) → s.pending ≡ es
      → (t : System) × Called c h s t × (t.pending ≡ [])
  call_all fuel s v enough [] e = (s, no_more, e)
  call_all zero s v enough ((l, task) ∷ es) e =
      absurd (omega (arith, some_weight l task es, ap weight e, enough))
  call_all (suc fuel) s v enough ((l, task) ∷ es) e =
      let (t, did, whole, lighter, kept) = run_task-Goes c h v [] l es task e in
      let (u, rest, none_wait) = call_all fuel t whole (omega arith) t.pending refl in
      (u, called [] l task es e did rest, none_wait)

  abbrev pub calls_made : {s t : System} → Called c h s t → ℕ
  calls_made no_more = 0
  calls_made (called xs l task ys first did rest) = suc (calls_made rest)

  -- What holds after functors were called.
  abbrev Leads : {s t : System} → Called c h s t → Type 0
  Leads {s} {t} run = IsWhole t × (calls_made run + weight t.pending ≤ weight s.pending) × Keeps s t

  called-Leads : {s t : System} → IsWhole s → (run : Called c h s t) → Leads run
  called-Leads v no_more = (v, omega arith, λ n o there. (o, there, (refl, refl)))
  called-Leads {s} {t = u} v (called {t = t} xs l task ys first did rest) =
      let (t', did', whole, lighter, kept) = run_task-Goes c h v xs l ys task first in
      let same : t' ≡ t = cc (sym did' ∙ did) in
      let (whole', few, kept') = called-Leads (subst IsWhole same whole) rest in
      let lighter' = subst (λ x. weight x.pending < weight s.pending) same lighter in
      (whole', omega (arith, few, lighter'), Keeps-trans s t u (subst (Keeps s) same kept) kept')

  -- At any point of a run of a started server (as in `Reach-Phase`: no hang-up with urgent data and without
  -- other input, callbacks that do nothing), whatever functors the loops call from there on and in
  -- which order, there are at most as many calls as functors wait, and one more for each that removes
  -- a connection. When none is left, each connection that had come in and was not closed is up and in
  -- the table once, and its close callback was never called; each one that was closed is out of the
  -- table, its close callback was called once, and its channel was removed once from its poller. And
  -- the functors can be called, without a fault, until none is left.
  pub Reach-settles :
      {server : TcpServer} {s : System}
      → IsStarted server
      → Reach c h server s
      → ((t : System) (run : Called c h s t)
          → (calls_made run + weight t.pending ≤ weight s.pending)
            × (t.pending ≡ []
                → (n : List ℕ) (o : Object) → s.objects n ≡ some o
                → (o' : Object) × (t.objects n ≡ some o') × IsOf o o' × IsSettled t n o'))
        × ((t : System) × Called c h s t × (t.pending ≡ []))
  Reach-settles {server} {s} v run =
      let whole = Reach-IsWhole v run in
      let (end, way, none_left) =
        call_all (weight s.pending) s whole (omega arith) s.pending refl in
      (
        λ t calls_.
            let (whole', few, kept) = called-Leads whole calls_ in
            (
              few,
              λ none_wait n o e.
                  let (o', e', same) = kept n o e in
                  (o', e', same, settled n o' none_wait e' (whole'.phases n)),
            ),
        (end, way, none_left),
      )
