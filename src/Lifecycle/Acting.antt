-- ===== src/Lifecycle/Acting.antt =====
-- A connection that is served in the life of connections.
use htcp_multithread.Prelude.{
  ℕ, ◌+◌, ◌≡◌, ◌≢◌, refl, ap, sym, subst, ◌∙◌, Bool, true, false, Option, none, some, List,
  append-nil, [], ◌∷◌, ◌++◌, Bool-cases, inl, inr, arith, if◌then◌else◌, ◌==◌,
}
use htcp_multithread.TcpServer.{
  Connection, Task, is_same, conn_name, connect_destroyed, remove_connection_in_loop_of, erase,
  remove_connection, remove_connection_in_loop,
}
use htcp_multithread.TcpServer.Names.{is_same_self}
use htcp_multithread.TcpServer.Table.{is_same_ne}
use htcp_multithread.TcpConnection.{TcpConnection, State}
use htcp_multithread.TcpConnection.Ending.{
  IsUp, IsTallied, Stays, Closes, Ends, Whenever, IsCalled-IsServed, run_op-Ends,
}
use htcp_multithread.TcpConnection.Ending.Dispatched.{handle_event-Ends}
use htcp_multithread.Channel
use htcp_multithread.Lifecycle.{
  Act, handles, does, IsServed, perform, Object, System, set_object, collect, told_of_close, serve,
}
use htcp_multithread.Lifecycle.Counts.{
  establishes, removes, destroys, count, held, count-append, held-erase, held-erase_other,
}
use htcp_multithread.Lifecycle.Phases.{
  IsWhole, Phase, IsCounted, IsObject, IsNew, IsDown, unborn, arriving, up, closing, leaving, gone,
  IsUnseen, phases_but_one,
}
use htcp_multithread.Lifecycle.Calling.{set_object-IsIssued, set_object_other, set_object_here}

-- What a connection that is up does leaves it up, or closed with one call of the close callback.
perform-Ends :
    (c h : Bool) (act : Act) (s t : TcpConnection)
    → IsServed act
    → Stays 0 0 s
    → perform c h act s ≡ some t
    → Ends 0 0 t
unfolding perform Channel.set_revents
perform-Ends c h (handles alive readv write so_error revents time) s t orderly v did =
    subst (Whenever (Ends 0 0)) did (
      handle_event-Ends c h readv write so_error time 0 0 alive
        (Channel.set_revents revents s.channel) s orderly v)
perform-Ends c h (does op) s t called v did =
    run_op-Ends c h op s t (IsCalled-IsServed op called) v did

module _ {s : System} (v : IsWhole s) (name : List ℕ) (o : Object) (e : s.objects name ≡ some o)
    (is_up : IsUp o.body.state) where
  the_object :
      (P : State → Type 0) (c r : ℕ) (o' : Object)
      → IsObject s name o' P c r
      → IsObject s name o P c r
  the_object P c r o' a =
      let same : o' ≡ o = cc (sym a.0 ∙ e) in subst (λ p. IsObject s name p P c r) same a

  not_new : {A : Type 0} → IsNew o.body.state → A
  not_new st = absurd (subst IsUp st is_up)

  not_down : {A : Type 0} → IsDown o.body.state → A
  not_down st = absurd (subst IsUp st is_up)

  -- A connection that is up is in that phase.
  phase_of : IsObject s name o IsUp 0 0 × IsCounted s name 0 0 0 1
  phase_of = go (v.phases name)
    where
      go : Phase s name → IsObject s name o IsUp 0 0 × IsCounted s name 0 0 0 1
      go (up o' a k) = (the_object IsUp 0 0 o' a, k)
      go (unborn a k) = absurd (cc (sym a ∙ e))
      go (arriving o' a k) = not_new ((the_object IsNew 0 0 o' a).2)
      go (closing o' a k) = not_down ((the_object IsDown 1 0 o' a).2)
      go (leaving o' a k) = not_down ((the_object IsDown 1 0 o' a).2)
      go (gone o' a k) = not_down ((the_object IsDown 1 1 o' a).2)

  serve_fails :
      (c h : Bool) (act : Act) → perform c h act o.body ≡ none → serve c h name act s ≡ none
  unfolding serve
  serve_fails c h act did = rw (serve, e, did)

  module _ (c h : Bool) (act : Act) (body : TcpConnection)
      (did : perform c h act o.body ≡ some body) where
    abbrev o' : Object
    o' = record o { body = body }

    -- The system, with the table and with the functors that the server was made to queue.
    abbrev acted : List (List ℕ × Connection) → List (ℕ × Task) → System
    acted connections tasks = record {
      server = record (s.server) { connections = connections; effects = [] };
      objects = set_object name o' s.objects;
      pending = s.pending ++ tasks;
    }

    acted-IsWhole :
        (connections : List (List ℕ × Connection)) (tasks : List (ℕ × Task))
        → ((n : List ℕ) → name ≢ n → IsUnseen s (acted connections tasks) n)
        → Phase (acted connections tasks) name
        → IsWhole (acted connections tasks)
    unfolding conn_name
    acted-IsWhole connections tasks others here = record {
      phases = phases_but_one name v.phases others here;
      issued = set_object-IsIssued v name o o' e;
      collected = refl;
      short = v.short;
      counted = v.counted;
    }

    serve_told :
        serve c h name act s
        ≡ some (
            collect (record s {
              server = told_of_close c h o.body body o.facts s.server;
              objects = set_object name o' s.objects;
            }))
    unfolding serve
    serve_told = rw (serve, e, did)

    before : IsTallied 0 0 o.body.effects
    before = phase_of.0.3

    serve_open : Stays 0 0 body → serve c h name act s ≡ some (acted s.server.connections [])
    unfolding collect told_of_close
    serve_open (_, (after, removals)) = serve_told ∙ rw (after, before.0, v.collected) refl

    module _ (down : Closes 0 0 body) where
      serve_removes :
          (o.facts.io_loop == s.server.loop) ≡ true
          → serve c h name act s
            ≡ some (
                acted
                  (erase o.facts.name s.server.connections)
                  ((o.facts.io_loop, connect_destroyed o.facts) ∷ []))
      unfolding collect told_of_close remove_connection remove_connection_in_loop
      serve_removes own = serve_told ∙ rw (down.2.0, before.0, own, v.collected) refl

      serve_posts :
          (o.facts.io_loop == s.server.loop) ≡ false
          → serve c h name act s
            ≡ some (
                acted s.server.connections
                  ((s.server.loop, remove_connection_in_loop_of o.facts) ∷ []))
      unfolding collect told_of_close remove_connection
      serve_posts other = serve_told ∙ rw (down.2.0, before.0, other, v.collected) refl

    one_more :
        (p : Task → Bool) (l : ℕ) (task : Task)
        → count p (s.pending ++ (l, task) ∷ []) ≡ count p s.pending + (if p task then 1 else 0)
    one_more p l task = count-append p s.pending _ ∙ omega arith

    open-IsWhole : Stays 0 0 body → IsWhole (acted s.server.connections [])
    open-IsWhole (is_up', tallied) =
        let ((_, named, _, _), (k₁, k₂, k₃, k₄)) = phase_of in
        let same = append-nil s.pending in
        acted-IsWhole s.server.connections []
          (λ n ne. record {
            object = set_object_other name n o' s.objects ne;
            to_establish = ap (count (establishes n)) same;
            to_remove = ap (count (removes n)) same;
            to_destroy = ap (count (destroys n)) same;
            entries = refl;
          })
          (up o' (set_object_here name o' s.objects, named, is_up', tallied)
            (
              ap (count (establishes name)) same ∙ k₁,
              ap (count (removes name)) same ∙ k₂,
              ap (count (destroys name)) same ∙ k₃,
              k₄,
            ))

    module _ (down : Closes 0 0 body) where
      removes-IsWhole : IsWhole (
          acted
            (erase o.facts.name s.server.connections)
            ((o.facts.io_loop, connect_destroyed o.facts) ∷ []))
      removes-IsWhole =
          let ((_, named, _, _), (k₁, k₂, k₃, k₄)) = phase_of in
          let there : (n : List ℕ) → is_same o.facts.name n ≡ is_same name n =
            λ n. ap (λ x. is_same x n) named in
          acted-IsWhole _ _
            (λ n ne. record {
              object = set_object_other name n o' s.objects ne;
              to_establish = one_more (establishes n) _ _ ∙ omega arith;
              to_remove = one_more (removes n) _ _ ∙ omega arith;
              to_destroy =
                  one_more (destroys n) _ _ ∙ rw (there n, is_same_ne name n ne) (omega arith);
              entries =
                  held-erase_other n o.facts.name s.server.connections (λ z. ne (sym named ∙ z));
            })
            (leaving o' (set_object_here name o' s.objects, named, down.0, down.2)
              (
                one_more (establishes name) _ _ ∙ omega (arith, k₁),
                one_more (removes name) _ _ ∙ omega (arith, k₂),
                one_more (destroys name) _ _
                    ∙ rw (there name, is_same_self name) (omega (arith, k₃)),
                ap (λ x. held name (erase x s.server.connections)) named
                    ∙ held-erase 0 name s.server.connections k₄,
              ))

      posts-IsWhole :
          IsWhole (
            acted s.server.connections ((s.server.loop, remove_connection_in_loop_of o.facts) ∷ []))
      posts-IsWhole =
          let ((_, named, _, _), (k₁, k₂, k₃, k₄)) = phase_of in
          let there : (n : List ℕ) → is_same o.facts.name n ≡ is_same name n =
            λ n. ap (λ x. is_same x n) named in
          acted-IsWhole _ _
            (λ n ne. record {
              object = set_object_other name n o' s.objects ne;
              to_establish = one_more (establishes n) _ _ ∙ omega arith;
              to_remove =
                  one_more (removes n) _ _ ∙ rw (there n, is_same_ne name n ne) (omega arith);
              to_destroy = one_more (destroys n) _ _ ∙ omega arith;
              entries = refl;
            })
            (closing o' (set_object_here name o' s.objects, named, down.0, down.2)
              (
                one_more (establishes name) _ _ ∙ omega (arith, k₁),
                one_more (removes name) _ _
                    ∙ rw (there name, is_same_self name) (omega (arith, k₂)),
                one_more (destroys name) _ _ ∙ omega (arith, k₃),
                k₄,
              ))

  -- A connection that is up is served.
  pub serve-IsWhole :
      (c h : Bool) (act : Act) {t : System}
      → IsServed act
      → serve c h name act s ≡ some t
      → IsWhole t
  serve-IsWhole c h act {t} served = go (perform c h act o.body) refl
    where
      go :
          (r : Option TcpConnection)
          → perform c h act o.body ≡ r
          → serve c h name act s ≡ some t
          → IsWhole t
      go none did done = absurd (cc (sym (serve_fails c h act did) ∙ done))
      go (some body) did done =
          elim (perform-Ends c h act o.body body served (is_up, phase_of.0.3) did) [
            | inl stays ↦
                subst IsWhole (cc (sym (serve_open c h act body did stays) ∙ done))
                  (open-IsWhole c h act body did stays)
            | inr down ↦ elim (Bool-cases (o.facts.io_loop == s.server.loop)) [
              | inl own ↦
                  subst IsWhole (cc (sym (serve_removes c h act body did down own) ∙ done))
                    (removes-IsWhole c h act body did down)
              | inr other ↦
                  subst IsWhole (cc (sym (serve_posts c h act body did down other) ∙ done))
                    (posts-IsWhole c h act body did down)
            ]
          ]
