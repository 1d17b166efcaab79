-- ===== src/Lifecycle/Calling/Destroying.antt =====
-- The functors that end a connection, and all functors.
use htcp_multithread.Prelude.{
  ℕ, suc, ◌+◌, ◌≡◌, refl, ◌∙◌, Bool, List, [], ◌∷◌, ◌++◌, arith, if◌then◌else◌,
}
use htcp_multithread.TcpServer.{
  Connection, Task, conn_name, listen, connect_established, connect_destroyed,
  remove_connection_in_loop_of, erase, remove_connection_in_loop,
}
use htcp_multithread.TcpServer.Names.{is_same_self}
use htcp_multithread.TcpServer.Table.{is_same_ne}
use htcp_multithread.TcpConnection.{emit, channel_removed}
use htcp_multithread.TcpConnection.Tally.{heard, silent, is_removal, is_closing}
use htcp_multithread.TcpConnection.Ending.{connect_destroyed-Removes}
use htcp_multithread.Lifecycle.{Object, System, set_object, collect, run_task}
use htcp_multithread.Lifecycle.Counts.{
  establishes, removes, destroys, count, count-append, held-erase, held-erase_other, weight-append,
}
use htcp_multithread.Lifecycle.Phases.{
  IsWhole, Phase, IsCounted, IsObject, IsDown, unborn, arriving, up, closing, leaving, gone,
  phases_but_one,
}
use htcp_multithread.Lifecycle.Calling.{
  set_object-IsIssued, set_object_other, set_object_here, set_object-Keeps, change_body_lem,
  not_taken, was_taken, weighed, Goes,
}
use htcp_multithread.Lifecycle.Calling.Establishing.{listen-Goes, establish-Goes}

module _ (c h : Bool) {s : System} (v : IsWhole s) (xs : List (ℕ × Task)) (l : ℕ)
    (ys : List (ℕ × Task)) where
  module _ (conn : Connection) (first : s.pending ≡ xs ++ (l, connect_destroyed conn) ∷ ys) where
    abbrev last_task : Task
    last_task = connect_destroyed conn

    destroy_taken :
        count (destroys conn.name) s.pending ≡ suc (count (destroys conn.name) (xs ++ ys))
    destroy_taken =
        was_taken c h v xs l last_task ys first (destroys conn.name) (is_same_self conn.name)

    to_destroy_of : (o : Object) × IsObject s conn.name o IsDown 1 0 × IsCounted s conn.name 0 0 1 0
    to_destroy_of = go (v.phases conn.name)
      where
        go :
            Phase s conn.name
            → (o : Object) × IsObject s conn.name o IsDown 1 0 × IsCounted s conn.name 0 0 1 0
        go (leaving o a k) = (o, a, k)
        go (unborn a k) = absurd (omega (arith, destroy_taken, k.2))
        go (arriving o a k) = absurd (omega (arith, destroy_taken, k.2))
        go (up o a k) = absurd (omega (arith, destroy_taken, k.2))
        go (closing o a k) = absurd (omega (arith, destroy_taken, k.2))
        go (gone o a k) = absurd (omega (arith, destroy_taken, k.2))

    destroy-Goes : Goes c h v xs l last_task ys first
    unfolding run_task
    destroy-Goes =
        let (o, (e, named, st, (closings, removals)), (k₁, k₂, k₃, k₄)) = to_destroy_of in
        let o' : Object = record o { body = emit channel_removed o.body } in
        let t : System = record s {
          objects = set_object conn.name o' s.objects;
          pending = xs ++ ys;
        } in
        let spared = not_taken c h v xs l last_task ys first in
        (
          t,
          change_body_lem conn.name _ _ o (emit channel_removed o.body) e
              (connect_destroyed-Removes c h o.body st),
          record {
            phases =
                phases_but_one {t = t} conn.name v.phases
                  (λ n ne. record {
                    object = set_object_other conn.name n o' s.objects ne;
                    to_establish = spared (establishes n) refl;
                    to_remove = spared (removes n) refl;
                    to_destroy = spared (destroys n) (is_same_ne conn.name n ne);
                    entries = refl;
                  })
                  (gone o'
                    (
                      set_object_here conn.name o' s.objects,
                      named,
                      st,
                      (
                        silent is_closing o.body.effects channel_removed refl closings,
                        heard is_removal o.body.effects channel_removed refl removals,
                      ),
                    )
                    (
                      spared (establishes conn.name) refl ∙ k₁,
                      spared (removes conn.name) refl ∙ k₂,
                      omega (arith, k₃, destroy_taken),
                      k₄,
                    ));
            issued = set_object-IsIssued v conn.name o o' e;
            collected = v.collected;
            short = v.short;
            counted = v.counted;
          },
          omega (arith, weighed c h v xs l last_task ys first),
          set_object-Keeps s t conn.name o o' e (refl, refl) (λ n. refl),
        )

  module _ (conn : Connection)
      (first : s.pending ≡ xs ++ (l, remove_connection_in_loop_of conn) ∷ ys) where
    abbrev removal : Task
    removal = remove_connection_in_loop_of conn

    removal_taken : count (removes conn.name) s.pending ≡ suc (count (removes conn.name) (xs ++ ys))
    removal_taken =
        was_taken c h v xs l removal ys first (removes conn.name) (is_same_self conn.name)

    to_remove_of : (o : Object) × IsObject s conn.name o IsDown 1 0 × IsCounted s conn.name 0 1 0 1
    to_remove_of = go (v.phases conn.name)
      where
        go :
            Phase s conn.name
            → (o : Object) × IsObject s conn.name o IsDown 1 0 × IsCounted s conn.name 0 1 0 1
        go (closing o a k) = (o, a, k)
        go (unborn a k) = absurd (omega (arith, removal_taken, k.1))
        go (arriving o a k) = absurd (omega (arith, removal_taken, k.1))
        go (up o a k) = absurd (omega (arith, removal_taken, k.1))
        go (leaving o a k) = absurd (omega (arith, removal_taken, k.1))
        go (gone o a k) = absurd (omega (arith, removal_taken, k.1))

    remove-Goes : Goes c h v xs l removal ys first
    unfolding run_task collect remove_connection_in_loop conn_name
    remove-Goes =
        let (o, (e, named, st, tallied), (k₁, k₂, k₃, k₄)) = to_remove_of in
        let t : System = record s {
          server = record (s.server) {
            connections = erase conn.name s.server.connections;
            effects = [];
          };
          pending = (xs ++ ys) ++ (conn.io_loop, connect_destroyed conn) ∷ [];
        } in
        let spared = not_taken c h v xs l removal ys first in
        let posted : (p : Task → Bool)
            → count p t.pending
              ≡ count p (xs ++ ys) + (if p (connect_destroyed conn) then 1 else 0) =
          λ p. count-append p (xs ++ ys) _ ∙ omega arith in
        (
          t,
          rw (v.collected) refl,
          record {
            phases =
                phases_but_one {t = t} conn.name v.phases
                  (λ n ne. record {
                    object = refl;
                    to_establish =
                        posted (establishes n) ∙ omega (arith, spared (establishes n) refl);
                    to_remove =
                        posted (removes n)
                        ∙ omega (arith, spared (removes n) (is_same_ne conn.name n ne));
                    to_destroy =
                        posted (destroys n)
                        ∙ rw (is_same_ne conn.name n ne) (omega (arith, spared (destroys n) refl));
                    entries = held-erase_other n conn.name s.server.connections ne;
                  })
                  (leaving o (e, named, st, tallied)
                    (
                      posted (establishes conn.name)
                          ∙ omega (arith, k₁, spared (establishes conn.name) refl),
                      posted (removes conn.name) ∙ omega (arith, k₂, removal_taken),
                      posted (destroys conn.name)
                          ∙ rw (is_same_self conn.name)
                              (omega (arith, k₃, spared (destroys conn.name) refl)),
                      held-erase 0 conn.name s.server.connections k₄,
                    ));
            issued = v.issued;
            collected = refl;
            short = v.short;
            counted = v.counted;
          },
          omega (
            arith,
            weighed c h v xs l removal ys first,
            weight-append (xs ++ ys) ((conn.io_loop, connect_destroyed conn) ∷ []),
          ),
          λ n p e'. (p, e', (refl, refl)),
        )

  -- A functor that waits in a queue can be called, and the invariant holds after it.
  pub run_task-Goes :
      (task : Task) (first : s.pending ≡ xs ++ (l, task) ∷ ys) → Goes c h v xs l task ys first
  run_task-Goes listen first = listen-Goes c h v xs l ys first
  run_task-Goes (connect_established conn) first = establish-Goes c h v xs l ys conn first
  run_task-Goes (connect_destroyed conn) first = destroy-Goes conn first
  run_task-Goes (remove_connection_in_loop_of conn) first = remove-Goes conn first
