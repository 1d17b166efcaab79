-- ===== src/Lifecycle/Calling/Establishing.antt =====
-- The functors that begin a connection.
use htcp_multithread.Prelude.{ℕ, suc, ◌≡◌, refl, ◌∙◌, Bool, List, ◌∷◌, ◌++◌, arith}
use htcp_multithread.TcpServer.{Connection, Task, listen, connect_established}
use htcp_multithread.TcpServer.Names.{is_same_self}
use htcp_multithread.TcpServer.Table.{is_same_ne}
use htcp_multithread.TcpConnection.Ending.{connect_established-Stays}
use htcp_multithread.Lifecycle.{Object, System, set_object, run_task}
use htcp_multithread.Lifecycle.Counts.{establishes, removes, destroys, count}
use htcp_multithread.Lifecycle.Phases.{
  IsWhole, Phase, IsCounted, IsObject, unborn, arriving, up, closing, leaving, gone, IsNew,
  Phase-same, phases_but_one,
}
use htcp_multithread.Lifecycle.Calling.{
  set_object-IsIssued, set_object_other, set_object_here, set_object-Keeps, change_body_lem,
  established_still, not_taken, was_taken, weighed, rest, Goes,
}

module _ (c h : Bool) {s : System} (v : IsWhole s) (xs : List (ℕ × Task)) (l : ℕ)
    (ys : List (ℕ × Task)) where
  pub listen-Goes : (first : s.pending ≡ xs ++ (l, listen) ∷ ys) → Goes c h v xs l listen ys first
  unfolding run_task
  listen-Goes first = (
    rest c h v xs l listen ys first,
    refl,
    record {
      phases = λ n.
          Phase-same
            (record {
              object = refl;
              to_establish = not_taken c h v xs l listen ys first (establishes n) refl;
              to_remove = not_taken c h v xs l listen ys first (removes n) refl;
              to_destroy = not_taken c h v xs l listen ys first (destroys n) refl;
              entries = refl;
            })
            (v.phases n);
      issued = v.issued;
      collected = v.collected;
      short = v.short;
      counted = v.counted;
    },
    omega (arith, weighed c h v xs l listen ys first),
    λ n o e. (o, e, (refl, refl)),
  )

  module _ (conn : Connection) (first : s.pending ≡ xs ++ (l, connect_established conn) ∷ ys) where
    abbrev task : Task
    task = connect_established conn

    to_establish_of :
        (o : Object) × IsObject s conn.name o IsNew 0 0 × IsCounted s conn.name 1 0 0 1
    to_establish_of = go (v.phases conn.name)
      where
        there :
            count (establishes conn.name) s.pending ≡ suc (count (establishes conn.name) (xs ++ ys))
        there = was_taken c h v xs l task ys first (establishes conn.name) (is_same_self conn.name)

        go :
            Phase s conn.name
            → (o : Object) × IsObject s conn.name o IsNew 0 0 × IsCounted s conn.name 1 0 0 1
        go (arriving o a k) = (o, a, k)
        go (unborn a k) = absurd (omega (arith, there, k.0))
        go (up o a k) = absurd (omega (arith, there, k.0))
        go (closing o a k) = absurd (omega (arith, there, k.0))
        go (leaving o a k) = absurd (omega (arith, there, k.0))
        go (gone o a k) = absurd (omega (arith, there, k.0))

    pub establish-Goes : Goes c h v xs l task ys first
    unfolding run_task
    establish-Goes =
        let (o, (e, named, st, tallied), (k₁, k₂, k₃, k₄)) = to_establish_of in
        let (body, did, (is_up, tallied')) = connect_established-Stays c h o.self o.body tallied in
        let o' : Object = record o { body = body } in
        let t : System = record s {
          objects = set_object conn.name o' s.objects;
          pending = xs ++ ys;
        } in
        (
          t,
          change_body_lem conn.name _ _ o body e did,
          record {
            phases =
                phases_but_one {t = t} conn.name v.phases
                  (λ n ne. record {
                    object = set_object_other conn.name n o' s.objects ne;
                    to_establish =
                        not_taken c h v xs l task ys first (establishes n)
                          (is_same_ne conn.name n ne);
                    to_remove = not_taken c h v xs l task ys first (removes n) refl;
                    to_destroy = not_taken c h v xs l task ys first (destroys n) refl;
                    entries = refl;
                  })
                  (up o' (set_object_here conn.name o' s.objects, named, is_up, tallied')
                    (
                      omega (
                        arith,
                        k₁,
                        was_taken c h v xs l task ys first (establishes conn.name)
                            (is_same_self conn.name),
                      ),
                      not_taken c h v xs l task ys first (removes conn.name) refl ∙ k₂,
                      not_taken c h v xs l task ys first (destroys conn.name) refl ∙ k₃,
                      k₄,
                    ));
            issued = set_object-IsIssued v conn.name o o' e;
            collected = v.collected;
            short = v.short;
            counted = v.counted;
          },
          omega (arith, weighed c h v xs l task ys first),
          set_object-Keeps s t conn.name o o' e
              (refl, established_still o.body.state body.state st is_up) (λ n. refl),
        )
