-- ===== src/Serving/Joined.antt =====
-- The connections of a loop and its poller agree, and an action of a connection keeps it so.
use htcp_multithread.Prelude.{
  ℕ, ◌≡◌, ◌≢◌, refl, ap, sym, subst, ◌∙◌, Bool, true, false, Option, none, some, ◌>>=◌, List, [],
  ◌∷◌, ◌++◌, map, drop, length, ◌==◌, if◌then◌else◌, arith, ℕ_discrete, drop-append_length,
}
use htcp_multithread.Epoll.{Epoll}
use htcp_multithread.Poller.{World, update_map}
use htcp_multithread.Poller.Synced.{IsSynced}
use htcp_multithread.TcpConnection.{TcpConnection, Effect}
use htcp_multithread.TcpConnection.Silence.{masked, masked-append}
use htcp_multithread.TcpConnection.Growing.{IsLonger}
use htcp_multithread.TcpConnection.Runs.{callbacks, Reach}
use htcp_multithread.TcpConnection.Runs.Invariant.{Reach-IsFine}
use htcp_multithread.TcpConnection.Registered.{registered, of_channel}
use htcp_multithread.TcpConnection.Registered.Touching.{HasStatus}
use htcp_multithread.TcpConnection.Registered.Replay.{AreDistinct, IsReplayed, replay_lem, of_other}
use htcp_multithread.TcpConnection.Registered.Lifetime.{registered-append, of_channel-own}
use htcp_multithread.Serving.{Serving, act}

of_channel-foreign : (a b : ℕ) (es : List Effect) → b ≢ a → of_channel b (map (λ e. (a, e)) es) ≡ []
of_channel-foreign a b [] ne = refl
of_channel-foreign a b (e ∷ es) ne =
    of_other (a, e) (map (λ e. (a, e)) es) b ne ∙ of_channel-foreign a b es ne

module _ (ep : Epoll) (c h : Bool) where
  -- The connection whose channel is at `a` is in a run, and the poller has its channel as the connection
  -- left it.
  pub record IsJoined (w : World ep) (a : ℕ) (conn : TcpConnection) : Type 0 where
    pub all : List ℕ
    pub run : Reach (callbacks c h) a (w.chans a).fd conn all
    pub agree : (w.chans a).events ≡ conn.channel.events
    pub status : HasStatus (registered false conn.effects) (w.chans a)

  pub record IsServing (s : Serving ep) : Type 0 where
    pub synced : IsSynced ep s.world
    pub distinct : AreDistinct ep s.world
    pub joined : (a : ℕ) (conn : TcpConnection) → s.conns a ≡ some conn → IsJoined s.world a conn

  -- The call gives a connection that is still in a run.
  pub record Carries (a sockfd : ℕ) (conn : TcpConnection) (o : Option TcpConnection) : Type 0 where
    pub after : TcpConnection
    pub result : o ≡ some after
    pub all : List ℕ
    pub run : Reach (callbacks c h) a sockfd after all
    pub longer : IsLonger conn.effects after.effects

  -- A change of the channels that leaves descriptor and mask of the channel at `a` alone, or nothing of
  -- it but `revents_`.
  pub IsJoined-kept :
      {w w' : World ep} {a : ℕ} {conn : TcpConnection}
      → (w'.chans a).fd ≡ (w.chans a).fd
      → (w'.chans a).events ≡ (w.chans a).events
      → ((b : Bool) → HasStatus b (w.chans a) → HasStatus b (w'.chans a))
      → IsJoined w a conn
      → IsJoined w' a conn
  IsJoined-kept {a} {conn} fd mask status j = record {
    all = j.all;
    run = subst (λ x. Reach (callbacks c h) a x conn j.all) (sym fd) j.run;
    agree = mask ∙ j.agree;
    status = status (registered false conn.effects) j.status;
  }

  -- What the poller has after it was told the effects of an action.
  told-IsJoined :
      {w w' : World ep} {a : ℕ} {conn after : TcpConnection} {all : List ℕ} (es : List Effect)
      → IsJoined w a conn
      → Reach (callbacks c h) a (w.chans a).fd after all
      → after.effects ≡ conn.effects ++ es
      → IsReplayed ep w w' es a
      → IsJoined w' a after
  told-IsJoined {w} {w'} {a} {conn} {after} {all} es j run added f =
      let (u, fine) = Reach-IsFine c h a (w.chans a).fd j.run in
      let (u', fine') = Reach-IsFine c h a (w.chans a).fd run in
      record {
        all = all;
        run = subst (λ x. Reach (callbacks c h) a x after all) (sym f.same_fd) run;
        agree =
            f.mask
            ∙ ap (λ m. masked m es) (j.agree ∙ sym fine.told)
            ∙ sym (masked-append 0 conn.effects es)
            ∙ ap (masked 0) (sym added)
            ∙ fine'.told;
        status =
            subst (λ b. HasStatus b (w'.chans a))
              (sym (ap (registered false) added ∙ registered-append false conn.effects es))
              (f.status (registered false conn.effects) j.status);
      }

  module _ {s : Serving ep} (v : IsServing s) (a : ℕ)
      (f : TcpConnection → Option TcpConnection) where
    -- What an action at `a` leaves.
    pub record IsActed (s' : Serving ep) : Type 0 where
      pub serving : IsServing s'
      pub own : s'.conns a ≡ (s.conns a >>= f)
      pub others : (b : ℕ) → b ≢ a → s'.conns b ≡ s.conns b
      pub same_revents : (b : ℕ) → (s'.world.chans b).revents ≡ (s.world.chans b).revents

    -- The other connections do not notice.
    foreign-IsJoined :
        {w' : World ep} (es : List Effect) (b : ℕ) {conn : TcpConnection}
        → b ≢ a
        → IsReplayed ep s.world w' (of_channel b (map (λ e. (a, e)) es)) b
        → IsJoined s.world b conn
        → IsJoined w' b conn
    foreign-IsJoined {w'} es b ne g j =
        let f = subst (λ l. IsReplayed ep s.world w' l b) (of_channel-foreign a b es ne) g in
        IsJoined-kept f.same_fd f.mask f.status j

    own-IsJoined :
        {w' : World ep} {conn : TcpConnection}
        → s.conns a ≡ some conn
        → (t : Carries a (s.world.chans a).fd conn (f conn))
        → IsReplayed ep s.world w' (of_channel a (map (λ e. (a, e)) t.longer.more)) a
        → IsJoined w' a t.after
    own-IsJoined {w'} {conn} e t g =
        told-IsJoined t.longer.more (v.joined a conn e) t.run t.longer.added
          (subst (λ l. IsReplayed ep s.world w' l a) (of_channel-own a t.longer.more) g)

    acted :
        {conn : TcpConnection}
        → s.conns a ≡ some conn
        → Carries a (s.world.chans a).fd conn (f conn)
        → (s' : Serving ep) × (act ep a f s ≡ some s') × IsActed s'
    unfolding act
    acted {conn} e t =
        let (w', did, v', apart, g) =
          replay_lem ep (map (λ x. (a, x)) t.longer.more) v.synced v.distinct in
        let last : drop (length conn.effects) t.after.effects ≡ t.longer.more =
          ap (drop (length conn.effects)) t.longer.added
          ∙ drop-append_length (length conn.effects) conn.effects t.longer.more refl in
        (
          record { world = w'; conns = update_map a (some t.after) s.conns },
          rw (e, t.result, last, did, act) refl,
          record {
            serving = record {
              synced = v';
              distinct = apart;
              joined = λ b conn' e'. elim (ℕ_discrete b a) [
                | yes same ↦
                    (let changed : t.after ≡ conn' = cc (
                        sym (here (some t.after))
                        ∙ ap (λ x. update_map a (some t.after) s.conns x) (sym same)
                        ∙ e') in
                      subst (λ x. IsJoined w' x conn') (sym same)
                        (subst (IsJoined w' a) changed (own-IsJoined e t (g a))))
                | no ne ↦
                    foreign-IsJoined t.longer.more b ne (g b)
                      (v.joined b conn' (other (some t.after) b ne ∙ e'))
              ];
            };
            own = here (some t.after) ∙ sym (ap (λ o. o >>= f) e ∙ t.result);
            others = λ b ne. sym (other (some t.after) b ne);
            same_revents = λ b. (g b).same_revents;
          },
        )
      where
        here : (o : Option TcpConnection) → (if a == a then o else s.conns a) ≡ o
        here o = let same : (a == a) ≡ true = ground arith in rw same refl

        other :
            (o : Option TcpConnection) (b : ℕ)
            → b ≢ a
            → s.conns b ≡ (if a == b then o else s.conns b)
        other o b ne = let apart : (a == b) ≡ false = ground (arith, ne) in rw apart refl

    -- An action that leaves its connection in a run ends no process, keeps connections and poller in
    -- agreement, and changes no other connection. Where there is no connection nothing happens.
    pub act_lem :
        ((conn : TcpConnection)
          → s.conns a ≡ some conn
          → Carries a (s.world.chans a).fd conn (f conn))
        → (s' : Serving ep) × (act ep a f s ≡ some s') × IsActed s'
    unfolding act
    act_lem carries = go (s.conns a) refl
      where
        go :
            (o : Option TcpConnection)
            → s.conns a ≡ o
            → (s' : Serving ep) × (act ep a f s ≡ some s') × IsActed s'
        go none e = (
          s,
          rw (e, act) refl,
          record {
            serving = v;
            own = e ∙ sym (ap (λ o. o >>= f) e);
            others = λ b ne. refl;
            same_revents = λ b. refl;
          },
        )
        go (some conn) e = acted e (carries conn e)
