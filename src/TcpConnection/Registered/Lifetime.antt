-- ===== src/TcpConnection/Registered/Lifetime.antt =====
-- Connections from their beginning to their end, over the poller of their loop.
use htcp_multithread.Prelude.{
  ℕ, ◌≡◌, ◌≢◌, refl, ap, sym, subst, ◌∙◌, Bool, true, false, none, some, List, [], ◌∷◌, ◌++◌, arith,
  inl, inr, ◌⊎◌, if◌then◌else◌, Bool-cases, ap₂, map, ◌==◌, ℕ_discrete,
}
use htcp_multithread.Channel.{new, added}
use htcp_multithread.Epoll.{Epoll}
use htcp_multithread.Poller.{World}
use htcp_multithread.Poller.Synced.{IsSynced, idle}
use htcp_multithread.TcpConnection.{
  TcpConnection, Effect, channel_updated, channel_removed, connected, is_state, connect_destroyed,
}
use htcp_multithread.TcpConnection.Closing.{connect_destroyed_lem}
use htcp_multithread.TcpConnection.Silence.{masked}
use htcp_multithread.TcpConnection.Runs.{callbacks, Reach, destroys, later}
use htcp_multithread.TcpConnection.Runs.Invariant.{Reach-IsFine}
use htcp_multithread.TcpConnection.Registered.{registered_by, registered, of_channel, replay}
use htcp_multithread.TcpConnection.Registered.Touching.{HasStatus}
use htcp_multithread.TcpConnection.Registered.Replay.{AreDistinct, replay_lem, owns}

pub registered-append :
    (b : Bool) (xs ys : List Effect) → registered b (xs ++ ys) ≡ registered (registered b xs) ys
registered-append b [] ys = refl
registered-append b (e ∷ xs) ys = registered-append (registered_by e b) xs ys

-- The effects of `connectDestroyed`.
abbrev removal : Bool → List Effect
removal is_connected =
    if is_connected then channel_updated 0 ∷ channel_removed ∷ [] else channel_removed ∷ []

registered-removal : (es : List Effect) (b : Bool) → registered false (es ++ removal b) ≡ false
registered-removal es true = registered-append false es (removal true)
registered-removal es false = registered-append false es (removal false)

of_channel-append :
    (a : ℕ) (xs ys : List (ℕ × Effect))
    → of_channel a (xs ++ ys) ≡ of_channel a xs ++ of_channel a ys
of_channel-append a [] ys = refl
of_channel-append a (x ∷ xs) ys = elim (Bool-cases (a == x.0)) [
  | inl e ↦ rw e (ap (◌∷◌ x.1) (of_channel-append a xs ys))
  | inr e ↦ rw e (of_channel-append a xs ys)
]

pub of_channel-own : (a : ℕ) (es : List Effect) → of_channel a (map (λ e. (a, e)) es) ≡ es
of_channel-own a [] = refl
of_channel-own a (e ∷ es) =
    let same : (a == a) ≡ true = ground arith in rw same (ap (◌∷◌ e) (of_channel-own a es))

module _ (ep : Epoll) where
  open ep use {interest}

  -- A loop in which the channel at `a` is as the constructor of its connection leaves it.
  pub record IsFresh (w : World ep) (a : ℕ) : Type 0 where
    pub synced : IsSynced ep w
    pub distinct : AreDistinct ep w
    pub is_new : (w.chans a).index ≡ new
    pub is_idle : (w.chans a).events ≡ 0

  -- What the table and the kernel have under the descriptor of a channel that waits for `events`, as the
  -- poller has it or not.
  abbrev pub Lists : World ep → (registered : Bool) → (a sockfd events : ℕ) → Type 0
  Lists w true a sockfd events =
      (events ≡ 0) ⊎ (interest w.poller.kernel sockfd ≡ some (record { events = events; ptr = a }))
  Lists w false a sockfd events =
      (w.poller.channels sockfd ≡ none) × (interest w.poller.kernel sockfd ≡ none)

  module _ {w : World ep} (v : IsSynced ep w) (apart : AreDistinct ep w) (a : ℕ) where
    waits_for :
        {m : ℕ}
        → (w.chans a).events ≡ m
        → (w.chans a).index ≡ added
        → interest w.poller.kernel (w.chans a).fd ≡ some (record { events = m; ptr = a })
    waits_for mask on = ground (arith, v.held a on, v.named a)

    unknown :
        (w.chans a).index ≡ new
        → (w.poller.channels (w.chans a).fd ≡ none)
          × (interest w.poller.kernel (w.chans a).fd ≡ none)
    unknown off = (
      elim (owns ep v apart a) [ inl e ↦ e | inr e ↦ absurd ((v.mapped (w.chans a).fd a e).1 off) ],
      idle ep v a (ground (arith, off)) (owns ep v apart a),
    )

  pub lists :
      {w : World ep} {a sockfd m : ℕ} (b : Bool)
      → IsSynced ep w
      → AreDistinct ep w
      → (w.chans a).fd ≡ sockfd
      → (w.chans a).events ≡ m
      → HasStatus b (w.chans a)
      → Lists w b a sockfd m
  lists {w} {a} {m} true v apart same mask status = elim (ℕ_discrete m 0) [
    | yes e ↦ inl e
    | no ne ↦ inr (
        subst (λ fd. interest w.poller.kernel fd ≡ some (record { events = m; ptr = a })) same
          (waits_for v apart a mask (status (subst (λ x. x ≢ 0) (sym mask) ne))))
  ]
  lists {w} {a} false v apart same mask status =
      subst (λ fd. (w.poller.channels fd ≡ none) × (interest w.poller.kernel fd ≡ none)) same
        (unknown v apart a status)

  module _ {w : World ep} {a : ℕ} (v : IsFresh w a) where
    -- Over any number of connections of a loop, whose calls of the poller come in any order: no call ends
    -- the process, and table, channels and kernel stay in step. A connection that is in a run of its
    -- own then has the poller in the state that it expects: the poller's channel waits for exactly the
    -- events of the connection's channel, and the kernel waits for them on the connection's
    -- descriptor if they are any and the last call was not a removal; after a removal, or before the
    -- first call, neither the table nor the kernel has anything under the descriptor. The loop begins in
    -- any state in which these are in step and no two channels have the same descriptor, and with the
    -- connection's channel new.
    pub replay-Reach :
        (xs : List (ℕ × Effect)) (c h : Bool) {s : TcpConnection} {all : List ℕ}
        → Reach (callbacks c h) a (w.chans a).fd s all
        → of_channel a xs ≡ s.effects
        → (w' : World ep) × (replay ep xs w ≡ some w')
          × IsSynced ep w'
          × ((w'.chans a).events ≡ s.channel.events)
          × Lists w' (registered false s.effects) a (w.chans a).fd s.channel.events
    replay-Reach xs c h {s} run own =
        let (w', did, v', apart, f) = replay_lem ep xs v.synced v.distinct in
        let (u, fine) = Reach-IsFine c h a (w.chans a).fd run in
        let mask : (w'.chans a).events ≡ s.channel.events =
          (f a).mask
          ∙ ap (λ m. masked m (of_channel a xs)) v.is_idle
          ∙ ap (masked 0) own
          ∙ fine.told in
        (
          w',
          did,
          v',
          mask,
          lists (registered false s.effects) v' apart (f a).same_fd mask (
              subst (λ es. HasStatus (registered false es) (w'.chans a)) own
                ((f a).status false v.is_new)),
        )

    -- `connectDestroyed`, whenever it comes in the run of a connection, returns, and the calls that it
    -- makes take the connection's channel off the poller's table and the descriptor off the kernel's
    -- list, whatever the other connections of the loop have done before. The loop begins in any state
    -- in which table, channels and kernel are in step and no two channels have the same descriptor,
    -- and with the connection's channel new.
    pub replay-destroyed :
        (xs : List (ℕ × Effect)) (c h : Bool) {s : TcpConnection} {all : List ℕ}
        → Reach (callbacks c h) a (w.chans a).fd s all
        → of_channel a xs ≡ s.effects
        → (t : TcpConnection) × (connect_destroyed (callbacks c h) s ≡ some t)
          × (es : List Effect) × (t.effects ≡ s.effects ++ es)
          × (w' : World ep) × (replay ep (xs ++ map (λ e. (a, e)) es) w ≡ some w')
          × IsSynced ep w'
          × (w'.poller.channels (w.chans a).fd ≡ none)
          × (interest w'.poller.kernel (w.chans a).fd ≡ none)
    replay-destroyed xs c h {s} {all} run own =
        let (u, fine) = Reach-IsFine c h a (w.chans a).fd run in
        let (t, r, u', did, sound, st, same, es) =
          connect_destroyed_lem (callbacks c h) fine.r u fine.sound in
        let last : List Effect = removal (is_state s.state connected) in
        let own' : of_channel a (xs ++ map (λ e. (a, e)) last) ≡ t.effects =
          of_channel-append a xs (map (λ e. (a, e)) last)
          ∙ ap₂ (λ ys zs. ys ++ zs) own (of_channel-own a last)
          ∙ sym es in
        let (w', replayed, v', mask, shown) =
          replay-Reach (xs ++ map (λ e. (a, e)) last) c h (later destroys run tt did) own' in
        let (clear, off) =
          subst (λ b. Lists w' b a (w.chans a).fd t.channel.events)
            (ap (registered false) es ∙ registered-removal s.effects (is_state s.state connected))
            shown in
        (t, did, last, es, w', replayed, v', clear, off)
