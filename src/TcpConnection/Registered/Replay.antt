-- ===== src/TcpConnection/Registered/Replay.antt =====
-- The effects of all connections of a loop, one after another.
use htcp_multithread.Prelude.{
  ℕ, ◌≡◌, ◌≢◌, refl, ap, sym, subst, ◌∙◌, Bool, true, false, Option, none, some, ◌>>=◌, List, [],
  ◌∷◌, ◌==◌, arith, inl, inr, ℕ_discrete,
}
use htcp_multithread.Epoll.{Epoll}
use htcp_multithread.Poller.{World}
use htcp_multithread.Poller.Synced.{IsSynced, OwnsFd}
use htcp_multithread.TcpConnection.{Effect}
use htcp_multithread.TcpConnection.Silence.{masked, masked-append}
use htcp_multithread.TcpConnection.Registered.{registered_by, registered, of_channel, replay}
use htcp_multithread.TcpConnection.Registered.Touching.{HasStatus, IsTouched, touch_lem}

of_same :
    (x : ℕ × Effect) (xs : List (ℕ × Effect)) → of_channel x.0 (x ∷ xs) ≡ x.1 ∷ of_channel x.0 xs
of_same x xs = let same : (x.0 == x.0) ≡ true = ground arith in rw same refl

pub of_other :
    (x : ℕ × Effect) (xs : List (ℕ × Effect)) (a : ℕ)
    → a ≢ x.0
    → of_channel a (x ∷ xs) ≡ of_channel a xs
of_other x xs a ne = let other : (a == x.0) ≡ false = ground (arith, ne) in rw other refl

module _ (ep : Epoll) where
  -- No two channels have the same descriptor.
  abbrev pub AreDistinct : World ep → Type 0
  AreDistinct w = (a b : ℕ) → (w.chans a).fd ≡ (w.chans b).fd → a ≡ b

  pub owns : {w : World ep} → IsSynced ep w → AreDistinct w → (a : ℕ) → OwnsFd ep w a
  owns {w} v apart a = go (w.poller.channels (w.chans a).fd) refl
    where
      go : (o : Option ℕ) → w.poller.channels (w.chans a).fd ≡ o → OwnsFd ep w a
      go none e = inl e
      go (some b) e = inr (e ∙ ap some (apart b a ((v.mapped (w.chans a).fd b e).0)))

  -- What all the effects leave of the channel at `a`, of whose connection `es` are the effects.
  pub record IsReplayed (w w' : World ep) (es : List Effect) (a : ℕ) : Type 0 where
    pub same_fd : (w'.chans a).fd ≡ (w.chans a).fd
    pub same_revents : (w'.chans a).revents ≡ (w.chans a).revents
    pub mask : (w'.chans a).events ≡ masked (w.chans a).events es
    pub status : (b : Bool) → HasStatus b (w.chans a) → HasStatus (registered b es) (w'.chans a)

  -- The first effect, which is of the channel at `a` or of another one, and the effects after it.
  joined_same :
      {w w₁ w₂ : World ep} {a : ℕ} {e : Effect} (es : List Effect)
      → IsTouched ep a w w₁ e
      → IsReplayed w₁ w₂ es a
      → IsReplayed w w₂ (e ∷ es) a
  joined_same {w} {a} {e} es f g = record {
    same_fd = g.same_fd ∙ f.same_fd;
    same_revents = g.same_revents ∙ f.same_revents;
    mask =
        g.mask ∙ ap (λ m. masked m es) f.mask ∙ sym (masked-append (w.chans a).events (e ∷ []) es);
    status = λ b was. g.status (registered_by e b) (f.status b was);
  }

  joined_other :
      {w w₁ w₂ : World ep} {a b : ℕ} {e : Effect} {es : List Effect}
      → a ≢ b
      → IsTouched ep b w w₁ e
      → IsReplayed w₁ w₂ es a
      → IsReplayed w w₂ es a
  joined_other {a} {es} ne f g = record {
    same_fd = g.same_fd ∙ ap (λ y. y.fd) (f.others a ne);
    same_revents = g.same_revents ∙ ap (λ y. y.revents) (f.others a ne);
    mask = g.mask ∙ ap (λ y. masked y.events es) (f.others a ne);
    status = λ b was. g.status b (subst (HasStatus b) (sym (f.others a ne)) was);
  }

  joined :
      {w w₁ w₂ : World ep} (x : ℕ × Effect) (xs : List (ℕ × Effect)) (a : ℕ)
      → IsTouched ep x.0 w w₁ x.1
      → IsReplayed w₁ w₂ (of_channel a xs) a
      → IsReplayed w w₂ (of_channel a (x ∷ xs)) a
  joined {w} {w₁} {w₂} x xs a f g = elim (ℕ_discrete a x.0) [
    | yes e ↦
        subst (λ z. IsReplayed w w₂ (of_channel z (x ∷ xs)) z) (sym e)
          (subst (λ l. IsReplayed w w₂ l x.0) (sym (of_same x xs))
            (joined_same (of_channel x.0 xs) f
              (subst (λ z. IsReplayed w₁ w₂ (of_channel z xs) z) e g)))
    | no ne ↦ subst (λ l. IsReplayed w w₂ l a) (sym (of_other x xs a ne)) (joined_other ne f g)
  ]

  keeps-AreDistinct :
      {w w₁ : World ep} {a : ℕ} {e : Effect}
      → IsTouched ep a w w₁ e
      → AreDistinct w
      → AreDistinct w₁
  keeps-AreDistinct {w} {w₁} {a} f apart b c same = apart b c (sym (fd_of b) ∙ same ∙ fd_of c)
    where
      fd_of : (b : ℕ) → (w₁.chans b).fd ≡ (w.chans b).fd
      fd_of b = elim (ℕ_discrete b a) [
        | yes e ↦ subst (λ z. (w₁.chans z).fd ≡ (w.chans z).fd) (sym e) f.same_fd
        | no ne ↦ ap (λ x. x.fd) (f.others b ne)
      ]

  -- None of the effects ends the process.
  pub replay_lem :
      (xs : List (ℕ × Effect)) {w : World ep}
      → IsSynced ep w
      → AreDistinct w
      → (w' : World ep) × (replay ep xs w ≡ some w')
        × IsSynced ep w'
        × AreDistinct w'
        × ((a : ℕ) → IsReplayed w w' (of_channel a xs) a)
  unfolding replay
  replay_lem [] {w} v apart = (
    w,
    refl,
    v,
    apart,
    λ a. record { same_fd = refl; same_revents = refl; mask = refl; status = λ b was. was },
  )
  replay_lem (x ∷ xs) {w} v apart =
      let (w₁, did, f) = touch_lem ep x.0 v (owns v apart x.0) x.1 in
      let (w₂, done, v', apart', g) = replay_lem xs f.synced (keeps-AreDistinct f apart) in
      (w₂, ap (λ o. o >>= replay ep xs) did ∙ done, v', apart', λ a. joined x xs a f (g a))
