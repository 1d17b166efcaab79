-- ===== src/EventLoopThread/Handshake/Destructor.antt =====
-- What the destructor may rely on when nobody else calls the loop's `quit`.
use htcp_multithread.Prelude.{
  ℕ, ◌≡◌, subst, refl, ◌∙◌, Bool, true, false, none, some, arith, ◌⊎◌, inl, inr,
}
use htcp_multithread.EventLoopThread.{
  EventLoopThread, CallerPc, ThreadPc, idle, awaiting_tid, checking, blocked, returned, quitting,
  joining, gone, unborn, starting, creating, calling_back, publishing, beginning, looping, clearing,
  leaving, ended,
}
use htcp_multithread.EventLoopThread.Handshake.{
  CallerFits, IsFitting, has_published, has_loop, shows_loop,
}
use htcp_multithread.EventLoopThread.Handshake.Invariant.{Reach-IsFitting}
use htcp_multithread.EventLoopThread.Handshake.Ending.{
  has_left, has_quit, IsOurs, Reaches, not_yet, Reach-IsOurs,
}

module _ (thread_id this_loop : ℕ) (callback_set : Bool) where
  -- What the destructor needs of the rest where it is.
  abbrev pub IsSafe : CallerPc → EventLoopThread → Type 0
  IsSafe quitting s = (s.alive ≡ true) × (s.loop ≡ some this_loop)
  IsSafe gone s = (s.alive ≡ false) × (s.loop ≡ none) × ((s.thread ≡ ended) ⊎ (s.thread ≡ unborn))
  IsSafe _ s = Unit

  published_loop :
      (pc : ThreadPc)
      → has_published pc ≡ true
      → has_left pc ≡ false
      → (has_loop pc ≡ true) × (shows_loop pc ≡ true)
  published_loop beginning p l = (refl, refl)
  published_loop looping p l = (refl, refl)
  published_loop clearing p l = absurd (cc)
  published_loop leaving p l = absurd (cc)
  published_loop ended p l = absurd (cc)
  published_loop unborn p l = absurd (cc)
  published_loop starting p l = absurd (cc)
  published_loop creating p l = absurd (cc)
  published_loop calling_back p l = absurd (cc)
  published_loop publishing p l = absurd (cc)

  -- In every interleaving in which nobody but the destructor quits the loop, the destructor calls `quit`
  -- on a loop that exists, and when it is through, the thread has ended or was never started, the loop
  -- no longer exists and `loop_` is null again.
  pub destructor-IsSafe :
      {s : EventLoopThread} → Reaches thread_id this_loop callback_set s → IsSafe s.caller s
  destructor-IsSafe {s} r =
      let f = Reach-IsFitting thread_id this_loop callback_set false r in
      let v = Reach-IsOurs thread_id this_loop callback_set r in go s.caller refl f v
    where
      go :
          (c : CallerPc)
          → s.caller ≡ c
          → IsFitting thread_id this_loop callback_set false s
          → IsOurs thread_id this_loop callback_set s
          → IsSafe c s
      go idle e f v = tt
      go awaiting_tid e f v = tt
      go checking e f v = tt
      go blocked e f v = tt
      go (returned l) e f v = tt
      go joining e f v = tt
      go quitting e f v =
          let published =
            subst (λ c. CallerFits thread_id this_loop callback_set false c s.thread) e
              f.caller_fits in
          let (lives, shows) =
            published_loop s.thread published
              (stays (not_yet thread_id this_loop callback_set s.caller e refl) v.left) in
          (f.living ∙ lives, f.shown ∙ rw shows refl)
        where
          stays :
              (has_quit s.caller ≡ true → ⊥)
              → (has_left s.thread ≡ true → has_quit s.caller ≡ true)
              → has_left s.thread ≡ false
          stays n l = ground (arith, n, l)
      go gone e f v = elim (v.through e) [
        | inl x ↦ (f.living ∙ rw x refl, f.shown ∙ rw x refl, inl x)
        | inr x ↦ (f.living ∙ rw x refl, f.shown ∙ rw x refl, inr x)
      ]
