-- ===== src/EventLoopThread/Handshake/Returned.antt =====
-- What the caller of `startLoop` may rely on.
use htcp_multithread.Prelude.{
  ℕ, ◌≡◌, ◌≢◌, subst, refl, ◌∙◌, Bool, true, some, if◌then◌else◌, ◌⊎◌, inl, inr,
}
use htcp_multithread.EventLoopThread.{
  EventLoopThread, ThreadPc, blocked, returned, unborn, starting, creating, calling_back,
  publishing, beginning, looping, clearing, leaving, ended, Reach,
}
use htcp_multithread.EventLoopThread.Handshake.{
  has_tid, has_published, has_loop, has_called, CallerFits,
}
use htcp_multithread.EventLoopThread.Handshake.Invariant.{Reach-IsFitting}

module _ (thread_id this_loop : ℕ) (callback_set quit_elsewhere : Bool) where
  late :
      (pc : ThreadPc)
      → has_published pc ≡ true
      → (has_tid pc ≡ true) × (has_called pc ≡ true) × ((has_loop pc ≡ true) ⊎ (pc ≡ ended))
  late beginning h = (refl, refl, inl refl)
  late looping h = (refl, refl, inl refl)
  late clearing h = (refl, refl, inl refl)
  late leaving h = (refl, refl, inl refl)
  late ended h = (refl, refl, inr refl)
  late unborn h = absurd (cc)
  late starting h = absurd (cc)
  late creating h = absurd (cc)
  late calling_back h = absurd (cc)
  late publishing h = absurd (cc)

  -- In every interleaving, what `startLoop` returns is the loop of the new thread, after its thread id
  -- is known and after the init callback was called once, if it is set; and the loop exists until
  -- that thread has ended.
  pub start_loop_returned :
      {s : EventLoopThread} {l : ℕ}
      → Reach thread_id this_loop callback_set quit_elsewhere s
      → s.caller ≡ returned l
      → (l ≡ this_loop)
        × (s.tid ≡ some thread_id)
        × (s.inits ≡ (if callback_set then 1 else 0))
        × ((s.alive ≡ true) ⊎ (s.thread ≡ ended))
  start_loop_returned {s} r e =
      let v = Reach-IsFitting thread_id this_loop callback_set quit_elsewhere r in
      let (same, published) =
        subst (λ c. CallerFits thread_id this_loop callback_set quit_elsewhere c s.thread) e
          v.caller_fits in
      let (known, called, lives) = late s.thread published in
      (same, v.tid_known ∙ rw known refl, v.called ∙ rw called refl, existing v.living lives)
    where
      existing :
          s.alive ≡ has_loop s.thread
          → (has_loop s.thread ≡ true) ⊎ (s.thread ≡ ended)
          → (s.alive ≡ true) ⊎ (s.thread ≡ ended)
      existing living (inl h) = inl (living ∙ h)
      existing living (inr h) = inr h

  -- While the new thread is in its loop, the caller is not asleep in `cond_.wait`, whoever came
  -- first, and finds the loop, which exists.
  pub looping-awake :
      {s : EventLoopThread}
      → Reach thread_id this_loop callback_set quit_elsewhere s
      → s.thread ≡ looping
      → (s.caller ≢ blocked) × (s.loop ≡ some this_loop) × (s.alive ≡ true)
  looping-awake {s} r e =
      let v = Reach-IsFitting thread_id this_loop callback_set quit_elsewhere r in
      (
        λ b. seen (
            subst (λ c. CallerFits thread_id this_loop callback_set quit_elsewhere c looping) b
              (subst (CallerFits thread_id this_loop callback_set quit_elsewhere s.caller) e
                v.caller_fits)),
        v.shown ∙ rw e refl,
        v.living ∙ rw e refl,
      )
    where
      seen : CallerFits thread_id this_loop callback_set quit_elsewhere blocked looping → ⊥
      seen (f, g) = absurd (cc)
