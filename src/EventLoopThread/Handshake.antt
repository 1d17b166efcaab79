-- ===== src/EventLoopThread/Handshake.antt =====
-- How far the two threads of `startLoop` have come, and what fits together.
pub mod Invariant
pub mod Returned
pub mod Ending
pub mod Destructor
pub mod Hanging
use htcp_multithread.Prelude.{
  ℕ, ◌≡◌, ◌≢◌, subst, refl, sym, ◌∙◌, Bool, true, false, none, some, if◌then◌else◌, arith, ◌⊎◌, inl,
  inr,
}
use htcp_multithread.EventLoopThread.{
  EventLoopThread, CallerPc, ThreadPc, idle, awaiting_tid, checking, blocked, returned, unborn,
  starting, creating, calling_back, publishing, beginning, looping, quitting, joining, gone,
  clearing, leaving, ended, notify, Step, Reach, begun, later, thread_is_started, tid_is_posted,
  start_returns, loop_is_found, caller_sleeps, wait_returns, loop_is_created, callback_returns,
  loop_is_published, loop_returns, loop_is_cleared, loop_is_destroyed, loop_begins,
  quit_is_called_elsewhere, never_started, loop_is_tested, no_loop_is_found, loop_is_quit,
  join_returns,
}

-- How far the new thread has come.
abbrev has_tid : ThreadPc → Bool
has_tid unborn = false
has_tid starting = false
has_tid _ = true

abbrev has_published : ThreadPc → Bool
has_published beginning = true
has_published looping = true
has_published clearing = true
has_published leaving = true
has_published ended = true
has_published _ = false

abbrev pub shows_loop : ThreadPc → Bool
shows_loop beginning = true
shows_loop looping = true
shows_loop clearing = true
shows_loop _ = false

abbrev has_loop : ThreadPc → Bool
has_loop calling_back = true
has_loop publishing = true
has_loop beginning = true
has_loop looping = true
has_loop clearing = true
has_loop leaving = true
has_loop _ = false

abbrev has_called : ThreadPc → Bool
has_called publishing = true
has_called pc = has_published pc

module _ (thread_id this_loop : ℕ) (callback_set quit_elsewhere : Bool) where
  -- What is true of the caller, given how far the thread has come.
  abbrev CallerFits : CallerPc → ThreadPc → Type 0
  CallerFits idle pc = pc ≡ unborn
  CallerFits awaiting_tid pc = pc ≢ unborn
  CallerFits checking pc = has_tid pc ≡ true
  CallerFits blocked pc = (has_tid pc ≡ true) × (shows_loop pc ≡ false)
  CallerFits (returned l) pc = (l ≡ this_loop) × (has_published pc ≡ true)
  CallerFits quitting pc = has_published pc ≡ true
  CallerFits joining pc = has_published pc ≡ true
  CallerFits gone pc = (has_published pc ≡ true) ⊎ (pc ≡ unborn)

  record IsFitting (s : EventLoopThread) : Type 0 where
    caller_fits : CallerFits s.caller s.thread
    posted_late : s.posted ≡ true → has_tid s.thread ≡ true
    tid_known : s.tid ≡ (if has_tid s.thread then some thread_id else none)
    shown : s.loop ≡ (if shows_loop s.thread then some this_loop else none)
    living : s.alive ≡ has_loop s.thread
    called : s.inits ≡ (if has_called s.thread then (if callback_set then 1 else 0) else 0)

  -- A step of the new thread that the caller cannot see.
  kept :
      (a b : ThreadPc)
      → b ≢ unborn
      → a ≢ unborn
      → (has_tid a ≡ true → has_tid b ≡ true)
      → (shows_loop a ≡ false → shows_loop b ≡ false)
      → (has_published a ≡ true → has_published b ≡ true)
      → (c : CallerPc) → CallerFits c a
      → CallerFits c b
  kept a b nb na t h p idle f = absurd (na f)
  kept a b nb na t h p awaiting_tid f = nb
  kept a b nb na t h p checking f = t f
  kept a b nb na t h p blocked (f, g) = (t f, h g)
  kept a b nb na t h p (returned l) (f, g) = (f, p g)
  kept a b nb na t h p quitting f = p f
  kept a b nb na t h p joining f = p f
  kept a b nb na t h p gone (inl f) = inl (p f)
  kept a b nb na t h p gone (inr f) = absurd (na f)

  told : (c : CallerPc) → CallerFits c publishing → CallerFits (notify c) beginning
  told idle f = absurd (cc)
  told awaiting_tid f = λ e. cc
  told checking f = refl
  told blocked f = refl
  told (returned l) (f, g) = absurd (cc)
  told quitting f = absurd (cc)
  told joining f = absurd (cc)
  told gone (inl f) = absurd (cc)
  told gone (inr f) = absurd (cc)

  found :
      (pc : ThreadPc) (l : ℕ)
      → (if shows_loop pc then some this_loop else none) ≡ some l
      → (l ≡ this_loop) × (has_published pc ≡ true)
  found unborn l e = absurd (cc)
  found starting l e = absurd (cc)
  found creating l e = absurd (cc)
  found calling_back l e = absurd (cc)
  found publishing l e = absurd (cc)
  found beginning l e = (cc, refl)
  found looping l e = (cc, refl)
  found clearing l e = (cc, refl)
  found leaving l e = absurd (cc)
  found ended l e = absurd (cc)

  hidden : (b : Bool) → (if b then some this_loop else none) ≡ none → b ≡ false
  hidden true e = absurd (cc)
  hidden false e = refl

  -- A step of the caller.
  calls :
      {s : EventLoopThread}
      → IsFitting s
      → (c : CallerPc) (posted quit : Bool) → CallerFits c s.thread
      → (posted ≡ true → has_tid s.thread ≡ true)
      → IsFitting (record s { caller = c; posted = posted; quit = quit })
  calls v c posted quit fits late = record {
    caller_fits = fits;
    posted_late = late;
    tid_known = v.tid_known;
    shown = v.shown;
    living = v.living;
    called = v.called;
  }
