-- ===== src/EventLoopThread/Handshake/Hanging.antt =====
-- The one case in which the destructor never returns.
use htcp_multithread.Prelude.{ℕ, ◌≡◌, refl, Bool, true, false, some, if◌then◌else◌}
use htcp_multithread.EventLoopThread.{
  EventLoopThread, joining, looping, Step, begun, later, thread_is_started, tid_is_posted,
  start_returns, loop_is_found, caller_sleeps, wait_returns, loop_is_created, callback_returns,
  loop_is_published, loop_begins, loop_returns, loop_is_cleared, loop_is_destroyed,
  quit_is_called_elsewhere, never_started, loop_is_tested, no_loop_is_found, loop_is_quit,
  join_returns,
}
use htcp_multithread.EventLoopThread.Handshake.Ending.{Reaches}

module _ (thread_id this_loop : ℕ) (callback_set : Bool) where
  -- The destructor waits, and the loop has forgotten that it was told to quit.
  abbrev hung : EventLoopThread
  hung = record {
    caller = joining;
    thread = looping;
    tid = some thread_id;
    posted = false;
    loop = some this_loop;
    alive = true;
    inits = if callback_set then 1 else 0;
    quit = false;
  }

  hung-Reach : Reaches thread_id this_loop callback_set hung
  hung-Reach =
      let started =
        later (later (later begun (thread_is_started refl)) (tid_is_posted refl))
          (start_returns refl refl) in
      let shown =
        later (later (later started (loop_is_created refl)) (callback_returns refl))
          (loop_is_published refl) in
      later
        (later (later (later shown (loop_is_found refl refl)) (loop_is_tested refl refl))
          (loop_is_quit refl refl))
        (loop_begins refl)

  stuck : (t : EventLoopThread) → Step thread_id this_loop callback_set false hung t → ⊥
  stuck t (thread_is_started e) = absurd (cc)
  stuck t (tid_is_posted e) = absurd (cc)
  stuck t (start_returns e p) = absurd (cc)
  stuck t (loop_is_found e p) = absurd (cc)
  stuck t (caller_sleeps e p) = absurd (cc)
  stuck t (wait_returns e) = absurd (cc)
  stuck t (loop_is_created e) = absurd (cc)
  stuck t (callback_returns e) = absurd (cc)
  stuck t (loop_is_published e) = absurd (cc)
  stuck t (loop_begins e) = absurd (cc)
  stuck t (loop_returns e q) = absurd (cc)
  stuck t (loop_is_cleared e) = absurd (cc)
  stuck t (loop_is_destroyed e) = absurd (cc)
  stuck t (quit_is_called_elsewhere e alive) = absurd (cc)
  stuck t (never_started e) = absurd (cc)
  stuck t (loop_is_tested e p) = absurd (cc)
  stuck t (no_loop_is_found e p) = absurd (cc)
  stuck t (loop_is_quit e alive) = absurd (cc)
  stuck t (join_returns e p) = absurd (cc)

  -- When the owner is destroyed before the new thread has entered `loop()`, the order to quit is forgotten:
  -- there is a run after which the destructor waits in `join` for ever, as no step of either thread is
  -- possible any more.
  pub early_destructor_hangs :
      (s : EventLoopThread) × Reaches thread_id this_loop callback_set s
      × (s.caller ≡ joining)
      × ((t : EventLoopThread) → Step thread_id this_loop callback_set false s t → ⊥)
  early_destructor_hangs = (hung, hung-Reach, refl, stuck)
