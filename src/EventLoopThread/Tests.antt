-- ===== src/EventLoopThread/Tests.antt =====
-- A caller that is asleep when the new thread shows its loop, and one that is destroyed.
use htcp_multithread.Prelude.{ℕ, ◌≡◌, ◌≢◌, refl, true, false, some, ◌⊎◌}
use htcp_multithread.EventLoopThread.{
  EventLoopThread, checking, blocked, returned, looping, ended, loop_begins, loop_is_tested,
  quitting, joining, Step, Reach, begun, later, thread_is_started, tid_is_posted, start_returns,
  loop_is_found, caller_sleeps, loop_is_created, callback_returns, loop_is_published,
}
use htcp_multithread.EventLoopThread.Handshake.Returned.{start_loop_returned, looping-awake}
use htcp_multithread.EventLoopThread.Handshake.Destructor.{destructor-IsSafe}
use htcp_multithread.EventLoopThread.Handshake.Hanging.{early_destructor_hangs}

abbrev its_loop : ℕ
its_loop = 900

abbrev shown : EventLoopThread
shown = record {
  caller = checking;
  thread = looping;
  tid = some 41;
  posted = false;
  loop = some 900;
  alive = true;
  inits = 1;
  quit = false;
}

shown-Reach : Reach 41 900 true false shown
shown-Reach =
    let asleep =
      later
        (later (later (later begun (thread_is_started refl)) (tid_is_posted refl))
          (start_returns refl refl))
        (caller_sleeps refl refl) in
    let made = later (later asleep (loop_is_created refl)) (callback_returns refl) in
    later (later made (loop_is_published refl)) (loop_begins refl)

abbrev found : EventLoopThread
found = record shown { caller = returned 900 }

shown_returned :
    (its_loop ≡ 900)
    × (found.tid ≡ some 41)
    × (found.inits ≡ 1)
    × ((found.alive ≡ true) ⊎ (found.thread ≡ ended))
shown_returned =
    start_loop_returned 41 900 true false (later shown-Reach (loop_is_found refl refl)) refl

looping_shown : (shown.caller ≢ blocked) × (shown.loop ≡ some 900) × (shown.alive ≡ true)
looping_shown = looping-awake 41 900 true false shown-Reach refl

-- The owner about to call `quit`.
abbrev owner_quits : EventLoopThread
owner_quits = record shown { caller = quitting }

destructor-IsSafe_example : (owner_quits.alive ≡ true) × (owner_quits.loop ≡ some 900)
destructor-IsSafe_example =
    destructor-IsSafe 41 900 true
      (later (later shown-Reach (loop_is_found refl refl)) (loop_is_tested refl refl))

early_destructor_hangs_example :
    (s : EventLoopThread) × Reach 41 900 true false s
    × (s.caller ≡ joining)
    × ((t : EventLoopThread) → Step 41 900 true false s t → ⊥)
early_destructor_hangs_example = early_destructor_hangs 41 900 true
