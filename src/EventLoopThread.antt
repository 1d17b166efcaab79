-- ===== src/EventLoopThread.antt =====
-- EventLoopThread.h, EventLoopThread.cc, `start` of Thread.cc and `quit_` of EventLoop.cc: how a thread
-- with a loop is started and ended. Two threads take part, the owner, which calls `startLoop` and the
-- destructor, and the new one; a step is what one of them does
-- before the other may come between. What runs under the mutex is one step.
pub mod Handshake
mod Tests
use htcp_multithread.Prelude.{ℕ, suc, ◌≡◌, Bool, true, false, Option, none, some, if◌then◌else◌}

-- Where the caller of `startLoop` is: before it, at `sem_wait` in `Thread::start`, at the test of
-- `loop_`, asleep in `cond_.wait`, back with a loop, before `loop_->quit()` in the destructor, in
-- `thread_.join()`, or behind the destructor.
pub data CallerPc : Type 0 where
  idle awaiting_tid checking blocked : CallerPc
  returned : ℕ → CallerPc
  quitting joining gone : CallerPc

-- Where the new thread is: before its start, before `sem_post`, before each statement of `threadFunc`,
-- with the last one holding the lock, and at its end; `beginning` is the entry of `loop()`, where
-- `quit_` is set to false.
pub data ThreadPc : Type 0 where
  unborn starting creating calling_back publishing beginning looping clearing leaving ended :
      ThreadPc

-- `alive` says that the EventLoop on the stack of `threadFunc` exists. `inits` counts the calls of the
-- thread-init callback, and `quit` is the loop's `quit_`.
pub record EventLoopThread : Type 0 where
  pub caller : CallerPc
  pub thread : ThreadPc
  pub tid : Option ℕ
  pub posted : Bool
  pub loop : Option ℕ
  pub alive : Bool
  pub inits : ℕ
  pub quit : Bool

abbrev pub init : EventLoopThread
init = record {
  caller = idle;
  thread = unborn;
  tid = none;
  posted = false;
  loop = none;
  alive = false;
  inits = 0;
  quit = false;
}

-- `notify_one`
abbrev pub notify : CallerPc → CallerPc
notify blocked = checking
notify pc = pc

-- `thread_id` and `this_loop` are the new thread's id and the address of its loop. `quit_elsewhere` is
-- whether others than the owner's destructor may call the loop's `quit`.
module _ (thread_id this_loop : ℕ) (callback_set quit_elsewhere : Bool) where
  abbrev pub start_thread : EventLoopThread → EventLoopThread
  start_thread s = record s { caller = awaiting_tid; thread = starting }

  abbrev pub post_tid : EventLoopThread → EventLoopThread
  post_tid s = record s { tid = some thread_id; posted = true; thread = creating }

  abbrev pub create_loop : EventLoopThread → EventLoopThread
  create_loop s = record s { alive = true; thread = calling_back }

  abbrev pub call_back : EventLoopThread → EventLoopThread
  call_back s = record s {
    inits = if callback_set then suc s.inits else s.inits;
    thread = publishing;
  }

  abbrev pub publish : EventLoopThread → EventLoopThread
  publish s = record s { loop = some this_loop; caller = notify s.caller; thread = beginning }

  -- `quit_ = false` at the entry of `loop()`.
  abbrev pub begin_loop : EventLoopThread → EventLoopThread
  begin_loop s = record s { quit = false; thread = looping }

  -- `loop_->quit()` in the destructor.
  abbrev pub quit_loop : EventLoopThread → EventLoopThread
  quit_loop s = record s { quit = true; caller = joining }

  abbrev pub clear : EventLoopThread → EventLoopThread
  clear s = record s { loop = none; thread = leaving }

  -- `cond_.wait` may also return without a notification. Without a loop the destructor leaves the thread
  -- to itself: that of its Thread detaches it.
  pub data Step (s : EventLoopThread) : EventLoopThread → Type 0 where
    thread_is_started : s.caller ≡ idle → Step s (start_thread s)
    tid_is_posted : s.thread ≡ starting → Step s (post_tid s)
    start_returns :
        s.caller ≡ awaiting_tid
        → s.posted ≡ true
        → Step s (record s { caller = checking; posted = false })
    loop_is_found :
        {l : ℕ} → s.caller ≡ checking → s.loop ≡ some l → Step s (record s { caller = returned l })
    caller_sleeps : s.caller ≡ checking → s.loop ≡ none → Step s (record s { caller = blocked })
    wait_returns : s.caller ≡ blocked → Step s (record s { caller = checking })
    loop_is_created : s.thread ≡ creating → Step s (create_loop s)
    callback_returns : s.thread ≡ calling_back → Step s (call_back s)
    loop_is_published : s.thread ≡ publishing → Step s (publish s)
    loop_begins : s.thread ≡ beginning → Step s (begin_loop s)
    loop_returns : s.thread ≡ looping → s.quit ≡ true → Step s (record s { thread = clearing })
    loop_is_cleared : s.thread ≡ clearing → Step s (clear s)
    loop_is_destroyed : s.thread ≡ leaving → Step s (record s { alive = false; thread = ended })
    quit_is_called_elsewhere :
        quit_elsewhere ≡ true → s.alive ≡ true → Step s (record s { quit = true })
    never_started : s.caller ≡ idle → Step s (record s { caller = gone })
    loop_is_tested :
        {l k : ℕ}
        → s.caller ≡ returned l
        → s.loop ≡ some k
        → Step s (record s { caller = quitting })
    no_loop_is_found :
        {l : ℕ} → s.caller ≡ returned l → s.loop ≡ none → Step s (record s { caller = gone })
    loop_is_quit : s.caller ≡ quitting → s.alive ≡ true → Step s (quit_loop s)
    join_returns : s.caller ≡ joining → s.thread ≡ ended → Step s (record s { caller = gone })

  pub data Reach : EventLoopThread → Type 0 where
    begun : Reach init
    later : {s t : EventLoopThread} → Reach s → Step s t → Reach t
