-- ===== src/EventLoop.antt =====
-- EventLoop.h and EventLoop.cc: one loop, the thread that runs it, and the other threads that give it
-- work. A step is what one thread does before another may come between.
pub mod Order
pub mod Wakeup
pub mod Progress
pub mod Rounds
pub mod Outside
pub mod Setup
mod Tests
use htcp_multithread.Prelude.{
  ℕ, suc, ◌+◌, ◌-◌, ◌^◌, ◌≡◌, ◌<◌, Bool, true, false, not, ◌||◌, List, [], ◌∷◌, ◌++◌, leb,
  if◌then◌else◌,
}

-- Where the loop's own thread is: outside `loop()`, at the test of `quit_`, inside `poll`, in the
-- loop over the active channels (`true` while the wakeup channel is still to come), before the
-- `swap` of `doPendingFunctors`, or with these functors of it left to run.
pub data Pc : Type 0 where
  outside checking polling swapping : Pc
  handling : (woken : Bool) → Pc
  running : List ℕ → Pc

-- `pending` is `pendingFunctors_`; a functor is a number. `wake_count` is the counter behind
-- `wakeupFd_`. `waking` counts the other threads that have still to call `wakeup`. The last two
-- fields are the history: all functors queued so far, and those of them that were called, in order.
pub record EventLoop : Type 0 where
  pub looping : Bool
  pub quit : Bool
  pub calling_pending_functors : Bool
  pub pending : List ℕ
  pub wake_count : ℕ
  pub pc : Pc
  pub waking : ℕ
  pub queued : List ℕ
  pub ran : List ℕ

abbrev pub init : EventLoop
init = record {
  looping = false;
  quit = false;
  calling_pending_functors = false;
  pending = [];
  wake_count = 0;
  pc = outside;
  waking = 0;
  queued = [];
  ran = [];
}

-- A write of 1 to an eventfd; at its limit it fails, and is only logged.
unfoldable pub wakeup : EventLoop → EventLoop
wakeup s = record s {
  wake_count = if leb (s.wake_count + 1) (2 ^ 64 - 2) then s.wake_count + 1 else s.wake_count;
}

-- The read takes the whole counter.
unfoldable pub handle_read : EventLoop → EventLoop
handle_read s = record s { wake_count = 0 }

abbrev pub push : ℕ → EventLoop → EventLoop
push f s = record s { pending = s.pending ++ f ∷ []; queued = s.queued ++ f ∷ [] }

-- `queueInLoop` as one thread runs it.
unfoldable pub queue_in_loop : (in_loop_thread : Bool) → ℕ → EventLoop → EventLoop
queue_in_loop in_loop_thread f s =
    let s₁ = push f s in if not in_loop_thread || s₁.calling_pending_functors then wakeup s₁ else s₁

-- `call` is what `cb()` does.
unfoldable pub run_in_loop :
    (in_loop_thread : Bool) → (call : EventLoop → EventLoop) → ℕ → EventLoop → EventLoop
run_in_loop in_loop_thread call f s = if in_loop_thread then call s else queue_in_loop false f s

unfoldable pub set_quit : (in_loop_thread : Bool) → EventLoop → EventLoop
set_quit in_loop_thread s =
    let s₁ : EventLoop = record s { quit = true } in if not in_loop_thread then wakeup s₁ else s₁

-- The beginning of `loop()`.
abbrev pub begin_loop : EventLoop → EventLoop
begin_loop s = record s { looping = true; quit = false; pc = checking }

-- `while (!quit_)`
abbrev pub check_quit : EventLoop → EventLoop
check_quit s =
    if s.quit then record s { looping = false; pc = outside } else record s { pc = polling }

-- The two halves of `doPendingFunctors` before the calls.
abbrev pub begin_calling : EventLoop → EventLoop
begin_calling s = record s { calling_pending_functors = true; pc = swapping }

abbrev pub swap : EventLoop → EventLoop
swap s = record s { pending = []; pc = running s.pending }

abbrev pub call_functor : ℕ → List ℕ → EventLoop → EventLoop
call_functor f fs s = record s { ran = s.ran ++ f ∷ []; pc = running fs }

abbrev pub end_calling : EventLoop → EventLoop
end_calling s = record s { calling_pending_functors = false; pc = checking }

-- Where the loop's thread runs code of the program: callbacks of channels, functors, and, if `early`
-- says so, what comes before and after `loop()`.
abbrev pub RunsCallbacks : (early : Bool) → Pc → Type 0
RunsCallbacks early outside = early ≡ true
RunsCallbacks early checking = ⊥
RunsCallbacks early polling = ⊥
RunsCallbacks early swapping = ⊥
RunsCallbacks early (handling woken) = Unit
RunsCallbacks early (running fs) = Unit

-- One more thread between its change and its `wakeup`.
abbrev pub owe_wakeup : EventLoop → EventLoop
owe_wakeup s = record s { waking = suc s.waking }

-- `poll` may return at any time: for a channel, a signal, or its timeout. It reports the wakeup
-- channel only when there is something to read from it.
pub data Step (early : Bool) (s : EventLoop) : EventLoop → Type 0 where
  loop_begins : s.pc ≡ outside → Step early s (begin_loop s)
  quit_is_tested : s.pc ≡ checking → Step early s (check_quit s)
  poll_returns : s.pc ≡ polling → Step early s (record s { pc = handling false })
  poll_wakes : s.pc ≡ polling → 0 < s.wake_count → Step early s (record s { pc = handling true })
  wakeup_is_read :
      s.pc ≡ handling true → Step early s (record (handle_read s) { pc = handling false })
  calling_begins : s.pc ≡ handling false → Step early s (begin_calling s)
  functors_are_taken : s.pc ≡ swapping → Step early s (swap s)
  functor_is_called :
      {f : ℕ} {fs : List ℕ} → s.pc ≡ running (f ∷ fs) → Step early s (call_functor f fs s)
  calling_ends : s.pc ≡ running [] → Step early s (end_calling s)
  own_thread_queues : (f : ℕ) → RunsCallbacks early s.pc → Step early s (queue_in_loop true f s)
  own_thread_quits : RunsCallbacks early s.pc → Step early s (set_quit true s)
  other_thread_queues : (f : ℕ) → Step early s (owe_wakeup (push f s))
  other_thread_quits : Step early s (owe_wakeup (record s { quit = true }))
  other_thread_wakes : {n : ℕ} → s.waking ≡ suc n → Step early s (record (wakeup s) { waking = n })

pub data Reach (early : Bool) : EventLoop → Type 0 where
  start : Reach early init
  later : {s t : EventLoop} → Reach early s → Step early s t → Reach early t
