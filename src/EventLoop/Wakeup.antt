-- ===== src/EventLoop/Wakeup.antt =====
-- Whether a loop that sleeps in `poll` is woken when there is work for it.
use htcp_multithread.Prelude.{
  ℕ, ◌+◌, ◌<◌, ◌≡◌, ◌≢◌, refl, Bool, true, false, [], arith, Bool-cases, ◌⊎◌, inl, inr,
}
use htcp_multithread.EventLoop.{
  EventLoop, Pc, outside, checking, polling, swapping, handling, running, Step, Reach, start, later,
  loop_begins, quit_is_tested, poll_returns, poll_wakes, wakeup_is_read, calling_begins,
  functors_are_taken, functor_is_called, calling_ends, own_thread_queues, own_thread_quits,
  other_thread_queues, other_thread_quits, other_thread_wakes, wakeup, handle_read, queue_in_loop,
  set_quit, push, RunsCallbacks,
}
use htcp_multithread.EventLoop.Order.{
  queue_quietly, queue_loudly, IsOrdered, calls, Reach-IsOrdered,
}

-- Where the loop's thread will look at the queue again only after another `poll`.
abbrev looks_later : Pc → Bool
looks_later (handling woken) = false
looks_later swapping = false
looks_later _ = true

-- The wakeup descriptor is readable, or a thread is about to make it so.
abbrev pub IsSignalled : EventLoop → Type 0
IsSignalled s = 0 < s.wake_count + s.waking

record IsAwake (s : EventLoop) : Type 0 where
  work : looks_later s.pc ≡ true → s.pending ≢ [] → IsSignalled s
  stop : s.pc ≡ polling → s.quit ≡ true → IsSignalled s

wakeup-IsSignalled : (s : EventLoop) → 0 < (wakeup s).wake_count
unfolding wakeup
wakeup-IsSignalled s = ground arith

-- Callbacks run inside `doPendingFunctors` or before it, and never while the thread sleeps.
callbacks_flagged : (pc : Pc) → RunsCallbacks false pc → looks_later pc ≡ true → calls pc ≡ true
callbacks_flagged outside h p = cc
callbacks_flagged (running fs) h p = refl
callbacks_flagged (handling w) h p = cc
callbacks_flagged checking h p = elim h [ ]
callbacks_flagged polling h p = elim h [ ]
callbacks_flagged swapping h p = elim h [ ]

callbacks_awake : (pc : Pc) → RunsCallbacks false pc → pc ≢ polling
callbacks_awake outside h p = cc
callbacks_awake (running fs) h p = cc
callbacks_awake (handling w) h p = cc
callbacks_awake checking h p = elim h [ ]
callbacks_awake polling h p = elim h [ ]
callbacks_awake swapping h p = elim h [ ]

queue_in_loop-IsAwake :
    {s : EventLoop} (f : ℕ)
    → IsOrdered s
    → RunsCallbacks false s.pc
    → IsAwake (queue_in_loop true f s)
unfolding wakeup
queue_in_loop-IsAwake {s} f o r = elim (Bool-cases s.calling_pending_functors) [
  | inl e ↦ rw (queue_loudly f s e) (record {
    work = λ p q. omega (arith, wakeup-IsSignalled (push f s));
    stop = λ p q. omega (arith, wakeup-IsSignalled (push f s));
  })
  | inr e ↦ rw (queue_quietly f s e) (record {
    work = λ p q. absurd (cc (e, o.flag, callbacks_flagged s.pc r p));
    stop = λ p q. absurd (callbacks_awake s.pc r p);
  })
]

Step-IsAwake : {s t : EventLoop} → IsOrdered s → IsAwake s → Step false s t → IsAwake t
unfolding handle_read set_quit
Step-IsAwake o v (loop_begins e) = record {
  work = λ p q. v.work (ground arith) q;
  stop = λ p q. cc;
}
Step-IsAwake o v (quit_is_tested e) = record {
  work = ground (arith, v.work);
  stop = ground (arith, v.work);
}
Step-IsAwake o v (poll_returns e) = record { work = λ p q. cc; stop = λ p q. cc }
Step-IsAwake o v (poll_wakes e pos) = record { work = λ p q. cc; stop = λ p q. cc }
Step-IsAwake o v (wakeup_is_read e) = record { work = λ p q. cc; stop = λ p q. cc }
Step-IsAwake o v (calling_begins e) = record { work = λ p q. cc; stop = λ p q. cc }
Step-IsAwake o v (functors_are_taken e) = record { work = λ p q. absurd (q refl); stop = λ p q. cc }
Step-IsAwake o v (functor_is_called e) = record {
  work = λ p q. v.work (ground arith) q;
  stop = λ p q. cc;
}
Step-IsAwake o v (calling_ends e) = record {
  work = λ p q. v.work (ground arith) q;
  stop = λ p q. cc;
}
Step-IsAwake o v (own_thread_queues f r) = queue_in_loop-IsAwake f o r
Step-IsAwake {s} o v (own_thread_quits r) = record {
  work = v.work;
  stop = λ p q. absurd (callbacks_awake s.pc r p);
}
Step-IsAwake o v (other_thread_queues f) = record {
  work = λ p q. omega arith;
  stop = λ p q. omega arith;
}
Step-IsAwake o v other_thread_quits = record {
  work = λ p q. omega arith;
  stop = λ p q. omega arith;
}
Step-IsAwake {s} o v (other_thread_wakes e) = record {
  work = λ p q. omega (arith, wakeup-IsSignalled s);
  stop = λ p q. omega (arith, wakeup-IsSignalled s);
}

Reach-IsAwake : {s : EventLoop} → Reach false s → IsAwake s
Reach-IsAwake start = record { work = λ p q. absurd (q refl); stop = λ p q. cc }
Reach-IsAwake (later r step) = Step-IsAwake (Reach-IsOrdered r) (Reach-IsAwake r) step

-- No wakeup is lost: while the loop sleeps in `poll` with functors in its queue or with the order to
-- quit, its wakeup descriptor is readable or a thread is about to write to it, in every
-- interleaving in which the loop's own thread queues nothing outside `loop()`.
pub polling-IsSignalled :
    {s : EventLoop}
    → Reach false s
    → s.pc ≡ polling
    → (s.pending ≢ []) ⊎ (s.quit ≡ true)
    → IsSignalled s
polling-IsSignalled r p (inl work) = (Reach-IsAwake r).work (ground arith) work
polling-IsSignalled r p (inr stop) = (Reach-IsAwake r).stop p stop
