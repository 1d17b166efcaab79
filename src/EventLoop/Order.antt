-- ===== src/EventLoop/Order.antt =====
-- The order of the functors that a loop is given.
use htcp_multithread.Prelude.{
  ℕ, ◌≡◌, refl, Bool, true, false, List, [], ◌++◌, arith, append_assoc, append-nil, Bool-cases, inl,
  inr,
}
use htcp_multithread.EventLoop.{
  EventLoop, Pc, swapping, running, Step, Reach, start, later, loop_begins, quit_is_tested,
  poll_returns, poll_wakes, wakeup_is_read, calling_begins, functors_are_taken, functor_is_called,
  calling_ends, own_thread_queues, own_thread_quits, other_thread_queues, other_thread_quits,
  other_thread_wakes, wakeup, handle_read, queue_in_loop, set_quit, push,
}

-- The functors that were taken from the queue and are still to be called.
abbrev pub in_hand : Pc → List ℕ
in_hand (running fs) = fs
in_hand _ = []

-- The code's flag for being inside `doPendingFunctors`.
abbrev pub calls : Pc → Bool
calls swapping = true
calls (running fs) = true
calls _ = false

pub record IsOrdered (s : EventLoop) : Type 0 where
  pub fifo : s.queued ≡ s.ran ++ (in_hand s.pc ++ s.pending)
  pub flag : s.calling_pending_functors ≡ calls s.pc

push-IsOrdered : {s : EventLoop} (f : ℕ) → IsOrdered s → IsOrdered (push f s)
push-IsOrdered f v = record { fifo = rw v.fifo (simp append_assoc); flag = v.flag }

wakeup-IsOrdered : {s : EventLoop} → IsOrdered s → IsOrdered (wakeup s)
unfolding wakeup
wakeup-IsOrdered v = record { fifo = v.fifo; flag = v.flag }

-- The loop's own thread calls `wakeup` for a functor only inside `doPendingFunctors`.
pub queue_quietly :
    (f : ℕ) (s : EventLoop) → s.calling_pending_functors ≡ false → queue_in_loop true f s ≡ push f s
unfolding queue_in_loop
queue_quietly f s e = rw e

pub queue_loudly :
    (f : ℕ) (s : EventLoop)
    → s.calling_pending_functors ≡ true
    → queue_in_loop true f s ≡ wakeup (push f s)
unfolding queue_in_loop
queue_loudly f s e = rw e

queue_in_loop-IsOrdered : {s : EventLoop} (f : ℕ) → IsOrdered s → IsOrdered (queue_in_loop true f s)
queue_in_loop-IsOrdered {s} f v = elim (Bool-cases s.calling_pending_functors) [
  | inl e ↦ rw (queue_loudly f s e) (wakeup-IsOrdered (push-IsOrdered f v))
  | inr e ↦ rw (queue_quietly f s e) (push-IsOrdered f v)
]

Step-IsOrdered : {early : Bool} {s t : EventLoop} → IsOrdered s → Step early s t → IsOrdered t
unfolding wakeup handle_read queue_in_loop set_quit
Step-IsOrdered v (loop_begins e) = record {
  fifo = ground (arith, v.fifo);
  flag = ground (arith, v.flag);
}
Step-IsOrdered v (quit_is_tested e) = record {
  fifo = ground (arith, v.fifo);
  flag = ground (arith, v.flag);
}
Step-IsOrdered v (poll_returns e) = record {
  fifo = ground (arith, v.fifo);
  flag = ground (arith, v.flag);
}
Step-IsOrdered v (poll_wakes e pos) = record {
  fifo = ground (arith, v.fifo);
  flag = ground (arith, v.flag);
}
Step-IsOrdered v (wakeup_is_read e) = record {
  fifo = ground (arith, v.fifo);
  flag = ground (arith, v.flag);
}
Step-IsOrdered v (calling_begins e) = record { fifo = ground (arith, v.fifo); flag = refl }
Step-IsOrdered v (functors_are_taken e) = record {
  fifo = rw (v.fifo, e) (simp append-nil);
  flag = ground (arith, v.flag);
}
Step-IsOrdered v (functor_is_called e) = record {
  fifo = rw (v.fifo, e) (simp append_assoc);
  flag = ground (arith, v.flag);
}
Step-IsOrdered v (calling_ends e) = record { fifo = ground (arith, v.fifo); flag = refl }
Step-IsOrdered v (own_thread_queues f r) = queue_in_loop-IsOrdered f v
Step-IsOrdered v (own_thread_quits r) = record { fifo = v.fifo; flag = v.flag }
Step-IsOrdered v (other_thread_queues f) =
    (let p = push-IsOrdered f v in record { fifo = p.fifo; flag = p.flag })
Step-IsOrdered v other_thread_quits = record { fifo = v.fifo; flag = v.flag }
Step-IsOrdered v (other_thread_wakes e) = record { fifo = v.fifo; flag = v.flag }

-- However the threads interleave, every functor that was queued is called at most once, in the order
-- in which they were queued: those called, those taken from the queue and those still in it make up
-- the history. The flag `callingPendingFunctors_` is up exactly inside `doPendingFunctors`.
pub Reach-IsOrdered : {early : Bool} {s : EventLoop} → Reach early s → IsOrdered s
Reach-IsOrdered start = record { fifo = refl; flag = refl }
Reach-IsOrdered (later r step) = Step-IsOrdered (Reach-IsOrdered r) step
