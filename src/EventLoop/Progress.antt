-- ===== src/EventLoop/Progress.antt =====
-- One round of the loop, from the end of `poll` to the next test of `quit_`.
use htcp_multithread.Prelude.{
  ℕ, ◌<◌, ◌≡◌, refl, ◌∙◌, Bool, false, List, [], ◌∷◌, ◌++◌, arith, sym, append_assoc, append-nil,
  if◌then◌else◌,
}
use htcp_multithread.EventLoop.{
  EventLoop, outside, polling, handling, running, Step, Reach, quit_is_tested, poll_wakes,
  wakeup_is_read, calling_begins, functors_are_taken, functor_is_called, calling_ends, handle_read,
  swap, begin_calling, end_calling, check_quit, call_functor,
}
use htcp_multithread.EventLoop.Order.{Reach-IsOrdered}

pub data Steps (early : Bool) : EventLoop → EventLoop → Type 0 where
  stay : {s : EventLoop} → Steps early s s
  go : {s t u : EventLoop} → Step early s t → Steps early t u → Steps early s u

module _ {early : Bool} where
  pub join : {s t u : EventLoop} → Steps early s t → Steps early t u → Steps early s u
  join stay ys = ys
  join (go x xs) ys = go x (join xs ys)

  -- The functors in hand are called one after the other.
  call_all :
      (fs : List ℕ) (s : EventLoop)
      → s.pc ≡ running fs
      → Steps early s (record s { ran = s.ran ++ fs; pc = running [] })
  call_all [] s e = rw (append-nil (s.ran), ← e) stay
  call_all (f ∷ fs) s e =
      go (functor_is_called e)
        (rw (← append_assoc s.ran (f ∷ []) fs) (call_all fs (call_functor f fs s) refl))

  -- From every state in which the loop is woken there is a run in which it calls everything that was
  -- queued by then, in order, and then leaves `loop()` exactly if it was told to; otherwise it sleeps
  -- again, with nothing left in its queue.
  pub round_lem :
      {s : EventLoop}
      → Reach early s
      → s.pc ≡ polling
      → 0 < s.wake_count
      → (t : EventLoop) × Steps early s t
        × (t.ran ≡ s.queued)
        × (t.pending ≡ [])
        × (t.wake_count ≡ 0)
        × (t.pc ≡ (if s.quit then outside else polling))
  unfolding handle_read
  round_lem {s} r e pos = (
    check_quit (end_calling done),
    go (poll_wakes e pos) (
        go (wakeup_is_read refl) (
          go (calling_begins refl) (
            go (functors_are_taken refl) (
              join (call_all s.pending taken refl)
                (go (calling_ends refl) (go (quit_is_tested refl) stay)))))),
    ground (arith, all_called),
    ground arith,
    ground arith,
    ground arith,
  )
    where
      taken : EventLoop
      taken = swap (begin_calling (record (handle_read s) { pc = handling false }))

      done : EventLoop
      done = record taken { ran = s.ran ++ s.pending; pc = running [] }

      all_called : s.ran ++ s.pending ≡ s.queued
      all_called = sym ((Reach-IsOrdered r).fifo ∙ rw e refl)
