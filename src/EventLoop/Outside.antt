-- ===== src/EventLoop/Outside.antt =====
-- What happens to calls that come before `loop()`.
use htcp_multithread.Prelude.{ℕ, ◌+◌, ◌≡◌, refl, Bool, true, false, [], ◌∷◌, ◌++◌, ◌∙◌}
use htcp_multithread.EventLoop.{
  EventLoop, outside, polling, Reach, loop_begins, quit_is_tested, own_thread_queues, begin_loop,
  check_quit, push,
}
use htcp_multithread.EventLoop.Order.{Reach-IsOrdered, queue_quietly}
use htcp_multithread.EventLoop.Progress.{Steps, stay, go}

-- The reason why the loop's own thread must not queue outside `loop()`: a functor queued there can be
-- in the queue of a loop that sleeps, with nobody to wake it.
pub early_functor_sleeps :
    {s : EventLoop} (f : ℕ)
    → Reach true s
    → s.pc ≡ outside
    → s.wake_count + s.waking ≡ 0
    → (t : EventLoop) × Steps true s t
      × (t.pc ≡ polling)
      × (t.pending ≡ s.pending ++ f ∷ [])
      × (t.wake_count + t.waking ≡ 0)
early_functor_sleeps {s} f r e silent = (
  check_quit (begin_loop (push f s)),
  go (own_thread_queues f (rw e refl)) (
      rw (queue_quietly f s ((Reach-IsOrdered r).flag ∙ rw e refl))
        (go (loop_begins e) (go (quit_is_tested refl) stay))),
  refl,
  refl,
  silent,
)

-- An order to quit that comes before `loop()` is forgotten: the loop goes to sleep all the same,
-- as if nobody had given it.
pub early_quit_is_lost :
    {early : Bool} {s : EventLoop}
    → s.pc ≡ outside
    → s.quit ≡ true
    → (t : EventLoop) × Steps early s t × (t.pc ≡ polling) × (t.quit ≡ false)
early_quit_is_lost {s = s} e told =
    (check_quit (begin_loop s), go (loop_begins e) (go (quit_is_tested refl) stay), refl, refl)
