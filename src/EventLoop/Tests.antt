-- ===== src/EventLoop/Tests.antt =====
-- Runs of a loop, and the properties at concrete states.
use htcp_multithread.Prelude.{
  some, none, ◌>>=◌, ℕ, ◌≡◌, refl, Bool, true, false, [], ◌∷◌, arith, inl,
}
use htcp_multithread.EventLoop.{
  EventLoop, polling, Reach, init, start, later, loop_begins, quit_is_tested, other_thread_queues,
  checking, poll_wakes, wakeup_is_read, calling_begins, functors_are_taken, functor_is_called,
  calling_ends, handle_read, other_thread_wakes, wakeup, queue_in_loop, run_in_loop,
}
use htcp_multithread.EventLoop.Order.{IsOrdered, Reach-IsOrdered}
use htcp_multithread.EventLoop.Wakeup.{IsSignalled, polling-IsSignalled}
use htcp_multithread.EventLoop.Progress.{Steps, stay, go, round_lem}
use htcp_multithread.EventLoop.Rounds.{Begins, every_round}
use htcp_multithread.Channel
use htcp_multithread.Channel.{Channel}
use htcp_multithread.Poller.Simple.{simple_epoll}
use htcp_multithread.Poller.Synced.{IsSynced}
use htcp_multithread.EventLoop.Setup.{Setup, construct, destroy, construct-destroy}

-- Another thread queues functor 7 while the loop sleeps.
abbrev given : EventLoop
given = record init { looping = true; pc = polling; pending = 7 ∷ []; queued = 7 ∷ []; waking = 1 }

given-Reach : {early : Bool} → Reach early given
given-Reach =
    later (later (later start (loop_begins refl)) (quit_is_tested refl)) (other_thread_queues 7)

-- It has called `wakeup`.
abbrev woken : EventLoop
woken = record given { waking = 0; wake_count = 1 }

woken-Reach : {early : Bool} → Reach early woken
unfolding wakeup
woken-Reach = later given-Reach (other_thread_wakes refl)

queue_in_own_thread : (queue_in_loop true 3 woken).wake_count ≡ 1
unfolding queue_in_loop
queue_in_own_thread = refl

queue_from_elsewhere : (run_in_loop false (λ s. s) 3 woken).wake_count ≡ 2
unfolding run_in_loop queue_in_loop wakeup
queue_from_elsewhere = refl

Reach-IsOrdered_example : IsOrdered woken
Reach-IsOrdered_example = Reach-IsOrdered {early = false} woken-Reach

polling-IsSignalled_example : IsSignalled given
polling-IsSignalled_example = polling-IsSignalled given-Reach refl (inl (λ e. cc))

round_lem_example :
    (t : EventLoop) × Steps false woken t
    × (t.ran ≡ 7 ∷ [])
    × (t.pending ≡ [])
    × (t.wake_count ≡ 0)
    × (t.pc ≡ polling)
round_lem_example = round_lem woken-Reach refl (omega arith)

-- The loop has read the counter, called functor 7 and come back.
abbrev served : EventLoop
served = record woken { wake_count = 0; pending = []; ran = 7 ∷ []; pc = checking }

woken-Steps : {early : Bool} → Steps early woken served
unfolding handle_read
woken-Steps = go (poll_wakes refl (omega arith)) (
    go (wakeup_is_read refl) (
      go (calling_begins refl)
        (go (functors_are_taken refl) (go (functor_is_called refl) (go (calling_ends refl) stay)))))

every_round_example : Begins (7 ∷ []) (7 ∷ [])
every_round_example = every_round {early = false} woken-Reach refl woken-Steps refl

-- Channel objects that are not in use, each at its address.
abbrev store : ℕ → Channel
store a = record {
  address = a;
  fd = 0;
  events = 0;
  revents = 0;
  index = Channel.new;
  tie = none;
  tied = false;
}

-- The environment asks for poll, which the library does not have.
null_poller : construct simple_epoll true (some 6) 1 9 none store ≡ none
unfolding construct htcp_multithread.Poller.new_default_poller
null_poller = refl

-- The thread has the loop 2 already.
second_loop : construct simple_epoll false (some 6) 1 9 (some 2) store ≡ none
unfolding construct
second_loop = refl

construct-destroy_example :
    (t : Setup simple_epoll) × ((construct simple_epoll false (some 6) 1 9 none store
        >>= destroy simple_epoll 9)
      ≡ some t)
    × (t.t_loop_in_this_thread ≡ none)
    × (t.closed ≡ 6 ∷ [])
    × IsSynced simple_epoll t.world
    × ((fd : ℕ) → t.world.poller.channels fd ≡ none)
    × ((fd : ℕ) → t.world.poller.kernel fd ≡ none)
construct-destroy_example = construct-destroy simple_epoll 1 9 6 store (λ a. (refl, refl))
