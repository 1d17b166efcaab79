-- ===== src/EventLoop/Rounds.antt =====
-- Every round of a loop, whatever the threads do meanwhile.
use htcp_multithread.Prelude.{
  ℕ, ◌≡◌, refl, ap, sym, subst, ◌∙◌, Bool, true, List, [], ◌∷◌, ◌++◌, arith, append_assoc,
  append-nil,
}
use htcp_multithread.EventLoop.{
  EventLoop, Pc, outside, checking, polling, handling, swapping, running, Step, Reach, later,
  loop_begins, quit_is_tested, poll_returns, poll_wakes, wakeup_is_read, calling_begins,
  functors_are_taken, functor_is_called, calling_ends, own_thread_queues, own_thread_quits,
  other_thread_queues, other_thread_quits, other_thread_wakes, wakeup, handle_read, queue_in_loop,
  set_quit,
}
use htcp_multithread.EventLoop.Order.{in_hand, Reach-IsOrdered, IsOrdered}
use htcp_multithread.EventLoop.Progress.{Steps, stay, go}

-- Between the sleep of the loop and the `swap` of `doPendingFunctors`.
abbrev IsBefore : Pc → Type 0
IsBefore outside = ⊥
IsBefore checking = ⊥
IsBefore polling = Unit
IsBefore swapping = Unit
IsBefore (handling woken) = Unit
IsBefore (running fs) = ⊥

-- The list `xs` begins with `fs`.
abbrev pub Begins : List ℕ → List ℕ → Type 0
Begins fs xs = (rest : List ℕ) × (xs ≡ fs ++ rest)

-- How far the functors `fs` have come: still in the queue, taken, or called.
data Coming (fs : List ℕ) (s : EventLoop) : Type 0 where
  waiting : IsBefore s.pc → Begins fs s.queued → Coming fs s
  taken : (hand : List ℕ) → s.pc ≡ running hand → Begins fs (s.ran ++ hand) → Coming fs s
  called : Begins fs s.ran → Coming fs s

one_more : (f : ℕ) (fs : List ℕ) {xs : List ℕ} → Begins fs xs → Begins fs (xs ++ f ∷ [])
one_more f fs (rest, e) = (rest ++ f ∷ [], rw (e, append_assoc fs rest (f ∷ [])) refl)

again : (fs : List ℕ) {xs ys : List ℕ} → xs ≡ ys → Begins fs xs → Begins fs ys
again fs e (rest, q) = (rest, sym e ∙ q)

of_hand : {pc : Pc} {xs ys : List ℕ} → pc ≡ running xs → pc ≡ running ys → xs ≡ ys
of_hand p q = ap in_hand (sym p ∙ q)

queue_lem :
    (f : ℕ) (s : EventLoop)
    → ((queue_in_loop true f s).pc ≡ s.pc)
      × ((queue_in_loop true f s).queued ≡ s.queued ++ f ∷ [])
      × ((queue_in_loop true f s).ran ≡ s.ran)
unfolding queue_in_loop wakeup
queue_lem f s = (ground arith, ground arith, ground arith)

module _ {early : Bool} {fs : List ℕ} where
  from_waiting :
      {s t : EventLoop}
      → IsOrdered s
      → IsBefore s.pc
      → Begins fs s.queued
      → Step early s t
      → Coming fs t
  unfolding wakeup handle_read set_quit
  from_waiting v b q (loop_begins e) = absurd (subst IsBefore e b)
  from_waiting v b q (quit_is_tested e) = absurd (subst IsBefore e b)
  from_waiting v b q (poll_returns e) = waiting tt q
  from_waiting v b q (poll_wakes e pos) = waiting tt q
  from_waiting v b q (wakeup_is_read e) = waiting tt q
  from_waiting v b q (calling_begins e) = waiting tt q
  from_waiting {s} v b q (functors_are_taken e) =
      taken s.pending refl (again fs (v.fifo ∙ rw e refl) q)
  from_waiting v b q (functor_is_called e) = absurd (subst IsBefore e b)
  from_waiting v b q (calling_ends e) = absurd (subst IsBefore e b)
  from_waiting {s} v b q (own_thread_queues f r) =
      let (pc, queued, ran) = queue_lem f s in
      waiting (subst IsBefore (sym pc) b) (again fs (sym queued) (one_more f fs q))
  from_waiting v b q (own_thread_quits r) = waiting b q
  from_waiting v b q (other_thread_queues f) = waiting b (one_more f fs q)
  from_waiting v b q other_thread_quits = waiting b q
  from_waiting v b q (other_thread_wakes e) = waiting b q

  from_taken :
      {s t : EventLoop} {hand : List ℕ}
      → s.pc ≡ running hand
      → Begins fs (s.ran ++ hand)
      → Step early s t
      → Coming fs t
  unfolding wakeup handle_read set_quit
  from_taken p q (loop_begins e) = absurd (cc (e, p))
  from_taken p q (quit_is_tested e) = absurd (cc (e, p))
  from_taken p q (poll_returns e) = absurd (cc (e, p))
  from_taken p q (poll_wakes e pos) = absurd (cc (e, p))
  from_taken p q (wakeup_is_read e) = absurd (cc (e, p))
  from_taken p q (calling_begins e) = absurd (cc (e, p))
  from_taken p q (functors_are_taken e) = absurd (cc (e, p))
  from_taken {s} p q (functor_is_called {f} {fs = left} e) =
      taken left refl
        (again fs (ap (λ x. s.ran ++ x) (of_hand p e) ∙ sym (append_assoc s.ran (f ∷ []) left)) q)
  from_taken {s} p q (calling_ends e) =
      called (again fs (ap (λ x. s.ran ++ x) (of_hand p e) ∙ append-nil s.ran) q)
  from_taken {s} {hand} p q (own_thread_queues f r) =
      let (pc, queued, ran) = queue_lem f s in
      taken _ (pc ∙ p) (again fs (ap (λ x. x ++ hand) (sym ran)) q)
  from_taken p q (own_thread_quits r) = taken _ p q
  from_taken p q (other_thread_queues f) = taken _ p q
  from_taken p q other_thread_quits = taken _ p q
  from_taken p q (other_thread_wakes e) = taken _ p q

  from_called : {s t : EventLoop} → Begins fs s.ran → Step early s t → Coming fs t
  unfolding wakeup handle_read set_quit
  from_called {s} q (quit_is_tested e) = called (again fs (ground arith) q)
  from_called q (functor_is_called {f} e) = called (one_more f fs q)
  from_called {s} q (own_thread_queues f r) =
      let (pc, queued, ran) = queue_lem f s in called (again fs (sym ran) q)
  from_called q (loop_begins e) = called q
  from_called q (poll_returns e) = called q
  from_called q (poll_wakes e pos) = called q
  from_called q (wakeup_is_read e) = called q
  from_called q (calling_begins e) = called q
  from_called q (functors_are_taken e) = called q
  from_called q (calling_ends e) = called q
  from_called q (own_thread_quits r) = called q
  from_called q (other_thread_queues f) = called q
  from_called q other_thread_quits = called q
  from_called q (other_thread_wakes e) = called q

  from_coming : {s t : EventLoop} → IsOrdered s → Coming fs s → Step early s t → Coming fs t
  from_coming v (waiting b q) x = from_waiting v b q x
  from_coming v (taken hand p q) x = from_taken p q x
  from_coming v (called q) x = from_called q x

  all_coming : {s t : EventLoop} → Reach early s → Coming fs s → Steps early s t → Coming fs t
  all_coming r c stay = c
  all_coming r c (go x xs) = all_coming (later r x) (from_coming (Reach-IsOrdered r) c x) xs

at_the_test : (fs : List ℕ) {t : EventLoop} → t.pc ≡ checking → Coming fs t → Begins fs t.ran
at_the_test fs e (waiting b q) = absurd (subst IsBefore e b)
at_the_test fs e (taken hand p q) = absurd (cc (e, p))
at_the_test fs e (called q) = q

-- In every interleaving, a loop that slept and is about to test `quit_` again has called every functor
-- that was queued when it slept, in order and before any later one.
pub every_round :
    {early : Bool} {s t : EventLoop}
    → Reach early s
    → s.pc ≡ polling
    → Steps early s t
    → t.pc ≡ checking
    → Begins s.queued t.ran
every_round {s} r e xs at =
    at_the_test s.queued at
      (all_coming r (waiting (subst IsBefore (sym e) tt) ([], sym (append-nil s.queued))) xs)
