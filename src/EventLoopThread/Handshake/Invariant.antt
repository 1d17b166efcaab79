-- ===== src/EventLoopThread/Handshake/Invariant.antt =====
-- The two threads of `startLoop` fit together in every interleaving.
use htcp_multithread.Prelude.{ℕ, ◌≡◌, subst, refl, sym, ◌∙◌, Bool, true, false, arith, inl, inr}
use htcp_multithread.EventLoopThread.{
  EventLoopThread, idle, checking, blocked, returned, unborn, starting, creating, calling_back,
  publishing, beginning, looping, quitting, joining, gone, clearing, leaving, ended, Step, Reach,
  begun, later, thread_is_started, tid_is_posted, start_returns, loop_is_found, caller_sleeps,
  wait_returns, loop_is_created, callback_returns, loop_is_published, loop_returns, loop_is_cleared,
  loop_is_destroyed, loop_begins, quit_is_called_elsewhere, never_started, loop_is_tested,
  no_loop_is_found, loop_is_quit, join_returns,
}
use htcp_multithread.EventLoopThread.Handshake.{
  shows_loop, CallerFits, IsFitting, kept, told, found, hidden, calls,
}

module _ (thread_id this_loop : ℕ) (callback_set quit_elsewhere : Bool) where
  Step-IsFitting :
      {s t : EventLoopThread}
      → IsFitting thread_id this_loop callback_set quit_elsewhere s
      → Step thread_id this_loop callback_set quit_elsewhere s t
      → IsFitting thread_id this_loop callback_set quit_elsewhere t
  Step-IsFitting {s} v (thread_is_started e) = record {
    caller_fits = λ x. cc;
    posted_late = λ p. absurd (cc (v.posted_late p, born e));
    tid_known = v.tid_known ∙ rw (born e) refl;
    shown = v.shown ∙ rw (born e) refl;
    living = v.living ∙ rw (born e) refl;
    called = v.called ∙ rw (born e) refl;
  }
    where
      born : s.caller ≡ idle → s.thread ≡ unborn
      born e =
          subst (λ c. CallerFits thread_id this_loop callback_set quit_elsewhere c s.thread) e
            v.caller_fits
  Step-IsFitting {s} v (tid_is_posted e) = record {
    caller_fits =
        kept thread_id this_loop callback_set quit_elsewhere starting creating (λ x. cc) (λ x. cc)
          (λ x. refl) (λ x. refl) (λ x. absurd (cc)) s.caller
          (subst (CallerFits thread_id this_loop callback_set quit_elsewhere s.caller) e
            v.caller_fits);
    posted_late = λ p. refl;
    tid_known = refl;
    shown = v.shown ∙ rw e refl;
    living = v.living ∙ rw e refl;
    called = v.called ∙ rw e refl;
  }
  Step-IsFitting {s} v (start_returns e p) =
      calls thread_id this_loop callback_set quit_elsewhere v checking false s.quit
        (v.posted_late p) (λ q. absurd (cc))
  Step-IsFitting {s} v (loop_is_found {l} e f) =
      calls thread_id this_loop callback_set quit_elsewhere v (returned l) s.posted s.quit
        (found thread_id this_loop callback_set quit_elsewhere s.thread l (sym v.shown ∙ f))
        v.posted_late
  Step-IsFitting {s} v (caller_sleeps e f) =
      calls thread_id this_loop callback_set quit_elsewhere v blocked s.posted s.quit
        (
          subst (λ c. CallerFits thread_id this_loop callback_set quit_elsewhere c s.thread) e
              v.caller_fits,
          hidden thread_id this_loop callback_set quit_elsewhere (shows_loop s.thread)
              (sym v.shown ∙ f),
        )
        v.posted_late
  Step-IsFitting {s} v (wait_returns e) =
      calls thread_id this_loop callback_set quit_elsewhere v checking s.posted s.quit
        (subst (λ c. CallerFits thread_id this_loop callback_set quit_elsewhere c s.thread) e
          v.caller_fits).0
        v.posted_late
  Step-IsFitting {s} v (loop_is_created e) = record {
    caller_fits =
        kept thread_id this_loop callback_set quit_elsewhere creating calling_back (λ x. cc)
          (λ x. cc) (λ x. refl) (λ x. refl) (λ x. absurd (cc)) s.caller
          (subst (CallerFits thread_id this_loop callback_set quit_elsewhere s.caller) e
            v.caller_fits);
    posted_late = λ p. refl;
    tid_known = v.tid_known ∙ rw e refl;
    shown = v.shown ∙ rw e refl;
    living = refl;
    called = v.called ∙ rw e refl;
  }
  Step-IsFitting {s} v (callback_returns e) = record {
    caller_fits =
        kept thread_id this_loop callback_set quit_elsewhere calling_back publishing (λ x. cc)
          (λ x. cc) (λ x. refl) (λ x. refl) (λ x. absurd (cc)) s.caller
          (subst (CallerFits thread_id this_loop callback_set quit_elsewhere s.caller) e
            v.caller_fits);
    posted_late = λ p. refl;
    tid_known = v.tid_known ∙ rw e refl;
    shown = v.shown ∙ rw e refl;
    living = v.living ∙ rw e refl;
    called = ground (arith, v.called, e);
  }
  Step-IsFitting {s} v (loop_is_published e) = record {
    caller_fits = told thread_id this_loop callback_set quit_elsewhere s.caller (
        subst (CallerFits thread_id this_loop callback_set quit_elsewhere s.caller) e
          v.caller_fits);
    posted_late = λ p. refl;
    tid_known = v.tid_known ∙ rw e refl;
    shown = refl;
    living = v.living ∙ rw e refl;
    called = v.called ∙ rw e refl;
  }
  Step-IsFitting {s} v (loop_begins e) = record {
    caller_fits =
        kept thread_id this_loop callback_set quit_elsewhere beginning looping (λ x. cc) (λ x. cc)
          (λ x. refl) (λ x. absurd (cc)) (λ x. refl) s.caller
          (subst (CallerFits thread_id this_loop callback_set quit_elsewhere s.caller) e
            v.caller_fits);
    posted_late = λ p. refl;
    tid_known = v.tid_known ∙ rw e refl;
    shown = v.shown ∙ rw e refl;
    living = v.living ∙ rw e refl;
    called = v.called ∙ rw e refl;
  }
  Step-IsFitting {s} v (loop_returns e q) = record {
    caller_fits =
        kept thread_id this_loop callback_set quit_elsewhere looping clearing (λ x. cc) (λ x. cc)
          (λ x. refl) (λ x. absurd (cc)) (λ x. refl) s.caller
          (subst (CallerFits thread_id this_loop callback_set quit_elsewhere s.caller) e
            v.caller_fits);
    posted_late = λ p. refl;
    tid_known = v.tid_known ∙ rw e refl;
    shown = v.shown ∙ rw e refl;
    living = v.living ∙ rw e refl;
    called = v.called ∙ rw e refl;
  }
  Step-IsFitting {s} v (loop_is_cleared e) = record {
    caller_fits =
        kept thread_id this_loop callback_set quit_elsewhere clearing leaving (λ x. cc) (λ x. cc)
          (λ x. refl) (λ x. refl) (λ x. refl) s.caller
          (subst (CallerFits thread_id this_loop callback_set quit_elsewhere s.caller) e
            v.caller_fits);
    posted_late = λ p. refl;
    tid_known = v.tid_known ∙ rw e refl;
    shown = refl;
    living = v.living ∙ rw e refl;
    called = v.called ∙ rw e refl;
  }
  Step-IsFitting {s} v (loop_is_destroyed e) = record {
    caller_fits =
        kept thread_id this_loop callback_set quit_elsewhere leaving ended (λ x. cc) (λ x. cc)
          (λ x. refl) (λ x. refl) (λ x. refl) s.caller
          (subst (CallerFits thread_id this_loop callback_set quit_elsewhere s.caller) e
            v.caller_fits);
    posted_late = λ p. refl;
    tid_known = v.tid_known ∙ rw e refl;
    shown = v.shown ∙ rw e refl;
    living = refl;
    called = v.called ∙ rw e refl;
  }
  Step-IsFitting {s} v (quit_is_called_elsewhere e alive) =
      calls thread_id this_loop callback_set quit_elsewhere v s.caller s.posted true v.caller_fits
        v.posted_late
  Step-IsFitting {s} v (never_started e) =
      calls thread_id this_loop callback_set quit_elsewhere v gone s.posted s.quit
        (inr (
          subst (λ c. CallerFits thread_id this_loop callback_set quit_elsewhere c s.thread) e
            v.caller_fits))
        v.posted_late
  Step-IsFitting {s} v (loop_is_tested e f) =
      calls thread_id this_loop callback_set quit_elsewhere v quitting s.posted s.quit
        (subst (λ c. CallerFits thread_id this_loop callback_set quit_elsewhere c s.thread) e
          v.caller_fits).1
        v.posted_late
  Step-IsFitting {s} v (no_loop_is_found e f) =
      calls thread_id this_loop callback_set quit_elsewhere v gone s.posted s.quit
        (inl
          (subst (λ c. CallerFits thread_id this_loop callback_set quit_elsewhere c s.thread) e
            v.caller_fits).1)
        v.posted_late
  Step-IsFitting {s} v (loop_is_quit e alive) =
      calls thread_id this_loop callback_set quit_elsewhere v joining s.posted true
        (subst (λ c. CallerFits thread_id this_loop callback_set quit_elsewhere c s.thread) e
          v.caller_fits)
        v.posted_late
  Step-IsFitting {s} v (join_returns e f) =
      calls thread_id this_loop callback_set quit_elsewhere v gone s.posted s.quit
        (inl (
          subst (λ c. CallerFits thread_id this_loop callback_set quit_elsewhere c s.thread) e
            v.caller_fits))
        v.posted_late

  pub Reach-IsFitting :
      {s : EventLoopThread}
      → Reach thread_id this_loop callback_set quit_elsewhere s
      → IsFitting thread_id this_loop callback_set quit_elsewhere s
  Reach-IsFitting begun = record {
    caller_fits = refl;
    posted_late = λ p. cc;
    tid_known = refl;
    shown = refl;
    living = refl;
    called = refl;
  }
  Reach-IsFitting (later r step) = Step-IsFitting (Reach-IsFitting r) step
