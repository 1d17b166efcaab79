-- ===== src/EventLoopThread/Handshake/Ending.antt =====
-- A loop that nobody but the destructor quits.
use htcp_multithread.Prelude.{
  ℕ, ◌≡◌, subst, refl, ap, sym, ◌∙◌, Bool, true, false, none, some, if◌then◌else◌, ◌⊎◌, inl, inr,
}
use htcp_multithread.EventLoopThread.{
  EventLoopThread, CallerPc, ThreadPc, idle, awaiting_tid, checking, blocked, returned, quitting,
  joining, gone, unborn, starting, creating, calling_back, publishing, beginning, looping, clearing,
  leaving, ended, notify, Step, Reach, begun, later, thread_is_started, tid_is_posted,
  start_returns, loop_is_found, caller_sleeps, wait_returns, loop_is_created, callback_returns,
  loop_is_published, loop_begins, loop_returns, loop_is_cleared, loop_is_destroyed,
  quit_is_called_elsewhere, never_started, loop_is_tested, no_loop_is_found, loop_is_quit,
  join_returns,
}
use htcp_multithread.EventLoopThread.Handshake.{CallerFits, IsFitting, has_published, shows_loop}
use htcp_multithread.EventLoopThread.Handshake.Invariant.{Reach-IsFitting}

-- The loop has returned.
abbrev pub has_left : ThreadPc → Bool
has_left clearing = true
has_left leaving = true
has_left ended = true
has_left _ = false

abbrev is_under_way : ThreadPc → Bool
is_under_way unborn = false
is_under_way ended = false
is_under_way _ = true

-- The destructor has called `quit`.
abbrev pub has_quit : CallerPc → Bool
has_quit joining = true
has_quit gone = true
has_quit _ = false

module _ (thread_id this_loop : ℕ) (callback_set : Bool) where
  -- Only the destructor quits the loop, and it is through only when the thread has ended.
  pub record IsOurs (s : EventLoopThread) : Type 0 where
    pub told : s.quit ≡ true → has_quit s.caller ≡ true
    pub left : has_left s.thread ≡ true → has_quit s.caller ≡ true
    pub through : s.caller ≡ gone → (s.thread ≡ ended) ⊎ (s.thread ≡ unborn)

  abbrev pub Reaches : EventLoopThread → Type 0
  Reaches s = Reach thread_id this_loop callback_set false s

  -- A thread that shows no loop although it published one has left it.
  hidden-left :
      (pc : ThreadPc)
      → has_published pc ≡ true
      → (if shows_loop pc then some this_loop else none) ≡ none
      → has_left pc ≡ true
  hidden-left beginning p e = absurd (cc)
  hidden-left looping p e = absurd (cc)
  hidden-left clearing p e = refl
  hidden-left leaving p e = refl
  hidden-left ended p e = refl
  hidden-left unborn p e = absurd (cc)
  hidden-left starting p e = absurd (cc)
  hidden-left creating p e = absurd (cc)
  hidden-left calling_back p e = absurd (cc)
  hidden-left publishing p e = absurd (cc)

  pub not_yet :
      {pc : CallerPc} (c : CallerPc) → c ≡ pc → has_quit pc ≡ false → has_quit c ≡ true → ⊥
  not_yet c e n h = absurd (cc (subst (λ x. has_quit x ≡ true) e h))

  -- A thread that is on its way has neither ended nor never begun.
  under_way :
      (now : ThreadPc) {pc next : ThreadPc}
      → now ≡ pc
      → is_under_way pc ≡ true
      → (now ≡ ended) ⊎ (now ≡ unborn)
      → (next ≡ ended) ⊎ (next ≡ unborn)
  under_way now e u (inl x) = absurd (cc (sym u ∙ ap is_under_way (sym e ∙ x)))
  under_way now e u (inr x) = absurd (cc (sym u ∙ ap is_under_way (sym e ∙ x)))

  -- A step of a caller that goes on and is not in the destructor's last part.
  waits :
      {s : EventLoopThread} {c c' : CallerPc} {posted : Bool}
      → IsOurs s
      → s.caller ≡ c
      → has_quit c ≡ false
      → has_quit c' ≡ false
      → IsOurs (record s { caller = c'; posted = posted })
  waits {s} v e n n' = record {
    told = λ q. absurd (not_yet s.caller e n (v.told q));
    left = λ l. absurd (not_yet s.caller e n (v.left l));
    through = λ g. absurd (cc (sym n' ∙ ap has_quit g));
  }

  has_quit-notify : (c : CallerPc) → has_quit (notify c) ≡ has_quit c
  has_quit-notify idle = refl
  has_quit-notify awaiting_tid = refl
  has_quit-notify checking = refl
  has_quit-notify blocked = refl
  has_quit-notify (returned l) = refl
  has_quit-notify quitting = refl
  has_quit-notify joining = refl
  has_quit-notify gone = refl

  notify-gone : (c : CallerPc) → notify c ≡ gone → c ≡ gone
  notify-gone idle g = g
  notify-gone awaiting_tid g = g
  notify-gone checking g = g
  notify-gone blocked g = absurd (cc)
  notify-gone (returned l) g = g
  notify-gone quitting g = g
  notify-gone joining g = g
  notify-gone gone g = g

  Step-IsOurs :
      {s t : EventLoopThread}
      → IsFitting thread_id this_loop callback_set false s
      → IsOurs s
      → Step thread_id this_loop callback_set false s t
      → IsOurs t
  Step-IsOurs {s} f v (thread_is_started e) = record {
    told = λ q. absurd (not_yet s.caller e refl (v.told q));
    left = λ l. absurd (cc);
    through = λ g. absurd (cc);
  }
  Step-IsOurs {s} f v (tid_is_posted e) = record {
    told = v.told;
    left = λ l. absurd (cc);
    through = λ g. under_way s.thread e refl (v.through g);
  }
  Step-IsOurs {s} f v (start_returns e p) = waits v e refl refl
  Step-IsOurs {s} f v (loop_is_found e p) = waits v e refl refl
  Step-IsOurs {s} f v (caller_sleeps e p) = waits v e refl refl
  Step-IsOurs {s} f v (wait_returns e) = waits v e refl refl
  Step-IsOurs {s} f v (loop_is_created e) = record {
    told = v.told;
    left = λ l. absurd (cc);
    through = λ g. under_way s.thread e refl (v.through g);
  }
  Step-IsOurs {s} f v (callback_returns e) = record {
    told = v.told;
    left = λ l. absurd (cc);
    through = λ g. under_way s.thread e refl (v.through g);
  }
  Step-IsOurs {s} f v (loop_is_published e) = record {
    told = λ q. has_quit-notify s.caller ∙ v.told q;
    left = λ l. absurd (cc);
    through = λ g. under_way s.thread e refl (v.through (notify-gone s.caller g));
  }
  Step-IsOurs {s} f v (loop_begins e) = record {
    told = λ q. absurd (cc);
    left = λ l. absurd (cc);
    through = λ g. under_way s.thread e refl (v.through g);
  }
  Step-IsOurs {s} f v (loop_returns e q) = record {
    told = v.told;
    left = λ l. v.told q;
    through = λ g. under_way s.thread e refl (v.through g);
  }
  Step-IsOurs {s} f v (loop_is_cleared e) = record {
    told = v.told;
    left = λ l. v.left (rw e refl);
    through = λ g. under_way s.thread e refl (v.through g);
  }
  Step-IsOurs {s} f v (loop_is_destroyed e) = record {
    told = v.told;
    left = λ l. v.left (rw e refl);
    through = λ g. inl refl;
  }
  Step-IsOurs {s} f v (quit_is_called_elsewhere e alive) = record {
    told = absurd (cc);
    left = absurd (cc);
    through = absurd (cc);
  }
  Step-IsOurs {s} f v (never_started e) = record {
    told = λ q. refl;
    left = λ l. refl;
    through = λ g.
        inr (
          subst (λ c. CallerFits thread_id this_loop callback_set false c s.thread) e
            f.caller_fits);
  }
  Step-IsOurs {s} f v (loop_is_tested e p) = waits v e refl refl
  Step-IsOurs {s} f v (no_loop_is_found e p) = record {
    told = λ q. refl;
    left = λ l. refl;
    through = λ g. absurd (
        not_yet s.caller e refl (
          v.left (
            hidden-left s.thread
              (subst (λ c. CallerFits thread_id this_loop callback_set false c s.thread) e
                f.caller_fits).1
              (sym f.shown ∙ p))));
  }
  Step-IsOurs {s} f v (loop_is_quit e alive) = record {
    told = λ q. refl;
    left = λ l. refl;
    through = λ g. absurd (cc);
  }
  Step-IsOurs {s} f v (join_returns e p) = record {
    told = λ q. refl;
    left = λ l. refl;
    through = λ g. inl p;
  }

  pub Reach-IsOurs : {s : EventLoopThread} → Reaches s → IsOurs s
  Reach-IsOurs begun = record {
    told = λ q. absurd (cc);
    left = λ l. absurd (cc);
    through = λ g. inr refl;
  }
  Reach-IsOurs (later r step) =
      Step-IsOurs (Reach-IsFitting thread_id this_loop callback_set false r) (Reach-IsOurs r) step
