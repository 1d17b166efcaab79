-- ===== src/CurrentThread.antt =====
-- CurrentThread.h, CurrentThread.cc, and `isInLoopThread` of EventLoop.h: a thread's id, asked of the
-- kernel once and then kept by the thread.
pub mod Cache
mod Tests
use htcp_multithread.Prelude.{
  ℕ, ◌+◌, ◌%◌, ◌^◌, Bool, true, false, List, [], ◌∷◌, ◌==◌, if◌then◌else◌,
}

-- `t_cachedTid` of every thread, 0 before it is known, and the world: which threads made the system
-- call, the latest first.
pub record CurrentThread : Type 0 where
  pub t_cached_tid : ℕ → ℕ
  pub asked : List ℕ

abbrev pub init : CurrentThread
init = record { t_cached_tid = λ t. 0; asked = [] }

-- A write of thread `t` to its own variable.
abbrev pub update : (t v : ℕ) → (ℕ → ℕ) → ℕ → ℕ
update t v f u = if u == t then v else f u

-- `gettid` is what the kernel tells each thread. A `pid_t` has 32 bits.
module _ (gettid : ℕ → ℕ) where
  unfoldable pub cache_tid : (t : ℕ) → CurrentThread → CurrentThread
  cache_tid t s =
      if s.t_cached_tid t == 0
      then record {
        t_cached_tid = update t (gettid t % 2 ^ 32) s.t_cached_tid;
        asked = t ∷ s.asked;
      }
      else s

  unfoldable pub tid : (t : ℕ) → CurrentThread → ℕ × CurrentThread
  tid t s = let s₁ = if s.t_cached_tid t == 0 then cache_tid t s else s in (s₁.t_cached_tid t, s₁)

  -- `thread_id` is the loop's `threadId_`, and `t` the thread that asks.
  unfoldable pub is_in_loop_thread : (thread_id t : ℕ) → CurrentThread → Bool × CurrentThread
  is_in_loop_thread thread_id t s = let (id, s₁) = tid t s in (thread_id == id, s₁)

  -- The threads that ask for their ids, one after the other.
  abbrev pub tids : List ℕ → CurrentThread → List ℕ × CurrentThread
  tids [] s = ([], s)
  tids (t ∷ ts) s = let (id, s₁) = tid t s in let (ids, s₂) = tids ts s₁ in (id ∷ ids, s₂)
