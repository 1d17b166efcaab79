-- ===== src/EventLoopThreadPool.antt =====
-- EventLoopThreadPool.h and EventLoopThreadPool.cc: the loops that share the connections.
pub mod RoundRobin
mod Tests
use htcp_multithread.Prelude.{
  ℕ, zero, suc, ◌+◌, Bool, true, false, ◌&&◌, Option, none, some, List, [], ◌∷◌, ◌++◌, leb, ◌==◌,
  if◌then◌else◌, length, get_elem?, ◌>>=◌,
}
use htcp_multithread.Prelude.Decimal.{decimal}

-- Loops are named by their addresses. `threads` has the names of the threads that were made.
-- `inits` are the loops that the thread-init callback was called for in the base thread.
pub record EventLoopThreadPool : Type 0 where
  pub base_loop : ℕ
  pub name : List ℕ
  pub started : Bool
  pub num_threads : ℕ
  pub next : ℕ
  pub threads : List (List ℕ)
  pub loops : List ℕ
  pub inits : List ℕ

unfoldable pub init : ℕ → List ℕ → EventLoopThreadPool
init base_loop name = record {
  base_loop = base_loop;
  name = name;
  started = false;
  num_threads = 0;
  next = 0;
  threads = [];
  loops = [];
  inits = [];
}

unfoldable pub set_thread_num : ℕ → EventLoopThreadPool → EventLoopThreadPool
set_thread_num n p = record p { num_threads = n }

-- The round `i` of the loop in `start`: a thread with the pool's name and `i`, whose `startLoop`
-- returns the address of its loop. The name's buffer has 32 bytes for a number of at most 11.
abbrev pub start_thread : (start_loop : List ℕ → ℕ) → ℕ → EventLoopThreadPool → EventLoopThreadPool
start_thread start_loop i p =
    let name = p.name ++ decimal i in
    record p { threads = p.threads ++ name ∷ []; loops = p.loops ++ start_loop name ∷ [] }

abbrev pub start_threads :
    (start_loop : List ℕ → ℕ) → (n i : ℕ) → EventLoopThreadPool → EventLoopThreadPool
start_threads start_loop zero i p = p
start_threads start_loop (suc n) i p =
    start_threads start_loop n (suc i) (start_thread start_loop i p)

unfoldable pub start :
    (start_loop : List ℕ → ℕ) → (callback_set : Bool) → EventLoopThreadPool → EventLoopThreadPool
start start_loop callback_set p =
    let p₁ = start_threads start_loop p.num_threads 0 (record p { started = true }) in
    if p₁.num_threads == 0 && callback_set
    then record p₁ { inits = p₁.inits ++ p₁.base_loop ∷ [] }
    else p₁

-- `none` is an access outside `loops_`, which the code does not check.
unfoldable pub get_next_loop : EventLoopThreadPool → Option (ℕ × EventLoopThreadPool)
get_next_loop p = if length p.loops == 0 then some (p.base_loop, p) else (do
  loop ← get_elem? p.loops p.next
  let next = p.next + 1
  some (loop, record p { next = if leb (length p.loops) next then 0 else next }))

unfoldable pub get_all_loops : EventLoopThreadPool → List ℕ
get_all_loops p = if length p.loops == 0 then p.base_loop ∷ [] else p.loops
