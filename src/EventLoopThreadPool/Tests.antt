-- ===== src/EventLoopThreadPool/Tests.antt =====
-- A pool with two loops.
use htcp_multithread.Prelude.{◌≡◌, refl, true, some, [], ◌∷◌, arith}
use htcp_multithread.Prelude.Decimal.{decimal}
use htcp_multithread.EventLoopThreadPool.{EventLoopThreadPool, get_all_loops}
use htcp_multithread.EventLoopThreadPool.RoundRobin.{IsInside, deal, deal_from}

abbrev two_loops : EventLoopThreadPool
two_loops = record {
  base_loop = 1;
  name = [];
  started = true;
  num_threads = 2;
  next = 1;
  threads = [];
  loops = 100 ∷ 200 ∷ [];
  inits = [];
}

decimal_example : decimal 120 ≡ 49 ∷ 50 ∷ 48 ∷ []
unfolding decimal
decimal_example = refl

two_loops-IsInside : IsInside two_loops
unfolding get_all_loops
two_loops-IsInside = omega arith

deal_from_example : deal 3 two_loops ≡ some (200 ∷ 100 ∷ 200 ∷ [], record two_loops { next = 0 })
unfolding get_all_loops
deal_from_example = deal_from 3 two_loops two_loops-IsInside
