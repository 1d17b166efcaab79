-- ===== src/CurrentThread/Tests.antt =====
-- Threads that ask for their ids.
use htcp_multithread.Prelude.{ℕ, ◌+◌, ◌%◌, ◌≤◌, ◌≡◌, ◌↔◌, true, [], ◌∷◌, arith}
use htcp_multithread.CurrentThread.{init, tids, is_in_loop_thread}
use htcp_multithread.CurrentThread.Cache.{
  IsCached, IsPid, count, init-IsCached, tids_lem, is_in_loop_thread_lem,
}

abbrev gettid : ℕ → ℕ
gettid t = 1000 + t % 1000

gettid-IsPid : IsPid gettid
gettid-IsPid t = (omega arith, omega arith)

abbrev owner : ℕ
owner = 3

tids_lem_example :
    ((tids gettid (3 ∷ 5 ∷ 3 ∷ []) init).0 ≡ 1003 ∷ 1005 ∷ 1003 ∷ [])
    × ((t : ℕ) → count t (tids gettid (3 ∷ 5 ∷ 3 ∷ []) init).1.asked ≤ 1)
tids_lem_example = tids_lem gettid gettid-IsPid (3 ∷ 5 ∷ 3 ∷ [])

is_in_loop_thread_lem_example :
    (((is_in_loop_thread gettid 1003 5 init).0 ≡ true) ↔ (owner ≡ 5))
    × IsCached gettid (is_in_loop_thread gettid 1003 5 init).1
is_in_loop_thread_lem_example =
    is_in_loop_thread_lem gettid gettid-IsPid 3 5 init (λ e. absurd (omega (arith, e)))
      (init-IsCached gettid)
