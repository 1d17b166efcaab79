-- ===== src/Thread/Tests.antt =====
-- A thread that is started, joined, started again and joined.
use htcp_multithread.Prelude.{◌≡◌, true, [], ◌∷◌}
use htcp_multithread.Thread.{init}
use htcp_multithread.Thread.Life.{starts, joins, live, is_some, live_lem}

live_lem_example : is_some (live (starts 41 ∷ joins ∷ starts 42 ∷ joins ∷ []) (init 6 []).0) ≡ true
live_lem_example = live_lem 6 [] (starts 41 ∷ joins ∷ starts 42 ∷ joins ∷ [])
