-- ===== src/Logger/Tests.antt =====
-- A program of one thread, and two threads at once.
use htcp_multithread.Prelude.{ℕ, ◌≡◌, true, false, List, [], ◌∷◌, ◌++◌, codes}
use htcp_multithread.Timestamp.{Tm}
use htcp_multithread.Logger.{info, error, fatal, debug, instance_}
use htcp_multithread.Logger.Lines.{
  Message, message, write_all, out_of, is_exited, line, write_all_lem,
}
use htcp_multithread.Logger.Race.{Reach, Race, written, wrong_label}

abbrev noon : ℕ → Tm
noon time = record { tm_year = 123; tm_mon = 2; tm_mday = 5; tm_hour = 12; tm_min = 0; tm_sec = 0 }

abbrev messages : List Message
messages =
    message info 0 (codes "up")
    ∷ message debug 0 (codes "details")
    ∷ message fatal 0 (codes "no socket")
    ∷ message error 0 (codes "never seen")
    ∷ []

write_all_lem_example :
    (out_of noon false (write_all noon false messages instance_)
      ≡ line noon info 0 (codes "up") ++ line noon fatal 0 (codes "no socket"))
    × (is_exited noon false (write_all noon false messages instance_) ≡ true)
write_all_lem_example = write_all_lem noon false messages instance_

wrong_label_example :
    (s : Race) × Reach noon (message info 0 (codes "fine")) (message error 0 (codes "broken")) s
    × (s.first ≡ written)
    × (s.second ≡ written)
    × (s.logger.out ≡ line noon error 0 (codes "fine") ++ line noon error 0 (codes "broken"))
wrong_label_example = wrong_label noon info error 0 0 (codes "fine") (codes "broken")
