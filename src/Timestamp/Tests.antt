-- ===== src/Timestamp/Tests.antt =====
-- Nine in the evening of 5 March 2023.
use htcp_multithread.Prelude.{ℕ, ◌≡◌, refl, length, codes, arith}
use htcp_multithread.Prelude.Decimal.{decimal}
use htcp_multithread.Timestamp.{Tm, now, to_string}
use htcp_multithread.Timestamp.Text.{parse, to_string_lem}

abbrev evening : Tm
evening = record { tm_year = 123; tm_mon = 2; tm_mday = 5; tm_hour = 21; tm_min = 0; tm_sec = 7 }

abbrev localtime : ℕ → Tm
localtime time = evening

evening_text : to_string localtime (now 1678050007) ≡ codes "2023/03/05 21:00:07"
unfolding to_string now decimal
evening_text = refl

to_string_lem_example :
    (length (to_string localtime (now 1678050007)) ≡ 19)
    × (parse (to_string localtime (now 1678050007)) ≡ evening)
to_string_lem_example =
    to_string_lem localtime (now 1678050007)
      (omega arith, omega arith, omega arith, omega arith, omega arith, omega arith)
