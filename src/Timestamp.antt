-- ===== src/Timestamp.antt =====
-- Timestamp.h and Timestamp.cc: a moment, in seconds although the field is named after microseconds, and
-- its text.
pub mod Text
mod Tests
use htcp_multithread.Prelude.{ℕ, ◌+◌, ◌-◌, ◌≤◌, ◌<◌, List, [], ◌∷◌, ◌++◌, length, take, replicate}
use htcp_multithread.Prelude.Decimal.{decimal}

pub record Timestamp : Type 0 where
  pub micro_seconds_since_epoch : ℕ

unfoldable pub init : Timestamp
init = record { micro_seconds_since_epoch = 0 }

-- `time` is what the system call of that name returns.
unfoldable pub now : (time : ℕ) → Timestamp
now time = record { micro_seconds_since_epoch = time }

-- `struct tm` of the C library, without the fields that are not used. `tm_year` counts from 1900, `tm_mon`
-- from 0.
pub record Tm : Type 0 where
  pub tm_year : ℕ
  pub tm_mon : ℕ
  pub tm_mday : ℕ
  pub tm_hour : ℕ
  pub tm_min : ℕ
  pub tm_sec : ℕ

-- A number in at least `width` characters, the missing ones at its left.
abbrev pub pad : (width fill n : ℕ) → List ℕ
pad width fill n = replicate (width - length (decimal n)) fill ++ decimal n

-- `localtime` is the function of the C library. The format is "%4d/%02d/%02d %02d:%02d:%02d", into 128
-- bytes with the final zero.
unfoldable pub to_string : (localtime : ℕ → Tm) → Timestamp → List ℕ
to_string localtime t =
    let tm_time = localtime t.micro_seconds_since_epoch in
    take 127 (
      pad 4 32 (tm_time.tm_year + 1900)
      ++ (47
          ∷ (pad 2 48 (tm_time.tm_mon + 1)
              ++ (47
                  ∷ (pad 2 48 tm_time.tm_mday
                      ++ (32
                          ∷ (pad 2 48 tm_time.tm_hour
                              ++ (58
                                  ∷ (pad 2 48 tm_time.tm_min
                                      ++ (58 ∷ pad 2 48 tm_time.tm_sec))))))))))
