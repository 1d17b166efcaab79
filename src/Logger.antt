-- ===== src/Logger.antt =====
-- Logger.h and Logger.cc: the log of the process, with the level of the line to come as shared state.
pub mod Lines
pub mod Race
mod Tests
use htcp_multithread.Prelude.{
  ℕ, Bool, true, false, List, [], ◌∷◌, ◌++◌, ◌==◌, if◌then◌else◌, take, codes,
}
use htcp_multithread.Timestamp
use htcp_multithread.Timestamp.{Timestamp, Tm}

pub data LogLevel : Type 0 where
  info error fatal debug : LogLevel

-- The value of an enumerator.
abbrev pub level_value : LogLevel → ℕ
level_value info = 0
level_value error = 1
level_value fatal = 2
level_value debug = 3

-- `out` is what was written to `std::cout`.
pub record Logger : Type 0 where
  pub log_level : ℕ
  pub out : List ℕ

-- The unique instance is in static storage, so that its level begins as 0.
abbrev pub instance_ : Logger
instance_ = record { log_level = 0; out = [] }

unfoldable pub set_log_level : ℕ → Logger → Logger
set_log_level level s = record s { log_level = level }

abbrev pub level_label : ℕ → List ℕ
level_label level =
    if level == 0
    then codes "[INFO]"
    else if level == 1
    then codes "[ERROR]"
    else if level == 2
    then codes "[FATAL]"
    else if level == 3
    then codes "[DEBUG]"
    else []

-- How a macro ends: the program goes on, or `exit(-1)` was called.
pub data Outcome : Type 0 where
  goes_on exited : Logger → Outcome

-- `localtime` is the function of the C library, and `time` what the system call of that name returns.
module _ (localtime : ℕ → Tm) where
  unfoldable pub log : (time : ℕ) → List ℕ → Logger → Logger
  log time msg s = record s {
    out =
        s.out
        ++ level_label s.log_level
        ++ Timestamp.to_string localtime (Timestamp.now time)
        ++ codes ":"
        ++ msg
        ++ 10 ∷ [];
  }

  -- The body that the macros share: `text` is what the format makes of its arguments, which `snprintf`
  -- cuts to 1023 characters and a zero.
  abbrev pub write_line : LogLevel → (time : ℕ) → (text : List ℕ) → Logger → Logger
  write_line level time text s = log time (take 1023 text) (set_log_level (level_value level) s)

  unfoldable pub log_info : (time : ℕ) → (text : List ℕ) → Logger → Outcome
  log_info time text s = goes_on (write_line info time text s)

  unfoldable pub log_error : (time : ℕ) → (text : List ℕ) → Logger → Outcome
  log_error time text s = goes_on (write_line error time text s)

  unfoldable pub log_fatal : (time : ℕ) → (text : List ℕ) → Logger → Outcome
  log_fatal time text s = exited (write_line fatal time text s)

  -- `modebug` is whether MODEBUG is defined; without it the macro is empty.
  unfoldable pub log_debug : (modebug : Bool) (time : ℕ) → (text : List ℕ) → Logger → Outcome
  log_debug modebug time text s = goes_on (if modebug then write_line debug time text s else s)
