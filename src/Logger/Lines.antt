-- ===== src/Logger/Lines.antt =====
-- What one thread's calls of the macros write.
use htcp_multithread.Prelude.{
  ℕ, ◌≡◌, refl, ap, sym, ◌∙◌, Bool, true, false, List, [], ◌∷◌, ◌++◌, if◌then◌else◌, take, codes,
  Bool-cases, inl, inr, append_assoc, append-nil,
}
use htcp_multithread.Timestamp
use htcp_multithread.Timestamp.{Timestamp, Tm}
use htcp_multithread.Logger.{
  Logger, LogLevel, info, error, fatal, debug, Outcome, goes_on, exited, log, set_log_level,
  log_info, log_error, log_fatal, log_debug, write_line,
}

-- One call of a macro: its level, the time, and the text.
pub data Message : Type 0 where
  message : LogLevel → (time : ℕ) → (text : List ℕ) → Message

-- The label of each level.
abbrev pub label : LogLevel → List ℕ
label info = codes "[INFO]"
label error = codes "[ERROR]"
label fatal = codes "[FATAL]"
label debug = codes "[DEBUG]"

module _ (localtime : ℕ → Tm) where
  -- An independent description of the line of a message.
  abbrev pub line : LogLevel → (time : ℕ) → (text : List ℕ) → List ℕ
  line level time text =
      label level
      ++ Timestamp.to_string localtime (Timestamp.now time)
      ++ codes ":"
      ++ take 1023 text
      ++ 10 ∷ []

  pub out-line :
      (level : LogLevel) (time : ℕ) (text : List ℕ) (s : Logger)
      → (write_line localtime level time text s).out ≡ s.out ++ line level time text
  unfolding log set_log_level
  out-line info time text s = simp append_assoc
  out-line error time text s = simp append_assoc
  out-line fatal time text s = simp append_assoc
  out-line debug time text s = simp append_assoc

module _ (localtime : ℕ → Tm) (modebug : Bool) where
  -- The macro of each level.
  abbrev pub write : Message → Logger → Outcome
  write (message info time text) s = log_info localtime time text s
  write (message error time text) s = log_error localtime time text s
  write (message fatal time text) s = log_fatal localtime time text s
  write (message debug time text) s = log_debug localtime modebug time text s

  -- The program's calls in turn, until one ends the process.
  abbrev pub and_then : Outcome → (Logger → Outcome) → Outcome
  and_then (goes_on s) f = f s
  and_then (exited s) f = exited s

  abbrev pub write_all : List Message → Logger → Outcome
  write_all [] s = goes_on s
  write_all (m ∷ ms) s = and_then (write m s) (write_all ms)

  -- An independent description: the messages that come out.
  abbrev pub lines : List Message → List ℕ
  lines [] = []
  lines (message info time text ∷ ms) = line localtime info time text ++ lines ms
  lines (message error time text ∷ ms) = line localtime error time text ++ lines ms
  lines (message fatal time text ∷ ms) = line localtime fatal time text
  lines (message debug time text ∷ ms) =
      (if modebug then line localtime debug time text else []) ++ lines ms

  abbrev pub has_fatal : List Message → Bool
  has_fatal [] = false
  has_fatal (message fatal time text ∷ ms) = true
  has_fatal (message _ time text ∷ ms) = has_fatal ms

  abbrev pub out_of : Outcome → List ℕ
  out_of (goes_on s) = s.out
  out_of (exited s) = s.out

  abbrev pub is_exited : Outcome → Bool
  is_exited (goes_on s) = false
  is_exited (exited s) = true

  -- A line in front of the others.
  behind :
      (level : LogLevel) (time : ℕ) (text : List ℕ) (ms : List Message) (s : Logger)
      → (out_of (write_all ms (write_line localtime level time text s))
          ≡ (write_line localtime level time text s).out ++ lines ms)
        × (is_exited (write_all ms (write_line localtime level time text s)) ≡ has_fatal ms)
      → (out_of (write_all ms (write_line localtime level time text s))
          ≡ s.out ++ (line localtime level time text ++ lines ms))
        × (is_exited (write_all ms (write_line localtime level time text s)) ≡ has_fatal ms)
  behind level time text ms s (e, f) = (
    e
        ∙ ap (λ o. o ++ lines ms) (out-line localtime level time text s)
        ∙ append_assoc s.out (line localtime level time text) (lines ms),
    f,
  )

  -- In a program of one thread, every message comes out as one line with the label of its own level, its
  -- time and at most 1023 characters of its text, in order; messages for debugging only if MODEBUG is
  -- defined. The first fatal message is the last that comes out, and the process ends exactly if
  -- there is one.
  pub write_all_lem :
      (ms : List Message) (s : Logger)
      → (out_of (write_all ms s) ≡ s.out ++ lines ms) × (is_exited (write_all ms s) ≡ has_fatal ms)
  unfolding log_info log_error log_fatal log_debug log set_log_level
  write_all_lem [] s = (sym (append-nil s.out), refl)
  write_all_lem (message info time text ∷ ms) s = behind info time text ms s (write_all_lem ms _)
  write_all_lem (message error time text ∷ ms) s = behind error time text ms s (write_all_lem ms _)
  write_all_lem (message fatal time text ∷ ms) s = (out-line localtime fatal time text s, refl)
  write_all_lem (message debug time text ∷ ms) s = elim (Bool-cases modebug) [
    | inl e ↦ rw e (behind debug time text ms s (write_all_lem ms _))
    | inr e ↦ rw e (write_all_lem ms s)
  ]
