-- ===== src/Logger/Race.antt =====
-- Two threads that log at once: the level is set in one step and used in a later one.
use htcp_multithread.Prelude.{ℕ, ◌≡◌, refl, ap, ◌∙◌, List, ◌++◌, take}
use htcp_multithread.Timestamp.{Tm}
use htcp_multithread.Logger.{
  Logger, LogLevel, instance_, level_value, set_log_level, log, write_line,
}
use htcp_multithread.Logger.Lines.{Message, message, line, out-line}

-- Where a thread is in its macro: before `setLogLevel`, before `log`, or behind it.
pub data Pc : Type 0 where
  before level_set written : Pc

pub record Race : Type 0 where
  pub logger : Logger
  pub first : Pc
  pub second : Pc

abbrev pub begun : Race
begun = record { logger = instance_; first = before; second = before }

abbrev pub set_level : Message → Logger → Logger
set_level (message level time text) s = set_log_level (level_value level) s

module _ (localtime : ℕ → Tm) where
  abbrev pub write : Message → Logger → Logger
  write (message level time text) s = log localtime time (take 1023 text) s

  -- Each thread has one message to log.
  module _ (m₁ m₂ : Message) where
    pub data Step (s : Race) : Race → Type 0 where
      first_sets :
          s.first ≡ before → Step s (record s { logger = set_level m₁ s.logger; first = level_set })
      first_writes :
          s.first ≡ level_set → Step s (record s { logger = write m₁ s.logger; first = written })
      second_sets :
          s.second ≡ before
          → Step s (record s { logger = set_level m₂ s.logger; second = level_set })
      second_writes :
          s.second ≡ level_set → Step s (record s { logger = write m₂ s.logger; second = written })

    pub data Reach : Race → Type 0 where
      start : Reach begun
      later : {s t : Race} → Reach s → Step s t → Reach t

-- There is a run of two threads that both log in which the first thread's text comes out under the level
-- of the second, whatever the two levels, times and texts are.
pub wrong_label :
    (localtime : ℕ → Tm) (l₁ l₂ : LogLevel) (t₁ t₂ : ℕ) (x₁ x₂ : List ℕ)
    → (s : Race) × Reach localtime (message l₁ t₁ x₁) (message l₂ t₂ x₂) s
      × (s.first ≡ written)
      × (s.second ≡ written)
      × (s.logger.out ≡ line localtime l₂ t₁ x₁ ++ line localtime l₂ t₂ x₂)
unfolding set_log_level log
wrong_label localtime l₁ l₂ t₁ t₂ x₁ x₂ = (
  _,
  later (later (later (later start (first_sets refl)) (second_sets refl)) (first_writes refl))
      (second_writes refl),
  refl,
  refl,
  out-line localtime l₂ t₂ x₂
        (write_line localtime l₂ t₁ x₁ (set_log_level (level_value l₁) instance_))
      ∙ ap (λ o. o ++ line localtime l₂ t₂ x₂)
          (out-line localtime l₂ t₁ x₁ (set_log_level (level_value l₁) instance_)),
)
