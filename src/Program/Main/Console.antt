-- ===== src/Program/Main/Console.antt =====
-- What a run of src/main.cpp writes to the console, by the levels of src/utils/logging.h.
use trader_cpp.Base.{
  drop, ℕ, ◌≡◌, ◌⊎◌, Bool, true, false, Option, none, some, List, [], ◌∷◌, ◌++◌, codes,
  runtime_error, priority_failed, if◌then◌else◌,
}
use trader_cpp.Core.Trade.{Trade}
use trader_cpp.External.CircularBuffer.{CircularBuffer}
use trader_cpp.Program.Main.{
  World, Act, named_thread, configured_logging, installed_handlers, raised_priority,
  started_initiator, started_box, looped, stopped_initiator, said_goodbye, critical,
  critical_unknown, main, main_name, stderr,
}
use trader_cpp.Program.Main.Endings.{up_to_loop}
use trader_cpp.Utils.Logging.{Spdlog, Level, Target, Sink, Logger, file, stdout, info, logger, log}
use trader_cpp.Utils.Logging
use trader_cpp.Utils.Process.Platforms.{Platform, posix, windows}

-- The level at which an act is logged, if it is.
unfoldable pub logged_at : Act → Option Level
logged_at (named_thread n) = none
logged_at configured_logging = some info
logged_at installed_handlers = none
logged_at raised_priority = none
logged_at started_initiator = some info
logged_at (started_box b) = none
logged_at looped = none
logged_at stopped_initiator = some info
logged_at said_goodbye = some info
logged_at (critical e) = some Level.critical
logged_at critical_unknown = some Level.critical

abbrev pub has_stdout : List Target → Bool
has_stdout [] = false
has_stdout (file ∷ ts) = has_stdout ts
has_stdout (stdout ∷ ts) = true

-- The logger of spdlog before there is another: everything from `info` on, to the console.
abbrev pub first_logger : Logger
first_logger = record {
  sinks = record { target = stdout; level = Level.trace } ∷ [];
  level = info;
  pattern = [];
  flush_every = 0;
}

module _ (spdlog : Spdlog) (log_level : Option (List ℕ)) where
  -- Whether the line about an act comes to the console.
  unfoldable pub is_shown : Logger → Option Level → Bool
  unfolding log
  is_shown l none = false
  is_shown l (some level) = has_stdout (log spdlog l level)

  -- The logger that is the default after an act, which is also the one that the act is logged with.
  unfoldable pub next_logger : Act → Logger → Logger
  unfolding logger
  next_logger configured_logging l = logger spdlog log_level
  next_logger _ l = l

  -- The acts whose lines come to the console, in order.
  unfoldable pub console : Logger → List Act → List Act
  unfolding logged_at is_shown next_logger
  console l [] = []
  console l (a ∷ acts) =
      let l' = next_logger a l in
      let rest = console l' acts in if is_shown l' (logged_at a) then a ∷ rest else rest

  -- The acts between the set-up of logging and the end.
  abbrev Quiet : Act → Type 0
  Quiet a = (logged_at a ≡ none) ⊎ (logged_at a ≡ some info)

  abbrev later : List Act
  later = drop 2 up_to_loop

module _ {S File Key OQ TQ B A : Type 0} (w : World S File Key OQ TQ B A) (R : Type 0)
    ⦃ring : CircularBuffer Trade R⦄ where
  -- The system has refused the priority, which has ended the run, and said why.
  abbrev pub IsRefused : Platform → Type 0
  IsRefused (posix p) =
      (stderr w ≡ (codes "setpriority: " ++ p.strerror) ∷ [])
      × (main w R
          ≡ named_thread main_name
            ∷ configured_logging
            ∷ installed_handlers
            ∷ critical (runtime_error priority_failed)
            ∷ [])
  IsRefused (windows _) = ⊥
