-- ===== src/Utils/Logging.antt =====
-- src/utils/logging.h: the logger of the program, with its two sinks.
--
-- What spdlog does with levels is an interface. Opening the file of the first sink, which may throw, is
-- a part of `src/main.cpp`'s start.
use trader_cpp.Base.{
  ℕ, ◌≤◌, ◌<◌, ◌≡◌, refl, ◌↔◌, ◌⊎◌, Bool, true, Option, List, [], ◌∷◌, Text, codes, if◌then◌else◌,
  leb, arith,
}

-- `spdlog::level::level_enum`, in its order.
pub data Level : Type 0 where
  trace debug info warn err critical off : Level

unfoldable pub severity : Level → ℕ
severity trace = 0
severity debug = 1
severity info = 2
severity warn = 3
severity err = 4
severity critical = 5
severity off = 6

pub record Spdlog : Type 0 where
  -- What `load_env_levels` does to the logger's level, for the variable that it is told to read.
  pub load_env_levels : Option Text → Level → Level
  -- Whether a logger or a sink of the first level takes a message of the second.
  pub should_log : Level → Level → Bool
  pub should_log_iff :
      (at message : Level) → (should_log at message ≡ true) ↔ (severity at ≤ severity message)

pub data Target : Type 0 where
  file stdout : Target

pub record Sink : Type 0 where
  pub target : Target
  pub level : Level

pub record Logger : Type 0 where
  pub sinks : List Sink
  pub level : Level
  pub pattern : Text
  pub flush_every : ℕ

module _ (spdlog : Spdlog) where
  -- The default logger after `configure`, for the value of LOG_LEVEL. A new logger has the level `info`.
  unfoldable pub logger : Option Text → Logger
  logger log_level =
      let file_sink : Sink = record { target = file; level = info } in
      let stdout_sink : Sink = record { target = stdout; level = critical } in
      record {
        sinks = file_sink ∷ stdout_sink ∷ [];
        level = spdlog.load_env_levels log_level info;
        pattern = codes "[%Y-%m-%d %H:%M:%S.%e] [%^%l%$] [%t] %v";
        flush_every = 1;
      }

  unfoldable pub written_by : Level → List Sink → List Target
  written_by message [] = []
  written_by message (sink ∷ sinks) =
      if spdlog.should_log sink.level message
      then sink.target ∷ written_by message sinks
      else written_by message sinks

  -- Where a message of a level is written.
  unfoldable pub log : Logger → Level → List Target
  unfolding written_by
  log l message = if spdlog.should_log l.level message then written_by message l.sinks else []

  should_log-leb :
      (at message : Level) → spdlog.should_log at message ≡ leb (severity at) (severity message)
  should_log-leb at message =
      let both : (spdlog.should_log at message ≡ true) ↔ (severity at ≤ severity message) =
        spdlog.should_log_iff at message in
      ground arith

  log-eq :
      (log_level : Option Text) (message : Level)
      → let l = logger log_level in
        log l message ≡ (
          if leb (severity l.level) (severity message)
          then (if leb 2 (severity message)
              then file ∷ (if leb 5 (severity message) then stdout ∷ [] else [])
              else (if leb 5 (severity message) then stdout ∷ [] else []))
          else [])
  unfolding log logger severity
  log-eq log_level message =
      rw
        (
          should_log-leb info message,
          should_log-leb critical message,
          should_log-leb (spdlog.load_env_levels log_level info) message,
        )
        refl

  -- Whatever LOG_LEVEL makes the logger's level, a message is written nowhere if it is less than `info`
  -- or less than that level; if it is neither, to the file alone if it is less than critical, and to the
  -- file and the console if it is not.
  pub log-logger :
      (log_level : Option Text) (message : Level)
      → let l = logger log_level in
        ((log l message ≡ [])
          × ((severity message < severity info) ⊎ (severity message < severity l.level)))
        ⊎ ((log l message ≡ file ∷ [])
            × (severity info ≤ severity message)
            × (severity message < severity critical)
            × (severity l.level ≤ severity message))
        ⊎ ((log l message ≡ file ∷ stdout ∷ [])
            × (severity critical ≤ severity message)
            × (severity l.level ≤ severity message))
  unfolding severity
  log-logger log_level message = rw (log-eq log_level message) (ground arith)
