-- ===== src/Utils/Process.antt =====
-- src/utils/process.h on Linux and macOS: the priority of the process.
pub mod Windows
pub mod Platforms
use trader_cpp.Base.{
  ◌≡◌, refl, ◌⊎◌, inl, inr, Bool-cases, ℕ, List, [], ◌∷◌, ◌++◌, Text, codes, Outcome, throw,
  runtime_error, priority_failed, done, if◌then◌else◌, ◌==◌,
}
use trader_cpp.Utils.Crash.{ℤ, negsuc}

pub record Posix : Type 0 where
  -- What the system call of that name returns for a nice value; 0 means success.
  pub setpriority : ℤ → ℕ
  -- The description of `errno` after it.
  pub strerror : Text

-- The lines that a call writes to the standard error stream, and how it ends.
abbrev pub Written : Type 0
Written = List Text × Outcome (Unit {0})

unfoldable pub set_process_priority : Posix → ℤ → Written
set_process_priority posix priority =
    if posix.setpriority priority == 0
    then ([], done)
    else ((codes "setpriority: " ++ posix.strerror) ∷ [], throw (runtime_error priority_failed))

-- The nice value is -20.
unfoldable pub set_high_priority : Posix → Written
unfolding set_process_priority
set_high_priority posix = set_process_priority posix (negsuc 19)
