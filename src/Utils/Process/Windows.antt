-- ===== src/Utils/Process/Windows.antt =====
-- The branches of src/utils/process.h for Windows.
use trader_cpp.Base.{
  Bool, Outcome, throw, runtime_error, priority_failed, done, if◌then◌else◌, ◌==◌,
}
use trader_cpp.Utils.Crash.{ℤ, pos, negsuc}

-- NORMAL_PRIORITY_CLASS and so on.
pub data PriorityClass : Type 0 where
  normal high realtime : PriorityClass

unfoldable pub switch_priority : ℤ → PriorityClass
switch_priority (pos n) = if n == 1 then high else (if n == 2 then realtime else normal)
switch_priority (negsuc _) = normal

-- `set_priority_class` says whether the system call of that name succeeds.
unfoldable pub set_process_priority : (PriorityClass → Bool) → ℤ → Outcome (Unit {0})
unfolding switch_priority
set_process_priority set_priority_class priority =
    if set_priority_class (switch_priority priority)
    then done
    else throw (runtime_error priority_failed)

unfoldable pub set_high_priority : (PriorityClass → Bool) → Outcome (Unit {0})
unfolding set_process_priority
set_high_priority set_priority_class = set_process_priority set_priority_class (pos 1)
