-- ===== src/Utils/Process/Platforms.antt =====
-- src/utils/process.h on any platform.
use trader_cpp.Base.{[], Bool}
use trader_cpp.Utils.Process
use trader_cpp.Utils.Process.{Posix, Written}
use trader_cpp.Utils.Process.Windows
use trader_cpp.Utils.Process.Windows.{PriorityClass, high}

-- What the system's call does: `setpriority`, or `SetPriorityClass`.
pub data Platform : Type 0 where
  posix : Posix → Platform
  windows : (PriorityClass → Bool) → Platform

unfoldable pub set_high_priority : Platform → Written
unfolding Process.set_high_priority Windows.set_high_priority
set_high_priority (posix p) = Process.set_high_priority p
set_high_priority (windows set_priority_class) = ([], Windows.set_high_priority set_priority_class)
