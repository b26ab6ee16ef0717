-- ===== src/Utils/Threading/Platforms.antt =====
-- src/utils/threading.cpp on any platform.
use trader_cpp.Base.{
  ℕ, [], Text, Outcome, ok, throw, runtime_error, unsupported_platform, if◌then◌else◌, ltb,
}
use trader_cpp.Utils.Threading
use trader_cpp.Utils.Threading.{Linux, realtime_result}
use trader_cpp.Utils.Threading.MacOs
use trader_cpp.Utils.Threading.MacOs.{MacOs}
use trader_cpp.Utils.Threading.Windows
use trader_cpp.Utils.Threading.Windows.{Windows}

-- A platform without branches of its own.
pub record Posix : Type 0 where
  pub hardware_concurrency : ℕ
  pub pthread_setschedparam : ℕ

pub data Platform : Type 0 where
  linux : Linux → Platform
  mac_os : MacOs → Platform
  windows : Windows → Platform
  posix : Posix → Platform

unfoldable pub get_thread_name : Platform → Outcome Text
unfolding Threading.get_thread_name MacOs.get_thread_name Windows.get_thread_name
get_thread_name (linux l) = Threading.get_thread_name l
get_thread_name (mac_os m) = MacOs.get_thread_name m
get_thread_name (windows w) = ok (Windows.get_thread_name w)
get_thread_name (posix _) = ok []

unfoldable pub get_cpu_count : Platform → ℕ
unfolding Threading.get_cpu_count MacOs.get_cpu_count Windows.get_cpu_count
get_cpu_count (linux l) = Threading.get_cpu_count l
get_cpu_count (mac_os m) = MacOs.get_cpu_count m
get_cpu_count (windows w) = Windows.get_cpu_count w
get_cpu_count (posix p) = if ltb 0 p.hardware_concurrency then p.hardware_concurrency else 1

unfoldable pub set_thread_cpu : Platform → ℕ → Outcome (Unit {0})
unfolding Threading.set_thread_cpu MacOs.set_native_thread_affinity
    Windows.set_native_thread_affinity
set_thread_cpu (linux l) cpu_id = Threading.set_thread_cpu l cpu_id
set_thread_cpu (mac_os m) cpu_id = MacOs.set_native_thread_affinity m cpu_id
set_thread_cpu (windows w) cpu_id = Windows.set_native_thread_affinity w cpu_id
set_thread_cpu (posix _) cpu_id = throw (runtime_error unsupported_platform)

unfoldable pub set_thread_realtime : Platform → Outcome (Unit {0})
unfolding Threading.set_thread_realtime MacOs.set_thread_realtime Windows.set_thread_realtime
    realtime_result
set_thread_realtime (linux l) = Threading.set_thread_realtime l
set_thread_realtime (mac_os m) = MacOs.set_thread_realtime m
set_thread_realtime (windows w) = Windows.set_thread_realtime w
set_thread_realtime (posix p) = realtime_result p.pthread_setschedparam
