-- ===== src/Utils/Threading.antt =====
-- src/utils/threading.cpp and threading.h on Linux: the name, the CPU and the priority of a thread.
pub mod MacOs
pub mod Windows
pub mod Platforms
pub mod Number
use trader_cpp.Base.{
  ℕ, ◌≡◌, ◌<◌, ◌^◌, ◌%◌, ◌↔◌, Text, Outcome, ok, throw, runtime_error, ◌>>=◌, done,
  thread_name_failed, cpu_out_of_range, affinity_failed, permission_denied, realtime_failed, take,
  if◌then◌else◌, ltb, leb, ◌==◌, not, arith,
}
use trader_cpp.Utils.Crash.{ℤ, pos, negsuc}

-- What the system calls return on a thread. A result of 0 means success.
pub record Linux : Type 0 where
  -- `sysconf(_SC_NPROCESSORS_ONLN)` and `std::thread::hardware_concurrency()`
  pub processors_online : ℤ
  pub hardware_concurrency : ℕ
  pub pthread_setname_np : Text → ℕ
  pub pthread_getname_np : ℕ
  pub thread_name : Text
  pub pthread_setaffinity_np : ℕ → ℕ
  -- with SCHED_FIFO and priority 99
  pub pthread_setschedparam : ℕ

abbrev pub eperm : ℕ
eperm = 1

-- The name that a thread has after the call, for the one that it had. A failure is ignored.
unfoldable pub set_thread_name : Linux → Text → Text → Text
set_thread_name linux name old =
    if linux.pthread_setname_np (take 15 name) == 0 then take 15 name else old

abbrev pub count_or : ℕ → ℤ → ℕ
count_or n (pos m) = if ltb 0 m then m % 2 ^ 32 else (if ltb 0 n then n else 1)
count_or n (negsuc _) = if ltb 0 n then n else 1

unfoldable pub get_cpu_count : Linux → ℕ
get_cpu_count linux = count_or linux.hardware_concurrency linux.processors_online

unfoldable pub get_thread_name : Linux → Outcome Text
get_thread_name linux =
    if linux.pthread_getname_np == 0
    then ok linux.thread_name
    else throw (runtime_error thread_name_failed)

-- The last call is an argument of the line that is logged.
unfoldable pub set_native_thread_affinity : Linux → ℕ → Outcome (Unit {0})
unfolding get_cpu_count get_thread_name
set_native_thread_affinity linux cpu_id =
    if leb (get_cpu_count linux) cpu_id
    then throw (runtime_error cpu_out_of_range)
    else (if not (linux.pthread_setaffinity_np cpu_id == 0)
        then throw (runtime_error affinity_failed)
        else get_thread_name linux >>= λ _. done)

unfoldable pub set_thread_cpu : Linux → ℕ → Outcome (Unit {0})
unfolding set_native_thread_affinity
set_thread_cpu linux cpu_id = set_native_thread_affinity linux cpu_id

-- For what `pthread_setschedparam` returns.
unfoldable pub realtime_result : ℕ → Outcome (Unit {0})
realtime_result ret =
    if ret == 0
    then done
    else (if ret == eperm
        then throw (runtime_error permission_denied)
        else throw (runtime_error realtime_failed))

unfoldable pub set_thread_realtime : Linux → Outcome (Unit {0})
unfolding realtime_result
set_thread_realtime linux = realtime_result linux.pthread_setschedparam
