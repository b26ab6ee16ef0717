-- ===== src/Utils/Threading/MacOs.antt =====
-- The branches of src/utils/threading.cpp for macOS. That of `get_cpu_count` is the one for Linux, as
-- is that of `set_thread_realtime`.
use trader_cpp.Base.{
  ℕ, ◌+◌, ◌-◌, ◌%◌, ◌^◌, Text, Outcome, ok, throw, runtime_error, ◌>>=◌, done, thread_name_failed,
  affinity_failed, take, if◌then◌else◌, ltb, ◌==◌, not,
}
use trader_cpp.Utils.Crash.{ℤ, pos, negsuc}
use trader_cpp.Utils.Threading.{count_or, realtime_result}

-- What the system calls return on a thread. A result of 0 means success.
pub record MacOs : Type 0 where
  -- `sysconf(_SC_NPROCESSORS_ONLN)` and `std::thread::hardware_concurrency()`
  pub processors_online : ℤ
  pub hardware_concurrency : ℕ
  pub pthread_setname_np : Text → ℕ
  pub pthread_getname_np : ℕ
  pub thread_name : Text
  -- for an affinity tag
  pub thread_policy_set : ℤ → ℕ
  pub pthread_setschedparam : ℕ

-- The name that a thread has after the call, for the one that it had. A failure is ignored.
unfoldable pub set_thread_name : MacOs → Text → Text → Text
set_thread_name mac name old =
    if mac.pthread_setname_np (take 63 name) == 0 then take 63 name else old

unfoldable pub get_thread_name : MacOs → Outcome Text
get_thread_name mac =
    if mac.pthread_getname_np == 0
    then ok mac.thread_name
    else throw (runtime_error thread_name_failed)

unfoldable pub get_cpu_count : MacOs → ℕ
get_cpu_count mac = count_or mac.hardware_concurrency mac.processors_online

-- `static_cast<int>` of an `unsigned int`
abbrev pub to_int : ℕ → ℤ
to_int n = if ltb n (2 ^ 31) then pos n else negsuc (2 ^ 32 - 1 - n)

unfoldable pub affinity_tag : ℕ → ℤ
affinity_tag cpu_id = to_int ((cpu_id + 1) % 2 ^ 32)

-- The number of CPUs is not looked at.
unfoldable pub set_native_thread_affinity : MacOs → ℕ → Outcome (Unit {0})
unfolding affinity_tag get_thread_name
set_native_thread_affinity mac cpu_id =
    if not (mac.thread_policy_set (affinity_tag cpu_id) == 0)
    then throw (runtime_error affinity_failed)
    else get_thread_name mac >>= λ _. done

unfoldable pub set_thread_realtime : MacOs → Outcome (Unit {0})
unfolding realtime_result
set_thread_realtime mac = realtime_result mac.pthread_setschedparam
