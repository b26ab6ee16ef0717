-- ===== src/Utils/Threading/Number.antt =====
-- `get_os_thread_id` of src/utils/threading.cpp.
use trader_cpp.Base.{ℕ, ◌-◌, ◌%◌, ◌^◌, Outcome, ok, throw, runtime_error, unsupported_platform}
use trader_cpp.Utils.Crash.{ℤ, pos, negsuc}

-- What the system says: `syscall(SYS_gettid)`, a `long`; `pthread_threadid_np`, a `uint64_t`; and
-- `GetCurrentThreadId()`, a `DWORD`.
pub data ThreadId : Type 0 where
  linux : ℤ → ThreadId
  mac_os : ℕ → ThreadId
  windows : ℕ → ThreadId
  other : ThreadId

-- `static_cast<uint64_t>` of a `long`
abbrev pub to_uint64 : ℤ → ℕ
to_uint64 (pos n) = n % 2 ^ 64
to_uint64 (negsuc n) = 2 ^ 64 - 1 - n

unfoldable pub get_os_thread_id : ThreadId → Outcome ℕ
get_os_thread_id (linux tid) = ok (to_uint64 tid)
get_os_thread_id (mac_os tid) = ok tid
get_os_thread_id (windows tid) = ok tid
get_os_thread_id other = throw (runtime_error unsupported_platform)
