-- ===== src/Utils/Threading/Windows.antt =====
-- The branches of src/utils/threading.cpp for Windows.
use trader_cpp.Base.{
  ℕ, ◌^◌, Bool, Option, none, some, List, [], ◌∷◌, Text, Outcome, throw, runtime_error, done,
  affinity_failed, realtime_failed, if◌then◌else◌, ◌==◌, ltb,
}

-- What the system calls return on a thread. A name is a list of UTF-16 codes.
pub record Windows : Type 0 where
  pub number_of_processors : ℕ
  -- `none` for a failure or a null pointer
  pub get_thread_description : Option (List ℕ)
  -- The bytes that are written for a name, its terminator among them.
  pub wide_char_to_multi_byte : List ℕ → Text
  -- The codes that are written for the bytes of a name; `none` if their number is not positive.
  pub multi_byte_to_wide_char : Text → Option (List ℕ)
  pub set_thread_description : List ℕ → Bool
  -- What the processor makes of `1 << cpu_id` for a number of 64 or more, which is undefined.
  pub wide_shift : ℕ → ℕ
  -- The old mask, or 0 for a failure.
  pub set_thread_affinity_mask : ℕ → ℕ
  -- with THREAD_PRIORITY_TIME_CRITICAL
  pub set_thread_priority : Bool

-- The description that a thread has after the call, for the one that it had. A failure is ignored.
abbrev pub described : Windows → Option (List ℕ) → Option (List ℕ) → Option (List ℕ)
described win none old = old
described win (some wname) old = if win.set_thread_description wname then some wname else old

unfoldable pub set_thread_name : Windows → Text → Option (List ℕ) → Option (List ℕ)
set_thread_name win name old = described win (win.multi_byte_to_wide_char name) old

-- `name.pop_back()` if the last byte is a NUL.
unfoldable pub pop_nul : Text → Text
pop_nul [] = []
pop_nul (c ∷ []) = if c == 0 then [] else c ∷ []
pop_nul (c ∷ d ∷ s) = c ∷ pop_nul (d ∷ s)

abbrev pub name_of : (List ℕ → Text) → Option (List ℕ) → Text
name_of convert none = []
name_of convert (some wname) = pop_nul (convert wname)

unfoldable pub get_thread_name : Windows → Text
unfolding pop_nul
get_thread_name win = name_of win.wide_char_to_multi_byte win.get_thread_description

unfoldable pub get_cpu_count : Windows → ℕ
get_cpu_count win = win.number_of_processors

-- A `DWORD_PTR` of 64 bits. The number of CPUs is not looked at.
unfoldable pub affinity_mask : Windows → ℕ → ℕ
affinity_mask win cpu_id = if ltb cpu_id 64 then 2 ^ cpu_id else win.wide_shift cpu_id

unfoldable pub set_native_thread_affinity : Windows → ℕ → Outcome (Unit {0})
unfolding affinity_mask
set_native_thread_affinity win cpu_id =
    if win.set_thread_affinity_mask (affinity_mask win cpu_id) == 0
    then throw (runtime_error affinity_failed)
    else done

unfoldable pub set_thread_realtime : Windows → Outcome (Unit {0})
set_thread_realtime win =
    if win.set_thread_priority then done else throw (runtime_error realtime_failed)
