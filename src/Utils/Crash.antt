-- ===== src/Utils/Crash.antt =====
-- src/utils/crash.h: the text that the signal handler writes.
pub mod Bounds
pub mod Handlers
use trader_cpp.Base.{
  ℕ, zero, suc, ◌+◌, ◌/◌, ◌%◌, List, [], ◌∷◌, ◌++◌, Text, codes, ◌==◌, ltb, if◌then◌else◌,
}
use mathlib.Core.List.{reverse}

-- `int`
pub data ℤ : Type 0 where
  pos : ℕ → ℤ
  negsuc : ℕ → ℤ

-- `while (n > 0 && i < 16) { tmp[i++] = '0' + (n % 10); n /= 10; }`, with the room left in `tmp`.
unfoldable pub fill_tmp : ℕ → ℕ → Text
fill_tmp zero n = []
fill_tmp (suc room) n =
    let rest = (b'0' + n % 10) ∷ fill_tmp room (n / 10) in if ltb 0 n then rest else []

-- What is appended to `buf`. A negative number does not enter the loop.
unfoldable pub int_to_str : ℤ → Text
unfolding fill_tmp
int_to_str (pos n) = if n == 0 then b'0' ∷ [] else reverse (fill_tmp 16 n)
int_to_str (negsuc n) = []

-- A `char[]` that a string literal initialises ends in a NUL, which a range-based loop visits.
abbrev pub prefix : Text
prefix = codes "CRITICAL: Fatal signal caught: " ++ 0 ∷ []

abbrev pub suffix : Text
suffix = 10 ∷ 0 ∷ []

abbrev pub buf_size : ℕ
buf_size = 64

-- The `len` bytes of `buf` that `handle_signal` writes to the standard error.
unfoldable pub handle_signal : ℤ → Text
unfolding int_to_str
handle_signal sig = prefix ++ int_to_str sig ++ suffix
