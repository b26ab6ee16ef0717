-- ===== src/Utils/Env/Architecture.antt =====
-- The branches of src/utils/env.h on the architecture and the operating system.
use trader_cpp.Base.{ℕ, ◌++◌, Text, codes}

pub data Architecture : Type 0 where
  arm64 arm x86_64 x86 other : Architecture

pub data OperatingSystem : Type 0 where
  windows mac_os linux other : OperatingSystem

unfoldable pub architecture_name : Architecture → Text
architecture_name arm64 = codes "ARM64"
architecture_name arm = codes "ARM (32-bit)"
architecture_name x86_64 = codes "x86_64"
architecture_name x86 = codes "x86 (32-bit)"
architecture_name other = codes "unknown architecture"

unfoldable pub os_name : OperatingSystem → Text
os_name windows = codes "windows"
os_name mac_os = codes "macOS"
os_name linux = codes "linux"
os_name other = codes "unknown OS"

-- The line that is logged.
unfoldable pub log_current_architecture : Architecture → OperatingSystem → Text
unfolding architecture_name os_name
log_current_architecture arch os =
    codes "Compiled for [" ++ architecture_name arch ++ codes "] on [" ++ os_name os ++ codes "]"

unfoldable pub cache_line_size : Architecture → ℕ
cache_line_size arm64 = 128
cache_line_size x86_64 = 64
cache_line_size arm = 64
cache_line_size x86 = 64
cache_line_size other = 64
