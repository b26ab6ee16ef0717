-- ===== src/Utils.antt =====
-- The namespace `utils`: helpers.
pub mod Logging
pub mod Types
pub mod Chars
pub mod Double
pub mod Crash
pub mod Env
pub mod Threading
pub mod Examples
pub mod Process
pub mod Testing
