-- ===== src/Program.antt =====
-- src/main.cpp: the parts of the program together.
pub mod Pipeline
pub mod App
pub mod Main
pub mod Examples
pub mod Session
pub mod Teardown
pub mod Threads
pub mod Locks
