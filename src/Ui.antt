-- ===== src/Ui.antt =====
-- The namespace `ui`: the boxes of the terminal interface and their workers.
pub mod Helpers
pub mod Backoff
pub mod Polling
pub mod TradeBox
pub mod LogBox
pub mod LogFileWatcher
pub mod OrderBookBox
pub mod Layout
pub mod Examples
