-- ===== src/Binance.antt =====
-- The namespace `binance`: symbols, sides, the configuration and the FIX connection.
pub mod Symbol
pub mod Side
pub mod Config
pub mod MarketMessageVariant
pub mod FixApp
pub mod Settings
pub mod Examples
pub mod Auth
pub mod Worker
