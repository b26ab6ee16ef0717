-- ===== src/Core.antt =====
-- The namespace `core`: the order book and the trades.
pub mod OrderBook
pub mod Trade
