-- ===== src/Binance/MarketMessageVariant.antt =====
-- src/binance/market_message_variant.h: the messages of the order queue.
use trader_cpp.External.Fix.{Snapshot, Increment}

pub data MarketMessageVariant (D : Type 0) : Type 0 where
  snapshot : Snapshot D → MarketMessageVariant D
  increment : Increment D → MarketMessageVariant D
