-- ===== src/Core/Trade.antt =====
-- src/core/trade.h: a trade.
use trader_cpp.Base.{ℕ, Text}
use trader_cpp.Binance.Side.{SideEnum}

-- `time` is 16 bytes.
pub record Trade : Type 0 where
  pub px : ℕ
  pub sz : ℕ
  pub id : ℕ
  pub side : SideEnum
  pub time : Text
