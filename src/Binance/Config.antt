-- ===== src/Binance/Config.antt =====
-- src/binance/config.h: ticks per unit, and prices as ticks.
use trader_cpp.Base.{ℕ}
use trader_cpp.External.Float.{Float}
use trader_cpp.Binance.Symbol.{SymbolEnum, btcusdt, ethusdt}
use trader_cpp.Utils.Double.{to_uint64_ticks}

unfoldable pub get_price_ticks_per_unit : SymbolEnum → ℕ
get_price_ticks_per_unit btcusdt = 100
get_price_ticks_per_unit ethusdt = 100

unfoldable pub get_size_ticks_per_unit : SymbolEnum → ℕ
get_size_ticks_per_unit btcusdt = 100_000
get_size_ticks_per_unit ethusdt = 10_000

abbrev pub max_depth : ℕ
max_depth = 100

unfoldable pub price_to_ticks : {D : Type 0} ⦃f : Float D⦄ → D → SymbolEnum → ℕ
unfolding get_price_ticks_per_unit to_uint64_ticks
price_to_ticks price symbol = to_uint64_ticks price (get_price_ticks_per_unit symbol)
