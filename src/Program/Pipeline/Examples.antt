-- ===== src/Program/Pipeline/Examples.antt =====
-- An example of two sessions that end alike: src/main.cpp.
use trader_cpp.Base.{ℕ, false, refl, ◌≡◌, List, [], ◌∷◌, codes}
use trader_cpp.External.BtreeMap.{bid_list, ask_list}
use trader_cpp.External.CircularBuffer.{list_buffer}
use trader_cpp.External.ConcurrentQueue.{list_queue}
use trader_cpp.External.Float.{Decimal, decimal_float}
use trader_cpp.External.Ftxui.{shown}
use trader_cpp.Binance.Examples.{idle}
use trader_cpp.Binance.FixApp.{full_refresh, incremental_refresh}
use trader_cpp.Binance.Side
use trader_cpp.Binance.Symbol.{from_str}
use trader_cpp.Core.OrderBook.{apply_snapshot}
use trader_cpp.Core.OrderBook.Examples.{snapshot_message}
use trader_cpp.Core.Trade.{Trade}
use trader_cpp.Program.Pipeline.{Happening, deliver, book_turn, trade_turn, stop_trade, launch, run}
use trader_cpp.Program.Pipeline.Screen.{session, with_boxes, screens-agree}
use trader_cpp.Ui.Examples.{box, trade_message, screen}
use trader_cpp.Ui.Layout.{root}
use trader_cpp.Ui.OrderBookBox.{visit}
use trader_cpp.Ui.Polling.{take_turn}
use trader_cpp.Ui.TradeBox.{on_trade}

-- A snapshot is delivered and taken, and then a trade.
abbrev in_turn : List (Happening Decimal)
in_turn =
    deliver (codes "PX") (full_refresh snapshot_message)
    ∷ book_turn
    ∷ book_turn
    ∷ deliver (codes "TX") (incremental_refresh trade_message)
    ∷ trade_turn
    ∷ trade_turn
    ∷ []

-- The trade comes first, both wait, and the worker of the trades is asked to stop after it.
abbrev mixed : List (Happening Decimal)
mixed =
    trade_turn
    ∷ deliver (codes "TX") (incremental_refresh trade_message)
    ∷ deliver (codes "PX") (full_refresh snapshot_message)
    ∷ book_turn
    ∷ trade_turn
    ∷ stop_trade
    ∷ book_turn
    ∷ []

screens-agree_example :
    shown
      (λ _. false)
      []
      (root decimal_float decimal_float)
      (with_boxes (session (ℕ × List Trade) idle box in_turn) screen)
    ≡ shown
        (λ _. false)
        []
        (root decimal_float decimal_float)
        (with_boxes (session (ℕ × List Trade) idle box mixed) screen)
unfolding session run visit apply_snapshot from_str on_trade take_turn launch Side.from_str
screens-agree_example =
    screens-agree idle box in_turn mixed decimal_float (λ _. false) screen refl refl
      (refl, (tt, tt)) (tt, (refl, tt)) refl refl refl refl refl refl
