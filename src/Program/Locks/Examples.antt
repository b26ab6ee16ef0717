-- ===== src/Program/Locks/Examples.antt =====
-- An example of calls that wait for each other.
use trader_cpp.Base.{refl, ◌≡◌, false, List, [], ◌∷◌, All, map, Text, codes}
use trader_cpp.External.BtreeMap.{bid_list, ask_list}
use trader_cpp.External.CircularBuffer.{list_buffer}
use trader_cpp.External.Fix.{Increment}
use trader_cpp.External.Float.{Decimal, decimal_float}
use trader_cpp.Binance.MarketMessageVariant.{MarketMessageVariant, snapshot, increment}
use trader_cpp.Core.OrderBook.{to_vector}
use trader_cpp.Core.OrderBook.Examples.{three_levels, snapshot_message, increment_message}
use trader_cpp.Program.Locks.{Turn, write, enter, look, leave, run, before}
use trader_cpp.Program.Locks.Calls.{
  on_trade_turns, message_turns, apply_message, on_log_lines_turns,
}
use trader_cpp.Program.Locks.Shown.{ReadsWhole, add_lines, draws-whole}
use trader_cpp.Ui.Examples.{new_box, trade_message}
use trader_cpp.Ui.LogBox.{LogBox}
use trader_cpp.Ui.TradeBox.{on_trade, to_table}

abbrev messages : List (MarketMessageVariant Decimal)
messages = snapshot snapshot_message ∷ increment increment_message ∷ []

abbrev trades : List (Increment Decimal)
trades = trade_message ∷ []

abbrev log : LogBox
log = record { log_ring = []; posted = 0 }

abbrev lines : List (List Text)
lines = (codes "hello" ∷ codes "goodbye" ∷ []) ∷ []

-- The screen's thread asks for the mutex in the middle of a call, in vain, and gets it before the first
-- call and after it.
abbrev turns : List Turn
turns =
    enter ∷ look ∷ write ∷ leave ∷ write ∷ enter ∷ look ∷ write ∷ write ∷ write ∷ write ∷ write
    ∷ write ∷ enter ∷ look ∷ look ∷ leave ∷ []

draws-whole_example :
    All
      (ReadsWhole (apply_message false) to_vector messages three_levels)
      (run (before three_levels (map (message_turns false) messages)) turns).readings
    × All
        (ReadsWhole on_trade (to_table decimal_float) trades new_box)
        (run (before new_box (map on_trade_turns trades)) turns).readings
    × All
        (ReadsWhole add_lines (λ b. b.log_ring) lines log)
        (run (before log (map on_log_lines_turns lines)) turns).readings
draws-whole_example = draws-whole false three_levels messages new_box trades log lines turns

-- The log is read twice: empty, and with both lines.
log_readings_test :
    map
      (λ seen. map (λ (b : LogBox). b.log_ring) seen)
      (run (before log (map on_log_lines_turns lines)) turns).readings
    ≡ ((codes "hello" ∷ codes "goodbye" ∷ []) ∷ (codes "hello" ∷ codes "goodbye" ∷ []) ∷ [])
      ∷ ([] ∷ [])
      ∷ []
unfolding run on_log_lines_turns
log_readings_test = refl
