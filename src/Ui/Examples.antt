-- ===== src/Ui/Examples.antt =====
-- Examples for src/ui/*.
use mathlib.Core.Quot
use trader_cpp.Base.{
  ℕ, ap, ◌/◌, map, arith, ◌≡◌, refl, false, none, some, List, [], ◌∷◌, ◌++◌, codes, length,
}
use trader_cpp.External.BtreeMap.{BidList, AskList, bid_list, ask_list}
use trader_cpp.External.CircularBuffer.{list_buffer}
use trader_cpp.External.ConcurrentQueue.{list_queue}
use trader_cpp.External.Fix.{Increment, UtcTime, wellformed, entry_trade}
use trader_cpp.External.Float.{Float, Decimal, decimal_float}
use trader_cpp.Binance.MarketMessageVariant.{MarketMessageVariant, snapshot, increment}
use trader_cpp.Binance.Symbol.{from_str}
use trader_cpp.Core.OrderBook.{to_vector, apply_snapshot, apply_increment}
use trader_cpp.Ui.OrderBookBox.Classes.{class_of, table_of, digest-Class}
use trader_cpp.Core.OrderBook.Examples.{
  other_order, three_levels, entry, snapshot_message, increment_message,
}
use trader_cpp.Core.OrderBook.View.{view}
use trader_cpp.Core.Trade.{Trade}
use trader_cpp.Ui.Backoff.{adaptive_backoff, after_calls, sleeps, adaptive_backoff-pause_at}
use trader_cpp.Ui.Helpers.{c_str}
use trader_cpp.External.Ftxui.{shown}
use trader_cpp.Ui.Layout.{Screen, root, trade_header, log_header}
use trader_cpp.Ui.Layout.Shown.{flatten, root-shown}
use trader_cpp.Ui.OrderBookBox
use trader_cpp.Ui.OrderBookBox.{cells, OrderBookBox, header, visit}
use trader_cpp.Ui.OrderBookBox.Reading.{decimal}
use trader_cpp.Ui.OrderBookBox.Prices.{read_prices, PrintsHundredths, read_prices-to_table}
use trader_cpp.Utils.Double.{pretty_text, find_dot}
use trader_cpp.Ui.OrderBookBox.Feed as BookFeed
use trader_cpp.Ui.Polling.{Event, send, request_stop, turn, run, started, sent, digest}
use trader_cpp.Ui.Polling.Order.{HasDigested, run-HasDigested}
use trader_cpp.Ui.Polling.Progress.{turns_for, run-drains}
use trader_cpp.Ui.TradeBox
use trader_cpp.Ui.TradeBox.{TradeBox, time_text, print_time, on_trade}
use trader_cpp.Ui.TradeBox.Time.{print_time_lem}
use trader_cpp.Ui.TradeBox.Trades.{Recorded, read_trades, on_trade-Recorded, make-IsValid}

abbrev Message : Type 0
Message = MarketMessageVariant Decimal

abbrev pub Box : Type 0
Box = OrderBookBox BidList AskList

abbrev pub box : Box
box = record { is_book_clear_needed = false; core_book = three_levels; posted = 0 }

abbrev nothing : List Message
nothing = []

-- A snapshot is sent and taken; an increment is sent, and the worker is asked to stop meanwhile.
abbrev happenings : List (Event Message)
happenings =
    turn
    ∷ turn
    ∷ send (snapshot snapshot_message)
    ∷ turn
    ∷ turn
    ∷ turn
    ∷ send (increment increment_message)
    ∷ turn
    ∷ request_stop
    ∷ turn
    ∷ []

run-HasDigested_example :
    HasDigested visit OrderBookBox.post_event box
      (sent happenings)
      (run visit OrderBookBox.post_event (started box nothing) happenings)
run-HasDigested_example = run-HasDigested visit OrderBookBox.post_event box nothing happenings refl

poll_queue-follows_example :
    let w = OrderBookBox.poll_queue (started box nothing) happenings in
    (taken : List Message) × (sent happenings ≡ taken ++ w.queue)
    × (let end = digest (BookFeed.follow false) BookFeed.keep (view three_levels) taken in
        (view w.state.core_book ≡ end.0) × (w.exception ≡ end.1))
poll_queue-follows_example = BookFeed.poll_queue-follows box nothing happenings refl

abbrev two_messages : List Message
two_messages = snapshot snapshot_message ∷ increment increment_message ∷ []

-- The box after both messages.
abbrev handled : Box
handled = (digest visit OrderBookBox.post_event box two_messages).0

run-drains_example :
    let w = run visit OrderBookBox.post_event (started box two_messages) (turns_for two_messages) in
    (w.queue ≡ []) × (w.state ≡ handled) × (w.exception ≡ none)
unfolding digest visit apply_snapshot apply_increment from_str
run-drains_example =
    run-drains visit OrderBookBox.post_event two_messages (started box two_messages) handled refl
      refl refl refl

adaptive_backoff-pause_at_example : (adaptive_backoff (after_calls 12)).1 ≡ sleeps 40
adaptive_backoff-pause_at_example = adaptive_backoff-pause_at 12

abbrev noon : UtcTime
noon = record { hour = 12; minute = 0; second = 7; microsecond = 42 }

print_time_lem_example :
    (length (time_text noon) ≡ 15)
    × (length (print_time noon) ≡ 16)
    × (c_str (print_time noon) ≡ time_text noon)
print_time_lem_example = print_time_lem noon

abbrev pub Trades : Type 0
Trades = TradeBox (ℕ × List Trade)

abbrev pub new_box : Trades
new_box = TradeBox.make

abbrev pub trade_message : Increment Decimal
trade_message = record {
  num_entries = some (wellformed 1);
  groups =
      record (entry entry_trade 95 10) {
        symbol = some (codes "BTCUSDT");
        aggressor_side = some (wellformed b'1');
        trade_id = some (codes "77");
        transact_time = some (wellformed noon);
      }
      ∷ [];
}

on_trade-Recorded_example :
    Recorded new_box (read_trades trade_message) (on_trade trade_message new_box)
on_trade-Recorded_example = on_trade-Recorded trade_message new_box make-IsValid

abbrev no_messages : List (Increment Decimal)
no_messages = []

abbrev trade_happenings : List (Event (Increment Decimal))
trade_happenings = send trade_message ∷ turn ∷ turn ∷ send trade_message ∷ turn ∷ turn ∷ []

-- A box with the same levels, whose maps were filled in another order.
abbrev reordered : Box
reordered = record { is_book_clear_needed = false; core_book = other_order; posted = 7 }

digest-Class_example :
    let (b, x) = digest visit OrderBookBox.post_event box two_messages in
    let (c, y) = digest visit OrderBookBox.post_event reordered two_messages in
    (class_of b ≡ class_of c)
    × (x ≡ y)
    × (OrderBookBox.to_table decimal_float b ≡ table_of decimal_float (class_of c))
digest-Class_example = digest-Class two_messages box reordered (Quot.sound (refl, refl))

-- All boxes on the screen: an order book of two rows, no trades, and two lines of the log.
abbrev pub screen : Screen Decimal BidList AskList (ℕ × List Trade)
screen = record {
  book_box = box;
  book_scroll_y = 0;
  trade_box = new_box;
  trade_scroll_y = 0;
  log_box = record { log_ring = codes "hello" ∷ codes "goodbye" ∷ []; posted = 2 };
  log_scroll_x = 0;
  log_scroll_y = 0;
}

root-shown_example :
    shown (λ _. false) [] (root decimal_float decimal_float) screen
    ≡ (header ++ flatten (OrderBookBox.to_table decimal_float box))
      ++ ((trade_header ++ flatten (TradeBox.to_table decimal_float new_box))
          ++ (codes "Not Focused"
              ∷ (log_header ++ (codes "hello" ∷ codes "goodbye" ∷ codes "x" ∷ []))))
root-shown_example = root-shown decimal_float decimal_float (λ _. false) screen

-- Decimals that are printed to the hundredth.
abbrev printing_float : Float Decimal
printing_float = record decimal_float { to_chars_general = λ x. some (decimal (x / 1_000_000)) }

printing_float-PrintsHundredths : PrintsHundredths printing_float
printing_float-PrintsHundredths c h = ap (λ (n : ℕ). some (decimal n)) (omega arith)

abbrev dear_box : Box
dear_box = record box {
  core_book = record {
    bid_map = bid_list.assign 9_312_345_670 5 bid_list.empty;
    ask_map = ask_list.assign 9_312_345_705 7 ask_list.empty;
  };
}

read_prices-to_table_example :
    map read_prices (OrderBookBox.to_table printing_float dear_box)
    ≡ (9_312_345_670 ∷ 9_312_345_705 ∷ []) ∷ []
unfolding to_vector
read_prices-to_table_example =
    read_prices-to_table printing_float dear_box printing_float-PrintsHundredths
      ((omega arith, omega arith), tt)

table_cell : pretty_text (some (decimal 9_312_345_670)) ≡ codes "93,123,456.7"
unfolding decimal pretty_text find_dot
table_cell = refl
