-- ===== src/Program/Session/Examples.antt =====
-- An example of a session.
use trader_cpp.Base.{ℕ, refl, none, some, List, [], ◌∷◌, Text, codes, ok, done}
use trader_cpp.External.BtreeMap.{BidList, AskList, bid_list, ask_list}
use trader_cpp.External.CircularBuffer.{list_buffer}
use trader_cpp.External.ConcurrentQueue.{list_queue}
use trader_cpp.External.Fix.{Increment}
use trader_cpp.External.Float.{Decimal, decimal_float}
use trader_cpp.Binance.Examples.{one_file, settings, trader}
use trader_cpp.Binance.FixApp.{full_refresh, incremental_refresh}
use trader_cpp.Binance.MarketMessageVariant.{MarketMessageVariant}
use trader_cpp.Binance.Worker.{QuickFix, Worker, make_app, from_conf}
use trader_cpp.Core.OrderBook.Examples.{empty_book, snapshot_message, increment_message}
use trader_cpp.Core.Trade.{Trade}
use trader_cpp.Program.App
use trader_cpp.Program.App.{App}
use trader_cpp.Program.Pipeline.{Happening, deliver, book_turn, trade_turn, run}
use trader_cpp.Program.Session.{Consistent, open_session, run-Consistent}
use trader_cpp.Ui.Examples.{trade_message}
use trader_cpp.Ui.LogBox.{split_last}
use trader_cpp.Ui.LogBox.Watched.{FileSystem, watching}
use trader_cpp.Ui.OrderBookBox
use trader_cpp.Ui.TradeBox
use trader_cpp.Utils.Env.{Environment, get_env_or_throw}

abbrev Message : Type 0
Message = MarketMessageVariant Decimal

abbrev Ring : Type 0
Ring = ℕ × List Trade

abbrev quick_fix : QuickFix Text
quick_fix = record {
  session_settings = λ path. ok path;
  file_store_factory = λ _. done;
  file_log_factory = λ _. done;
  initiator = λ _. done;
}

abbrev no_messages : List Message
no_messages = []

abbrev no_trades : List (Increment Decimal)
no_trades = []

abbrev worker : Worker Text (List Message) (List (Increment Decimal))
worker = record {
  app = make_app no_messages no_trades settings;
  auth = trader;
  settings = codes "fix.cfg";
}

abbrev files : FileSystem
files = record { open_file = λ _. some []; add_watch = λ _. watching }

abbrev log_only : Environment
log_only key = some (codes "logs/trader.log")

abbrev app : App BidList AskList Ring
app = record {
  book_box = OrderBookBox.make 100 empty_book;
  log_box = record {
    watcher = record { filename = codes "trader.log"; unread = [] };
    box = record { log_ring = []; posted = 0 };
  };
  trade_box = TradeBox.make;
  thread_exception = none;
}

abbrev happenings : List (Happening Decimal)
happenings =
    deliver (codes "PX") (full_refresh snapshot_message)
    ∷ deliver (codes "TX") (incremental_refresh trade_message)
    ∷ book_turn
    ∷ book_turn
    ∷ trade_turn
    ∷ deliver (codes "PX") (incremental_refresh increment_message)
    ∷ trade_turn
    ∷ []

run-Consistent_example : Consistent happenings (run (open_session worker app) happenings)
unfolding from_conf App.from_env get_env_or_throw split_last make_app
run-Consistent_example =
    run-Consistent quick_fix one_file no_messages no_trades settings worker done files log_only
      empty_book app happenings (refl, (tt, (tt, tt))) refl refl refl refl refl
