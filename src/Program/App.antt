-- ===== src/Program/App.antt =====
-- src/ui/app/ui_app.cpp and ui_app.h: the application of the terminal interface.
use trader_cpp.Base.{Option, none, some, Outcome, ok, throw, ◌>>=◌, ◌>>◌, done, Exception}
use trader_cpp.Binance.Config.{max_depth}
use trader_cpp.Core.OrderBook.{OrderBook}
use trader_cpp.Core.Trade.{Trade}
use trader_cpp.External.CircularBuffer.{CircularBuffer}
use trader_cpp.Ui.LogBox.Watched
use trader_cpp.Ui.LogBox.Watched.{FileSystem, Watched}
use trader_cpp.Ui.OrderBookBox
use trader_cpp.Ui.OrderBookBox.{OrderBookBox}
use trader_cpp.Ui.TradeBox
use trader_cpp.Ui.TradeBox.{TradeBox}
use trader_cpp.Utils.Env.{Environment}

pub record App (B A R : Type 0) : Type 0 where
  pub book_box : OrderBookBox B A
  pub log_box : Watched
  pub trade_box : TradeBox R
  pub thread_exception : Option Exception

-- `screen` is what making the screen does, and the book is a new one. The references to the two
-- queues are not kept here.
unfoldable pub from_env :
    {B A R : Type 0} ⦃ring : CircularBuffer Trade R⦄
    → Outcome (Unit {0})
    → FileSystem
    → Environment
    → OrderBook B A
    → Outcome (App B A R)
unfolding OrderBookBox.make Watched.from_env TradeBox.make
from_env screen files env book = do
  screen
  log_box ← Watched.from_env files env
  ok (record {
    book_box = OrderBookBox.make max_depth book;
    log_box = log_box;
    trade_box = TradeBox.make;
    thread_exception = none;
  })

-- Whose thread is started.
pub data Box : Type 0 where
  of_book of_log of_trade : Box

-- The rethrow of `main`.
abbrev pub rethrow : Option Exception → Outcome (Unit {0})
rethrow none = done
rethrow (some e) = throw e
