-- ===== src/Program/Pipeline.antt =====
-- The FIX application and the workers of the two boxes, as src/main.cpp connects them: the boxes hold
-- references to the queues of the application, which src/binance/worker.cpp hands out. The sessions'
-- threads, the two workers and whoever stops them take turns in any order. A session is one
-- connection here, which QuickFIX serves with one thread.
pub mod Projection
pub mod Books
pub mod Trades
pub mod CatchUp
pub mod Shutdown
pub mod Screen
pub mod Examples
use trader_cpp.Base.{true, List, [], ◌∷◌, Text}
use trader_cpp.External.BtreeMap.{BtreeMap, greater, less}
use trader_cpp.External.CircularBuffer.{CircularBuffer}
use trader_cpp.External.ConcurrentQueue.{ConcurrentQueue}
use trader_cpp.External.Fix.{Increment}
use trader_cpp.External.Float.{Float}
use trader_cpp.Binance.FixApp.{FixApp, AppMessage, from_app}
use trader_cpp.Binance.MarketMessageVariant.{MarketMessageVariant}
use trader_cpp.Core.Trade.{Trade}
use trader_cpp.Ui.OrderBookBox
use trader_cpp.Ui.OrderBookBox.{OrderBookBox, visit}
use trader_cpp.Ui.Polling.{Worker, started, take_turn}
use trader_cpp.Ui.TradeBox
use trader_cpp.Ui.TradeBox.{TradeBox, on_trade}

-- The queue of a worker is the one of the application. What stands in the worker's own field is
-- what its last turn left there, and is not looked at.
pub record Pipeline (OQ TQ B A R : Type 0) : Type 0 where
  pub app : FixApp OQ TQ
  pub book_worker : Worker (OrderBookBox B A) OQ
  pub trade_worker : Worker (TradeBox R) TQ

-- A message of a session, by the session's qualifier; a turn of a worker; a worker's
-- `request_stop`.
pub data Happening (D : Type 0) : Type 0 where
  deliver : Text → AppMessage D → Happening D
  book_turn trade_turn : Happening D
  stop_book stop_trade : Happening D

-- Both boxes start their workers.
unfoldable pub launch :
    {OQ TQ B A R : Type 0} → FixApp OQ TQ → OrderBookBox B A → TradeBox R → Pipeline OQ TQ B A R
launch app box trade_box = record {
  app = app;
  book_worker = started box app.order_queue;
  trade_worker = started trade_box app.trade_queue;
}

-- `Worker::get_order_queue` and `get_trade_queue`: the workers as they see the queues.
unfoldable pub get_order_queue :
    {OQ TQ B A R : Type 0} → Pipeline OQ TQ B A R → Worker (OrderBookBox B A) OQ
get_order_queue p = record p.book_worker { queue = p.app.order_queue }

unfoldable pub get_trade_queue :
    {OQ TQ B A R : Type 0} → Pipeline OQ TQ B A R → Worker (TradeBox R) TQ
get_trade_queue p = record p.trade_worker { queue = p.app.trade_queue }

unfoldable pub put_book_worker :
    {OQ TQ B A R : Type 0}
    → Worker (OrderBookBox B A) OQ
    → Pipeline OQ TQ B A R
    → Pipeline OQ TQ B A R
put_book_worker w p = record p { app = record p.app { order_queue = w.queue }; book_worker = w }

unfoldable pub put_trade_worker :
    {OQ TQ B A R : Type 0} → Worker (TradeBox R) TQ → Pipeline OQ TQ B A R → Pipeline OQ TQ B A R
put_trade_worker w p = record p { app = record p.app { trade_queue = w.queue }; trade_worker = w }

module _ {D OQ TQ B A R : Type 0} ⦃float : Float D⦄ ⦃bids : BtreeMap greater B⦄
    ⦃asks : BtreeMap less A⦄ ⦃ring : CircularBuffer Trade R⦄
    ⦃oq : ConcurrentQueue (MarketMessageVariant D) OQ⦄ ⦃tq : ConcurrentQueue (Increment D) TQ⦄ where
  -- QuickFIX catches what `from_app` throws.
  unfoldable pub happen : Pipeline OQ TQ B A R → Happening D → Pipeline OQ TQ B A R
  unfolding from_app get_order_queue get_trade_queue put_book_worker put_trade_worker
  happen p (deliver qualifier m) = record p { app = (from_app qualifier m p.app).0 }
  happen p book_turn =
      put_book_worker (take_turn (visit {D = D}) OrderBookBox.post_event (get_order_queue p)) p
  happen p trade_turn =
      put_trade_worker (take_turn (on_trade {D = D}) TradeBox.post_event (get_trade_queue p)) p
  happen p stop_book = record p { book_worker = record p.book_worker { stop_requested = true } }
  happen p stop_trade = record p { trade_worker = record p.trade_worker { stop_requested = true } }

  unfoldable pub run : Pipeline OQ TQ B A R → List (Happening D) → Pipeline OQ TQ B A R
  unfolding happen
  run p [] = p
  run p (h ∷ hs) = run (happen p h) hs
