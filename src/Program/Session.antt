-- ===== src/Program/Session.antt =====
-- The session that src/main.cpp sets up: the objects of src/binance/worker.cpp and
-- src/ui/app/ui_app.cpp, as they are made, with the pipeline between them.
pub mod Examples
use trader_cpp.Base.{
  ℕ, false, ◌≡◌, refl, sym, ap, ◌∙◌, inl, inr, none, List, [], ◌++◌, Text, Outcome, ok,
  Outcome-cases,
}
use trader_cpp.External.BtreeMap.{BtreeMap, greater, less}
use trader_cpp.External.CircularBuffer.{CircularBuffer}
use trader_cpp.External.ConcurrentQueue.{ConcurrentQueue}
use trader_cpp.External.Fix.{Increment}
use trader_cpp.External.Float.{Float}
use trader_cpp.Binance.Auth
use trader_cpp.Binance.Auth.{Crypto}
use trader_cpp.Binance.Config.{max_depth}
use trader_cpp.Binance.FixApp.Routing.{price_messages, trade_messages, HasOneProducer}
use trader_cpp.Binance.MarketMessageVariant.{MarketMessageVariant}
use trader_cpp.Binance.Settings.{Config}
use trader_cpp.Binance.Worker.{QuickFix, Worker, make_app, from_conf}
use trader_cpp.Core.OrderBook.{OrderBook}
use trader_cpp.Core.OrderBook.Snapshots.{no_depths}
use trader_cpp.Core.OrderBook.View.{Depths, view}
use trader_cpp.Core.Trade.{Trade}
use trader_cpp.Program.App
use trader_cpp.Program.App.{App}
use trader_cpp.Program.Pipeline.{Pipeline, Happening, launch, run}
use trader_cpp.Program.Pipeline.Books.{run-follows}
use trader_cpp.Program.Pipeline.Projection.{deliveries}
use trader_cpp.Program.Pipeline.Trades.{run-keeps}
use trader_cpp.Ui.LogBox.Watched
use trader_cpp.Ui.LogBox.Watched.{FileSystem}
use trader_cpp.Ui.OrderBookBox
use trader_cpp.Ui.OrderBookBox.Feed as BookFeed
use trader_cpp.Ui.Polling.{digest}
use trader_cpp.Ui.TradeBox
use trader_cpp.Ui.TradeBox.Feed as TradeFeed
use trader_cpp.Ui.TradeBox.Trades.{IsValid}
use trader_cpp.Utils.Env.{Environment}

-- `ui::App::start`, on the queues of the worker.
unfoldable pub open_session :
    {S OQ TQ B A R : Type 0} → Worker S OQ TQ → App B A R → Pipeline OQ TQ B A R
unfolding launch
open_session worker app = launch worker.app app.book_box app.trade_box

made_app :
    {S File Key OQ TQ : Type 0} (fix : QuickFix S) (crypto : Crypto File Key) (order_queue : OQ)
    (trade_queue : TQ) (conf : Config) (worker : Worker S OQ TQ)
    → from_conf fix crypto order_queue trade_queue conf ≡ ok worker
    → worker.app ≡ make_app order_queue trade_queue conf
unfolding from_conf
made_app {S = S} {OQ = OQ} {TQ = TQ} fix crypto order_queue trade_queue conf worker e =
    elim (Outcome-cases (Auth.make crypto conf.api_key conf.private_key_path)) [
      | inr (x, p) ↦ cc (rw p at e)
      | inl (auth, p) ↦ elim (Outcome-cases (fix.session_settings conf.fix_config_path)) [
        | inr (x, q) ↦ cc (rw (p, q) at e)
        | inl (settings, q) ↦ elim (Outcome-cases (fix.file_store_factory settings)) [
          | inr (x, r) ↦ cc (rw (p, q, r) at e)
          | inl (_, r) ↦ elim (Outcome-cases (fix.file_log_factory settings)) [
            | inr (x, s) ↦ cc (rw (p, q, r, s) at e)
            | inl (_, s) ↦ elim (Outcome-cases (fix.initiator settings)) [
              | inr (x, t) ↦ cc (rw (p, q, r, s, t) at e)
              | inl (_, t) ↦
                  let same : record {
                    app = make_app order_queue trade_queue conf;
                    auth = auth;
                    settings = settings;
                  }
                      ≡ worker =
                    cc (rw (p, q, r, s, t) at e) in
                  sym (ap (λ (v : Worker S OQ TQ). v.app) same)
            ]
          ]
        ]
      ]
    ]

module _ {B A R : Type 0} ⦃ring : CircularBuffer Trade R⦄ where
  made_boxes :
      (screen : Outcome (Unit {0})) (files : FileSystem) (env : Environment) (book : OrderBook B A)
      (app : App B A R)
      → App.from_env screen files env book ≡ ok app
      → (app.book_box ≡ OrderBookBox.make max_depth book) × (app.trade_box ≡ TradeBox.make)
  unfolding App.from_env
  made_boxes screen files env book app e = elim (Outcome-cases screen) [
    | inr (x, p) ↦ cc (rw p at e)
    | inl (_, p) ↦ elim (Outcome-cases (Watched.from_env files env)) [
      | inr (x, q) ↦ cc (rw (p, q) at e)
      | inl (log_box, q) ↦
          let same : record {
            book_box = OrderBookBox.make max_depth book;
            log_box = log_box;
            trade_box = TradeBox.make;
            thread_exception = none;
          }
              ≡ app =
            cc (rw (p, q) at e) in
          (
            sym (ap (λ (a : App B A R). a.book_box) same),
            sym (ap (λ (a : App B A R). a.trade_box) same),
          )
    ]
  ]

module _ {D OQ TQ B A R : Type 0} ⦃float : Float D⦄ ⦃bids : BtreeMap greater B⦄
    ⦃asks : BtreeMap less A⦄ ⦃ring : CircularBuffer Trade R⦄
    ⦃oq : ConcurrentQueue (MarketMessageVariant D) OQ⦄ ⦃tq : ConcurrentQueue (Increment D) TQ⦄ where
  -- What the two boxes hold, and what waits for them.
  pub record Consistent (hs : List (Happening D)) (p : Pipeline OQ TQ B A R) : Type 0 where
    pub books : List (MarketMessageVariant D)
    pub trades : List (Increment D)
    pub book_order : price_messages (deliveries hs) ≡ books ++ oq.contents p.app.order_queue
    pub trade_order : trade_messages (deliveries hs) ≡ trades ++ tq.contents p.app.trade_queue
    pub book :
        view p.book_worker.state.core_book
        ≡ (digest (BookFeed.follow false) BookFeed.keep no_depths books).0
    pub book_exception :
        p.book_worker.exception ≡ (digest (BookFeed.follow false) BookFeed.keep no_depths books).1
    pub kept :
        ring.contents p.trade_worker.state.trade_ring
        ≡ (digest TradeFeed.follow TradeFeed.keep [] trades).0
    pub trade_exception :
        p.trade_worker.exception ≡ (digest TradeFeed.follow TradeFeed.keep [] trades).1
    pub small : IsValid p.trade_worker.state

  -- With queues and a book that are new, and whatever the settings, if the objects are made without an
  -- exception and snapshots come from the price session only: at any time of the session, the worker
  -- of the book has taken the first of the price session's snapshots and increments, that of the
  -- trades the first of the trade session's increments, in order, and the others wait; the order book is what the
  -- taken snapshots and increments make of the empty one, no change clearing a side first, since the
  -- depth is 100; the ring is what the taken trades make of the empty one, with at most 100 of them; and
  -- each worker keeps the exception that ended it, if any.
  pub run-Consistent :
      {S File Key : Type 0} (fix : QuickFix S) (crypto : Crypto File Key) (order_queue : OQ)
      (trade_queue : TQ) (conf : Config) (worker : Worker S OQ TQ) (screen : Outcome (Unit {0}))
      (files : FileSystem) (env : Environment) (book : OrderBook B A) (app : App B A R)
      (hs : List (Happening D))
      → HasOneProducer (deliveries hs)
      → oq.contents order_queue ≡ []
      → tq.contents trade_queue ≡ []
      → view book ≡ no_depths
      → from_conf fix crypto order_queue trade_queue conf ≡ ok worker
      → App.from_env screen files env book ≡ ok app
      → Consistent hs (run (open_session worker app) hs)
  unfolding open_session make_app OrderBookBox.make
  run-Consistent fix crypto order_queue trade_queue conf worker screen files env book app hs one eo
        et eb ew ea =
      let box = OrderBookBox.make max_depth book in
      let same_app = made_app fix crypto order_queue trade_queue conf worker ew in
      let (same_book, same_trade) = made_boxes screen files env book app ea in
      let start = make_app order_queue trade_queue conf in
      let new : TradeBox.TradeBox R = TradeBox.make in
      let (books, book_order, shown) = run-follows {D = D} start box new hs eo one in
      let (trades, trade_order, small, kept) = run-keeps {D = D} start box hs et in
      rw (same_app, same_book, same_trade)
        (record {
          books = books;
          trades = trades;
          book_order = book_order;
          trade_order = trade_order;
          book =
              shown.0
              ∙ ap (λ (d : Depths). (digest (BookFeed.follow false) BookFeed.keep d books).0) eb;
          book_exception =
              shown.1
              ∙ ap (λ (d : Depths). (digest (BookFeed.follow false) BookFeed.keep d books).1) eb;
          kept = kept.0;
          trade_exception = kept.1;
          small = small;
        })
