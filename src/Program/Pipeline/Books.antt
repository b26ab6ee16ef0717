-- ===== src/Program/Pipeline/Books.antt =====
-- The order book at the end of the pipeline of src/main.cpp.
use trader_cpp.Base.{◌≡◌, sym, ap, ◌∙◌, List, [], ◌++◌}
use trader_cpp.External.BtreeMap.{BtreeMap, greater, less}
use trader_cpp.External.CircularBuffer.{CircularBuffer}
use trader_cpp.External.ConcurrentQueue.{ConcurrentQueue}
use trader_cpp.External.Fix.{Increment}
use trader_cpp.External.Float.{Float}
use trader_cpp.Binance.FixApp.{FixApp}
use trader_cpp.Binance.FixApp.Routing.{
  price_messages, HasOneProducer, order_messages-price_messages,
}
use trader_cpp.Binance.MarketMessageVariant.{MarketMessageVariant}
use trader_cpp.Core.OrderBook.View.{view}
use trader_cpp.Core.Trade.{Trade}
use trader_cpp.Program.Pipeline.{Happening, launch, run, get_order_queue}
use trader_cpp.Program.Pipeline.Projection.{deliveries, book_events, sent-book_events, run-books}
use trader_cpp.Ui.OrderBookBox.{OrderBookBox, poll_queue}
use trader_cpp.Ui.OrderBookBox.Feed.{follow, keep, poll_queue-follows}
use trader_cpp.Ui.Polling.{Worker, digest}
use trader_cpp.Ui.TradeBox.{TradeBox}

module _ {D OQ TQ B A R : Type 0} ⦃float : Float D⦄ ⦃bids : BtreeMap greater B⦄
    ⦃asks : BtreeMap less A⦄ ⦃ring : CircularBuffer Trade R⦄
    ⦃oq : ConcurrentQueue (MarketMessageVariant D) OQ⦄ ⦃tq : ConcurrentQueue (Increment D) TQ⦄ where
  -- From an empty order queue, if snapshots come from the price session only, and however the
  -- sessions' messages, the turns of the two workers and their stop requests interleave: the snapshots
  -- and increments that the price session delivered are those that the book's worker has taken, in
  -- the order of delivery, followed by those that wait; and the book is what the taken ones make of
  -- it, up to one that cannot be read, whose exception the worker keeps.
  pub run-follows :
      (app : FixApp OQ TQ) (box : OrderBookBox B A) (trade_box : TradeBox R)
      (hs : List (Happening D))
      → oq.contents app.order_queue ≡ []
      → HasOneProducer (deliveries hs)
      → let p = run (launch app box trade_box) hs in
        (taken : List (MarketMessageVariant D)) × (price_messages (deliveries hs)
          ≡ taken ++ oq.contents p.app.order_queue)
        × (let end = digest (follow box.is_book_clear_needed) keep (view box.core_book) taken in
            (view p.book_worker.state.core_book ≡ end.0) × (p.book_worker.exception ≡ end.1))
  unfolding get_order_queue launch poll_queue
  run-follows app box trade_box hs e one_producer =
      let same = run-books (launch app box trade_box) hs in
      let (taken, order, shown) = poll_queue-follows box app.order_queue (book_events hs) e in
      (
        taken,
        sym (order_messages-price_messages (deliveries hs) one_producer)
            ∙ sym (sent-book_events hs)
            ∙ order
            ∙ ap (λ (w : Worker (OrderBookBox B A) OQ). taken ++ oq.contents w.queue) (sym same),
        (
          ap (λ (w : Worker (OrderBookBox B A) OQ). view w.state.core_book) same ∙ shown.0,
          ap (λ (w : Worker (OrderBookBox B A) OQ). w.exception) same ∙ shown.1,
        ),
      )
