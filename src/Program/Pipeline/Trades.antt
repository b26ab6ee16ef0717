-- ===== src/Program/Pipeline/Trades.antt =====
-- The trades at the end of the pipeline of src/main.cpp.
use trader_cpp.Base.{◌≡◌, sym, ap, ◌∙◌, List, [], ◌++◌}
use trader_cpp.External.BtreeMap.{BtreeMap, greater, less}
use trader_cpp.External.CircularBuffer.{CircularBuffer}
use trader_cpp.External.ConcurrentQueue.{ConcurrentQueue}
use trader_cpp.External.Fix.{Increment}
use trader_cpp.External.Float.{Float}
use trader_cpp.Binance.FixApp.{FixApp}
use trader_cpp.Binance.FixApp.Routing.{trade_messages}
use trader_cpp.Binance.MarketMessageVariant.{MarketMessageVariant}
use trader_cpp.Core.Trade.{Trade}
use trader_cpp.Program.Pipeline.{Happening, launch, run, get_trade_queue}
use trader_cpp.Program.Pipeline.Projection.{deliveries, trade_events, sent-trade_events, run-trades}
use trader_cpp.Ui.OrderBookBox.{OrderBookBox}
use trader_cpp.Ui.Polling.{Worker, digest}
use trader_cpp.Ui.TradeBox.{TradeBox, make, poll_queue}
use trader_cpp.Ui.TradeBox.Feed.{follow, keep, poll_queue-keeps}
use trader_cpp.Ui.TradeBox.Trades.{IsValid}

module _ {D OQ TQ B A R : Type 0} ⦃float : Float D⦄ ⦃bids : BtreeMap greater B⦄
    ⦃asks : BtreeMap less A⦄ ⦃ring : CircularBuffer Trade R⦄
    ⦃oq : ConcurrentQueue (MarketMessageVariant D) OQ⦄ ⦃tq : ConcurrentQueue (Increment D) TQ⦄ where
  -- From an empty trade queue and a new trade box, and however the sessions' messages, the turns of
  -- the two workers and their stop requests interleave: of all that any session delivered, the trade
  -- session's increments are those that the trade worker has taken, in the order of delivery,
  -- followed by those that wait; the ring holds at most 100 trades; and it is what the taken ones
  -- make of it, up to one that cannot be read, whose exception the worker keeps.
  pub run-keeps :
      (app : FixApp OQ TQ) (box : OrderBookBox B A) (hs : List (Happening D))
      → tq.contents app.trade_queue ≡ []
      → let start : TradeBox R = make in
        let p = run (launch app box start) hs in
        (taken : List (Increment D)) × (trade_messages (deliveries hs)
          ≡ taken ++ tq.contents p.app.trade_queue)
        × IsValid p.trade_worker.state
        × (let end = digest follow keep [] taken in
            (ring.contents p.trade_worker.state.trade_ring ≡ end.0)
            × (p.trade_worker.exception ≡ end.1))
  unfolding get_trade_queue launch poll_queue
  run-keeps app box hs e =
      let same = run-trades (launch app box make) hs in
      let (taken, order, valid, shown) = poll_queue-keeps app.trade_queue (trade_events hs) e in
      (
        taken,
        sym (sent-trade_events hs)
            ∙ order
            ∙ ap (λ (w : Worker (TradeBox R) TQ). taken ++ tq.contents w.queue) (sym same),
        rw (ap (λ (w : Worker (TradeBox R) TQ). w.state) same) valid,
        (
          ap (λ (w : Worker (TradeBox R) TQ). ring.contents w.state.trade_ring) same ∙ shown.0,
          ap (λ (w : Worker (TradeBox R) TQ). w.exception) same ∙ shown.1,
        ),
      )
