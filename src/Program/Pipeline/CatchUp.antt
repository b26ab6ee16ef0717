-- ===== src/Program/Pipeline/CatchUp.antt =====
-- The order book at the end of the pipeline of src/main.cpp catches up with what was delivered.
use trader_cpp.Base.{
  ℕ, zero, suc, ◌≡◌, refl, ap, ◌∙◌, Option, none, Exception, List, [], ◌∷◌, ◌++◌, replicate, All,
}
use trader_cpp.External.BtreeMap.{BtreeMap, greater, less}
use trader_cpp.External.CircularBuffer.{CircularBuffer}
use trader_cpp.External.ConcurrentQueue.{ConcurrentQueue}
use trader_cpp.External.Fix.{Increment}
use trader_cpp.External.Float.{Float}
use trader_cpp.Binance.FixApp.{FixApp}
use trader_cpp.Binance.FixApp.Routing.{
  order_messages, price_messages, HasOneProducer, order_messages-price_messages,
}
use trader_cpp.Binance.MarketMessageVariant.{MarketMessageVariant}
use trader_cpp.Core.OrderBook.View.{Depths, view}
use trader_cpp.Core.Trade.{Trade}
use trader_cpp.Program.Pipeline.{
  Happening, deliver, book_turn, trade_turn, stop_book, stop_trade, launch, run, get_order_queue,
}
use trader_cpp.Program.Pipeline.Projection.{
  deliveries, sends, book_events, sent-book_events, run-books,
}
use trader_cpp.Ui.OrderBookBox.{OrderBookBox, visit, post_event}
use trader_cpp.Ui.OrderBookBox.Feed.{follow, keep, Shows, visit-Shows, post_event-Shows}
use trader_cpp.Ui.Polling.{Worker, Event, turn, digest}
use trader_cpp.Ui.Polling
use trader_cpp.Ui.Polling.CatchUp.{IsQuiet, run-catches_up}
use trader_cpp.Ui.Polling.Simulation.{digest-simulates}
use trader_cpp.Ui.TradeBox.{TradeBox}

-- Nobody asks the worker of the order book box to stop.
abbrev pub GoesOn : {D : Type 0} → Happening D → Type 0
GoesOn (deliver qualifier m) = Unit
GoesOn book_turn = Unit
GoesOn trade_turn = Unit
GoesOn stop_book = ⊥
GoesOn stop_trade = Unit

sends-IsQuiet :
    {M : Type 0} (ms : List M) (es : List (Event M)) → All IsQuiet es → All IsQuiet (sends ms ++ es)
sends-IsQuiet [] es h = h
sends-IsQuiet (m ∷ ms) es h = (tt, sends-IsQuiet ms es h)

book_events-IsQuiet :
    {D : Type 0} (hs : List (Happening D)) → All GoesOn hs → All IsQuiet (book_events hs)
book_events-IsQuiet [] h = tt
book_events-IsQuiet (deliver qualifier m ∷ hs) h =
    sends-IsQuiet (order_messages ((qualifier, m) ∷ [])) (book_events hs)
      (book_events-IsQuiet hs h.1)
book_events-IsQuiet (book_turn ∷ hs) h = (tt, book_events-IsQuiet hs h.1)
book_events-IsQuiet (trade_turn ∷ hs) h = book_events-IsQuiet hs h.1
book_events-IsQuiet (stop_book ∷ hs) h = absurd h.0
book_events-IsQuiet (stop_trade ∷ hs) h = book_events-IsQuiet hs h.1

book_events-replicate :
    {D : Type 0} (n : ℕ)
    → let turns : List (Happening D) = replicate n book_turn in book_events turns ≡ replicate n turn
book_events-replicate zero = refl
book_events-replicate (suc n) = ap (◌∷◌ turn) (book_events-replicate n)

module _ {D OQ TQ B A R : Type 0} ⦃float : Float D⦄ ⦃bids : BtreeMap greater B⦄
    ⦃asks : BtreeMap less A⦄ ⦃ring : CircularBuffer Trade R⦄
    ⦃oq : ConcurrentQueue (MarketMessageVariant D) OQ⦄ ⦃tq : ConcurrentQueue (Increment D) TQ⦄ where
  -- From an empty order queue, if snapshots come from the price session only, its messages make a book
  -- of the abstract one without an exception, and nobody asks the book's worker to stop: however messages and turns have interleaved, some number of further
  -- turns of that worker later the order queue is empty, and the box shows that book.
  pub run_catches_up :
      (app : FixApp OQ TQ) (box : OrderBookBox B A) (trade_box : TradeBox R)
      (hs : List (Happening D)) (d : Depths)
      → oq.contents app.order_queue ≡ []
      → All GoesOn hs
      → HasOneProducer (deliveries hs)
      → digest
          (follow box.is_book_clear_needed)
          keep
          (view box.core_book)
          (price_messages (deliveries hs))
        ≡ (d, none)
      → let p = run (launch app box trade_box) hs in
        (n : ℕ) × (let turns : List (Happening D) = replicate n book_turn in
          let end = run p turns in
          (oq.contents end.app.order_queue ≡ [])
          × (view end.book_worker.state.core_book ≡ d)
          × (end.book_worker.exception ≡ none))
  unfolding get_order_queue launch
  run_catches_up app box trade_box hs d e on one_producer priced =
      let clear = box.is_book_clear_needed in
      let p = run (launch app box trade_box) hs in
      let ms = order_messages (deliveries hs) in
      let shown : digest (follow clear) keep (view box.core_book) ms ≡ (d, none) =
        ap (digest (follow clear) keep (view box.core_book))
          (order_messages-price_messages (deliveries hs) one_producer)
        ∙ priced in
      let (same, stop) =
        digest-simulates (Shows clear) visit post_event (follow clear) keep (post_event-Shows clear)
          (visit-Shows clear) ms box (view box.core_book)
          (record { seen = refl; same_clear = refl }) in
      let handled : digest visit post_event box (Polling.sent (book_events hs))
          ≡ ((digest visit post_event box ms).0, none) =
        ap (digest visit post_event box) (sent-book_events hs) ∙ λ i. (
          (digest visit post_event box ms).0,
          (stop ∙ ap (λ (r : Depths × Option Exception). r.1) shown) i,
        ) in
      let (n, reached) =
        run-catches_up visit post_event box (digest visit post_event box ms).0 app.order_queue
          (book_events hs) e (book_events-IsQuiet hs on) handled in
      let alone : get_order_queue (run p (replicate n book_turn))
          ≡ Polling.run (visit {D = D}) post_event
              (Polling.run (visit {D = D}) post_event (Polling.started box app.order_queue)
                (book_events hs))
              (replicate n turn) =
        run-books p (replicate n book_turn)
        ∙ ap (Polling.run (visit {D = D}) post_event (get_order_queue p)) (book_events-replicate n)
        ∙ ap
            (λ (w : Worker (OrderBookBox B A) OQ).
              Polling.run (visit {D = D}) post_event w (replicate n turn))
            (run-books (launch app box trade_box) hs) in
      (
        n,
        (
          ap (λ (w : Worker (OrderBookBox B A) OQ). oq.contents w.queue) alone ∙ reached.0,
          ap (λ (w : Worker (OrderBookBox B A) OQ). view w.state.core_book) alone
              ∙ ap (λ (b : OrderBookBox B A). view b.core_book) reached.1
              ∙ same.seen
              ∙ ap (λ (r : Depths × Option Exception). r.0) shown,
          ap (λ (w : Worker (OrderBookBox B A) OQ). w.exception) alone ∙ reached.2,
        ),
      )
