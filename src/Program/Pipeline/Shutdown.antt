-- ===== src/Program/Pipeline/Shutdown.antt =====
-- How the workers of the pipeline of src/main.cpp end.
use trader_cpp.Base.{ℕ, suc, ◌≤◌, ◌≡◌, refl, ap, ◌∙◌, true, List, [], ◌∷◌, ◌++◌, arith}
use trader_cpp.External.BtreeMap.{BtreeMap, greater, less}
use trader_cpp.External.CircularBuffer.{CircularBuffer}
use trader_cpp.External.ConcurrentQueue.{ConcurrentQueue}
use trader_cpp.External.Fix.{Increment}
use trader_cpp.External.Float.{Float}
use trader_cpp.Binance.FixApp.Routing.{order_messages, trade_messages}
use trader_cpp.Binance.MarketMessageVariant.{MarketMessageVariant}
use trader_cpp.Core.Trade.{Trade}
use trader_cpp.Program.Pipeline.{
  Pipeline, Happening, deliver, book_turn, trade_turn, stop_book, stop_trade, run, get_order_queue,
  get_trade_queue,
}
use trader_cpp.Program.Pipeline.Projection.{sends, book_events, trade_events, run-books, run-trades}
use trader_cpp.Ui.OrderBookBox
use trader_cpp.Ui.OrderBookBox.{OrderBookBox, visit}
use trader_cpp.Ui.Polling.{Worker, Event, ended}
use trader_cpp.Ui.Polling.Stopping.{turns, turns_left_bounded, run-stops, run-of_ended}
use trader_cpp.Ui.TradeBox
use trader_cpp.Ui.TradeBox.{TradeBox, on_trade}

-- The turns of either worker.
abbrev pub book_turns : {D : Type 0} → List (Happening D) → ℕ
book_turns [] = 0
book_turns (deliver qualifier m ∷ hs) = book_turns hs
book_turns (book_turn ∷ hs) = suc (book_turns hs)
book_turns (trade_turn ∷ hs) = book_turns hs
book_turns (stop_book ∷ hs) = book_turns hs
book_turns (stop_trade ∷ hs) = book_turns hs

abbrev pub trade_turns : {D : Type 0} → List (Happening D) → ℕ
trade_turns [] = 0
trade_turns (deliver qualifier m ∷ hs) = trade_turns hs
trade_turns (book_turn ∷ hs) = trade_turns hs
trade_turns (trade_turn ∷ hs) = suc (trade_turns hs)
trade_turns (stop_book ∷ hs) = trade_turns hs
trade_turns (stop_trade ∷ hs) = trade_turns hs

turns-sends : {M : Type 0} (ms : List M) (es : List (Event M)) → turns (sends ms ++ es) ≡ turns es
turns-sends [] es = refl
turns-sends (m ∷ ms) es = turns-sends ms es

turns-book_events : {D : Type 0} (hs : List (Happening D)) → turns (book_events hs) ≡ book_turns hs
turns-book_events [] = refl
turns-book_events (deliver qualifier m ∷ hs) =
    turns-sends (order_messages ((qualifier, m) ∷ [])) (book_events hs) ∙ turns-book_events hs
turns-book_events (book_turn ∷ hs) = ap suc (turns-book_events hs)
turns-book_events (trade_turn ∷ hs) = turns-book_events hs
turns-book_events (stop_book ∷ hs) = turns-book_events hs
turns-book_events (stop_trade ∷ hs) = turns-book_events hs

turns-trade_events :
    {D : Type 0} (hs : List (Happening D)) → turns (trade_events hs) ≡ trade_turns hs
turns-trade_events [] = refl
turns-trade_events (deliver qualifier m ∷ hs) =
    turns-sends (trade_messages ((qualifier, m) ∷ [])) (trade_events hs) ∙ turns-trade_events hs
turns-trade_events (book_turn ∷ hs) = turns-trade_events hs
turns-trade_events (trade_turn ∷ hs) = ap suc (turns-trade_events hs)
turns-trade_events (stop_book ∷ hs) = turns-trade_events hs
turns-trade_events (stop_trade ∷ hs) = turns-trade_events hs

module _ {D OQ TQ B A R : Type 0} ⦃float : Float D⦄ ⦃bids : BtreeMap greater B⦄
    ⦃asks : BtreeMap less A⦄ ⦃ring : CircularBuffer Trade R⦄
    ⦃oq : ConcurrentQueue (MarketMessageVariant D) OQ⦄ ⦃tq : ConcurrentQueue (Increment D) TQ⦄ where
  -- The worker of either box has ended after two of its turns, and does nothing any more.
  book-stops :
      (p : Pipeline OQ TQ B A R) (hs later : List (Happening D))
      → p.book_worker.stop_requested ≡ true
      → 2 ≤ book_turns hs
      → let v = run p hs in
        (v.book_worker.phase ≡ ended) × ((run v later).book_worker.state ≡ v.book_worker.state)
  unfolding get_order_queue
  book-stops p hs later stop enough =
      let alone = run-books p hs in
      let bound = turns_left_bounded p.book_worker.phase in
      let finished : (run p hs).book_worker.phase ≡ ended =
        ap (λ (w : Worker (OrderBookBox B A) OQ). w.phase) alone
        ∙ run-stops visit OrderBookBox.post_event (get_order_queue p) (book_events hs) stop
            (omega (arith, turns-book_events hs)) in
      (
        finished,
        ap (λ (w : Worker (OrderBookBox B A) OQ). w.state) (run-books (run p hs) later)
            ∙ (run-of_ended visit OrderBookBox.post_event (get_order_queue (run p hs))
                (book_events later) finished).0,
      )

  trade-stops :
      (p : Pipeline OQ TQ B A R) (hs later : List (Happening D))
      → p.trade_worker.stop_requested ≡ true
      → 2 ≤ trade_turns hs
      → let v = run p hs in
        (v.trade_worker.phase ≡ ended) × ((run v later).trade_worker.state ≡ v.trade_worker.state)
  unfolding get_trade_queue
  trade-stops p hs later stop enough =
      let alone = run-trades p hs in
      let bound = turns_left_bounded p.trade_worker.phase in
      let finished : (run p hs).trade_worker.phase ≡ ended =
        ap (λ (w : Worker (TradeBox R) TQ). w.phase) alone
        ∙ run-stops on_trade TradeBox.post_event (get_trade_queue p) (trade_events hs) stop
            (omega (arith, turns-trade_events hs)) in
      (
        finished,
        ap (λ (w : Worker (TradeBox R) TQ). w.state) (run-trades (run p hs) later)
            ∙ (run-of_ended on_trade TradeBox.post_event (get_trade_queue (run p hs))
                (trade_events later) finished).0,
      )

  -- Once both workers are asked to stop, and whatever the sessions deliver meanwhile: as soon as each
  -- has had two more turns, in any order among them, both have ended, and neither the book nor the
  -- trades change any more, whatever happens later.
  pub run-shuts_down :
      (p : Pipeline OQ TQ B A R) (hs later : List (Happening D))
      → p.book_worker.stop_requested ≡ true
      → p.trade_worker.stop_requested ≡ true
      → 2 ≤ book_turns hs
      → 2 ≤ trade_turns hs
      → let v = run p hs in
        let w = run v later in
        (v.book_worker.phase ≡ ended)
        × (v.trade_worker.phase ≡ ended)
        × (w.book_worker.state ≡ v.book_worker.state)
        × (w.trade_worker.state ≡ v.trade_worker.state)
  run-shuts_down p hs later asked_book asked_trade book_enough trade_enough =
      let (book_ended, same_book) = book-stops p hs later asked_book book_enough in
      let (trade_ended, same_trade) = trade-stops p hs later asked_trade trade_enough in
      (book_ended, trade_ended, same_book, same_trade)
