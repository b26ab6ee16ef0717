-- ===== src/Program/Examples.antt =====
-- Examples for the pipeline that src/main.cpp sets up.
use trader_cpp.Base.{
  arith, ℕ, false, ◌≡◌, refl, sym, ap, Option, none, List, [], ◌∷◌, ◌++◌, codes, replicate,
  Exception,
}
use trader_cpp.External.BtreeMap.{bid_list, ask_list}
use trader_cpp.External.CircularBuffer.{list_buffer}
use trader_cpp.External.ConcurrentQueue.{list_queue}
use trader_cpp.External.Fix.{Increment}
use trader_cpp.External.Float.{Decimal, decimal_float}
use trader_cpp.Binance.Examples.{idle}
use trader_cpp.Binance.FixApp.{full_refresh, incremental_refresh}
use trader_cpp.Binance.FixApp.Routing.{price_messages, trade_messages, HasOneProducer}
use trader_cpp.Binance.MarketMessageVariant.{MarketMessageVariant}
use trader_cpp.Binance.Symbol.{from_str}
use trader_cpp.Core.OrderBook.{apply_snapshot, apply_increment}
use trader_cpp.Core.OrderBook.Examples.{three_levels, snapshot_message, increment_message}
use trader_cpp.Core.OrderBook.View.{view, Depths}
use trader_cpp.Program.Pipeline.{
  Happening, deliver, book_turn, trade_turn, stop_book, stop_trade, launch, run,
}
use trader_cpp.Program.Pipeline.Shutdown.{run-shuts_down}
use trader_cpp.Program.Pipeline.Books.{run-follows}
use trader_cpp.Program.Pipeline.CatchUp.{run_catches_up}
use trader_cpp.Program.Pipeline.Projection.{deliveries}
use trader_cpp.Program.Pipeline.Trades.{run-keeps}
use trader_cpp.Ui.Examples.{box, trade_message, new_box}
use trader_cpp.Ui.OrderBookBox
use trader_cpp.Ui.OrderBookBox.{visit}
use trader_cpp.Ui.OrderBookBox.Feed as BookFeed
use trader_cpp.Ui.OrderBookBox.Feed.{Shows, visit-Shows, post_event-Shows}
use trader_cpp.Ui.Polling.Simulation.{digest-simulates}
use trader_cpp.Ui.Polling.{digest, ended}
use trader_cpp.Ui.TradeBox.Feed as TradeFeed
use trader_cpp.Ui.TradeBox.Trades.{IsValid}

-- A snapshot and an increment of prices, a trade, turns of both workers in between, and a stop.
abbrev session : List (Happening Decimal)
session =
    deliver (codes "PX") (full_refresh snapshot_message)
    ∷ book_turn
    ∷ trade_turn
    ∷ deliver (codes "TX") (incremental_refresh trade_message)
    ∷ book_turn
    ∷ trade_turn
    ∷ trade_turn
    ∷ deliver (codes "PX") (incremental_refresh increment_message)
    ∷ stop_trade
    ∷ trade_turn
    ∷ []

-- The snapshot comes from the price session.
one_producer : HasOneProducer (deliveries session)
one_producer = (refl, (tt, (tt, tt)))

run-follows_example :
    let p = run (launch idle box new_box) session in
    (taken : List (MarketMessageVariant Decimal)) × (price_messages (deliveries session)
      ≡ taken ++ p.app.order_queue)
    × (let end = digest (BookFeed.follow false) BookFeed.keep (view three_levels) taken in
        (view p.book_worker.state.core_book ≡ end.0) × (p.book_worker.exception ≡ end.1))
run-follows_example = run-follows idle box new_box session refl one_producer

run-keeps_example :
    let p = run (launch idle box new_box) session in
    (taken : List (Increment Decimal)) × (trade_messages (deliveries session)
      ≡ taken ++ p.app.trade_queue)
    × IsValid p.trade_worker.state
    × (let end = digest TradeFeed.follow TradeFeed.keep [] taken in
        (p.trade_worker.state.trade_ring.1 ≡ end.0) × (p.trade_worker.exception ≡ end.1))
run-keeps_example = run-keeps idle box session refl

-- The abstract book after the messages of the price session.
abbrev at_the_end : Depths
at_the_end =
    (digest (BookFeed.follow false) BookFeed.keep (view three_levels)
      (price_messages (deliveries session))).0

-- None of the messages throws.
shown :
    digest
      (BookFeed.follow false)
      BookFeed.keep
      (view three_levels)
      (price_messages (deliveries session))
    ≡ (at_the_end, none)
unfolding digest visit apply_snapshot apply_increment from_str
shown =
    ap (λ (x : Option Exception). (at_the_end, x))
      (sym
        (digest-simulates (Shows false) visit OrderBookBox.post_event (BookFeed.follow false)
          BookFeed.keep (post_event-Shows false) (visit-Shows false)
          (price_messages (deliveries session)) box (view three_levels)
          (record { seen = refl; same_clear = refl })).1)

run_catches_up_example :
    let p = run (launch idle box new_box) session in
    (n : ℕ) × (let turns : List (Happening Decimal) = replicate n book_turn in
      let end = run p turns in
      (end.app.order_queue ≡ [])
      × (view end.book_worker.state.core_book ≡ at_the_end)
      × (end.book_worker.exception ≡ none))
run_catches_up_example =
    run_catches_up idle box new_box session at_the_end refl
      (tt, (tt, (tt, (tt, (tt, (tt, (tt, (tt, (tt, (tt, tt)))))))))) one_producer shown

-- Both workers are asked to stop, when messages still wait.
abbrev asked : List (Happening Decimal)
asked =
    deliver (codes "PX") (full_refresh snapshot_message)
    ∷ book_turn
    ∷ book_turn
    ∷ stop_book
    ∷ stop_trade
    ∷ []

abbrev two_turns : List (Happening Decimal)
two_turns =
    trade_turn
    ∷ book_turn
    ∷ deliver (codes "PX") (incremental_refresh increment_message)
    ∷ book_turn
    ∷ trade_turn
    ∷ []

run-shuts_down_example :
    let v = run (run (launch idle box new_box) asked) two_turns in
    let w = run v session in
    (v.book_worker.phase ≡ ended)
    × (v.trade_worker.phase ≡ ended)
    × (w.book_worker.state ≡ v.book_worker.state)
    × (w.trade_worker.state ≡ v.trade_worker.state)
unfolding run
run-shuts_down_example =
    run-shuts_down (run (launch idle box new_box) asked) two_turns session refl refl (omega arith)
      (omega arith)
