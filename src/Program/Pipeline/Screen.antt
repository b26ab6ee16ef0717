-- ===== src/Program/Pipeline/Screen.antt =====
-- What the screen shows of the pipeline of src/main.cpp.
use trader_cpp.Base.{ℕ, ◌≡◌, refl, sym, ap, ◌∙◌, Bool, List, [], ◌++◌, map, append-nil}
use trader_cpp.External.BtreeMap.{BtreeMap, greater, less}
use trader_cpp.External.CircularBuffer.{CircularBuffer}
use trader_cpp.External.ConcurrentQueue.{ConcurrentQueue}
use trader_cpp.External.Fix.{Increment}
use trader_cpp.External.Float.{Float}
use trader_cpp.External.Ftxui.{shown}
use trader_cpp.Binance.FixApp.{FixApp}
use trader_cpp.Binance.FixApp.Routing.{price_messages, trade_messages, HasOneProducer}
use trader_cpp.Binance.MarketMessageVariant.{MarketMessageVariant}
use trader_cpp.Core.OrderBook.Vector.{to_vector_congr}
use trader_cpp.Core.OrderBook.View.{view}
use trader_cpp.Core.Trade.{Trade}
use trader_cpp.Program.Pipeline.{Pipeline, Happening, launch, run}
use trader_cpp.Program.Pipeline.Books.{run-follows}
use trader_cpp.Program.Pipeline.Projection.{deliveries}
use trader_cpp.Program.Pipeline.Trades.{run-keeps}
use trader_cpp.Ui.Layout.{Screen, root}
use trader_cpp.Ui.Layout.Shown.{root-shown}
use trader_cpp.Ui.OrderBookBox
use trader_cpp.Ui.OrderBookBox.{OrderBookBox}
use trader_cpp.Ui.OrderBookBox.Feed as BookFeed
use trader_cpp.Ui.Polling.{digest}
use trader_cpp.Ui.TradeBox
use trader_cpp.Ui.TradeBox.{TradeBox, make}
use trader_cpp.Ui.TradeBox.Feed as TradeFeed

-- The screen, with the boxes as their workers have left them.
abbrev pub with_boxes :
    {OQ TQ F B A R : Type 0} → Pipeline OQ TQ B A R → Screen F B A R → Screen F B A R
with_boxes p s = record s { book_box = p.book_worker.state; trade_box = p.trade_worker.state }

-- With no message waiting, all of them have been taken.
taken_all :
    {M : Type 0} (all all' taken taken' rest rest' : List M)
    → all ≡ all'
    → all ≡ taken ++ rest
    → all' ≡ taken' ++ rest'
    → rest ≡ []
    → rest' ≡ []
    → taken ≡ taken'
taken_all all all' taken taken' rest rest' same order order' none_left none_left' =
    sym (append-nil taken)
    ∙ ap (◌++◌ taken) (sym none_left)
    ∙ sym order
    ∙ same
    ∙ order'
    ∙ ap (◌++◌ taken') none_left'
    ∙ append-nil taken'

module _ {D OQ TQ B A R : Type 0} ⦃float : Float D⦄ ⦃bids : BtreeMap greater B⦄
    ⦃asks : BtreeMap less A⦄ ⦃ring : CircularBuffer Trade R⦄
    ⦃oq : ConcurrentQueue (MarketMessageVariant D) OQ⦄ ⦃tq : ConcurrentQueue (Increment D) TQ⦄
    (app : FixApp OQ TQ) (box : OrderBookBox B A) (hs hs' : List (Happening D)) where
  same_book :
      (trade_box : TradeBox R)
      → oq.contents app.order_queue ≡ []
      → HasOneProducer (deliveries hs)
      → HasOneProducer (deliveries hs')
      → price_messages (deliveries hs) ≡ price_messages (deliveries hs')
      → oq.contents (run (launch app box trade_box) hs).app.order_queue ≡ []
      → oq.contents (run (launch app box trade_box) hs').app.order_queue ≡ []
      → OrderBookBox.to_table float (run (launch app box trade_box) hs).book_worker.state
        ≡ OrderBookBox.to_table float (run (launch app box trade_box) hs').book_worker.state
  unfolding OrderBookBox.to_table
  same_book trade_box new one one' same idle idle' =
      let p = run (launch app box trade_box) hs in
      let p' = run (launch app box trade_box) hs' in
      let (taken, order, (book, _)) = run-follows app box trade_box hs new one in
      let (taken', order', (book', _)) = run-follows app box trade_box hs' new one' in
      let same_taken : taken ≡ taken' =
        taken_all (price_messages (deliveries hs)) (price_messages (deliveries hs')) taken taken'
          (oq.contents p.app.order_queue) (oq.contents p'.app.order_queue) same order order' idle
          idle' in
      let same_view : view p.book_worker.state.core_book ≡ view p'.book_worker.state.core_book =
        book
        ∙ ap
            (λ (ms : List (MarketMessageVariant D)).
              (digest (BookFeed.follow box.is_book_clear_needed) BookFeed.keep (view box.core_book)
                ms).0)
            same_taken
        ∙ sym book' in
      ap (map (OrderBookBox.cells float))
        (to_vector_congr p.book_worker.state.core_book p'.book_worker.state.core_book same_view)

module _ {D OQ TQ B A : Type 0} (R : Type 0) ⦃float : Float D⦄ ⦃bids : BtreeMap greater B⦄
    ⦃asks : BtreeMap less A⦄ ⦃ring : CircularBuffer Trade R⦄
    ⦃oq : ConcurrentQueue (MarketMessageVariant D) OQ⦄ ⦃tq : ConcurrentQueue (Increment D) TQ⦄
    (app : FixApp OQ TQ) (box : OrderBookBox B A) (hs hs' : List (Happening D)) where
  same_trades :
      tq.contents app.trade_queue ≡ []
      → trade_messages (deliveries hs) ≡ trade_messages (deliveries hs')
      → let start : TradeBox R = make in
        tq.contents (run (launch app box start) hs).app.trade_queue ≡ []
        → tq.contents (run (launch app box start) hs').app.trade_queue ≡ []
        → TradeBox.to_table float (run (launch app box start) hs).trade_worker.state
          ≡ TradeBox.to_table float (run (launch app box start) hs').trade_worker.state
  unfolding TradeBox.to_table
  same_trades new same idle idle' =
      let start : TradeBox R = make in
      let p = run (launch app box start) hs in
      let p' = run (launch app box start) hs' in
      let (taken, order, _, (kept, _)) = run-keeps app box hs new in
      let (taken', order', _, (kept', _)) = run-keeps app box hs' new in
      let same_taken : taken ≡ taken' =
        taken_all (trade_messages (deliveries hs)) (trade_messages (deliveries hs')) taken taken'
          (tq.contents p.app.trade_queue) (tq.contents p'.app.trade_queue) same order order' idle
          idle' in
      ap (map (TradeBox.cells float)) (
        kept
        ∙ ap (λ (ms : List (Increment D)). (digest TradeFeed.follow TradeFeed.keep [] ms).0)
            same_taken
        ∙ sym kept')

-- A session from a new trade box.
unfoldable pub session :
    {D OQ TQ B A : Type 0} (R : Type 0) ⦃float : Float D⦄ ⦃bids : BtreeMap greater B⦄
    ⦃asks : BtreeMap less A⦄ ⦃ring : CircularBuffer Trade R⦄
    ⦃oq : ConcurrentQueue (MarketMessageVariant D) OQ⦄ ⦃tq : ConcurrentQueue (Increment D) TQ⦄
    → FixApp OQ TQ
    → OrderBookBox B A
    → List (Happening D)
    → Pipeline OQ TQ B A R
session R app box hs = let start : TradeBox R = make in run (launch app box start) hs

module _ {D OQ TQ B A R : Type 0} ⦃float : Float D⦄ ⦃bids : BtreeMap greater B⦄
    ⦃asks : BtreeMap less A⦄ ⦃ring : CircularBuffer Trade R⦄
    ⦃oq : ConcurrentQueue (MarketMessageVariant D) OQ⦄ ⦃tq : ConcurrentQueue (Increment D) TQ⦄
    (app : FixApp OQ TQ) (box : OrderBookBox B A) (hs hs' : List (Happening D)) where
  -- Two sessions that start alike, with empty queues and a new trade box, in which snapshots come from
  -- the price session only, and in which the same messages of the prices and the same of the trades
  -- are delivered, in the same order each, show the same
  -- grid once nothing waits, however deliveries, turns of the workers and stop requests interleave in either,
  -- for the same lines of the log and whichever part has the focus.
  pub screens-agree :
      {F : Type 0} (number : Float F) (focused : List ℕ → Bool) (s : Screen F B A R)
      → oq.contents app.order_queue ≡ []
      → tq.contents app.trade_queue ≡ []
      → HasOneProducer (deliveries hs)
      → HasOneProducer (deliveries hs')
      → price_messages (deliveries hs) ≡ price_messages (deliveries hs')
      → trade_messages (deliveries hs) ≡ trade_messages (deliveries hs')
      → oq.contents (session R app box hs).app.order_queue ≡ []
      → tq.contents (session R app box hs).app.trade_queue ≡ []
      → oq.contents (session R app box hs').app.order_queue ≡ []
      → tq.contents (session R app box hs').app.trade_queue ≡ []
      → shown focused [] (root float number) (with_boxes (session R app box hs) s)
        ≡ shown focused [] (root float number) (with_boxes (session R app box hs') s)
  unfolding session
  screens-agree number focused s new_orders new_trades one one' orders trades idle_o idle_t idle_o'
        idle_t' =
      let start : TradeBox R = make in
      rw
        (
          root-shown float number focused (with_boxes (session R app box hs) s),
          root-shown float number focused (with_boxes (session R app box hs') s),
          same_book app box hs hs' start new_orders one one' orders idle_o idle_o',
          same_trades R app box hs hs' new_trades trades idle_t idle_t',
        )
        refl
