-- ===== src/Ui/OrderBookBox.antt =====
-- src/ui/order_book_box.cpp and order_book_box.h: the worker that keeps the order book up to date,
-- and the table of the book.
--
-- The table is drawn by the screen's thread. `OrderBook::to_vector` holds the book's mutex, and so
-- sees the book as one whole call of the worker left it.
pub mod Feed
pub mod Table
pub mod Classes
pub mod Reading
pub mod Prices
use trader_cpp.Base.{ℕ, suc, ◌+◌, Bool, List, [], ◌∷◌, map, Text, Attempt, on_part, codes, ◌==◌}
use trader_cpp.External.BtreeMap.{BtreeMap, greater, less}
use trader_cpp.External.ConcurrentQueue.{ConcurrentQueue}
use trader_cpp.External.Float.{Float}
use trader_cpp.Binance.Config.{get_price_ticks_per_unit, get_size_ticks_per_unit}
use trader_cpp.Binance.MarketMessageVariant.{MarketMessageVariant, snapshot, increment}
use trader_cpp.Binance.Symbol.{btcusdt}
use trader_cpp.Core.OrderBook.{OrderBook, BidAsk, to_vector, apply_snapshot, apply_increment}
use trader_cpp.Ui.Helpers.{pad}
use trader_cpp.Ui.Polling.{Worker, Event, run}
use trader_cpp.Utils.Double.{pretty, trim}

-- `columns_`
abbrev pub bid_sz_width : ℕ
bid_sz_width = 10

abbrev pub bid_width : ℕ
bid_width = 13

abbrev pub ask_width : ℕ
ask_width = 13

abbrev pub ask_sz_width : ℕ
ask_sz_width = 10

-- `header_`, which the constructor fills.
unfoldable pub header : List Text
unfolding pad
header =
    pad (codes "Bid Sz") bid_sz_width
    ∷ pad (codes "Bid") bid_width
    ∷ pad (codes "Ask") ask_width
    ∷ pad (codes "Ask Sz") ask_sz_width
    ∷ []

pub record OrderBookBox (B A : Type 0) : Type 0 where
  -- `IS_BOOK_CLEAR_NEEDED_`
  pub is_book_clear_needed : Bool
  pub core_book : OrderBook B A
  -- The custom events that were posted to the screen.
  pub posted : ℕ

-- The constructor.
unfoldable pub make : {B A : Type 0} → ℕ → OrderBook B A → OrderBookBox B A
make max_depth ob = record { is_book_clear_needed = max_depth == 1; core_book = ob; posted = 0 }

-- The number of a cell, which is divided by the ticks of a unit as a `double`.
unfoldable pub in_units : {D : Type 0} → Float D → ℕ → ℕ → D
in_units float ticks ticks_per_unit =
    float.div (float.of_uint64 ticks) (float.of_uint64 ticks_per_unit)

-- A row of `to_table`.
unfoldable pub cells : {D : Type 0} → Float D → BidAsk → List Text
unfolding in_units pad trim pretty
cells float book_row =
    let bid_sz = in_units float book_row.bid_sz (get_size_ticks_per_unit btcusdt) in
    let bid_px = in_units float book_row.bid_px (get_price_ticks_per_unit btcusdt) in
    let ask_px = in_units float book_row.ask_px (get_price_ticks_per_unit btcusdt) in
    let ask_sz = in_units float book_row.ask_sz (get_size_ticks_per_unit btcusdt) in
    pad (trim ⦃f = float⦄ bid_sz) bid_sz_width
    ∷ pad (pretty ⦃f = float⦄ bid_px) bid_width
    ∷ pad (pretty ⦃f = float⦄ ask_px) ask_width
    ∷ pad (trim ⦃f = float⦄ ask_sz) ask_sz_width
    ∷ []

unfoldable pub to_table :
    {D B A : Type 0} ⦃bids : BtreeMap greater B⦄ ⦃asks : BtreeMap less A⦄
    → Float D
    → OrderBookBox B A
    → List (List Text)
unfolding to_vector cells
to_table float box = map (cells float) (to_vector box.core_book)

module _ {D B A : Type 0} ⦃float : Float D⦄ ⦃bids : BtreeMap greater B⦄
    ⦃asks : BtreeMap less A⦄ where
  -- The `std::visit`.
  unfoldable pub visit : MarketMessageVariant D → OrderBookBox B A → Attempt (OrderBookBox B A)
  unfolding apply_snapshot apply_increment
  visit (snapshot m) box =
      on_part (λ (b : OrderBook B A). record box { core_book = b }) (apply_snapshot m box.core_book)
  visit (increment m) box =
      on_part (λ (b : OrderBook B A). record box { core_book = b })
        (apply_increment m box.is_book_clear_needed box.core_book)

unfoldable pub post_event : {B A : Type 0} → OrderBookBox B A → OrderBookBox B A
post_event box = record box { posted = box.posted + 1 }

module _ {D B A Q : Type 0} ⦃float : Float D⦄ ⦃bids : BtreeMap greater B⦄ ⦃asks : BtreeMap less A⦄
    ⦃queue : ConcurrentQueue (MarketMessageVariant D) Q⦄ where
  -- The worker's thread among the others.
  unfoldable pub poll_queue :
      Worker (OrderBookBox B A) Q
      → List (Event (MarketMessageVariant D))
      → Worker (OrderBookBox B A) Q
  unfolding run visit post_event
  poll_queue = run visit post_event
