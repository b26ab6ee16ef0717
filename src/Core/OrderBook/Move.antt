-- ===== src/Core/OrderBook/Move.antt =====
-- The two constructors of src/core/order_book.cpp.
--
-- The temporary variables of a message are not part of the state: each call sets those that it reads.
use trader_cpp.Base.{◌≡◌, refl}
use trader_cpp.External.BtreeMap.{BtreeMap, greater, less}
use trader_cpp.Core.OrderBook.{OrderBook}
use trader_cpp.Core.OrderBook.View.{view}

-- From two maps, which are empty if none is given.
unfoldable pub of_maps : {B A : Type 0} → B → A → OrderBook B A
of_maps bid_map ask_map = record { bid_map = bid_map; ask_map = ask_map }

unfoldable pub new_book :
    {B A : Type 0} ⦃bids : BtreeMap greater B⦄ ⦃asks : BtreeMap less A⦄ → OrderBook B A
unfolding of_maps
new_book ⦃bids⦄ ⦃asks⦄ = of_maps bids.empty asks.empty

-- The new book, and what is left of the other. What moving leaves in a map is not specified.
unfoldable pub move :
    {B A : Type 0} → (B → B) → (A → A) → OrderBook B A → OrderBook B A × OrderBook B A
unfolding of_maps
move moved_bids moved_asks other = (
  of_maps other.bid_map other.ask_map,
  of_maps (moved_bids other.bid_map) (moved_asks other.ask_map),
)

-- The book that is moved has all levels of the other, whatever is left there.
pub move-view :
    {B A : Type 0} ⦃bids : BtreeMap greater B⦄ ⦃asks : BtreeMap less A⦄ (moved_bids : B → B)
    (moved_asks : A → A) (other : OrderBook B A)
    → view (move moved_bids moved_asks other).0 ≡ view other
unfolding move
move-view moved_bids moved_asks other = refl
