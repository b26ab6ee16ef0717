-- ===== src/Ui/OrderBookBox/Table.antt =====
-- The table that src/ui/order_book_box.cpp draws.
use trader_cpp.Base.{ℕ, suc, ap, ◌∙◌, ◌≡◌, refl, max, List, [], ◌∷◌, map, length, All, Text}
use trader_cpp.External.BtreeMap.{BtreeMap, greater, less}
use trader_cpp.External.Float.{Float}
use trader_cpp.Core.OrderBook.{BidAsk, to_vector}
use trader_cpp.Core.OrderBook.Vector.{to_vector-columns}
use trader_cpp.Ui.Helpers.{pad, pad_lem}
use trader_cpp.Ui.OrderBookBox.{OrderBookBox, header, cells, to_table}

header_widths : map length header ≡ 10 ∷ 13 ∷ 13 ∷ 10 ∷ []
unfolding header
header_widths = refl

length-pad : (s : Text) (w : ℕ) → length (pad s w) ≡ w
length-pad s w = (pad_lem s w).0

cells_widths :
    {D : Type 0} (float : Float D) (row : BidAsk) → map length (cells float row) ≡ map length header
unfolding cells
cells_widths float row = simp (length-pad, header_widths)

module _ {D : Type 0} (float : Float D) where
  cells_fit :
      (rows : List BidAsk)
      → All (λ (row : List Text). map length row ≡ map length header) (map (cells float) rows)
  cells_fit [] = tt
  cells_fit (row ∷ rows) = (cells_widths float row, cells_fit rows)

  length-map : (rows : List BidAsk) → length (map (cells float) rows) ≡ length rows
  length-map [] = refl
  length-map (row ∷ rows) = ap suc (length-map rows)

-- For every book: there is a row for each level of the deeper side, and each row has as many cells
-- as the header, each as wide as the header's cell above it.
pub to_table_lem :
    {D B A : Type 0} ⦃bids : BtreeMap greater B⦄ ⦃asks : BtreeMap less A⦄ (float : Float D)
    (box : OrderBookBox B A)
    → let bid_levels = bids.entries box.core_book.bid_map in
      let ask_levels = asks.entries box.core_book.ask_map in
      (length (to_table float box) ≡ max (length bid_levels) (length ask_levels))
      × All (λ (row : List Text). map length row ≡ map length header) (to_table float box)
unfolding to_table
to_table_lem float box =
    let rows = to_vector box.core_book in
    (length-map float rows ∙ (to_vector-columns box.core_book).0, cells_fit float rows)
