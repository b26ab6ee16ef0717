-- ===== src/Ui/OrderBookBox/Prices.antt =====
-- What can be read of the prices in the table of src/ui/order_book_box.cpp.
use trader_cpp.Base.{
  List, ℕ, ◌^◌, ◌<◌, ◌≡◌, refl, ap, ◌∙◌, some, [], ◌∷◌, map, Text, take, drop, All,
}
use trader_cpp.External.BtreeMap.{BtreeMap, greater, less}
use trader_cpp.External.Float.{Float}
use trader_cpp.Binance.Config.{get_price_ticks_per_unit}
use trader_cpp.Core.OrderBook.{BidAsk, to_vector}
use trader_cpp.Ui.Helpers.{pad}
use trader_cpp.Ui.OrderBookBox.{OrderBookBox, to_table, in_units, cells}
use trader_cpp.Utils.Double.{pretty, pretty_text}
use trader_cpp.Ui.OrderBookBox.Reading.{decimal, read_price, read_price-pad}

-- The two prices of a row, and what is read of its second and third cell.
abbrev pub prices : BidAsk → List ℕ
prices row = row.bid_px ∷ row.ask_px ∷ []

abbrev pub read_prices : List Text → List ℕ
read_prices row = map read_price (take 2 (drop 1 row))

abbrev pub IsSmall : BidAsk → Type 0
IsSmall row = (row.bid_px < 10 ^ 10) × (row.ask_px < 10 ^ 10)

-- The quotient of so many ticks by 100 is written as that many hundredths in decimal.
abbrev pub PrintsHundredths : {D : Type 0} → Float D → Type 0
PrintsHundredths float =
    (c : ℕ)
    → c < 10 ^ 10
    → float.to_chars_general (float.div (float.of_uint64 c) (float.of_uint64 100))
      ≡ some (decimal c)

module _ {D : Type 0} (float : Float D) (printed : PrintsHundredths float) where
  read_prices-cells : (row : BidAsk) → IsSmall row → read_prices (cells float row) ≡ prices row
  unfolding cells in_units pretty get_price_ticks_per_unit
  read_prices-cells row (bid, ask) =
      rw (printed row.bid_px bid, printed row.ask_px ask)
        (ap (λ (n : ℕ). n ∷ read_price (pad (pretty_text (some (decimal row.ask_px))) 13) ∷ [])
            (read_price-pad row.bid_px bid)
          ∙ ap (λ (n : ℕ). row.bid_px ∷ n ∷ []) (read_price-pad row.ask_px ask))

  read_prices-map :
      (rows : List BidAsk)
      → All IsSmall rows
      → map read_prices (map (cells float) rows) ≡ map prices rows
  read_prices-map [] h = refl
  read_prices-map (row ∷ rows) (small, h) =
      ap (λ (r : List ℕ). r ∷ map read_prices (map (cells float) rows))
        (read_prices-cells row small)
      ∙ ap (◌∷◌ (prices row)) (read_prices-map rows h)

-- The prices of the book can be read of the table to the tick, if those of each row are below
-- 10 ^ 10 ticks, so that no side has fewer levels than the other, and if `std::to_chars` writes the
-- quotient of so many ticks by 100, with its 15 significant digits, as that many hundredths in
-- decimal: the commas, the erased zeros, the padding and the width of the columns lose nothing.
pub read_prices-to_table :
    {D B A : Type 0} ⦃bids : BtreeMap greater B⦄ ⦃asks : BtreeMap less A⦄ (float : Float D)
    (box : OrderBookBox B A)
    → PrintsHundredths float
    → All IsSmall (to_vector box.core_book)
    → map read_prices (to_table float box) ≡ map prices (to_vector box.core_book)
unfolding to_table
read_prices-to_table float box printed small =
    read_prices-map float printed (to_vector box.core_book) small
