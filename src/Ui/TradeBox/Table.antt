-- ===== src/Ui/TradeBox/Table.antt =====
-- The table that src/ui/trade_box.cpp draws.
use trader_cpp.Base.{
  ℕ, suc, ◌≡◌, refl, ap, List, [], ◌∷◌, ◌++◌, map, length, Text, All, codes, arith,
}
use trader_cpp.External.CircularBuffer.{CircularBuffer}
use trader_cpp.External.Float.{Float}
use trader_cpp.External.Fix.{UtcTime}
use trader_cpp.Core.Trade.{Trade}
use trader_cpp.Ui.Helpers.{pad, pad_array, pad_uint64, pad_lem}
use trader_cpp.Ui.TradeBox.{TradeBox, cells, to_table, time_text, print_time}
use trader_cpp.Ui.TradeBox.Time.{print_time_lem}

-- The widths of the columns.
abbrev pub widths : List ℕ
widths = 17 ∷ 6 ∷ 13 ∷ 10 ∷ 13 ∷ []

length-pad : (s : Text) (w : ℕ) → length (pad s w) ≡ w
length-pad s w = (pad_lem s w).0

cells-widths :
    {D : Type 0} (float : Float D) (trade : Trade) → map length (cells float trade) ≡ widths
unfolding cells pad_array pad_uint64
cells-widths float trade = simp length-pad

module _ {D : Type 0} (float : Float D) where
  cells_fit :
      (ts : List Trade) → All (λ (row : List Text). map length row ≡ widths) (map (cells float) ts)
  cells_fit [] = tt
  cells_fit (t ∷ ts) = (cells-widths float t, cells_fit ts)

  length-map : (ts : List Trade) → length (map (cells float) ts) ≡ length ts
  length-map [] = refl
  length-map (t ∷ ts) = ap suc (length-map ts)

-- There is a row for each trade in the ring, and each row has five cells of the columns' widths.
pub to_table-widths :
    {D R : Type 0} ⦃ring : CircularBuffer Trade R⦄ (float : Float D) (box : TradeBox R)
    → (length (to_table float box) ≡ length (ring.contents box.trade_ring))
      × All (λ (row : List Text). map length row ≡ widths) (to_table float box)
unfolding to_table
to_table-widths ⦃ring⦄ float box =
    let ts = ring.contents box.trade_ring in (length-map float ts, cells_fit float ts)

-- The cell of a time that was printed shows the whole text, with two spaces behind it.
pub pad_array-print_time : (t : UtcTime) → pad_array (print_time t) 17 ≡ time_text t ++ codes "  "
unfolding pad_array pad
pad_array-print_time t = let (size, bytes, same) = print_time_lem t in ground (arith, size, same)
