-- ===== src/Core/OrderBook/Vector.antt =====
-- `to_vector` of src/core/order_book.cpp: the rows that the user interface shows.
use trader_cpp.Base.{
  ℕ, suc, ◌-◌, max, ◌≡◌, refl, ap, ◌∙◌, List, [], ◌∷◌, ◌++◌, map, length, replicate, arith,
  append-nil,
}
use trader_cpp.External.BtreeMap.{
  BtreeMap, Level, greater, less, entries-ext, less-IsAsymmetric, greater-IsAsymmetric,
}
use trader_cpp.Core.OrderBook.{OrderBook, BidAsk, sentinel, rows, to_vector}
use trader_cpp.Core.OrderBook.View.{Depths, view}

abbrev pub bid_level : BidAsk → Level
bid_level row = (row.bid_px, row.bid_sz)

abbrev pub ask_level : BidAsk → Level
ask_level row = (row.ask_px, row.ask_sz)

abbrev pub padding : ℕ → List Level
padding n = replicate n (sentinel, sentinel)

length-rows : (xs ys : List Level) → length (rows xs ys) ≡ max (length xs) (length ys)
unfolding rows
length-rows [] [] = omega arith
length-rows (x ∷ xs) [] = omega (arith, length-rows xs [])
length-rows [] (y ∷ ys) = omega (arith, length-rows [] ys)
length-rows (x ∷ xs) (y ∷ ys) = omega (arith, length-rows xs ys)

zero_sub : (n : ℕ) → 0 - n ≡ 0
zero_sub n = omega arith

sub_zero : (n : ℕ) → n - 0 ≡ n
sub_zero n = omega arith

suc_sub_suc : (m n : ℕ) → suc m - suc n ≡ m - n
suc_sub_suc m n = omega arith

ruleset differences = (zero_sub, sub_zero, suc_sub_suc, append-nil)

-- Each column is its side, followed by sentinels down to the last row.
columns :
    (xs ys : List Level)
    → (map bid_level (rows xs ys) ≡ xs ++ padding (length ys - length xs))
      × (map ask_level (rows xs ys) ≡ ys ++ padding (length xs - length ys))
unfolding rows
columns [] [] = (refl, refl)
columns (x ∷ xs) [] =
    let (l, r) = columns xs [] in
    (
      simp differences (ap (◌∷◌ x) l ∙ simp differences),
      simp differences (ap (◌∷◌ (sentinel, sentinel)) r ∙ simp differences),
    )
columns [] (y ∷ ys) =
    let (l, r) = columns [] ys in
    (
      simp differences (ap (◌∷◌ (sentinel, sentinel)) l ∙ simp differences),
      simp differences (ap (◌∷◌ y) r ∙ simp differences),
    )
columns (x ∷ xs) (y ∷ ys) =
    let (l, r) = columns xs ys in (simp differences (ap (◌∷◌ x) l), simp differences (ap (◌∷◌ y) r))

module _ {B A : Type 0} ⦃bids : BtreeMap greater B⦄ ⦃asks : BtreeMap less A⦄ where
  -- There is a row for each level of the deeper side. The bid column is the bids in the order of
  -- the map, best price first, and then sentinels; likewise the ask column.
  pub to_vector-columns :
      (book : OrderBook B A)
      → let bid_levels = bids.entries book.bid_map in
        let ask_levels = asks.entries book.ask_map in
        let v = to_vector book in
        (length v ≡ max (length bid_levels) (length ask_levels))
        × (map bid_level v ≡ bid_levels ++ padding (length ask_levels - length bid_levels))
        × (map ask_level v ≡ ask_levels ++ padding (length bid_levels - length ask_levels))
  unfolding to_vector
  to_vector-columns book =
      let xs = bids.entries book.bid_map in
      let ys = asks.entries book.ask_map in
      (length-rows xs ys, (columns xs ys).0, (columns xs ys).1)

  -- The rows depend on the abstract book alone: two books with the same size at every price of
  -- either side show the same rows, whatever messages built them.
  pub to_vector_congr : (b c : OrderBook B A) → view b ≡ view c → to_vector b ≡ to_vector c
  unfolding to_vector
  to_vector_congr b c e =
      let same_bids =
        entries-ext greater greater-IsAsymmetric (bids.entries b.bid_map) (bids.entries c.bid_map)
          (bids.entries-IsSorted b.bid_map) (bids.entries-IsSorted c.bid_map)
          (λ q. ap (λ (d : Depths). d.bid q) e) in
      let same_asks =
        entries-ext less less-IsAsymmetric (asks.entries b.ask_map) (asks.entries c.ask_map)
          (asks.entries-IsSorted b.ask_map) (asks.entries-IsSorted c.ask_map)
          (λ q. ap (λ (d : Depths). d.ask q) e) in
      cc (same_bids, same_asks)
