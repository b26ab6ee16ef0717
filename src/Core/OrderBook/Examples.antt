-- ===== src/Core/OrderBook/Examples.antt =====
-- Tests of src/core/order_book.cpp at concrete messages, over decimals and sorted lists.
use trader_cpp.Base.{
  ◌⊎◌, true, ok, throw, Exception, ℕ, ◌*◌, ◌≡◌, refl, false, none, some, [], ◌∷◌, codes, done,
  foldl, map, length,
}
use trader_cpp.External.Float.{Decimal, unit, decimal_float}
use trader_cpp.External.BtreeMap.{BidList, AskList, bid_list, ask_list}
use trader_cpp.External.Fix.{
  MdEntry, Snapshot, Increment, wellformed, entry_bid, entry_offer, action_new, action_change,
  action_delete,
}
use trader_cpp.Binance.Config.{get_price_ticks_per_unit, get_size_ticks_per_unit}
use trader_cpp.Binance.Symbol.{btcusdt, from_str}
use trader_cpp.Core.OrderBook.{
  entry_symbol, price_ticks, size_ticks, handle_price_level_update, OrderBook, BidAsk, sentinel,
  to_vector, apply_snapshot, apply_increment,
}
use trader_cpp.Core.OrderBook.Top.{change_clears}
use trader_cpp.External.BtreeMap.{less-IsAsymmetric}
use trader_cpp.Core.OrderBook.Format.{equals, format}
use trader_cpp.Utils.Chars.{to_string}
use trader_cpp.Core.OrderBook.View.{view, apply_update}
use trader_cpp.Core.OrderBook.Increments.{read_increment, apply_increment-refines}
use trader_cpp.Core.OrderBook.Snapshots.{
  read_snapshot, replace_view, apply_snapshot-refines, apply_snapshot-forgets,
}
use trader_cpp.Core.OrderBook.Vector.{bid_level, ask_level, padding, to_vector-columns}

abbrev pub Book : Type 0
Book = OrderBook BidList AskList

abbrev pub blank : MdEntry Decimal
blank = record {
  entry_type = none;
  px = none;
  size = none;
  symbol = none;
  update_action = none;
  aggressor_side = none;
  trade_id = none;
  transact_time = none;
}

abbrev pub empty_book : Book
empty_book = record { bid_map = bid_list.empty; ask_map = ask_list.empty }

abbrev row : ℕ → ℕ → ℕ → ℕ → BidAsk
row bsz bpx apx asz = record { bid_sz = bsz; bid_px = bpx; ask_px = apx; ask_sz = asz }

abbrev pub entry : ℕ → ℕ → ℕ → MdEntry Decimal
entry tp px sz = record blank {
  entry_type = some (wellformed tp);
  px = some (wellformed (px * unit));
  size = some (wellformed (sz * unit));
}

abbrev pub snapshot_message : Snapshot Decimal
snapshot_message = record {
  symbol = some (codes "BTCUSDT");
  num_entries = some (wellformed 2);
  groups = entry entry_bid 95 10 ∷ entry entry_offer 96 11 ∷ [];
}

abbrev pub btc_update : ℕ → MdEntry Decimal → MdEntry Decimal
btc_update action e = record e {
  symbol = some (codes "BTCUSDT");
  update_action = some (wellformed action);
}

abbrev pub increment_message : Increment Decimal
increment_message = record {
  num_entries = some (wellformed 2);
  groups =
      btc_update action_new (entry entry_bid 95 100)
      ∷ btc_update action_delete (entry entry_offer 97 0)
      ∷ [];
}

abbrev pub three_levels : Book
three_levels = record {
  bid_map = bid_list.assign 9500 10_000_000 bid_list.empty;
  ask_map = ask_list.assign 9700 12_000_000 (ask_list.assign 9600 11_000_000 ask_list.empty);
}

to_vector_test :
    to_vector (record three_levels { bid_map = bid_list.empty })
    ≡ row sentinel sentinel 9600 11_000_000 ∷ row sentinel sentinel 9700 12_000_000 ∷ []
unfolding to_vector
to_vector_test = refl

apply_snapshot_test :
    let (book, result) = apply_snapshot snapshot_message three_levels in
    (to_vector book ≡ row 1_000_000 9500 9600 1_100_000 ∷ []) × (result ≡ done)
unfolding to_vector apply_snapshot from_str get_price_ticks_per_unit get_size_ticks_per_unit
apply_snapshot_test = (refl, refl)

apply_increment_test :
    let (book, result) = apply_increment increment_message false three_levels in
    (to_vector book ≡ row 10_000_000 9500 9600 11_000_000 ∷ []) × (result ≡ done)
unfolding to_vector apply_increment entry_symbol from_str get_price_ticks_per_unit
    get_size_ticks_per_unit
apply_increment_test = (refl, refl)

apply_increment-refines_example :
    let (updates, end) = read_increment false increment_message in
    let (book', result) = apply_increment increment_message false three_levels in
    (view book' ≡ foldl apply_update (view three_levels) updates) × (result ≡ end)
apply_increment-refines_example = apply_increment-refines false increment_message three_levels

apply_snapshot-refines_example :
    let (levels, end) = read_snapshot snapshot_message in
    let (book', result) = apply_snapshot snapshot_message three_levels in
    (view book' ≡ replace_view levels (view three_levels)) × (result ≡ end)
apply_snapshot-refines_example = apply_snapshot-refines snapshot_message three_levels

apply_snapshot-forgets_example :
    let (b', end_b) = apply_snapshot snapshot_message three_levels in
    let (c', end_c) = apply_snapshot snapshot_message empty_book in
    (to_vector b' ≡ to_vector c') × (end_b ≡ end_c)
unfolding from_str
apply_snapshot-forgets_example =
    apply_snapshot-forgets snapshot_message three_levels empty_book refl

to_vector-columns_example :
    let v = to_vector three_levels in
    (length v ≡ 2)
    × (map bid_level v ≡ (9500, 10_000_000) ∷ padding 1)
    × (map ask_level v ≡ (9600, 11_000_000) ∷ (9700, 12_000_000) ∷ [])
to_vector-columns_example = to_vector-columns three_levels

-- The same asks, set in the other order.
abbrev pub other_order : Book
other_order = record {
  bid_map = bid_list.assign 9500 10_000_000 bid_list.empty;
  ask_map = ask_list.assign 9600 11_000_000 (ask_list.assign 9700 12_000_000 ask_list.empty);
}

other_order_test : to_vector three_levels ≡ to_vector other_order
unfolding to_vector
other_order_test = refl

-- Two asks; a change is the only one left.
change_clears_example :
    let group = entry entry_offer 99 4 in
    let r =
      handle_price_level_update ask_list btcusdt
        (wellformed action_change)
        group
        true
        three_levels.ask_map in
    ((sz : ℕ) × (size_ticks btcusdt group.size ≡ ok sz)
      × (ask_list.entries r.0 ≡ (9900, sz) ∷ [])
      × (r.1 ≡ done))
    ⊎ ((e : Exception) × (size_ticks btcusdt group.size ≡ throw e)
        × (ask_list.entries r.0 ≡ [])
        × (r.1 ≡ throw e))
unfolding price_ticks get_price_ticks_per_unit
change_clears_example =
    change_clears ask_list less-IsAsymmetric btcusdt (entry entry_offer 99 4) 9900
      three_levels.ask_map refl

format_tests :
    (format (row 1 2 3 4) ≡ codes "{bid_sz: 1, bid_px: 2, ask_px: 3, ask_sz: 4}")
    × (equals (row 1 2 3 4) (row 1 2 4 3) ≡ false)
unfolding format to_string equals
format_tests = (refl, refl)
