-- ===== src/Program/Locks/Calls.antt =====
-- The calls of src/core/order_book.cpp, src/ui/trade_box.cpp and src/ui/log_box/log_box.cpp that hold a
-- mutex and change what it protects, in turns.
use trader_cpp.Base.{
  ◌≡◌, refl, sym, Bool, true, none, List, [], ◌∷◌, ◌++◌, Text, Attempt, using, done, ◌>>=◌,
  if◌then◌else◌, ◌+◌, leb, length,
}
use trader_cpp.External.BtreeMap.{BtreeMap, greater, less}
use trader_cpp.External.CircularBuffer.{CircularBuffer}
use trader_cpp.External.Float.{Float}
use trader_cpp.External.Fix.{Snapshot, Increment, get, get_value, for_groups}
use trader_cpp.Binance.MarketMessageVariant.{MarketMessageVariant, snapshot, increment}
use trader_cpp.Binance.Symbol.{SymbolEnum, from_str, is_btcusdt}
use trader_cpp.Core.OrderBook.{
  OrderBook, snapshot_entry, increment_entry, apply_snapshot, apply_increment,
}
use trader_cpp.Core.Trade.{Trade}
use trader_cpp.Program.Locks.{Call, finish, turn, whole}
use trader_cpp.Program.Locks.Loops.{
  with_value, loop, no_locals, whole-loop, whole-loop_no_locals, whole-reads, whole-if,
}
use trader_cpp.Ui.LogBox.{LogBox, max_lines, pop_front, push_line, push_lines, on_log_lines}
use trader_cpp.Ui.TradeBox.{TradeBox, trade_step, on_trade}

module _ {D R : Type 0} ⦃float : Float D⦄ ⦃ring : CircularBuffer Trade R⦄ where
  unfoldable pub on_trade_turns : Increment D → Call (TradeBox R)
  unfolding loop trade_step
  on_trade_turns msg =
      with_value (get msg.num_entries >>= get_value)
        (λ num_entries. loop trade_step true num_entries msg.groups none)

  pub whole-on_trade_turns :
      (msg : Increment D) (box : TradeBox R) → whole (on_trade_turns msg) box ≡ on_trade msg box
  unfolding on_trade_turns on_trade
  whole-on_trade_turns msg box =
      whole-reads (get msg.num_entries >>= get_value)
        (λ num_entries. loop trade_step true num_entries msg.groups none) box
        (λ n. whole-loop trade_step true n msg.groups none box)

module _ {D B A : Type 0} ⦃float : Float D⦄ ⦃bids : BtreeMap greater B⦄
    ⦃asks : BtreeMap less A⦄ where
  unfoldable pub apply_increment_turns : Bool → Increment D → Call (OrderBook B A)
  unfolding loop increment_entry
  apply_increment_turns is_book_clear_needed msg =
      with_value (get msg.num_entries >>= get_value) (λ num_entries.
        loop (increment_entry is_book_clear_needed) true num_entries msg.groups none)

  whole-apply_increment_turns :
      (is_book_clear_needed : Bool) (msg : Increment D) (book : OrderBook B A)
      → whole (apply_increment_turns is_book_clear_needed msg) book
        ≡ apply_increment msg is_book_clear_needed book
  unfolding apply_increment_turns apply_increment
  whole-apply_increment_turns is_book_clear_needed msg book =
      whole-reads (get msg.num_entries >>= get_value)
        (λ num_entries.
          loop (increment_entry is_book_clear_needed) true num_entries msg.groups none)
        book (λ n. whole-loop (increment_entry is_book_clear_needed) true n msg.groups none book)

  -- Both maps are cleared before the entries are counted.
  unfoldable pub snapshot_entries : SymbolEnum → Snapshot D → Call (OrderBook B A)
  unfolding loop snapshot_entry
  snapshot_entries sym msg =
      turn (λ book. record book { bid_map = bids.empty })
        (λ _.
          turn (λ book. record book { ask_map = asks.empty })
            (λ _. with_value (get msg.num_entries >>= get_value) (λ num_entries.
              loop (no_locals (snapshot_entry sym)) true num_entries msg.groups tt)))

  unfoldable pub apply_snapshot_turns : Snapshot D → Call (OrderBook B A)
  unfolding snapshot_entries
  apply_snapshot_turns msg =
      with_value (get msg.symbol >>= from_str)
        (λ sym. if is_btcusdt sym then snapshot_entries sym msg else finish done)

  whole-snapshot_entries :
      (sym : SymbolEnum) (msg : Snapshot D) (book : OrderBook B A)
      → let cleared : OrderBook B A = record { bid_map = bids.empty; ask_map = asks.empty } in
        whole (snapshot_entries sym msg) book
        ≡ using cleared
            (get msg.num_entries >>= get_value)
            (λ num_entries. for_groups (snapshot_entry sym) true num_entries msg.groups cleared)
  unfolding snapshot_entries whole
  whole-snapshot_entries sym msg book =
      whole-reads (get msg.num_entries >>= get_value)
        (λ num_entries. loop (no_locals (snapshot_entry sym)) true num_entries msg.groups tt)
        (record { bid_map = bids.empty; ask_map = asks.empty })
        (λ n. whole-loop_no_locals (snapshot_entry sym) true n msg.groups _)

  whole-apply_snapshot_turns :
      (msg : Snapshot D) (book : OrderBook B A)
      → whole (apply_snapshot_turns msg) book ≡ apply_snapshot msg book
  unfolding apply_snapshot_turns apply_snapshot whole
  whole-apply_snapshot_turns msg book =
      whole-reads (get msg.symbol >>= from_str)
        (λ sym. if is_btcusdt sym then snapshot_entries sym msg else finish done) book
        (λ sym.
          whole-if (is_btcusdt sym) (snapshot_entries sym msg) (finish done) book
            (whole-snapshot_entries sym msg book) refl)

  -- The call that the worker makes for a message.
  unfoldable pub apply_message :
      Bool → MarketMessageVariant D → OrderBook B A → Attempt (OrderBook B A)
  unfolding apply_snapshot apply_increment
  apply_message is_book_clear_needed (snapshot m) book = apply_snapshot m book
  apply_message is_book_clear_needed (increment m) book =
      apply_increment m is_book_clear_needed book

  -- ... in turns.
  unfoldable pub message_turns : Bool → MarketMessageVariant D → Call (OrderBook B A)
  unfolding apply_snapshot_turns apply_increment_turns
  message_turns is_book_clear_needed (snapshot m) = apply_snapshot_turns m
  message_turns is_book_clear_needed (increment m) = apply_increment_turns is_book_clear_needed m

  pub whole-message_turns :
      (is_book_clear_needed : Bool) (msg : MarketMessageVariant D) (book : OrderBook B A)
      → whole (message_turns is_book_clear_needed msg) book
        ≡ apply_message is_book_clear_needed msg book
  unfolding message_turns apply_message
  whole-message_turns c (snapshot m) book = whole-apply_snapshot_turns m book
  whole-message_turns c (increment m) book = whole-apply_increment_turns c m book

-- The loop of `on_log_lines`, and the event behind it.
unfoldable pub on_log_lines_turns : List Text → Call LogBox
on_log_lines_turns [] = turn (λ box. record box { posted = box.posted + 1 }) (λ _. finish done)
on_log_lines_turns (line ∷ lines) =
    turn
      (λ box. record box {
        log_ring =
            if leb max_lines (length box.log_ring) then pop_front box.log_ring else box.log_ring;
      })
      (λ _.
        turn (λ box. record box { log_ring = box.log_ring ++ line ∷ [] })
          (λ _. on_log_lines_turns lines))

pub whole-on_log_lines_turns :
    (lines : List Text) (box : LogBox)
    → whole (on_log_lines_turns lines) box ≡ (on_log_lines lines box, done)
unfolding on_log_lines_turns whole on_log_lines push_lines push_line
whole-on_log_lines_turns [] box = refl
whole-on_log_lines_turns (line ∷ lines) box =
    whole-on_log_lines_turns lines (record box { log_ring = push_line box.log_ring line })
