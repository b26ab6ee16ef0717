-- ===== src/Ui/TradeBox.antt =====
-- src/ui/trade_box.cpp and trade_box.h: the trades that the exchange reports, kept in a ring.
--
-- `on_trade` holds the ring's mutex from its first line to its end, and so is one step of the box.
pub mod Time
pub mod Trades
pub mod Feed
pub mod Table
use trader_cpp.Base.{
  ℕ, suc, ◌+◌, ◌-◌, ◌^◌, Bool, true, ◌&&◌, Option, none, some, List, [], ◌∷◌, ◌++◌, Text, Outcome,
  ok, ◌>>=◌, Attempt, using, on_part, done, length, take, replicate, min, if◌then◌else◌, ◌==◌,
  codes, map,
}
use trader_cpp.External.CircularBuffer.{CircularBuffer}
use trader_cpp.External.Float.{Float}
use trader_cpp.External.Fix.{
  Field, Stored, MdEntry, Increment, UtcTime, get, get_value, is_set, entry_trade, for_groups,
}
use trader_cpp.Binance.Symbol.{SymbolEnum, btcusdt, is_btcusdt}
use trader_cpp.Binance.Side
use trader_cpp.Core.OrderBook.{entry_symbol, price_ticks, size_ticks}
use trader_cpp.Core.Trade.{Trade}
use trader_cpp.Utils.Chars.{to_string, from_chars}
use trader_cpp.Utils.Double.{pretty, trim}
use trader_cpp.Binance.Config.{get_price_ticks_per_unit, get_size_ticks_per_unit}
use trader_cpp.External.ConcurrentQueue.{ConcurrentQueue}
use trader_cpp.Ui.Helpers.{pad, pad_array, pad_uint64}
use trader_cpp.Ui.Polling.{Worker, Event, run}

abbrev pub max_lines : ℕ
max_lines = 100

-- `%0wu`
unfoldable pub zero_padded : ℕ → ℕ → Text
zero_padded w n = replicate (w - length (to_string n)) b'0' ++ to_string n

-- The text that `snprintf` is asked to write. Each part is cut to what it should be at most.
unfoldable pub time_text : UtcTime → Text
time_text t =
    zero_padded 2 (min t.hour 23)
    ++ b':' ∷ zero_padded 2 (min t.minute 59)
    ++ b':' ∷ zero_padded 2 (min t.second 59)
    ++ b'.' ∷ zero_padded 6 (min t.microsecond 999_999)

abbrev pub time_size : ℕ
time_size = 16

-- `snprintf` into the 16 bytes of `tm_arr`, which are all 0 at first: it writes at most 15 bytes of
-- its text and a NUL.
unfoldable pub print_time : UtcTime → Text
unfolding time_text
print_time t =
    let text = take (time_size - 1) (time_text t) in text ++ replicate (time_size - length text) 0

-- `std::from_chars` into `trade_id_uint`, which is 0 and stays so if there is an error.
unfoldable pub parse_trade_id : Text → ℕ
unfolding from_chars
parse_trade_id s = elim (from_chars (2 ^ 64) s) [ none ↦ 0 | some n ↦ n ]

pub record TradeBox (R : Type 0) : Type 0 where
  pub trade_ring : R
  -- The custom events that were posted to the screen.
  pub posted : ℕ

unfoldable pub entry_time : Field UtcTime → Outcome Text
unfolding print_time
entry_time field =
    if is_set field
    then (do e_time ← get field; tval ← get_value e_time; ok (print_time tval))
    else ok (replicate time_size 0)

module _ {D : Type 0} ⦃float : Float D⦄ where
  -- The case `MDEntryType_TRADE` with a side.
  unfoldable pub read_trade : SymbolEnum → MdEntry D → Outcome Trade
  unfolding price_ticks size_ticks parse_trade_id entry_time
  read_trade symbol group = do
    price ← price_ticks symbol group.px
    size ← size_ticks symbol group.size
    trade_id ← get group.trade_id
    side_field ← get group.aggressor_side
    side_char ← get_value side_field
    side ← Side.from_str side_char
    time ← entry_time group.transact_time
    ok (record { px = price; sz = size; id = parse_trade_id trade_id; side = side; time = time })

module _ {R : Type 0} ⦃ring : CircularBuffer Trade R⦄ where
  -- A new box.
  unfoldable pub make : TradeBox R
  make = record { trade_ring = ring.make max_lines; posted = 0 }

  unfoldable pub add_trade : Trade → TradeBox R → TradeBox R
  add_trade trade box = record box {
    trade_ring = ring.push_back trade box.trade_ring;
    posted = box.posted + 1;
  }

module _ {D R : Type 0} ⦃float : Float D⦄ ⦃ring : CircularBuffer Trade R⦄ where
  unfoldable pub switch_type : SymbolEnum → ℕ → MdEntry D → TradeBox R → Attempt (TradeBox R)
  unfolding read_trade add_trade
  switch_type symbol e_type group box =
      if (e_type == entry_trade) && is_set group.aggressor_side
      then (using box (read_trade symbol group) λ trade. (add_trade trade box, done))
      else (box, done)

  unfoldable pub trade_entry : MdEntry D → Option SymbolEnum → TradeBox R → Attempt (TradeBox R)
  unfolding switch_type
  trade_entry group none box = (box, done)
  trade_entry group (some symbol) box =
      if is_btcusdt symbol
      then (using box (get group.entry_type >>= get_value)
          λ e_type. switch_type symbol e_type group box)
      else (box, done)

  -- The body of the loop. The symbol is that of the entry if it is the first or carries one, else
  -- the last one read, as in `OrderBook::apply_increment`.
  unfoldable pub trade_step :
      Bool → MdEntry D → Option SymbolEnum × TradeBox R → Attempt (Option SymbolEnum × TradeBox R)
  unfolding trade_entry
  trade_step first group (symbol, box) =
      using (symbol, box) (entry_symbol first group symbol)
        λ symbol'. on_part (λ (b : TradeBox R). (symbol', b)) (trade_entry group symbol' box)

  unfoldable pub on_trade : Increment D → TradeBox R → Attempt (TradeBox R)
  unfolding for_groups trade_step
  on_trade msg box = using box (get msg.num_entries >>= get_value) λ num_entries.
      on_part (λ (s : Option SymbolEnum × TradeBox R). s.1)
        (for_groups trade_step true num_entries msg.groups (none, box))

-- A row of `to_table`, with the widths of `columns_`.
unfoldable pub cells : {D : Type 0} → Float D → Trade → List Text
unfolding pad pad_array pad_uint64 pretty trim
cells float trade =
    let size = float.of_uint64 (get_size_ticks_per_unit btcusdt) in
    let price = float.of_uint64 (get_price_ticks_per_unit btcusdt) in
    let trade_sz = float.div (float.of_uint64 trade.sz) size in
    let trade_px = float.div (float.of_uint64 trade.px) price in
    pad_array trade.time 17
    ∷ pad (Side.to_str trade.side) 6
    ∷ pad (pretty ⦃f = float⦄ trade_px) 13
    ∷ pad (trim ⦃f = float⦄ trade_sz) 10
    ∷ pad_uint64 trade.id 13
    ∷ []

unfoldable pub to_table :
    {D R : Type 0} ⦃ring : CircularBuffer Trade R⦄ → Float D → TradeBox R → List (List Text)
unfolding cells
to_table ⦃ring⦄ float box = map (cells float) (ring.contents box.trade_ring)

-- The event that `poll_queue` posts after each message, beside those that `on_trade` posts.
unfoldable pub post_event : {R : Type 0} → TradeBox R → TradeBox R
post_event box = record box { posted = box.posted + 1 }

module _ {D R Q : Type 0} ⦃float : Float D⦄ ⦃ring : CircularBuffer Trade R⦄
    ⦃queue : ConcurrentQueue (Increment D) Q⦄ where
  -- The worker's thread among the others.
  unfoldable pub poll_queue :
      Worker (TradeBox R) Q → List (Event (Increment D)) → Worker (TradeBox R) Q
  unfolding run on_trade post_event
  poll_queue = run on_trade post_event
