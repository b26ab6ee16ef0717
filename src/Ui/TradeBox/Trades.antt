-- ===== src/Ui/TradeBox/Trades.antt =====
-- `on_trade` of src/ui/trade_box.cpp: which trades the ring holds.
use trader_cpp.Base.{
  ℕ, zero, suc, ◌+◌, ◌≤◌, ◌≡◌, refl, sym, ap, ◌∙◌, Bool, true, false, ◌&&◌, Option, none, some,
  List, [], ◌∷◌, ◌++◌, Outcome, ok, throw, ◌>>=◌, Attempt, using, on_part, and_then, done, length,
  if◌then◌else◌, ◌==◌, field_not_found, arith, Outcome-cases, Bool-cases, inl, inr, keep_last,
  keep_last-append, keep_last-all, length-append, length-keep_last, append_assoc, append-nil,
}
use trader_cpp.External.CircularBuffer.{CircularBuffer}
use trader_cpp.External.Float.{Float}
use trader_cpp.External.Fix.{MdEntry, Increment, get, get_value, is_set, entry_trade, for_groups}
use trader_cpp.Binance.Symbol.{SymbolEnum, btcusdt, ethusdt, is_btcusdt}
use trader_cpp.Core.OrderBook.{entry_symbol}
use trader_cpp.Core.Trade.{Trade}
use trader_cpp.Ui.TradeBox.{
  TradeBox, make, add_trade, read_trade, trade_entry, trade_step, on_trade, max_lines,
}

join_trades :
    List Trade × Outcome (Unit {0})
    → List Trade × Outcome (Unit {0})
    → List Trade × Outcome (Unit {0})
join_trades (ts, ok _) rest = (ts ++ rest.0, rest.1)
join_trades (ts, throw e) rest = (ts, throw e)

-- The trades of one entry, none or one, or an exception.
module _ {D : Type 0} ⦃float : Float D⦄ where
  read_one : SymbolEnum → ℕ → MdEntry D → List Trade × Outcome (Unit {0})
  read_one symbol e_type group =
      if (e_type == entry_trade) && is_set group.aggressor_side
      then (using [] (read_trade symbol group) λ trade. (trade ∷ [], done))
      else ([], done)

  read_entry : MdEntry D → Option SymbolEnum → List Trade × Outcome (Unit {0})
  unfolding read_one
  read_entry group none = ([], done)
  read_entry group (some symbol) =
      if is_btcusdt symbol
      then (using [] (get group.entry_type >>= get_value) λ tp. read_one symbol tp group)
      else ([], done)

  read_entries : Bool → ℕ → List (MdEntry D) → Option SymbolEnum → List Trade × Outcome (Unit {0})
  read_entries first zero groups symbol = ([], done)
  read_entries first (suc n) [] symbol = ([], throw field_not_found)
  read_entries first (suc n) (g ∷ groups) symbol =
      using [] (entry_symbol first g symbol)
        λ symbol'. join_trades (read_entry g symbol') (read_entries false n groups symbol')

  -- The BTCUSDT trades with a side that a message reports, up to the first entry that cannot be
  -- read, and the exception of that entry.
  pub read_trades : Increment D → List Trade × Outcome (Unit {0})
  read_trades msg =
      using [] (get msg.num_entries >>= get_value) λ n. read_entries true n msg.groups none

module _ {R : Type 0} ⦃ring : CircularBuffer Trade R⦄ where
  pub record IsValid (box : TradeBox R) : Type 0 where
    pub capacity : ring.capacity box.trade_ring ≡ max_lines
    pub bounded : length (ring.contents box.trade_ring) ≤ max_lines

  -- The box after trades were added to its ring, and how the call ended.
  pub record Recorded (box : TradeBox R) (c : List Trade × Outcome (Unit {0}))
      (r : Attempt (TradeBox R)) : Type 0 where
    pub kept :
        ring.contents r.0.trade_ring ≡ keep_last max_lines (ring.contents box.trade_ring ++ c.0)
    pub counted : r.0.posted ≡ box.posted + length c.0
    pub capacity : ring.capacity r.0.trade_ring ≡ max_lines
    pub ended : r.1 ≡ c.1

  pub make-IsValid : IsValid make
  unfolding make
  make-IsValid = record {
    capacity = ring.capacity-make max_lines;
    bounded = rw (ring.contents-make max_lines) (omega arith);
  }

  pub Recorded-IsValid :
      (box : TradeBox R) (c : List Trade × Outcome (Unit {0})) (r : Attempt (TradeBox R))
      → Recorded box c r
      → IsValid r.0
  Recorded-IsValid box c r h = record {
    capacity = h.capacity;
    bounded = rw h.kept (length-keep_last max_lines (ring.contents box.trade_ring ++ c.0));
  }

  nothing-Recorded :
      (box : TradeBox R) (end : Outcome (Unit {0}))
      → IsValid box
      → Recorded box ([], end) (box, end)
  nothing-Recorded box end v = record {
    kept = sym (
        ap (keep_last max_lines) (append-nil (ring.contents box.trade_ring))
        ∙ keep_last-all max_lines (ring.contents box.trade_ring) v.bounded);
    counted = omega arith;
    capacity = v.capacity;
    ended = refl;
  }

  add_trade-Recorded :
      (box : TradeBox R) (trade : Trade)
      → IsValid box
      → Recorded box (trade ∷ [], done) (add_trade trade box, done)
  unfolding add_trade
  add_trade-Recorded box trade v = record {
    kept = rw (ring.contents-push_back trade box.trade_ring, v.capacity);
    counted = refl;
    capacity = ring.capacity-push_back trade box.trade_ring ∙ v.capacity;
    ended = refl;
  }

  and_then-Recorded :
      {S : Type 0} (s : S) (box : TradeBox R) (c : List Trade × Outcome (Unit {0}))
      (r : Attempt (TradeBox R)) (rest : List Trade × Outcome (Unit {0}))
      (k : S × TradeBox R → Attempt (S × TradeBox R))
      → Recorded box c r
      → ((b : TradeBox R) → IsValid b → Recorded b rest ((k (s, b)).0.1, (k (s, b)).1))
      → let out = and_then (on_part (λ (b : TradeBox R). (s, b)) r) k in
        Recorded box (join_trades c rest) (out.0.1, out.1)
  unfolding join_trades
  and_then-Recorded s box (ts, ok _) (b, ok _) rest k h loop =
      let next = loop b (Recorded-IsValid box (ts, done) (b, done) h) in
      let before = ring.contents box.trade_ring in
      record {
        kept =
            next.kept
            ∙ ap (λ (l : List Trade). keep_last max_lines (l ++ rest.0)) h.kept
            ∙ keep_last-append max_lines (before ++ ts) rest.0
            ∙ ap (keep_last max_lines) (append_assoc before ts rest.0);
        counted = omega (arith, next.counted, h.counted, length-append ts rest.0);
        capacity = next.capacity;
        ended = next.ended;
      }
  and_then-Recorded s box (ts, throw x) (b, throw y) rest k h loop = h
  and_then-Recorded s box (ts, ok _) (b, throw y) rest k h loop = cc h.ended
  and_then-Recorded s box (ts, throw x) (b, ok _) rest k h loop = cc h.ended

module _ {D R : Type 0} ⦃float : Float D⦄ ⦃ring : CircularBuffer Trade R⦄ where
  trade_entry-Recorded :
      (g : MdEntry D) (symbol : Option SymbolEnum) (box : TradeBox R)
      → IsValid box
      → Recorded box (read_entry g symbol) (trade_entry g symbol box)
  unfolding read_entry trade_entry
  trade_entry-Recorded g none box v = nothing-Recorded box done v
  trade_entry-Recorded g (some ethusdt) box v = nothing-Recorded box done v
  trade_entry-Recorded g (some btcusdt) box v =
      elim (Outcome-cases (get g.entry_type >>= get_value)) [
        | inr (x, e) ↦ rw e (nothing-Recorded box (throw x) v)
        | inl (tp, e) ↦ elim (Bool-cases ((tp == entry_trade) && is_set g.aggressor_side)) [
          | inr other ↦ rw (e, other) (nothing-Recorded box done v)
          | inl sided ↦ elim (Outcome-cases (read_trade btcusdt g)) [
            | inr (x, f) ↦ rw (e, sided, f) (nothing-Recorded box (throw x) v)
            | inl (trade, f) ↦ rw (e, sided, f) (add_trade-Recorded box trade v)
          ]
        ]
      ]

  for_groups-Recorded :
      (first : Bool) (n : ℕ) (groups : List (MdEntry D)) (symbol : Option SymbolEnum)
      (box : TradeBox R)
      → IsValid box
      → let out = for_groups trade_step first n groups (symbol, box) in
        Recorded box (read_entries first n groups symbol) (out.0.1, out.1)
  unfolding for_groups read_entries trade_step
  for_groups-Recorded first zero groups symbol box v = nothing-Recorded box done v
  for_groups-Recorded first (suc n) [] symbol box v = nothing-Recorded box (throw field_not_found) v
  for_groups-Recorded first (suc n) (g ∷ groups) symbol box v =
      elim (Outcome-cases (entry_symbol first g symbol)) [
        | inr (x, e) ↦ rw e (nothing-Recorded box (throw x) v)
        | inl (s, e) ↦ rw e (
            and_then-Recorded s box _ _ _ (for_groups trade_step false n groups)
              (trade_entry-Recorded g s box v) (for_groups-Recorded false n groups s))
      ]

  -- From a ring of at most 100 trades, and for every message: the ring then holds the last 100 of
  -- its trades followed by those that the message reports, up to the first entry that cannot be
  -- read; a screen event is posted for each of them; and the call throws exactly what reading that
  -- entry throws.
  pub on_trade-Recorded :
      (msg : Increment D) (box : TradeBox R)
      → IsValid box
      → Recorded box (read_trades msg) (on_trade msg box)
  unfolding on_trade read_trades
  on_trade-Recorded msg box v = elim (Outcome-cases (get msg.num_entries >>= get_value)) [
    | inr (x, e) ↦ rw e (nothing-Recorded box (throw x) v)
    | inl (n, e) ↦ rw e (for_groups-Recorded true n msg.groups none box v)
  ]
