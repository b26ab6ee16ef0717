-- ===== src/Core/OrderBook.antt =====
-- src/core/order_book.h and order_book.cpp, src/core/bid_ask.h: the order book.
--
-- The two sides are absl maps from price ticks to size ticks. A method that may throw is an
-- `Attempt`: the book as it leaves it, and how it ended. Each method holds the book's mutex from
-- its first line to its end, so it is one step of the book.
pub mod View
pub mod Increments
pub mod Snapshots
pub mod Vector
pub mod Format
pub mod Move
pub mod Top
pub mod Examples
use trader_cpp.Base.{
  ℕ, ◌-◌, ◌^◌, Bool, true, Option, none, some, List, [], ◌∷◌, Outcome, ok, ◌>>=◌, ◌||◌, Attempt,
  using, on_part, done, if◌then◌else◌, ◌==◌,
}
use trader_cpp.External.BtreeMap.{BtreeMap, Level, greater, less}
use trader_cpp.External.Float.{Float}
use trader_cpp.External.Fix.{
  Field, Stored, is_set, MdEntry, Snapshot, Increment, get, get_value, entry_bid, entry_offer,
  action_new, action_change, action_delete, for_groups,
}
use trader_cpp.Binance.Symbol.{SymbolEnum, from_str, is_btcusdt}
use trader_cpp.Binance.Config.{get_price_ticks_per_unit, get_size_ticks_per_unit}
use trader_cpp.Utils.Double.{to_uint64_ticks}

-- UINT64_MAX, the price and the size of a side that a row does not have.
abbrev pub sentinel : ℕ
sentinel = 2 ^ 64 - 1

pub record BidAsk : Type 0 where
  pub bid_sz : ℕ
  pub bid_px : ℕ
  pub ask_px : ℕ
  pub ask_sz : ℕ

-- A default-constructed row.
abbrev pub no_levels : BidAsk
no_levels = record { bid_sz = sentinel; bid_px = sentinel; ask_px = sentinel; ask_sz = sentinel }

pub record OrderBook (B A : Type 0) : Type 0 where
  pub bid_map : B
  pub ask_map : A

-- The loop of `to_vector`: one row for each pair of positions, until both iterators are at the end.
unfoldable pub rows : List Level → List Level → List BidAsk
rows [] [] = []
rows ((px, sz) ∷ bids) [] = record no_levels { bid_px = px; bid_sz = sz } ∷ rows bids []
rows [] ((px, sz) ∷ asks) = record no_levels { ask_px = px; ask_sz = sz } ∷ rows [] asks
rows ((bpx, bsz) ∷ bids) ((apx, asz) ∷ asks) =
    record { bid_sz = bsz; bid_px = bpx; ask_px = apx; ask_sz = asz } ∷ rows bids asks

module _ {B A : Type 0} ⦃bids : BtreeMap greater B⦄ ⦃asks : BtreeMap less A⦄ where
  unfoldable pub to_vector : OrderBook B A → List BidAsk
  unfolding rows
  to_vector book = rows (bids.entries book.bid_map) (asks.entries book.ask_map)

  -- The `if` on the type of a snapshot's entry.
  unfoldable pub place_level : ℕ × ℕ × ℕ → OrderBook B A → OrderBook B A
  place_level (tp, px, sz) book =
      if tp == entry_bid
      then record book { bid_map = bids.assign px sz book.bid_map }
      else (if tp == entry_offer
          then record book { ask_map = asks.assign px sz book.ask_map }
          else book)

-- The state of the loop of `apply_increment`: the last symbol read, and the book.
abbrev pub LoopState : Type 0 → Type 0 → Type 0
LoopState B A = Option SymbolEnum × OrderBook B A

module _ {D : Type 0} ⦃float : Float D⦄ where
  -- The price ticks of an entry, `group.get(e_px).getValue()` and the conversion.
  unfoldable pub price_ticks : SymbolEnum → Field D → Outcome ℕ
  unfolding to_uint64_ticks
  price_ticks symbol field = do
    px ← get field
    value ← get_value px
    ok (to_uint64_ticks value (get_price_ticks_per_unit symbol))

  unfoldable pub size_ticks : SymbolEnum → Field D → Outcome ℕ
  unfolding to_uint64_ticks
  size_ticks symbol field = do
    sz ← get field
    value ← get_value sz
    ok (to_uint64_ticks value (get_size_ticks_per_unit symbol))

  -- The fields of a snapshot's group, in the order in which they are read.
  unfoldable pub snapshot_level : SymbolEnum → MdEntry D → Outcome (ℕ × ℕ × ℕ)
  unfolding to_uint64_ticks
  snapshot_level sym group = do
    e_tp ← get group.entry_type
    e_px ← get group.px
    e_sz ← get group.size
    px ← get_value e_px
    sz ← get_value e_sz
    tp ← get_value e_tp
    ok (
      tp,
      to_uint64_ticks px (get_price_ticks_per_unit sym),
      to_uint64_ticks sz (get_size_ticks_per_unit sym),
    )

  -- The symbol of an entry: its own if it is the first or carries one, else the last one read.
  unfoldable pub entry_symbol : Bool → MdEntry D → Option SymbolEnum → Outcome (Option SymbolEnum)
  entry_symbol first group symbol =
      if first || is_set group.symbol
      then (do fsym ← get group.symbol; s ← from_str fsym; ok (some s))
      else ok symbol

  module _ {before : ℕ → ℕ → Bool} {M : Type 0} (m : BtreeMap before M) where
    -- The case `MDUpdateAction_NEW`, into which the case of a change falls through.
    unfoldable pub assign_level : SymbolEnum → ℕ → MdEntry D → M → Attempt M
    unfolding size_ticks
    assign_level symbol px group levels =
        using levels (size_ticks symbol group.size) λ sz. (m.assign px sz levels, done)

    unfoldable pub switch_action : SymbolEnum → ℕ → ℕ → MdEntry D → Bool → M → Attempt M
    unfolding assign_level
    switch_action symbol px action group is_book_clear_needed levels =
        if action == action_delete
        then (m.erase px levels, done)
        else (if action == action_change
            then assign_level symbol px group (if is_book_clear_needed then m.empty else levels)
            else (if action == action_new
                then assign_level symbol px group levels
                else (levels, done)))

    -- On the map of either side. The price is read before the action and before the map is
    -- touched; the size is read after a `clear()`, so a bad size leaves the side empty.
    unfoldable pub handle_price_level_update :
        SymbolEnum → Stored ℕ → MdEntry D → Bool → M → Attempt M
    unfolding price_ticks switch_action
    handle_price_level_update symbol action group is_book_clear_needed levels =
        using levels (price_ticks symbol group.px) λ px.
          using levels (get_value action)
            λ a. switch_action symbol px a group is_book_clear_needed levels

  module _ {B A : Type 0} ⦃bids : BtreeMap greater B⦄ ⦃asks : BtreeMap less A⦄ where
    unfoldable pub snapshot_entry :
        SymbolEnum → Bool → MdEntry D → OrderBook B A → Attempt (OrderBook B A)
    unfolding snapshot_level place_level
    snapshot_entry sym first group book =
        using book (snapshot_level sym group) λ level. (place_level level book, done)

    unfoldable pub apply_snapshot : Snapshot D → OrderBook B A → Attempt (OrderBook B A)
    unfolding for_groups snapshot_entry
    apply_snapshot msg book = using book (get msg.symbol >>= from_str) λ sym.
        if is_btcusdt sym
        then (let cleared : OrderBook B A = record { bid_map = bids.empty; ask_map = asks.empty } in
            using cleared (get msg.num_entries >>= get_value)
              λ num_entries. for_groups (snapshot_entry sym) true num_entries msg.groups cleared)
        else (book, done)

    unfoldable pub switch_side :
        SymbolEnum
        → Stored ℕ
        → Stored ℕ
        → MdEntry D
        → Bool
        → OrderBook B A
        → Attempt (OrderBook B A)
    unfolding handle_price_level_update
    switch_side symbol e_tp action group is_book_clear_needed book =
        using book (get_value e_tp) λ tp.
          if tp == entry_bid
          then on_part (λ (b : B). record book { bid_map = b })
              (handle_price_level_update bids symbol action group is_book_clear_needed book.bid_map)
          else (if tp == entry_offer
              then on_part (λ (a : A). record book { ask_map = a })
                  (handle_price_level_update asks symbol action group is_book_clear_needed
                    book.ask_map)
              else (book, done))

    unfoldable pub update_entry :
        Bool → MdEntry D → Option SymbolEnum → OrderBook B A → Attempt (OrderBook B A)
    unfolding switch_side
    update_entry is_book_clear_needed group none book = (book, done)
    update_entry is_book_clear_needed group (some symbol) book =
        if is_btcusdt symbol
        then (using book (get group.entry_type) λ e_tp.
            using book (get group.update_action)
              λ action. switch_side symbol e_tp action group is_book_clear_needed book)
        else (book, done)

    unfoldable pub increment_entry :
        Bool → Bool → MdEntry D → LoopState B A → Attempt (LoopState B A)
    unfolding entry_symbol update_entry
    increment_entry is_book_clear_needed first group (symbol, book) =
        using (symbol, book) (entry_symbol first group symbol)
          λ symbol'.
            on_part (λ (b : OrderBook B A). (symbol', b))
              (update_entry is_book_clear_needed group symbol' book)

    unfoldable pub apply_increment : Increment D → Bool → OrderBook B A → Attempt (OrderBook B A)
    unfolding for_groups increment_entry
    apply_increment msg is_book_clear_needed book =
        using book (get msg.num_entries >>= get_value) λ num_entries.
          on_part (λ (s : LoopState B A). s.1)
            (for_groups (increment_entry is_book_clear_needed) true num_entries msg.groups
              (none, book))
