-- ===== src/Core/OrderBook/Snapshots.antt =====
-- `apply_snapshot` of src/core/order_book.cpp against the abstract book.
use trader_cpp.Base.{
  ℕ, zero, suc, ◌≡◌, refl, ap, sym, ◌∙◌, Bool, true, false, Option, none, some, List, [], ◌∷◌,
  foldl, Outcome, ok, throw, ◌>>=◌, done, if◌then◌else◌, ◌==◌, field_not_found, using, arith,
  Outcome-cases, inl, inr,
}
use trader_cpp.External.BtreeMap.{BtreeMap, greater, less}
use trader_cpp.External.Float.{Float}
use trader_cpp.External.Fix.{MdEntry, Snapshot, get, get_value, entry_bid, entry_offer, for_groups}
use trader_cpp.Binance.Symbol.{SymbolEnum, btcusdt, ethusdt, from_str, is_btcusdt}
use trader_cpp.Core.OrderBook.{
  OrderBook, snapshot_level, place_level, snapshot_entry, apply_snapshot, to_vector,
}
use trader_cpp.Core.OrderBook.View.{
  Depths, no_depth, put, Update, on_bids, on_asks, skip, apply_update, depth-empty, depth-assign,
  view,
}
use trader_cpp.Core.OrderBook.Vector.{to_vector_congr}

-- The book without levels.
abbrev pub no_depths : Depths
no_depths = record { bid = no_depth; ask = no_depth }

read_kind : ℕ × ℕ × ℕ → Update
read_kind (tp, px, sz) =
    if tp == entry_bid
    then on_bids (put px sz)
    else (if tp == entry_offer then on_asks (put px sz) else skip)

module _ {D : Type 0} ⦃float : Float D⦄ where
  -- What the groups say, up to the first that cannot be read.
  read_levels : SymbolEnum → ℕ → List (MdEntry D) → List Update × Outcome (Unit {0})
  read_levels sym zero groups = ([], done)
  read_levels sym (suc n) [] = ([], throw field_not_found)
  read_levels sym (suc n) (g ∷ groups) =
      using [] (snapshot_level sym g)
        λ level. let rest = read_levels sym n groups in (read_kind level ∷ rest.0, rest.1)

  -- `none`: the snapshot is not for the book, or its symbol cannot be read.
  pub read_snapshot : Snapshot D → Option (List Update) × Outcome (Unit {0})
  read_snapshot msg = using none (get msg.symbol >>= from_str) λ sym.
      if is_btcusdt sym
      then (using (some []) (get msg.num_entries >>= get_value)
          λ n. let r = read_levels sym n msg.groups in (some r.0, r.1))
      else (none, done)

abbrev pub replace_view : Option (List Update) → Depths → Depths
replace_view none d = d
replace_view (some updates) d = foldl apply_update no_depths updates

module _ {D : Type 0} ⦃float : Float D⦄ where
  read_snapshot-IsSome :
      (msg : Snapshot D)
      → get msg.symbol >>= from_str ≡ ok btcusdt
      → (c d : Depths) → replace_view (read_snapshot msg).0 c ≡ replace_view (read_snapshot msg).0 d
  unfolding read_snapshot
  read_snapshot-IsSome msg e c d = elim (Outcome-cases (get msg.num_entries >>= get_value)) [
    | inl (n, e') ↦ rw (e, e')
    | inr (x, e') ↦ rw (e, e')
  ]

module _ {B A : Type 0} ⦃bids : BtreeMap greater B⦄ ⦃asks : BtreeMap less A⦄ where
  place_level-view :
      (level : ℕ × ℕ × ℕ) (book : OrderBook B A)
      → view (place_level level book) ≡ apply_update (view book) (read_kind level)
  unfolding place_level read_kind
  place_level-view (tp, px, sz) book =
      ground (arith, depth-assign bids px sz book.bid_map, depth-assign asks px sz book.ask_map)

module _ {D : Type 0} ⦃float : Float D⦄ where
  module _ {B A : Type 0} ⦃bids : BtreeMap greater B⦄ ⦃asks : BtreeMap less A⦄ where
    for_groups-view :
        (sym : SymbolEnum) (first : Bool) (n : ℕ) (groups : List (MdEntry D)) (book : OrderBook B A)
        → let c = read_levels sym n groups in
          let r = for_groups (snapshot_entry sym) first n groups book in
          (view r.0 ≡ foldl apply_update (view book) c.0) × (r.1 ≡ c.1)
    unfolding for_groups read_levels snapshot_entry
    for_groups-view sym first zero groups book = (refl, refl)
    for_groups-view sym first (suc n) [] book = (refl, refl)
    for_groups-view sym first (suc n) (g ∷ groups) book =
        elim (Outcome-cases (snapshot_level sym g)) [
          | inl (level, e) ↦
              let (same, end) = for_groups-view sym false n groups (place_level level book) in
              let from : Depths → Depths = λ d. foldl apply_update d (read_levels sym n groups).0 in
              rw e (same ∙ ap from (place_level-view level book), end)
          | inr (x, e) ↦ rw e (refl, refl)
        ]

    -- For every message and every book: a snapshot for another symbol, or whose symbol cannot be
    -- read, leaves the book alone; any other one replaces it by the levels of its groups, in order,
    -- up to the first group that cannot be read. The call throws exactly what reading throws.
    pub apply_snapshot-refines :
        (msg : Snapshot D) (book : OrderBook B A)
        → let (levels, end) = read_snapshot msg in
          let (book', result) = apply_snapshot msg book in
          (view book' ≡ replace_view levels (view book)) × (result ≡ end)
    unfolding apply_snapshot read_snapshot
    apply_snapshot-refines msg book =
        let emptied : view cleared ≡ no_depths =
          ground (arith, depth-empty bids, depth-empty asks) in
        elim (Outcome-cases (get msg.symbol >>= from_str)) [
          | inl (btcusdt, e) ↦ elim (Outcome-cases (get msg.num_entries >>= get_value)) [
            | inl (n, e') ↦
                let (same, end) = for_groups-view btcusdt true n msg.groups cleared in
                let from : Depths → Depths =
                  λ d. foldl apply_update d (read_levels btcusdt n msg.groups).0 in
                rw (e, e') (same ∙ ap from emptied, end)
            | inr (x, e') ↦ rw (e, e') (emptied, refl)
          ]
          | inl (ethusdt, e) ↦ rw e (refl, refl)
          | inr (x, e) ↦ rw e (refl, refl)
        ]
      where
        cleared : OrderBook B A
        cleared = record { bid_map = bids.empty; ask_map = asks.empty }

    -- A snapshot of BTCUSDT makes all books alike: whatever the books were, they show the same rows
    -- after it, and the call ends in the same way.
    pub apply_snapshot-forgets :
        (msg : Snapshot D) (b c : OrderBook B A)
        → get msg.symbol >>= from_str ≡ ok btcusdt
        → let (b', end_b) = apply_snapshot msg b in
          let (c', end_c) = apply_snapshot msg c in (to_vector b' ≡ to_vector c') × (end_b ≡ end_c)
    apply_snapshot-forgets msg b c e =
        let (view_b, end_b) = apply_snapshot-refines msg b in
        let (view_c, end_c) = apply_snapshot-refines msg c in
        let same = read_snapshot-IsSome msg e in
        (
          to_vector_congr (apply_snapshot msg b).0 (apply_snapshot msg c).0
              (view_b ∙ same (view b) (view c) ∙ sym view_c),
          end_b ∙ sym end_c,
        )
