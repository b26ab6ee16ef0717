-- ===== src/Core/OrderBook/Increments.antt =====
-- `apply_increment` of src/core/order_book.cpp against the abstract book.
use trader_cpp.Base.{
  ℕ, zero, suc, ◌≡◌, refl, ap, ◌∙◌, Bool, true, false, Option, none, some, List, [], ◌∷◌, foldl,
  Outcome, ok, throw, ◌>>=◌, Attempt, done, if◌then◌else◌, ◌==◌, field_not_found, using, on_part,
  and_then, Outcome-cases, arith, inl, inr,
}
use trader_cpp.External.BtreeMap.{BtreeMap, greater, less}
use trader_cpp.External.Float.{Float}
use trader_cpp.External.Fix.{
  Stored, MdEntry, Increment, get, get_value, entry_bid, entry_offer, action_new, action_change,
  action_delete, for_groups,
}
use trader_cpp.Binance.Symbol.{SymbolEnum, is_btcusdt}
use trader_cpp.Core.OrderBook.{
  OrderBook, price_ticks, size_ticks, entry_symbol, handle_price_level_update, switch_side,
  update_entry, increment_entry, apply_increment, LoopState, switch_action,
}
use trader_cpp.Core.OrderBook.View.{
  Depths, Change, put, replace, delete, unchanged, wipe, apply_change, Update, on_bids, on_asks,
  skip, apply_update, update_view, depth, depth-empty, depth-assign, depth-erase, view,
}

-- What a message says, read without a book: the changes that it asks for, up to an exception.
read_side : ℕ → Change × Outcome (Unit {0}) → Update × Outcome (Unit {0})
read_side tp change =
    if tp == entry_bid
    then on_part on_bids change
    else (if tp == entry_offer then on_part on_asks change else (skip, done))

cons_reading :
    Update × Outcome (Unit {0})
    → List Update × Outcome (Unit {0})
    → List Update × Outcome (Unit {0})
cons_reading (u, ok _) rest = (u ∷ rest.0, rest.1)
cons_reading (u, throw e) rest = (u ∷ [], throw e)

module _ {D : Type 0} ⦃float : Float D⦄ (clear : Bool) where
  read_action : SymbolEnum → ℕ → ℕ → MdEntry D → Change × Outcome (Unit {0})
  read_action symbol px action group =
      if action == action_delete
      then (delete px, done)
      else (if action == action_change
          then (using (if clear then wipe else unchanged) (size_ticks symbol group.size)
              λ sz. (if clear then replace px sz else put px sz, done))
          else (if action == action_new
              then (using unchanged (size_ticks symbol group.size) λ sz. (put px sz, done))
              else (unchanged, done)))

  read_change : SymbolEnum → Stored ℕ → MdEntry D → Change × Outcome (Unit {0})
  unfolding read_action
  read_change symbol action group =
      using unchanged (price_ticks symbol group.px)
        λ px. using unchanged (get_value action) λ a. read_action symbol px a group

  read_update : MdEntry D → Option SymbolEnum → Update × Outcome (Unit {0})
  unfolding read_side
  read_update group none = (skip, done)
  read_update group (some symbol) =
      if is_btcusdt symbol
      then (using skip (get group.entry_type) λ e_tp. using skip (get group.update_action) λ action.
          using skip (get_value e_tp) λ tp. read_side tp (read_change symbol action group))
      else (skip, done)

  read_updates : Bool → ℕ → List (MdEntry D) → Option SymbolEnum → List Update × Outcome (Unit {0})
  read_updates first zero groups symbol = ([], done)
  read_updates first (suc n) [] symbol = ([], throw field_not_found)
  read_updates first (suc n) (g ∷ groups) symbol =
      using [] (entry_symbol first g symbol)
        λ symbol'. cons_reading (read_update g symbol') (read_updates false n groups symbol')

  pub read_increment : Increment D → List Update × Outcome (Unit {0})
  read_increment msg =
      using [] (get msg.num_entries >>= get_value) λ n. read_updates true n msg.groups none

-- A call that makes the changes that were read, and ends as reading did.
pub record Follows {ℓ κ} {C : Type 0} {S : Type ℓ} {V : Type κ} (see : S → V) (act : C → V → V)
    (s : S) (c : C × Outcome (Unit {0})) (r : Attempt S) : Type κ where
  pub changed : see r.0 ≡ act c.0 (see s)
  pub ended : r.1 ≡ c.1

module _ {B A : Type 0} ⦃bids : BtreeMap greater B⦄ ⦃asks : BtreeMap less A⦄ where
  -- The loop, from any entry on.
  abbrev LoopFollows :
      List Update × Outcome (Unit {0}) → OrderBook B A → Attempt (LoopState B A) → Type 0
  LoopFollows c book r = (view r.0.1 ≡ foldl apply_update (view book) c.0) × (r.1 ≡ c.1)

  LoopFollows-cons :
      (s : Option SymbolEnum) (c : Update × Outcome (Unit {0})) (r : Attempt (OrderBook B A))
      (book : OrderBook B A) (rest : List Update × Outcome (Unit {0}))
      → Follows view update_view book c r
      → (k : LoopState B A → Attempt (LoopState B A))
      → ((b : OrderBook B A) → LoopFollows rest b (k (s, b)))
      → LoopFollows
          (cons_reading c rest)
          book
          (and_then (on_part (λ (b : OrderBook B A). (s, b)) r) k)
  unfolding cons_reading
  LoopFollows-cons s (u, ok _) (b, ok _) book rest f k loop =
      let (same, end) = loop b in
      (same ∙ ap (λ (d : Depths). foldl apply_update d rest.0) f.changed, end)
  LoopFollows-cons s (u, throw x) (b, throw y) book rest f k loop = (f.changed, f.ended)
  LoopFollows-cons s (u, ok _) (b, throw y) book rest f k loop = cc f.ended
  LoopFollows-cons s (u, throw x) (b, ok _) book rest f k loop = cc f.ended

module _ {D : Type 0} ⦃float : Float D⦄ (clear : Bool) where
  module _ {before : ℕ → ℕ → Bool} {M : Type 0} (m : BtreeMap before M) where
    switch_action-Follows :
        (symbol : SymbolEnum) (px action : ℕ) (group : MdEntry D) (levels : M)
        → Follows
            (depth m)
            apply_change
            levels
            (read_action clear symbol px action group)
            (switch_action m symbol px action group clear levels)
    unfolding switch_action read_action
    switch_action-Follows symbol px action group levels =
        elim (Outcome-cases (size_ticks symbol group.size)) [
          | inl (sz, e) ↦ ground (
            arith,
            e,
            depth-empty m,
            depth-erase m px levels,
            depth-assign m px sz levels,
            depth-assign m px sz m.empty,
          )
          | inr (x, e) ↦ ground (arith, e, depth-empty m, depth-erase m px levels)
        ]

    handle_price_level_update-Follows :
        (symbol : SymbolEnum) (action : Stored ℕ) (group : MdEntry D) (levels : M)
        → Follows
            (depth m)
            apply_change
            levels
            (read_change clear symbol action group)
            (handle_price_level_update m symbol action group clear levels)
    unfolding handle_price_level_update read_change
    handle_price_level_update-Follows symbol action group levels =
        elim (Outcome-cases (price_ticks symbol group.px)) [
          | inl (px, e) ↦ elim (Outcome-cases (get_value action)) [
            | inl (a, e') ↦ rw (e, e') (switch_action-Follows symbol px a group levels)
            | inr (x, e') ↦ rw (e, e') (record { changed = refl; ended = refl })
          ]
          | inr (x, e) ↦ rw e (record { changed = refl; ended = refl })
        ]

  module _ {B A : Type 0} ⦃bids : BtreeMap greater B⦄ ⦃asks : BtreeMap less A⦄ where
    switch_side-Follows :
        (symbol : SymbolEnum) (e_tp action : Stored ℕ) (group : MdEntry D) (book : OrderBook B A)
        → Follows view update_view book
            (using skip (get_value e_tp) λ tp. read_side tp (read_change clear symbol action group))
            (switch_side symbol e_tp action group clear book)
    unfolding switch_side read_side
    switch_side-Follows symbol e_tp action group book =
        let on_bid = handle_price_level_update-Follows bids symbol action group book.bid_map in
        let on_ask = handle_price_level_update-Follows asks symbol action group book.ask_map in
        elim (Outcome-cases (get_value e_tp)) [
          | inl (tp, e) ↦ ground (arith, e, on_bid, on_ask)
          | inr (x, e) ↦ ground (arith, e)
        ]

    update_entry-Follows :
        (group : MdEntry D) (symbol : Option SymbolEnum) (book : OrderBook B A)
        → Follows view update_view book
            (read_update clear group symbol)
            (update_entry clear group symbol book)
    unfolding update_entry read_update
    update_entry-Follows group none book = record { changed = refl; ended = refl }
    update_entry-Follows group (some s) book = elim (Outcome-cases (get group.entry_type)) [
      | inl (tp, e) ↦ elim (Outcome-cases (get group.update_action)) [
        | inl (a, e') ↦ ground (arith, e, e', switch_side-Follows s tp a group book)
        | inr (x, e') ↦ ground (arith, e, e')
      ]
      | inr (x, e) ↦ ground (arith, e)
    ]

    for_groups-LoopFollows :
        (first : Bool) (n : ℕ) (groups : List (MdEntry D)) (symbol : Option SymbolEnum)
        (book : OrderBook B A)
        → LoopFollows
            (read_updates clear first n groups symbol)
            book
            (for_groups (increment_entry clear) first n groups (symbol, book))
    unfolding for_groups read_updates increment_entry
    for_groups-LoopFollows first zero groups symbol book = (refl, refl)
    for_groups-LoopFollows first (suc n) [] symbol book = (refl, refl)
    for_groups-LoopFollows first (suc n) (g ∷ groups) symbol book =
        elim (Outcome-cases (entry_symbol first g symbol)) [
          | inl (s, e) ↦ rw e (
              LoopFollows-cons s _ _ book _ (update_entry-Follows g s book)
                (for_groups (increment_entry clear) false n groups)
                (for_groups-LoopFollows false n groups s))
          | inr (x, e) ↦ rw e (refl, refl)
        ]

    -- For every message and every book, well-formed or not: the changes that the message asks for
    -- up to the first entry that cannot be read are made, in order, and the call throws exactly
    -- what reading that entry throws.
    pub apply_increment-refines :
        (msg : Increment D) (book : OrderBook B A)
        → let (updates, end) = read_increment clear msg in
          let (book', result) = apply_increment msg clear book in
          (view book' ≡ foldl apply_update (view book) updates) × (result ≡ end)
    unfolding apply_increment read_increment
    apply_increment-refines msg book = elim (Outcome-cases (get msg.num_entries >>= get_value)) [
      | inl (n, e) ↦ rw e (for_groups-LoopFollows true n msg.groups none book)
      | inr (x, e) ↦ rw e (refl, refl)
    ]
