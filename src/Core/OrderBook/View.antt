-- ===== src/Core/OrderBook/View.antt =====
-- The abstract order book: a size for each price on each side, and no order, no messages. It is
-- what src/core/order_book.cpp keeps in its two maps.
use trader_cpp.Base.{ℕ, ◌≡◌, fun_ext, ap, Bool, Option, none, some, if◌then◌else◌, ◌==◌}
use trader_cpp.External.BtreeMap.{BtreeMap, greater, less, find}
use trader_cpp.Core.OrderBook.{OrderBook}

-- The size at each price.
abbrev pub Depth : Type 0
Depth = ℕ → Option ℕ

abbrev pub no_depth : Depth
no_depth _ = none

abbrev pub set_level : ℕ → ℕ → Depth → Depth
set_level px sz d q = if px == q then some sz else d q

abbrev pub drop_level : ℕ → Depth → Depth
drop_level px d q = if px == q then none else d q

-- What one entry of an increment asks of a side: a level set, a level set on a side that is emptied
-- first, a level dropped, nothing, or a side emptied.
pub data Change : Type 0 where
  put replace : ℕ → ℕ → Change
  delete : ℕ → Change
  unchanged wipe : Change

abbrev pub apply_change : Change → Depth → Depth
apply_change (put px sz) d = set_level px sz d
apply_change (replace px sz) d = set_level px sz no_depth
apply_change (delete px) d = drop_level px d
apply_change unchanged d = d
apply_change wipe d = no_depth

pub data Update : Type 0 where
  on_bids on_asks : Change → Update
  skip : Update

pub record Depths : Type 0 where
  pub bid : Depth
  pub ask : Depth

abbrev pub apply_update : Depths → Update → Depths
apply_update d (on_bids c) = record d { bid = apply_change c d.bid }
apply_update d (on_asks c) = record d { ask = apply_change c d.ask }
apply_update d skip = d

abbrev pub update_view : Update → Depths → Depths
update_view u d = apply_update d u

module _ {before : ℕ → ℕ → Bool} {M : Type 0} (m : BtreeMap before M) where
  abbrev pub depth : M → Depth
  depth levels q = find q (m.entries levels)

  pub depth-empty : depth m.empty ≡ no_depth
  depth-empty = fun_ext λ q. ap (find q) m.entries-empty

  pub depth-assign :
      (px sz : ℕ) (levels : M) → depth (m.assign px sz levels) ≡ set_level px sz (depth levels)
  depth-assign px sz levels = fun_ext λ q. m.find-assign px sz q levels

  pub depth-erase : (px : ℕ) (levels : M) → depth (m.erase px levels) ≡ drop_level px (depth levels)
  depth-erase px levels = fun_ext λ q. m.find-erase px q levels

module _ {B A : Type 0} ⦃bids : BtreeMap greater B⦄ ⦃asks : BtreeMap less A⦄ where
  abbrev pub view : OrderBook B A → Depths
  view book = record { bid = depth bids book.bid_map; ask = depth asks book.ask_map }
