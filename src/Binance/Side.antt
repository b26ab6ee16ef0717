-- ===== src/Binance/Side.antt =====
-- src/binance/side.h: the side of a trade, as Binance's character and as a text.
use trader_cpp.Base.{
  ℕ, ◌≡◌, ◌↔◌, Text, codes, Outcome, ok, throw, runtime_error, unmapped_side, if◌then◌else◌, ◌==◌,
  arith,
}

pub data SideEnum : Type 0 where
  buy sell : SideEnum

unfoldable pub from_str : ℕ → Outcome SideEnum
from_str side =
    if side == b'1'
    then ok buy
    else (if side == b'2' then ok sell else throw (runtime_error unmapped_side))

unfoldable pub to_str_view : SideEnum → Text
to_str_view buy = codes "BUY"
to_str_view sell = codes "SELL"

unfoldable pub to_str : SideEnum → Text
to_str buy = codes "BUY"
to_str sell = codes "SELL"

unfoldable pub to_char : SideEnum → ℕ
to_char buy = b'1'
to_char sell = b'2'

-- A character is read as a side exactly when it is the one that the side is written as.
pub from_str-to_char_iff : (c : ℕ) (s : SideEnum) → (from_str c ≡ ok s) ↔ (c ≡ to_char s)
unfolding from_str to_char
from_str-to_char_iff c buy = ground arith
from_str-to_char_iff c sell = ground arith
